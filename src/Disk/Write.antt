-- ===== src/Disk/Write.antt =====
-- `safe_pwrite`, rbtrace_backing.c, with what the system answers.
use rbtrace.Base.{
  ℕ, zero, suc, ◌+◌, ◌-◌, ◌≤◌, ◌<◌, ◌≡◌, refl, ap, ◌∙◌, fun_ext, true, List, [], ◌∷◌, none, some,
  ◌==◌, min, max, Bool-cases, inl, inr, arith,
}
use rbtrace.Disk.{
  File, byte_after, written, Answer, wrote, interrupted, failed, Written, shift, safe_pwrite,
}

-- Two writes, the second where the first ends, are one.
pub written-written :
    (f : File) (buf : ℕ → ℕ) (k m off : ℕ)
    → written (written f buf k off) (shift buf k) m (off + k) ≡ written f buf (k + m) off
written-written f buf zero m off =
    ap (λ b. written f b m (off + 0)) {x = shift buf 0} {y = buf}
      (fun_ext λ i. ap buf {x = 0 + i} {y = i} (omega arith))
    ∙ ap (λ o. written f buf m o) {x = off + 0} {y = off} (omega arith)
    ∙ ap (λ n. written f buf n off) {x = m} {y = 0 + m} (omega arith)
written-written f buf (suc k) zero off =
    ap (λ n. written f buf n off) {x = suc k} {y = suc k + 0} (omega arith)
written-written f buf (suc k) (suc m) off =
    ap (λ n. record { size = n; byte = after })
      {x = max (max f.size (off + suc k)) (off + suc k + suc m)}
      {y = max f.size (off + suc (suc k + m))} (omega arith)
    ∙ ap (λ b. record { size = max f.size (off + suc (suc k + m)); byte = b }) {x = after}
        {y = byte_after f buf (suc (suc k + m)) off} (fun_ext λ i. joined i)
    ∙ ap (λ n. written f buf n off) {x = suc (suc k + m)} {y = suc k + suc m} (omega arith)
  where
    after : ℕ → ℕ
    after = byte_after (written f buf (suc k) off) (shift buf (suc k)) (suc m) (off + suc k)

    joined : (i : ℕ) → after i ≡ byte_after f buf (suc (suc k + m)) off i
    joined i = ground arith

-- Some prefix of the buffer was written in one piece: all of it exactly if the result is 0.
pub record Prefix (f : File) (buf : ℕ → ℕ) (count off : ℕ) (w : Written) : Type 0 where
  pub done : ℕ
  pub within : done ≤ count
  pub file : w.file ≡ written f buf done off
  pub complete : w.rc ≡ none → done ≡ count
  pub partial : (e : ℕ) → w.rc ≡ some e → done < count

nothing-Prefix :
    (f : File) (buf : ℕ → ℕ) (off : ℕ) (as' : List Answer) (count : ℕ)
    → (count == 0) ≡ true
    → Prefix f buf count off (record { rc = none; file = f; rest = as' })
nothing-Prefix f buf off as' count e = record {
  done = 0;
  within = omega arith;
  file = refl;
  complete = λ _. ground arith;
  partial = λ k h. cc;
}

-- A piece followed by a prefix of what is left.
then-Prefix :
    (f : File) (buf : ℕ → ℕ) (count off k : ℕ) (w : Written)
    → k ≤ count
    → Prefix (written f buf k off) (shift buf k) (count - k) (off + k) w
    → Prefix f buf count off w
then-Prefix f buf count off k w h p = record {
  done = k + p.done;
  within = omega (arith, p.within);
  file = p.file ∙ written-written f buf k p.done off;
  complete = λ e. omega (arith, p.complete e);
  partial = λ e q. omega (arith, p.partial e q);
}

safe_pwrite-Prefix :
    (as' : List Answer) (buf : ℕ → ℕ) (count off : ℕ) (f : File)
    → Prefix f buf count off (safe_pwrite as' buf count off f)
unfolding safe_pwrite
safe_pwrite-Prefix [] buf count off f = record {
  done = count;
  within = omega arith;
  file = refl;
  complete = λ _. refl;
  partial = λ e h. cc;
}
safe_pwrite-Prefix (interrupted ∷ as') buf count off f = elim (Bool-cases (count == 0)) [
  | inl e ↦ rw e (nothing-Prefix f buf off (interrupted ∷ as') count e)
  | inr e ↦ rw e (safe_pwrite-Prefix as' buf count off f)
]
safe_pwrite-Prefix (failed n ∷ as') buf count off f = elim (Bool-cases (count == 0)) [
  | inl e ↦ rw e (nothing-Prefix f buf off (failed n ∷ as') count e)
  | inr e ↦ rw e (record {
    done = 0;
    within = omega arith;
    file = refl;
    complete = λ h. cc;
    partial = λ k h. ground arith;
  })
]
safe_pwrite-Prefix (wrote r ∷ as') buf count off f = elim (Bool-cases (count == 0)) [
  | inl e ↦ rw e (nothing-Prefix f buf off (wrote r ∷ as') count e)
  | inr e ↦ rw e (
      then-Prefix f buf count off (min r count) _ (omega arith) (
        safe_pwrite-Prefix as' (shift buf (min r count)) (count - min r count) (off + min r count)
          (written f buf (min r count) off)))
]

-- The system reports no error other than an interruption.
abbrev pub NoFailure : List Answer → Type 0
NoFailure [] = Unit
NoFailure (failed e ∷ as') = ⊥
NoFailure (_ ∷ as') = NoFailure as'

safe_pwrite-rc :
    (as' : List Answer) (buf : ℕ → ℕ) (count off : ℕ) (f : File)
    → NoFailure as'
    → ((safe_pwrite as' buf count off f).rc ≡ none)
      × NoFailure (safe_pwrite as' buf count off f).rest
unfolding safe_pwrite
safe_pwrite-rc [] buf count off f h = (refl, tt)
safe_pwrite-rc (failed e ∷ as') buf count off f h = absurd h
safe_pwrite-rc (interrupted ∷ as') buf count off f h = elim (Bool-cases (count == 0)) [
  | inl e ↦ rw e (refl, h)
  | inr e ↦ rw e (safe_pwrite-rc as' buf count off f h)
]
safe_pwrite-rc (wrote r ∷ as') buf count off f h = elim (Bool-cases (count == 0)) [
  | inl e ↦ rw e (refl, h)
  | inr e ↦ rw e (safe_pwrite-rc as' _ _ _ _ h)
]

-- However the system cuts or interrupts the writes, `safe_pwrite` leaves the file as one write of
-- a prefix of the buffer would: of the whole buffer exactly if it returns 0, and it returns 0 if
-- no `pwrite` fails otherwise than by an interruption.
pub safe_pwrite_atomic :
    (as' : List Answer) (buf : ℕ → ℕ) (count off : ℕ) (f : File)
    → Prefix f buf count off (safe_pwrite as' buf count off f)
      × (NoFailure as' → (safe_pwrite as' buf count off f).rc ≡ none)
safe_pwrite_atomic as' buf count off f =
    (safe_pwrite-Prefix as' buf count off f, λ h. (safe_pwrite-rc as' buf count off f h).0)

-- The same as one equation, for the callers.
pub safe_pwrite_all :
    (as' : List Answer) (buf : ℕ → ℕ) (count off : ℕ) (f : File)
    → NoFailure as'
    → ((safe_pwrite as' buf count off f).rc ≡ none)
      × ((safe_pwrite as' buf count off f).file ≡ written f buf count off)
      × NoFailure (safe_pwrite as' buf count off f).rest
safe_pwrite_all as' buf count off f h =
    let p = safe_pwrite-Prefix as' buf count off f in
    let (rc, rest) = safe_pwrite-rc as' buf count off f h in
    (rc, p.file ∙ ap (λ n. written f buf n off) (p.complete rc), rest)
