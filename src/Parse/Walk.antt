-- ===== src/Parse/Walk.antt =====
-- One page of a trace file, prbt.c, record by record.
use rbtrace.Base.{
  ℕ, zero, suc, ◌+◌, ◌*◌, ◌≤◌, ◌<◌, ◌≡◌, refl, ap, ap₂, ◌∙◌, Bool, true, false, ltb, arith,
}
use rbtrace.Trace.{Entry}
use rbtrace.Wire.{entry_at, le_read}
use rbtrace.Parse.{out, behind, walk}

le_read_ext :
    (k : ℕ) (m m' : ℕ → ℕ) (at at' : ℕ)
    → ((i : ℕ) → i < k → m (at + i) ≡ m' (at' + i))
    → le_read k m at ≡ le_read k m' at'
unfolding le_read
le_read_ext zero m m' at at' same = refl
le_read_ext (suc k) m m' at at' same =
    ap₂ (λ low high. low + 256 * high)
      (ap m {x = at} {y = at + 0} (omega arith)
        ∙ same 0 (omega arith)
        ∙ ap m' {x = at' + 0} {y = at'} (omega arith))
      (le_read_ext k m m' (at + 1) (at' + 1) λ i p.
        ap m {x = at + 1 + i} {y = at + suc i} (omega arith)
        ∙ same (suc i) (omega arith)
        ∙ ap m' {x = at' + suc i} {y = at' + 1 + i} (omega arith))

module _ (m m' : ℕ → ℕ) (at at' : ℕ) (same : (i : ℕ) → i < 56 → m (at + i) ≡ m' (at' + i)) where
  part : (k lo : ℕ) → lo + k ≤ 56 → le_read k m (at + lo) ≡ le_read k m' (at' + lo)
  part k lo h = le_read_ext k m m' (at + lo) (at' + lo) λ i p.
      ap m {x = at + lo + i} {y = at + (lo + i)} (omega arith)
      ∙ same (lo + i) (omega arith)
      ∙ ap m' {x = at' + (lo + i)} {y = at' + lo + i} (omega arith)

  -- The same bytes are the same record.
  pub entry_at_ext : entry_at m at ≡ entry_at m' at'
  unfolding entry_at
  entry_at_ext =
      rw
        (
          le_read_ext 8 m m' at at' (λ i p. same i (omega arith)),
          part 8 8 (omega arith),
          part 8 16 (omega arith),
          part 8 24 (omega arith),
          part 8 32 (omega arith),
          part 8 40 (omega arith),
          part 4 48 (omega arith),
        )
        refl

-- The effect `g` on each of the `n` records from `at` on, in order.
abbrev pub fold_records : {S : Type 0} → (ℕ → Entry → S → S) → (ℕ → ℕ) → ℕ → ℕ → ℕ → S → S
fold_records g m zero at cnt s = s
fold_records g m (suc n) at cnt s = fold_records g m n (at + 56) (cnt + 1) (g cnt (entry_at m at) s)

module _ {S : Type 0} (g : ℕ → Entry → S → S) where
  -- A callback that never stops the walk.
  abbrev pub always : ℕ → Entry → S → Bool × S
  always cnt e s = (false, g cnt e s)

  pub fold_records_add :
      (m : ℕ → ℕ) (a b at cnt : ℕ) (s : S)
      → fold_records g m b (at + a * 56) (cnt + a) (fold_records g m a at cnt s)
        ≡ fold_records g m (a + b) at cnt s
  fold_records_add m zero b at cnt s =
      ap₂ (λ x c. fold_records g m b x c s) {x = at + 0 * 56} {y = at} {u = cnt + 0} {v = cnt}
        (omega arith) (omega arith)
      ∙ ap (λ n. fold_records g m n at cnt s) {x = b} {y = 0 + b} (omega arith)
  fold_records_add m (suc a) b at cnt s =
      ap₂
        (λ x c.
          fold_records g m b x c (fold_records g m a (at + 56) (cnt + 1) (g cnt (entry_at m at) s)))
        {x = at + suc a * 56} {y = at + 56 + a * 56} {u = cnt + suc a} {v = cnt + 1 + a}
        (omega arith) (omega arith)
      ∙ fold_records_add m a b (at + 56) (cnt + 1) (g cnt (entry_at m at) s)
      ∙ ap (λ n. fold_records g m n at cnt s) {x = suc (a + b)} {y = suc a + b} (omega arith)

  module _ (m page : ℕ → ℕ) (base n : ℕ) (same : (j : ℕ) → j < n → page j ≡ m (base + j)) where
    -- One turn of the inner loop, at a record that is not the end.
    walk_turn :
        (done : ℕ → Bool) (fuel off cnt : ℕ) (s : S)
        → off + 56 ≤ n
        → done (base + off) ≡ false
        → walk always done (suc fuel) page n base off cnt s
          ≡ walk always done fuel page n base
              (off + 56)
              (cnt + 1)
              (g cnt (entry_at m (base + off)) s)
    unfolding walk
    walk_turn done fuel off cnt s h going =
        let inside : ltb off n ≡ true = ground arith in
        let read : entry_at page off ≡ entry_at m (base + off) =
          entry_at_ext page m off (base + off) λ i p.
            same (off + i) (omega arith)
            ∙ ap m {x = base + (off + i)} {y = base + off + i} (omega arith) in
        rw (inside, read, going) refl

    -- The inner loop, with nothing to stop it, visits every record that is left in the page.
    pub walk_all :
        (done : ℕ → Bool) (fuel k off cnt : ℕ) (s : S)
        → k ≤ fuel
        → n ≡ off + k * 56
        → ((at : ℕ) → at < base + n → done at ≡ false)
        → walk always done fuel page n base off cnt s
          ≡ behind (cnt + k) (fold_records g m k (base + off) cnt s)
    unfolding walk
    walk_all done zero zero off cnt s h e going =
        ap (λ c. behind c s) {x = cnt} {y = cnt + 0} (omega arith)
    walk_all done zero (suc k) off cnt s h e going = absurd (omega arith)
    walk_all done (suc fuel) zero off cnt s h e going =
        let ended : ltb off n ≡ false = ground arith in
        rw ended (ap (λ c. behind c s) {x = cnt} {y = cnt + 0} (omega arith))
    walk_all done (suc fuel) (suc k) off cnt s h e going =
        let s' = g cnt (entry_at m (base + off)) s in
        walk_turn done fuel off cnt s (omega arith) (going (base + off) (omega arith))
        ∙ walk_all done fuel k (off + 56) (cnt + 1) s' (omega arith) (omega arith) going
        ∙ ap₂ (λ c x. behind c (fold_records g m k x (cnt + 1) s')) {x = cnt + 1 + k}
            {y = cnt + suc k} {u = base + (off + 56)} {v = base + off + 56} (omega arith)
            (omega arith)

    -- The inner loop leaves at the record `j` that stands where `done` says so.
    pub walk_until :
        (done : ℕ → Bool) (fuel j off cnt : ℕ) (s : S)
        → j < fuel
        → off + j * 56 < n
        → ((at : ℕ) → at < base + (off + j * 56) → done at ≡ false)
        → done (base + (off + j * 56)) ≡ true
        → walk always done fuel page n base off cnt s ≡ out (fold_records g m j (base + off) cnt s)
    unfolding walk
    walk_until done zero j off cnt s h q going stop = absurd (omega arith)
    walk_until done (suc fuel) zero off cnt s h q going stop =
        let inside : ltb off n ≡ true = ground arith in
        let now : done (base + off) ≡ true =
          ap done {x = base + off} {y = base + (off + 0 * 56)} (omega arith) ∙ stop in
        rw (inside, now) refl
    walk_until done (suc fuel) (suc j) off cnt s h q going stop =
        let s' = g cnt (entry_at m (base + off)) s in
        walk_turn done fuel off cnt s (omega arith) (going (base + off) (omega arith))
        ∙ walk_until done fuel j (off + 56) (cnt + 1) s' (omega arith) (omega arith)
            (λ at p. going at (omega arith))
            (ap done {x = base + (off + 56 + j * 56)} {y = base + (off + suc j * 56)} (omega arith)
              ∙ stop)
        ∙ ap (λ x. out (fold_records g m j x (cnt + 1) s')) {x = base + (off + 56)}
            {y = base + off + 56} (omega arith)
