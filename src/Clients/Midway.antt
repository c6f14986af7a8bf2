-- ===== src/Clients/Midway.antt =====
-- The swap of the buffers in `ringwrap_slot`, place by place: the offsets midway through it, and
-- what a step of one thread does to them.
use rbtrace.Base.{
  ℕ, ◌+◌, ◌≤◌, ◌<◌, ◌^◌, ◌≡◌, ◌∙◌, ◌⊎◌, inl, inr, Bool, true, false, false≢true, List, [], ◌∷◌,
  arith, refl, ap, sym, Bool-cases,
}
use rbtrace.Trace.{Args, Stamp, RingConfig}
use rbtrace.Ring.{store}
use rbtrace.Ring.State.{Shm, signal_thread}
use rbtrace.Clients.{
  Pc, Client, enter, placing, stamping, storing, full, swapping, swap_load, swap_cir, swap_alt,
  restarting, reporting, signalling, retrying, undoing, dropping, waiting, again, returned,
  return_to, is_idle, begin_call, step_at,
}

abbrev pub in_swap : Pc → Bool
in_swap swapping = true
in_swap (swap_load x) = true
in_swap (swap_cir x y) = true
in_swap (swap_alt x) = true
in_swap p = false

abbrev pub IsSwapping : Client → Type 0
IsSwapping c = in_swap c.pc ≡ true

module _ (a b : ℕ) where
  -- The two offsets name the two buffers, one each.
  abbrev pub IsPair : ℕ → ℕ → Type 0
  IsPair x y = ((x ≡ a) × (y ≡ b)) ⊎ ((x ≡ b) × (y ≡ a))

  -- The offsets at each place of the swap, with the values that its thread has read.
  abbrev pub IsMidway : Pc → Shm → Type 0
  IsMidway (swap_load x) s = IsPair s.info.cir_off s.info.alt_off × (x ≡ s.info.cir_off)
  IsMidway (swap_cir x y) s =
      IsPair s.info.cir_off s.info.alt_off × (x ≡ s.info.cir_off) × (y ≡ s.info.alt_off)
  IsMidway (swap_alt x) s = IsPair x s.info.cir_off
  IsMidway p s = IsPair s.info.cir_off s.info.alt_off

  pub IsMidway-of_pair :
      (p : Pc) (s : Shm) → in_swap p ≡ false → IsPair s.info.cir_off s.info.alt_off → IsMidway p s
  IsMidway-of_pair swapping s out h = h
  IsMidway-of_pair (swap_load x) s out h = absurd (false≢true (sym out))
  IsMidway-of_pair (swap_cir x y) s out h = absurd (false≢true (sym out))
  IsMidway-of_pair (swap_alt x) s out h = absurd (false≢true (sym out))
  IsMidway-of_pair p s out h = h

  pub IsPair-of_midway :
      (p : Pc) (s : Shm) → in_swap p ≡ false → IsMidway p s → IsPair s.info.cir_off s.info.alt_off
  IsPair-of_midway (swap_load x) s out h = h.0
  IsPair-of_midway (swap_cir x y) s out h = h.0
  IsPair-of_midway (swap_alt x) s out h = absurd (false≢true (sym out))
  IsPair-of_midway p s out h = h

  pub IsMidway-ext :
      (p : Pc) (s s' : Shm)
      → (s'.info.cir_off ≡ s.info.cir_off) × (s'.info.alt_off ≡ s.info.alt_off)
      → IsMidway p s
      → IsMidway p s'
  IsMidway-ext (swap_load x) s s' e h = ground arith
  IsMidway-ext (swap_cir x y) s s' e h = ground arith
  IsMidway-ext (swap_alt x) s s' e h = ground arith
  IsMidway-ext p s s' e h = ground arith

  -- What a step of one thread does to the swap.
  -- What a step of one thread does to the swap.
  abbrev pub TurnsAt : Pc → Client × Shm → Shm → Type 0
  TurnsAt p r s =
      (in_swap p ≡ false
        → (r.1.info.cir_off ≡ s.info.cir_off) × (r.1.info.alt_off ≡ s.info.alt_off))
      × (IsMidway p s → IsMidway r.0.pc r.1)
      × ((s.info.flush ≤ r.1.info.flush) × (r.1.info.flush ≤ s.info.flush + 1))
      × (in_swap p ≡ false → in_swap r.0.pc ≡ true → (s.info.flush ≡ 0) × (1 ≤ r.1.info.flush))

  return_to-out :
      (l : List Args) (c : Client) → in_swap c.pc ≡ false → in_swap (return_to l c).pc ≡ false
  return_to-out [] c h = h
  return_to-out (x ∷ l) c h = refl

  pub step_at-TurnsAt :
      (cfg : RingConfig) (t : Stamp) (p : Pc) (c : Client) (s : Shm)
      → s.info.flush + 1 < 2 ^ 32
      → c.pc ≡ p
      → TurnsAt p (step_at p cfg t c s) s
  unfolding step_at store signal_thread
  step_at-TurnsAt cfg t enter c s h e = ground arith
  step_at-TurnsAt cfg t (placing n) c s h e = ground arith
  step_at-TurnsAt cfg t (stamping x) c s h e = ground arith
  step_at-TurnsAt cfg t (storing x) c s h e = ground arith
  step_at-TurnsAt cfg t full c s h e = ground arith
  step_at-TurnsAt cfg t swapping c s h e = ground arith
  step_at-TurnsAt cfg t (swap_load x) c s h e = ground arith
  step_at-TurnsAt cfg t (swap_cir x y) c s h e = ground arith
  step_at-TurnsAt cfg t (swap_alt x) c s h e = ground arith
  step_at-TurnsAt cfg t (restarting true) c s h e = ground arith
  step_at-TurnsAt cfg t (restarting false) c s h e = ground arith
  step_at-TurnsAt cfg t reporting c s h e = ground arith
  step_at-TurnsAt cfg t signalling c s h e = ground arith
  step_at-TurnsAt cfg t retrying c s h e = ground arith
  step_at-TurnsAt cfg t (undoing n) c s h e = ground arith
  step_at-TurnsAt cfg t dropping c s h e = ground arith
  step_at-TurnsAt cfg t (waiting n) c s h e = ground arith
  step_at-TurnsAt cfg t again c s h e = ground arith
  step_at-TurnsAt cfg t (returned d) c s h e =
      let out = return_to-out c.callers c (ap in_swap e) in
      (
        λ o. (refl, refl),
        IsMidway-of_pair (return_to c.callers c).pc s out,
        (omega arith, omega arith),
        λ o i. absurd (false≢true (sym out ∙ i)),
      )

  is_idle-out : (p : Pc) (l : List Args) → is_idle p l ≡ true → in_swap p ≡ false
  is_idle-out (returned d) l e = refl
  is_idle-out p l e = absurd (false≢true e)

  pub begin_call-TurnsAt : (x : Args) (c : Client) (s : Shm) → TurnsAt c.pc (begin_call x c, s) s
  begin_call-TurnsAt x c s = elim (Bool-cases (is_idle c.pc c.callers)) [
    | inr e ↦ rw e (
      λ o. (refl, refl),
      λ m. m,
      (omega arith, omega arith),
      λ o i. absurd (false≢true (sym o ∙ i)),
    )
    | inl e ↦ rw e (
      λ o. (refl, refl),
      IsPair-of_midway c.pc s (is_idle-out c.pc c.callers e),
      (omega arith, omega arith),
      λ o i. absurd (false≢true i),
    )
  ]
