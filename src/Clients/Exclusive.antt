-- ===== src/Clients/Exclusive.antt =====
-- The swap of the buffers among threads that record traces: one thread at a time is inside it.
use rbtrace.Base.{
  ℕ, suc, ◌+◌, ◌≤◌, ◌<◌, ◌^◌, ◌≡◌, ◌≢◌, ◌∙◌, ◌⊎◌, inl, inr, false, false≢true, List, [], ◌∷◌, arith,
  refl, sym, subst, update, update_self, update_ne, Bool-cases, ℕ_discrete, length,
}
use rbtrace.Trace.{RingConfig}
use rbtrace.Ring.State.{Shm}
use rbtrace.Clients.{
  Client, State, Event, move, call, look, measure, wipe, take_lost, take_flush, begin_call,
  wipe_buffer, clear_lost, resting, clearing, sizing, Writer, step, happen, run,
}
use rbtrace.Clients.Midway.{
  in_swap, IsSwapping, IsPair, IsMidway, IsMidway-of_pair, IsPair-of_midway, IsMidway-ext, TurnsAt,
  step_at-TurnsAt, begin_call-TurnsAt,
}

module _ (a b : ℕ) where
  -- After at most `n` events since the daemon cleared `ri_flush`.
  pub record IsExclusive (n : ℕ) (s : State) : Type 0 where
    pub counted : s.shm.info.flush ≤ n
    pub raised : (i : ℕ) → IsSwapping (s.clients i) → 1 ≤ s.shm.info.flush
    pub alone : (i j : ℕ) → IsSwapping (s.clients i) → IsSwapping (s.clients j) → i ≡ j
    pub midway : (i : ℕ) → IsSwapping (s.clients i) → IsMidway a b (s.clients i).pc s.shm
    pub settled :
        ((i : ℕ) → ¬ IsSwapping (s.clients i)) → IsPair a b s.shm.info.cir_off s.shm.info.alt_off

  -- One thread has taken a step, and nothing else has changed.
  abbrev turned : ℕ → Client × Shm → State → State
  turned i r s = record s { shm = r.1; clients = update s.clients i r.0 }

  module _ (i : ℕ) (r : Client × Shm) (s : State) {n : ℕ} (x : IsExclusive n s)
      (t : TurnsAt a b (s.clients i).pc r s.shm) where
    before : IsSwapping (s.clients i) ⊎ (in_swap (s.clients i).pc ≡ false)
    before = Bool-cases (in_swap (s.clients i).pc)

    moved : (j : ℕ) → i ≡ j → IsSwapping (update s.clients i r.0 j) → IsSwapping r.0
    moved j d h =
        subst IsSwapping (update_self s.clients i r.0)
          (subst (λ k. IsSwapping (update s.clients i r.0 k)) (sym d) h)

    stayed : (j : ℕ) → i ≢ j → IsSwapping (update s.clients i r.0 j) → IsSwapping (s.clients j)
    stayed j d h = subst IsSwapping (update_ne s.clients i j r.0 d) h

    -- A thread inside the swap was there before, or has just entered.
    was :
        (j : ℕ)
        → IsSwapping (update s.clients i r.0 j)
        → IsSwapping (s.clients j) ⊎ ((i ≡ j) × (s.shm.info.flush ≡ 0) × (1 ≤ r.1.info.flush))
    was j h = elim (ℕ_discrete i j) [
      | no d ↦ inl (stayed j d h)
      | yes d ↦ elim before [
        | inl e ↦ inl (subst (λ k. IsSwapping (s.clients k)) d e)
        | inr e ↦ let k = t.3 e (moved j d h) in inr (d, k.0, k.1)
      ]
    ]

    nobody : s.shm.info.flush ≡ 0 → (j : ℕ) → ¬ IsSwapping (s.clients j)
    nobody z j h = omega (arith, x.raised j h)

    turned-raised : (j : ℕ) → IsSwapping (update s.clients i r.0 j) → 1 ≤ r.1.info.flush
    turned-raised j h = elim (was j h) [ inl k ↦ omega (arith, x.raised j k, t.2) | inr k ↦ k.2 ]

    turned-alone :
        (j k : ℕ)
        → IsSwapping (update s.clients i r.0 j)
        → IsSwapping (update s.clients i r.0 k)
        → j ≡ k
    turned-alone j k h g = elim (was j h) [
      | inl hj ↦ elim (was k g) [ inl hk ↦ x.alone j k hj hk | inr hk ↦ absurd (nobody hk.1 j hj) ]
      | inr hj ↦ elim (was k g) [ inl hk ↦ absurd (nobody hj.1 k hk) | inr hk ↦ sym hj.0 ∙ hk.0 ]
    ]

    -- What held of the place of the thread before its step.
    here_before : IsSwapping r.0 → IsMidway a b (s.clients i).pc s.shm
    here_before h = elim before [
      | inl e ↦ x.midway i e
      | inr e ↦ IsMidway-of_pair a b (s.clients i).pc s.shm e (x.settled (nobody ((t.3 e h).0)))
    ]

    left : (j : ℕ) → i ≢ j → IsSwapping (s.clients j) → in_swap (s.clients i).pc ≡ false
    left j d h = elim before [ inl e ↦ absurd (d (x.alone i j e h)) | inr e ↦ e ]

    turned-IsMidway :
        (j : ℕ)
        → IsSwapping (update s.clients i r.0 j)
        → IsMidway a b (update s.clients i r.0 j).pc r.1
    turned-IsMidway j h = elim (ℕ_discrete i j) [
      | no d ↦ rw (update_ne s.clients i j r.0 d) (
          IsMidway-ext a b (s.clients j).pc s.shm r.1 (t.0 (left j d (stayed j d h)))
            (x.midway j (stayed j d h)))
      | yes d ↦ rw (sym d, update_self s.clients i r.0) (t.1 (here_before (moved j d h)))
    ]

    -- A thread outside the swap now, with everyone else, while the step was taken from outside it.
    others_out :
        ((j : ℕ) → ¬ IsSwapping (update s.clients i r.0 j))
        → in_swap (s.clients i).pc ≡ false
        → (j : ℕ) → ¬ IsSwapping (s.clients j)
    others_out h e j k = elim (ℕ_discrete i j) [
      | no d ↦ h j (subst IsSwapping (sym (update_ne s.clients i j r.0 d)) k)
      | yes d ↦ false≢true (sym e ∙ subst (λ l. IsSwapping (s.clients l)) (sym d) k)
    ]

    gone : ((j : ℕ) → ¬ IsSwapping (update s.clients i r.0 j)) → in_swap r.0.pc ≡ false
    gone h = elim (Bool-cases (in_swap r.0.pc)) [
      | inl e ↦ absurd (h i (subst IsSwapping (sym (update_self s.clients i r.0)) e))
      | inr e ↦ e
    ]

    turned-IsPair :
        ((j : ℕ) → ¬ IsSwapping (update s.clients i r.0 j))
        → IsPair a b r.1.info.cir_off r.1.info.alt_off
    turned-IsPair h = IsPair-of_midway a b r.0.pc r.1 (gone h) (
        t.1 (elim before [
          | inl e ↦ x.midway i e
          | inr e ↦ IsMidway-of_pair a b (s.clients i).pc s.shm e (x.settled (others_out h e))
        ]))

    turned-IsExclusive : IsExclusive (n + 1) (turned i r s)
    turned-IsExclusive = record {
      counted = omega (arith, x.counted, t.2);
      raised = turned-raised;
      alone = turned-alone;
      midway = turned-IsMidway;
      settled = turned-IsPair;
    }

  -- An event that leaves the threads, the offsets and `ri_flush` alone.
  same-IsExclusive :
      {n : ℕ} (s : State) (m : Shm) (w : Writer)
      → (m.info.cir_off ≡ s.shm.info.cir_off)
        × (m.info.alt_off ≡ s.shm.info.alt_off)
        × (m.info.flush ≡ s.shm.info.flush)
      → IsExclusive n s
      → IsExclusive (n + 1) (record s { shm = m; writer = w })
  same-IsExclusive s m w e x = record {
    counted = omega (arith, x.counted, e.2);
    raised = λ i h. omega (arith, x.raised i h, e.2);
    alone = x.alone;
    midway = λ i h. IsMidway-ext a b (s.clients i).pc s.shm m (e.0, e.1) (x.midway i h);
    settled = λ h. let k = x.settled h in ground arith;
  }

  wiped :
      (w : Writer) (s : Shm)
      → ((wipe_buffer w s).info.cir_off ≡ s.info.cir_off)
        × ((wipe_buffer w s).info.alt_off ≡ s.info.alt_off)
        × ((wipe_buffer w s).info.flush ≡ s.info.flush)
  wiped resting s = (refl, refl, refl)
  wiped (sizing f base) s = (refl, refl, refl)
  wiped (clearing base k) s = (refl, refl, refl)

  -- The daemon clears `ri_flush` only while no thread is inside the swap.
  abbrev pub IsPatientEvent : Event → State → Type 0
  IsPatientEvent take_flush s = (i : ℕ) → ¬ IsSwapping (s.clients i)
  IsPatientEvent e s = Unit

  abbrev pub IsPatient : RingConfig → List Event → State → Type 0
  IsPatient cfg [] s = Unit
  IsPatient cfg (e ∷ es) s = IsPatientEvent e s × IsPatient cfg es (happen cfg e s)

  happen-IsExclusive :
      (cfg : RingConfig) (e : Event) (s : State) {n : ℕ}
      → IsPatientEvent e s
      → n + 1 < 2 ^ 32
      → IsExclusive n s
      → IsExclusive (n + 1) (happen cfg e s)
  unfolding happen step
  happen-IsExclusive cfg (move i t) s p h x =
      turned-IsExclusive i (step cfg t (s.clients i) s.shm) s x (
        step_at-TurnsAt a b cfg t (s.clients i).pc (s.clients i) s.shm (omega (arith, x.counted))
          refl)
  happen-IsExclusive cfg (call i y) s p h x =
      turned-IsExclusive i (begin_call y (s.clients i), s.shm) s x
        (begin_call-TurnsAt a b y (s.clients i) s.shm)
  happen-IsExclusive cfg (look do_flush) s p h x = same-IsExclusive s s.shm _ (refl, refl, refl) x
  happen-IsExclusive cfg measure s p h x = same-IsExclusive s s.shm _ (refl, refl, refl) x
  happen-IsExclusive cfg wipe s p h x =
      same-IsExclusive s (wipe_buffer s.writer s.shm) resting (wiped s.writer s.shm) x
  happen-IsExclusive cfg take_lost s p h x =
      same-IsExclusive s (clear_lost s.shm) s.writer (refl, refl, refl) x
  happen-IsExclusive cfg take_flush s p h x = record {
    counted = omega arith;
    raised = λ i k. absurd (p i k);
    alone = x.alone;
    midway = λ i k. absurd (p i k);
    settled = x.settled;
  }

  -- However the threads and the daemon interleave, at most one thread at a time is inside the swap of
  -- the buffers, it works on the offsets that it has read, and whenever no thread is inside it, the
  -- two offsets name the two buffers, one each. Conditions: this holds at the start, fewer than 2^32
  -- events happen, and the daemon clears `ri_flush` only while no thread is inside the swap.
  pub run-IsExclusive :
      (cfg : RingConfig) (es : List Event) (s : State) {n : ℕ}
      → IsExclusive n s
      → IsPatient cfg es s
      → n + length es < 2 ^ 32
      → IsExclusive (n + length es) (run cfg es s)
  unfolding run
  run-IsExclusive cfg [] s {n} x p h =
      subst (λ k. IsExclusive k s) {x = n} {y = n + 0} (omega arith) x
  run-IsExclusive cfg (e ∷ es) s {n} x p h =
      subst (λ k. IsExclusive k (run cfg es (happen cfg e s))) {x = n + 1 + length es}
        {y = n + suc (length es)} (omega arith)
        (run-IsExclusive cfg es (happen cfg e s) (happen-IsExclusive cfg e s p.0 (omega arith) x)
          p.1 (omega arith))
