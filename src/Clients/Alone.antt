-- ===== src/Clients/Alone.antt =====
-- A call of `rbtrace` whose steps no other thread interrupts is the call that `Ring` models.
use rbtrace.Base.{
  ℕ, zero, suc, ◌+◌, ◌<◌, ◌^◌, ◌≡◌, ◌≢◌, ◌∙◌, Bool, true, false, List, [], ◌∷◌, arith, refl, ap,
  ◌==◌, lt→ltb, le→ltb, u32, sign_extend,
}
use rbtrace.Trace.{Args, Stamp, RingConfig}
use rbtrace.Ring.{Stamps, lost_args, next_slot, claim, store, trace}
use rbtrace.Ring.State.{Shm, signal_thread}
use rbtrace.Ring.Spec.{IsValid, entry_of}
use rbtrace.Ring.Branches.{placed, swapped, discarded, store-claim, trace_cases}
use rbtrace.Clients.{Pc, Client, enter, retrying, returned, step_at, step}

-- The stamp of a thread's record: its own call's, or the one of the call that logs lost traces.
abbrev stamp_of : Stamps → List Args → Stamp
stamp_of ts [] = ts.own
stamp_of ts (a ∷ l) = ts.lost

-- `k` steps of one thread.
unfoldable pub alone : ℕ → RingConfig → Stamps → Client → Shm → Client × Shm
unfolding step
alone zero cfg ts c s = (c, s)
alone (suc k) cfg ts c s = let r = step cfg (stamp_of ts c.callers) c s in alone k cfg ts r.0 r.1

alone_add :
    (j k : ℕ) (cfg : RingConfig) (ts : Stamps) (c : Client) (s : Shm) {c' : Client} {s' : Shm}
    → alone j cfg ts c s ≡ (c', s')
    → alone (j + k) cfg ts c s ≡ alone k cfg ts c' s'
unfolding alone
alone_add zero k cfg ts c s e =
    ap (λ n. alone n cfg ts c s) {x = 0 + k} {y = k} (omega arith)
    ∙ ap (λ (r : Client × Shm). alone k cfg ts r.0 r.1) e
alone_add (suc j) k cfg ts c s e =
    let r = step cfg (stamp_of ts c.callers) c s in
    ap (λ n. alone n cfg ts c s) {x = suc j + k} {y = suc (j + k)} (omega arith)
    ∙ alone_add j k cfg ts r.0 r.1 e

module _ (cfg : RingConfig) (ts : Stamps) (a : Args) (l : List Args) (s : Shm) where
  abbrev thread : Pc → Client
  thread p = record { pc = p; args = a; callers = l }

  abbrev done_in : Shm → Client × Shm
  done_in m = (thread (returned true), m)

  alone_enter :
      next_slot s < cfg.size
      → alone 4 cfg ts (thread enter) s
        ≡ done_in (placed (next_slot s) (entry_of (stamp_of ts l) a) s)
  unfolding alone step_at store claim
  alone_enter h = rw (lt→ltb _ _ h) (ap done_in (store-claim (stamp_of ts l) a (next_slot s) s))

  alone_retry :
      next_slot s < cfg.size
      → alone 4 cfg ts (thread retrying) s
        ≡ done_in (placed (next_slot s) (entry_of (stamp_of ts l) a) s)
  unfolding alone step_at store claim
  alone_retry h = rw (lt→ltb _ _ h) (ap done_in (store-claim (stamp_of ts l) a (next_slot s) s))

module _ (cfg : RingConfig) (ts : Stamps) (a : Args) (s : Shm) (full : next_slot s ≡ cfg.size) where
  abbrev caller : Pc → Client
  caller p = record { pc = p; args = a; callers = [] }

  alone_swap :
      s.info.flush ≡ 0
      → s.info.lost ≡ 0
      → alone 9 cfg ts (caller enter) s ≡ (caller retrying, signal_thread (swapped s))
  unfolding alone step_at signal_thread
  alone_swap idle none_lost =
      let same : (cfg.size == cfg.size) ≡ true = ground arith in
      rw (full, le→ltb cfg.size cfg.size (omega arith), same, idle, none_lost) refl

  alone_report :
      s.info.flush ≡ 0
      → s.info.lost ≢ 0
      → alone 8 cfg ts (caller enter) s ≡ (
        record { pc = enter; args = lost_args (sign_extend s.info.lost); callers = a ∷ [] },
        swapped s,
      )
  unfolding alone step_at signal_thread
  alone_report idle some_lost =
      let same : (cfg.size == cfg.size) ≡ true = ground arith in
      let e : (s.info.lost == 0) ≡ false = ground arith in
      rw (full, le→ltb cfg.size cfg.size (omega arith), same, idle, e) refl

  alone_drop :
      s.info.flush ≢ 0
      → s.info.flush + 1 < 2 ^ 32
      → alone 4 cfg ts (caller enter) s ≡ (caller retrying, signal_thread (discarded s))
  unfolding alone step_at signal_thread
  alone_drop busy small =
      let same : (cfg.size == cfg.size) ≡ true = ground arith in
      let e : (u32 (s.info.flush + 1) == 1) ≡ false = ground arith in
      let f : u32 (s.info.flush + 1) ≡ s.info.flush + 1 = omega arith in
      rw (full, le→ltb cfg.size cfg.size (omega arith), same, e, f) refl

-- The return of a call that logged lost traces, and the signal.
alone_resume :
    (cfg : RingConfig) (ts : Stamps) (a b : Args) (m : Shm)
    → alone 2 cfg ts (record { pc = returned true; args = b; callers = a ∷ [] }) m
      ≡ (record { pc = retrying; args = a; callers = [] }, signal_thread m)
unfolding alone step_at
alone_resume cfg ts a b m = refl

module _ (cfg : RingConfig) (ts : Stamps) (a : Args) where
  -- Enough steps alone bring the thread to its return, with the given result and memory.
  abbrev pub Returns : Shm → Bool × Shm → Type 0
  Returns s r =
      (k : ℕ) × (alone k cfg ts (record { pc = enter; args = a; callers = [] }) s
        ≡ (record { pc = returned r.0; args = a; callers = [] }, r.1))

  abbrev logged : Shm → Shm
  logged s = placed 0 (entry_of ts.lost (lost_args (sign_extend s.info.lost))) (swapped s)

  -- A call of `rbtrace` that no other thread interrupts, on a well-formed ring with fewer than
  -- 2^32 - 1 flushes outstanding, comes to its return after finitely many steps, with the result and
  -- the memory of the model that runs the call at once.
  pub alone-trace :
      (s : Shm) → IsValid cfg s → s.info.flush + 1 < 2 ^ 32 → Returns s (trace cfg ts a s)
  unfolding signal_thread
  alone-trace s v small =
      trace_cases (Returns s) cfg ts a s v small (λ h. (4, alone_enter cfg ts a [] s h))
        (λ full idle none_lost. (
          9 + 4,
          alone_add 9 4 cfg ts _ s (alone_swap cfg ts a s full idle none_lost)
              ∙ alone_retry cfg ts a [] (signal_thread (swapped s)) (omega (arith, v.large)),
        ))
        (λ full idle some_lost. (
          8 + (4 + (2 + 4)),
          alone_add 8 _ cfg ts _ s (alone_report cfg ts a s full idle some_lost)
              ∙ alone_add 4 _ cfg ts _ (swapped s) (
                  alone_enter cfg ts (lost_args (sign_extend s.info.lost)) (a ∷ []) (swapped s)
                    (omega (arith, v.large)))
              ∙ alone_add 2 4 cfg ts _ (logged s)
                  (alone_resume cfg ts a (lost_args (sign_extend s.info.lost)) (logged s))
              ∙ alone_retry cfg ts a [] (signal_thread (logged s)) (omega (arith, v.large)),
        ))
        (λ full busy. (
          4 + 4,
          alone_add 4 4 cfg ts _ s (alone_drop cfg ts a s full busy small)
              ∙ alone_retry cfg ts a [] (signal_thread (discarded s)) (omega (arith, v.large)),
        ))
