-- ===== src/Ring/Refine.antt =====
-- `rbtrace`, rbtrace.c, against what the double buffer promises.
use rbtrace.Base.{
  ℕ, suc, ◌+◌, ◌-◌, ◌<◌, ◌^◌, ◌≡◌, refl, ap, ap₂, ◌≢◌, ◌∙◌, Bool, true, false, [], ◌∷◌, ◌++◌, none,
  some, ◌==◌, if◌then◌else◌, u32, update, block, block-update_last, block-update_outside,
  length-block, lt→ltb, le→ltb, sign_extend, arith,
}
use rbtrace.Trace.{Entry, Args, RingConfig}
use rbtrace.Ring.{Stamps, trace, lost_args}
use rbtrace.Ring.State.{Shm, signal_thread}
use rbtrace.Ring.Spec.{Batches, IsValid, count, contents, push, entry_of, lost_report}
use rbtrace.Ring.Branches.{placed, swapped, discarded, trace_cases}

-- A batch with one more record.
abbrev add : Entry → Batches → Batches
add e b = record b { current = b.current ++ (e ∷ []) }

module _ {cfg : RingConfig} {s : Shm} (v : IsValid cfg s) where
  placed-IsValid : (e : Entry) → count s < cfg.size → IsValid cfg (placed (count s) e s)
  placed-IsValid e h = omega arith

  contents-placed :
      (e : Entry)
      → count s < cfg.size
      → contents cfg (placed (count s) e s) ≡ add e (contents cfg s)
  contents-placed e h =
      ap₂ (λ c p. record { current = c; pending = p; dropped = s.info.flush - 1 }) extended waiting
    where
      mem' : ℕ → Entry
      mem' = update s.mem (s.info.cir_off + count s) e

      extended :
          block mem' s.info.cir_off (u32 (count s + 1))
          ≡ block s.mem s.info.cir_off (count s) ++ (e ∷ [])
      extended =
          ap (block mem' s.info.cir_off) {x = u32 (count s + 1)} {y = suc (count s)} (omega arith)
          ∙ block-update_last s.mem s.info.cir_off (count s) e

      same : block mem' s.info.alt_off cfg.size ≡ block s.mem s.info.alt_off cfg.size
      same =
          block-update_outside s.mem (s.info.cir_off + count s) e s.info.alt_off cfg.size
            (ground arith)

      waiting :
          (if s.info.flush == 0 then none else some (block mem' s.info.alt_off cfg.size))
          ≡ (if s.info.flush == 0 then none else some (block s.mem s.info.alt_off cfg.size))
      waiting = ap (λ b. if s.info.flush == 0 then none else some b) same

  signal-IsValid : IsValid cfg (signal_thread s)
  unfolding signal_thread
  signal-IsValid = omega arith

  swapped-IsValid : IsValid cfg (swapped s)
  swapped-IsValid = ground arith

  discarded-IsValid : s.info.flush + 1 < 2 ^ 32 → IsValid cfg (discarded s)
  discarded-IsValid h = omega arith

contents-signal : (cfg : RingConfig) (s : Shm) → contents cfg (signal_thread s) ≡ contents cfg s
unfolding signal_thread
contents-signal cfg s = refl

-- What one call must have done: it succeeds, its batches are `b`, and the ring is well formed.
pub record Traced (cfg : RingConfig) (b : Batches) (r : Bool × Shm) : Type 0 where
  pub returns : r.0 ≡ true
  pub batches : contents cfg r.1 ≡ b
  pub valid : IsValid cfg r.1

-- A record placed in a well-formed ring with room.
place-Traced :
    (cfg : RingConfig) (s : Shm) (e : Entry) (n : ℕ) (b : Batches)
    → IsValid cfg s
    → n ≡ count s
    → n < cfg.size
    → add e (contents cfg s) ≡ b
    → Traced cfg b (true, placed n e s)
place-Traced cfg s e n b v at room same = rw at (record {
  returns = refl;
  batches = contents-placed v e (rw (← at) room) ∙ same;
  valid = placed-IsValid v e (rw (← at) room);
})

module _ {cfg : RingConfig} (ts : Stamps) (c : Args) {s : Shm} (v : IsValid cfg s) where
  abbrev own : Entry
  own = entry_of ts.own c

  abbrev lost : Entry
  lost = entry_of ts.lost (lost_args (sign_extend s.info.lost))

  abbrev expected : Batches
  expected = push cfg.size ts c s.info.lost (contents cfg s)

  room-Traced : count s < cfg.size → Traced cfg expected (true, placed (count s) own s)
  unfolding push
  room-Traced h =
      place-Traced cfg s own (count s) expected v refl h (rw (length-block, lt→ltb _ _ h))

  module _ (full : count s ≡ cfg.size) where
    push_full : expected ≡ elim (contents cfg s).pending [
      | none ↦ record {
        current = lost_report ts.lost s.info.lost ++ (own ∷ []);
        pending = some (contents cfg s).current;
        dropped = 0;
      }
      | some f ↦ record {
        current = own ∷ [];
        pending = some f;
        dropped = (contents cfg s).dropped + 1;
      }
    ]
    unfolding push
    push_full = rw (length-block, le→ltb (count s) cfg.size (omega arith))

    swap-Traced :
        s.info.flush ≡ 0
        → s.info.lost ≡ 0
        → Traced cfg expected (true, placed 0 own (signal_thread (swapped s)))
    unfolding signal_thread
    swap-Traced idle none_lost =
        place-Traced cfg (signal_thread (swapped s)) own 0 expected
          (signal-IsValid (swapped-IsValid v)) refl (omega (arith, v.large))
          (rw (push_full, ← full, idle, none_lost))

    report-Traced :
        s.info.flush ≡ 0
        → s.info.lost ≢ 0
        → Traced cfg expected (true, placed 1 own (signal_thread (placed 0 lost (swapped s))))
    unfolding signal_thread
    report-Traced idle some_lost =
        let room : count (swapped s) < cfg.size = omega (arith, v.large) in
        let e : (s.info.lost == 0) ≡ false = ground arith in
        place-Traced cfg (signal_thread (placed 0 lost (swapped s))) own 1 expected
          (signal-IsValid (placed-IsValid (swapped-IsValid v) lost room)) refl
          (omega (arith, v.large))
          (ap (add own) (contents-placed (swapped-IsValid v) lost room)
            ∙ rw (push_full, ← full, idle, e))

    drop-Traced :
        s.info.flush ≢ 0
        → s.info.flush + 1 < 2 ^ 32
        → Traced cfg expected (true, placed 0 own (signal_thread (discarded s)))
    unfolding signal_thread
    drop-Traced busy small =
        place-Traced cfg (signal_thread (discarded s)) own 0 expected
          (signal-IsValid (discarded-IsValid v small)) refl (omega (arith, v.large))
          (rw push_full (ground arith))

-- A call of `rbtrace` on a well-formed ring succeeds, keeps the ring well formed, and does to its
-- batches what `push` does, as long as fewer than 2^32 - 1 flushes are outstanding: the record
-- goes to the end of the batch being filled; if that is full, it waits for the daemon and the
-- record starts the next batch, behind a report of lost traces if there are any; and if another
-- full batch waits already, the batch being filled is thrown away.
pub trace-push :
    {cfg : RingConfig} (ts : Stamps) (c : Args) {s : Shm}
    → IsValid cfg s
    → s.info.flush + 1 < 2 ^ 32
    → ((trace cfg ts c s).0 ≡ true)
      × (contents cfg (trace cfg ts c s).1 ≡ push cfg.size ts c s.info.lost (contents cfg s))
      × IsValid cfg (trace cfg ts c s).1
trace-push {cfg} ts c {s} v small =
    let r =
      trace_cases (Traced cfg (expected ts c v)) cfg ts c s v small (room-Traced ts c v)
        (swap-Traced ts c v) (report-Traced ts c v)
        (λ full busy. drop-Traced ts c v full busy small) in
    (r.returns, r.batches, r.valid)
