-- ===== src/Ring/Depth.antt =====
-- The report of lost traces, rbtrace.c: it calls `rbtrace` from within `rbtrace`.
use rbtrace.Base.{ℕ, suc, ◌+◌, ◌≡◌, ap, Bool, ◌==◌, Bool-cases, inl, inr, u32, ==_iff, sign_extend}
use rbtrace.Trace.{Args, Stamp, RingConfig}
use rbtrace.Ring.{
  Stamps, next_slot, set_slot, swap_buffers, bump_flush, lost_args, turn_over, ringwrap, trace_at,
  trace, finish,
}
use rbtrace.Ring.State.{Shm}
use rbtrace.Ring.Branches.{log_at}

-- With a flush outstanding the nested call is not made.
turn_over-busy :
    (log log' : ℕ → Shm → Shm) (s : Shm) → s.info.flush ≡ 1 → turn_over log s ≡ turn_over log' s
unfolding turn_over
turn_over-busy log log' s e = rw e

ringwrap-busy :
    (cfg : RingConfig) (t : Stamp) (log log' : ℕ → Shm → Shm) (s : Shm)
    → s.info.flush ≡ 1
    → ringwrap cfg t log s ≡ ringwrap cfg t log' s
unfolding ringwrap
ringwrap-busy cfg t log log' s e = rw (turn_over-busy log log' (set_slot (next_slot s) s) e)

trace_at-busy :
    (d d' : ℕ) (cfg : RingConfig) (ts : Stamps) (c : Args) (s : Shm)
    → s.info.flush ≡ 1
    → trace_at (suc d) cfg ts c s ≡ trace_at (suc d') cfg ts c s
unfolding trace_at
trace_at-busy d d' cfg ts c s e =
    ap (finish c) (ringwrap-busy cfg ts.own (log_at d cfg ts) (log_at d' cfg ts) s e)

-- The nested call is made only with the flush count just raised to 1.
turn_over_ext :
    (log log' : ℕ → Shm → Shm)
    → ((lost : ℕ) (s : Shm) → s.info.flush ≡ 1 → log lost s ≡ log' lost s)
    → (s : Shm) → turn_over log s ≡ turn_over log' s
unfolding turn_over
turn_over_ext log log' same s = elim (Bool-cases (u32 (s.info.flush + 1) == 1)) [
  | inr busy ↦ rw busy
  | inl idle ↦
      rw (idle, same (sign_extend s.info.lost) (swap_buffers (bump_flush s)) ((==_iff _ _).0 idle))
]

ringwrap_ext :
    (cfg : RingConfig) (t : Stamp) (log log' : ℕ → Shm → Shm)
    → ((lost : ℕ) (s : Shm) → s.info.flush ≡ 1 → log lost s ≡ log' lost s)
    → (s : Shm) → ringwrap cfg t log s ≡ ringwrap cfg t log' s
unfolding ringwrap
ringwrap_ext cfg t log log' same s = rw (turn_over_ext log log' same (set_slot (next_slot s) s))

-- Nested calls of `rbtrace` go one deep at most, whatever the shared memory holds: more depth than
-- two changes no result.
pub trace_at_depth :
    (d : ℕ) (cfg : RingConfig) (ts : Stamps) (c : Args) (s : Shm)
    → trace_at (suc (suc d)) cfg ts c s ≡ trace cfg ts c s
unfolding trace trace_at
trace_at_depth d cfg ts c s = ap (finish c) (
    ringwrap_ext cfg ts.own (log_at (suc d) cfg ts) (log_at 1 cfg ts)
      (λ lost s' e.
        ap (λ (r : Bool × Shm). r.1)
          (trace_at-busy d 0 cfg (record { own = ts.lost; lost = ts.lost }) (lost_args lost) s' e))
      s)
