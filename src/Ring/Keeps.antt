-- ===== src/Ring/Keeps.antt =====
-- What a call of `rbtrace` keeps whatever the shared memory holds.
use rbtrace.Base.{ℕ, zero, suc, ◌≡◌, refl, Option, none, some, sign_extend, arith}
use rbtrace.Trace.{Args, Stamp, RingConfig}
use rbtrace.Ring.{
  Stamps, finish, swap_buffers, bump_flush, next_slot, set_slot, turn_over, ringwrap, store,
  trace_at, trace,
}
use rbtrace.Ring.State.{Shm}
use rbtrace.Ring.Branches.{log_at}

-- The fields that only the control operations and the daemon change.
pub record Kept (s s' : Shm) : Type 0 where
  pub flags : s'.info.flags ≡ s.info.flags
  pub file_path : s'.info.file_path ≡ s.info.file_path
  pub tflags : s'.info.tflags ≡ s.info.tflags
  pub fsize : s'.fsize ≡ s.fsize

turn_over-Kept :
    (log : ℕ → Shm → Shm)
    → ((lost : ℕ) (s : Shm) → Kept s (log lost s))
    → (s : Shm) → Kept s (turn_over log s)
unfolding turn_over
turn_over-Kept log keeps s =
    ground (arith, keeps (sign_extend s.info.lost) (swap_buffers (bump_flush s)))

ringwrap-Kept :
    (cfg : RingConfig) (t : Stamp) (log : ℕ → Shm → Shm)
    → ((lost : ℕ) (s : Shm) → Kept s (log lost s))
    → (s : Shm) → Kept s (ringwrap cfg t log s).1
unfolding ringwrap
ringwrap-Kept cfg t log keeps s =
    ground (arith, turn_over-Kept log keeps (set_slot (next_slot s) s))

finish-Kept : (c : Args) (s : Shm) (r : Option ℕ × Shm) → Kept s r.1 → Kept s (finish c r).1
unfolding store
finish-Kept c s (none, s') k = k
finish-Kept c s (some at, s') k = record {
  flags = k.flags;
  file_path = k.file_path;
  tflags = k.tflags;
  fsize = k.fsize;
}

trace_at-Kept :
    (d : ℕ) (cfg : RingConfig) (ts : Stamps) (c : Args) (s : Shm) → Kept s (trace_at d cfg ts c s).1
unfolding trace_at
trace_at-Kept zero cfg ts c s = record {
  flags = refl;
  file_path = refl;
  tflags = refl;
  fsize = refl;
}
trace_at-Kept (suc d) cfg ts c s =
    finish-Kept c s _
      (ringwrap-Kept cfg ts.own (log_at d cfg ts) (λ lost s'. trace_at-Kept d cfg _ _ s') s)

pub trace-Kept : (cfg : RingConfig) (ts : Stamps) (c : Args) (s : Shm) → Kept s (trace cfg ts c s).1
unfolding trace
trace-Kept cfg ts c s = trace_at-Kept 2 cfg ts c s
