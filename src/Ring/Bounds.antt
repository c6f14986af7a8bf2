-- ===== src/Ring/Bounds.antt =====
-- What a call of `rbtrace` leaves alone.
use rbtrace.Base.{ℕ, ◌+◌, ◌*◌, ◌≤◌, ◌<◌, ◌^◌, ◌≡◌, Bool, arith}
use rbtrace.Trace.{Args, RingConfig}
use rbtrace.Ring.{Stamps, trace}
use rbtrace.Ring.State.{Shm, signal_thread}
use rbtrace.Ring.Spec.{IsValid}
use rbtrace.Ring.Branches.{trace_cases}
use rbtrace.Ring.Keeps.{Kept, trace-Kept}

-- No record past both buffers has changed.
abbrev pub Inside : RingConfig → Shm → Bool × Shm → Type 0
Inside cfg s r = (j : ℕ) → 2 * cfg.size ≤ j → r.1.mem j ≡ s.mem j

-- A call of `rbtrace` on a well-formed ring, with fewer than 2^32 - 1 flushes outstanding, writes
-- no record past the 2 * rc_size of the ring, and changes neither the flags, the traffic flags, the
-- file path nor the file size limit.
pub trace_frame :
    {cfg : RingConfig} (ts : Stamps) (c : Args) {s : Shm}
    → IsValid cfg s
    → s.info.flush + 1 < 2 ^ 32
    → Inside cfg s (trace cfg ts c s) × Kept s (trace cfg ts c s).1
unfolding signal_thread
trace_frame {cfg} ts c {s} v small = (
  trace_cases (Inside cfg s) cfg ts c s v small (λ h j p. ground arith)
      (λ full idle none_lost j p. ground arith) (λ full idle some_lost j p. ground arith)
      (λ full busy j p. ground arith),
  trace-Kept cfg ts c s,
)
