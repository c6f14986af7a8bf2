-- ===== src/Backing/Thread.antt =====
-- One round of `rbtrace_thread_fn`, rbtrace_backing.c, and sequences of rounds.
use rbtrace.Base.{◌-◌, Bool, true, false, none, List, [], ◌∷◌, leb, ◌==◌, if◌then◌else◌}
use rbtrace.Trace.{RingConfig, ring_max}
use rbtrace.Header.{Clock}
use rbtrace.Ring.{Stamps}
use rbtrace.Ring.Flags.{closed, flushed}
use rbtrace.Backing.{write_header, write_data}
use rbtrace.Backing.State.{Daemon, Outcome, running, segfault, set_flag, on_fd}

-- What the clock and the thread's identity are during a round, for its two writes.
pub record Env : Type 0 where
  pub clock : Clock
  pub first : Stamps
  pub second : Stamps

abbrev pub and_then : Outcome → (Daemon → Outcome) → Outcome
and_then (running d) k = k d
and_then segfault k = segfault

-- `if (ri->ri_flush) rbtrace_write_data(ring, false)`
unfoldable pub flush_inactive : RingConfig → Env → Daemon → Outcome
flush_inactive cfg e d =
    if d.shm.info.flush == 0 then running d else write_data cfg e.clock e.first false d

-- `if (ri->ri_flags & RBTRACE_DO_FLUSH)`: write the active buffer, and clear the flag.
unfoldable pub flush_if : Bool → RingConfig → Env → Daemon → Outcome
flush_if true cfg e d =
    and_then (write_data cfg e.clock e.second true d) (λ d'. running (set_flag flushed false d'))
flush_if false cfg e d = running d

abbrev pub flush_active : RingConfig → Env → Daemon → Outcome
flush_active cfg e d = flush_if d.shm.info.flags.do_flush cfg e d

-- `close(rfd->fd)` with `memset(ri->ri_file_path, 0, ...)`.
abbrev pub forget_file : Daemon → Daemon
forget_file d = record d {
  fd = none;
  shm = record d.shm { info = record d.shm.info { file_path = [] } };
}

-- Close the descriptor, if it is open, and forget the path.
abbrev pub close_trace : Daemon → Daemon
close_trace d = on_fd d.fd d (λ path. forget_file d)

-- The body of the loop behind the wait and the test of the ring, by the flags for close, open and
-- disk.
unfoldable pub serve_by : Bool → Bool → Bool → RingConfig → Env → Daemon → Outcome
serve_by true o k cfg e d =
    and_then (and_then (flush_inactive cfg e d) (flush_active cfg e))
      λ d1. running (record (set_flag closed false (close_trace d1)) { seek = 0 })
serve_by false true k cfg e d = running (write_header cfg e.clock d)
serve_by false false true cfg e d = and_then (flush_inactive cfg e d) (flush_active cfg e)
serve_by false false false cfg e d = running d

abbrev pub serve : RingConfig → Env → Daemon → Outcome
serve cfg e d =
    serve_by d.shm.info.flags.do_close d.shm.info.flags.do_open d.shm.info.flags.do_disk cfg e d

-- `sem_timedwait`: it takes a post that is there, or runs into its timeout.
abbrev pub wait_sem : Daemon → Daemon
wait_sem d = record d { shm = record d.shm { sem = d.shm.sem - 1 } }

-- One round: wait, and serve the ring that was signalled.
unfoldable pub round : RingConfig → Env → Daemon → Outcome
round cfg e d =
    let d1 = wait_sem d in if leb ring_max d1.shm.ring then running d1 else serve cfg e d1

-- How the loop ends: the thread was told to terminate, or its wait failed; or it is still going
-- when the rounds that are given are over; or it crashed.
pub data Loop : Type 0 where
  left : Daemon → Loop
  going : Daemon → Loop
  crashed : Loop

-- What one pass of the loop meets: `terminate` set, a wait that fails otherwise than by its
-- timeout, or a round.
pub data Pass : Type 0 where
  terminated : Pass
  wait_failed : Pass
  served : Env → Pass

-- `rbtrace_thread_fn` over the passes that it makes.
unfoldable pub thread_fn : RingConfig → List Pass → Daemon → Loop
thread_fn cfg [] d = going d
thread_fn cfg (terminated ∷ ps) d = left d
thread_fn cfg (wait_failed ∷ ps) d = left d
thread_fn cfg (served e ∷ ps) d = elim (round cfg e d) [
  | segfault ↦ crashed
  | running d' ↦ thread_fn cfg ps d'
]
