-- ===== src/System.antt =====
-- The whole of a traced system, a call at a time: clients that trace and control the ring, and
-- rounds of the daemon's thread, in any order.
pub mod NoCrash
pub mod Settings
pub mod Session
use rbtrace.Base.{ℕ, List, [], ◌∷◌}
use rbtrace.Trace.{RingConfig, Args}
use rbtrace.Ring.{Stamps, trace}
use rbtrace.Control.{Op, ctrl}
use rbtrace.Backing.State.{Daemon, Outcome, running, segfault}
use rbtrace.Backing.Thread.{Env, and_then, round}

pub data Event : Type 0 where
  traced : Stamps → Args → Event
  controlled : (ring : ℕ) → Op → Event
  rounded : Env → Event

unfoldable pub step : RingConfig → Event → Daemon → Outcome
step cfg (traced ts c) d = running (record d { shm = (trace cfg ts c d.shm).1 })
step cfg (controlled ring op) d = running (record d { shm = (ctrl ring op d.shm).1 })
step cfg (rounded e) d = round cfg e d

unfoldable pub run : RingConfig → List Event → Daemon → Outcome
run cfg [] d = running d
run cfg (v ∷ vs) d = and_then (step cfg v d) (run cfg vs)
