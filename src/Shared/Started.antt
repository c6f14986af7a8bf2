-- ===== src/Shared/Started.antt =====
-- The state that `rbtrace_daemon_init`, rbtrace_backing.c, leaves to the thread.
use rbtrace.Base.{refl, inl, arith}
use rbtrace.Trace.{io_cfg}
use rbtrace.Ring.Spec.{IsValid}
use rbtrace.Backing.State.{Os}
use rbtrace.Backing.Calls.{IsGood}
use rbtrace.Backing.Safe.{Safe}
use rbtrace.Shared.Start.{first_daemon}

-- The state in which the thread of the daemon starts has a well-formed ring of 64 K records per
-- buffer, and its flags agree with the descriptor, as long as no call of the system fails.
pub first_daemon-Safe :
    (os : Os)
    → IsGood os
    → IsValid io_cfg (first_daemon io_cfg os).shm × Safe (first_daemon io_cfg os)
unfolding first_daemon
first_daemon-Safe os good = (
  record {
    large = omega arith;
    small = omega arith;
    halves = inl (refl, refl);
    filled_in = omega arith;
    slot_in = omega arith;
    flush_in = omega arith;
    lost_in = omega arith;
  },
  record {
    agree = record {
      to_disk = refl;
      to_close = refl;
      to_flush = refl;
      to_open = refl;
      apart = refl;
    };
    good = good;
  },
)
