-- ===== src/Tests/DaemonRuns.antt =====
-- The daemon, at concrete states.
use rbtrace.Base.{
  ℕ, zero, suc, ◌≡◌, refl, inr, List, [], ◌∷◌, none, some, Bool, true, false, false≢true, arith,
}
use rbtrace.Text.{codes}
use rbtrace.Ring.Spec.{IsValid}
use rbtrace.Header.Roundtrip.{IsText, IsFormattable}
use rbtrace.Backing.{write_data, write_header}
use rbtrace.Backing.State.{Daemon}
use rbtrace.Backing.Calls.{IsGood}
use rbtrace.Backing.Deliver.{Delivered, write_data-Delivered}
use rbtrace.Backing.Described.{Started, write_header-Started}
use rbtrace.Backing.Safe.{Safe}
use rbtrace.Backing.Round.{Runs}
use rbtrace.Control.{open_file, close_file}
use rbtrace.System.{Event, traced, controlled, rounded, run}
use rbtrace.System.NoCrash.{run-Runs}
use rbtrace.Tests.Fixtures.{
  small_cfg, some_stamps, some_clock, some_env, call_of, empty_ring, waiting_ring, quiet_os,
  daemon_of,
}

pub waiting_ring-IsValid : IsValid small_cfg waiting_ring
waiting_ring-IsValid = record {
  large = omega arith;
  small = omega arith;
  halves = inr (refl, refl);
  filled_in = omega arith;
  slot_in = omega arith;
  flush_in = omega arith;
  lost_in = omega arith;
}

pub quiet_os-IsGood : IsGood quiet_os
quiet_os-IsGood = record { opens = tt; writes = tt }

write_data-Delivered_example :
    Delivered small_cfg some_stamps
      (codes "t")
      512
      (daemon_of waiting_ring)
      (write_data small_cfg some_clock some_stamps false (daemon_of waiting_ring))
write_data-Delivered_example =
    write_data-Delivered small_cfg some_clock some_stamps (codes "t") (daemon_of waiting_ring) refl
      waiting_ring-IsValid refl quiet_os-IsGood (omega arith) (omega arith) (omega arith)

abbrev pub idle_daemon : Daemon
idle_daemon = record (daemon_of empty_ring) { fd = none; seek = 0 }

-- No byte of a text is zero.
abbrev nonzero : List ℕ → Bool
nonzero [] = true
nonzero (zero ∷ cs) = false
nonzero (suc c ∷ cs) = nonzero cs

nonzero-IsText : (cs : List ℕ) → nonzero cs ≡ true → IsText cs
nonzero-IsText [] h = tt
nonzero-IsText (zero ∷ cs) h = absurd (false≢true h)
nonzero-IsText (suc c ∷ cs) h = (omega arith, nonzero-IsText cs h)

pub small_cfg-IsFormattable : IsFormattable small_cfg some_clock
small_cfg-IsFormattable = record {
  ring = omega arith;
  size = omega arith;
  sec = omega arith;
  nsec = omega arith;
  gmtoff = omega arith;
  zone = nonzero-IsText some_clock.zone refl;
  name = nonzero-IsText small_cfg.name refl;
  desc = nonzero-IsText small_cfg.desc refl;
  room = omega arith;
}

write_header-Started_example :
    Started small_cfg some_clock (codes "t") (write_header small_cfg some_clock idle_daemon)
write_header-Started_example =
    write_header-Started small_cfg some_clock idle_daemon refl (λ h. cc) quiet_os-IsGood
      small_cfg-IsFormattable

idle_daemon-Safe : Safe idle_daemon
idle_daemon-Safe = record {
  agree = record { to_disk = refl; to_close = refl; to_flush = refl; to_open = refl; apart = refl };
  good = quiet_os-IsGood;
}

-- A trace file is opened, filled, flushed and closed.
abbrev session : List Event
session =
    controlled 0 (open_file (some (codes "t")))
    ∷ rounded some_env
    ∷ traced some_stamps (call_of 1)
    ∷ traced some_stamps (call_of 2)
    ∷ traced some_stamps (call_of 3)
    ∷ controlled 0 close_file
    ∷ rounded some_env
    ∷ []

run-Runs_example : Runs Safe (run small_cfg session idle_daemon)
run-Runs_example = run-Runs small_cfg session idle_daemon idle_daemon-Safe
