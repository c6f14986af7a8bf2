-- ===== src/Tests/SessionRuns.antt =====
-- Sequences of requests and rounds, at concrete states.
use rbtrace.Base.{◌≡◌, refl, List, [], ◌∷◌, some, true, false, not, ◌&&◌, ◌||◌, arith}
use rbtrace.Text.{codes}
use rbtrace.Ring.{traffic_enabled}
use rbtrace.Ring.State.{Shm, no_flags}
use rbtrace.Ring.Flags.{put, opened}
use rbtrace.Control.{ctrl, set_tflags, open_file, close_file, set_wrap, set_zap}
use rbtrace.Control.Traffic.{has, traffic_enabled-ctrl}
use rbtrace.Backing.{write_data}
use rbtrace.Backing.State.{Daemon, running, segfault}
use rbtrace.Backing.Modes.{SameModes}
use rbtrace.Backing.Steady.{After, round-SameModes}
use rbtrace.Backing.Described.{Started}
use rbtrace.Backing.Safe.{Safe}
use rbtrace.Backing.Round.{Runs}
use rbtrace.Backing.Thread.{round}
use rbtrace.Backing.Zapped.{AtSplit, refused_split-segfault}
use rbtrace.System.{Event, controlled, rounded, run}
use rbtrace.System.Settings.{Apart, run-Apart}
use rbtrace.System.Session.{Closed, close_session, file_named, open_session}
use rbtrace.Tests.Fixtures.{
  small_cfg, some_stamps, some_clock, some_env, waiting_ring, quiet_os, daemon_of,
}
use rbtrace.Tests.DaemonRuns.{idle_daemon, quiet_os-IsGood, small_cfg-IsFormattable}

round-SameModes_example :
    After (λ d'. SameModes waiting_ring d'.shm) (round small_cfg some_env (daemon_of waiting_ring))
round-SameModes_example = round-SameModes small_cfg some_env (daemon_of waiting_ring)

-- The second request is refused.
abbrev both_asked : List Event
both_asked =
    controlled 0 (set_zap (some true)) ∷ controlled 0 (set_wrap (some true)) ∷ rounded some_env ∷ []

run-Apart_example : After (λ d'. Apart d'.shm) (run small_cfg both_asked idle_daemon)
run-Apart_example = run-Apart small_cfg both_asked idle_daemon refl

traffic_enabled-ctrl_example :
    (traffic_enabled 0 2 (some (ctrl 0 (set_tflags (some (true, 4))) waiting_ring).1)
      ≡ (traffic_enabled 0 2 (some waiting_ring) || has 2 4))
    × (traffic_enabled 0 2 (some (ctrl 0 (set_tflags (some (false, 4))) waiting_ring).1)
        ≡ (traffic_enabled 0 2 (some waiting_ring) && not (has 2 4)))
traffic_enabled-ctrl_example = traffic_enabled-ctrl 2 4 waiting_ring (omega arith) (omega arith)

-- The limit is reached with the batch that waits.
abbrev split_ring : Shm
split_ring = record waiting_ring {
  fsize = 600;
  info = record waiting_ring.info { flags = record no_flags { do_disk = true; do_zap = true } };
}

abbrev split_daemon : Daemon
split_daemon = record (daemon_of split_ring) { os = record quiet_os { opens = some 28 ∷ [] } }

split_daemon-AtSplit : AtSplit small_cfg (codes "t") 28 split_daemon
split_daemon-AtSplit = record {
  descriptor = refl;
  zap = refl;
  wrap = refl;
  closing = refl;
  to_disk = refl;
  full = refl;
  writes = tt;
  later = [];
  refused = refl;
}

refused_split-segfault_example :
    (d' : Daemon) × (write_data small_cfg some_clock some_stamps false split_daemon ≡ running d')
    × (d'.shm.info.flags ≡ put opened false split_ring.info.flags)
    × (round small_cfg some_env (record d' { shm = split_ring }) ≡ segfault)
refused_split-segfault_example =
    refused_split-segfault small_cfg some_clock some_stamps (codes "t") 28 split_daemon split_ring
      some_env split_daemon-AtSplit (omega arith) refl (λ h. omega (arith, h))

open_session_example :
    Runs (Started small_cfg some_clock (file_named false (codes "t") some_clock)) (
      run small_cfg
        (controlled 0 (open_file (some (codes "t"))) ∷ rounded some_env ∷ [])
        idle_daemon)
open_session_example =
    open_session small_cfg some_env (codes "t") idle_daemon (λ h. cc) (omega arith) refl
      (omega arith) refl refl refl quiet_os-IsGood small_cfg-IsFormattable

waiting_daemon-Safe : Safe (daemon_of waiting_ring)
waiting_daemon-Safe = record {
  agree = record { to_disk = refl; to_close = refl; to_flush = refl; to_open = refl; apart = refl };
  good = quiet_os-IsGood;
}

close_session_example :
    Runs Closed
      (run small_cfg (controlled 0 close_file ∷ rounded some_env ∷ []) (daemon_of waiting_ring))
close_session_example =
    close_session small_cfg some_env (daemon_of waiting_ring) (omega arith) refl waiting_daemon-Safe
