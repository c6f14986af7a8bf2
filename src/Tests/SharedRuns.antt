-- ===== src/Tests/SharedRuns.antt =====
-- Attaching, starting and ending, at concrete processes.
use rbtrace.Base.{◌*◌, ◌≡◌, refl, [], ◌∷◌, true, false, arith}
use rbtrace.Trace.{io_cfg}
use rbtrace.Ring.Spec.{IsValid}
use rbtrace.Backing.Safe.{Safe}
use rbtrace.Shared.{Process, blank_globals, calc_shm_size, globals_init, refused, returned}
use rbtrace.Shared.Calls.{error, globals_cleanup, rbtrace_init}
use rbtrace.Shared.Layout.{LaidOut, globals_init-LaidOut}
use rbtrace.Shared.Leaks.{Settled, rbtrace_init-Settled}
use rbtrace.Shared.Release.{Released, daemon_init-Released}
use rbtrace.Shared.Start.{daemon_init, first_daemon}
use rbtrace.Shared.Started.{first_daemon-Safe}
use rbtrace.Tests.Fixtures.{quiet_os}
use rbtrace.Tests.DaemonRuns.{quiet_os-IsGood}

-- A process with three open descriptors, whose `mmap` will fail.
abbrev some_process : Process
some_process = record {
  globals = blank_globals;
  held = record {
    fds = 2 ∷ 1 ∷ 0 ∷ [];
    maps = [];
    sems = [];
    shm_name = true;
    sem_name = true;
    thread_sem = false;
  };
  replies = returned 3 ∷ refused 12 ∷ [];
}

rbtrace_init-Settled_example : Settled some_process (rbtrace_init (io_cfg ∷ []) some_process)
rbtrace_init-Settled_example = rbtrace_init-Settled (io_cfg ∷ []) some_process

-- The error comes back.
refused_run : (rbtrace_init (io_cfg ∷ []) some_process).0 ≡ error 12
unfolding rbtrace_init
refused_run = refl

daemon_init-Released_example : Released some_process (daemon_init (io_cfg ∷ []) some_process)
daemon_init-Released_example = daemon_init-Released (io_cfg ∷ []) some_process

-- Where `pthread_create` fails, `rbt_thread.sem` stays initialised.
thread_sem_leak :
    (daemon_init (io_cfg ∷ []) (record some_process {
      replies =
          returned 0
          ∷ returned 0
          ∷ returned 3
          ∷ returned 0
          ∷ returned 4096
          ∷ returned 0
          ∷ returned 5
          ∷ refused 11
          ∷ [];
    })).1.held.thread_sem
    ≡ true
unfolding daemon_init globals_cleanup
thread_sem_leak = refl

globals_init-LaidOut_example :
    LaidOut 4096
      (calc_shm_size (io_cfg ∷ []))
      (2 * io_cfg.size)
      (globals_init 3 4096 (calc_shm_size (io_cfg ∷ [])) 5)
globals_init-LaidOut_example = globals_init-LaidOut io_cfg 3 4096 5 (omega arith)

-- 64 K records of 56 bytes in two buffers, and what lies before them.
size_run : calc_shm_size (io_cfg ∷ []) ≡ 7341116
size_run = refl

first_daemon-Safe_example :
    IsValid io_cfg (first_daemon io_cfg quiet_os).shm × Safe (first_daemon io_cfg quiet_os)
first_daemon-Safe_example = first_daemon-Safe quiet_os quiet_os-IsGood
