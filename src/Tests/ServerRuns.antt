-- ===== src/Tests/ServerRuns.antt =====
-- Runs of rbtraced.
use rbtrace.Base.{ℕ, ◌≡◌, refl, List, [], ◌∷◌, Option, none, some, false}
use rbtrace.Text.{codes}
use rbtrace.Trace.{io_cfg}
use rbtrace.Printf.{int_text}
use rbtrace.Shared.{returned, refused, blank_globals}
use rbtrace.Shared.Start.{first_daemon}
use rbtrace.Server.{
  Server, Outside, Ending, exited, finished, serving, version_arg, sigterm, other_signal,
  server_main,
}
use rbtrace.Tests.Fixtures.{quiet_os}

-- Another daemon has the pid file with its id, 99.
abbrev begun : Server
begun = record {
  process = record {
    globals = blank_globals;
    held = record {
      fds = [];
      maps = [];
      sems = [];
      shm_name = false;
      sem_name = false;
      thread_sem = false;
    };
    replies = [];
  };
  sem = false;
  files = λ path. some (codes "99\n");
}

abbrev told : Outside
told = record {
  signals = other_signal 1 ∷ sigterm ∷ [];
  pid = 42;
  thread = first_daemon io_cfg quiet_os;
}

abbrev file_after : Ending → Option (List ℕ)
file_after (exited e s) = s.files (codes "rbtraced.pid")
file_after (finished rc s) = s.files (codes "rbtraced.pid")
file_after (serving s) = s.files (codes "rbtraced.pid")

-- Without a signal the daemon goes on, with its id in the file.
serving_run :
    file_after (server_main (io_cfg ∷ []) (record told { signals = [] }) [] begun)
    ≡ some (codes "42\n")
unfolding server_main int_text
serving_run = refl

-- A second daemon leaves the pid file of the first alone.
locked_run :
    file_after (
      server_main (io_cfg ∷ []) told [] (record begun {
        process = record begun.process { replies = returned 0 ∷ returned 4 ∷ refused 11 ∷ [] };
      }))
    ≡ some (codes "99\n")
unfolding server_main
locked_run = refl

-- To ask for the version removes it.
version_run : file_after (server_main (io_cfg ∷ []) told (version_arg ∷ []) begun) ≡ none
unfolding server_main
version_run = refl
