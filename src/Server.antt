-- ===== src/Server.antt =====
-- The daemon process, rbtraced.c: the options, the pid file, the signals and `main`, around
-- `rbtrace_daemon_init` and `rbtrace_daemon_exit`. As in Shared.Calls, each stage is what the code
-- does behind one call of the system. With `-d` the process is the child of `daemonize`, whose
-- standard descriptors are not modelled.
pub mod Ended
use rbtrace.Base.{
  ℕ, Bool, true, false, List, [], ◌∷◌, ◌++◌, Option, none, some, ◌||◌, if◌then◌else◌,
}
use rbtrace.Text.{codes}
use rbtrace.Trace.{RingConfig}
use rbtrace.Backing.State.{Daemon, path_eq}
use rbtrace.Printf.{int_text}
use rbtrace.Shared.{Process, Reply, returned, refused, ask}
use rbtrace.Shared.Calls.{Rc, ok, minus_one, error, hold_fd}
use rbtrace.Shared.Start.{daemon_init, daemon_exit}

-- What `getopt` finds.
pub data ServerArg : Type 0 where
  daemon_arg version_arg help_arg unknown_arg : ServerArg
  pid_arg log_arg : List ℕ → ServerArg

pub record ServerOptions : Type 0 where
  pub pidfile : List ℕ
  pub logfile : List ℕ
  pub daemonize : Bool

-- `server` at the start.
abbrev pub server_defaults : ServerOptions
server_defaults = record {
  pidfile = codes "rbtraced.pid";
  logfile = codes "rbtraced.log";
  daemonize = false;
}

-- The loop over the options goes on, or goes to `out` with a result; the options so far count there.
pub data Turn : Type 0 where
  go_on : ServerOptions → Turn
  leave : Rc → ServerOptions → Turn

abbrev pub take_server_arg : ServerArg → ServerOptions → Turn
take_server_arg daemon_arg o = go_on (record o { daemonize = true })
take_server_arg (pid_arg path) o = go_on (record o { pidfile = path })
take_server_arg (log_arg path) o = go_on (record o { logfile = path })
take_server_arg version_arg o = leave ok o
take_server_arg help_arg o = leave minus_one o
take_server_arg unknown_arg o = leave minus_one o

unfoldable pub server_options : List ServerArg → ServerOptions → Turn
server_options [] o = go_on o
server_options (a ∷ as') o = elim (take_server_arg a o) [
  | go_on o' ↦ server_options as' o'
  | leave rc o' ↦ leave rc o'
]

-- The process, whether `server.sem` is initialised, and the pid files with their texts.
pub record Server : Type 0 where
  pub process : Process
  pub sem : Bool
  pub files : List ℕ → Option (List ℕ)

abbrev pub put_file : List ℕ → Option (List ℕ) → Server → Server
put_file path text s = record s {
  files = λ other. if path_eq other path then text else s.files other;
}

abbrev pub in_process : Process → Server → Server
in_process p s = record s { process = p }

-- The text of a file that is opened with O_CREAT.
abbrev pub created : Option (List ℕ) → Option (List ℕ)
created none = some []
created (some text) = some text

-- How the process ends: by `exit` in `create_pid_file`, or by the end of `main`; or it still waits.
pub data Ending : Type 0 where
  exited : ℕ → Server → Ending
  finished : Rc → Server → Ending
  serving : Server → Ending

-- The label `out`: `unlink`, whose failure is ignored.
abbrev pub unlinked : List ℕ → Reply × Process → Server → Server
unlinked path (refused e, p) s = in_process p s
unlinked path (returned n, p) s = put_file path none (in_process p s)

abbrev pub at_out : List ℕ → Rc → Server → Ending
at_out path rc s = finished rc (unlinked path (ask s.process) s)

-- The label `cleanup`: `sem_destroy`.
abbrev pub at_cleanup : List ℕ → Rc → Server → Ending
at_cleanup path rc s = at_out path rc (record s { sem = false })

-- `sig_handler`: three signals set `terminate` and post the semaphore.
pub data Signal : Type 0 where
  sigterm sigquit sigint : Signal
  other_signal : ℕ → Signal

abbrev pub terminates : Signal → Bool
terminates sigterm = true
terminates sigquit = true
terminates sigint = true
terminates (other_signal n) = false

-- The loop that waits for `terminate`, along the signals that come.
abbrev pub waits_through : List Signal → Bool
waits_through [] = false
waits_through (g ∷ gs) = terminates g || waits_through gs

-- What `main` gets from outside: the signals, the process id, and the state of the thread of the
-- daemon when it is told to end.
pub record Outside : Type 0 where
  pub signals : List Signal
  pub pid : ℕ
  pub thread : Daemon

-- Behind `rbtrace_daemon_init`.
unfoldable pub served : Outside → List ℕ → Rc × Process → Server → Ending
unfolding daemon_exit
served w path (ok, p) s =
    if waits_through w.signals
    then at_cleanup path ok (in_process (daemon_exit (p, w.thread)).0 s)
    else serving (in_process p s)
served w path (minus_one, p) s = at_cleanup path minus_one (in_process p s)
served w path (error e, p) s = at_cleanup path (error e) (in_process p s)

-- Behind the `write` in `create_pid_file`, whose failure is ignored.
abbrev pub pid_text : ℕ → List ℕ
pid_text pid = int_text pid ++ codes "\n"

unfoldable pub pid_written : List RingConfig → Outside → List ℕ → Reply × Process → Server → Ending
unfolding served daemon_init
pid_written cfgs w path (refused e, p) s = served w path (daemon_init cfgs p) s
pid_written cfgs w path (returned n, p) s =
    served w path (daemon_init cfgs p) (put_file path (some (pid_text w.pid)) s)

-- Behind its `ftruncate`, `lockf` and `open`.
unfoldable pub pid_emptied : List RingConfig → Outside → List ℕ → Reply × Process → Server → Ending
unfolding pid_written
pid_emptied cfgs w path (refused e, p) s = exited e (in_process p s)
pid_emptied cfgs w path (returned n, p) s =
    pid_written cfgs w path (ask p) (put_file path (some []) s)

unfoldable pub pid_locked : List RingConfig → Outside → List ℕ → Reply × Process → Server → Ending
unfolding pid_emptied
pid_locked cfgs w path (refused e, p) s = exited e (in_process p s)
pid_locked cfgs w path (returned n, p) s = pid_emptied cfgs w path (ask p) s

unfoldable pub pid_opened : List RingConfig → Outside → List ℕ → Reply × Process → Server → Ending
unfolding pid_locked
pid_opened cfgs w path (refused e, p) s = exited e (in_process p s)
pid_opened cfgs w path (returned fd, p) s =
    pid_locked cfgs w path (ask (hold_fd fd p)) (put_file path (created (s.files path)) s)

-- Behind `sem_init`.
unfoldable pub sem_made : List RingConfig → Outside → List ℕ → Reply × Process → Server → Ending
unfolding pid_opened
sem_made cfgs w path (refused e, p) s = at_out path minus_one (in_process p s)
sem_made cfgs w path (returned n, p) s = pid_opened cfgs w path (ask p) (record s { sem = true })

-- Behind the options.
unfoldable pub server_run : List RingConfig → Outside → Turn → Server → Ending
unfolding sem_made
server_run cfgs w (leave rc o) s = at_out o.pidfile rc s
server_run cfgs w (go_on o) s = sem_made cfgs w o.pidfile (ask s.process) s

-- `main` of rbtraced.c
unfoldable pub server_main : List RingConfig → Outside → List ServerArg → Server → Ending
unfolding server_run server_options
server_main cfgs w args s = server_run cfgs w (server_options args server_defaults) s
