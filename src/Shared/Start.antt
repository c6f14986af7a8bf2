-- ===== src/Shared/Start.antt =====
-- `rbtrace_daemon_init` and `rbtrace_daemon_exit` of rbtrace_backing.c. As in Shared.Calls, each
-- stage is what the code does behind one call of the system.
use rbtrace.Base.{ℕ, ◌+◌, ◌*◌, Bool, true, false, List, [], none, u32}
use rbtrace.Trace.{RingConfig, zero_entry}
use rbtrace.Header.{blank_header}
use rbtrace.Ring.State.{RingInfo, no_flags, sem_post}
use rbtrace.Backing.State.{Os, Daemon}
use rbtrace.Shared.{Process, Reply, returned, refused, ask, calc_shm_size, globals_init}
use rbtrace.Shared.Calls.{
  Rc, ok, error, close, globals_cleanup, hold_fd, hold_map, hold_sem, munmap, sem_unlink,
  set_globals, shm_unlink,
}

-- The `struct ring_info` that `rbtrace_init_trace_info` leaves in cleared memory, at the offset
-- `off`, with the records that the ring takes.
unfoldable pub init_trace_info : RingConfig → ℕ → RingInfo × ℕ
init_trace_info cfg off = (
  record {
    file_path = [];
    ring = cfg.ring;
    flags = no_flags;
    tflags = 0;
    cir_off = off;
    alt_off = u32 (off + cfg.size);
    slot = 0;
    flush = 0;
    lost = 0;
  },
  u32 (cfg.size * 2),
)

-- RBTRACE_DFT_FILE_SIZE
abbrev pub default_file_size : ℕ
default_file_size = 2048 * 1024 * 1024

-- The shared memory and `rbt_rfd` when the thread starts.
unfoldable pub first_daemon : RingConfig → Os → Daemon
unfolding init_trace_info
first_daemon cfg os = record {
  shm = record {
    fsize = default_file_size;
    ring = 0;
    info = (init_trace_info cfg 0).0;
    mem = λ _. zero_entry;
    sem = 0;
  };
  fd = none;
  seek = 0;
  hdr = blank_header;
  total_buffers = 0;
  os = os;
}

-- The names are gone again after the label `ftruncate_fail`.
abbrev pub give_up : ℕ → Process → Process
give_up fd p = shm_unlink (ask (close fd p))

-- `sem_init` and `sem_destroy` of `rbt_thread.sem`, which do not fail.
abbrev pub put_thread_sem : Bool → Process → Process
put_thread_sem b p = record p { held = record p.held { thread_sem = b } }

-- `pthread_create`, whose reply is the error itself; `pthread_setname_np` may fail. The semaphore is
-- destroyed only when the thread has posted it.
unfoldable pub start_thread : Reply × Process → Rc × Process
start_thread (refused e, p) = (error e, globals_cleanup true p)
start_thread (returned n, p) = (ok, put_thread_sem false (ask p).1)

unfoldable pub start_sem : ℕ → ℕ → ℕ → Reply × Process → Rc × Process
unfolding globals_init start_thread
start_sem size fd base (refused e, p) = (error e, give_up fd (munmap base size p))
start_sem size fd base (returned sem, p) =
    let p1 = hold_sem sem p in
    let p2 = record p1 { held = record p1.held { sem_name = true } } in
    start_thread (ask (put_thread_sem true (set_globals (globals_init fd base size sem) p2)))

-- Behind `mmap` comes `mlock`, whose failure is only reported.
unfoldable pub start_mapped : ℕ → ℕ → Reply × Process → Rc × Process
unfolding start_sem
start_mapped size fd (refused e, p) = (error e, give_up fd p)
start_mapped size fd (returned base, p) =
    start_sem size fd base (ask (ask (hold_map base size p)).1)

unfoldable pub start_sized : ℕ → ℕ → Reply × Process → Rc × Process
unfolding start_mapped
start_sized size fd (refused e, p) = (error e, give_up fd p)
start_sized size fd (returned n, p) = start_mapped size fd (ask p)

unfoldable pub start_opened : ℕ → Reply × Process → Rc × Process
unfolding start_sized
start_opened size (refused e, p) = (error e, p)
start_opened size (returned fd, p) =
    let p1 = hold_fd fd p in
    start_sized size fd (ask (record p1 { held = record p1.held { shm_name = true } }))

-- `rbtrace_daemon_init`, up to the waits for the thread.
unfoldable pub daemon_init : List RingConfig → Process → Rc × Process
unfolding start_opened
daemon_init cfgs p = start_opened (calc_shm_size cfgs) (ask (sem_unlink (ask (shm_unlink (ask p)))))

-- The end of `rbtrace_daemon_exit`: the thread has been joined, and its descriptor is closed.
unfoldable pub daemon_exit : Process × Daemon → Process × Daemon
unfolding globals_cleanup
daemon_exit (p, d) = (
  globals_cleanup true p,
  record d { fd = none; shm = record d.shm { sem = sem_post d.shm.sem } },
)
