-- ===== src/Shared/Calls.antt =====
-- `rbtrace_init`, `rbtrace_globals_cleanup` and `rbtrace_exit` of rbtrace.c. Each stage is what
-- the code does behind one call of the system, by its reply.
use rbtrace.Base.{ℕ, Bool, false, ◌&&◌, List, ◌∷◌, Option, none, some, ◌==◌, if◌then◌else◌}
use rbtrace.Trace.{RingConfig}
use rbtrace.Shared.{
  Globals, Process, Ptr, null, invalid, address, Reply, returned, refused, ask, calc_shm_size,
  drop_one, globals_init,
}

-- The result 0, -1, or the error of a call.
pub data Rc : Type 0 where
  ok : Rc
  minus_one : Rc
  error : ℕ → Rc

abbrev pub hold_fd : ℕ → Process → Process
hold_fd fd p = record p { held = record p.held { fds = fd ∷ p.held.fds } }

abbrev pub close : ℕ → Process → Process
close fd p = record p { held = record p.held { fds = drop_one (λ x. x == fd) p.held.fds } }

abbrev pub hold_map : ℕ → ℕ → Process → Process
hold_map base size p = record p { held = record p.held { maps = (base, size) ∷ p.held.maps } }

abbrev pub munmap : ℕ → ℕ → Process → Process
munmap base size p = record p {
  held = record p.held { maps = drop_one (λ m. m.0 == base && m.1 == size) p.held.maps };
}

abbrev pub hold_sem : ℕ → Process → Process
hold_sem sem p = record p { held = record p.held { sems = sem ∷ p.held.sems } }

abbrev pub sem_close : ℕ → Process → Process
sem_close sem p = record p { held = record p.held { sems = drop_one (λ x. x == sem) p.held.sems } }

abbrev pub set_globals : Globals → Process → Process
set_globals g p = record p { globals = g }

unfoldable pub init_sem : ℕ → ℕ → ℕ → Reply × Process → Rc × Process
unfolding globals_init
init_sem size fd base (refused e, p) = (error e, close fd (munmap base size p))
init_sem size fd base (returned sem, p) =
    (ok, set_globals (globals_init fd base size sem) (hold_sem sem p))

unfoldable pub init_mapped : ℕ → ℕ → Reply × Process → Rc × Process
unfolding init_sem
init_mapped size fd (refused e, p) = (error e, close fd p)
init_mapped size fd (returned base, p) = init_sem size fd base (ask (hold_map base size p))

unfoldable pub init_opened : ℕ → Reply × Process → Rc × Process
unfolding init_mapped
init_opened size (refused e, p) = (error e, p)
init_opened size (returned fd, p) = init_mapped size fd (ask (hold_fd fd p))

-- `rbtrace_init`; `update_coredump_filter` changes nothing that is modelled.
unfoldable pub rbtrace_init : List RingConfig → Process → Rc × Process
unfolding init_opened
rbtrace_init cfgs p =
    if p.globals.inited then (minus_one, p) else init_opened (calc_shm_size cfgs) (ask p)

-- `sem_unlink` and `shm_unlink`: a failure is only reported.
abbrev pub sem_unlink : Reply × Process → Process
sem_unlink (refused e, p) = p
sem_unlink (returned n, p) = record p { held = record p.held { sem_name = false } }

abbrev pub shm_unlink : Reply × Process → Process
shm_unlink (refused e, p) = p
shm_unlink (returned n, p) = record p { held = record p.held { shm_name = false } }

-- The part of `rbtrace_globals_cleanup` for the semaphore.
abbrev pub cleanup_sem : Bool → Ptr → Process → Process
cleanup_sem unlink null p = p
cleanup_sem unlink invalid p = p
cleanup_sem unlink (address sem) p =
    if unlink then sem_unlink (ask (sem_close sem p)) else sem_close sem p

abbrev pub cleanup_map : Ptr → ℕ → Process → Process
cleanup_map null size p = p
cleanup_map invalid size p = p
cleanup_map (address base) size p = munmap base size p

-- The part for the shared memory.
abbrev pub cleanup_shm : Bool → Option ℕ → Ptr → ℕ → Process → Process
cleanup_shm unlink none base size p = p
cleanup_shm unlink (some fd) base size p =
    let p1 = close fd (cleanup_map base size p) in if unlink then shm_unlink (ask p1) else p1

-- The pointers into the mapping stay as they are.
abbrev pub forget_globals : Process → Process
forget_globals p = record p {
  globals = record p.globals {
    sem_ptr = invalid;
    shm_fd = none;
    shm_base = invalid;
    inited = false;
  };
}

-- `rbtrace_globals_cleanup`
unfoldable pub globals_cleanup : Bool → Process → Process
globals_cleanup unlink p =
    let g = p.globals in
    forget_globals
      (cleanup_shm unlink g.shm_fd g.shm_base g.shm_size (cleanup_sem unlink g.sem_ptr p))

-- `rbtrace_exit`
unfoldable pub rbtrace_exit : Process → Process
unfolding globals_cleanup
rbtrace_exit p = globals_cleanup false p
