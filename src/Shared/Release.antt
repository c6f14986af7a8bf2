-- ===== src/Shared/Release.antt =====
-- What the daemon holds, by `rbtrace_daemon_init` and `rbtrace_daemon_exit`, rbtrace_backing.c.
use rbtrace.Base.{ℕ, ◌≡◌, refl, ap, ◌∙◌, ◌⊎◌, inl, inr, true, false, ◌&&◌, List, ◌∷◌, ◌==◌}
use rbtrace.Trace.{RingConfig}
use rbtrace.Backing.State.{Daemon}
use rbtrace.Shared.{
  Process, address, Reply, returned, refused, reply_of, rest_of, ask, calc_shm_size, drop_one,
  globals_init,
}
use rbtrace.Shared.Calls.{
  Rc, ok, minus_one, error, close, globals_cleanup, hold_sem, munmap, sem_close, sem_unlink,
  set_globals, shm_unlink,
}
use rbtrace.Shared.Leaks.{number_back, map_back}
use rbtrace.Shared.Start.{
  daemon_exit, put_thread_sem, daemon_init, give_up, start_mapped, start_opened, start_sem,
  start_sized, start_thread,
}

-- The same descriptors, mappings and semaphores.
pub record SameHeld (p q : Process) : Type 0 where
  pub fds : q.held.fds ≡ p.held.fds
  pub maps : q.held.maps ≡ p.held.maps
  pub sems : q.held.sems ≡ p.held.sems

shm_unlink-SameHeld : (r : Reply) (p : Process) → SameHeld p (shm_unlink (r, p))
shm_unlink-SameHeld (refused e) p = record { fds = refl; maps = refl; sems = refl }
shm_unlink-SameHeld (returned n) p = record { fds = refl; maps = refl; sems = refl }

sem_unlink-SameHeld : (r : Reply) (p : Process) → SameHeld p (sem_unlink (r, p))
sem_unlink-SameHeld (refused e) p = record { fds = refl; maps = refl; sems = refl }
sem_unlink-SameHeld (returned n) p = record { fds = refl; maps = refl; sems = refl }

-- The same `rbt_thread.sem` and globals.
record SameRest (p q : Process) : Type 0 where
  thread_sem : q.held.thread_sem ≡ p.held.thread_sem
  globals : q.globals ≡ p.globals

shm_unlink-SameRest : (r : Reply) (p : Process) → SameRest p (shm_unlink (r, p))
shm_unlink-SameRest (refused e) p = record { thread_sem = refl; globals = refl }
shm_unlink-SameRest (returned n) p = record { thread_sem = refl; globals = refl }

sem_unlink-SameRest : (r : Reply) (p : Process) → SameRest p (sem_unlink (r, p))
sem_unlink-SameRest (refused e) p = record { thread_sem = refl; globals = refl }
sem_unlink-SameRest (returned n) p = record { thread_sem = refl; globals = refl }

-- What the daemon took on top of `p`.
record Took (fd base size sem : ℕ) (p q : Process) : Type 0 where
  fds : q.held.fds ≡ fd ∷ p.held.fds
  maps : q.held.maps ≡ (base, size) ∷ p.held.maps
  sems : q.held.sems ≡ sem ∷ p.held.sems

cleanup-Took :
    (fd base size sem : ℕ) (p q : Process)
    → Took fd base size sem p q
    → SameHeld p (globals_cleanup true (set_globals (globals_init fd base size sem) q))
unfolding globals_cleanup globals_init
cleanup-Took fd base size sem p q k =
    let q1 = sem_close sem (set_globals (globals_init fd base size sem) q) in
    let q2 = sem_unlink (ask q1) in
    let a = sem_unlink-SameHeld (reply_of q.replies) (record q1 { replies = rest_of q.replies }) in
    let q3 = close fd (munmap base size q2) in
    let b =
      shm_unlink-SameHeld (reply_of q3.replies) (record q3 { replies = rest_of q3.replies }) in
    record {
      fds = b.fds ∙ ap (drop_one (λ x. x == fd)) (a.fds ∙ k.fds) ∙ number_back fd p.held.fds;
      maps =
          b.maps
          ∙ ap (drop_one (λ m. m.0 == base && m.1 == size)) (a.maps ∙ k.maps)
          ∙ map_back base size p.held.maps;
      sems = b.sems ∙ a.sems ∙ ap (drop_one (λ x. x == sem)) k.sems ∙ number_back sem p.held.sems;
    }

-- Taking the globals down leaves `rbt_thread.sem`, and the pointers into the mapping.
cleanup-rest :
    (fd base size sem : ℕ) (q : Process)
    → ((globals_cleanup true (set_globals (globals_init fd base size sem) q)).held.thread_sem
        ≡ q.held.thread_sem)
      × ((globals_cleanup true (set_globals (globals_init fd base size sem) q)).globals.inited
          ≡ false)
      × ((globals_cleanup true (set_globals (globals_init fd base size sem) q)).globals.fsize_ptr
          ≡ address base)
unfolding globals_cleanup globals_init
cleanup-rest fd base size sem q =
    let q1 = sem_close sem (set_globals (globals_init fd base size sem) q) in
    let q2 = sem_unlink (ask q1) in
    let a = sem_unlink-SameRest (reply_of q.replies) (record q1 { replies = rest_of q.replies }) in
    let q3 = close fd (munmap base size q2) in
    let b =
      shm_unlink-SameRest (reply_of q3.replies) (record q3 { replies = rest_of q3.replies }) in
    (
      b.thread_sem ∙ a.thread_sem,
      refl,
      ap (λ g. g.fsize_ptr) b.globals ∙ ap (λ g. g.fsize_ptr) a.globals,
    )

give_up-SameHeld :
    (fd : ℕ) (p q : Process)
    → q.held.fds ≡ fd ∷ p.held.fds
    → q.held.maps ≡ p.held.maps
    → q.held.sems ≡ p.held.sems
    → SameHeld p (give_up fd q)
give_up-SameHeld fd p q f m s =
    let q1 = close fd q in
    let b = shm_unlink-SameHeld (reply_of q.replies) (record q1 { replies = rest_of q.replies }) in
    record {
      fds = b.fds ∙ ap (drop_one (λ x. x == fd)) f ∙ number_back fd p.held.fds;
      maps = b.maps ∙ m;
      sems = b.sems ∙ s;
    }

-- `rbt_thread.sem` is as it was and nothing was set up; or the globals were set up and taken down
-- again, which is so where `pthread_create` fails, and the semaphore is still initialised.
abbrev pub SemLeft : Process → Process → Type 0
SemLeft p q =
    ((q.held.thread_sem ≡ p.held.thread_sem) × (q.globals ≡ p.globals))
    ⊎ ((q.held.thread_sem ≡ true)
        × (q.globals.inited ≡ false)
        × ((base : ℕ) × (q.globals.fsize_ptr ≡ address base)))

-- A daemon that has started has destroyed `rbt_thread.sem`, and gives the rest back when it ends;
-- one that has not has given all but that back.
abbrev pub Released : Process → Rc × Process → Type 0
Released p (ok, q) =
    (q.globals.inited ≡ true)
    × ((d : Daemon) → SameHeld p (daemon_exit (q, d)).0)
    × (q.held.thread_sem ≡ false)
Released p (minus_one, q) = SameHeld p q × SemLeft p q
Released p (error e, q) = SameHeld p q × SemLeft p q

start_thread-Released :
    (fd base size sem : ℕ) (p q : Process) (r : Reply)
    → Took fd base size sem p q
    → q.held.thread_sem ≡ true
    → Released p (start_thread (r, set_globals (globals_init fd base size sem) q))
unfolding start_thread daemon_exit globals_init
start_thread-Released fd base size sem p q (refused e) k t =
    let c = cleanup-rest fd base size sem q in
    (cleanup-Took fd base size sem p q k, inr (c.0 ∙ t, c.1, (base, c.2)))
start_thread-Released fd base size sem p q (returned n) k t = (
  refl,
  λ d.
      cleanup-Took fd base size sem p
        (put_thread_sem false (record q { replies = rest_of q.replies }))
        (record { fds = k.fds; maps = k.maps; sems = k.sems }),
  refl,
)

-- The daemon is to hold the descriptor `fd` on top of `p`, and the mappings `maps`.
record Begun (fd : ℕ) (maps : List (ℕ × ℕ)) (p q : Process) : Type 0 where
  fds : q.held.fds ≡ fd ∷ p.held.fds
  maps_are : q.held.maps ≡ maps
  sems : q.held.sems ≡ p.held.sems
  rest : SameRest p q

given_up :
    (fd : ℕ) (p q : Process)
    → Begun fd p.held.maps p q
    → SameHeld p (give_up fd q) × SemLeft p (give_up fd q)
given_up fd p q b =
    let q1 = close fd q in
    let c =
      shm_unlink-SameRest (reply_of q1.replies) (record q1 { replies = rest_of q1.replies }) in
    (
      give_up-SameHeld fd p q b.fds b.maps_are b.sems,
      inl (c.thread_sem ∙ b.rest.thread_sem, c.globals ∙ b.rest.globals),
    )

start_sem-Released :
    (size fd base : ℕ) (p q : Process) (r : Reply)
    → Begun fd ((base, size) ∷ p.held.maps) p q
    → Released p (start_sem size fd base (r, q))
unfolding start_sem
start_sem-Released size fd base p q (refused e) b = given_up fd p (munmap base size q) (record {
  fds = b.fds;
  maps_are =
      ap (drop_one (λ m. m.0 == base && m.1 == size)) b.maps_are ∙ map_back base size p.held.maps;
  sems = b.sems;
  rest = record { thread_sem = b.rest.thread_sem; globals = b.rest.globals };
})
start_sem-Released size fd base p q (returned sem) b =
    let p1 = hold_sem sem q in
    let p2 = record p1 {
      held = record p1.held { sem_name = true; thread_sem = true };
      replies = rest_of q.replies;
    } in
    start_thread-Released fd base size sem p p2 (reply_of q.replies)
      (record { fds = b.fds; maps = b.maps_are; sems = ap (λ sems. sem ∷ sems) b.sems }) refl

start_mapped-Released :
    (size fd : ℕ) (p q : Process) (r : Reply)
    → Begun fd p.held.maps p q
    → Released p (start_mapped size fd (r, q))
unfolding start_mapped
start_mapped-Released size fd p q (refused e) b = given_up fd p q b
start_mapped-Released size fd p q (returned base) b =
    start_sem-Released size fd base p _ _ (record {
      fds = b.fds;
      maps_are = ap (λ maps. (base, size) ∷ maps) b.maps_are;
      sems = b.sems;
      rest = record { thread_sem = b.rest.thread_sem; globals = b.rest.globals };
    })

start_sized-Released :
    (size fd : ℕ) (p q : Process) (r : Reply)
    → Begun fd p.held.maps p q
    → Released p (start_sized size fd (r, q))
unfolding start_sized
start_sized-Released size fd p q (refused e) b = given_up fd p q b
start_sized-Released size fd p q (returned n) b =
    start_mapped-Released size fd p _ (reply_of q.replies) (record {
      fds = b.fds;
      maps_are = b.maps_are;
      sems = b.sems;
      rest = record { thread_sem = b.rest.thread_sem; globals = b.rest.globals };
    })

start_opened-Released :
    (size : ℕ) (p q : Process) (r : Reply)
    → SameHeld p q
    → SameRest p q
    → Released p (start_opened size (r, q))
unfolding start_opened
start_opened-Released size p q (refused e) h g =
    (record { fds = h.fds; maps = h.maps; sems = h.sems }, inl (g.thread_sem, g.globals))
start_opened-Released size p q (returned fd) h g =
    start_sized-Released size fd p _ (reply_of q.replies) (record {
      fds = ap (λ fds. fd ∷ fds) h.fds;
      maps_are = h.maps;
      sems = h.sems;
      rest = record { thread_sem = g.thread_sem; globals = g.globals };
    })

-- Whatever the system returns: if `rbtrace_daemon_init` fails, the process holds the descriptors,
-- mappings and named semaphores that it held before, and either `rbt_thread.sem` and the globals are
-- as they were, or, where the globals had been set up and were taken down again, that semaphore is
-- still initialised. If it succeeds, the globals are set up, `rbt_thread.sem` is destroyed, and
-- `rbtrace_daemon_exit` leaves the process with just the descriptors, mappings and named semaphores
-- that it held before.
pub daemon_init-Released : (cfgs : List RingConfig) (p : Process) → Released p (daemon_init cfgs p)
unfolding daemon_init
daemon_init-Released cfgs p =
    let p1 = record p { replies = rest_of p.replies } in
    let p2 = shm_unlink (reply_of p.replies, p1) in
    let p3 = record p2 { replies = rest_of p2.replies } in
    let p4 = sem_unlink (reply_of p2.replies, p3) in
    let a = shm_unlink-SameHeld (reply_of p.replies) p1 in
    let b = sem_unlink-SameHeld (reply_of p2.replies) p3 in
    let c = shm_unlink-SameRest (reply_of p.replies) p1 in
    let d = sem_unlink-SameRest (reply_of p2.replies) p3 in
    start_opened-Released (calc_shm_size cfgs) p (record p4 { replies = rest_of p4.replies })
      (reply_of p4.replies)
      (record { fds = b.fds ∙ a.fds; maps = b.maps ∙ a.maps; sems = b.sems ∙ a.sems })
      (record { thread_sem = d.thread_sem ∙ c.thread_sem; globals = d.globals ∙ c.globals })
