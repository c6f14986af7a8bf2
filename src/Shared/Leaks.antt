-- ===== src/Shared/Leaks.antt =====
-- What a process holds, by `rbtrace_init` and `rbtrace_exit`, rbtrace.c.
use rbtrace.Base.{
  ℕ, ◌≡◌, refl, ap, ap₂, ◌∙◌, Bool, true, false, ◌&&◌, List, ◌∷◌, ◌==◌, if◌then◌else◌, arith,
}
use rbtrace.Trace.{RingConfig}
use rbtrace.Shared.{Held, Process, Reply, returned, refused, reply_of, ask, calc_shm_size, drop_one}
use rbtrace.Shared.Calls.{
  Rc, ok, minus_one, error, hold_fd, hold_map, init_opened, init_mapped, init_sem, rbtrace_exit,
  rbtrace_init,
}

pub number_back : (n : ℕ) (ns : List ℕ) → drop_one (λ x. x == n) (n ∷ ns) ≡ ns
number_back n ns = ground arith

pub map_back :
    (base size : ℕ) (ms : List (ℕ × ℕ))
    → drop_one (λ m. m.0 == base && m.1 == size) ((base, size) ∷ ms) ≡ ms
map_back base size ms = ground arith

-- Either the call fails, and the process is as it was but for the replies; or it succeeds, and
-- leaving would bring it back.
pub record Failed (p q : Process) (rc : Rc) : Type 0 where
  pub held : q.held ≡ p.held
  pub globals : q.globals ≡ p.globals

pub record Attached (p q : Process) : Type 0 where
  pub inited : q.globals.inited ≡ true
  pub given_back : (rbtrace_exit q).held ≡ p.held
  pub left : (rbtrace_exit q).globals.inited ≡ false

abbrev pub Settled : Process → Rc × Process → Type 0
Settled p (ok, q) = Attached p q
Settled p (minus_one, q) = Failed p q minus_one
Settled p (error e, q) = Failed p q (error e)

abbrev freed : Held → List ℕ → List (ℕ × ℕ) → List ℕ → Held
freed h fds maps sems = record h { fds = fds; maps = maps; sems = sems }

module _ (p : Process) (size fd base : ℕ) where
  abbrev mapped : List Reply → Process
  mapped rs = record (hold_map base size (hold_fd fd p)) { replies = rs }

  init_sem-Settled :
      (r : Reply) (rs : List Reply) → Settled p (init_sem size fd base (r, mapped rs))
  unfolding init_sem rbtrace_exit
  init_sem-Settled (refused e) rs = record {
    held =
        ap₂ (λ f m. freed p.held f m p.held.sems) (number_back fd p.held.fds)
          (map_back base size p.held.maps);
    globals = refl;
  }
  init_sem-Settled (returned sem) rs = record {
    inited = refl;
    given_back =
        ap₂ (λ f m. freed p.held f m (drop_one (λ x. x == sem) (sem ∷ p.held.sems)))
          (number_back fd p.held.fds) (map_back base size p.held.maps)
        ∙ ap (freed p.held p.held.fds p.held.maps) (number_back sem p.held.sems);
    left = refl;
  }

init_mapped-Settled :
    (p : Process) (size fd : ℕ) (r : Reply) (rs : List Reply)
    → Settled p (init_mapped size fd (r, record (hold_fd fd p) { replies = rs }))
unfolding init_mapped
init_mapped-Settled p size fd (refused e) rs = record {
  held = ap (λ f. freed p.held f p.held.maps p.held.sems) (number_back fd p.held.fds);
  globals = refl;
}
init_mapped-Settled p size fd (returned base) rs = init_sem-Settled p size fd base (reply_of rs) _

init_opened-Settled :
    (p : Process) (size : ℕ) (r : Reply) (rs : List Reply)
    → Settled p (init_opened size (r, record p { replies = rs }))
unfolding init_opened
init_opened-Settled p size (refused e) rs = record { held = refl; globals = refl }
init_opened-Settled p size (returned fd) rs = init_mapped-Settled p size fd (reply_of rs) _

-- Whatever the system returns, `rbtrace_init` either fails and leaves the process with the
-- descriptors, mappings, semaphores and globals that it had, or succeeds, so that `rbtrace_exit`
-- gives back exactly what was taken and the process can attach again.
pub rbtrace_init-Settled : (cfgs : List RingConfig) (p : Process) → Settled p (rbtrace_init cfgs p)
unfolding rbtrace_init
rbtrace_init-Settled cfgs p = attached p.globals.inited
  where
    attached :
        (b : Bool)
        → Settled p (if b then (minus_one, p) else init_opened (calc_shm_size cfgs) (ask p))
    attached true = record { held = refl; globals = refl }
    attached false = init_opened-Settled p (calc_shm_size cfgs) (reply_of p.replies) _
