-- ===== src/Bench/Joined.antt =====
-- What a process of the benchmark, rbtbench.c, holds around `rbtrace_init` and `rbtrace_exit`.
use rbtrace.Base.{
  ℕ, ◌≡◌, inl, inr, refl, ap, ap₂, ◌∙◌, Bool, true, false, ◌&&◌, List, ◌∷◌, ◌==◌, if◌then◌else◌,
  Bool-cases, arith,
}
use rbtrace.Trace.{RingConfig}
use rbtrace.Shared.{
  Process, Reply, returned, refused, reply_of, ask, calc_shm_size, drop_one, globals_init,
}
use rbtrace.Shared.Calls.{
  Rc, ok, minus_one, error, init_opened, init_mapped, init_sem, rbtrace_exit, globals_cleanup,
  rbtrace_init,
}
use rbtrace.Shared.Leaks.{number_back, map_back}

abbrev pub Maps : Type 0
Maps = List (ℕ × ℕ)

-- The descriptors, mappings and semaphores that a process holds.
pub record Has (fds : List ℕ) (maps : Maps) (sems : List ℕ) (p : Process) : Type 0 where
  pub fds_are : p.held.fds ≡ fds
  pub maps_are : p.held.maps ≡ maps
  pub sems_are : p.held.sems ≡ sems

abbrev pub same_map : ℕ → ℕ → ℕ × ℕ → Bool
same_map base size m = m.0 == base && m.1 == size

-- What was taken second is given back first.
pub number_second : (a x : ℕ) (xs : List ℕ) → drop_one (λ y. y == x) (a ∷ x ∷ xs) ≡ a ∷ xs
number_second a x xs = elim (Bool-cases (a == x)) [
  | inl e ↦ rw e (ap (λ y. y ∷ xs) (ground arith))
  | inr e ↦ rw e (ap (λ l. a ∷ l) (number_back x xs))
]

pub map_second :
    (a : ℕ × ℕ) (base size : ℕ) (ms : Maps)
    → drop_one (same_map base size) (a ∷ (base, size) ∷ ms) ≡ a ∷ ms
map_second a base size ms = elim (Bool-cases (same_map base size a)) [
  | inl e ↦ rw e (ap (λ y. y ∷ ms) (ap₂ (λ b s. (b, s)) (ground arith) (ground arith)))
  | inr e ↦ rw e (ap (λ l. a ∷ l) (map_back base size ms))
]

module _ (F : List ℕ) (M : Maps) (S : List ℕ) where
  -- What `rbtrace_init` leaves on success, and what `rbtrace_exit` makes of that.
  pub record Joined (q : Process) : Type 0 where
    pub fd : ℕ
    pub base : ℕ
    pub size : ℕ
    pub sem : ℕ
    pub globals_are : q.globals ≡ globals_init fd base size sem
    pub has : Has (fd ∷ F) ((base, size) ∷ M) (sem ∷ S) q

  abbrev pub Entered : Rc × Process → Type 0
  Entered (ok, q) = Joined q
  Entered (minus_one, q) = Has F M S q
  Entered (error e, q) = Has F M S q

  init_sem-Entered :
      (size fd base : ℕ) (r : Reply) (p : Process)
      → Has (fd ∷ F) ((base, size) ∷ M) S p
      → Entered (init_sem size fd base (r, p))
  unfolding init_sem
  init_sem-Entered size fd base (refused e) p h = record {
    fds_are = ap (drop_one (λ x. x == fd)) h.fds_are ∙ number_back fd F;
    maps_are = ap (drop_one (same_map base size)) h.maps_are ∙ map_back base size M;
    sems_are = h.sems_are;
  }
  init_sem-Entered size fd base (returned sem) p h = record {
    fd = fd;
    base = base;
    size = size;
    sem = sem;
    globals_are = refl;
    has = record {
      fds_are = h.fds_are;
      maps_are = h.maps_are;
      sems_are = ap (λ l. sem ∷ l) h.sems_are;
    };
  }

  init_mapped-Entered :
      (size fd : ℕ) (r : Reply) (p : Process)
      → Has (fd ∷ F) M S p
      → Entered (init_mapped size fd (r, p))
  unfolding init_mapped
  init_mapped-Entered size fd (refused e) p h = record {
    fds_are = ap (drop_one (λ x. x == fd)) h.fds_are ∙ number_back fd F;
    maps_are = h.maps_are;
    sems_are = h.sems_are;
  }
  init_mapped-Entered size fd (returned base) p h =
      init_sem-Entered size fd base (reply_of p.replies) _ (record {
        fds_are = h.fds_are;
        maps_are = ap (λ l. (base, size) ∷ l) h.maps_are;
        sems_are = h.sems_are;
      })

  init_opened-Entered :
      (size : ℕ) (r : Reply) (p : Process) → Has F M S p → Entered (init_opened size (r, p))
  unfolding init_opened
  init_opened-Entered size (refused e) p h = h
  init_opened-Entered size (returned fd) p h =
      init_mapped-Entered size fd (reply_of p.replies) _ (record {
        fds_are = ap (λ l. fd ∷ l) h.fds_are;
        maps_are = h.maps_are;
        sems_are = h.sems_are;
      })

  pub rbtrace_init-Entered :
      (cfgs : List RingConfig) (p : Process) → Has F M S p → Entered (rbtrace_init cfgs p)
  unfolding rbtrace_init
  rbtrace_init-Entered cfgs p h = entered p.globals.inited
    where
      entered :
          (b : Bool)
          → Entered (if b then (minus_one, p) else init_opened (calc_shm_size cfgs) (ask p))
      entered true = h
      entered false =
          init_opened-Entered (calc_shm_size cfgs) (reply_of p.replies) _
            (record { fds_are = h.fds_are; maps_are = h.maps_are; sems_are = h.sems_are })

  pub rbtrace_exit-Has : (q : Process) → Joined q → Has F M S (rbtrace_exit q)
  unfolding rbtrace_exit globals_cleanup globals_init
  rbtrace_exit-Has q j = rw j.globals_are (record {
    fds_are = ap (drop_one (λ x. x == j.fd)) j.has.fds_are ∙ number_back j.fd F;
    maps_are = ap (drop_one (same_map j.base j.size)) j.has.maps_are ∙ map_back j.base j.size M;
    sems_are = ap (drop_one (λ x. x == j.sem)) j.has.sems_are ∙ number_back j.sem S;
  })
