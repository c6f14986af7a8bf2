-- ===== src/Bench/Taken.antt =====
-- What a process of the benchmark leaves at the label `out` of `main`, rbtbench.c.
use rbtrace.Base.{
  ℕ, ◌≡◌, refl, ap, ◌∙◌, sym, subst, Bool, true, false, List, ◌∷◌, some, ◌==◌, if◌then◌else◌,
}
use rbtrace.Shared.{
  Process, Ptr, null, invalid, address, Reply, returned, refused, reply_of, rest_of, drop_one,
}
use rbtrace.Shared.Calls.{Rc, close, cleanup_map}
use rbtrace.Shared.Leaks.{number_back, map_back}
use rbtrace.Bench.Joined.{Maps, Has, Joined, same_map, number_second, map_second, rbtrace_exit-Has}
use rbtrace.Bench.Main.{
  Runner, BenchEnding, finished, aborted, waiting, context_size, unlink_ctx, drop_ctx, bench_out,
}

unlink_ctx-is : (a : Reply) (p : Process) (r : Runner) → (unlink_ctx (a, p) r).process ≡ p
unlink_ctx-is (refused e) p r = refl
unlink_ctx-is (returned n) p r = refl

-- Giving the context back changes the process only so.
drop_ctx-is :
    (fd : ℕ) (ctx : Ptr) (parent : Bool) (r : Runner)
    → (rs : List Reply) × ((drop_ctx (some fd) ctx parent r).process
        ≡ record (close fd (cleanup_map ctx context_size r.process)) { replies = rs })
drop_ctx-is fd ctx true r =
    let p = close fd (cleanup_map ctx context_size r.process) in
    (rest_of p.replies, unlink_ctx-is (reply_of p.replies) _ r)
drop_ctx-is fd ctx false r = ((cleanup_map ctx context_size r.process).replies, refl)

module _ (F : List ℕ) (M : Maps) (S : List ℕ) where
  pub record Left (r : Runner) : Type 0 where
    pub has : Has F M S r.process
    pub freed : r.threads ≡ false

  -- How `main` ends in the parent, or in a child.
  abbrev pub Ends : Bool → BenchEnding → Type 0
  Ends parent (finished b rc r) = (b ≡ parent) × Left r
  Ends parent (aborted r) = r.ctx_name ≡ true
  Ends parent (waiting r) = (r.process.globals.inited ≡ true) × (r.ctx_name ≡ true)

  pub Joined-replies :
      (p : Process) (rs : List Reply) → Joined F M S p → Joined F M S (record p { replies = rs })
  Joined-replies p rs j = record {
    fd = j.fd;
    base = j.base;
    size = j.size;
    sem = j.sem;
    globals_are = j.globals_are;
    has = record { fds_are = j.has.fds_are; maps_are = j.has.maps_are; sems_are = j.has.sems_are };
  }

  close-Has :
      (fd : ℕ) (p : Process) (rs : List Reply)
      → Has (fd ∷ F) M S p
      → Has F M S (record (close fd p) { replies = rs })
  close-Has fd p rs h = record {
    fds_are = ap (drop_one (λ x. x == fd)) h.fds_are ∙ number_back fd F;
    maps_are = h.maps_are;
    sems_are = h.sems_are;
  }

  -- At the label `out`, with a context whose `mmap` succeeded.
  pub before-Ends :
      (fd base : ℕ) (parent : Bool) (rc : Rc) (r : Runner)
      → Has (fd ∷ F) ((base, context_size) ∷ M) S r.process
      → Ends parent (
          bench_out rc
            (record {
              shmfd = some fd;
              ctx = address base;
              is_parent = parent;
              rbtrace_inited = false;
            })
            r)
  unfolding bench_out
  before-Ends fd base parent rc r h =
      let d = drop_ctx-is fd (address base) parent r in
      (
        refl,
        record {
          has =
              subst (λ p. Has F M S p) (sym d.1)
                (record {
                  fds_are = ap (drop_one (λ x. x == fd)) h.fds_are ∙ number_back fd F;
                  maps_are =
                      ap (drop_one (same_map base context_size)) h.maps_are
                      ∙ map_back base context_size M;
                  sems_are = h.sems_are;
                });
          freed = refl;
        },
      )

  -- The same once `rbtrace_init` has succeeded.
  pub after-Ends :
      (fd base : ℕ) (parent : Bool) (rc : Rc) (r : Runner)
      → Joined (fd ∷ F) ((base, context_size) ∷ M) S r.process
      → Ends parent (
          bench_out rc
            (record {
              shmfd = some fd;
              ctx = address base;
              is_parent = parent;
              rbtrace_inited = true;
            })
            r)
  unfolding bench_out
  after-Ends fd base parent rc r j =
      let d = drop_ctx-is fd (address base) parent r in
      (
        refl,
        record {
          has = rbtrace_exit-Has F M S _ (
              subst (λ p. Joined F M S p) (sym d.1)
                (record {
                  fd = j.fd;
                  base = j.base;
                  size = j.size;
                  sem = j.sem;
                  globals_are = j.globals_are;
                  has = record {
                    fds_are = ap (drop_one (λ x. x == fd)) j.has.fds_are ∙ number_second j.fd fd F;
                    maps_are =
                        ap (drop_one (same_map base context_size)) j.has.maps_are
                        ∙ map_second (j.base, j.size) base context_size M;
                    sems_are = j.has.sems_are;
                  };
                }));
          freed = refl;
        },
      )

  -- The same where the context is not mapped, and `ctx` is NULL or MAP_FAILED.
  pub closed-Ends :
      (fd : ℕ) (tried parent : Bool) (rc : Rc) (r : Runner)
      → Has (fd ∷ F) M S r.process
      → Ends parent (
          bench_out rc
            (record {
              shmfd = some fd;
              ctx = if tried then invalid else null;
              is_parent = parent;
              rbtrace_inited = false;
            })
            r)
  unfolding bench_out
  closed-Ends fd true parent rc r h =
      let d = drop_ctx-is fd invalid parent r in
      (
        refl,
        record {
          has = subst (λ p. Has F M S p) (sym d.1) (close-Has fd r.process _ h);
          freed = refl;
        },
      )
  closed-Ends fd false parent rc r h =
      let d = drop_ctx-is fd null parent r in
      (
        refl,
        record {
          has = subst (λ p. Has F M S p) (sym d.1) (close-Has fd r.process _ h);
          freed = refl;
        },
      )
