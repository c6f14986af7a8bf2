-- ===== src/Bench/Child.antt =====
-- A child of the benchmark, rbtbench.c: the stages at which it opens and maps the context again.
use rbtrace.Base.{ℕ, ◌≡◌, refl, ap, true, false, List, ◌∷◌, Option}
use rbtrace.Trace.{RingConfig}
use rbtrace.Shared.{Process, Ptr, Reply, returned, refused, reply_of}
use rbtrace.Shared.Calls.{ok, hold_map}
use rbtrace.Bench.Main.{
  BenchOptions, Runner, set_process, context_size, bench_out, child_mapped, child_opened,
}
use rbtrace.Bench.Joined.{Maps, Has}
use rbtrace.Bench.Taken.{Ends, closed-Ends}
use rbtrace.Bench.Cleaned.{attached-Ends}

-- A child, which holds the descriptor and the mapping of its parent.
module _ (cfgs : List RingConfig) (o : BenchOptions) (ready : List ℕ) where
  child_mapped-Ends :
      (F : List ℕ) (M : Maps) (S : List ℕ) (fd : ℕ) (old : Option ℕ) (ctx : Ptr) (a : Reply)
      (p : Process) (r : Runner)
      → Has (fd ∷ F) M S p
      → r.ctx_name ≡ true
      → Ends F M S false (
          child_mapped cfgs o ready fd
            (record { shmfd = old; ctx = ctx; is_parent = false; rbtrace_inited = false })
            (a, p)
            r)
  unfolding child_mapped
  child_mapped-Ends F M S fd old ctx (refused e) p r h name =
      closed-Ends F M S fd true false ok (set_process p r) h
  child_mapped-Ends F M S fd old ctx (returned base) p r h name =
      attached-Ends fd base false F M S cfgs o ready (hold_map base context_size p)
        (set_process _ r)
        (record {
          fds_are = h.fds_are;
          maps_are = ap (λ l. (base, context_size) ∷ l) h.maps_are;
          sems_are = h.sems_are;
        })
        name

  pub child_opened-Ends :
      (F : List ℕ) (M : Maps) (S : List ℕ) (old : Option ℕ) (ctx : Ptr) (a : Reply) (p : Process)
      (r : Runner)
      → Has F M S p
      → r.ctx_name ≡ true
      → Ends F M S false (
          child_opened cfgs o ready
            (record { shmfd = old; ctx = ctx; is_parent = false; rbtrace_inited = false })
            (a, p)
            r)
  unfolding child_opened bench_out
  child_opened-Ends F M S old ctx (refused e) p r h name = (refl, record { has = h; freed = refl })
  child_opened-Ends F M S old ctx (returned fd) p r h name =
      child_mapped-Ends F M S fd old ctx (reply_of p.replies) _ r
        (record {
          fds_are = ap (λ l. fd ∷ l) h.fds_are;
          maps_are = h.maps_are;
          sems_are = h.sems_are;
        })
        name
