-- ===== src/Bench/Ended.antt =====
-- What a run of the benchmark leaves, rbtbench.c, by the way in which it ends.
use rbtrace.Base.{
  ℕ, ◌-◌, ◌≡◌, refl, ap, sym, false≢true, Bool, true, false, List, ◌∷◌, Option, none, some, zero,
  suc, ◌==◌, if◌then◌else◌,
}
use rbtrace.Trace.{RingConfig}
use rbtrace.Shared.{
  Process, null, invalid, address, Reply, returned, refused, reply_of, rest_of, ask,
}
use rbtrace.Shared.Calls.{Rc, ok, minus_one, hold_map}
use rbtrace.Bench.Main.{
  BenchArg, BenchOptions, bench_options, bench_defaults, Runner, set_process, Locals, first_locals,
  BenchEnding, finished, aborted, waiting, context_size, bench_out, fork_all, forked, ctx_mapped,
  ctx_sized, ctx_opened, bench_main,
}
use rbtrace.Bench.Joined.{Maps, Has}
use rbtrace.Bench.Taken.{Left, Ends, closed-Ends}
use rbtrace.Bench.Child.{child_opened-Ends}
use rbtrace.Bench.Cleaned.{attached-Ends}

-- The first `shm_open` returned `fd`, and the first `mmap`, which is the third call, `base`: the
-- context that the parent sets up before it forks.
abbrev pub CtxReplies : List Reply → ℕ → ℕ → Type 0
CtxReplies rs fd base =
    (reply_of rs ≡ returned fd) × (reply_of (rest_of (rest_of rs)) ≡ returned base)

-- At the end of `main` the parent holds what it held before, and a child in addition the descriptor
-- and the mapping of the context that it has from its parent; the array of threads is freed. A
-- process that waits is attached to the shared memory of rbtrace; and when one waits, or an `assert`
-- fails, the name of the context is there.
abbrev pub IsCleaned : Runner → BenchEnding → Type 0
IsCleaned s (finished true rc r) = Left s.process.held.fds s.process.held.maps s.process.held.sems r
IsCleaned s (finished false rc r) =
    (fd : ℕ) × (base : ℕ) × CtxReplies s.process.replies fd base
    × Left (fd ∷ s.process.held.fds) ((base, context_size) ∷ s.process.held.maps)
        s.process.held.sems r
IsCleaned s (aborted r) = r.ctx_name ≡ true
IsCleaned s (waiting r) = (r.process.globals.inited ≡ true) × (r.ctx_name ≡ true)

module _ (s : Runner) where
  abbrev fds : List ℕ
  fds = s.process.held.fds

  abbrev maps : Maps
  maps = s.process.held.maps

  abbrev sems : List ℕ
  sems = s.process.held.sems

  parent-IsCleaned : (e : BenchEnding) → Ends fds maps sems true e → IsCleaned s e
  parent-IsCleaned (finished true rc r) h = h.1
  parent-IsCleaned (finished false rc r) h = absurd (false≢true h.0)
  parent-IsCleaned (aborted r) h = h
  parent-IsCleaned (waiting r) h = h

  child-IsCleaned :
      (fd base : ℕ) (e : BenchEnding)
      → CtxReplies s.process.replies fd base
      → Ends (fd ∷ fds) ((base, context_size) ∷ maps) sems false e
      → IsCleaned s e
  child-IsCleaned fd base (finished true rc r) c h = absurd (false≢true (sym h.0))
  child-IsCleaned fd base (finished false rc r) c h = (fd, base, c, h.1)
  child-IsCleaned fd base (aborted r) c h = h
  child-IsCleaned fd base (waiting r) c h = h

  -- The parent at `out`, where the context is not mapped.
  abbrev unmapped : ℕ → Bool → Locals
  unmapped fd tried = record first_locals { shmfd = some fd; ctx = if tried then invalid else null }

  closed-IsCleaned :
      (fd : ℕ) (tried : Bool) (rc : Rc) (r : Runner)
      → Has (fd ∷ fds) maps sems r.process
      → IsCleaned s (bench_out rc (unmapped fd tried) r)
  closed-IsCleaned fd tried rc r h =
      parent-IsCleaned (bench_out rc (unmapped fd tried) r)
        (closed-Ends fds maps sems fd tried true rc r h)

  -- A fork takes nothing.
  abbrev Forked : List ℕ → Maps → Option (Bool × Process) → Type 0
  Forked F M none = Unit
  Forked F M (some (b, p)) = Has F M sems p

  fork_all-Forked :
      (F : List ℕ) (M : Maps) (n : ℕ) (p : Process) → Has F M sems p → Forked F M (fork_all n p)
  fork_all-Forked F M zero p h = h
  fork_all-Forked F M (suc n) p h = by_reply (ask p).0 (fork_all-Forked F M n (ask p).1 asked)
    where
      asked : Has F M sems (ask p).1
      asked = record { fds_are = h.fds_are; maps_are = h.maps_are; sems_are = h.sems_are }

      by_pid :
          (b : Bool)
          → Forked F M (fork_all n (ask p).1)
          → Forked F M (if b then some (false, (ask p).1) else fork_all n (ask p).1)
      by_pid true k = asked
      by_pid false k = k

      by_reply :
          (a : Reply)
          → Forked F M (fork_all n (ask p).1)
          → Forked F M (elim a [
            | refused e ↦ none
            | returned pid ↦ if pid == 0 then some (false, (ask p).1) else fork_all n (ask p).1
          ])
      by_reply (refused e) k = tt
      by_reply (returned pid) k = by_pid (pid == 0) k

  module _ (cfgs : List RingConfig) (o : BenchOptions) (ready : List ℕ) where
    forked-IsCleaned :
        (fd base : ℕ) (m : Option (Bool × Process)) (r : Runner)
        → CtxReplies s.process.replies fd base
        → Forked (fd ∷ fds) ((base, context_size) ∷ maps) m
        → r.ctx_name ≡ true
        → IsCleaned s
            (forked cfgs o ready (record first_locals { shmfd = some fd; ctx = address base }) m r)
    unfolding forked
    forked-IsCleaned fd base none r c h name = name
    forked-IsCleaned fd base (some (true, p)) r c h name =
        parent-IsCleaned _ (attached-Ends fd base true fds maps sems cfgs o ready p _ h name)
    forked-IsCleaned fd base (some (false, p)) r c h name = child-IsCleaned fd base _ c (
        child_opened-Ends cfgs o ready (fd ∷ fds) ((base, context_size) ∷ maps) sems (some fd)
          (address base) (reply_of p.replies) _ (set_process p r)
          (record { fds_are = h.fds_are; maps_are = h.maps_are; sems_are = h.sems_are }) name)

    ctx_mapped-IsCleaned :
        (fd : ℕ) (a : Reply) (p : Process) (r : Runner)
        → reply_of s.process.replies ≡ returned fd
        → reply_of (rest_of (rest_of s.process.replies)) ≡ a
        → Has (fd ∷ fds) maps sems p
        → r.ctx_name ≡ true
        → IsCleaned s (ctx_mapped cfgs o ready fd (a, p) r)
    unfolding ctx_mapped
    ctx_mapped-IsCleaned fd (refused e) p r opened mapped_as h name =
        closed-IsCleaned fd true ok (set_process p r) h
    ctx_mapped-IsCleaned fd (returned base) p r opened mapped_as h name =
        let p1 = hold_map base context_size p in
        forked-IsCleaned fd base (fork_all (o.nr_processes - 1) p1) (set_process p1 r)
          (opened, mapped_as)
          (fork_all-Forked (fd ∷ fds) ((base, context_size) ∷ maps) (o.nr_processes - 1) p1
            (record {
              fds_are = h.fds_are;
              maps_are = ap (λ l. (base, context_size) ∷ l) h.maps_are;
              sems_are = h.sems_are;
            }))
          name

    ctx_sized-IsCleaned :
        (fd : ℕ) (a : Reply) (p : Process) (r : Runner)
        → reply_of s.process.replies ≡ returned fd
        → p.replies ≡ rest_of (rest_of s.process.replies)
        → Has (fd ∷ fds) maps sems p
        → r.ctx_name ≡ true
        → IsCleaned s (ctx_sized cfgs o ready fd (a, p) r)
    unfolding ctx_sized
    ctx_sized-IsCleaned fd (refused e) p r opened mapped_as h name =
        closed-IsCleaned fd false minus_one (set_process p r) h
    ctx_sized-IsCleaned fd (returned n) p r opened mapped_as h name =
        ctx_mapped-IsCleaned fd (reply_of p.replies) _ (set_process p r) opened
          (sym (ap reply_of mapped_as))
          (record { fds_are = h.fds_are; maps_are = h.maps_are; sems_are = h.sems_are }) name

    ctx_opened-IsCleaned :
        (a : Reply) (p : Process) (r : Runner)
        → reply_of s.process.replies ≡ a
        → p.replies ≡ rest_of s.process.replies
        → Has fds maps sems p
        → IsCleaned s (ctx_opened cfgs o ready (a, p) r)
    unfolding ctx_opened bench_out
    ctx_opened-IsCleaned (refused e) p r opened mapped_as h = record { has = h; freed = refl }
    ctx_opened-IsCleaned (returned fd) p r opened mapped_as h =
        ctx_sized-IsCleaned fd (reply_of p.replies) _ _ opened (ap rest_of mapped_as)
          (record {
            fds_are = ap (λ l. fd ∷ l) h.fds_are;
            maps_are = h.maps_are;
            sems_are = h.sems_are;
          })
          refl

-- Whatever the options, whatever the system returns and whatever the parent reads of the threads
-- that are ready: when `main` of rbtbench ends, the array of threads is freed, the parent holds the
-- descriptors, mappings and semaphores that it held before, and a child in addition the
-- descriptor and the mapping of the context that the first `shm_open` and `mmap` gave, before the
-- fork. A process that still waits is attached to
-- the shared memory of rbtrace; and where it waits or an `assert` fails, the name of the context is
-- there.
pub bench_main-IsCleaned :
    (cfgs : List RingConfig) (args : List BenchArg) (ready : List ℕ) (s : Runner)
    → IsCleaned s (bench_main cfgs args ready s)
unfolding bench_main bench_out
bench_main-IsCleaned cfgs args ready s = by_options (bench_options args bench_defaults)
  where
    by_options :
        (m : Option BenchOptions)
        → IsCleaned s (elim m [
          | none ↦ bench_out ok first_locals s
          | some o ↦ ctx_opened cfgs o ready (ask s.process) s
        ])
    by_options none = record {
      has = record { fds_are = refl; maps_are = refl; sems_are = refl };
      freed = refl;
    }
    by_options (some o) =
        ctx_opened-IsCleaned s cfgs o ready (reply_of s.process.replies) _ s refl refl
          (record { fds_are = refl; maps_are = refl; sems_are = refl })
