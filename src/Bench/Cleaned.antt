-- ===== src/Bench/Cleaned.antt =====
-- A process of the benchmark once its context is mapped, rbtbench.c: what it leaves from there on.
use rbtrace.Base.{
  ℕ, ◌-◌, ◌*◌, ◌≡◌, ap, Bool, true, false, List, [], ◌∷◌, Option, none, some, zero, suc, ltb,
  if◌then◌else◌,
}
use rbtrace.Trace.{RingConfig}
use rbtrace.Shared.{Process, address, Reply, returned, refused, reply_of, ask, globals_init}
use rbtrace.Shared.Calls.{Rc, ok, minus_one, error, rbtrace_init}
use rbtrace.Bench.Main.{
  BenchOptions, Runner, set_process, Locals, BenchEnding, aborted, waiting, context_size, bench_out,
  wait_children, benched, unlocked, signalled, wait_ready, locked, create_threads, allocated,
  after_init,
}
use rbtrace.Bench.Joined.{Maps, Has, Joined, Entered, rbtrace_init-Entered}
use rbtrace.Bench.Taken.{Ends, Joined-replies, before-Ends, after-Ends}

-- The context `(fd, base)` of this process, and what it held before.
module _ (fd base : ℕ) (parent : Bool) (F : List ℕ) (M : Maps) (S : List ℕ) where
  abbrev with_ctx : Bool → Locals
  with_ctx b = record {
    shmfd = some fd;
    ctx = address base;
    is_parent = parent;
    rbtrace_inited = b;
  }

  abbrev IsIn : Process → Type 0
  IsIn p = Joined (fd ∷ F) ((base, context_size) ∷ M) S p

  abbrev IsInMaybe : Option Process → Type 0
  IsInMaybe none = Unit
  IsInMaybe (some p) = IsIn p

  abbrev IsClean : BenchEnding → Type 0
  IsClean e = Ends F M S parent e

  out-Ends :
      (rc : Rc) (p : Process) (r : Runner)
      → IsIn p
      → IsClean (bench_out rc (with_ctx true) (set_process p r))
  out-Ends rc p r j = after-Ends F M S fd base parent rc (set_process p r) j

  waiting-Ends :
      (p : Process) (r : Runner) → IsIn p → r.ctx_name ≡ true → IsClean (waiting (set_process p r))
  unfolding globals_init
  waiting-Ends p r j name = (ap (λ g. g.inited) j.globals_are, name)

  benched-Ends :
      (r : Runner) → IsIn r.process → r.ctx_name ≡ true → IsClean (benched (with_ctx true) r)
  unfolding benched
  benched-Ends r j name = by_role parent
    where
      at_end :
          (o : Option (List Reply))
          → IsClean (elim o [
            | none ↦ waiting r
            | some rs ↦
                bench_out ok (with_ctx true) (set_process (record r.process { replies = rs }) r)
          ])
      at_end none = waiting-Ends r.process r j name
      at_end (some rs) = out-Ends ok _ r (Joined-replies _ _ _ r.process rs j)

      by_role :
          (b : Bool)
          → IsClean (
              if b
              then elim (wait_children r.process.replies) [
                | none ↦ waiting r
                | some rs ↦
                    bench_out ok (with_ctx true) (set_process (record r.process { replies = rs }) r)
              ]
              else bench_out ok (with_ctx true) r)
      by_role true = at_end (wait_children r.process.replies)
      by_role false = out-Ends ok r.process r j

  unlocked-Ends :
      (a : Reply) (p : Process) (r : Runner)
      → IsIn p
      → r.ctx_name ≡ true
      → IsClean (unlocked (with_ctx true) (a, p) r)
  unfolding unlocked
  unlocked-Ends (refused e) p r j name = out-Ends (error e) p r j
  unlocked-Ends (returned n) p r j name = benched-Ends (set_process p r) j name

  signalled-Ends :
      (a : Reply) (p : Process) (r : Runner)
      → IsIn p
      → r.ctx_name ≡ true
      → IsClean (signalled (with_ctx true) (a, p) r)
  unfolding signalled
  signalled-Ends (refused e) p r j name = out-Ends (error e) p r j
  signalled-Ends (returned n) p r j name =
      unlocked-Ends (reply_of p.replies) _ (set_process p r) (Joined-replies _ _ _ p _ j) name

  wait_ready-IsIn :
      (target : ℕ) (ready : List ℕ) (p : Process) → IsIn p → IsInMaybe (wait_ready target ready p)
  wait_ready-IsIn target [] p j = tt
  wait_ready-IsIn target (x ∷ xs) p j =
      by_count (ltb x target)
        (wait_ready-IsIn target xs (ask (ask p).1).1 (Joined-replies _ _ _ p _ j))
    where
      by_count :
          (b : Bool)
          → IsInMaybe (wait_ready target xs (ask (ask p).1).1)
          → IsInMaybe (if b then wait_ready target xs (ask (ask p).1).1 else some p)
      by_count true h = h
      by_count false h = j

  create_threads-IsIn : (n : ℕ) (p : Process) → IsIn p → IsInMaybe (create_threads n p)
  create_threads-IsIn zero p j = j
  create_threads-IsIn (suc n) p j =
      by_reply (ask p).0 (create_threads-IsIn n (ask p).1 (Joined-replies _ _ _ p _ j))
    where
      by_reply :
          (a : Reply)
          → IsInMaybe (create_threads n (ask p).1)
          → IsInMaybe (elim a [ refused e ↦ none | returned k ↦ create_threads n (ask p).1 ])
      by_reply (refused e) h = tt
      by_reply (returned k) h = h

  locked-Ends :
      (o : BenchOptions) (ready : List ℕ) (a : Reply) (p : Process) (r : Runner)
      → IsIn p
      → r.ctx_name ≡ true
      → IsClean (locked o ready (with_ctx true) (a, p) r)
  unfolding locked
  locked-Ends o ready (refused e) p r j name = out-Ends (error e) p r j
  locked-Ends o ready (returned n) p r j name = by_role parent
    where
      after_ready :
          (m : Option Process)
          → IsInMaybe m
          → IsClean (elim m [
            | none ↦ waiting (set_process p r)
            | some p' ↦ signalled (with_ctx true) (ask p') (set_process p' r)
          ])
      after_ready none h = waiting-Ends p r j name
      after_ready (some p') h =
          signalled-Ends (reply_of p'.replies) _ (set_process p' r) (Joined-replies _ _ _ p' _ h)
            name

      by_role :
          (b : Bool)
          → IsClean (
              if b
              then elim (wait_ready (o.nr_processes * o.nr_threads - 1) ready p) [
                | none ↦ waiting (set_process p r)
                | some p' ↦ signalled (with_ctx true) (ask p') (set_process p' r)
              ]
              else signalled (with_ctx true) (ask p) (set_process p r))
      by_role true = after_ready _ (wait_ready-IsIn (o.nr_processes * o.nr_threads - 1) ready p j)
      by_role false =
          signalled-Ends (reply_of p.replies) _ (set_process p r) (Joined-replies _ _ _ p _ j) name

  allocated-Ends :
      (o : BenchOptions) (ready : List ℕ) (a : Reply) (p : Process) (r : Runner)
      → IsIn p
      → r.ctx_name ≡ true
      → IsClean (allocated o ready (with_ctx true) (a, p) r)
  unfolding allocated
  allocated-Ends o ready (refused e) p r j name = name
  allocated-Ends o ready (returned k) p r j name =
      after_threads _ (create_threads-IsIn (o.nr_threads - 1) p j)
    where
      after_threads :
          (m : Option Process)
          → IsInMaybe m
          → IsClean (elim m [
            | none ↦ aborted (record r { process = p; threads = true })
            | some p' ↦
                locked o ready (with_ctx true) (ask p') (record r { process = p'; threads = true })
          ])
      after_threads none h = name
      after_threads (some p') h =
          locked-Ends o ready (reply_of p'.replies) _ (record r { process = p'; threads = true })
            (Joined-replies _ _ _ p' _ h) name

  after_init-Ends :
      (o : BenchOptions) (ready : List ℕ) (rc : Rc) (p : Process) (r : Runner)
      → Entered (fd ∷ F) ((base, context_size) ∷ M) S (rc, p)
      → r.ctx_name ≡ true
      → IsClean (after_init o ready (with_ctx false) (rc, p) r)
  unfolding after_init
  after_init-Ends o ready minus_one p r h name =
      before-Ends F M S fd base parent minus_one (set_process p r) h
  after_init-Ends o ready (error e) p r h name =
      before-Ends F M S fd base parent (error e) (set_process p r) h
  after_init-Ends o ready ok p r h name = by_count (ltb 1 o.nr_threads)
    where
      by_count :
          (b : Bool)
          → IsClean (
              if b
              then allocated o ready (with_ctx true) (ask p) (set_process p r)
              else locked o ready (with_ctx true) (ask p) (set_process p r))
      by_count true =
          allocated-Ends o ready (reply_of p.replies) _ (set_process p r)
            (Joined-replies _ _ _ p _ h) name
      by_count false =
          locked-Ends o ready (reply_of p.replies) _ (set_process p r) (Joined-replies _ _ _ p _ h)
            name

  pub attached-Ends :
      (cfgs : List RingConfig) (o : BenchOptions) (ready : List ℕ) (p : Process) (r : Runner)
      → Has (fd ∷ F) ((base, context_size) ∷ M) S p
      → r.ctx_name ≡ true
      → IsClean (after_init o ready (with_ctx false) (rbtrace_init cfgs p) r)
  attached-Ends cfgs o ready p r h name =
      let q = rbtrace_init cfgs p in
      after_init-Ends o ready q.0 q.1 r
        (rbtrace_init-Entered (fd ∷ F) ((base, context_size) ∷ M) S cfgs p h) name
