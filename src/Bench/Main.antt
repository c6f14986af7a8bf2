-- ===== src/Bench/Main.antt =====
-- `main` of rbtbench.c, in the parent or in a child. As in Shared.Calls, each stage is what the
-- code does behind one call of the system. The calls that set up the mutex and the condition, and
-- `pthread_join`, take nothing and their results are ignored.
use rbtrace.Base.{
  ℕ, ◌-◌, ◌*◌, zero, suc, Bool, true, false, ◌||◌, List, [], ◌∷◌, Option, none, some, ◌==◌, ltb,
  is_neg32, if◌then◌else◌,
}
use rbtrace.Trace.{RingConfig}
use rbtrace.Shared.{Process, Ptr, null, invalid, address, Reply, returned, refused, ask}
use rbtrace.Shared.Calls.{
  Rc, ok, minus_one, error, close, cleanup_map, hold_fd, hold_map, rbtrace_exit, rbtrace_init,
}

-- What `getopt` finds; the `int` of `atoi` is given by its pattern.
pub data BenchArg : Type 0 where
  processes_arg threads_arg traces_arg : ℕ → BenchArg
  help_arg : BenchArg

pub record BenchOptions : Type 0 where
  pub nr_processes : ℕ
  pub nr_threads : ℕ
  pub nr_traces : ℕ

-- `opts` at the start.
abbrev pub bench_defaults : BenchOptions
bench_defaults = record { nr_processes = 1; nr_threads = 1; nr_traces = 128 * 1024 }

-- A number that is not positive is refused.
abbrev pub is_count : ℕ → BenchOptions → Option BenchOptions
is_count n o = if is_neg32 n || n == 0 then none else some o

abbrev pub take_bench_arg : BenchArg → BenchOptions → Option BenchOptions
take_bench_arg (processes_arg n) o = is_count n (record o { nr_processes = n })
take_bench_arg (threads_arg n) o = is_count n (record o { nr_threads = n })
take_bench_arg (traces_arg n) o = is_count n (record o { nr_traces = n })
take_bench_arg help_arg o = none

-- The loop over the options; `none` where it goes to `out`.
abbrev pub bench_options : List BenchArg → BenchOptions → Option BenchOptions
bench_options [] o = some o
bench_options (a ∷ as') o = elim (take_bench_arg a o) [
  | none ↦ none
  | some o' ↦ bench_options as' o'
]

-- A process of the benchmark: whether the name of its shared context is there, and whether the
-- array of its threads is allocated.
pub record Runner : Type 0 where
  pub process : Process
  pub ctx_name : Bool
  pub threads : Bool

abbrev pub set_process : Process → Runner → Runner
set_process p r = record r { process = p }

-- The variables that the label `out` reads.
pub record Locals : Type 0 where
  pub shmfd : Option ℕ
  pub ctx : Ptr
  pub is_parent : Bool
  pub rbtrace_inited : Bool

abbrev pub first_locals : Locals
first_locals = record { shmfd = none; ctx = null; is_parent = true; rbtrace_inited = false }

-- The end of `main` in the parent or in a child; an `assert` that fails; or it waits.
pub data BenchEnding : Type 0 where
  finished : (is_parent : Bool) → Rc → Runner → BenchEnding
  aborted : Runner → BenchEnding
  waiting : Runner → BenchEnding

-- `sizeof(struct bench_context)`: a mutex of 40 bytes, a condition of 48, and two `int`.
abbrev pub context_size : ℕ
context_size = 96

-- The label `out`: the failure of `shm_unlink` is ignored.
abbrev pub unlink_ctx : Reply × Process → Runner → Runner
unlink_ctx (refused e, p) r = set_process p r
unlink_ctx (returned n, p) r = record r { process = p; ctx_name = false }

abbrev pub drop_ctx : Option ℕ → Ptr → Bool → Runner → Runner
drop_ctx none ctx is_parent r = r
drop_ctx (some fd) ctx is_parent r =
    let p = close fd (cleanup_map ctx context_size r.process) in
    if is_parent then unlink_ctx (ask p) r else set_process p r

abbrev pub leave_rbtrace : Bool → Runner → Runner
leave_rbtrace false r = r
leave_rbtrace true r = set_process (rbtrace_exit r.process) r

unfoldable pub bench_out : Rc → Locals → Runner → BenchEnding
bench_out rc l r = finished l.is_parent rc (
    leave_rbtrace l.rbtrace_inited
      (record (drop_ctx l.shmfd l.ctx l.is_parent r) { threads = false }))

-- The parent waits until `wait` fails.
abbrev pub wait_children : List Reply → Option (List Reply)
wait_children [] = none
wait_children (returned pid ∷ rs) = wait_children rs
wait_children (refused e ∷ rs) = some rs

-- Behind `do_bench` and the joins.
unfoldable pub benched : Locals → Runner → BenchEnding
unfolding bench_out
benched l r =
    if l.is_parent
    then elim (wait_children r.process.replies) [
      | none ↦ waiting r
      | some rs ↦ bench_out ok l (set_process (record r.process { replies = rs }) r)
    ]
    else bench_out ok l r

-- Behind `pthread_mutex_unlock`, and before it `pthread_cond_broadcast` of the parent or
-- `pthread_cond_wait` of a child.
unfoldable pub unlocked : Locals → Reply × Process → Runner → BenchEnding
unfolding benched
unlocked l (refused e, p) r = bench_out (error e) l (set_process p r)
unlocked l (returned n, p) r = benched l (set_process p r)

unfoldable pub signalled : Locals → Reply × Process → Runner → BenchEnding
unfolding unlocked
signalled l (refused e, p) r = bench_out (error e) l (set_process p r)
signalled l (returned n, p) r = unlocked l (ask p) (set_process p r)

-- The loop of the parent, along what it reads in `ctx->ready_threads`; in each turn it unlocks and
-- locks, whatever these return.
abbrev pub wait_ready : ℕ → List ℕ → Process → Option Process
wait_ready target [] p = none
wait_ready target (x ∷ xs) p =
    if ltb x target then wait_ready target xs (ask (ask p).1).1 else some p

-- Behind the first `pthread_mutex_lock`. The product fits an `int`.
unfoldable pub locked : BenchOptions → List ℕ → Locals → Reply × Process → Runner → BenchEnding
unfolding signalled
locked o ready l (refused e, p) r = bench_out (error e) l (set_process p r)
locked o ready l (returned n, p) r =
    if l.is_parent
    then elim (wait_ready (o.nr_processes * o.nr_threads - 1) ready p) [
      | none ↦ waiting (set_process p r)
      | some p' ↦ signalled l (ask p') (set_process p' r)
    ]
    else signalled l (ask p) (set_process p r)

-- The calls of `pthread_create`; `none` where the `assert` fails.
abbrev pub create_threads : ℕ → Process → Option Process
create_threads zero p = some p
create_threads (suc n) p =
    let rest = create_threads n (ask p).1 in elim (ask p).0 [ refused e ↦ none | returned k ↦ rest ]

-- Behind `malloc`, when there is more than one thread.
unfoldable pub allocated : BenchOptions → List ℕ → Locals → Reply × Process → Runner → BenchEnding
unfolding locked
allocated o ready l (refused e, p) r = aborted (set_process p r)
allocated o ready l (returned k, p) r = elim (create_threads (o.nr_threads - 1) p) [
  | none ↦ aborted (record r { process = p; threads = true })
  | some p' ↦ locked o ready l (ask p') (record r { process = p'; threads = true })
]

-- Behind `rbtrace_init`.
unfoldable pub after_init : BenchOptions → List ℕ → Locals → Rc × Process → Runner → BenchEnding
unfolding allocated
after_init o ready l (minus_one, p) r = bench_out minus_one l (set_process p r)
after_init o ready l (error e, p) r = bench_out (error e) l (set_process p r)
after_init o ready l (ok, p) r =
    let l' = record l { rbtrace_inited = true } in
    if ltb 1 o.nr_threads
    then allocated o ready l' (ask p) (set_process p r)
    else locked o ready l' (ask p) (set_process p r)

-- A child's own `mmap`; `ctx` is MAP_FAILED where it fails.
unfoldable pub child_mapped :
    List RingConfig → BenchOptions → List ℕ → ℕ → Locals → Reply × Process → Runner → BenchEnding
unfolding after_init
child_mapped cfgs o ready fd l (refused e, p) r =
    bench_out ok (record l { shmfd = some fd; ctx = invalid }) (set_process p r)
child_mapped cfgs o ready fd l (returned base, p) r =
    let p1 = hold_map base context_size p in
    after_init o ready (record l { shmfd = some fd; ctx = address base }) (rbtrace_init cfgs p1)
      (set_process p1 r)

-- A child's own `shm_open`, which comes in place of the descriptor of its parent.
unfoldable pub child_opened :
    List RingConfig → BenchOptions → List ℕ → Locals → Reply × Process → Runner → BenchEnding
unfolding child_mapped
child_opened cfgs o ready l (refused e, p) r =
    bench_out ok (record l { shmfd = none }) (set_process p r)
child_opened cfgs o ready l (returned fd, p) r =
    child_mapped cfgs o ready fd l (ask (hold_fd fd p)) r

-- The calls of `fork`: whether this is the parent, or `none` where the `assert` fails.
abbrev pub fork_all : ℕ → Process → Option (Bool × Process)
fork_all zero p = some (true, p)
fork_all (suc n) p =
    let rest = fork_all n (ask p).1 in
    elim (ask p).0 [
      | refused e ↦ none
      | returned pid ↦ if pid == 0 then some (false, (ask p).1) else rest
    ]

unfoldable pub forked :
    List RingConfig
    → BenchOptions
    → List ℕ
    → Locals
    → Option (Bool × Process)
    → Runner
    → BenchEnding
unfolding child_opened
forked cfgs o ready l none r = aborted r
forked cfgs o ready l (some (true, p)) r =
    after_init o ready l (rbtrace_init cfgs p) (set_process p r)
forked cfgs o ready l (some (false, p)) r =
    child_opened cfgs o ready (record l { is_parent = false }) (ask p) (set_process p r)

-- Behind `mmap`, `ftruncate` and `shm_open`, which refuses a name that is there.
unfoldable pub ctx_mapped :
    List RingConfig → BenchOptions → List ℕ → ℕ → Reply × Process → Runner → BenchEnding
unfolding forked
ctx_mapped cfgs o ready fd (refused e, p) r =
    bench_out ok (record first_locals { shmfd = some fd; ctx = invalid }) (set_process p r)
ctx_mapped cfgs o ready fd (returned base, p) r =
    let p1 = hold_map base context_size p in
    forked cfgs o ready (record first_locals { shmfd = some fd; ctx = address base })
      (fork_all (o.nr_processes - 1) p1) (set_process p1 r)

unfoldable pub ctx_sized :
    List RingConfig → BenchOptions → List ℕ → ℕ → Reply × Process → Runner → BenchEnding
unfolding ctx_mapped
ctx_sized cfgs o ready fd (refused e, p) r =
    bench_out minus_one (record first_locals { shmfd = some fd }) (set_process p r)
ctx_sized cfgs o ready fd (returned n, p) r = ctx_mapped cfgs o ready fd (ask p) (set_process p r)

unfoldable pub ctx_opened :
    List RingConfig → BenchOptions → List ℕ → Reply × Process → Runner → BenchEnding
unfolding ctx_sized
ctx_opened cfgs o ready (refused e, p) r = bench_out ok first_locals (set_process p r)
ctx_opened cfgs o ready (returned fd, p) r =
    let p1 = hold_fd fd p in
    ctx_sized cfgs o ready fd (ask p1) (record r { process = p1; ctx_name = true })

-- `main`, with what the parent reads in `ctx->ready_threads`.
unfoldable pub bench_main : List RingConfig → List BenchArg → List ℕ → Runner → BenchEnding
unfolding ctx_opened
bench_main cfgs args ready r = elim (bench_options args bench_defaults) [
  | none ↦ bench_out ok first_locals r
  | some o ↦ ctx_opened cfgs o ready (ask r.process) r
]
