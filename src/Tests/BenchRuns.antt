-- ===== src/Tests/BenchRuns.antt =====
-- Two threads of the benchmark, runs of its `main`, and the start of its threads.
use rbtrace.Base.{ℕ, ◌≤◌, ◌≡◌, ◌⊎◌, refl, List, [], ◌∷◌, Bool, true, false, arith}
use rbtrace.Trace.{io_cfg}
use rbtrace.Shared.{Reply, returned, refused, blank_globals}
use rbtrace.Shared.Calls.{ok, rbtrace_exit, rbtrace_init}
use rbtrace.Bench.Main.{
  BenchArg, processes_arg, threads_arg, Runner, BenchEnding, finished, aborted, waiting, bench_main,
}
use rbtrace.Bench.Start.{Go, parent_turn, thread_turn, fresh_barrier, start_bench}
use rbtrace.Bench.Started.{is_gone, is_past, start_bench-together}
use rbtrace.Bench.Ended.{IsCleaned, bench_main-IsCleaned}
use rbtrace.Bench.{Bench, counting, do_bench, work_at}
use rbtrace.Bench.Progress.{traces_of, start_of, done_of, Has}
use rbtrace.Bench.Traced.{do_bench-traced}

abbrev fresh : Bench
fresh = record { x = 0; traces = []; workers = λ i. counting }

abbrev turns : List ℕ
turns = 0 ∷ 1 ∷ 1 ∷ 0 ∷ 0 ∷ 0 ∷ 1 ∷ 1 ∷ []

turns-out : (v i : ℕ) → ¬ Has v ((do_bench 2 turns fresh).workers i)
unfolding do_bench work_at
turns-out v i h = ground arith

do_bench-traced_example : traces_of 1 (do_bench 2 turns fresh).traces ≡ start_of 1 ∷ done_of 1 ∷ []
unfolding do_bench work_at
do_bench-traced_example =
    do_bench-traced 2 turns fresh (omega arith) (omega arith)
      (record { x = refl; traces = refl; workers = λ i. refl }) (omega arith) turns-out 1
      (omega arith) (omega arith)

traces_run : (do_bench 2 turns fresh).traces ≡ start_of 2 ∷ start_of 1 ∷ done_of 1 ∷ done_of 2 ∷ []
unfolding do_bench work_at
traces_run = refl

-- What the system returns, up to `wait`.
abbrev runner : List Reply → Runner
runner rs = record {
  process = record {
    globals = blank_globals;
    held = record {
      fds = [];
      maps = [];
      sems = [];
      shm_name = true;
      sem_name = true;
      thread_sem = false;
    };
    replies = rs;
  };
  ctx_name = false;
  threads = false;
}

abbrev two_of_two : List BenchArg
two_of_two = processes_arg 2 ∷ threads_arg 2 ∷ []

-- The context, a fork, the shared memory of rbtrace, and a thread.
abbrev parent_replies : List Reply
parent_replies =
    returned 3
    ∷ returned 0
    ∷ returned 4096
    ∷ returned 77
    ∷ returned 4
    ∷ returned 8192
    ∷ returned 9
    ∷ returned 1
    ∷ returned 0
    ∷ returned 0
    ∷ returned 0
    ∷ returned 0
    ∷ returned 0
    ∷ returned 0
    ∷ returned 77
    ∷ refused 10
    ∷ returned 0
    ∷ []

-- The fork returns 0, and the child opens and maps the context again.
abbrev child_replies : List Reply
child_replies =
    returned 3
    ∷ returned 0
    ∷ returned 4096
    ∷ returned 0
    ∷ returned 5
    ∷ returned 12288
    ∷ returned 4
    ∷ returned 8192
    ∷ returned 9
    ∷ returned 1
    ∷ []

bench_main-IsCleaned_example :
    IsCleaned
      (runner parent_replies)
      (bench_main (io_cfg ∷ []) two_of_two (1 ∷ 3 ∷ []) (runner parent_replies))
bench_main-IsCleaned_example =
    bench_main-IsCleaned (io_cfg ∷ []) two_of_two (1 ∷ 3 ∷ []) (runner parent_replies)

abbrev held_fds : BenchEnding → List ℕ
held_fds (finished b rc r) = r.process.held.fds
held_fds (aborted r) = r.process.held.fds
held_fds (waiting r) = r.process.held.fds

abbrev is_child : BenchEnding → Bool
is_child (finished true rc r) = false
is_child (finished false rc r) = true
is_child (aborted r) = false
is_child (waiting r) = false

parent_run :
    held_fds (bench_main (io_cfg ∷ []) two_of_two (1 ∷ 3 ∷ []) (runner parent_replies)) ≡ []
unfolding bench_main rbtrace_init rbtrace_exit
parent_run = refl

child_run : is_child (bench_main (io_cfg ∷ []) two_of_two [] (runner child_replies)) ≡ true
unfolding bench_main rbtrace_init rbtrace_exit
child_run = refl

-- The descriptor of the parent stays open in the child.
child_leak : held_fds (bench_main (io_cfg ∷ []) two_of_two [] (runner child_replies)) ≡ 3 ∷ []
unfolding bench_main rbtrace_init rbtrace_exit
child_leak = refl

-- Where the context cannot be mapped, the run ends with the result 0.
abbrev ends_well : BenchEnding → Bool
ends_well (finished b ok r) = true
ends_well e = false

unmapped_run :
    ends_well (bench_main (io_cfg ∷ []) [] [] (runner (returned 3 ∷ returned 0 ∷ refused 12 ∷ [])))
    ≡ true
unfolding bench_main rbtrace_init rbtrace_exit
unmapped_run = refl

-- Two threads wait. The parent takes the mutex first, finds that nobody is ready, and tries again.
abbrev start_turns : List Go
start_turns =
    parent_turn
    ∷ thread_turn 1
    ∷ parent_turn
    ∷ thread_turn 1
    ∷ thread_turn 1
    ∷ thread_turn 1
    ∷ thread_turn 0
    ∷ thread_turn 0
    ∷ parent_turn
    ∷ thread_turn 0
    ∷ parent_turn
    ∷ parent_turn
    ∷ parent_turn
    ∷ thread_turn 1
    ∷ parent_turn
    ∷ thread_turn 1
    ∷ []

start_bench-together_example :
    (is_gone ((start_bench 2 start_turns fresh_barrier).waiters 1)
      ≡ is_past (start_bench 2 start_turns fresh_barrier).starter)
    × ((start_bench 2 start_turns fresh_barrier).ready_threads ≤ 2)
    × ((is_past (start_bench 2 start_turns fresh_barrier).starter ≡ false)
        ⊎ ((start_bench 2 start_turns fresh_barrier).ready_threads ≡ 2))
start_bench-together_example = start_bench-together 2 start_turns 1 (omega arith)

start_run : is_past (start_bench 2 start_turns fresh_barrier).starter ≡ true
unfolding start_bench
start_run = refl
