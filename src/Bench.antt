-- ===== src/Bench.antt =====
-- The benchmark's loop, rbtbench.c: `do_bench` in any number of threads and processes, which count
-- on one shared `ctx->x`. A schedule is the list of the threads whose turn it is.
pub mod Child
pub mod Cleaned
pub mod Counted
pub mod Ended
pub mod Joined
pub mod Main
pub mod Progress
pub mod Start
pub mod Started
pub mod Taken
pub mod Traced
use rbtrace.Base.{
  ℕ, ◌+◌, ◌%◌, List, [], ◌∷◌, ◌++◌, Bool, true, false, ◌||◌, leb, ◌==◌, if◌then◌else◌, u32,
  is_neg32, bit_or, update,
}
use rbtrace.Trace.{Args, rbt_traffic_test}

-- The operations and states of include/rbtrace.h, and the two compositions that are traced.
abbrev pub rbt_read : ℕ
rbt_read = 2

abbrev pub rbt_start : ℕ
rbt_start = 0

abbrev pub rbt_done : ℕ
rbt_done = 1

abbrev pub read_start : ℕ
read_start = bit_or rbt_read rbt_start

abbrev pub read_done : ℕ
read_done = bit_or rbt_read rbt_done

-- RBT_TRACE_TEST(dev, op, off, len): the arguments of its call of `rbtrace`.
abbrev pub trace_test : ℕ → ℕ → ℕ → ℕ → Args
trace_test dev op off len = record {
  traceid = rbt_traffic_test;
  a0 = off;
  a1 = len;
  a2 = dev;
  a3 = op;
}

-- A thread in `do_bench`: at the test of the loop, before the first and before the second trace of
-- its `x`, or behind the loop.
pub data Worker : Type 0 where
  counting : Worker
  starting : ℕ → Worker
  ending : ℕ → Worker
  left : Worker

-- `ctx->x`, an `int` given by its pattern, the traces so far, in order, and the threads.
pub record Bench : Type 0 where
  pub x : ℕ
  pub traces : List Args
  pub workers : ℕ → Worker

-- `x <= opts.nr_traces`, where the number of traces is positive.
abbrev pub is_due : ℕ → ℕ → Bool
is_due nr x = is_neg32 x || leb x nr

abbrev pub put : ℕ → Worker → Bench → Bench
put i w b = record b { workers = update b.workers i w }

abbrev pub log : Args → Bench → Bench
log a b = record b { traces = b.traces ++ (a ∷ []) }

-- `__sync_add_and_fetch(&ctx->x, 1)`
abbrev pub bump_x : Bench → Bench
bump_x b = record b { x = u32 (b.x + 1) }

-- A step of thread `i`, by where it stands: an increment or a trace.
unfoldable pub work_at : Worker → ℕ → ℕ → Bench → Bench
work_at counting nr i b =
    let y = u32 (b.x + 1) in put i (if is_due nr y then starting y else left) (bump_x b)
work_at (starting y) nr i b = put i (ending y) (log (trace_test 1 read_start y 512) b)
work_at (ending y) nr i b = put i counting (log (trace_test 1 read_done y 512) b)
work_at left nr i b = b

unfoldable pub do_bench : ℕ → List ℕ → Bench → Bench
unfolding work_at
do_bench nr [] b = b
do_bench nr (i ∷ is) b = do_bench nr is (work_at (b.workers i) nr i b)
