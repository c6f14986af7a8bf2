-- ===== src/Bench/Start.antt =====
-- The start of the benchmark, rbtbench.c: `benchmark_thread`, the same lines of a child's `main`, and
-- those of the parent, which waits for all of them and wakes them. A schedule is the list of the
-- turns. The calls on the mutex and the condition succeed, and no wait ends before the broadcast.
use rbtrace.Base.{ℕ, ◌+◌, List, [], ◌∷◌, ◌==◌, ltb, if◌then◌else◌, update}

-- Where one of the threads that wait stands, by its next line: `pthread_mutex_lock`, the increment of
-- `ready_threads`, `pthread_cond_wait`; in the wait; behind the broadcast, with the mutex still to
-- take; `pthread_mutex_unlock`; and in `do_bench`.
pub data Waiter : Type 0 where
  to_lock to_count to_wait asleep awake to_unlock in_bench : Waiter

-- The same for the thread of the parent: the lock, the test of the loop, the broadcast, the unlock.
pub data Starter : Type 0 where
  locking testing signalling unlocking begun : Starter

-- `owner` is 0 where the mutex is free, 1 for the parent, and `i + 2` for thread `i`.
pub record Barrier : Type 0 where
  pub owner : ℕ
  pub ready_threads : ℕ
  pub starter : Starter
  pub waiters : ℕ → Waiter

abbrev pub fresh_barrier : Barrier
fresh_barrier = record { owner = 0; ready_threads = 0; starter = locking; waiters = λ i. to_lock }

abbrev pub move : ℕ → Waiter → ℕ → Barrier → Barrier
move i w owner b = record b { owner = owner; waiters = update b.waiters i w }

abbrev pub wait_turn : Waiter → ℕ → Barrier → Barrier
wait_turn to_lock i b = if b.owner == 0 then move i to_count (i + 2) b else b
wait_turn to_count i b = record (move i to_wait b.owner b) { ready_threads = b.ready_threads + 1 }
wait_turn to_wait i b = move i asleep 0 b
wait_turn asleep i b = b
wait_turn awake i b = if b.owner == 0 then move i to_unlock (i + 2) b else b
wait_turn to_unlock i b = move i in_bench 0 b
wait_turn in_bench i b = b

-- `pthread_cond_broadcast`
abbrev pub woken : Waiter → Waiter
woken asleep = awake
woken w = w

abbrev pub start_turn : Starter → ℕ → Barrier → Barrier
start_turn locking n b = if b.owner == 0 then record b { owner = 1; starter = testing } else b
start_turn testing n b =
    if ltb b.ready_threads n
    then record b { owner = 0; starter = locking }
    else record b { starter = signalling }
start_turn signalling n b = record b { starter = unlocking; waiters = λ i. woken (b.waiters i) }
start_turn unlocking n b = record b { owner = 0; starter = begun }
start_turn begun n b = b

-- Whose turn it is; there are `n` threads that wait, `nr_processes * nr_threads - 1`.
pub data Go : Type 0 where
  parent_turn : Go
  thread_turn : ℕ → Go

unfoldable pub turn : ℕ → Go → Barrier → Barrier
turn n parent_turn b = start_turn b.starter n b
turn n (thread_turn i) b = if ltb i n then wait_turn (b.waiters i) i b else b

unfoldable pub start_bench : ℕ → List Go → Barrier → Barrier
unfolding turn
start_bench n [] b = b
start_bench n (g ∷ gs) b = start_bench n gs (turn n g b)
