-- ===== src/Bench/Traced.antt =====
-- Each number is traced twice, by one thread, however the threads take turns.
use rbtrace.Base.{ℕ, ◌+◌, ◌≤◌, ◌<◌, ◌^◌, ◌≡◌, refl, ap, sym, subst, List, [], ◌∷◌, arith, length}
use rbtrace.Bench.{Worker, counting, starting, ending, left, Bench, work_at, do_bench}
use rbtrace.Bench.Progress.{
  traces_of, start_of, done_of, Has, Progress, unreached, taken, once, twice, work_at-Progress,
}

module _ (v : ℕ) where
  work_at-x :
      (nr i : ℕ) (w : Worker) (b : Bench) → b.x + 1 < 2 ^ 31 → (work_at w nr i b).x ≤ b.x + 1
  unfolding work_at
  work_at-x nr i counting b room = omega arith
  work_at-x nr i (starting y) b room = omega arith
  work_at-x nr i (ending y) b room = omega arith
  work_at-x nr i left b room = omega arith

  do_bench-Progress :
      (nr : ℕ) (is : List ℕ) (b : Bench)
      → v ≤ nr
      → nr < 2 ^ 31
      → b.x + length is < 2 ^ 31
      → Progress v b
      → Progress v (do_bench nr is b)
  unfolding do_bench
  do_bench-Progress nr [] b low small room p = p
  do_bench-Progress nr (i ∷ is) b low small room p =
      do_bench-Progress nr is (work_at (b.workers i) nr i b) low small
        (omega (arith, room, work_at-x nr i (b.workers i) b (omega (arith, room))))
        (work_at-Progress v nr i (b.workers i) b low small (omega (arith, room)) refl p)

  Progress-end :
      (nr : ℕ) (b : Bench)
      → v ≤ nr
      → nr < b.x
      → ((i : ℕ) → ¬ Has v (b.workers i))
      → Progress v b
      → traces_of v b.traces ≡ start_of v ∷ done_of v ∷ []
  Progress-end nr b low past out (unreached h n t) = absurd (omega (arith, h, past, low))
  Progress-end nr b low past out (taken k h f n t) = absurd (out k (subst (Has v) (sym f) refl))
  Progress-end nr b low past out (once k h f n t) = absurd (out k (subst (Has v) (sym f) refl))
  Progress-end nr b low past out (twice h n t) = t

-- No thread has counted or traced.
pub record IsFresh (b : Bench) : Type 0 where
  pub x : b.x ≡ 0
  pub traces : b.traces ≡ []
  pub workers : (i : ℕ) → b.workers i ≡ counting

-- However threads that share the counter take turns in `do_bench`, in fewer than 2^31 steps: once the
-- counter is past the number of traces and no thread is between its two traces, each number from 1
-- to the number of traces was traced exactly twice, first its start and then its end.
pub do_bench-traced :
    (nr : ℕ) (is : List ℕ) (b : Bench)
    → nr < 2 ^ 31
    → length is < 2 ^ 31
    → IsFresh b
    → nr < (do_bench nr is b).x
    → ((v i : ℕ) → ¬ Has v ((do_bench nr is b).workers i))
    → (v : ℕ) → 1 ≤ v
    → v ≤ nr
    → traces_of v (do_bench nr is b).traces ≡ start_of v ∷ done_of v ∷ []
do_bench-traced nr is b small short f past out v some_number low =
    Progress-end v nr (do_bench nr is b) low past (out v) (
      do_bench-Progress v nr is b low small (omega (arith, f.x, short)) (
        unreached (omega (arith, f.x, some_number)) (λ i h. subst (Has v) (f.workers i) h)
          (ap (traces_of v) f.traces)))
