-- ===== src/Bench/Started.antt =====
-- The benchmark starts once, with all threads, rbtbench.c.
use rbtrace.Base.{
  ℕ, ◌+◌, ◌≤◌, ◌<◌, ◌≡◌, ◌≢◌, ◌⊎◌, inl, inr, refl, ap, sym, subst, ◌∙◌, Bool, true, false, List, [],
  ◌∷◌, ◌==◌, ltb, if◌then◌else◌, update, update_self, update_ne, Bool-cases, ℕ_discrete, false≢true,
  arith,
}
use rbtrace.Bench.Start.{
  Waiter, to_lock, to_count, to_wait, asleep, awake, to_unlock, in_bench, Starter, locking, testing,
  signalling, unlocking, begun, Barrier, fresh_barrier, move, wait_turn, woken, start_turn, Go,
  parent_turn, thread_turn, turn, start_bench,
}
use rbtrace.Bench.Counted.{
  has_counted, counted, counted_le, counted_all, counted-ext, counted-update, has_counted-woken,
  counted-fresh, counted_full,
}

-- Where a thread can stand, by the owner of the mutex and by whether the broadcast is past.
abbrev Stands : ℕ → Bool → ℕ → Waiter → Type 0
Stands owner past i to_lock = past ≡ false
Stands owner past i to_count = (past ≡ false) × (owner ≡ i + 2)
Stands owner past i to_wait = (past ≡ false) × (owner ≡ i + 2)
Stands owner past i asleep = past ≡ false
Stands owner past i awake = past ≡ true
Stands owner past i to_unlock = (past ≡ true) × (owner ≡ i + 2)
Stands owner past i in_bench = past ≡ true

abbrev pub is_past : Starter → Bool
is_past unlocking = true
is_past begun = true
is_past p = false

abbrev Starts : ℕ → ℕ → Barrier → Starter → Type 0
Starts n owner b locking = Unit
Starts n owner b testing = owner ≡ 1
Starts n owner b signalling = (owner ≡ 1) × (n ≤ b.ready_threads)
Starts n owner b unlocking = owner ≡ 1
Starts n owner b begun = Unit

record IsOrderly (n : ℕ) (b : Barrier) : Type 0 where
  count : b.ready_threads ≡ counted n b.waiters
  threads : (i : ℕ) → i < n → Stands b.owner (is_past b.starter) i (b.waiters i)
  parent : Starts n b.owner b b.starter

-- The mutex changes hands between others.
Stands-other :
    (o o' : ℕ) (past : Bool) (i : ℕ) (w : Waiter)
    → (o ≡ i + 2 → o' ≡ i + 2)
    → Stands o past i w
    → Stands o' past i w
Stands-other o o' past i to_lock f h = h
Stands-other o o' past i to_count f h = (h.0, f h.1)
Stands-other o o' past i to_wait f h = (h.0, f h.1)
Stands-other o o' past i asleep f h = h
Stands-other o o' past i awake f h = h
Stands-other o o' past i to_unlock f h = (h.0, f h.1)
Stands-other o o' past i in_bench f h = h

-- A thread moves.
module _ (n i : ℕ) (b : Barrier) (p : i < n) (k : IsOrderly n b) where
  moved :
      (o r : ℕ) (w : Waiter)
      → Stands o (is_past b.starter) i w
      → ((j : ℕ) → j ≢ i → b.owner ≡ j + 2 → o ≡ j + 2)
      → r + has_counted (b.waiters i) ≡ b.ready_threads + has_counted w
      → Starts n o (record (move i w o b) { ready_threads = r }) b.starter
      → IsOrderly n (record (move i w o b) { ready_threads = r })
  moved o r w h f e s = record {
    count = omega (arith, e, k.count, counted-update n i b.waiters w p);
    threads = λ j q. elim (ℕ_discrete i j) [
      | yes d ↦
          subst (λ z. Stands o (is_past b.starter) z (update b.waiters i w z)) d
            (subst (Stands o (is_past b.starter) i) (sym (update_self b.waiters i w)) h)
      | no d ↦ subst (Stands o (is_past b.starter) j) (sym (update_ne b.waiters i j w d)) (
          Stands-other b.owner o (is_past b.starter) j (b.waiters j) (f j (λ g. d (sym g)))
            (k.threads j q))
    ];
    parent = s;
  }

  -- Where the mutex is free, or is this thread's, the parent does not have it.
  parent_out :
      (o r : ℕ) (w : Waiter) (s : Starter)
      → b.owner ≢ 1
      → Starts n b.owner b s
      → Starts n o (record (move i w o b) { ready_threads = r }) s
  parent_out o r w locking d h = tt
  parent_out o r w testing d h = absurd (d h)
  parent_out o r w signalling d h = absurd (d h.0)
  parent_out o r w unlocking d h = absurd (d h)
  parent_out o r w begun d h = tt

  takes :
      (w v : Waiter) (c : Bool)
      → (b.owner == 0) ≡ c
      → Stands (i + 2) (is_past b.starter) i v
      → has_counted (b.waiters i) ≡ has_counted v
      → IsOrderly n (if c then move i v (i + 2) b else b)
  takes w v true e h same =
      moved (i + 2) b.ready_threads v h (λ j d g. ground arith) (omega (arith, same))
        (parent_out (i + 2) b.ready_threads v b.starter (ground arith) k.parent)
  takes w v false e h same = k

  gives :
      (w v : Waiter)
      → b.owner ≡ i + 2
      → Stands 0 (is_past b.starter) i v
      → has_counted (b.waiters i) ≡ has_counted v
      → IsOrderly n (move i v 0 b)
  gives w v e h same =
      moved 0 b.ready_threads v h (λ j d g. absurd (d (omega arith))) (omega (arith, same))
        (parent_out 0 b.ready_threads v b.starter (omega arith) k.parent)

  thread_step :
      (w : Waiter)
      → b.waiters i ≡ w
      → Stands b.owner (is_past b.starter) i w
      → IsOrderly n (wait_turn w i b)
  thread_step to_lock e h = takes to_lock to_count (b.owner == 0) refl (h, refl) (ap has_counted e)
  thread_step to_count e h =
      moved b.owner (b.ready_threads + 1) to_wait h (λ j d g. g) (omega (arith, ap has_counted e))
        (parent_out b.owner (b.ready_threads + 1) to_wait b.starter (omega arith) k.parent)
  thread_step to_wait e h = gives to_wait asleep h.1 h.0 (ap has_counted e)
  thread_step asleep e h = k
  thread_step awake e h = takes awake to_unlock (b.owner == 0) refl (h, refl) (ap has_counted e)
  thread_step to_unlock e h = gives to_unlock in_bench h.1 h.0 (ap has_counted e)
  thread_step in_bench e h = k

-- At the broadcast every thread has counted, and none has the mutex.
Stands-woken :
    (o i : ℕ) (w : Waiter)
    → o ≡ 1
    → has_counted w ≡ 1
    → Stands o false i w
    → Stands o true i (woken w)
Stands-woken o i to_lock e c h = absurd (omega (arith, c))
Stands-woken o i to_count e c h = absurd (omega (arith, c))
Stands-woken o i to_wait e c h = absurd (omega (arith, h.1))
Stands-woken o i asleep e c h = refl
Stands-woken o i awake e c h = refl
Stands-woken o i to_unlock e c h = absurd (omega (arith, h.1))
Stands-woken o i in_bench e c h = refl

module _ (n : ℕ) (b : Barrier) (k : IsOrderly n b) where
  -- The parent moves, and the mutex with it.
  parent_moved :
      (o : ℕ) (s : Starter)
      → is_past s ≡ is_past b.starter
      → ((j : ℕ) → b.owner ≡ j + 2 → o ≡ j + 2)
      → Starts n o (record b { owner = o; starter = s }) s
      → IsOrderly n (record b { owner = o; starter = s })
  parent_moved o s e f h = record {
    count = k.count;
    threads = λ i p.
        subst (λ c. Stands o c i (b.waiters i)) (sym e)
          (Stands-other b.owner o (is_past b.starter) i (b.waiters i) (f i) (k.threads i p));
    parent = h;
  }

  parent_step :
      (s : Starter) → b.starter ≡ s → Starts n b.owner b s → IsOrderly n (start_turn s n b)
  parent_step locking e h = by_lock (b.owner == 0) refl
    where
      by_lock :
          (c : Bool)
          → (b.owner == 0) ≡ c
          → IsOrderly n (if c then record b { owner = 1; starter = testing } else b)
      by_lock true q = parent_moved 1 testing (sym (ap is_past e)) (λ j g. ground arith) refl
      by_lock false q = k
  parent_step testing e h = by_count (ltb b.ready_threads n) refl
    where
      by_count :
          (c : Bool)
          → ltb b.ready_threads n ≡ c
          → IsOrderly n (
              if c
              then record b { owner = 0; starter = locking }
              else record b { starter = signalling })
      by_count true q =
          parent_moved 0 locking (sym (ap is_past e)) (λ j g. absurd (omega (arith, h, g))) tt
      by_count false q =
          parent_moved b.owner signalling (sym (ap is_past e)) (λ j g. g) (h, ground arith)
  parent_step signalling e h = record {
    count =
        k.count
        ∙ sym (
            counted-ext n (λ i. woken (b.waiters i)) b.waiters
              (λ i p. has_counted-woken (b.waiters i)));
    threads = λ i p.
        Stands-woken b.owner i (b.waiters i) h.0
          (counted_all n b.waiters (omega (arith, h.1, k.count)) i p)
          (subst (λ c. Stands b.owner c i (b.waiters i)) (ap is_past e) (k.threads i p));
    parent = h.0;
  }
  parent_step unlocking e h =
      parent_moved 0 begun (sym (ap is_past e)) (λ j g. absurd (omega (arith, h, g))) tt
  parent_step begun e h = k

turn-IsOrderly : (n : ℕ) (g : Go) (b : Barrier) → IsOrderly n b → IsOrderly n (turn n g b)
unfolding turn
turn-IsOrderly n parent_turn b k = parent_step n b k b.starter refl k.parent
turn-IsOrderly n (thread_turn i) b k = by_number (ltb i n) refl
  where
    by_number :
        (c : Bool) → ltb i n ≡ c → IsOrderly n (if c then wait_turn (b.waiters i) i b else b)
    by_number true q =
        let p : i < n = ground arith in thread_step n i b p k (b.waiters i) refl (k.threads i p)
    by_number false q = k

start_bench-IsOrderly :
    (n : ℕ) (gs : List Go) (b : Barrier) → IsOrderly n b → IsOrderly n (start_bench n gs b)
unfolding start_bench
start_bench-IsOrderly n [] b k = k
start_bench-IsOrderly n (g ∷ gs) b k =
    start_bench-IsOrderly n gs (turn n g b) (turn-IsOrderly n g b k)

fresh-IsOrderly : (n : ℕ) → IsOrderly n fresh_barrier
fresh-IsOrderly n = record { count = sym (counted-fresh n); threads = λ i p. refl; parent = tt }

-- Behind the wait.
abbrev pub is_gone : Waiter → Bool
is_gone awake = true
is_gone to_unlock = true
is_gone in_bench = true
is_gone w = false

is_gone-Stands : (o : ℕ) (past : Bool) (i : ℕ) (w : Waiter) → Stands o past i w → is_gone w ≡ past
is_gone-Stands o past i to_lock h = sym h
is_gone-Stands o past i to_count h = sym h.0
is_gone-Stands o past i to_wait h = sym h.0
is_gone-Stands o past i asleep h = sym h
is_gone-Stands o past i awake h = sym h
is_gone-Stands o past i to_unlock h = sym h.0
is_gone-Stands o past i in_bench h = sym h

has_counted-gone : (w : Waiter) → is_gone w ≡ true → has_counted w ≡ 1
has_counted-gone to_lock h = absurd (false≢true h)
has_counted-gone to_count h = absurd (false≢true h)
has_counted-gone to_wait h = refl
has_counted-gone asleep h = refl
has_counted-gone awake h = refl
has_counted-gone to_unlock h = refl
has_counted-gone in_bench h = refl

-- However the parent and the `n` threads that wait for it take turns: a thread is behind its wait
-- just when the parent is behind its broadcast, so that no thread starts early and none is left
-- asleep; at most `n` threads have counted, and behind the broadcast all of them.
pub start_bench-together :
    (n : ℕ) (gs : List Go) (i : ℕ)
    → i < n
    → (is_gone ((start_bench n gs fresh_barrier).waiters i)
        ≡ is_past (start_bench n gs fresh_barrier).starter)
      × ((start_bench n gs fresh_barrier).ready_threads ≤ n)
      × ((is_past (start_bench n gs fresh_barrier).starter ≡ false)
          ⊎ ((start_bench n gs fresh_barrier).ready_threads ≡ n))
start_bench-together n gs i p =
    let b = start_bench n gs fresh_barrier in
    let k = start_bench-IsOrderly n gs fresh_barrier (fresh-IsOrderly n) in
    let gone : (j : ℕ) → j < n → is_gone (b.waiters j) ≡ is_past b.starter =
      λ j q. is_gone-Stands b.owner (is_past b.starter) j (b.waiters j) (k.threads j q) in
    (
      gone i p,
      omega (arith, k.count, counted_le n b.waiters),
      elim (Bool-cases (is_past b.starter)) [
        | inl h ↦ inr (
            k.count
            ∙ counted_full n b.waiters (λ j q. has_counted-gone (b.waiters j) (gone j q ∙ h)))
        | inr h ↦ inl h
      ],
    )
