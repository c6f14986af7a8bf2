-- ===== src/Bench/Counted.antt =====
-- How many threads of the benchmark have counted in `ready_threads`, rbtbench.c.
use rbtrace.Base.{
  ℕ, zero, suc, ◌+◌, ◌≤◌, ◌<◌, ◌≡◌, refl, ap, ap₂, update, update_self, update_ne, ℕ_discrete,
  arith,
}
use rbtrace.Bench.Start.{
  Waiter, to_lock, to_count, to_wait, asleep, awake, to_unlock, in_bench, woken,
}

abbrev pub has_counted : Waiter → ℕ
has_counted to_lock = 0
has_counted to_count = 0
has_counted w = 1

-- How many of the first `n` threads have counted.
abbrev pub counted : ℕ → (ℕ → Waiter) → ℕ
counted zero w = 0
counted (suc n) w = has_counted (w n) + counted n w

has_counted_le : (w : Waiter) → has_counted w ≤ 1
has_counted_le to_lock = omega arith
has_counted_le to_count = omega arith
has_counted_le to_wait = omega arith
has_counted_le asleep = omega arith
has_counted_le awake = omega arith
has_counted_le to_unlock = omega arith
has_counted_le in_bench = omega arith

pub counted_le : (n : ℕ) (w : ℕ → Waiter) → counted n w ≤ n
counted_le zero w = omega arith
counted_le (suc n) w = omega (arith, has_counted_le (w n), counted_le n w)

pub counted_all :
    (n : ℕ) (w : ℕ → Waiter) → n ≤ counted n w → (i : ℕ) → i < n → has_counted (w i) ≡ 1
counted_all zero w h i p = absurd (omega arith)
counted_all (suc n) w h i p = elim (ℕ_discrete i n) [
  | yes e ↦ rw e (omega (arith, has_counted_le (w n), counted_le n w))
  | no d ↦ counted_all n w (omega (arith, has_counted_le (w n))) i (omega arith)
]

pub counted-ext :
    (n : ℕ) (v w : ℕ → Waiter)
    → ((i : ℕ) → i < n → has_counted (v i) ≡ has_counted (w i))
    → counted n v ≡ counted n w
counted-ext zero v w h = refl
counted-ext (suc n) v w h =
    ap₂ (λ a b. a + b) (h n (omega arith)) (counted-ext n v w (λ i p. h i (omega arith)))

pub counted-update :
    (n i : ℕ) (w : ℕ → Waiter) (v : Waiter)
    → i < n
    → counted n (update w i v) + has_counted (w i) ≡ counted n w + has_counted v
counted-update zero i w v p = absurd (omega arith)
counted-update (suc n) i w v p = elim (ℕ_discrete i n) [
  | yes e ↦
      let q = ap has_counted (update_self w n v) in
      let r =
        counted-ext n (update w n v) w (λ j g. ap has_counted (update_ne w n j v (omega arith))) in
      rw e (omega (arith, q, r))
  | no d ↦
      let q = ap has_counted (update_ne w i n v d) in
      omega (arith, q, counted-update n i w v (omega arith))
]

pub has_counted-woken : (w : Waiter) → has_counted (woken w) ≡ has_counted w
has_counted-woken to_lock = refl
has_counted-woken to_count = refl
has_counted-woken to_wait = refl
has_counted-woken asleep = refl
has_counted-woken awake = refl
has_counted-woken to_unlock = refl
has_counted-woken in_bench = refl

pub counted-fresh : (n : ℕ) → counted n (λ i. to_lock) ≡ 0
counted-fresh zero = refl
counted-fresh (suc n) = omega (arith, counted-fresh n)

pub counted_full :
    (n : ℕ) (w : ℕ → Waiter) → ((i : ℕ) → i < n → has_counted (w i) ≡ 1) → counted n w ≡ n
counted_full zero w h = refl
counted_full (suc n) w h =
    omega (arith, h n (omega arith), counted_full n w (λ i p. h i (omega arith)))
