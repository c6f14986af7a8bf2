-- ===== src/Bench/Progress.antt =====
-- How far one number is in `do_bench`, step by step.
use rbtrace.Base.{
  ℕ, ◌+◌, ◌≤◌, ◌<◌, ◌^◌, ◌≡◌, ◌≢◌, ◌∙◌, ◌⊎◌, inl, inr, refl, ap, sym, subst, List, [], ◌∷◌, ◌++◌,
  true, false, ◌==◌, if◌then◌else◌, u32, update, update_self, update_ne, ℕ_discrete, dec_lt, arith,
  append-nil, Bool-cases,
}
use rbtrace.Trace.{Args}
use rbtrace.Bench.{
  Worker, counting, starting, ending, left, Bench, trace_test, read_start, read_done, is_due, put,
  log, bump_x, work_at,
}

-- The traces of the number `v`, in order.
abbrev pub traces_of : ℕ → List Args → List Args
traces_of v [] = []
traces_of v (a ∷ l) = if a.a0 == v then a ∷ traces_of v l else traces_of v l

traces_of-append : (v : ℕ) (l k : List Args) → traces_of v (l ++ k) ≡ traces_of v l ++ traces_of v k
traces_of-append v [] k = refl
traces_of-append v (a ∷ l) k = elim (Bool-cases (a.a0 == v)) [
  | inl e ↦ rw e (ap (λ t. a ∷ t) (traces_of-append v l k))
  | inr e ↦ rw e (traces_of-append v l k)
]

abbrev pub start_of : ℕ → Args
start_of v = trace_test 1 read_start v 512

abbrev pub done_of : ℕ → Args
done_of v = trace_test 1 read_done v 512

-- The thread is between the increment that gave `v` and its second trace.
abbrev pub Has : ℕ → Worker → Type 0
Has v counting = ⊥
Has v (starting y) = y ≡ v
Has v (ending y) = y ≡ v
Has v left = ⊥

module _ (v : ℕ) where
  -- How far `v` is: not reached, taken, traced once, or traced twice.
  pub data Progress (b : Bench) : Type 0 where
    unreached : b.x < v → ((i : ℕ) → ¬ Has v (b.workers i)) → traces_of v b.traces ≡ [] → Progress b
    taken :
        (i : ℕ)
        → v ≤ b.x
        → b.workers i ≡ starting v
        → ((j : ℕ) → Has v (b.workers j) → i ≡ j)
        → traces_of v b.traces ≡ []
        → Progress b
    once :
        (i : ℕ)
        → v ≤ b.x
        → b.workers i ≡ ending v
        → ((j : ℕ) → Has v (b.workers j) → i ≡ j)
        → traces_of v b.traces ≡ start_of v ∷ []
        → Progress b
    twice :
        v ≤ b.x
        → ((i : ℕ) → ¬ Has v (b.workers i))
        → traces_of v b.traces ≡ start_of v ∷ done_of v ∷ []
        → Progress b

  Has-then :
      (m : ℕ → Worker) (i j : ℕ) (w : Worker)
      → Has v (update m i w j)
      → ((i ≡ j) × Has v w) ⊎ ((i ≢ j) × Has v (m j))
  Has-then m i j w h = elim (ℕ_discrete i j) [
    | yes d ↦
        inl (d, subst (Has v) (update_self m i w) (subst (λ z. Has v (update m i w z)) (sym d) h))
    | no d ↦ inr (d, subst (Has v) (update_ne m i j w d) h)
  ]

  -- A step of a thread that does not have `v`, neither before nor after it.
  module _ (i : ℕ) (w : Worker) (b : Bench) (y : ℕ) (l : List Args) (not_then : ¬ Has v w)
      (not_now : ¬ Has v (b.workers i)) (more : b.x ≤ y)
      (same : traces_of v l ≡ traces_of v b.traces) where
    abbrev after : Bench
    after = record { x = y; traces = l; workers = update b.workers i w }

    Has-before : (j : ℕ) → Has v (after.workers j) → Has v (b.workers j)
    Has-before j h = elim (Has-then b.workers i j w h) [
      | inl k ↦ absurd (not_then k.1)
      | inr k ↦ k.1
    ]

    holder_same : (k : ℕ) (u : Worker) → b.workers k ≡ u → Has v u → after.workers k ≡ u
    holder_same k u e h =
        update_ne b.workers i k w
          (λ d. not_now (subst (λ z. Has v (b.workers z)) (sym d) (subst (Has v) (sym e) h)))
        ∙ e

    kept : (b.x < v → y < v) → Progress b → Progress after
    kept f (unreached h n t) = unreached (f h) (λ j k. n j (Has-before j k)) (same ∙ t)
    kept f (taken k h e n t) =
        taken k (omega (arith, h, more)) (holder_same k _ e refl) (λ j g. n j (Has-before j g))
          (same ∙ t)
    kept f (once k h e n t) =
        once k (omega (arith, h, more)) (holder_same k _ e refl) (λ j g. n j (Has-before j g))
          (same ∙ t)
    kept f (twice h n t) = twice (omega (arith, h, more)) (λ j k. n j (Has-before j k)) (same ∙ t)

  -- A trace of another number.
  other_trace : (l : List Args) (a : Args) → a.a0 ≢ v → traces_of v (l ++ (a ∷ [])) ≡ traces_of v l
  other_trace l a d =
      let e : (a.a0 == v) ≡ false = ground arith in
      traces_of-append v l (a ∷ []) ∙ rw e (append-nil (traces_of v l))

  own_trace :
      (l : List Args) (a : Args)
      → a.a0 ≡ v
      → traces_of v (l ++ (a ∷ [])) ≡ traces_of v l ++ (a ∷ [])
  own_trace l a d =
      let e : (a.a0 == v) ≡ true = ground arith in traces_of-append v l (a ∷ []) ∙ rw e refl

  -- The one thread that has `v` goes on.
  only_then :
      (i k : ℕ) (w : Worker) (b : Bench)
      → Has v (b.workers i)
      → ((j : ℕ) → Has v (b.workers j) → k ≡ j)
      → (j : ℕ) → Has v (update b.workers i w j)
      → i ≡ j
  only_then i k w b own n j h = elim (Has-then b.workers i j w h) [
    | inl p ↦ p.0
    | inr p ↦ sym (n i own) ∙ n j p.1
  ]

  differs : (i k : ℕ) (u w : Worker) (b : Bench) → b.workers k ≡ u → b.workers i ≡ w → k ≡ i → u ≡ w
  differs i k u w b f e d = sym f ∙ ap b.workers d ∙ e

  -- Thread `i` makes the first trace of `v`, and the second.
  started :
      (i : ℕ) (b : Bench)
      → b.workers i ≡ starting v
      → Progress b
      → Progress (put i (ending v) (log (start_of v) b))
  started i b e (unreached h n t) = absurd (n i (subst (Has v) (sym e) refl))
  started i b e (twice h n t) = absurd (n i (subst (Has v) (sym e) refl))
  started i b e (once k h f n t) =
      let q = differs i k _ _ b f e (n i (subst (Has v) (sym e) refl)) in absurd (cc)
  started i b e (taken k h f n t) =
      once i h (update_self b.workers i (ending v))
        (only_then i k (ending v) b (subst (Has v) (sym e) refl) n)
        (own_trace b.traces (start_of v) refl ∙ ap (λ l. l ++ (start_of v ∷ [])) t)

  finished :
      (i : ℕ) (b : Bench)
      → b.workers i ≡ ending v
      → Progress b
      → Progress (put i counting (log (done_of v) b))
  finished i b e (unreached h n t) = absurd (n i (subst (Has v) (sym e) refl))
  finished i b e (twice h n t) = absurd (n i (subst (Has v) (sym e) refl))
  finished i b e (taken k h f n t) =
      let q = differs i k _ _ b f e (n i (subst (Has v) (sym e) refl)) in absurd (cc)
  finished i b e (once k h f n t) =
      twice h
        (λ j g. elim (Has-then b.workers i j counting g) [
          | inl p ↦ p.1
          | inr p ↦ p.0 (sym (n i (subst (Has v) (sym e) refl)) ∙ n j p.1)
        ])
        (own_trace b.traces (done_of v) refl ∙ ap (λ l. l ++ (done_of v ∷ [])) t)

  -- Thread `i` takes `v` itself.
  reached :
      (i : ℕ) (b : Bench)
      → b.x + 1 < 2 ^ 31
      → u32 (b.x + 1) ≡ v
      → Progress b
      → Progress (put i (starting (u32 (b.x + 1))) (bump_x b))
  reached i b room d (unreached h n t) =
      taken i (omega (arith, d))
        (update_self b.workers i (starting (u32 (b.x + 1))) ∙ ap starting d)
        (λ j g. elim (Has-then b.workers i j (starting (u32 (b.x + 1))) g) [
          | inl k ↦ k.0
          | inr k ↦ absurd (n j k.1)
        ])
        t
  reached i b room d (taken k h f n t) = absurd (omega (arith, h, d, room))
  reached i b room d (once k h f n t) = absurd (omega (arith, h, d, room))
  reached i b room d (twice h n t) = absurd (omega (arith, h, d, room))

  -- Thread `i` takes the next number.
  counted :
      (nr i : ℕ) (b : Bench)
      → v ≤ nr
      → nr < 2 ^ 31
      → b.x + 1 < 2 ^ 31
      → b.workers i ≡ counting
      → Progress b
      → Progress (work_at counting nr i b)
  unfolding work_at
  counted nr i b low small room e p = elim (dec_lt nr (b.x + 1)) [
    | yes over ↦
        let f : is_due nr (u32 (b.x + 1)) ≡ false = ground arith in
        rw f (
          kept i left b (u32 (b.x + 1)) b.traces (λ h. h) (λ h. subst (Has v) e h) (omega arith)
            refl (λ h. absurd (omega (arith, h, over, low))) p)
    | no due ↦
        let f : is_due nr (u32 (b.x + 1)) ≡ true = ground arith in
        rw f (elim (ℕ_discrete (u32 (b.x + 1)) v) [
          | yes d ↦ reached i b room d p
          | no d ↦
              kept i (starting (u32 (b.x + 1))) b (u32 (b.x + 1)) b.traces d
                (λ h. subst (Has v) e h) (omega arith) refl (λ h. omega (arith, h, d)) p
        ])
  ]

  pub work_at-Progress :
      (nr i : ℕ) (w : Worker) (b : Bench)
      → v ≤ nr
      → nr < 2 ^ 31
      → b.x + 1 < 2 ^ 31
      → b.workers i ≡ w
      → Progress b
      → Progress (work_at w nr i b)
  unfolding work_at
  work_at-Progress nr i counting b low small room e p = counted nr i b low small room e p
  work_at-Progress nr i left b low small room e p = p
  work_at-Progress nr i (starting y) b low small room e p = elim (ℕ_discrete y v) [
    | yes d ↦ rw d (started i b (e ∙ ap starting d) p)
    | no d ↦
        kept i (ending y) b b.x _ d (λ h. d (subst (Has v) e h)) (omega arith)
          (other_trace b.traces _ d) (λ h. h) p
  ]
  work_at-Progress nr i (ending y) b low small room e p = elim (ℕ_discrete y v) [
    | yes d ↦ rw d (finished i b (e ∙ ap ending d) p)
    | no d ↦
        kept i counting b b.x _ (λ h. h) (λ h. d (subst (Has v) e h)) (omega arith)
          (other_trace b.traces _ d) (λ h. h) p
  ]
