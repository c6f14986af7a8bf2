-- ===== src/Clients/Bounded.antt =====
-- How long a call of `rbtrace` can take, whatever the other threads do.
use rbtrace.Base.{
  ℕ, ◌+◌, ◌*◌, ◌≤◌, ◌<◌, ◌≡◌, ◌⊎◌, inl, inr, Bool, true, false, not, ◌&&◌, List, [], ◌∷◌, arith,
  refl, false≢true, update_ne, update_self, ◌∙◌, ◌≢◌, sym, subst, ℕ_discrete, ◌==◌, if◌then◌else◌,
  length,
}
use rbtrace.Trace.{Args, Stamp, RingConfig}
use rbtrace.Ring.State.{Shm}
use rbtrace.Clients.{
  Pc, Client, State, Event, enter, placing, stamping, storing, full, swapping, swap_load, swap_cir,
  swap_alt, restarting, reporting, signalling, retrying, undoing, dropping, waiting, again,
  returned, move, call, look, measure, wipe, take_lost, take_flush, return_to, is_idle, begin_call,
  step_at, step, happen, run,
}

-- At most this many steps are left of a call at each place.
abbrev pub steps_left : Pc → ℕ
steps_left enter = 1030
steps_left (placing n) = 3
steps_left (stamping x) = 2
steps_left (storing x) = 1
steps_left full = 12
steps_left swapping = 11
steps_left (swap_load x) = 10
steps_left (swap_cir x y) = 9
steps_left (swap_alt x) = 8
steps_left (restarting won) = 7
steps_left reporting = 6
steps_left signalling = 5
steps_left retrying = 4
steps_left (undoing n) = 2
steps_left dropping = 1
steps_left (waiting n) = n + 5
steps_left again = 4
steps_left (returned done) = 0

-- The same for a thread: each caller that waits has to be returned to, and goes on at the signal.
abbrev pub rank : Client → ℕ
rank c = steps_left c.pc + 6 * length c.callers

abbrev is_reporting : Pc → Bool
is_reporting reporting = true
is_reporting p = false

-- The thread is about to find lost traces, and to log them.
abbrev pub reports : Client → Shm → Bool
reports c s = is_reporting c.pc && not (s.info.lost == 0)

return_to-rank :
    (d : Bool) (l : List Args) (c : Client)
    → c.callers ≡ l
    → c.pc ≡ returned d
    → (is_idle (returned d) l ≡ true) ⊎ (rank (return_to l c) + 1 ≤ 6 * length l)
return_to-rank d [] c e p = inl refl
return_to-rank d (a ∷ l) c e p = inr (omega arith)

-- A step brings a thread nearer to the end of its call, unless it starts to log lost traces.
abbrev Nearer : Pc → Client → Shm → Client → Type 0
Nearer p c s c' =
    (is_idle p c.callers ≡ true)
    ⊎ (rank c' + 1
        ≤ steps_left p
          + 6 * length c.callers
          + 1031 * (if is_reporting p && not (s.info.lost == 0) then 1 else 0))

step_at-Nearer :
    (cfg : RingConfig) (t : Stamp) (p : Pc) (c : Client) (s : Shm)
    → c.pc ≡ p
    → Nearer p c s (step_at p cfg t c s).0
unfolding step_at
step_at-Nearer cfg t enter c s e = inr (ground arith)
step_at-Nearer cfg t (placing n) c s e = inr (ground arith)
step_at-Nearer cfg t (stamping x) c s e = inr (ground arith)
step_at-Nearer cfg t (storing x) c s e = inr (ground arith)
step_at-Nearer cfg t full c s e = inr (ground arith)
step_at-Nearer cfg t swapping c s e = inr (ground arith)
step_at-Nearer cfg t (swap_load x) c s e = inr (ground arith)
step_at-Nearer cfg t (swap_cir x y) c s e = inr (ground arith)
step_at-Nearer cfg t (swap_alt x) c s e = inr (ground arith)
step_at-Nearer cfg t (restarting true) c s e = inr (ground arith)
step_at-Nearer cfg t (restarting false) c s e = inr (ground arith)
step_at-Nearer cfg t reporting c s e = inr (ground arith)
step_at-Nearer cfg t signalling c s e = inr (ground arith)
step_at-Nearer cfg t retrying c s e = inr (ground arith)
step_at-Nearer cfg t (undoing n) c s e = inr (ground arith)
step_at-Nearer cfg t dropping c s e = inr (ground arith)
step_at-Nearer cfg t (waiting n) c s e = inr (ground arith)
step_at-Nearer cfg t again c s e = inr (ground arith)
step_at-Nearer cfg t (returned d) c s e = elim (return_to-rank d c.callers c refl e) [
  | inl h ↦ inl h
  | inr h ↦ inr (omega (arith, h))
]

abbrev pub IsIdle : Client → Type 0
IsIdle c = is_idle c.pc c.callers ≡ true

-- No event of the schedule is a call by the thread `i`.
abbrev pub IsOtherEvent : ℕ → Event → Type 0
IsOtherEvent i (call j a) = j ≢ i
IsOtherEvent i e = Unit

abbrev pub NoCall : ℕ → List Event → Type 0
NoCall i [] = Unit
NoCall i (e ∷ es) = IsOtherEvent i e × NoCall i es

-- How many events of the schedule are steps of the thread `i`.
abbrev pub own_step : ℕ → Event → ℕ
own_step i (move j t) = if j == i then 1 else 0
own_step i e = 0

abbrev pub own_steps : ℕ → List Event → ℕ
own_steps i [] = 0
own_steps i (e ∷ es) = own_step i e + own_steps i es

-- How many of them find lost traces.
abbrev pub own_report : ℕ → Event → State → ℕ
own_report i (move j t) s = if (j == i) && reports (s.clients i) s.shm then 1 else 0
own_report i e s = 0

abbrev pub own_reports : RingConfig → ℕ → List Event → State → ℕ
own_reports cfg i [] s = 0
own_reports cfg i (e ∷ es) s = own_report i e s + own_reports cfg i es (happen cfg e s)

idle_return :
    (d : Bool) (l : List Args) (c : Client) → is_idle (returned d) l ≡ true → return_to l c ≡ c
idle_return d [] c h = refl
idle_return d (a ∷ l) c h = absurd (false≢true h)

-- A thread outside `rbtrace` stays there until it calls it.
idle_step :
    (cfg : RingConfig) (t : Stamp) (p : Pc) (c : Client) (s : Shm)
    → is_idle p c.callers ≡ true
    → (step_at p cfg t c s).0 ≡ c
unfolding step_at
idle_step cfg t (returned d) c s h = idle_return d c.callers c h
idle_step cfg t p c s h = absurd (false≢true h)

-- What an event does to the thread `i`: it stays idle, or it comes nearer to the end of its call.
abbrev Advances : RingConfig → ℕ → Event → State → Type 0
Advances cfg i e s =
    (IsIdle (s.clients i) → (happen cfg e s).clients i ≡ s.clients i)
    × (IsIdle (s.clients i)
        ⊎ (own_step i e + rank ((happen cfg e s).clients i)
            ≤ rank (s.clients i) + 1031 * own_report i e s))

own_move : (cfg : RingConfig) (i : ℕ) (t : Stamp) (s : State) → Advances cfg i (move i t) s
unfolding happen step
own_move cfg i t s =
    let e = update_self s.clients i (step cfg t (s.clients i) s.shm).0 in
    let same : (i == i) ≡ true = ground arith in
    (
      λ h. e ∙ idle_step cfg t (s.clients i).pc (s.clients i) s.shm h,
      elim (step_at-Nearer cfg t (s.clients i).pc (s.clients i) s.shm refl) [
        | inl h ↦ inl h
        | inr h ↦ inr (rw (e, same) (omega (arith, h)))
      ],
    )

module _ (cfg : RingConfig) (i : ℕ) where
  -- An event leaves the thread `i` as it is, or is a step of it.
  event_cases : (e : Event) (s : State) → IsOtherEvent i e → Advances cfg i e s
  unfolding happen step
  event_cases (move j t) s n = elim (ℕ_discrete j i) [
    | no d ↦
        let e = update_ne s.clients j i (step cfg t (s.clients j) s.shm).0 d in
        let other : (j == i) ≡ false = ground arith in (λ h. e, inr (rw (e, other) (omega arith)))
    | yes d ↦ rw (sym d) (own_move cfg j t s)
  ]
  event_cases (call j a) s n =
      let e = update_ne s.clients j i (begin_call a (s.clients j)) n in
      (λ h. e, inr (rw e (omega arith)))
  event_cases (look f) s n = (λ h. refl, inr (omega arith))
  event_cases measure s n = (λ h. refl, inr (omega arith))
  event_cases wipe s n = (λ h. refl, inr (omega arith))
  event_cases take_lost s n = (λ h. refl, inr (omega arith))
  event_cases take_flush s n = (λ h. refl, inr (omega arith))

  run_idle :
      (es : List Event) (s : State)
      → NoCall i es
      → IsIdle (s.clients i)
      → (run cfg es s).clients i ≡ s.clients i
  unfolding run
  run_idle [] s n h = refl
  run_idle (e ∷ es) s n h =
      let same = (event_cases e s n.0).0 h in
      run_idle es (happen cfg e s) n.1 (subst IsIdle (sym same) h) ∙ same

  run_advances :
      (es : List Event) (s : State)
      → NoCall i es
      → IsIdle ((run cfg es s).clients i)
        ⊎ (own_steps i es + rank ((run cfg es s).clients i)
            ≤ rank (s.clients i) + 1031 * own_reports cfg i es s)
  unfolding run
  run_advances [] s n = inr (omega arith)
  run_advances (e ∷ es) s n = elim ((event_cases e s n.0).1) [
    | inl h ↦ inl (subst IsIdle (sym (run_idle (e ∷ es) s n h)) h)
    | inr h ↦ elim (run_advances es (happen cfg e s) n.1) [
      | inl d ↦ inl d
      | inr k ↦ inr (omega (arith, h, k))
    ]
  ]

  -- A thread that takes more than `rank` steps of its own, and 1031 more for each time it finds lost
  -- traces to log, has left `rbtrace`, whatever the other threads and the daemon do in between.
  pub run-IsIdle :
      (es : List Event) (s : State)
      → NoCall i es
      → rank (s.clients i) + 1031 * own_reports cfg i es s < own_steps i es
      → IsIdle ((run cfg es s).clients i)
  run-IsIdle es s n h = elim (run_advances es s n) [
    | inl d ↦ d
    | inr k ↦ absurd (omega (arith, h, k))
  ]
