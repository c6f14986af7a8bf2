-- ===== src/Clients/History.antt =====
-- The calls that the threads make in a schedule, and the order that each event keeps.
use rbtrace.Base.{
  ℕ, ◌<◌, ◌^◌, ◌≡◌, ◌∙◌, true, false, false≢true, List, [], ◌∷◌, ◌++◌, append-nil, arith, refl, ap,
  sym, subst, inl, inr, ◌==◌, if◌then◌else◌, update, Bool-cases,
}
use rbtrace.Trace.{Args, RingConfig}
use rbtrace.Ring.State.{Shm}
use rbtrace.Ring.Spec.{count}
use rbtrace.Clients.{Pc, State, Event, returned, move, call, is_idle, begin_call, step, happen}
use rbtrace.Clients.Cells.{Cell}
use rbtrace.Clients.Holding.{args_if, args_in, pending, Sits, Holds, IsOrdered, advances-IsOrdered}
use rbtrace.Clients.Filling.{InOrder, HasRoom}
use rbtrace.Clients.Filled.{update_same, move-InOrder}

-- The arguments of the calls of the thread `j`: those that an event makes, and those of a schedule.
-- A thread that is inside `rbtrace` makes no other call.
abbrev pub asks : ℕ → Event → State → List Args
asks j (call i a) s =
    if is_idle (s.clients i).pc (s.clients i).callers then args_if (i == j) a else []
asks j e s = []

abbrev pub made_by : RingConfig → ℕ → List Event → State → List Args
made_by cfg j [] s = []
made_by cfg j (e ∷ es) s = asks j e s ++ made_by cfg j es (happen cfg e s)

-- A step or a call of a thread that finds room in the buffer when it takes a slot.
abbrev pub IsRoomyEvent : RingConfig → Event → State → Type 0
IsRoomyEvent cfg (move i t) s = HasRoom cfg (s.clients i).pc s.shm
IsRoomyEvent cfg (call i a) s = Unit
IsRoomyEvent cfg e s = ⊥

abbrev pub IsRoomy : RingConfig → List Event → State → Type 0
IsRoomy cfg [] s = Unit
IsRoomy cfg (e ∷ es) s = IsRoomyEvent cfg e s × IsRoomy cfg es (happen cfg e s)

pub rehist :
    {cfg : RingConfig} {s0 : Shm} {hist hist' : ℕ → List Args} {s : State}
    → ((j : ℕ) → hist' j ≡ hist j)
    → InOrder cfg s0 hist s
    → InOrder cfg s0 hist' s
rehist h (n, cells, x) = (
  n,
  cells,
  record {
    shm = x.shm;
    room = x.room;
    held = x.held;
    no_callers = x.no_callers;
    sits = x.sits;
    made = λ j. h j ∙ x.made j;
  },
)

pub is_idle-Sits :
    (k first base : ℕ) (p : Pc) (l : List Args) → is_idle p l ≡ true → ¬ Sits first base k p
is_idle-Sits k first base (returned d) l e h = h
is_idle-Sits k first base p l e h = absurd (false≢true e)

pub is_idle-pending : (p : Pc) (l : List Args) (a : Args) → is_idle p l ≡ true → pending p a ≡ []
is_idle-pending (returned d) l a e = refl
is_idle-pending p l a e = absurd (false≢true e)

pub is_idle-Holds :
    (first base : ℕ) (cells : ℕ → Cell) (n i : ℕ) (p : Pc) (l : List Args) (a : Args)
    → is_idle p l ≡ true
    → Holds first base cells n i p a
is_idle-Holds first base cells n i (returned d) l a e = tt
is_idle-Holds first base cells n i p l a e = absurd (false≢true e)

pub is_idle-callers : (p : Pc) (l : List Args) → is_idle p l ≡ true → l ≡ []
is_idle-callers (returned d) [] e = refl
is_idle-callers (returned d) (a ∷ l) e = absurd (false≢true e)
is_idle-callers p l e = absurd (false≢true e)

module _ {cfg : RingConfig} {s0 : Shm} {hist : ℕ → List Args} where
  call-InOrder :
      (i : ℕ) (a : Args) (s : State)
      → InOrder cfg s0 hist s
      → InOrder cfg s0
          (λ j. hist j ++ asks j (call i a) s)
          (record s { clients = update s.clients i (begin_call a (s.clients i)) })
  call-InOrder i a s (n, cells, x) =
      elim (Bool-cases (is_idle (s.clients i).pc (s.clients i).callers)) [
        | inl e ↦ (
          n,
          cells,
          rw e (
              advances-IsOrdered {at = n} x (record {
                grows = omega arith;
                new = λ k l d. l;
                same = λ k d. refl;
                here = λ k h.
                    absurd (is_idle-Sits k (count s0) _ (s.clients i).pc (s.clients i).callers e h);
                mine = λ j l. absurd (omega (arith, l));
                now = λ j l. absurd (omega (arith, l));
                shm = x.shm;
                room = x.room;
                held = tt;
                no_callers = refl;
                others = λ j d.
                    let f : (i == j) ≡ false = ground arith in
                    ap (λ b. hist j ++ args_if b a) f ∙ append-nil (hist j) ∙ x.made j;
                made =
                    let f : (i == i) ≡ true = ground arith in
                    ap (λ b. hist i ++ args_if b a) f
                    ∙ ap (λ l. l ++ (a ∷ []))
                        (x.made i
                          ∙ ap (λ l. args_in i cells n ++ l)
                              (is_idle-pending (s.clients i).pc (s.clients i).callers
                                (s.clients i).args e)
                          ∙ append-nil (args_in i cells n));
              })),
        )
        | inr e ↦ rw e (
            rehist (λ j. append-nil (hist j))
              (
                n,
                cells,
                subst (λ f. IsOrdered cfg s0 n cells hist (record s { clients = f }))
                    (sym (update_same s.clients i)) x,
              ))
      ]

  pub event-InOrder :
      (e : Event) (s : State)
      → cfg.size < 2 ^ 30
      → s0.info.slot < 2 ^ 32
      → IsRoomyEvent cfg e s
      → InOrder cfg s0 hist s
      → InOrder cfg s0 (λ j. hist j ++ asks j e s) (happen cfg e s)
  unfolding happen step
  event-InOrder (move i t) s small slot_in r (n, cells, x) =
      rehist (λ j. append-nil (hist j))
        (move-InOrder small slot_in t i x (s.clients i).pc refl r (x.held i))
  event-InOrder (call i a) s small slot_in r x = call-InOrder i a s x
  event-InOrder e s small slot_in r x = absurd r
