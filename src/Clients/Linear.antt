-- ===== src/Clients/Linear.antt =====
-- While the buffer has room, calls of `rbtrace` that overlap are calls one after the other.
use rbtrace.Base.{
  ℕ, zero, suc, ◌+◌, ◌≤◌, ◌<◌, ◌^◌, ◌≡◌, ◌∙◌, List, [], ◌∷◌, ◌++◌, append-nil, append_assoc, arith,
  refl, ap, ap₂, sym, ◌==◌, u32,
}
use rbtrace.Trace.{Args, RingConfig}
use rbtrace.Ring.State.{Shm}
use rbtrace.Ring.Spec.{count}
use rbtrace.Clients.{State, Event, happen, run}
use rbtrace.Clients.Bounded.{IsIdle}
use rbtrace.Clients.Cells.{
  Cell, taken, half, whole, mem_of_none, Done, traces, calls_in, call_in, IsWhole, traces-calls_in,
}
use rbtrace.Clients.Holding.{IsHeldBy, args_if, args_in}
use rbtrace.Clients.Filling.{InOrder}
use rbtrace.Clients.History.{
  asks, made_by, IsRoomy, rehist, is_idle-Sits, is_idle-pending, is_idle-Holds, is_idle-callers,
  event-InOrder,
}

-- The calls of the thread `j` in a list of finished calls.
abbrev pub of_thread : ℕ → List Done → List Args
of_thread j [] = []
of_thread j (d ∷ l) = args_if (d.who == j) d.args ++ of_thread j l

of_thread-append : (j : ℕ) (l k : List Done) → of_thread j (l ++ k) ≡ of_thread j l ++ of_thread j k
of_thread-append j [] k = refl
of_thread-append j (d ∷ l) k =
    ap (λ z. args_if (d.who == j) d.args ++ z) (of_thread-append j l k)
    ∙ sym (append_assoc (args_if (d.who == j) d.args) (of_thread j l) (of_thread j k))

of_thread-calls_in :
    (j : ℕ) (cells : ℕ → Cell) (n : ℕ)
    → ((k : ℕ) → k < n → IsWhole (cells k))
    → of_thread j (calls_in cells n) ≡ args_in j cells n
of_thread-calls_in j cells zero w = refl
of_thread-calls_in j cells (suc n) w =
    of_thread-append j (calls_in cells n) (call_in (cells n))
    ∙ ap₂ ◌++◌ (of_thread-calls_in j cells n (λ k l. w k (omega arith)))
        (let c = w n (omega arith) in rw c.3 (append-nil (args_if (c.0 == j) c.2)))

IsWhole-of_free : (c : Cell) → ((j : ℕ) → ¬ IsHeldBy j c) → IsWhole c
IsWhole-of_free (taken i a) h = absurd (h i refl)
IsWhole-of_free (half i t a) h = absurd (h i refl)
IsWhole-of_free (whole i t a) h = (i, t, a, refl)

run-InOrder :
    {cfg : RingConfig} {s0 : Shm} (es : List Event) (s : State) {hist : ℕ → List Args}
    → cfg.size < 2 ^ 30
    → s0.info.slot < 2 ^ 32
    → IsRoomy cfg es s
    → InOrder cfg s0 hist s
    → InOrder cfg s0 (λ j. hist j ++ made_by cfg j es s) (run cfg es s)
unfolding run
run-InOrder [] s {hist} small slot_in r x = rehist (λ j. append-nil (hist j)) x
run-InOrder {cfg} (e ∷ es) s {hist} small slot_in r x =
    rehist (λ j. sym (append_assoc (hist j) (asks j e s) (made_by cfg j es (happen cfg e s))))
      (run-InOrder es (happen cfg e s) small slot_in r.1 (event-InOrder e s small slot_in r.0 x))

-- Some order of whole calls gives the memory that the schedule leaves, and has each thread's calls
-- in the order in which the thread made them.
abbrev pub IsLinear : RingConfig → List Event → State → Type 0
IsLinear cfg es s =
    (l : List Done) × ((run cfg es s).shm ≡ traces cfg l s.shm)
    × ((j : ℕ) → made_by cfg j es s ≡ of_thread j l)

abbrev pub AllIdle : State → Type 0
AllIdle s = (i : ℕ) → IsIdle (s.clients i)

start-InOrder :
    {cfg : RingConfig} (s : State)
    → count s.shm ≤ cfg.size
    → s.shm.info.slot < 2 ^ 32
    → AllIdle s
    → InOrder cfg s.shm (λ j. []) s
start-InOrder s room slot_in idle = (
  0,
  (λ k. taken 0 (s.clients 0).args),
  record {
    shm =
        ap₂ (λ k m. record s.shm { info = record s.shm.info { slot = k }; mem = m })
          {x = s.shm.info.slot} {y = u32 (s.shm.info.slot + 0)} (omega arith)
          (sym (
            mem_of_none s.shm.mem (s.shm.info.cir_off + count s.shm)
              (λ k. taken 0 (s.clients 0).args)));
    room = omega (arith, room);
    held = λ i.
        is_idle-Holds _ _ _ 0 i (s.clients i).pc (s.clients i).callers (s.clients i).args (idle i);
    no_callers = λ i. is_idle-callers (s.clients i).pc (s.clients i).callers (idle i);
    sits = λ k i l. absurd (omega (arith, l));
    made = λ i.
        sym (is_idle-pending (s.clients i).pc (s.clients i).callers (s.clients i).args (idle i));
  },
)

finish-InOrder :
    {cfg : RingConfig} {s0 : Shm} {hist : ℕ → List Args} (s : State)
    → cfg.size < 2 ^ 30
    → s0.info.slot < 2 ^ 32
    → AllIdle s
    → InOrder cfg s0 hist s
    → (l : List Done) × (s.shm ≡ traces cfg l s0) × ((j : ℕ) → hist j ≡ of_thread j l)
finish-InOrder {cfg} {s0} s small slot_in idle (n, cells, x) =
    let w : (k : ℕ) → k < n → IsWhole (cells k) = λ k l.
      IsWhole-of_free (cells k) λ j h.
        is_idle-Sits k _ _ (s.clients j).pc (s.clients j).callers (idle j) (x.sits k j l h) in
    (
      calls_in cells n,
      x.shm ∙ sym (traces-calls_in cfg s0 cells n small slot_in x.room w),
      λ j.
          x.made j
          ∙ ap (λ l. args_in j cells n ++ l)
              (is_idle-pending (s.clients j).pc (s.clients j).callers (s.clients j).args (idle j))
          ∙ append-nil (args_in j cells n)
          ∙ sym (of_thread-calls_in j cells n w),
    )

-- Overlapping calls are linearizable while the buffer has room. From a state in which no thread is
-- inside `rbtrace`, to one in which none is, by any interleaving of calls and steps in which each
-- slot taken is below `rc_size` and the daemon does nothing: the shared memory is the one that the
-- same calls leave when they run one after the other, each at once, in some order in which each
-- thread's calls keep their order.
pub run-IsLinear :
    (cfg : RingConfig) (es : List Event) (s : State)
    → cfg.size < 2 ^ 30
    → s.shm.info.slot < 2 ^ 32
    → count s.shm ≤ cfg.size
    → AllIdle s
    → IsRoomy cfg es s
    → AllIdle (run cfg es s)
    → IsLinear cfg es s
run-IsLinear cfg es s small slot_in room idle r done =
    finish-InOrder (run cfg es s) small slot_in done
      (run-InOrder es s small slot_in r (start-InOrder s room slot_in idle))
