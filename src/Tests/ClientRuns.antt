-- ===== src/Tests/ClientRuns.antt =====
-- Threads that record traces at once in a ring of two records per buffer.
use rbtrace.Base.{
  ℕ, ◌+◌, ◌*◌, ◌≡◌, true, false, List, [], ◌∷◌, ◌++◌, arith, refl, inl, inr, update, length,
}
use rbtrace.Ring.{trace}
use rbtrace.Tests.RingRuns.{full_ring-IsValid}
use rbtrace.Backing.{buffer_bytes}
use rbtrace.Clients.{
  Client, State, Event, resting, enter, stamping, full, returned, move, call, look, measure, wipe,
  take_lost, take_flush, step_at, step, happen, run,
}
use rbtrace.Clients.Within.{AreShort, IsWithin, SameOutside, run-IsWithin}
use rbtrace.Clients.Bounded.{IsIdle, run-IsIdle}
use rbtrace.Clients.Exclusive.{IsExclusive, IsPatient, run-IsExclusive}
use rbtrace.Clients.History.{IsRoomy}
use rbtrace.Clients.Linear.{IsLinear, AllIdle, run-IsLinear}
use rbtrace.Clients.Alone.{Returns, alone-trace}
use rbtrace.Tests.Fixtures.{
  small_cfg, some_stamp, some_stamps, call_of, record_of, empty_ring, full_ring,
}

abbrev idle : Client
idle = record { pc = returned true; args = call_of 0; callers = [] }

abbrev start : State
start = record { shm = empty_ring; clients = λ i. idle; writer = resting }

abbrev m : ℕ → Event
m i = move i some_stamp

-- Two threads, step by step in turn.
abbrev both : List Event
both = call 0 (call_of 1) ∷ call 1 (call_of 2) ∷ m 1 ∷ m 0 ∷ m 0 ∷ m 1 ∷ m 1 ∷ m 0 ∷ m 1 ∷ m 0 ∷ []

both-AllIdle : AllIdle (run small_cfg both start)
unfolding run happen step step_at
both-AllIdle i = ground arith

both-IsRoomy : IsRoomy small_cfg both start
unfolding run happen step step_at
both-IsRoomy = ground arith

run-IsLinear_example : IsLinear small_cfg both start
unfolding run happen step step_at
run-IsLinear_example =
    run-IsLinear small_cfg both start (omega arith) (omega arith) (omega arith) (λ i. refl)
      both-IsRoomy both-AllIdle

-- A thread takes the last slot and stops. Two more records are taken; the next one finds the buffer
-- full, and swaps; then the daemon looks.
abbrev late : List Event
late =
    call 0 (call_of 1)
    ∷ m 0
    ∷ call 1 (call_of 2)
    ∷ m 1
    ∷ m 1
    ∷ m 1
    ∷ m 1
    ∷ call 1 (call_of 3)
    ∷ m 1
    ∷ m 1
    ∷ m 1
    ∷ m 1
    ∷ m 1
    ∷ m 1
    ∷ m 1
    ∷ m 1
    ∷ m 1
    ∷ m 1
    ∷ m 1
    ∷ m 0
    ∷ []

-- The stopped thread goes on in the buffer that is filled now: both threads hold the same record.
shared_record :
    (((run small_cfg late start).clients 0).pc ≡ stamping 2)
    × (((run small_cfg late start).clients 1).pc ≡ stamping 2)
unfolding run happen step step_at
shared_record = (refl, refl)

-- The daemon wakes up between the increment of `ri_flush` and the swap: it takes the empty buffer for
-- the full one, and clears the counter, so that the full one is not written.
abbrev early : List Event
early =
    call 0 (call_of 1)
    ∷ m 0
    ∷ m 0
    ∷ m 0
    ∷ m 0
    ∷ call 0 (call_of 2)
    ∷ m 0
    ∷ m 0
    ∷ m 0
    ∷ m 0
    ∷ call 0 (call_of 3)
    ∷ m 0
    ∷ m 0
    ∷ look false
    ∷ measure
    ∷ wipe
    ∷ take_lost
    ∷ take_flush
    ∷ m 0
    ∷ m 0
    ∷ m 0
    ∷ m 0
    ∷ m 0
    ∷ []

early_flush :
    ((run small_cfg early start).shm.info.flush ≡ 0)
    × ((run small_cfg early start).shm.info.cir_off ≡ 2)
    × ((run small_cfg early start).shm.mem 1 ≡ record_of 2)
unfolding run happen step step_at
early_flush = (refl, refl, refl)

-- While a thread has found the buffer full, a flush at the close writes a record past the buffer.
flush_past_buffer :
    buffer_bytes small_cfg true
      (run small_cfg
        (m 0 ∷ [])
        (record start { shm = full_ring; clients = λ i. record idle { pc = enter } })).shm
    ≡ 3 * 56
unfolding run happen step step_at
flush_past_buffer = refl

start-IsWithin : IsWithin small_cfg 0 2 start
start-IsWithin = record { bases = (inl refl, inr refl); aimed = λ i. tt; writer_aimed = tt }

abbrev daemon_events : List Event
daemon_events =
    look false ∷ measure ∷ wipe ∷ take_lost ∷ take_flush ∷ look true ∷ measure ∷ wipe ∷ []

late-AreShort : AreShort small_cfg 0 2 (late ++ daemon_events) start
unfolding run happen step step_at
late-AreShort = ground arith

run-IsWithin_example :
    IsWithin small_cfg 0 2 (run small_cfg (late ++ daemon_events) start)
    × SameOutside small_cfg 0 2 empty_ring (run small_cfg (late ++ daemon_events) start).shm
run-IsWithin_example =
    run-IsWithin small_cfg 0 2 (omega arith) (late ++ daemon_events) start start-IsWithin
      late-AreShort

start-IsExclusive : IsExclusive 0 2 0 start
start-IsExclusive = record {
  counted = omega arith;
  raised = λ i h. ground arith;
  alone = λ i j h. ground arith;
  midway = λ i h. ground arith;
  settled = λ h. inl (refl, refl);
}

late-IsPatient : IsPatient 0 2 small_cfg (late ++ daemon_events) start
unfolding run happen step step_at
late-IsPatient = ground arith

run-IsExclusive_example :
    IsExclusive 0 2
      (0 + length (late ++ daemon_events))
      (run small_cfg (late ++ daemon_events) start)
run-IsExclusive_example =
    run-IsExclusive 0 2 small_cfg (late ++ daemon_events) start start-IsExclusive late-IsPatient
      (omega arith)

-- A thread that has found the buffer full, while another one fills the next.
abbrev turning : State
turning = record start { clients = update start.clients 0 (record idle { pc = full }) }

abbrev alternating : List Event
alternating =
    m 0
    ∷ m 0
    ∷ call 1 (call_of 4)
    ∷ m 0
    ∷ m 0
    ∷ m 0
    ∷ m 1
    ∷ m 0
    ∷ m 0
    ∷ m 0
    ∷ m 0
    ∷ m 1
    ∷ m 0
    ∷ m 0
    ∷ m 0
    ∷ m 0
    ∷ []

run-IsIdle_example : IsIdle ((run small_cfg alternating turning).clients 0)
unfolding happen step step_at
run-IsIdle_example = run-IsIdle small_cfg 0 alternating turning (ground arith) (omega arith)

alone-trace_example :
    Returns small_cfg some_stamps
      (call_of 5)
      full_ring
      (trace small_cfg some_stamps (call_of 5) full_ring)
alone-trace_example =
    alone-trace small_cfg some_stamps (call_of 5) full_ring full_ring-IsValid (omega arith)
