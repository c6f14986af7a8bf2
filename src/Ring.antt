-- ===== src/Ring.antt =====
-- Recording a trace, rbtrace.c: `ringwrap_slot`, `ringwrap`, `rbtrace` and
-- `rbtrace_traffic_enabled`, each call run with no other thread in between. Then the loop that
-- waits in `ringwrap_slot` changes nothing, and the compare-and-swap finds the slot it read.
pub mod State
pub mod Spec
pub mod Branches
pub mod Refine
pub mod Keeps
pub mod Flags
pub mod Bounds
pub mod Depth
use rbtrace.Base.{
  ℕ, zero, suc, ◌+◌, ◌*◌, ◌^◌, ◌%◌, ◌<◌, bit_and, Bool, true, false, Option, none, some, ltb, ◌==◌,
  if◌then◌else◌, u32, minus_one, sign_extend, update, not, ◌||◌, leb,
}
use rbtrace.Trace.{
  Entry, Args, Stamp, RingConfig, stamped, filled, rbt_lost, rbt_traffic_last, ring_max,
}
use State.{Shm, RingInfo, signal_thread}

-- What the calls of the clock, the CPU and the thread id return: for the record itself, and for
-- the record of lost traces that may be logged before it.
pub record Stamps : Type 0 where
  pub own : Stamp
  pub lost : Stamp

abbrev pub lost_args : ℕ → Args
lost_args n = record { traceid = rbt_lost; a0 = n; a1 = 0; a2 = 0; a3 = 0 }

-- `__sync_add_and_fetch(&ri->ri_slot, 1)`
abbrev pub next_slot : Shm → ℕ
next_slot s = u32 (s.info.slot + 1)

abbrev pub set_slot : ℕ → Shm → Shm
set_slot n s = record s { info = record s.info { slot = n } }

-- The record `re_base + ri_cir_off + slot`, with the stamp stored in it.
unfoldable pub claim : Stamp → ℕ → Shm → Option ℕ × Shm
claim t slot s = (some at, record s { mem = update s.mem at (stamped t (s.mem at)) })
  where
    at : ℕ
    at = s.info.cir_off + slot

-- Swap `ri_cir_off` with `ri_alt_off`, restart the slots and clear `ri_lost`.
unfoldable pub swap_buffers : Shm → Shm
swap_buffers s = record s {
  info = record s.info {
    cir_off = s.info.alt_off;
    alt_off = s.info.cir_off;
    slot = minus_one;
    lost = 0;
  };
}

-- `__sync_add_and_fetch(&ri->ri_flush, 1)`
abbrev pub bump_flush : Shm → Shm
bump_flush s = record s { info = record s.info { flush = u32 (s.info.flush + 1) } }

-- `__sync_add_and_fetch(&ri->ri_lost, 1)`
abbrev pub bump_lost : Shm → Shm
bump_lost s = record s { info = record s.info { lost = u32 (s.info.lost + 1) } }

-- The part of `ringwrap_slot` that runs at `slot == rc_size`, up to the second increment.
-- `log` is the nested call `rbtrace(RBTRACE_RING_IO, RBT_LOST, lost, 0, 0, 0)`.
unfoldable pub turn_over : (ℕ → Shm → Shm) → Shm → Shm
unfolding signal_thread swap_buffers
turn_over log s =
    let s1 = bump_flush s in
    let lost = s.info.lost in
    let s2 = swap_buffers s1 in
    if s1.info.flush == 1
    then signal_thread (if lost == 0 then s2 else log (sign_extend lost) s2)
    else signal_thread (set_slot minus_one s1)

unfoldable pub ringwrap_slot : RingConfig → Stamp → (ℕ → Shm → Shm) → ℕ → Shm → Option ℕ × Shm
unfolding turn_over claim
ringwrap_slot cfg t log slot s =
    if slot == cfg.size
    then (let s1 = turn_over log s in
        let n = next_slot s1 in
        let s2 = set_slot n s1 in
        if ltb n cfg.size then claim t n s2 else (none, bump_lost (set_slot minus_one s2)))
    else (let n = next_slot s in
        let s1 = set_slot n s in if ltb n cfg.size then claim t n s1 else (none, bump_lost s1))

unfoldable pub ringwrap : RingConfig → Stamp → (ℕ → Shm → Shm) → Shm → Option ℕ × Shm
unfolding ringwrap_slot claim
ringwrap cfg t log s =
    let n = next_slot s in
    let s1 = set_slot n s in if ltb n cfg.size then claim t n s1 else ringwrap_slot cfg t log n s1

-- The stores of the arguments through `re`.
unfoldable pub store : Args → ℕ → Shm → Shm
store c at s = record s { mem = update s.mem at (filled c (s.mem at)) }

-- `true` is the result 0, `false` is -1.
abbrev pub finish : Args → Option ℕ × Shm → Bool × Shm
finish c (none, s) = (false, s)
finish c (some at, s) = (true, store c at s)

-- `rbtrace` past its guards. The first argument bounds the depth of the calls that log lost
-- traces.
unfoldable pub trace_at : ℕ → RingConfig → Stamps → Args → Shm → Bool × Shm
unfolding ringwrap store
trace_at zero cfg ts c s = (false, s)
trace_at (suc d) cfg ts c s = finish c (
    ringwrap cfg ts.own
      (λ lost s'. (trace_at d cfg (record { own = ts.lost; lost = ts.lost }) (lost_args lost) s').1)
      s)

unfoldable pub trace : RingConfig → Stamps → Args → Shm → Bool × Shm
unfolding trace_at
trace = trace_at 2

-- `rbtrace`: the shared memory is `none` while `ri_ptr` is null.
unfoldable pub rbtrace_call : RingConfig → Stamps → ℕ → Args → Option Shm → Bool × Option Shm
unfolding trace
rbtrace_call cfg ts ring c none = (false, none)
rbtrace_call cfg ts ring c (some s) =
    if leb ring_max ring
    then (false, some s)
    else (let (done, s') = trace cfg ts c s in (done, some s'))

-- `rbtrace_traffic_enabled`, as the test of its result. The shift is by less than
-- RBT_TRAFFIC_LAST, so it stays within an `int`.
unfoldable pub traffic_enabled : ℕ → ℕ → Option Shm → Bool
traffic_enabled ring id none = false
traffic_enabled ring id (some s) =
    if leb ring_max ring || leb rbt_traffic_last id
    then false
    else not (bit_and s.info.tflags (2 ^ id) == 0)
