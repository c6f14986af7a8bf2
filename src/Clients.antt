-- ===== src/Clients.antt =====
-- Recording traces from many threads at once, rbtrace.c: `rbtrace`, `ringwrap` and
-- `ringwrap_slot` cut into steps, each with one access of the shared memory, and the daemon's
-- accesses of `rbtrace_write_data` in rbtrace_backing.c that clients can meet. A schedule is a list
-- of events.
pub mod Within
pub mod Bounded
pub mod Midway
pub mod Exclusive
pub mod Alone
pub mod Cells
pub mod Holding
pub mod Filling
pub mod Filled
pub mod History
pub mod Linear
use rbtrace.Base.{
  ℕ, zero, suc, ◌+◌, ◌-◌, Bool, true, false, List, [], ◌∷◌, ltb, ◌==◌, ◌&&◌, if◌then◌else◌,
  minus_one, sign_extend, update,
}
use rbtrace.Trace.{Args, Stamp, RingConfig, stamped}
use rbtrace.Ring.{lost_args, next_slot, set_slot, bump_flush, bump_lost, store}
use rbtrace.Ring.State.{Shm, signal_thread}
use rbtrace.Backing.{clear_records, buffer_base, buffer_bytes}

-- Where a thread stands in `rbtrace`, with the values its locals hold there.
pub data Pc : Type 0 where
  -- before the first increment of `ri_slot`
  enter : Pc
  -- `slot < rc_size`, before `ri_cir_off` is read
  placing : ℕ → Pc
  -- `re` is set, before the stamp is stored, and before the arguments are
  stamping : ℕ → Pc
  storing : ℕ → Pc
  -- `slot == rc_size`, before the increment of `ri_flush`
  full : Pc
  -- the four accesses of the swap, with `temp` and the offset read from `ri_alt_off`
  swapping : Pc
  swap_load : ℕ → Pc
  swap_cir : ℕ → ℕ → Pc
  swap_alt : ℕ → Pc
  -- before `ri_slot` is set to -1: after a swap, or without one
  restarting : Bool → Pc
  reporting : Pc
  signalling : Pc
  retrying : Pc
  -- before the compare-and-swap with `slot`
  undoing : ℕ → Pc
  dropping : Pc
  -- the loop, with `cnt`
  waiting : ℕ → Pc
  again : Pc
  -- `true` is the result 0, `false` is -1
  returned : Bool → Pc

-- A thread, with the arguments of its call, and of the calls that wait while it logs lost traces.
pub record Client : Type 0 where
  pub pc : Pc
  pub args : Args
  pub callers : List Args

abbrev pub goto : Pc → Client → Client
goto p c = record c { pc = p }

-- `__sync_add_and_fetch(&ri->ri_slot, 1)`, and the test of its result.
abbrev pub take_slot : RingConfig → (ℕ → Pc) → Client → Shm → Client × Shm
take_slot cfg over c s = (
  goto (if ltb (next_slot s) cfg.size then placing (next_slot s) else over (next_slot s)) c,
  set_slot (next_slot s) s,
)

-- `ringwrap_slot` at its first test.
abbrev pub full_or_over : RingConfig → ℕ → Pc
full_or_over cfg n = if n == cfg.size then full else waiting 1024

-- The start of the nested `rbtrace(RBTRACE_RING_IO, RBT_LOST, lost, 0, 0, 0)`.
abbrev pub log_lost : ℕ → Client → Client
log_lost lost c = record {
  pc = enter;
  args = lost_args (sign_extend lost);
  callers = c.args ∷ c.callers;
}

abbrev pub set_cir : ℕ → Shm → Shm
set_cir off s = record s { info = record s.info { cir_off = off } }

abbrev pub set_alt : ℕ → Shm → Shm
set_alt off s = record s { info = record s.info { alt_off = off } }

abbrev pub clear_lost : Shm → Shm
clear_lost s = record s { info = record s.info { lost = 0 } }

abbrev pub clear_flush : Shm → Shm
clear_flush s = record s { info = record s.info { flush = 0 } }

-- A call that logged lost traces has returned: its caller goes on.
abbrev pub return_to : List Args → Client → Client
return_to [] c = c
return_to (a ∷ rest) c = record { pc = signalling; args = a; callers = rest }

-- One step of a thread at the given place, with what the clock, the CPU and the thread id are.
unfoldable pub step_at : Pc → RingConfig → Stamp → Client → Shm → Client × Shm
unfolding signal_thread store
step_at enter cfg t c s = take_slot cfg (full_or_over cfg) c s
step_at (placing n) cfg t c s = (goto (stamping (s.info.cir_off + n)) c, s)
step_at (stamping at) cfg t c s =
    (goto (storing at) c, record s { mem = update s.mem at (stamped t (s.mem at)) })
step_at (storing at) cfg t c s = (goto (returned true) c, store c.args at s)
step_at full cfg t c s =
    (goto (if (bump_flush s).info.flush == 1 then swapping else restarting false) c, bump_flush s)
step_at swapping cfg t c s = (goto (swap_load s.info.cir_off) c, s)
step_at (swap_load temp) cfg t c s = (goto (swap_cir temp s.info.alt_off) c, s)
step_at (swap_cir temp off) cfg t c s = (goto (swap_alt temp) c, set_cir off s)
step_at (swap_alt temp) cfg t c s = (goto (restarting true) c, set_alt temp s)
step_at (restarting won) cfg t c s =
    (goto (if won then reporting else signalling) c, set_slot minus_one s)
step_at reporting cfg t c s =
    (if s.info.lost == 0 then goto signalling c else log_lost s.info.lost c, clear_lost s)
step_at signalling cfg t c s = (goto retrying c, signal_thread s)
step_at retrying cfg t c s = take_slot cfg undoing c s
step_at (undoing n) cfg t c s =
    (goto dropping c, if s.info.slot == n then set_slot minus_one s else s)
step_at dropping cfg t c s = (goto (returned false) c, bump_lost s)
step_at (waiting cnt) cfg t c s =
    (goto (if ltb cfg.size s.info.slot && ltb 1 cnt then waiting (cnt - 1) else again) c, s)
step_at again cfg t c s = take_slot cfg (λ n. dropping) c s
step_at (returned done) cfg t c s = (return_to c.callers c, s)

unfoldable pub step : RingConfig → Stamp → Client → Shm → Client × Shm
unfolding step_at
step cfg t c s = step_at c.pc cfg t c s

-- The daemon in `rbtrace_write_data`: with `do_flush` and `buf` set, and once `buf_size` is set too.
pub data Writer : Type 0 where
  resting : Writer
  sizing : Bool → ℕ → Writer
  clearing : ℕ → ℕ → Writer

pub record State : Type 0 where
  pub shm : Shm
  pub clients : ℕ → Client
  pub writer : Writer

-- What can happen next: a step of a thread, a call, or one of the daemon's accesses: by
-- `do_flush` it reads `ri_cir_off` or `ri_alt_off`, and then `ri_slot` if it flushes; it clears
-- these bytes with `memset`, and clears `ri_lost` and `ri_flush`.
pub data Event : Type 0 where
  move : ℕ → Stamp → Event
  call : ℕ → Args → Event
  look : Bool → Event
  measure : Event
  wipe : Event
  take_lost : Event
  take_flush : Event

-- A thread that has left `rbtrace` calls it again. A thread inside it does not.
abbrev pub is_idle : Pc → List Args → Bool
is_idle (returned done) [] = true
is_idle p l = false

abbrev pub begin_call : Args → Client → Client
begin_call a c =
    if is_idle c.pc c.callers then (record { pc = enter; args = a; callers = [] }) else c

abbrev pub wipe_buffer : Writer → Shm → Shm
wipe_buffer resting s = s
wipe_buffer (sizing do_flush base) s = s
wipe_buffer (clearing base n) s = clear_records base n s

abbrev pub measured : RingConfig → Shm → Writer → Writer
measured cfg s resting = resting
measured cfg s (sizing do_flush base) = clearing base (buffer_bytes cfg do_flush s)
measured cfg s (clearing base n) = clearing base n

unfoldable pub happen : RingConfig → Event → State → State
unfolding step
happen cfg (move i t) s =
    let r = step cfg t (s.clients i) s.shm in
    record s { shm = r.1; clients = update s.clients i r.0 }
happen cfg (call i a) s = record s { clients = update s.clients i (begin_call a (s.clients i)) }
happen cfg (look do_flush) s = record s { writer = sizing do_flush (buffer_base do_flush s.shm) }
happen cfg measure s = record s { writer = measured cfg s.shm s.writer }
happen cfg wipe s = record s { shm = wipe_buffer s.writer s.shm; writer = resting }
happen cfg take_lost s = record s { shm = clear_lost s.shm }
happen cfg take_flush s = record s { shm = clear_flush s.shm }

unfoldable pub run : RingConfig → List Event → State → State
unfolding happen
run cfg [] s = s
run cfg (e ∷ es) s = run cfg es (happen cfg e s)
