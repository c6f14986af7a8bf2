-- ===== src/Backing.antt =====
-- The daemon's side of the ring, rbtrace_backing.c: `rbtrace_write_header`, `rbtrace_write_data`
-- and one round of the loop of `rbtrace_thread_fn`. A round runs with no client in between.
pub mod Path
pub mod State
pub mod Calls
pub mod Safe
pub mod Settled
pub mod Deliver
pub mod Described
pub mod Modes
pub mod Steady
pub mod Zapped
pub mod Round
pub mod Thread
use rbtrace.Base.{
  ℕ, ◌+◌, ◌-◌, ◌*◌, ◌/◌, ◌≤◌, ◌<◌, Bool, true, false, not, ◌&&◌, ◌||◌, Option, none, some, List, [],
  ltb, leb, ◌==◌, if◌then◌else◌, u32, u64, sign_extend, is_neg32,
}
use rbtrace.Trace.{RingConfig, Entry, entry_size, zero_entry, ring_max}
use rbtrace.Disk.{File, Answer, Written, safe_pwrite}
use rbtrace.Wire.{record_bytes}
use rbtrace.Header.{Header, Clock, format_header, header_byte, header_size}
use rbtrace.Ring.{Stamps, trace, lost_args}
use rbtrace.Ring.State.{Flags, Shm}
use rbtrace.Ring.Flags.{Flag, put, disk, opened, closed, flushed}
use Path.{zap_path}
use State.{Daemon, Outcome, running, segfault, os_open, os_pwrite, on_fd, set_flag, close_file}

-- The end of `rbtrace_write_header` that every failure reaches.
abbrev pub header_failed : Daemon → Daemon
header_failed d = record (close_file (set_flag opened false d)) { seek = 0 }

-- The end of `rbtrace_write_header` behind the write of the header.
abbrev pub header_result : Option ℕ × Daemon → Daemon
header_result (some e, d) = header_failed d
header_result (none, d) =
    set_flag opened false (set_flag disk true (record d { seek = header_size }))

-- The part of `rbtrace_write_header` behind the `open`.
abbrev pub header_opened : RingConfig → Clock → Daemon → Daemon
header_opened cfg t d = on_fd d.fd (header_failed d) λ path. header_result (
    os_pwrite path (header_byte (format_header cfg t)) header_size 0
      (record d { hdr = format_header cfg t }))

-- The path that `rbtrace_write_header` opens: that of the ring, or one of its own for a zap.
abbrev pub chosen_path : Clock → Daemon → List ℕ
chosen_path t d =
    if d.shm.info.flags.do_zap then zap_path d.shm.info.file_path t else d.shm.info.file_path

-- `rbtrace_write_header`, with what the clock says.
unfoldable pub write_header : RingConfig → Clock → Daemon → Daemon
write_header cfg t d =
    on_fd d.fd (header_opened cfg t (os_open (chosen_path t d) d)) (λ path. header_failed d)

-- The number of bytes of a flush: `(ri_slot + 1) * sizeof(struct rbtrace_entry)`, where the `int`
-- is extended to 64 bits.
abbrev pub flush_bytes : Shm → ℕ
flush_bytes s = u64 (sign_extend (u32 (s.info.slot + 1)) * entry_size)

-- `memset(buf, 0, n)` over the records from `base` on.
abbrev pub clear_records : ℕ → ℕ → Shm → Shm
clear_records base n s = record s {
  mem = λ j. if leb base j && ltb j (base + n / entry_size) then zero_entry else s.mem j;
}

abbrev pub set_wrap_pos : ℕ → Daemon → Daemon
set_wrap_pos p d = record d { hdr = record d.hdr { wrap_pos = p } }

-- The part of `rbtrace_write_data` at the limit of the file size, by the flags for close, wrap and
-- zap: leave it to the thread, start again behind the header, go on in a new file, or stop. With
-- the new state goes whether the header has to be written.
unfoldable pub limit_by : Bool → Bool → Bool → RingConfig → Clock → Bool → Daemon → Bool × Daemon
limit_by true w z cfg t update d = (update, d)
limit_by false true z cfg t update d = (true, set_wrap_pos header_size d)
limit_by false false true cfg t update d = (update, write_header cfg t (close_file d))
limit_by false false false cfg t update d = (update, set_flag disk false (close_file d))

abbrev pub at_limit : RingConfig → Clock → Bool → Daemon → Bool × Daemon
at_limit cfg t update d =
    limit_by d.shm.info.flags.do_close d.shm.info.flags.do_wrap d.shm.info.flags.do_zap cfg t update
      d

-- `safe_pwrite(rfd->fd, prf, sizeof(*prf), 0)`: a failure is only reported, and so is a descriptor
-- that is not open.
abbrev pub rewrite_header : Daemon → Daemon
rewrite_header d = on_fd d.fd d (λ path. (os_pwrite path (header_byte d.hdr) header_size 0 d).1)

-- `flush > 1`, of the `int` whose pattern is `ri_flush`.
abbrev pub many_flushes : Shm → Bool
many_flushes s = ltb 1 s.info.flush && not (is_neg32 s.info.flush)

-- The lost records that `rbtrace_write_data` reports: each flush that came while another was
-- outstanding threw a batch away.
abbrev pub lost_total : RingConfig → Shm → ℕ
lost_total cfg s =
    if many_flushes s then u32 (s.info.lost + (s.info.flush - 1) * cfg.size) else s.info.lost

abbrev pub reset_counters : Shm → Shm
reset_counters s = record s { info = record s.info { lost = 0; flush = 0 } }

-- The end of `rbtrace_write_data`: clear the counters and log what was lost.
unfoldable pub report_lost : RingConfig → Stamps → Daemon → Daemon
report_lost cfg ts d =
    let s = reset_counters d.shm in
    let d1 = record d { total_buffers = u64 (d.total_buffers + 1) } in
    if many_flushes d.shm || not (d.shm.info.lost == 0)
    then (record d1 { shm = (trace cfg ts (lost_args (sign_extend (lost_total cfg d.shm))) s).1 })
    else (record d1 { shm = s })

-- The buffer of `n` bytes at `base` is cleared, and the file offset moves past it.
abbrev pub buffer_cleared : ℕ → ℕ → Daemon → Daemon
buffer_cleared base n d = record d { shm = clear_records base n d.shm; seek = u64 (d.seek + n) }

abbrev pub limit_checked : RingConfig → Clock → Bool → Daemon → Bool × Daemon
limit_checked cfg t update d =
    if leb d.shm.fsize d.seek then at_limit cfg t update d else (update, d)

abbrev pub header_updated : Bool × Daemon → Daemon
header_updated (true, d) = rewrite_header d
header_updated (false, d) = d

-- The part of `rbtrace_write_data` behind the write of the buffer: `base` and `n` say which one,
-- `update` whether the header has changed.
unfoldable pub buffer_result : RingConfig → Clock → ℕ → ℕ → Bool → Option ℕ × Daemon → Daemon
buffer_result cfg t base n update (some e, d) = d
buffer_result cfg t base n update (none, d) =
    header_updated (limit_checked cfg t update (buffer_cleared base n d))

-- The wrapped file is written on where its oldest record stands.
abbrev pub wrap_around : ℕ → Daemon → Daemon
wrap_around n d = record d {
  seek = d.hdr.wrap_pos;
  hdr = record d.hdr { wrap_pos = u64 (d.hdr.wrap_pos + n) };
}

-- The buffer that is written: its first record, and its bytes.
abbrev pub buffer_base : Bool → Shm → ℕ
buffer_base do_flush s = if do_flush then s.info.cir_off else s.info.alt_off

abbrev pub buffer_bytes : RingConfig → Bool → Shm → ℕ
buffer_bytes cfg do_flush s = if do_flush then flush_bytes s else cfg.data_size

abbrev pub is_wrapping : Daemon → Bool
is_wrapping d = not (d.hdr.wrap_pos == 0) && d.shm.info.flags.do_wrap

abbrev pub positioned : ℕ → Daemon → Daemon
positioned n d = if is_wrapping d then wrap_around n d else d

-- The body of `rbtrace_write_data`, up to the label `end`, with the open file at `path`.
unfoldable pub write_buffer : RingConfig → Clock → Bool → List ℕ → Daemon → Daemon
write_buffer cfg t do_flush path d =
    let base = buffer_base do_flush d.shm in
    let n = buffer_bytes cfg do_flush d.shm in
    let d1 = positioned n d in
    buffer_result cfg t base n (is_wrapping d)
      (os_pwrite path (record_bytes d.shm.mem base) n d1.seek d1)

-- `rbtrace_write_data`. With no open file it jumps to `end` before `ri` and `cfg` are set, and
-- reads through the null pointer `ri`.
unfoldable pub write_data : RingConfig → Clock → Stamps → Bool → Daemon → Outcome
write_data cfg t ts do_flush d =
    on_fd d.fd segfault λ path. running (report_lost cfg ts (write_buffer cfg t do_flush path d))
