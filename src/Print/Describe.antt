-- ===== src/Print/Describe.antt =====
-- The header and the summary in the output, prbt.c: `parse_trace_header` and
-- `print_trace_summary`.
use rbtrace.Base.{
  ℕ, ◌+◌, ◌-◌, ◌/◌, ◌^◌, ◌&&◌, List, [], ◌∷◌, ◌++◌, Option, none, some, ltb, leb, ◌==◌,
  if◌then◌else◌, u64,
}
use rbtrace.Text.{codes}
use rbtrace.Trace.{entry_size}
use rbtrace.Disk.{File}
use rbtrace.Header.{Header, header_size, text_at}
use rbtrace.Wire.{entry_at}
use rbtrace.Shared.Calls.{Rc, ok, minus_one, error}
use rbtrace.Parse.{accepts_header}
use rbtrace.Printf.{join, int_text, signed_long, zeros_long, two_digits}
use rbtrace.Print.{Tm}

-- The division of a `long`, given as its bit pattern, by a positive number.
abbrev pub div_long : ℕ → ℕ → ℕ
div_long p k = if leb (2 ^ 63) p then u64 (2 ^ 64 - (2 ^ 64 - p) / k) else p / k

-- `"OPEN AT: %02d/%02d %02d:%02d:%02d.%06ld %s\n"`
abbrev pub open_text : Tm → ℕ → List ℕ → List ℕ
open_text tm nsec zone = join (
    codes "OPEN AT: "
    ∷ two_digits (tm.mon + 1)
    ∷ codes "/"
    ∷ two_digits tm.mday
    ∷ codes " "
    ∷ two_digits tm.hour
    ∷ codes ":"
    ∷ two_digits tm.min
    ∷ codes ":"
    ∷ two_digits tm.sec
    ∷ codes "."
    ∷ zeros_long 6 (div_long nsec 1000)
    ∷ codes " "
    ∷ zone
    ∷ codes "\n"
    ∷ [])

-- The text at an offset of the padded header, up to its end.
abbrev pub header_text : Header → ℕ → List ℕ
header_text h off = text_at (header_size - off) h.pad off

-- The lines of `parse_trace_header` for a header that it accepts.
unfoldable pub describe_lines : (ℕ → Option Tm) → Header → List ℕ
describe_lines gmtime h = join (
    codes "REVISION: "
    ∷ int_text h.major
    ∷ codes "."
    ∷ int_text h.minor
    ∷ codes "\n"
    ∷ elim (gmtime (u64 (h.sec + h.gmtoff))) [
      | none ↦ []
      | some t ↦ open_text t h.nsec (header_text h h.tz_off)
    ]
    ∷ (if h.wrap_pos == 0
        then []
        else join (codes "wrap position: " ∷ signed_long h.wrap_pos ∷ codes "\n" ∷ []))
    ∷ codes "ring name: "
    ∷ header_text h h.name_off
    ∷ codes "\n"
    ∷ codes "ring desc: "
    ∷ header_text h h.desc_off
    ∷ codes "\n"
    ∷ [])

-- A time that `gmtime` refuses sets `rc`, and the lines behind it are written nevertheless.
abbrev pub time_rc : Option Tm → Rc
time_rc none = minus_one
time_rc (some tm) = ok

-- `rc` and the output of `parse_trace_header` on a header that is read whole.
unfoldable pub describe_header : (ℕ → Option Tm) → Header → Rc × List ℕ
unfolding describe_lines
describe_header gmtime h =
    if accepts_header h
    then (time_rc (gmtime (u64 (h.sec + h.gmtoff))), describe_lines gmtime h)
    else (minus_one, [])

-- `parse_trace_header`, with the header in memory behind its `pread`. A short read leaves `errno` as it was, and the header partly unset.
unfoldable pub parse_trace_header : (ℕ → Option Tm) → ℕ → Header → File → Rc × List ℕ
unfolding describe_header
parse_trace_header gmtime errno h f =
    if ltb f.size header_size
    then (if errno == 0 then ok else error errno, [])
    else describe_header gmtime h

-- `"%m-%d %H:%M:%S"`
abbrev pub time_text : Tm → List ℕ
time_text tm = join (
    two_digits (tm.mon + 1)
    ∷ codes "-"
    ∷ two_digits tm.mday
    ∷ codes " "
    ∷ two_digits tm.hour
    ∷ codes ":"
    ∷ two_digits tm.min
    ∷ codes ":"
    ∷ two_digits tm.sec
    ∷ [])

-- A record of the file, if it can be read whole; `none` also for a time that `gmtime` refuses.
abbrev pub time_at : (ℕ → Option Tm) → Header → File → ℕ → Option Tm
time_at gmtime h f off =
    if ltb off (2 ^ 63) && leb (off + entry_size) f.size
    then gmtime (u64 ((entry_at f.byte off).sec + h.gmtoff))
    else none

-- The offset of the last record, from that of the first.
abbrev pub last_offset : File → ℕ → ℕ
last_offset f off =
    if leb (header_size + entry_size) off then off - entry_size else f.size - entry_size

abbrev pub first_offset : Header → ℕ
first_offset h = if h.wrap_pos == 0 then header_size else h.wrap_pos

abbrev pub time_line : List ℕ → Tm → List ℕ
time_line label tm = join (label ∷ time_text tm ∷ codes "\n" ∷ [])

-- The lines for the times of the first and of the last record: a failure ends the summary.
abbrev pub end_line : Option Tm → List ℕ
end_line none = []
end_line (some tm) = time_line (codes "end time  : ") tm

abbrev pub time_lines : Option Tm → Option Tm → List ℕ
time_lines none stop = []
time_lines (some tm) stop = time_line (codes "start time: ") tm ++ end_line stop

unfoldable pub print_trace_summary : (ℕ → Option Tm) → Header → File → List ℕ
print_trace_summary gmtime h f =
    if ltb f.size (header_size + entry_size)
    then []
    else (let first = first_offset h in
        time_lines (time_at gmtime h f first) (time_at gmtime h f (last_offset f first)))
