-- ===== src/Print.antt =====
-- The line that the printing tool writes for a record, prbt.c: `format_trace_record` and
-- `trace_print_fn`. `gmtime` is a parameter, from a `time_t` given as its 64-bit pattern.
pub mod Describe
pub mod Main
pub mod Buffer
pub mod Output
pub mod Summary
use rbtrace.Base.{
  ℕ, zero, suc, ◌+◌, ◌-◌, ◌*◌, ◌/◌, ◌%◌, ◌^◌, Bool, true, false, not, ◌&&◌, ◌||◌, List, [], ◌∷◌,
  ◌++◌, Option, none, some, ltb, leb, ◌==◌, if◌then◌else◌, bit_and, bit_or, u32, u64, sign_extend,
}
use rbtrace.Text.{codes}
use rbtrace.Trace.{Entry, entry_size, rbt_lost, rbt_traffic_last}
use rbtrace.Disk.{File}
use rbtrace.Header.{Header, header_size, header_at, text_at}
use rbtrace.Wire.{entry_at}
use rbtrace.Shared.Calls.{Rc, ok, minus_one, error}
use rbtrace.Parse.{accepts_header, parse_trace_file}
use rbtrace.Tool.{str_to_tflags}
use rbtrace.Printf.{
  join, pad, int_text, long_text, hex_text, prefixed_hex, signed_int, signed_long, zeros_long,
  two_digits,
}

-- The fields of `struct tm` that are printed.
pub record Tm : Type 0 where
  pub mon : ℕ
  pub mday : ℕ
  pub hour : ℕ
  pub min : ℕ
  pub sec : ℕ

-- `"ID:%d, %16lX, %16lX, %16lX, %16lX"`
abbrev pub unknown_text : Entry → List ℕ
unknown_text e = join (
    codes "ID:"
    ∷ int_text e.traceid
    ∷ codes ", "
    ∷ pad 16 b' ' (hex_text b'A' e.a0)
    ∷ codes ", "
    ∷ pad 16 b' ' (hex_text b'A' e.a1)
    ∷ codes ", "
    ∷ pad 16 b' ' (hex_text b'A' e.a2)
    ∷ codes ", "
    ∷ pad 16 b' ' (hex_text b'A' e.a3)
    ∷ [])

-- `"OFF %#16llX LEN %#6llx DEV %#4d OP %04x"`: the last two conversions take an `int`.
abbrev pub test_text : Entry → List ℕ
test_text e = join (
    codes "OFF "
    ∷ pad 16 b' ' (prefixed_hex b'X' b'A' e.a0)
    ∷ codes " LEN "
    ∷ pad 6 b' ' (prefixed_hex b'x' b'a' e.a1)
    ∷ codes " DEV "
    ∷ pad 4 b' ' (signed_int (u32 e.a2))
    ∷ codes " OP "
    ∷ pad 4 b'0' (hex_text b'a' (u32 e.a3))
    ∷ [])

-- A known trace: `"%4s "` of `rbt_tid_str`, and `rbt_fmt_str` with the arguments.
abbrev pub known_text : ℕ → Entry → List ℕ
known_text zero e = codes "NULL NULL"
known_text (suc zero) e = codes "LOST Lost " ++ signed_long e.a0
known_text (suc (suc id)) e = codes "TEST " ++ test_text e

-- `format_trace_record`
unfoldable pub format_trace_record : Entry → List ℕ
format_trace_record e =
    (if leb rbt_traffic_last e.traceid then unknown_text e else known_text e.traceid e)
    ++ codes "\n"

-- `"%02d-%02d %02d:%02d:%02d.%09ld "`
abbrev pub stamp_text : Tm → ℕ → List ℕ
stamp_text tm nsec = join (
    two_digits (tm.mon + 1)
    ∷ codes "-"
    ∷ two_digits tm.mday
    ∷ codes " "
    ∷ two_digits tm.hour
    ∷ codes ":"
    ∷ two_digits tm.min
    ∷ codes ":"
    ∷ two_digits tm.sec
    ∷ codes "."
    ∷ zeros_long 9 nsec
    ∷ codes " "
    ∷ [])

-- The line in `record_buf`.
unfoldable pub record_text : Bool → Tm → Entry → List ℕ
unfolding format_trace_record
record_text show_timestamp tm e = join (
    (if show_timestamp then stamp_text tm e.nsec else [])
    ∷ pad 2 b' ' (int_text e.cpuid)
    ∷ codes " "
    ∷ pad 8 b' ' (int_text e.thread)
    ∷ codes " "
    ∷ format_trace_record e
    ∷ [])

-- `opts.trace_ids & (1 << re->traceid)`, where the `int` is shifted as x86-64 shifts it.
abbrev pub is_selected : ℕ → Entry → Bool
is_selected ids e = not (bit_and ids (sign_extend (u32 (2 ^ (e.traceid % 32)))) == 0)

-- `trace_print_fn`: what it adds to the output. It never stops the walk.
unfoldable pub trace_print_fn : (ℕ → Option Tm) → Bool → ℕ → Header → Entry → List ℕ
trace_print_fn gmtime show_timestamp ids h e =
    if is_selected ids e
    then (elim (gmtime (u64 (e.sec + h.gmtoff))) [
      | none ↦ []
      | some tm ↦ record_text show_timestamp tm e
    ])
    else []
