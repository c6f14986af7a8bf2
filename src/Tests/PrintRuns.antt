-- ===== src/Tests/PrintRuns.antt =====
-- The printing tool's output, on a file of three records in pages of two.
use rbtrace.Base.{
  u64, ◌+◌, ◌-◌, ◌≡◌, ℕ, refl, inl, inr, [], ◌∷◌, ◌++◌, Option, none, some, true, arith, ltb,
  if◌then◌else◌,
}
use rbtrace.Text.{codes}
use rbtrace.Disk.{File}
use rbtrace.Header.{Header, format_header, header_byte, header_at, header_size, text_at}
use rbtrace.Wire.{record_bytes, entry_at, le_read, le_byte, entry_byte}
use rbtrace.Shared.Calls.{ok}
use rbtrace.Parse.{accepts_header}
use rbtrace.Printf.{int_text, hex_text, long_text}
use rbtrace.Printf.Fits.{Fits}
use rbtrace.Print.{Tm, record_text}
use rbtrace.Print.Describe.{time_line, print_trace_summary}
use rbtrace.Print.Main.{
  Host, PrintOptions, file_arg, ids_arg, print_options, default_options, print_main, read_header,
}
use rbtrace.Print.Buffer.{record_text-Fits}
use rbtrace.Print.Output.{
  IsTraceFile, Asks, header_lines, record_lines, line_of, print_main-unwrapped, print_main-wrapped,
}
use rbtrace.Print.Summary.{note_ends, print_trace_summary-walk}
use rbtrace.Parse.Wrapped.{parse_trace_file-wrapped}
use rbtrace.Tool.{str_to_tflags}
use rbtrace.Tests.Fixtures.{small_cfg, some_clock, record_of}

abbrev file_of : ℕ → File
file_of wrap = record {
  size = 680;
  byte = λ i.
      if ltb i 512
      then header_byte (record (format_header small_cfg some_clock) { wrap_pos = wrap }) i
      else record_bytes record_of 0 (i - 512);
}

abbrev noon : Tm
noon = record { mon = 4; mday = 6; hour = 12; min = 0; sec = 7 }

abbrev host_of : ℕ → Host
host_of wrap = record {
  files = λ path. some (file_of wrap);
  writable = λ path. true;
  gmtime = λ t. some noon;
  page = some (λ i. 9);
  errno = 0;
  unset = λ i. 9;
}

-- The text of one record.
record_run :
    record_text true noon (record_of 5)
    ≡ codes
        "05-06 12:00:07.000000008 44        5 TEST OFF              0X5 LEN      0 DEV    0 OP 0009\n"
unfolding record_text int_text hex_text long_text
record_run = refl

record_text-Fits_example : Fits 186 (record_text true noon (record_of 5))
record_text-Fits_example = record_text-Fits true noon (record_of 5)

abbrev options : PrintOptions
options = record default_options { file_path = some (codes "t") }

options-Asks : (wrap : ℕ) → Asks (host_of wrap) (file_of wrap) options (file_arg (codes "t") ∷ [])
unfolding print_options
options-Asks wrap = record {
  read = refl;
  found = (codes "t", refl, refl);
  writes = refl;
  all_records = refl;
}

straight-IsTraceFile : IsTraceFile (host_of 0) (file_of 0) 3
unfolding accepts_header format_header header_byte header_at le_read le_byte text_at
straight-IsTraceFile = record {
  accepted = refl;
  opened_at = (noon, refl);
  paged = omega arith;
  small_page = omega arith;
  whole = refl;
  small = omega arith;
}

print_main-unwrapped_example : print_main (host_of 0) (file_arg (codes "t") ∷ []) ≡ (
  ok,
  header_lines (host_of 0) (file_of 0)
      ++ record_lines (line_of (host_of 0) (file_of 0) options) (file_of 0).byte 3 header_size,
)
unfolding format_header header_byte header_at le_read le_byte text_at
print_main-unwrapped_example =
    print_main-unwrapped (host_of 0) (file_of 0) 3 options (file_arg (codes "t") ∷ [])
      straight-IsTraceFile (options-Asks 0) (_, refl) (inl refl)

turned-IsTraceFile : IsTraceFile (host_of 568) (file_of 568) 3
unfolding accepts_header format_header header_byte header_at le_read le_byte text_at
turned-IsTraceFile = record {
  accepted = refl;
  opened_at = (noon, refl);
  paged = omega arith;
  small_page = omega arith;
  whole = refl;
  small = omega arith;
}

print_main-wrapped_example : print_main (host_of 568) (file_arg (codes "t") ∷ []) ≡ (
  ok,
  header_lines (host_of 568) (file_of 568)
      ++ record_lines
          (line_of (host_of 568) (file_of 568) options)
          (file_of 568).byte
          2
          (read_header (host_of 568) (file_of 568)).wrap_pos
      ++ record_lines
          (line_of (host_of 568) (file_of 568) options)
          (file_of 568).byte
          1
          header_size,
)
unfolding format_header header_byte header_at le_read le_byte text_at
print_main-wrapped_example =
    print_main-wrapped (host_of 568) (file_of 568) 1 3 options (file_arg (codes "t") ∷ [])
      turned-IsTraceFile (options-Asks 568) (_, refl) refl (omega arith) (omega arith)

abbrev hour_of : ℕ → Option Tm
hour_of t = some (record noon { hour = t })

abbrev turned : Header
turned = record (format_header small_cfg some_clock) { wrap_pos = 568 }

print_trace_summary-walk_example :
    print_trace_summary hour_of turned (file_of 568)
    ≡ time_line (codes "start time: ") (record noon { hour = u64 (7 + some_clock.gmtoff) })
      ++ time_line (codes "end time  : ") (record noon { hour = u64 (7 + some_clock.gmtoff) })
unfolding entry_at le_read record_bytes entry_byte le_byte format_header
print_trace_summary-walk_example =
    print_trace_summary-walk hour_of turned (file_of 568) (λ i. 9) 3 (omega arith) (omega arith)
      (omega arith) refl (omega arith) (entry_at (file_of 568).byte 568)
      (entry_at (file_of 568).byte 512) (inr (1, refl, omega arith, omega arith))
      (parse_trace_file-wrapped note_ends turned (file_of 568) (λ i. 9) 1 3 none refl (omega arith)
        (omega arith) (omega arith) (omega arith) refl (omega arith))
      refl refl

-- `-i TEST` keeps the lost traces.
ids_run :
    print_options (ids_arg (codes "TEST") ∷ []) default_options
    ≡ some (record default_options { trace_ids = 6 })
unfolding print_options str_to_tflags
ids_run = refl
