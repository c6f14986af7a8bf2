-- ===== src/Print/Main.antt =====
-- `main` of prbt.c: the options, as `getopt`, `strptime` and `mktime` read them, and the calls in
-- their order. The texts of `usage` and `version` are left out.
use rbtrace.Base.{
  ℕ, ◌^◌, ◌-◌, Bool, true, false, List, [], ◌∷◌, ◌++◌, Option, none, some, ltb, ◌==◌, if◌then◌else◌,
  bit_or,
}
use rbtrace.Trace.{rbt_lost}
use rbtrace.Disk.{File}
use rbtrace.Header.{Header, header_at}
use rbtrace.Shared.Calls.{Rc, ok, minus_one, error}
use rbtrace.Parse.{parse_trace_file}
use rbtrace.Parse.Walk.{always}
use rbtrace.Tool.{str_to_tflags}
use rbtrace.Print.{Tm, trace_print_fn}
use rbtrace.Print.Describe.{parse_trace_header, print_trace_summary}

-- What `getopt` finds. `start_arg` and `end_arg` have the time, if its text is one.
pub data PrintArg : Type 0 where
  file_arg out_arg ids_arg : List ℕ → PrintArg
  start_arg end_arg : Option ℕ → PrintArg
  info_arg version_arg help_arg unknown_arg : PrintArg

-- `struct prbt_option`; `show_timestamp` has no option.
pub record PrintOptions : Type 0 where
  pub file_path : Option (List ℕ)
  pub out_path : Option (List ℕ)
  pub start_time : ℕ
  pub end_time : ℕ
  pub only_show_info : Bool
  pub show_timestamp : Bool
  pub trace_ids : ℕ

abbrev pub default_options : PrintOptions
default_options = record {
  file_path = none;
  out_path = none;
  start_time = 0;
  end_time = 0;
  only_show_info = false;
  show_timestamp = true;
  trace_ids = 2 ^ 64 - 1;
}

-- One turn of the loop; `none` is `goto out`.
unfoldable pub take_print_arg : PrintArg → PrintOptions → Option PrintOptions
take_print_arg (file_arg path) o = some (record o { file_path = some path })
take_print_arg (out_arg path) o = some (record o { out_path = some path })
take_print_arg (start_arg none) o = none
take_print_arg (start_arg (some t)) o = some (record o { start_time = t })
take_print_arg (end_arg none) o = none
take_print_arg (end_arg (some t)) o = some (record o { end_time = t })
take_print_arg info_arg o = some (record o { only_show_info = true })
take_print_arg (ids_arg text) o =
    let ids = str_to_tflags text in
    if ids == 0 then none else some (record o { trace_ids = bit_or ids (2 ^ rbt_lost) })
take_print_arg version_arg o = none
take_print_arg help_arg o = none
take_print_arg unknown_arg o = none

unfoldable pub print_options : List PrintArg → PrintOptions → Option PrintOptions
unfolding take_print_arg
print_options [] o = some o
print_options (a ∷ as') o = elim (take_print_arg a o) [
  | none ↦ none
  | some o' ↦ print_options as' o'
]

-- What the system answers: the files that `open` opens, whether `fopen` opens the output, what
-- `gmtime` and `malloc` return, and what `errno` and the memory of the header hold before.
pub record Host : Type 0 where
  pub files : List ℕ → Option File
  pub writable : List ℕ → Bool
  pub gmtime : ℕ → Option Tm
  pub page : Option (ℕ → ℕ)
  pub errno : ℕ
  pub unset : ℕ → ℕ

-- The header in memory behind the `pread` of `parse_trace_header`.
abbrev pub read_header : Host → File → Header
read_header host f = header_at (λ i. if ltb i f.size then f.byte i else host.unset i)

-- `parse_trace_file` with `trace_print_fn`, behind the output so far.
abbrev pub print_records : Host → PrintOptions → Header → File → List ℕ → List ℕ
print_records host o h f text =
    parse_trace_file
      (always λ cnt e out. out ++ trace_print_fn host.gmtime o.show_timestamp o.trace_ids h e) h f
      host.page text

-- The part behind `parse_trace_header`, by its result.
unfoldable pub print_body : Host → PrintOptions → File → Rc × List ℕ → Rc × List ℕ
print_body host o f (ok, text) = (
  ok,
  if o.only_show_info
      then text ++ print_trace_summary host.gmtime (read_header host f) f
      else print_records host o (read_header host f) f text,
)
print_body host o f (minus_one, text) = (minus_one, text)
print_body host o f (error e, text) = (error e, text)

abbrev pub can_write : Host → Option (List ℕ) → Bool
can_write host none = true
can_write host (some path) = host.writable path

-- The part behind the options: `rc`, and what is written to the output. A failure to open a file
-- leaves `rc` at 0.
abbrev pub print_opened : Host → PrintOptions → Option File → Rc × List ℕ
print_opened host o none = (ok, [])
print_opened host o (some f) =
    if can_write host o.out_path
    then print_body host o f (parse_trace_header host.gmtime host.errno (read_header host f) f)
    else (ok, [])

abbrev pub print_file : Host → PrintOptions → Option (List ℕ) → Rc × List ℕ
print_file host o none = (ok, [])
print_file host o (some path) = print_opened host o (host.files path)

abbrev pub print_run : Host → Option PrintOptions → Rc × List ℕ
print_run host none = (ok, [])
print_run host (some o) = print_file host o o.file_path

unfoldable pub print_main : Host → List PrintArg → Rc × List ℕ
unfolding print_options print_body
print_main host args = print_run host (print_options args default_options)
