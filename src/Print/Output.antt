-- ===== src/Print/Output.antt =====
-- What a run of the printing tool writes.
use rbtrace.Base.{
  ℕ, zero, suc, ◌+◌, ◌-◌, ◌*◌, ◌≤◌, ◌<◌, ◌^◌, ◌≡◌, ◌∙◌, ◌⊎◌, refl, ap, sym, true, false, List, [],
  ◌++◌, append_assoc, append-nil, some, u64, arith, ltb, le→ltb,
}
use rbtrace.Trace.{Entry}
use rbtrace.Disk.{File}
use rbtrace.Header.{header_size}
use rbtrace.Wire.{entry_at}
use rbtrace.Shared.Calls.{ok}
use rbtrace.Parse.{accepts_header, parse_trace_file}
use rbtrace.Parse.Walk.{always, fold_records}
use rbtrace.Parse.Unwrapped.{parse_trace_file-unwrapped}
use rbtrace.Parse.Wrapped.{parse_trace_file-wrapped}
use rbtrace.Print.{Tm, trace_print_fn}
use rbtrace.Print.Describe.{describe_lines, describe_header, time_rc, parse_trace_header}
use rbtrace.Print.Main.{
  PrintArg, PrintOptions, Host, default_options, print_options, print_body, print_main, print_file,
  print_opened, print_records, print_run, read_header, can_write,
}

-- The lines of the `n` records from offset `at` on, one behind the other.
abbrev pub record_lines : (Entry → List ℕ) → (ℕ → ℕ) → ℕ → ℕ → List ℕ
record_lines line m zero at = []
record_lines line m (suc n) at = line (entry_at m at) ++ record_lines line m n (at + 56)

fold_records-lines :
    (line : Entry → List ℕ) (m : ℕ → ℕ) (n at cnt : ℕ) (s : List ℕ)
    → fold_records (λ k e out. out ++ line e) m n at cnt s ≡ s ++ record_lines line m n at
fold_records-lines line m zero at cnt s = sym (append-nil s)
fold_records-lines line m (suc n) at cnt s =
    fold_records-lines line m n (at + 56) (cnt + 1) (s ++ line (entry_at m at))
    ∙ append_assoc s (line (entry_at m at)) (record_lines line m n (at + 56))

module _ (host : Host) (f : File) where
  -- The file holds `n` whole records behind a header that the tool accepts.
  pub record IsTraceFile (n : ℕ) : Type 0 where
    pub accepted : accepts_header (read_header host f) ≡ true
    pub opened_at :
        (tm : Tm) × (host.gmtime (u64 ((read_header host f).sec + (read_header host f).gmtoff))
          ≡ some tm)
    pub paged : 1 ≤ (read_header host f).nr_records
    pub small_page : (read_header host f).nr_records * 56 < 2 ^ 64
    pub whole : f.size ≡ header_size + n * 56
    pub small : f.size < 2 ^ 63

  -- The options ask for the records of the file, and the output can be opened.
  pub record Asks (o : PrintOptions) (args : List PrintArg) : Type 0 where
    pub read : print_options args default_options ≡ some o
    pub found : (path : List ℕ) × (o.file_path ≡ some path) × (host.files path ≡ some f)
    pub writes : can_write host o.out_path ≡ true
    pub all_records : o.only_show_info ≡ false

  -- The line of a record.
  abbrev pub line_of : PrintOptions → Entry → List ℕ
  line_of o = trace_print_fn host.gmtime o.show_timestamp o.trace_ids (read_header host f)

  -- The lines that describe the header.
  abbrev pub header_lines : List ℕ
  header_lines = describe_lines host.gmtime (read_header host f)

  abbrev add_line : PrintOptions → ℕ → Entry → List ℕ → List ℕ
  add_line o cnt e out = out ++ line_of o e

  header-described :
      (n : ℕ)
      → IsTraceFile n
      → parse_trace_header host.gmtime host.errno (read_header host f) f ≡ (ok, header_lines)
  unfolding parse_trace_header describe_header
  header-described n t =
      let long : ltb f.size header_size ≡ false =
        le→ltb f.size header_size (omega (arith, t.whole)) in
      rw (long, t.accepted) (ap (λ r. (time_rc r, header_lines)) t.opened_at.1)

  -- What the tool does with an accepted header and the records behind it.
  print_body-records :
      (n : ℕ) (o : PrintOptions)
      → IsTraceFile n
      → o.only_show_info ≡ false
      → print_body host o f (parse_trace_header host.gmtime host.errno (read_header host f) f)
        ≡ (ok, print_records host o (read_header host f) f header_lines)
  unfolding print_body
  print_body-records n o t all = ap (print_body host o f) (header-described n t) ∙ rw all refl

  print_main-records :
      (n : ℕ) (o : PrintOptions) (args : List PrintArg)
      → IsTraceFile n
      → Asks o args
      → print_main host args ≡ (ok, print_records host o (read_header host f) f header_lines)
  unfolding print_main
  print_main-records n o args t a =
      ap (print_run host) a.read
      ∙ ap (print_file host o) a.found.1
      ∙ ap (print_opened host o) a.found.2
      ∙ rw a.writes (print_body-records n o t a.all_records)

  -- With one file to read whose header is accepted, has at least one record per page, and has a
  -- creation time that `gmtime` takes, with its records whole, no wrap position or the one at the
  -- head, and `malloc` giving a page, the sizes those that fit their types, the tool returns 0 and writes the lines that describe the header, and then the
  -- line of each record of the file, once and in order.
  pub print_main-unwrapped :
      (n : ℕ) (o : PrintOptions) (args : List PrintArg)
      → IsTraceFile n
      → Asks o args
      → (page : ℕ → ℕ) × (host.page ≡ some page)
      → ((read_header host f).wrap_pos ≡ 0) ⊎ ((read_header host f).wrap_pos ≡ header_size)
      → print_main host args ≡ (ok, header_lines ++ record_lines (line_of o) f.byte n header_size)
  print_main-unwrapped n o args t a (page, e) w =
      print_main-records n o args t a
      ∙ ap (λ x. (ok, x))
          (ap (λ q. parse_trace_file (always (add_line o)) (read_header host f) f q header_lines) e
            ∙ parse_trace_file-unwrapped (add_line o) (read_header host f) f page n header_lines w
                t.paged t.small_page t.whole t.small
            ∙ fold_records-lines (line_of o) f.byte n header_size 0 header_lines)

  -- With one file to read whose header is accepted, has at least one record per page, and has a
  -- creation time that `gmtime` takes, with its records whole, the wrap position at record `m`,
  -- neither the first nor past the last, and `malloc` giving a page, the sizes those that fit their
  -- types, the tool returns 0 and writes the lines that describe the header, then the lines of the
  -- records from the wrap position to the end of the file, and then of those before it.
  pub print_main-wrapped :
      (m n : ℕ) (o : PrintOptions) (args : List PrintArg)
      → IsTraceFile n
      → Asks o args
      → (page : ℕ → ℕ) × (host.page ≡ some page)
      → (read_header host f).wrap_pos ≡ header_size + m * 56
      → 1 ≤ m
      → m < n
      → print_main host args ≡ (
        ok,
        header_lines
            ++ record_lines (line_of o) f.byte (n - m) (read_header host f).wrap_pos
            ++ record_lines (line_of o) f.byte m header_size,
      )
  print_main-wrapped m n o args t a (page, e) w low high =
      print_main-records n o args t a
      ∙ ap (λ x. (ok, x))
          (ap (λ q. parse_trace_file (always (add_line o)) (read_header host f) f q header_lines) e
            ∙ parse_trace_file-wrapped (add_line o) (read_header host f) f page m n header_lines w
                low high t.paged t.small_page t.whole t.small
            ∙ fold_records-lines (line_of o) f.byte m header_size (n - m) _
            ∙ ap (λ x. x ++ record_lines (line_of o) f.byte m header_size)
                (fold_records-lines (line_of o) f.byte (n - m) (read_header host f).wrap_pos 0
                  header_lines))
