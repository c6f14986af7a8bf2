-- ===== src/Print/Summary.antt =====
-- The summary that `print_trace_summary` of prbt.c writes.
use rbtrace.Base.{
  ℕ, ◌+◌, ◌-◌, ◌*◌, ◌≤◌, ◌<◌, ◌^◌, ◌≡◌, ◌∙◌, ◌⊎◌, ap, ap₂, refl, sym, zero, suc, inl, inr, none,
  true, false, ◌++◌, Option, some, u64, arith, ltb, leb, ◌&&◌,
}
use rbtrace.Text.{codes}
use rbtrace.Trace.{Entry, entry_size}
use rbtrace.Disk.{File}
use rbtrace.Header.{Header, header_size}
use rbtrace.Wire.{entry_at}
use rbtrace.Parse.{parse_trace_file}
use rbtrace.Parse.Unwrapped.{parse_trace_file-unwrapped}
use rbtrace.Parse.Walk.{always, fold_records}
use rbtrace.Parse.Wrapped.{parse_trace_file-wrapped}
use rbtrace.Print.{Tm}
use rbtrace.Print.Describe.{
  time_line, time_lines, time_at, last_offset, first_offset, print_trace_summary,
}

-- The offsets of the first and of the last of the `n` records that a walk through the file meets.
abbrev IsWalkEnds : Header → ℕ → ℕ → ℕ → Type 0
IsWalkEnds h n first last =
    (((h.wrap_pos ≡ 0) ⊎ (h.wrap_pos ≡ header_size))
      × (first ≡ header_size)
      × (last ≡ header_size + (n - 1) * entry_size))
    ⊎ ((m : ℕ) × (h.wrap_pos ≡ header_size + m * entry_size)
        × (1 ≤ m)
        × (m < n)
        × (first ≡ h.wrap_pos)
        × (last ≡ header_size + (m - 1) * entry_size))

module _ (gmtime : ℕ → Option Tm) (h : Header) (f : File) where
  time_at_record :
      (off : ℕ) {tm : Tm}
      → off + entry_size ≤ f.size
      → f.size < 2 ^ 63
      → gmtime (u64 ((entry_at f.byte off).sec + h.gmtoff)) ≡ some tm
      → time_at gmtime h f off ≡ some tm
  time_at_record off inside small e =
      let b : (ltb off (2 ^ 63) && leb (off + entry_size) f.size) ≡ true = ground arith in rw b e

  first_offset_eq : (n first last : ℕ) → IsWalkEnds h n first last → first_offset h ≡ first
  first_offset_eq n first last w = ground arith

  last_offset_eq :
      (n first last : ℕ)
      → 1 ≤ n
      → f.size ≡ header_size + n * entry_size
      → IsWalkEnds h n first last
      → last_offset f first ≡ last
  last_offset_eq n first last some_records sized w = ground arith

  -- The summary, by the offsets of the ends.
  summary_at :
      (n first last : ℕ) {tm tm' : Tm}
      → 1 ≤ n
      → f.size ≡ header_size + n * entry_size
      → f.size < 2 ^ 63
      → IsWalkEnds h n first last
      → gmtime (u64 ((entry_at f.byte first).sec + h.gmtoff)) ≡ some tm
      → gmtime (u64 ((entry_at f.byte last).sec + h.gmtoff)) ≡ some tm'
      → print_trace_summary gmtime h f
        ≡ time_line (codes "start time: ") tm ++ time_line (codes "end time  : ") tm'
  unfolding print_trace_summary
  summary_at n first last some_records sized small w e e' =
      let long : ltb f.size (header_size + entry_size) ≡ false = ground arith in
      let at = first_offset_eq n first last w in
      rw long (
        ap₂ time_lines (ap (time_at gmtime h f) at ∙ time_at_record first (ground arith) small e) (
          ap (time_at gmtime h f)
            (ap (last_offset f) at ∙ last_offset_eq n first last some_records sized w)
          ∙ time_at_record last (ground arith) small e'))

-- A callback that keeps the first and the last record that it is given.
abbrev pub note_ends : ℕ → Entry → Option (Entry × Entry) → Option (Entry × Entry)
note_ends cnt e none = some (e, e)
note_ends cnt e (some (a, b)) = some (a, e)

fold_records-then :
    (m : ℕ → ℕ) (n at cnt : ℕ) (a b : Entry)
    → fold_records note_ends m (suc n) at cnt (some (a, b)) ≡ some (a, entry_at m (at + n * 56))
fold_records-then m zero at cnt a b =
    ap (λ x. some (a, entry_at m x)) {x = at} {y = at + 0 * 56} (omega arith)
fold_records-then m (suc n) at cnt a b =
    fold_records-then m n (at + 56) (cnt + 1) a (entry_at m at)
    ∙ ap (λ x. some (a, entry_at m x)) {x = at + 56 + n * 56} {y = at + suc n * 56} (omega arith)

fold_records-ends :
    (m : ℕ → ℕ) (n at cnt : ℕ)
    → fold_records note_ends m (suc n) at cnt none ≡ some (entry_at m at, entry_at m (at + n * 56))
fold_records-ends m zero at cnt =
    ap (λ x. some (entry_at m at, entry_at m x)) {x = at} {y = at + 0 * 56} (omega arith)
fold_records-ends m (suc n) at cnt =
    fold_records-then m n (at + 56) (cnt + 1) (entry_at m at) (entry_at m at)
    ∙ ap (λ x. some (entry_at m at, entry_at m x)) {x = at + 56 + n * 56} {y = at + suc n * 56}
        (omega arith)

pred_of : (n : ℕ) → 1 ≤ n → (k : ℕ) × (n ≡ suc k)
pred_of zero h = absurd (omega arith)
pred_of (suc k) h = (k, refl)

some_inj : {A : Type 0} {x y : A} → some x ≡ some y → x ≡ y
some_inj h = cc

-- No wrap position or the one at the head; or the one at record `m`, neither the first nor past the
-- last.
abbrev pub IsPlaced : Header → ℕ → Type 0
IsPlaced h n =
    ((h.wrap_pos ≡ 0) ⊎ (h.wrap_pos ≡ header_size))
    ⊎ ((m : ℕ) × (h.wrap_pos ≡ header_size + m * 56) × (1 ≤ m) × (m < n))

module _ (gmtime : ℕ → Option Tm) (h : Header) (f : File) (page : ℕ → ℕ) (n : ℕ)
    (some_records : 1 ≤ n) (several : 1 ≤ h.nr_records) (fits : h.nr_records * 56 < 2 ^ 64)
    (sized : f.size ≡ header_size + n * 56) (small : f.size < 2 ^ 63) where
  -- What the walk meets first and last.
  walk_ends :
      IsPlaced h n
      → (first : ℕ) × (last : ℕ) × IsWalkEnds h n first last
        × (parse_trace_file (always note_ends) h f (some page) none
            ≡ some (entry_at f.byte first, entry_at f.byte last))
  walk_ends (inl w) =
      let (k, e) = pred_of n some_records in
      (
        header_size,
        header_size + (n - 1) * entry_size,
        inl (w, refl, refl),
        parse_trace_file-unwrapped note_ends h f page n none w several fits sized small
            ∙ ap (λ x. fold_records note_ends f.byte x header_size 0 none) e
            ∙ fold_records-ends f.byte k header_size 0
            ∙ ap (λ x. some (entry_at f.byte header_size, entry_at f.byte x))
                {x = header_size + k * 56} {y = header_size + (n - 1) * entry_size}
                (omega (arith, e)),
      )
  walk_ends (inr (m, w, low, high)) =
      let (k, e) = pred_of (n - m) (omega (arith, high)) in
      let (j, q) = pred_of m low in
      (
        h.wrap_pos,
        header_size + (m - 1) * entry_size,
        inr (m, w, low, high, refl, refl),
        parse_trace_file-wrapped note_ends h f page m n none w low high several fits sized small
            ∙ ap
                (λ x.
                  fold_records note_ends f.byte m header_size (n - m)
                    (fold_records note_ends f.byte x h.wrap_pos 0 none))
                e
            ∙ ap (fold_records note_ends f.byte m header_size (n - m))
                (fold_records-ends f.byte k h.wrap_pos 0)
            ∙ ap
                (λ x.
                  fold_records note_ends f.byte x header_size (n - m)
                    (some (entry_at f.byte h.wrap_pos, entry_at f.byte (h.wrap_pos + k * 56))))
                q
            ∙ fold_records-then f.byte j header_size (n - m) (entry_at f.byte h.wrap_pos)
                (entry_at f.byte (h.wrap_pos + k * 56))
            ∙ ap (λ x. some (entry_at f.byte h.wrap_pos, entry_at f.byte x))
                {x = header_size + j * 56} {y = header_size + (m - 1) * entry_size}
                (omega (arith, q)),
      )

  -- In a file of at least one whole record, with at least one record per page, a page from `malloc`,
  -- and the wrap position absent, at the head or at a record that is neither the first nor past the
  -- last: if the walk of `parse_trace_file` meets the record `a` first and `b` last, and `gmtime`
  -- takes their times, the summary has the time of `a` as the start and that of `b` as the end. The
  -- sizes are those that fit their types.
  pub print_trace_summary-walk :
      (a b : Entry) {tm tm' : Tm}
      → IsPlaced h n
      → parse_trace_file (always note_ends) h f (some page) none ≡ some (a, b)
      → gmtime (u64 (a.sec + h.gmtoff)) ≡ some tm
      → gmtime (u64 (b.sec + h.gmtoff)) ≡ some tm'
      → print_trace_summary gmtime h f
        ≡ time_line (codes "start time: ") tm ++ time_line (codes "end time  : ") tm'
  print_trace_summary-walk a b w met e e' =
      let (first, last, ends, walked) = walk_ends w in
      let same = some_inj (sym walked ∙ met) in
      summary_at gmtime h f n first last some_records sized small ends
        (ap (λ (x : Entry). gmtime (u64 (x.sec + h.gmtoff))) (ap (λ p. p.0) same) ∙ e)
        (ap (λ (x : Entry). gmtime (u64 (x.sec + h.gmtoff))) (ap (λ p. p.1) same) ∙ e')
