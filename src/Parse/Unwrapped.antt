-- ===== src/Parse/Unwrapped.antt =====
-- `parse_trace_file`, prbt.c, on a file that is not wrapped.
use rbtrace.Base.{
  ℕ, ◌+◌, ◌-◌, ◌*◌, ◌/◌, ◌%◌, ◌||◌, ◌≤◌, ◌<◌, ◌^◌, ◌≡◌, ◌⊎◌, inl, refl, ap, ◌∙◌, true, false, ◌==◌,
  ltb, u64, some, if◌then◌else◌, arith,
}
use rbtrace.Trace.{Entry, entry_size}
use rbtrace.Disk.{File}
use rbtrace.Header.{Header, header_size}
use rbtrace.Parse.{Stage, out, behind, pages, parse_trace_file, second_loop}
use rbtrace.Parse.Walk.{always, fold_records}
use rbtrace.Parse.Pages.{pages_all}

abbrev pub state_of : {S : Type 0} → Stage S → S
state_of (out s) = s
state_of (behind cnt s) = s

module _ {S : Type 0} (g : ℕ → Entry → S → S) (h : Header) (f : File) where
  second_loop-skipped :
      (page_size fuel cnt : ℕ) (r : Stage S × (ℕ → ℕ)) (s : S)
      → r.0 ≡ behind cnt s
      → (h.wrap_pos == 0 || h.wrap_pos == header_size) ≡ true
      → second_loop (always g) h f page_size fuel r ≡ s
  unfolding second_loop
  second_loop-skipped page_size fuel cnt (out s', page) s e t = ap state_of e
  second_loop-skipped page_size fuel cnt (behind cnt' s', page) s e t = rw t (ap state_of e)

  -- In a file of `n` whole records behind the header, that is not wrapped or wrapped at the head,
  -- with at least one record per page, `parse_trace_file` hands each record of the file to a callback
  -- that never stops it, once and in order, however the records fall into pages. The sizes are those
  -- that fit their types.
  pub parse_trace_file-unwrapped :
      (page : ℕ → ℕ) (n : ℕ) (s : S)
      → (h.wrap_pos ≡ 0) ⊎ (h.wrap_pos ≡ header_size)
      → 1 ≤ h.nr_records
      → h.nr_records * 56 < 2 ^ 64
      → f.size ≡ header_size + n * 56
      → f.size < 2 ^ 63
      → parse_trace_file (always g) h f (some page) s ≡ fold_records g f.byte n header_size 0 s
  unfolding parse_trace_file
  parse_trace_file-unwrapped page n s head several fits e small =
      let page_size = u64 (entry_size * h.nr_records) in
      let straight : ltb header_size h.wrap_pos ≡ false = ground (arith, head) in
      let skipped : (h.wrap_pos == 0 || h.wrap_pos == header_size) ≡ true = ground (arith, head) in
      ap
        (λ b. second_loop (always g) h f page_size (f.size + 2) (
          pages (always g) (λ at. false) f page_size (f.size + 2)
            (if b then (h.wrap_pos - header_size) / page_size else 0)
            (if b then (h.wrap_pos - header_size) % page_size else 0) 0 page s))
        straight
      ∙ second_loop-skipped page_size (f.size + 2) (0 + n) _ _
          (pages_all g f page_size (λ at. false) h.nr_records (omega arith) several small
            (λ at p. refl) (f.size + 2) 0 512 0 n 0 page s (omega (arith, e)) (omega arith)
            (omega arith) (inl refl) (omega (arith, e)))
          skipped
