-- ===== src/Parse/Wrapped.antt =====
-- `parse_trace_file`, prbt.c, on a wrapped file.
use rbtrace.Base.{
  ℕ, zero, suc, ◌+◌, ◌-◌, ◌*◌, ◌/◌, ◌%◌, ◌||◌, ◌≤◌, ◌<◌, ◌^◌, ◌≡◌, inl, inr, refl, ap, ap₂, ◌∙◌,
  sym, Bool, true, false, false≢true, ◌==◌, leb, ltb, ltb→lt, ltb→le, u64, some, if◌then◌else◌,
  Bool-cases, arith,
}
use rbtrace.Trace.{Entry, entry_size}
use rbtrace.Disk.{File}
use rbtrace.Header.{Header, header_size}
use rbtrace.Parse.{
  Stage, out, behind, load_trace_page, next_page, page_bytes, page_offset, pages, parse_trace_file,
  second_loop,
}
use rbtrace.Parse.Walk.{always, fold_records, fold_records_add, walk_all, walk_until}
use rbtrace.Parse.Pages.{loaded_same, rest_of_pages, page_step, pages_all}
use rbtrace.Parse.Unwrapped.{state_of}

module _ {S : Type 0} (g : ℕ → Entry → S → S) (f : File) (page_size : ℕ) (done : ℕ → Bool) (nr : ℕ)
    (sized : page_size ≡ nr * 56) (some_records : 1 ≤ nr) (small : f.size < 2 ^ 63) where
  module _ (fuel idx base m n cnt : ℕ) (page : ℕ → ℕ) (s : S) (start : base ≡ 512 + idx * page_size)
      (more : m < n) (e : f.size ≡ base + n * 56)
      (going : (at : ℕ) → at < base + m * 56 → done at ≡ false) where
    abbrev loaded : ℕ → ℕ
    loaded = load_trace_page f page_size idx page

    abbrev Leaves : Type 0
    Leaves =
        (pages (always g) done f page_size (suc fuel) idx 0 cnt page s).0
        ≡ out (fold_records g f.byte m base cnt s)

    here : page_offset page_size idx ≡ base
    here = omega (arith, start, e, small)

    end_page : m < nr → done (base + m * 56) ≡ true → Leaves
    end_page fits stop =
        let amount : m * 56 < page_bytes f page_size idx = omega (arith, here, e, sized) in
        let most : page_bytes f page_size idx ≤ n * 56 = omega (arith, here, e, sized) in
        let base' = page_offset page_size idx in
        ap (λ (r : Stage S × (ℕ → ℕ)). r.0)
          (page_step g f page_size done fuel idx 0 cnt page s
            (out (fold_records g f.byte m (base' + 0) cnt s)) (omega (arith, amount))
            (walk_until g f.byte loaded base' (page_bytes f page_size idx)
              (loaded_same g f page_size done idx page) done (page_bytes f page_size idx) m 0 cnt s
              (omega (arith, amount)) (omega (arith, amount))
              (λ at p. going at (omega (arith, here, p)))
              (ap done {x = base' + (0 + m * 56)} {y = base + m * 56} (omega (arith, here))
                ∙ stop)))
        ∙ ap (λ x. out (fold_records g f.byte m x cnt s)) {x = base' + 0} {y = base}
            (omega (arith, here))

    full_page :
        nr ≤ m
        → ((s' : S)
            → (rest_of_pages g f page_size done fuel idx loaded (cnt + nr) s').0
              ≡ out (fold_records g f.byte (m - nr) (base + page_size) (cnt + nr) s'))
        → Leaves
    full_page full rest =
        let base' = page_offset page_size idx in
        let amount : page_bytes f page_size idx ≡ 0 + nr * 56 = omega (arith, here, e, sized) in
        let whole : ltb (page_bytes f page_size idx) page_size ≡ false =
          ground (arith, amount, sized) in
        let visited = fold_records g f.byte nr (base' + 0) cnt s in
        ap (λ (r : Stage S × (ℕ → ℕ)). r.0)
          (page_step g f page_size done fuel idx 0 cnt page s (behind (cnt + nr) visited)
              (omega (arith, amount))
              (walk_all g f.byte loaded base' (page_bytes f page_size idx)
                (loaded_same g f page_size done idx page) done (page_bytes f page_size idx) nr 0 cnt
                s (omega (arith, amount)) amount
                (λ at p. going at (omega (arith, amount, here, p))))
            ∙ ap
                (λ b.
                  next_page (always g) done (rest_of_pages g f page_size done fuel idx loaded) b
                    loaded (behind (cnt + nr) visited))
                whole)
        ∙ rest visited
        ∙ ap₂
            (λ x y.
              out (fold_records g f.byte (m - nr) y (cnt + nr) (fold_records g f.byte nr x cnt s)))
            {x = base' + 0} {y = base} {u = base + page_size} {v = base + nr * 56}
            (omega (arith, here)) (omega (arith, sized))
        ∙ ap out (fold_records_add g f.byte nr (m - nr) base cnt s)
        ∙ ap (λ k. out (fold_records g f.byte k base cnt s)) {x = nr + (m - nr)} {y = m}
            (omega arith)

  -- From a page on, the loop visits the `m` records before the place where `done` says so.
  pages_until :
      (fuel idx base m n cnt : ℕ) (page : ℕ → ℕ) (s : S)
      → m < fuel
      → base ≡ 512 + idx * page_size
      → m < n
      → f.size ≡ base + n * 56
      → ((at : ℕ) → at < base + m * 56 → done at ≡ false)
      → done (base + m * 56) ≡ true
      → (pages (always g) done f page_size fuel idx 0 cnt page s).0
        ≡ out (fold_records g f.byte m base cnt s)
  pages_until zero idx base m n cnt page s h start more e going stop = absurd (omega arith)
  pages_until (suc fuel) idx base m n cnt page s h start more e going stop =
      elim (Bool-cases (ltb m nr)) [
        | inl fits ↦
            end_page fuel idx base m n cnt page s start more e going (ltb→lt m nr fits) stop
        | inr full ↦
            let over : nr ≤ m = ltb→le m nr full in
            full_page fuel idx base m n cnt page s start more e going over λ s'.
              pages_until fuel (idx + 1) (base + page_size) (m - nr) (n - nr) (cnt + nr)
                (load_trace_page f page_size idx page) s' (omega arith) (omega (arith, start))
                (omega arith) (omega (arith, e, sized)) (λ at p. going at (omega (arith, p, sized)))
                (ap done {x = base + page_size + (m - nr) * 56} {y = base + m * 56}
                    (omega (arith, sized))
                  ∙ stop)
      ]

-- The first loop on a wrapped file: it starts in the page of the wrap position.
first_loop :
    {S : Type 0} (g : ℕ → Entry → S → S) (f : File) (page_size nr x m n : ℕ) (page : ℕ → ℕ) (s : S)
    → page_size ≡ nr * 56
    → 1 ≤ nr
    → x ≡ m * 56
    → m < n
    → f.size ≡ header_size + n * 56
    → f.size < 2 ^ 63
    → (pages
        (always g)
        (λ at. false)
        f
        page_size
        (f.size + 2)
        (x / page_size)
        (x % page_size)
        0
        page
        s).0
      ≡ behind (0 + (n - m)) (fold_records g f.byte (n - m) (header_size + x) 0 s)
first_loop g f page_size nr x m n page s sized several at inside e small =
    let q = x / page_size in
    let r = x % page_size in
    let parts : q * page_size + r ≡ x = omega (arith, sized, several) in
    let scaled : q * page_size ≡ q * nr * 56 = ap (λ p. q * p) sized ∙ omega arith in
    let within : r < page_size = omega (arith, sized, several) in
    let k = m - q * nr in
    let off : k * 56 ≡ r = omega (arith, parts, scaled, at) in
    ap (λ o. (pages (always g) (λ at. false) f page_size (f.size + 2) q o 0 page s).0) (sym off)
    ∙ pages_all g f page_size (λ at. false) nr sized several small (λ at p. refl) (f.size + 2) q
        (header_size + q * page_size) k (n - m) 0 page s (omega (arith, e)) refl
        (omega (arith, off, within, sized)) (inr (omega (arith, inside)))
        (omega (arith, parts, off, at, e, inside))
    ∙ ap (λ y. behind (0 + (n - m)) (fold_records g f.byte (n - m) y 0 s))
        {x = header_size + q * page_size + k * 56} {y = header_size + x} (omega (arith, parts, off))

abbrev count_of : {S : Type 0} → Stage S → ℕ
count_of (out s) = 0
count_of (behind cnt s) = cnt

abbrev is_out : {S : Type 0} → Stage S → Bool
is_out (out s) = true
is_out (behind cnt s) = false

module _ {S : Type 0} (g : ℕ → Entry → S → S) (h : Header) (f : File) where
  second_loop-taken :
      (page_size fuel cnt : ℕ) (r : Stage S × (ℕ → ℕ)) (s t : S)
      → r.0 ≡ behind cnt s
      → (h.wrap_pos == 0 || h.wrap_pos == header_size) ≡ false
      → ((page : ℕ → ℕ)
          → (pages (always g) (λ at. leb h.wrap_pos at) f page_size fuel 0 0 cnt page s).0 ≡ out t)
      → second_loop (always g) h f page_size fuel r ≡ t
  unfolding second_loop
  second_loop-taken page_size fuel cnt (out s', page) s t e w more =
      absurd (false≢true (sym (ap is_out e)))
  second_loop-taken page_size fuel cnt (behind cnt' s', page) s t e w more =
      rw (w, ap count_of e, ap state_of e, more page) refl

  -- In a file of `n` whole records behind the header, with the wrap position at record `m` of it,
  -- neither the first nor past the last, and with at least one record per page, `parse_trace_file`
  -- hands the records from the wrap position
  -- to the end of the file, and then those before it, to a callback that never stops it, each once
  -- and in order, however the records fall into such pages. The sizes are those that fit their types.
  pub parse_trace_file-wrapped :
      (page : ℕ → ℕ) (m n : ℕ) (s : S)
      → h.wrap_pos ≡ header_size + m * 56
      → 1 ≤ m
      → m < n
      → 1 ≤ h.nr_records
      → h.nr_records * 56 < 2 ^ 64
      → f.size ≡ header_size + n * 56
      → f.size < 2 ^ 63
      → parse_trace_file (always g) h f (some page) s
        ≡ fold_records g f.byte m header_size (n - m) (fold_records g f.byte (n - m) h.wrap_pos 0 s)
  unfolding parse_trace_file
  parse_trace_file-wrapped page m n s at later inside several fits e small =
      let page_size = u64 (entry_size * h.nr_records) in
      let sized : page_size ≡ h.nr_records * 56 = omega (arith, fits) in
      let idx = (h.wrap_pos - header_size) / page_size in
      let wrapped : ltb header_size h.wrap_pos ≡ true = ground (arith, at) in
      let taken : (h.wrap_pos == 0 || h.wrap_pos == header_size) ≡ false = ground (arith, at) in
      let first = fold_records g f.byte (n - m) h.wrap_pos 0 s in
      ap
        (λ b. second_loop (always g) h f page_size (f.size + 2) (
          pages (always g) (λ at. false) f page_size (f.size + 2) (if b then idx else 0)
            (if b then (h.wrap_pos - header_size) % page_size else 0) 0 page s))
        wrapped
      ∙ second_loop-taken page_size (f.size + 2) (0 + (n - m)) _ first _
          (first_loop g f page_size h.nr_records (h.wrap_pos - header_size) m n page s sized several
              (omega (arith, at)) inside e small
            ∙ ap (λ x. behind (0 + (n - m)) (fold_records g f.byte (n - m) x 0 s))
                {x = header_size + (h.wrap_pos - header_size)} {y = h.wrap_pos} (omega (arith, at)))
          taken
          (λ page'.
            pages_until g f page_size (λ at. leb h.wrap_pos at) h.nr_records sized several small
              (f.size + 2) 0 512 m n (0 + (n - m)) page' first (omega (arith, e)) (omega arith)
              inside e (λ x p. ground (arith, at)) (ground (arith, at)))
      ∙ ap (λ c. fold_records g f.byte m header_size c first) {x = 0 + (n - m)} {y = n - m}
          (omega arith)
