-- ===== src/Parse/Pages.antt =====
-- The pages of a trace file, prbt.c, one after another.
use rbtrace.Base.{
  ℕ, zero, suc, ◌+◌, ◌-◌, ◌*◌, ◌≤◌, ◌<◌, ◌^◌, ◌≡◌, ◌⊎◌, inl, inr, refl, ap, ap₂, ◌∙◌, Bool, true,
  false, ◌==◌, leb, ltb, lt→ltb, ltb→lt, ltb→le, if◌then◌else◌, Bool-cases, arith,
}
use rbtrace.Trace.{Entry}
use rbtrace.Disk.{File}
use rbtrace.Parse.{
  Stage, out, behind, load_trace_page, next_page, page_bytes, page_offset, pages, walk,
}
use rbtrace.Parse.Walk.{always, fold_records, fold_records_add, walk_all}

module _ {S : Type 0} (g : ℕ → Entry → S → S) (f : File) (page_size : ℕ) (done : ℕ → Bool) where
  abbrev pub from : ℕ → ℕ
  from idx = page_offset page_size idx

  abbrev pub there : ℕ → ℕ
  there idx = page_bytes f page_size idx

  pub loaded_same :
      (idx : ℕ) (page : ℕ → ℕ) (j : ℕ)
      → j < there idx
      → load_trace_page f page_size idx page j ≡ f.byte (from idx + j)
  loaded_same idx page j p =
      ap (λ b. if b then f.byte (from idx + j) else page j) (lt→ltb j (there idx) p)

  abbrev pub rest_of_pages : ℕ → ℕ → (ℕ → ℕ) → ℕ → S → Stage S × (ℕ → ℕ)
  rest_of_pages fuel idx loaded cnt s =
      pages (always g) done f page_size fuel (idx + 1) 0 cnt loaded s

  -- A page with records left in it, which the inner loop leaves as `r` says.
  pub page_step :
      (fuel idx off cnt : ℕ) (page : ℕ → ℕ) (s : S) (r : Stage S)
      → off < there idx
      → walk
          (always g)
          done
          (there idx)
          (load_trace_page f page_size idx page)
          (there idx)
          (from idx)
          off
          cnt
          s
        ≡ r
      → pages (always g) done f page_size (suc fuel) idx off cnt page s
        ≡ next_page
            (always g)
            done
            (rest_of_pages fuel idx (load_trace_page f page_size idx page))
            (ltb (there idx) page_size)
            (load_trace_page f page_size idx page)
            r
  unfolding pages
  page_step fuel idx off cnt page s r h visited =
      let loaded = load_trace_page f page_size idx page in
      let more : (there idx == 0) ≡ false = ground arith in
      let within : leb (there idx) off ≡ false = ground arith in
      let inner = walk (always g) done (there idx) loaded (there idx) (from idx) off cnt s in
      ap
        (λ b.
          if b
          then (behind cnt s, page)
          else if leb (there idx) off
          then (out s, loaded)
          else next_page (always g) done (rest_of_pages fuel idx loaded) (ltb (there idx) page_size)
              loaded inner)
        more
      ∙ ap
          (λ b.
            if b
            then (out s, loaded)
            else next_page (always g) done (rest_of_pages fuel idx loaded)
                (ltb (there idx) page_size) loaded inner)
          within
      ∙ ap
          (next_page (always g) done (rest_of_pages fuel idx loaded) (ltb (there idx) page_size)
            loaded)
          visited

  module _ (nr : ℕ) (sized : page_size ≡ nr * 56) (some_records : 1 ≤ nr) (small : f.size < 2 ^ 63)
      (going : (at : ℕ) → at < f.size → done at ≡ false) where
    module _ (fuel idx base k n cnt : ℕ) (page : ℕ → ℕ) (s : S)
        (start : base ≡ 512 + idx * page_size) (inside : k < nr)
        (e : f.size ≡ base + k * 56 + suc n * 56) where
      abbrev loaded : ℕ → ℕ
      loaded = load_trace_page f page_size idx page

      -- What the loop must do.
      abbrev Visits : Type 0
      Visits =
          (pages (always g) done f page_size (suc fuel) idx (k * 56) cnt page s).0
          ≡ behind (cnt + suc n) (fold_records g f.byte (suc n) (base + k * 56) cnt s)

      here : from idx ≡ base
      here = omega (arith, start, e, small)

      last_page : k + suc n < nr → Visits
      last_page fits =
          let amount : there idx ≡ k * 56 + suc n * 56 = omega (arith, here, e, sized) in
          let short : ltb (there idx) page_size ≡ true = ground (arith, amount, sized) in
          let reached =
            behind (cnt + suc n) (fold_records g f.byte (suc n) (from idx + k * 56) cnt s) in
          ap (λ (r : Stage S × (ℕ → ℕ)). r.0)
            (page_step fuel idx (k * 56) cnt page s reached (omega (arith, amount)) (
                walk_all g f.byte loaded (from idx) (there idx) (loaded_same idx page) done
                  (there idx) (suc n) (k * 56) cnt s (omega (arith, amount)) amount
                  (λ at p. going at (omega (arith, amount, here, e, p))))
              ∙ ap (λ b. next_page (always g) done (rest_of_pages fuel idx loaded) b loaded reached)
                  short)
          ∙ ap (λ b. behind (cnt + suc n) (fold_records g f.byte (suc n) (b + k * 56) cnt s)) here

      -- How many records the page has from `k` on, and how many stand behind it.
      abbrev a : ℕ
      a = nr - k

      abbrev b : ℕ
      b = k + suc n - nr

      whole_page :
          nr ≤ k + suc n
          → ((s' : S)
              → (rest_of_pages fuel idx loaded (cnt + a) s').0
                ≡ behind (cnt + a + b) (fold_records g f.byte b (base + page_size) (cnt + a) s'))
          → Visits
      whole_page full more =
          let amount : there idx ≡ k * 56 + a * 56 = omega (arith, here, e, sized) in
          let whole : ltb (there idx) page_size ≡ false = ground (arith, amount, sized) in
          let visited = fold_records g f.byte a (from idx + k * 56) cnt s in
          ap (λ (r : Stage S × (ℕ → ℕ)). r.0)
            (page_step fuel idx (k * 56) cnt page s (behind (cnt + a) visited)
                (omega (arith, amount))
                (walk_all g f.byte loaded (from idx) (there idx) (loaded_same idx page) done
                  (there idx) a (k * 56) cnt s (omega (arith, amount)) amount
                  (λ at p. going at (omega (arith, amount, here, e, p, sized))))
              ∙ ap
                  (λ b.
                    next_page (always g) done (rest_of_pages fuel idx loaded) b loaded
                      (behind (cnt + a) visited))
                  whole)
          ∙ more visited
          ∙ ap
              (λ x. behind (cnt + a + b) (
                fold_records g f.byte b (base + page_size) (cnt + a)
                  (fold_records g f.byte a (x + k * 56) cnt s)))
              here
          ∙ ap
              (λ x. behind (cnt + a + b) (
                fold_records g f.byte b x (cnt + a)
                  (fold_records g f.byte a (base + k * 56) cnt s)))
              {x = base + page_size} {y = base + k * 56 + a * 56} (omega (arith, sized))
          ∙ ap (behind (cnt + a + b)) (fold_records_add g f.byte a b (base + k * 56) cnt s)
          ∙ ap₂ (λ c m. behind c (fold_records g f.byte m (base + k * 56) cnt s)) {x = cnt + a + b}
              {y = cnt + suc n} {u = a + b} {v = suc n} (omega arith) (omega arith)

    -- From record `k` of page `idx` on, the loop visits the records up to the end of the file.
    pub pages_all :
        (fuel idx base k n cnt : ℕ) (page : ℕ → ℕ) (s : S)
        → n < fuel
        → base ≡ 512 + idx * page_size
        → k < nr
        → (k ≡ 0) ⊎ (1 ≤ n)
        → f.size ≡ base + k * 56 + n * 56
        → (pages (always g) done f page_size fuel idx (k * 56) cnt page s).0
          ≡ behind (cnt + n) (fold_records g f.byte n (base + k * 56) cnt s)
    unfolding pages
    pages_all zero idx base k n cnt page s h start inside left e = absurd (omega arith)
    pages_all (suc fuel) idx base k zero cnt page s h start inside left e =
        let here : from idx ≡ base = omega (arith, start, e, small) in
        let none_left : (there idx == 0) ≡ true = ground (arith, here, e, left) in
        rw none_left (ap (λ c. behind c s) {x = cnt} {y = cnt + 0} (omega arith))
    pages_all (suc fuel) idx base k (suc n) cnt page s h start inside left e =
        elim (Bool-cases (ltb (k + suc n) nr)) [
          | inl fits ↦
              last_page fuel idx base k n cnt page s start inside e (ltb→lt (k + suc n) nr fits)
          | inr full ↦
              let over : nr ≤ k + suc n = ltb→le (k + suc n) nr full in
              whole_page fuel idx base k n cnt page s start inside e over λ s'.
                pages_all fuel (idx + 1) (base + page_size) 0 (k + suc n - nr) (cnt + (nr - k))
                  (load_trace_page f page_size idx page) s' (omega arith) (omega (arith, start))
                  (omega arith) (inl refl) (omega (arith, e, sized))
                ∙ ap
                    (λ x.
                      behind (cnt + (nr - k) + (k + suc n - nr))
                        (fold_records g f.byte (k + suc n - nr) x (cnt + (nr - k)) s'))
                    {x = base + page_size + 0 * 56} {y = base + page_size} (omega arith)
        ]
