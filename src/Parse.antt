-- ===== src/Parse.antt =====
-- The printing tool's walk through a trace file, prbt.c: `load_trace_page`, `parse_trace_file`, and
-- the test of the header in `parse_trace_header`. A `pread` of the file does not fail.
pub mod Walk
pub mod Pages
pub mod Unwrapped
pub mod Accepted
pub mod Printed
pub mod Wrapped
use rbtrace.Base.{
  ℕ, zero, suc, ◌+◌, ◌-◌, ◌*◌, ◌/◌, ◌%◌, Bool, true, false, not, ◌&&◌, ◌||◌, Option, none, some,
  leb, ltb, ◌==◌, if◌then◌else◌, min, u64, List, [], ◌∷◌,
}
use rbtrace.Text.{header_magic}
use rbtrace.Trace.{Entry, entry_size}
use rbtrace.Disk.{File}
use rbtrace.Header.{Header, header_size, version_major, version_minor}
use rbtrace.Wire.{entry_at}
use rbtrace.Backing.State.{path_eq}

-- `parse_trace_header` accepts the header: its magic is right and its version is not newer.
unfoldable pub accepts_header : Header → Bool
accepts_header h =
    path_eq h.magic header_magic
    && not (ltb version_major h.major || (h.major == version_major && ltb version_minor h.minor))

-- The offset of a page in the file.
abbrev pub page_offset : ℕ → ℕ → ℕ
page_offset page_size idx = u64 (header_size + idx * page_size)

-- What `load_trace_page` returns: how much of the page is in the file.
abbrev pub page_bytes : File → ℕ → ℕ → ℕ
page_bytes f page_size idx = min page_size (f.size - page_offset page_size idx)

-- The page in memory after `load_trace_page`: past the end of the file it is as it was.
abbrev pub load_trace_page : File → ℕ → ℕ → (ℕ → ℕ) → ℕ → ℕ
load_trace_page f page_size idx page j =
    if ltb j (page_bytes f page_size idx) then f.byte (page_offset page_size idx + j) else page j

-- How a loop over records ends: at `out`, or behind the loop with the count of records.
pub data Stage (S : Type 0) : Type 0 where
  out : S → Stage S
  behind : ℕ → S → Stage S

-- The walk with the callback `fn`, whose result says whether to stop, and the test `done` of the
-- offset in the file.
module _ {S : Type 0} (fn : ℕ → Entry → S → Bool × S) (done : ℕ → Bool) where
  -- The inner loop, on the records of a page of `n` bytes from file offset `base`, from `off` on.
  unfoldable pub walk : ℕ → (ℕ → ℕ) → ℕ → ℕ → ℕ → ℕ → S → Stage S
  walk zero page n base off cnt s = behind cnt s
  walk (suc fuel) page n base off cnt s =
      let r = fn cnt (entry_at page off) s in
      let rest = walk fuel page n base (off + entry_size) (cnt + 1) r.1 in
      if not (ltb off n)
      then behind cnt s
      else if done (base + off)
      then out s
      else if r.0
      then out r.1
      else rest

  -- Behind the inner loop: on to the next page, if this one was whole.
  abbrev pub next_page : (ℕ → S → Stage S × (ℕ → ℕ)) → Bool → (ℕ → ℕ) → Stage S → Stage S × (ℕ → ℕ)
  next_page more short page (out s) = (out s, page)
  next_page more short page (behind cnt s) = elim short [
    | true ↦ (behind cnt s, page)
    | false ↦ more cnt s
  ]

  -- The outer loop over the pages, from page `idx` on.
  unfoldable pub pages : File → ℕ → ℕ → ℕ → ℕ → ℕ → (ℕ → ℕ) → S → Stage S × (ℕ → ℕ)
  unfolding walk
  pages f page_size zero idx off cnt page s = (out s, page)
  pages f page_size (suc fuel) idx off cnt page s =
      let n = page_bytes f page_size idx in
      let loaded = load_trace_page f page_size idx page in
      if n == 0
      then (behind cnt s, page)
      else if leb n off
      then (out s, loaded)
      else next_page (λ cnt' s'. pages f page_size fuel (idx + 1) 0 cnt' loaded s')
          (ltb n page_size) loaded (walk n loaded n (page_offset page_size idx) off cnt s)

module _ {S : Type 0} (fn : ℕ → Entry → S → Bool × S) where
  -- The part behind the first loop: the rest of the records of a wrapped file.
  unfoldable pub second_loop : Header → File → ℕ → ℕ → Stage S × (ℕ → ℕ) → S
  unfolding pages
  second_loop h f page_size fuel (out s, page) = s
  second_loop h f page_size fuel (behind cnt s, page) =
      if h.wrap_pos == 0 || h.wrap_pos == header_size
      then s
      else elim (pages fn (λ at. leb h.wrap_pos at) f page_size fuel 0 0 cnt page s).0 [
        | out s' ↦ s'
        | behind cnt' s' ↦ s'
      ]

  -- `parse_trace_file`; `none` is a failed `malloc` of the page.
  unfoldable pub parse_trace_file : Header → File → Option (ℕ → ℕ) → S → S
  unfolding second_loop
  parse_trace_file h f none s = s
  parse_trace_file h f (some page) s =
      let page_size = u64 (entry_size * h.nr_records) in
      let fuel = f.size + 2 in
      let wrapped = ltb header_size h.wrap_pos in
      let idx = if wrapped then (h.wrap_pos - header_size) / page_size else 0 in
      let off = if wrapped then (h.wrap_pos - header_size) % page_size else 0 in
      second_loop h f page_size fuel (pages fn (λ at. false) f page_size fuel idx off 0 page s)
