-- ===== src/Parse/Printed.antt =====
-- A batch of the ring, from the memory through the file to the callback of the printing tool.
use rbtrace.Base.{
  ℕ, zero, suc, ◌+◌, ◌*◌, ◌≤◌, ◌<◌, ◌^◌, ◌≡◌, ◌≢◌, refl, ap, ◌∙◌, sym, Bool, ◌⊎◌, false, List, [],
  ◌∷◌, Option, none, some, block, ◌==◌, if◌then◌else◌, arith,
}
use rbtrace.Trace.{Entry, RingConfig, entry_size}
use rbtrace.Header.{Clock, Header, header_size}
use rbtrace.Wire.{entry_at, Fits}
use rbtrace.Ring.{Stamps}
use rbtrace.Ring.Spec.{IsValid, contents}
use rbtrace.Backing.{is_wrapping, positioned, wrap_around, write_data}
use rbtrace.Backing.State.{Daemon, running, file_at}
use rbtrace.Backing.Calls.{IsGood}
use rbtrace.Backing.Deliver.{write_data-Delivered}
use rbtrace.Parse.{parse_trace_file}
use rbtrace.Parse.Unwrapped.{parse_trace_file-unwrapped}
use rbtrace.Parse.Walk.{always, entry_at_ext, fold_records, fold_records_add}

-- The effect `g` on each record of a list, in order.
abbrev pub fold_list : {S : Type 0} → (ℕ → Entry → S → S) → List Entry → ℕ → S → S
fold_list g [] cnt s = s
fold_list g (e ∷ es) cnt s = fold_list g es (cnt + 1) (g cnt e s)

-- What is done with a batch that waits.
abbrev pub fold_batch : {S : Type 0} → (ℕ → Entry → S → S) → Option (List Entry) → ℕ → S → S
fold_batch g none cnt s = s
fold_batch g (some es) cnt s = fold_list g es cnt s

fold_records-block :
    {S : Type 0} (g : ℕ → Entry → S → S) (m : ℕ → ℕ) (mem : ℕ → Entry) (n at off cnt : ℕ) (s : S)
    → ((j : ℕ) → j < n → entry_at m (at + j * 56) ≡ mem (off + j))
    → fold_records g m n at cnt s ≡ fold_list g (block mem off n) cnt s
fold_records-block g m mem zero at off cnt s same = refl
fold_records-block g m mem (suc n) at off cnt s same =
    ap (λ e. fold_records g m n (at + 56) (cnt + 1) (g cnt e s))
      (ap (entry_at m) {x = at} {y = at + 0 * 56} (omega arith)
        ∙ same 0 (omega arith)
        ∙ ap mem {x = off + 0} {y = off} (omega arith))
    ∙ fold_records-block g m mem n (at + 56) (off + 1) (cnt + 1) (g cnt (mem off) s) λ j p.
      ap (entry_at m) {x = at + 56 + j * 56} {y = at + suc j * 56} (omega arith)
      ∙ same (suc j) (omega arith)
      ∙ ap mem {x = off + suc j} {y = off + 1 + j} (omega arith)

-- The same bytes hold the same records.
fold_records_ext :
    {S : Type 0} (g : ℕ → Entry → S → S) (m m' : ℕ → ℕ) (n at cnt : ℕ) (s : S)
    → ((i : ℕ) → at ≤ i → i < at + n * 56 → m i ≡ m' i)
    → fold_records g m n at cnt s ≡ fold_records g m' n at cnt s
fold_records_ext g m m' zero at cnt s same = refl
fold_records_ext g m m' (suc n) at cnt s same =
    ap (λ e. fold_records g m n (at + 56) (cnt + 1) (g cnt e s))
      (entry_at_ext m m' at at λ i p. same (at + i) (omega arith) (omega arith))
    ∙ fold_records_ext g m m' n (at + 56) (cnt + 1) (g cnt (entry_at m' at) s)
        λ i p q. same i (omega arith) (omega arith)

-- Let the daemon's file hold `k` whole records behind the header, to the end of which its offset
-- points, and not be wrapped; let `rbtrace_write_data` write the batch that waits there, below the
-- limit of the file size, with no call failing. Then `parse_trace_file` hands a callback that never
-- stops it the records of the file as it was, and then those of the batch in the order in which they
-- were traced, if their fields fit their widths: by a header of the file that has at least one
-- record per page and no wrap position or the one at the head, where the sizes fit their types.
pub write_data-printed :
    {S : Type 0} (g : ℕ → Entry → S → S) (s : S) (h : Header) (page : ℕ → ℕ) (k : ℕ)
    (cfg : RingConfig) (t : Clock) (ts : Stamps) (path : List ℕ) (d : Daemon)
    → cfg.data_size ≡ cfg.size * entry_size
    → IsValid cfg d.shm
    → d.shm.info.flush ≢ 0
    → ((j : ℕ) → j < cfg.size → Fits (d.shm.mem (d.shm.info.alt_off + j)))
    → d.fd ≡ some path
    → IsGood d.os
    → is_wrapping d ≡ false
    → (file_at path d.os).size ≡ header_size + k * 56
    → d.seek ≡ header_size + k * 56
    → d.seek + cfg.data_size < d.shm.fsize
    → d.shm.fsize < 2 ^ 63
    → (h.wrap_pos ≡ 0) ⊎ (h.wrap_pos ≡ header_size)
    → 1 ≤ h.nr_records
    → h.nr_records * 56 < 2 ^ 64
    → (d' : Daemon) × (write_data cfg t ts false d ≡ running d')
      × (parse_trace_file (always g) h (file_at path d'.os) (some page) s
          ≡ fold_batch g
              (contents cfg d.shm).pending
              k
              (parse_trace_file (always g) h (file_at path d.os) (some page) s))
write_data-printed g s h page k cfg t ts path d sized v waits fit opened good plain whole at below
      small head several fits =
    let n = cfg.size in
    let from = (positioned cfg.data_size d).seek in
    let here : from ≡ header_size + k * 56 =
      ap (λ (b : Bool). (if b then wrap_around cfg.data_size d else d).seek) plain ∙ at in
    let r =
      write_data-Delivered cfg t ts path d sized v opened good (omega (arith, here))
        (omega (arith, here, below, at)) (omega (arith, small)) in
    let m' = (file_at path r.state.os).byte in
    let m = (file_at path d.os).byte in
    let full : (d.shm.info.flush == 0) ≡ false = ground arith in
    let batch = block d.shm.mem d.shm.info.alt_off n in
    let longer : (file_at path r.state.os).size ≡ header_size + (k + n) * 56 =
      omega (arith, r.long plain (here ∙ sym whole), here, sized) in
    (
      r.state,
      r.runs,
      parse_trace_file-unwrapped g h (file_at path r.state.os) page (k + n) s head several fits
            longer (omega (arith, longer, small, below, at, sized))
          ∙ sym (fold_records_add g m' k n header_size 0 s)
          ∙ ap (fold_records g m' n (header_size + k * 56) (0 + k)) (
              fold_records_ext g m' m k header_size 0 s
                (λ i p q. r.earlier i p (omega (arith, whole, q)) (omega (arith, here, q))))
          ∙ fold_records-block g m' d.shm.mem n (header_size + k * 56) d.shm.info.alt_off (0 + k)
              (fold_records g m k header_size 0 s)
              (λ j p. ap (λ x. entry_at m' (x + j * 56)) (sym here) ∙ r.records j p (fit j p))
          ∙ ap
              (λ b.
                fold_batch g (if b then none else some batch) (0 + k)
                  (fold_records g m k header_size 0 s))
              (sym full)
          ∙ ap
              (λ c.
                fold_batch g (contents cfg d.shm).pending c (fold_records g m k header_size 0 s))
              {x = 0 + k} {y = k} (omega arith)
          ∙ ap (fold_batch g (contents cfg d.shm).pending k) (
              sym (
                parse_trace_file-unwrapped g h (file_at path d.os) page k s head several fits whole
                  (omega (arith, whole, small, below, at)))),
    )
