-- ===== src/Backing/Deliver.antt =====
-- `rbtrace_write_data`, rbtrace_backing.c, with a full batch that waits.
use rbtrace.Base.{
  ℕ, ◌+◌, ◌-◌, ◌*◌, ◌/◌, ◌%◌, ◌^◌, ◌≤◌, ◌<◌, ◌≡◌, refl, ap, ap₂, ◌∙◌, Bool, true, false, not, ◌||◌,
  none, some, List, leb, ◌==◌, if◌then◌else◌, inl, u64, block_ext, sign_extend, arith,
}
use rbtrace.Trace.{Entry, RingConfig, entry_size}
use rbtrace.Header.{Clock, header_size}
use rbtrace.Wire.{entry_at, entry_byte, record_bytes, Fits}
use rbtrace.Wire.Roundtrip.{entry_at_lem}
use rbtrace.Ring.{Stamps, trace, lost_args}
use rbtrace.Ring.State.{Shm}
use rbtrace.Ring.Spec.{Batches, IsValid, contents, count, push}
use rbtrace.Ring.Refine.{trace-push}
use rbtrace.Backing.{
  clear_records, is_wrapping, lost_total, many_flushes, positioned, report_lost, reset_counters,
  write_buffer, write_data,
}
use rbtrace.Backing.State.{Os, Daemon, Outcome, running, segfault, file_at, on_fd}
use rbtrace.Backing.Calls.{IsGood, shm-positioned}
use rbtrace.Backing.Settled.{Appended, write_buffer_settled}

-- The bytes of records that lie at `at` in a file read back as the records.
entry_at-appended :
    (mem : ℕ → Entry) (base j at : ℕ) (m : ℕ → ℕ)
    → ((i : ℕ) → i < 56 → m (at + i) ≡ record_bytes mem base (j * 56 + i))
    → Fits (mem (base + j))
    → entry_at m at ≡ mem (base + j)
unfolding record_bytes
entry_at-appended mem base j at m same f = entry_at_lem (mem (base + j)) f m at λ i p.
    same i p
    ∙ ap₂ (λ q r. entry_byte (mem (base + q)) r) {x = (j * 56 + i) / 56} {y = j}
        {u = (j * 56 + i) % 56} {v = i} (omega arith) (omega arith)

module _ (cfg : RingConfig) (sized : cfg.data_size ≡ cfg.size * entry_size) (s : Shm)
    (v : IsValid cfg s) where
  abbrev freed : Shm
  freed = reset_counters (clear_records s.info.alt_off cfg.data_size s)

  freed-IsValid : IsValid cfg freed
  freed-IsValid = record {
    large = v.large;
    small = v.small;
    halves = v.halves;
    filled_in = v.filled_in;
    slot_in = v.slot_in;
    flush_in = omega arith;
    lost_in = omega arith;
  }

  abbrev kept : Batches
  kept = record { current = (contents cfg s).current; pending = none; dropped = 0 }

  contents-freed : contents cfg freed ≡ kept
  contents-freed =
      ap (λ c. record { current = c; pending = none; dropped = 0 })
        (block_ext freed.mem s.mem s.info.cir_off (count s) (λ j p q. ground (arith, v)))

-- What the daemon must have done with a batch that waits: the file at `path` holds its records
-- from the offset `from` on, and what stood there before that is as it was; the ring has the batch
-- being filled, with the report of lost traces behind it if there are any, and no batch waits.
pub record Delivered (cfg : RingConfig) (ts : Stamps) (path : List ℕ) (from : ℕ) (d : Daemon)
    (o : Outcome) : Type 0 where
  pub state : Daemon
  pub runs : o ≡ running state
  pub records :
      (j : ℕ)
      → j < cfg.size
      → Fits (d.shm.mem (d.shm.info.alt_off + j))
      → entry_at (file_at path state.os).byte (from + j * entry_size)
        ≡ d.shm.mem (d.shm.info.alt_off + j)
  pub earlier :
      (i : ℕ)
      → header_size ≤ i
      → i < (file_at path d.os).size
      → i < from
      → (file_at path state.os).byte i ≡ (file_at path d.os).byte i
  pub long :
      is_wrapping d ≡ false
      → from ≡ (file_at path d.os).size
      → (file_at path state.os).size ≡ from + cfg.data_size
  pub offset : state.seek ≡ from + cfg.data_size
  pub batches : contents cfg state.shm ≡ (
      if many_flushes d.shm || not (d.shm.info.lost == 0)
      then push cfg.size ts
          (lost_args (sign_extend (lost_total cfg d.shm)))
          0
          (record { current = (contents cfg d.shm).current; pending = none; dropped = 0 })
      else (record { current = (contents cfg d.shm).current; pending = none; dropped = 0 }))
  pub valid : IsValid cfg state.shm

-- The ring after the report.
record Reported (cfg : RingConfig) (b : Batches) (d d' : Daemon) : Type 0 where
  batches : contents cfg d'.shm ≡ b
  valid : IsValid cfg d'.shm
  seek : d'.seek ≡ d.seek
  os : d'.os ≡ d.os

module _ (cfg : RingConfig) (sized : cfg.data_size ≡ cfg.size * entry_size) (ts : Stamps) (s : Shm)
    (v : IsValid cfg s) (d : Daemon) where
  abbrev emptied : Daemon
  emptied = record d { shm = clear_records s.info.alt_off cfg.data_size s }

  abbrev told : Batches
  told = push cfg.size ts (lost_args (sign_extend (lost_total cfg s))) 0 (kept cfg sized s v)

  Reported-by :
      (b : Bool)
      → let d1 = record emptied { total_buffers = u64 (d.total_buffers + 1) } in
        Reported cfg (if b then told else kept cfg sized s v) emptied (
          if b
          then (record d1 {
            shm =
                (trace cfg ts (lost_args (sign_extend (lost_total cfg s))) (freed cfg sized s v)).1;
          })
          else (record d1 { shm = freed cfg sized s v }))
  Reported-by false = record {
    batches = contents-freed cfg sized s v;
    valid = freed-IsValid cfg sized s v;
    seek = refl;
    os = refl;
  }
  Reported-by true =
      let c = lost_args (sign_extend (lost_total cfg s)) in
      let (_, same, ok) =
        trace-push {cfg = cfg} ts c {s = freed cfg sized s v} (freed-IsValid cfg sized s v)
          (omega arith) in
      record {
        batches = same ∙ ap (push cfg.size ts c 0) (contents-freed cfg sized s v);
        valid = ok;
        seek = refl;
        os = refl;
      }

  report_lost-Reported :
      Reported cfg
        (if many_flushes s || not (s.info.lost == 0) then told else kept cfg sized s v)
        emptied
        (report_lost cfg ts emptied)
  unfolding report_lost
  report_lost-Reported = Reported-by (many_flushes s || not (s.info.lost == 0))

-- If the file is open at `path`, no call fails, and the batch that waits ends below the limit of the
-- file size, `rbtrace_write_data` puts the records of the batch that waits into the file behind the
-- header, at the offset, or at the wrap position if the file has wrapped, so that those whose
-- fields fit read back; leaves what stood before them, and nothing behind
-- them where they go to the end of a file that is not wrapped; moves the offset past them; frees the memory
-- of the batch; and logs the traces lost meanwhile, if any, into the batch being filled. The ring
-- is well formed before and after.
pub write_data-Delivered :
    (cfg : RingConfig) (t : Clock) (ts : Stamps) (path : List ℕ) (d : Daemon)
    → cfg.data_size ≡ cfg.size * entry_size
    → IsValid cfg d.shm
    → d.fd ≡ some path
    → IsGood d.os
    → header_size ≤ (positioned cfg.data_size d).seek
    → (positioned cfg.data_size d).seek + cfg.data_size < d.shm.fsize
    → d.shm.fsize < 2 ^ 64
    → Delivered cfg ts path (positioned cfg.data_size d).seek d (write_data cfg t ts false d)
unfolding write_data
write_data-Delivered cfg t ts path d sized v opened g low below fits =
    let from = (positioned cfg.data_size d).seek in
    let under : leb d.shm.fsize (u64 (from + cfg.data_size)) ≡ false = ground arith in
    let (os, wrote, good, app) = write_buffer_settled cfg t false path d opened g under in
    let d1 = moved os in
    let e : write_buffer cfg t false path d ≡ emptied cfg sized ts d.shm v d1 =
      wrote
      ∙ ap (λ (s : Shm). record d1 { shm = clear_records d.shm.info.alt_off cfg.data_size s })
          (shm-positioned cfg.data_size d) in
    let r = report_lost-Reported cfg sized ts d.shm v d1 in
    let read : (report_lost cfg ts (emptied cfg sized ts d.shm v d1)).os ≡ os = r.os in
    record {
      state = report_lost cfg ts (emptied cfg sized ts d.shm v d1);
      runs =
          ap
            (λ fd.
              on_fd fd segfault
                (λ path. running (report_lost cfg ts (write_buffer cfg t false path d))))
            opened
          ∙ ap (λ w. running (report_lost cfg ts w)) e;
      records = λ j p f.
          ap (λ o. entry_at (file_at path o).byte (from + j * entry_size)) read
          ∙ entry_at-appended d.shm.mem d.shm.info.alt_off j (from + j * entry_size)
              (file_at path os).byte (place os app j p) f;
      earlier = λ i p q k. ap (λ o. (file_at path o).byte i) read ∙ app.outside i p q (inl k);
      long = λ w at. ap (λ o. (file_at path o).size) read ∙ app.long w at;
      offset = r.seek ∙ omega arith;
      batches = r.batches;
      valid = r.valid;
    }
  where
    moved : Os → Daemon
    moved os = record (positioned cfg.data_size d) {
      seek = u64 ((positioned cfg.data_size d).seek + cfg.data_size);
      os = os;
    }

    place :
        (os : Os)
        → Appended
            (record_bytes d.shm.mem d.shm.info.alt_off)
            cfg.data_size
            (positioned cfg.data_size d).seek
            (is_wrapping d)
            (positioned cfg.data_size d).hdr
            (file_at path d.os)
            (file_at path os)
        → (j : ℕ) → j < cfg.size
        → (i : ℕ) → i < 56
        → (file_at path os).byte ((positioned cfg.data_size d).seek + j * entry_size + i)
          ≡ record_bytes d.shm.mem d.shm.info.alt_off (j * 56 + i)
    place os app j p i q =
        let from = (positioned cfg.data_size d).seek in
        app.inside (from + j * entry_size + i) (omega arith) (omega arith) (omega arith)
        ∙ ap (record_bytes d.shm.mem d.shm.info.alt_off) {x = from + j * entry_size + i - from}
            {y = j * 56 + i} (omega arith)
