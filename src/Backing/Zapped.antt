-- ===== src/Backing/Zapped.antt =====
-- What a failed `open` does to a trace that is split into files.
use rbtrace.Base.{
  ℕ, ◌+◌, ◌≡◌, ◌≢◌, ◌<◌, refl, ap, ◌∙◌, sym, subst, true, false, not, ◌||◌, Option, none, some,
  List, [], ◌∷◌, leb, ◌==◌, u64, if◌then◌else◌, Bool-cases, inl, inr, arith,
}
use rbtrace.Trace.{RingConfig, ring_max}
use rbtrace.Disk.{Written, safe_pwrite}
use rbtrace.Disk.Write.{NoFailure, safe_pwrite_all}
use rbtrace.Header.{Clock}
use rbtrace.Wire.{record_bytes}
use rbtrace.Ring.{Stamps}
use rbtrace.Ring.State.{Flags, Shm}
use rbtrace.Ring.Flags.{put, opened}
use rbtrace.Ring.Keeps.{trace-Kept}
use rbtrace.Backing.{
  at_limit, buffer_cleared, buffer_result, chosen_path, header_failed, header_opened,
  header_updated, limit_by, limit_checked, many_flushes, report_lost, reset_counters, write_buffer,
  write_data, write_header, is_wrapping, wrap_around,
}
use rbtrace.Backing.State.{
  Os, Daemon, running, segfault, close_file, on_fd, file_at, put_file, os_open, os_pwrite,
}
use rbtrace.Backing.Thread.{Env, flush_inactive, serve_by, round}

-- The descriptor is gone, and of the flags only that for opening has been cleared.
record Lost (d d' : Daemon) : Type 0 where
  fd : d'.fd ≡ none
  flags : d'.shm.info.flags ≡ put opened false d.shm.info.flags

module _ (e : ℕ) (rest : List (Option ℕ)) where
  os_open_refused :
      (path : List ℕ) (d : Daemon)
      → d.os.opens ≡ some e ∷ rest
      → (os : Os) × (os_open path d ≡ record d { fd = none; os = os })
  unfolding os_open
  os_open_refused [] d h = (d.os, refl)
  os_open_refused (c ∷ cs) d h = (record d.os { opens = rest }, rw h refl)

  write_header-Lost :
      (cfg : RingConfig) (t : Clock) (d : Daemon)
      → d.fd ≡ none
      → d.os.opens ≡ some e ∷ rest
      → Lost d (write_header cfg t d)
  unfolding write_header
  write_header-Lost cfg t d gone h =
      let (os, refused) = os_open_refused (chosen_path t d) d h in
      let same : write_header cfg t d ≡ header_failed (record d { fd = none; os = os }) =
        ap (λ o. on_fd o (header_opened cfg t (os_open (chosen_path t d) d)) (λ p. header_failed d))
          gone
        ∙ ap (header_opened cfg t) refused in
      subst (Lost d) (sym same) (record { fd = refl; flags = refl })

report_lost-Lost :
    (cfg : RingConfig) (ts : Stamps) (d d' : Daemon) → Lost d d' → Lost d (report_lost cfg ts d')
unfolding report_lost
report_lost-Lost cfg ts d d' l =
    elim (Bool-cases (many_flushes d'.shm || not (d'.shm.info.lost == 0))) [
      | inr e ↦ rw e (record { fd = l.fd; flags = l.flags })
      | inl e ↦ rw e (record {
        fd = l.fd;
        flags = (trace-Kept cfg ts _ (reset_counters d'.shm)).flags ∙ l.flags;
      })
    ]

-- With no open file, data to write is a read through a null pointer.
round_crash :
    (cfg : RingConfig) (env : Env) (d : Daemon)
    → d.fd ≡ none
    → d.shm.ring < ring_max
    → d.shm.info.flags.do_close ≡ false
    → d.shm.info.flags.do_open ≡ false
    → d.shm.info.flags.do_disk ≡ true
    → d.shm.info.flush ≢ 0
    → round cfg env d ≡ segfault
unfolding round serve_by flush_inactive write_data
round_crash cfg env d gone at closing opening to_disk waits =
    let here : leb ring_max d.shm.ring ≡ false = ground arith in
    let some_flush : (d.shm.info.flush == 0) ≡ false = ground arith in
    rw (here, closing, opening, to_disk, some_flush, gone) refl

-- A daemon that splits the trace into files, about to write the waiting batch to `path` with the
-- limit reached, where the next `open` will fail with `e`.
pub record AtSplit (cfg : RingConfig) (path : List ℕ) (e : ℕ) (d : Daemon) : Type 0 where
  pub descriptor : d.fd ≡ some path
  pub zap : d.shm.info.flags.do_zap ≡ true
  pub wrap : d.shm.info.flags.do_wrap ≡ false
  pub closing : d.shm.info.flags.do_close ≡ false
  pub to_disk : d.shm.info.flags.do_disk ≡ true
  pub full : leb d.shm.fsize (u64 (d.seek + cfg.data_size)) ≡ true
  pub writes : NoFailure d.os.writes
  pub later : List (Option ℕ)
  pub refused : d.os.opens ≡ some e ∷ later

module _ (cfg : RingConfig) (t : Clock) (path : List ℕ) (e : ℕ) (d : Daemon)
    (a : AtSplit cfg path e d) where
  abbrev buf : ℕ → ℕ
  buf = record_bytes d.shm.mem d.shm.info.alt_off

  abbrev wrote : Written
  wrote = safe_pwrite d.os.writes buf cfg.data_size d.seek (file_at path d.os)

  abbrev after : Daemon
  after =
      buffer_cleared d.shm.info.alt_off cfg.data_size
        (record d { os = put_file path wrote.file (record d.os { writes = wrote.rest }) })

  split : limit_checked cfg t false after ≡ (false, write_header cfg t (close_file after))
  unfolding limit_by
  split =
      let f = d.shm.info.flags in
      ap (λ b. if b then at_limit cfg t false after else (false, after)) a.full
      ∙ ap (λ c. limit_by c f.do_wrap f.do_zap cfg t false after) a.closing
      ∙ ap (λ w. limit_by false w f.do_zap cfg t false after) a.wrap
      ∙ ap (λ z. limit_by false false z cfg t false after) a.zap

  write_buffer_split : write_buffer cfg t false path d ≡ write_header cfg t (close_file after)
  unfolding write_buffer buffer_result os_pwrite
  write_buffer_split =
      let n = cfg.data_size in
      let off = d.shm.info.alt_off in
      let calm : is_wrapping d ≡ false = ground (arith, a.wrap) in
      let (rc, _, _) = safe_pwrite_all d.os.writes buf n d.seek (file_at path d.os) a.writes in
      ap
        (λ w.
          let d1 = if w then wrap_around n d else d in
          buffer_result cfg t off n w (os_pwrite path buf n d1.seek d1))
        calm
      ∙ ap
          (λ rc.
            buffer_result cfg t off n false (
              rc,
              record d { os = put_file path wrote.file (record d.os { writes = wrote.rest }) },
            ))
          rc
      ∙ ap header_updated split

  write_buffer-Lost : Lost d (write_buffer cfg t false path d)
  write_buffer-Lost =
      let l = write_header-Lost e a.later cfg t (close_file after) refl a.refused in
      subst (Lost d) (sym write_buffer_split) (record { fd = l.fd; flags = l.flags })

-- If the `open` of the next file fails while the daemon splits the trace, `rbtrace_write_data` goes
-- on with no descriptor and the flag for writing to disk still set; and the next round of a ring
-- `s` with these flags and a batch to write reads through a null pointer.
pub refused_split-segfault :
    (cfg : RingConfig) (t : Clock) (ts : Stamps) (path : List ℕ) (e : ℕ) (d : Daemon) (s : Shm)
    (env : Env)
    → AtSplit cfg path e d
    → s.ring < ring_max
    → s.info.flags ≡ put opened false d.shm.info.flags
    → s.info.flush ≢ 0
    → (d' : Daemon) × (write_data cfg t ts false d ≡ running d')
      × (d'.shm.info.flags ≡ put opened false d.shm.info.flags)
      × (round cfg env (record d' { shm = s }) ≡ segfault)
unfolding write_data
refused_split-segfault cfg t ts path e d s env a at same waits =
    let d' = report_lost cfg ts (write_buffer cfg t false path d) in
    let l = report_lost-Lost cfg ts d _ (write_buffer-Lost cfg t path e d a) in
    (
      d',
      ap
          (λ fd.
            on_fd fd segfault
              (λ path. running (report_lost cfg ts (write_buffer cfg t false path d))))
          a.descriptor,
      l.flags,
      round_crash cfg env (record d' { shm = s }) l.fd at
          (ap (λ (f : Flags). f.do_close) same ∙ a.closing) (ap (λ (f : Flags). f.do_open) same)
          (ap (λ (f : Flags). f.do_disk) same ∙ a.to_disk) waits,
    )
