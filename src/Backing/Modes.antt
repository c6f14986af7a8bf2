-- ===== src/Backing/Modes.antt =====
-- The settings in `rbtrace_write_header` and `rbtrace_write_data`, rbtrace_backing.c.
use rbtrace.Base.{
  ℕ, ◌≡◌, refl, ap, ◌∙◌, Bool, true, false, not, ◌||◌, Option, none, some, List, [], ◌∷◌, leb, ◌==◌,
  Bool-cases, inl, inr,
}
use rbtrace.Trace.{RingConfig}
use rbtrace.Header.{Clock, format_header, header_byte, header_size}
use rbtrace.Ring.{Stamps}
use rbtrace.Ring.State.{Shm}
use rbtrace.Ring.Keeps.{trace-Kept}
use rbtrace.Backing.{
  buffer_base, buffer_bytes, buffer_result, chosen_path, header_failed, header_opened,
  header_result, header_updated, is_wrapping, limit_by, limit_checked, many_flushes, report_lost,
  reset_counters, write_buffer, write_header, buffer_cleared,
}
use rbtrace.Backing.State.{Daemon, close_file, on_fd, os_open, os_pwrite}
use rbtrace.Backing.Calls.{shm-positioned}

-- The limit of the file size, the traffic flags, and the flags for wrap and zap are the same.
pub record SameModes (s s' : Shm) : Type 0 where
  pub fsize : s'.fsize ≡ s.fsize
  pub tflags : s'.info.tflags ≡ s.info.tflags
  pub wrap : s'.info.flags.do_wrap ≡ s.info.flags.do_wrap
  pub zap : s'.info.flags.do_zap ≡ s.info.flags.do_zap

abbrev pub unchanged : {s : Shm} → SameModes s s
unchanged = record { fsize = refl; tflags = refl; wrap = refl; zap = refl }

pub SameModes-trans : {s t u : Shm} → SameModes s t → SameModes t u → SameModes s u
SameModes-trans p q = record {
  fsize = q.fsize ∙ p.fsize;
  tflags = q.tflags ∙ p.tflags;
  wrap = q.wrap ∙ p.wrap;
  zap = q.zap ∙ p.zap;
}

SameModes-eq : {s t : Shm} → t ≡ s → SameModes s t
SameModes-eq e = record {
  fsize = ap (λ (s : Shm). s.fsize) e;
  tflags = ap (λ (s : Shm). s.info.tflags) e;
  wrap = ap (λ (s : Shm). s.info.flags.do_wrap) e;
  zap = ap (λ (s : Shm). s.info.flags.do_zap) e;
}

-- What holds by an open and by a closed descriptor holds.
pub on_fd_all {ℓ} :
    {A : Type ℓ} (P : A → Type 0) (fd : Option (List ℕ)) (c : A) (k : List ℕ → A)
    → P c
    → ((path : List ℕ) → P (k path))
    → P (on_fd fd c k)
on_fd_all P none c k h g = h
on_fd_all P (some path) c k h g = g path

os_open-SameModes : (path : List ℕ) (d : Daemon) → SameModes d.shm (os_open path d).shm
unfolding os_open
os_open-SameModes [] d = unchanged
os_open-SameModes (c ∷ cs) d = SameModes-eq (same d.os.opens refl)
  where
    same : (answers : List (Option ℕ)) → d.os.opens ≡ answers → (os_open (c ∷ cs) d).shm ≡ d.shm
    same [] e = rw e refl
    same (none ∷ rest) e = rw e refl
    same (some n ∷ rest) e = rw e refl

header_result-SameModes : (r : Option ℕ × Daemon) → SameModes r.1.shm (header_result r).shm
header_result-SameModes (none, d) = record { fsize = refl; tflags = refl; wrap = refl; zap = refl }
header_result-SameModes (some e, d) = record {
  fsize = refl;
  tflags = refl;
  wrap = refl;
  zap = refl;
}

header_opened-SameModes :
    (cfg : RingConfig) (t : Clock) (d : Daemon) → SameModes d.shm (header_opened cfg t d).shm
unfolding os_pwrite
header_opened-SameModes cfg t d =
    on_fd_all (λ (x : Daemon). SameModes d.shm x.shm) d.fd (header_failed d) _
      (record { fsize = refl; tflags = refl; wrap = refl; zap = refl })
      λ path. header_result-SameModes (
        os_pwrite path (header_byte (format_header cfg t)) header_size 0
          (record d { hdr = format_header cfg t }))

pub write_header-SameModes :
    (cfg : RingConfig) (t : Clock) (d : Daemon) → SameModes d.shm (write_header cfg t d).shm
unfolding write_header
write_header-SameModes cfg t d =
    on_fd_all (λ (x : Daemon). SameModes d.shm x.shm) d.fd
      (header_opened cfg t (os_open (chosen_path t d) d)) (λ path. header_failed d)
      (SameModes-trans (os_open-SameModes (chosen_path t d) d)
        (header_opened-SameModes cfg t (os_open (chosen_path t d) d)))
      λ path. record { fsize = refl; tflags = refl; wrap = refl; zap = refl }

limit_by-SameModes :
    (c w z : Bool) (cfg : RingConfig) (t : Clock) (u : Bool) (d : Daemon)
    → SameModes d.shm (limit_by c w z cfg t u d).1.shm
unfolding limit_by
limit_by-SameModes true w z cfg t u d = unchanged
limit_by-SameModes false true z cfg t u d = unchanged
limit_by-SameModes false false true cfg t u d = write_header-SameModes cfg t (close_file d)
limit_by-SameModes false false false cfg t u d = record {
  fsize = refl;
  tflags = refl;
  wrap = refl;
  zap = refl;
}

header_updated-SameModes : (r : Bool × Daemon) → SameModes r.1.shm (header_updated r).shm
unfolding os_pwrite
header_updated-SameModes (false, d) = unchanged
header_updated-SameModes (true, d) =
    on_fd_all (λ (x : Daemon). SameModes d.shm x.shm) d.fd d _ unchanged λ path. unchanged

limit_checked-SameModes :
    (cfg : RingConfig) (t : Clock) (u : Bool) (d : Daemon)
    → SameModes d.shm (limit_checked cfg t u d).1.shm
limit_checked-SameModes cfg t u d = elim (Bool-cases (leb d.shm.fsize d.seek)) [
  | inl e ↦ rw e (limit_by-SameModes _ _ _ cfg t u d)
  | inr e ↦ rw e unchanged
]

buffer_result-SameModes :
    (cfg : RingConfig) (t : Clock) (base n : ℕ) (u : Bool) (r : Option ℕ × Daemon)
    → SameModes r.1.shm (buffer_result cfg t base n u r).shm
unfolding buffer_result
buffer_result-SameModes cfg t base n u (some e, d) = unchanged
buffer_result-SameModes cfg t base n u (none, d) =
    let d1 = buffer_cleared base n d in
    let p = limit_checked-SameModes cfg t u d1 in
    let q = SameModes-trans p (header_updated-SameModes (limit_checked cfg t u d1)) in
    record { fsize = q.fsize; tflags = q.tflags; wrap = q.wrap; zap = q.zap }

pub write_buffer-SameModes :
    (cfg : RingConfig) (t : Clock) (active : Bool) (path : List ℕ) (d : Daemon)
    → SameModes d.shm (write_buffer cfg t active path d).shm
unfolding write_buffer os_pwrite
write_buffer-SameModes cfg t active path d =
    let n = buffer_bytes cfg active d.shm in
    SameModes-trans (SameModes-eq (shm-positioned n d))
      (buffer_result-SameModes cfg t (buffer_base active d.shm) n (is_wrapping d) _)

pub report_lost-SameModes :
    (cfg : RingConfig) (ts : Stamps) (d : Daemon) → SameModes d.shm (report_lost cfg ts d).shm
unfolding report_lost
report_lost-SameModes cfg ts d =
    elim (Bool-cases (many_flushes d.shm || not (d.shm.info.lost == 0))) [
      | inr e ↦ rw e (record { fsize = refl; tflags = refl; wrap = refl; zap = refl })
      | inl e ↦
          let k = trace-Kept cfg ts _ (reset_counters d.shm) in
          rw e (record {
            fsize = k.fsize;
            tflags = k.tflags;
            wrap = ap (λ f. f.do_wrap) k.flags;
            zap = ap (λ f. f.do_zap) k.flags;
          })
    ]
