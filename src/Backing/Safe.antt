-- ===== src/Backing/Safe.antt =====
-- The flags of the ring and the descriptor of the daemon: `rbtrace_write_header` and
-- `rbtrace_write_data`, rbtrace_backing.c.
use rbtrace.Base.{
  subst, sym, ◌+◌, ℕ, ◌≡◌, ◌≢◌, refl, ap, ◌∙◌, Bool, true, false, not, ◌&&◌, ◌||◌, Option, none,
  some, List, [], ◌∷◌, Bool-cases, inl, inr, arith, leb, ◌==◌, u64,
}
use rbtrace.Trace.{RingConfig}
use rbtrace.Header.{Clock, header_byte, header_size}
use rbtrace.Ring.{Stamps}
use rbtrace.Ring.State.{Flags, Shm}
use rbtrace.Ring.Keeps.{Kept, trace-Kept}
use rbtrace.Backing.{
  buffer_base, buffer_bytes, is_wrapping, positioned, chosen_path, limit_by, report_lost,
  rewrite_header, header_updated, limit_checked, buffer_cleared, many_flushes, reset_counters,
  buffer_result, write_buffer,
}
use rbtrace.Backing.Path.{zap_path}
use rbtrace.Backing.State.{Daemon, on_fd, close_file, os_pwrite}
use rbtrace.Backing.Calls.{
  IsGood, os_pwrite-IsGood, write_header-IsGood, write_buffer-IsGood, shm-positioned, fd-positioned,
}

abbrev pub is_open : Daemon → Bool
is_open d = on_fd d.fd false (λ _. true)

-- What the flags promise of the descriptor.
pub record Agree (f : Flags) (opened : Bool) : Type 0 where
  pub to_disk : (not f.do_disk || opened) ≡ true
  pub to_close : (not f.do_close || opened) ≡ true
  pub to_flush : (not f.do_flush || f.do_close) ≡ true
  pub to_open : (f.do_open && f.do_disk) ≡ false
  pub apart : (f.do_close && f.do_disk) ≡ false

pub record Safe (d : Daemon) : Type 0 where
  pub agree : Agree d.shm.info.flags (is_open d)
  pub good : IsGood d.os

-- A step of the daemon that leaves it safe, does not touch the flag for closing, and
-- does not raise the one for opening.
pub record Stays (d d' : Daemon) : Type 0 where
  pub safe : Safe d'
  pub closing : d'.shm.info.flags.do_close ≡ d.shm.info.flags.do_close
  pub opening : d.shm.info.flags.do_open ≡ false → d'.shm.info.flags.do_open ≡ false

pub cons-ne-nil : (x : ℕ) (xs : List ℕ) → x ∷ xs ≢ []
cons-ne-nil x xs h = cc

pub zap_path-ne-nil : (path : List ℕ) (t : Clock) → zap_path path t ≢ []
unfolding zap_path
zap_path-ne-nil [] t = cons-ne-nil _ _
zap_path-ne-nil (c ∷ cs) t = cons-ne-nil _ _

module _ (cfg : RingConfig) (t : Clock) (d : Daemon) (opened : is_open d ≡ true) (s : Safe d) where
  limit_by-Stays :
      (c w z u : Bool)
      → d.shm.info.flags.do_close ≡ c
      → d.shm.info.flags.do_wrap ≡ w
      → d.shm.info.flags.do_zap ≡ z
      → Stays d (limit_by c w z cfg t u d).1
  unfolding limit_by
  limit_by-Stays true w z u ec ew ez = record { safe = s; closing = refl; opening = λ h. h }
  limit_by-Stays false true z u ec ew ez = record {
    safe = record { agree = s.agree; good = s.good };
    closing = refl;
    opening = λ h. h;
  }
  limit_by-Stays false false true u ec ew ez =
      let named : chosen_path t (close_file d) ≢ [] = rw ez (zap_path-ne-nil _ t) in
      let (os, done, good, one) = write_header-IsGood cfg t (close_file d) refl named s.good in
      rw done (record {
        safe = record { agree = ground (arith, s.agree); good = good };
        closing = refl;
        opening = λ h. refl;
      })
  limit_by-Stays false false false u ec ew ez = record {
    safe = record { agree = ground (arith, s.agree); good = s.good };
    closing = refl;
    opening = λ h. h;
  }

pub Stays-trans : (a b c : Daemon) → Stays a b → Stays b c → Stays a c
Stays-trans a b c p q = record {
  safe = q.safe;
  closing = q.closing ∙ p.closing;
  opening = λ h. q.opening (p.opening h);
}

rewrite_header-Stays :
    (d : Daemon) (fd : Option (List ℕ)) → d.fd ≡ fd → Safe d → Stays d (rewrite_header d)
rewrite_header-Stays d none e s =
    subst (Stays d)
      (sym (ap (λ o. on_fd o d (λ path. (os_pwrite path (header_byte d.hdr) header_size 0 d).1)) e))
      (record { safe = s; closing = refl; opening = λ h. h })
rewrite_header-Stays d (some p) e s =
    let (os, wrote, good, one) = os_pwrite-IsGood p (header_byte d.hdr) header_size 0 d s.good in
    subst (Stays d)
      (sym (
        ap (λ o. on_fd o d (λ path. (os_pwrite path (header_byte d.hdr) header_size 0 d).1)) e
        ∙ ap (λ (r : Option ℕ × Daemon). r.1) wrote))
      (record { safe = record { agree = s.agree; good = good }; closing = refl; opening = λ h. h })

header_updated-Stays : (r : Bool × Daemon) → Safe r.1 → Stays r.1 (header_updated r)
header_updated-Stays (true, d) s = rewrite_header-Stays d d.fd refl s
header_updated-Stays (false, d) s = record { safe = s; closing = refl; opening = λ h. h }

limit_checked-Stays :
    (cfg : RingConfig) (t : Clock) (u : Bool) (d : Daemon)
    → is_open d ≡ true
    → Safe d
    → Stays d (limit_checked cfg t u d).1
limit_checked-Stays cfg t u d o s = elim (Bool-cases (leb d.shm.fsize d.seek)) [
  | inl e ↦ rw e (limit_by-Stays cfg t d o s _ _ _ u refl refl refl)
  | inr e ↦ rw e (record { safe = s; closing = refl; opening = λ h. h })
]

buffer_result-Stays :
    (cfg : RingConfig) (t : Clock) (base n : ℕ) (u : Bool) (d : Daemon)
    → is_open d ≡ true
    → Safe d
    → Stays d (buffer_result cfg t base n u (none, d))
unfolding buffer_result
buffer_result-Stays cfg t base n u d o s =
    let d1 = buffer_cleared base n d in
    let p = limit_checked-Stays cfg t u d1 o (record { agree = s.agree; good = s.good }) in
    let q = header_updated-Stays (limit_checked cfg t u d1) p.safe in
    record {
      safe = q.safe;
      closing = q.closing ∙ p.closing;
      opening = λ h. q.opening (p.opening h);
    }

pub report_lost-Stays :
    (cfg : RingConfig) (ts : Stamps) (d : Daemon) → Safe d → Stays d (report_lost cfg ts d)
unfolding report_lost
report_lost-Stays cfg ts d s =
    elim (Bool-cases (many_flushes d.shm || not (d.shm.info.lost == 0))) [
      | inr e ↦ rw e (record {
        safe = record { agree = s.agree; good = s.good };
        closing = refl;
        opening = λ h. h;
      })
      | inl e ↦ rw e (logged (trace-Kept cfg ts _ (reset_counters d.shm)))
    ]
  where
    logged :
        {s' : Shm}
        → Kept (reset_counters d.shm) s'
        → Stays d (record d { total_buffers = u64 (d.total_buffers + 1); shm = s' })
    logged k = record {
      safe = record { agree = rw k.flags s.agree; good = s.good };
      closing = ap (λ (f : Flags). f.do_close) k.flags;
      opening = λ h. ap (λ (f : Flags). f.do_open) k.flags ∙ h;
    }

pub write_buffer-Stays :
    (cfg : RingConfig) (t : Clock) (active : Bool) (path : List ℕ) (d : Daemon)
    → is_open d ≡ true
    → Safe d
    → Stays d (write_buffer cfg t active path d)
unfolding write_buffer
write_buffer-Stays cfg t active path d o s =
    let n = buffer_bytes cfg active d.shm in
    let (os, wrote, good, one) = write_buffer-IsGood cfg t active path d s.good in
    let d1 = record (positioned n d) { os = os } in
    let still : is_open d1 ≡ true = ap (λ fd. on_fd fd false (λ _. true)) (fd-positioned n d) ∙ o in
    let safe : Safe d1 = record {
      agree = rw (still, shm-positioned n d) (rw o at s.agree);
      good = good;
    } in
    let r = buffer_result-Stays cfg t (buffer_base active d.shm) n (is_wrapping d) d1 still safe in
    subst (Stays d) (sym wrote) (record {
      safe = r.safe;
      closing = r.closing ∙ ap (λ (s : Shm). s.info.flags.do_close) (shm-positioned n d);
      opening = λ h. r.opening (ap (λ (s : Shm). s.info.flags.do_open) (shm-positioned n d) ∙ h);
    })
