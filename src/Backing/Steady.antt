-- ===== src/Backing/Steady.antt =====
-- The settings in a round of `rbtrace_thread_fn`, rbtrace_backing.c.
use rbtrace.Base.{refl, Bool, true, false, leb, ◌==◌, Bool-cases, inl, inr}
use rbtrace.Trace.{RingConfig, ring_max}
use rbtrace.Header.{Clock}
use rbtrace.Ring.{Stamps}
use rbtrace.Ring.Flags.{closed}
use rbtrace.Backing.{report_lost, write_buffer, write_data}
use rbtrace.Backing.State.{Daemon, Outcome, running, segfault, set_flag}
use rbtrace.Backing.Modes.{
  SameModes, SameModes-trans, unchanged, on_fd_all, write_header-SameModes, write_buffer-SameModes,
  report_lost-SameModes,
}
use rbtrace.Backing.Thread.{
  Env, and_then, flush_inactive, flush_active, flush_if, close_trace, forget_file, serve_by, serve,
  wait_sem, round,
}

-- The property holds if the daemon goes on.
abbrev pub After : (Daemon → Type 0) → Outcome → Type 0
After P (running d) = P d
After P segfault = Unit

abbrev Same : Daemon → Daemon → Type 0
Same d d' = SameModes d.shm d'.shm

pub After-then :
    (P Q : Daemon → Type 0) (o : Outcome) (k : Daemon → Outcome)
    → After P o
    → ((d : Daemon) → P d → After Q (k d))
    → After Q (and_then o k)
After-then P Q (running d) k h f = f d h
After-then P Q segfault k h f = tt

-- Two steps that leave the settings alone, one after the other.
Same-then :
    (d : Daemon) (o : Outcome) (k : Daemon → Outcome)
    → After (Same d) o
    → ((d' : Daemon) → After (Same d') (k d'))
    → After (Same d) (and_then o k)
Same-then d o k h f = After-then (Same d) (Same d) o k h λ d' p. weaken d' (k d') p (f d')
  where
    weaken : (d' : Daemon) (o : Outcome) → Same d d' → After (Same d') o → After (Same d) o
    weaken d' (running e) p q = SameModes-trans p q
    weaken d' segfault p q = tt

write_data-Same :
    (cfg : RingConfig) (t : Clock) (ts : Stamps) (active : Bool) (d : Daemon)
    → After (Same d) (write_data cfg t ts active d)
unfolding write_data
write_data-Same cfg t ts active d =
    on_fd_all (After (Same d)) d.fd segfault
      (λ path. running (report_lost cfg ts (write_buffer cfg t active path d))) tt
      λ path.
        SameModes-trans (write_buffer-SameModes cfg t active path d)
          (report_lost-SameModes cfg ts (write_buffer cfg t active path d))

flush_inactive-Same :
    (cfg : RingConfig) (e : Env) (d : Daemon) → After (Same d) (flush_inactive cfg e d)
unfolding flush_inactive
flush_inactive-Same cfg e d = elim (Bool-cases (d.shm.info.flush == 0)) [
  | inl h ↦ rw h unchanged
  | inr h ↦ rw h (write_data-Same cfg e.clock e.first false d)
]

flush_if-Same :
    (b : Bool) (cfg : RingConfig) (e : Env) (d : Daemon) → After (Same d) (flush_if b cfg e d)
unfolding flush_if
flush_if-Same false cfg e d = unchanged
flush_if-Same true cfg e d =
    Same-then d (write_data cfg e.clock e.second true d) _
      (write_data-Same cfg e.clock e.second true d)
      λ d'. record { fsize = refl; tflags = refl; wrap = refl; zap = refl }

flush_both-Same :
    (cfg : RingConfig) (e : Env) (d : Daemon)
    → After (Same d) (and_then (flush_inactive cfg e d) (flush_active cfg e))
flush_both-Same cfg e d =
    Same-then d (flush_inactive cfg e d) (flush_active cfg e) (flush_inactive-Same cfg e d)
      λ d'. flush_if-Same d'.shm.info.flags.do_flush cfg e d'

close_trace-Same :
    (d : Daemon) → Same d (record (set_flag closed false (close_trace d)) { seek = 0 })
close_trace-Same d =
    let p : Same d (close_trace d) =
      on_fd_all (λ (x : Daemon). Same d x) d.fd d (λ path. forget_file d) unchanged
        λ path. record { fsize = refl; tflags = refl; wrap = refl; zap = refl } in
    record { fsize = p.fsize; tflags = p.tflags; wrap = p.wrap; zap = p.zap }

serve_by-Same :
    (c o k : Bool) (cfg : RingConfig) (e : Env) (d : Daemon)
    → After (Same d) (serve_by c o k cfg e d)
unfolding serve_by
serve_by-Same true o k cfg e d =
    Same-then d (and_then (flush_inactive cfg e d) (flush_active cfg e)) _ (flush_both-Same cfg e d)
      close_trace-Same
serve_by-Same false true k cfg e d = write_header-SameModes cfg e.clock d
serve_by-Same false false true cfg e d = flush_both-Same cfg e d
serve_by-Same false false false cfg e d = unchanged

-- Whatever the system answers, a round of the thread that does not crash changes neither the limit
-- of the file size, nor the traffic flags, nor the flags for wrap and zap.
pub round-SameModes :
    (cfg : RingConfig) (e : Env) (d : Daemon) → After (λ d'. SameModes d.shm d'.shm) (round cfg e d)
unfolding round
round-SameModes cfg e d = elim (Bool-cases (leb ring_max d.shm.ring)) [
  | inl h ↦ rw h (record { fsize = refl; tflags = refl; wrap = refl; zap = refl })
  | inr h ↦ rw h (
      Same-then d (running (wait_sem d)) (serve cfg e)
        (record { fsize = refl; tflags = refl; wrap = refl; zap = refl })
        (λ d'. serve_by-Same _ _ _ cfg e d'))
]
