-- ===== src/System/Session.antt =====
-- Opening and closing a trace file: the request of the control tool, and the round that serves it.
use rbtrace.Base.{
  ℕ, ◌<◌, ◌≡◌, ◌≢◌, refl, ap, ◌∙◌, sym, subst, Bool, true, false, false≢true, ◌||◌, Option, none,
  some, List, [], ◌∷◌, leb, length, minus_one, if◌then◌else◌, arith,
}
use rbtrace.Trace.{RingConfig, ring_max}
use rbtrace.Header.{Clock}
use rbtrace.Header.Roundtrip.{IsFormattable}
use rbtrace.Ring.State.{Shm, signal_thread}
use rbtrace.Ring.Flags.{opened, closed, flushed, disk}
use rbtrace.Control.{max_path, open_file, close_file, put_flag, ctrl}
use rbtrace.Backing.{write_header}
use rbtrace.Backing.Path.{zap_path}
use rbtrace.Backing.State.{Daemon, running, on_fd, set_flag}
use rbtrace.Backing.Calls.{IsGood}
use rbtrace.Backing.Described.{Started, write_header-Started}
use rbtrace.Backing.Safe.{Safe, zap_path-ne-nil}
use rbtrace.Backing.Round.{Runs, Runs-then, Flushed, flush_both-Runs}
use rbtrace.Backing.Thread.{
  Env, and_then, flush_active, flush_inactive, close_trace, forget_file, round, serve_by, wait_sem,
}
use rbtrace.System.{controlled, rounded, run, step}

-- The file that an open request for `path` names, with zap on or off.
abbrev pub file_named : Bool → List ℕ → Clock → List ℕ
file_named zap path t = if zap then zap_path path t else path

file_named-ne-nil :
    (zap : Bool) (path : List ℕ) (t : Clock) → path ≢ [] → file_named zap path t ≢ []
file_named-ne-nil true path t h = zap_path-ne-nil path t
file_named-ne-nil false path t h = h

-- The shared memory after a request to open `path`.
abbrev asked : List ℕ → Shm → Shm
asked path s = signal_thread (
    put_flag opened true (record s {
      info = record s.info { file_path = path; slot = minus_one; flush = 0; lost = 0 };
    }))

ctrl-asked :
    (path : List ℕ) (s : Shm)
    → length path < max_path
    → s.info.flags.do_open ≡ false
    → s.info.flags.do_disk ≡ false
    → ctrl 0 (open_file (some path)) s ≡ (true, asked path s)
unfolding ctrl
ctrl-asked path s short opening to_disk =
    let fits : leb max_path (length path) ≡ false = ground arith in
    let free : (s.info.flags.do_open || s.info.flags.do_disk) ≡ false = ground arith in
    rw (free, fits) refl

-- A request to open, served by a round.
serve-asked :
    (cfg : RingConfig) (e : Env) (d : Daemon)
    → d.shm.ring < ring_max
    → d.shm.info.flags.do_close ≡ false
    → d.shm.info.flags.do_open ≡ true
    → round cfg e d ≡ running (write_header cfg e.clock (wait_sem d))
unfolding round serve_by
serve-asked cfg e d at closing opening =
    let f = d.shm.info.flags in
    let here : leb ring_max d.shm.ring ≡ false = ground arith in
    ap
      (λ b.
        if b
        then running (wait_sem d)
        else serve_by f.do_close f.do_open f.do_disk cfg e (wait_sem d))
      here
    ∙ ap (λ c. serve_by c f.do_open f.do_disk cfg e (wait_sem d)) closing
    ∙ ap (λ o. serve_by false o f.do_disk cfg e (wait_sem d)) opening

-- With no trace file open, no request outstanding, no call failing, and numbers and texts of the
-- configuration and the clock that fit the header, a request to open a path of 1 to 1023 bytes and the next
-- round of the thread leave the file open with a header that describes the ring; with zap on it is
-- a file with the time in its name.
pub open_session :
    (cfg : RingConfig) (e : Env) (path : List ℕ) (d : Daemon)
    → path ≢ []
    → length path < max_path
    → d.fd ≡ none
    → d.shm.info.ring < ring_max
    → d.shm.info.flags.do_close ≡ false
    → d.shm.info.flags.do_open ≡ false
    → d.shm.info.flags.do_disk ≡ false
    → IsGood d.os
    → IsFormattable cfg e.clock
    → Runs
        (Started cfg e.clock (file_named d.shm.info.flags.do_zap path e.clock))
        (run cfg (controlled 0 (open_file (some path)) ∷ rounded e ∷ []) d)
unfolding run step signal_thread
open_session cfg e path d named short gone at closing opening to_disk good f =
    let d1 = record d { shm = asked path d.shm } in
    record {
      state = write_header cfg e.clock (wait_sem d1);
      runs =
          ap (λ r. and_then (round cfg e (record d { shm = r.1 })) running)
            (ctrl-asked path d.shm short opening to_disk)
          ∙ ap (λ o. and_then o running) (serve-asked cfg e d1 at closing refl);
      holds =
          write_header-Started cfg e.clock (wait_sem d1) gone
            (file_named-ne-nil d.shm.info.flags.do_zap path e.clock named) good f;
    }

-- The file is closed and forgotten, and no request is outstanding.
pub record Closed (d : Daemon) : Type 0 where
  pub descriptor : d.fd ≡ none
  pub offset : d.seek ≡ 0
  pub path : d.shm.info.file_path ≡ []
  pub closing : d.shm.info.flags.do_close ≡ false
  pub opening : d.shm.info.flags.do_open ≡ false
  pub flushing : d.shm.info.flags.do_flush ≡ false
  pub to_disk : d.shm.info.flags.do_disk ≡ false
  pub safe : Safe d

close_trace-Closed :
    (d : Daemon) (fd : Option (List ℕ))
    → d.fd ≡ fd
    → Safe d
    → d.shm.info.flags.do_close ≡ true
    → d.shm.info.flags.do_flush ≡ false
    → d.shm.info.flags.do_open ≡ false
    → Closed (record (set_flag closed false (on_fd fd d (λ path. forget_file d))) { seek = 0 })
close_trace-Closed d none gone s c f o =
    absurd (false≢true (sym (ap (λ fd. on_fd fd false (λ _. true)) gone) ∙ ground (arith, s.agree)))
close_trace-Closed d (some path) there s c f o = record {
  opening = o;
  descriptor = refl;
  offset = refl;
  path = refl;
  closing = refl;
  flushing = f;
  to_disk = ground (arith, s.agree);
  safe = record { agree = ground (arith, s.agree); good = s.good };
}

-- The shared memory after a request to close.
abbrev told : Shm → Shm
told s = signal_thread (put_flag closed true (put_flag flushed true (put_flag disk false s)))

ctrl-told : (s : Shm) → s.info.flags.do_disk ≡ true → ctrl 0 close_file s ≡ (true, told s)
unfolding ctrl
ctrl-told s to_disk = ap (λ b. if b then (true, told s) else (false, s)) to_disk

-- A request to close, served by a round.
serve-told :
    (cfg : RingConfig) (e : Env) (d : Daemon)
    → d.shm.ring < ring_max
    → d.shm.info.flags.do_close ≡ true
    → d.shm.info.flags.do_open ≡ false
    → Safe d
    → Runs Closed (round cfg e d)
unfolding round serve_by
serve-told cfg e d at closing opening s =
    let d1 = wait_sem d in
    let f = d.shm.info.flags in
    let here : leb ring_max d.shm.ring ≡ false = ground arith in
    subst (Runs Closed)
      (sym (
        ap (λ b. if b then running d1 else serve_by f.do_close f.do_open f.do_disk cfg e d1) here
        ∙ ap (λ c. serve_by c f.do_open f.do_disk cfg e d1) closing))
      (Runs-then (Flushed d1) Closed (and_then (flush_inactive cfg e d1) (flush_active cfg e)) _
        (flush_both-Runs cfg e d1 closing (record { agree = s.agree; good = s.good }))
        λ d2 q. record {
          state = record (set_flag closed false (close_trace d2)) { seek = 0 };
          runs = refl;
          holds =
              close_trace-Closed d2 d2.fd refl q.safe (q.closing ∙ closing) q.done
                (q.opening opening);
        })

-- In a state in which the flags agree with the descriptor and tracing goes to a file, with no call
-- failing, a request to close and the next round of the thread close the file, forget its path and
-- leave no request outstanding; and the flags agree with the descriptor again.
pub close_session :
    (cfg : RingConfig) (e : Env) (d : Daemon)
    → d.shm.info.ring < ring_max
    → d.shm.info.flags.do_disk ≡ true
    → Safe d
    → Runs Closed (run cfg (controlled 0 close_file ∷ rounded e ∷ []) d)
unfolding run step signal_thread
close_session cfg e d at to_disk s =
    let d1 = record d { shm = told d.shm } in
    let served : Runs Closed (round cfg e d1) =
      serve-told cfg e d1 at refl (ground (arith, s.agree))
        (record { agree = ground (arith, s.agree); good = s.good }) in
    subst (λ r. Runs Closed (and_then (round cfg e (record d { shm = r.1 })) running))
      (sym (ctrl-told d.shm to_disk))
      (Runs-then Closed Closed (round cfg e d1) running served
        λ d2 c. record { state = d2; runs = refl; holds = c })
