-- ===== src/Backing/Round.antt =====
-- The flags and the descriptor in a round of `rbtrace_thread_fn`, rbtrace_backing.c.
use rbtrace.Base.{
  ℕ, subst, sym, ◌≡◌, refl, ap, ◌∙◌, Bool, true, false, false≢true, Option, none, some, List, [],
  ◌∷◌, Bool-cases, inl, inr, arith, leb, ◌==◌,
}
use rbtrace.Trace.{RingConfig, ring_max}
use rbtrace.Header.{Clock}
use rbtrace.Ring.{Stamps}
use rbtrace.Ring.Flags.{closed, flushed}
use rbtrace.Backing.{
  write_header, chosen_path, write_data, write_buffer, report_lost, header_failed, header_opened,
}
use rbtrace.Backing.State.{Daemon, Outcome, running, segfault, on_fd, set_flag, os_open}
use rbtrace.Backing.Calls.{write_header-IsGood}
use rbtrace.Backing.Safe.{
  is_open, Safe, Stays, Stays-trans, write_buffer-Stays, report_lost-Stays, cons-ne-nil,
}
use rbtrace.Backing.Thread.{
  Env, and_then, flush_inactive, flush_active, flush_if, close_trace, forget_file, serve_by,
  wait_sem, round,
}

-- The daemon goes on, in a state with the property.
pub record Runs (P : Daemon → Type 0) (o : Outcome) : Type 0 where
  pub state : Daemon
  pub runs : o ≡ running state
  pub holds : P state

pub Runs-then :
    (P Q : Daemon → Type 0) (o : Outcome) (k : Daemon → Outcome)
    → Runs P o
    → ((d : Daemon) → P d → Runs Q (k d))
    → Runs Q (and_then o k)
Runs-then P Q o k r f = subst (λ x. Runs Q (and_then x k)) (sym r.runs) (f r.state r.holds)

write_data-Runs :
    (cfg : RingConfig) (t : Clock) (ts : Stamps) (active : Bool) (d : Daemon) (fd : Option (List ℕ))
    → d.fd ≡ fd
    → is_open d ≡ true
    → Safe d
    → Runs (Stays d) (write_data cfg t ts active d)
unfolding write_data
write_data-Runs cfg t ts active d none e o s =
    absurd (false≢true (sym (ap (λ fd. on_fd fd false (λ _. true)) e) ∙ o))
write_data-Runs cfg t ts active d (some path) e o s =
    let d1 = write_buffer cfg t active path d in
    let p = write_buffer-Stays cfg t active path d o s in
    record {
      state = report_lost cfg ts d1;
      runs =
          ap
            (λ fd.
              on_fd fd segfault
                (λ path. running (report_lost cfg ts (write_buffer cfg t active path d))))
            e;
      holds = Stays-trans d d1 _ p (report_lost-Stays cfg ts d1 p.safe);
    }

flush_inactive-Runs :
    (cfg : RingConfig) (e : Env) (d : Daemon)
    → is_open d ≡ true
    → Safe d
    → Runs (Stays d) (flush_inactive cfg e d)
unfolding flush_inactive
flush_inactive-Runs cfg e d o s = elim (Bool-cases (d.shm.info.flush == 0)) [
  | inl h ↦ rw h (record {
    state = d;
    runs = refl;
    holds = record { safe = s; closing = refl; opening = λ h. h };
  })
  | inr h ↦ rw h (write_data-Runs cfg e.clock e.first false d d.fd refl o s)
]

-- After the flush of the active buffer nothing is left to flush.
pub record Flushed (d d' : Daemon) : Type 0 where
  pub safe : Safe d'
  pub closing : d'.shm.info.flags.do_close ≡ d.shm.info.flags.do_close
  pub opening : d.shm.info.flags.do_open ≡ false → d'.shm.info.flags.do_open ≡ false
  pub done : d'.shm.info.flags.do_flush ≡ false

flush_if-Runs :
    (cfg : RingConfig) (e : Env) (d : Daemon) (b : Bool)
    → d.shm.info.flags.do_flush ≡ b
    → is_open d ≡ true
    → Safe d
    → Runs (Flushed d) (flush_if b cfg e d)
unfolding flush_if
flush_if-Runs cfg e d false h o s = record {
  state = d;
  runs = refl;
  holds = record { safe = s; closing = refl; opening = λ h. h; done = h };
}
flush_if-Runs cfg e d true h o s =
    Runs-then (Stays d) (Flushed d) (write_data cfg e.clock e.second true d) _
      (write_data-Runs cfg e.clock e.second true d d.fd refl o s)
      λ d1 p. record {
        state = set_flag flushed false d1;
        runs = refl;
        holds = record {
          safe = record { agree = ground (arith, p.safe.agree); good = p.safe.good };
          closing = p.closing;
          opening = p.opening;
          done = refl;
        };
      }

-- The end of the branch that closes the file.
abbrev end_close : Daemon → Daemon
end_close d = record (set_flag closed false d) { seek = 0 }

close_trace-Safe :
    (d : Daemon) (fd : Option (List ℕ))
    → d.fd ≡ fd
    → Safe d
    → d.shm.info.flags.do_close ≡ true
    → d.shm.info.flags.do_flush ≡ false
    → Safe (end_close (on_fd fd d (λ path. forget_file d)))
close_trace-Safe d none e s c f = record { agree = ground (arith, s.agree); good = s.good }
close_trace-Safe d (some path) e s c f = record { agree = ground (arith, s.agree); good = s.good }

-- A request to open is served safely, whether or not a file is open and the path is empty.
write_header-Safe :
    (cfg : RingConfig) (t : Clock) (d : Daemon) (fd : Option (List ℕ)) (path : List ℕ)
    → d.fd ≡ fd
    → chosen_path t d ≡ path
    → d.shm.info.flags.do_close ≡ false
    → d.shm.info.flags.do_open ≡ true
    → Safe d
    → Safe (write_header cfg t d)
unfolding write_header os_open
write_header-Safe cfg t d (some p) path e q ec eo s =
    subst Safe
      (sym (
        ap (λ o. on_fd o (header_opened cfg t (os_open (chosen_path t d) d)) (λ p. header_failed d))
          e))
      (record { agree = ground (arith, s.agree); good = s.good })
write_header-Safe cfg t d none [] e q ec eo s =
    subst Safe
      (sym (
        ap (λ o. on_fd o (header_opened cfg t (os_open (chosen_path t d) d)) (λ p. header_failed d))
          e
        ∙ ap (λ p. header_opened cfg t (os_open p d)) q))
      (record { agree = ground (arith, s.agree); good = s.good })
write_header-Safe cfg t d none (c ∷ cs) e q ec eo s =
    let (os, done, good, one) =
      write_header-IsGood cfg t d e (λ h. cons-ne-nil c cs (sym q ∙ h)) s.good in
    subst Safe (sym done) (record { agree = ground (arith, s.agree); good = good })

-- Both flushes of the branch that closes the file.
pub flush_both-Runs :
    (cfg : RingConfig) (e : Env) (d : Daemon)
    → d.shm.info.flags.do_close ≡ true
    → Safe d
    → Runs (Flushed d) (and_then (flush_inactive cfg e d) (flush_active cfg e))
flush_both-Runs cfg e d ec s =
    let still : is_open d ≡ true = ground (arith, s.agree) in
    Runs-then (Stays d) (Flushed d) (flush_inactive cfg e d) (flush_active cfg e)
      (flush_inactive-Runs cfg e d still s)
      λ d1 p.
        let open1 : is_open d1 ≡ true = ground (arith, p.safe.agree, p.closing) in
        let r = flush_if-Runs cfg e d1 _ refl open1 p.safe in
        record {
          state = r.state;
          runs = r.runs;
          holds = record {
            safe = r.holds.safe;
            closing = r.holds.closing ∙ p.closing;
            opening = λ h. r.holds.opening (p.opening h);
            done = r.holds.done;
          };
        }

serve_by-Runs :
    (cfg : RingConfig) (e : Env) (d : Daemon) (c o k : Bool)
    → d.shm.info.flags.do_close ≡ c
    → d.shm.info.flags.do_open ≡ o
    → d.shm.info.flags.do_disk ≡ k
    → Safe d
    → Runs Safe (serve_by c o k cfg e d)
unfolding serve_by
serve_by-Runs cfg e d true o k ec eo ek s =
    Runs-then (Flushed d) Safe (and_then (flush_inactive cfg e d) (flush_active cfg e)) _
      (flush_both-Runs cfg e d ec s)
      λ d2 q. record {
        state = record (set_flag closed false (close_trace d2)) { seek = 0 };
        runs = refl;
        holds = close_trace-Safe d2 d2.fd refl q.safe (q.closing ∙ ec) q.done;
      }
serve_by-Runs cfg e d false true k ec eo ek s = record {
  state = write_header cfg e.clock d;
  runs = refl;
  holds = write_header-Safe cfg e.clock d d.fd _ refl refl ec eo s;
}
serve_by-Runs cfg e d false false true ec eo ek s =
    let still : is_open d ≡ true = ground (arith, s.agree) in
    Runs-then (Stays d) Safe (flush_inactive cfg e d) (flush_active cfg e)
      (flush_inactive-Runs cfg e d still s)
      λ d1 p.
        let calm : d1.shm.info.flags.do_flush ≡ false = ground (arith, p.safe.agree, p.closing) in
        subst (λ b. Runs Safe (flush_if b cfg e d1)) (sym calm)
          (unfold flush_if in record { state = d1; runs = refl; holds = p.safe })
serve_by-Runs cfg e d false false false ec eo ek s = record { state = d; runs = refl; holds = s }

pub round-Runs : (cfg : RingConfig) (e : Env) (d : Daemon) → Safe d → Runs Safe (round cfg e d)
unfolding round
round-Runs cfg e d s =
    let s1 : Safe (wait_sem d) = record { agree = s.agree; good = s.good } in
    elim (Bool-cases (leb ring_max d.shm.ring)) [
      | inl h ↦ rw h (record { state = wait_sem d; runs = refl; holds = s1 })
      | inr h ↦ rw h (serve_by-Runs cfg e (wait_sem d) _ _ _ refl refl refl s1)
    ]
