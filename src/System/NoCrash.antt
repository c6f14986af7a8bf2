-- ===== src/System/NoCrash.antt =====
-- The flags and the descriptor over sequences of events.
use rbtrace.Base.{
  subst, sym, ℕ, refl, Bool, List, [], ◌∷◌, none, some, arith, leb, Bool-cases, inl, inr,
}
use rbtrace.Trace.{RingConfig, ring_max}
use rbtrace.Ring.{trace}
use rbtrace.Ring.State.{Shm, signal_thread}
use rbtrace.Ring.Keeps.{trace-Kept}
use rbtrace.Control.{
  Op, open_file, close_file, set_size, set_wrap, set_zap, set_tflags, get_info, other, handler,
  ctrl,
}
use rbtrace.Backing.State.{Daemon}
use rbtrace.Backing.Safe.{is_open, Agree, Safe}
use rbtrace.Backing.Round.{Runs, Runs-then, round-Runs}
use rbtrace.System.{Event, traced, controlled, rounded, step, run}

-- The control operations keep what the flags promise of the descriptor.
handler-Agree :
    (op : Op) (s : Shm) (o : Bool) → Agree s.info.flags o → Agree (handler op s).1.info.flags o
unfolding handler signal_thread
handler-Agree (open_file none) s o a = a
handler-Agree (open_file (some path)) s o a = ground (arith, a)
handler-Agree close_file s o a = ground (arith, a)
handler-Agree (set_size none) s o a = a
handler-Agree (set_size (some n)) s o a = a
handler-Agree (set_wrap none) s o a = a
handler-Agree (set_wrap (some b)) s o a = ground (arith, a)
handler-Agree (set_zap none) s o a = a
handler-Agree (set_zap (some b)) s o a = ground (arith, a)
handler-Agree (set_tflags none) s o a = a
handler-Agree (set_tflags (some (b, t))) s o a = a
handler-Agree (get_info b) s o a = a
handler-Agree other s o a = a

pub ctrl-Agree :
    (ring : ℕ) (op : Op) (s : Shm) (o : Bool)
    → Agree s.info.flags o
    → Agree (ctrl ring op s).1.info.flags o
unfolding ctrl
ctrl-Agree ring op s o a = elim (Bool-cases (leb ring_max ring)) [
  | inl h ↦ rw h a
  | inr h ↦ rw h (handler-Agree op s o a)
]

step-Runs : (cfg : RingConfig) (v : Event) (d : Daemon) → Safe d → Runs Safe (step cfg v d)
unfolding step
step-Runs cfg (traced ts c) d s = record {
  state = record d { shm = (trace cfg ts c d.shm).1 };
  runs = refl;
  holds = record {
    agree = subst (λ f. Agree f (is_open d)) (sym (trace-Kept cfg ts c d.shm).flags) s.agree;
    good = s.good;
  };
}
step-Runs cfg (controlled ring op) d s = record {
  state = record d { shm = (ctrl ring op d.shm).1 };
  runs = refl;
  holds = record { agree = ctrl-Agree ring op d.shm (is_open d) s.agree; good = s.good };
}
step-Runs cfg (rounded e) d s = round-Runs cfg e d s

-- From a state in which the flags agree with the descriptor, such as the one that the daemon
-- starts in, no sequence of traces, control operations and rounds of the daemon makes it read
-- through a null pointer, and the flags agree with the descriptor at its end, provided that no
-- `open` fails and that no `pwrite` fails otherwise than by an interruption.
pub run-Runs : (cfg : RingConfig) (vs : List Event) (d : Daemon) → Safe d → Runs Safe (run cfg vs d)
unfolding run
run-Runs cfg [] d s = record { state = d; runs = refl; holds = s }
run-Runs cfg (v ∷ vs) d s =
    Runs-then Safe Safe (step cfg v d) (run cfg vs) (step-Runs cfg v d s) (run-Runs cfg vs)
