-- ===== src/System/Settings.antt =====
-- The settings over sequences of events.
use rbtrace.Base.{
  ℕ, ◌≡◌, ap, ◌∙◌, ap₂, false, ◌&&◌, none, some, List, [], ◌∷◌, leb, Bool-cases, inl, inr, arith,
}
use rbtrace.Trace.{RingConfig, ring_max}
use rbtrace.Ring.State.{Shm, signal_thread}
use rbtrace.Ring.Keeps.{trace-Kept}
use rbtrace.Control.{
  Op, open_file, close_file, set_size, set_wrap, set_zap, set_tflags, get_info, other, ctrl,
  handler,
}
use rbtrace.Backing.State.{Daemon, Outcome, running, segfault}
use rbtrace.Backing.Modes.{SameModes}
use rbtrace.Backing.Steady.{After, After-then, round-SameModes}
use rbtrace.Backing.Thread.{round}
use rbtrace.System.{Event, traced, controlled, rounded, step, run}

-- Wrap and zap are not both on.
abbrev pub Apart : Shm → Type 0
Apart s = (s.info.flags.do_wrap && s.info.flags.do_zap) ≡ false

SameModes-Apart : {s s' : Shm} → SameModes s s' → Apart s → Apart s'
SameModes-Apart m a = ap₂ (λ w z. w && z) m.wrap m.zap ∙ a

handler-Apart : (op : Op) (s : Shm) → Apart s → Apart (handler op s).1
unfolding handler signal_thread
handler-Apart (open_file none) s a = a
handler-Apart (open_file (some path)) s a = ground (arith, a)
handler-Apart close_file s a = ground (arith, a)
handler-Apart (set_size none) s a = a
handler-Apart (set_size (some n)) s a = a
handler-Apart (set_wrap none) s a = a
handler-Apart (set_wrap (some b)) s a = ground (arith, a)
handler-Apart (set_zap none) s a = a
handler-Apart (set_zap (some b)) s a = ground (arith, a)
handler-Apart (set_tflags none) s a = a
handler-Apart (set_tflags (some (b, t))) s a = a
handler-Apart (get_info b) s a = a
handler-Apart other s a = a

pub ctrl-Apart : (ring : ℕ) (op : Op) (s : Shm) → Apart s → Apart (ctrl ring op s).1
unfolding ctrl
ctrl-Apart ring op s a = elim (Bool-cases (leb ring_max ring)) [
  | inl h ↦ rw h a
  | inr h ↦ rw h (handler-Apart op s a)
]

step-Apart :
    (cfg : RingConfig) (v : Event) (d : Daemon)
    → Apart d.shm
    → After (λ d'. Apart d'.shm) (step cfg v d)
unfolding step
step-Apart cfg (traced ts c) d a =
    ap (λ f. f.do_wrap && f.do_zap) (trace-Kept cfg ts c d.shm).flags ∙ a
step-Apart cfg (controlled ring op) d a = ctrl-Apart ring op d.shm a
step-Apart cfg (rounded e) d a = weaken (round cfg e d) (round-SameModes cfg e d)
  where
    weaken : (o : Outcome) → After (λ d'. SameModes d.shm d'.shm) o → After (λ d'. Apart d'.shm) o
    weaken (running d') m = SameModes-Apart m a
    weaken segfault m = tt

-- Whatever the system answers to the daemon, the flags for wrap and zap, not both on at the start,
-- are never both on after a sequence of traces, control operations and rounds.
pub run-Apart :
    (cfg : RingConfig) (vs : List Event) (d : Daemon)
    → Apart d.shm
    → After (λ d'. Apart d'.shm) (run cfg vs d)
unfolding run
run-Apart cfg [] d a = a
run-Apart cfg (v ∷ vs) d a =
    After-then (λ d'. Apart d'.shm) (λ d'. Apart d'.shm) (step cfg v d) (run cfg vs)
      (step-Apart cfg v d a) (run-Apart cfg vs)
