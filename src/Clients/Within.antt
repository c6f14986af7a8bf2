-- ===== src/Clients/Within.antt =====
-- What threads inside `rbtrace` may write to, however their steps and the daemon's interleave.
use rbtrace.Base.{
  ℕ, ◌+◌, ◌/◌, ◌≤◌, ◌<◌, ◌≡◌, ◌∙◌, ◌⊎◌, inl, inr, Bool, true, false, List, [], ◌∷◌, arith, refl,
  update_all, Bool-cases,
}
use rbtrace.Trace.{Args, Stamp, RingConfig, entry_size}
use rbtrace.Ring.{store}
use rbtrace.Ring.State.{Shm, signal_thread}
use rbtrace.Backing.{buffer_base, buffer_bytes}
use rbtrace.Clients.{
  Pc, Client, State, Writer, Event, enter, placing, stamping, storing, full, swapping, swap_load,
  swap_cir, swap_alt, restarting, reporting, signalling, retrying, undoing, dropping, waiting,
  again, returned, resting, sizing, clearing, move, call, look, measure, measured, wipe, take_lost,
  take_flush, return_to, is_idle, begin_call, wipe_buffer, step_at, step, happen, run,
}

-- The two buffers of `cfg.size` records that start at `a` and at `b`.
module _ (cfg : RingConfig) (a b : ℕ) where
  abbrev pub IsBase : ℕ → Type 0
  IsBase x = (x ≡ a) ⊎ (x ≡ b)

  abbrev pub IsRecord : ℕ → Type 0
  IsRecord x = ((a ≤ x) × (x < a + cfg.size)) ⊎ ((b ≤ x) × (x < b + cfg.size))

  -- The locals of a thread name a record of the buffers, a slot below `rc_size`, or an offset.
  abbrev pub IsAimed : Pc → Type 0
  IsAimed (placing n) = n < cfg.size
  IsAimed (stamping x) = IsRecord x
  IsAimed (storing x) = IsRecord x
  IsAimed (swap_load x) = IsBase x
  IsAimed (swap_cir x y) = IsBase x × IsBase y
  IsAimed (swap_alt x) = IsBase x
  IsAimed p = Unit

  abbrev pub HasBases : Shm → Type 0
  HasBases s = IsBase s.info.cir_off × IsBase s.info.alt_off

  abbrev pub IsAimedWriter : Writer → Type 0
  IsAimedWriter resting = Unit
  IsAimedWriter (sizing f base) = IsBase base
  IsAimedWriter (clearing base n) = IsBase base × (n / entry_size ≤ cfg.size)

  pub record IsWithin (s : State) : Type 0 where
    pub bases : HasBases s.shm
    pub aimed : (i : ℕ) → IsAimed (s.clients i).pc
    pub writer_aimed : IsAimedWriter s.writer

  -- No record outside the buffers changes.
  abbrev pub SameOutside : Shm → Shm → Type 0
  SameOutside s s' = (j : ℕ) → ¬ IsRecord j → s'.mem j ≡ s.mem j

  abbrev Keeps : Shm → Client × Shm → Type 0
  Keeps s r = IsAimed r.0.pc × HasBases r.1 × SameOutside s r.1

  IsAimed-return : (l : List Args) (c : Client) → IsAimed c.pc → IsAimed (return_to l c).pc
  IsAimed-return [] c h = h
  IsAimed-return (x ∷ l) c h = tt

  IsAimed-begin : (a : Args) (c : Client) → IsAimed c.pc → IsAimed (begin_call a c).pc
  IsAimed-begin a c h = elim (Bool-cases (is_idle c.pc c.callers)) [
    | inl e ↦ rw e tt
    | inr e ↦ rw e h
  ]

  HasBases-wipe : (w : Writer) (s : Shm) → HasBases s → HasBases (wipe_buffer w s)
  HasBases-wipe resting s h = h
  HasBases-wipe (sizing f base) s h = h
  HasBases-wipe (clearing base n) s h = h

  SameOutside-wipe : (w : Writer) (s : Shm) → IsAimedWriter w → SameOutside s (wipe_buffer w s)
  SameOutside-wipe resting s h j p = refl
  SameOutside-wipe (sizing f base) s h j p = refl
  SameOutside-wipe (clearing base n) s h j p = ground arith

  step_at-Keeps :
      (t : Stamp) (p : Pc) (c : Client) (s : Shm)
      → IsAimed p
      → HasBases s
      → IsAimed c.pc
      → Keeps s (step_at p cfg t c s)
  unfolding step_at store signal_thread
  step_at-Keeps t enter c s h o k = ground arith
  step_at-Keeps t (placing n) c s h o k = ground arith
  step_at-Keeps t (stamping x) c s h o k = ground arith
  step_at-Keeps t (storing x) c s h o k = ground arith
  step_at-Keeps t full c s h o k = ground arith
  step_at-Keeps t swapping c s h o k = ground arith
  step_at-Keeps t (swap_load x) c s h o k = ground arith
  step_at-Keeps t (swap_cir x y) c s h o k = ground arith
  step_at-Keeps t (swap_alt x) c s h o k = ground arith
  step_at-Keeps t (restarting true) c s h o k = ground arith
  step_at-Keeps t (restarting false) c s h o k = ground arith
  step_at-Keeps t reporting c s h o k = ground arith
  step_at-Keeps t signalling c s h o k = ground arith
  step_at-Keeps t retrying c s h o k = ground arith
  step_at-Keeps t (undoing n) c s h o k = ground arith
  step_at-Keeps t dropping c s h o k = ground arith
  step_at-Keeps t (waiting n) c s h o k = ground arith
  step_at-Keeps t again c s h o k = ground arith
  step_at-Keeps t (returned d) c s h o k = (IsAimed-return c.callers c k, o, λ j p. refl)

  -- Where the daemon sets `buf_size` for a flush of the active buffer, it is no longer than a buffer.
  abbrev pub IsShortFor : Writer → Shm → Type 0
  IsShortFor (sizing true base) s = buffer_bytes cfg true s / entry_size ≤ cfg.size
  IsShortFor w s = Unit

  abbrev pub IsShort : Event → State → Type 0
  IsShort measure s = IsShortFor s.writer s.shm
  IsShort e s = Unit

  abbrev pub AreShort : List Event → State → Type 0
  AreShort [] s = Unit
  AreShort (e ∷ es) s = IsShort e s × AreShort es (happen cfg e s)

  module _ (fits : cfg.data_size / entry_size ≤ cfg.size) where
    measured-IsAimedWriter :
        (w : Writer) (s : Shm) → IsAimedWriter w → IsShortFor w s → IsAimedWriter (measured cfg s w)
    measured-IsAimedWriter resting s h k = tt
    measured-IsAimedWriter (sizing true base) s h k = (h, k)
    measured-IsAimedWriter (sizing false base) s h k = (h, fits)
    measured-IsAimedWriter (clearing base n) s h k = h

    looked-IsBase : (f : Bool) (s : Shm) → HasBases s → IsBase (buffer_base f s)
    looked-IsBase true s h = h.0
    looked-IsBase false s h = h.1

    happen-IsWithin : (e : Event) (s : State) → IsShort e s → IsWithin s → IsWithin (happen cfg e s)
    unfolding happen step
    happen-IsWithin (move i t) s h w =
        let k =
          step_at-Keeps t (s.clients i).pc (s.clients i) s.shm (w.aimed i) w.bases (w.aimed i) in
        record {
          bases = k.1;
          aimed = update_all (λ (c : Client). IsAimed c.pc) s.clients i _ w.aimed k.0;
          writer_aimed = w.writer_aimed;
        }
    happen-IsWithin (call i a) s h w = record {
      bases = w.bases;
      aimed =
          update_all (λ (c : Client). IsAimed c.pc) s.clients i _ w.aimed
            (IsAimed-begin a (s.clients i) (w.aimed i));
      writer_aimed = w.writer_aimed;
    }
    happen-IsWithin (look f) s h w = record {
      bases = w.bases;
      aimed = w.aimed;
      writer_aimed = looked-IsBase f s.shm w.bases;
    }
    happen-IsWithin measure s h w = record {
      bases = w.bases;
      aimed = w.aimed;
      writer_aimed = measured-IsAimedWriter s.writer s.shm w.writer_aimed h;
    }
    happen-IsWithin wipe s h w = record {
      bases = HasBases-wipe s.writer s.shm w.bases;
      aimed = w.aimed;
      writer_aimed = tt;
    }
    happen-IsWithin take_lost s h w = record {
      bases = w.bases;
      aimed = w.aimed;
      writer_aimed = w.writer_aimed;
    }
    happen-IsWithin take_flush s h w = record {
      bases = w.bases;
      aimed = w.aimed;
      writer_aimed = w.writer_aimed;
    }

    happen-SameOutside :
        (e : Event) (s : State) → IsWithin s → SameOutside s.shm (happen cfg e s).shm
    unfolding happen step
    happen-SameOutside (move i t) s w j p =
        (step_at-Keeps t (s.clients i).pc (s.clients i) s.shm (w.aimed i) w.bases (w.aimed i)).2 j p
    happen-SameOutside (call i a) s w j p = refl
    happen-SameOutside (look f) s w j p = refl
    happen-SameOutside measure s w j p = refl
    happen-SameOutside wipe s w j p = SameOutside-wipe s.writer s.shm w.writer_aimed j p
    happen-SameOutside take_lost s w j p = refl
    happen-SameOutside take_flush s w j p = refl

    -- Whatever threads call `rbtrace`, and however their steps, their calls and the daemon's accesses
    -- interleave: from a state in which both offsets name a buffer and every thread is aimed within
    -- the buffers, each later state is such a state, and no record outside the two buffers has
    -- changed. It is assumed that `rc_data_size` is no longer than a buffer, and that whenever the
    -- daemon flushes the active buffer, the `ri_slot + 1` records that it takes are no more than
    -- `rc_size`.
    pub run-IsWithin :
        (es : List Event) (s : State)
        → IsWithin s
        → AreShort es s
        → IsWithin (run cfg es s) × SameOutside s.shm (run cfg es s).shm
    unfolding run
    run-IsWithin [] s w h = (w, λ j p. refl)
    run-IsWithin (e ∷ es) s w h =
        let r = run-IsWithin es (happen cfg e s) (happen-IsWithin e s h.0 w) h.1 in
        (r.0, λ j p. r.1 j p ∙ happen-SameOutside e s w j p)
