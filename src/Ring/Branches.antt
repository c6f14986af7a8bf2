-- ===== src/Ring/Branches.antt =====
-- `rbtrace` on each of its branches, as an equation of the shared memory.
use rbtrace.Base.{
  ℕ, suc, ◌+◌, ◌≤◌, ◌<◌, ◌^◌, ◌≡◌, ap, ◌≢◌, ◌∙◌, Bool, true, false, ◌==◌, u32, minus_one,
  sign_extend, update, update-update, update_self, lt→ltb, le→ltb, arith, dec_lt, ℕ_discrete,
}
use rbtrace.Trace.{Entry, Args, Stamp, RingConfig, stamped, filled}
use rbtrace.Ring.{
  Stamps, lost_args, next_slot, set_slot, claim, turn_over, ringwrap, store, trace_at, trace,
}
use rbtrace.Ring.State.{Shm, signal_thread}
use rbtrace.Ring.Spec.{IsValid, count, entry_of}

-- The memory with `e` in the next free record.
abbrev pub placed : ℕ → Entry → Shm → Shm
placed n e s = record s {
  info = record s.info { slot = n };
  mem = update s.mem (s.info.cir_off + n) e;
}

pub store-claim :
    (t : Stamp) (c : Args) (n : ℕ) (s : Shm)
    → store c (s.info.cir_off + n) (claim t n (set_slot n s)).1 ≡ placed n (entry_of t c) s
unfolding store claim
store-claim t c n s =
    ap (λ m. record s { info = record s.info { slot = n }; mem = m })
      (update-update s.mem at (stamped t (s.mem at)) _
        ∙ ap (λ e. update s.mem at (filled c e)) (update_self s.mem at (stamped t (s.mem at))))
  where
    at : ℕ
    at = s.info.cir_off + n

-- While the batch has room, a call stores its record in the next slot.
pub trace_at_room :
    (d : ℕ) (cfg : RingConfig) (ts : Stamps) (c : Args) (s : Shm)
    → next_slot s < cfg.size
    → trace_at (suc d) cfg ts c s ≡ (true, placed (next_slot s) (entry_of ts.own c) s)
unfolding trace_at ringwrap claim
trace_at_room d cfg ts c s h =
    rw (lt→ltb _ _ h) (ap (λ x. (true, x)) (store-claim ts.own c (next_slot s) s))

-- The memory after the swap, with no record in the new batch.
abbrev pub swapped : Shm → Shm
swapped s = record s {
  info = record s.info {
    cir_off = s.info.alt_off;
    alt_off = s.info.cir_off;
    slot = minus_one;
    flush = 1;
    lost = 0;
  };
}

-- The memory after a full batch was thrown away.
abbrev pub discarded : Shm → Shm
discarded s = record s { info = record s.info { slot = minus_one; flush = s.info.flush + 1 } }

-- The calls of `rbtrace` nested `d` deep, as `turn_over` makes them.
abbrev pub log_at : ℕ → RingConfig → Stamps → ℕ → Shm → Shm
log_at d cfg ts lost s =
    (trace_at d cfg (record { own = ts.lost; lost = ts.lost }) (lost_args lost) s).1

module _ (log : ℕ → Shm → Shm) (n : ℕ) (s : Shm) where
  turn_over_swap :
      s.info.flush ≡ 0 → s.info.lost ≡ 0 → turn_over log (set_slot n s) ≡ signal_thread (swapped s)
  unfolding turn_over
  turn_over_swap idle none_lost = rw (idle, none_lost)

  turn_over_report :
      s.info.flush ≡ 0
      → s.info.lost ≢ 0
      → turn_over log (set_slot n s) ≡ signal_thread (log (sign_extend s.info.lost) (swapped s))
  unfolding turn_over
  turn_over_report idle some_lost =
      let e : (s.info.lost == 0) ≡ false = ground arith in rw (idle, e)

  turn_over_drop :
      s.info.flush ≢ 0
      → s.info.flush + 1 < 2 ^ 32
      → turn_over log (set_slot n s) ≡ signal_thread (discarded s)
  unfolding turn_over
  turn_over_drop busy small =
      let e : (u32 (s.info.flush + 1) == 1) ≡ false = ground arith in
      let f : u32 (s.info.flush + 1) ≡ s.info.flush + 1 = omega arith in rw (e, f)

-- A call that finds the batch full goes on in the memory that `turn_over` leaves.
trace_at_full :
    (d : ℕ) (cfg : RingConfig) (ts : Stamps) (c : Args) (s s1 : Shm)
    → next_slot s ≡ cfg.size
    → turn_over (log_at d cfg ts) (set_slot cfg.size s) ≡ s1
    → next_slot s1 < cfg.size
    → trace_at (suc d) cfg ts c s ≡ (true, placed (next_slot s1) (entry_of ts.own c) s1)
unfolding trace_at ringwrap claim
trace_at_full d cfg ts c s s1 full e h =
    let same : (cfg.size == cfg.size) ≡ true = ground arith in
    rw (full, le→ltb cfg.size cfg.size (omega arith), same, e, lt→ltb _ _ h)
      (ap (λ x. (true, x)) (store-claim ts.own c (next_slot s1) s1))

module _ (d : ℕ) (cfg : RingConfig) (ts : Stamps) (c : Args) (s : Shm) (large : 2 ≤ cfg.size)
    (full : next_slot s ≡ cfg.size) where
  -- A full batch and a daemon that is idle: the halves change places.
  trace_at_swap :
      s.info.flush ≡ 0
      → s.info.lost ≡ 0
      → trace_at (suc d) cfg ts c s
        ≡ (true, placed 0 (entry_of ts.own c) (signal_thread (swapped s)))
  unfolding signal_thread
  trace_at_swap idle none_lost =
      trace_at_full d cfg ts c s (signal_thread (swapped s)) full
        (turn_over_swap (log_at d cfg ts) cfg.size s idle none_lost) (omega arith)

  -- The same with lost traces to report: their record comes first.
  trace_at_swap_report :
      s.info.flush ≡ 0
      → s.info.lost ≢ 0
      → trace_at (suc (suc d)) cfg ts c s ≡ (
        true,
        placed 1 (entry_of ts.own c) (
            signal_thread
              (placed 0 (entry_of ts.lost (lost_args (sign_extend s.info.lost))) (swapped s))),
      )
  unfolding signal_thread
  trace_at_swap_report idle some_lost =
      trace_at_full (suc d) cfg ts c s _ full
        (turn_over_report (log_at (suc d) cfg ts) cfg.size s idle some_lost
          ∙ ap signal_thread logged)
        (omega arith)
    where
      logged :
          log_at (suc d) cfg ts (sign_extend s.info.lost) (swapped s)
          ≡ placed 0 (entry_of ts.lost (lost_args (sign_extend s.info.lost))) (swapped s)
      logged =
          ap (λ (r : Bool × Shm). r.1)
            (trace_at_room d cfg (record { own = ts.lost; lost = ts.lost })
              (lost_args (sign_extend s.info.lost)) (swapped s) (omega arith))

  -- A full batch while the last one still waits: it is thrown away.
  trace_at_drop :
      s.info.flush ≢ 0
      → s.info.flush + 1 < 2 ^ 32
      → trace_at (suc d) cfg ts c s
        ≡ (true, placed 0 (entry_of ts.own c) (signal_thread (discarded s)))
  unfolding signal_thread
  trace_at_drop busy small =
      trace_at_full d cfg ts c s (signal_thread (discarded s)) full
        (turn_over_drop (log_at d cfg ts) cfg.size s busy small) (omega arith)

-- To prove something of a call: prove it of the memory that each branch leaves.
pub trace_cases {ℓ} :
    (P : Bool × Shm → Type ℓ) (cfg : RingConfig) (ts : Stamps) (c : Args) (s : Shm)
    → IsValid cfg s
    → s.info.flush + 1 < 2 ^ 32
    → (count s < cfg.size → P (true, placed (count s) (entry_of ts.own c) s))
    → (count s ≡ cfg.size
        → s.info.flush ≡ 0
        → s.info.lost ≡ 0
        → P (true, placed 0 (entry_of ts.own c) (signal_thread (swapped s))))
    → (count s ≡ cfg.size
        → s.info.flush ≡ 0
        → s.info.lost ≢ 0
        → P (
          true,
          placed 1 (entry_of ts.own c) (
              signal_thread
                (placed 0 (entry_of ts.lost (lost_args (sign_extend s.info.lost))) (swapped s))),
        ))
    → (count s ≡ cfg.size
        → s.info.flush ≢ 0
        → P (true, placed 0 (entry_of ts.own c) (signal_thread (discarded s))))
    → P (trace cfg ts c s)
unfolding trace
trace_cases P cfg ts c s v small room swap report drop = elim (dec_lt (count s) cfg.size) [
  | yes h ↦ rw (trace_at_room 1 cfg ts c s h) (room h)
  | no h ↦
      let full : count s ≡ cfg.size = omega (arith, v.filled_in) in
      elim (ℕ_discrete s.info.flush 0) [
        | no busy ↦ rw (trace_at_drop 1 cfg ts c s v.large full busy small) (drop full busy)
        | yes idle ↦ elim (ℕ_discrete s.info.lost 0) [
          | yes none_lost ↦
              rw (trace_at_swap 1 cfg ts c s v.large full idle none_lost) (swap full idle none_lost)
          | no some_lost ↦
              rw (trace_at_swap_report 0 cfg ts c s v.large full idle some_lost)
                (report full idle some_lost)
        ]
      ]
]
