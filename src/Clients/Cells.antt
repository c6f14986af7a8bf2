-- ===== src/Clients/Cells.antt =====
-- The records that threads are filling, in the order in which their slots were taken.
use rbtrace.Base.{
  ℕ, ◌++◌, zero, suc, ◌+◌, ◌-◌, ◌≤◌, ◌<◌, ◌^◌, ◌≡◌, ◌≢◌, ◌∙◌, fun_ext, ap₂, ℕ_discrete, Bool, true,
  List, [], ◌∷◌, arith, refl, ap, sym, ltb, leb, ◌&&◌, if◌then◌else◌, u32, update, update_self,
  update_ne,
}
use rbtrace.Trace.{Entry, Args, Stamp, RingConfig, stamped, filled}
use rbtrace.Ring.{next_slot, trace}
use rbtrace.Ring.State.{Shm}
use rbtrace.Ring.Spec.{count, entry_of}
use rbtrace.Ring.Branches.{trace_at_room}

-- A record with its slot taken, with the thread that took it and the arguments of its call; with the
-- stamp stored; with the arguments stored.
pub data Cell : Type 0 where
  taken : ℕ → Args → Cell
  half : ℕ → Stamp → Args → Cell
  whole : ℕ → Stamp → Args → Cell

abbrev pub image : Cell → Entry → Entry
image (taken i a) e = e
image (half i t a) e = stamped t e
image (whole i t a) e = filled a (stamped t e)

module _ (m : ℕ → Entry) (base : ℕ) where
  -- The memory `m` with the first `n` cells in the records from `base` on.
  abbrev pub mem_of : (ℕ → Cell) → ℕ → ℕ → Entry
  mem_of cells n j = if leb base j && ltb j (base + n) then image (cells (j - base)) (m j) else m j

  pub mem_of_at :
      (cells : ℕ → Cell) (n k : ℕ)
      → k < n
      → mem_of cells n (base + k) ≡ image (cells k) (m (base + k))
  mem_of_at cells n k h =
      let e : base + k - base ≡ k = omega arith in
      let d : (leb base (base + k) && ltb (base + k) (base + n)) ≡ true = ground arith in
      rw (d, e) refl

  pub mem_of_take :
      (cells : ℕ → Cell) (n i : ℕ) (a : Args)
      → mem_of (update cells n (taken i a)) (n + 1) ≡ mem_of cells n
  mem_of_take cells n i a = fun_ext λ j. ground arith

  pub mem_of_set :
      (cells : ℕ → Cell) (n k : ℕ) (c : Cell)
      → k < n
      → update (mem_of cells n) (base + k) (image c (m (base + k))) ≡ mem_of (update cells k c) n
  mem_of_set cells n k c h = fun_ext λ j. ground arith

  pub mem_of_none : (cells : ℕ → Cell) → mem_of cells 0 ≡ m
  mem_of_none cells = fun_ext λ j. ground arith

  mem_of_grow :
      (cells : ℕ → Cell) (n j : ℕ) → base + n ≢ j → mem_of cells n j ≡ mem_of cells (n + 1) j
  mem_of_grow cells n j d = ground arith

  mem_of_whole :
      (cells : ℕ → Cell) (n : ℕ) {i : ℕ} {t : Stamp} {a : Args}
      → cells n ≡ whole i t a
      → update (mem_of cells n) (base + n) (entry_of t a) ≡ mem_of cells (n + 1)
  mem_of_whole cells n {i} {t} {a} e = fun_ext λ j. elim (ℕ_discrete (base + n) j) [
    | yes d ↦
        rw
          (
            sym d,
            update_self (mem_of cells n) (base + n) (entry_of t a),
            mem_of_at cells (n + 1) n (omega arith),
            e,
          )
          refl
    | no d ↦ update_ne (mem_of cells n) (base + n) j (entry_of t a) d ∙ mem_of_grow cells n j d
  ]

-- The shared memory after `n` slots more were taken.
abbrev pub shm_of : Shm → ℕ → (ℕ → Entry) → Shm
shm_of s n m = record s { info = record s.info { slot = u32 (s.info.slot + n) }; mem = m }

-- A finished call: the thread that made it, its stamp and its arguments.
pub record Done : Type 0 where
  pub who : ℕ
  pub stamp : Stamp
  pub args : Args

-- Calls of `rbtrace` one after the other, each with its stamp.
abbrev pub traces : RingConfig → List Done → Shm → Shm
traces cfg [] s = s
traces cfg (r ∷ l) s =
    traces cfg l (trace cfg (record { own = r.stamp; lost = r.stamp }) r.args s).1

traces-append :
    (cfg : RingConfig) (l k : List Done) (s : Shm)
    → traces cfg (l ++ k) s ≡ traces cfg k (traces cfg l s)
traces-append cfg [] k s = refl
traces-append cfg (r ∷ l) k s =
    traces-append cfg l k (trace cfg (record { own = r.stamp; lost = r.stamp }) r.args s).1

abbrev pub call_in : Cell → List Done
call_in (whole i t a) = record { who = i; stamp = t; args = a } ∷ []
call_in c = []

-- The calls of the first `n` cells that are finished.
abbrev pub calls_in : (ℕ → Cell) → ℕ → List Done
calls_in cells zero = []
calls_in cells (suc n) = calls_in cells n ++ call_in (cells n)

abbrev pub IsWhole : Cell → Type 0
IsWhole c = (i : ℕ) × (t : Stamp) × (a : Args) × (c ≡ whole i t a)

-- One call more, on the memory with `n` cells finished.
traces_one :
    (cfg : RingConfig) (s : Shm) (cells : ℕ → Cell) (n i : ℕ) (t : Stamp) (a : Args)
    → cells n ≡ whole i t a
    → cfg.size < 2 ^ 30
    → s.info.slot < 2 ^ 32
    → count s + suc n ≤ cfg.size
    → traces cfg
        (call_in (whole i t a))
        (shm_of s n (mem_of s.mem (s.info.cir_off + count s) cells n))
      ≡ shm_of s (suc n) (mem_of s.mem (s.info.cir_off + count s) cells (suc n))
unfolding trace
traces_one cfg s cells n i t a e small slot_in room =
    let m = shm_of s n (mem_of s.mem (s.info.cir_off + count s) cells n) in
    ap (λ (r : Bool × Shm). r.1)
      (trace_at_room 1 cfg (record { own = t; lost = t }) a m (omega arith))
    ∙ ap₂ (λ k x. record s { info = record s.info { slot = k }; mem = x }) {x = next_slot m}
        {y = u32 (s.info.slot + suc n)} (omega arith)
        (ap (λ x. update m.mem x (entry_of t a)) {x = s.info.cir_off + next_slot m}
            {y = s.info.cir_off + count s + n} (omega arith)
          ∙ mem_of_whole s.mem (s.info.cir_off + count s) cells n e
          ∙ ap (mem_of s.mem (s.info.cir_off + count s) cells) {x = n + 1} {y = suc n}
              (omega arith))

pub traces-calls_in :
    (cfg : RingConfig) (s : Shm) (cells : ℕ → Cell) (n : ℕ)
    → cfg.size < 2 ^ 30
    → s.info.slot < 2 ^ 32
    → count s + n ≤ cfg.size
    → ((k : ℕ) → k < n → IsWhole (cells k))
    → traces cfg (calls_in cells n) s ≡ shm_of s n (mem_of s.mem (s.info.cir_off + count s) cells n)
unfolding trace
traces-calls_in cfg s cells zero small slot_in room w =
    ap₂ (λ n m. record s { info = record s.info { slot = n }; mem = m }) {x = s.info.slot}
      {y = u32 (s.info.slot + 0)} (omega arith)
      (sym (mem_of_none s.mem (s.info.cir_off + count s) cells))
traces-calls_in cfg s cells (suc n) small slot_in room w =
    let c = w n (omega arith) in
    let ih = traces-calls_in cfg s cells n small slot_in (omega arith) (λ k h. w k (omega arith)) in
    traces-append cfg (calls_in cells n) (call_in (cells n)) s
    ∙ ap (traces cfg (call_in (cells n))) ih
    ∙ ap
        (λ x. traces cfg (call_in x) (shm_of s n (mem_of s.mem (s.info.cir_off + count s) cells n)))
        c.3
    ∙ traces_one cfg s cells n c.0 c.1 c.2 c.3 small slot_in room
