-- ===== src/Clients/Filling.antt =====
-- The steps of a thread that finds room in the buffer: it takes a slot, computes the address of the
-- record, stores the stamp, and stores the arguments.
use rbtrace.Base.{
  ℕ, suc, ◌+◌, ◌<◌, ◌^◌, ◌≡◌, ◌≢◌, ◌∙◌, true, false, List, [], ◌∷◌, ◌++◌, append-nil, arith, refl,
  ap, ap₂, sym, subst, ◌==◌, update, update_self, update_ne, ℕ_discrete, u32,
}
use rbtrace.Trace.{Entry, Args, Stamp, RingConfig}
use rbtrace.Ring.{next_slot, set_slot}
use rbtrace.Ring.State.{Shm}
use rbtrace.Ring.Spec.{count}
use rbtrace.Clients.{Pc, State, enter, placing, stamping, goto, step_at}
use rbtrace.Clients.Cells.{Cell, taken, image, mem_of, mem_of_take, mem_of_set, shm_of}
use rbtrace.Clients.Holding.{
  IsHeldBy, args_if, args_of, args_in, args_in_ext, pending, Sits, Holds, IsOrdered, Advances,
}

args_in_set :
    (j k : ℕ) (c : Cell) (cells : ℕ → Cell) (n : ℕ)
    → args_of j c ≡ args_of j (cells k)
    → args_in j (update cells k c) n ≡ args_in j cells n
args_in_set j k c cells n e = args_in_ext j cells (update cells k c) n λ l b.
    elim (ℕ_discrete k l) [
      | yes d ↦ rw (sym d, update_self cells k c) e
      | no d ↦ ap (args_of j) (update_ne cells k l c d)
    ]

args_in_take :
    (j : ℕ) (c : Cell) (cells : ℕ → Cell) (n : ℕ)
    → args_in j (update cells n c) (suc n) ≡ args_in j cells n ++ args_of j c
args_in_take j c cells n =
    ap₂ ◌++◌
      (args_in_ext j cells (update cells n c) n
        (λ k l. ap (args_of j) (update_ne cells n k c (λ e. omega (arith, e, l)))))
      (ap (args_of j) (update_self cells n c))

args_in_take_other :
    (i j : ℕ) (a : Args) (cells : ℕ → Cell) (n : ℕ)
    → j ≢ i
    → args_in j (update cells n (taken i a)) (suc n) ≡ args_in j cells n
args_in_take_other i j a cells n d =
    let e : (i == j) ≡ false = ground arith in
    args_in_take j (taken i a) cells n
    ∙ ap (λ b. args_in j cells n ++ args_if b a) e
    ∙ append-nil (args_in j cells n)

args_in_take_own :
    (i : ℕ) (a : Args) (cells : ℕ → Cell) (n : ℕ)
    → args_in i (update cells n (taken i a)) (suc n) ≡ args_in i cells n ++ (a ∷ [])
args_in_take_own i a cells n =
    let e : (i == i) ≡ true = ground arith in
    args_in_take i (taken i a) cells n ∙ ap (λ b. args_in i cells n ++ args_if b a) e

-- A state in order, for some number of slots and some cells.
abbrev pub InOrder : RingConfig → Shm → (ℕ → List Args) → State → Type 0
InOrder cfg s0 hist s = (n : ℕ) × (cells : ℕ → Cell) × IsOrdered cfg s0 n cells hist s

-- What the step takes from the shared memory.
abbrev pub HasRoom : RingConfig → Pc → Shm → Type 0
HasRoom cfg enter s = next_slot s < cfg.size
HasRoom cfg p s = Unit

abbrev pub stepped : RingConfig → Stamp → ℕ → Pc → State → State
stepped cfg t i p s =
    let r = step_at p cfg t (s.clients i) s.shm in
    record s { shm = r.1; clients = update s.clients i r.0 }

module _ {cfg : RingConfig} {s0 : Shm} {n : ℕ} {cells : ℕ → Cell} {hist : ℕ → List Args} {s : State}
    (x : IsOrdered cfg s0 n cells hist s) (small : cfg.size < 2 ^ 30)
    (slot_in : s0.info.slot < 2 ^ 32) (t : Stamp) (i : ℕ) where
  abbrev base : ℕ
  base = s0.info.cir_off + count s0

  slot_now : s.shm.info.slot ≡ u32 (s0.info.slot + n)
  slot_now = ap (λ (m : Shm). m.info.slot) x.shm

  next_now : next_slot s.shm < cfg.size → next_slot s.shm ≡ count s0 + n
  next_now room = omega (arith, slot_now, x.room)

  abbrev new_cells : ℕ → Cell
  new_cells = update cells n (taken i (s.clients i).args)

  pub enters :
      (s.clients i).pc ≡ enter
      → next_slot s.shm < cfg.size
      → Advances cfg s0 n
          (suc n)
          n
          i
          cells
          new_cells
          hist
          hist
          s
          (goto (placing (next_slot s.shm)) (s.clients i))
          (set_slot (next_slot s.shm) s.shm)
  enters e room = record {
    grows = omega arith;
    new = λ k l d. omega arith;
    same = λ k d. update_ne cells n k (taken i (s.clients i).args) (λ f. d (sym f));
    here = λ k h. absurd (subst (Sits (count s0) base k) e h);
    mine = λ j l. absurd (omega (arith, l));
    now = λ j l h. (sym (subst (IsHeldBy j) (update_self cells n _) h), next_now room);
    shm =
        ap (λ (m : Shm). set_slot (next_slot m) m) x.shm
        ∙ ap₂ (λ k m. record s0 { info = record s0.info { slot = k }; mem = m })
            {x = u32 (u32 (s0.info.slot + n) + 1)} {y = u32 (s0.info.slot + suc n)} (omega arith)
            (sym (mem_of_take s0.mem base cells n i (s.clients i).args)
              ∙ ap (mem_of s0.mem base new_cells) {x = n + 1} {y = suc n} (omega arith));
    room = omega (arith, room, slot_now, x.room);
    held = (n, omega arith, next_now room, update_self cells n (taken i (s.clients i).args));
    no_callers = x.no_callers i;
    others = λ j d.
        x.made j
        ∙ ap (λ l. l ++ pending (s.clients j).pc (s.clients j).args)
            (sym (args_in_take_other i j (s.clients i).args cells n d));
    made =
        x.made i
        ∙ ap (λ p. args_in i cells n ++ pending p (s.clients i).args) e
        ∙ sym (args_in_take_own i (s.clients i).args cells n)
        ∙ sym (append-nil (args_in i new_cells (suc n)));
  }

  addressed : (m k : ℕ) → m ≡ count s0 + k → s.shm.info.cir_off + m ≡ base + k
  addressed m k f = let e = ap (λ (z : Shm). z.info.cir_off) x.shm in omega (arith, e, f)

  pub places :
      (m : ℕ)
      → (s.clients i).pc ≡ placing m
      → Holds (count s0) base cells n i (placing m) (s.clients i).args
      → (at : ℕ) × Advances cfg s0 n n at i cells cells hist hist s
          (goto (stamping (s.shm.info.cir_off + m)) (s.clients i))
          s.shm
  places m e (k, l, f, c) = (
    k,
    record {
      grows = omega arith;
      new = λ j b d. b;
      same = λ j d. refl;
      here = λ j h. let g = subst (Sits (count s0) base j) e h in omega (arith, f, g);
      mine = λ j b h. sym (subst (IsHeldBy j) c h);
      now = λ j b h. (sym (subst (IsHeldBy j) c h), addressed m k f);
      shm = x.shm;
      room = x.room;
      held = (k, l, addressed m k f, c);
      no_callers = x.no_callers i;
      others = λ j d. x.made j;
      made = x.made i ∙ ap (λ p. args_in i cells n ++ pending p (s.clients i).args) e;
    },
  )

  -- A store into the record of cell `k`.
  pub writes :
      (k : ℕ) (l : k < n) (d : Cell) (p : Pc) (v : Entry)
      → ((j : ℕ) → IsHeldBy j (cells k) → j ≡ i)
      → ((j : ℕ) → IsHeldBy j d → (j ≡ i) × Sits (count s0) base k p)
      → ((j : ℕ) → Sits (count s0) base j (s.clients i).pc → j ≡ k)
      → ((j : ℕ) → args_of j d ≡ args_of j (cells k))
      → Holds (count s0) base (update cells k d) n i p (s.clients i).args
      → image d (s0.mem (base + k)) ≡ v
      → pending (s.clients i).pc (s.clients i).args ≡ pending p (s.clients i).args
      → Advances cfg s0 n n k i cells
          (update cells k d)
          hist
          hist
          s
          (goto p (s.clients i))
          (record s.shm { mem = update s.shm.mem (base + k) v })
  writes k l d p v own own' sits args held val pend = record {
    grows = omega arith;
    new = λ j b e. b;
    same = λ j e. update_ne cells k j d (λ f. e (sym f));
    here = sits;
    mine = λ j b h. own j h;
    now = λ j b h. own' j (subst (IsHeldBy j) (update_self cells k d) h);
    shm =
        ap (λ (m : Shm). record m { mem = update m.mem (base + k) v }) x.shm
        ∙ ap (λ f. shm_of s0 n f)
            (ap (update (mem_of s0.mem base cells n) (base + k)) (sym val)
              ∙ mem_of_set s0.mem base cells n k d l);
    room = x.room;
    held = held;
    no_callers = x.no_callers i;
    others = λ j e.
        x.made j
        ∙ ap (λ a. a ++ pending (s.clients j).pc (s.clients j).args)
            (sym (args_in_set j k d cells n (args j)));
    made = x.made i ∙ ap₂ ◌++◌ (sym (args_in_set i k d cells n (args i))) pend;
  }
