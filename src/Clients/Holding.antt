-- ===== src/Clients/Holding.antt =====
-- Which thread holds which record while the buffer has room: the link between the places of the
-- threads and the cells.
use rbtrace.Base.{
  ℕ, zero, suc, ◌+◌, ◌≤◌, ◌<◌, ◌≡◌, ◌≢◌, ◌∙◌, Bool, true, false, List, [], ◌∷◌, ◌++◌, arith, refl,
  ap₂, sym, subst, ◌==◌, update, update_self, update_ne, update_all, ℕ_discrete,
}
use rbtrace.Trace.{Args, Stamp, RingConfig}
use rbtrace.Ring.State.{Shm}
use rbtrace.Ring.Spec.{count}
use rbtrace.Clients.{Pc, Client, State, enter, placing, stamping, storing, returned}
use rbtrace.Clients.Cells.{Cell, taken, half, whole, mem_of, shm_of}

-- The cell is being filled by the thread.
abbrev pub IsHeldBy : ℕ → Cell → Type 0
IsHeldBy j (taken i a) = i ≡ j
IsHeldBy j (half i t a) = i ≡ j
IsHeldBy j (whole i t a) = ⊥

-- The arguments in a cell, when the thread is its owner.
abbrev pub args_if : Bool → Args → List Args
args_if true a = a ∷ []
args_if false a = []

abbrev pub args_of : ℕ → Cell → List Args
args_of j (taken i a) = args_if (i == j) a
args_of j (half i t a) = args_if (i == j) a
args_of j (whole i t a) = args_if (i == j) a

-- The arguments of a thread's calls among the first `n` cells.
abbrev pub args_in : ℕ → (ℕ → Cell) → ℕ → List Args
args_in j cells zero = []
args_in j cells (suc n) = args_in j cells n ++ args_of j (cells n)

-- The arguments of a call that has no cell yet.
abbrev pub pending : Pc → Args → List Args
pending enter a = a ∷ []
pending p a = []

pub args_in_ext :
    (j : ℕ) (cells cells' : ℕ → Cell) (n : ℕ)
    → ((k : ℕ) → k < n → args_of j (cells' k) ≡ args_of j (cells k))
    → args_in j cells' n ≡ args_in j cells n
args_in_ext j cells cells' zero h = refl
args_in_ext j cells cells' (suc n) h =
    ap₂ ◌++◌ (args_in_ext j cells cells' n (λ k l. h k (omega arith))) (h n (omega arith))

-- `base` is the first record past those that the buffer held, and `first` its slot.
module _ (first base : ℕ) where
  -- The place of a thread that fills cell `k`.
  abbrev pub Sits : ℕ → Pc → Type 0
  Sits k (placing m) = m ≡ first + k
  Sits k (stamping x) = x ≡ base + k
  Sits k (storing x) = x ≡ base + k
  Sits k p = ⊥

  abbrev pub Holds : (ℕ → Cell) → ℕ → ℕ → Pc → Args → Type 0
  Holds cells n i enter a = Unit
  Holds cells n i (placing m) a = (k : ℕ) × (k < n) × (m ≡ first + k) × (cells k ≡ taken i a)
  Holds cells n i (stamping x) a = (k : ℕ) × (k < n) × (x ≡ base + k) × (cells k ≡ taken i a)
  Holds cells n i (storing x) a =
      (k : ℕ) × (k < n) × (x ≡ base + k) × (t : Stamp) × (cells k ≡ half i t a)
  Holds cells n i (returned d) a = Unit
  Holds cells n i p a = ⊥

  pub Holds-ext :
      (cells cells' : ℕ → Cell) (n n' i : ℕ) (p : Pc) (a : Args)
      → ((k : ℕ) → k < n → IsHeldBy i (cells k) → (k < n') × (cells' k ≡ cells k))
      → Holds cells n i p a
      → Holds cells' n' i p a
  Holds-ext cells cells' n n' i enter a f h = tt
  Holds-ext cells cells' n n' i (placing m) a f (k, l, e, c) =
      let g = f k l (subst (IsHeldBy i) (sym c) refl) in (k, g.0, e, g.1 ∙ c)
  Holds-ext cells cells' n n' i (stamping m) a f (k, l, e, c) =
      let g = f k l (subst (IsHeldBy i) (sym c) refl) in (k, g.0, e, g.1 ∙ c)
  Holds-ext cells cells' n n' i (storing m) a f (k, l, e, t, c) =
      let g = f k l (subst (IsHeldBy i) (sym c) refl) in (k, g.0, e, t, g.1 ∙ c)
  Holds-ext cells cells' n n' i (returned d) a f h = tt
  Holds-ext cells cells' n n' i p a f h = absurd h

-- A run from the memory `s0` that has taken `n` slots, with room for them all: the memory is `s0`
-- with the cells in it, each thread holds the cell that its place names, each cell being filled is
-- held, and the calls of each thread, `hist`, are those in its cells and the one that has none yet.
pub record IsOrdered (cfg : RingConfig) (s0 : Shm) (n : ℕ) (cells : ℕ → Cell) (hist : ℕ → List Args)
    (s : State) : Type 0 where
  pub shm : s.shm ≡ shm_of s0 n (mem_of s0.mem (s0.info.cir_off + count s0) cells n)
  pub room : count s0 + n ≤ cfg.size
  pub held :
      (i : ℕ)
      → Holds (count s0) (s0.info.cir_off + count s0) cells n i (s.clients i).pc (s.clients i).args
  pub no_callers : (i : ℕ) → (s.clients i).callers ≡ []
  pub sits :
      (k i : ℕ)
      → k < n
      → IsHeldBy i (cells k)
      → Sits (count s0) (s0.info.cir_off + count s0) k (s.clients i).pc
  pub made : (i : ℕ) → hist i ≡ args_in i cells n ++ pending (s.clients i).pc (s.clients i).args

-- What a step of the thread `i` at cell `at` has to bring.
pub record Advances (cfg : RingConfig) (s0 : Shm) (n n' at i : ℕ) (cells cells' : ℕ → Cell)
    (hist hist' : ℕ → List Args) (s : State) (c : Client) (m : Shm) : Type 0 where
  pub grows : n ≤ n'
  pub new : (k : ℕ) → k < n' → k ≢ at → k < n
  pub same : (k : ℕ) → k ≢ at → cells' k ≡ cells k
  pub here : (k : ℕ) → Sits (count s0) (s0.info.cir_off + count s0) k (s.clients i).pc → k ≡ at
  pub mine : (j : ℕ) → at < n → IsHeldBy j (cells at) → j ≡ i
  pub now :
      (j : ℕ)
      → at < n'
      → IsHeldBy j (cells' at)
      → (j ≡ i) × Sits (count s0) (s0.info.cir_off + count s0) at c.pc
  pub shm : m ≡ shm_of s0 n' (mem_of s0.mem (s0.info.cir_off + count s0) cells' n')
  pub room : count s0 + n' ≤ cfg.size
  pub held : Holds (count s0) (s0.info.cir_off + count s0) cells' n' i c.pc c.args
  pub no_callers : c.callers ≡ []
  pub others :
      (j : ℕ) → j ≢ i → hist' j ≡ args_in j cells' n' ++ pending (s.clients j).pc (s.clients j).args
  pub made : hist' i ≡ args_in i cells' n' ++ pending c.pc c.args

module _ {cfg : RingConfig} {s0 : Shm} {n n' at i : ℕ} {cells cells' : ℕ → Cell}
    {hist hist' : ℕ → List Args} {s : State} {c : Client} {m : Shm}
    (x : IsOrdered cfg s0 n cells hist s)
    (y : Advances cfg s0 n n' at i cells cells' hist hist' s c m) where
  Holds-then :
      (j : ℕ)
      → Holds
          (count s0)
          (s0.info.cir_off + count s0)
          cells'
          n'
          j
          (update s.clients i c j).pc
          (update s.clients i c j).args
  Holds-then j = elim (ℕ_discrete i j) [
    | yes d ↦ rw (sym d, update_self s.clients i c) y.held
    | no d ↦ rw (update_ne s.clients i j c d) (
        Holds-ext (count s0) (s0.info.cir_off + count s0) cells cells' n n' j (s.clients j).pc
          (s.clients j).args
          (λ k l h. (
            omega (arith, y.grows),
            y.same k (λ e.
                d (
                  sym (y.mine j (subst (λ z. z < n) e l) (subst (λ z. IsHeldBy j (cells z)) e h)))),
          ))
          (x.held j))
  ]

  Sits-then :
      (k j : ℕ)
      → k < n'
      → IsHeldBy j (cells' k)
      → Sits (count s0) (s0.info.cir_off + count s0) k (update s.clients i c j).pc
  Sits-then k j l h = elim (ℕ_discrete k at) [
    | yes e ↦
        let r = y.now j (subst (λ z. z < n') e l) (subst (λ z. IsHeldBy j (cells' z)) e h) in
        rw (e, r.0, update_self s.clients i c) r.1
    | no e ↦
        let w = x.sits k j (y.new k l e) (subst (IsHeldBy j) (y.same k e) h) in
        elim (ℕ_discrete i j) [
          | yes d ↦ absurd (e (y.here k (rw d w)))
          | no d ↦ rw (update_ne s.clients i j c d) w
        ]
  ]

  made_then :
      (j : ℕ)
      → hist' j
        ≡ args_in j cells' n' ++ pending (update s.clients i c j).pc (update s.clients i c j).args
  made_then j = elim (ℕ_discrete i j) [
    | yes d ↦ rw (sym d, update_self s.clients i c) y.made
    | no d ↦ rw (update_ne s.clients i j c d) (y.others j (λ e. d (sym e)))
  ]

  -- The step keeps the order.
  pub advances-IsOrdered :
      IsOrdered cfg s0 n' cells' hist' (record s { shm = m; clients = update s.clients i c })
  advances-IsOrdered = record {
    shm = y.shm;
    room = y.room;
    held = Holds-then;
    no_callers =
        λ j. update_all (λ (z : Client). z.callers ≡ []) s.clients i c x.no_callers y.no_callers j;
    sits = Sits-then;
    made = made_then;
  }
