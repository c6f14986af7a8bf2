-- ===== src/Ring/Spec.antt =====
-- What the double buffer of a ring promises: the batch being filled, the full batch that waits for
-- the daemon, and how many full batches were thrown away since.
use rbtrace.Base.{
  ℕ, ◌+◌, ◌-◌, ◌≤◌, ◌<◌, ◌^◌, ◌≡◌, ◌⊎◌, List, [], ◌∷◌, ◌++◌, Option, none, some, ltb, ◌==◌,
  if◌then◌else◌, u32, length, block, sign_extend,
}
use rbtrace.Trace.{Entry, Args, Stamp, RingConfig, zero_entry, stamped, filled}
use rbtrace.Ring.{Stamps, lost_args}
use rbtrace.Ring.State.{Shm}

pub record Batches : Type 0 where
  pub current : List Entry
  pub pending : Option (List Entry)
  pub dropped : ℕ

-- The record that a call makes.
abbrev pub entry_of : Stamp → Args → Entry
entry_of t c = filled c (stamped t zero_entry)

-- The record of `n` lost traces, logged only when there are some.
abbrev pub lost_report : Stamp → ℕ → List Entry
lost_report t n = if n == 0 then [] else entry_of t (lost_args (sign_extend n)) ∷ []

-- Filling a full batch starts the next one: the full batch waits if none does, else it is dropped.
unfoldable pub push : ℕ → Stamps → Args → ℕ → Batches → Batches
push size ts c lost b =
    if ltb (length b.current) size
    then record b { current = b.current ++ (entry_of ts.own c ∷ []) }
    else elim b.pending [
      | none ↦ record {
        current = lost_report ts.lost lost ++ (entry_of ts.own c ∷ []);
        pending = some b.current;
        dropped = 0;
      }
      | some full ↦ record {
        current = entry_of ts.own c ∷ [];
        pending = some full;
        dropped = b.dropped + 1;
      }
    ]

-- How many records stand in the batch being filled: the slot is the last one taken.
abbrev pub count : Shm → ℕ
count s = u32 (s.info.slot + 1)

abbrev pub contents : RingConfig → Shm → Batches
contents cfg s = record {
  current = block s.mem s.info.cir_off (count s);
  pending = if s.info.flush == 0 then none else some (block s.mem s.info.alt_off cfg.size);
  dropped = s.info.flush - 1;
}

-- The two buffers are the two halves of the ring, and the counters are 32-bit patterns.
pub record IsValid (cfg : RingConfig) (s : Shm) : Type 0 where
  pub large : 2 ≤ cfg.size
  pub small : cfg.size < 2 ^ 30
  pub halves :
      ((s.info.cir_off ≡ 0) × (s.info.alt_off ≡ cfg.size))
      ⊎ ((s.info.cir_off ≡ cfg.size) × (s.info.alt_off ≡ 0))
  pub filled_in : count s ≤ cfg.size
  pub slot_in : s.info.slot < 2 ^ 32
  pub flush_in : s.info.flush < 2 ^ 32
  pub lost_in : s.info.lost < 2 ^ 32
