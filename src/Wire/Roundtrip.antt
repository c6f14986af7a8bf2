-- ===== src/Wire/Roundtrip.antt =====
-- The bytes of `struct rbtrace_entry`, include/rbtracedef.h, written and read.
use rbtrace.Base.{ℕ, zero, suc, ◌+◌, ◌/◌, ◌^◌, ◌≤◌, ◌<◌, ◌≡◌, ap, ◌∙◌, arith}
use native.Mathlib.Nat.{pow-suc}
use rbtrace.Trace.{Entry}
use rbtrace.Wire.{le_byte, le_read, pack_word, entry_byte, entry_at, Fits}

le_read-byte :
    (k n : ℕ) (m : ℕ → ℕ) (at : ℕ)
    → n < 256 ^ k
    → ((i : ℕ) → i < k → m (at + i) ≡ le_byte n i)
    → le_read k m at ≡ n
unfolding le_read le_byte
le_read-byte zero n m at h same = omega arith
le_read-byte (suc k) n m at h same = omega (
  arith,
  ap m {x = at} {y = at + 0} (omega arith) ∙ same 0 (omega arith),
  le_read-byte k (n / 256) m (at + 1) (omega (arith, pow-suc 256 k))
      λ i p. ap m {x = at + 1 + i} {y = at + suc i} (omega arith) ∙ same (suc i) (omega arith),
)

-- The field of `k` bytes at `lo` of a structure that lies at `at`, given by its bytes `g`.
pub field_at :
    (g : ℕ → ℕ) (m : ℕ → ℕ) (at size : ℕ)
    → ((i : ℕ) → i < size → m (at + i) ≡ g i)
    → (n lo k : ℕ) → lo + k ≤ size
    → n < 256 ^ k
    → ((i : ℕ) → i < k → g (lo + i) ≡ le_byte n i)
    → le_read k m (at + lo) ≡ n
field_at g m at size same n lo k h small bytes = le_read-byte k n m (at + lo) small λ i p.
    ap m {x = at + lo + i} {y = at + (lo + i)} (omega arith)
    ∙ same (lo + i) (omega arith)
    ∙ bytes i p

module _ (e : Entry) (f : Fits e) (m : ℕ → ℕ) (at : ℕ)
    (same : (i : ℕ) → i < 56 → m (at + i) ≡ entry_byte e i) where
  field :
      (n lo k : ℕ)
      → lo + k ≤ 56
      → n < 256 ^ k
      → ((i : ℕ) → i < k → entry_byte e (lo + i) ≡ le_byte n i)
      → le_read k m (at + lo) ≡ n
  field = field_at (entry_byte e) m at 56 same

  first_field : le_read 8 m at ≡ e.a0
  unfolding entry_byte
  first_field =
      ap (le_read 8 m) {x = at} {y = at + 0} (omega arith)
      ∙ field e.a0 0 8 (omega arith) (omega (arith, f.a0)) (λ i p. ground arith)

  word_field : le_read 4 m (at + 48) ≡ pack_word e
  unfolding entry_byte
  word_field =
      field (pack_word e) 48 4 (omega arith) (omega (arith, f.cpuid, f.thread, f.traceid))
        (λ i p. ground arith)

  pub entry_at_lem : entry_at m at ≡ e
  unfolding entry_at entry_byte
  entry_at_lem =
      rw
        (
          first_field,
          field e.a1 8 8 (omega arith) (omega (arith, f.a1)) (λ i p. ground arith),
          field e.a2 16 8 (omega arith) (omega (arith, f.a2)) (λ i p. ground arith),
          field e.a3 24 8 (omega arith) (omega (arith, f.a3)) (λ i p. ground arith),
          field e.sec 32 8 (omega arith) (omega (arith, f.sec)) (λ i p. ground arith),
          field e.nsec 40 8 (omega arith) (omega (arith, f.nsec)) (λ i p. ground arith),
          word_field,
        )
        (ground arith)
