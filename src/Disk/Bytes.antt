-- ===== src/Disk/Bytes.antt =====
-- The bytes of a file after one write.
use rbtrace.Base.{ℕ, zero, suc, ◌+◌, ◌-◌, ◌≤◌, ◌<◌, ◌≡◌, ◌⊎◌, refl, arith}
use rbtrace.Disk.{File, written}

module _ (f : File) (buf : ℕ → ℕ) where
  pub byte-written_inside :
      (n off i : ℕ) → off ≤ i → i < off + n → (written f buf n off).byte i ≡ buf (i - off)
  byte-written_inside zero off i p q = absurd (omega arith)
  byte-written_inside (suc n) off i p q = ground arith

  pub byte-written_outside :
      (n off i : ℕ)
      → i < f.size
      → (i < off) ⊎ (off + n ≤ i)
      → (written f buf n off).byte i ≡ f.byte i
  byte-written_outside zero off i p q = refl
  byte-written_outside (suc n) off i p q = ground arith

  pub le-size-written : (n off : ℕ) → f.size ≤ (written f buf n off).size
  le-size-written zero off = omega arith
  le-size-written (suc n) off = omega arith

  pub end-le-size-written : (n off i : ℕ) → off ≤ i → i < off + n → i < (written f buf n off).size
  end-le-size-written zero off i p q = absurd (omega arith)
  end-le-size-written (suc n) off i p q = omega arith
