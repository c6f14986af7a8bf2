-- ===== src/Base/Memory.antt =====
-- Memory as a function of the index: one write, and the list of the cells of a range.
use Prim.Native.Nat.{ℕ, zero, suc, ◌+◌, ◌≤◌, ◌<◌}
use mathlib.Core.Path.{◌≡◌, refl, ap, ap₂, ◌∙◌, fun_ext}
use mathlib.Core.Logic.{◌⊎◌, ◌≢◌, inl, inr}
use mathlib.Core.List.{List, [], ◌∷◌, ◌++◌}
use native.Mathlib.Omega.{arith}
use rbtrace.Base.Tests.{◌==◌, if◌then◌else◌, Bool-cases}
use rbtrace.Base.Lists.{length}

module _ {ℓ} {A : Type ℓ} where
  abbrev pub update : (ℕ → A) → ℕ → A → ℕ → A
  update m i v j = if i == j then v else m j

  -- the `n` cells from index `off` on
  abbrev pub block : (ℕ → A) → ℕ → ℕ → List A
  block m off zero = []
  block m off (suc n) = m off ∷ block m (off + 1) n

  pub update_self : (m : ℕ → A) (i : ℕ) (v : A) → update m i v i ≡ v
  update_self m i v = ground arith

  pub update_ne : (m : ℕ → A) (i j : ℕ) (v : A) → i ≢ j → update m i v j ≡ m j
  update_ne m i j v h = ground arith

  -- What holds of every cell and of the new value holds of every cell after a write.
  pub update_all {κ} :
      (P : A → Type κ) (m : ℕ → A) (i : ℕ) (v : A)
      → ((j : ℕ) → P (m j))
      → P v
      → (j : ℕ) → P (update m i v j)
  update_all P m i v h p j = elim (Bool-cases (i == j)) [ inl e ↦ rw e p | inr e ↦ rw e (h j) ]

  pub update-update : (m : ℕ → A) (i : ℕ) (v w : A) → update (update m i v) i w ≡ update m i w
  update-update m i v w = fun_ext λ j. ground arith

  pub length-block : (m : ℕ → A) (off n : ℕ) → length (block m off n) ≡ n
  length-block m off zero = refl
  length-block m off (suc n) = ap suc (length-block m (off + 1) n)

  pub block_ext :
      (m k : ℕ → A) (off n : ℕ)
      → ((j : ℕ) → off ≤ j → j < off + n → m j ≡ k j)
      → block m off n ≡ block k off n
  block_ext m k off zero h = refl
  block_ext m k off (suc n) h =
      ap₂ ◌∷◌ (h off (omega arith) (omega arith))
        (block_ext m k (off + 1) n (λ j p q. h j (omega arith) (omega arith)))

  pub block-update_outside :
      (m : ℕ → A) (i : ℕ) (v : A) (off n : ℕ)
      → (i < off) ⊎ (off + n ≤ i)
      → block (update m i v) off n ≡ block m off n
  block-update_outside m i v off n h =
      block_ext (update m i v) m off n (λ j p q. update_ne m i j v (ground arith))

  pub block-snoc :
      (m : ℕ → A) (off n : ℕ) → block m off (suc n) ≡ block m off n ++ (m (off + n) ∷ [])
  block-snoc m off zero = ap (λ k. m k ∷ []) {x = off} {y = off + 0} (omega arith)
  block-snoc m off (suc n) =
      ap (λ t. m off ∷ t)
        (block-snoc m (off + 1) n
          ∙ ap (λ k. block m (off + 1) n ++ (m k ∷ [])) {x = off + 1 + n} {y = off + suc n}
              (omega arith))

  -- A write just past a block extends it.
  pub block-update_last :
      (m : ℕ → A) (off n : ℕ) (v : A)
      → block (update m (off + n) v) off (suc n) ≡ block m off n ++ (v ∷ [])
  block-update_last m off n v =
      block-snoc (update m (off + n) v) off n
      ∙ ap₂ (λ t w. t ++ (w ∷ [])) (block-update_outside m (off + n) v off n (inr (omega arith)))
          (update_self m (off + n) v)
