-- ===== src/Tool/Masks.antt =====
-- The masks that `str_to_tflags` of include/rbtrace.h gives.
use rbtrace.Base.{
  ℕ, ◌≡◌, inl, inr, refl, Bool, true, ◌&&◌, if◌then◌else◌, List, [], ◌∷◌, Bool-cases,
}
use rbtrace.Text.{codes}
use rbtrace.Backing.State.{path_eq}
use rbtrace.Tool.{pieces_onto, str_to_tflags, tflags_onto}

-- Every piece is the one name that is known.
abbrev pub all_test : List (List ℕ) → Bool
all_test [] = true
all_test (p ∷ ps) = path_eq p (codes "TEST") && all_test ps

-- The mask 4 if there is a piece and each is TEST, and else 0.
abbrev pub mask_for : List (List ℕ) → ℕ
mask_for [] = 0
mask_for (p ∷ ps) = if all_test (p ∷ ps) then 4 else 0

tflags_onto-raised : (ps : List (List ℕ)) → tflags_onto 4 ps ≡ (if all_test ps then 4 else 0)
tflags_onto-raised [] = refl
tflags_onto-raised (p ∷ ps) = elim (Bool-cases (path_eq p (codes "TEST"))) [
  | inl e ↦ rw e (tflags_onto-raised ps)
  | inr e ↦ rw e refl
]

tflags_onto-mask_for : (ps : List (List ℕ)) → tflags_onto 0 ps ≡ mask_for ps
tflags_onto-mask_for [] = refl
tflags_onto-mask_for (p ∷ ps) = elim (Bool-cases (path_eq p (codes "TEST"))) [
  | inl e ↦ rw e (tflags_onto-raised ps)
  | inr e ↦ rw e refl
]

-- `str_to_tflags` gives the mask 4, of RBT_TRAFFIC_TEST, if the text has a piece and each of its
-- pieces is TEST; and 0 if it has none, or one with another name, wherever that stands.
pub str_to_tflags-mask_for : (text : List ℕ) → str_to_tflags text ≡ mask_for (pieces_onto [] text)
unfolding str_to_tflags
str_to_tflags-mask_for text = tflags_onto-mask_for (pieces_onto [] text)
