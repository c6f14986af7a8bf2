-- ===== src/Control/Traffic.antt =====
-- The traffic flags: `rbtrace_ctrl_tflags` of rbtrace_backing.c, `rbtrace_traffic_enabled` of rbtrace.c.
use rbtrace.Base.{
  ℕ, ◌-◌, ◌*◌, ◌^◌, ◌<◌, ◌≡◌, refl, ap, ◌∙◌, Bool, true, false, not, ◌&&◌, ◌||◌, some, bit_and,
  bit_or, ◌==◌, digit, digit-bit_and, digit-bit_or, digit-complement, digit-le-one, power_pos,
  bit_and-power, leb, Bool-cases, inl, inr, arith,
}
use rbtrace.Trace.{rbt_traffic_last}
use rbtrace.Ring.{traffic_enabled}
use rbtrace.Ring.State.{Shm}
use rbtrace.Control.{ctrl, set_tflags}

-- A mask has the flag of the trace id.
abbrev pub has : ℕ → ℕ → Bool
has id t = not (bit_and t (2 ^ id) == 0)

has-digit : (id t : ℕ) → has id t ≡ not (digit id t == 0)
has-digit id t = elim (Bool-cases (digit id t == 0)) [
  | inl e ↦
      let none_there : digit id t ≡ 0 = ground arith in
      let masked : bit_and t (2 ^ id) ≡ 0 =
        bit_and-power id t ∙ ap (λ x. x * 2 ^ id) none_there ∙ omega arith in
      rw (e, masked) refl
  | inr e ↦
      let one_there : digit id t ≡ 1 = ground (arith, digit-le-one id t) in
      let masked : bit_and t (2 ^ id) ≡ 2 ^ id =
        bit_and-power id t ∙ ap (λ x. x * 2 ^ id) one_there ∙ omega arith in
      let there : (2 ^ id == 0) ≡ false = ground (arith, power_pos id) in rw (e, masked, there) refl
]

has-bit_or : (id a b : ℕ) → has id (bit_or a b) ≡ (has id a || has id b)
has-bit_or id a b =
    rw (has-digit id (bit_or a b), has-digit id a, has-digit id b, digit-bit_or id a b)
      (ground arith)

has-bit_and : (id a b : ℕ) → has id (bit_and a b) ≡ (has id a && has id b)
has-bit_and id a b =
    rw (has-digit id (bit_and a b), has-digit id a, has-digit id b, digit-bit_and id a b)
      (ground arith)

has-complement : (id t : ℕ) → id < 64 → t < 2 ^ 64 → has id (2 ^ 64 - 1 - t) ≡ not (has id t)
has-complement id t p q =
    rw (has-digit id (2 ^ 64 - 1 - t), has-digit id t, digit-complement 64 id (2 ^ 64) t p refl q)
      (ground (arith, digit-le-one id t))

-- For every trace id below RBT_TRAFFIC_LAST and every 64-bit mask: after the control operation has
-- set the mask, `rbtrace_traffic_enabled` holds if it did before or the mask has the flag of the
-- id; after it has cleared the mask, if it did before and the mask does not have the flag.
pub traffic_enabled-ctrl :
    (id t : ℕ) (s : Shm)
    → id < rbt_traffic_last
    → t < 2 ^ 64
    → (traffic_enabled 0 id (some (ctrl 0 (set_tflags (some (true, t))) s).1)
        ≡ (traffic_enabled 0 id (some s) || has id t))
      × (traffic_enabled 0 id (some (ctrl 0 (set_tflags (some (false, t))) s).1)
          ≡ (traffic_enabled 0 id (some s) && not (has id t)))
unfolding traffic_enabled ctrl
traffic_enabled-ctrl id t s p q =
    let known : leb rbt_traffic_last id ≡ false = ground arith in
    rw known (
      has-bit_or id s.info.tflags t,
      has-bit_and id s.info.tflags (2 ^ 64 - 1 - t)
          ∙ ap (λ b. has id s.info.tflags && b) (has-complement id t (omega arith) q),
    )
