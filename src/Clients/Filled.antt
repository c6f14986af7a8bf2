-- ===== src/Clients/Filled.antt =====
-- A step of a thread that finds room in the buffer keeps the order of the cells.
use rbtrace.Base.{
  ℕ, suc, ◌+◌, ◌<◌, ◌^◌, ◌≡◌, ◌∙◌, fun_ext, true, List, [], ◌∷◌, arith, refl, ap, sym, subst,
  update, update_self, lt→ltb,
}
use rbtrace.Trace.{Args, Stamp, RingConfig, stamped, filled}
use rbtrace.Ring.{store}
use rbtrace.Ring.State.{Shm}
use rbtrace.Ring.Spec.{count}
use rbtrace.Clients.{
  Pc, Client, State, enter, placing, stamping, storing, returned, return_to, step_at,
}
use rbtrace.Clients.Cells.{Cell, half, whole, image, mem_of_at}
use rbtrace.Clients.Holding.{IsHeldBy, args_of, pending, Sits, Holds, IsOrdered, advances-IsOrdered}
use rbtrace.Clients.Filling.{InOrder, HasRoom, stepped, enters, places, writes}

pub update_same {ℓ} : {A : Type ℓ} (m : ℕ → A) (i : ℕ) → update m i (m i) ≡ m
update_same m i = fun_ext λ j. ground arith

return_none : (l : List Args) (c : Client) → l ≡ [] → return_to l c ≡ c
return_none [] c h = refl
return_none (a ∷ l) c h = absurd (ground arith)

module _ {cfg : RingConfig} {s0 : Shm} {hist : ℕ → List Args} (small : cfg.size < 2 ^ 30)
    (slot_in : s0.info.slot < 2 ^ 32) (t : Stamp) (i : ℕ) where
  module _ {n : ℕ} {cells : ℕ → Cell} {s : State} (x : IsOrdered cfg s0 n cells hist s) where
    seen :
        (k : ℕ)
        → k < n
        → s.shm.mem (s0.info.cir_off + count s0 + k)
          ≡ image (cells k) (s0.mem (s0.info.cir_off + count s0 + k))
    seen k l =
        ap (λ (m : Shm). m.mem (s0.info.cir_off + count s0 + k)) x.shm
        ∙ mem_of_at s0.mem (s0.info.cir_off + count s0) cells n k l

    pub move-InOrder :
        (p : Pc)
        → (s.clients i).pc ≡ p
        → HasRoom cfg p s.shm
        → Holds (count s0) (s0.info.cir_off + count s0) cells n i p (s.clients i).args
        → InOrder cfg s0 hist (stepped cfg t i p s)
    unfolding step_at store
    move-InOrder enter e room h =
        rw (lt→ltb _ _ room) (suc n, _, advances-IsOrdered x (enters x small slot_in t i e room))
    move-InOrder (placing m) e room h =
        let y = places x small slot_in t i m e h in (n, cells, advances-IsOrdered x y.1)
    move-InOrder (stamping z) e room (k, l, f, c) = (
      n,
      update cells k (half i t (s.clients i).args),
      rw f (
          advances-IsOrdered x (
            writes x small slot_in t i k l (half i t (s.clients i).args)
              (storing (s0.info.cir_off + count s0 + k)) _ (λ j h. sym (subst (IsHeldBy j) c h))
              (λ j h. (sym h, refl))
              (λ j h.
                let g = subst (Sits (count s0) (s0.info.cir_off + count s0) j) e h in
                omega (arith, f, g))
              (λ j. ap (args_of j) (sym c)) (k, l, refl, t, update_self cells k _)
              (ap (stamped t)
                (sym (seen k l ∙ ap (λ q. image q (s0.mem (s0.info.cir_off + count s0 + k))) c)))
              (ap (λ p. pending p (s.clients i).args) e))),
    )
    move-InOrder (storing z) e room (k, l, f, u, c) = (
      n,
      update cells k (whole i u (s.clients i).args),
      rw f (
          advances-IsOrdered x (
            writes x small slot_in t i k l (whole i u (s.clients i).args) (returned true) _
              (λ j h. sym (subst (IsHeldBy j) c h)) (λ j h. absurd h)
              (λ j h.
                let g = subst (Sits (count s0) (s0.info.cir_off + count s0) j) e h in
                omega (arith, f, g))
              (λ j. ap (args_of j) (sym c)) tt
              (ap (filled (s.clients i).args)
                (sym (seen k l ∙ ap (λ q. image q (s0.mem (s0.info.cir_off + count s0 + k))) c)))
              (ap (λ p. pending p (s.clients i).args) e))),
    )
    move-InOrder (returned d) e room h = (
      n,
      cells,
      subst (λ f. IsOrdered cfg s0 n cells hist (record s { clients = f }))
          (sym (
            ap (update s.clients i)
              (return_none (s.clients i).callers (s.clients i) (x.no_callers i))
            ∙ update_same s.clients i))
          x,
    )
    move-InOrder p e room h = absurd h
