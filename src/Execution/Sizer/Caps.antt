-- ===== src/Execution/Sizer/Caps.antt =====
-- What a size keeps to.
use aimos.Prelude.{◌≡◌, List, [], ◌∷◌, false, arith, All}
use aimos.Prelude.Floats.{Floats, ◌<?◌, IsStrict}
use aimos.Execution.Sizer.{Cap, lower_cap, binding_cap}

module _ {F : Type 0} ⦃fl : Floats F⦄ (strict : IsStrict fl) where
  lower_cap-below :
      (x : F) (best c : Cap F) → (x <? best.1) ≡ false → (x <? (lower_cap best c).1) ≡ false
  lower_cap-below x best c h = ground (arith, h, strict.trans x c.1 best.1)

  lower_cap-second : (best c : Cap F) → (c.1 <? (lower_cap best c).1) ≡ false
  lower_cap-second best c = ground (arith, strict.irrefl c.1)

  binding_cap-below :
      (x : F) (best : Cap F) (cs : List (Cap F))
      → (x <? best.1) ≡ false
      → (x <? (binding_cap best cs).1) ≡ false
  binding_cap-below x best [] h = h
  binding_cap-below x best (c ∷ cs) h =
      binding_cap-below x (lower_cap best c) cs (lower_cap-below x best c h)

  binding_cap-All :
      (best : Cap F) (cs : List (Cap F)) → All (λ c. (c.1 <? (binding_cap best cs).1) ≡ false) cs
  binding_cap-All best [] = tt
  binding_cap-All best (c ∷ cs) = (
    binding_cap-below c.1 (lower_cap best c) cs (lower_cap-second best c),
    binding_cap-All (lower_cap best c) cs,
  )

  -- The first cap and all others allow no less than the binding one.
  pub binding_cap_lem :
      (best : Cap F) (cs : List (Cap F))
      → All (λ c. (c.1 <? (binding_cap best cs).1) ≡ false) (best ∷ cs)
  binding_cap_lem best cs =
      (binding_cap-below best.1 best cs (strict.irrefl best.1), binding_cap-All best cs)
