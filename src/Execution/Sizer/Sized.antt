-- ===== src/Execution/Sizer/Sized.antt =====
-- What the sizer gives, on every branch.
use aimos.Prelude.{
  ◌≡◌, refl, ◌⊎◌, inl, inr, true, false, not, ◌||◌, none, some, List, ◌∷◌, ◌++◌, arith, All,
  Bool-cases, Option-cases, On, absent, present, On-some,
}
use aimos.Prelude.Floats.{Floats, ◌<?◌, ◌≤?◌, nat, truthy, IsStrict}
use aimos.Schemas.{Reason, TradePlan, ExecContext}
use aimos.Execution.Sizer.{
  Cap, SizerCfg, SizingInputs, SizingResult, geometry, exit_slippage_cap, caps_of, binding_cap,
  risk_size_of, frac_risk_of, conclude, size,
}
use aimos.Execution.Sizer.Caps.{binding_cap_lem}

module _ {F : Type 0} ⦃fl : Floats F⦄ (cfg : SizerCfg F) (plan : TradePlan F) (ctx : ExecContext F)
    (inputs : SizingInputs F) where
  -- The plan has got the size `final`, which is finite, above zero and no less than the minimum.
  pub record IsPlaced (final : F) (r : SizingResult F) (p : TradePlan F) : Type 0 where
    pub accepted : r.rejected ≡ false
    pub answer : r.size_quote ≡ some final
    pub set : p ≡ record plan { size_quote = some final; reasons = plan.reasons ++ r.reasons }
    pub finite : fl.is_finite final ≡ true
    pub positive : (final ≤? nat 0) ≡ false
    pub worth_placing : (final <? inputs.min_notional_usd) ≡ false

  -- The plan is as it was.
  pub record IsRejected (r : SizingResult F) (p : TradePlan F) : Type 0 where
    pub rejected : r.rejected ≡ true
    pub unsized : r.size_quote ≡ none
    pub kept : p ≡ plan

  -- A size that is no more than any of the caps allows.
  pub record IsSized (r : SizingResult F) (p : TradePlan F) : Type 0 where
    pub final : F
    pub levels : F × F
    pub exit_caps : List (Cap F)
    pub has_levels : geometry plan ≡ some levels
    pub has_exit :
        exit_slippage_cap (risk_size_of cfg plan ctx (frac_risk_of levels)) inputs ctx.caps
        ≡ some exit_caps
    pub placed : IsPlaced final r p
    pub within :
        All
          (λ c. (c.1 <? final) ≡ false)
          (("risk", risk_size_of cfg plan ctx (frac_risk_of levels))
            ∷ caps_of plan ctx inputs exit_caps)

  abbrev pub Sizes : SizingResult F × TradePlan F → Type 0
  Sizes x = IsRejected x.0 x.1 ⊎ IsSized x.0 x.1

  conclude_lem :
      (risk_size : F) (c : Cap F)
      → let x = conclude plan inputs.min_notional_usd risk_size c in
        IsRejected x.0 x.1 ⊎ IsPlaced c.1 x.0 x.1
  unfolding conclude
  conclude_lem risk_size c = elim (Bool-cases (not (fl.is_finite c.1) || (c.1 ≤? nat 0))) [
    | inl bad ↦ rw (bad) (inl (record { rejected = refl; unsized = refl; kept = refl }))
    | inr good ↦ elim (Bool-cases (c.1 <? inputs.min_notional_usd)) [
      | inl low ↦ rw (good, low) (inl (record { rejected = refl; unsized = refl; kept = refl }))
      | inr high ↦
          rw (good, high)
            (inr (record {
              accepted = refl;
              answer = refl;
              set = refl;
              finite = ground (arith, good);
              positive = ground (arith, good);
              worth_placing = high;
            }))
    ]
  ]

  conclude-Sizes :
      IsStrict fl
      → (levels : F × F) → (exit_caps : List (Cap F)) → geometry plan ≡ some levels
      → exit_slippage_cap (risk_size_of cfg plan ctx (frac_risk_of levels)) inputs ctx.caps
        ≡ some exit_caps
      → let risk_size = risk_size_of cfg plan ctx (frac_risk_of levels) in
        Sizes (
          conclude plan inputs.min_notional_usd risk_size
            (binding_cap ("risk", risk_size) (caps_of plan ctx inputs exit_caps)))
  conclude-Sizes strict levels exit_caps g e =
      let risk_size = risk_size_of cfg plan ctx (frac_risk_of levels) in
      let caps = caps_of plan ctx inputs exit_caps in
      let c = binding_cap ("risk", risk_size) caps in
      elim (conclude_lem risk_size c) [
        | inl h ↦ inl h
        | inr h ↦ inr (record {
          final = c.1;
          levels = levels;
          exit_caps = exit_caps;
          has_levels = g;
          has_exit = e;
          placed = h;
          within = binding_cap_lem strict ("risk", risk_size) caps;
        })
      ]

  size-Sizes : IsStrict fl → On Sizes (size cfg plan ctx inputs)
  unfolding size
  size-Sizes strict = elim (Option-cases (geometry plan)) [
    | inl e ↦ rw (size, e) (present (inl untouched))
    | inr (levels, e) ↦ elim (Bool-cases (nat 0 <? frac_risk_of levels)) [
      | inr flat ↦ rw (size, e, flat) (present (inl untouched))
      | inl risky ↦ elim (Bool-cases (truthy cfg.scale_pivot)) [
        | inr zero_pivot ↦ rw (size, e, risky, zero_pivot) absent
        | inl pivot ↦
            let risk_size = risk_size_of cfg plan ctx (frac_risk_of levels) in
            elim (Option-cases (exit_slippage_cap risk_size inputs ctx.caps)) [
              | inl x ↦ rw (size, e, risky, pivot, x) absent
              | inr (exit_caps, x) ↦
                  rw (size, e, risky, pivot, x)
                    (present (conclude-Sizes strict levels exit_caps e x))
            ]
      ]
    ]
  ]
    where
      untouched :
          {reasons : List (Reason F)}
          → IsRejected (record { size_quote = none; reasons = reasons; rejected = true }) plan
      untouched = record { rejected = refl; unsized = refl; kept = refl }

  -- Where `<` is a strict order, the sizer, unless it raises, either rejects the plan and leaves it as
  -- it was, or sets a size that is finite, above zero, no less than the exchange's minimum and no
  -- more than the risk size and each of the caps.
  pub size_within_caps :
      IsStrict fl → (x : SizingResult F × TradePlan F) → size cfg plan ctx inputs ≡ some x → Sizes x
  size_within_caps strict x h = On-some (size-Sizes strict) h
