-- ===== src/Execution/Plugins/Contrarian.antt =====
-- SmartDCA and FundingRate: aimos/execution/plugins/smart_dca.py and funding_rate.py. SmartDCA raises
-- without tranches, which is `none`.
use aimos.Prelude.{not, ◌||◌, Option, none, some, List, [], ◌∷◌, length, if◌then◌else◌}
use aimos.Prelude.Floats.{Floats, ◌⊕◌, ◌⊖◌, ◌⊗◌, ◌⊘◌, ◌<?◌, ◌≤?◌, nat, truthy}
use aimos.Schemas.{
  Action, long, short, is_bullish, is_bearish, capitulation, panic, same_behavior, dca_ladder,
  funding_fade, TradePlan, MarketUnderstanding, ExecContext,
}
use aimos.Execution.Plugins.{estimate_costs_bps, proposal}

pub record DcaCfg (F : Type 0) : Type 0 where
  pub min_confidence : F
  pub min_coin_health : F
  pub tranche_atr_offsets : List F
  pub tranche_size_pct : List F
  pub basket_stop_pct : F

pub record FundingCfg (F : Type 0) : Type 0 where
  pub min_confidence : F
  pub min_coin_health : F
  pub funding_z_min : F
  pub sl_atr_mult : F

module _ {F : Type 0} ⦃fl : Floats F⦄ where
  -- `build_ladder`: the price and the share of each tranche.
  unfoldable pub build_ladder : F → F → List F → List F → List (F × F)
  build_ladder mid atr (off ∷ offsets) (pct ∷ pcts) =
      (mid ⊕ (off ⊗ atr), pct) ∷ build_ladder mid atr offsets pcts
  build_ladder mid atr _ _ = []

  abbrev pub total_pct : F → List (F × F) → F
  total_pct sum [] = sum
  total_pct sum (t ∷ ladder) = total_pct (sum ⊕ t.1) ladder

  abbrev pub weighted : F → List (F × F) → F
  weighted sum [] = sum
  weighted sum (t ∷ ladder) = weighted (sum ⊕ (t.0 ⊗ t.1)) ladder

  abbrev pub average_entry : F → List (F × F) → F
  average_entry mid ladder =
      let total = total_pct (nat 0) ladder in
      if truthy total then weighted (nat 0) ladder ⊘ total else mid

  -- `x or fallback`
  abbrev pub given_or : Option F → F → F
  given_or none fallback = fallback
  given_or (some x) fallback = if truthy x then x else fallback

  unfoldable pub dca_plan :
      DcaCfg F → MarketUnderstanding F → ExecContext F → F → List (F × F) → Option (TradePlan F)
  dca_plan cfg mu ctx mid [] = none
  dca_plan cfg mu ctx mid (t ∷ ladder) =
      let avg = average_entry mid (t ∷ ladder) in
      let stop = avg ⊗ (nat 1 ⊕ (cfg.basket_stop_pct ⊘ nat 100)) in
      let tp =
        given_or mu.key_levels.vwap30 (avg ⊗ (nat 1 ⊕ (fl.abs cfg.basket_stop_pct ⊘ nat 100))) in
      let risk = fl.abs (avg ⊖ stop) in
      let rr = if nat 0 <? risk then fl.abs (tp ⊖ avg) ⊘ risk else nat 0 in
      some (
        proposal "SmartDCA" mu long t.0 stop tp rr (estimate_costs_bps ctx) mu.confidence
          (dca_ladder (length (t ∷ ladder)) avg))

  unfoldable pub smart_dca :
      DcaCfg F → MarketUnderstanding F → ExecContext F → Option (Option (TradePlan F))
  smart_dca cfg mu ctx =
      if not (same_behavior mu.behavior capitulation || same_behavior mu.behavior panic)
      then some none
      else elim mu.key_levels.price [
        | none ↦ some none
        | some mid ↦ elim mu.key_levels.atr [
          | none ↦ some none
          | some atr ↦
              if atr ≤? nat 0
              then some none
              else elim (dca_plan cfg mu ctx mid
                  (build_ladder mid atr cfg.tranche_atr_offsets cfg.tranche_size_pct)) [
                    | none ↦ none
                    | some plan ↦ some (some plan)
                  ]
        ]
      ]

  abbrev pub funding_plan :
      MarketUnderstanding F → ExecContext F → Action → F → F → F → F → TradePlan F
  funding_plan mu ctx action entry stop tp z =
      let risk = fl.abs (entry ⊖ stop) in
      proposal "FundingRate" mu action entry stop tp
        (if nat 0 <? risk then fl.abs (tp ⊖ entry) ⊘ risk else nat 0) (estimate_costs_bps ctx)
        mu.confidence (funding_fade action z)

  unfoldable pub funding_rate :
      FundingCfg F → MarketUnderstanding F → ExecContext F → Option (TradePlan F)
  funding_rate cfg mu ctx = elim mu.key_levels.funding_z [
    | none ↦ none
    | some z ↦ elim mu.key_levels.price [
      | none ↦ none
      | some price ↦ elim mu.key_levels.atr [
        | none ↦ none
        | some atr ↦
            let away = cfg.sl_atr_mult ⊗ atr in
            let is_crowded = nat 0 <? z in
            if (atr ≤? nat 0) || (fl.abs z <? cfg.funding_z_min)
            then none
            else if is_crowded
            then if not (is_bearish mu.direction_bias)
              then none
              else some (funding_plan mu ctx short price (price ⊕ away) (price ⊖ away) z)
            else if not (is_bullish mu.direction_bias)
            then none
            else some (funding_plan mu ctx long price (price ⊖ away) (price ⊕ away) z)
      ]
    ]
  ]
