-- ===== src/Execution/Sizer.antt =====
-- The position sizer: aimos/execution/position_sizer.py. A division by zero raises, which is `none`.
pub mod Caps
pub mod Sized
pub mod Exit
use aimos.Prelude.{
  ℕ, zero, suc, String, Bool, true, false, not, ◌||◌, Option, none, some, List, [], ◌∷◌, ◌++◌,
  str_eq, if◌then◌else◌,
}
use aimos.Prelude.Floats.{Floats, ◌⊕◌, ◌⊖◌, ◌⊗◌, ◌⊘◌, ◌<?◌, ◌≤?◌, nat, truthy, fmax, fmin}
use aimos.Schemas.{
  is_no_trade, Reason, no_geometry, degenerate_stop, non_positive_size, below_minimum, size_cut,
  TradePlan, CapacityCaps, Position, ExecContext,
}
use aimos.Data.Book.{Level, simulate_market_order}

pub record SizerCfg (F : Type 0) : Type 0 where
  pub base_risk_pct : F
  pub scale_lo : F
  pub scale_hi : F
  pub scale_pivot : F

pub record SizingInputs (F : Type 0) : Type 0 where
  pub volume_24h_usd : Option F
  pub book_depth_1pct_usd : Option F
  pub exit_levels : Option (List (Level F))
  pub mid : Option F
  pub min_notional_usd : F

pub record SizingResult (F : Type 0) : Type 0 where
  pub size_quote : Option F
  pub reasons : List (Reason F)
  pub rejected : Bool

-- A cap: its name and the size that it allows.
abbrev pub Cap : Type 0 → Type 0
Cap F = String × F

-- How often `_exit_slippage_cap` tries.
abbrev pub tries : ℕ
tries = 32

module _ {F : Type 0} ⦃fl : Floats F⦄ where
  -- `_clamp`
  abbrev pub clamp : F → F → F → F
  clamp x lo hi = fmax lo (fmin hi x)

  abbrev rejected_for : List (Reason F) → SizingResult F
  rejected_for reasons = record { size_quote = none; reasons = reasons; rejected = true }

  -- The entry and the stop, where both are there, finite, and the entry is not zero.
  unfoldable pub geometry : TradePlan F → Option (F × F)
  geometry plan = if is_no_trade plan.action then none else elim plan.entry [
    | none ↦ none
    | some entry ↦ elim plan.stop_loss [
      | none ↦ none
      | some stop ↦
          if not (truthy entry) || not (fl.is_finite entry) || not (fl.is_finite stop)
          then none
          else some (entry, stop)
    ]
  ]

  -- What is held of a symbol.
  abbrev pub exposure_from : F → String → List (Position F) → F
  exposure_from total symbol [] = total
  exposure_from total symbol (p ∷ ps) =
      exposure_from (if str_eq p.symbol symbol then total ⊕ (p.qty ⊗ p.entry) else total) symbol ps

  -- The tries of `_exit_slippage_cap`, each with half the size.
  unfoldable pub shrink : ℕ → List (Level F) → F → F → F → Option F
  shrink zero levels mid max_bps size = some size
  shrink (suc n) levels mid max_bps size =
      let rest = shrink n levels mid max_bps (size ⊗ fl.decimal 5 1) in
      elim (simulate_market_order levels size mid) [
        | none ↦ none
        | some slip ↦ if slip ≤? max_bps then some size else rest
      ]

  -- `_exit_slippage_cap`: the caps that it adds.
  unfoldable pub exit_slippage_cap : F → SizingInputs F → CapacityCaps F → Option (List (Cap F))
  exit_slippage_cap risk_size inputs caps = elim inputs.exit_levels [
    | none ↦ some []
    | some levels ↦ elim inputs.mid [
      | none ↦ some []
      | some mid ↦ elim (shrink tries levels mid caps.max_exit_slippage_bps risk_size) [
        | none ↦ none
        | some size ↦ some (("exit_slippage", size) ∷ [])
      ]
    ]
  ]

  abbrev pub optional_cap : String → Option F → F → List (Cap F)
  optional_cap name none _ = []
  optional_cap name (some x) pct = (name, x ⊗ (pct ⊘ nat 100)) ∷ []

  -- The caps behind the first, in the order of the code.
  unfoldable pub caps_of :
      TradePlan F → ExecContext F → SizingInputs F → List (Cap F) → List (Cap F)
  caps_of plan ctx inputs exit_caps =
      let existing = exposure_from (nat 0) plan.symbol ctx.open_positions in
      let equity_cap =
        (ctx.equity_usdt ⊗ (ctx.caps.max_equity_pct_per_asset ⊘ nat 100)) ⊖ existing in
      ("concentration", fmax equity_cap (nat 0))
        ∷ optional_cap "volume" inputs.volume_24h_usd ctx.caps.max_pct_of_24h_volume
      ++ optional_cap "depth" inputs.book_depth_1pct_usd ctx.caps.max_pct_of_book_depth
      ++ exit_caps

  -- `min(candidates, key=...)` keeps the first of equal ones.
  abbrev pub lower_cap : Cap F → Cap F → Cap F
  lower_cap best c = if c.1 <? best.1 then c else best

  abbrev pub binding_cap : Cap F → List (Cap F) → Cap F
  binding_cap best [] = best
  binding_cap best (c ∷ cs) = binding_cap (lower_cap best c) cs

  abbrev pub cut_reasons : F → Cap F → List (Reason F)
  cut_reasons risk_size c =
      if str_eq c.0 "risk"
      then []
      else size_cut (if nat 0 <? risk_size then (nat 1 ⊖ (c.1 ⊘ risk_size)) ⊗ nat 100 else nat 0)
          c.0
        ∷ []

  -- The end of `size`, with the binding cap.
  unfoldable pub conclude : TradePlan F → F → F → Cap F → SizingResult F × TradePlan F
  conclude plan min_notional risk_size c =
      let reasons = cut_reasons risk_size c in
      if not (fl.is_finite c.1) || (c.1 ≤? nat 0)
      then (rejected_for (reasons ++ non_positive_size ∷ []), plan)
      else if c.1 <? min_notional
      then (rejected_for (reasons ++ below_minimum ∷ []), plan)
      else (
        record { size_quote = some c.1; reasons = reasons; rejected = false },
        record plan { size_quote = some c.1; reasons = plan.reasons ++ reasons },
      )

  abbrev pub risk_size_of : SizerCfg F → TradePlan F → ExecContext F → F → F
  risk_size_of cfg plan ctx frac_risk =
      let conf_scale = clamp (plan.confidence ⊘ cfg.scale_pivot) cfg.scale_lo cfg.scale_hi in
      ((ctx.equity_usdt ⊗ (cfg.base_risk_pct ⊘ nat 100)) ⊗ conf_scale) ⊘ frac_risk

  abbrev pub frac_risk_of : F × F → F
  frac_risk_of levels = fl.abs (levels.0 ⊖ levels.1) ⊘ levels.0

  -- `size`: the result, and the plan as it is afterwards.
  unfoldable pub size :
      SizerCfg F
      → TradePlan F
      → ExecContext F
      → SizingInputs F
      → Option (SizingResult F × TradePlan F)
  unfolding geometry exit_slippage_cap shrink caps_of conclude
  size cfg plan ctx inputs = elim (geometry plan) [
    | none ↦ some (rejected_for (no_geometry ∷ []), plan)
    | some levels ↦
        let frac_risk = frac_risk_of levels in
        let risk_size = risk_size_of cfg plan ctx frac_risk in
        if not (nat 0 <? frac_risk)
        then some (rejected_for (degenerate_stop ∷ []), plan)
        else if not (truthy cfg.scale_pivot)
        then none
        else elim (exit_slippage_cap risk_size inputs ctx.caps) [
          | none ↦ none
          | some exit_caps ↦ some (
              conclude plan inputs.min_notional_usd risk_size
                (binding_cap ("risk", risk_size) (caps_of plan ctx inputs exit_caps)))
        ]
  ]
