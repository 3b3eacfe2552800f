-- ===== src/Broker/Mandate.antt =====
-- The mandate gate of aimos/execution/broker/live.py.
use aimos.Prelude.{
  ℕ, ◌≤◌, String, ◌≡◌, ◌↔◌, ◌⊎◌, Bool, true, false, not, Option, none, some, List, [], ◌∷◌, arith,
  ltb, any_of, if◌then◌else◌,
}
use aimos.Prelude.Text.{codes, same_upper, last_part, has_slash}
use aimos.Prelude.Floats.{Floats, ◌<?◌}
use aimos.Schemas.{is_no_trade, TradePlan}

-- config/mandate.yaml
pub record MandateCfg (F : Type 0) : Type 0 where
  pub enabled : Bool
  pub max_total_notional_usdt : F
  pub max_positions : ℕ
  pub allowed_quotes : List String

pub data Refusal : Type 0 where
  not_enabled total_notional positions quote_not_allowed : Refusal

-- The quote of a symbol, with the default for a symbol that has none.
unfoldable pub quote_of : String → List ℕ
unfolding last_part has_slash
quote_of symbol = if has_slash (codes symbol) then last_part [] (codes symbol) else codes "USDT"

-- `not allowed or quote.upper() in allowed`
unfoldable pub quote_allowed : List String → String → Bool
unfolding quote_of same_upper
quote_allowed [] symbol = true
quote_allowed (q ∷ qs) symbol = any_of (λ a. same_upper (codes a) (quote_of symbol)) (q ∷ qs)

module _ {F : Type 0} ⦃fl : Floats F⦄ where
  -- `MandateGate.check`: the reason of a refusal, or `none`.
  unfoldable pub mandate_check : MandateCfg F → TradePlan F → F → ℕ → Option Refusal
  mandate_check cfg plan total_notional_after open_positions_after =
      if not cfg.enabled
      then some not_enabled
      else if is_no_trade plan.action
      then none
      else if cfg.max_total_notional_usdt <? total_notional_after
      then some total_notional
      else if ltb cfg.max_positions open_positions_after
      then some positions
      else if not (quote_allowed cfg.allowed_quotes plan.symbol)
      then some quote_not_allowed
      else none

  -- A live trade that the mandate covers.
  pub record Covered (cfg : MandateCfg F) (plan : TradePlan F) (total : F) (n : ℕ) : Type 0 where
    pub enabled : cfg.enabled ≡ true
    pub within_notional : (cfg.max_total_notional_usdt <? total) ≡ false
    pub within_positions : n ≤ cfg.max_positions
    pub quote : quote_allowed cfg.allowed_quotes plan.symbol ≡ true

  -- The gate refuses nothing exactly when the mandate is enabled and the plan trades nothing or is
  -- covered.
  pub mandate_check_iff :
      (cfg : MandateCfg F) (plan : TradePlan F) (total : F) (n : ℕ)
      → (mandate_check cfg plan total n ≡ none)
        ↔ ((cfg.enabled ≡ true) × ((is_no_trade plan.action ≡ true) ⊎ Covered cfg plan total n))
  unfolding mandate_check
  mandate_check_iff cfg plan total n = ground arith
