-- ===== src/Backtest/Costs.antt =====
-- The cost model: aimos/backtest/costs.py. The sign of a direction is a float here.
use aimos.Prelude.{Bool, if◌then◌else◌}
use aimos.Prelude.Floats.{Floats, ◌⊕◌, ◌⊗◌, ◌⊘◌, ◌≤?◌, nat}

pub record CostModel (F : Type 0) : Type 0 where
  pub taker_bps : F
  pub maker_bps : F
  pub slip_base_bps : F
  pub slip_k : F

module _ {F : Type 0} ⦃fl : Floats F⦄ where
  unfoldable pub slippage_bps : CostModel F → F → F → F
  slippage_bps m order_size_usd depth_usd =
      if depth_usd ≤? nat 0
      then m.slip_base_bps
      else m.slip_base_bps ⊕ ((m.slip_k ⊗ (order_size_usd ⊘ depth_usd)) ⊗ nat 100)

  unfoldable pub round_trip_fee_bps : CostModel F → Bool → F
  round_trip_fee_bps m taker = (if taker then m.taker_bps else m.maker_bps) ⊗ nat 2

  unfoldable pub funding_cost_bps : F → F → F → F
  funding_cost_bps funding_rate_bps hold_minutes direction_sign =
      (funding_rate_bps ⊗ (hold_minutes ⊘ nat 480)) ⊗ direction_sign

  unfoldable pub total_forward_costs_bps : CostModel F → F → F → Bool → F → F → F → F
  unfolding slippage_bps round_trip_fee_bps funding_cost_bps
  total_forward_costs_bps m order_size depth taker funding_rate_bps hold_minutes direction_sign =
      (round_trip_fee_bps m taker ⊕ (slippage_bps m order_size depth ⊗ nat 2))
      ⊕ funding_cost_bps funding_rate_bps hold_minutes direction_sign
