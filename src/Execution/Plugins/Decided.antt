-- ===== src/Execution/Plugins/Decided.antt =====
-- What the layer decides with these plugins.
use mathlib.Core.List.{Memᴰ}
use aimos.Prelude.{
  ◌≡◌, refl, sym, ap, ◌∙◌, subst, inl, inr, true, false, Option, none, some, List, [], ◌∷◌, arith,
  All, Option-cases,
}
use aimos.Prelude.Floats.{Floats, IsStrict}
use aimos.Schemas.{is_no_trade, TradePlan, MarketUnderstanding, ExecContext}
use aimos.Execution.Risk.{RiskState}
use aimos.Execution.Sizer.{SizingInputs}
use aimos.Execution.Decide.{ExecutionLayer, collect, or_idle, decide}
use aimos.Execution.Decide.Safe.{decide-IsSafe}
use aimos.Execution.Plugins.Contract.{trades_in, IsProposal}
use aimos.Execution.Plugins.Collected.{collect-IsProposal}
use aimos.Execution.Plugins.Build.{PluginCfgs, build_plugins}

module _ {F : Type 0} ⦃fl : Floats F⦄ (mu : MarketUnderstanding F) (ctx : ExecContext F) where
  All-Memᴰ : {A : Type 0} (P : A → Type 0) {x : A} (xs : List A) → All P xs → Memᴰ x xs → P x
  All-Memᴰ P [] h m = elim m [ ]
  All-Memᴰ P (y ∷ ys) h (Memᴰ.head e) = subst P (sym e) h.0
  All-Memᴰ P (y ∷ ys) h (Memᴰ.tail m) = All-Memᴰ P ys h.1 m

  or_idle-All :
      (candidates : List (TradePlan F))
      → All (IsProposal mu) candidates
      → All (IsProposal mu) (or_idle mu candidates)
  or_idle-All [] _ =
      (record { unsized = refl; same_symbol = refl; in_regime = refl; levels = inl refl }, tt)
  or_idle-All (p ∷ ps) h = h

  -- Where `<` is a strict order, the layer with these plugins decides to trade only the symbol at hand,
  -- by a plugin that may trade in the regime that the market is understood to be in.
  pub decide_in_regime :
      (layer : ExecutionLayer F)
      → (c : PluginCfgs F) → (inputs : Option (SizingInputs F)) → (state : Option (RiskState F))
      → (p : TradePlan F) → IsStrict fl
      → layer.plugins ≡ build_plugins c
      → decide layer mu ctx inputs state ≡ some p
      → is_no_trade p.action ≡ false
      → (p.symbol ≡ mu.symbol) × (trades_in p.plugin mu.regime ≡ true)
  unfolding decide
  decide_in_regime layer c inputs state p strict built decided trades =
      elim (Option-cases (collect layer.plugins mu ctx [])) [
        | inl e ↦
            let nothing : none ≡ some p = rw (decide, e) refl ∙ decided in
            absurd (ground (arith, nothing))
        | inr (candidates, e) ↦
            let safe =
              decide-IsSafe layer mu ctx inputs state strict candidates p e decided trades in
            let proposed =
              collect-IsProposal mu ctx c candidates
                (ap (λ ps. collect ps mu ctx []) (sym built) ∙ e) in
            let mine =
              All-Memᴰ (IsProposal mu) (or_idle mu candidates) (or_idle-All candidates proposed)
                safe.chosen.member in
            (
              ap (λ q. q.symbol) safe.sized.placed.set
                  ∙ ap (λ q. q.symbol) safe.chosen.scored
                  ∙ mine.same_symbol,
              ap (λ q. trades_in q.plugin mu.regime) safe.sized.placed.set
                  ∙ ap (λ q. trades_in q.plugin mu.regime) safe.chosen.scored
                  ∙ mine.in_regime,
            )
      ]
