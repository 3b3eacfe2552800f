-- ===== src/Intelligence/Fusion.antt =====
-- The decision fusion: aimos/intelligence/fusion.py. The texts of the reasons are kept as they are.
use aimos.Prelude.{
  ℕ, String, Bool, true, false, not, ◌&&◌, ◌||◌, Option, none, some, List, [], ◌∷◌, ◌++◌, map, keep,
  length, or_else, if◌then◌else◌,
}
use aimos.Prelude.Dict.{Dict, lookup, insert}
use aimos.Prelude.Floats.{Floats, ◌⊕◌, ◌⊖◌, ◌⊗◌, ◌⊘◌, ◌<?◌, ◌≤?◌, nat, fmax}
use aimos.Schemas.{Direction, bullish, bearish, neutral}
use aimos.Intelligence.{
  Evidence, Dist, EngineOpinion, is_neutral, has_name, first_named, sum_values,
}

pub record FusionCfg (F : Type 0) : Type 0 where
  pub fusion_weights : Dict F
  pub disagreement_threshold : F
  pub disagreement_conf_mult : F
  pub liquidity_conf_mult : F
  pub liquidity_spread_z : F
  pub sentiment_book_shift : F
  pub headline_shock_pull : F
  pub headline_shock_conf_mult : F
  pub bull : F
  pub bear : F

pub record FusionResult (F : Type 0) : Type 0 where
  pub p_up : F
  pub regime_probs : Dist F
  pub behavior_probs : Dist F
  pub direction_bias : Direction
  pub disagreement : F
  pub penalty_mult : F
  pub reasons : List String

abbrev pub same_direction : Direction → Direction → Bool
same_direction bullish bullish = true
same_direction bearish bearish = true
same_direction neutral neutral = true
same_direction _ _ = false

-- A reason, where its condition holds.
abbrev said_if : Bool → String → List String
said_if b reason = if b then reason ∷ [] else []

module _ {F : Type 0} ⦃fl : Floats F⦄ where
  abbrev base_weight : FusionCfg F → EngineOpinion F → F
  base_weight cfg o = or_else (lookup o.engine cfg.fusion_weights) (nat 0)

  unfoldable pub weights_from : FusionCfg F → Dict F → List (EngineOpinion F) → Dict F
  weights_from cfg d [] = d
  weights_from cfg d (o ∷ os) =
      weights_from cfg (insert o.engine (base_weight cfg o ⊗ o.confidence) d) os

  abbrev weight_of : Dict F → EngineOpinion F → F
  weight_of weights o = or_else (lookup o.engine weights) (nat 0)

  abbrev weighted_sum : Dict F → F → List (EngineOpinion F) → F
  weighted_sum weights sum [] = sum
  weighted_sum weights sum (o ∷ os) = weighted_sum weights (sum ⊕ (weight_of weights o ⊗ o.p_up)) os

  unfoldable pub weighted_p_up : List (EngineOpinion F) → Dict F → F → F
  weighted_p_up opinions weights total_w =
      if total_w ≤? nat 0 then fl.decimal 5 1 else weighted_sum weights (nat 0) opinions ⊘ total_w

  -- `acc[k] = acc.get(k, 0.0) + f(v)` for each entry of a distribution
  unfoldable pub add_dist : (F → F) → Dist F → Dist F → Dist F
  add_dist f acc [] = acc
  add_dist f acc ((k, v) ∷ d) = add_dist f (insert k (or_else (lookup k acc) (nat 0) ⊕ f v) acc) d

  abbrev scaled : (F → F) → Dist F → Dist F
  scaled f d = map (λ x. (x.0, f x.1)) d

  abbrev is_given : Dist F → Bool
  is_given [] = false
  is_given (_ ∷ _) = true

  abbrev average_from : ℕ → Dist F → List (Dist F) → Dist F
  average_from n acc [] = acc
  average_from n acc (d ∷ ds) = average_from n (add_dist (λ v. v ⊘ nat n) acc d) ds

  abbrev weighted_from :
      (EngineOpinion F → Dist F) → Dict F → Dist F → List (EngineOpinion F) → Dist F
  weighted_from field weights acc [] = acc
  weighted_from field weights acc (o ∷ os) =
      weighted_from field weights (add_dist (λ v. weight_of weights o ⊗ v) acc (field o)) os

  abbrev normalized : Dist F → Dist F
  normalized acc =
      let norm = sum_values (nat 0) acc in if nat 0 <? norm then scaled (λ v. v ⊘ norm) acc else acc

  unfoldable pub weighted_dist :
      (EngineOpinion F → Dist F) → List (EngineOpinion F) → Dict F → F → Dist F
  weighted_dist field opinions weights total_w =
      let dists = keep is_given (map field opinions) in
      if total_w ≤? nat 0
      then average_from (length dists) [] dists
      else normalized (weighted_from field weights [] opinions)

  -- The largest difference of a value to those of a list, and of any two: both with the largest so far.
  abbrev farthest : F → F → List (EngineOpinion F) → F
  farthest p best [] = best
  farthest p best (o ∷ os) = farthest p (fmax best (fl.abs (p ⊖ o.p_up))) os

  abbrev farthest_pair : F → List (EngineOpinion F) → F
  farthest_pair best [] = best
  farthest_pair best (o ∷ os) = farthest_pair (farthest o.p_up best os) os

  abbrev first_pair : List (EngineOpinion F) → F
  first_pair (a ∷ b ∷ os) = farthest_pair (farthest a.p_up (fl.abs (a.p_up ⊖ b.p_up)) os) (b ∷ os)
  first_pair _ = nat 0

  unfoldable pub disagreement_of : FusionCfg F → List (EngineOpinion F) → F
  disagreement_of cfg opinions = first_pair (keep (λ o. nat 0 <? base_weight cfg o) opinions)

  abbrev is_wide : FusionCfg F → Option (Evidence F) → Bool
  is_wide cfg none = false
  is_wide cfg (some e) = cfg.liquidity_spread_z <? fl.abs e.value

  unfoldable pub poor_liquidity : FusionCfg F → List (Evidence F) → Bool
  poor_liquidity cfg evidences =
      has_name evidences "thin_book" || is_wide cfg (first_named evidences "spread")

  abbrev opposes : Option (Evidence F) → Option (Evidence F) → Bool
  opposes (some tone) (some book) =
      not (same_direction tone.direction book.direction)
      && not (is_neutral tone.direction || is_neutral book.direction)
  opposes _ _ = false

  unfoldable pub sentiment_book_conflict : List (Evidence F) → Bool
  sentiment_book_conflict evidences =
      opposes (first_named evidences "news_tone") (first_named evidences "book_imbalance")

  unfoldable pub shift_to_unclear : FusionCfg F → Dist F → Dist F
  shift_to_unclear cfg probs =
      let shift = cfg.sentiment_book_shift in
      let out = scaled (λ v. v ⊗ (nat 1 ⊖ shift)) probs in
      normalized (insert "unclear" (or_else (lookup "unclear" out) (nat 0) ⊕ shift) out)

  unfoldable pub bias : FusionCfg F → F → Direction
  bias cfg p_up =
      if cfg.bull ≤? p_up then bullish else if p_up ≤? cfg.bear then bearish else neutral

  unfoldable pub fuse : FusionCfg F → List (EngineOpinion F) → List (Evidence F) → FusionResult F
  unfolding weights_from weighted_p_up weighted_dist disagreement_of poor_liquidity
      sentiment_book_conflict shift_to_unclear bias
  fuse cfg opinions evidences =
      let weights = weights_from cfg [] opinions in
      let total_w = sum_values (nat 0) weights in
      let p_up = weighted_p_up opinions weights total_w in
      let behavior_probs = weighted_dist (λ o. o.behavior_probs) opinions weights total_w in
      let disagreement = disagreement_of cfg opinions in
      let disagrees = cfg.disagreement_threshold <? disagreement in
      let illiquid = poor_liquidity cfg evidences in
      let mixed = sentiment_book_conflict evidences in
      let shocked = has_name evidences "headline_shock" in
      let after_1 = if disagrees then nat 1 ⊗ cfg.disagreement_conf_mult else nat 1 in
      let after_2 = if illiquid then after_1 ⊗ cfg.liquidity_conf_mult else after_1 in
      let pulled =
        if shocked then p_up ⊕ ((fl.decimal 5 1 ⊖ p_up) ⊗ cfg.headline_shock_pull) else p_up in
      record {
        p_up = pulled;
        regime_probs = weighted_dist (λ o. o.regime_probs) opinions weights total_w;
        behavior_probs = if mixed then shift_to_unclear cfg behavior_probs else behavior_probs;
        direction_bias = bias cfg pulled;
        disagreement = disagreement;
        penalty_mult = if shocked then after_2 ⊗ cfg.headline_shock_conf_mult else after_2;
        reasons =
            said_if disagrees "engines disagree"
            ++ said_if illiquid "poor liquidity"
            ++ said_if mixed "mixed evidence: sentiment vs order book"
            ++ said_if shocked "headline shock";
      }
