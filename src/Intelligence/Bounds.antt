-- ===== src/Intelligence/Bounds.antt =====
-- The ranges of an understanding, and its labels.
use mathlib.Core.List.{Memᴰ}
use aimos.Prelude.{
  ℕ, ◌≡◌, refl, ap, ◌∙◌, subst, String, true, false, Option, none, some, List, [], ◌∷◌, arith, All,
  On, absent, present, On-some, Option-cases, Bool-cases, inl, inr, ◌&&◌, if◌then◌else◌,
}
use aimos.Prelude.Floats.{Floats, ◌<?◌, nat, fmax, fmin, clamp01, IsStrict}
use aimos.Schemas.{Regime, MarketUnderstanding, KeyLevels, Behavior}
use aimos.Intelligence.{Evidence, Dist}
use aimos.Intelligence.Fusion.{FusionResult}
use aimos.Intelligence.Confidence.{
  compute_confidence, argmax, higher, highest_from, regime_named, behavior_named, labelled,
  finalize_regime, finalize_behavior,
}
use aimos.Intelligence.Scores.{ScoreContext, clamp0_100, risk_score, opportunity}
use aimos.Intelligence.Understand.{
  IntelligenceLayer, fused_of, understanding, is_within, all_within, validated, understand,
}

module _ {F : Type 0} ⦃fl : Floats F⦄ where
  -- A value is neither below nor above a range.
  abbrev pub Within : F → F → F → Type 0
  Within lo hi x = ((x <? lo) ≡ false) × ((hi <? x) ≡ false)

  -- The label is that of an entry of the distribution than which no entry is more probable.
  pub record IsLikeliest (probs : Dist F) (label : String) (p : F) : Type 0 where
    pub entry : Memᴰ (label, p) probs
    pub top : All (λ x. (p <? x.1) ≡ false) probs

  -- A label that some reading takes to the value is likeliest.
  abbrev pub Labelled : {L : Type 0} → (String → Option L) → Dist F → L → Type 0
  Labelled named probs l =
      (label : String) × (p : F) × (named label ≡ some l) × IsLikeliest probs label p

  -- The ranges and the labels of the contract.
  pub record IsSound (mu : MarketUnderstanding F) : Type 0 where
    pub p_up : Within (nat 0) (nat 1) mu.p_up
    pub confidence : Within (nat 0) (nat 1) mu.confidence
    pub health : Within (nat 0) (nat 100) mu.coin_health
    pub opportunity : Within (nat 0) (nat 100) mu.opportunity_score
    pub risk : Within (nat 0) (nat 100) mu.risk_score
    pub regime : Labelled regime_named mu.regime_probs mu.regime
    pub behavior : Labelled behavior_named mu.behavior_probs mu.behavior

module _ {F : Type 0} ⦃fl : Floats F⦄ (strict : IsStrict fl) where
  clamp_lem : (lo hi x : F) → (lo <? hi) ≡ true → Within lo hi (fmax lo (fmin hi x))
  clamp_lem lo hi x h = ground (
    arith,
    h,
    strict.irrefl lo,
    strict.irrefl hi,
    strict.trans lo x lo,
    strict.trans hi x hi,
    strict.trans hi lo hi,
  )

  higher-above :
      (x : F) (best y : String × F) → (best.1 <? x) ≡ false → ((higher best y).1 <? x) ≡ false
  higher-above x best y h = ground (arith, h, strict.trans best.1 y.1 x)

  higher-second : (best y : String × F) → ((higher best y).1 <? y.1) ≡ false
  higher-second best y = ground (arith, strict.irrefl y.1)

  highest_from-above :
      (x : F) (best : String × F) (ys : Dist F)
      → (best.1 <? x) ≡ false
      → ((highest_from best ys).1 <? x) ≡ false
  highest_from-above x best [] h = h
  highest_from-above x best (y ∷ ys) h =
      highest_from-above x (higher best y) ys (higher-above x best y h)

  highest_from-All :
      (best : String × F) (ys : Dist F) → All (λ y. ((highest_from best ys).1 <? y.1) ≡ false) ys
  highest_from-All best [] = tt
  highest_from-All best (y ∷ ys) = (
    highest_from-above y.1 (higher best y) ys (higher-second best y),
    highest_from-All (higher best y) ys,
  )

  higher-Memᴰ :
      (best y : String × F) (zs : Dist F) → Memᴰ best zs → Memᴰ y zs → Memᴰ (higher best y) zs
  higher-Memᴰ best y zs m n = elim (Bool-cases (best.1 <? y.1)) [
    | inl e ↦ rw (e) n
    | inr e ↦ rw (e) m
  ]

  highest_from-Memᴰ :
      (best : String × F) (ys zs : Dist F)
      → ((y : String × F) → Memᴰ y ys → Memᴰ y zs)
      → Memᴰ best zs
      → Memᴰ (highest_from best ys) zs
  highest_from-Memᴰ best [] zs sub m = m
  highest_from-Memᴰ best (y ∷ ys) zs sub m =
      highest_from-Memᴰ (higher best y) ys zs (λ z n. sub z (Memᴰ.tail n))
        (higher-Memᴰ best y zs m (sub y (Memᴰ.head refl)))

  argmax-IsLikeliest : (probs : Dist F) → On (λ x. IsLikeliest probs x.0 x.1) (argmax probs)
  unfolding argmax
  argmax-IsLikeliest [] = absent
  argmax-IsLikeliest (x ∷ xs) = present (record {
    entry = highest_from-Memᴰ x xs (x ∷ xs) (λ y m. Memᴰ.tail m) (Memᴰ.head refl);
    top = (highest_from-above x.1 x xs (strict.irrefl x.1), highest_from-All x xs);
  })

  labelled_lem :
      {L : Type 0} (named : String → Option L) (probs : Dist F) (l : L) (p : F)
      → labelled named (argmax probs) ≡ some (l, p)
      → (label : String) × (named label ≡ some l) × IsLikeliest probs label p
  labelled_lem named probs l p h = elim (Option-cases (argmax probs)) [
    | inl e ↦ let nothing : none ≡ some (l, p) = rw (e) refl ∙ h in absurd (ground (arith, nothing))
    | inr (x, e) ↦ elim (Option-cases (named x.0)) [
      | inl n ↦
          let nothing : none ≡ some (l, p) = rw (e, n) refl ∙ h in absurd (ground (arith, nothing))
      | inr (s, n) ↦
          let same : some (s, x.1) ≡ some (l, p) = rw (e, n) refl ∙ h in
          let s≡l : s ≡ l = ground (arith, same) in
          let q≡p : x.1 ≡ p = ground (arith, same) in
          (
            x.0,
            n ∙ ap some s≡l,
            subst (IsLikeliest probs x.0) q≡p (On-some (argmax-IsLikeliest probs) e),
          )
    ]
  ]

  -- Where `<` is a strict order, the final regime is named by an entry of the distribution, its certainty
  -- is that entry's probability, and no entry is more probable.
  pub finalize_regime_lem :
      (probs : Dist F) (r : Regime) (p : F)
      → finalize_regime probs ≡ some (r, p)
      → (label : String) × (regime_named label ≡ some r) × IsLikeliest probs label p
  unfolding finalize_regime
  finalize_regime_lem probs r p h = labelled_lem regime_named probs r p h

  finalize_behavior_lem :
      (probs : Dist F) (l : Behavior) (p : F)
      → finalize_behavior probs ≡ some (l, p)
      → (label : String) × (behavior_named label ≡ some l) × IsLikeliest probs label p
  unfolding finalize_behavior
  finalize_behavior_lem probs l p h = labelled_lem behavior_named probs l p h

  valid_when :
      (mu : MarketUnderstanding F)
      → Within (nat 0) (nat 1) mu.confidence
      → Within (nat 0) (nat 100) mu.opportunity_score
      → Within (nat 0) (nat 100) mu.risk_score
      → validated mu ≡ (
          if is_within (nat 0) (nat 1) mu.p_up && is_within (nat 0) (nat 100) mu.coin_health
          then some mu
          else none)
  unfolding validated
  valid_when mu c o r = ground (arith, c.0, c.1, o.0, o.1, r.0, r.1)

  -- The clamped fields never make the validation fail: it is that of `p_up` and `coin_health`.
  pub validated_lem :
      fl.lt (nat 0) (nat 1) ≡ true
      → fl.lt (nat 0) (nat 100) ≡ true
      → (layer : IntelligenceLayer F) → (symbol : String) → (evidences : List (Evidence F))
      → (kl : KeyLevels F) → (ctx : ScoreContext F) → (coverage : F) → (fused : FusionResult F)
      → (regime : Regime × F) → (behavior : Behavior)
      → let mu = understanding layer symbol evidences kl ctx coverage fused regime behavior in
        validated mu ≡ (
          if is_within (nat 0) (nat 1) mu.p_up && is_within (nat 0) (nat 100) mu.coin_health
          then some mu
          else none)
  unfolding understanding compute_confidence risk_score opportunity clamp01 clamp0_100
  validated_lem unit percent layer symbol evidences kl ctx coverage fused regime behavior =
      valid_when (understanding layer symbol evidences kl ctx coverage fused regime behavior)
        (clamp_lem (nat 0) (nat 1) _ unit) (clamp_lem (nat 0) (nat 100) _ percent)
        (clamp_lem (nat 0) (nat 100) _ percent)

  validated-Within :
      (mu : MarketUnderstanding F)
      → Labelled regime_named mu.regime_probs mu.regime
      → Labelled behavior_named mu.behavior_probs mu.behavior
      → On IsSound (validated mu)
  unfolding validated
  validated-Within mu r b = elim (Bool-cases (all_within mu)) [
    | inl ok ↦ rw (ok) (
        present (record {
          p_up = (ground (arith, ok), ground (arith, ok));
          confidence = (ground (arith, ok), ground (arith, ok));
          health = (ground (arith, ok), ground (arith, ok));
          opportunity = (ground (arith, ok), ground (arith, ok));
          risk = (ground (arith, ok), ground (arith, ok));
          regime = r;
          behavior = b;
        }))
    | inr bad ↦ rw (bad) absent
  ]

  validated-On :
      (layer : IntelligenceLayer F) (symbol : String) (evidences : List (Evidence F))
      (kl : KeyLevels F) (ctx : ScoreContext F) (coverage : F) (fused : FusionResult F)
      (regime : Regime × F) (behavior : Behavior × F)
      → finalize_regime fused.regime_probs ≡ some regime
      → finalize_behavior fused.behavior_probs ≡ some behavior
      → On IsSound
          (validated (understanding layer symbol evidences kl ctx coverage fused regime behavior.0))
  unfolding understanding
  validated-On layer symbol evidences kl ctx coverage fused regime behavior e n =
      let (label, named, likeliest) = finalize_regime_lem fused.regime_probs regime.0 regime.1 e in
      let (label', named', likeliest') =
        finalize_behavior_lem fused.behavior_probs behavior.0 behavior.1 n in
      validated-Within
        (understanding layer symbol evidences kl ctx coverage fused regime behavior.0)
        (label, regime.1, named, likeliest) (label', behavior.1, named', likeliest')

  understand-On :
      (layer : IntelligenceLayer F) (symbol : String) (evidences : List (Evidence F))
      (kl : KeyLevels F) (reporting : ℕ) (ctx : Option (ScoreContext F)) (coverage : Option ℕ)
      → On IsSound (understand layer symbol evidences kl reporting ctx coverage)
  unfolding understand
  understand-On layer symbol evidences kl reporting ctx coverage =
      let fused = fused_of layer evidences kl in
      elim (Option-cases (finalize_regime fused.regime_probs)) [
        | inl e ↦ rw (understand, e) absent
        | inr (regime, e) ↦ elim (Option-cases (finalize_behavior fused.behavior_probs)) [
          | inl n ↦ rw (understand, e, n) absent
          | inr (behavior, n) ↦
              rw (understand, e, n)
                (validated-On layer symbol evidences kl _ _ fused regime behavior e n)
        ]
      ]

  -- Where `<` is a strict order, every understanding that the layer gives has a fused probability and a
  -- confidence from 0 to 1 and a health, an opportunity and a risk from 0 to 100; its regime and its
  -- behavior are named by entries of its distributions than which no entry is more probable.
  pub understand-IsSound :
      (layer : IntelligenceLayer F) (symbol : String) (evidences : List (Evidence F))
      (kl : KeyLevels F) (reporting : ℕ) (ctx : Option (ScoreContext F)) (coverage : Option ℕ)
      (mu : MarketUnderstanding F)
      → understand layer symbol evidences kl reporting ctx coverage ≡ some mu
      → IsSound mu
  understand-IsSound layer symbol evidences kl reporting ctx coverage mu h =
      On-some (understand-On layer symbol evidences kl reporting ctx coverage) h
