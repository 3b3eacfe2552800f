-- ===== src/Universe/Moves.antt =====
-- Who leaves and who enters the tiers.
use aimos.Prelude.{
  String, ◌≡◌, ◌∙◌, refl, ◌⊎◌, inl, inr, Bool, true, false, ◌&&◌, ◌||◌, Option, none, some, List,
  [], ◌∷◌, arith, All, All-any, str_eq, eq_iff, keep, any_of, Bool-cases,
}
use aimos.Prelude.Dict.{Dict, lookup, erase, lookup-insert}
use aimos.Prelude.Floats.{Floats, ◌≤?◌}
use aimos.Prelude.Text.{upper}
use aimos.Universe.Scan.{update-keeps}
use aimos.Universe.Tiers.{
  Tier, t1, t2, t3, same_tier, Why, TierChange, promoted, TierEngine, member, tier_of, is_tradable,
  clear_provisional, set_tier, put_scored, by_score, is_promotable, promotable, update,
}

module _ {F : Type 0} where
  -- The base is in T1 or T2.
  abbrev pub is_ranked : String → TierEngine F → Bool
  is_ranked k e = elim (lookup k e.tier) [
    | none ↦ false
    | some t ↦ same_tier t t1 || same_tier t t2
  ]

  module _ ⦃fl : Floats F⦄ where
    -- Some score of the scan is for this base and reaches the limit.
    abbrev pub is_earned : String → F → Dict F → Bool
    is_earned base limit scores =
        any_of (λ x. str_eq (upper x.0) (upper base) && (limit ≤? x.1)) scores

    abbrev Earns : String → Bool → String × F → Type 0
    Earns base earned x = (str_eq (upper x.0) (upper base) ≡ false) ⊎ (earned ≡ true)

    put_scored-All :
        (base : String) (earned : Bool) (x : String × F) (ys : Dict F)
        → Earns base earned x
        → All (Earns base earned) ys
        → All (Earns base earned) (put_scored x ys)
    unfolding put_scored
    put_scored-All base earned x [] h _ = (h, tt)
    put_scored-All base earned x (y ∷ ys) h k = elim (Bool-cases (y.1 ≤? x.1)) [
      | inl e ↦ rw (e) (h, k)
      | inr e ↦ rw (e) (k.0, put_scored-All base earned x ys h k.1)
    ]

    by_score-All :
        (base : String) (earned : Bool) (xs : Dict F)
        → All (Earns base earned) xs
        → All (Earns base earned) (by_score xs)
    unfolding by_score
    by_score-All base earned [] _ = tt
    by_score-All base earned (x ∷ xs) h =
        put_scored-All base earned x (by_score xs) h.0 (by_score-All base earned xs h.1)

    keep-All :
        (base : String) (e : TierEngine F) (earned : Bool) (xs : Dict F)
        → (is_earned base e.promote xs ≡ true → earned ≡ true)
        → All (Earns base earned) (keep (is_promotable e) xs)
    keep-All base e earned [] _ = tt
    keep-All base e earned (x ∷ xs) h =
        let rest = keep-All base e earned xs (λ g. h (ground (arith, g))) in
        elim (Bool-cases (is_promotable e x)) [
          | inl p ↦ rw (p) (
            elim (Bool-cases (str_eq (upper x.0) (upper base))) [
              | inl same ↦ inr (h (ground (arith, same, p)))
              | inr other ↦ inl other
            ],
            rest,
          )
          | inr p ↦ rw (p) rest
        ]

    set_tier-tradable :
        (base raw : String) (why : Why) (s : List TierChange × TierEngine F)
        → is_tradable base (set_tier raw t2 why s).1 ≡ true
        → is_tradable base s.1 ≡ true
    unfolding set_tier is_tradable tier_of
    set_tier-tradable base raw why s h =
        ground (arith, h, lookup-insert (upper raw) (upper base) t2 s.1.tier)

    lift-tradable :
        (base raw : String) (s : List TierChange × TierEngine F)
        → str_eq (upper raw) (upper base) ≡ false
        → is_tradable base (set_tier raw t1 promoted s).1 ≡ is_tradable base s.1
    unfolding set_tier is_tradable tier_of
    lift-tradable base raw s h =
        ground (arith, h, lookup-insert (upper raw) (upper base) t1 s.1.tier)

    set_tier-promote :
        (raw : String) (new : Tier) (why : Why) (s : List TierChange × TierEngine F)
        → (set_tier raw new why s).1.promote ≡ s.1.promote
    unfolding set_tier
    set_tier-promote raw new why s = ground arith

    abbrev Sound : String → Bool → Bool → F → TierEngine F → Type 0
    Sound base before earned limit e =
        (e.promote ≡ limit) × ((is_tradable base e ≡ false) ⊎ (before ≡ true) ⊎ (earned ≡ true))

    down-Sound :
        (base : String) (before earned : Bool) (limit : F) (raw : String) (why : Why)
        (s : List TierChange × TierEngine F)
        → Sound base before earned limit s.1
        → Sound base before earned limit (set_tier raw t2 why s).1
    down-Sound base before earned limit raw why s (p, h) =
        (set_tier-promote raw t2 why s ∙ p, ground (arith, h, set_tier-tradable base raw why s))

    up-Sound :
        (base : String) (before earned : Bool) (limit : F) (x : String × F)
        (s : List TierChange × TierEngine F)
        → Earns base earned x
        → Sound base before earned limit s.1
        → Sound base before earned limit (set_tier x.0 t1 promoted s).1
    up-Sound base before earned limit x s (inl other) (p, h) =
        (set_tier-promote x.0 t1 promoted s ∙ p, rw (lift-tradable base x.0 s other) h)
    up-Sound base before earned limit x s (inr e) (p, _) =
        (set_tier-promote x.0 t1 promoted s ∙ p, inr (inr e))

    -- What may be traded after a scan could be traded before it, or has in this very scan a score that
    -- reaches the limit for a promotion.
    pub update_tradable :
        (scores : Dict F) (ranking : Option (List String)) (e : TierEngine F) (base : String)
        → (is_tradable base (update scores ranking e).1 ≡ false)
          ⊎ (is_tradable base e ≡ true)
          ⊎ (is_earned base e.promote scores ≡ true)
    unfolding is_tradable
    update_tradable scores ranking e base =
        let before = is_tradable base e in
        let earned = is_earned base e.promote scores in
        (update-keeps (Sound base before earned e.promote) (Earns base earned) (λ _ _ h. h)
          (down-Sound base before earned e.promote)
          (λ x s ok _. up-Sound base before earned e.promote x s ok) scores ranking e
          (λ e' h.
            unfold promotable in
            by_score-All base earned (keep (is_promotable e') scores)
              (keep-All base e' earned scores (λ g. rw (h.0) at g)))
          (refl, elim (Bool-cases before) [ inl t ↦ inr (inl t) | inr f ↦ inl f ])).1

    set_tier-provisional :
        (raw : String) (new : Tier) (why : Why) (s : List TierChange × TierEngine F)
        → (set_tier raw new why s).1.provisional ≡ s.1.provisional
    unfolding set_tier
    set_tier-provisional raw new why s = ground arith

    clear_drops :
        (base : String) (e : TierEngine F)
        → member (upper base) e.provisional ≡ true
        → tier_of base (clear_provisional base e) ≡ t3
    unfolding clear_provisional tier_of
    clear_drops base e h = ground (
      arith,
      h,
      eq_iff (upper base) (upper base),
      lookup-insert (upper base) (upper base) t3 (erase (upper base) e.tier),
    )

    -- A base that the fast track holds is one that the end of its window sends to T3, even when a scan
    -- has promoted it to T1 on its score in between.
    pub clear_after_scan :
        (scores : Dict F) (ranking : Option (List String)) (e : TierEngine F) (base : String)
        → member (upper base) e.provisional ≡ true
        → tier_of base (clear_provisional base (update scores ranking e).1) ≡ t3
    clear_after_scan scores ranking e base h =
        let held : member (upper base) (update scores ranking e).1.provisional ≡ true =
          update-keeps (λ e'. member (upper base) e'.provisional ≡ true) (λ _. Unit {0})
            (λ _ _ k. k) (λ raw why s. rw (set_tier-provisional raw t2 why s) (λ k. k))
            (λ x s _ _. rw (set_tier-provisional x.0 t1 promoted s) (λ k. k)) scores ranking e
            (λ e' _. All-any (promotable scores e')) h in
        clear_drops base (update scores ranking e).1 held
