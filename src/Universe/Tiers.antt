-- ===== src/Universe/Tiers.antt =====
-- The tier engine: aimos/universe/tiers.py. A set is a list, gone through in the order of the dict. The
-- changes that `on_change` is called with are kept in `emitted`.
use aimos.Prelude.{
  ℕ, String, Bool, true, false, not, ◌&&◌, ◌||◌, ◌+◌, Option, none, some, List, [], ◌∷◌, ◌++◌, map,
  str_eq, any_of, keep, length, leb, or_else, if◌then◌else◌,
}
use aimos.Prelude.Dict.{Dict, lookup, insert, erase}
use aimos.Prelude.Floats.{Floats, ◌<?◌, ◌≤?◌, nat}
use aimos.Prelude.Text.{upper}

pub data Tier : Type 0 where
  t1 t2 t3 t1_provisional : Tier

abbrev pub same_tier : Tier → Tier → Bool
same_tier t1 t1 = true
same_tier t2 t2 = true
same_tier t3 t3 = true
same_tier t1_provisional t1_provisional = true
same_tier _ _ = false

pub data Why : Type 0 where
  fast_track window_closed hysteresis promoted watch_rank : Why

pub record TierChange : Type 0 where
  pub base : String
  pub old : Option Tier
  pub new : Tier
  pub reason : Why

pub record TierEngine (F : Type 0) : Type 0 where
  pub t1_max : ℕ
  pub t2_max : ℕ
  pub t1_provisional_max : ℕ
  pub promote : F
  pub demote : F
  pub demote_scans : ℕ
  pub tier : Dict Tier
  pub below_streak : Dict ℕ
  pub provisional : List String
  pub emitted : List TierChange

abbrev pub member : String → List String → Bool
member s xs = any_of (λ x. str_eq x s) xs

-- `{b for b, t in self._tier.items() if t == tier}`
unfoldable pub members : Tier → Dict Tier → List String
members tier [] = []
members tier ((b, t) ∷ d) = let rest = members tier d in if same_tier t tier then b ∷ rest else rest

module _ {F : Type 0} where
  unfoldable pub tier_of : String → TierEngine F → Tier
  tier_of base e = or_else (lookup (upper base) e.tier) t3

  abbrev pub t1_members : TierEngine F → List String
  t1_members e = members t1 e.tier

  unfoldable pub is_tradable : String → TierEngine F → Bool
  unfolding tier_of
  is_tradable base e = same_tier (tier_of base e) t1 || same_tier (tier_of base e) t1_provisional

  abbrev pub emit : TierChange → TierEngine F → TierEngine F
  emit c e = record e { emitted = e.emitted ++ c ∷ [] }

  unfoldable pub add_provisional : String → TierEngine F → Bool × TierEngine F
  add_provisional raw e =
      let base = upper raw in
      if member base e.provisional
      then (true, e)
      else if leb e.t1_provisional_max (length e.provisional)
      then (false, e)
      else (
        true,
        emit
            (record {
              base = base;
              old = lookup base e.tier;
              new = t1_provisional;
              reason = fast_track;
            })
            (record e {
              provisional = base ∷ e.provisional;
              tier = insert base t1_provisional e.tier;
            }),
      )

  unfoldable pub clear_provisional : String → TierEngine F → TierEngine F
  clear_provisional raw e =
      let base = upper raw in
      if member base e.provisional
      then emit (record { base = base; old = lookup base e.tier; new = t3; reason = window_closed })
          (record e {
            provisional = keep (λ b. not (str_eq b base)) e.provisional;
            tier = insert base t3 (erase base e.tier);
          })
      else e

  abbrev record_change :
      TierChange → List TierChange × TierEngine F → List TierChange × TierEngine F
  record_change c (sink, e) =
      (sink ++ c ∷ [], emit c (record e { tier = insert c.base c.new e.tier }))

  -- `_set_tier`; the list is the sink of the changes.
  unfoldable pub set_tier :
      String → Tier → Why → List TierChange × TierEngine F → List TierChange × TierEngine F
  set_tier raw new why (sink, e) =
      let base = upper raw in
      let old = lookup base e.tier in
      let changed =
        record_change (record { base = base; old = old; new = new; reason = why }) (sink, e) in
      elim old [ none ↦ changed | some t ↦ if same_tier t new then (sink, e) else changed ]

  abbrev pub set_streak :
      String → ℕ → List TierChange × TierEngine F → List TierChange × TierEngine F
  set_streak base n (sink, e) = (sink, record e { below_streak = insert base n e.below_streak })

  abbrev pub drop_streak : String → List TierChange × TierEngine F → List TierChange × TierEngine F
  drop_streak base (sink, e) = (sink, record e { below_streak = erase base e.below_streak })

  module _ ⦃fl : Floats F⦄ where
    -- The first loop of `update`, for one member of T1.
    unfoldable pub demote_one :
        Dict F → String → List TierChange × TierEngine F → List TierChange × TierEngine F
    demote_one scores base (sink, e) =
        let n = or_else (lookup base e.below_streak) 0 + 1 in
        let counted = set_streak base n (sink, e) in
        if or_else (lookup base scores) (nat 0) <? e.demote
        then if leb e.demote_scans n
          then drop_streak base (set_tier base t2 hysteresis counted)
          else counted
        else set_streak base 0 (sink, e)

    unfoldable pub demote_all :
        Dict F → List String → List TierChange × TierEngine F → List TierChange × TierEngine F
    demote_all scores [] s = s
    demote_all scores (base ∷ bases) s = demote_all scores bases (demote_one scores base s)

    -- `sorted(…, reverse=True)` on the scores, with the order of equal ones kept.
    unfoldable pub put_scored : String × F → Dict F → Dict F
    put_scored x [] = x ∷ []
    put_scored x (y ∷ ys) =
        let rest = put_scored x ys in if y.1 ≤? x.1 then x ∷ (y ∷ ys) else y ∷ rest

    unfoldable pub by_score : Dict F → Dict F
    unfolding put_scored
    by_score [] = []
    by_score (x ∷ xs) = put_scored x (by_score xs)

    abbrev pub is_promotable : TierEngine F → String × F → Bool
    is_promotable e (b, s) = (e.promote ≤? s) && not (same_tier (tier_of b e) t1)

    unfoldable pub promotable : Dict F → TierEngine F → Dict F
    unfolding tier_of by_score
    promotable scores e = by_score (keep (is_promotable e) scores)

    -- The second loop of `update`.
    unfoldable pub promote_all :
        Dict F → List TierChange × TierEngine F → List TierChange × TierEngine F
    promote_all [] s = s
    promote_all ((base, _) ∷ bases) s =
        let more = promote_all bases (set_streak base 0 (set_tier base t1 promoted s)) in
        if leb s.1.t1_max (length (t1_members s.1)) then s else more

    unfoldable pub ranking_of : Option (List String) → Dict F → List String
    unfolding by_score
    ranking_of (some (b ∷ bs)) scores = b ∷ bs
    ranking_of _ scores = map (λ x. x.0) (by_score scores)

    -- The third loop of `update`; the number counts the places taken.
    unfoldable pub rank_all :
        List String
        → List String
        → ℕ
        → List TierChange × TierEngine F
        → List TierChange × TierEngine F
    rank_all held [] placed s = s
    rank_all held (raw ∷ bases) placed s =
        let base = upper raw in
        let skip = rank_all held bases placed s in
        let kept = rank_all held bases (placed + 1) s in
        let moved = rank_all held bases (placed + 1) (set_tier base t2 watch_rank s) in
        if member base held
        then skip
        else if leb s.1.t2_max placed
        then s
        else if same_tier (tier_of base s.1) t2
        then kept
        else moved

    unfoldable pub update :
        Dict F → Option (List String) → TierEngine F → List TierChange × TierEngine F
    update scores watch_ranking e =
        let demoted = demote_all scores (t1_members e) ([], e) in
        let lifted = promote_all (promotable scores demoted.1) demoted in
        let held = t1_members lifted.1 ++ lifted.1.provisional in
        rank_all held (ranking_of watch_ranking scores) 0 lifted

-- The calls that change an engine, and a series of them.
pub data Op (F : Type 0) : Type 0 where
  scan : Dict F → Option (List String) → Op F
  fast_tracks closes : String → Op F

module _ {F : Type 0} ⦃fl : Floats F⦄ where
  abbrev pub step : Op F → TierEngine F → TierEngine F
  step (scan scores ranking) e = (update scores ranking e).1
  step (fast_tracks base) e = (add_provisional base e).1
  step (closes base) e = clear_provisional base e

  abbrev pub run : List (Op F) → TierEngine F → TierEngine F
  run [] e = e
  run (op ∷ ops) e = run ops (step op e)
