-- ===== src/Universe/Filters.antt =====
-- The market filters: aimos/universe/filters.py. The digits of the pattern are the ASCII ones.
use aimos.Prelude.{
  ℕ, String, ◌≡◌, Bool, true, false, not, ◌&&◌, ◌||◌, Option, none, some, List, [], ◌∷◌, arith, leb,
  ◌==◌, if◌then◌else◌,
}
use mathlib.Core.List.{reverse}
use aimos.Prelude.Floats.{Floats, ◌<?◌}
use aimos.Prelude.Text.{codes, upper}
use aimos.Universe.Tiers.{member}

pub record MarketInfo : Type 0 where
  pub exchange : String
  pub base : String
  pub quote : String
  pub active : Bool

pub record MarketQuality (F : Type 0) : Type 0 where
  pub volume_24h_usd : F
  pub book_depth_usd_0p5pct : F
  pub spread_bps : F
  pub listing_age_days : F
  pub atr_pct_per_day : Option F

-- The keyword arguments of `filter_market`.
pub record Limits (F : Type 0) : Type 0 where
  pub allowed_quotes : List String
  pub exclude_bases : List String
  pub exclude_leveraged_tokens : Bool
  pub min_24h_volume_usd : F
  pub min_book_depth_usd_0p5pct : F
  pub max_spread_bps : F
  pub min_listing_age_days : F
  pub max_atr_pct_per_day : Option F

pub data Rejection : Type 0 where
  quote stable_base leveraged inactive volume depth spread age volatility : Rejection

-- `none` is a market that passed.
abbrev pub FilterResult : Type 0
FilterResult = Option Rejection

unfoldable pub starts_with : List ℕ → List ℕ → Bool
starts_with [] _ = true
starts_with (_ ∷ _) [] = false
starts_with (a ∷ s) (c ∷ t) = let rest = starts_with s t in if a == c then rest else false

-- The alternatives of the pattern, on a text that is read from its end.
unfoldable pub ends_leveraged : List ℕ → Bool
unfolding starts_with
ends_leveraged s =
    elim s [
      | [] ↦ false
      | c ∷ s' ↦ elim s' [
        | [] ↦ false
        | d ∷ _ ↦ ((c == b'L') || (c == b'S')) && (leb b'0' d && leb d b'9')
      ]
    ]
    || starts_with (reverse (codes "UP")) s
    || starts_with (reverse (codes "DOWN")) s
    || starts_with (reverse (codes "BULL")) s
    || starts_with (reverse (codes "BEAR")) s

-- `_LEVERAGED_RE.search(base.upper())`; `$` also matches before a newline at the end.
unfoldable pub is_leveraged_token : String → Bool
unfolding ends_leveraged
is_leveraged_token base =
    let s = reverse (codes (upper base)) in
    ends_leveraged s || elim s [ [] ↦ false | c ∷ s' ↦ (c == 10) && ends_leveraged s' ]

-- The first rejection whose test fails.
abbrev pub first_failure : List (Rejection × Bool) → FilterResult
first_failure [] = none
first_failure ((r, fails) ∷ more) = let rest = first_failure more in if fails then some r else rest

module _ {F : Type 0} ⦃fl : Floats F⦄ where
  -- The test on the average true range, which a missing limit or a missing value passes.
  unfoldable pub is_volatile : Option F → Option F → Bool
  is_volatile (some limit) (some atr) = limit <? atr
  is_volatile _ _ = false

  unfoldable pub filter_market : MarketInfo → Option (MarketQuality F) → Limits F → FilterResult
  filter_market market quality l =
      let base = upper market.base in
      if not (member (upper market.quote) l.allowed_quotes)
      then some quote
      else if member base l.exclude_bases
      then some stable_base
      else if l.exclude_leveraged_tokens && is_leveraged_token base
      then some leveraged
      else if not market.active
      then some inactive
      else elim quality [
        | none ↦ none
        | some q ↦
            if q.volume_24h_usd <? l.min_24h_volume_usd
            then some volume
            else if q.book_depth_usd_0p5pct <? l.min_book_depth_usd_0p5pct
            then some depth
            else if l.max_spread_bps <? q.spread_bps
            then some spread
            else if q.listing_age_days <? l.min_listing_age_days
            then some age
            else if is_volatile l.max_atr_pct_per_day q.atr_pct_per_day
            then some volatility
            else none
      ]

  -- A test of the quality, which a market without metrics passes.
  abbrev pub fails_quality : (MarketQuality F → Bool) → Option (MarketQuality F) → Bool
  fails_quality test none = false
  fails_quality test (some q) = test q

  -- The answer is the first of the nine reasons, in this order, that holds of the market; the last five
  -- hold of no market without metrics.
  pub filter_market_lem :
      (m : MarketInfo) (quality : Option (MarketQuality F)) (l : Limits F)
      → filter_market m quality l
        ≡ first_failure (
            (quote, not (member (upper m.quote) l.allowed_quotes))
            ∷ (stable_base, member (upper m.base) l.exclude_bases)
            ∷ (leveraged, l.exclude_leveraged_tokens && is_leveraged_token (upper m.base))
            ∷ (inactive, not m.active)
            ∷ (volume, fails_quality (λ q. q.volume_24h_usd <? l.min_24h_volume_usd) quality)
            ∷ (
              depth,
              fails_quality (λ q. q.book_depth_usd_0p5pct <? l.min_book_depth_usd_0p5pct) quality,
            )
            ∷ (spread, fails_quality (λ q. l.max_spread_bps <? q.spread_bps) quality)
            ∷ (age, fails_quality (λ q. q.listing_age_days <? l.min_listing_age_days) quality)
            ∷ (
              volatility,
              fails_quality (λ q. is_volatile l.max_atr_pct_per_day q.atr_pct_per_day) quality,
            )
            ∷ [])
  unfolding filter_market
  filter_market_lem m none l = ground arith
  filter_market_lem m (some q) l = ground arith
