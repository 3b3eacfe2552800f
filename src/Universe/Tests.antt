-- ===== src/Universe/Tests.antt =====
-- The theorems of the universe at small inputs.
use aimos.Prelude.{
  ℕ, String, ◌≡◌, refl, ◌⊎◌, Bool, true, false, not, ◌&&◌, Option, none, some, List, [], ◌∷◌,
  length, arith, str_eq, if◌then◌else◌,
}
use aimos.Prelude.Int.{ℤ}
use aimos.Prelude.Dict.{lookup}
use aimos.Prelude.Floats.{fixed, nat, ◌<?◌}
use aimos.Prelude.Text.{upper}
use aimos.Universe.Tiers.{
  Tier, t1, t2, t3, TierEngine, Op, scan, fast_tracks, closes, run, step, members, member, tier_of,
  is_tradable, clear_provisional, update,
}
use aimos.Universe.Registry.{Registry, market, add_market, delist, market_lem}
use aimos.Universe.Filters.{
  MarketInfo, MarketQuality, Limits, quote, stable_base, leveraged, inactive, volume, depth, spread,
  age, volatility, is_leveraged_token, is_volatile, filter_market, first_failure, fails_quality,
  filter_market_lem,
}
use aimos.Universe.Caps.{WithinCaps, run-WithinCaps}
use aimos.Universe.Moves.{is_earned, update_tradable, clear_after_scan}

abbrev engine : TierEngine ℤ
engine = record {
  t1_max = 1;
  t2_max = 1;
  t1_provisional_max = 1;
  promote = nat 65;
  demote = nat 50;
  demote_scans = 3;
  tier = [];
  below_streak = [];
  provisional = [];
  emitted = [];
}

engine-WithinCaps : WithinCaps engine
unfolding members
engine-WithinCaps = record { t1 = omega arith; provisional = omega arith }

abbrev ops : List (Op ℤ)
ops = fast_tracks "PEPE" ∷ scan (("BTC", nat 80) ∷ ("PEPE", nat 90) ∷ []) none ∷ closes "PEPE" ∷ []

run-WithinCaps_example : WithinCaps (run ops engine)
run-WithinCaps_example = run-WithinCaps ops engine engine-WithinCaps

-- Two scans that rank one base each leave two bases in a T2 of one place.
overfull :
    length (
      members t2 (run (scan [] (some ("AAA" ∷ [])) ∷ scan [] (some ("BBB" ∷ [])) ∷ []) engine).tier)
    ≡ 2
unfolding update members aimos.Universe.Tiers.rank_all aimos.Universe.Tiers.ranking_of
    aimos.Universe.Tiers.promote_all aimos.Universe.Tiers.promotable aimos.Universe.Tiers.demote_all
    lookup aimos.Universe.Tiers.set_tier aimos.Prelude.Dict.insert upper
overfull = refl

abbrev watched : TierEngine ℤ
watched = record engine { tier = ("AAA", t2) ∷ [] }

update_tradable_example :
    (is_tradable "btc" (update (("BTC", nat 80) ∷ []) none engine).1 ≡ false)
    ⊎ (is_tradable "btc" engine ≡ true)
    ⊎ (is_earned "btc" engine.promote (("BTC", nat 80) ∷ []) ≡ true)
update_tradable_example = update_tradable (("BTC", nat 80) ∷ []) none engine "btc"

abbrev igniting : TierEngine ℤ
igniting = record engine { provisional = "PEPE" ∷ []; tier = ("PEPE", Tier.t1_provisional) ∷ [] }

clear_after_scan_test :
    tier_of "pepe" (clear_provisional "pepe" (update (("PEPE", nat 90) ∷ []) none igniting).1) ≡ t3
clear_after_scan_test =
    clear_after_scan (("PEPE", nat 90) ∷ []) none igniting "pepe" (unfold upper in refl)

abbrev btc : MarketInfo
btc = record { exchange = "binance"; base = "BTC"; quote = "USDT"; active = true }

abbrev empty : Registry
empty = record { primary_exchange = "binance"; by_base = []; suspended_quotes = [] }

market_lem_test :
    (market "btc" "binance" (add_market btc empty) ≡ (
      if str_eq (upper "BTC") (upper "btc") && str_eq "binance" "binance"
      then some btc
      else market "btc" "binance" empty))
    × (market "btc" "binance" (delist "btc" "binance" empty).1 ≡ (
        if str_eq (upper "btc") (upper "btc") && str_eq "binance" "binance"
        then none
        else market "btc" "binance" empty))
market_lem_test = market_lem btc "btc" "binance" empty "btc" "binance"

abbrev limits : Limits ℤ
limits = record {
  allowed_quotes = "USDT" ∷ [];
  exclude_bases = "USDC" ∷ [];
  exclude_leveraged_tokens = true;
  min_24h_volume_usd = nat 1000;
  min_book_depth_usd_0p5pct = nat 100;
  max_spread_bps = nat 20;
  min_listing_age_days = nat 30;
  max_atr_pct_per_day = none;
}

abbrev quality_of_btc : MarketQuality ℤ
quality_of_btc = record {
  volume_24h_usd = nat 5000;
  book_depth_usd_0p5pct = nat 50;
  spread_bps = nat 5;
  listing_age_days = nat 400;
  atr_pct_per_day = none;
}

filter_market_lem_test :
    filter_market btc (some quality_of_btc) limits
    ≡ first_failure (
        (quote, not (member (upper "USDT") limits.allowed_quotes))
        ∷ (stable_base, member (upper "BTC") limits.exclude_bases)
        ∷ (leveraged, limits.exclude_leveraged_tokens && is_leveraged_token (upper "BTC"))
        ∷ (inactive, not btc.active)
        ∷ (
          volume,
          fails_quality (λ q. q.volume_24h_usd <? limits.min_24h_volume_usd) (some quality_of_btc),
        )
        ∷ (
          depth,
          fails_quality
              (λ q. q.book_depth_usd_0p5pct <? limits.min_book_depth_usd_0p5pct)
              (some quality_of_btc),
        )
        ∷ (spread, fails_quality (λ q. limits.max_spread_bps <? q.spread_bps) (some quality_of_btc))
        ∷ (
          age,
          fails_quality
              (λ q. q.listing_age_days <? limits.min_listing_age_days)
              (some quality_of_btc),
        )
        ∷ (
          volatility,
          fails_quality
              (λ q. is_volatile limits.max_atr_pct_per_day q.atr_pct_per_day)
              (some quality_of_btc),
        )
        ∷ [])
filter_market_lem_test = filter_market_lem btc (some quality_of_btc) limits

-- "3L", "UP" and a newline behind them are leveraged; "JUPITER" is not.
leveraged_test :
    (is_leveraged_token "btc3l" ≡ true)
    × (is_leveraged_token "ETHUP" ≡ true)
    × (is_leveraged_token "JUPITER" ≡ false)
unfolding is_leveraged_token upper
leveraged_test = (refl, refl, refl)
