-- ===== src/Universe/Depeg.antt =====
-- The stablecoin guard, aimos/universe/depeg.py, and the availability matrix,
-- aimos/universe/intersection.py. A set of bases is a list without an order.
use aimos.Prelude.{ℕ, String, Bool, List, map, keep, leb, length}
use aimos.Prelude.Dict.{Dict}
use aimos.Prelude.Text.{upper}
use aimos.Prelude.Floats.{Floats, ◌⊖◌, ◌⊗◌, ◌<?◌, nat}
use aimos.Universe.Tiers.{member}
use aimos.Universe.Registry.{Registry, venue_map, venues}

pub record DepegCheck (F : Type 0) : Type 0 where
  pub quote : String
  pub rate : F
  pub deviation_bps : F
  pub depegged : Bool

unfoldable pub check_depeg : {F : Type 0} → ⦃fl : Floats F⦄ → String → F → F → DepegCheck F
check_depeg ⦃fl⦄ quote rate_vs_usd depeg_guard_bps =
    let deviation_bps = fl.abs (rate_vs_usd ⊖ nat 1) ⊗ nat 10000 in
    record {
      quote = quote;
      rate = rate_vs_usd;
      deviation_bps = deviation_bps;
      depegged = depeg_guard_bps <? deviation_bps;
    }

-- `bases`: the keys of the registry.
abbrev pub bases : Registry → List String
bases r = map (λ x. x.0) r.by_base

-- `_known_venues`
abbrev pub known_venues : Registry → String → List String
known_venues r base = map (λ x. x.0) (venue_map (upper base) r)

-- One row of the matrix.
abbrev pub row : Registry → String → Dict Bool
row r base = map (λ v. (v, member v (venues base r))) (known_venues r base)

unfoldable pub build_matrix : Registry → Dict (Dict Bool)
build_matrix r = map (λ base. (base, row r base)) (bases r)

unfoldable pub common : ℕ → Registry → List String
common min_venues r = keep (λ base. leb min_venues (length (venues base r))) (bases r)
