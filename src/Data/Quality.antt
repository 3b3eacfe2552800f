-- ===== src/Data/Quality.antt =====
-- The data quality gate: aimos/data/quality.py. `statistics.median` is that of the sorted values.
use aimos.Prelude.{
  ◌/◌, ◌%◌, ◌-◌, Bool, true, false, Option, none, some, List, [], ◌∷◌, length, get_elem?, or_else,
  ◌==◌, if◌then◌else◌,
}
use aimos.Prelude.Int.{ℤ, ◌-ℤ◌}
use aimos.Prelude.Floats.{Floats, ◌⊕◌, ◌⊖◌, ◌⊗◌, ◌⊘◌, ◌<?◌, ◌≤?◌, nat}
use aimos.Data.Book.Walls.{sorted_from}

pub data VenueStatus : Type 0 where
  healthy degraded : VenueStatus

pub data DriftStatus : Type 0 where
  steady warn paused : DriftStatus

-- Why a tick is passed or quarantined.
pub data TickReason (F : Type 0) : Type 0 where
  no_atr within_band confirmed : TickReason F
  deviates : F → F → F → TickReason F

pub record TickCheck (F : Type 0) : Type 0 where
  pub quarantined : Bool
  pub reason : TickReason F

module _ {F : Type 0} ⦃fl : Floats F⦄ where
  abbrev pub is_confirmed : F → F → Option F → Bool
  is_confirmed price tolerance_pct none = false
  is_confirmed price tolerance_pct (some other) =
      fl.abs (price ⊖ other) ≤? (fl.abs price ⊗ (tolerance_pct ⊘ nat 100))

  unfoldable pub check_bad_tick : F → F → F → F → Option F → F → TickCheck F
  check_bad_tick price last_valid_price atr mult second_venue_price tolerance_pct =
      let deviation = fl.abs (price ⊖ last_valid_price) in
      let threshold = mult ⊗ atr in
      if atr ≤? nat 0
      then record { quarantined = false; reason = no_atr }
      else if deviation ≤? threshold
      then record { quarantined = false; reason = within_band }
      else if is_confirmed price tolerance_pct second_venue_price
      then record { quarantined = false; reason = confirmed }
      else record { quarantined = true; reason = deviates deviation mult threshold }

  abbrev pub median_of : List F → F
  median_of xs =
      let sorted = sorted_from [] xs in
      let n = length sorted in
      let upper = or_else (get_elem? sorted (n / 2)) (nat 0) in
      let below = or_else (get_elem? sorted (n / 2 - 1)) (nat 0) in
      if n % 2 == 1 then upper else (below ⊕ upper) ⊘ nat 2

  unfoldable pub check_cross_venue : F → List F → F → VenueStatus
  check_cross_venue primary_mid [] max_deviation_pct = healthy
  check_cross_venue primary_mid (m ∷ mids) max_deviation_pct =
      let reference = median_of (m ∷ mids) in
      if reference ≤? nat 0
      then healthy
      else if max_deviation_pct <? ((fl.abs (primary_mid ⊖ reference) ⊘ reference) ⊗ nat 100)
      then degraded
      else healthy

  unfoldable pub is_stale : ℤ → ℤ → ℤ → F → Bool
  is_stale last_update now cadence mult =
      (fl.total_seconds cadence ⊗ mult) <? fl.total_seconds (now -ℤ last_update)

  unfoldable pub clock_drift_status : F → F → F → DriftStatus
  clock_drift_status drift_ms warn_ms pause_ms =
      let d = fl.abs drift_ms in
      if pause_ms ≤? d then paused else if warn_ms ≤? d then warn else steady
