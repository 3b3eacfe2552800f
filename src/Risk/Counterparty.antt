-- ===== src/Risk/Counterparty.antt =====
-- The limits of what is held at one venue: aimos/risk/counterparty.py. A count of signals is not below 0.
use aimos.Prelude.{ℕ, String, Bool, leb, ◌==◌, if◌then◌else◌}
use aimos.Prelude.Floats.{Floats, ◌⊕◌, ◌⊖◌, ◌<?◌, nat, fmax}

pub data DegradeLevel : Type 0 where
  fine watch alert critical : DegradeLevel

pub record VenueCheck (F : Type 0) : Type 0 where
  pub venue : String
  pub exposure_pct : F
  pub over_cap : Bool
  pub headroom_pct : F

module _ {F : Type 0} ⦃fl : Floats F⦄ where
  unfoldable pub check : F → String → F → VenueCheck F
  check max_pct venue exposure_pct = record {
    venue = venue;
    exposure_pct = exposure_pct;
    over_cap = max_pct <? exposure_pct;
    headroom_pct = fmax (max_pct ⊖ exposure_pct) (nat 0);
  }

  unfoldable pub vetoes_new_position : F → F → F → Bool
  vetoes_new_position max_pct exposure_pct new_alloc_pct = max_pct <? (exposure_pct ⊕ new_alloc_pct)

unfoldable pub degrade_level : ℕ → Bool → DegradeLevel
degrade_level signal_count insolvency_flag =
    if insolvency_flag
    then critical
    else if leb 2 signal_count
    then alert
    else if signal_count == 1
    then watch
    else fine
