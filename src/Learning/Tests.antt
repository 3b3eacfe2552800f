-- ===== src/Learning/Tests.antt =====
-- The theorem of the registry for two organisations.
use aimos.Prelude.{arith, ℕ, String, ◌≡◌, refl, Option, none, some, List, [], ◌∷◌, map}
use aimos.Prelude.Int.{ℤ}
use aimos.Prelude.Floats.{fixed, nat}
use aimos.Learning.Registry.{
  ModelEntry, Table, load_db, latest, Op, adds, promotes, drifts, run_db, run_json, add_db,
  update_status, load_rows,
}
use aimos.Learning.Refines.{run_db_loads}

abbrev entry : String → ModelEntry ℤ
entry path = record {
  path = path;
  val_auc = fixed.decimal 7 1;
  brier = fixed.decimal 2 1;
  n_features = 30;
  n_samples = 5000;
  timestamp = "t0";
  shadow_weeks_held = 0;
  status = "candidate";
  note = "";
}

abbrev empty : Table ℤ
empty = record { rows = []; next_id = 1 }

abbrev ops : List (String × Op ℤ)
ops =
    ("a", adds (entry "m1"))
    ∷ ("b", adds (entry "m1"))
    ∷ ("a", promotes "m1" "good")
    ∷ ("a", drifts (nat 3) (nat 2) (fixed.decimal 2 1) "m1" "Brier degraded")
    ∷ []

run_db_loads_example : load_db "a" (run_db ops empty) ≡ run_json "a" ops (load_db "a" empty)
run_db_loads_example = run_db_loads ops "a" empty (omega arith)

-- The model of the other organisation is the candidate it was.
other_test : map (λ e. e.status) (load_db "b" (run_db ops empty)) ≡ "candidate" ∷ []
unfolding add_db update_status load_rows aimos.Learning.Registry.is_degraded aimos.Prelude.Int.◌/ℤ◌
other_test = refl

-- The promoted model was demoted.
latest_test : latest (some "promoted") (load_db "a" (run_db ops empty)) ≡ none
unfolding add_db update_status load_rows latest aimos.Learning.Registry.is_degraded
    aimos.Prelude.Int.◌/ℤ◌
latest_test = refl
