-- ===== src/Learning/Registry.antt =====
-- The model registry: aimos/learning/registry.py, in its two forms. The JSON file holds one list of
-- entries; the table holds the rows of all organisations in the order of their ids.
use aimos.Prelude.{
  ℕ, suc, String, Bool, ◌&&◌, Option, none, some, List, [], ◌∷◌, ◌++◌, str_eq, any_of, keep, ◌==◌,
  if◌then◌else◌,
}
use aimos.Prelude.Floats.{Floats, ◌⊖◌, ◌⊘◌, ◌<?◌, nat}

pub record ModelEntry (F : Type 0) : Type 0 where
  pub path : String
  pub val_auc : F
  pub brier : F
  pub n_features : ℕ
  pub n_samples : ℕ
  pub timestamp : String
  pub shadow_weeks_held : ℕ
  pub status : String
  pub note : String

-- A row of `ModelRegistryRecord`.
pub record Row (F : Type 0) : Type 0 where
  pub id : ℕ
  pub organization_id : String
  pub entry : ModelEntry F

pub record Table (F : Type 0) : Type 0 where
  pub rows : List (Row F)
  pub next_id : ℕ

module _ {F : Type 0} where
  -- `e["status"] = status; e["note"] = note or e.get("note", "")`
  unfoldable pub with_status : String → String → ModelEntry F → ModelEntry F
  with_status status note e = record e {
    status = status;
    note = if str_eq note "" then e.note else note;
  }

  abbrev pub has_path : String → ModelEntry F → Bool
  has_path path e = str_eq e.path path

  -- The JSON form.
  -- `add`
  unfoldable pub add : ModelEntry F → List (ModelEntry F) → List (ModelEntry F)
  add e entries = entries ++ e ∷ []

  -- The loop over `reversed(entries)` in `promote` and `demote`: the last entry with the path.
  unfoldable pub set_status : String → String → String → List (ModelEntry F) → List (ModelEntry F)
  unfolding with_status
  set_status path status note [] = []
  set_status path status note (e ∷ es) =
      let rest = set_status path status note es in
      if any_of (has_path path) es
      then e ∷ rest
      else if has_path path e
      then with_status status note e ∷ es
      else e ∷ es

  -- `latest`; no status and an empty one are the same.
  unfoldable pub last_entry : List (ModelEntry F) → Option (ModelEntry F)
  last_entry [] = none
  last_entry (e ∷ es) = elim (last_entry es) [ none ↦ some e | some l ↦ some l ]

  unfoldable pub latest : Option String → List (ModelEntry F) → Option (ModelEntry F)
  unfolding last_entry
  latest none entries = last_entry entries
  latest (some status) entries =
      last_entry (if str_eq status "" then entries else keep (λ e. str_eq e.status status) entries)

  -- The form in the database.
  -- `_load_db`
  unfoldable pub load_rows : String → List (Row F) → List (ModelEntry F)
  load_rows org [] = []
  load_rows org (r ∷ rs) =
      let rest = load_rows org rs in if str_eq r.organization_id org then r.entry ∷ rest else rest

  abbrev pub load_db : String → Table F → List (ModelEntry F)
  load_db org t = load_rows org t.rows

  unfoldable pub add_db : String → ModelEntry F → Table F → Table F
  add_db org e t = record {
    rows = t.rows ++ record { id = t.next_id; organization_id = org; entry = e } ∷ [];
    next_id = suc t.next_id;
  }

  -- The id of the first match among the rows of the organisation in descending order.
  unfoldable pub matched : String → String → List (Row F) → Option ℕ
  matched org path [] = none
  matched org path (r ∷ rs) = elim (matched org path rs) [
    | some k ↦ some k
    | none ↦ if str_eq r.organization_id org && has_path path r.entry then some r.id else none
  ]

  -- `update(...).where(ModelRegistryRecord.id == entry_id)`
  unfoldable pub update_where : ℕ → (ModelEntry F → ModelEntry F) → List (Row F) → List (Row F)
  update_where k f [] = []
  update_where k f (r ∷ rs) =
      let rest = update_where k f rs in
      if r.id == k then record r { entry = f r.entry } ∷ rest else r ∷ rest

  -- `_update_status`
  unfoldable pub update_status : String → String → String → String → Table F → Table F
  unfolding with_status matched update_where
  update_status org path status note t = elim (matched org path t.rows) [
    | none ↦ t
    | some k ↦ record t { rows = update_where k (with_status status note) t.rows }
  ]

  -- The test of `check_drift`.
  unfoldable pub is_degraded : ⦃fl : Floats F⦄ → F → F → F → Bool
  is_degraded current previous threshold =
      (nat 0 <? previous) && (threshold <? ((current ⊖ previous) ⊘ previous))

-- The calls that change a registry. `drifts` is `check_drift` with the text of its reason.
pub data Op (F : Type 0) : Type 0 where
  adds : ModelEntry F → Op F
  promotes demotes : String → String → Op F
  drifts : F → F → F → String → String → Op F

module _ {F : Type 0} ⦃fl : Floats F⦄ where
  -- `add`, `promote`, `demote` and `check_drift` without a database
  abbrev pub step_json : Op F → List (ModelEntry F) → List (ModelEntry F)
  step_json (adds e) es = add e es
  step_json (promotes path note) es = set_status path "promoted" note es
  step_json (demotes path reason) es = set_status path "demoted" reason es
  step_json (drifts current previous threshold path reason) es =
      if is_degraded current previous threshold then set_status path "demoted" reason es else es

  -- … and with one, for an organisation.
  abbrev pub step_db : String → Op F → Table F → Table F
  step_db org (adds e) t = add_db org e t
  step_db org (promotes path note) t = update_status org path "promoted" note t
  step_db org (demotes path reason) t = update_status org path "demoted" reason t
  step_db org (drifts current previous threshold path reason) t =
      if is_degraded current previous threshold
      then update_status org path "demoted" reason t
      else t

  abbrev pub run_db : List (String × Op F) → Table F → Table F
  run_db [] t = t
  run_db ((org, op) ∷ ops) t = run_db ops (step_db org op t)

  -- The calls of one organisation, on its own file.
  abbrev pub run_json : String → List (String × Op F) → List (ModelEntry F) → List (ModelEntry F)
  run_json org [] es = es
  run_json org ((o, op) ∷ ops) es =
      let mine = run_json org ops (step_json op es) in
      let other = run_json org ops es in if str_eq o org then mine else other
