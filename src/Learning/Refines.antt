-- ===== src/Learning/Refines.antt =====
-- The table of all organisations does for each of them what the JSON file does.
use aimos.Prelude.{
  ℕ, suc, String, ◌≡◌, ◌∙◌, refl, sym, inl, inr, false, List, [], ◌∷◌, ◌++◌, arith, str_eq, eq_iff,
  any_of, if◌then◌else◌, Bool-cases, Option-cases,
}
use aimos.Prelude.Floats.{Floats}
use aimos.Learning.Registry.{
  ModelEntry, Row, Table, with_status, has_path, add, set_status, load_rows, load_db, add_db,
  matched, update_status, is_degraded, Op, adds, promotes, demotes, drifts, step_json, step_db,
  run_db, run_json,
}
use aimos.Learning.Matching.{
  Ascending, matched_none, update_where-Ascending, load-update, load-update_other,
}

module _ {F : Type 0} where
  set_status-absent :
      (path status note : String) (es : List (ModelEntry F))
      → any_of (has_path path) es ≡ false
      → set_status path status note es ≡ es
  unfolding set_status
  set_status-absent path status note [] h = refl
  set_status-absent path status note (e ∷ es) h = ground (arith, h)

  load-add :
      (org other : String) (e : ModelEntry F) (n : ℕ) (rs : List (Row F))
      → load_rows other (rs ++ record { id = n; organization_id = org; entry = e } ∷ [])
        ≡ (if str_eq org other then load_rows other rs ++ e ∷ [] else load_rows other rs)
  unfolding load_rows
  load-add org other e n [] = ground arith
  load-add org other e n (r ∷ rs) = ground (arith, load-add org other e n rs)

  add-Ascending :
      (low top : ℕ) (r : Row F) (rs : List (Row F))
      → r.id ≡ top
      → Ascending low top rs
      → Ascending low (suc top) (rs ++ r ∷ [])
  add-Ascending low top r [] i h = (omega (arith, i, h), omega (arith, i))
  add-Ascending low top r (x ∷ rs) i h = (h.0, add-Ascending (suc x.id) top r rs i h.1)

  -- The table is one that `Stands`: its ids ascend and lie below the next one.
  abbrev pub IsOrdered : Table F → Type 0
  IsOrdered t = Ascending 0 t.next_id t.rows

  update_status-IsOrdered :
      (org path status note : String) (t : Table F)
      → IsOrdered t
      → IsOrdered (update_status org path status note t)
  unfolding update_status
  update_status-IsOrdered org path status note t h = elim (Option-cases (matched org path t.rows)) [
    | inl e ↦ rw (e, update_status) h
    | inr (k, e) ↦
        rw (e, update_status)
          (update_where-Ascending k 0 t.next_id (with_status status note) t.rows h)
  ]

  update_status_loads :
      (org other path status note : String) (t : Table F)
      → IsOrdered t
      → load_db other (update_status org path status note t) ≡ (
          if str_eq org other
          then set_status path status note (load_db other t)
          else load_db other t)
  unfolding update_status
  update_status_loads org other path status note t h =
      elim (Option-cases (matched org path t.rows)) [
        | inl e ↦
            rw (e, update_status)
              (elim (Bool-cases (str_eq org other)) [
                | inl same ↦
                    rw (same, ← (eq_iff org other).0 same)
                      (sym (
                        set_status-absent path status note (load_db org t)
                          (matched_none org path t.rows e)))
                | inr differ ↦ rw (differ) refl
              ])
        | inr (k, e) ↦
            rw (e, update_status)
              (elim (Bool-cases (str_eq org other)) [
                | inl same ↦
                    rw (same, ← (eq_iff org other).0 same)
                      (load-update org path status note 0 t.next_id k t.rows h e)
                | inr differ ↦
                    rw (differ)
                      (load-update_other org other path status note 0 t.next_id k t.rows differ h e)
              ])
      ]

  module _ ⦃fl : Floats F⦄ where
    step_db-IsOrdered :
        (org : String) (op : Op F) (t : Table F) → IsOrdered t → IsOrdered (step_db org op t)
    unfolding add_db
    step_db-IsOrdered org (adds e) t h =
        add-Ascending 0 t.next_id (record { id = t.next_id; organization_id = org; entry = e })
          t.rows refl h
    step_db-IsOrdered org (promotes path note) t h =
        update_status-IsOrdered org path "promoted" note t h
    step_db-IsOrdered org (demotes path note) t h =
        update_status-IsOrdered org path "demoted" note t h
    step_db-IsOrdered org (drifts current previous threshold path note) t h =
        elim (Bool-cases (is_degraded current previous threshold)) [
          | inl e ↦ rw (e) (update_status-IsOrdered org path "demoted" note t h)
          | inr e ↦ rw (e) h
        ]

    step_db_loads :
        (org other : String) (op : Op F) (t : Table F)
        → IsOrdered t
        → load_db other (step_db org op t)
          ≡ (if str_eq org other then step_json op (load_db other t) else load_db other t)
    unfolding add_db add
    step_db_loads org other (adds e) t h = load-add org other e t.next_id t.rows
    step_db_loads org other (promotes path note) t h =
        update_status_loads org other path "promoted" note t h
    step_db_loads org other (demotes path note) t h =
        update_status_loads org other path "demoted" note t h
    step_db_loads org other (drifts current previous threshold path note) t h =
        elim (Bool-cases (is_degraded current previous threshold)) [
          | inl e ↦ rw (e) (update_status_loads org other path "demoted" note t h)
          | inr e ↦ rw (e) (elim (Bool-cases (str_eq org other)) [
            | inl same ↦ rw (same) refl
            | inr differ ↦ rw (differ) refl
          ])
        ]

    -- Over any calls by any organisations on one table whose ids ascend, as those of an empty one do,
    -- an organisation reads what its own calls alone would have left in its JSON file: both forms agree,
    -- and no organisation touches the entries of another.
    pub run_db_loads :
        (ops : List (String × Op F)) (org : String) (t : Table F)
        → IsOrdered t
        → load_db org (run_db ops t) ≡ run_json org ops (load_db org t)
    run_db_loads [] org t h = refl
    run_db_loads ((o, op) ∷ ops) org t h =
        run_db_loads ops org (step_db o op t) (step_db-IsOrdered o op t h)
        ∙ (rw (step_db_loads o org op t h) (elim (Bool-cases (str_eq o org)) [
          | inl same ↦ rw (same) refl
          | inr differ ↦ rw (differ) refl
        ]))
