-- ===== src/Learning/Matching.antt =====
-- The row that an UPDATE of the model registry finds and what it changes.
use aimos.Prelude.{
  ℕ, suc, String, ◌≡◌, refl, ◌⊎◌, inl, inr, true, false, ◌≤◌, ◌<◌, none, some, List, [], ◌∷◌, arith,
  str_eq, eq_iff, any_of, ◌==◌, Bool-cases, Option-cases,
}
use aimos.Learning.Registry.{
  ModelEntry, Row, with_status, has_path, set_status, load_rows, matched, update_where,
}

module _ {F : Type 0} where
  -- The ids ascend from `low` on and stay below `top`.
  abbrev pub Ascending : ℕ → ℕ → List (Row F) → Type 0
  Ascending low top [] = low ≤ top
  Ascending low top (r ∷ rs) = (low ≤ r.id) × Ascending (suc r.id) top rs

  matched_low :
      (org path : String) (low top : ℕ) (rs : List (Row F)) (k : ℕ)
      → Ascending low top rs
      → matched org path rs ≡ some k
      → low ≤ k
  unfolding matched
  matched_low org path low top [] k h e = ground (arith, e)
  matched_low org path low top (r ∷ rs) k h e = elim (Option-cases (matched org path rs)) [
    | inl n ↦ ground (arith, n, e, h.0)
    | inr (j, m) ↦ ground (arith, matched_low org path (suc r.id) top rs j h.1 m, m, e, h.0)
  ]

  pub matched_none :
      (org path : String) (rs : List (Row F))
      → matched org path rs ≡ none
      → any_of (has_path path) (load_rows org rs) ≡ false
  unfolding matched load_rows
  matched_none org path [] e = refl
  matched_none org path (r ∷ rs) e = ground (arith, e, matched_none org path rs)

  matched_some :
      (org path : String) (rs : List (Row F)) (k : ℕ)
      → matched org path rs ≡ some k
      → any_of (has_path path) (load_rows org rs) ≡ true
  unfolding matched load_rows
  matched_some org path [] k e = cc (e)
  matched_some org path (r ∷ rs) k e = elim (Option-cases (matched org path rs)) [
    | inl n ↦ ground (arith, n, e)
    | inr (j, m) ↦ ground (arith, matched_some org path rs j m)
  ]

  update_where-above :
      (k low top : ℕ) (f : ModelEntry F → ModelEntry F) (rs : List (Row F))
      → Ascending low top rs
      → k < low
      → update_where k f rs ≡ rs
  unfolding update_where
  update_where-above k low top f [] h lt = refl
  update_where-above k low top f (r ∷ rs) h lt =
      ground (arith, h.0, lt, update_where-above k (suc r.id) top f rs h.1)

  pub update_where-Ascending :
      (k low top : ℕ) (f : ModelEntry F → ModelEntry F) (rs : List (Row F))
      → Ascending low top rs
      → Ascending low top (update_where k f rs)
  unfolding update_where
  update_where-Ascending k low top f [] h = h
  update_where-Ascending k low top f (r ∷ rs) h = elim (Bool-cases (r.id == k)) [
    | inl e ↦ rw (e) (h.0, update_where-Ascending k (suc r.id) top f rs h.1)
    | inr e ↦ rw (e) (h.0, update_where-Ascending k (suc r.id) top f rs h.1)
  ]

  -- The match is in the first row, or it is behind it and has a greater id.
  matched_cons :
      (org path : String) (low top : ℕ) (r : Row F) (rs : List (Row F)) (k : ℕ)
      → Ascending low top (r ∷ rs)
      → matched org path (r ∷ rs) ≡ some k
      → ((matched org path rs ≡ none)
          × (r.id ≡ k)
          × (str_eq r.organization_id org ≡ true)
          × (has_path path r.entry ≡ true))
        ⊎ ((matched org path rs ≡ some k) × (r.id < k))
  unfolding matched
  matched_cons org path low top r rs k h e = elim (Option-cases (matched org path rs)) [
    | inl n ↦ inl (ground (arith, n, e))
    | inr (j, m) ↦ inr (ground (arith, m, e, matched_low org path (suc r.id) top rs j h.1 m))
  ]

  -- What the rows of the organisation hold after the UPDATE,
  pub load-update :
      (org path status note : String) (low top k : ℕ) (rs : List (Row F))
      → Ascending low top rs
      → matched org path rs ≡ some k
      → load_rows org (update_where k (with_status status note) rs)
        ≡ set_status path status note (load_rows org rs)
  unfolding load_rows update_where set_status
  load-update org path status note low top k [] h e = unfold matched in cc (e)
  load-update org path status note low top k (r ∷ rs) h e =
      elim (matched_cons org path low top r rs k h e) [
        | inl (n, i, o, p) ↦ ground (
          arith,
          i,
          o,
          p,
          matched_none org path rs n,
          update_where-above k (suc r.id) top (with_status status note) rs h.1,
        )
        | inr (m, lt) ↦ ground (
          arith,
          lt,
          matched_some org path rs k m,
          load-update org path status note (suc r.id) top k rs h.1 m,
        )
      ]

  -- and those of another.
  pub load-update_other :
      (org other path status note : String) (low top k : ℕ) (rs : List (Row F))
      → str_eq org other ≡ false
      → Ascending low top rs
      → matched org path rs ≡ some k
      → load_rows other (update_where k (with_status status note) rs) ≡ load_rows other rs
  unfolding load_rows update_where
  load-update_other org other path status note low top k [] d h e = refl
  load-update_other org other path status note low top k (r ∷ rs) d h e =
      elim (matched_cons org path low top r rs k h e) [
        | inl (n, i, o, p) ↦ ground (
          arith,
          i,
          o,
          p,
          d,
          eq_iff r.organization_id org,
          update_where-above k (suc r.id) top (with_status status note) rs h.1,
        )
        | inr (m, lt) ↦
            ground
              (arith, lt, load-update_other org other path status note (suc r.id) top k rs d h.1 m)
      ]
