-- ===== src/Broker/Divergence.antt =====
-- `DivergenceTracker` of aimos/execution/broker/live.py: costs as modelled and as paid, by plugin.
use mathlib.Core.List.{append-nil, append_assoc}
use aimos.Prelude.{
  String, ◌≡◌, refl, sym, ◌∙◌, Bool-cases, inl, inr, Bool, false, ◌&&◌, List, [], ◌∷◌, ◌++◌, str_eq,
  eq_iff, length, or_else, if◌then◌else◌,
}
use aimos.Prelude.Dict.{Dict, lookup, insert, lookup-insert}
use aimos.Prelude.Floats.{Floats, ◌⊕◌, ◌⊗◌, ◌⊘◌, ◌<?◌, nat}

pub record DivergenceTracker (F : Type 0) : Type 0 where
  pub threshold_mult : F
  pub modeled : Dict (List F)
  pub actual : Dict (List F)

-- `defaultdict(list)[k]`, and an append to it
abbrev pub costs : {F : Type 0} → String → Dict (List F) → List F
costs k d = or_else (lookup k d) []

unfoldable pub record_costs :
    {F : Type 0} → String → F → F → DivergenceTracker F → DivergenceTracker F
record_costs plugin modeled_bps actual_bps t = record t {
  modeled = insert plugin (costs plugin t.modeled ++ modeled_bps ∷ []) t.modeled;
  actual = insert plugin (costs plugin t.actual ++ actual_bps ∷ []) t.actual;
}

module _ {F : Type 0} ⦃fl : Floats F⦄ where
  abbrev pub sum_from : F → List F → F
  sum_from acc [] = acc
  sum_from acc (x ∷ xs) = sum_from (acc ⊕ x) xs

  -- `sum(xs) / len(xs)`
  abbrev pub average : List F → F
  average xs = sum_from (nat 0) xs ⊘ nat (length xs)

  abbrev pub costs_exceed : F → List F → List F → Bool
  costs_exceed mult [] _ = false
  costs_exceed mult _ [] = false
  costs_exceed mult (m ∷ ms) (a ∷ more) =
      (nat 0 <? average (m ∷ ms)) && ((mult ⊗ average (m ∷ ms)) <? average (a ∷ more))

  unfoldable pub should_demote : String → DivergenceTracker F → Bool
  should_demote plugin t =
      costs_exceed t.threshold_mult (costs plugin t.modeled) (costs plugin t.actual)

  -- What the tracker remembers of a plugin after a series of records, newest last.
  abbrev pub record_all : List (String × F × F) → DivergenceTracker F → DivergenceTracker F
  record_all [] t = t
  record_all ((k, m, a) ∷ rs) t = record_all rs (record_costs k m a t)

  abbrev pub modeled_of : String → List (String × F × F) → List F
  modeled_of k [] = []
  modeled_of k ((j, m, a) ∷ rs) =
      let rest = modeled_of k rs in if str_eq j k then m ∷ rest else rest

  abbrev pub actual_of : String → List (String × F × F) → List F
  actual_of k [] = []
  actual_of k ((j, m, a) ∷ rs) = let rest = actual_of k rs in if str_eq j k then a ∷ rest else rest

  costs-insert :
      (k j : String) (x : F) (d : Dict (List F)) (later : List F)
      → costs k (insert j (costs j d ++ x ∷ []) d) ++ later
        ≡ costs k d ++ (if str_eq j k then x ∷ later else later)
  costs-insert k j x d later = elim (Bool-cases (str_eq j k)) [
    | inl same ↦
        rw (lookup-insert, same)
          (rw ((eq_iff j k).0 same) (append_assoc (costs k d) (x ∷ []) later))
    | inr other ↦ rw (lookup-insert, other)
  ]

  costs-record_all :
      (k : String) (rs : List (String × F × F)) (t : DivergenceTracker F)
      → (costs k (record_all rs t).modeled ≡ costs k t.modeled ++ modeled_of k rs)
        × (costs k (record_all rs t).actual ≡ costs k t.actual ++ actual_of k rs)
        × ((record_all rs t).threshold_mult ≡ t.threshold_mult)
  unfolding record_costs
  costs-record_all k [] t =
      (sym (append-nil (costs k t.modeled)), sym (append-nil (costs k t.actual)), refl)
  costs-record_all k ((j, m, a) ∷ rs) t =
      let (p, q, r) = costs-record_all k rs (record_costs j m a t) in
      (
        p ∙ costs-insert k j m t.modeled (modeled_of k rs),
        q ∙ costs-insert k j a t.actual (actual_of k rs),
        r,
      )

  -- From an empty tracker, the verdict on a plugin is the comparison of the averages of what was
  -- recorded for that plugin alone, and no verdict is a demotion where nothing was.
  pub should_demote_lem :
      (k : String) (rs : List (String × F × F)) (mult : F)
      → should_demote k
          (record_all rs (record { threshold_mult = mult; modeled = []; actual = [] }))
        ≡ costs_exceed mult (modeled_of k rs) (actual_of k rs)
  unfolding should_demote
  should_demote_lem k rs mult =
      let t : DivergenceTracker F = record { threshold_mult = mult; modeled = []; actual = [] } in
      let (p, q, r) = costs-record_all k rs t in rw (p, q, r) (unfold lookup in refl)
