-- ===== src/Core/Layout.antt =====
-- The layout of the feature vector, and which names have semantics.
use aimos.Prelude.{
  ℕ, zero, suc, ◌+◌, ◌≡◌, refl, sym, ap, subst, ◌∙◌, inl, inr, String, Bool, true, not, ◌&&◌, none,
  some, List, [], ◌∷◌, str_eq, eq_iff, eq_refl, arith, any_of, is_some, get_elem?, Bool-cases,
  Option-cases, if◌then◌else◌,
}
use aimos.Prelude.Dict.{lookup}
use aimos.Core.Evidence.{
  directional, registry, evidence_names, family_prefixes, is_member, is_registered,
  require_registered, semantics, family_semantics, enumerated, feature_index,
}

-- No name stands twice in the list.
unfoldable pub all_distinct : List String → Bool
all_distinct [] = true
all_distinct (x ∷ xs) = not (any_of (λ y. str_eq y x) xs) && all_distinct xs

get_elem?-any_of :
    (x : String) (xs : List String) (i : ℕ)
    → get_elem? xs i ≡ some x
    → any_of (λ y. str_eq y x) xs ≡ true
get_elem?-any_of x [] i h = absurd (ground (arith, h))
get_elem?-any_of x (y ∷ ys) zero h = ground (arith, h, eq_refl x)
get_elem?-any_of x (y ∷ ys) (suc i) h = ground (arith, get_elem?-any_of x ys i h)

lookup-enumerated :
    (k : ℕ) (xs : List String) (i : ℕ) (x : String)
    → all_distinct xs ≡ true
    → get_elem? xs i ≡ some x
    → lookup x (enumerated k xs) ≡ some (k + i)
unfolding lookup enumerated all_distinct
lookup-enumerated k [] i x d h = absurd (ground (arith, h))
lookup-enumerated k (y ∷ ys) zero x d h = ground (arith, h, eq_iff y x)
lookup-enumerated k (y ∷ ys) (suc i) x d h = elim (Bool-cases (str_eq y x)) [
  | inr e ↦
      let rest = lookup-enumerated (suc k) ys i x (ground (arith, d)) h in
      rw (e) (rest ∙ ap some (omega arith))
  | inl e ↦
      let same : x ≡ y = sym ((eq_iff y x).0 e) in
      let twice =
        subst (λ z. any_of (λ w. str_eq w z) ys ≡ true) same (get_elem?-any_of x ys i h) in
      absurd (ground (arith, d, twice))
]

evidence_names_distinct : all_distinct evidence_names ≡ true
unfolding all_distinct
evidence_names_distinct = refl

-- The feature vector's index of the i-th evidence name is i.
pub feature_index_lem :
    (i : ℕ) (name : String)
    → get_elem? evidence_names i ≡ some name
    → lookup name feature_index ≡ some i
unfolding feature_index
feature_index_lem i name h =
    lookup-enumerated 0 evidence_names i name evidence_names_distinct h ∙ ap some (omega arith)

family_semantics_lem :
    (name : String)
    → family_semantics name family_prefixes
      ≡ (if is_member name "factor" then some directional else none)
unfolding family_semantics lookup
family_semantics_lem name = refl

-- Exactly the registered names have semantics, and only they pass `require_registered`.
pub semantics_iff_registered :
    (name : String)
    → (is_some (semantics name) ≡ is_registered name)
      × (require_registered name ≡ (if is_registered name then some name else none))
unfolding semantics is_registered require_registered
semantics_iff_registered name = (
  elim (Option-cases (lookup name registry)) [
    | inl e ↦ rw (semantics, e, family_semantics_lem name) (ground arith)
    | inr (d, e) ↦ rw (semantics, e) refl
  ],
  refl,
)
