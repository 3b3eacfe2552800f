-- ===== src/Runtime/Features.antt =====
-- The runtime toggles: aimos/runtime/features.py. The rebuild of the engines is counted.
use aimos.Prelude.{
  ℕ, suc, String, ◌≡◌, refl, ◌⊎◌, Bool, Option, none, some, List, [], ◌∷◌, map, arith, any_of,
  if◌then◌else◌, inl, inr, Bool-cases, Option-cases,
}
use aimos.Prelude.Text.{codes, same_codes, to_lower, strip}

-- What a controller reads and writes of the parameters. `live`, `mandate` and the others of `LOCKED`
-- stand for the settings behind the locked names.
pub record Params : Type 0 where
  pub scalp_enabled : Bool
  pub cross_exchange_enabled : Bool
  pub arb_plugin : Option Bool
  pub live : Bool
  pub mandate : Bool
  pub multi_venue_live : Bool
  pub market_making : Bool
  pub rebuilds : ℕ

pub data Toggle : Type 0 where
  scalp cross_exchange : Toggle

pub data SetResult : Type 0 where
  done : Toggle → Bool → SetResult
  is_locked not_toggleable : SetResult

abbrev pub locked_names : List String
locked_names = "live" ∷ "mode" ∷ "mandate" ∷ "multi_venue_live" ∷ "market_making" ∷ []

-- `(name or "").strip().lower()`
unfoldable pub normalize : List ℕ → List ℕ
unfolding strip to_lower
normalize name = map to_lower (strip name)

unfoldable pub is_name : String → List ℕ → Bool
is_name s name = same_codes (codes s) name

-- `name in LOCKED`
unfoldable pub is_locked_name : List ℕ → Bool
unfolding is_name
is_locked_name name = any_of (λ s. is_name s name) locked_names

-- The toggle behind a normalised name.
unfoldable pub toggle_of : List ℕ → Option Toggle
unfolding is_name
toggle_of name =
    if is_name "scalp" name
    then some scalp
    else if is_name "cross_exchange" name
    then some cross_exchange
    else none

unfoldable pub apply_toggle : Toggle → Bool → Params → Params
apply_toggle scalp value p = record p { scalp_enabled = value; rebuilds = suc p.rebuilds }
apply_toggle cross_exchange value p = record p {
  cross_exchange_enabled = value;
  arb_plugin = elim p.arb_plugin [ none ↦ none | some _ ↦ some value ];
  rebuilds = suc p.rebuilds;
}

-- `FeatureController.set`
unfoldable pub set : List ℕ → Bool → Params → SetResult × Params
set raw value p =
    let name = normalize raw in
    if is_locked_name name then (is_locked, p) else elim (toggle_of name) [
      | none ↦ (not_toggleable, p)
      | some t ↦ (done t value, apply_toggle t value p)
    ]

pub record SameLocked (p q : Params) : Type 0 where
  pub live : p.live ≡ q.live
  pub mandate : p.mandate ≡ q.mandate
  pub multi_venue_live : p.multi_venue_live ≡ q.multi_venue_live
  pub market_making : p.market_making ≡ q.market_making

-- `q` is `p` with one setting at the value and one rebuild more; the arbitrage plugin, where there is
-- one, follows the cross-exchange engine.
abbrev pub Takes : Toggle → Bool → Params → Params → Type 0
Takes scalp value p q =
    (q.scalp_enabled ≡ value)
    × (q.cross_exchange_enabled ≡ p.cross_exchange_enabled)
    × (q.arb_plugin ≡ p.arb_plugin)
    × (q.rebuilds ≡ suc p.rebuilds)
Takes cross_exchange value p q =
    (q.scalp_enabled ≡ p.scalp_enabled)
    × (q.cross_exchange_enabled ≡ value)
    × ((q.arb_plugin ≡ none) ⊎ (q.arb_plugin ≡ some value))
    × (q.rebuilds ≡ suc p.rebuilds)

apply_toggle-Takes :
    (t : Toggle) (value : Bool) (p : Params) → Takes t value p (apply_toggle t value p)
unfolding apply_toggle
apply_toggle-Takes scalp value p = ground arith
apply_toggle-Takes cross_exchange value p = ground arith

apply_toggle-SameLocked :
    (t : Toggle) (value : Bool) (p : Params) → SameLocked (apply_toggle t value p) p
unfolding apply_toggle
apply_toggle-SameLocked scalp value p = ground arith
apply_toggle-SameLocked cross_exchange value p = ground arith

same : (p : Params) → SameLocked p p
same p = record { live = refl; mandate = refl; multi_venue_live = refl; market_making = refl }

-- No name and no value flips a setting behind the go-live ladder. A call either answers that it set a
-- toggle to the value, and then exactly that toggle has it and the engines are rebuilt once, or it
-- refuses and changes nothing.
pub set_lem :
    (raw : List ℕ) (value : Bool) (p : Params)
    → SameLocked (set raw value p).1 p
      × (((t : Toggle) × ((set raw value p).0 ≡ done t value) × Takes t value p (set raw value p).1)
          ⊎ ((set raw value p).1 ≡ p))
unfolding set
set_lem raw value p = elim (Bool-cases (is_locked_name (normalize raw))) [
  | inl e ↦ rw (e, set) (same p, inr refl)
  | inr e ↦ elim (Option-cases (toggle_of (normalize raw))) [
    | inl n ↦ rw (e, n, set) (same p, inr refl)
    | inr (t, n) ↦
        rw (e, n, set)
          (apply_toggle-SameLocked t value p, inl (t, refl, apply_toggle-Takes t value p))
  ]
]
