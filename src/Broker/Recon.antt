-- ===== src/Broker/Recon.antt =====
-- Reconciliation: aimos/runtime/reconciliation.py, and `reconcile_on_start` of the live broker. A set
-- of symbols that is sorted is a strictly ascending list; texts are ordered by their code points.
use Prim.Native.String.{compare}
use Prim.Native.Nat.{Ordering}
use aimos.Prelude.{
  String, ◌≡◌, refl, ◌↔◌, Bool, true, false, not, ◌&&◌, ◌||◌, Option, none, some, List, [], ◌∷◌,
  ◌++◌, map, arith, str_eq, eq_iff, keep, any_of, if◌then◌else◌, or_else,
}
use aimos.Prelude.Dict.{Dict, lookup}
use aimos.Prelude.Floats.{Floats, ◌⊕◌, ◌⊖◌, ◌<?◌, nat}

-- `s in xs`
abbrev pub member : String → List String → Bool
member s [] = false
member s (x ∷ xs) = let rest = member s xs in if str_eq x s then true else rest

-- A text goes in before the first that is greater, unless it is there.
unfoldable pub add_sorted : String → List String → List String
add_sorted s [] = s ∷ []
add_sorted s (x ∷ xs) =
    let rest = add_sorted s xs in
    elim (compare s x) [
      | Ordering.lt ↦ s ∷ (x ∷ xs)
      | Ordering.eq ↦ x ∷ xs
      | Ordering.gt ↦ x ∷ rest
    ]

-- `sorted(set(xs))`
unfoldable pub sorted_set : List String → List String
unfolding add_sorted
sorted_set [] = []
sorted_set (x ∷ xs) = add_sorted x (sorted_set xs)

pub data Alert : Type 0 where
  adopt_unknown missing_on_exchange : String → Alert

pub record ReconResult : Type 0 where
  pub matched : List String
  pub adopt : List String
  pub close_unknown : List String
  pub alerts : List Alert

abbrev pub is_empty : List String → Bool
is_empty [] = true
is_empty (_ ∷ _) = false

unfoldable pub consistent : ReconResult → Bool
consistent r = is_empty r.adopt && is_empty r.close_unknown

unfoldable pub reconcile_positions : List String → List String → ReconResult
reconcile_positions ex jr =
    let adopt = keep (λ s. not (member s jr)) (sorted_set ex) in
    let close_unknown = keep (λ s. not (member s ex)) (sorted_set jr) in
    record {
      matched = keep (λ s. member s jr) (sorted_set ex);
      adopt = adopt;
      close_unknown = close_unknown;
      alerts = map adopt_unknown adopt ++ map missing_on_exchange close_unknown;
    }

-- `[p.get("symbol") for p in … if p.get("symbol")]`
unfoldable pub symbols_of : List (Option String) → List String
symbols_of [] = []
symbols_of (none ∷ ps) = symbols_of ps
symbols_of (some s ∷ ps) = let rest = symbols_of ps in if str_eq s "" then rest else s ∷ rest

-- `reconcile_on_start`
unfoldable pub reconcile_on_start : List (Option String) → List String → ReconResult
unfolding symbols_of reconcile_positions
reconcile_on_start positions journal_symbols =
    reconcile_positions (symbols_of positions) journal_symbols

member-add_sorted :
    (t s : String) (xs : List String)
    → member t (add_sorted s xs) ≡ (if str_eq s t then true else member t xs)
unfolding add_sorted
member-add_sorted t s [] = refl
member-add_sorted t s (x ∷ xs) =
    ground (arith, member-add_sorted t s xs, eq_iff s x, eq_iff s t, eq_iff x t)

member-sorted_set : (t : String) (xs : List String) → member t (sorted_set xs) ≡ member t xs
unfolding sorted_set
member-sorted_set t [] = refl
member-sorted_set t (x ∷ xs) =
    ground (arith, member-add_sorted t x (sorted_set xs), member-sorted_set t xs)

member-keep :
    (p : String → Bool) (t : String) (xs : List String)
    → member t (keep p xs) ≡ (p t && member t xs)
member-keep p t [] = ground arith
member-keep p t (x ∷ xs) = ground (arith, member-keep p t xs, eq_iff x t)

-- Every symbol is sorted to where it belongs: matched if both sides have it, to adopt if only the
-- exchange has it, to close if only the journal has it. There is an alert for each symbol that is
-- adopted or closed.
pub reconcile_positions_lem :
    (ex jr : List String) (t : String)
    → let r = reconcile_positions ex jr in
      (member t r.matched ≡ (member t ex && member t jr))
      × (member t r.adopt ≡ (member t ex && not (member t jr)))
      × (member t r.close_unknown ≡ (member t jr && not (member t ex)))
      × (r.alerts ≡ map adopt_unknown r.adopt ++ map missing_on_exchange r.close_unknown)
unfolding reconcile_positions
reconcile_positions_lem ex jr t = (
  ground (arith, member-keep (λ s. member s jr) t (sorted_set ex), member-sorted_set t ex),
  ground (arith, member-keep (λ s. not (member s jr)) t (sorted_set ex), member-sorted_set t ex),
  ground (arith, member-keep (λ s. not (member s ex)) t (sorted_set jr), member-sorted_set t jr),
  refl,
)

is_empty_iff : (xs : List String) → (is_empty xs ≡ true) ↔ ((t : String) → member t xs ≡ false)
is_empty_iff [] = (λ _ t. refl, λ _. refl)
is_empty_iff (x ∷ xs) = (λ h. cc h, λ h. ground (arith, h x, eq_iff x x))

-- The result is consistent exactly when the exchange and the journal hold the same symbols.
pub consistent_iff :
    (ex jr : List String)
    → (consistent (reconcile_positions ex jr) ≡ true) ↔ ((t : String) → member t ex ≡ member t jr)
unfolding consistent
consistent_iff ex jr =
    let r = reconcile_positions ex jr in
    (
      λ h t. ground (
        arith,
        reconcile_positions_lem ex jr t,
        (is_empty_iff r.adopt).0 (ground arith) t,
        (is_empty_iff r.close_unknown).0 (ground arith) t,
      ),
      λ h. ground (
        arith,
        (is_empty_iff r.adopt).1 (λ t. ground (arith, reconcile_positions_lem ex jr t, h t)),
        (is_empty_iff r.close_unknown).1
            (λ t. ground (arith, reconcile_positions_lem ex jr t, h t)),
      ),
    )

pub record AccountingResult (F : Type 0) : Type 0 where
  pub divergence_usd : F
  pub halt_pnl_jobs : Bool
  pub alerts : List (String × F)

module _ {F : Type 0} ⦃fl : Floats F⦄ where
  -- The difference of the two totals under a key.
  abbrev pub difference : Dict F → Dict F → String → F
  difference ledger exchange k =
      fl.abs (or_else (lookup k ledger) (nat 0) ⊖ or_else (lookup k exchange) (nat 0))

  -- The loop of `reconcile_accounting`, on the divergence and the alerts so far.
  unfoldable pub accounting_loop :
      Dict F → Dict F → F → List String → F → List (String × F) → F × List (String × F)
  accounting_loop ledger exchange tolerance [] sum alerts = (sum, alerts)
  accounting_loop ledger exchange tolerance (k ∷ ks) sum alerts =
      let d = difference ledger exchange k in
      accounting_loop ledger exchange tolerance ks (sum ⊕ d)
        (if tolerance <? d then alerts ++ (k, d) ∷ [] else alerts)

  abbrev pub has_alerts : List (String × F) → Bool
  has_alerts [] = false
  has_alerts (_ ∷ _) = true

  -- `reconcile_accounting`, with the union of the keys in the order in which the set is read.
  unfoldable pub reconcile_accounting : Dict F → Dict F → F → List String → AccountingResult F
  reconcile_accounting ledger exchange tolerance keys =
      let (sum, alerts) = accounting_loop ledger exchange tolerance keys (nat 0) [] in
      record { divergence_usd = sum; halt_pnl_jobs = has_alerts alerts; alerts = alerts }

  has_alerts-snoc :
      (alerts : List (String × F)) (a : String × F) → has_alerts (alerts ++ a ∷ []) ≡ true
  has_alerts-snoc [] a = refl
  has_alerts-snoc (x ∷ alerts) a = refl

  accounting_loop_alerts :
      (ledger exchange : Dict F) (tolerance : F) (keys : List String) (sum : F)
      (alerts : List (String × F))
      → has_alerts (accounting_loop ledger exchange tolerance keys sum alerts).1
        ≡ (has_alerts alerts || any_of (λ k. tolerance <? difference ledger exchange k) keys)
  unfolding accounting_loop
  accounting_loop_alerts ledger exchange tolerance [] sum alerts = ground arith
  accounting_loop_alerts ledger exchange tolerance (k ∷ ks) sum alerts =
      let d = difference ledger exchange k in
      rw
        (accounting_loop_alerts ledger exchange tolerance ks (sum ⊕ d)
          (if tolerance <? d then alerts ++ (k, d) ∷ [] else alerts))
        (ground (arith, has_alerts-snoc alerts (k, d)))

  -- The jobs that depend on the profit are halted exactly when some key's totals differ by more than
  -- the tolerance.
  pub halt_iff :
      (ledger exchange : Dict F) (tolerance : F) (keys : List String)
      → (reconcile_accounting ledger exchange tolerance keys).halt_pnl_jobs
        ≡ any_of (λ k. tolerance <? difference ledger exchange k) keys
  unfolding reconcile_accounting
  halt_iff ledger exchange tolerance keys =
      ground (arith, accounting_loop_alerts ledger exchange tolerance keys (nat 0) [])
