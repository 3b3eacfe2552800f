-- ===== src/Journal/Tamper.antt =====
-- What `verify` says of a database that was changed behind the journal's back.
use mathlib.Core.List.{map-append}
use aimos.Prelude.{
  ℕ, zero, suc, ◌<◌, String, ◌≡◌, refl, ◌↔◌, Bool, true, not, Option, none, some, List, [], ◌∷◌,
  ◌++◌, map, Option-cases, inl, inr, arith, str_eq, eq_iff, length, All, keep, if◌then◌else◌,
}
use aimos.Journal.{
  Row, Table, Journal, Backend, genesis, by_prev, chain_from, all_rows, all_rows_in_order, hash_of,
  verify_rows, verify,
}
use aimos.Journal.Walk.{Chain, Chain-split, Chain-Covers, chain_from-Chain, verify_rows-Chain}
use aimos.Journal.Chain.{Holds, all_rows_in_order-Holds}

-- The tables after an UPDATE of the cells of each row by `g`.
abbrev pub update_rows : (Row → Row) → Journal → Journal
update_rows g j = record j { rows = λ t. map g (j.rows t) }

-- The tables after a DELETE of the rows with `prev_hash` h.
abbrev pub delete_rows : String → Journal → Journal
delete_rows h j = record j { rows = λ t. keep (λ r. not (str_eq r.prev_hash h)) (j.rows t) }

-- `g` leaves the two hash columns alone.
pub record KeepsHashes (g : Row → Row) : Type 0 where
  pub same_prev : (r : Row) → (g r).prev_hash ≡ r.prev_hash
  pub same_hash : (r : Row) → (g r).row_hash ≡ r.row_hash

map_option : (Row → Row) → Option Row → Option Row
map_option g none = none
map_option g (some r) = some (g r)

by_prev-map :
    (g : Row → Row)
    → KeepsHashes g
    → (h : String) (rs : List Row) → by_prev h (map g rs) ≡ map_option g (by_prev h rs)
unfolding by_prev map_option
by_prev-map g k h [] = refl
by_prev-map g k h (r ∷ rs) = ground (arith, by_prev-map g k h rs, k.same_prev r)

map_log : (Row → Row) → Option (List Row) → Option (List Row)
map_log g none = none
map_log g (some log) = some (map g log)

chain_from-map :
    (g : Row → Row)
    → KeepsHashes g
    → (fuel : ℕ) (prev : String) (rs : List Row)
    → chain_from fuel prev (map g rs) ≡ map_log g (chain_from fuel prev rs)
unfolding chain_from map_log map_option
chain_from-map g k zero prev rs = refl
chain_from-map g k (suc fuel) prev rs = elim (Option-cases (by_prev prev rs)) [
  | inl e ↦ ground (arith, by_prev-map g k prev rs)
  | inr (r, e) ↦
      ground (arith, by_prev-map g k prev rs, k.same_hash r, chain_from-map g k fuel r.row_hash rs)
]

all_rows-map :
    (g : Row → Row) (rows : Table → List Row)
    → all_rows (λ t. map g (rows t)) ≡ map g (all_rows rows)
unfolding all_rows
all_rows-map g rows = simp map-append

all_rows_in_order-update :
    (g : Row → Row)
    → KeepsHashes g
    → (fuel : ℕ) (j : Journal)
    → all_rows_in_order fuel (update_rows g j) ≡ map_log g (all_rows_in_order fuel j)
unfolding all_rows_in_order
all_rows_in_order-update g k fuel j =
    rw (all_rows-map g j.rows) (chain_from-map g k fuel genesis (all_rows j.rows))

module _ {V : Type 0} (b : Backend V) where
  -- The payload that `g` gives a row still hashes to the row's hash.
  abbrev pub Collides : (Row → Row) → Row → Type 0
  Collides g r = hash_of b r.prev_hash (g r).payload ≡ r.row_hash

  verify_rows-map_iff :
      (g : Row → Row)
      → KeepsHashes g
      → (prev tip : String) (log : List Row) → Chain b prev log tip
      → (verify_rows b prev (map g log) ≡ (true, none)) ↔ All (Collides g) log
  unfolding verify_rows
  verify_rows-map_iff g k prev tip [] c = (λ _. tt, λ _. refl)
  verify_rows-map_iff g k prev tip (r ∷ log) c = ground (
    arith,
    verify_rows-map_iff g k r.row_hash tip log c.3,
    k.same_prev r,
    k.same_hash r,
    eq_iff (hash_of b prev (g r).payload) (g r).row_hash,
    eq_iff (g r).prev_hash prev,
  )

  -- After an UPDATE of any cells but the two hashes in a journal that holds the rows `log`, `verify`
  -- finds nothing broken exactly when each row's new payload has the SHA-256 of the row's old one. So an
  -- UPDATE of the decision_id, symbol and timestamp cells alone, which no hash covers, is never found.
  pub verify-update_iff :
      (fuel : ℕ) (log : List Row) (j : Journal) (g : Row → Row)
      → Holds b log j
      → KeepsHashes g
      → length log < fuel
      → (verify b fuel (update_rows g j) ≡ some (true, none)) ↔ All (Collides g) log
  unfolding verify map_log
  verify-update_iff fuel log j g h k enough = ground (
    arith,
    all_rows_in_order-update g k fuel j,
    all_rows_in_order-Holds b fuel log j h enough,
    verify_rows-map_iff g k genesis j.tip log h.chain,
  )

keep-append {ℓ} :
    {A : Type ℓ} (p : A → Bool) (xs ys : List A) → keep p (xs ++ ys) ≡ keep p xs ++ keep p ys
keep-append p [] ys = refl
keep-append p (x ∷ xs) ys = ground (arith, keep-append p xs ys)

all_rows-delete :
    (h : String) (j : Journal)
    → all_rows (delete_rows h j).rows ≡ keep (λ r. not (str_eq r.prev_hash h)) (all_rows j.rows)
unfolding all_rows
all_rows-delete h j = simp keep-append

by_prev-delete :
    (h k : String) (rs : List Row)
    → by_prev k (keep (λ r. not (str_eq r.prev_hash h)) rs)
      ≡ (if str_eq h k then none else by_prev k rs)
unfolding by_prev
by_prev-delete h k [] = ground arith
by_prev-delete h k (r ∷ rs) =
    ground (arith, by_prev-delete h k rs, eq_iff r.prev_hash h, eq_iff r.prev_hash k, eq_iff h k)

module _ {V : Type 0} (b : Backend V) where
  -- When a row of a journal is deleted, whichever it is, the chain walk ends before it: `verify` finds
  -- nothing broken, and the rows from there on are no longer read.
  pub verify-delete :
      (fuel : ℕ) (before : List Row) (r : Row) (after : List Row) (j : Journal)
      → Holds b (before ++ r ∷ after) j
      → length before < fuel
      → (all_rows_in_order fuel (delete_rows r.prev_hash j) ≡ some before)
        × (verify b fuel (delete_rows r.prev_hash j) ≡ some (true, none))
  unfolding verify
  verify-delete fuel before r after j h enough =
      let kept : (k : String) (x : Row)
          → by_prev k before ≡ some x
          → (if str_eq r.prev_hash k then none else by_prev k (all_rows j.rows)) ≡ some x =
        λ k x e. ground (
          arith,
          (Chain-split b genesis j.tip before r after h.chain).1,
          h.finds k,
          Chain-Covers b genesis j.tip before (r ∷ after) h.chain k x,
          eq_iff r.prev_hash k,
        ) in
      let (chain, absent) = Chain-split b genesis j.tip before r after h.chain in
      let walk : all_rows_in_order fuel (delete_rows r.prev_hash j) ≡ some before =
        unfold all_rows_in_order in
        rw all_rows-delete (
          chain_from-Chain b fuel genesis r.prev_hash before _ chain
            (λ k x e. rw (by_prev-delete r.prev_hash k (all_rows j.rows)) (kept k x e))
            (rw (by_prev-delete r.prev_hash r.prev_hash (all_rows j.rows))
              (ground (arith, eq_iff r.prev_hash r.prev_hash)))
            enough) in
      (walk, ground (arith, walk, verify_rows-Chain b genesis r.prev_hash before chain))
