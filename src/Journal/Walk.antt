-- ===== src/Journal/Walk.antt =====
-- What a lookup by `prev_hash` finds, and that the chain walk recovers the order of the appends.
use aimos.Prelude.{
  ℕ, zero, suc, ◌<◌, String, ◌≡◌, refl, Option, none, some, true, List, [], ◌∷◌, ◌++◌, arith,
  eq_iff, length,
}
use aimos.Journal.{Row, Backend, by_prev, chain_from, hash_of, verify_rows}

-- The first of two results that is there.
abbrev pub first_some : Option Row → Option Row → Option Row
first_some (some x) _ = some x
first_some none o = o

pub by_prev-append :
    (h : String) (xs ys : List Row)
    → by_prev h (xs ++ ys) ≡ first_some (by_prev h ys) (by_prev h xs)
unfolding by_prev
by_prev-append h [] ys = ground arith
by_prev-append h (x ∷ xs) ys = ground (arith, by_prev-append h xs ys)

pub by_prev-cons :
    (r : Row) (rs : List Row)
    → by_prev r.prev_hash rs ≡ none
    → by_prev r.prev_hash (r ∷ rs) ≡ some r
unfolding by_prev
by_prev-cons r rs e = ground (arith, eq_iff r.prev_hash r.prev_hash)

-- `rows` holds whatever a lookup finds in `log`.
abbrev pub Covers : List Row → List Row → Type 0
Covers rows log = (h : String) (x : Row) → by_prev h log ≡ some x → by_prev h rows ≡ some x

pub Covers-tail :
    (rows : List Row) (r : Row) (log : List Row) → Covers rows (r ∷ log) → Covers rows log
unfolding by_prev
Covers-tail rows r log c h x e = c h x (ground arith)

module _ {V : Type 0} (b : Backend V) where
  -- The rows link up from the hash `prev` to the hash `tip`, and no `prev_hash` comes twice.
  abbrev pub Chain : String → List Row → String → Type 0
  Chain prev [] tip = prev ≡ tip
  Chain prev (r ∷ rs) tip =
      (r.prev_hash ≡ prev)
      × (r.row_hash ≡ hash_of b prev r.payload)
      × (by_prev prev rs ≡ none)
      × Chain r.row_hash rs tip

  pub chain_from-Chain :
      (fuel : ℕ) (prev tip : String) (log rows : List Row)
      → Chain prev log tip
      → Covers rows log
      → by_prev tip rows ≡ none
      → length log < fuel
      → chain_from fuel prev rows ≡ some log
  unfolding chain_from
  chain_from-Chain zero prev tip log rows c cov stop h = elim h [ ]
  chain_from-Chain (suc fuel) prev tip [] rows c cov stop h = ground arith
  chain_from-Chain (suc fuel) prev tip (r ∷ log) rows c cov stop h = ground (
    arith,
    cov prev r,
    by_prev-cons r log,
    chain_from-Chain fuel r.row_hash tip log rows c.3 (Covers-tail rows r log cov) stop,
  )

  pub verify_rows-Chain :
      (prev tip : String) (log : List Row)
      → Chain prev log tip
      → verify_rows b prev log ≡ (true, none)
  unfolding verify_rows
  verify_rows-Chain prev tip [] c = refl
  verify_rows-Chain prev tip (r ∷ log) c = ground (
    arith,
    verify_rows-Chain r.row_hash tip log c.3,
    eq_iff (hash_of b prev r.payload) r.row_hash,
    eq_iff r.prev_hash prev,
  )

  -- In a chain an earlier row has another `prev_hash` than a later one, and the part before a row
  -- is a chain to that row.
  pub Chain-split :
      (prev tip : String) (before : List Row) (r : Row) (after : List Row)
      → Chain prev (before ++ r ∷ after) tip
      → Chain prev before r.prev_hash × (by_prev r.prev_hash before ≡ none)
  unfolding by_prev
  Chain-split prev tip [] r after c = ground arith
  Chain-split prev tip (x ∷ before) r after c = ground (
    arith,
    Chain-split x.row_hash tip before r after c.3,
    by_prev-append prev before (r ∷ after),
    eq_iff x.prev_hash r.prev_hash,
    eq_iff r.prev_hash prev,
  )

  -- What a lookup finds in the first part of a chain it finds in the whole.
  pub Chain-Covers :
      (prev tip : String) (before later : List Row)
      → Chain prev (before ++ later) tip
      → Covers (before ++ later) before
  unfolding by_prev
  Chain-Covers prev tip [] later c h y e = ground arith
  Chain-Covers prev tip (x ∷ before) later c h y e =
      ground (arith, Chain-Covers x.row_hash tip before later c.3 h y, eq_iff x.prev_hash h)
