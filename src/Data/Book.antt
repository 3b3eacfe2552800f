-- ===== src/Data/Book.antt =====
-- Order books: aimos/data/orderbook.py. A side of the book is its levels, price and size, the best one
-- first. A division by zero raises, which is `none` or a constructor of its own.
pub mod Walls
pub mod Window
mod Tests
use aimos.Prelude.{
  Bool, true, false, not, ◌&&◌, ◌||◌, Option, none, some, List, [], ◌∷◌, ℕ, ◌/◌, length, keep,
  get_elem?, or_else, if◌then◌else◌,
}
use aimos.Prelude.Int.{ℤ}
use aimos.Prelude.Floats.{Floats, ◌⊕◌, ◌⊖◌, ◌⊗◌, ◌⊘◌, ◌<?◌, ◌≤?◌, nat, truthy, negate, fmax, fmin}
use aimos.Schemas.{BookAggregate}

abbrev pub Level : Type 0 → Type 0
Level F = F × F

pub data BookSide : Type 0 where
  bid ask : BookSide

-- What `aggregate_book` gives or raises.
pub data Aggregated (F : Type 0) : Type 0 where
  missing_side zero_mid : Aggregated F
  aggregated : BookAggregate F → Aggregated F

-- What the walk along the levels has spent and bought, and what is left to spend.
pub record Walk (F : Type 0) : Type 0 where
  pub remaining : F
  pub cost : F
  pub filled : F
  pub worst_price : F

module _ {F : Type 0} ⦃fl : Floats F⦄ where
  abbrev is_within : BookSide → F → F → F → Bool
  is_within bid mid within price = (mid ⊗ (nat 1 ⊖ within)) ≤? price
  is_within ask mid within price = price ≤? (mid ⊗ (nat 1 ⊕ within))

  -- The loop of `_depth_usd`, with the total so far.
  unfoldable pub depth_from : F → List (Level F) → F → F → BookSide → F
  depth_from total [] _ _ _ = total
  depth_from total ((price, size) ∷ levels) mid within side =
      depth_from (if is_within side mid within price then total ⊕ (price ⊗ size) else total) levels
        mid within side

  -- `_depth_usd`
  abbrev pub depth_usd : List (Level F) → F → F → BookSide → F
  depth_usd levels mid within side = depth_from (nat 0) levels mid within side

  abbrev pub imbalance_of : F → F → F
  imbalance_of bid_depth ask_depth =
      let denom = bid_depth ⊕ ask_depth in
      let raw = if nat 0 <? denom then (bid_depth ⊖ ask_depth) ⊘ denom else nat 0 in
      fmax (negate (nat 1)) (fmin (nat 1) raw)

  abbrev aggregate_around : ℤ → List (Level F) → List (Level F) → F → F → F → F → BookAggregate F
  aggregate_around timestamp bids asks book_depth_pct best_bid best_ask mid =
      let within = book_depth_pct ⊘ nat 100 in
      let bid_depth = depth_usd bids mid within bid in
      let ask_depth = depth_usd asks mid within ask in
      record {
        timestamp = timestamp;
        best_bid = best_bid;
        best_ask = best_ask;
        spread_bps = ((best_ask ⊖ best_bid) ⊘ mid) ⊗ nat 10000;
        bid_depth_usd = bid_depth;
        ask_depth_usd = ask_depth;
        imbalance = imbalance_of bid_depth ask_depth;
      }

  unfoldable pub aggregate_book : ℤ → List (Level F) → List (Level F) → F → Aggregated F
  aggregate_book timestamp [] asks _ = missing_side
  aggregate_book timestamp (_ ∷ _) [] _ = missing_side
  aggregate_book timestamp ((best_bid, b) ∷ bids) ((best_ask, a) ∷ asks) book_depth_pct =
      let mid = (best_bid ⊕ best_ask) ⊘ nat 2 in
      if not (truthy mid)
      then zero_mid
      else aggregated (
          aggregate_around timestamp ((best_bid, b) ∷ bids) ((best_ask, a) ∷ asks) book_depth_pct
            best_bid best_ask mid)

  unfoldable pub walk : List (Level F) → Walk F → Option (Walk F)
  walk [] w = some w
  walk ((price, size) ∷ levels) w =
      let take = fmin w.remaining (price ⊗ size) in
      let w' : Walk F = record {
        remaining = w.remaining ⊖ take;
        cost = w.cost ⊕ take;
        filled = w.filled ⊕ (take ⊘ price);
        worst_price = price;
      } in
      let rest = walk levels w' in
      if not (truthy price) then none else if w'.remaining ≤? nat 0 then some w' else rest

  -- What the book does not absorb is bought at the worst price.
  abbrev pub fill_rest : Walk F → Option (Walk F)
  fill_rest w =
      if nat 0 <? w.remaining
      then if not (truthy w.worst_price)
        then none
        else some (record w {
          filled = w.filled ⊕ (w.remaining ⊘ w.worst_price);
          cost = w.cost ⊕ w.remaining;
        })
      else some w

  abbrev pub slippage_of : F → Walk F → F
  slippage_of mid w =
      let vwap = if nat 0 <? w.filled then w.cost ⊘ w.filled else mid in
      (fl.abs (vwap ⊖ mid) ⊘ mid) ⊗ nat 10000

  unfoldable pub simulate_market_order : List (Level F) → F → F → Option F
  simulate_market_order [] size_usd mid = some (nat 0)
  simulate_market_order ((best, size) ∷ levels) size_usd mid =
      if (size_usd ≤? nat 0) || (mid ≤? nat 0)
      then some (nat 0)
      else elim (walk ((best, size) ∷ levels)
          (record { remaining = size_usd; cost = nat 0; filled = nat 0; worst_price = best })) [
            | none ↦ none
            | some w ↦ elim (fill_rest w) [ none ↦ none | some w' ↦ some (slippage_of mid w') ]
          ]
