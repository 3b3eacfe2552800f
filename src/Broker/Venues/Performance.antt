-- ===== src/Broker/Venues/Performance.antt =====
-- The performance over all trades: `performance` of aimos/execution/broker/multivenue.py.
use aimos.Prelude.{
  ℕ, ◌+◌, ◌-◌, ◌≤◌, suc, String, ◌≡◌, Bool, Option, none, some, List, [], ◌∷◌, ◌++◌, arith, str_eq,
  length, if◌then◌else◌, keep, or_else, ◌==◌,
}
use aimos.Prelude.Dict.{Dict, lookup, insert}
use aimos.Prelude.Floats.{Floats, ◌⊕◌, ◌⊖◌, ◌⊗◌, ◌⊘◌, ◌<?◌, nat, fmax}
use aimos.Broker.Venues.{Trade}

-- The trades and the profit of one strategy or venue.
abbrev pub Group : Type 0 → Type 0
Group F = ℕ × F

pub record Report (F : Type 0) : Type 0 where
  pub closed_trades : ℕ
  pub open_trades : ℕ
  pub realized_pnl_usd : F
  pub win_rate : F
  pub arb_trades : ℕ
  pub arb_pnl_usd : F
  pub max_drawdown_pct : F
  pub by_strategy : Dict (Group F)
  pub by_venue : Dict (Group F)
  pub equity_start : Option F
  pub equity_last : Option F

module _ {F : Type 0} ⦃fl : Floats F⦄ where
  abbrev pub is_closed : Trade F → Bool
  is_closed t = str_eq t.status "closed"

  unfoldable pub sum_pnl : F → List (Trade F) → F
  sum_pnl x [] = x
  sum_pnl x (t ∷ ts) = sum_pnl (x ⊕ t.pnl_usd) ts

  -- `d.setdefault(key, {"trades": 0, "pnl_usd": 0.0})`, and a trade added to it
  unfoldable pub add_trade : String → F → Dict (Group F) → Dict (Group F)
  add_trade key pnl d =
      let (n, x) = or_else (lookup key d) (0, nat 0) in insert key (suc n, x ⊕ pnl) d

  -- The loop over the closed trades, by one of the two keys.
  unfoldable pub group_by : (Trade F → String) → List (Trade F) → Dict (Group F) → Dict (Group F)
  group_by key [] d = d
  group_by key (t ∷ ts) d = group_by key ts (add_trade (key t) t.pnl_usd d)

  -- The loop over the equity curve, from the peak and the deepest fall so far.
  unfoldable pub drawdown : F → F → List F → F
  drawdown peak deepest [] = deepest
  drawdown peak deepest (e ∷ es) =
      let top = fmax peak e in
      drawdown top (if nat 0 <? top then fmax deepest ((top ⊖ e) ⊘ top) else deepest) es

  abbrev pub first_of : List F → Option F
  first_of [] = none
  first_of (x ∷ _) = some x

  abbrev pub last_of : List F → Option F
  last_of [] = none
  last_of (x ∷ xs) = some (or_else (last_of xs) x)

  unfoldable pub performance : List (Trade F) → List (Trade F) → List F → Report F
  unfolding sum_pnl group_by drawdown
  performance directional arbs curve =
      let closed = keep is_closed (directional ++ arbs) in
      let wins = keep (λ t. nat 0 <? t.pnl_usd) closed in
      record {
        closed_trades = length closed;
        open_trades = length directional - length (keep is_closed directional);
        realized_pnl_usd = sum_pnl (nat 0) closed;
        win_rate = if length closed == 0 then nat 0 else nat (length wins) ⊘ nat (length closed);
        arb_trades = length arbs;
        arb_pnl_usd = sum_pnl (nat 0) arbs;
        max_drawdown_pct = drawdown (or_else (first_of curve) (nat 0)) (nat 0) curve ⊗ nat 100;
        by_strategy = group_by (λ t. t.strategy) closed [];
        by_venue = group_by (λ t. t.venue) closed [];
        equity_start = first_of curve;
        equity_last = last_of curve;
      }

  keep-append :
      (ts us : List (Trade F))
      → length (keep is_closed (ts ++ us)) ≡ length (keep is_closed ts) + length (keep is_closed us)
  keep-append [] us = omega arith
  keep-append (t ∷ ts) us = ground (arith, keep-append ts us)

  keep-below : (ts : List (Trade F)) → length (keep is_closed ts) ≤ length ts
  keep-below [] = omega arith
  keep-below (t ∷ ts) = ground (arith, keep-below ts)

  -- The trades of all groups.
  abbrev pub grouped : Dict (Group F) → ℕ
  grouped [] = 0
  grouped ((_, g) ∷ d) = g.0 + grouped d

  grouped-insert :
      (key : String) (g : Group F) (d : Dict (Group F))
      → grouped (insert key g d) + (or_else (lookup key d) (0, nat 0)).0 ≡ g.0 + grouped d
  unfolding lookup insert
  grouped-insert key g [] = omega arith
  grouped-insert key g ((j, h) ∷ d) = ground (arith, grouped-insert key g d)

  grouped-add_trade :
      (key : String) (pnl : F) (d : Dict (Group F))
      → grouped (add_trade key pnl d) ≡ suc (grouped d)
  unfolding add_trade
  grouped-add_trade key pnl d =
      let (n, x) = or_else (lookup key d) (0, nat 0) in
      omega (arith, grouped-insert key (suc n, x ⊕ pnl) d)

  group_by_total :
      (key : Trade F → String) (ts : List (Trade F)) (d : Dict (Group F))
      → grouped (group_by key ts d) ≡ length ts + grouped d
  unfolding group_by
  group_by_total key [] d = omega arith
  group_by_total key (t ∷ ts) d = omega (
    arith,
    group_by_total key ts (add_trade (key t) t.pnl_usd d),
    grouped-add_trade (key t) t.pnl_usd d,
  )

  -- The trades of the strategies, and those of the venues, are together exactly the closed ones, and
  -- with the open directional ones and the open arbs they are all that was passed.
  pub performance_total :
      (directional arbs : List (Trade F)) (curve : List F)
      → let r = performance directional arbs curve in
        (grouped r.by_strategy ≡ r.closed_trades)
        × (grouped r.by_venue ≡ r.closed_trades)
        × (r.closed_trades + r.open_trades + (length arbs - length (keep is_closed arbs))
            ≡ length directional + length arbs)
  unfolding performance
  performance_total directional arbs curve =
      let closed = keep is_closed (directional ++ arbs) in
      (
        omega (arith, group_by_total (λ t. t.strategy) closed []),
        omega (arith, group_by_total (λ t. t.venue) closed []),
        omega (arith, keep-append directional arbs, keep-below directional, keep-below arbs),
      )
