-- ===== src/Broker/Venues.antt =====
-- The simulated venues of the cross-exchange arbitrage: aimos/execution/broker/multivenue.py.
-- `iso` is `datetime.isoformat`.
pub mod Books
pub mod Saved
pub mod Performance
mod Tests
use Prim.Native.String.{◌++◌ as concat}
use aimos.Prelude.{
  ℕ, suc, String, Bool, not, ◌&&◌, ◌||◌, Option, none, some, List, [], ◌∷◌, ◌++◌, map, str_eq,
  any_of, keep, length, ◌==◌, if◌then◌else◌, or_else,
}
use aimos.Prelude.Int.{ℤ}
use aimos.Prelude.Dict.{Dict, lookup, insert}
use aimos.Prelude.Floats.{Floats, ◌⊕◌, ◌⊖◌, ◌⊗◌, ◌⊘◌, ◌<?◌, ◌≤?◌, nat, fmin}

-- A record of the trade ledger, as the dictionary that `execute_arb` appends.
pub record Trade (F : Type 0) : Type 0 where
  pub kind : String
  pub symbol : String
  pub strategy : String
  pub venue : String
  pub side : String
  pub qty : F
  pub entry : F
  pub exit : F
  pub pnl_usd : F
  pub opened_at : String
  pub closed_at : String
  pub outcome : String
  pub status : String

abbrev pub Sheet : Type 0 → Type 0
Sheet F = Dict (Dict F)

pub record MultiVenueSim (F : Type 0) : Type 0 where
  pub venues : List String
  pub start_usdt_total : F
  pub taker_bps : F
  pub balances : Sheet F
  pub trades : List (Trade F)
  pub realized_arb : F
  pub count : ℕ

-- The arguments of `execute_arb`
pub record Arb (F : Type 0) : Type 0 where
  pub base : String
  pub buy_venue : String
  pub sell_venue : String
  pub buy_price : F
  pub sell_price : F
  pub notional_usd : F
  pub now : ℤ

module _ {F : Type 0} ⦃fl : Floats F⦄ where
  -- `{v: {"USDT": per} for v in self.venues}`; a venue that is named twice is one key.
  unfoldable funded : F → List String → Sheet F → Sheet F
  funded per [] sheet = sheet
  funded per (v ∷ vs) sheet = funded per vs (insert v (("USDT", per) ∷ []) sheet)

  -- The constructor with `__post_init__`
  unfoldable pub new_sim : List String → F → F → MultiVenueSim F
  unfolding funded
  new_sim venues total taker_bps = record {
    venues = venues;
    start_usdt_total = total;
    taker_bps = taker_bps;
    balances = funded (total ⊘ nat (if length venues == 0 then 1 else length venues)) venues [];
    trades = [];
    realized_arb = nat 0;
    count = 0;
  }

  -- `self.balances.get(venue, {}).get("USDT", 0.0)`
  unfoldable pub usdt : String → Sheet F → F
  usdt venue sheet = or_else (lookup "USDT" (or_else (lookup venue sheet) [])) (nat 0)

  -- `self.balances.setdefault(venue, {})["USDT"] = x`
  unfoldable pub set_usdt : String → F → Sheet F → Sheet F
  set_usdt venue x sheet = insert venue (insert "USDT" x (or_else (lookup venue sheet) [])) sheet

  -- What an arb with these prices and this notional earns: the fee of the purchase, the proceeds, the
  -- fee of the sale and the profit.
  unfoldable pub legs : F → Arb F → F → F × F × F × F
  legs taker_bps a notional =
      let qty = notional ⊘ a.buy_price in
      let buy_fee = (notional ⊗ taker_bps) ⊘ nat 10000 in
      let proceeds = qty ⊗ a.sell_price in
      let sell_fee = (proceeds ⊗ taker_bps) ⊘ nat 10000 in
      (buy_fee, proceeds, sell_fee, ((proceeds ⊖ notional) ⊖ buy_fee) ⊖ sell_fee)

  -- The notional that the purse of the buying venue allows.
  unfoldable pub affordable : Arb F → MultiVenueSim F → F
  unfolding usdt
  affordable a s =
      fmin a.notional_usd (usdt a.buy_venue s.balances ⊘ (nat 1 ⊕ (s.taker_bps ⊘ nat 10000)))

  module _ (iso : ℤ → String) where
    unfoldable pub trade_of : Arb F → F → F → Trade F
    trade_of a notional pnl = record {
      kind = "arb";
      symbol = a.base;
      strategy = "CrossExchangeArb";
      venue = concat a.buy_venue (concat "→" a.sell_venue);
      side = "buy/sell";
      qty = notional ⊘ a.buy_price;
      entry = a.buy_price;
      exit = a.sell_price;
      pnl_usd = pnl;
      opened_at = iso a.now;
      closed_at = iso a.now;
      outcome = "captured";
      status = "closed";
    }

    -- `execute_arb`: its answer and the books after it.
    unfoldable pub execute_arb : Arb F → MultiVenueSim F → F × MultiVenueSim F
    unfolding usdt set_usdt legs affordable trade_of
    execute_arb a s =
        let notional = affordable a s in
        let (buy_fee, proceeds, sell_fee, pnl) = legs s.taker_bps a notional in
        let bought =
          set_usdt a.buy_venue ((usdt a.buy_venue s.balances ⊖ notional) ⊖ buy_fee) s.balances in
        let sold =
          set_usdt a.sell_venue ((usdt a.sell_venue bought ⊕ proceeds) ⊖ sell_fee) bought in
        if (a.buy_price ≤? nat 0) || (a.sell_price ≤? nat 0) || (a.notional_usd ≤? nat 0)
        then (nat 0, s)
        else if notional ≤? nat 1
        then (nat 0, s)
        else (
          pnl,
          record s {
            balances = sold;
            realized_arb = s.realized_arb ⊕ pnl;
            count = suc s.count;
            trades = s.trades ++ trade_of a notional pnl ∷ [];
          },
        )

    unfoldable pub execute_all : List (Arb F) → MultiVenueSim F → MultiVenueSim F
    execute_all [] s = s
    execute_all (a ∷ arbs) s = execute_all arbs (execute_arb a s).1

  -- `total_usdt`; `sum` begins with 0.
  unfoldable pub total_from : F → Sheet F → F
  total_from x [] = x
  total_from x ((v, b) ∷ sheet) = total_from (x ⊕ or_else (lookup "USDT" b) (nat 0)) sheet

  unfoldable pub total_usdt : MultiVenueSim F → F
  unfolding total_from
  total_usdt s = total_from (nat 0) s.balances

  -- A row of `balances_rows`
  unfoldable pub balance_row : MultiVenueSim F → String → String × F × Dict F
  unfolding usdt
  balance_row s venue = (
    venue,
    usdt venue s.balances,
    keep (λ x. not (str_eq x.0 "USDT") && not (fl.eq x.1 (nat 0)))
        (or_else (lookup venue s.balances) []),
  )
