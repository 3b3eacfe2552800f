-- ===== src/Broker/Venues/Books.antt =====
-- The books of the venues over any arbs: aimos/execution/broker/multivenue.py.
use aimos.Prelude.{
  ℕ, ◌+◌, String, ◌≡◌, refl, false, List, [], ◌∷◌, ◌++◌, arith, str_eq, length, length-append,
}
use aimos.Prelude.Int.{ℤ}
use aimos.Prelude.Dict.{lookup, lookup-insert}
use aimos.Prelude.Floats.{Floats, ◌⊕◌}
use aimos.Broker.Venues.{
  Trade, MultiVenueSim, Arb, set_usdt, execute_arb, execute_all, trade_of, affordable, legs,
}

module _ {F : Type 0} ⦃fl : Floats F⦄ (iso : ℤ → String) where
  abbrev pub profit_after : F → List (Trade F) → F
  profit_after x [] = x
  profit_after x (t ∷ ts) = profit_after (x ⊕ t.pnl_usd) ts

  profit_after-append :
      (x : F) (ts : List (Trade F)) (t : Trade F)
      → profit_after x (ts ++ t ∷ []) ≡ profit_after x ts ⊕ t.pnl_usd
  profit_after-append x [] t = refl
  profit_after-append x (u ∷ ts) t = profit_after-append (x ⊕ u.pnl_usd) ts t

  -- From `profit` and `number`, what the books say was earned is what the ledger's trades earned.
  pub record Booked (profit : F) (number : ℕ) (s : MultiVenueSim F) : Type 0 where
    pub realized : s.realized_arb ≡ profit_after profit s.trades
    pub counted : s.count ≡ number + length s.trades

  execute_arb-Booked :
      (profit : F) (number : ℕ) (a : Arb F) (s : MultiVenueSim F)
      → Booked profit number s
      → Booked profit number (execute_arb iso a s).1
  unfolding execute_arb trade_of
  execute_arb-Booked profit number a s h = record {
    realized = ground (
      arith,
      h.realized,
      profit_after-append profit s.trades
          (trade_of iso a (affordable a s) (legs s.taker_bps a (affordable a s)).3),
    );
    counted = ground (
      arith,
      h.counted,
      length-append s.trades
          (trade_of iso a (affordable a s) (legs s.taker_bps a (affordable a s)).3 ∷ []),
    );
  }

  -- After any arbs, the realised profit is exactly the sum of the profits in the trade ledger, in the
  -- order and with the rounding in which they were made, and the counter is the number of its trades: an
  -- arb that is refused leaves no trace in either.
  pub execute_all-Booked :
      (profit : F) (number : ℕ) (arbs : List (Arb F)) (s : MultiVenueSim F)
      → Booked profit number s
      → Booked profit number (execute_all iso arbs s)
  unfolding execute_all
  execute_all-Booked profit number [] s h = h
  execute_all-Booked profit number (a ∷ arbs) s h =
      execute_all-Booked profit number arbs (execute_arb iso a s).1
        (execute_arb-Booked profit number a s h)

  -- An arb leaves the purse of every venue that is neither its buyer nor its seller as it was.
  pub execute_arb_elsewhere :
      (a : Arb F) (s : MultiVenueSim F) (venue : String)
      → str_eq a.buy_venue venue ≡ false
      → str_eq a.sell_venue venue ≡ false
      → lookup venue (execute_arb iso a s).1.balances ≡ lookup venue s.balances
  unfolding execute_arb set_usdt
  execute_arb_elsewhere a s venue other another = grind (arith, other, another, lookup-insert)
