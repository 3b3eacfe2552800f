-- ===== src/Broker/Venues/Saved.antt =====
-- Saving and restoring the venues: `state_dict` and `load_state` of aimos/execution/broker/multivenue.py.
-- A value of the dictionary has the type that `state_dict` gives it; on another one the conversions
-- of `load_state` raise, and the answer is `none`.
use aimos.Prelude.{ℕ, String, ◌≡◌, refl, Option, none, some, List, [], ◌∷◌, ◌>>=◌}
use aimos.Prelude.Dict.{Dict, lookup}
use aimos.Broker.Venues.{Trade, Sheet, MultiVenueSim}

pub data Value (F : Type 0) : Type 0 where
  names : List String → Value F
  number : F → Value F
  whole : ℕ → Value F
  sheet : Sheet F → Value F
  ledger : List (Trade F) → Value F

module _ {F : Type 0} where
  unfoldable pub state_dict : MultiVenueSim F → Dict (Value F)
  state_dict s =
      ("venues", names s.venues)
      ∷ ("start_usdt_total", number s.start_usdt_total)
      ∷ ("taker_bps", number s.taker_bps)
      ∷ ("balances", sheet s.balances)
      ∷ ("trades", ledger s.trades)
      ∷ ("realized_arb", number s.realized_arb)
      ∷ ("n", whole s.count)
      ∷ []

  -- `state.get(key, default)`, converted
  abbrev read : {A : Type 0} → (Value F → Option A) → String → Dict (Value F) → A → Option A
  read as_a key state default = elim (lookup key state) [ none ↦ some default | some v ↦ as_a v ]

  abbrev as_names : Value F → Option (List String)
  as_names (names xs) = some xs
  as_names _ = none

  abbrev as_number : Value F → Option F
  as_number (number x) = some x
  as_number _ = none

  abbrev as_whole : Value F → Option ℕ
  as_whole (whole n) = some n
  as_whole _ = none

  abbrev as_sheet : Value F → Option (Sheet F)
  as_sheet (sheet s) = some s
  as_sheet _ = none

  abbrev as_ledger : Value F → Option (List (Trade F))
  as_ledger (ledger ts) = some ts
  as_ledger _ = none

  unfoldable pub load_state : Dict (Value F) → MultiVenueSim F → Option (MultiVenueSim F)
  load_state state s = do
    venues ← read as_names "venues" state s.venues
    start ← read as_number "start_usdt_total" state s.start_usdt_total
    bps ← read as_number "taker_bps" state s.taker_bps
    balances ← read as_sheet "balances" state s.balances
    trades ← read as_ledger "trades" state s.trades
    realized ← read as_number "realized_arb" state s.realized_arb
    n ← read as_whole "n" state s.count
    some (record {
      venues = venues;
      start_usdt_total = start;
      taker_bps = bps;
      balances = balances;
      trades = trades;
      realized_arb = realized;
      count = n;
    })

  -- Whatever the restored object was before, it is then the one that was saved; and an empty
  -- dictionary changes nothing.
  pub load_state-state_dict :
      (s t : MultiVenueSim F) → (load_state (state_dict s) t ≡ some s) × (load_state [] t ≡ some t)
  unfolding load_state state_dict lookup
  load_state-state_dict s t = (refl, refl)
