-- ===== src/Broker/Live.antt =====
-- `LiveBroker` of aimos/execution/broker/live.py. The exchange client is ccxt's: `create_order` is a
-- parameter, which answers or raises and may change the state `S` of the venue. SHA-256 is one too.
use Prim.Native.String.{◌++◌ as concat}
use aimos.Prelude.{
  ℕ, String, ◌≡◌, ◌⊎◌, Bool, true, false, not, Option, none, some, arith, if◌then◌else◌, or_else,
}
use aimos.Prelude.Floats.{Floats, ◌⊘◌, nat, truthy}
use aimos.Schemas.{is_no_trade, is_long, TradePlan}
use aimos.Broker.Mandate.{MandateCfg, Refusal, mandate_check, Covered, mandate_check_iff}

pub data OrderError : Type 0 where
  refused : Refusal → OrderError
  exchange_error : String → OrderError
  venue_missing : OrderError

-- `OrderResult`; `accepted` is its `ok`, with the status "open", and the other status is "rejected".
pub record OrderResult (F : Type 0) : Type 0 where
  pub accepted : Bool
  pub order_id : Option String
  pub filled_qty : F
  pub avg_price : Option F
  pub error : Option OrderError

pub data Side : Type 0 where
  buy sell : Side

pub record Order (F : Type 0) : Type 0 where
  pub symbol : String
  pub side : Side
  pub amount : F
  pub price : Option F
  pub client_order_id : String

-- A key of the answer of the exchange
pub data Key (A : Type 0) : Type 0 where
  missing null : Key A
  given : A → Key A

-- The answer of the exchange: its "id", as a text, "filled" and "average".
pub record Raw (F : Type 0) : Type 0 where
  pub id : Key String
  pub filled : Key F
  pub average : Key F

pub data Answer (F : Type 0) : Type 0 where
  answered : Raw F → Answer F
  raised : String → Answer F

pub record LiveBroker (F : Type 0) : Type 0 where
  pub exchange_id : String
  pub mandate : MandateCfg F
  -- whether an exchange client is there
  pub bound : Bool

-- `verify_withdrawal_disabled`: the entry "withdraw" of the permissions, if it is there.
unfoldable pub verify_withdrawal_disabled : Option Bool → Bool
verify_withdrawal_disabled none = true
verify_withdrawal_disabled (some w) = not w

-- `__init__`: `none` is the `PermissionError`.
unfoldable pub new_broker :
    {F : Type 0} → String → MandateCfg F → Option Bool → Bool → Option (LiveBroker F)
unfolding verify_withdrawal_disabled
new_broker exchange_id mandate withdraw bound =
    if not (verify_withdrawal_disabled withdraw)
    then none
    else some (record { exchange_id = exchange_id; mandate = mandate; bound = bound })

module _ {F S : Type 0} ⦃fl : Floats F⦄ (digest : String → String)
    (create_order : String → Order F → S → Answer F × S) where
  -- `client_order_id`: "aimos-" and the first 24 hex digits of the SHA-256 (`digest`).
  unfoldable pub client_order_id : String → String
  client_order_id decision_id = concat "aimos-" (digest decision_id)

  unfoldable pub rejected : OrderError → OrderResult F
  rejected e = record {
    accepted = false;
    order_id = none;
    filled_qty = nat 0;
    avg_price = none;
    error = some e;
  }

  -- `(size_quote or 0.0) / entry if entry else 0.0`
  unfoldable pub order_amount : TradePlan F → F
  order_amount plan = elim plan.entry [
    | none ↦ nat 0
    | some e ↦ if truthy e then or_else plan.size_quote (nat 0) ⊘ e else nat 0
  ]

  unfoldable pub order_of : TradePlan F → Order F
  order_of plan = record {
    symbol = plan.symbol;
    side = if is_long plan.action then buy else sell;
    amount = order_amount plan;
    price = plan.entry;
    client_order_id = client_order_id plan.symbol;
  }

  -- A plan for which no order goes out: the id is reserved.
  unfoldable pub reserved : TradePlan F → OrderResult F
  reserved plan = record {
    accepted = true;
    order_id = some (client_order_id plan.symbol);
    filled_qty = nat 0;
    avg_price = none;
    error = none;
  }

  -- `str` of the error of `float(None)`
  abbrev float_of_none : String
  float_of_none = "float() argument must be a string or a real number, not 'NoneType'"

  -- The end of `place`: an id that is None is the text "None", and a "filled" that is None raises.
  unfoldable pub result_of : String → Answer F → OrderResult F
  result_of coid (answered raw) =
      let order_id : String = elim raw.id [ missing ↦ coid | null ↦ "None" | given id ↦ id ] in
      let avg_price : Option F = elim raw.average [
        | missing ↦ none
        | null ↦ none
        | given p ↦ some p
      ] in
      let open_with : F → OrderResult F = λ filled. record {
        accepted = true;
        order_id = some order_id;
        filled_qty = filled;
        avg_price = avg_price;
        error = none;
      } in
      elim raw.filled [
        | missing ↦ open_with (nat 0)
        | null ↦ rejected (exchange_error float_of_none)
        | given q ↦ open_with q
      ]
  result_of coid (raised e) = rejected (exchange_error e)

  unfoldable pub place : LiveBroker F → TradePlan F → F → ℕ → S → OrderResult F × S
  place b plan total n s = elim (mandate_check b.mandate plan total n) [
    | some reason ↦ (rejected (refused reason), s)
    | none ↦
        if is_no_trade plan.action
        then (reserved plan, s)
        else if not b.bound
        then (reserved plan, s)
        else (let (a, s') = create_order b.exchange_id (order_of plan) s in
            (result_of (client_order_id plan.symbol) a, s'))
  ]

  -- An order reaches the exchange only when the mandate is enabled and covers the trade, and then it
  -- is the order of the plan, placed once; in every other case the venue is as it was.
  pub place_is_Covered :
      (b : LiveBroker F) (plan : TradePlan F) (total : F) (n : ℕ) (s : S)
      → ((place b plan total n s).1 ≡ s)
        ⊎ (Covered b.mandate plan total n
            × (is_no_trade plan.action ≡ false)
            × (b.bound ≡ true)
            × ((place b plan total n s).1 ≡ (create_order b.exchange_id (order_of plan) s).1))
  unfolding place
  place_is_Covered b plan total n s = ground (arith, mandate_check_iff b.mandate plan total n)
