-- ===== src/Data/Stream.antt =====
-- The exchange stream: aimos/data/streaming.py. A value of a message's data is a scalar, or rows of
-- scalars. What Python's conversions and `json` do is the parameter `Conversions`, where `none` is a
-- raise.
pub mod Feed
pub mod Trim
pub mod Kept
pub mod Health
pub mod Replay
pub mod Recorded
mod Tests
use Prim.Native.String.{◌++◌ as concat}
use aimos.Prelude.{
  ℕ, ◌*◌, String, Bool, true, false, Option, none, some, List, [], ◌∷◌, ◌++◌, str_eq, if◌then◌else◌,
  or_else, is_some, ◌>>=◌,
}
use aimos.Prelude.Int.{ℤ}
use aimos.Prelude.Dict.{Dict, lookup, contains}
use aimos.Prelude.Text.{lower, upper, before, without, has_letter, without_suffix}
use aimos.Prelude.Floats.{Floats, nat}

pub data Scalar (F : Type 0) : Type 0 where
  text : String → Scalar F
  number : F → Scalar F
  flag : Bool → Scalar F
  null : Scalar F

pub data Field (F : Type 0) : Type 0 where
  scalar : Scalar F → Field F
  rows : List (List (Scalar F)) → Field F

pub record StreamEvent (F : Type 0) : Type 0 where
  pub kind : String
  pub timestamp : ℤ
  pub venue : String
  pub symbol : String
  pub data_of : Dict (Field F)

-- What `json.loads` makes of a message: it raises, or gives an object with a name and a data dict.
pub data Message (F : Type 0) : Type 0 where
  no_json : Message F
  message : Option String → Option (Dict (Field F)) → Message F

-- `float`, `int`, `datetime.fromtimestamp` of milliseconds, and `json.loads`
pub record Conversions (F : Type 0) : Type 0 where
  pub float_of : Scalar F → Option F
  pub int_of : Scalar F → Option ℤ
  pub fromtimestamp : ℤ → Option ℤ
  pub loads : String → Message F

-- `_binance_symbol`
unfoldable pub binance_symbol : String → String
unfolding lower without
binance_symbol symbol = lower (without b'/' symbol)

abbrev quotes : List String
quotes = "USDT" ∷ "USDC" ∷ "BTC" ∷ "ETH" ∷ "FDUSD" ∷ "TRY" ∷ "BNB" ∷ []

-- The loop of `_normalize_symbol`: the first quote that a longer name ends in.
unfoldable pub split_quote : String → List String → String
unfolding without_suffix
split_quote s [] = s
split_quote s (quote ∷ qs) =
    let rest = split_quote s qs in
    elim (without_suffix quote s) [
      | none ↦ rest
      | some String.[] ↦ rest
      | some (String.◌∷◌ c base) ↦ concat (String.◌∷◌ c base) (concat "/" quote)
    ]

unfoldable pub normalize_symbol : String → String
unfolding split_quote upper
normalize_symbol stream_symbol = split_quote (upper stream_symbol) quotes

-- The property `streams`
unfoldable pub streams : List String → List String
unfolding binance_symbol
streams [] = []
streams (s ∷ symbols) =
    let bs = binance_symbol s in
    concat bs "@trade" ∷ concat bs "@depth" ∷ concat bs "@miniTicker" ∷ streams symbols

abbrev ends_with : String → String → Bool
ends_with suffix s = is_some (without_suffix suffix s)

-- The type of the events of a stream
unfoldable pub event_type : String → Option String
unfolding without_suffix
event_type stream =
    if ends_with "@trade" stream
    then some "trade"
    else if ends_with "@depth" stream
    then some "book"
    else if ends_with "@miniTicker" stream
    then some "ticker"
    else none

module _ {F : Type 0} ⦃fl : Floats F⦄ (conv : Conversions F) where
  -- `float(data.get(key, 0.0))`
  unfoldable pub float_at : String → Dict (Field F) → Option F
  float_at key d = elim (lookup key d) [
    | none ↦ some (nat 0)
    | some (scalar x) ↦ conv.float_of x
    | some (rows _) ↦ none
  ]

  -- `[[float(p), float(q)] for p, q in data.get(key, [])]`
  unfoldable pub float_rows : List (List (Scalar F)) → Option (List (List (Scalar F)))
  float_rows [] = some []
  float_rows ((p ∷ q ∷ []) ∷ rest) = do
    p' ← conv.float_of p
    q' ← conv.float_of q
    rest' ← float_rows rest
    some ((number p' ∷ number q' ∷ []) ∷ rest')
  float_rows (_ ∷ rest) = none

  unfoldable pub rows_at : String → Dict (Field F) → Option (List (List (Scalar F)))
  unfolding float_rows
  rows_at key d = elim (lookup key d) [
    | none ↦ some []
    | some (rows xs) ↦ float_rows xs
    | some (scalar (text s)) ↦ if str_eq s "" then some [] else none
    | some (scalar _) ↦ none
  ]

  -- `data.get(key)`, which is passed on
  abbrev value_at : String → Field F → Dict (Field F) → Field F
  value_at key default d = or_else (lookup key d) default

  -- `_normalize_payload`
  unfoldable pub normalize_payload : String → Dict (Field F) → Option (Dict (Field F))
  unfolding float_at rows_at
  normalize_payload etype d =
      let of_trade : Option (Dict (Field F)) = (do
        price ← float_at "p" d
        qty ← float_at "q" d
        some (
            ("price", scalar (number price))
            ∷ ("qty", scalar (number qty))
            ∷ ("buyer_is_maker", value_at "m" (scalar (flag false)) d)
            ∷ ("trade_id", value_at "t" (scalar null) d)
            ∷ [])) in
      let of_book : Option (Dict (Field F)) = (do
        bids ← rows_at "b" d
        asks ← rows_at "a" d
        some (
            ("bids", rows bids)
            ∷ ("asks", rows asks)
            ∷ ("last_update_id", value_at "u" (scalar null) d)
            ∷ [])) in
      let of_ticker : Option (Dict (Field F)) = (do
        start ← float_at "o" d
        high ← float_at "h" d
        low ← float_at "l" d
        close ← float_at "c" d
        volume ← float_at "v" d
        quote_volume ← float_at "q" d
        some (
            ("open", scalar (number start))
            ∷ ("high", scalar (number high))
            ∷ ("low", scalar (number low))
            ∷ ("close", scalar (number close))
            ∷ ("volume", scalar (number volume))
            ∷ ("quote_volume", scalar (number quote_volume))
            ∷ [])) in
      if str_eq etype "trade"
      then of_trade
      else if str_eq etype "book"
      then of_book
      else if str_eq etype "ticker"
      then of_ticker
      else some d

  -- The time stamp of an event: the one of the exchange, unless `int` refuses it.
  unfoldable pub event_time : ℤ → Dict (Field F) → Option ℤ
  event_time now d = elim (lookup "E" d) [
    | none ↦ some now
    | some (rows _) ↦ some now
    | some (scalar x) ↦ elim (conv.int_of x) [ none ↦ some now | some ms ↦ conv.fromtimestamp ms ]
  ]

  -- `_to_event`; the outer `none` is a raise, the inner one a stream that is none of the three.
  unfoldable pub to_event :
      ℤ → String → String → String → Dict (Field F) → Option (Option (StreamEvent F))
  unfolding event_type event_time normalize_payload
  to_event now venue stream symbol d = elim (event_type stream) [
    | none ↦ some none
    | some etype ↦ do
      ts ← event_time now d
      normalized ← normalize_payload etype d
      some (
          some (record {
            kind = etype;
            timestamp = ts;
            venue = venue;
            symbol = symbol;
            data_of = normalized;
          }))
  ]

  -- What `_handle` makes of a message before it passes the event on.
  unfoldable pub read_message : ℤ → String → String → Option (Option (StreamEvent F))
  unfolding to_event has_letter before normalize_symbol
  read_message now venue raw = elim (conv.loads raw) [
    | no_json ↦ some none
    | message name d ↦
        let stream = or_else name "" in
        let symbol = if has_letter b'@' stream then normalize_symbol (before b'@' stream) else "" in
        to_event now venue stream symbol (or_else d [])
  ]
