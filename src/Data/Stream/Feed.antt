-- ===== src/Data/Stream/Feed.antt =====
-- The feed of the pipeline: aimos/data/stream_feed.py, with `base_of` of aimos/data/live_source.py.
-- The rows of a book event are pairs of numbers, as the adapter makes them; other rows raise.
use aimos.Prelude.{
  ℕ, String, Bool, true, false, not, ◌&&◌, ◌||◌, Option, none, some, List, [], ◌∷◌, ◌++◌, str_eq,
  length, ltb, drop, if◌then◌else◌, or_else, ◌>>=◌,
}
use aimos.Prelude.Int.{ℤ, ◌-ℤ◌, ltb_ℤ}
use aimos.Prelude.Dict.{Dict, lookup, insert}
use aimos.Prelude.Text.{before}
use aimos.Prelude.Floats.{Floats, ◌⊕◌, ◌⊖◌, ◌⊗◌, ◌⊘◌, ◌<?◌, ◌≤?◌, nat, truthy, fmax, fmin}
use aimos.Schemas.{bullish, bearish, BookAggregate, LargePrint}
use aimos.Data.Stream.{
  Scalar, text, number, flag, null, Field, scalar, rows, StreamEvent, Conversions, float_at,
}

-- `base_of`
unfoldable pub base_of : String → String
unfolding before
base_of symbol = before b'/' symbol

pub record StreamFeed (F : Type 0) : Type 0 where
  pub book_window_minutes : F
  pub trade_window_minutes : F
  pub min_notional_usd : F
  pub max_recent_trades : ℕ
  pub books : Dict (BookAggregate F)
  pub trades : Dict (List (LargePrint F))

module _ {F : Type 0} ⦃fl : Floats F⦄ where
  abbrev pub new_feed : F → F → F → ℕ → StreamFeed F
  new_feed book_window trade_window min_notional max_recent = record {
    book_window_minutes = book_window;
    trade_window_minutes = trade_window;
    min_notional_usd = min_notional;
    max_recent_trades = max_recent;
    books = [];
    trades = [];
  }

  -- The loop of `_depth_near_mid`, with the total so far.
  unfoldable pub depth_from : F → List (F × F) → F → F → F
  depth_from total [] mid frac = total
  depth_from total ((price, qty) ∷ levels) mid frac =
      depth_from
        (if (price ≤? nat 0) || (qty ≤? nat 0)
          then total
          else if (fl.abs (price ⊖ mid) ⊘ mid) ≤? frac
          then total ⊕ (price ⊗ qty)
          else total)
        levels mid frac

  -- `_depth_near_mid`
  unfoldable pub depth_near_mid : List (F × F) → F → F → F
  unfolding depth_from
  depth_near_mid levels mid frac =
      if mid ≤? nat 0 then nat 0 else depth_from (nat 0) levels mid frac

  -- `[list(p) for p in event.data.get(key, [])]`, as pairs
  unfoldable pub pairs : List (List (Scalar F)) → Option (List (F × F))
  pairs [] = some []
  pairs ((number p ∷ number q ∷ []) ∷ rest) = do rest' ← pairs rest; some ((p, q) ∷ rest')
  pairs (_ ∷ rest) = none

  unfoldable pub levels_at : String → Dict (Field F) → Option (List (F × F))
  unfolding pairs
  levels_at key d = elim (lookup key d) [
    | none ↦ some []
    | some (rows xs) ↦ pairs xs
    | some (scalar _) ↦ none
  ]

  -- `max` and `min` of the prices, with the default 0
  abbrev best : (F → F → F) → List (F × F) → F
  best pick [] = nat 0
  best pick ((p, _) ∷ []) = p
  best pick ((p, _) ∷ (q, x) ∷ levels) = best pick ((pick p q, x) ∷ levels)

  -- `book_from_depth`, with its default `depth_frac`
  unfoldable pub book_from_depth : StreamEvent F → Option (BookAggregate F)
  unfolding levels_at depth_near_mid
  book_from_depth event = do
    bids ← levels_at "bids" event.data_of
    asks ← levels_at "asks" event.data_of
    let best_bid = best fmax bids
    let best_ask = best fmin asks
    let quoted = (nat 0 <? best_bid) && (nat 0 <? best_ask)
    let mid = if quoted then (best_bid ⊕ best_ask) ⊘ nat 2 else nat 0
    let bid_depth = depth_near_mid bids mid (fl.decimal 5 3)
    let ask_depth = depth_near_mid asks mid (fl.decimal 5 3)
    some (record {
      timestamp = event.timestamp;
      best_bid = best_bid;
      best_ask = best_ask;
      spread_bps =
          if (nat 0 <? mid) && quoted then ((best_ask ⊖ best_bid) ⊘ mid) ⊗ nat 10000 else nat 0;
      bid_depth_usd = bid_depth;
      ask_depth_usd = ask_depth;
      imbalance =
          if nat 0 <? (bid_depth ⊕ ask_depth)
          then (bid_depth ⊖ ask_depth) ⊘ (bid_depth ⊕ ask_depth)
          else nat 0;
    })

  -- `bool(x)`
  abbrev is_true : Field F → Bool
  is_true (scalar (text s)) = not (str_eq s "")
  is_true (scalar (number x)) = truthy x
  is_true (scalar (flag b)) = b
  is_true (scalar null) = false
  is_true (rows []) = false
  is_true (rows (_ ∷ _)) = true

  -- A deque with a `maxlen`: an append to a full one drops the item at the front.
  abbrev pub pushed : ℕ → LargePrint F → List (LargePrint F) → List (LargePrint F)
  pushed maxlen lp prints =
      let longer = prints ++ lp ∷ [] in if ltb maxlen (length longer) then drop 1 longer else longer

  -- `_trim`: the loop ends at the first print that is young enough.
  unfoldable pub trim : ℤ → List (LargePrint F) → List (LargePrint F)
  trim cutoff [] = []
  trim cutoff (p ∷ ps) =
      let rest = trim cutoff ps in if ltb_ℤ p.timestamp cutoff then rest else p ∷ ps

  -- `get_book`
  unfoldable pub get_book : String → ℤ → StreamFeed F → List (BookAggregate F)
  get_book symbol now f = elim (lookup symbol f.books) [
    | none ↦ []
    | some book ↦
        if ltb_ℤ book.timestamp (now -ℤ fl.minutes f.book_window_minutes) then [] else book ∷ []
  ]

  -- `get_trades`; the deque that it trims is the feed's own, where there is one.
  unfoldable pub get_trades : String → ℤ → StreamFeed F → List (LargePrint F) × StreamFeed F
  unfolding trim
  get_trades symbol now f = elim (lookup symbol f.trades) [
    | none ↦ ([], f)
    | some prints ↦
        let kept = trim (now -ℤ fl.minutes f.trade_window_minutes) prints in
        (kept, record f { trades = insert symbol kept f.trades })
  ]

  module _ (conv : Conversions F) where
    -- `large_print_from_trade`
    unfoldable pub large_print_from_trade : StreamEvent F → Option (LargePrint F)
    large_print_from_trade event = do
      price ← float_at conv "price" event.data_of
      qty ← float_at conv "qty" event.data_of
      let buyer_is_maker =
          is_true (or_else (lookup "buyer_is_maker" event.data_of) (scalar (flag false)))
      some (record {
        timestamp = event.timestamp;
        symbol = event.symbol;
        side = if buyer_is_maker then bearish else bullish;
        notional_usd = price ⊗ qty;
        price = price;
      })

    -- The branch of `handle` for a trade, on the deque of its base.
    unfoldable pub with_print :
        ℤ → LargePrint F → StreamFeed F → List (LargePrint F) → List (LargePrint F)
    unfolding trim
    with_print now lp f prints = trim (now -ℤ fl.minutes f.trade_window_minutes) (
        if f.min_notional_usd ≤? lp.notional_usd
        then pushed f.max_recent_trades lp prints
        else prints)

    -- `handle`, with whether it raised; a trade that raises has made the deque already.
    unfoldable pub handle : StreamEvent F → StreamFeed F → Bool × StreamFeed F
    unfolding base_of
    handle event f =
        let base = base_of event.symbol in
        let prints = or_else (lookup base f.trades) [] in
        let of_book : Bool × StreamFeed F = elim (book_from_depth event) [
          | none ↦ (true, f)
          | some book ↦ (false, record f { books = insert base book f.books })
        ] in
        let of_trade : Bool × StreamFeed F = elim (large_print_from_trade event) [
          | none ↦ (true, record f { trades = insert base prints f.trades })
          | some lp ↦ (
            false,
            record f { trades = insert base (with_print event.timestamp lp f prints) f.trades },
          )
        ] in
        if str_eq event.kind "book"
        then of_book
        else if str_eq event.kind "trade"
        then of_trade
        else (false, f)

    unfoldable pub handle_all : List (StreamEvent F) → StreamFeed F → StreamFeed F
    handle_all [] f = f
    handle_all (e ∷ es) f = handle_all es (handle e f).1
