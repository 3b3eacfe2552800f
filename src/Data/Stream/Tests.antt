-- ===== src/Data/Stream/Tests.antt =====
-- The stream at small inputs: messages, the feed, a recording and the health of a stream.
use aimos.Prelude.{
  ℕ, suc, zero, arith, ◌==◌, String, ◌≡◌, refl, ap, ◌∙◌, Bool, true, false, not, Option, none, some,
  List, [], ◌∷◌, length, ◌≤◌, All, leb, ◌+◌, str_eq, if◌then◌else◌, or_else, ◌>>=◌,
}
use aimos.Prelude.Int.{ℤ, pos, negsuc, ◌-ℤ◌, leb_ℤ, ltb_ℤ}
use aimos.Prelude.Floats.{fixed}
use aimos.Prelude.Dict.{Dict, lookup}
use aimos.Data.Stream.{
  Scalar, text, number, flag, null, Field, scalar, rows, StreamEvent, Conversions, no_json, message,
  binance_symbol, normalize_symbol, read_message, event_type,
}
use aimos.Data.Stream.Feed.{StreamFeed, new_feed, handle_all, get_trades, get_book}
use aimos.Data.Stream.Kept.{InOrder, Kept, Fresh, get_trades-handle_all}
use aimos.Data.Stream.Replay.{StreamRecorder, LineCodec, Source, to_dict, handle_messages}
use aimos.Data.Stream.Recorded.{Readable, AllReadableMessages, Replayed, handle_messages-Replayed}
use aimos.Data.Stream.Health.{
  StreamHealth, Heard, should_degrade, mark_all, is_silent, last_heard, should_degrade_lem,
}

symbol_test :
    (binance_symbol "BTC/USDT" ≡ "btcusdt")
    × (normalize_symbol "btcusdt" ≡ "BTC/USDT")
    × (normalize_symbol "usdt" ≡ "USDT")
    × (normalize_symbol "ethbtc" ≡ "ETH/BTC")
unfolding binance_symbol normalize_symbol
symbol_test = (refl, refl, refl, refl)

-- A trade of ten units at a price of 50, and one of a tenth of a unit.
abbrev trade_at : ℤ → ℕ → StreamEvent ℤ
trade_at t tenths = record {
  kind = "trade";
  timestamp = t;
  venue = "binance";
  symbol = "BTC/USDT";
  data_of =
      ("price", scalar (number (fixed.decimal 50 0)))
      ∷ ("qty", scalar (number (fixed.decimal tenths 1)))
      ∷ [];
}

-- `float` reads a number; `int` one that is whole; the texts of the stream_messages stand for what they hold.
abbrev conv : Conversions ℤ
conv = record {
  float_of = λ x. elim x [ number n ↦ some n | _ ↦ none ];
  int_of = λ x. elim x [ number n ↦ some n | _ ↦ none ];
  fromtimestamp = λ t. some t;
  loads = λ s.
      if str_eq s "trade"
      then message (some "btcusdt@trade") (
          some (
            ("p", scalar (number (fixed.decimal 50 0)))
            ∷ ("q", scalar (number (fixed.decimal 10 0)))
            ∷ ("E", scalar (number (pos 5)))
            ∷ []))
      else if str_eq s "bad price"
      then message (some "btcusdt@trade") (some (("p", scalar (text "x")) ∷ []))
      else no_json;
}

abbrev feed : StreamFeed ℤ
feed = new_feed (fixed.decimal 1 0) (fixed.decimal 5 0) (fixed.decimal 100 0) 2

abbrev trades : List (StreamEvent ℤ)
trades = trade_at (pos 0) 100 ∷ trade_at (pos 60000000) 1 ∷ trade_at (pos 120000000) 100 ∷ []

trades_InOrder : InOrder (pos 0) trades
trades_InOrder = (refl, (refl, (refl, tt)))

feed-Kept : Kept (pos 0) feed
unfolding lookup
feed-Kept base = record { few = omega arith; large = tt; past = tt; rising = tt }

-- After six minutes the first of the two large trades is too old.
get_trades-handle_all_example :
    Fresh 2
      (fixed.decimal 100 0)
      (fixed.decimal 5 0)
      (pos 360000000)
      (get_trades "BTC" (pos 360000000) (handle_all conv trades feed)).0
get_trades-handle_all_example =
    get_trades-handle_all conv (pos 0) trades feed "BTC" (pos 360000000) trades_InOrder feed-Kept

one_left_test : length (get_trades "BTC" (pos 360000000) (handle_all conv trades feed)).0 ≡ 1
unfolding get_trades handle_all lookup aimos.Data.Stream.Feed.handle
    aimos.Data.Stream.Feed.large_print_from_trade aimos.Data.Stream.float_at
    aimos.Prelude.Dict.insert aimos.Data.Stream.Feed.with_print aimos.Prelude.Int.◌/ℤ◌
one_left_test = refl

abbrev traded : StreamEvent ℤ
traded = record {
  kind = "trade";
  timestamp = pos 5;
  venue = "binance";
  symbol = "BTC/USDT";
  data_of =
      ("price", scalar (number (fixed.decimal 50 0)))
      ∷ ("qty", scalar (number (fixed.decimal 10 0)))
      ∷ ("buyer_is_maker", scalar (flag false))
      ∷ ("trade_id", scalar null)
      ∷ [];
}

abbrev stream_messages : List (ℤ × String × String)
stream_messages =
    (pos 1, "day", "trade")
    ∷ (pos 2, "day", "bad price")
    ∷ (pos 3, "next", "other")
    ∷ (pos 4, "next", "trade")
    ∷ []

-- The one instant of the test and the one line of JSON
abbrev iso : ℤ → String
iso _ = "00:05"

abbrev from_iso : String → Option ℤ
from_iso s = if str_eq s "00:05" then some (pos 5) else none

abbrev codec : LineCodec ℤ
codec = record {
  dumps = λ _. "line";
  loads = λ s. if str_eq s "line" then some (to_dict iso traded) else none;
}

-- A new recorder, which will find a line in the file of the day
abbrev recorder : StreamRecorder
recorder = record { opened = none; files = ("day.jsonl", "old" ∷ []) ∷ [] }

abbrev source : Source ℤ
source = record { feed = some feed; recorder = some recorder; queue = trade_at (pos 0) 100 ∷ [] }

traded-Readable : Readable codec iso from_iso traded
traded-Readable = record { line = refl; stamp = refl }

stream_messages-Readable : AllReadableMessages codec iso from_iso conv "binance" stream_messages
unfolding read_message lookup
stream_messages-Readable = (traded-Readable, (tt, (tt, (traded-Readable, tt))))

handle_messages-Replayed_example :
    Replayed codec iso from_iso recorder source
      (handle_messages iso codec conv "binance" stream_messages source)
handle_messages-Replayed_example =
    handle_messages-Replayed codec iso from_iso conv "binance" stream_messages recorder source refl
      stream_messages-Readable

-- The trade whose price is no number and the text that is no JSON go nowhere.
queued_test : length (handle_messages iso codec conv "binance" stream_messages source).queue ≡ 3
unfolding handle_messages read_message lookup aimos.Data.Stream.Feed.handle
    aimos.Data.Stream.Feed.large_print_from_trade
queued_test = refl

abbrev health : StreamHealth ℤ
health = record { unhealthy_after_seconds = fixed.decimal 10 0; last = [] }

abbrev heard : List Heard
heard = ("book", pos 0) ∷ ("trade", pos 5000000) ∷ ("book", pos 8000000) ∷ []

should_degrade_lem_test :
    should_degrade "book" (pos 17000000) (mark_all heard health)
    ≡ is_silent (fixed.decimal 10 0) (pos 17000000) (last_heard "book" heard (lookup "book" []))
should_degrade_lem_test = should_degrade_lem "book" heard (pos 17000000) health
