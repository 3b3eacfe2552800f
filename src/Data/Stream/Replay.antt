-- ===== src/Data/Stream/Replay.antt =====
-- Recording and replay: the messages and `StreamRecorder` of aimos/data/streaming.py, and
-- `RecordedStreamSource` of aimos/data/streams.py. JSON is the parameter `LineCodec`.
use Prim.Native.String.{◌++◌ as concat}
use aimos.Prelude.{
  String, Bool, true, false, Option, none, some, List, [], ◌∷◌, ◌++◌, if◌then◌else◌, or_else, ◌>>=◌,
}
use aimos.Prelude.Int.{ℤ}
use aimos.Prelude.Dict.{Dict, lookup, insert}
use aimos.Prelude.Floats.{Floats}
use aimos.Data.Stream.{Field, StreamEvent, Conversions, read_message}
use aimos.Data.Stream.Feed.{StreamFeed, handle}

-- A value of the dictionary of an event
pub data Entry (F : Type 0) : Type 0 where
  word : String → Entry F
  fields : Dict (Field F) → Entry F

module _ {F : Type 0} (iso : ℤ → String) where
  unfoldable pub to_dict : StreamEvent F → Dict (Entry F)
  to_dict e =
      ("type", word e.kind)
      ∷ ("timestamp", word (iso e.timestamp))
      ∷ ("venue", word e.venue)
      ∷ ("symbol", word e.symbol)
      ∷ ("data", fields e.data_of)
      ∷ []

module _ {F : Type 0} (from_iso : String → Option ℤ) where
  abbrev word_at : String → Dict (Entry F) → Option String
  word_at key d = lookup key d >>= (λ v. elim v [ word s ↦ some s | fields _ ↦ none ])

  -- `from_dict`; `none` is a missing key, or a time stamp that `fromisoformat` refuses.
  unfoldable pub from_dict : Dict (Entry F) → Option (StreamEvent F)
  from_dict raw = do
    kind ← word_at "type" raw
    stamp ← word_at "timestamp" raw
    timestamp ← from_iso stamp
    venue ← word_at "venue" raw
    symbol ← word_at "symbol" raw
    data_of ← (elim (lookup "data" raw) [
      | none ↦ some []
      | some (word _) ↦ none
      | some (fields d) ↦ some d
    ])
    some (record {
      kind = kind;
      timestamp = timestamp;
      venue = venue;
      symbol = symbol;
      data_of = data_of;
    })

-- `RecordedStreamSource`, and its `events`
pub record RecordedStreamSource (A : Type 0) : Type 0 where
  pub recorded : List A

unfoldable pub events : {A : Type 0} → RecordedStreamSource A → List A
events source = source.recorded

-- `json.dumps` with `default=str`, of the dictionaries of events, and `json.loads` of a line.
pub record LineCodec (F : Type 0) : Type 0 where
  pub dumps : Dict (Entry F) → String
  pub loads : String → Option (Dict (Entry F))

-- The recorder: the file that is open, and the lines of all files.
pub record StreamRecorder : Type 0 where
  pub opened : Option String
  pub files : Dict (List String)

-- The adapter with what `_handle` passes an event to.
pub record Source (F : Type 0) : Type 0 where
  pub feed : Option (StreamFeed F)
  pub recorder : Option StreamRecorder
  pub queue : List (StreamEvent F)

module _ {F : Type 0} (iso : ℤ → String) (codec : LineCodec F) where
  -- The line of an event
  abbrev pub line_of : StreamEvent F → String
  line_of e = codec.dumps (to_dict iso e)

  -- `_ensure_open`: the file of the day is opened once; a later day does not open another.
  abbrev pub file_of : String → StreamRecorder → String
  file_of day r = or_else r.opened (concat day ".jsonl")

  -- `write`, on a day
  unfoldable pub write : String → StreamEvent F → StreamRecorder → StreamRecorder
  unfolding to_dict
  write day e r =
      let path = file_of day r in
      record {
        opened = some path;
        files = insert path (or_else (lookup path r.files) [] ++ line_of e ∷ []) r.files;
      }

  abbrev pub close : StreamRecorder → StreamRecorder
  close r = record r { opened = none }

  module _ ⦃fl : Floats F⦄ (conv : Conversions F) (venue : String) where
    -- The end of `_handle`: the feed may raise, and then the event goes nowhere else.
    unfoldable pub pass_on : String → StreamEvent F → Source F → Bool × Source F
    unfolding write
    pass_on day e s =
        let recorder : Option StreamRecorder = elim s.recorder [
          | none ↦ none
          | some r ↦ some (write day e r)
        ] in
        elim s.feed [
          | none ↦ (false, record s { recorder = recorder; queue = s.queue ++ e ∷ [] })
          | some f ↦
              let (raised, f') = handle conv e f in
              if raised then (true, record s { feed = some f' }) else (
                false,
                record { feed = some f'; recorder = recorder; queue = s.queue ++ e ∷ [] },
              )
        ]

    -- `_handle`, of a message that comes at a time on a day
    unfoldable pub handle_message : ℤ → String → String → Source F → Bool × Source F
    unfolding pass_on
    handle_message now day raw s = elim (read_message conv now venue raw) [
      | none ↦ (true, s)
      | some none ↦ (false, s)
      | some (some e) ↦ pass_on day e s
    ]

    unfoldable pub handle_messages : List (ℤ × String × String) → Source F → Source F
    unfolding handle_message
    handle_messages [] s = s
    handle_messages ((now, day, raw) ∷ ms) s = handle_messages ms (handle_message now day raw s).1
