-- ===== src/Telegram/Poller.antt =====
-- The poller: TelegramBot of aimos/telegram/bot.py; the transport's batch of updates is an argument.
use aimos.Prelude.{
  ℕ, String, Bool, true, false, ◌+◌, ◌++◌, Option, none, some, List, [], ◌∷◌, str_eq, if◌then◌else◌,
}
use Prim.Native.Nat.{max}
use aimos.Prelude.Int.{ℤ}
use aimos.Telegram.Bot.{Router, Reply, Outcome, index_error, reply, handle}

-- An update, with the time and the nonce that its handling would see. An update id that is missing
-- is 0, an empty text is no text.
pub record Update : Type 0 where
  pub update_id : ℕ
  pub chat_id : Option ℤ
  pub text : Option String
  pub now : ℕ
  pub nonce : String

pub record Bot : Type 0 where
  pub offset : ℕ
  pub router : Router
  pub sent : List (ℤ × Reply)

-- The chat and the text of an update that is handled.
unfoldable pub message : Update → Option (ℤ × String)
message u = elim u.chat_id [
  | none ↦ none
  | some c ↦ elim u.text [ none ↦ none | some t ↦ if str_eq t "" then none else some (c, t) ]
]

abbrev pub advance : Update → Bot → Bot
advance u b = record b { offset = max b.offset (u.update_id + 1) }

abbrev pub answered : ℤ → Outcome → Router → Bot → Bot
answered c (reply t) r b = record b { router = r; sent = b.sent ++ (c, t) ∷ [] }
answered _ _ r b = record b { router = r }

abbrev pub replies : Outcome → ℕ
replies (reply _) = 1
replies _ = 0

abbrev pub raises : Outcome → Bool
raises index_error = true
raises _ = false

-- The loop of `poll_once` with its count of the replies; `none` is an exception, which leaves the
-- updates behind it unread.
unfoldable pub poll : List Update → ℕ → Bot → Option ℕ × Bot
unfolding message
poll [] handled b = (some handled, b)
poll (u ∷ us) handled b =
    let b' = advance u b in
    elim (message u) [
      | none ↦ poll us handled b'
      | some (c, t) ↦
          let (out, r) = handle c t u.now u.nonce b.router in
          let after = answered c out r b' in
          let rest = poll us (handled + replies out) after in
          if raises out then (none, after) else rest
    ]

abbrev pub poll_once : List Update → Bot → Option ℕ × Bot
poll_once updates b = poll updates 0 b
