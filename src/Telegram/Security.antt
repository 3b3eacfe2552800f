-- ===== src/Telegram/Security.antt =====
-- The whitelist and the confirmation by nonces: aimos/telegram/security.py. Times are in
-- microseconds; the nonce that `secrets.token_hex` draws is an argument.
use aimos.Prelude.{
  ℕ, String, Bool, ◌+◌, ltb, not, Option, none, some, List, [], ◌∷◌, str_eq, any_of, if◌then◌else◌,
}
use aimos.Prelude.Int.{ℤ, eqb_ℤ}
use aimos.Prelude.Dict.{Dict, lookup, insert, erase}
use aimos.Prelude.Text.{words}

abbrev pub dangerous_commands : List String
dangerous_commands =
    "/flatten" ∷ "/flattenall" ∷ "/killswitch" ∷ "/setrisk" ∷ "/tiercap" ∷ "/disable" ∷ "/enable"
    ∷ "/approve" ∷ "/reject" ∷ "/scalp" ∷ []

-- `ChatWhitelist.is_allowed`
unfoldable pub is_allowed : ℤ → List ℤ → Bool
is_allowed chat_id allowed = any_of (λ i. eqb_ℤ i chat_id) allowed

pub record Pending : Type 0 where
  pub chat_id : ℤ
  pub command : String
  pub expires_at : ℕ

pub record NonceStore : Type 0 where
  pub ttl : ℕ
  pub pending : Dict Pending

unfoldable pub create : String → ℤ → String → ℕ → NonceStore → NonceStore
create nonce chat_id command now s = record s {
  pending =
      insert nonce (record { chat_id = chat_id; command = command; expires_at = now + s.ttl })
        s.pending;
}

abbrev drop_nonce : String → NonceStore → NonceStore
drop_nonce nonce s = record s { pending = erase nonce s.pending }

-- The command, or `none` where the source answers `(False, None)`.
unfoldable pub confirm : ℤ → String → ℕ → NonceStore → Option String × NonceStore
confirm chat_id nonce now s = elim (lookup nonce s.pending) [
  | none ↦ (none, s)
  | some pend ↦
      if ltb pend.expires_at now
      then (none, drop_nonce nonce s)
      else if not (eqb_ℤ pend.chat_id chat_id)
      then (none, s)
      else (some pend.command, drop_nonce nonce s)
]

-- `none` is the IndexError of a command without a word.
unfoldable pub is_dangerous : String → Option Bool
is_dangerous command = elim (words command) [
  | [] ↦ none
  | word ∷ _ ↦ some (any_of (λ c. str_eq c word) dangerous_commands)
]
