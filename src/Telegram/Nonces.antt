-- ===== src/Telegram/Nonces.antt =====
-- What may be pending.
use aimos.Prelude.{
  ℕ, String, ◌≡◌, refl, Bool, false, ◌+◌, ◌⊎◌, inl, inr, true, none, some, List, [], ◌∷◌, arith,
  str_eq, Bool-cases, Option-cases, List-cases,
}
use aimos.Prelude.Int.{ℤ}
use aimos.Prelude.Dict.{lookup, insert, lookup-insert, lookup-erase}
use aimos.Prelude.Text.{lower, strip_text, words}
use aimos.Telegram.Security.{Pending, NonceStore, is_allowed, create, confirm, is_dangerous}
use aimos.Telegram.Bot.{
  Router, command_of, args_of, set_feature, execute, execute_dangerous, confirm_command, handler,
  run_command, handle,
}
use aimos.Telegram.Safe.{Message, handle_all}

-- Every command that is pending is a dangerous one.
abbrev pub AllDangerous : NonceStore → Type 0
AllDangerous s =
    (k : String) (p : Pending)
    → lookup k s.pending ≡ some p
    → is_dangerous (command_of (words p.command)) ≡ some true

confirm_pending :
    (chat_id : ℤ) (nonce : String) (now : ℕ) (s : NonceStore) (k : String)
    → (lookup k (confirm chat_id nonce now s).1.pending ≡ lookup k s.pending)
      ⊎ (lookup k (confirm chat_id nonce now s).1.pending ≡ none)
unfolding confirm
confirm_pending chat_id nonce now s k = ground (arith, lookup-erase nonce k s.pending)

confirm-AllDangerous :
    (chat_id : ℤ) (nonce : String) (now : ℕ) (s : NonceStore)
    → AllDangerous s
    → AllDangerous (confirm chat_id nonce now s).1
confirm-AllDangerous chat_id nonce now s h k p e = elim (confirm_pending chat_id nonce now s k) [
  | inl same ↦ h k p (cc (same, e))
  | inr gone ↦ cc (gone, e)
]

named :
    (p q : Pending)
    → is_dangerous (command_of (words q.command)) ≡ some true
    → some q ≡ some p
    → is_dangerous (command_of (words p.command)) ≡ some true
named p q d e = cc (d, e)

create-AllDangerous :
    (nonce : String) (chat_id : ℤ) (text : String) (now : ℕ) (s : NonceStore)
    → is_dangerous (command_of (words text)) ≡ some true
    → AllDangerous s
    → AllDangerous (create nonce chat_id text now s)
unfolding create
create-AllDangerous nonce chat_id text now s d h k p e =
    let asked : Pending = record { chat_id = chat_id; command = text; expires_at = now + s.ttl } in
    let found : lookup k (insert nonce asked s.pending) ≡ some p = e in
    elim (Bool-cases (str_eq nonce k)) [
      | inl same ↦ named p asked d (rw (lookup-insert, same) at found)
      | inr other ↦ h k p (rw (lookup-insert, other) at found)
    ]

set_feature-nonces :
    (args : List String) (value : Bool) (r : Router)
    → (set_feature args value r).1.nonces ≡ r.nonces
unfolding set_feature
set_feature-nonces args value r = ground arith

execute-nonces :
    (cmd : String) (args : List String) (command : String) (r : Router)
    → (execute cmd args command r).1.nonces ≡ r.nonces
unfolding execute
execute-nonces cmd args command r = ground (arith, set_feature-nonces args (str_eq cmd "/enable") r)

execute_dangerous-nonces :
    (command : String) (r : Router) → (execute_dangerous command r).1.nonces ≡ r.nonces
unfolding execute_dangerous
execute_dangerous-nonces command r = elim (List-cases (words command)) [
  | inl e ↦ rw (e, execute_dangerous) refl
  | inr (word, args, e) ↦ rw (e, execute_dangerous) (execute-nonces (lower word) args command r)
]

confirm_command-AllDangerous :
    (chat_id : ℤ) (args : List String) (now : ℕ) (r : Router)
    → AllDangerous r.nonces
    → AllDangerous (confirm_command chat_id args now r).1.nonces
unfolding confirm_command
confirm_command-AllDangerous chat_id [] now r h = h
confirm_command-AllDangerous chat_id (nonce ∷ more) now r h =
    let s = confirm chat_id nonce now r.nonces in
    elim (Option-cases s.0) [
      | inl e ↦ rw (e, confirm_command) (confirm-AllDangerous chat_id nonce now r.nonces h)
      | inr (c, e) ↦
          rw (e, confirm_command)
            (rw (execute_dangerous-nonces) (confirm-AllDangerous chat_id nonce now r.nonces h))
    ]

handler-nonces :
    (cmd : String) (args : List String) (r : Router) → (handler cmd args r).1.nonces ≡ r.nonces
unfolding handler
handler-nonces cmd args r = ground arith

run_command-AllDangerous :
    (chat_id : ℤ) (text : String) (now : ℕ) (nonce : String) (r : Router)
    → AllDangerous r.nonces
    → AllDangerous
        (run_command chat_id text
          (command_of (words text))
          (args_of (words text))
          now
          nonce
          r).1.nonces
unfolding run_command
run_command-AllDangerous chat_id text now nonce r h =
    elim (Bool-cases (str_eq (command_of (words text)) "/confirm")) [
      | inl e ↦
          rw (e, run_command) (confirm_command-AllDangerous chat_id (args_of (words text)) now r h)
      | inr e ↦ elim (Option-cases (is_dangerous (command_of (words text)))) [
        | inl d ↦ rw (e, run_command) (rw (d) h)
        | inr (true, d) ↦
            rw (e, run_command) (rw (d) (create-AllDangerous nonce chat_id text now r.nonces d h))
        | inr (false, d) ↦ rw (e, run_command) (rw (d, handler-nonces) h)
      ]
    ]

handle-AllDangerous :
    (chat_id : ℤ) (raw : String) (now : ℕ) (nonce : String) (r : Router)
    → AllDangerous r.nonces
    → AllDangerous (handle chat_id raw now nonce r).1.nonces
unfolding handle
handle-AllDangerous chat_id raw now nonce r h = elim (Bool-cases (is_allowed chat_id r.allowed)) [
  | inl e ↦ rw (e, handle) (run_command-AllDangerous chat_id (strip_text raw) now nonce r h)
  | inr e ↦ rw (e, handle) h
]

-- If every command that waits for a confirmation is a dangerous one, as on a new bot, then that is so
-- after any series of messages.
pub pending_is_AllDangerous :
    (ms : List Message) (r : Router) → AllDangerous r.nonces → AllDangerous (handle_all ms r).nonces
pending_is_AllDangerous [] r h = h
pending_is_AllDangerous (m ∷ ms) r h =
    pending_is_AllDangerous ms (handle m.chat_id m.raw m.now m.nonce r).1
      (handle-AllDangerous m.chat_id m.raw m.now m.nonce r h)
