-- ===== src/Telegram/Confirm.antt =====
-- Which nonce is confirmed, and what may change the system.
use aimos.Prelude.{
  ℕ, String, ◌≡◌, refl, ◌⊎◌, inl, inr, true, false, ltb, none, some, List, [], ◌∷◌, arith, str_eq,
  if◌then◌else◌, Bool-cases, Option-cases,
}
use aimos.Prelude.Int.{ℤ, eqb_ℤ}
use aimos.Prelude.Dict.{lookup, lookup-erase}
use aimos.Prelude.Text.{strip_text, words}
use aimos.Telegram.Security.{Pending, NonceStore, is_allowed, confirm}
use aimos.Telegram.Bot.{Router, command_of, args_of, confirm_command, handler, run_command, handle}

-- A chat may confirm the nonce at this time.
abbrev pub Confirmable : ℤ → String → ℕ → NonceStore → Pending → Type 0
Confirmable chat_id nonce now s p =
    (lookup nonce s.pending ≡ some p)
    × (ltb p.expires_at now ≡ false)
    × (eqb_ℤ p.chat_id chat_id ≡ true)

-- Either a command is pending under the nonce, has not expired and was asked for by this chat: then
-- `confirm` gives it back and the nonce, and no other, is used up. Or `confirm` gives back nothing and
-- leaves what is pending under every other nonce.
pub confirm_lem :
    (chat_id : ℤ) (nonce : String) (now : ℕ) (s : NonceStore)
    → let (answer, s') = confirm chat_id nonce now s in
      ((p : Pending) × Confirmable chat_id nonce now s p
        × (answer ≡ some p.command)
        × ((k : String)
            → lookup k s'.pending ≡ (if str_eq nonce k then none else lookup k s.pending)))
      ⊎ (((p : Pending) → Confirmable chat_id nonce now s p → ⊥)
          × (answer ≡ none)
          × ((k : String) → (lookup k s'.pending ≡ lookup k s.pending) ⊎ (str_eq nonce k ≡ true)))
unfolding confirm
confirm_lem chat_id nonce now s = elim (Option-cases (lookup nonce s.pending)) [
  | inl e ↦ rw (e, confirm) (inr (λ p h. cc (h.0), refl, λ k. inl refl))
  | inr (p, e) ↦ elim (Bool-cases (ltb p.expires_at now)) [
    | inl late ↦
        rw (e, confirm)
          (rw (late) (
            inr (
              λ q h. cc (late, h.0, h.1),
              refl,
              λ k. ground (arith, lookup-erase nonce k s.pending),
            )))
    | inr timely ↦ elim (Bool-cases (eqb_ℤ p.chat_id chat_id)) [
      | inl same ↦
          rw (e, confirm)
            (rw (timely, same)
              (inl (p, (refl, timely, same), refl, λ k. lookup-erase nonce k s.pending)))
      | inr other ↦
          rw (e, confirm)
            (rw (timely, other) (inr (λ q h. cc (other, h.0, h.2), refl, λ k. inl refl)))
    ]
  ]
]

-- The first word of a text in lower case, or the empty text if there is none.
abbrev pub command_word : String → String
command_word raw = command_of (words (strip_text raw))

abbrev pub Untouched : Router → Router → Type 0
Untouched r r' = (r'.orch ≡ r.orch) × (r'.features ≡ r.features)

-- What gives a message the right to change the system.
abbrev pub Entitled : ℤ → String → ℕ → Router → Type 0
Entitled chat_id cmd now r =
    (str_eq cmd "/pause" ≡ true)
    ⊎ (str_eq cmd "/resume" ≡ true)
    ⊎ ((str_eq cmd "/confirm" ≡ true)
        × ((nonce : String) × (p : Pending) × Confirmable chat_id nonce now r.nonces p))

confirm_command-Entitled :
    (chat_id : ℤ) (args : List String) (now : ℕ) (r : Router)
    → Untouched r (confirm_command chat_id args now r).1
      ⊎ ((nonce : String) × (p : Pending) × Confirmable chat_id nonce now r.nonces p)
unfolding confirm_command
confirm_command-Entitled chat_id [] now r = inl (refl, refl)
confirm_command-Entitled chat_id (nonce ∷ _) now r =
    elim (Option-cases (confirm chat_id nonce now r.nonces).0) [
      | inl e ↦ inl (rw (e, confirm_command) (refl, refl))
      | inr (c, e) ↦ elim (confirm_lem chat_id nonce now r.nonces) [
        | inl (p, h, _, _) ↦ inr (nonce, p, h)
        | inr (_, n, _) ↦ cc (n, e)
      ]
    ]

run_command-Entitled :
    (chat_id : ℤ) (text cmd : String) (args : List String) (now : ℕ) (nonce : String) (r : Router)
    → Untouched r (run_command chat_id text cmd args now nonce r).1 ⊎ Entitled chat_id cmd now r
unfolding run_command handler
run_command-Entitled chat_id text cmd args now nonce r =
    ground (arith, confirm_command-Entitled chat_id args now r)

-- A message leaves the orchestrator and the features as they were, unless its chat is on the
-- whitelist and it is a /pause, a /resume or a /confirm while a command of that very chat is pending
-- under a nonce that has not expired.
pub handle-Entitled :
    (chat_id : ℤ) (raw : String) (now : ℕ) (nonce : String) (r : Router)
    → let r' = (handle chat_id raw now nonce r).1 in
      Untouched r r'
      ⊎ ((is_allowed chat_id r.allowed ≡ true) × Entitled chat_id (command_word raw) now r)
unfolding handle
handle-Entitled chat_id raw now nonce r = elim (Bool-cases (is_allowed chat_id r.allowed)) [
  | inl a ↦
      let parts = words (strip_text raw) in
      rw (a, handle)
        (elim (run_command-Entitled chat_id (strip_text raw) (command_of parts) (args_of parts) now
          nonce r) [ inl same ↦ inl same | inr h ↦ inr (refl, h) ])
  | inr a ↦ rw (a, handle) (inl (refl, refl))
]
