-- ===== src/Telegram/Polling.antt =====
-- Reading the batches of updates.
use Prim.Native.Nat.{max}
use aimos.Prelude.{
  ℕ, String, ◌≡◌, refl, inl, inr, true, false, ◌+◌, ◌≤◌, ◌<◌, Option, none, some, List, [], ◌∷◌,
  length, arith, All, length-append, Bool-cases, Option-cases,
}
use mathlib.Core.Path.{subst⁻¹}
use aimos.Prelude.Int.{ℤ}
use aimos.Prelude.Text.{strip_text, words, words_from}
use aimos.Telegram.Security.{is_allowed, is_dangerous}
use aimos.Telegram.Bot.{Router, Outcome, command_of, index_error, handle, run_command}
use aimos.Telegram.Poller.{
  Bot, Update, message, answered, advance, replies, raises, poll, poll_once,
}

-- The updates behind the offset that a batch leaves.
abbrev pub Read : Bot → Update → Type 0
Read b u = u.update_id < b.offset

answered-offset :
    (c : ℤ) (out : Outcome) (r : Router) (b : Bot) → (answered c out r b).offset ≡ b.offset
answered-offset c (Outcome.reply t) r b = refl
answered-offset c Outcome.silent r b = refl
answered-offset c index_error r b = refl

answered-sent :
    (c : ℤ) (out : Outcome) (r : Router) (b : Bot)
    → length (answered c out r b).sent ≡ length b.sent + replies out
answered-sent c (Outcome.reply t) r b = length-append b.sent ((c, t) ∷ [])
answered-sent c Outcome.silent r b = omega arith
answered-sent c index_error r b = omega arith

module _ (u : Update) (us : List Update) (handled : ℕ) (b : Bot) where
  poll-skip : message u ≡ none → poll (u ∷ us) handled b ≡ poll us handled (advance u b)
  unfolding poll
  poll-skip e = rw (e, poll) refl

  poll-raise :
      (c : ℤ) (t : String) (out : Outcome) (r : Router)
      → message u ≡ some (c, t)
      → handle c t u.now u.nonce b.router ≡ (out, r)
      → raises out ≡ true
      → poll (u ∷ us) handled b ≡ (none, answered c out r (advance u b))
  unfolding poll
  poll-raise c t out r e h x = rw (e, poll) (rw (h) (rw (x) refl))

  poll-next :
      (c : ℤ) (t : String) (out : Outcome) (r : Router)
      → message u ≡ some (c, t)
      → handle c t u.now u.nonce b.router ≡ (out, r)
      → raises out ≡ false
      → poll (u ∷ us) handled b ≡ poll us (handled + replies out) (answered c out r (advance u b))
  unfolding poll
  poll-next c t out r e h x = rw (e, poll) (rw (h) (rw (x) refl))

-- What a batch that is read from the bot `b` leaves.
abbrev AllRead : List Update → ℕ → Bot → Option ℕ × Bot → Type 0
AllRead us handled b (count, b') =
    (b.offset ≤ b'.offset)
    × ((n : ℕ) → count ≡ some n → All (Read b') us × (n + length b.sent ≡ handled + length b'.sent))

AllRead-cons :
    (u : Update) (us : List Update) (handled more total : ℕ) (b after : Bot) (res : Option ℕ × Bot)
    → after.offset ≡ max b.offset (u.update_id + 1)
    → length after.sent ≡ length b.sent + more
    → total ≡ handled + more
    → AllRead us total after res
    → AllRead (u ∷ us) handled b res
AllRead-cons u us handled more total b after res o s t (p, q) = (
  omega (arith, o, p),
  λ n h. let (a, c) = q n h in ((omega (arith, o, p), a), omega (arith, s, t, c)),
)

poll-AllRead : (us : List Update) (handled : ℕ) (b : Bot) → AllRead us handled b (poll us handled b)
unfolding poll
poll-AllRead [] handled b = (omega arith, λ n e. (tt, ground (arith, e)))
poll-AllRead (u ∷ us) handled b = elim (Option-cases (message u)) [
  | inl e ↦ subst⁻¹ (AllRead (u ∷ us) handled b) (poll-skip u us handled b e) (
      AllRead-cons u us handled 0 handled b (advance u b) (poll us handled (advance u b)) refl
        (omega arith) (omega arith) (poll-AllRead us handled (advance u b)))
  | inr ((c, t), e) ↦
      let (out, r) = handle c t u.now u.nonce b.router in
      let after = answered c out r (advance u b) in
      elim (Bool-cases (raises out)) [
        | inl x ↦
            subst⁻¹ (AllRead (u ∷ us) handled b) (poll-raise u us handled b c t out r e refl x)
              (omega (arith, answered-offset c out r (advance u b)), λ n h. cc (h))
        | inr x ↦
            subst⁻¹ (AllRead (u ∷ us) handled b) (poll-next u us handled b c t out r e refl x) (
              AllRead-cons u us handled (replies out) (handled + replies out) b after
                (poll us (handled + replies out) after) (answered-offset c out r (advance u b))
                (answered-sent c out r (advance u b)) refl
                (poll-AllRead us (handled + replies out) after))
      ]
]

-- If a batch ends without an exception then every update of it lies before the new offset, so that it
-- is not fetched again, the offset has not moved back, and the number that is returned counts the
-- replies that were sent.
pub poll_lem :
    (us : List Update) (b b' : Bot) (n : ℕ)
    → poll_once us b ≡ (some n, b')
    → All (Read b') us × (b.offset ≤ b'.offset) × (n + length b.sent ≡ length b'.sent)
poll_lem us b b' n e =
    let (p, q) = rw (e) at (poll-AllRead us 0 b) in
    let (a, c) = q n refl in (a, p, omega (arith, c))

handle_blank :
    (c : ℤ) (t : String) (now : ℕ) (nonce : String) (r : Router)
    → is_allowed c r.allowed ≡ true
    → words (strip_text t) ≡ []
    → handle c t now nonce r ≡ (index_error, r)
unfolding handle run_command command_of is_dangerous words_from
handle_blank c t now nonce r a w = rw (a, w) refl

-- A message of white space alone from a chat on the whitelist raises, whatever the bot holds: the
-- batch stops there, and the updates behind it are neither handled nor counted.
pub blank_raises :
    (u : Update) (us : List Update) (handled : ℕ) (b : Bot) (c : ℤ) (t : String)
    → message u ≡ some (c, t)
    → is_allowed c b.router.allowed ≡ true
    → words (strip_text t) ≡ []
    → poll (u ∷ us) handled b ≡ (none, advance u b)
blank_raises u us handled b c t m a w =
    poll-raise u us handled b c t index_error b.router m
      (handle_blank c t u.now u.nonce b.router a w) refl
