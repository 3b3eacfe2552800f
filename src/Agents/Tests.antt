-- ===== src/Agents/Tests.antt =====
-- Proposals, digests and actions at small inputs.
use aimos.Prelude.{
  ℕ, String, ◌≡◌, refl, Bool, true, false, Option, none, some, List, [], ◌∷◌, ◌++◌, ap,
  if◌then◌else◌,
}
use aimos.Prelude.Int.{ℤ, pos}
use aimos.Prelude.Floats.{fixed}
use aimos.Agents.{
  same_parts, approved, Proposal, Files, config_mutation_forbidden, value_error, os_error, approve,
  reject, propose_reliability_change, Severity, warn, info, digest, execute,
}
use aimos.Prelude.Text.{has_letter}
use aimos.Agents.Staging.{Review, approves, rejects, review_all, NoSlashes, review_all_keeps}

abbrev sample : String → Proposal ℤ
sample id = propose_reliability_change (λ _. "") (λ _. "0.40") (λ _. "") "whale" (pos 40000) id

abbrev yaml : Proposal ℤ → String
yaml p = p.title

abbrev live_files : Files
live_files path = if same_parts path ("config" ∷ "weights.yaml" ∷ []) then some "live" else none

abbrev reviews : List (Review × Proposal ℤ)
reviews =
    (approves true true ("proposals" ∷ []), sample "p1")
    ∷ (rejects "too early", sample "p1")
    ∷ (approves true true ("config" ∷ []), sample "p1")
    ∷ []

reviews-NoSlashes : NoSlashes yaml reviews
unfolding has_letter propose_reliability_change
reviews-NoSlashes = (refl, (refl, (refl, tt)))

review_all_keeps_example :
    review_all yaml reviews live_files ("config" ∷ "weights.yaml" ∷ [])
    ≡ live_files ("config" ∷ "weights.yaml" ∷ [])
review_all_keeps_example =
    review_all_keeps yaml reviews live_files ("config" ∷ "weights.yaml" ∷ []) reviews-NoSlashes refl

forbidden_test :
    (approve yaml true true ("etc" ∷ "config" ∷ []) (sample "p1") live_files).0
    ≡ config_mutation_forbidden
unfolding approve
forbidden_test = refl

-- The guard reads the directory alone: an id with dots leads out of it.
escape_test :
    (approve yaml true true ("proposals" ∷ []) (sample "../config/weights") live_files).2
      ("proposals" ∷ ".." ∷ "config" ∷ "weights.staged.yaml" ∷ [])
    ≡ some "lower whale reliability"
unfolding approve propose_reliability_change
escape_test = refl

-- The status says approved, but nothing was staged.
unwritten_test :
    let (o, p, files) = approve yaml true false ("proposals" ∷ []) (sample "p1") live_files in
    (o ≡ os_error) × (p.status ≡ approved) × (files ("proposals" ∷ "p1.staged.yaml" ∷ []) ≡ none)
unfolding approve
unwritten_test = (refl, refl, refl)

reject_test : (reject "  " (sample "p1")).0 ≡ value_error
unfolding reject aimos.Prelude.Text.strip_text
reject_test = refl

digest_test :
    let of_heat : ℤ → Severity = λ heat.
      (digest (λ _. "") (λ _. "") (λ _. "") {P = ℤ} [] heat (("a", pos 90000) ∷ [])).severity in
    (of_heat (pos 180000) ≡ warn) × (of_heat (pos 179999) ≡ info)
unfolding digest aimos.Prelude.Int.◌/ℤ◌
digest_test = (refl, refl)

execute_test :
    ((execute "restart_connector").allowed ≡ true) × ((execute "withdraw").allowed ≡ false)
unfolding execute
execute_test = (refl, refl)
