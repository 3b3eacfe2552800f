-- ===== src/Telegram/Safe.antt =====
-- What no series of messages can do, and what may be pending.
use aimos.Prelude.{
  ℕ, String, refl, sym, inl, inr, Bool, Option, none, some, List, [], ◌∷◌, arith, str_eq,
  Option-cases, List-cases,
}
use aimos.Prelude.Int.{ℤ}
use aimos.Prelude.Text.{codes, lower, strip_text, words}
use aimos.Runtime.Features.{set_lem}
use aimos.Runtime.Pipeline.{Orchestrator, pause, resume, halt}
use aimos.Telegram.Security.{NonceStore, create, confirm}
use aimos.Telegram.Bot.{
  Router, command_of, args_of, first, set_feature, execute, execute_dangerous, confirm_command,
  handler, run_command, handle,
}
use aimos.Telegram.Kept.{
  Kept, KeepsHalt, KeepsHalt-refl, KeepsLocked-refl, Kept-refl, Kept-trans, on_orch-Kept,
}

nonces-Kept : (s : NonceStore) (r : Router) → Kept r (record r { nonces = s })
nonces-Kept s r = record {
  allowed = refl;
  halt = KeepsHalt-refl r.orch;
  locked = KeepsLocked-refl r.features;
}

halt_keeps : (o : Orchestrator) → KeepsHalt (some o) (some (halt o))
unfolding halt
halt_keeps o = (λ _. refl, λ _. refl)

pause_keeps : (s : Option String) (o : Orchestrator) → KeepsHalt (some o) (some (pause s o))
unfolding pause
pause_keeps none o = (λ h. h, λ h. h)
pause_keeps (some s) o = (λ h. h, λ h. h)

resume_keeps : (s : Option String) (o : Orchestrator) → KeepsHalt (some o) (some (resume s o))
unfolding resume
resume_keeps none o = (λ h. h, λ h. h)
resume_keeps (some s) o = (λ h. h, λ h. h)

set_feature-Kept :
    (args : List String) (value : Bool) (r : Router) → Kept r (set_feature args value r).1
unfolding set_feature
set_feature-Kept args value r = elim (Option-cases r.features) [
  | inl e ↦
      rw (e, set_feature)
        (record { allowed = refl; halt = KeepsHalt-refl r.orch; locked = rw (e) tt })
  | inr (p, e) ↦ elim (List-cases args) [
    | inl n ↦
        rw (e, n, set_feature)
          (record {
            allowed = refl;
            halt = KeepsHalt-refl r.orch;
            locked = rw (e) (KeepsLocked-refl (some p));
          })
    | inr (name, more, n) ↦
        rw (e, n, set_feature)
          (record {
            allowed = refl;
            halt = KeepsHalt-refl r.orch;
            locked = (set_lem (codes name) value p).0;
          })
  ]
]

execute-Kept :
    (cmd : String) (args : List String) (command : String) (r : Router)
    → Kept r (execute cmd args command r).1
unfolding execute
execute-Kept cmd [] command r = ground (
  arith,
  Kept-refl r,
  on_orch-Kept halt halt_keeps r,
  set_feature-Kept [] (str_eq cmd "/enable") r,
)
execute-Kept cmd (sym ∷ args) command r = ground (
  arith,
  Kept-refl r,
  on_orch-Kept halt halt_keeps r,
  on_orch-Kept (pause (some sym)) (pause_keeps (some sym)) r,
  set_feature-Kept (sym ∷ args) (str_eq cmd "/enable") r,
)

execute_dangerous-Kept : (command : String) (r : Router) → Kept r (execute_dangerous command r).1
unfolding execute_dangerous
execute_dangerous-Kept command r = elim (List-cases (words command)) [
  | inl e ↦ rw (e, execute_dangerous) (Kept-refl r)
  | inr (word, args, e) ↦ rw (e, execute_dangerous) (execute-Kept (lower word) args command r)
]

confirm_command-Kept :
    (chat_id : ℤ) (args : List String) (now : ℕ) (r : Router)
    → Kept r (confirm_command chat_id args now r).1
unfolding confirm_command
confirm_command-Kept chat_id [] now r = Kept-refl r
confirm_command-Kept chat_id (nonce ∷ more) now r =
    let s = confirm chat_id nonce now r.nonces in
    elim (Option-cases s.0) [
      | inl e ↦ rw (e, confirm_command) (nonces-Kept s.1 r)
      | inr (c, e) ↦
          rw (e, confirm_command)
            (Kept-trans r (record r { nonces = s.1 }) _ (nonces-Kept s.1 r)
              (execute_dangerous-Kept c (record r { nonces = s.1 })))
    ]

handler-Kept : (cmd : String) (args : List String) (r : Router) → Kept r (handler cmd args r).1
unfolding handler
handler-Kept cmd args r = ground (
  arith,
  Kept-refl r,
  on_orch-Kept (pause (first args)) (pause_keeps (first args)) r,
  on_orch-Kept (resume (first args)) (resume_keeps (first args)) r,
)

run_command-Kept :
    (chat_id : ℤ) (text cmd : String) (args : List String) (now : ℕ) (nonce : String) (r : Router)
    → Kept r (run_command chat_id text cmd args now nonce r).1
unfolding run_command
run_command-Kept chat_id text cmd args now nonce r = ground (
  arith,
  confirm_command-Kept chat_id args now r,
  handler-Kept cmd args r,
  Kept-refl r,
  nonces-Kept (create nonce chat_id text now r.nonces) r,
)

handle-Kept :
    (chat_id : ℤ) (raw : String) (now : ℕ) (nonce : String) (r : Router)
    → Kept r (handle chat_id raw now nonce r).1
unfolding handle
handle-Kept chat_id raw now nonce r =
    let parts = words (strip_text raw) in
    ground (
      arith,
      Kept-refl r,
      run_command-Kept chat_id (strip_text raw) (command_of parts) (args_of parts) now nonce r,
    )

pub record Message : Type 0 where
  pub chat_id : ℤ
  pub raw : String
  pub now : ℕ
  pub nonce : String

abbrev pub handle_all : List Message → Router → Router
handle_all [] r = r
handle_all (m ∷ ms) r = handle_all ms (handle m.chat_id m.raw m.now m.nonce r).1

-- No series of messages, whoever sends them and whatever is confirmed, lifts a halt, in memory or in
-- the file, moves a setting behind the go-live ladder or lets another chat in.
pub handle_all-Kept : (ms : List Message) (r : Router) → Kept r (handle_all ms r)
handle_all-Kept [] r = Kept-refl r
handle_all-Kept (m ∷ ms) r =
    let q = (handle m.chat_id m.raw m.now m.nonce r).1 in
    Kept-trans r q (handle_all ms q) (handle-Kept m.chat_id m.raw m.now m.nonce r)
      (handle_all-Kept ms q)
