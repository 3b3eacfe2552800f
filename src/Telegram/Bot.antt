-- ===== src/Telegram/Bot.antt =====
-- The command router and the poller: aimos/telegram/bot.py. The texts of the replies are constructors
-- with what is filled into them; the transport's batch of updates and the analyst are arguments.
use aimos.Prelude.{
  ℕ, String, Bool, true, false, ◌||◌, not, Option, none, some, List, [], ◌∷◌, str_eq, if◌then◌else◌,
}
use aimos.Prelude.Int.{ℤ}
use aimos.Prelude.Text.{codes, lower, strip_text, words}
use aimos.Journal.{Journal, decision_count}
use aimos.Runtime.Features.{Params, SetResult, set}
use aimos.Runtime.Pipeline.{Orchestrator, pause, resume, halt}
use aimos.Telegram.Security.{NonceStore, is_allowed, create, confirm, is_dangerous}

pub data Analysis : Type 0 where
  analysed : String → Analysis
  analyst_error : String → Analysis

pub record Assistant : Type 0 where
  pub answer : List String → Analysis
  pub report : String → Analysis

pub record OpenPosition : Type 0 where
  pub symbol : String
  pub side : String
  pub qty : String

pub record Router : Type 0 where
  pub allowed : List ℤ
  pub nonces : NonceStore
  pub orch : Option Orchestrator
  pub journal : Option Journal
  pub positions : List OpenPosition
  pub features : Option Params
  pub assistant : Option Assistant

pub data Reply : Type 0 where
  help confirm_usage confirmation_failed killswitch_engaged no_journal : Reply
  no_open_positions no_analyst ask_usage no_feature_control : Reply
  confirm_request : String → String → Reply
  unknown_command : String → Reply
  flatten_requested executed : String → Reply
  status : ℕ → Bool → Reply
  open_positions : List OpenPosition → Reply
  decisions : ℕ → Reply
  paused resumed : Option String → Reply
  analysis : Analysis → Reply
  feature_list : Params → Reply
  feature_usage : Bool → Reply
  feature_set : SetResult → Reply

-- `index_error` is the exception of `"".split()[0]`.
pub data Outcome : Type 0 where
  silent : Outcome
  index_error : Outcome
  reply : Reply → Outcome

abbrev pub on_orch : (Orchestrator → Orchestrator) → Router → Router
on_orch f r = record r { orch = elim r.orch [ none ↦ none | some o ↦ some (f o) ] }

abbrev pub first : List String → Option String
first [] = none
first (a ∷ _) = some a

-- `_set_feature`
unfoldable pub set_feature : List String → Bool → Router → Outcome × Router
set_feature args value r = elim r.features [
  | none ↦ (reply no_feature_control, r)
  | some p ↦ elim args [
    | [] ↦ (reply (feature_usage value), r)
    | name ∷ _ ↦
        let (res, q) = set (codes name) value p in
        (reply (feature_set res), record r { features = some q })
  ]
]

-- The branches of `_execute_dangerous`, for the command's first word in lower case.
unfoldable pub execute : String → List String → String → Router → Outcome × Router
execute cmd args command r =
    if str_eq cmd "/killswitch"
    then (reply killswitch_engaged, on_orch halt r)
    else if str_eq cmd "/flatten"
    then elim args [
      | [] ↦ (reply (executed command), r)
      | sym ∷ _ ↦ (reply (flatten_requested sym), on_orch (pause (some sym)) r)
    ]
    else if str_eq cmd "/enable" || str_eq cmd "/disable"
    then set_feature args (str_eq cmd "/enable") r
    else (reply (executed command), r)

-- `_execute_dangerous`
unfoldable pub execute_dangerous : String → Router → Outcome × Router
execute_dangerous command r = elim (words command) [
  | [] ↦ (index_error, r)
  | word ∷ args ↦ execute (lower word) args command r
]

-- `_confirm`
unfoldable pub confirm_command : ℤ → List String → ℕ → Router → Outcome × Router
confirm_command chat_id [] now r = (reply confirm_usage, r)
confirm_command chat_id (nonce ∷ _) now r =
    let (command, nonces) = confirm chat_id nonce now r.nonces in
    let r' = record r { nonces = nonces } in
    elim command [ none ↦ (reply confirmation_failed, r') | some c ↦ execute_dangerous c r' ]

-- `_status`, `_positions`, `_pnl`, `_ask`, `_report` and `_features`
unfoldable pub status_reply : Router → Reply
status_reply r = elim r.journal [
  | none ↦ no_journal
  | some j ↦ status (decision_count j) (elim r.orch [ none ↦ false | some o ↦ o.halted ])
]

unfoldable pub positions_reply : Router → Reply
positions_reply r = elim r.positions [ [] ↦ no_open_positions | p ∷ ps ↦ open_positions (p ∷ ps) ]

unfoldable pub pnl_reply : Router → Reply
pnl_reply r = elim r.journal [ none ↦ no_journal | some j ↦ decisions (decision_count j) ]

unfoldable pub ask_reply : List String → Router → Reply
ask_reply args r = elim r.assistant [
  | none ↦ no_analyst
  | some a ↦ elim args [ [] ↦ ask_usage | word ∷ more ↦ analysis (a.answer (word ∷ more)) ]
]

unfoldable pub report_reply : List String → Router → Reply
report_reply args r = elim r.assistant [
  | none ↦ no_analyst
  | some a ↦ analysis (a.report (elim (first args) [ none ↦ "24h" | some tf ↦ tf ]))
]

unfoldable pub features_reply : Router → Reply
features_reply r = elim r.features [ none ↦ no_feature_control | some p ↦ feature_list p ]

-- The table of handlers that need no confirmation.
unfoldable pub handler : String → List String → Router → Outcome × Router
handler cmd args r =
    if str_eq cmd "/pause"
    then (reply (paused (first args)), on_orch (pause (first args)) r)
    else if str_eq cmd "/resume"
    then (reply (resumed (first args)), on_orch (resume (first args)) r)
    else (
      reply (
          if str_eq cmd "/help"
          then help
          else if str_eq cmd "/status"
          then status_reply r
          else if str_eq cmd "/positions"
          then positions_reply r
          else if str_eq cmd "/pnl"
          then pnl_reply r
          else if str_eq cmd "/features"
          then features_reply r
          else if str_eq cmd "/ask"
          then ask_reply args r
          else if str_eq cmd "/report"
          then report_reply args r
          else unknown_command cmd),
      r,
    )

-- What `handle` does with the text's first word in lower case and the others.
unfoldable pub run_command :
    ℤ → String → String → List String → ℕ → String → Router → Outcome × Router
run_command chat_id text cmd args now nonce r =
    if str_eq cmd "/confirm" then confirm_command chat_id args now r else elim (is_dangerous cmd) [
      | none ↦ (index_error, r)
      | some true ↦ (
        reply (confirm_request text nonce),
        record r { nonces = create nonce chat_id text now r.nonces },
      )
      | some false ↦ handler cmd args r
    ]

-- `parts[0].lower() if parts else ""`
unfoldable pub command_of : List String → String
command_of [] = ""
command_of (word ∷ _) = lower word

-- `parts[1:]`
unfoldable pub args_of : List String → List String
args_of [] = []
args_of (_ ∷ args) = args

-- `handle`: at the time `now`; `nonce` is what `token_hex` would draw.
unfoldable pub handle : ℤ → String → ℕ → String → Router → Outcome × Router
handle chat_id raw now nonce r =
    if not (is_allowed chat_id r.allowed)
    then (silent, r)
    else let text = strip_text raw in
      let parts = words text in
      run_command chat_id text (command_of parts) (args_of parts) now nonce r
