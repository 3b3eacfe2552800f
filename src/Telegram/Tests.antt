-- ===== src/Telegram/Tests.antt =====
-- The theorems of the Telegram bot at small inputs.
use aimos.Prelude.Text.{lower}
use aimos.Telegram.Security.{is_dangerous}
use aimos.Telegram.Bot.{handler}
use aimos.Telegram.Poller.{poll_once}
use aimos.Telegram.Polling.{Read, poll_lem}
use aimos.Prelude.{
  All, length, ◌≤◌, ◌+◌, String, ◌≡◌, refl, ◌⊎◌, true, false, none, some, List, [], ◌∷◌, str_eq,
  if◌then◌else◌,
}
use aimos.Prelude.Int.{pos, negsuc}
use aimos.Prelude.Dict.{lookup}
use aimos.Prelude.Text.{words_from, strip_text}
use aimos.Runtime.Pipeline.{start}
use aimos.Telegram.Security.{Pending, NonceStore, is_allowed, confirm}
use aimos.Telegram.Bot.{
  Router, reply, killswitch_engaged, executed, handle, run_command, confirm_command,
  execute_dangerous, execute, command_of, args_of,
}
use aimos.Telegram.Poller.{Update, Bot, message, poll, advance}
use aimos.Telegram.Confirm.{
  Confirmable, confirm_lem, Untouched, Entitled, command_word, handle-Entitled,
}
use aimos.Telegram.Kept.{Kept}
use aimos.Telegram.Safe.{Message, handle_all, handle_all-Kept}
use aimos.Telegram.Nonces.{AllDangerous, pending_is_AllDangerous}
use aimos.Telegram.Polling.{blank_raises}

abbrev store : NonceStore
store = record {
  ttl = 60000000;
  pending = ("ab12", record { chat_id = negsuc 4; command = "/killswitch"; expires_at = 100 }) ∷ [];
}

abbrev router : Router
router = record {
  allowed = negsuc 4 ∷ [];
  nonces = store;
  orch = some (start false);
  journal = none;
  positions = [];
  features = none;
  assistant = none;
}

confirm_lem_test :
    let (answer, s') = confirm (negsuc 4) "ab12" 50 store in
    ((p : Pending) × Confirmable (negsuc 4) "ab12" 50 store p
      × (answer ≡ some p.command)
      × ((k : String)
          → lookup k s'.pending ≡ (if str_eq "ab12" k then none else lookup k store.pending)))
    ⊎ (((p : Pending) → Confirmable (negsuc 4) "ab12" 50 store p → ⊥)
        × (answer ≡ none)
        × ((k : String)
            → (lookup k s'.pending ≡ lookup k store.pending) ⊎ (str_eq "ab12" k ≡ true)))
confirm_lem_test = confirm_lem (negsuc 4) "ab12" 50 store

handle-Entitled_example :
    Untouched router (handle (negsuc 4) "/Confirm ab12" 50 "n" router).1
    ⊎ ((is_allowed (negsuc 4) router.allowed ≡ true)
        × Entitled (negsuc 4) (command_word "/Confirm ab12") 50 router)
handle-Entitled_example = handle-Entitled (negsuc 4) "/Confirm ab12" 50 "n" router

-- The confirmed kill switch halts.
halts_test : (handle (negsuc 4) "/Confirm ab12" 50 "n" router).0 ≡ reply killswitch_engaged
unfolding handle run_command confirm_command confirm execute_dangerous execute is_allowed command_of
    args_of words_from strip_text lower lookup
halts_test = refl

-- An argument-less flatten is confirmed and does nothing.
flatten_test : (execute_dangerous "/flatten" router).0 ≡ reply (executed "/flatten")
unfolding execute_dangerous execute words_from lower
flatten_test = refl

abbrev chat : List Message
chat =
    record { chat_id = negsuc 4; raw = " /KillSwitch"; now = 10; nonce = "cd34" }
    ∷ record { chat_id = negsuc 4; raw = "/confirm cd34"; now = 20; nonce = "x" }
    ∷ record { chat_id = pos 1; raw = "/resume"; now = 30; nonce = "y" }
    ∷ []

handle_all-Kept_example : Kept router (handle_all chat router)
handle_all-Kept_example = handle_all-Kept chat router

abbrev fresh : Router
fresh = record router { nonces = record store { pending = [] } }

fresh-AllDangerous : AllDangerous fresh.nonces
unfolding lookup
fresh-AllDangerous k p e = cc (e)

pending_is_AllDangerous_test : AllDangerous (handle_all chat fresh).nonces
pending_is_AllDangerous_test = pending_is_AllDangerous chat fresh fresh-AllDangerous

abbrev update : Update
update = record {
  update_id = 7;
  chat_id = some (negsuc 4);
  text = some "/help";
  now = 50;
  nonce = "n";
}

abbrev blank : Update
blank = record { update_id = 8; chat_id = some (negsuc 4); text = some "  "; now = 50; nonce = "n" }

abbrev bot : Bot
bot = record { offset = 3; router = router; sent = [] }

one_reply : poll_once (update ∷ []) bot ≡ (some 1, (poll_once (update ∷ []) bot).1)
unfolding poll message handle run_command is_allowed command_of words_from strip_text lower
    is_dangerous handler
one_reply = refl

poll_lem_test :
    All (Read (poll_once (update ∷ []) bot).1) (update ∷ [])
    × (bot.offset ≤ (poll_once (update ∷ []) bot).1.offset)
    × (1 + length bot.sent ≡ length (poll_once (update ∷ []) bot).1.sent)
poll_lem_test = poll_lem (update ∷ []) bot (poll_once (update ∷ []) bot).1 1 one_reply

blank_test : poll (blank ∷ update ∷ []) 0 bot ≡ (none, advance blank bot)
blank_test =
    blank_raises blank (update ∷ []) 0 bot (negsuc 4) "  " (unfold message in refl)
      (unfold is_allowed in refl) (unfold words_from in unfold strip_text in refl)
