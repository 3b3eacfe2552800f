-- ===== src/Auth.antt =====
-- The tracker of failed logins: FailedLoginTracker of aimos/auth/security.py. Times are microseconds, and
-- a deque is the list of its items, the oldest first. `record` is `log_attempt` here.
pub mod History
pub mod Pruning
pub mod Allowed
pub mod Token
pub mod Session
mod Tests
use aimos.Prelude.{
  ℕ, ◌+◌, ◌≡◌, String, Bool, true, false, not, ◌&&◌, List, [], ◌∷◌, ◌++◌, length, ltb, leb, or_else,
  if◌then◌else◌,
}
use aimos.Prelude.Dict.{Dict, lookup, insert, erase}

pub record FailedLoginTracker : Type 0 where
  pub threshold : ℕ
  pub window : ℕ
  pub has_alert : Bool
  pub events : Dict (List ℕ)

abbrev pub failures_of : String → FailedLoginTracker → List ℕ
failures_of key t = or_else (lookup key t.events) []

-- `window[0] < now - window_seconds`
abbrev pub is_old : ℕ → ℕ → ℕ → Bool
is_old window now time = ltb (time + window) now

-- The loop of `allow`, which drops old failures from the front.
unfoldable pub prune : ℕ → ℕ → List ℕ → List ℕ
prune window now [] = []
prune window now (time ∷ times) =
    let rest = prune window now times in if is_old window now time then rest else time ∷ times

unfoldable pub allow : String → ℕ → FailedLoginTracker → Bool × FailedLoginTracker
unfolding prune
allow key now t =
    let kept = prune t.window now (failures_of key t) in
    (ltb (length kept) t.threshold, record t { events = insert key kept t.events })

-- `record`: whether it alerts, and the tracker then.
unfoldable pub log_attempt : String → Bool → ℕ → FailedLoginTracker → Bool × FailedLoginTracker
log_attempt key true now t = (false, record t { events = erase key t.events })
log_attempt key false now t =
    let kept = failures_of key t ++ now ∷ [] in
    (leb t.threshold (length kept) && t.has_alert, record t { events = insert key kept t.events })

unfoldable pub clear : String → FailedLoginTracker → FailedLoginTracker
clear key t = record t { events = erase key t.events }

-- The calls that change a tracker, with the times at which they happen.
pub data Call : Type 0 where
  fails succeeds clears asks : String → ℕ → Call

unfoldable pub step : Call → FailedLoginTracker → FailedLoginTracker
unfolding allow log_attempt clear
step (fails key now) t = (log_attempt key false now t).1
step (succeeds key now) t = (log_attempt key true now t).1
step (clears key now) t = clear key t
step (asks key now) t = (allow key now t).1

unfoldable pub run : List Call → FailedLoginTracker → FailedLoginTracker
unfolding step
run [] t = t
run (c ∷ cs) t = run cs (step c t)
