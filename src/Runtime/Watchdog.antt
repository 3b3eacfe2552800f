-- ===== src/Runtime/Watchdog.antt =====
-- The watchdog: aimos/runtime/watchdog.py. Reading the time in the heartbeat file, which is a library's
-- `fromisoformat`, is an argument; the file is there with a text, or it is not.
use aimos.Prelude.{
  ℕ, suc, Bool, true, false, String, Option, none, some, List, [], ◌∷◌, ◌++◌, leb, if◌then◌else◌,
}
use aimos.Prelude.Int.{ℤ, ◌-ℤ◌, ltb_ℤ}

-- The calls that a restart makes.
pub data Notice : Type 0 where
  alerted : ℕ → Notice
  restarted : Notice

pub record Watchdog : Type 0 where
  pub stale_after : ℤ
  pub max_missed : ℕ
  pub has_restart : Bool
  pub has_alert : Bool
  pub missed : ℕ

-- What one check finds: the heartbeat file and the time.
pub record Reading : Type 0 where
  pub heartbeat : Option String
  pub now : ℤ

module _ (parse : String → Option ℤ) where
  unfoldable pub last_beat : Option String → Option ℤ
  last_beat none = none
  last_beat (some text) = parse text

  unfoldable pub is_stale : Reading → Watchdog → Bool
  unfolding last_beat
  is_stale r w = elim (last_beat r.heartbeat) [
    | none ↦ true
    | some last ↦ ltb_ℤ w.stale_after (r.now -ℤ last)
  ]

  abbrev notices : Watchdog → List Notice
  notices w =
      (if w.has_alert then alerted w.missed ∷ [] else [])
      ++ (if w.has_restart then restarted ∷ [] else [])

  -- `check`: whether it restarts, the calls, and the watchdog as it is then.
  unfoldable pub check : Reading → Watchdog → Bool × List Notice × Watchdog
  check r w =
      let missed = record w { missed = suc w.missed } in
      if is_stale r w
      then if leb w.max_missed missed.missed
        then (true, notices missed, record w { missed = 0 })
        else (false, [], missed)
      else (false, [], record w { missed = 0 })

  -- A series of checks: how many restart, the calls of all, and the watchdog as it is then.
  unfoldable pub check_all : List Reading → Watchdog → ℕ × List Notice × Watchdog
  check_all [] w = (0, [], w)
  check_all (r ∷ rs) w =
      let (restarts, calls, w') = check r w in
      let (n, more, end) = check_all rs w' in ((if restarts then suc n else n), calls ++ more, end)
