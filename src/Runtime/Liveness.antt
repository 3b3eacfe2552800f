-- ===== src/Runtime/Liveness.antt =====
-- A process that stops is restarted.
use aimos.Prelude.{
  ℕ, zero, suc, ◌+◌, ◌*◌, ◌≤◌, ◌<◌, ◌≡◌, refl, inl, inr, Bool, true, String, Option, List, [], ◌∷◌,
  ◌++◌, if◌then◌else◌, arith, All, Bool-cases, length, leb,
}
use aimos.Prelude.Int.{ℤ}
use aimos.Runtime.Watchdog.{
  Watchdog, Notice, alerted, restarted, Reading, is_stale, check, check_all,
}

module _ (parse : String → Option ℤ) (stale_after : ℤ) (max : ℕ) (has_alert : Bool) where
  abbrev pub dog : ℕ → Watchdog
  dog missed = record {
    stale_after = stale_after;
    max_missed = suc max;
    has_restart = true;
    has_alert = has_alert;
    missed = missed;
  }

  -- Each reading finds the heartbeat stale.
  abbrev pub AllStale : List Reading → Type 0
  AllStale = All (λ r. is_stale parse r (dog 0) ≡ true)

  stale_any :
      (r : Reading) (m : ℕ) → is_stale parse r (dog 0) ≡ true → is_stale parse r (dog m) ≡ true
  unfolding is_stale
  stale_any r m h = h

  missed_all : (missed : ℕ) → missed < suc max → leb (suc max) (suc missed) ≡ true → missed ≡ max
  missed_all missed h full = ground (arith, h, full)

  -- The calls of so many restarts: the alert, where there is one to call, then the restart.
  abbrev pub restart_calls : ℕ → List Notice
  restart_calls zero = []
  restart_calls (suc n) =
      ((if has_alert then alerted (suc max) ∷ [] else []) ++ restarted ∷ []) ++ restart_calls n

  check_all_counts :
      (rs : List Reading) (missed : ℕ)
      → missed < suc max
      → AllStale rs
      → let (n, calls, w) = check_all parse rs (dog missed) in
        (m : ℕ) × (w ≡ dog m)
        × (m < suc max)
        × (n * suc max + m ≡ missed + length rs)
        × (calls ≡ restart_calls n)
  unfolding check_all check
  check_all_counts [] missed h _ = (missed, refl, h, omega arith, refl)
  check_all_counts (r ∷ rs) missed h stale = elim (Bool-cases (leb (suc max) (suc missed))) [
    | inl full ↦
        let (m, end, below, count, calls) = check_all_counts rs 0 (omega arith) stale.1 in
        let at_max = missed_all missed h full in
        rw (stale_any r missed stale.0, full)
          (m, end, below, omega (arith, count, at_max), rw (at_max, calls) refl)
    | inr room ↦
        let (m, end, below, count, calls) =
          check_all_counts rs (suc missed) (ground (arith, room)) stale.1 in
        rw (stale_any r missed stale.0, room) (m, end, below, omega (arith, count), calls)
  ]

  positive : (n m : ℕ) → m < suc max → suc max ≤ n * suc max + m → 1 ≤ n
  positive zero m below long = absurd (omega (arith, below, long))
  positive (suc n) m below long = omega arith

  -- A watchdog with a restart callback that has missed fewer beats than `max_missed` and then finds the
  -- heartbeat stale that many times in a row or more restarts at least once; the restarts times
  -- `max_missed`, with the beats counted since the last one, are all the beats missed, so that it
  -- restarts on every `max_missed`-th; and the calls it makes are, for each restart, one of the alert
  -- callback with `max_missed`, if there is one, and then one of the restart callback, and no others.
  pub check_all_restarts :
      (rs : List Reading) (missed : ℕ)
      → missed < suc max
      → AllStale rs
      → suc max ≤ length rs
      → let (restarts, calls, w) = check_all parse rs (dog missed) in
        (1 ≤ restarts)
        × (w.missed < suc max)
        × (restarts * suc max + w.missed ≡ missed + length rs)
        × (calls ≡ restart_calls restarts)
  check_all_restarts rs missed h stale long =
      let (m, end, below, count, calls) = check_all_counts rs missed h stale in
      rw (end) (positive _ m below (rw (count) (omega (arith, long))), below, count, calls)
