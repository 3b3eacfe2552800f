-- ===== src/Auth/History.antt =====
-- What the tracker should answer, read off the whole history of calls.
use aimos.Prelude.{
  ℕ, ◌≤◌, ◌≡◌, refl, String, not, List, [], ◌∷◌, ◌++◌, arith, count_if, str_eq, eq_iff,
  if◌then◌else◌,
}
use aimos.Prelude.Dict.{lookup-insert, lookup-erase}
use aimos.Auth.{
  FailedLoginTracker, failures_of, is_old, prune, Call, fails, succeeds, clears, asks, step,
}

abbrev pub time_of : Call → ℕ
time_of (fails _ now) = now
time_of (succeeds _ now) = now
time_of (clears _ now) = now
time_of (asks _ now) = now

-- The calls happen in the order of their times, from a time on.
abbrev pub InOrder : ℕ → List Call → Type 0
InOrder last [] = Unit
InOrder last (c ∷ cs) = (last ≤ time_of c) × InOrder (time_of c) cs

-- All failures of a key since it last succeeded or was cleared.
abbrev pub failed_since : String → List ℕ → List Call → List ℕ
failed_since key times [] = times
failed_since key times (fails k now ∷ cs) =
    failed_since key (if str_eq k key then times ++ now ∷ [] else times) cs
failed_since key times (succeeds k now ∷ cs) =
    failed_since key (if str_eq k key then [] else times) cs
failed_since key times (clears k now ∷ cs) =
    failed_since key (if str_eq k key then [] else times) cs
failed_since key times (asks k now ∷ cs) = failed_since key times cs

-- How many of them the window still holds.
abbrev pub recent_failures : ℕ → ℕ → List ℕ → ℕ
recent_failures window now times = count_if (λ time. not (is_old window now time)) times

-- What one call does to the failures that are held for a key.
abbrev pub step_one : ℕ → String → Call → List ℕ → List ℕ
step_one window key (fails k now) held = if str_eq k key then held ++ now ∷ [] else held
step_one window key (succeeds k now) held = if str_eq k key then [] else held
step_one window key (clears k now) held = if str_eq k key then [] else held
step_one window key (asks k now) held = if str_eq k key then prune window now held else held

pub step-failures_of :
    (key : String) (c : Call) (t : FailedLoginTracker)
    → failures_of key (step c t) ≡ step_one t.window key c (failures_of key t)
unfolding step
step-failures_of key (fails k now) t =
    ground (arith, eq_iff k key, lookup-insert k key (failures_of k t ++ now ∷ []) t.events)
step-failures_of key (succeeds k now) t = ground (arith, eq_iff k key, lookup-erase k key t.events)
step-failures_of key (clears k now) t = ground (arith, eq_iff k key, lookup-erase k key t.events)
step-failures_of key (asks k now) t =
    ground
      (arith, eq_iff k key, lookup-insert k key (prune t.window now (failures_of k t)) t.events)

pub step_keeps :
    (c : Call) (t : FailedLoginTracker)
    → ((step c t).window ≡ t.window) × ((step c t).threshold ≡ t.threshold)
unfolding step
step_keeps (fails k now) t = (refl, refl)
step_keeps (succeeds k now) t = (refl, refl)
step_keeps (clears k now) t = (refl, refl)
step_keeps (asks k now) t = (refl, refl)
