-- ===== src/Auth/Allowed.antt =====
-- The tracker answers by the history, although it forgets what is old.
use mathlib.Core.List.{append_assoc}
use aimos.Prelude.{
  ℕ, ◌≤◌, ◌≡◌, refl, sym, ap, ◌∙◌, subst, String, true, not, List, [], ◌∷◌, ◌++◌, arith,
  count_if-append, str_eq, All, All-append, Bool-cases, inl, inr, length, ltb, or_else,
}
use aimos.Prelude.Dict.{lookup}
use aimos.Auth.{
  FailedLoginTracker, failures_of, is_old, prune, allow, Call, fails, succeeds, clears, asks, step,
  run,
}
use aimos.Auth.History.{
  time_of, InOrder, failed_since, recent_failures, step_one, step-failures_of, step_keeps,
}
use aimos.Auth.Pruning.{
  NoLater, Rising, All-weaken, old_later, Rising-append, prune-Parts, prune-All, prune-Rising,
  old_count, prune_count,
}

-- The time of the last call, or the time given.
abbrev pub last_time : ℕ → List Call → ℕ
last_time last [] = last
last_time last (c ∷ cs) = last_time (time_of c) cs

module _ (window : ℕ) where
  -- What is held is what the history has, without old failures at its front.
  record Holds (last : ℕ) (history held : List ℕ) : Type 0 where
    dropped : List ℕ
    split : history ≡ dropped ++ held
    old : All (λ time. is_old window last time ≡ true) dropped
    rising : Rising held
    late : NoLater last held

  later :
      (last now : ℕ) (history held : List ℕ)
      → last ≤ now
      → Holds last history held
      → Holds now history held
  later last now history held h k = record {
    dropped = k.dropped;
    split = k.split;
    old = All-weaken (λ time e. old_later window last now time h e) k.dropped k.old;
    rising = k.rising;
    late = All-weaken (λ time e. omega (arith, e, h)) held k.late;
  }

  failed :
      (now : ℕ) (history held : List ℕ)
      → Holds now history held
      → Holds now (history ++ now ∷ []) (held ++ now ∷ [])
  failed now history held k = record {
    dropped = k.dropped;
    split = ap (λ h. h ++ now ∷ []) k.split ∙ append_assoc k.dropped held (now ∷ []);
    old = k.old;
    rising = Rising-append held now k.rising k.late;
    late = All-append (λ time. time ≤ now) held (now ∷ []) k.late (omega arith, tt);
  }

  pruned :
      (now : ℕ) (history held : List ℕ)
      → Holds now history held
      → Holds now history (prune window now held)
  pruned now history held k =
      let parts = prune-Parts window now held in
      record {
        dropped = k.dropped ++ parts.front;
        split =
            k.split
            ∙ ap (λ h. k.dropped ++ h) parts.back
            ∙ sym (append_assoc k.dropped parts.front (prune window now held));
        old =
            All-append (λ time. is_old window now time ≡ true) k.dropped parts.front k.old
              parts.old;
        rising = prune-Rising window now held k.rising;
        late = prune-All window (λ time. time ≤ now) now held k.late;
      }

  nothing : (last : ℕ) → Holds last [] []
  nothing last = record { dropped = []; split = refl; old = tt; rising = tt; late = tt }

  -- What one call does to a history.
  abbrev history_one : String → Call → List ℕ → List ℕ
  history_one key c times = failed_since key times (c ∷ [])

  step-Holds :
      (key : String) (last : ℕ) (c : Call) (history held : List ℕ)
      → last ≤ time_of c
      → Holds last history held
      → Holds (time_of c) (history_one key c history) (step_one window key c held)
  step-Holds key last (fails k now) history held h g = elim (Bool-cases (str_eq k key)) [
    | inl e ↦ rw (e) (failed now history held (later last now history held h g))
    | inr e ↦ rw (e) (later last now history held h g)
  ]
  step-Holds key last (succeeds k now) history held h g = elim (Bool-cases (str_eq k key)) [
    | inl e ↦ rw (e) (nothing now)
    | inr e ↦ rw (e) (later last now history held h g)
  ]
  step-Holds key last (clears k now) history held h g = elim (Bool-cases (str_eq k key)) [
    | inl e ↦ rw (e) (nothing now)
    | inr e ↦ rw (e) (later last now history held h g)
  ]
  step-Holds key last (asks k now) history held h g = elim (Bool-cases (str_eq k key)) [
    | inl e ↦ rw (e) (pruned now history held (later last now history held h g))
    | inr e ↦ rw (e) (later last now history held h g)
  ]

  failed_since_cons :
      (key : String) (c : Call) (history : List ℕ) (cs : List Call)
      → failed_since key history (c ∷ cs) ≡ failed_since key (history_one key c history) cs
  failed_since_cons key (fails k now) history cs = refl
  failed_since_cons key (succeeds k now) history cs = refl
  failed_since_cons key (clears k now) history cs = refl
  failed_since_cons key (asks k now) history cs = refl

  run-Holds :
      (key : String) (last : ℕ) (cs : List Call) (history : List ℕ) (t : FailedLoginTracker)
      → t.window ≡ window
      → InOrder last cs
      → Holds last history (failures_of key t)
      → Holds (last_time last cs) (failed_since key history cs) (failures_of key (run cs t))
  unfolding run
  run-Holds key last [] history t w o h = h
  run-Holds key last (c ∷ cs) history t w o h =
      let same : step_one window key c (failures_of key t) ≡ failures_of key (step c t) =
        ap (λ v. step_one v key c (failures_of key t)) (sym w) ∙ sym (step-failures_of key c t) in
      let next =
        run-Holds key (time_of c) cs (history_one key c history) (step c t) ((step_keeps c t).0 ∙ w)
          o.1
          (subst (Holds (time_of c) (history_one key c history)) same
            (step-Holds key last c history (failures_of key t) o.0 h)) in
      subst (λ times. Holds (last_time (time_of c) cs) times (failures_of key (run cs (step c t))))
        (sym (failed_since_cons key c history cs)) next

  -- What `allow` answers after the calls.
  allow_after :
      (key : String) (last now : ℕ) (history : List ℕ) (t : FailedLoginTracker)
      → t.window ≡ window
      → last ≤ now
      → Holds last history (failures_of key t)
      → (allow key now t).0 ≡ ltb (recent_failures window now history) t.threshold
  unfolding allow
  allow_after key last now history t w o h =
      let here = later last now history (failures_of key t) o h in
      let counted : recent_failures window now history
          ≡ length (prune window now (failures_of key t)) =
        ap (recent_failures window now) here.split
        ∙ count_if-append (λ time. not (is_old window now time)) here.dropped (failures_of key t)
        ∙ rw
            (
              old_count window now here.dropped here.old,
              prune_count window now (failures_of key t) here.rising,
            )
            (omega arith) in
      rw (w, counted) refl

nothing_held : (k : String) → or_else (lookup {V = List ℕ} k []) [] ≡ []
unfolding lookup
nothing_held k = refl

run_keeps :
    (cs : List Call) (t : FailedLoginTracker)
    → ((run cs t).window ≡ t.window) × ((run cs t).threshold ≡ t.threshold)
unfolding run
run_keeps [] t = (refl, refl)
run_keeps (c ∷ cs) t = (
  (run_keeps cs (step c t)).0 ∙ (step_keeps c t).0,
  (run_keeps cs (step c t)).1 ∙ (step_keeps c t).1,
)

-- After any calls in the order of their times, a login is allowed exactly when the failures of its key
-- since the last success or clearing that the window still holds are fewer than the threshold: the
-- tracker refines the whole history, though it drops what is old.
pub allow_lem :
    (cs : List Call)
    → (t : FailedLoginTracker) → (key : String) → (now : ℕ) → t.events ≡ []
    → InOrder 0 cs
    → last_time 0 cs ≤ now
    → (allow key now (run cs t)).0
      ≡ ltb (recent_failures t.window now (failed_since key [] cs)) t.threshold
allow_lem cs t key now new o late =
    let kept = run_keeps cs t in
    let start : failures_of key t ≡ [] =
      ap (λ d. or_else (lookup key d) []) new ∙ nothing_held key in
    let held =
      run-Holds t.window key 0 cs [] t refl o
        (subst (Holds t.window 0 []) (sym start) (nothing t.window 0)) in
    allow_after t.window key (last_time 0 cs) now (failed_since key [] cs) (run cs t) kept.0 late
      held
    ∙ ap (λ n. ltb (recent_failures t.window now (failed_since key [] cs)) n) kept.1
