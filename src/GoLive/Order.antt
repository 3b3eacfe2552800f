-- ===== src/GoLive/Order.antt =====
-- Gates are signed off in order, and removing one removes those after it.
use aimos.Prelude.{
  String, ◌≡◌, Bool, true, false, Option, none, some, List, [], ◌∷◌, arith, inl, inr, Option-cases,
  not, ◌&&◌, ◌||◌, ◌≢◌, Bool-cases,
}
use aimos.Prelude.Floats.{Floats}
use aimos.Prelude.Dict.{Dict}
use aimos.GoLive.Gates.{
  Gate, backtest_validated, paper_4wk, testnet_1wk, security_signoff, canary_10pct, scaling,
  gate_ids, index_of, drop, same_gate, find_gate, State, empty_state, passed, Disk, load, save,
  Ladder, open_ladder,
}
use aimos.GoLive.Steps.{
  Card, done, has_valid_run_card, clear_gates, commit, set_marker, unmark, mark_gate, mark,
  previous, set_gate,
}

-- Whoever has passed a gate has passed the one before it.
pub record InOrder (s : State) : Type 0 where
  pub paper : passed s paper_4wk ≡ true → passed s backtest_validated ≡ true
  pub testnet : passed s testnet_1wk ≡ true → passed s paper_4wk ≡ true
  pub security : passed s security_signoff ≡ true → passed s testnet_1wk ≡ true
  pub canary : passed s canary_10pct ≡ true → passed s security_signoff ≡ true
  pub scale_in : passed s scaling ≡ true → passed s canary_10pct ≡ true

pub InOrder-empty : InOrder empty_state
unfolding passed
InOrder-empty = ground arith

clear-InOrder :
    (g : Gate) (s : State)
    → InOrder s
    → InOrder (clear_gates (drop (index_of g gate_ids) gate_ids) s)
unfolding passed
clear-InOrder backtest_validated s v = ground arith
clear-InOrder _ s v = ground arith

-- The gates before `g` allow it to be signed off.
abbrev pub earlier_passed : State → Gate → Bool
earlier_passed s g = elim (previous g) [ none ↦ true | some p ↦ passed s p ]

set_gate-InOrder :
    (g : Gate) (note now : String) (s : State)
    → InOrder s
    → earlier_passed s g ≡ true
    → InOrder (set_gate g (some (record { passed = true; note = note; marked_at = now })) s)
unfolding passed
set_gate-InOrder backtest_validated note now s v h = ground arith
set_gate-InOrder _ note now s v h = ground arith

load-save : (works : Bool) (s : State) (d : Disk) → load (save works s d) ≡ s
unfolding load save
load-save works s d = ground arith

-- The ladder is in order, and so is what a restart would load.
pub record IsSafe (l : Ladder) : Type 0 where
  pub now : InOrder l.state
  pub saved : InOrder (load l.disk)

commit-IsSafe : (works : Bool) (s : State) (l : Ladder) → InOrder s → IsSafe (commit works s l)
commit-IsSafe works s l v = record { now = v; saved = rw (load-save works s l.disk) v }

abbrev pub signed : Gate → String → String → State → State
signed g note now s = set_gate g (some (record { passed = true; note = note; marked_at = now })) s

markers-InOrder : (s : State) (m : Dict String) → InOrder s → InOrder (record s { markers = m })
unfolding passed
markers-InOrder s m v = ground arith

-- An operation of the running program, or its end and a new start from the disk.
pub data Op (F : Type 0) : Type 0 where
  signs : Bool → String → String → String → Option (List (Card F)) → Op F
  unsigns : Bool → String → Op F
  marks : Bool → String → Option String → String → Op F
  restarts : Op F

module _ {F : Type 0} ⦃fl : Floats F⦄ where
  -- When `mark` signs a gate off.
  abbrev pub ready : State → Gate → Option (List (Card F)) → Bool
  ready s g cards =
      earlier_passed s g && (not (same_gate g backtest_validated) || has_valid_run_card cards)

  -- `mark` of a gate signs it off and saves exactly when the gate before it is passed and, for the
  -- first gate, a run card with p below 0.05 is there. Otherwise it changes nothing.
  pub mark_gate_lem :
      (works : Bool) (g : Gate) (note now : String) (cards : Option (List (Card F))) (l : Ladder)
      → (ready l.state g cards ≡ true
          → mark_gate works g note now cards l
            ≡ (done g, commit works (signed g note now l.state) l))
        × (ready l.state g cards ≡ false
            → ((mark_gate works g note now cards l).1 ≡ l)
              × ((mark_gate works g note now cards l).0 ≢ done g))
  unfolding mark_gate
  mark_gate_lem works backtest_validated note now cards l =
      (λ h. ground arith, λ h. (ground arith, ground arith))
  mark_gate_lem works _ note now cards l = (λ h. ground arith, λ h. (ground arith, ground arith))

  earlier_passed-ready :
      (s : State) (g : Gate) (cards : Option (List (Card F)))
      → ready s g cards ≡ true
      → earlier_passed s g ≡ true
  earlier_passed-ready s g cards h = ground arith

  mark_gate-IsSafe :
      (works : Bool) (g : Gate) (note now : String) (cards : Option (List (Card F))) (l : Ladder)
      → IsSafe l
      → IsSafe (mark_gate works g note now cards l).1
  mark_gate-IsSafe works g note now cards l v = elim (Bool-cases (ready l.state g cards)) [
    | inl h ↦ rw ((mark_gate_lem works g note now cards l).0 h) (
        commit-IsSafe works (signed g note now l.state) l
          (set_gate-InOrder g note now l.state v.now (earlier_passed-ready l.state g cards h)))
    | inr h ↦ rw ((mark_gate_lem works g note now cards l).1 h).0 v
  ]

  abbrev pub step : Op F → Ladder → Ladder
  step (signs works id note now cards) l = (mark works id note now cards l).1
  step (unsigns works id) l = (unmark works id l).1
  step (marks works key value now) l = set_marker works key value now l
  step restarts l = open_ladder l.disk

  step-IsSafe : (op : Op F) (l : Ladder) → IsSafe l → IsSafe (step op l)
  unfolding mark unmark set_marker open_ladder
  step-IsSafe (signs works id note now cards) l v = elim (Option-cases (find_gate id gate_ids)) [
    | inl e ↦ rw (e, step) v
    | inr (g, e) ↦ rw (e, step) (mark_gate-IsSafe works g note now cards l v)
  ]
  step-IsSafe (unsigns works id) l v = elim (Option-cases (find_gate id gate_ids)) [
    | inl e ↦ rw (e, step) v
    | inr (g, e) ↦ rw (e, step) (commit-IsSafe works _ l (clear-InOrder g l.state v.now))
  ]
  step-IsSafe (marks works key value now) l v =
      commit-IsSafe works _ l (markers-InOrder l.state _ v.now)
  step-IsSafe restarts l v = record { now = v.saved; saved = v.saved }

  abbrev pub run : List (Op F) → Ladder → Ladder
  run [] l = l
  run (op ∷ ops) l = run ops (step op l)

  -- Whatever is signed off, removed or set, by whatever ids, with renames that fail or not, and
  -- wherever the program is restarted: a ladder that began in order, in memory and on the disk, has
  -- passed no gate without the one before it.
  pub run-IsSafe : (ops : List (Op F)) (l : Ladder) → IsSafe l → IsSafe (run ops l)
  run-IsSafe [] l v = v
  run-IsSafe (op ∷ ops) l v = run-IsSafe ops (step op l) (step-IsSafe op l v)
