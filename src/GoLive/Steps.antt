-- ===== src/GoLive/Steps.antt =====
-- The operations of `GoLiveLadder` that change its state: aimos/runtime/golive.py.
use aimos.Prelude.{
  ◌-◌, String, Bool, true, false, not, Option, none, some, List, [], ◌∷◌, ◌&&◌, str_eq, ltb,
  get_elem?, any_of, if◌then◌else◌,
}
use aimos.Prelude.Dict.{insert}
use aimos.Prelude.Floats.{Floats, ◌<?◌}
use aimos.GoLive.Gates.{
  Gate, backtest_validated, gate_ids, same_gate, index_of, drop, find_gate, Mark, State, passed,
  save, Ladder,
}

-- A run card: YAML that does not parse, or its `permutation_p`, which may be missing or no number.
pub data Card (F : Type 0) : Type 0 where
  malformed no_p_value not_a_number : Card F
  p_value : F → Card F

pub data Outcome : Type 0 where
  done : Gate → Outcome
  unknown_gate : Outcome
  out_of_order : Gate → Outcome
  no_run_card : Outcome

abbrev pub set_gate : Gate → Option Mark → State → State
set_gate g m s = record s { gates = λ h. if same_gate h g then m else s.gates h }

abbrev pub clear_gates : List Gate → State → State
clear_gates [] s = s
clear_gates (g ∷ gs) s = clear_gates gs (set_gate g none s)

-- `gate_ids[idx - 1]` where `idx > 0`
abbrev pub previous : Gate → Option Gate
previous g = let i = index_of g gate_ids in if ltb 0 i then get_elem? gate_ids (i - 1) else none

-- The save that ends an operation.
abbrev pub commit : Bool → State → Ladder → Ladder
commit works s l = record { state = s; disk = save works s l.disk }

-- `set_marker`; an empty value is replaced by the time.
unfoldable pub set_marker : Bool → String → Option String → String → Ladder → Ladder
set_marker works key value now l =
    let v : String = elim value [ none ↦ now | some t ↦ if str_eq t "" then now else t ] in
    commit works (record l.state { markers = insert key v l.state.markers }) l

-- `unmark`
unfoldable pub unmark : Bool → String → Ladder → Outcome × Ladder
unfolding find_gate
unmark works id l = elim (find_gate id gate_ids) [
  | none ↦ (unknown_gate, l)
  | some g ↦ (done g, commit works (clear_gates (drop (index_of g gate_ids) gate_ids) l.state) l)
]

module _ {F : Type 0} ⦃fl : Floats F⦄ where
  -- one round of the loop of `_has_valid_run_card`
  abbrev pub card_passes : Card F → Bool
  card_passes (p_value p) = p <? fl.decimal 5 2
  card_passes _ = false

  -- `none` is a directory that does not exist.
  unfoldable pub has_valid_run_card : Option (List (Card F)) → Bool
  has_valid_run_card none = false
  has_valid_run_card (some cards) = any_of card_passes cards

  -- `mark` for a gate that exists
  unfoldable pub mark_gate :
      Bool → Gate → String → String → Option (List (Card F)) → Ladder → Outcome × Ladder
  unfolding passed
  mark_gate works g note now cards l =
      let go : Outcome × Ladder =
        if same_gate g backtest_validated && not (has_valid_run_card cards)
        then (no_run_card, l)
        else (
          done g,
          commit works
              (set_gate g (some (record { passed = true; note = note; marked_at = now })) l.state)
              l,
        ) in
      elim (previous g) [
        | none ↦ go
        | some p ↦ if passed l.state p then go else (out_of_order p, l)
      ]

  unfoldable pub mark :
      Bool → String → String → String → Option (List (Card F)) → Ladder → Outcome × Ladder
  unfolding find_gate
  mark works id note now cards l = elim (find_gate id gate_ids) [
    | none ↦ (unknown_gate, l)
    | some g ↦ mark_gate works g note now cards l
  ]
