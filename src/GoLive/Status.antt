-- ===== src/GoLive/Status.antt =====
-- Progress, status and the boot guard: aimos/runtime/golive.py.
use aimos.Prelude.{
  ℕ, String, Bool, not, Option, none, some, List, [], ◌∷◌, str_eq, ◌==◌, length, count_if,
  if◌then◌else◌, map,
}
use aimos.Prelude.Int.{ℤ, ◌-ℤ◌}
use aimos.Prelude.Dict.{lookup}
use aimos.Prelude.Text.{lower_is}
use aimos.Prelude.Floats.{Floats, ◌⊗◌, ◌⊘◌, nat, fmax, fmin}
use aimos.GoLive.Gates.{
  Gate, paper_4wk, testnet_1wk, canary_10pct, gate_ids, title, auto_days_of, State, passed,
}

abbrev pub marker_key : Gate → String
marker_key testnet_1wk = "testnet_started"
marker_key canary_10pct = "canary_started"
marker_key _ = ""

pub record GateOut (F : Type 0) : Type 0 where
  pub gate : Gate
  pub is_passed : Bool
  pub progress : Option F
  pub gate_note : String

pub record Status (F : Type 0) : Type 0 where
  pub gates : List (GateOut F)
  pub count : ℕ
  pub percent : F
  pub is_live_allowed : Bool
  pub next : Option String

-- `next((g["title"] for g in gates_out if g["status"] != "passed"), None)`
unfoldable pub first_pending : {F : Type 0} → List (GateOut F) → Option String
first_pending [] = none
first_pending (g ∷ gs) = if g.is_passed then first_pending gs else some (title g.gate)

-- A boot goes on, or is refused with the count of passed gates and the title of the next one.
pub data Boot : Type 0 where
  boots : Boot
  live_not_allowed : ℕ → Option String → Boot

module _ (F : Type 0) ⦃fl : Floats F⦄ (iso : String → Option ℤ) where
  abbrev pub days_between : ℤ → ℤ → F
  days_between a b = fmax (fl.total_seconds (b -ℤ a) ⊘ nat 86400) (nat 0)

  -- `_paper_days`: the first and the last time stamp of the decisions, where there is a journal
  -- with decisions. `iso` is `datetime.fromisoformat`.
  unfoldable pub paper_days : Option (String × String) → F
  paper_days none = nat 0
  paper_days (some (first, last)) = elim (iso first) [
    | none ↦ nat 0
    | some a ↦ elim (iso last) [ none ↦ nat 0 | some b ↦ days_between a b ]
  ]

  -- `_auto_days` for the other gates
  unfoldable pub marker_days : ℤ → Option String → F
  marker_days now none = nat 0
  marker_days now (some started) =
      if str_eq started ""
      then nat 0
      else elim (iso started) [ none ↦ nat 0 | some t0 ↦ days_between t0 now ]

  unfoldable pub auto_days : ℤ → Option (String × String) → State → Gate → F
  unfolding paper_days marker_days
  auto_days now decisions s paper_4wk = paper_days decisions
  auto_days now decisions s g = marker_days now (lookup (marker_key g) s.markers)

  unfoldable pub gate_out : ℤ → Option (String × String) → State → Gate → GateOut F
  unfolding auto_days passed
  gate_out now decisions s g = record {
    gate = g;
    is_passed = passed s g;
    progress = elim (auto_days_of g) [
      | none ↦ none
      | some n ↦ some (fmin (auto_days now decisions s g ⊘ nat n) (nat 1))
    ];
    gate_note = elim (s.gates g) [ none ↦ "" | some m ↦ m.note ];
  }

  -- `status`; the texts of `kind`, `detail` and `hint` are left out.
  unfoldable pub status : ℤ → Option (String × String) → State → Status F
  unfolding gate_out passed first_pending
  status now decisions s =
      let gates_out = map (gate_out now decisions s) gate_ids in
      let n = count_if (λ (g : GateOut F). g.is_passed) gates_out in
      let total = length gate_ids in
      record {
        gates = gates_out;
        count = n;
        percent = fl.round_to (nat 100 ⊗ nat n ⊘ nat total) 1;
        is_live_allowed = n == total;
        next = first_pending gates_out;
      }

  unfoldable pub live_allowed : ℤ → Option (String × String) → State → Bool
  unfolding status
  live_allowed now decisions s = (status now decisions s).is_live_allowed

  -- `guard_live_boot`, where `mode` is the text of the mode and the ladder is the one that is given
  -- or read from the disk.
  unfoldable pub guard_live_boot : String → ℤ → Option (String × String) → State → Boot
  unfolding live_allowed lower_is
  guard_live_boot mode now decisions s =
      if not (lower_is mode "live")
      then boots
      else if not (live_allowed now decisions s)
      then (let st = status now decisions s in live_not_allowed st.count st.next)
      else boots
