-- ===== src/GoLive/Gates.antt =====
-- `GATES`, the saved state and its file: aimos/runtime/golive.py and aimos/runtime/atomic_io.py.
-- The system may stop the process after any step of a save.
use aimos.Prelude.{
  ℕ, zero, suc, String, Bool, true, false, Option, none, some, List, [], ◌∷◌, str_eq, if◌then◌else◌,
}
use aimos.Prelude.Dict.{Dict}

-- The ids of `GATES`.
pub data Gate : Type 0 where
  backtest_validated paper_4wk testnet_1wk security_signoff canary_10pct scaling : Gate

abbrev pub gate_ids : List Gate
gate_ids =
    backtest_validated ∷ paper_4wk ∷ testnet_1wk ∷ security_signoff ∷ canary_10pct ∷ scaling ∷ []

abbrev pub gate_id : Gate → String
gate_id backtest_validated = "backtest_validated"
gate_id paper_4wk = "paper_4wk"
gate_id testnet_1wk = "testnet_1wk"
gate_id security_signoff = "security_signoff"
gate_id canary_10pct = "canary_10pct"
gate_id scaling = "scaling"

abbrev pub title : Gate → String
title backtest_validated = "Validated 12-month backtest"
title paper_4wk = "4 weeks paper trading"
title testnet_1wk = "1 week on exchange testnet"
title security_signoff = "Security signoff + restore drill"
title canary_10pct = "10% canary"
title scaling = "Scale in 25% steps"

abbrev pub auto_days_of : Gate → Option ℕ
auto_days_of paper_4wk = some 28
auto_days_of testnet_1wk = some 7
auto_days_of canary_10pct = some 14
auto_days_of _ = none

abbrev pub same_gate : Gate → Gate → Bool
same_gate backtest_validated backtest_validated = true
same_gate paper_4wk paper_4wk = true
same_gate testnet_1wk testnet_1wk = true
same_gate security_signoff security_signoff = true
same_gate canary_10pct canary_10pct = true
same_gate scaling scaling = true
same_gate _ _ = false

-- `gate_ids.index(g)`
abbrev pub index_of : Gate → List Gate → ℕ
index_of g [] = 0
index_of g (h ∷ hs) = let rest = index_of g hs in if same_gate h g then 0 else suc rest

abbrev pub drop : ℕ → List Gate → List Gate
drop zero gs = gs
drop (suc n) [] = []
drop (suc n) (g ∷ gs) = drop n gs

-- The gate that an id names, if it names one.
unfoldable pub find_gate : String → List Gate → Option Gate
find_gate id [] = none
find_gate id (g ∷ gs) = if str_eq (gate_id g) id then some g else find_gate id gs

-- `{"status": "passed", "note": …, "marked_at": …}`; another status is a gate that is not passed.
pub record Mark : Type 0 where
  pub passed : Bool
  pub note : String
  pub marked_at : String

-- The dict that is saved; keys that are no gate are never read.
pub record State : Type 0 where
  pub gates : Gate → Option Mark
  pub markers : Dict String

abbrev pub empty_state : State
empty_state = record { gates = λ _. none; markers = [] }

-- `_passed`
unfoldable pub passed : State → Gate → Bool
passed s g = elim (s.gates g) [ none ↦ false | some m ↦ m.passed ]

-- What a file holds: nothing, text that is no JSON, or a state.
pub data File : Type 0 where
  absent torn : File
  good : State → File

pub record Disk : Type 0 where
  pub primary : File
  pub bak : File

-- `_load`
unfoldable pub load : Disk → State
load d = elim d.primary [ good s ↦ s | _ ↦ elim d.bak [ good s ↦ s | _ ↦ empty_state ] ]

-- `self.path.replace(… .bak)`, when it does not raise
unfoldable pub keep_bak : Bool → Disk → Disk
keep_bak works d = elim d.primary [
  | absent ↦ d
  | f ↦ if works then record { primary = absent; bak = f } else d
]

-- The last step of `atomic_write_json`, `os.replace(tmp, path)`: what it does before touches only
-- the temporary file.
unfoldable pub atomic_write : State → Disk → Disk
atomic_write s d = record d { primary = good s }

-- `_save`; `works` is false when the rename raises `OSError`, which is passed over.
unfoldable pub save : Bool → State → Disk → Disk
unfolding keep_bak atomic_write
save works s d = atomic_write s (keep_bak works d)

pub record Ladder : Type 0 where
  pub state : State
  pub disk : Disk

-- `__init__` and a restart
unfoldable pub open_ladder : Disk → Ladder
open_ladder d = record { state = load d; disk = d }
