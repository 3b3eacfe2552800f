-- ===== src/Agents.antt =====
-- The agents and their proposals: aimos/agents/proposals.py, analyst.py, sentinel.py and ops.py. A path
-- is the list of its parts, and the files are a function of it. The YAML text and the formatted
-- numbers are parameters.
pub mod Staging
mod Tests
use Prim.Native.Char.{code}
use Prim.Native.String.{◌++◌ as concat}
use aimos.Prelude.{
  ℕ, String, Bool, true, false, not, Option, none, some, List, [], ◌∷◌, ◌++◌, map, str_eq, any_of,
  keep, length, ◌==◌, if◌then◌else◌,
}
use aimos.Prelude.Dict.{Dict}
use aimos.Prelude.Text.{strip_text}
use aimos.Prelude.Floats.{Floats, ◌<?◌, ◌≤?◌, nat}

pub data ProposalStatus : Type 0 where
  open_status approved rejected applied : ProposalStatus

-- A value of a proposal's diff
pub data Value (F : Type 0) : Type 0 where
  nothing : Value F
  number : F → Value F
  names : List String → Value F

pub record Change (F : Type 0) : Type 0 where
  pub current : Value F
  pub proposed : Value F

pub record Proposal (F : Type 0) : Type 0 where
  pub proposal_id : String
  pub title : String
  pub rationale : String
  pub config_diff : Dict (Change F)
  pub hypothesis_id : Option String
  pub evidence_runs : List String
  pub status : ProposalStatus

abbrev pub Parts : Type 0
Parts = List String

-- What a path holds, if it is a file.
abbrev pub Files : Type 0
Files = Parts → Option String

pub data Outcome : Type 0 where
  returned : Outcome
  config_mutation_forbidden value_error os_error : Outcome

-- `str.split("/")` without the empty parts and the single dots, as `pathlib` reads a path; the first
-- argument is the part that is being read.
unfoldable pub parts_from : String → String → Parts
parts_from word String.[] = if str_eq word "" then [] else if str_eq word "." then [] else word ∷ []
parts_from word (String.◌∷◌ c s) =
    let ended = parts_from String.[] s in
    let longer = parts_from (concat word (String.◌∷◌ c String.[])) s in
    if code c == b'/'
    then (if str_eq word "" then ended else if str_eq word "." then ended else word ∷ ended)
    else longer

-- `d / name`: an absolute name replaces the directory.
unfoldable pub joined : Parts → String → Parts
unfolding parts_from
joined d String.[] = d
joined d (String.◌∷◌ c s) =
    let parts = parts_from String.[] (String.◌∷◌ c s) in
    if code c == b'/' then "/" ∷ parts else d ++ parts

abbrev pub same_parts : Parts → Parts → Bool
same_parts [] [] = true
same_parts (x ∷ xs) (y ∷ ys) = let rest = same_parts xs ys in if str_eq x y then rest else false
same_parts _ _ = false

-- `"config" in d.parts`
abbrev pub has_config : Parts → Bool
has_config d = any_of (λ p. str_eq p "config") d

module _ {F : Type 0} (to_yaml : Proposal F → String) where
  unfoldable pub staged_path : Proposal F → Parts → Parts
  unfolding joined
  staged_path p d = joined d (concat p.proposal_id ".staged.yaml")

  -- `approve`; the flags are false when `mkdir` or `write_text` raises `OSError`. The status is set
  -- between the two.
  unfoldable pub approve : Bool → Bool → Parts → Proposal F → Files → Outcome × Proposal F × Files
  unfolding staged_path
  approve makes writes d p files =
      let done = record p { status = approved } in
      let path = staged_path p d in
      if has_config d
      then (config_mutation_forbidden, p, files)
      else if not makes
      then (os_error, p, files)
      else if not writes
      then (os_error, done, files)
      else (returned, done, λ q. if same_parts q path then some (to_yaml done) else files q)

module _ {F : Type 0} where
  unfoldable pub reject : String → Proposal F → Outcome × Proposal F
  reject reason p =
      if str_eq (strip_text reason) ""
      then (value_error, p)
      else (returned, record p { status = rejected })

-- The analyst: `percent` is `f"{x:.0%}"`, `fixed2` is `f"{x:.2f}"` and `decimal` is `str`.
module _ {F : Type 0} (percent fixed2 : F → String) (decimal : ℕ → String) where
  unfoldable pub propose_disable_in_regime :
      String → String → F → ℕ → String → Option String → Proposal F
  propose_disable_in_regime plugin regime hit_rate n_trades proposal_id hypothesis_id = record {
    proposal_id = proposal_id;
    title = concat "disable " (concat plugin (concat " in " regime));
    rationale = concat plugin (
        concat " hit-rate in " (
          concat regime (
            concat " is " (
              concat (percent hit_rate) (concat " over " (concat (decimal n_trades) " trades"))))));
    config_diff =
        (
          concat "plugins." (concat plugin ".disabled_regimes"),
          record { current = names []; proposed = names (regime ∷ []) },
        )
        ∷ [];
    hypothesis_id = hypothesis_id;
    evidence_runs = [];
    status = open_status;
  }

  unfoldable pub propose_reliability_change : String → F → String → Proposal F
  propose_reliability_change sensor decayed_to proposal_id = record {
    proposal_id = proposal_id;
    title = concat "lower " (concat sensor " reliability");
    rationale = concat sensor (concat " reliability decayed to " (fixed2 decayed_to));
    config_diff =
        (
          concat "weights.reliability." sensor,
          record { current = nothing; proposed = number decayed_to },
        )
        ∷ [];
    hypothesis_id = none;
    evidence_runs = [];
    status = open_status;
  }

-- The sentinel
pub data Severity : Type 0 where
  info warn escalate : Severity

pub record RiskDigest (F : Type 0) : Type 0 where
  pub severity : Severity
  pub narrative : String
  pub heat_pct : F
  pub high_corr : Dict F

-- `fixed1` is `f"{x:.1f}"`, and `listed` the text of a sorted list.
module _ {F : Type 0} ⦃fl : Floats F⦄ (fixed1 : F → String) (listed : List String → String)
    (decimal : ℕ → String) where
  unfoldable pub digest : {P : Type 0} → List P → F → Dict F → RiskDigest F
  digest positions heat_pct correlations =
      let hi_corr = keep (λ x. fl.decimal 9 1 <? x.1) correlations in
      let note =
        concat (decimal (length positions))
          (concat " positions, heat " (concat (fixed1 heat_pct) "%")) in
      elim hi_corr [
        | [] ↦ record {
          severity = if fl.decimal 18 1 ≤? heat_pct then warn else info;
          narrative = note;
          heat_pct = heat_pct;
          high_corr = [];
        }
        | x ∷ xs ↦ record {
          severity = escalate;
          narrative = concat note (
              concat "; correlated >0.9: "
                (concat (listed (map (λ y. y.0) (x ∷ xs))) " — effective heat elevated"));
          heat_pct = heat_pct;
          high_corr = x ∷ xs;
        }
      ]

-- The ops agent
abbrev pub ops_actions : List String
ops_actions =
    "restart_connector" ∷ "switch_feed_secondary" ∷ "rerun_discovery" ∷ "open_incident_thread" ∷ []

pub record OpsResult : Type 0 where
  pub action : String
  pub allowed : Bool
  pub outcome : String

unfoldable pub execute : String → OpsResult
execute action =
    if any_of (λ a. str_eq a action) ops_actions
    then record { action = action; allowed = true; outcome = concat "executed " action }
    else record {
      action = action;
      allowed = false;
      outcome = "escalated to human (not in allowlist)";
    }
