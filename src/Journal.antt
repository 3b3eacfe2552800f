-- ===== src/Journal.antt =====
-- The decision journal and its hash chain: aimos/journal/journal.py and aimos/journal/verify.py.
-- A table is the list of its rows by `seq`; SQL statements are the list operations that they stand
-- for. SHA-256 and `json.dumps` are the parameter `Backend`. The chain walk is a `while` loop that
-- need not end when hashes repeat, so it takes fuel, and `none` says that the fuel ran out.
pub mod Walk
pub mod Chain
pub mod Writes
pub mod Tamper
pub mod Sql
pub mod Mirror
mod Tests
use Prim.Native.String.{◌++◌ as concat}
use aimos.Prelude.{
  ℕ, zero, suc, ◌+◌, String, Bool, true, false, Option, none, some, List, [], ◌∷◌, ◌++◌, ◌||◌, not,
  str_eq, length, if◌then◌else◌, or_else,
}
use aimos.Prelude.Dict.{Dict, insert}

-- What the journal takes from `json` and `hashlib`.
pub record Backend (V : Type 0) : Type 0 where
  pub text : String → V
  pub dumps : Dict V → String
  pub sha256 : String → String

abbrev pub genesis : String
genesis = "0000000000000000000000000000000000000000000000000000000000000000"

-- `_TABLES`, in its order.
pub data Table : Type 0 where
  decisions outcomes evidence_snapshots agent_events management : Table

abbrev pub same_table : Table → Table → Bool
same_table decisions decisions = true
same_table outcomes outcomes = true
same_table evidence_snapshots evidence_snapshots = true
same_table agent_events agent_events = true
same_table management management = true
same_table _ _ = false

pub record Row : Type 0 where
  pub decision_id : Option String
  pub symbol : Option String
  pub timestamp : String
  pub payload : String
  pub prev_hash : String
  pub row_hash : String

pub record Journal : Type 0 where
  pub rows : Table → List Row
  pub tip : String

-- `_init_schema` on a new file
abbrev pub init_schema : Journal
init_schema = record { rows = λ _. []; tip = genesis }

-- The SELECTs of `all_rows_in_order`, one table after the other.
unfoldable pub all_rows : (Table → List Row) → List Row
all_rows rows =
    rows decisions
    ++ (rows outcomes ++ (rows evidence_snapshots ++ (rows agent_events ++ rows management)))

-- `{r["prev_hash"]: r for r in rows}.get(h)`: of equal keys the last one stays.
unfoldable pub by_prev : String → List Row → Option Row
by_prev h [] = none
by_prev h (r ∷ rs) =
    let later = by_prev h rs in
    elim later [ some x ↦ some x | none ↦ if str_eq r.prev_hash h then some r else none ]

-- `_chain_order` from the hash `prev` on
unfoldable pub chain_from : ℕ → String → List Row → Option (List Row)
chain_from zero prev rows = none
chain_from (suc fuel) prev rows = elim (by_prev prev rows) [
  | none ↦ some []
  | some r ↦ elim (chain_from fuel r.row_hash rows) [ none ↦ none | some rest ↦ some (r ∷ rest) ]
]

unfoldable pub all_rows_in_order : ℕ → Journal → Option (List Row)
unfolding all_rows chain_from
all_rows_in_order fuel j = chain_from fuel genesis (all_rows j.rows)

module _ {V : Type 0} (b : Backend V) where
  abbrev pub hash_of : String → String → String
  hash_of prev payload_json = b.sha256 (concat prev payload_json)

  -- The INSERT, the UPDATE of the tip and the commit of `_append`.
  unfoldable pub append :
      Table → Option String → Option String → String → Dict V → Journal → String × Journal
  append table decision_id symbol timestamp payload j =
      let pj = b.dumps payload in
      let rh = hash_of j.tip pj in
      let row : Row = record {
        decision_id = decision_id;
        symbol = symbol;
        timestamp = timestamp;
        payload = pj;
        prev_hash = j.tip;
        row_hash = rh;
      } in
      (
        rh,
        record {
          rows = λ t. if same_table t table then j.rows t ++ row ∷ [] else j.rows t;
          tip = rh;
        },
      )

  -- The loop of `verify`.
  unfoldable pub verify_rows : String → List Row → Bool × Option String
  verify_rows prev [] = (true, none)
  verify_rows prev (r ∷ rs) =
      let rest = verify_rows r.row_hash rs in
      if not (str_eq (hash_of prev r.payload) r.row_hash) || not (str_eq r.prev_hash prev)
      then (false, some r.row_hash)
      else rest

  unfoldable pub verify : ℕ → Journal → Option (Bool × Option String)
  unfolding all_rows_in_order verify_rows
  verify fuel j = elim (all_rows_in_order fuel j) [
    | none ↦ none
    | some rows ↦ some (verify_rows genesis rows)
  ]

  -- `main` of verify.py: the exit code.
  unfoldable pub main : ℕ → Option Journal → Option ℕ
  unfolding verify
  main fuel none = some 2
  main fuel (some j) = elim (verify fuel j) [
    | none ↦ none
    | some (ok, _) ↦ some (if ok then 0 else 1)
  ]

  -- `{"agent": name, **payload}`
  abbrev pub merge_into : Dict V → Dict V → Dict V
  merge_into d [] = d
  merge_into d ((k, v) ∷ more) = merge_into (insert k v d) more

-- The writers, with the model dumps that they journal.
pub data Write (V : Type 0) : Type 0 where
  write_decision : Option String → String → String → Dict V → Write V
  write_outcome : String → String → Dict V → Write V
  write_management : String → String → Dict V → Write V
  write_evidence_snapshot : String → String → String → Dict V → Write V
  write_agent_event : String → String → Dict V → Write V

module _ {V : Type 0} (b : Backend V) where
  unfoldable pub write : Write V → Journal → String × Journal
  unfolding append
  write (write_decision did symbol ts dump) j = append b decisions did (some symbol) ts dump j
  write (write_outcome did exit_time dump) j = append b outcomes (some did) none exit_time dump j
  write (write_management did ts dump) j = append b management (some did) none ts dump j
  write (write_evidence_snapshot did symbol ts compressed) j =
      append b evidence_snapshots (some did) (some symbol) ts compressed j
  write (write_agent_event name ts payload) j =
      append b agent_events none none ts (merge_into b (("agent", b.text name) ∷ []) payload) j

  -- The text that a write puts into the `payload` column.
  unfoldable pub payload_of : Write V → String
  payload_of (write_decision _ _ _ dump) = b.dumps dump
  payload_of (write_outcome _ _ dump) = b.dumps dump
  payload_of (write_management _ _ dump) = b.dumps dump
  payload_of (write_evidence_snapshot _ _ _ compressed) = b.dumps compressed
  payload_of (write_agent_event name _ payload) =
      b.dumps (merge_into b (("agent", b.text name) ∷ []) payload)

  unfoldable pub write_all : List (Write V) → Journal → Journal
  write_all [] j = j
  write_all (w ∷ ws) j = write_all ws (write w j).1

unfoldable pub decision_count : Journal → ℕ
decision_count j = length (j.rows decisions)
