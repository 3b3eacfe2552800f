-- ===== src/Journal/Sql.antt =====
-- `_SqlJournal` of aimos/journal/journal.py: the tip is a row of `chain_meta` that may be missing, and
-- the UPDATE of a missing row changes nothing. Where the database enforces the lengths of the columns,
-- as PostgreSQL does and SQLite does not, an INSERT of a longer text raises and the transaction is
-- rolled back; the columns of the hashes take the 64 digits of a SHA-256. The rows of a SELECT come in
-- the order of the inserts.
use aimos.Prelude.{
  ℕ, String, Bool, true, not, ◌&&◌, ◌||◌, Option, none, some, List, [], ◌∷◌, ◌++◌, if◌then◌else◌,
  or_else, length, leb,
}
use aimos.Prelude.Dict.{Dict}
use aimos.Prelude.Text.{codes}
use aimos.Journal.{
  Row, Table, decisions, outcomes, evidence_snapshots, agent_events, management, same_table,
  Backend, genesis, hash_of, all_rows, chain_from, verify_rows, Write, write_decision,
  write_outcome, write_management, write_evidence_snapshot, write_agent_event, merge_into,
}

pub record SqlJournal : Type 0 where
  pub rows : Table → List Row
  pub chain_meta : Option String
  pub enforces_lengths : Bool

-- INSERT … ON CONFLICT DO NOTHING: a tip that is there stays.
unfoldable pub create_schema : SqlJournal → SqlJournal
create_schema s = record s { chain_meta = some (or_else s.chain_meta genesis) }

-- `_tip`
unfoldable pub sql_tip : SqlJournal → String
sql_tip s = or_else s.chain_meta genesis

abbrev update_tip : String → Option String → Option String
update_tip rh none = none
update_tip rh (some _) = some rh

-- A text in a column `String(n)`, where it may be NULL.
abbrev fits_in : ℕ → Option String → Bool
fits_in n none = true
fits_in n (some s) = leb (length (codes s)) n

-- The columns `decision_id`, `symbol` and `timestamp` take the three texts.
unfoldable pub fits : Bool → Option String → Option String → String → Bool
fits enforces decision_id symbol timestamp =
    not enforces || (fits_in 255 decision_id && (fits_in 64 symbol && fits_in 64 (some timestamp)))

-- `all_rows_in_order`
unfoldable pub sql_all_rows_in_order : ℕ → SqlJournal → Option (List Row)
unfolding all_rows chain_from
sql_all_rows_in_order fuel s = chain_from fuel genesis (all_rows s.rows)

module _ {V : Type 0} (b : Backend V) where
  -- `_append`; the answer is `none` when the INSERT raises.
  unfoldable pub sql_append :
      Table
      → Option String
      → Option String
      → String
      → Dict V
      → SqlJournal
      → Option String × SqlJournal
  unfolding sql_tip fits
  sql_append table decision_id symbol timestamp payload s =
      let pj = b.dumps payload in
      let prev = sql_tip s in
      let rh = hash_of b prev pj in
      let row : Row = record {
        decision_id = decision_id;
        symbol = symbol;
        timestamp = timestamp;
        payload = pj;
        prev_hash = prev;
        row_hash = rh;
      } in
      if not (fits s.enforces_lengths decision_id symbol timestamp) then (none, s) else (
        some rh,
        record s {
          rows = λ t. if same_table t table then s.rows t ++ row ∷ [] else s.rows t;
          chain_meta = update_tip rh s.chain_meta;
        },
      )

  -- The writers that the class inherits
  unfoldable pub sql_write : Write V → SqlJournal → Option String × SqlJournal
  unfolding sql_append
  sql_write (write_decision did symbol ts dump) s = sql_append decisions did (some symbol) ts dump s
  sql_write (write_outcome did exit_time dump) s =
      sql_append outcomes (some did) none exit_time dump s
  sql_write (write_management did ts dump) s = sql_append management (some did) none ts dump s
  sql_write (write_evidence_snapshot did symbol ts compressed) s =
      sql_append evidence_snapshots (some did) (some symbol) ts compressed s
  sql_write (write_agent_event name ts payload) s =
      sql_append agent_events none none ts (merge_into b (("agent", b.text name) ∷ []) payload) s

  unfoldable pub sql_write_all : List (Write V) → SqlJournal → List (Option String) × SqlJournal
  unfolding sql_write
  sql_write_all [] s = ([], s)
  sql_write_all (w ∷ ws) s =
      let (answer, s') = sql_write w s in
      let (answers, after) = sql_write_all ws s' in (answer ∷ answers, after)

  -- `verify`, which the class inherits
  unfoldable pub sql_verify : ℕ → SqlJournal → Option (Bool × Option String)
  unfolding sql_all_rows_in_order verify_rows
  sql_verify fuel s = elim (sql_all_rows_in_order fuel s) [
    | none ↦ none
    | some rows ↦ some (verify_rows b genesis rows)
  ]

unfoldable pub sql_decision_count : SqlJournal → ℕ
sql_decision_count s = length (s.rows decisions)
