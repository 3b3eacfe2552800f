-- ===== src/Journal/Tests.antt =====
-- The journal's theorems at a small journal, over a hash that keeps its text.
use Prim.Native.String.{◌++◌ as concat}
use aimos.Prelude.{
  String, ◌≡◌, refl, ◌↔◌, true, false, none, some, List, [], ◌∷◌, map, arith, All, keep, is_some,
}
use aimos.Prelude.Dict.{Dict, insert}
use aimos.Journal.{
  Row, Journal, Backend, Write, decisions, write_decision, write_agent_event, init_schema, genesis,
  by_prev, all_rows, all_rows_in_order, verify, write, write_all, payload_of, append, main,
}
use aimos.Journal.Chain.{Holds}
use aimos.Journal.Writes.{NoRepeats, verify-write_all}
use aimos.Journal.Tamper.{
  update_rows, delete_rows, KeepsHashes, Collides, verify-update_iff, verify-delete,
}
use aimos.Journal.Chain.{Holds-init, append-Holds, new_row}
use aimos.Journal.Sql.{
  SqlJournal, create_schema, sql_write_all, sql_decision_count, fits, sql_verify,
  sql_all_rows_in_order,
}
use aimos.Journal.Mirror.{Stands, sql_write_all-Stands, write_fits, returned, hashes}
use aimos.Journal.{decision_count}

abbrev join : Dict String → String
join [] = ""
join ((k, v) ∷ d) = concat k (concat v (join d))

abbrev plain : Backend String
plain = record { text = λ s. s; dumps = join; sha256 = λ s. s }

abbrev two_writes : List (Write String)
two_writes =
    write_agent_event "ops" "t0" (("k", "v") ∷ [])
    ∷ write_decision (some "d1") "BTC" "t1" (("a", "1") ∷ [])
    ∷ []

abbrev book : Journal
book = write_all plain two_writes init_schema

two_writes-NoRepeats : NoRepeats plain two_writes init_schema
unfolding write append by_prev all_rows insert
two_writes-NoRepeats = (refl, (refl, tt))

verify-write_all_example :
    (log : List Row) × (all_rows_in_order 3 book ≡ some log)
    × (map Row.payload log ≡ map (payload_of plain) two_writes)
    × (verify plain 3 book ≡ some (true, none))
verify-write_all_example = verify-write_all plain two_writes 3 two_writes-NoRepeats (omega arith)

abbrev first : Journal
first = (append plain decisions (some "d1") (some "BTC") "t0" (("a", "1") ∷ []) init_schema).1

abbrev second : Journal
second = (append plain decisions (some "d2") (some "ETH") "t1" (("b", "2") ∷ []) first).1

abbrev row1 : Row
row1 = new_row plain (some "d1") (some "BTC") "t0" "a1" genesis

abbrev row2 : Row
row2 = new_row plain (some "d2") (some "ETH") "t1" "b2" row1.row_hash

first-Holds : Holds plain (row1 ∷ []) first
unfolding append by_prev all_rows
first-Holds =
    append-Holds plain decisions (some "d1") (some "BTC") "t0" (("a", "1") ∷ []) [] init_schema
      (Holds-init plain) refl

second-Holds : Holds plain (row1 ∷ row2 ∷ []) second
unfolding append by_prev all_rows
second-Holds =
    append-Holds plain decisions (some "d2") (some "ETH") "t1" (("b", "2") ∷ []) (row1 ∷ []) first
      first-Holds refl

abbrev forge : Row → Row
forge r = record r { payload = "b9" }

forge-KeepsHashes : KeepsHashes forge
forge-KeepsHashes = record { same_prev = λ r. refl; same_hash = λ r. refl }

verify-update_iff_example :
    (verify plain 3 (update_rows forge second) ≡ some (true, none))
    ↔ All (Collides plain forge) (row1 ∷ row2 ∷ [])
verify-update_iff_example =
    verify-update_iff plain 3 (row1 ∷ row2 ∷ []) second forge second-Holds forge-KeepsHashes
      (omega arith)

forged_payload_found : verify plain 3 (update_rows forge second) ≡ some (false, some row1.row_hash)
unfolding verify append by_prev
forged_payload_found = refl

verify-delete_example :
    (all_rows_in_order 3 (delete_rows row2.prev_hash second) ≡ some (row1 ∷ []))
    × (verify plain 3 (delete_rows row2.prev_hash second) ≡ some (true, none))
verify-delete_example = verify-delete plain 3 (row1 ∷ []) row2 [] second second-Holds (omega arith)

main_codes : (main plain 3 none ≡ some 2) × (main plain 3 (some second) ≡ some 0)
unfolding main append by_prev
main_codes = (refl, refl)

-- A PostgreSQL database, whose column for symbols takes 64 letters.
abbrev new_sql : SqlJournal
new_sql = create_schema (record { rows = λ _. []; chain_meta = none; enforces_lengths = true })

new_sql-Stands : Stands new_sql init_schema
unfolding create_schema
new_sql-Stands = record { same_rows = λ _. refl; same_tip = refl }

abbrev long_symbol : String
long_symbol = "0123456789012345678901234567890123456789012345678901234567890123456789"

abbrev three_writes : List (Write String)
three_writes = write_decision (some "d0") long_symbol "t0" [] ∷ two_writes

sql_write_all-Stands_example :
    let (answers, after) = sql_write_all plain three_writes new_sql in
    let fitting = keep (write_fits true) three_writes in
    let kept = write_all plain fitting init_schema in
    Stands after kept
    × (map is_some answers ≡ map (write_fits true) three_writes)
    × (returned answers ≡ hashes plain fitting init_schema)
    × (sql_all_rows_in_order 3 after ≡ all_rows_in_order 3 kept)
    × (sql_verify plain 3 after ≡ verify plain 3 kept)
    × (sql_decision_count after ≡ decision_count kept)
    × Stands (create_schema (record new_sql { rows = λ _. []; chain_meta = none })) init_schema
unfolding create_schema
sql_write_all-Stands_example =
    sql_write_all-Stands plain three_writes new_sql init_schema 3 new_sql-Stands

refused_test : map (write_fits true) three_writes ≡ false ∷ true ∷ true ∷ []
unfolding fits
refused_test = refl
