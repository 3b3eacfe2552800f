-- ===== src/Journal/Mirror.antt =====
-- The journal on a database against the journal on sqlite, both of aimos/journal/journal.py.
use aimos.Prelude.{
  ℕ, String, Bool, true, false, ◌≡◌, refl, ap, ◌∙◌, inl, inr, Option, none, some, List, [], ◌∷◌,
  arith, length, keep, map, is_some, Bool-cases,
}
use aimos.Prelude.Dict.{Dict}
use aimos.Journal.{
  Row, Table, decisions, outcomes, evidence_snapshots, agent_events, management, Journal, Backend,
  genesis, init_schema, append, decision_count, all_rows, all_rows_in_order, chain_from,
  verify_rows, verify, Write, write_decision, write_outcome, write_management,
  write_evidence_snapshot, write_agent_event, merge_into, write, write_all,
}
use aimos.Journal.Sql.{
  SqlJournal, create_schema, fits, sql_all_rows_in_order, sql_append, sql_write, sql_write_all,
  sql_verify, sql_decision_count,
}

-- The database stands for the sqlite journal `j`.
pub record Stands (s : SqlJournal) (j : Journal) : Type 0 where
  pub same_rows : (t : Table) → s.rows t ≡ j.rows t
  pub same_tip : s.chain_meta ≡ some j.tip

-- The columns of a write take its texts.
abbrev pub write_fits : {V : Type 0} → Bool → Write V → Bool
write_fits enforces (write_decision did symbol ts _) = fits enforces did (some symbol) ts
write_fits enforces (write_outcome did ts _) = fits enforces (some did) none ts
write_fits enforces (write_management did ts _) = fits enforces (some did) none ts
write_fits enforces (write_evidence_snapshot did symbol ts _) =
    fits enforces (some did) (some symbol) ts
write_fits enforces (write_agent_event _ ts _) = fits enforces none none ts

abbrev pub returned : List (Option String) → List String
returned [] = []
returned (none ∷ os) = returned os
returned (some h ∷ os) = h ∷ returned os

module _ {V : Type 0} (b : Backend V) where
  -- What the writes of the sqlite journal return.
  abbrev pub hashes : List (Write V) → Journal → List String
  hashes [] j = []
  hashes (w ∷ ws) j = (write b w j).0 ∷ hashes ws (write b w j).1

  -- An INSERT that fits does what the sqlite journal does.
  record Follows (answer : Option String × SqlJournal) (s : SqlJournal) (x : String × Journal)
      : Type 0 where
    pub hash : answer.0 ≡ some x.0
    pub stands : Stands answer.1 x.1
    pub same_database : answer.1.enforces_lengths ≡ s.enforces_lengths

  append-Follows :
      (t : Table) (did symbol : Option String) (ts : String) (d : Dict V) (s : SqlJournal)
      (j : Journal)
      → fits s.enforces_lengths did symbol ts ≡ true
      → Stands s j
      → Follows (sql_append b t did symbol ts d s) s (append b t did symbol ts d j)
  unfolding sql_append append
  append-Follows t did symbol ts d s j e h = record {
    hash = ground (arith, e, h.same_tip);
    stands = record {
      same_rows = λ u. ground (arith, e, h.same_tip, h.same_rows u);
      same_tip = ground (arith, e, h.same_tip);
    };
    same_database = ground (arith, e);
  }

  append_refused :
      (t : Table) (did symbol : Option String) (ts : String) (d : Dict V) (s : SqlJournal)
      → fits s.enforces_lengths did symbol ts ≡ false
      → sql_append b t did symbol ts d s ≡ (none, s)
  unfolding sql_append
  append_refused t did symbol ts d s e = ground (arith, e)

  write-Follows :
      (w : Write V) (s : SqlJournal) (j : Journal)
      → write_fits s.enforces_lengths w ≡ true
      → Stands s j
      → Follows (sql_write b w s) s (write b w j)
  unfolding sql_write write
  write-Follows (write_decision did symbol ts d) s j =
      append-Follows decisions did (some symbol) ts d s j
  write-Follows (write_outcome did ts d) s j = append-Follows outcomes (some did) none ts d s j
  write-Follows (write_management did ts d) s j = append-Follows management (some did) none ts d s j
  write-Follows (write_evidence_snapshot did symbol ts d) s j =
      append-Follows evidence_snapshots (some did) (some symbol) ts d s j
  write-Follows (write_agent_event name ts d) s j =
      append-Follows agent_events none none ts (merge_into b (("agent", b.text name) ∷ []) d) s j

  write_refused :
      (w : Write V) (s : SqlJournal)
      → write_fits s.enforces_lengths w ≡ false
      → sql_write b w s ≡ (none, s)
  unfolding sql_write
  write_refused (write_decision did symbol ts d) s =
      append_refused decisions did (some symbol) ts d s
  write_refused (write_outcome did ts d) s = append_refused outcomes (some did) none ts d s
  write_refused (write_management did ts d) s = append_refused management (some did) none ts d s
  write_refused (write_evidence_snapshot did symbol ts d) s =
      append_refused evidence_snapshots (some did) (some symbol) ts d s
  write_refused (write_agent_event name ts d) s =
      append_refused agent_events none none ts (merge_into b (("agent", b.text name) ∷ []) d) s

  -- After writes, the database and its answers are those of the writes that fit.
  record Refines (fits_one : Write V → Bool) (ws : List (Write V))
      (x : List (Option String) × SqlJournal) (j : Journal) : Type 0 where
    pub stands : Stands x.1 (write_all b (keep fits_one ws) j)
    pub answered : map is_some x.0 ≡ map fits_one ws
    pub hash : returned x.0 ≡ hashes (keep fits_one ws) j

  sql_write_all-Refines :
      (ws : List (Write V)) (enforces : Bool) (s : SqlJournal) (j : Journal)
      → s.enforces_lengths ≡ enforces
      → Stands s j
      → Refines (write_fits enforces) ws (sql_write_all b ws s) j
  unfolding sql_write_all write_all
  sql_write_all-Refines [] enforces s j e h = record { stands = h; answered = refl; hash = refl }
  sql_write_all-Refines (w ∷ ws) enforces s j e h = elim (Bool-cases (write_fits enforces w)) [
    | inl fit ↦
        let f = write-Follows w s j (ap (λ l. write_fits l w) e ∙ fit) h in
        let r =
          sql_write_all-Refines ws enforces (sql_write b w s).1 (write b w j).1
            (f.same_database ∙ e) f.stands in
        record {
          stands = rw (fit) r.stands;
          answered = rw (f.hash, fit) (ap (λ bs. true ∷ bs) r.answered);
          hash = rw (f.hash, fit) (ap (λ hs. (write b w j).0 ∷ hs) r.hash);
        }
    | inr long ↦
        let same = write_refused w s (ap (λ l. write_fits l w) e ∙ long) in
        let r = sql_write_all-Refines ws enforces s j e h in
        record {
          stands = rw (same, long) r.stands;
          answered = rw (same, long) (ap (λ bs. false ∷ bs) r.answered);
          hash = rw (same, long) r.hash;
        }
  ]

  all_rows-Stands : (s : SqlJournal) (j : Journal) → Stands s j → all_rows s.rows ≡ all_rows j.rows
  unfolding all_rows
  all_rows-Stands s j h =
      rw
        (
          h.same_rows decisions,
          h.same_rows outcomes,
          h.same_rows evidence_snapshots,
          h.same_rows agent_events,
          h.same_rows management,
        )
        refl

  rows-Stands :
      (fuel : ℕ) (s : SqlJournal) (j : Journal)
      → Stands s j
      → sql_all_rows_in_order fuel s ≡ all_rows_in_order fuel j
  unfolding sql_all_rows_in_order all_rows_in_order
  rows-Stands fuel s j h = ap (chain_from fuel genesis) (all_rows-Stands s j h)

  -- The walk over the rows of all tables.
  abbrev walked : ℕ → List Row → Option (Bool × Option String)
  walked fuel rows = elim (chain_from fuel genesis rows) [
    | none ↦ none
    | some ordered ↦ some (verify_rows b genesis ordered)
  ]

  verify-Stands :
      (fuel : ℕ) (s : SqlJournal) (j : Journal) → Stands s j → sql_verify b fuel s ≡ verify b fuel j
  unfolding sql_verify verify all_rows_in_order
  verify-Stands fuel s j h = ap (walked fuel) (all_rows-Stands s j h)

  -- Any writes to a database that stands for a sqlite journal, where its columns are too short for some
  -- of them, raise exactly for those; the others return the hashes that the sqlite journal returns when
  -- it is given them alone, and the database then stands for that journal: its rows and its tip are the
  -- same, the chain walk and `verify` answer alike with the same fuel, and so does the count of
  -- decisions. A database whose schema was just created on no rows and no tip stands for a new sqlite
  -- journal.
  pub sql_write_all-Stands :
      (ws : List (Write V)) (s : SqlJournal) (j : Journal) (fuel : ℕ)
      → Stands s j
      → let (answers, after) = sql_write_all b ws s in
        let fitting = keep (write_fits s.enforces_lengths) ws in
        let kept = write_all b fitting j in
        Stands after kept
        × (map is_some answers ≡ map (write_fits s.enforces_lengths) ws)
        × (returned answers ≡ hashes fitting j)
        × (sql_all_rows_in_order fuel after ≡ all_rows_in_order fuel kept)
        × (sql_verify b fuel after ≡ verify b fuel kept)
        × (sql_decision_count after ≡ decision_count kept)
        × Stands (create_schema (record s { rows = λ _. []; chain_meta = none })) init_schema
  unfolding create_schema sql_decision_count decision_count
  sql_write_all-Stands ws s j fuel h =
      let r = sql_write_all-Refines ws s.enforces_lengths s j refl h in
      (
        r.stands,
        r.answered,
        r.hash,
        rows-Stands fuel _ _ r.stands,
        verify-Stands fuel _ _ r.stands,
        ap length (r.stands.same_rows decisions),
        record { same_rows = λ _. refl; same_tip = refl },
      )
