-- ===== src/Journal/Writes.antt =====
-- What a sequence of writes leaves in the journal (`write_decision` to `write_agent_event`).
use mathlib.Core.List.{append-nil, append_assoc}
use aimos.Prelude.{
  ℕ, ◌<◌, ◌≡◌, refl, ap, none, some, true, List, [], ◌∷◌, ◌++◌, map, arith, length, length-map,
}
use aimos.Journal.{
  Row, decisions, outcomes, evidence_snapshots, agent_events, management, Journal, Backend, Write,
  init_schema, by_prev, all_rows, all_rows_in_order, verify, write, write_all, payload_of,
  merge_into, write_decision, write_outcome, write_management, write_evidence_snapshot,
  write_agent_event,
}
use aimos.Journal.Chain.{Holds, Holds-init, all_rows_in_order-Holds, verify-Holds, append-Holds}

module _ {V : Type 0} (b : Backend V) where
  -- No hash that a write returns is the `prev_hash` of a row stored by then: SHA-256 has not met a
  -- collision on this run.
  abbrev pub NoRepeats : List (Write V) → Journal → Type 0
  NoRepeats [] j = Unit
  NoRepeats (w ∷ ws) j =
      (by_prev (write b w j).0 (all_rows (write b w j).1.rows) ≡ none)
      × NoRepeats ws (write b w j).1

  -- One write puts one row with its payload behind the rows that are there.
  pub write-Holds :
      (w : Write V) (log : List Row) (j : Journal)
      → Holds b log j
      → by_prev (write b w j).0 (all_rows (write b w j).1.rows) ≡ none
      → (r : Row) × (r.payload ≡ payload_of b w) × Holds b (log ++ r ∷ []) (write b w j).1
  unfolding write payload_of
  write-Holds (write_decision did symbol ts d) log j h fresh =
      (_, refl, append-Holds b decisions did (some symbol) ts d log j h fresh)
  write-Holds (write_outcome did ts d) log j h fresh =
      (_, refl, append-Holds b outcomes (some did) none ts d log j h fresh)
  write-Holds (write_management did ts d) log j h fresh =
      (_, refl, append-Holds b management (some did) none ts d log j h fresh)
  write-Holds (write_evidence_snapshot did symbol ts d) log j h fresh =
      (_, refl, append-Holds b evidence_snapshots (some did) (some symbol) ts d log j h fresh)
  write-Holds (write_agent_event name ts d) log j h fresh = (
    _,
    refl,
    append-Holds b agent_events none none ts (merge_into b (("agent", b.text name) ∷ []) d) log j h
        fresh,
  )

  pub write_all-Holds :
      (ws : List (Write V)) (log : List Row) (j : Journal)
      → Holds b log j
      → NoRepeats ws j
      → (more : List Row) × (map Row.payload more ≡ map (payload_of b) ws)
        × Holds b (log ++ more) (write_all b ws j)
  unfolding write_all
  write_all-Holds [] log j h _ = ([], refl, rw append-nil h)
  write_all-Holds (w ∷ ws) log j h fresh =
      let (r, p, h') = write-Holds w log j h fresh.0 in
      let (more, q, h'') = write_all-Holds ws (log ++ r ∷ []) (write b w j).1 h' fresh.1 in
      (r ∷ more, cc (p, q), rw append_assoc at h'')

  -- Whatever is written to a new journal, if SHA-256 meets no collision then with fuel for more
  -- rounds than there were writes the chain walk ends, gives back one row for each write, in the
  -- order of the writes over all five tables, with the payload that was written, and `verify` finds
  -- nothing broken.
  pub verify-write_all :
      (ws : List (Write V)) (fuel : ℕ)
      → NoRepeats ws init_schema
      → length ws < fuel
      → (log : List Row) × (all_rows_in_order fuel (write_all b ws init_schema) ≡ some log)
        × (map Row.payload log ≡ map (payload_of b) ws)
        × (verify b fuel (write_all b ws init_schema) ≡ some (true, none))
  verify-write_all ws fuel fresh enough =
      let (log, p, h) = write_all-Holds ws [] init_schema (Holds-init b) fresh in
      let short : length log < fuel =
        omega (arith, length-map Row.payload log, length-map (payload_of b) ws, ap length p) in
      (
        log,
        all_rows_in_order-Holds b fuel log (write_all b ws init_schema) h short,
        p,
        verify-Holds b fuel log (write_all b ws init_schema) h short,
      )
