-- ===== src/Journal/Chain.antt =====
-- The journal as the list of its rows in the order of the appends, over all tables.
use aimos.Prelude.{
  ℕ, ◌<◌, String, ◌≡◌, refl, sym, ◌∙◌, Option, none, some, true, List, [], ◌∷◌, ◌++◌, arith, str_eq,
  eq_iff, length, if◌then◌else◌,
}
use aimos.Prelude.Dict.{Dict}
use aimos.Journal.{
  Row, Table, decisions, outcomes, evidence_snapshots, agent_events, management, Journal, Backend,
  genesis, init_schema, by_prev, all_rows, all_rows_in_order, append, hash_of, verify,
}
use aimos.Journal.Walk.{by_prev-append, Chain, chain_from-Chain, verify_rows-Chain, first_some}

module _ {V : Type 0} (b : Backend V) where
  -- The journal holds the rows of `log`, which were appended in that order.
  pub record Holds (log : List Row) (j : Journal) : Type 0 where
    pub chain : Chain b genesis log j.tip
    pub open_end : by_prev j.tip log ≡ none
    pub finds : (h : String) → by_prev h (all_rows j.rows) ≡ by_prev h log

  pub Holds-init : Holds [] init_schema
  unfolding all_rows by_prev
  Holds-init = record { chain = refl; open_end = refl; finds = λ h. refl }

  pub all_rows_in_order-Holds :
      (fuel : ℕ) (log : List Row) (j : Journal)
      → Holds log j
      → length log < fuel
      → all_rows_in_order fuel j ≡ some log
  unfolding all_rows_in_order
  all_rows_in_order-Holds fuel log j h enough =
      chain_from-Chain b fuel genesis j.tip log (all_rows j.rows) h.chain
        (λ k x e. ground (arith, h.finds k)) (ground (arith, h.finds j.tip, h.open_end)) enough

  pub verify-Holds :
      (fuel : ℕ) (log : List Row) (j : Journal)
      → Holds log j
      → length log < fuel
      → verify b fuel j ≡ some (true, none)
  unfolding verify
  verify-Holds fuel log j h enough = ground (
    arith,
    all_rows_in_order-Holds fuel log j h enough,
    verify_rows-Chain b genesis j.tip log h.chain,
  )

  -- A row after the last one keeps the links.
  Chain-snoc :
      (prev tip : String) (log : List Row) (r : Row)
      → Chain b prev log tip
      → by_prev tip log ≡ none
      → r.prev_hash ≡ tip
      → r.row_hash ≡ hash_of b tip r.payload
      → Chain b prev (log ++ r ∷ []) r.row_hash
  unfolding by_prev
  Chain-snoc prev tip [] r c stop p q = ground arith
  Chain-snoc prev tip (x ∷ log) r c stop p q = ground (
    arith,
    Chain-snoc x.row_hash tip log r c.3,
    by_prev-append prev log (r ∷ []),
    eq_iff r.prev_hash prev,
    eq_iff x.prev_hash tip,
  )

  -- A lookup over all rows looks through the tables from the last to the first.
  by_prev-all_rows :
      (h : String) (rows : Table → List Row)
      → by_prev h (all_rows rows)
        ≡ first_some
            (first_some
              (first_some
                (first_some (by_prev h (rows management)) (by_prev h (rows agent_events)))
                (by_prev h (rows evidence_snapshots)))
              (by_prev h (rows outcomes)))
            (by_prev h (rows decisions))
  unfolding all_rows
  by_prev-all_rows h rows = simp by_prev-append

  abbrev pub new_row : Option String → Option String → String → String → String → Row
  new_row did symbol ts pj tip = record {
    decision_id = did;
    symbol = symbol;
    timestamp = ts;
    payload = pj;
    prev_hash = tip;
    row_hash = hash_of b tip pj;
  }

  -- After an append to any table the old tip finds the new row, and all else is found as before.
  by_prev-append_row :
      (t : Table) (did symbol : Option String) (ts : String) (d : Dict V) (j : Journal) (h : String)
      → by_prev j.tip (all_rows j.rows) ≡ none
      → by_prev h (all_rows (append b t did symbol ts d j).1.rows) ≡ (
          if str_eq j.tip h
          then some (new_row did symbol ts (b.dumps d) j.tip)
          else by_prev h (all_rows j.rows))
  unfolding append by_prev
  by_prev-append_row decisions did symbol ts d j h e = ground (
    arith,
    by_prev-all_rows j.tip j.rows,
    by_prev-all_rows h j.rows,
    by_prev-all_rows h (append b decisions did symbol ts d j).1.rows,
    by_prev-append h (j.rows decisions) (new_row did symbol ts (b.dumps d) j.tip ∷ []),
    eq_iff j.tip h,
  )
  by_prev-append_row outcomes did symbol ts d j h e = ground (
    arith,
    by_prev-all_rows j.tip j.rows,
    by_prev-all_rows h j.rows,
    by_prev-all_rows h (append b outcomes did symbol ts d j).1.rows,
    by_prev-append h (j.rows outcomes) (new_row did symbol ts (b.dumps d) j.tip ∷ []),
    eq_iff j.tip h,
  )
  by_prev-append_row evidence_snapshots did symbol ts d j h e = ground (
    arith,
    by_prev-all_rows j.tip j.rows,
    by_prev-all_rows h j.rows,
    by_prev-all_rows h (append b evidence_snapshots did symbol ts d j).1.rows,
    by_prev-append h (j.rows evidence_snapshots) (new_row did symbol ts (b.dumps d) j.tip ∷ []),
    eq_iff j.tip h,
  )
  by_prev-append_row agent_events did symbol ts d j h e = ground (
    arith,
    by_prev-all_rows j.tip j.rows,
    by_prev-all_rows h j.rows,
    by_prev-all_rows h (append b agent_events did symbol ts d j).1.rows,
    by_prev-append h (j.rows agent_events) (new_row did symbol ts (b.dumps d) j.tip ∷ []),
    eq_iff j.tip h,
  )
  by_prev-append_row management did symbol ts d j h e = ground (
    arith,
    by_prev-all_rows j.tip j.rows,
    by_prev-all_rows h j.rows,
    by_prev-all_rows h (append b management did symbol ts d j).1.rows,
    by_prev-append h (j.rows management) (new_row did symbol ts (b.dumps d) j.tip ∷ []),
    eq_iff j.tip h,
  )

  finds-append :
      (t : Table) (did symbol : Option String) (ts : String) (d : Dict V) (log : List Row)
      (j : Journal)
      → Holds log j
      → (k : String)
      → by_prev k (all_rows (append b t did symbol ts d j).1.rows)
        ≡ by_prev k (log ++ new_row did symbol ts (b.dumps d) j.tip ∷ [])
  unfolding by_prev
  finds-append t did symbol ts d log j h k = ground (
    arith,
    h.finds k,
    h.finds j.tip,
    h.open_end,
    by_prev-append_row t did symbol ts d j k,
    by_prev-append k log (new_row did symbol ts (b.dumps d) j.tip ∷ []),
  )

  pub append-Holds :
      (t : Table) (did symbol : Option String) (ts : String) (d : Dict V) (log : List Row)
      (j : Journal)
      → Holds log j
      → by_prev (hash_of b j.tip (b.dumps d)) (all_rows (append b t did symbol ts d j).1.rows)
        ≡ none
      → Holds (log ++ new_row did symbol ts (b.dumps d) j.tip ∷ []) (append b t did symbol ts d j).1
  append-Holds t did symbol ts d log j h fresh = record {
    chain =
        unfold append in
        Chain-snoc genesis j.tip log (new_row did symbol ts (b.dumps d) j.tip) h.chain h.open_end
          refl refl;
    open_end = sym (finds-append t did symbol ts d log j h _) ∙ (unfold append in fresh);
    finds = finds-append t did symbol ts d log j h;
  }
