-- ===== src/Runtime/Store/Saved.antt =====
-- What is loaded after a save, here and in the other stores: aimos/runtime/state_store.py.
use aimos.Prelude.{
  String, ◌≡◌, refl, sym, ap, ◌∙◌, inl, inr, Bool, true, false, ◌&&◌, none, some, [], str_eq,
  eq_iff, arith, Bool-cases, if◌then◌else◌,
}
use aimos.Prelude.Dict.{Dict, lookup, insert, lookup-insert}
use aimos.Runtime.Store.{
  Codec, Store, runtime_state, control, Backend, noop, file, sql, same_store, World, good,
  engine_of, dict_of, read_file, read_row, load_file, load_row, load, save_file, save_row, stamped,
  save,
}

-- Two stores keep their data at one place.
abbrev pub shares : World → Store → Backend → Store → Backend → Bool
shares w s (file p) t (file q) = str_eq p q
shares w s (sql u o) t (sql v q) =
    same_store t s && (str_eq (engine_of w u) (engine_of w v) && str_eq o q)
shares w _ _ _ _ = false

-- What the code relies on: of the dictionaries that are plain JSON, `json.dump` and the JSON columns
-- write a text from which the same dictionary is read.
pub record ReadsBack {V : Type 0} (codec : Codec V) (is_plain : Dict V → Bool) : Type 0 where
  pub in_file :
      (d : Dict V)
      → is_plain d ≡ true
      → (t : String) × (codec.dumps d ≡ some t) × (codec.loads t ≡ good d)
  pub in_column :
      (d : Dict V)
      → is_plain d ≡ true
      → (t : String) × (codec.to_column d ≡ some t) × (codec.from_column t ≡ d)

same_store_refl : (s : Store) → same_store s s ≡ true
same_store_refl runtime_state = refl
same_store_refl control = refl

same_store_eq : (s t : Store) → same_store s t ≡ true → s ≡ t
same_store_eq runtime_state runtime_state h = refl
same_store_eq control control h = refl
same_store_eq runtime_state control h = ground (arith, h)
same_store_eq control runtime_state h = ground (arith, h)

module _ {V : Type 0} (codec : Codec V) where
  abbrev with_file : String → String → World → World
  with_file p x w = record w { files = insert p (some x) w.files }

  abbrev with_row : Store → String → String → String → World → World
  with_row s url o x w = record w {
    rows = λ t u.
        if same_store t s && str_eq (engine_of w url) u
        then insert o x (w.rows s (engine_of w url))
        else w.rows t u;
  }

  load_file_lem :
      (t : Store) (q : String) (w : World)
      → load codec t (file q) w ≡ read_file codec (lookup q w.files)
  unfolding load load_file
  load_file_lem t q w = refl

  load_row_lem :
      (t : Store) (v q : String) (w : World)
      → load codec t (sql v q) w ≡ some (read_row codec (lookup q (w.rows t (engine_of w v))))
  unfolding load load_row
  load_row_lem t v q w = refl

  load_noop : (t : Store) (w : World) → load codec t noop w ≡ some []
  unfolding load
  load_noop t w = refl

  noop_alike : (t : Store) (w w' : World) → load codec t noop w' ≡ load codec t noop w
  unfolding load
  noop_alike t w w' = refl

  -- The text that a store of a path reads in a world with the new one.
  file_of :
      (p q x : String) (w : World) (here : Bool)
      → str_eq p q ≡ here
      → lookup q (with_file p x w).files ≡ (if here then some (some x) else lookup q w.files)
  file_of p q x w here h =
      lookup-insert p q (some x) w.files ∙ ap (λ b. if b then some (some x) else lookup q w.files) h

  after_file :
      (s t : Store) (p x : String) (c : Backend) (d : Dict V) (w : World) (here : Bool)
      → codec.loads x ≡ good d
      → shares w s (file p) t c ≡ here
      → load codec t c (with_file p x w) ≡ (if here then some d else load codec t c w)
  after_file s t p x noop d w here k h = rw (← h) (noop_alike t w (with_file p x w))
  after_file s t p x (sql v q) d w here k h =
      rw (← h) (load_row_lem t v q (with_file p x w) ∙ sym (load_row_lem t v q w))
  after_file s t p x (file q) d w true k h =
      load_file_lem t q (with_file p x w)
      ∙ ap (read_file codec) (file_of p q x w _ h)
      ∙ ap (dict_of codec) k
  after_file s t p x (file q) d w false k h =
      load_file_lem t q (with_file p x w)
      ∙ ap (read_file codec) (file_of p q x w _ h)
      ∙ sym (load_file_lem t q w)

  -- The row that a store of a place reads in a world with the new one.
  row_of :
      (s t : Store) (u o v q x : String) (w : World) (here : Bool)
      → shares w s (sql u o) t (sql v q) ≡ here
      → lookup q ((with_row s u o x w).rows t (engine_of w v))
        ≡ (if here then some x else lookup q (w.rows t (engine_of w v)))
  row_of s t u o v q x w here h =
      elim (Bool-cases (same_store t s && str_eq (engine_of w u) (engine_of w v))) [
        | inr other ↦
            let elsewhere : here ≡ false = ground (arith, h, other) in rw (other, elsewhere) refl
        | inl same ↦
            let mine : here ≡ str_eq o q = ground (arith, h, same) in
            let s_is : t ≡ s = same_store_eq t s (ground (arith, same)) in
            let u_is : engine_of w u ≡ engine_of w v =
              (eq_iff (engine_of w u) (engine_of w v)).0 (ground (arith, same)) in
            let rows : w.rows s (engine_of w u) ≡ w.rows t (engine_of w v) =
              ap (λ e. w.rows s e) u_is ∙ ap (λ r. w.rows r (engine_of w v)) (sym s_is) in
            rw (same, mine)
              (lookup-insert o q x (w.rows s (engine_of w u))
                ∙ ap (λ r. if str_eq o q then some x else lookup q r) rows)
      ]

  after_row :
      (s t : Store) (u o x : String) (c : Backend) (d : Dict V) (w : World) (here : Bool)
      → codec.from_column x ≡ d
      → shares w s (sql u o) t c ≡ here
      → load codec t c (with_row s u o x w) ≡ (if here then some d else load codec t c w)
  after_row s t u o x noop d w here k h = rw (← h) (noop_alike t w (with_row s u o x w))
  after_row s t u o x (file q) d w here k h =
      rw (← h) (load_file_lem t q (with_row s u o x w) ∙ sym (load_file_lem t q w))
  after_row s t u o x (sql v q) d w true k h =
      load_row_lem t v q (with_row s u o x w)
      ∙ ap (λ r. some (read_row codec r)) (row_of s t u o v q x w true h)
      ∙ ap some k
  after_row s t u o x (sql v q) d w false k h =
      load_row_lem t v q (with_row s u o x w)
      ∙ ap (λ r. some (read_row codec r)) (row_of s t u o v q x w false h)
      ∙ sym (load_row_lem t v q w)

  -- What is written of a dictionary that is plain JSON with the time is read back whole: after the save,
  -- which does not raise, any store that keeps its data at the same place loads exactly that dictionary,
  -- also after a restart, and a store at any other place, of the same organisation or another, loads what
  -- it would have loaded; two spellings of a URL that are normalised alike are one place. A store without
  -- a place loads nothing, before and after.
  pub load-save :
      (is_plain : Dict V → Bool) (s t : Store) (b c : Backend) (now : String) (d : Dict V)
      (w : World)
      → ReadsBack codec is_plain
      → is_plain (stamped codec now d) ≡ true
      → let (raised, after) = save codec s b now d w in
        (raised ≡ false)
        × (load codec t c after
            ≡ (if shares w s b t c then some (stamped codec now d) else load codec t c w))
        × (load codec t noop after ≡ some [])
  unfolding save save_file save_row
  load-save is_plain s t noop c now d w back plain = (refl, refl, load_noop t w)
  load-save is_plain s t (file p) c now d w back plain =
      let (x, written, read) = back.in_file (stamped codec now d) plain in
      rw (written, save_file)
        (refl, after_file s t p x c (stamped codec now d) w _ read refl, load_noop t _)
  load-save is_plain s t (sql u o) c now d w back plain =
      let (x, written, read) = back.in_column (stamped codec now d) plain in
      rw (written, save_row)
        (refl, after_row s t u o x c (stamped codec now d) w _ read refl, load_noop t _)

  -- A save whose encoding raises leaves every file and row as it was.
  pub save_raised :
      (s : Store) (p u o now : String) (d : Dict V) (w : World)
      → codec.dumps (stamped codec now d) ≡ none
      → codec.to_column (stamped codec now d) ≡ none
      → (save codec s (file p) now d w ≡ (true, w)) × (save codec s (sql u o) now d w ≡ (true, w))
  unfolding save save_file save_row
  save_raised s p u o now d w h k = (ground (arith, h), ground (arith, k))
