-- ===== src/Runtime/Store/Tests.antt =====
-- The stores at small inputs, whose values are texts. The codec writes the dictionaries that hold a time
-- and nothing else as that time, and refuses all others.
use aimos.Prelude.{
  String, ◌≡◌, refl, ap, Bool, true, false, Option, none, some, [], ◌∷◌, str_eq, eq_iff, arith,
  if◌then◌else◌,
}
use aimos.Prelude.Dict.{Dict, insert}
use aimos.Runtime.Store.{
  Codec, runtime_state, control, Backend, noop, file, sql, World, good, backend_of, load, stamped,
  save_file, save, normalize_sqlalchemy_url,
}
use aimos.Runtime.Store.Saved.{shares, ReadsBack, load-save}

abbrev is_time : Dict String → Bool
is_time ((k, v) ∷ []) = str_eq k "updated_at"
is_time _ = false

abbrev written : Dict String → Option String
written ((k, v) ∷ []) = if str_eq k "updated_at" then some v else none
written _ = none

abbrev plain : Codec String
plain = record {
  dumps = written;
  loads = λ t. good (("updated_at", t) ∷ []);
  to_column = written;
  from_column = λ t. ("updated_at", t) ∷ [];
  text = λ s. s;
}

is_written :
    (d : Dict String)
    → is_time d ≡ true
    → (t : String) × (written d ≡ some t) × ((("updated_at", t) ∷ []) ≡ d)
is_written [] h = absurd (ground (arith, h))
is_written ((k, v) ∷ (x ∷ d)) h = absurd (ground (arith, h))
is_written ((k, v) ∷ []) h =
    let same : k ≡ "updated_at" = (eq_iff k "updated_at").0 h in (v, rw (h) refl, rw (same) refl)

plain-ReadsBack : ReadsBack plain is_time
plain-ReadsBack = record {
  in_file = λ d h. let (t, e, r) = is_written d h in (t, e, ap good r);
  in_column = is_written;
}

abbrev empty_world : World
empty_world = record { files = []; rows = λ _ _. []; has_psycopg = true }

-- Two spellings of one database.
abbrev here : Backend
here = sql "postgres://host/db" "a"

abbrev there : Backend
there = sql "postgresql://host/db" "a"

load-save_example :
    let (raised, after) = save plain control here "now" [] empty_world in
    (raised ≡ false)
    × (load plain control there after ≡ (
        if shares empty_world control here control there
        then some (stamped plain "now" [])
        else load plain control there empty_world))
    × (load plain control noop after ≡ some [])
unfolding insert
load-save_example =
    load-save plain is_time control control here there "now" [] empty_world plain-ReadsBack refl

shares_test :
    (shares empty_world control here control there ≡ true)
    × (shares empty_world control here runtime_state there ≡ false)
    × (shares empty_world control here control (sql "postgres://host/db" "b") ≡ false)
unfolding normalize_sqlalchemy_url
shares_test = (refl, refl, refl)

refused_test : (save plain control (file "c") "now" (("x", "1") ∷ []) empty_world).0 ≡ true
unfolding save save_file insert
refused_test = refl

-- The URL decides before the directory, and without both nothing is kept.
backend_test :
    (backend_of control "a" (some "s") "" ≡ file "s/control.json")
    × (backend_of control "a" (some "s") "u" ≡ sql "u" "a")
    × (backend_of control "a" none "" ≡ noop)
unfolding backend_of
backend_test = (refl, refl, refl)
