-- ===== src/Runtime/Store.antt =====
-- The stores of the server's state and of its controls: aimos/runtime/state_store.py. The two stores
-- have the same code over other files and tables, and are one definition here. `json` and the JSON
-- columns of SQLAlchemy are the parameter `Codec`. A directory is a `Path`, by its text.
pub mod Saved
mod Tests
use Prim.Native.Char.{code}
use Prim.Native.String.{◌++◌ as concat}
use aimos.Prelude.{
  String, Bool, true, false, ◌&&◌, Option, none, some, List, [], ◌∷◌, str_eq, ◌==◌, if◌then◌else◌,
  or_else,
}
use aimos.Prelude.Dict.{Dict, lookup, insert}

-- What the text of a file holds: no JSON, a JSON that is no dictionary, so that `dict` raises a
-- `TypeError`, or a dictionary.
pub data Content (V : Type 0) : Type 0 where
  no_json no_dict : Content V
  good : Dict V → Content V

-- `json` for the files, with `default=str`, and for the JSON columns. Writing is `none` where it raises.
pub record Codec (V : Type 0) : Type 0 where
  pub dumps : Dict V → Option String
  pub loads : String → Content V
  pub to_column : Dict V → Option String
  pub from_column : String → Dict V
  pub text : String → V

-- The two tables, and the two files.
pub data Store : Type 0 where
  runtime_state control : Store

abbrev pub file_name : Store → String
file_name runtime_state = "/state.json"
file_name control = "/control.json"

pub data Backend : Type 0 where
  noop : Backend
  file : String → Backend
  sql : String → String → Backend

-- The files by path, `none` where the reading raises an `OSError`, and the rows of each table by the
-- normalised URL of the database and the organisation, with the texts in their columns; and whether
-- psycopg is installed.
pub record World : Type 0 where
  pub files : Dict (Option String)
  pub rows : Store → String → Dict String
  pub has_psycopg : Bool

-- `s[len(prefix):]` where `s.startswith(prefix)`
unfoldable pub without_prefix : String → String → Option String
without_prefix String.[] s = some s
without_prefix (String.◌∷◌ p ps) String.[] = none
without_prefix (String.◌∷◌ p ps) (String.◌∷◌ c s) =
    let rest = without_prefix ps s in if code p == code c then rest else none

-- `normalize_sqlalchemy_url` of aimos/storage/db.py, by which an engine is cached
unfoldable pub normalize_sqlalchemy_url : Bool → String → String
unfolding without_prefix
normalize_sqlalchemy_url false url = url
normalize_sqlalchemy_url true url = elim (without_prefix "postgresql://" url) [
  | some rest ↦ concat "postgresql+psycopg://" rest
  | none ↦ elim (without_prefix "postgres://" url) [
    | some rest ↦ concat "postgresql+psycopg://" rest
    | none ↦ url
  ]
]

-- The constructors of `ControlStore` and `RuntimeStateStore`
unfoldable pub backend_of : Store → String → Option String → String → Backend
backend_of store org_id state_dir database_url =
    let on_disk : Backend = elim state_dir [
      | none ↦ noop
      | some dir ↦ file (concat dir (file_name store))
    ] in
    if str_eq database_url "" then on_disk else sql database_url org_id

abbrev pub same_store : Store → Store → Bool
same_store runtime_state runtime_state = true
same_store control control = true
same_store _ _ = false

abbrev pub engine_of : World → String → String
engine_of w url = normalize_sqlalchemy_url w.has_psycopg url

module _ {V : Type 0} (codec : Codec V) where
  abbrev pub dict_of : Content V → Option (Dict V)
  dict_of no_json = some []
  dict_of no_dict = none
  dict_of (good d) = some d

  abbrev pub read_file : Option (Option String) → Option (Dict V)
  read_file none = some []
  read_file (some none) = some []
  read_file (some (some t)) = dict_of (codec.loads t)

  abbrev pub read_row : Option String → Dict V
  read_row none = []
  read_row (some t) = codec.from_column t

  -- `_FileBackend.load` and `_FileControlBackend.load`; `none` is the `TypeError`.
  unfoldable pub load_file : String → World → Option (Dict V)
  load_file path w = read_file (lookup path w.files)

  -- `_SqlBackend.load` and `_SqlControlBackend.load`
  unfoldable pub load_row : Store → String → String → World → Dict V
  load_row store url org_id w = read_row (lookup org_id (w.rows store (engine_of w url)))

  unfoldable pub load : Store → Backend → World → Option (Dict V)
  unfolding load_file load_row
  load store noop w = some []
  load store (file path) w = load_file path w
  load store (sql url org_id) w = some (load_row store url org_id w)

  -- `_FileBackend.save` and `_FileControlBackend.save`: what is written replaces the file at once, or
  -- leaves it when the encoding raises, which the flag says.
  unfoldable pub save_file : String → Dict V → World → Bool × World
  save_file path d w = elim (codec.dumps d) [
    | none ↦ (true, w)
    | some t ↦ (false, record w { files = insert path (some t) w.files })
  ]

  -- `_SqlBackend.save` and `_SqlControlBackend.save`: the row is added or changed, then committed.
  unfoldable pub save_row : Store → String → String → Dict V → World → Bool × World
  save_row store url org_id d w =
      let engine = engine_of w url in
      elim (codec.to_column d) [
        | none ↦ (true, w)
        | some t ↦ (
          false,
          record w {
            rows = λ s u.
                if same_store s store && str_eq engine u
                then insert org_id t (w.rows store engine)
                else w.rows s u;
          },
        )
      ]

  -- What is written at a time: the time of saving goes into a copy.
  abbrev pub stamped : String → Dict V → Dict V
  stamped now d = insert "updated_at" (codec.text now) d

  -- `save` of both stores
  unfoldable pub save : Store → Backend → String → Dict V → World → Bool × World
  unfolding save_file save_row
  save store noop now d w = (false, w)
  save store (file path) now d w = save_file path (stamped now d) w
  save store (sql url org_id) now d w = save_row store url org_id (stamped now d) w

-- The values of a snapshot, with the truth value of each.
pub record Values (V : Type 0) : Type 0 where
  pub empty_list : V
  pub of_dict : Dict V → V
  pub truthy : V → Bool

module _ {V : Type 0} (vals : Values V) where
  -- `x or default`
  abbrev or_value : Option V → V → V
  or_value none d = d
  or_value (some v) d = if vals.truthy v then v else d

  abbrev state_or_empty : Option (Dict V) → Dict V
  state_or_empty none = []
  state_or_empty (some d) = d

  -- `build_snapshot`; the broker and the simulation are there with their `state_dict`, or not, and the
  -- ladder with its status.
  unfoldable pub build_snapshot :
      Dict V → Option (Dict V) → Option (Dict V) → Option V → Option V → Option V → Dict V
  build_snapshot holder broker sim ladder view controls =
      let nothing = vals.of_dict [] in
      let sim_state = state_or_empty sim in
      let balances : V = elim sim [
        | none ↦ nothing
        | some d ↦ or_else (lookup "balances" d) nothing
      ] in
      ("broker", vals.of_dict (state_or_empty broker))
      ∷ ("sim", vals.of_dict sim_state)
      ∷ ("equity", or_value (lookup "equity" holder) vals.empty_list)
      ∷ ("balances", balances)
      ∷ ("positions", or_value (lookup "positions" (state_or_empty broker)) vals.empty_list)
      ∷ ("ladder", or_else ladder nothing)
      ∷ ("features", or_value (lookup "features" holder) nothing)
      ∷ ("monitor", or_value (lookup "monitor" holder) nothing)
      ∷ ("view", or_value view nothing)
      ∷ ("controls", or_value controls nothing)
      ∷ []
