-- ===== src/Migrate.antt =====
-- internal/migrate/migrate.go: Apply. The database is the versions in schema_migrations, in the order
-- of their insertion, and the schema that the scripts have made. A call takes what every statement
-- and every read of a file answers, by its stage and file; the advisory lock makes calls follow one
-- another. Unlocking and the rollback of a transaction cannot be observed.
pub mod Replay
pub mod Complete
use Prim.Native.String.{compare}
use enterprise_llm_tracker.Base.{
  String, Bool, true, false, not, ◌&&◌, ◌||◌, Option, none, some, List, [], ◌∷◌, ◌++◌, str_eq,
  if◌then◌else◌,
}
use enterprise_llm_tracker.Base.Act.{Result, ok, err}
use enterprise_llm_tracker.Base.Format.{concat}
use text.Mathlib.Text.{is_le}

pub data Stage : Type 0 where
  acquire lock ensure read_dir check read_file begin_tx record_version commit : Stage

pub record Database (S : Type 0) : Type 0 where
  pub versions : List String
  pub schema : S

pub record DirEntry : Type 0 where
  pub name : String
  pub is_dir : Bool

-- the answers during one call: an error at a stage and file, and whether a commit whose answer is
-- an error took place all the same
pub record Answers : Type 0 where
  pub fault : Stage → String → Option String
  pub committed_anyway : String → Bool

-- strings.HasSuffix
unfoldable pub has_suffix : String → String → Bool
has_suffix String.[] suffix = str_eq suffix ""
has_suffix (String.◌∷◌ c s) suffix = str_eq (String.◌∷◌ c s) suffix || has_suffix s suffix

-- sort.Strings
unfoldable pub insert_name : String → List String → List String
insert_name n [] = n ∷ []
insert_name n (m ∷ ms) =
    let rest = insert_name n ms in if is_le (compare n m) then n ∷ m ∷ ms else m ∷ rest

unfoldable pub sort_names : List String → List String
unfolding insert_name
sort_names [] = []
sort_names (n ∷ ns) = insert_name n (sort_names ns)

-- the loop over the directory
unfoldable pub sql_files : List DirEntry → List String
unfolding has_suffix
sql_files [] = []
sql_files (e ∷ es) =
    let rest = sql_files es in
    if not e.is_dir && has_suffix e.name ".sql" then e.name ∷ rest else rest

-- SELECT EXISTS(SELECT 1 FROM schema_migrations WHERE version = $1)
unfoldable pub has_version : String → List String → Bool
has_version name [] = false
has_version name (v ∷ vs) = str_eq v name || has_version name vs

-- fmt.Errorf("stage name: %w", err)
abbrev wrap : String → String → String → String
wrap stage name e = concat (stage ∷ " " ∷ name ∷ ": " ∷ e ∷ [])

module _ {S : Type 0} (run : String → S → Result S) (content : String → String) (a : Answers) where
  unfoldable pub commit_tx : String → Database S → Database S → Result Bool × Database S
  commit_tx name db tx = elim (a.fault commit name) [
    | none ↦ (ok true, tx)
    | some e ↦ (err (wrap "commit" name e), if a.committed_anyway name then tx else db)
  ]

  -- the transaction of one file: the script, and the row that records it
  unfoldable pub apply_tx : String → Database S → Result Bool × Database S
  apply_tx name db = elim (a.fault begin_tx name) [
    | some e ↦ (err (wrap "begin tx" name e), db)
    | none ↦ elim (run (content name) db.schema) [
      | err e ↦ (err (wrap "apply" name e), db)
      | ok schema ↦ elim (a.fault record_version name) [
        | some e ↦ (err (wrap "record" name e), db)
        | none ↦ commit_tx name db (record { versions = db.versions ++ name ∷ []; schema = schema })
      ]
    ]
  ]

  -- one round of the loop; `ok false` passes over a file that is applied already
  unfoldable pub apply_file : String → Database S → Result Bool × Database S
  apply_file name db = elim (a.fault check name) [
    | some e ↦ (err (wrap "check" name e), db)
    | none ↦ elim (has_version name db.versions) [
      | true ↦ (ok false, db)
      | false ↦ elim (a.fault read_file name) [
        | some e ↦ (err (wrap "read" name e), db)
        | none ↦ apply_tx name db
      ]
    ]
  ]

  -- the loop: the files applied so far, and the error that ends it
  unfoldable pub apply_files :
      List String → List String → Database S → (List String × Option String) × Database S
  apply_files applied [] db = ((applied, none), db)
  apply_files applied (name ∷ names) db =
      let (result, after) = apply_file name db in
      elim result [
        | err e ↦ ((applied, some e), after)
        | ok true ↦ apply_files (applied ++ name ∷ []) names after
        | ok false ↦ apply_files applied names after
      ]

  -- the stages before the loop
  unfoldable pub prepare : List Stage → Option String
  prepare [] = none
  prepare (s ∷ ss) = let rest = prepare ss in elim (a.fault s "") [ none ↦ rest | some e ↦ some e ]

  unfoldable pub apply : List DirEntry → Database S → (List String × Option String) × Database S
  unfolding apply_files sort_names sql_files prepare
  apply entries db = elim (prepare (acquire ∷ lock ∷ ensure ∷ read_dir ∷ [])) [
    | some e ↦ (([], some e), db)
    | none ↦ apply_files [] (sort_names (sql_files entries)) db
  ]
