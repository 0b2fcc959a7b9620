-- ===== src/Tests/MigrateExamples.antt =====
-- Two migrations, of which the second fails once, at concrete inputs.
use enterprise_llm_tracker.Base.{
  String, true, false, ◌≡◌, refl, Option, none, some, List, [], ◌∷◌, ◌++◌, All, str_eq,
  if◌then◌else◌,
}
use enterprise_llm_tracker.Base.Act.{Result, ok}
use enterprise_llm_tracker.Migrate.{
  Stage, acquire, commit, Database, DirEntry, Answers, apply, apply_files, apply_file, apply_tx,
  commit_tx, prepare, sort_names, sql_files, has_version,
}
use enterprise_llm_tracker.Migrate.Replay.{fresh, upgraded, IsReplayed, Upgraded-IsReplayed}
use enterprise_llm_tracker.Migrate.Complete.{apply_complete}

-- a schema is the scripts that were run
abbrev run : String → List String → Result (List String)
run script schema = ok (schema ++ script ∷ [])

abbrev content : String → String
content name = name

abbrev entries : List DirEntry
entries =
    record { name = "002_b.sql"; is_dir = false }
    ∷ record { name = "readme.md"; is_dir = false }
    ∷ record { name = "001_a.sql"; is_dir = false }
    ∷ []

abbrev all_well : Answers
all_well = record { fault = λ s n. none; committed_anyway = λ n. false }

abbrev refuses : Stage → String → Option String
refuses commit name = if str_eq name "002_b.sql" then some "conn closed" else none
refuses acquire name = none
refuses _ name = none

-- the commit of the second file is made, but its answer is lost
abbrev answer_lost : Answers
answer_lost = record { fault = refuses; committed_anyway = λ n. true }

abbrev empty : Database (List String)
empty = record { versions = []; schema = [] }

abbrev first : Database (List String)
first = (apply run content answer_lost entries empty).1

Upgraded-IsReplayed_example : IsReplayed run content [] (apply run content all_well entries first).1
Upgraded-IsReplayed_example =
    Upgraded-IsReplayed run content [] (apply run content all_well entries first).1
      (upgraded all_well entries (upgraded answer_lost entries fresh))

in_order : first.schema ≡ "001_a.sql" ∷ "002_b.sql" ∷ []
unfolding apply apply_files apply_file apply_tx commit_tx prepare sort_names sql_files has_version
in_order = refl

apply_complete_example :
    let out = apply run content all_well entries empty in
    (out.1.versions ≡ out.0.0)
    × All (λ name. has_version name out.1.versions ≡ true) (sort_names (sql_files entries))
    × (apply run content all_well entries out.1 ≡ (([], none), out.1))
unfolding apply apply_files apply_file apply_tx commit_tx prepare sort_names sql_files has_version
apply_complete_example =
    apply_complete run content all_well all_well entries empty refl (λ s n. refl)
