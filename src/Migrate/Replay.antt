-- ===== src/Migrate/Replay.antt =====
-- Over any calls of Apply, the schema is what the recorded scripts make, each run once.
use enterprise_llm_tracker.Base.{
  String, false, ◌||◌, ◌≡◌, refl, List, [], ◌∷◌, ◌++◌, str_eq, eq_iff, arith, inl, inr, Bool-cases,
}
use enterprise_llm_tracker.Base.Act.{Result, ok, err, Result-cases}
use enterprise_llm_tracker.Migrate.{
  Database, DirEntry, Answers, has_version, commit_tx, apply_tx, apply_file, apply_files, apply,
  sort_names, sql_files,
}

-- no version is recorded twice
unfoldable pub IsDistinct : List String → Type 0
IsDistinct [] = Unit
IsDistinct (v ∷ vs) = (has_version v vs ≡ false) × IsDistinct vs

has_version-concat :
    (v w : String) (vs : List String)
    → has_version v (vs ++ w ∷ []) ≡ (has_version v vs || str_eq w v)
unfolding has_version
has_version-concat v w [] = ground arith
has_version-concat v w (u ∷ us) = ground (arith, has_version-concat v w us)

IsDistinct-concat :
    (v : String) (vs : List String)
    → IsDistinct vs
    → has_version v vs ≡ false
    → IsDistinct (vs ++ v ∷ [])
unfolding IsDistinct has_version
IsDistinct-concat v [] d h = (refl, tt)
IsDistinct-concat v (u ∷ us) d h = (
  ground (arith, d.0, h, has_version-concat u v us, eq_iff u v, eq_iff v u),
  IsDistinct-concat v us d.1 (ground (arith, h)),
)

module _ {S : Type 0} (run : String → S → Result S) (content : String → String) where
  -- the scripts of the versions, run in order
  unfoldable pub replay : List String → S → Result S
  replay [] s = ok s
  replay (v ∷ vs) s = elim (run (content v) s) [ err e ↦ err e | ok s' ↦ replay vs s' ]

  replay-concat :
      (vs : List String) (v : String) (s s' s'' : S)
      → replay vs s ≡ ok s'
      → run (content v) s' ≡ ok s''
      → replay (vs ++ v ∷ []) s ≡ ok s''
  unfolding replay
  replay-concat [] v s s' s'' h k = ground (arith, h, k)
  replay-concat (u ∷ us) v s s' s'' h k = elim (Result-cases (run (content u) s)) [
    | inl (t, ran) ↦ rw (ran, replay) (replay-concat us v t s' s'' (ground (arith, h, ran)) k)
    | inr (e, failed) ↦ ground (arith, h, failed)
  ]

  module _ (s₀ : S) where
    -- the database is what its versions make of the empty one
    pub record IsReplayed (db : Database S) : Type 0 where
      pub distinct : IsDistinct db.versions
      pub replayed : replay db.versions s₀ ≡ ok db.schema

    -- one more script, which ran
    IsReplayed-next :
        (name : String) (schema : S) (db : Database S)
        → IsReplayed db
        → has_version name db.versions ≡ false
        → run (content name) db.schema ≡ ok schema
        → IsReplayed (record { versions = db.versions ++ name ∷ []; schema = schema })
    IsReplayed-next name schema db h new ran = record {
      distinct = IsDistinct-concat name db.versions h.distinct new;
      replayed = replay-concat db.versions name s₀ db.schema schema h.replayed ran;
    }

    module _ (a : Answers) where
      apply_tx-IsReplayed :
          (name : String) (db : Database S)
          → IsReplayed db
          → has_version name db.versions ≡ false
          → IsReplayed (apply_tx run content a name db).1
      unfolding apply_tx commit_tx
      apply_tx-IsReplayed name db h new = elim (Result-cases (run (content name) db.schema)) [
        | inl (schema, ran) ↦
            let next = IsReplayed-next name schema db h new ran in ground (arith, h, next, ran)
        | inr (e, failed) ↦ ground (arith, h, failed)
      ]

      apply_file-IsReplayed :
          (name : String) (db : Database S)
          → IsReplayed db
          → IsReplayed (apply_file run content a name db).1
      unfolding apply_file
      apply_file-IsReplayed name db h = elim (Bool-cases (has_version name db.versions)) [
        | inl old ↦ ground (arith, h, old)
        | inr new ↦ ground (arith, h, new, apply_tx-IsReplayed name db h new)
      ]

      apply_files-IsReplayed :
          (applied names : List String) (db : Database S)
          → IsReplayed db
          → IsReplayed (apply_files run content a applied names db).1
      unfolding apply_files
      apply_files-IsReplayed applied [] db h = h
      apply_files-IsReplayed applied (name ∷ names) db h =
          let after = (apply_file run content a name db).1 in
          let kept = apply_file-IsReplayed name db h in
          ground (
            arith,
            kept,
            apply_files-IsReplayed (applied ++ name ∷ []) names after kept,
            apply_files-IsReplayed applied names after kept,
          )

    -- the states of the database: any calls of Apply, one after another, on directories that may
    -- differ, by replicas that may fail at any stage
    pub data Upgraded : Database S → Type 0 where
      fresh : Upgraded (record { versions = []; schema = s₀ })
      upgraded :
          {db : Database S}
          → (a : Answers) → (entries : List DirEntry) → Upgraded db
          → Upgraded (apply run content a entries db).1

  -- Over any calls of Apply, whatever fails and wherever, no version is recorded twice, and the
  -- schema is exactly what the scripts of the recorded versions make of the empty one, each run once
  -- and in the order of the records. A file's content does not change meanwhile.
  pub Upgraded-IsReplayed : (s₀ : S) (db : Database S) → Upgraded s₀ db → IsReplayed s₀ db
  unfolding apply replay IsDistinct
  Upgraded-IsReplayed s₀ _ fresh = record { distinct = tt; replayed = refl }
  Upgraded-IsReplayed s₀ _ (upgraded {db = db} a entries run_before) =
      let before = Upgraded-IsReplayed s₀ db run_before in
      ground
        (arith, before, apply_files-IsReplayed s₀ a [] (sort_names (sql_files entries)) db before)
