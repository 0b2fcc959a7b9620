-- ===== src/Migrate/Complete.antt =====
-- What a call of Apply that returns no error has done, and what the next one does.
use enterprise_llm_tracker.Base.{
  String, Bool, true, false, ◌≡◌, refl, sym, ap, ◌∙◌, Option, none, List, [], ◌∷◌, ◌++◌, All,
  eq_refl, if◌then◌else◌, arith, inl, inr, Option-cases,
}
use mathlib.Core.List.{append_assoc, append-nil}
use enterprise_llm_tracker.Base.Act.{Result, ok, Result-cases}
use enterprise_llm_tracker.Migrate.{
  Stage, acquire, lock, ensure, read_dir, check, Database, DirEntry, Answers, has_version,
  commit_tx, apply_tx, apply_file, apply_files, apply, sort_names, sql_files, prepare,
}

has_version-append :
    (v : String) (us ws : List String) → has_version v us ≡ true → has_version v (us ++ ws) ≡ true
unfolding has_version
has_version-append v [] ws h = ground (arith, h)
has_version-append v (u ∷ us) ws h = ground (arith, h, has_version-append v us ws)

has_version-last : (v : String) (us : List String) → has_version v (us ++ v ∷ []) ≡ true
unfolding has_version
has_version-last v [] = ground (arith, eq_refl v)
has_version-last v (u ∷ us) = ground (arith, has_version-last v us)

module _ {S : Type 0} (run : String → S → Result S) (content : String → String) where
  -- a round without an error: the file is recorded afterwards, by this round if it was not before
  pub record IsRound (name : String) (db : Database S) (result : Bool) (after : Database S)
      : Type 0 where
    pub recorded : has_version name after.versions ≡ true
    pub grown : after.versions ≡ (if result then db.versions ++ name ∷ [] else db.versions)

  module _ (a : Answers) where
    tx_grown :
        (name : String) (db : Database S) (result : Bool)
        → (apply_tx run content a name db).0 ≡ ok result
        → (result ≡ true) × ((apply_tx run content a name db).1.versions ≡ db.versions ++ name ∷ [])
    unfolding apply_tx commit_tx
    tx_grown name db result h = (ground (arith, h), ground (arith, h))

    IsRound-of_file :
        (name : String) (db : Database S) (result : Bool)
        → (apply_file run content a name db).0 ≡ ok result
        → IsRound name db result (apply_file run content a name db).1
    unfolding apply_file
    IsRound-of_file name db result h = record {
      recorded = ground (arith, h, tx_grown name db result, has_version-last name db.versions);
      grown = ground (arith, h, tx_grown name db result);
    }

    -- what the loop has added when it ends without an error
    pub record IsComplete (applied names : List String) (db : Database S)
        (out : (List String × Option String) × Database S) : Type 0 where
      pub added : List String
      pub returned : out.0.0 ≡ applied ++ added
      pub versions : out.1.versions ≡ db.versions ++ added
      pub recorded : All (λ name. has_version name out.1.versions ≡ true) names

    nothing_left :
        (applied : List String) (db : Database S) → IsComplete applied [] db ((applied, none), db)
    nothing_left applied db = record {
      added = [];
      returned = sym (append-nil applied);
      versions = sym (append-nil db.versions);
      recorded = tt;
    }

    -- a round, and then the rest of the loop
    after_round :
        (applied names : List String) (name : String) (db after : Database S) (result : Bool)
        (out : (List String × Option String) × Database S)
        → IsRound name db result after
        → IsComplete (if result then applied ++ name ∷ [] else applied) names after out
        → IsComplete applied (name ∷ names) db out
    after_round applied names name db after true out step rest = record {
      added = name ∷ rest.added;
      returned = rest.returned ∙ append_assoc applied (name ∷ []) rest.added;
      versions =
          rest.versions
          ∙ ap (λ vs. vs ++ rest.added) step.grown
          ∙ append_assoc db.versions (name ∷ []) rest.added;
      recorded = (
        rw rest.versions (has_version-append name after.versions rest.added step.recorded),
        rest.recorded,
      );
    }
    after_round applied names name db after false out step rest = record {
      added = rest.added;
      returned = rest.returned;
      versions = rest.versions ∙ ap (λ vs. vs ++ rest.added) step.grown;
      recorded = (
        rw rest.versions (has_version-append name after.versions rest.added step.recorded),
        rest.recorded,
      );
    }

    apply_files-IsComplete :
        (applied names : List String) (db : Database S)
        → (apply_files run content a applied names db).0.1 ≡ none
        → IsComplete applied names db (apply_files run content a applied names db)
    unfolding apply_files
    apply_files-IsComplete applied [] db h = nothing_left applied db
    apply_files-IsComplete applied (name ∷ names) db h =
        let after = (apply_file run content a name db).1 in
        elim (Result-cases (apply_file run content a name db).0) [
          | inl (true, e) ↦
              rw (e, apply_files)
                (after_round applied names name db after true
                  (apply_files run content a (applied ++ name ∷ []) names after)
                  (IsRound-of_file name db true e)
                  (apply_files-IsComplete (applied ++ name ∷ []) names after
                    (ground (arith, h, e))))
          | inl (false, e) ↦
              rw (e, apply_files)
                (after_round applied names name db after false
                  (apply_files run content a applied names after) (IsRound-of_file name db false e)
                  (apply_files-IsComplete applied names after (ground (arith, h, e))))
          | inr (reason, e) ↦ absurd (ground (arith, h, e))
        ]

  -- a file that is recorded is passed over
  skip_files :
      (b : Answers) (names : List String) (db : Database S)
      → ((n : String) → b.fault check n ≡ none)
      → All (λ name. has_version name db.versions ≡ true) names
      → apply_files run content b [] names db ≡ (([], none), db)
  unfolding apply_files apply_file
  skip_files b [] db f h = refl
  skip_files b (name ∷ names) db f h = ground (arith, f name, h.0, skip_files b names db f h.1)

  -- A call of Apply that returns no error returns exactly the versions that it has added, in order,
  -- behind the earlier ones, and every SQL file of the directory is recorded then. The next call on
  -- the same directory, if its own queries succeed, applies nothing and changes nothing.
  pub apply_complete :
      (a b : Answers) (entries : List DirEntry) (db : Database S)
      → (apply run content a entries db).0.1 ≡ none
      → ((s : Stage) (n : String) → b.fault s n ≡ none)
      → let out = apply run content a entries db in
        (out.1.versions ≡ db.versions ++ out.0.0)
        × All (λ name. has_version name out.1.versions ≡ true) (sort_names (sql_files entries))
        × (apply run content b entries out.1 ≡ (([], none), out.1))
  unfolding apply prepare
  apply_complete a b entries db h f =
      let stages : List Stage = acquire ∷ lock ∷ ensure ∷ read_dir ∷ [] in
      let files = sort_names (sql_files entries) in
      elim (Option-cases (prepare run content a stages)) [
        | inl ready ↦
            let done = apply_files-IsComplete a [] files db (ground (arith, h, ready)) in
            let out = apply_files run content a [] files db in
            rw (ready, apply)
              (
                done.versions ∙ ap (λ vs. db.versions ++ vs) (sym done.returned),
                done.recorded,
                ground (
                  arith,
                  f acquire "",
                  f lock "",
                  f ensure "",
                  f read_dir "",
                  skip_files b files out.1 (f check) done.recorded,
                ),
              )
        | inr (e, failed) ↦ absurd (ground (arith, h, failed))
      ]
