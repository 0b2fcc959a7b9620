-- ===== src/Engineers/Known.antt =====
-- Which engineers the registry knows after a change.
use enterprise_llm_tracker.Base.{
  String, Bool, true, false, ◌||◌, ◌≡◌, refl, sym, ap, ◌∙◌, subst, Option, none, some, List, [],
  ◌∷◌, ◌++◌, arith, if◌then◌else◌, Bool-cases, Option-cases, inl, inr, eq_refl,
}
use enterprise_llm_tracker.Base.Act.{Result, ok, err}
use enterprise_llm_tracker.Query.{Fault, refused, reply_lost}
use enterprise_llm_tracker.Engineers.{
  EngineerRow, EngineerCreate, exists, Outcome, done, failed_with, Server, has_email, has_github,
  is_hit, find_row, new_row, insert_row, budget_or, create_engineer, deactivate_engineer,
}
use enterprise_llm_tracker.Engineers.Service.{
  State, Texts, to_registry, refresh_registry, settle, create, deactivate, clean_create,
  check_create,
}
use enterprise_llm_tracker.Engineers.Columns.{IsUnique}
use enterprise_llm_tracker.Engineers.Unique.{statements-IsUnique}
use enterprise_llm_tracker.Float.{Float}
use enterprise_llm_tracker.Registry.{Registry, lookup_by_email}
use enterprise_llm_tracker.Engineers.Refresh.{
  as_engineer, refresh_registry_known, find_row-snoc, gone,
}

abbrev insert_if :
    {F : Type 0}
    → Bool
    → EngineerRow F
    → List (EngineerRow F)
    → Outcome (EngineerRow F) × List (EngineerRow F)
insert_if held n t = if held then (failed_with exists, t) else (done n, t ++ n ∷ [])

abbrev outcome_or : {A : Type 0} → A → Outcome A → A
outcome_or b (done a) = a
outcome_or b (failed_with e) = b

module _ {F : Type 0} (fl : Float F) (sv : Server F) where
  -- what an INSERT that succeeded has done
  record IsInserted (input : EngineerCreate F) (t t' : List (EngineerRow F)) (r : EngineerRow F)
      : Type 0 where
    appended : t' ≡ t ++ r ∷ []
    with_email : r.email ≡ input.email
    is_active : r.active ≡ true
    was_free : has_email input.email t ≡ false

  insert_row-IsInserted :
      (input : EngineerCreate F) (daily monthly : Result F) (t : List (EngineerRow F))
      (r : EngineerRow F)
      → (insert_row fl sv input daily monthly t).0 ≡ done r
      → IsInserted input t (insert_row fl sv input daily monthly t).1 r
  unfolding insert_row new_row
  insert_row-IsInserted input (err e) monthly t r h = absurd (ground (arith, h))
  insert_row-IsInserted input (ok daily) (err e) t r h = absurd (ground (arith, h))
  insert_row-IsInserted input (ok daily) (ok monthly) t r h =
      elim (Bool-cases (has_email input.email t || has_github input.github_username t)) [
        | inl held ↦ absurd (ground (arith, held, h))
        | inr free ↦
            let n = new_row fl sv input daily monthly in
            let chosen : done n ≡ done r = ap (λ b. (insert_if b n t).0) (sym free) ∙ h in
            rw free (
              subst (IsInserted input t (t ++ n ∷ [])) (ap (outcome_or r) chosen) (record {
                appended = refl;
                with_email = refl;
                is_active = refl;
                was_free = ground (arith, free);
              }))
      ]

  create_engineer-IsInserted :
      (fault : Option Fault) (input : EngineerCreate F) (t : List (EngineerRow F))
      (r : EngineerRow F)
      → (create_engineer fl sv fault input t).0 ≡ done r
      → IsInserted input t (create_engineer fl sv fault input t).1 r
  unfolding create_engineer
  create_engineer-IsInserted (some (refused e)) input t r h = absurd (ground (arith, h))
  create_engineer-IsInserted (some (reply_lost e)) input t r h = absurd (ground (arith, h))
  create_engineer-IsInserted none input t r h =
      insert_row-IsInserted input
        (sv.numeric (budget_or fl sv (fl.decimal 2500 2) input.daily_budget_usd))
        (sv.numeric (budget_or fl sv (fl.decimal 50000 2) input.monthly_budget_usd)) t r h

  deactivated :
      (fault : Option Fault) (email : String) (t : List (EngineerRow F))
      → (deactivate_engineer fl sv fault email t).0 ≡ done tt
      → find_row (is_hit email) (deactivate_engineer fl sv fault email t).1 ≡ none
  unfolding deactivate_engineer
  deactivated (some (refused e)) email t h = absurd (ground (arith, h))
  deactivated (some (reply_lost e)) email t h = absurd (ground (arith, h))
  deactivated none email t h = elim (Option-cases (find_row (is_hit email) t)) [
    | inl nobody ↦ absurd (ground (arith, nobody, h))
    | inr (r, found) ↦
        rw (found, deactivate_engineer)
          (gone email (λ r. record r { active = false; updated_at = sv.now }) t (λ _. refl))
  ]

  -- the registry after a change that succeeded and a refresh that did
  settled :
      {A : Type 0} (a : A) (o : Outcome A × List (EngineerRow F)) (reg : Registry F)
      (email : String) (found : Option (EngineerRow F))
      → o.0 ≡ done a
      → IsUnique o.1
      → find_row (is_hit email) o.1 ≡ found
      → ((settle fl sv none o reg).1.table ≡ o.1)
        × (lookup_by_email (settle fl sv none o reg).1.registry email ≡ as_engineer found)
  unfolding settle refresh_registry
  settled a (failed_with e, t) reg email found h u f = absurd (ground (arith, h))
  settled a (done b, t) reg email found h u f =
      (refl, refresh_registry_known fl sv t reg email u ∙ ap as_engineer f)

  settle_outcome :
      {A : Type 0} (fault : Option String) (o : Outcome A × List (EngineerRow F)) (reg : Registry F)
      → (settle fl sv fault o reg).0 ≡ o.0
  unfolding settle
  settle_outcome fault (failed_with e, t) reg = refl
  settle_outcome fault (done a, t) reg = refl

  inserted_known :
      (input : EngineerCreate F) (t : List (EngineerRow F)) (r : EngineerRow F)
      (o : Outcome (EngineerRow F) × List (EngineerRow F)) (reg : Registry F)
      → o.0 ≡ done r
      → IsInserted input t o.1 r
      → IsUnique o.1
      → let after = settle fl sv none o reg in
        (after.1.table ≡ t ++ r ∷ [])
        × (r.email ≡ input.email)
        × (has_email r.email t ≡ false)
        × (lookup_by_email after.1.registry r.email ≡ some (to_registry r))
        × IsUnique after.1.table
  inserted_known input t r o reg h ins u =
      let free : has_email r.email t ≡ false =
        subst (λ e. has_email e t ≡ false) (sym ins.with_email) ins.was_free in
      let found =
        ap (find_row (is_hit r.email)) ins.appended
        ∙ find_row-snoc r.email r t free (ground (arith, ins.is_active, eq_refl r.email)) in
      let (table, known) = settled r o reg r.email (some r) h u found in
      (table ∙ ins.appended, ins.with_email, free, known, subst IsUnique (sym table) u)

  -- If creating an engineer and the refresh of the registry succeed, on a table with unique emails,
  -- the table has gained exactly the returned row, under the trimmed lower-case email, which was
  -- free; the ingest path finds the engineer under this email, and the table is unique still.
  pub create_known :
      (texts : Texts) (fault : Option Fault) (input : EngineerCreate F) (s : State F)
      (r : EngineerRow F)
      → let after = create fl sv texts (record { statement = fault; refresh = none }) input s in
        IsUnique s.table
        → after.0 ≡ done r
        → (after.1.table ≡ s.table ++ r ∷ [])
          × (r.email ≡ (clean_create fl texts input).email)
          × (has_email r.email s.table ≡ false)
          × (lookup_by_email after.1.registry r.email ≡ some (to_registry r))
          × IsUnique after.1.table
  unfolding create
  create_known texts fault input s r u h =
      elim (Option-cases (check_create fl texts (clean_create fl texts input))) [
        | inr (e, invalid) ↦ absurd (ground (arith, invalid, h))
        | inl passed ↦
            let clean = clean_create fl texts input in
            let o = create_engineer fl sv fault clean s.table in
            let succeeded : o.0 ≡ done r =
              sym (settle_outcome none o s.registry) ∙ ground (arith, passed, h) in
            rw (passed, create)
              (inserted_known clean s.table r o s.registry succeeded
                (create_engineer-IsInserted fault clean s.table r succeeded)
                ((statements-IsUnique fl sv fault s.table u).0 clean))
      ]

  -- If deactivating an engineer and the refresh of the registry succeed, on a table with unique
  -- emails, the registry no longer finds the email, and the table is unique still.
  pub deactivate_known :
      (fault : Option Fault) (email : String) (s : State F)
      → let after = deactivate fl sv (record { statement = fault; refresh = none }) email s in
        IsUnique s.table
        → after.0 ≡ done tt
        → (lookup_by_email after.1.registry email ≡ none) × IsUnique after.1.table
  unfolding deactivate
  deactivate_known fault email s u h =
      let o = deactivate_engineer fl sv fault email s.table in
      let unique = (statements-IsUnique fl sv fault s.table u).2 email in
      let succeeded : o.0 ≡ done tt = sym (settle_outcome none o s.registry) ∙ h in
      let (table, known) =
        settled tt o s.registry email none succeeded unique
          (deactivated fault email s.table succeeded) in
      (known, subst IsUnique (sym table) unique)
