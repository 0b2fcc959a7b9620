-- ===== src/Engineers/Keeps.antt =====
-- The changes of the engineers that are answered with an error.
use enterprise_llm_tracker.Base.{
  String, Bool, true, false, not, ◌||◌, ltb, sym, subst, ◌∙◌, ◌≡◌, refl, ap, Option, none, some,
  List, arith, inl, inr, Option-cases,
}
use enterprise_llm_tracker.Base.Text.{contains}
use enterprise_llm_tracker.Query.{Fault, refused, reply_lost}
use enterprise_llm_tracker.Engineers.{
  EngineerRow, EngineerCreate, EngineerUpdate, EngineerError, Outcome, done, failed_with, other,
  error_of, Server, create_engineer, insert_row, update_engineer, update_rounded, update_hit,
  deactivate_engineer,
}
use enterprise_llm_tracker.Engineers.Service.{
  Texts, State, Faults, clean_create, check_create, clean_update, check_update, create, update,
  deactivate, settle, status_of_error,
}
use enterprise_llm_tracker.Float.{Float}

-- the statement was carried out and its reply was lost
abbrev pub is_lost : Option Fault → Bool
is_lost none = false
is_lost (some (refused e)) = false
is_lost (some (reply_lost e)) = true

-- the error of a lost reply is not one of the server's
abbrev pub is_plain : Option Fault → Bool
is_plain none = true
is_plain (some (refused e)) = true
is_plain (some (reply_lost e)) = not (contains e "SQLSTATE 23505")

-- the error is the client's, or the reply of the statement arrived
abbrev pub is_told : Option Fault → EngineerError → Bool
is_told fault e = ltb (status_of_error e) 500 || not (is_lost fault)

abbrev error_or : {A : Type 0} → EngineerError → Outcome A → EngineerError
error_or e (done a) = e
error_or e (failed_with e') = e'

failed_injective :
    {A : Type 0} (o : Outcome A) (e : EngineerError) → o ≡ failed_with e → error_or e o ≡ e
failed_injective o e h = ap (error_or e) h

lost_is_unknown : (x y : String) → ¬ (is_told (some (reply_lost x)) (other y) ≡ true)
unfolding status_of_error
lost_is_unknown x y h = absurd (ground (arith, h))

lost_is_other :
    (x : String) (e : EngineerError)
    → is_plain (some (reply_lost x)) ≡ true
    → is_told (some (reply_lost x)) e ≡ true
    → ¬ (error_of x ≡ e)
unfolding error_of
lost_is_other x e plain told h =
    let unnamed : contains x "SQLSTATE 23505" ≡ false = ground (arith, plain) in
    lost_is_unknown x x
      (subst (λ e'. is_told (some (reply_lost x)) e' ≡ true) (sym h ∙ rw unnamed refl) told)

module _ {F : Type 0} (fl : Float F) (sv : Server F) where
  create_engineer-keeps :
      (fault : Option Fault) (input : EngineerCreate F) (t : List (EngineerRow F))
      (e : EngineerError)
      → is_plain fault ≡ true
      → is_told fault e ≡ true
      → (create_engineer fl sv fault input t).0 ≡ failed_with e
      → (create_engineer fl sv fault input t).1 ≡ t
  unfolding create_engineer insert_row
  create_engineer-keeps (some (refused x)) input t e plain told h = refl
  create_engineer-keeps (some (reply_lost x)) input t e plain told h =
      absurd (lost_is_other x e plain told (failed_injective _ e h))
  create_engineer-keeps none input t e plain told h = ground (arith, h)

  update_engineer-keeps :
      (fault : Option Fault) (email : String) (input : EngineerUpdate F) (t : List (EngineerRow F))
      (e : EngineerError)
      → is_plain fault ≡ true
      → is_told fault e ≡ true
      → (update_engineer fl sv fault email input t).0 ≡ failed_with e
      → (update_engineer fl sv fault email input t).1 ≡ t
  unfolding update_engineer update_rounded update_hit
  update_engineer-keeps (some (refused x)) email input t e plain told h = refl
  update_engineer-keeps (some (reply_lost x)) email input t e plain told h =
      absurd (lost_is_other x e plain told (failed_injective _ e h))
  update_engineer-keeps none email input t e plain told h = ground (arith, h)

  deactivate_engineer-keeps :
      (fault : Option Fault) (email : String) (t : List (EngineerRow F)) (e : EngineerError)
      → is_plain fault ≡ true
      → is_told fault e ≡ true
      → (deactivate_engineer fl sv fault email t).0 ≡ failed_with e
      → (deactivate_engineer fl sv fault email t).1 ≡ t
  unfolding deactivate_engineer
  deactivate_engineer-keeps (some (refused x)) email t e plain told h = refl
  deactivate_engineer-keeps (some (reply_lost x)) email t e plain told h = absurd (
      lost_is_unknown x x
        (subst (λ e'. is_told (some (reply_lost x)) e' ≡ true) (sym (failed_injective _ e h)) told))
  deactivate_engineer-keeps none email t e plain told h = ground (arith, h)

  -- an error of the statement leaves the table and the registry
  settle-keeps :
      {A : Type 0} (fault : Option String) (out : Outcome A × List (EngineerRow F)) (s : State F)
      (e : EngineerError)
      → (out.0 ≡ failed_with e → out.1 ≡ s.table)
      → (settle fl sv fault out s.registry).0 ≡ failed_with e
      → (settle fl sv fault out s.registry).1 ≡ s
  unfolding settle
  settle-keeps fault (failed_with e', t) s e keeps h = ap (λ t'. record s { table = t' }) (keeps h)
  settle-keeps fault (done a, t) s e keeps h = absurd (ground (arith, h))

  pub create-keeps :
      (texts : Texts) (faults : Faults) (input : EngineerCreate F) (s : State F) (e : EngineerError)
      → is_plain faults.statement ≡ true
      → is_told faults.statement e ≡ true
      → (create fl sv texts faults input s).0 ≡ failed_with e
      → (create fl sv texts faults input s).1 ≡ s
  unfolding create
  create-keeps texts faults input s e plain told h =
      let cleaned = clean_create fl texts input in
      let out = create_engineer fl sv faults.statement cleaned s.table in
      let keeps = create_engineer-keeps faults.statement cleaned s.table e plain told in
      elim (Option-cases (check_create fl texts cleaned)) [
        | inl fine ↦
            rw (fine, create) (settle-keeps faults.refresh out s e keeps (rw (fine, create) at h))
        | inr (e', bad) ↦ rw (bad, create) refl
      ]

  pub update-keeps :
      (faults : Faults) (email : String) (input : EngineerUpdate F) (s : State F)
      (e : EngineerError)
      → is_plain faults.statement ≡ true
      → is_told faults.statement e ≡ true
      → (update fl sv faults email input s).0 ≡ failed_with e
      → (update fl sv faults email input s).1 ≡ s
  unfolding update
  update-keeps faults email input s e plain told h =
      let cleaned = clean_update fl input in
      let out = update_engineer fl sv faults.statement email cleaned s.table in
      let keeps = update_engineer-keeps faults.statement email cleaned s.table e plain told in
      elim (Option-cases (check_update fl cleaned)) [
        | inl fine ↦
            rw (fine, update) (settle-keeps faults.refresh out s e keeps (rw (fine, update) at h))
        | inr (e', bad) ↦ rw (bad, update) refl
      ]

  pub deactivate-keeps :
      (faults : Faults) (email : String) (s : State F) (e : EngineerError)
      → is_plain faults.statement ≡ true
      → is_told faults.statement e ≡ true
      → (deactivate fl sv faults email s).0 ≡ failed_with e
      → (deactivate fl sv faults email s).1 ≡ s
  unfolding deactivate
  deactivate-keeps faults email s e plain told h =
      settle-keeps faults.refresh (deactivate_engineer fl sv faults.statement email s.table) s e
        (deactivate_engineer-keeps faults.statement email s.table e plain told) h
