-- ===== src/Engineers/Unique.antt =====
-- The statements keep the unique columns of the engineers table.
use enterprise_llm_tracker.Base.{
  String, false, ◌||◌, ◌≡◌, refl, Option, none, some, List, arith, Bool-cases, Option-cases, inl,
  inr,
}
use enterprise_llm_tracker.Base.Act.{Result, ok, err}
use enterprise_llm_tracker.Query.{Fault, refused, reply_lost}
use enterprise_llm_tracker.Engineers.{
  EngineerRow, EngineerCreate, EngineerUpdate, set_rows, Server, has_email, has_github, is_taken,
  is_hit, find_row, budget_or, new_row, insert_row, create_engineer, patch, round_given, update_hit,
  update_rounded, update_engineer, deactivate_engineer,
}
use enterprise_llm_tracker.Float.{Float}
use enterprise_llm_tracker.Engineers.Columns.{
  IsUnique, set_rows-IsUnique, set_rows_kept-IsUnique, snoc-IsUnique,
}

module _ {F : Type 0} (fl : Float F) (sv : Server F) where
  insert_row-IsUnique :
      (input : EngineerCreate F) (daily monthly : Result F) (t : List (EngineerRow F))
      → IsUnique t
      → IsUnique (insert_row fl sv input daily monthly t).1
  unfolding insert_row new_row
  insert_row-IsUnique input (err e) monthly t u = u
  insert_row-IsUnique input (ok daily) (err e) t u = u
  insert_row-IsUnique input (ok daily) (ok monthly) t u =
      elim (Bool-cases (has_email input.email t || has_github input.github_username t)) [
        | inl held ↦ rw held u
        | inr free ↦ rw free (
            snoc-IsUnique (new_row fl sv input daily monthly) t u (ground (arith, free))
              (ground (arith, free)))
      ]

  update_hit-IsUnique :
      (email : String) (input : EngineerUpdate F) (daily monthly : Option F)
      (found : Option (EngineerRow F)) (t : List (EngineerRow F))
      → find_row (is_hit email) t ≡ found
      → IsUnique t
      → IsUnique (update_hit fl sv email input daily monthly found t).1
  unfolding update_hit patch
  update_hit-IsUnique email input daily monthly none t same u = u
  update_hit-IsUnique email input daily monthly (some r) t same u =
      let g = (patch fl sv input daily monthly r).github_username in
      elim (Bool-cases (is_taken g email t)) [
        | inl taken ↦ rw taken u
        | inr free ↦ rw free (
            set_rows-IsUnique email (patch fl sv input daily monthly) t r
              (patch_email input daily monthly) u same free)
      ]
    where
      patch_email :
          (input : EngineerUpdate F) (daily monthly : Option F) (r : EngineerRow F)
          → (patch fl sv input daily monthly r).email ≡ r.email
      patch_email input daily monthly r = refl

  update_rounded-IsUnique :
      (email : String) (input : EngineerUpdate F) (daily monthly : Result (Option F))
      (t : List (EngineerRow F))
      → IsUnique t
      → IsUnique (update_rounded fl sv email input daily monthly t).1
  unfolding update_rounded
  update_rounded-IsUnique email input (err e) monthly t u = u
  update_rounded-IsUnique email input (ok daily) (err e) t u = u
  update_rounded-IsUnique email input (ok daily) (ok monthly) t u =
      update_hit-IsUnique email input daily monthly (find_row (is_hit email) t) t refl u

  created :
      (input : EngineerCreate F) (t : List (EngineerRow F))
      → IsUnique t
      → IsUnique (create_engineer fl sv none input t).1
  unfolding create_engineer
  created input t u =
      insert_row-IsUnique input
        (sv.numeric (budget_or fl sv (fl.decimal 2500 2) input.daily_budget_usd))
        (sv.numeric (budget_or fl sv (fl.decimal 50000 2) input.monthly_budget_usd)) t u

  updated :
      (email : String) (input : EngineerUpdate F) (t : List (EngineerRow F))
      → IsUnique t
      → IsUnique (update_engineer fl sv none email input t).1
  unfolding update_engineer
  updated email input t u =
      update_rounded-IsUnique email input (round_given fl sv input.daily_budget_usd)
        (round_given fl sv input.monthly_budget_usd) t u

  deactivated_all :
      (email : String) (t : List (EngineerRow F))
      → IsUnique t
      → IsUnique (set_rows (is_hit email) (λ r. record r { active = false; updated_at = sv.now }) t)
  deactivated_all email t u =
      set_rows_kept-IsUnique (is_hit email) (λ r. record r { active = false; updated_at = sv.now })
        t (λ _. refl) (λ _. refl) u

  pub statements-IsUnique :
      (fault : Option Fault) (t : List (EngineerRow F))
      → IsUnique t
      → ((input : EngineerCreate F) → IsUnique (create_engineer fl sv fault input t).1)
        × ((email : String) (input : EngineerUpdate F)
            → IsUnique (update_engineer fl sv fault email input t).1)
        × ((email : String) → IsUnique (deactivate_engineer fl sv fault email t).1)
  unfolding create_engineer update_engineer deactivate_engineer
  statements-IsUnique (some (refused e)) t u = (λ input. u, λ email input. u, λ email. u)
  statements-IsUnique (some (reply_lost e)) t u = (
    λ input. created input t u,
    λ email input. updated email input t u,
    λ email. deactivated_all email t u,
  )
  statements-IsUnique none t u = (
    λ input. created input t u,
    λ email input. updated email input t u,
    λ email. elim (Option-cases (find_row (is_hit email) t)) [
      | inl nobody ↦ rw (nobody, deactivate_engineer) u
      | inr (r, found) ↦ rw (found, deactivate_engineer) (deactivated_all email t u)
    ],
  )
