-- ===== src/Ingest/Attribution.antt =====
-- Whose usage a data point is.
use enterprise_llm_tracker.Base.{
  String, Bool, true, false, not, ◌≡◌, sym, ap, ◌∙◌, ◌⊎◌, Bool-cases, Option, none, some, List, [],
  ◌∷◌, arith, str_eq, if◌then◌else◌, Option-cases, inl, inr,
}
use mathlib.Core.Bool.{false≢true}
use enterprise_llm_tracker.Base.Dict.{Dict}
use enterprise_llm_tracker.Ingest.{attr, resolve, lookup_in, lookup_engineer}
use enterprise_llm_tracker.Registry.{Engineer, Registry, lookup_by_email}

-- the first text that is not empty
pub first_given : List String → Option String
first_given [] = none
first_given (s ∷ ss) = if not (str_eq s "") then some s else first_given ss

lookup_in_cases :
    {F : Type 0} (reg : Registry F) (attrs : Dict String) (rest : String × Bool)
    → ((identity : String) × (lookup_in reg attrs rest ≡ resolve reg identity))
      ⊎ (lookup_in reg attrs rest ≡ rest)
unfolding lookup_in
lookup_in_cases reg attrs rest = elim (Bool-cases (str_eq (attr "user.email" attrs) "")) [
  | inl no_email ↦ elim (Bool-cases (str_eq (attr "enduser.id" attrs) "")) [
    | inl no_id ↦ inr (ground arith)
    | inr id ↦ inl (attr "enduser.id" attrs, ground arith)
  ]
  | inr email ↦ inl (attr "user.email" attrs, ground arith)
]

module _ {F : Type 0} (reg : Registry F) (dp_attrs res_attrs : Dict String) where
  -- The identity is the first that is given of the data point's user.email and enduser.id and the
  -- resource's user.email and enduser.id, in this order, and the registry decides on it alone: an
  -- identity that is not registered is not replaced by a later one.
  pub lookup_engineer_first :
      lookup_engineer reg dp_attrs res_attrs
      ≡ elim (first_given (
          attr "user.email" dp_attrs
          ∷ attr "enduser.id" dp_attrs
          ∷ attr "user.email" res_attrs
          ∷ attr "enduser.id" res_attrs
          ∷ [])) [ none ↦ ("", false) | some identity ↦ resolve reg identity ]
  unfolding lookup_engineer first_given
  lookup_engineer_first = ground arith

  resolve_known :
      (identity : String)
      → (resolve reg identity).1 ≡ true
      → (eng : Engineer F) × (lookup_by_email reg identity ≡ some eng)
        × ((resolve reg identity).0 ≡ eng.email)
  unfolding resolve
  resolve_known identity h = elim (Option-cases (lookup_by_email reg identity)) [
    | inl missing ↦ absurd (ground (arith, missing))
    | inr (eng, found) ↦ (eng, found, rw (found, resolve))
  ]

  -- a known engineer stands in the registry, under one of the four attributes
  pub lookup_engineer_known :
      (lookup_engineer reg dp_attrs res_attrs).1 ≡ true
      → (identity : String) × (eng : Engineer F) × (lookup_by_email reg identity ≡ some eng)
        × ((lookup_engineer reg dp_attrs res_attrs).0 ≡ eng.email)
  unfolding lookup_engineer
  lookup_engineer_known h =
      elim (lookup_in_cases reg dp_attrs (lookup_in reg res_attrs ("", false))) [
        | inl (identity, e) ↦
            let (eng, found, same) = resolve_known identity (ap (λ p. p.1) (sym e) ∙ h) in
            (identity, eng, found, ap (λ p. p.0) e ∙ same)
        | inr e ↦ elim (lookup_in_cases reg res_attrs ("", false)) [
          | inl (identity, e₂) ↦
              let (eng, found, same) = resolve_known identity (ap (λ p. p.1) (sym (e ∙ e₂)) ∙ h) in
              (identity, eng, found, ap (λ p. p.0) (e ∙ e₂) ∙ same)
          | inr e₂ ↦ absurd (false≢true (ap (λ p. p.1) (sym (e ∙ e₂)) ∙ h))
        ]
      ]
