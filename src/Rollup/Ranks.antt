-- ===== src/Rollup/Ranks.antt =====
-- The ranks of a cohort.
use enterprise_llm_tracker.Base.{
  suc, ◌≤◌, String, true, ◌≡◌, refl, sym, ap, Option, none, some, List, [], ◌∷◌, All, length, map,
  count_if_mono, count_if-le-length, ltb, arith, if◌then◌else◌, Bool-cases, inl, inr,
}
use enterprise_llm_tracker.Float.{Float, IsOrdered}
use enterprise_llm_tracker.Rollup.{at_or_above, valid_costs, updates_of, back_fill, median_of}

-- the engineers for whom the cost per pull request is defined
unfoldable pub emails_of : {F : Type 0} → List (String × Option F) → List String
emails_of [] = []
emails_of ((email, none) ∷ ds) = emails_of ds
emails_of ((email, some d) ∷ ds) = email ∷ emails_of ds

module _ {F : Type 0} (fl : Float F) where
  module _ (ordered : IsOrdered fl) where
    le_trans : (a b c : F) → fl.le a b ≡ true → fl.le b c ≡ true → fl.le a c ≡ true
    le_trans a b c h k = ground (
      arith,
      h,
      k,
      ordered.le-eq-not-lt a b,
      ordered.le-eq-not-lt b c,
      ordered.le-eq-not-lt a c,
      ordered.lt_cotrans c b a,
    )

    -- A cheaper cost per pull request is at or below at least as many of the cohort, so its rank is
    -- no lower: the cheapest has the highest one.
    pub at_or_above_mono :
        (cohort : List F) (cheap dear : F)
        → fl.le cheap dear ≡ true
        → (at_or_above fl dear cohort ≤ at_or_above fl cheap cohort)
          × (at_or_above fl cheap cohort ≤ length cohort)
    unfolding at_or_above
    at_or_above_mono cohort cheap dear h = (
      count_if_mono (λ v. fl.le cheap v) (λ v. fl.le dear v) cohort
          (λ v k. le_trans cheap dear v h k),
      count_if-le-length (λ v. fl.le cheap v) cohort,
    )

  updates-emails :
      (valid : List F) (ds : List (String × Option F))
      → (map (λ u. u.0) (updates_of fl valid ds) ≡ emails_of ds)
        × All (λ u. u.1 ≡ median_of fl valid) (updates_of fl valid ds)
  unfolding updates_of emails_of
  updates-emails valid [] = (refl, tt)
  updates-emails valid ((email, none) ∷ ds) = updates-emails valid ds
  updates-emails valid ((email, some d) ∷ ds) =
      let (emails, same) = updates-emails valid ds in (ap (λ es. email ∷ es) emails, (refl, same))

  length-valid_costs :
      (ds : List (String × Option F)) → length (valid_costs fl ds) ≡ length (emails_of ds)
  unfolding valid_costs emails_of
  length-valid_costs [] = refl
  length-valid_costs ((email, none) ∷ ds) = length-valid_costs ds
  length-valid_costs ((email, some d) ∷ ds) = ap suc (length-valid_costs ds)

  -- The back-fill touches nobody if fewer than three engineers have a cost per pull request, and
  -- otherwise exactly those who have one, in their order, each with the same median of all of them.
  pub back_fill_emails :
      (ds : List (String × Option F))
      → (map (λ u. u.0) (back_fill fl ds)
          ≡ (if ltb (length (emails_of ds)) 3 then [] else emails_of ds))
        × All (λ u. u.1 ≡ median_of fl (valid_costs fl ds)) (back_fill fl ds)
  unfolding back_fill
  back_fill_emails ds =
      let same = ap (λ n. ltb n 3) (length-valid_costs ds) in
      elim (Bool-cases (ltb (length (valid_costs fl ds)) 3)) [
        | inl few ↦ rw (sym same, few, back_fill) (refl, tt)
        | inr enough ↦ rw (sym same, enough, back_fill) (updates-emails (valid_costs fl ds) ds)
      ]
