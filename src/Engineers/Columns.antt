-- ===== src/Engineers/Columns.antt =====
-- Rows of the engineers table with the two unique columns, and changes of them.
use enterprise_llm_tracker.Base.{
  String, Bool, true, false, ◌||◌, ◌≡◌, refl, sym, ap, ◌∙◌, subst, some, List, [], ◌∷◌, ◌++◌, arith,
  str_eq, if◌then◌else◌, Bool-cases, inl, inr, eq_iff,
}
use enterprise_llm_tracker.Engineers.{
  EngineerRow, has_email, has_github, is_taken, is_hit, find_row, set_rows, or_else,
}

module _ {F : Type 0} where
  -- no two rows share their email or their GitHub name
  unfoldable pub IsUnique : List (EngineerRow F) → Type 0
  IsUnique [] = Unit
  IsUnique (r ∷ rs) =
      (has_email r.email rs ≡ false) × (has_github r.github_username rs ≡ false) × IsUnique rs

  -- a statement that found no active row of the email has none to change
  pub set_rows_none :
      (email : String) (f : EngineerRow F → EngineerRow F) (rs : List (EngineerRow F))
      → has_email email rs ≡ false
      → set_rows (is_hit email) f rs ≡ rs
  unfolding has_email set_rows
  set_rows_none email f [] h = refl
  set_rows_none email f (r ∷ rs) h =
      let other : str_eq r.email email ≡ false = ground (arith, h) in
      rw other (ap (λ t. r ∷ t) (set_rows_none email f rs (ground (arith, h))))

  has_email-set_rows :
      (e : String) (p : EngineerRow F → Bool) (f : EngineerRow F → EngineerRow F)
      (rs : List (EngineerRow F))
      → ((r : EngineerRow F) → (f r).email ≡ r.email)
      → has_email e (set_rows p f rs) ≡ has_email e rs
  unfolding has_email set_rows
  has_email-set_rows e p f [] same = refl
  has_email-set_rows e p f (r ∷ rs) same = elim (Bool-cases (p r)) [
    | inl hit ↦ rw (hit, same r, has_email-set_rows e p f rs same) refl
    | inr missed ↦ rw (missed, has_email-set_rows e p f rs same) refl
  ]

  pub found-has_email :
      (email : String) (rs : List (EngineerRow F)) (r₀ : EngineerRow F)
      → find_row (is_hit email) rs ≡ some r₀
      → has_email email rs ≡ true
  unfolding find_row has_email
  found-has_email email [] r₀ h = absurd (ground (arith, h))
  found-has_email email (r ∷ rs) r₀ h = ground (arith, h, found-has_email email rs r₀)

  head_found :
      (email : String) (r : EngineerRow F) (rs : List (EngineerRow F)) (r₀ : EngineerRow F)
      → is_hit email r ≡ true
      → find_row (is_hit email) (r ∷ rs) ≡ some r₀
      → r ≡ r₀
  unfolding find_row
  head_found email r rs r₀ hit found =
      ap (λ o. or_else o r)
        (sym (ap (λ b. if b then some r else find_row (is_hit email) rs) hit) ∙ found)

  -- behind the row that is hit, nothing is
  tail_kept :
      (email : String) (f : EngineerRow F → EngineerRow F) (r : EngineerRow F)
      (rs : List (EngineerRow F))
      → is_hit email r ≡ true
      → has_email r.email rs ≡ false
      → (has_email email rs ≡ false) × (set_rows (is_hit email) f rs ≡ rs)
  tail_kept email f r rs hit alone =
      let same : r.email ≡ email = (eq_iff r.email email).0 (ground (arith, hit)) in
      let none_left = subst (λ e. has_email e rs ≡ false) same alone in
      (none_left, set_rows_none email f rs none_left)

  untaken :
      (g email : String) (rs : List (EngineerRow F))
      → is_taken g email rs ≡ false
      → has_email email rs ≡ false
      → has_github g rs ≡ false
  unfolding is_taken has_email has_github
  untaken g email [] h k = refl
  untaken g email (r ∷ rs) h k = ground (arith, h, k, untaken g email rs)

  -- a row that is not hit keeps its distance from the new name
  missed_apart :
      (g email : String) (r : EngineerRow F) (rs : List (EngineerRow F))
      → has_email r.email rs ≡ false
      → has_email email rs ≡ true
      → is_taken g email (r ∷ rs) ≡ false
      → str_eq g r.github_username ≡ false
  unfolding is_taken
  missed_apart g email r rs alone present free = elim (Bool-cases (str_eq r.email email)) [
    | inl same ↦ absurd (
        ground (
          arith,
          present,
          subst (λ e. has_email e rs ≡ false) ((eq_iff r.email email).0 same) alone,
        ))
    | inr other ↦
        ground (arith, free, other, eq_iff g r.github_username, eq_iff r.github_username g)
  ]

  -- the GitHub names after a change of the one row that is hit
  has_github-set_rows :
      (email g : String) (f : EngineerRow F → EngineerRow F) (rs : List (EngineerRow F))
      (r₀ : EngineerRow F)
      → IsUnique rs
      → find_row (is_hit email) rs ≡ some r₀
      → has_github g rs ≡ false
      → str_eq (f r₀).github_username g ≡ false
      → has_github g (set_rows (is_hit email) f rs) ≡ false
  unfolding find_row has_github set_rows IsUnique
  has_github-set_rows email g f [] r₀ u found h k = refl
  has_github-set_rows email g f (r ∷ rs) r₀ u found h k = elim (Bool-cases (is_hit email r)) [
    | inl hit ↦
        rw (hit, (tail_kept email f r rs hit u.0).1)
          (ground (
            arith,
            h,
            subst (λ x. str_eq (f x).github_username g ≡ false)
                (sym (head_found email r rs r₀ hit found)) k,
          ))
    | inr missed ↦ rw missed (
        ground (
          arith,
          h,
          has_github-set_rows email g f rs r₀ u.2 (ground (arith, found, missed))
              (ground (arith, h)) k,
        ))
  ]

  -- the row that is changed keeps its email, and its new GitHub name is no other row's
  pub set_rows-IsUnique :
      (email : String) (f : EngineerRow F → EngineerRow F) (rs : List (EngineerRow F))
      (r₀ : EngineerRow F)
      → ((r : EngineerRow F) → (f r).email ≡ r.email)
      → IsUnique rs
      → find_row (is_hit email) rs ≡ some r₀
      → is_taken (f r₀).github_username email rs ≡ false
      → IsUnique (set_rows (is_hit email) f rs)
  unfolding find_row set_rows IsUnique is_taken
  set_rows-IsUnique email f [] r₀ same u found free = tt
  set_rows-IsUnique email f (r ∷ rs) r₀ same u found free = elim (Bool-cases (is_hit email r)) [
    | inl hit ↦
        let kept = tail_kept email f r rs hit u.0 in
        let g' = (f r₀).github_username in
        rw (hit, kept.1)
          (
            subst (λ e. has_email e rs ≡ false) (sym (same r)) u.0,
            subst (λ x. has_github (f x).github_username rs ≡ false)
                (sym (head_found email r rs r₀ hit found))
                (untaken g' email rs (ground (arith, free)) kept.0),
            u.2,
          )
    | inr missed ↦
        let later : find_row (is_hit email) rs ≡ some r₀ = ground (arith, found, missed) in
        let apart =
          missed_apart (f r₀).github_username email r rs u.0 (found-has_email email rs r₀ later)
            free in
        rw missed (
          has_email-set_rows r.email (is_hit email) f rs same ∙ u.0,
          has_github-set_rows email r.github_username f rs r₀ u.2 later u.1 apart,
          set_rows-IsUnique email f rs r₀ same u.2 later (ground (arith, free)),
        )
  ]

  -- a change that keeps both columns
  pub set_rows_kept-IsUnique :
      (p : EngineerRow F → Bool) (f : EngineerRow F → EngineerRow F) (rs : List (EngineerRow F))
      → ((r : EngineerRow F) → (f r).email ≡ r.email)
      → ((r : EngineerRow F) → (f r).github_username ≡ r.github_username)
      → IsUnique rs
      → IsUnique (set_rows p f rs)
  unfolding IsUnique set_rows has_github
  set_rows_kept-IsUnique p f [] email github u = tt
  set_rows_kept-IsUnique p f (r ∷ rs) email github u = elim (Bool-cases (p r)) [
    | inl hit ↦
        rw (hit, email r, github r)
          (
            has_email-set_rows r.email p f rs email ∙ u.0,
            github_kept r.github_username rs ∙ u.1,
            set_rows_kept-IsUnique p f rs email github u.2,
          )
    | inr missed ↦ rw missed (
      has_email-set_rows r.email p f rs email ∙ u.0,
      github_kept r.github_username rs ∙ u.1,
      set_rows_kept-IsUnique p f rs email github u.2,
    )
  ]
    where
      github_kept :
          (g : String) (rs : List (EngineerRow F))
          → has_github g (set_rows p f rs) ≡ has_github g rs
      github_kept g [] = refl
      github_kept g (x ∷ rs) = elim (Bool-cases (p x)) [
        | inl hit ↦ rw (hit, github x, github_kept g rs) refl
        | inr missed ↦ rw (missed, github_kept g rs) refl
      ]

  pub snoc-IsUnique :
      (r : EngineerRow F) (rs : List (EngineerRow F))
      → IsUnique rs
      → has_email r.email rs ≡ false
      → has_github r.github_username rs ≡ false
      → IsUnique (rs ++ r ∷ [])
  unfolding IsUnique has_email has_github
  snoc-IsUnique r [] u he hg = (refl, refl, tt)
  snoc-IsUnique r (x ∷ rs) u he hg = (
    has_email_snoc x.email r rs
        ∙ ground (arith, u.0, he, eq_iff x.email r.email, eq_iff r.email x.email),
    has_github_snoc x.github_username r rs
        ∙ ground (
          arith,
          u.1,
          hg,
          eq_iff x.github_username r.github_username,
          eq_iff r.github_username x.github_username,
        ),
    snoc-IsUnique r rs u.2 (ground (arith, he)) (ground (arith, hg)),
  )
    where
      has_email_snoc :
          (e : String) (r : EngineerRow F) (rs : List (EngineerRow F))
          → has_email e (rs ++ r ∷ []) ≡ (has_email e rs || str_eq r.email e)
      has_email_snoc e r [] = ground arith
      has_email_snoc e r (x ∷ rs) = ground (arith, has_email_snoc e r rs)

      has_github_snoc :
          (g : String) (r : EngineerRow F) (rs : List (EngineerRow F))
          → has_github g (rs ++ r ∷ []) ≡ (has_github g rs || str_eq r.github_username g)
      has_github_snoc g r [] = ground arith
      has_github_snoc g r (x ∷ rs) = ground (arith, has_github_snoc g r rs)
