-- ===== src/Usage/Hours.antt =====
-- What the groups by the hour of the day count.
use enterprise_llm_tracker.Base.{
  ℕ, zero, suc, ◌+◌, ◌≤◌, ◌<◌, ◌≡◌, refl, sym, ap, ◌∙◌, List, [], ◌∷◌, arith, count_if, length, ltb,
  ◌==◌, lt→ltb, if◌then◌else◌, inl, inr, Bool-cases, ◌⊎◌,
}
use enterprise_llm_tracker.Usage.{UsageRow}
use enterprise_llm_tracker.Usage.Queries.{group_by_hour, fill_hours, hour_of_row}

fill_next :
    (k n total : ℕ) (counts : ℕ → ℕ) (groups : List (ℕ × ℕ))
    → k < 24
    → fill_hours (counts, total) ((k, n) ∷ groups)
      ≡ fill_hours ((λ j. if j == k then n else counts j), total + n) groups
unfolding fill_hours
fill_next k n total counts groups h =
    ap
      (λ b.
        fill_hours
          (if b then ((λ j. if j == k then n else counts j), total + n) else (counts, total))
          groups)
      (lt→ltb k 24 h)

module _ {F : Type 0} where
  hours_below : (k : ℕ) (rows : List (UsageRow F)) → ℕ
  hours_below k rows = count_if (λ r. ltb (hour_of_row r) k) rows

  hours_below-suc :
      (k : ℕ) (rows : List (UsageRow F))
      → hours_below (suc k) rows ≡ count_if (λ r. hour_of_row r == k) rows + hours_below k rows
  unfolding hours_below count_if
  hours_below-suc k [] = omega arith
  hours_below-suc k (r ∷ rs) = ground (arith, hours_below-suc k rs)

  hours_below-zero : (rows : List (UsageRow F)) → hours_below 0 rows ≡ 0
  unfolding hours_below count_if
  hours_below-zero [] = refl
  hours_below-zero (r ∷ rs) = ground (arith, hours_below-zero rs)

  hours_below-all : (rows : List (UsageRow F)) → hours_below 24 rows ≡ length rows
  unfolding hours_below count_if hour_of_row
  hours_below-all [] = refl
  hours_below-all (r ∷ rs) = ground (arith, hours_below-all rs)

  -- the rows of one hour
  abbrev at_hour : ℕ → List (UsageRow F) → ℕ
  at_hour k rows = count_if (λ r. hour_of_row r == k) rows

  hour_cases :
      (k : ℕ) (rows : List (UsageRow F))
      → (group_by_hour (suc k) rows ≡ (k, at_hour k rows) ∷ group_by_hour k rows)
        ⊎ ((at_hour k rows ≡ 0) × (group_by_hour (suc k) rows ≡ group_by_hour k rows))
  unfolding group_by_hour
  hour_cases k rows = elim (Bool-cases (ltb 0 (at_hour k rows))) [
    | inl some_there ↦ inl (rw some_there refl)
    | inr none_there ↦ inr (ground (arith, none_there), rw none_there refl)
  ]

  fill_hours-total :
      (k total : ℕ) (counts : ℕ → ℕ) (rows : List (UsageRow F))
      → k ≤ 24
      → (fill_hours (counts, total) (group_by_hour k rows)).1 ≡ total + hours_below k rows
  unfolding group_by_hour fill_hours
  fill_hours-total zero total counts rows h = omega (arith, hours_below-zero rows)
  fill_hours-total (suc k) total counts rows h =
      let n = at_hour k rows in
      let counts' = λ (j : ℕ). if j == k then n else counts j in
      let groups = hours_below-suc k rows in
      elim (hour_cases k rows) [
        | inl e ↦ rw e (
            ap (λ filled. filled.1)
              (fill_next k n total counts (group_by_hour k rows) (omega arith))
            ∙ omega (arith, fill_hours-total k (total + n) counts' rows (omega arith), groups))
        | inr (zero_there, e) ↦
            rw e (omega (arith, fill_hours-total k total counts rows (omega arith), groups))
      ]

  fill_hours-above :
      (k total : ℕ) (counts : ℕ → ℕ) (rows : List (UsageRow F)) (h : ℕ)
      → k ≤ 24
      → k ≤ h
      → (fill_hours (counts, total) (group_by_hour k rows)).0 h ≡ counts h
  unfolding fill_hours group_by_hour
  fill_hours-above zero total counts rows h top le = refl
  fill_hours-above (suc k) total counts rows h top le =
      let n = at_hour k rows in
      let counts' = λ (j : ℕ). if j == k then n else counts j in
      elim (hour_cases k rows) [
        | inl e ↦ rw e (
            ap (λ filled. filled.0 h)
              (fill_next k n total counts (group_by_hour k rows) (omega arith))
            ∙ fill_hours-above k (total + n) counts' rows h (omega arith) (omega arith)
            ∙ ground arith)
        | inr (zero_there, e) ↦
            rw e (fill_hours-above k total counts rows h (omega arith) (omega arith))
      ]

  -- the hour's own group fills its count
  fill_hours-count :
      (k total : ℕ) (counts : ℕ → ℕ) (rows : List (UsageRow F)) (h : ℕ)
      → k ≤ 24
      → h < k
      → counts h ≡ 0
      → (fill_hours (counts, total) (group_by_hour k rows)).0 h ≡ at_hour h rows
  unfolding fill_hours
  fill_hours-count zero total counts rows h top lt empty = absurd (omega arith)
  fill_hours-count (suc k) total counts rows h top lt empty =
      let n = at_hour k rows in
      let counts' = λ (j : ℕ). if j == k then n else counts j in
      let rest = group_by_hour k rows in
      elim (hour_cases k rows) [
        | inl e ↦ rw e (
            ap (λ filled. filled.0 h) (fill_next k n total counts rest (omega arith))
            ∙ elim (Bool-cases (h == k)) [
              | inl same ↦
                  fill_hours-above k (total + n) counts' rows h (omega arith) (ground (arith, same))
                  ∙ rw same (ap (λ j. at_hour j rows) (ground (arith, same)))
              | inr other ↦
                  fill_hours-count k (total + n) counts' rows h (omega arith)
                    (ground (arith, other)) (rw other empty)
            ])
        | inr (zero_there, e) ↦ rw e (elim (Bool-cases (h == k)) [
          | inl same ↦
              fill_hours-above k total counts rows h (omega arith) (ground (arith, same))
              ∙ empty
              ∙ sym zero_there
              ∙ ap (λ j. at_hour j rows) (ground (arith, same))
          | inr other ↦
              fill_hours-count k total counts rows h (omega arith) (ground (arith, other)) empty
        ])
      ]

  -- The distribution of an engineer's activity counts every event of the window in the hour of its
  -- time, and in no other: the 24 counts are those of the rows, and the total is their number.
  pub fill_hours-group_by_hour :
      (rows : List (UsageRow F)) (h : ℕ)
      → h < 24
      → let filled = fill_hours ((λ k. 0), 0) (group_by_hour 24 rows) in
        (filled.0 h ≡ count_if (λ r. hour_of_row r == h) rows) × (filled.1 ≡ length rows)
  fill_hours-group_by_hour rows h lt = (
    fill_hours-count 24 0 (λ k. 0) rows h (omega arith) lt refl,
    fill_hours-total 24 0 (λ k. 0) rows (omega arith)
        ∙ ap (λ n. 0 + n) (hours_below-all rows)
        ∙ omega arith,
  )
