-- ===== src/Usage/Windows.antt =====
-- What the windows of the queries count.
use enterprise_llm_tracker.Base.{
  ◌+◌, ◌≤◌, String, true, false, ◌&&◌, ◌≡◌, refl, sym, ap, ◌∙◌, Option, none, some, List, [], ◌∷◌,
  str_eq, arith, count_if, ltb, leb, inl, inr, Bool-cases, ◌⊎◌,
}
use enterprise_llm_tracker.Base.Int.{ℤ, ◌+ℤ◌}
use enterprise_llm_tracker.Clock.{Time}
use enterprise_llm_tracker.Usage.{UsageRow}
use enterprise_llm_tracker.Usage.Queries.{select, add_column, in_window, sum_of, is_lines}

+ℤ_assoc : (a b c : ℤ) → (a +ℤ b) +ℤ c ≡ a +ℤ (b +ℤ c)
+ℤ_assoc a b c = ground arith

+ℤ_swap : (a b c : ℤ) → a +ℤ (b +ℤ c) ≡ b +ℤ (a +ℤ c)
+ℤ_swap a b c = ground arith

add_column_left : (o : Option ℤ) (b c : ℤ) → add_column o (b +ℤ c) ≡ add_column o b +ℤ c
unfolding add_column
add_column_left none b c = refl
add_column_left (some n) b c = sym (+ℤ_assoc n b c)

add_column_right : (o : Option ℤ) (b c : ℤ) → add_column o (b +ℤ c) ≡ b +ℤ add_column o c
unfolding add_column
add_column_right none b c = refl
add_column_right (some n) b c = +ℤ_swap n b c

module _ {F : Type 0} where
  module _ (email : String) (start mid end : Time) (first : start ≤ mid) (last : mid ≤ end) where
    window_cases :
        (r : UsageRow F)
        → ((in_window email start end r ≡ true)
            × (in_window email start mid r ≡ true)
            × (in_window email mid end r ≡ false))
          ⊎ ((in_window email start end r ≡ true)
              × (in_window email start mid r ≡ false)
              × (in_window email mid end r ≡ true))
          ⊎ ((in_window email start end r ≡ false)
              × (in_window email start mid r ≡ false)
              × (in_window email mid end r ≡ false))
    unfolding in_window
    window_cases r = elim (Bool-cases (str_eq r.engineer_id email && leb start r.occurred_at)) [
      | inl from ↦ elim (Bool-cases (ltb r.occurred_at mid)) [
        | inl early ↦
            inl (
              ground (arith, from, early),
              ground (arith, from, early),
              ground (arith, from, early),
            )
        | inr late ↦ elim (Bool-cases (ltb r.occurred_at end)) [
          | inl inside ↦ inr (
              inl (
                ground (arith, from, late, inside),
                ground (arith, from, late, inside),
                ground (arith, from, late, inside),
              ))
          | inr outside ↦ inr (
              inr (
                ground (arith, from, late, outside),
                ground (arith, from, late, outside),
                ground (arith, from, late, outside),
              ))
        ]
      ]
      | inr before ↦
          inr (inr (ground (arith, before), ground (arith, before), ground (arith, before)))
    ]

    sum_split :
        (column : UsageRow F → Option ℤ) (rows : List (UsageRow F))
        → sum_of column (select (in_window email start end) rows)
          ≡ sum_of column (select (in_window email start mid) rows)
            +ℤ sum_of column (select (in_window email mid end) rows)
    unfolding select sum_of
    sum_split column [] = refl
    sum_split column (r ∷ rs) =
        let o = column r in
        let b = sum_of column (select (in_window email start mid) rs) in
        let c = sum_of column (select (in_window email mid end) rs) in
        let more = ap (add_column o) (sum_split column rs) in
        elim (window_cases r) [
          | inl (whole, first, second) ↦ rw (whole, first, second) (more ∙ add_column_left o b c)
          | inr (inl (whole, first, second)) ↦
              rw (whole, first, second) (more ∙ add_column_right o b c)
          | inr (inr (whole, first, second)) ↦ rw (whole, first, second) (sum_split column rs)
        ]

    lines_split :
        (rows : List (UsageRow F))
        → count_if is_lines (select (in_window email start end) rows)
          ≡ count_if is_lines (select (in_window email start mid) rows)
            + count_if is_lines (select (in_window email mid end) rows)
    unfolding select count_if in_window
    lines_split [] = omega arith
    lines_split (r ∷ rs) = ground (arith, lines_split rs)

    -- Half-open windows of an engineer fit together: over two adjacent ones, the sum of any token
    -- column and the number of shipped lines are those of the whole, so no event is counted twice and
    -- none is lost. A sum is exact here.
    pub adjacent_windows :
        (column : UsageRow F → Option ℤ) (rows : List (UsageRow F))
        → (sum_of column (select (in_window email start end) rows)
            ≡ sum_of column (select (in_window email start mid) rows)
              +ℤ sum_of column (select (in_window email mid end) rows))
          × (count_if is_lines (select (in_window email start end) rows)
              ≡ count_if is_lines (select (in_window email start mid) rows)
                + count_if is_lines (select (in_window email mid end) rows))
    adjacent_windows column rows = (sum_split column rows, lines_split rows)
