-- ===== src/Rollup/Table/Rows.antt =====
-- The rows of a key, before and after the statements.
use enterprise_llm_tracker.Base.{
  ℕ, String, true, false, ◌&&◌, ◌≡◌, refl, some, List, [], ◌∷◌, ◌==◌, eq_iff, arith, count_if,
  if◌then◌else◌, inl, inr, Bool-cases,
}
use enterprise_llm_tracker.Base.Int.{ℤ}
use enterprise_llm_tracker.Clock.{Time}
use enterprise_llm_tracker.Rollup.{EngineerSignal}
use enterprise_llm_tracker.Rollup.Table.{is_keyed, upsert_row, set_peer_rows, find_signal}

module _ {F : Type 0} (email window : String) (end : Time) where
  -- rows with equal keys have the same one
  pub same_key :
      (row r : EngineerSignal F)
      → is_keyed row.engineer_id row.window_name row.window_end r ≡ true
      → is_keyed email window end r ≡ is_keyed email window end row
  unfolding is_keyed
  same_key row r h =
      ground (arith, h, eq_iff r.engineer_id row.engineer_id, eq_iff r.window_name row.window_name)

  pub other_key :
      (row r : EngineerSignal F)
      → is_keyed row.engineer_id row.window_name row.window_end r ≡ false
      → (is_keyed email window end r && is_keyed email window end row) ≡ false
  unfolding is_keyed
  other_key row r h = ground (
    arith,
    h,
    eq_iff r.engineer_id row.engineer_id,
    eq_iff r.window_name row.window_name,
    eq_iff r.engineer_id email,
    eq_iff row.engineer_id email,
    eq_iff r.window_name window,
    eq_iff row.window_name window,
  )

  pub find-upsert_row :
      (row : EngineerSignal F) (t : List (EngineerSignal F))
      → find_signal email window end (upsert_row row t)
        ≡ (if is_keyed email window end row then some row else find_signal email window end t)
  unfolding find_signal upsert_row
  find-upsert_row row [] = refl
  find-upsert_row row (r ∷ rs) =
      elim (Bool-cases (is_keyed row.engineer_id row.window_name row.window_end r)) [
        | inl same ↦ ground (arith, same, same_key row r same)
        | inr other ↦ ground (arith, other, other_key row r other, find-upsert_row row rs)
      ]

  pub other_window :
      (row : EngineerSignal F)
      → (row.window_end == end) ≡ false
      → is_keyed email window end row ≡ false
  unfolding is_keyed
  other_window row h = ground (arith, h)

  -- how many rows have the key
  unfoldable pub keyed : List (EngineerSignal F) → ℕ
  unfolding count_if
  keyed t = count_if (is_keyed email window end) t

  pub keyed-upsert_row :
      (row : EngineerSignal F) (t : List (EngineerSignal F))
      → keyed (upsert_row row t)
        ≡ (if is_keyed email window end row && (keyed t == 0) then 1 else keyed t)
  unfolding keyed upsert_row
  keyed-upsert_row row [] = ground arith
  keyed-upsert_row row (r ∷ rs) =
      elim (Bool-cases (is_keyed row.engineer_id row.window_name row.window_end r)) [
        | inl same ↦ ground (arith, same, same_key row r same)
        | inr other ↦ ground (arith, other, other_key row r other, keyed-upsert_row row rs)
      ]

  pub find-set_peer_rows :
      (email' window' : String) (end' : Time) (median : F) (percentile : ℤ)
      (t : List (EngineerSignal F))
      → (end' == end) ≡ false
      → find_signal email window end (set_peer_rows email' window' end' median percentile t)
        ≡ find_signal email window end t
  unfolding find_signal set_peer_rows is_keyed
  find-set_peer_rows email' window' end' median percentile [] h = refl
  find-set_peer_rows email' window' end' median percentile (r ∷ rs) h =
      ground (arith, h, find-set_peer_rows email' window' end' median percentile rs h)

  pub keyed-set_peer_rows :
      (email' window' : String) (end' : Time) (median : F) (percentile : ℤ)
      (t : List (EngineerSignal F))
      → keyed (set_peer_rows email' window' end' median percentile t) ≡ keyed t
  unfolding keyed set_peer_rows is_keyed
  keyed-set_peer_rows email' window' end' median percentile [] = refl
  keyed-set_peer_rows email' window' end' median percentile (r ∷ rs) =
      ground (arith, keyed-set_peer_rows email' window' end' median percentile rs)
