-- ===== src/Tests/LoadtestExamples.antt =====
-- The latency histogram at concrete values.
use enterprise_llm_tracker.Base.{ℕ, ◌*◌, ◌≤◌, ◌<◌, ◌≡◌, refl, [], ◌∷◌, arith}
use enterprise_llm_tracker.Loadtest.{Hist, index_for, value_for_index, bits_len}
use enterprise_llm_tracker.Loadtest.Buckets.{value_for_index-index_for}
use enterprise_llm_tracker.Loadtest.Totals.{total, IsConsistent}

-- two values in three buckets
abbrev small : Hist
small = record { counts = 1 ∷ 0 ∷ 1 ∷ []; sum = 2; n = 2; min = 0; max = 2 }

small-IsConsistent : IsConsistent small
unfolding total
small-IsConsistent = record { counted = refl; has_bucket = omega arith }

-- the bucket of a second, and the value it reports
buckets : (index_for 1_000_000 ≡ 954) × (value_for_index 954 ≡ 1_003_520)
unfolding index_for bits_len value_for_index
buckets = (refl, refl)

value_for_index-index_for_example :
    (128 * value_for_index (index_for 1_000_000) ≤ 129 * 1_000_000)
    × (127 * 1_000_000 ≤ 128 * value_for_index (index_for 1_000_000))
    × (1_000_000 < 64 → value_for_index (index_for 1_000_000) ≡ 1_000_000)
value_for_index-index_for_example = value_for_index-index_for 1_000_000 (omega arith)

-- the rank of the median
abbrev half : ℕ → ℕ
half n = 1
