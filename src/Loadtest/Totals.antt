-- ===== src/Loadtest/Totals.antt =====
-- Histograms as a whole: their totals, merging and percentiles.
use enterprise_llm_tracker.Base.{
  ℕ, zero, suc, ◌+◌, ◌%◌, ◌^◌, ◌≤◌, ◌<◌, ◌≡◌, refl, ap, ◌∙◌, false, List, [], ◌∷◌, arith, leb, ◌==◌,
  length, take, if◌then◌else◌, Bool-cases, inl, inr,
}
use enterprise_llm_tracker.Loadtest.{
  Hist, add_at, bucket_of, index_for, record_value, add_counts, merge, value_for_index, find_bucket,
  percentile,
}

unfoldable pub total : List ℕ → ℕ
total [] = 0
total (c ∷ cs) = c + total cs

-- every value was counted in one bucket, and there is a bucket
pub record IsConsistent (h : Hist) : Type 0 where
  pub counted : total h.counts ≡ h.n
  pub has_bucket : 0 < length h.counts

total-add_at :
    (i c : ℕ) (xs : List ℕ)
    → i < length xs
    → total xs + c < 2 ^ 64
    → total (add_at i c xs) ≡ total xs + c
unfolding total add_at
total-add_at i c [] h small = absurd (omega arith)
total-add_at zero c (x ∷ xs) h small = omega arith
total-add_at (suc i) c (x ∷ xs) h small = omega (arith, total-add_at i c xs)

length-add_at : (i c : ℕ) (xs : List ℕ) → length (add_at i c xs) ≡ length xs
unfolding add_at
length-add_at i c [] = refl
length-add_at zero c (x ∷ xs) = refl
length-add_at (suc i) c (x ∷ xs) = ap suc (length-add_at i c xs)

bucket_of-lt : (buckets idx : ℕ) → 0 < buckets → bucket_of buckets idx < buckets
unfolding bucket_of
bucket_of-lt buckets idx h = ground arith

-- Recording a value, however large, counts it in exactly one bucket, as long as the number of values
-- fits in 64 bits; the smallest and the largest value are kept up to date, where a smallest value of
-- 0 counts as none.
pub record_value-IsConsistent :
    (v : ℕ) (h : Hist)
    → IsConsistent h
    → h.n + 1 < 2 ^ 64
    → IsConsistent (record_value v h)
      × ((record_value v h).n ≡ h.n + 1)
      × (v ≤ (record_value v h).max)
      × (h.max ≤ (record_value v h).max)
      × ((record_value v h).min ≤ v)
      × (0 < h.min → (record_value v h).min ≤ h.min)
unfolding record_value
record_value-IsConsistent v h consistent small =
    let i = bucket_of (length h.counts) (index_for v) in
    let i_lt = bucket_of-lt (length h.counts) (index_for v) consistent.has_bucket in
    let added = total-add_at i 1 h.counts i_lt in
    (
      record {
        counted = omega (arith, consistent.counted, added);
        has_bucket = omega (arith, consistent.has_bucket, length-add_at i 1 h.counts);
      },
      omega arith,
      ground arith,
      ground arith,
      ground arith,
      λ positive. ground (arith, positive),
    )

total-add_counts :
    (xs ys : List ℕ)
    → length xs ≡ length ys
    → total xs + total ys < 2 ^ 64
    → total (add_counts xs ys) ≡ total xs + total ys
unfolding total add_counts
total-add_counts [] [] h small = refl
total-add_counts [] (y ∷ ys) h small = absurd (omega arith)
total-add_counts (x ∷ xs) [] h small = absurd (omega arith)
total-add_counts (x ∷ xs) (y ∷ ys) h small = omega (arith, total-add_counts xs ys)

length-add_counts : (xs ys : List ℕ) → length xs ≡ length ys → length (add_counts xs ys) ≡ length xs
unfolding add_counts
length-add_counts [] ys h = refl
length-add_counts (x ∷ xs) [] h = refl
length-add_counts (x ∷ xs) (y ∷ ys) h = ap suc (length-add_counts xs ys (omega arith))

-- Merging two histograms of as many buckets keeps every count, as long as their number of values
-- fits in 64 bits.
pub merge-IsConsistent :
    (h o : Hist)
    → IsConsistent h
    → IsConsistent o
    → length h.counts ≡ length o.counts
    → h.n + o.n < 2 ^ 64
    → IsConsistent (merge h o) × ((merge h o).n ≡ h.n + o.n)
unfolding merge
merge-IsConsistent h o hc oc same small = (
  record {
    counted = omega (arith, hc.counted, oc.counted, total-add_counts h.counts o.counts same);
    has_bucket = omega (arith, hc.has_bucket, length-add_counts h.counts o.counts same);
  },
  omega arith,
)

add_counts-add_at :
    (i c : ℕ) (xs ys : List ℕ)
    → length xs ≡ length ys
    → add_counts xs (add_at i c ys) ≡ add_at i c (add_counts xs ys)
unfolding add_counts add_at
add_counts-add_at i c [] [] h = refl
add_counts-add_at i c [] (y ∷ ys) h = absurd (omega arith)
add_counts-add_at i c (x ∷ xs) [] h = absurd (omega arith)
add_counts-add_at zero c (x ∷ xs) (y ∷ ys) h = ap (λ z. z ∷ add_counts xs ys) (omega arith)
add_counts-add_at (suc i) c (x ∷ xs) (y ∷ ys) h =
    ap (λ zs. (x + y) % 2 ^ 64 ∷ zs) (add_counts-add_at i c xs ys (omega arith))

-- Recording a value in one worker's histogram before merging, or in the merged one, gives the same
-- buckets, sum, number and maximum.
pub merge-record_value :
    (v : ℕ) (h o : Hist)
    → length h.counts ≡ length o.counts
    → let a = merge h (record_value v o) in
      let b = record_value v (merge h o) in
      (a.counts ≡ b.counts) × (a.sum ≡ b.sum) × (a.n ≡ b.n) × (a.max ≡ b.max)
unfolding merge record_value
merge-record_value v h o same =
    let merged = length-add_counts h.counts o.counts same in
    (
      rw (merged, same)
          (add_counts-add_at (bucket_of (length o.counts) (index_for v)) 1 h.counts o.counts same),
      omega arith,
      omega arith,
      ground arith,
    )

find_bucket_next :
    (otherwise target start cum c : ℕ) (cs : List ℕ)
    → leb target ((cum + c) % 2 ^ 64) ≡ false
    → (cum + c) % 2 ^ 64 ≡ cum + c
    → find_bucket otherwise target start cum (c ∷ cs)
      ≡ find_bucket otherwise target (suc start) (cum + c) cs
unfolding find_bucket
find_bucket_next otherwise target start cum c cs later no_wrap = rw (later, no_wrap) refl

find_bucket_found :
    (otherwise target start cum : ℕ) (cs : List ℕ)
    → cum < target
    → target ≤ cum + total cs
    → cum + total cs < 2 ^ 64
    → (i : ℕ) × (i < length cs)
      × (find_bucket otherwise target start cum cs ≡ value_for_index (start + i))
      × (cum + total (take i cs) < target)
      × (target ≤ cum + total (take (suc i) cs))
unfolding find_bucket total
find_bucket_found otherwise target start cum [] before within small = absurd (omega arith)
find_bucket_found otherwise target start cum (c ∷ cs) before within small =
    elim (Bool-cases (leb target ((cum + c) % 2 ^ 64))) [
      | inl here ↦ (
        0,
        omega arith,
        rw here (ap value_for_index {x = start} {y = start + 0} (omega arith)),
        omega arith,
        ground (arith, here),
      )
      | inr later ↦
          let no_wrap : (cum + c) % 2 ^ 64 ≡ cum + c = omega arith in
          let (i, lt, found, below, above) =
            find_bucket_found otherwise target (suc start) (cum + c) cs (ground (arith, later))
              (omega arith) (omega arith) in
          (
            suc i,
            omega arith,
            find_bucket_next otherwise target start cum c cs later no_wrap
                ∙ found
                ∙ ap value_for_index {x = suc start + i} {y = start + suc i} (omega arith),
            omega arith,
            omega arith,
          )
    ]

-- A percentile of a consistent histogram that is not empty is the value of a bucket: the first at
-- which the counts reach the rank, which is at least 1. The rank is at most the number of values.
pub percentile_rank :
    (rank : ℕ → ℕ) (h : Hist)
    → IsConsistent h
    → 0 < h.n
    → h.n < 2 ^ 64
    → rank h.n ≤ h.n
    → let target = if rank h.n == 0 then 1 else rank h.n in
      (i : ℕ) × (i < length h.counts)
      × (percentile rank h ≡ value_for_index i)
      × (total (take i h.counts) < target)
      × (target ≤ total (take (suc i) h.counts))
unfolding percentile
percentile_rank rank h consistent some_value small in_range =
    let target = if rank h.n == 0 then 1 else rank h.n in
    let (i, lt, found, below, above) =
      find_bucket_found h.max target 0 0 h.counts (ground arith)
        (ground (arith, consistent.counted)) (omega (arith, consistent.counted)) in
    (i, lt, ground (arith, found), omega arith, omega arith)
