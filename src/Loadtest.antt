-- ===== src/Loadtest.antt =====
-- cmd/loadtest/main.go: the latency histogram of the load test, and what each worker records. The
-- HTTP client, the pacing and the report are not modelled. `uint64` arithmetic wraps at 64 bits; a
-- wrap of `int` does not occur, since a bucket's index is below 64 * 60.
pub mod Buckets
pub mod Totals
use enterprise_llm_tracker.Base.{
  ℕ, zero, suc, ◌+◌, ◌-◌, ◌*◌, ◌/◌, ◌%◌, ◌^◌, Bool, true, false, not, ◌&&◌, ◌||◌, List, [], ◌∷◌,
  ltb, leb, ◌==◌, length, if◌then◌else◌,
}
use enterprise_llm_tracker.Base.Int.{ℤ, pos}
use enterprise_llm_tracker.Float.{Float}

-- subBits and subCount, and maxTrackMicros
abbrev pub sub_bits : ℕ
sub_bits = 6

abbrev pub sub_count : ℕ
sub_count = 64

abbrev pub max_track_micros : ℕ
max_track_micros = 600_000_000

-- bits.Len64, over a fuel of 64 bits
unfoldable pub bits_len : ℕ → ℕ → ℕ
bits_len zero v = 0
bits_len (suc bits) v = let rest = bits_len bits (v / 2) in if v == 0 then 0 else suc rest

-- v >> (e - subBits), with the mask, next to the block's number: `|` adds, as the bits are disjoint
unfoldable pub index_for : ℕ → ℕ
index_for v =
    let e = bits_len 64 v - 1 in
    if ltb v sub_count
    then v
    else (e - sub_bits + 1) * sub_count + v / 2 ^ (e - sub_bits) % sub_count

unfoldable pub value_for_index : ℕ → ℕ
value_for_index i =
    let e = i / sub_count + sub_bits - 1 in
    let low = (sub_count + i % sub_count) * 2 ^ (e - sub_bits) % 2 ^ 64 in
    let width = 2 ^ (e - sub_bits) in if ltb i sub_count then i else (low + width / 2) % 2 ^ 64

pub record Hist : Type 0 where
  pub counts : List ℕ
  pub sum : ℕ
  pub n : ℕ
  pub min : ℕ
  pub max : ℕ

unfoldable pub zeros : ℕ → List ℕ
zeros zero = []
zeros (suc k) = 0 ∷ zeros k

unfoldable pub new_hist : Hist
unfolding zeros index_for
new_hist = record {
  counts = zeros (index_for max_track_micros + 1);
  sum = 0;
  n = 0;
  min = 0;
  max = 0;
}

-- `counts[i] += c`
unfoldable pub add_at : ℕ → ℕ → List ℕ → List ℕ
add_at i c [] = []
add_at zero c (x ∷ xs) = (x + c) % 2 ^ 64 ∷ xs
add_at (suc i) c (x ∷ xs) = x ∷ add_at i c xs

unfoldable pub bucket_of : ℕ → ℕ → ℕ
bucket_of buckets idx = if leb buckets idx then buckets - 1 else idx

unfoldable pub record_value : ℕ → Hist → Hist
unfolding add_at bucket_of index_for
record_value v h = record {
  counts = add_at (bucket_of (length h.counts) (index_for v)) 1 h.counts;
  sum = (h.sum + v) % 2 ^ 64;
  n = (h.n + 1) % 2 ^ 64;
  min = if (h.min == 0) || ltb v h.min then v else h.min;
  max = if ltb h.max v then v else h.max;
}

-- the loop of merge, for histograms of the same buckets
unfoldable pub add_counts : List ℕ → List ℕ → List ℕ
add_counts [] ys = []
add_counts (x ∷ xs) [] = x ∷ xs
add_counts (x ∷ xs) (y ∷ ys) = (x + y) % 2 ^ 64 ∷ add_counts xs ys

unfoldable pub merge : Hist → Hist → Hist
unfolding add_counts
merge h o = record {
  counts = add_counts h.counts o.counts;
  sum = (h.sum + o.sum) % 2 ^ 64;
  n = (h.n + o.n) % 2 ^ 64;
  min = if ltb 0 o.n && ((h.min == 0) || ltb o.min h.min) then o.min else h.min;
  max = if ltb h.max o.max then o.max else h.max;
}

-- the loop of percentile, from bucket `i` and the counts `cum` before it; `otherwise` is h.max
unfoldable pub find_bucket : ℕ → ℕ → ℕ → ℕ → List ℕ → ℕ
unfolding value_for_index
find_bucket otherwise target i cum [] = otherwise
find_bucket otherwise target i cum (c ∷ cs) =
    let rest = find_bucket otherwise target (suc i) ((cum + c) % 2 ^ 64) cs in
    if leb target ((cum + c) % 2 ^ 64) then value_for_index i else rest

-- percentile; `rank n` is uint64(math.Ceil(p / 100 * float64(n)))
unfoldable pub percentile : (ℕ → ℕ) → Hist → ℕ
unfolding find_bucket
percentile rank h =
    let target = if rank h.n == 0 then 1 else rank h.n in
    if h.n == 0 then 0 else find_bucket h.max target 0 0 h.counts

unfoldable pub mean : Hist → ℕ
mean h = if h.n == 0 then 0 else h.sum / h.n
