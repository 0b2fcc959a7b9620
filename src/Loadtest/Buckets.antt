-- ===== src/Loadtest/Buckets.antt =====
-- How close the value of a bucket is to what fell into it.
use native.Mathlib.Nat.{
  div-add-mod, mod-lt, mul_comm, mul-le-mul_right, pow-le-pow_right, le-div_iff_mul-le,
  div-lt_iff_lt-mul,
}
use enterprise_llm_tracker.Base.{
  ℕ, zero, suc, ◌+◌, ◌-◌, ◌*◌, ◌/◌, ◌%◌, ◌^◌, ◌≤◌, ◌<◌, ◌≡◌, refl, true, arith, ltb, Bool-cases,
  inl, inr, subst, ap, ◌∙◌,
}
use enterprise_llm_tracker.Loadtest.{bits_len, index_for, value_for_index}

bits_len_zero : (bits : ℕ) → bits_len bits 0 ≡ 0
unfolding bits_len
bits_len_zero zero = refl
bits_len_zero (suc bits) = refl

-- the exponent of the highest bit
bits_len_bounds :
    (bits v : ℕ)
    → 0 < v
    → v < 2 ^ bits
    → (e : ℕ) × (bits_len bits v ≡ suc e) × (e < bits) × (2 ^ e ≤ v) × (v < 2 ^ suc e)
unfolding bits_len
bits_len_bounds zero v h small = absurd (omega arith)
bits_len_bounds (suc bits) v h small = elim (Bool-cases (ltb 0 (v / 2))) [
  | inl more ↦
      let (e, len, below, low, high) = bits_len_bounds bits (v / 2) (ground arith) (omega arith) in
      (suc e, ground arith, omega arith, omega arith, omega arith)
  | inr done ↦
      let nothing : v / 2 ≡ 0 = ground arith in
      (0, rw (nothing, bits_len_zero) (ground arith), omega arith, omega arith, omega arith)
]

-- The middle of a bucket of width `p` whose lower end is `q * p`, for `64 ≤ q < 128`.
middle :
    (p q r : ℕ)
    → 64 ≤ q
    → r < p
    → let v = q * p + r in let w = q * p + p / 2 in (128 * w ≤ 129 * v) × (127 * v ≤ 128 * w)
middle p q r large small =
    let h : 64 * p ≤ q * p = mul-le-mul_right p large in (omega arith, omega arith)

quotient_bounds :
    (k v : ℕ) → 64 * 2 ^ k ≤ v → v < 128 * 2 ^ k → (64 ≤ v / 2 ^ k) × (v / 2 ^ k < 128)
quotient_bounds k v low high =
    let h : 0 < 2 ^ k = omega arith in ((le-div_iff_mul-le h).1 low, (div-lt_iff_lt-mul h).1 high)

-- the exponent of a value that is not below 64
six_at_least : (e v : ℕ) → 64 ≤ v → v < 2 ^ suc e → (k : ℕ) × (e ≡ k + 6)
six_at_least e v large high = elim (Bool-cases (ltb e 6)) [
  | inl low ↦
      let small : 2 ^ suc e ≤ 2 ^ 6 =
        pow-le-pow_right (omega arith) {i = suc e} {j = 6} (ground (arith, low)) in
      absurd (omega arith)
  | inr enough ↦ (e - 6, ground (arith, enough))
]

pow_six : (k : ℕ) → 2 ^ (k + 6) ≡ 64 * 2 ^ k
pow_six k =
    let as_suc : k + 6 ≡ suc (suc (suc (suc (suc (suc k))))) = omega arith in
    rw as_suc (omega arith)

index_at :
    (k v : ℕ)
    → bits_len 64 v ≡ suc (k + 6)
    → 2 ^ (k + 6) ≤ v
    → v < 2 ^ suc (k + 6)
    → 64 ≤ v
    → (64 ≤ v / 2 ^ k) × (v / 2 ^ k < 128) × (index_for v ≡ (k + 1) * 64 + (v / 2 ^ k - 64))
unfolding index_for
index_at k v len low high large =
    let (ge, lt) = quotient_bounds k v (omega (arith, pow_six k)) (omega (arith, pow_six k)) in
    let exponent : suc (k + 6) - 1 - 6 ≡ k = omega arith in
    (ge, lt, rw (len, exponent) (ground arith))

-- the bucket of such a value: its block and its place in the block
pub index_for_large :
    (v : ℕ)
    → 64 ≤ v
    → v < 2 ^ 64
    → (k : ℕ) × (k ≤ 57)
      × (64 ≤ v / 2 ^ k)
      × (v / 2 ^ k < 128)
      × (index_for v ≡ (k + 1) * 64 + (v / 2 ^ k - 64))
index_for_large v large small =
    let (e, len, below, low, high) = bits_len_bounds 64 v (omega arith) small in
    let (k, same) = six_at_least e v large high in
    let (ge, lt, index) =
      index_at k v (len ∙ ap suc same) (subst (λ x. 2 ^ x ≤ v) same low)
        (subst (λ x. v < 2 ^ suc x) same high) large in
    (k, omega (arith, below, same), ge, lt, index)

-- the value of a bucket, by its block and its place in the block
value_at :
    (k q : ℕ)
    → k ≤ 57
    → 64 ≤ q
    → q < 128
    → value_for_index ((k + 1) * 64 + (q - 64)) ≡ q * 2 ^ k + 2 ^ k / 2
unfolding value_for_index
value_at k q few ge lt =
    let p_le : 2 ^ k ≤ 2 ^ 57 = pow-le-pow_right (omega arith) {i = k} {j = 57} few in
    let q_le : q * 2 ^ k ≤ 127 * 2 ^ k = mul-le-mul_right (2 ^ k) (omega arith) in
    let block : ((k + 1) * 64 + (q - 64)) / 64 + 6 - 1 - 6 ≡ k = omega arith in
    let place : 64 + ((k + 1) * 64 + (q - 64)) % 64 ≡ q = omega arith in
    rw (block, place) (ground arith)

below_64 : (v : ℕ) → ltb v 64 ≡ true → value_for_index (index_for v) ≡ v
unfolding value_for_index index_for
below_64 v h = ground (arith, h)

-- The value that a bucket reports differs from every value that falls into it by at most 1/128 of
-- that value, for all 64-bit values; below 64 it is the value itself.
pub value_for_index-index_for :
    (v : ℕ)
    → v < 2 ^ 64
    → let w = value_for_index (index_for v) in
      (128 * w ≤ 129 * v) × (127 * v ≤ 128 * w) × (v < 64 → w ≡ v)
value_for_index-index_for v small = elim (Bool-cases (ltb v 64)) [
  | inl below ↦ rw (below_64 v below) (omega arith, omega arith, λ _. refl)
  | inr large ↦
      let (k, few, ge, lt, index) = index_for_large v (ground (arith, large)) small in
      let p_pos : 0 < 2 ^ k = omega arith in
      let split : v / 2 ^ k * 2 ^ k + v % 2 ^ k ≡ v =
        ap (λ x. x + v % 2 ^ k) (mul_comm (v / 2 ^ k) (2 ^ k)) ∙ div-add-mod v (2 ^ k) in
      let (above, under) = middle (2 ^ k) (v / 2 ^ k) (v % 2 ^ k) ge (mod-lt v p_pos) in
      rw (index, value_at k (v / 2 ^ k) few ge lt)
        (
          subst (λ x. 128 * (v / 2 ^ k * 2 ^ k + 2 ^ k / 2) ≤ 129 * x) split above,
          subst (λ x. 127 * x ≤ 128 * (v / 2 ^ k * 2 ^ k + 2 ^ k / 2)) split under,
          λ h. absurd (ground (arith, large, h)),
        )
]
