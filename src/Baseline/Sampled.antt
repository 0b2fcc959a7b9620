-- ===== src/Baseline/Sampled.antt =====
-- The percentile of the hourly costs.
use mathlib.Core.List.{Memᴰ}
use enterprise_llm_tracker.Base.{
  ℕ, zero, suc, ◌-◌, ◌<◌, ◌≡◌, refl, List, [], ◌∷◌, length, get_or, arith, inl, inr, Bool-cases,
}
use enterprise_llm_tracker.Baseline.{rank_index, percentile_of}
use enterprise_llm_tracker.Float.{Float}
use enterprise_llm_tracker.Rollup.{sort_floats, insert_float}

get_or-member : {F : Type 0} (xs : List F) (i : ℕ) (d : F) → i < length xs → Memᴰ (get_or xs i d) xs
get_or-member [] i d h = absurd (omega arith)
get_or-member (x ∷ xs) zero d h = Memᴰ.head refl
get_or-member (x ∷ xs) (suc i) d h = Memᴰ.tail (get_or-member xs i d (omega arith))

-- a member of a list whose tail is inserted into, and of one whose tail is sorted
after_head :
    {F : Type 0} (x y z : F) (zs : List F) {ys : List F}
    → (Memᴰ y ys → Memᴰ y (x ∷ zs))
    → Memᴰ y (z ∷ ys)
    → Memᴰ y (x ∷ z ∷ zs)
after_head x y z zs inserted (Memᴰ.head same) = Memᴰ.tail (Memᴰ.head same)
after_head x y z zs inserted (Memᴰ.tail m) = elim (inserted m) [
  | Memᴰ.head same ↦ Memᴰ.head same
  | Memᴰ.tail there ↦ Memᴰ.tail (Memᴰ.tail there)
]

later :
    {F : Type 0} (x y : F) (xs : List F) {ys : List F}
    → (Memᴰ y ys → Memᴰ y xs)
    → Memᴰ y (x ∷ ys)
    → Memᴰ y (x ∷ xs)
later x y xs there (Memᴰ.head same) = Memᴰ.head same
later x y xs there (Memᴰ.tail m) = Memᴰ.tail (there m)

module _ {F : Type 0} (fl : Float F) where
  insert_float-member : (x y : F) (ys : List F) → Memᴰ y (insert_float fl x ys) → Memᴰ y (x ∷ ys)
  unfolding insert_float
  insert_float-member x y [] m = m
  insert_float-member x y (z ∷ zs) m = elim (Bool-cases (fl.lt z x)) [
    | inl less ↦ after_head x y z zs (insert_float-member x y zs) (rw (less, insert_float) at m)
    | inr more ↦ rw (more, insert_float) at m
  ]

  sort_floats-member : (y : F) (xs : List F) → Memᴰ y (sort_floats fl xs) → Memᴰ y xs
  unfolding sort_floats
  sort_floats-member y [] m = m
  sort_floats-member y (x ∷ xs) m =
      later x y xs (sort_floats-member y xs) (insert_float-member x y (sort_floats fl xs) m)

  length-insert_float : (x : F) (ys : List F) → length (insert_float fl x ys) ≡ suc (length ys)
  unfolding insert_float
  length-insert_float x [] = refl
  length-insert_float x (y ∷ ys) = ground (arith, length-insert_float x ys)

  length-sort_floats : (xs : List F) → length (sort_floats fl xs) ≡ length xs
  unfolding sort_floats
  length-sort_floats [] = refl
  length-sort_floats (x ∷ xs) =
      ground (arith, length-insert_float x (sort_floats fl xs), length-sort_floats xs)

module _ {F : Type 0} (fl : Float F) (ceil : F → F) where
  rank_index-bound : (p : F) (n : ℕ) → 0 < n → rank_index fl ceil p n < n
  unfolding rank_index
  rank_index-bound p n h = ground (arith, h)

  -- The percentile of a list that is not empty is one of its members, whatever the rank that the
  -- floating-point arithmetic gives: the index that is read is within the slice.
  pub percentile_of-member :
      (x : F) (xs : List F) (p : F) → Memᴰ (percentile_of fl ceil (x ∷ xs) p) (x ∷ xs)
  unfolding percentile_of
  percentile_of-member x xs p =
      let sorted = sort_floats fl (x ∷ xs) in
      let long : length sorted ≡ suc (length xs) = length-sort_floats fl (x ∷ xs) in
      let member : (i : ℕ) → i < length sorted → Memᴰ (get_or sorted i (fl.decimal 0 0)) (x ∷ xs) =
        λ i h. sort_floats-member fl _ (x ∷ xs) (get_or-member sorted i (fl.decimal 0 0) h) in
      elim (Bool-cases (fl.le p (fl.decimal 0 0))) [
        | inl low ↦ rw (low, percentile_of) (member 0 (omega arith))
        | inr above ↦ elim (Bool-cases (fl.le (fl.decimal 1 0) p)) [
          | inl high ↦ rw (above, high, percentile_of) (member (length sorted - 1) (omega arith))
          | inr below ↦
              rw (above, below, percentile_of)
                (member (rank_index fl ceil p (length sorted))
                  (rank_index-bound p (length sorted) (omega arith)))
        ]
      ]
