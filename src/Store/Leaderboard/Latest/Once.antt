-- ===== src/Store/Leaderboard/Latest/Once.antt =====
-- Which snapshots the leaderboard shows.
use mathlib.Core.List.{Memᴰ}
use enterprise_llm_tracker.Base.{
  ℕ, zero, suc, ◌+◌, ◌≤◌, String, Bool, false, ◌&&◌, ◌||◌, ◌≡◌, refl, sym, ap, ◌∙◌, subst, List, [],
  ◌∷◌, none, All, map, length, take, count_if, str_eq, eq_iff, ltb, arith, if◌then◌else◌, inl, inr,
  Bool-cases,
}
use enterprise_llm_tracker.Base.Act.{ok}
use enterprise_llm_tracker.Base.Int.{ℤ}
use enterprise_llm_tracker.Clock.{Time}
use enterprise_llm_tracker.Engineers.Detail.{insert_by, order_by, or_else}
use enterprise_llm_tracker.Float.{Float}
use enterprise_llm_tracker.Models.{EfficiencySnapshot}
use enterprise_llm_tracker.Query.{collect, scan_list}
use enterprise_llm_tracker.Store.Leaderboard.{
  LeaderboardEntry, sink, sort_from, onto, sort_leaderboard, limit_or_default, cut_to, leaderboard,
}
use enterprise_llm_tracker.Store.Leaderboard.Latest.{
  any, is_later, is_tied, distinct_on, in_snapshot_window, entry_of, query_latest,
}
use enterprise_llm_tracker.Usage.Queries.{select}

module _ {A : Type 0} (p : A → Bool) where
  any-member : (x : A) (xs : List A) → any p xs ≡ false → Memᴰ x xs → p x ≡ false
  unfolding any
  any-member x [] h m = elim m [ ]
  any-member x (y ∷ ys) h (Memᴰ.head same) = subst (λ z. p z ≡ false) (sym same) (ground (arith, h))
  any-member x (y ∷ ys) h (Memᴰ.tail m) = any-member x ys (ground (arith, h)) m

  count_if-insert_by :
      (first : A → A → Bool) (x : A) (ys : List A)
      → count_if p (insert_by first x ys) ≡ count_if p (x ∷ ys)
  unfolding count_if insert_by
  count_if-insert_by first x [] = refl
  count_if-insert_by first x (y ∷ ys) = ground (arith, count_if-insert_by first x ys)

  count_if-order_by :
      (first : A → A → Bool) (xs : List A) → count_if p (order_by first xs) ≡ count_if p xs
  unfolding count_if order_by
  count_if-order_by first [] = refl
  count_if-order_by first (x ∷ xs) =
      ground (arith, count_if-insert_by first x (order_by first xs), count_if-order_by first xs)

  count_if-take : (n : ℕ) (xs : List A) → count_if p (take n xs) ≤ count_if p xs
  unfolding count_if
  count_if-take zero xs = omega arith
  count_if-take (suc n) [] = omega arith
  count_if-take (suc n) (x ∷ xs) = ground (arith, count_if-take n xs)

  count_if-map :
      {B : Type 0} (f : B → A) (xs : List B) → count_if p (map f xs) ≡ count_if (λ x. p (f x)) xs
  unfolding count_if
  count_if-map f [] = refl
  count_if-map f (x ∷ xs) = ground (arith, count_if-map f xs)

module _ {F : Type 0} (fl : Float F) (p : LeaderboardEntry F → Bool) where
  count_if-sink :
      (e : LeaderboardEntry F) (ps : List (LeaderboardEntry F))
      → count_if p (sink fl e ps) ≡ count_if p (e ∷ ps)
  unfolding count_if sink
  count_if-sink e [] = refl
  count_if-sink e (q ∷ ps) = ground (arith, count_if-sink e ps)

  count_if-sort_from :
      (done es : List (LeaderboardEntry F))
      → count_if p (sort_from fl done es) ≡ count_if p es + count_if p done
  unfolding count_if sort_from
  count_if-sort_from done [] = omega arith
  count_if-sort_from done (e ∷ es) =
      ground (arith, count_if-sort_from (sink fl e done) es, count_if-sink e done)

  count_if-onto :
      (xs acc : List (LeaderboardEntry F))
      → count_if p (onto fl xs acc) ≡ count_if p xs + count_if p acc
  unfolding count_if onto
  count_if-onto [] acc = omega arith
  count_if-onto (x ∷ xs) acc = ground (arith, count_if-onto xs (x ∷ acc))

  count_if-cut_to :
      (limit : ℕ) (es out : List (LeaderboardEntry F))
      → cut_to fl limit (ok es) ≡ ok out
      → count_if p out ≤ count_if p es
  unfolding cut_to sort_leaderboard count_if
  count_if-cut_to limit es out h =
      let sorted = sort_leaderboard fl es in
      let same : count_if p sorted ≡ count_if p es =
        omega (arith, count_if-onto (sort_from fl [] es) [], count_if-sort_from [] es) in
      let cut : (b : Bool) → count_if p (if b then take limit sorted else sorted) ≤ count_if p es =
        λ b. ground (arith, same, count_if-take p limit sorted) in
      subst (λ o. count_if p o ≤ count_if p es) (ap (or_else []) h)
        (cut (ltb limit (length sorted)))

module _ {F : Type 0} where
  scan_list-map :
      {A : Type 0} (f : A → LeaderboardEntry F) (xs : List A)
      → scan_list (map (λ x. ok (f x)) xs) none ≡ ok (map f xs)
  unfolding scan_list
  scan_list-map f [] = refl
  scan_list-map f (x ∷ xs) = rw (scan_list-map f xs) refl

  abbrev is_of : String → EfficiencySnapshot F → Bool
  is_of email s = str_eq s.engineer_id email

  -- once a row is taken, no later row of its engineer is
  none_after :
      (all : List (EfficiencySnapshot F)) (s : EfficiencySnapshot F)
      (ss : List (EfficiencySnapshot F))
      → Memᴰ s all
      → any (is_later s) all ≡ false
      → any (is_tied s) ss ≡ false
      → All (λ r. Memᴰ r all) ss
      → count_if (is_of s.engineer_id) (distinct_on all ss) ≡ 0
  unfolding count_if distinct_on any is_later is_tied
  none_after all s [] m latest untied listed = refl
  none_after all s (r ∷ ss) m latest untied listed =
      let rest = none_after all s ss m latest (ground (arith, untied)) listed.1 in
      elim (Bool-cases (any (is_later r) all)) [
        | inl beaten ↦ ground (arith, beaten, rest)
        | inr unbeaten ↦ ground (
          arith,
          rest,
          untied,
          any-member (is_later r) s all unbeaten m,
          any-member (is_later s) r all latest listed.0,
          eq_iff r.engineer_id s.engineer_id,
          eq_iff s.engineer_id r.engineer_id,
        )
      ]

  once :
      (email : String) (all ss : List (EfficiencySnapshot F))
      → All (λ r. Memᴰ r all) ss
      → count_if (is_of email) (distinct_on all ss) ≤ 1
  unfolding count_if distinct_on
  once email all [] listed = omega arith
  once email all (s ∷ ss) listed =
      let rest = once email all ss listed.1 in
      elim (Bool-cases (any (is_later s) all || any (is_tied s) ss)) [
        | inl dropped ↦ rw (dropped, distinct_on) rest
        | inr kept ↦
            let none_left =
              none_after all s ss listed.0 (ground (arith, kept)) (ground (arith, kept)) listed.1 in
            elim (Bool-cases (str_eq s.engineer_id email)) [
              | inl mine ↦
                  let none_mine =
                    subst (λ (e : String). count_if (is_of e) (distinct_on all ss) ≡ 0)
                      ((eq_iff s.engineer_id email).0 mine) none_left in
                  ground (arith, kept, mine, none_mine)
              | inr other ↦ ground (arith, kept, other, rest)
            ]
      ]

  none_later :
      (all ss : List (EfficiencySnapshot F))
      → count_if (λ s. any (is_later s) all) (distinct_on all ss) ≡ 0
  unfolding count_if distinct_on
  none_later all [] = refl
  none_later all (s ∷ ss) = ground (arith, none_later all ss)

  All-tail :
      (x : EfficiencySnapshot F) (xs ys : List (EfficiencySnapshot F))
      → All (λ r. Memᴰ r xs) ys
      → All (λ r. Memᴰ r (x ∷ xs)) ys
  All-tail x xs [] h = tt
  All-tail x xs (y ∷ ys) h = (Memᴰ.tail h.0, All-tail x xs ys h.1)

  All-self : (xs : List (EfficiencySnapshot F)) → All (λ r. Memᴰ r xs) xs
  All-self [] = tt
  All-self (x ∷ xs) = (Memᴰ.head refl, All-tail x xs xs (All-self xs))

  -- a snapshot of the entry's engineer that was computed after the entry
  unfoldable pub is_newer : LeaderboardEntry F → EfficiencySnapshot F → Bool
  is_newer e s = str_eq s.engineer_id e.engineer_id && ltb e.computed_at s.computed_at

  module _ (fl : Float F) (collates : String → String → Bool) (start end : Time)
      (t : List (EfficiencySnapshot F)) where
    abbrev selected : List (EfficiencySnapshot F)
    selected = select (in_snapshot_window start end) t

    -- what the leaderboard shows, it shows of the query's rows
    shown_of_query :
        (p : LeaderboardEntry F → Bool) (limit : ℤ) (out : List (LeaderboardEntry F))
        → leaderboard fl (query_latest collates none start end t) limit ≡ ok out
        → count_if p out ≤ count_if (λ s. p (entry_of s)) (distinct_on selected selected)
    unfolding leaderboard collect query_latest
    shown_of_query p limit out h =
        let first : EfficiencySnapshot F → EfficiencySnapshot F → Bool =
          λ a b. collates a.engineer_id b.engineer_id in
        let latest = order_by first (distinct_on selected selected) in
        let cut : cut_to fl (limit_or_default fl limit) (ok (map entry_of latest)) ≡ ok out =
          ap (cut_to fl (limit_or_default fl limit)) (sym (scan_list-map entry_of latest)) ∙ h in
        omega (
          arith,
          count_if-cut_to fl p (limit_or_default fl limit) (map entry_of latest) out cut,
          count_if-map p entry_of latest,
          count_if-order_by (λ s. p (entry_of s)) first (distinct_on selected selected),
        )

    -- The leaderboard of a window shows each engineer at most once, and with no snapshot of the window
    -- that a later one of that engineer supersedes.
    pub leaderboard_once :
        (email : String) (limit : ℤ) (out : List (LeaderboardEntry F))
        → leaderboard fl (query_latest collates none start end t) limit ≡ ok out
        → (count_if (λ e. str_eq e.engineer_id email) out ≤ 1)
          × (count_if (λ e. any (is_newer e) (select (in_snapshot_window start end) t)) out ≡ 0)
    unfolding entry_of is_newer is_later
    leaderboard_once email limit out h = (
      omega (
        arith,
        shown_of_query (λ e. str_eq e.engineer_id email) limit out h,
        once email selected selected (All-self selected),
      ),
      omega (
        arith,
        shown_of_query (λ e. any (is_newer e) selected) limit out h,
        none_later selected selected,
      ),
    )
