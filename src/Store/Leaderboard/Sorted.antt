-- ===== src/Store/Leaderboard/Sorted.antt =====
-- The order of the leaderboard.
use mathlib.Core.List.{Perm, perm_middle, append-nil}
use mathlib.Core.List.Perm as P
use enterprise_llm_tracker.Base.{
  ◌≤◌, Bool, ◌&&◌, ◌||◌, not, true, false, ◌≡◌, refl, sym, subst, List, [], ◌∷◌, ◌++◌, All, arith,
  ltb, length, take, drop, take-append-drop, length-take, Bool-cases, inl, inr,
}
use enterprise_llm_tracker.Base.Act.{ok}
use enterprise_llm_tracker.Base.Int.{ℤ, neg_part, is_pos}
use enterprise_llm_tracker.Float.{Float, IsOrdered}
use enterprise_llm_tracker.Query.{QueryResult, collect}
use enterprise_llm_tracker.Store.Leaderboard.{
  LeaderboardEntry, less_lb, sink, sort_from, onto, sort_leaderboard, limit_or_default, cut_to,
  leaderboard,
}

-- a count is not negative
abbrev pub IsCounted : {F : Type 0} → LeaderboardEntry F → Type 0
IsCounted e = neg_part e.merged_pr_count ≡ 0

module _ {F : Type 0} (fl : Float F) where
  -- no later entry is less than an earlier one
  abbrev pub IsSorted : List (LeaderboardEntry F) → Type 0
  IsSorted [] = Unit
  IsSorted (e ∷ es) = All (λ x. less_lb fl x e ≡ false) es × IsSorted es

  -- the same of a list from its end
  abbrev IsFalling : List (LeaderboardEntry F) → Type 0
  IsFalling [] = Unit
  IsFalling (e ∷ es) = All (λ x. less_lb fl e x ≡ false) es × IsFalling es

  All-sink :
      (P : LeaderboardEntry F → Type 0) (e : LeaderboardEntry F) (ps : List (LeaderboardEntry F))
      → P e
      → All P ps
      → All P (sink fl e ps)
  unfolding sink
  All-sink P e [] h hs = (h, tt)
  All-sink P e (p ∷ ps) h hs = elim (Bool-cases (less_lb fl e p)) [
    | inl less ↦ rw (less, sink) (hs.0, All-sink P e ps h hs.1)
    | inr not_less ↦ rw (not_less, sink) (h, hs)
  ]

  module _ (ordered : IsOrdered fl) where
    less_lb_asymm : (a b : LeaderboardEntry F) → less_lb fl a b ≡ true → less_lb fl b a ≡ false
    unfolding less_lb
    less_lb_asymm a b h =
        ground (arith, h, ordered.lt_asymm a.dollars_per_merged_pr b.dollars_per_merged_pr)

    less_lb_cotrans :
        (a b c : LeaderboardEntry F)
        → IsCounted a
        → IsCounted b
        → IsCounted c
        → less_lb fl a b ≡ false
        → less_lb fl b c ≡ false
        → less_lb fl a c ≡ false
    unfolding less_lb
    less_lb_cotrans a b c ca cb cc h k = ground (
      arith,
      h,
      k,
      ordered.lt_cotrans a.dollars_per_merged_pr b.dollars_per_merged_pr c.dollars_per_merged_pr,
    )

    -- what is not less than the last is not less than what precedes it
    not_less_than_any :
        (e p : LeaderboardEntry F) (ps : List (LeaderboardEntry F))
        → IsCounted e
        → IsCounted p
        → All IsCounted ps
        → less_lb fl e p ≡ false
        → All (λ x. less_lb fl p x ≡ false) ps
        → All (λ x. less_lb fl e x ≡ false) ps
    not_less_than_any e p [] ce cp cs h hs = tt
    not_less_than_any e p (x ∷ ps) ce cp cs h hs =
        (less_lb_cotrans e p x ce cp cs.0 h hs.0, not_less_than_any e p ps ce cp cs.1 h hs.1)

    sink-IsFalling :
        (e : LeaderboardEntry F) (ps : List (LeaderboardEntry F))
        → IsCounted e
        → All IsCounted ps
        → IsFalling ps
        → IsFalling (sink fl e ps)
    unfolding sink
    sink-IsFalling e [] ce cs h = (tt, tt)
    sink-IsFalling e (p ∷ ps) ce cs h = elim (Bool-cases (less_lb fl e p)) [
      | inl less ↦
          rw (less, sink)
            (
              All-sink (λ x. less_lb fl p x ≡ false) e ps (less_lb_asymm e p less) h.0,
              sink-IsFalling e ps ce cs.1 h.1,
            )
      | inr not_less ↦
          rw (not_less, sink) ((not_less, not_less_than_any e p ps ce cs.0 cs.1 not_less h.0), h)
    ]

    sort_from-IsFalling :
        (done es : List (LeaderboardEntry F))
        → All IsCounted done
        → All IsCounted es
        → IsFalling done
        → IsFalling (sort_from fl done es)
    unfolding sort_from
    sort_from-IsFalling done [] cd ce h = h
    sort_from-IsFalling done (e ∷ es) cd ce h =
        sort_from-IsFalling (sink fl e done) es (All-sink IsCounted e done ce.0 cd) ce.1
          (sink-IsFalling e done ce.0 cd h)

  -- no element of `acc` is less than one of the first list
  abbrev Above : List (LeaderboardEntry F) → List (LeaderboardEntry F) → Type 0
  Above xs acc = All (λ x. All (λ a. less_lb fl a x ≡ false) acc) xs

  Above-cons :
      (e : LeaderboardEntry F) (xs acc : List (LeaderboardEntry F))
      → All (λ x. less_lb fl e x ≡ false) xs
      → Above xs acc
      → Above xs (e ∷ acc)
  Above-cons e [] acc h hs = tt
  Above-cons e (x ∷ xs) acc h hs = ((h.0, hs.0), Above-cons e xs acc h.1 hs.1)

  onto-IsSorted :
      (xs acc : List (LeaderboardEntry F))
      → IsFalling xs
      → IsSorted acc
      → Above xs acc
      → IsSorted (onto fl xs acc)
  unfolding onto
  onto-IsSorted [] acc hx ha above = ha
  onto-IsSorted (x ∷ xs) acc hx ha above =
      onto-IsSorted xs (x ∷ acc) hx.1 (above.0, ha) (Above-cons x xs acc hx.0 above.1)

  Above-nil : (xs : List (LeaderboardEntry F)) → Above xs []
  Above-nil [] = tt
  Above-nil (x ∷ xs) = (tt, Above-nil xs)

  sink-Perm :
      (e : LeaderboardEntry F) (ps : List (LeaderboardEntry F)) → Perm (sink fl e ps) (e ∷ ps)
  unfolding sink
  sink-Perm e [] = P.refl (e ∷ [])
  sink-Perm e (p ∷ ps) = elim (Bool-cases (less_lb fl e p)) [
    | inl less ↦ rw (less, sink) (P.trans (P.cons p (sink-Perm e ps)) (P.swap e p ps))
    | inr not_less ↦ rw (not_less, sink) (P.refl (e ∷ p ∷ ps))
  ]

  sort_from-Perm : (done es : List (LeaderboardEntry F)) → Perm (sort_from fl done es) (es ++ done)
  unfolding sort_from
  sort_from-Perm done [] = P.refl done
  sort_from-Perm done (e ∷ es) =
      P.trans (sort_from-Perm (sink fl e done) es)
        (P.trans (P.append_left es (sink-Perm e done)) (perm_middle es done))

  onto-Perm : (xs acc : List (LeaderboardEntry F)) → Perm (onto fl xs acc) (xs ++ acc)
  unfolding onto
  onto-Perm [] acc = P.refl acc
  onto-Perm (x ∷ xs) acc = P.trans (onto-Perm xs (x ∷ acc)) (perm_middle xs acc)

  -- `e` may stand before `x`: it has merges if `x` has any, and if both have, `x` is not cheaper
  unfoldable pub may_precede : LeaderboardEntry F → LeaderboardEntry F → Bool
  may_precede e x =
      (is_pos e.merged_pr_count || not (is_pos x.merged_pr_count))
      && not (
          is_pos e.merged_pr_count
          && is_pos x.merged_pr_count
          && fl.lt x.dollars_per_merged_pr e.dollars_per_merged_pr)

  -- every entry may stand before every later one
  abbrev pub IsRanked : List (LeaderboardEntry F) → Type 0
  IsRanked [] = Unit
  IsRanked (e ∷ es) = All (λ x. may_precede e x ≡ true) es × IsRanked es

  less_lb-may_precede :
      (e x : LeaderboardEntry F)
      → IsCounted e
      → IsCounted x
      → less_lb fl x e ≡ false
      → may_precede e x ≡ true
  unfolding less_lb may_precede
  less_lb-may_precede e x ce cx h = ground (arith, h)

  All-may_precede :
      (e : LeaderboardEntry F) (es : List (LeaderboardEntry F))
      → IsCounted e
      → All IsCounted es
      → All (λ x. less_lb fl x e ≡ false) es
      → All (λ x. may_precede e x ≡ true) es
  All-may_precede e [] ce cs h = tt
  All-may_precede e (x ∷ es) ce cs h =
      (less_lb-may_precede e x ce cs.0 h.0, All-may_precede e es ce cs.1 h.1)

  IsSorted-IsRanked :
      (es : List (LeaderboardEntry F)) → All IsCounted es → IsSorted es → IsRanked es
  IsSorted-IsRanked [] cs h = tt
  IsSorted-IsRanked (e ∷ es) cs h =
      (All-may_precede e es cs.0 cs.1 h.0, IsSorted-IsRanked es cs.1 h.1)

  All-sort_from :
      (P : LeaderboardEntry F → Type 0) (done es : List (LeaderboardEntry F))
      → All P done
      → All P es
      → All P (sort_from fl done es)
  unfolding sort_from
  All-sort_from P done [] hd he = hd
  All-sort_from P done (e ∷ es) hd he =
      All-sort_from P (sink fl e done) es (All-sink P e done he.0 hd) he.1

  All-onto :
      (P : LeaderboardEntry F → Type 0) (xs acc : List (LeaderboardEntry F))
      → All P xs
      → All P acc
      → All P (onto fl xs acc)
  unfolding onto
  All-onto P [] acc hx ha = ha
  All-onto P (x ∷ xs) acc hx ha = All-onto P xs (x ∷ acc) hx.1 (hx.0, ha)

  All-sort_leaderboard :
      (P : LeaderboardEntry F → Type 0) (es : List (LeaderboardEntry F))
      → All P es
      → All P (sort_leaderboard fl es)
  unfolding sort_leaderboard
  All-sort_leaderboard P es h = All-onto P (sort_from fl [] es) [] (All-sort_from P [] es tt h) tt

  -- The leaderboard's sort keeps exactly the entries and leaves no later entry less than an earlier
  -- one, if the costs per pull request are ordered and no count is negative: those with merges come
  -- first, by cost per pull request.
  pub sort_leaderboard-IsSorted :
      IsOrdered fl
      → (es : List (LeaderboardEntry F)) → All IsCounted es
      → IsSorted (sort_leaderboard fl es) × Perm (sort_leaderboard fl es) es
  unfolding sort_leaderboard
  sort_leaderboard-IsSorted ordered es counted = (
    onto-IsSorted (sort_from fl [] es) [] (sort_from-IsFalling ordered [] es tt counted tt) tt
        (Above-nil (sort_from fl [] es)),
    subst (λ l. Perm (sort_leaderboard fl es) l) (append-nil es)
        (P.trans
          (subst (λ l. Perm (sort_leaderboard fl es) l) (append-nil (sort_from fl [] es))
            (onto-Perm (sort_from fl [] es) []))
          (sort_from-Perm [] es)),
  )

  -- If no cost per pull request is NaN and no count of merges is negative, a leaderboard that could
  -- be read starts an order of everything that was read, and has at most as many entries as the
  -- limit, or 100 if no positive limit is given. In that order those with merges come before those
  -- without, and of two with merges the later is not cheaper.
  pub leaderboard_best :
      IsOrdered fl
      → (q : QueryResult (LeaderboardEntry F)) (limit : ℤ) (es : List (LeaderboardEntry F))
      → collect q ≡ ok es
      → All IsCounted es
      → (best rest : List (LeaderboardEntry F)) × (leaderboard fl q limit ≡ ok best)
        × (length best ≤ limit_or_default fl limit)
        × IsRanked (best ++ rest)
        × Perm (best ++ rest) es
  unfolding leaderboard cut_to
  leaderboard_best ordered q limit es read counted =
      let sorted = sort_leaderboard fl es in
      let (settled, same) = sort_leaderboard-IsSorted ordered es counted in
      let in_order = IsSorted-IsRanked sorted (All-sort_leaderboard IsCounted es counted) settled in
      let limit' = limit_or_default fl limit in
      elim (Bool-cases (ltb limit' (length sorted))) [
        | inl long ↦
            let whole = take-append-drop limit' sorted in
            (
              take limit' sorted,
              drop limit' sorted,
              rw (read, cut_to, long) refl,
              length-take limit' sorted,
              subst IsRanked (sym whole) in_order,
              subst (λ l. Perm l es) (sym whole) same,
            )
        | inr short ↦ (
          sorted,
          [],
          rw (read, cut_to, short) refl,
          ground (arith, short),
          subst IsRanked (sym (append-nil sorted)) in_order,
          subst (λ l. Perm l es) (sym (append-nil sorted)) same,
        )
      ]
