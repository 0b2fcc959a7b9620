-- ===== src/Baseline/Saved.antt =====
-- A baseline that is saved and loaded.
use enterprise_llm_tracker.Base.{
  ℕ, ◌+◌, ◌*◌, String, Bool, true, false, ◌≡◌, refl, ap, ◌∙◌, List, [], ◌∷◌, Option, none, some,
  All, map, str_eq, leb, arith, if◌then◌else◌, inl, inr, Bool-cases, Option-cases,
}
use enterprise_llm_tracker.Base.Dict.{Dict, lookup, insert, at, lookup-insert}
use enterprise_llm_tracker.Base.Format.{concat, show_nat, show_int}
use enterprise_llm_tracker.Base.Int.{ℤ}
use enterprise_llm_tracker.Baseline.{
  Baselines, held_hash, load, hour_fields, baseline_fields, hset_all, save_baseline,
}
use enterprise_llm_tracker.Clock.{Time, hour}
use enterprise_llm_tracker.Config.{SignalsConfig}
use enterprise_llm_tracker.Float.{Float}
use enterprise_llm_tracker.Ingest.Atoi.{atoi}
use enterprise_llm_tracker.Ingest.Atoi.Printed.{is_int, atoi-show_int}
use enterprise_llm_tracker.Models.{EngineerBaseline}
use enterprise_llm_tracker.Store.Signals.{
  baseline_of_hash, hour_fraction, float_or_none, int_or_none,
}

-- the value that the last of the fields with the name has
unfoldable last_of : String → Dict String → Option String
last_of k [] = none
last_of k ((field, value) ∷ fields) =
    let here = if str_eq field k then some value else none in
    elim (last_of k fields) [ some v ↦ some v | none ↦ here ]

abbrev or_held : Option String → Option String → Option String
or_held none held = held
or_held (some v) held = some v

lookup-hset_all :
    (k : String) (fields h : Dict String)
    → lookup k (hset_all fields h) ≡ or_held (last_of k fields) (lookup k h)
unfolding last_of hset_all
lookup-hset_all k [] h = refl
lookup-hset_all k ((field, value) ∷ fields) h = ground (
  arith,
  lookup-hset_all k fields (insert field value h),
  lookup-insert field k value h,
  Option-cases (last_of k fields),
)

abbrev hours : List ℕ
hours =
    0 ∷ 1 ∷ 2 ∷ 3 ∷ 4 ∷ 5 ∷ 6 ∷ 7 ∷ 8 ∷ 9 ∷ 10 ∷ 11 ∷ 12 ∷ 13 ∷ 14 ∷ 15 ∷ 16 ∷ 17 ∷ 18 ∷ 19 ∷ 20
    ∷ 21 ∷ 22 ∷ 23 ∷ []

abbrev hour_key : ℕ → String
hour_key i = concat ("h" ∷ show_nat i ∷ [])

module _ {F : Type 0} where
  -- what there is to see of a baseline: its figures, and the fractions of the 24 hours
  unfoldable pub seen : EngineerBaseline F → F × F × F × ℤ × List F
  seen b =
      (b.daily_mean, b.daily_stddev, b.hourly_p95, b.active_days, map b.hour_distribution hours)

  unfoldable pub seen_if_any : Option (EngineerBaseline F) → Option (F × F × F × ℤ × List F)
  unfolding seen
  seen_if_any none = none
  seen_if_any (some b) = some (seen b)

-- what is seen of a hash that has a field
seen_of_hash :
    {F : Type 0} (fl : Float F) (h : Dict String) (k v : String)
    → lookup k h ≡ some v
    → seen_if_any (baseline_of_hash fl h)
      ≡ some (
        float_or_none fl (fl.parse (at "" "daily_mean" h)),
        float_or_none fl (fl.parse (at "" "daily_stddev" h)),
        float_or_none fl (fl.parse (at "" "hourly_p95" h)),
        int_or_none fl (atoi (at "" "active_days" h)),
        map (λ i. hour_fraction fl (lookup (hour_key i) h)) hours,
      )
unfolding baseline_of_hash seen_if_any lookup
seen_of_hash fl [] k v e = absurd (ground (arith, e))
seen_of_hash fl (field ∷ fields) k v e = refl

-- what is seen of a hash while it has not expired
until :
    {F : Type 0} (fl : Float F) (hash : Dict String) (figures : F × F × F × ℤ × List F)
    (expired : Bool)
    → seen_if_any (baseline_of_hash fl hash) ≡ some figures
    → seen_if_any (baseline_of_hash fl (if expired then [] else hash))
      ≡ (if expired then none else some figures)
unfolding baseline_of_hash seen_if_any
until fl hash figures true read = refl
until fl hash figures false read = read

module _ {F : Type 0} (fl : Float F) (show : F → String)
    (parse-show : (x : F) → fl.parse (show x) ≡ some x) where
  hour_keys :
      (b : EngineerBaseline F) (rebuilt : String)
      → All
          (λ i.
            last_of (hour_key i) (baseline_fields show b rebuilt)
            ≡ some (show (b.hour_distribution i)))
          hours
  unfolding baseline_fields hour_fields last_of concat show_nat
  hour_keys b rebuilt = (
    refl,
    (
      refl,
      (
        refl,
        (
          refl,
          (
            refl,
            (
              refl,
              (
                refl,
                (
                  refl,
                  (
                    refl,
                    (
                      refl,
                      (
                        refl,
                        (
                          refl,
                          (
                            refl,
                            (
                              refl,
                              (
                                refl,
                                (
                                  refl,
                                  (
                                    refl,
                                    (refl, (refl, (refl, (refl, (refl, (refl, (refl, tt))))))),
                                  ),
                                ),
                              ),
                            ),
                          ),
                        ),
                      ),
                    ),
                  ),
                ),
              ),
            ),
          ),
        ),
      ),
    ),
  )

  module _ (b : EngineerBaseline F) (rebuilt : String) (h : Dict String)
      (bounded : is_int b.active_days ≡ true) where
    abbrev saved : Dict String
    saved = hset_all (baseline_fields show b rebuilt) h

    found :
        (k v : String)
        → last_of k (baseline_fields show b rebuilt) ≡ some v
        → lookup k saved ≡ some v
    found k v e =
        lookup-hset_all k (baseline_fields show b rebuilt) h ∙ ap (λ o. or_held o (lookup k h)) e

    at_found :
        (k v : String) → last_of k (baseline_fields show b rebuilt) ≡ some v → at "" k saved ≡ v
    at_found k v e = ap (λ (o : Option String). elim o [ none ↦ "" | some w ↦ w ]) (found k v e)

    fractions :
        (is : List ℕ)
        → All
            (λ i.
              last_of (hour_key i) (baseline_fields show b rebuilt)
              ≡ some (show (b.hour_distribution i)))
            is
        → map (λ i. hour_fraction fl (lookup (hour_key i) saved)) is ≡ map b.hour_distribution is
    fractions [] all = refl
    fractions (i ∷ is) all =
        let read : hour_fraction fl (lookup (hour_key i) saved) ≡ b.hour_distribution i =
          ap (hour_fraction fl) (found (hour_key i) _ all.0)
          ∙ ap (float_or_none fl) (parse-show (b.hour_distribution i)) in
        ap (λ x. x ∷ map (λ j. hour_fraction fl (lookup (hour_key j) saved)) is) read
        ∙ ap (λ xs. b.hour_distribution i ∷ xs) (fractions is all.1)

    seen-saved : seen_if_any (baseline_of_hash fl saved) ≡ some (seen b)
    unfolding seen baseline_fields hour_fields last_of concat show_nat
    seen-saved =
        seen_of_hash fl saved "daily_mean" (show b.daily_mean) (found "daily_mean" _ refl)
        ∙ rw
            (
              at_found "daily_mean" (show b.daily_mean) refl,
              at_found "daily_stddev" (show b.daily_stddev) refl,
              at_found "hourly_p95" (show b.hourly_p95) refl,
              at_found "active_days" (show_int b.active_days) refl,
              parse-show b.daily_mean,
              parse-show b.daily_stddev,
              parse-show b.hourly_p95,
              atoi-show_int b.active_days bounded,
              fractions hours (hour_keys b rebuilt),
            )
            refl

  module _ (ceil : F → F) (sum : List F → F) (format_rfc3339 : Time → String)
      (cfg : SignalsConfig F) where
    -- A baseline that was saved is read back for 48 hours, each figure and the fraction of each of the
    -- 24 hours as it was saved, and then no longer; the engineers with other emails are read as before.
    -- For this, ParseFloat reads what the Redis client writes of a float, and active_days is an int.
    pub load-save_baseline :
        (email asked : String) (b : EngineerBaseline F) (now later : Time) (all : Baselines)
        → is_int b.active_days ≡ true
        → seen_if_any (
            load fl asked later (save_baseline fl ceil show sum format_rfc3339 cfg email b now all))
          ≡ (if str_eq email asked
              then if leb (now + 48 * hour) later then none else some (seen b)
              else seen_if_any (load fl asked later all))
    unfolding load save_baseline
    load-save_baseline email asked b now later all bounded =
        let held = held_hash now (lookup email all) in
        let hash = hset_all (baseline_fields show b (format_rfc3339 now)) held in
        let view : Option (Dict String × Time) → Option (F × F × F × ℤ × List F) =
          λ o. seen_if_any (baseline_of_hash fl (held_hash later o)) in
        ap view (lookup-insert email asked (hash, now + 48 * hour) all)
        ∙ elim (Bool-cases (str_eq email asked)) [
          | inr other ↦ rw other refl
          | inl mine ↦ rw mine (
              until fl hash (seen b) (leb (now + 48 * hour) later)
                (seen-saved b (format_rfc3339 now) held bounded))
        ]
