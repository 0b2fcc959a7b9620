-- ===== src/Baseline/Isolated.antt =====
-- What the rebuild of one engineer's baseline has to do with the others.
use mathlib.Core.List.{Memᴰ}
use enterprise_llm_tracker.Base.{
  ◌+◌, ◌*◌, String, Bool, true, false, not, ◌&&◌, ◌≡◌, refl, sym, ap, ◌∙◌, subst, List, [], ◌∷◌,
  Option, none, some, str_eq, eq_refl, eq_iff, arith, if◌then◌else◌, inl, inr, Option-cases,
}
use enterprise_llm_tracker.Base.Act.{ok, err, Result-cases}
use enterprise_llm_tracker.Base.Dict.{Dict, lookup, lookup-insert}
use enterprise_llm_tracker.Baseline.{
  Baselines, held_hash, hset_all, baseline_fields, save_baseline, compute_baseline, rebuild,
}
use enterprise_llm_tracker.Clock.{Time, hour}
use enterprise_llm_tracker.Config.{SignalsConfig}
use enterprise_llm_tracker.Float.{Float}
use enterprise_llm_tracker.Models.{EngineerBaseline}
use enterprise_llm_tracker.Registry.{Engineer}
use enterprise_llm_tracker.Usage.{UsageRow}

-- no engineer of the list has the email
unfoldable pub is_absent : {F : Type 0} → String → List (Engineer F) → Bool
is_absent email [] = true
is_absent email (e ∷ es) = not (str_eq e.email email) && is_absent email es

unfoldable pub AreDistinct : {F : Type 0} → List (Engineer F) → Type 0
AreDistinct [] = Unit
AreDistinct (e ∷ es) = (is_absent e.email es ≡ true) × AreDistinct es

absent_member :
    {F : Type 0} (email : String) (e : Engineer F) (es : List (Engineer F))
    → is_absent email es ≡ true
    → Memᴰ e es
    → str_eq email e.email ≡ false
unfolding is_absent
absent_member email e [] h m = elim m [ ]
absent_member email e (x ∷ es) h (Memᴰ.head same) =
    subst (λ y. str_eq email y.email ≡ false) (sym same)
      (ground (arith, h, eq_iff x.email email, eq_iff email x.email))
absent_member email e (x ∷ es) h (Memᴰ.tail m) = absent_member email e es (ground (arith, h)) m

module _ {F : Type 0} (fl : Float F) (ceil : F → F) (show : F → String) (sum : List F → F)
    (format_rfc3339 : Time → String) (cfg : SignalsConfig F)
    (fault : String → String → Option String) (clock : String → Time)
    (rows : List (UsageRow F)) where
  abbrev run : List (Engineer F) → Baselines → Baselines
  run = rebuild fl ceil show sum format_rfc3339 cfg fault clock rows

  abbrev save : String → EngineerBaseline F → Baselines → Baselines
  save email b = save_baseline fl ceil show sum format_rfc3339 cfg email b (clock email)

  -- what is done for one engineer: nothing, or a save of some baseline
  unfoldable outcome : Engineer F → Option (EngineerBaseline F)
  outcome e =
      elim (compute_baseline fl ceil show sum format_rfc3339 cfg (fault e.email) e.email
        (clock e.email) rows) [
          | err x ↦ none
          | ok none ↦ none
          | ok (some b) ↦ elim (fault e.email "save") [ some x ↦ none | none ↦ some b ]
        ]

  unfoldable save_if : String → Option (EngineerBaseline F) → Baselines → Baselines
  save_if email none all = all
  save_if email (some b) all = save email b all

  run_step :
      (e : Engineer F) (es : List (Engineer F)) (all : Baselines)
      → run (e ∷ es) all ≡ run es (save_if e.email (outcome e) all)
  unfolding rebuild outcome save_if
  run_step e es all =
      elim (Result-cases (
        compute_baseline fl ceil show sum format_rfc3339 cfg (fault e.email) e.email (clock e.email)
          rows)) [
            | inl (none, computed) ↦ rw (computed, rebuild, outcome) refl
            | inl (some b, computed) ↦ elim (Option-cases (fault e.email "save")) [
              | inl fine ↦ rw (computed, rebuild, outcome) (rw fine refl)
              | inr (x, failed) ↦ rw (computed, rebuild, outcome) (rw failed refl)
            ]
            | inr (x, failed) ↦ rw (failed, rebuild, outcome) refl
          ]

  save_if_elsewhere :
      (email asked : String) (o : Option (EngineerBaseline F)) (all : Baselines)
      → str_eq email asked ≡ false
      → lookup asked (save_if email o all) ≡ lookup asked all
  unfolding save_if save_baseline
  save_if_elsewhere email asked none all h = refl
  save_if_elsewhere email asked (some b) all h = lookup-insert email asked _ all ∙ rw h refl

  abbrev entry : String → EngineerBaseline F → Option (Dict String × Time) → Dict String × Time
  entry email b o =
      let now = clock email in
      (hset_all (baseline_fields show b (format_rfc3339 now)) (held_hash now o), now + 48 * hour)

  lookup-save :
      (email : String) (b : EngineerBaseline F) (all : Baselines)
      → lookup email (save email b all) ≡ some (entry email b (lookup email all))
  unfolding save_baseline
  lookup-save email b all =
      lookup-insert email email (entry email b (lookup email all)) all
      ∙ ap (λ c. if c then some (entry email b (lookup email all)) else lookup email all)
          (eq_refl email)

  save_if_local :
      (email : String) (o : Option (EngineerBaseline F)) (all all' : Baselines)
      → lookup email all ≡ lookup email all'
      → lookup email (save_if email o all) ≡ lookup email (save_if email o all')
  unfolding save_if save_baseline
  save_if_local email none all all' h = h
  save_if_local email (some b) all all' h =
      lookup-save email b all ∙ ap (λ o. some (entry email b o)) h ∙ sym (lookup-save email b all')

  run_elsewhere :
      (asked : String) (es : List (Engineer F)) (all : Baselines)
      → is_absent asked es ≡ true
      → lookup asked (run es all) ≡ lookup asked all
  unfolding rebuild is_absent
  run_elsewhere asked [] all h = refl
  run_elsewhere asked (e ∷ es) all h =
      ap (lookup asked) (run_step e es all)
      ∙ run_elsewhere asked es (save_if e.email (outcome e) all) (ground (arith, h))
      ∙ save_if_elsewhere e.email asked (outcome e) all (ground (arith, h))

  run_first :
      (e : Engineer F) (es : List (Engineer F)) (all all' : Baselines)
      → is_absent e.email es ≡ true
      → lookup e.email all ≡ lookup e.email all'
      → lookup e.email (run (e ∷ es) all) ≡ lookup e.email (run (e ∷ []) all')
  unfolding rebuild
  run_first e es all all' absent h =
      ap (lookup e.email) (run_step e es all)
      ∙ run_elsewhere e.email es (save_if e.email (outcome e) all) absent
      ∙ save_if_local e.email (outcome e) all all' h
      ∙ sym (ap (lookup e.email) (run_step e [] all'))

  run_alone :
      (e : Engineer F) (es : List (Engineer F)) (all all' : Baselines)
      → Memᴰ e es
      → AreDistinct es
      → lookup e.email all ≡ lookup e.email all'
      → lookup e.email (run es all) ≡ lookup e.email (run (e ∷ []) all')
  unfolding AreDistinct
  run_alone e [] all all' m d h = elim m [ ]
  run_alone e (x ∷ es) all all' (Memᴰ.head same) d h =
      subst (λ y. lookup y.email (run (x ∷ es) all) ≡ lookup y.email (run (y ∷ []) all')) (sym same)
        (run_first x es all all' d.0 (subst (λ y. lookup y.email all ≡ lookup y.email all') same h))
  run_alone e (x ∷ es) all all' (Memᴰ.tail m) d h =
      let other = absent_member x.email e es d.0 m in
      ap (lookup e.email) (run_step x es all)
      ∙ run_alone e es (save_if x.email (outcome x) all) all' m d.1
          (save_if_elsewhere x.email e.email (outcome x) all other ∙ h)

  -- Where the engineers of a run have different emails, what the run leaves for one of them is what a
  -- run for that engineer alone leaves: the queries and saves of the others, failed or not, and their
  -- order make no difference.
  pub rebuild_alone :
      (e : Engineer F) (es : List (Engineer F)) (all : Baselines)
      → Memᴰ e es
      → AreDistinct es
      → lookup e.email (rebuild fl ceil show sum format_rfc3339 cfg fault clock rows es all)
        ≡ lookup e.email (rebuild fl ceil show sum format_rfc3339 cfg fault clock rows (e ∷ []) all)
  rebuild_alone e es all m d = run_alone e es all all m d refl
