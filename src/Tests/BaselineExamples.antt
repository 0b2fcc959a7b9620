-- ===== src/Tests/BaselineExamples.antt =====
-- A baseline, an integer and a percentile at concrete inputs.
use mathlib.Core.List.{Memᴰ}
use enterprise_llm_tracker.Base.{
  ℕ, ◌+◌, String, true, ◌≡◌, refl, none, some, Option, str_eq, if◌then◌else◌, List, [], ◌∷◌,
}
use enterprise_llm_tracker.Base.Format.{show_nat, show_int}
use enterprise_llm_tracker.Base.Int.{negsuc}
use enterprise_llm_tracker.Baseline.{
  rebuild, load, save_baseline, percentile_of, rank_index, mean_stddev, add_all, add_squares,
}
use enterprise_llm_tracker.Baseline.Isolated.{AreDistinct, is_absent, rebuild_alone}
use enterprise_llm_tracker.Base.Dict.{lookup}
use enterprise_llm_tracker.Registry.{Engineer}
use enterprise_llm_tracker.Tests.ThresholdExamples.{alice}
use enterprise_llm_tracker.Baseline.Saved.{seen, seen_if_any, load-save_baseline}
use enterprise_llm_tracker.Clock.{hour}
use enterprise_llm_tracker.Float.{Float}
use enterprise_llm_tracker.Ingest.Atoi.{atoi, number}
use enterprise_llm_tracker.Ingest.Atoi.Printed.{is_int, number-show_nat}
use enterprise_llm_tracker.Rollup.{sort_floats, insert_float}
use enterprise_llm_tracker.Tests.DetectorExamples.{cfg, baseline}
use enterprise_llm_tracker.Tests.Fakes.{thousandths, noon}

-- thousandths that are written in full
abbrev printed : Float ℕ
printed = record thousandths { parse = number }

ninth : percentile_of thousandths (λ x. x + 999) (5_000 ∷ 1_000 ∷ 9_000 ∷ []) 950 ≡ 9_000
unfolding percentile_of rank_index sort_floats insert_float
ninth = refl

mean_of_two : (mean_stddev thousandths (1_000 ∷ 3_000 ∷ [])).0 ≡ 2_000
unfolding mean_stddev add_all add_squares
mean_of_two = refl

few_days : is_int baseline.active_days ≡ true
unfolding is_int
few_days = refl

read_back : atoi (show_int (negsuc 41)) ≡ some (negsuc 41)
unfolding atoi show_int
read_back = refl

load-save_baseline_example :
    seen_if_any (
      load printed "a@x.io"
        (noon + hour)
        (save_baseline printed (λ x. x) show_nat (λ xs. 0) (λ t. "") cfg "a@x.io" baseline noon []))
    ≡ some (seen baseline)
load-save_baseline_example =
    load-save_baseline printed show_nat number-show_nat (λ x. x) (λ xs. 0) (λ t. "") cfg "a@x.io"
      "a@x.io" baseline noon (noon + hour) [] few_days

abbrev engineers : List (Engineer ℕ)
engineers = record alice { email = "bob@example.com" } ∷ alice ∷ []

-- Bob's first query fails
abbrev bob_fails : String → String → Option String
bob_fails email statement = if str_eq email "bob@example.com" then some "connection reset" else none

distinct : AreDistinct engineers
unfolding AreDistinct is_absent
distinct = (refl, (refl, tt))

rebuild_alone_example :
    lookup "alice@example.com" (
      rebuild printed
        (λ x. x)
        show_nat
        (λ xs. 0)
        (λ t. "")
        cfg
        bob_fails
        (λ email. noon)
        []
        engineers
        [])
    ≡ lookup "alice@example.com" (
        rebuild printed
          (λ x. x)
          show_nat
          (λ xs. 0)
          (λ t. "")
          cfg
          bob_fails
          (λ email. noon)
          []
          (alice ∷ [])
          [])
rebuild_alone_example =
    rebuild_alone printed (λ x. x) show_nat (λ xs. 0) (λ t. "") cfg bob_fails (λ email. noon) []
      alice engineers [] (Memᴰ.tail (Memᴰ.head refl)) distinct
