-- ===== src/Store/Keys.antt =====
-- The Redis keys of internal/store/store.go.
use enterprise_llm_tracker.Base.{String, [], ◌∷◌}
use enterprise_llm_tracker.Base.Format.{concat, show_int}
use enterprise_llm_tracker.Base.Int.{ℤ}

unfoldable pub cost_key : String → String → String
cost_key email period = concat ("engineer:" ∷ email ∷ ":cost:" ∷ period ∷ [])

unfoldable pub tokens_key : String → String → String
tokens_key email period = concat ("engineer:" ∷ email ∷ ":tokens:" ∷ period ∷ [])

unfoldable pub last_otel_key : String → String
last_otel_key email = concat ("engineer:" ∷ email ∷ ":last_otel_at" ∷ [])

unfoldable pub threshold_fired_key : String → String → ℤ → String
threshold_fired_key email period pct =
    concat ("engineer:" ∷ email ∷ ":threshold_fired:" ∷ period ∷ ":" ∷ show_int pct ∷ [])
