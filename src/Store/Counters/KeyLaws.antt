-- ===== src/Store/Counters/KeyLaws.antt =====
-- The keys of one engineer differ.
use mathlib.Core.Bool.{false≢true}
use Prim.Native.String.{◌++◌ as str_append}
use text.Mathlib.TextLemmas.{append_cancel_left}
use enterprise_llm_tracker.Base.{String, ◌≡◌, refl, sym, ◌∙◌, ◌≢◌, false, str_eq, eq_iff}
use enterprise_llm_tracker.Base.Format.{concat}
use enterprise_llm_tracker.Store.Keys.{cost_key, tokens_key, last_otel_key}

-- two keys with the same engineer and different ends
ends_differ :
    (email a b : String)
    → str_eq a b ≡ false
    → str_append "engineer:" (str_append email a) ≢ str_append "engineer:" (str_append email b)
ends_differ email a b h e = false≢true (
    sym h
    ∙ (eq_iff a b).1 (
        append_cancel_left email a b
          (append_cancel_left "engineer:" (str_append email a) (str_append email b) e)))

pub today_ne_month : (email : String) → cost_key email "today" ≢ cost_key email "month"
unfolding cost_key concat
today_ne_month email = ends_differ email ":cost:today" ":cost:month" refl

pub today_ne_tokens : (email : String) → cost_key email "today" ≢ tokens_key email "today"
unfolding cost_key tokens_key concat
today_ne_tokens email = ends_differ email ":cost:today" ":tokens:today" refl

pub month_ne_tokens : (email : String) → cost_key email "month" ≢ tokens_key email "today"
unfolding cost_key tokens_key concat
month_ne_tokens email = ends_differ email ":cost:month" ":tokens:today" refl

pub today_ne_seen : (email : String) → cost_key email "today" ≢ last_otel_key email
unfolding cost_key last_otel_key concat
today_ne_seen email = ends_differ email ":cost:today" ":last_otel_at" refl

pub month_ne_seen : (email : String) → cost_key email "month" ≢ last_otel_key email
unfolding cost_key last_otel_key concat
month_ne_seen email = ends_differ email ":cost:month" ":last_otel_at" refl

pub tokens_ne_seen : (email : String) → tokens_key email "today" ≢ last_otel_key email
unfolding tokens_key last_otel_key concat
tokens_ne_seen email = ends_differ email ":tokens:today" ":last_otel_at" refl
