-- ===== src/Float.antt =====
-- Go's `float64`. The model does not choose a representation: a development that computes with
-- amounts takes the type and the operations as a parameter, and a theorem that needs a law of them
-- names it. `lt` and `le` are Go's `<` and `<=`.
use enterprise_llm_tracker.Base.{ℕ, String, Bool, true, false, not, Option, ◌≡◌}
use enterprise_llm_tracker.Base.Int.{ℤ}

pub record Float (F : Type 0) : Type 0 where
  pub add : F → F → F
  pub sub : F → F → F
  pub mul : F → F → F
  pub div : F → F → F
  pub sqrt : F → F
  pub lt : F → F → Bool
  pub le : F → F → Bool
  -- `decimal n k` is the float64 nearest to n / 10^k: a literal of the source
  pub decimal : ℕ → ℕ → F
  -- `float64(i)` and `int(x)`
  pub of_int : ℤ → F
  pub to_int : F → ℤ
  -- not NaN and not an infinity, which encoding/json refuses
  pub is_finite : F → Bool
  -- strconv.ParseFloat(s, 64), if it succeeds
  pub parse : String → Option F
  -- `%g`, `%.1f`, `%.2f` and `%f`
  pub general : F → String
  pub fixed_1 : F → String
  pub fixed_2 : F → String
  pub fixed_6 : F → String

abbrev pub zero_of : {F : Type 0} → Float F → F
zero_of fl = fl.decimal 0 0

-- What IEEE 754 promises of comparisons between values none of which is NaN: `<` is a strict weak
-- order, and `<=` is its complement.
pub record IsOrdered {F : Type 0} (fl : Float F) : Type 0 where
  pub lt_asymm : (a b : F) → fl.lt a b ≡ true → fl.lt b a ≡ false
  pub lt_cotrans : (a b c : F) → fl.lt a b ≡ false → fl.lt b c ≡ false → fl.lt a c ≡ false
  pub le-eq-not-lt : (a b : F) → fl.le a b ≡ not (fl.lt b a)
