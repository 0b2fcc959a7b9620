-- ===== src/Ingest/Atoi/Printed.antt =====
-- Atoi of the decimal digits that `%d` prints.
use Prim.Native.Char.{code}
use Prim.Native.String.append
use Prim.Native.String.{◌++◌ as str_append}
use Prim.Native.Nat.{zero}
use enterprise_llm_tracker.Base.{
  ℕ, suc, String, Bool, ◌+◌, ◌-◌, ◌*◌, ◌/◌, ◌%◌, ◌^◌, ◌<◌, ◌≡◌, refl, sym, ap, subst, ◌∙◌, true,
  false, ltb, ◌==◌, some, arith, inl, inr, Bool-cases,
}
use enterprise_llm_tracker.Base.Format.{digit, show_fuel, show_nat, show_int}
use enterprise_llm_tracker.Base.Int.{ℤ, pos, negsuc}
use enterprise_llm_tracker.Ingest.Atoi.{digits_value, number, to_positive, to_negative, atoi}

digits_value-digit : (acc n : ℕ) → n < 10 → digits_value acc (digit n) ≡ some (acc * 10 + n)
unfolding digits_value digit
digits_value-digit acc zero h = ground arith
digits_value-digit acc (suc zero) h = ground arith
digits_value-digit acc (suc (suc zero)) h = ground arith
digits_value-digit acc (suc (suc (suc zero))) h = ground arith
digits_value-digit acc (suc (suc (suc (suc zero)))) h = ground arith
digits_value-digit acc (suc (suc (suc (suc (suc zero))))) h = ground arith
digits_value-digit acc (suc (suc (suc (suc (suc (suc zero)))))) h = ground arith
digits_value-digit acc (suc (suc (suc (suc (suc (suc (suc zero))))))) h = ground arith
digits_value-digit acc (suc (suc (suc (suc (suc (suc (suc (suc zero)))))))) h = ground arith
digits_value-digit acc (suc (suc (suc (suc (suc (suc (suc (suc (suc zero))))))))) h = ground arith
digits_value-digit acc (suc (suc (suc (suc (suc (suc (suc (suc (suc (suc n)))))))))) h =
    absurd (omega arith)

-- the digits of one text after those of another
digits_value-append :
    (acc v : ℕ) (s t : String)
    → digits_value acc s ≡ some v
    → digits_value acc (str_append s t) ≡ digits_value v t
unfolding digits_value
digits_value-append acc v String.[] t h = rw (append.nil t) (ground (arith, h))
digits_value-append acc v (String.◌∷◌ c s) t h =
    let next = acc * 10 + (code c - b'0') in
    let rest = digits_value-append next v s t in rw (append.cons c s t) (ground (arith, h, rest))

digits_value-show_fuel : (fuel n : ℕ) → n < fuel → digits_value 0 (show_fuel fuel n) ≡ some n
unfolding show_fuel
digits_value-show_fuel zero n h = absurd (omega arith)
digits_value-show_fuel (suc fuel) n h = elim (Bool-cases (ltb n 10)) [
  | inl small ↦
      rw (small, show_fuel) (digits_value-digit 0 n (ground (arith, small)) ∙ ap some (omega arith))
  | inr large ↦
      let tens = digits_value-show_fuel fuel (n / 10) (ground (arith, large, h)) in
      let ones : n % 10 < 10 = omega arith in
      rw (large, show_fuel)
        (digits_value-append 0 (n / 10) (show_fuel fuel (n / 10)) (digit (n % 10)) tens
          ∙ digits_value-digit (n / 10) (n % 10) ones
          ∙ ap some (omega arith))
]

-- the range of int
unfoldable pub is_int : ℤ → Bool
is_int (pos n) = ltb n (2 ^ 63)
is_int (negsuc n) = ltb n (2 ^ 63)

is_empty : String → Bool
is_empty String.[] = true
is_empty (String.◌∷◌ c s) = false

is_empty-digit : (n : ℕ) → is_empty (digit n) ≡ false
unfolding digit is_empty
is_empty-digit zero = refl
is_empty-digit (suc zero) = refl
is_empty-digit (suc (suc zero)) = refl
is_empty-digit (suc (suc (suc zero))) = refl
is_empty-digit (suc (suc (suc (suc zero)))) = refl
is_empty-digit (suc (suc (suc (suc (suc zero))))) = refl
is_empty-digit (suc (suc (suc (suc (suc (suc zero)))))) = refl
is_empty-digit (suc (suc (suc (suc (suc (suc (suc zero))))))) = refl
is_empty-digit (suc (suc (suc (suc (suc (suc (suc (suc zero)))))))) = refl
is_empty-digit (suc (suc (suc (suc (suc (suc (suc (suc (suc n))))))))) = refl

is_empty-append : (s t : String) → is_empty t ≡ false → is_empty (str_append s t) ≡ false
unfolding is_empty
is_empty-append String.[] t h = rw (append.nil t) h
is_empty-append (String.◌∷◌ c s) t h = rw (append.cons c s t) refl

is_empty-show_nat : (n : ℕ) → is_empty (show_nat n) ≡ false
unfolding show_nat show_fuel
is_empty-show_nat n = elim (Bool-cases (ltb n 10)) [
  | inl small ↦ rw (small, show_nat, show_fuel) (is_empty-digit n)
  | inr large ↦
      rw (large, show_nat, show_fuel)
        (is_empty-append (show_fuel n (n / 10)) (digit (n % 10)) (is_empty-digit (n % 10)))
]

-- a text whose digits have a value is a number, and begins with no sign
atoi-digits :
    (s : String) (n : ℕ)
    → digits_value 0 s ≡ some n
    → is_empty s ≡ false
    → (number s ≡ some n) × (n < 2 ^ 63 → atoi s ≡ some (pos n))
unfolding digits_value number atoi to_positive is_empty
atoi-digits String.[] n h given = absurd (ground (arith, given))
atoi-digits (String.◌∷◌ c s) n h given =
    let minus : (code c == b'-') ≡ false = ground (arith, h) in
    let plus : (code c == b'+') ≡ false = ground (arith, h) in
    let fits : n < 2 ^ 63 → to_positive (some n) ≡ some (pos n) = λ small. ground (arith, small) in
    (h, λ small. rw (minus, plus) (ap to_positive h ∙ fits small))

atoi-negative :
    (s : String) (n : ℕ)
    → number s ≡ some (suc n)
    → n < 2 ^ 63
    → atoi (str_append "-" s) ≡ some (negsuc n)
unfolding atoi to_negative
atoi-negative s n h small =
    let fits : to_negative (some (suc n)) ≡ some (negsuc n) = ground (arith, small) in
    let signed : str_append "-" s ≡ String.◌∷◌ "-" s =
      append.cons "-" "" s ∙ ap (λ t. String.◌∷◌ "-" t) (append.nil s) in
    subst (λ t. atoi t ≡ some (negsuc n)) (sym signed) (ap to_negative h ∙ fits)

digits_value-show_nat : (n : ℕ) → digits_value 0 (show_nat n) ≡ some n
unfolding show_nat
digits_value-show_nat n = digits_value-show_fuel (suc n) n (omega arith)

pub number-show_nat : (n : ℕ) → number (show_nat n) ≡ some n
number-show_nat n = (atoi-digits (show_nat n) n (digits_value-show_nat n) (is_empty-show_nat n)).0

-- An int is read back from what `%d` prints of it, whatever its sign.
pub atoi-show_int : (i : ℤ) → is_int i ≡ true → atoi (show_int i) ≡ some i
unfolding show_int is_int
atoi-show_int (pos n) h =
    (atoi-digits (show_nat n) n (digits_value-show_nat n) (is_empty-show_nat n)).1
      (ground (arith, h))
atoi-show_int (negsuc n) h =
    let shown = atoi-digits (show_nat (suc n)) (suc n) (digits_value-show_nat (suc n)) in
    atoi-negative (show_nat (suc n)) n (shown (is_empty-show_nat (suc n))).0 (ground (arith, h))
