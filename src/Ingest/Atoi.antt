-- ===== src/Ingest/Atoi.antt =====
-- parseInt of internal/service/ingest.go, with Go's strconv.Atoi: an optional sign and decimal
-- digits, within int64.
pub mod Printed
use Prim.Native.Char.{code}
use Prim.Native.String.{String}
use enterprise_llm_tracker.Base.{
  ℕ, ◌+◌, ◌-◌, ◌*◌, ◌^◌, ◌&&◌, ◌==◌, leb, Option, none, some, str_eq, if◌then◌else◌,
}
use enterprise_llm_tracker.Base.Int.{ℤ, pos, negsuc}

-- the value of the digits that follow `acc`; `none` at any other character
unfoldable pub digits_value : ℕ → String → Option ℕ
digits_value acc String.[] = some acc
digits_value acc (String.◌∷◌ c s) =
    let rest = digits_value (acc * 10 + (code c - b'0')) s in
    if leb b'0' (code c) && leb (code c) b'9' then rest else none

-- at least one digit
unfoldable pub number : String → Option ℕ
unfolding digits_value
number String.[] = none
number (String.◌∷◌ c s) = digits_value 0 (String.◌∷◌ c s)

unfoldable pub to_positive : Option ℕ → Option ℤ
to_positive none = none
to_positive (some n) = if leb n (2 ^ 63 - 1) then some (pos n) else none

unfoldable pub to_negative : Option ℕ → Option ℤ
to_negative none = none
to_negative (some n) =
    if n == 0 then some (pos 0) else if leb n (2 ^ 63) then some (negsuc (n - 1)) else none

unfoldable pub atoi : String → Option ℤ
unfolding number to_positive to_negative
atoi String.[] = none
atoi (String.◌∷◌ c s) =
    if code c == b'-'
    then to_negative (number s)
    else if code c == b'+'
    then to_positive (number s)
    else to_positive (number (String.◌∷◌ c s))

unfoldable pub parse_int : String → Option ℤ
unfolding atoi
parse_int s = if str_eq s "" then none else atoi s
