-- ===== src/Clock/Calendar.antt =====
-- The civil calendar of Go's `time` (proleptic Gregorian, UTC), as endOfMonthUTC uses it. A day is
-- counted from 1 January of year 1; `years` counts whole years since then, so the year's number is
-- `years + 1`, and `month` counts from 0.
use enterprise_llm_tracker.Base.{
  ℕ, zero, suc, ◌+◌, ◌-◌, ◌*◌, ◌/◌, ◌%◌, Bool, not, ◌&&◌, ◌||◌, ltb, ◌==◌, if◌then◌else◌,
}
use enterprise_llm_tracker.Clock.{Time, day, second}

unfoldable pub is_leap : ℕ → Bool
is_leap year = (year % 4 == 0) && (not (year % 100 == 0) || (year % 400 == 0))

unfoldable pub days_before_year : ℕ → ℕ
days_before_year years = 365 * years + years / 4 - years / 100 + years / 400

-- years since year 1 and the day of the year, by cycles of 400, 100, 4 and 1 years
unfoldable pub year_and_day : ℕ → ℕ × ℕ
year_and_day d =
    let n400 = d / 146097 in
    let d400 = d % 146097 in
    let n100 = d400 / 36524 - d400 / 36524 / 4 in
    let d100 = d400 - n100 * 36524 in
    let n4 = d100 / 1461 in
    let d4 = d100 % 1461 in
    let n1 = d4 / 365 - d4 / 365 / 4 in (n400 * 400 + n100 * 100 + n4 * 4 + n1, d4 - n1 * 365)

-- the days of the year before the month, in a year with `leap` leap days
unfoldable pub days_before_month : ℕ → ℕ → ℕ
days_before_month leap zero = 0
days_before_month leap (suc zero) = 31
days_before_month leap (suc (suc zero)) = 59 + leap
days_before_month leap (suc (suc (suc zero))) = 90 + leap
days_before_month leap (suc (suc (suc (suc zero)))) = 120 + leap
days_before_month leap (suc (suc (suc (suc (suc zero))))) = 151 + leap
days_before_month leap (suc (suc (suc (suc (suc (suc zero)))))) = 181 + leap
days_before_month leap (suc (suc (suc (suc (suc (suc (suc zero))))))) = 212 + leap
days_before_month leap (suc (suc (suc (suc (suc (suc (suc (suc zero)))))))) = 243 + leap
days_before_month leap (suc (suc (suc (suc (suc (suc (suc (suc (suc zero))))))))) = 273 + leap
days_before_month leap (suc (suc (suc (suc (suc (suc (suc (suc (suc (suc zero)))))))))) = 304 + leap
days_before_month leap _ = 334 + leap

unfoldable pub month_of_day : ℕ → ℕ → ℕ
month_of_day leap yday =
    if ltb yday 31
    then 0
    else if ltb yday (59 + leap)
    then 1
    else if ltb yday (90 + leap)
    then 2
    else if ltb yday (120 + leap)
    then 3
    else if ltb yday (151 + leap)
    then 4
    else if ltb yday (181 + leap)
    then 5
    else if ltb yday (212 + leap)
    then 6
    else if ltb yday (243 + leap)
    then 7
    else if ltb yday (273 + leap)
    then 8
    else if ltb yday (304 + leap)
    then 9
    else if ltb yday (334 + leap)
    then 10
    else 11

unfoldable pub leap_days : ℕ → ℕ
unfolding is_leap
leap_days years = if is_leap (years + 1) then 1 else 0

-- t.Date(), without the day of the month
unfoldable pub year_and_month : Time → ℕ × ℕ
unfolding year_and_day month_of_day leap_days
year_and_month t =
    let (years, yday) = year_and_day (t / day) in (years, month_of_day (leap_days years) yday)

-- time.Date(year, month, 1, 0, 0, 0, 0, time.UTC): a month past December runs into later years
unfoldable pub first_of_month : ℕ → ℕ → Time
unfolding days_before_year days_before_month leap_days
first_of_month years month =
    let y = years + month / 12 in
    (days_before_year y + days_before_month (leap_days y) (month % 12)) * day

-- endOfMonthUTC
unfoldable pub end_of_month : Time → Time
unfolding year_and_month first_of_month
end_of_month t = let (years, month) = year_and_month t in first_of_month years (month + 1) - second
