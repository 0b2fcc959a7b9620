-- ===== src/Clock.antt =====
-- Go's `time.Time` and `time.Duration` in UTC, as the program uses them. An instant is the number
-- of nanoseconds since Go's zero time, 1 January of year 1, 00:00:00 UTC; no earlier instant occurs.
pub mod Calendar
use enterprise_llm_tracker.Base.{
  ℕ, ◌+◌, ◌-◌, ◌*◌, ◌/◌, ◌%◌, ◌≤◌, ◌<◌, ◌≡◌, Bool, ltb, leb, ◌==◌, arith,
}

abbrev pub Time : Type 0
Time = ℕ

-- time.Second, time.Minute, time.Hour, and a UTC day
abbrev pub second : ℕ
second = 1_000_000_000

abbrev pub minute : ℕ
minute = 60_000_000_000

abbrev pub hour : ℕ
hour = 3_600_000_000_000

abbrev pub day : ℕ
day = 86_400_000_000_000

-- t.Before(u), t.After(u), t.IsZero()
abbrev pub before : Time → Time → Bool
before t u = ltb t u

abbrev pub after : Time → Time → Bool
after t u = ltb u t

abbrev pub is_zero : Time → Bool
is_zero t = t == 0

-- t.AddDate(0, 0, -n)
abbrev pub days_ago : ℕ → Time → Time
days_ago n t = t - n * day

-- t.Unix(); the Unix epoch is 62135596800 s after the zero time, and no earlier instant is formatted
abbrev pub unix : Time → ℕ
unix t = t / second - 62_135_596_800

-- truncateToDay
unfoldable pub truncate_to_day : Time → Time
truncate_to_day t = t - t % day

-- endOfDayUTC
unfoldable pub end_of_day : Time → Time
end_of_day t = t - t % day + (day - second)
