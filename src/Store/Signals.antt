-- ===== src/Store/Signals.antt =====
-- The detector's calls of internal/store/signals.go: claims by day, signal rows, the cached baseline
-- and the burst window. The time at which a baseline was rebuilt is not read by the detector.
use Prim.Native.Char.{code}
use enterprise_llm_tracker.Base.{
  ℕ, ◌+◌, ◌-◌, ◌*◌, ◌/◌, String, Bool, false, Option, none, some, List, [], ◌∷◌, ltb, leb, ◌==◌,
  if◌then◌else◌,
}
use enterprise_llm_tracker.Base.Act.{Result, ok, err, Act, ◌>>=◌, pure}
use enterprise_llm_tracker.Base.Dict.{Dict, lookup, at}
use enterprise_llm_tracker.Base.Format.{concat, show_nat, show_int}
use enterprise_llm_tracker.Base.Int.{ℤ, pos, sub_ℕ, wrap_64}
use enterprise_llm_tracker.Clock.{Time, second, hour, day, end_of_day}
use enterprise_llm_tracker.Clock.Calendar.{year_and_day, month_of_day, days_before_month, leap_days}
use enterprise_llm_tracker.Float.{Float}
use enterprise_llm_tracker.Ingest.Atoi.{atoi}
use enterprise_llm_tracker.Models.{SignalEvent, EngineerBaseline}
use enterprise_llm_tracker.Services.{Services, World, SignalRow, on_redis, on_postgres, on_machine}

-- two digits, and four
abbrev pad_2 : ℕ → String
pad_2 n = if ltb n 10 then concat ("0" ∷ show_nat n ∷ []) else show_nat n

abbrev pad_4 : ℕ → String
pad_4 n =
    if ltb n 10
    then concat ("000" ∷ show_nat n ∷ [])
    else if ltb n 100
    then concat ("00" ∷ show_nat n ∷ [])
    else if ltb n 1000
    then concat ("0" ∷ show_nat n ∷ [])
    else show_nat n

-- t.UTC().Format("2006-01-02")
unfoldable pub format_date : Time → String
format_date t =
    let (years, yday) = year_and_day (t / day) in
    let leap = leap_days years in
    let month = month_of_day leap yday in
    concat (
      pad_4 (years + 1)
      ∷ "-"
      ∷ pad_2 (month + 1)
      ∷ "-"
      ∷ pad_2 (yday - days_before_month leap month + 1)
      ∷ [])

unfoldable pub signal_fired_key : String → String → String → Time → String
unfolding concat format_date
signal_fired_key email signal_type severity at = concat (
    "engineer:"
    ∷ email
    ∷ ":signal_fired:"
    ∷ signal_type
    ∷ ":"
    ∷ severity
    ∷ ":"
    ∷ format_date at
    ∷ [])

unfoldable pub baseline_key : String → String
unfolding concat
baseline_key email = concat ("engineer:" ∷ email ∷ ":baseline" ∷ [])

unfoldable pub burst_key : String → String
unfolding concat
burst_key email = concat ("engineer:" ∷ email ∷ ":burst_window" ∷ [])

-- t.UnixNano(), an int64
abbrev pub unix_nano : Time → ℤ
unix_nano t = wrap_64 (sub_ℕ t (62_135_596_800 * second))

-- what follows the last colon of a member
unfoldable pub after_colon : String → Option String
after_colon String.[] = none
after_colon (String.◌∷◌ c s) = elim (after_colon s) [
  | some rest ↦ some rest
  | none ↦ if code c == b':' then some s else none
]

unfoldable pub row_of_signal : {F : Type 0} → SignalEvent F → SignalRow F
row_of_signal e = record {
  engineer_id = e.engineer_id;
  signal_type = e.signal_type;
  severity = e.severity;
  occurred_at = e.occurred_at;
  observed_value = e.observed_value;
  baseline_value = e.baseline_value;
  z_score = e.z_score;
  notified = e.notified;
  notified_at = e.notified_at;
}

module _ {F : Type 0} (fl : Float F) where
  -- `f, _ := strconv.ParseFloat(s, 64)`
  abbrev pub float_or_none : Option F → F
  float_or_none none = fl.decimal 0 0
  float_or_none (some x) = x

  abbrev pub add_parsed : F → Option F → F
  add_parsed sum none = sum
  add_parsed sum (some x) = fl.add sum x

  abbrev pub member_cost : Option String → Option F
  member_cost none = none
  member_cost (some s) = fl.parse s

  -- the loop of sumZMembers, from a sum
  unfoldable pub sum_z_members : F → List String → F
  sum_z_members sum [] = sum
  sum_z_members sum (m ∷ ms) = sum_z_members (add_parsed sum (member_cost (after_colon m))) ms

  abbrev pub int_or_none : Option ℤ → ℤ
  int_or_none none = pos 0
  int_or_none (some n) = n

  abbrev pub hour_fraction : Option String → F
  hour_fraction none = fl.decimal 0 0
  hour_fraction (some s) = float_or_none (fl.parse s)

  -- LoadBaseline, on the hash
  unfoldable pub baseline_of_hash : Dict String → Option (EngineerBaseline F)
  baseline_of_hash [] = none
  baseline_of_hash (field ∷ fields) =
      let h = field ∷ fields in
      some (record {
        daily_mean = float_or_none (fl.parse (at "" "daily_mean" h));
        daily_stddev = float_or_none (fl.parse (at "" "daily_stddev" h));
        hourly_p95 = float_or_none (fl.parse (at "" "hourly_p95" h));
        active_days = int_or_none (atoi (at "" "active_days" h));
        hour_distribution = λ i. hour_fraction (lookup (concat ("h" ∷ show_nat i ∷ [])) h);
      })

  unfoldable pub baseline_of_reply : Result (Dict String) → Result (Option (EngineerBaseline F))
  unfolding baseline_of_hash
  baseline_of_reply (err e) = err e
  baseline_of_reply (ok h) = ok (baseline_of_hash h)

  unfoldable pub sum_of_reply : Result (List String) → Result F
  unfolding sum_z_members
  sum_of_reply (err e) = err e
  sum_of_reply (ok ms) = ok (sum_z_members (fl.decimal 0 0) ms)

module _ {F R P S K C : Type 0} (sv : Services F R P S K C) where
  -- ClaimSignalFired; `at` is its argument day
  unfoldable pub claim_signal_fired :
      String → String → String → Time → Act (World R P S K C) (Result Bool)
  claim_signal_fired email signal_type severity at = do
    now ← on_machine sv.machine.now
    if leb (end_of_day at + hour) now
        then pure (ok false)
        else on_redis (
            sv.redis.set_nx (signal_fired_key email signal_type severity at) "1"
              (end_of_day at + hour - now))

  unfoldable pub write_signal_event : SignalEvent F → Act (World R P S K C) (Result ℤ)
  write_signal_event e = on_postgres (sv.postgres.insert_signal (row_of_signal e))

  unfoldable pub mark_signal_notified : ℤ → Time → Act (World R P S K C) (Result (Unit {0}))
  mark_signal_notified id at = on_postgres (sv.postgres.mark_notified id at)

  unfoldable pub load_baseline :
      String → Act (World R P S K C) (Result (Option (EngineerBaseline F)))
  load_baseline email = do
    reply ← on_redis (sv.redis.hget_all (baseline_key email))
    pure (baseline_of_reply sv.float reply)

  unfoldable pub sum_burst_window : String → Time → ℕ → Act (World R P S K C) (Result F)
  sum_burst_window email at window = do
    reply ← on_redis (sv.redis.z_range_by_score (burst_key email) (unix_nano (at - window)))
    pure (sum_of_reply sv.float reply)

  unfoldable pub bump_burst_window : String → F → Time → ℕ → Act (World R P S K C) (Result F)
  bump_burst_window email cost at window =
      if sv.float.le cost (sv.float.decimal 0 0) then sum_burst_window email at window else (do
        reply ← on_redis (
            sv.redis.burst_pipeline (burst_key email) (unix_nano at)
              (concat (show_int (unix_nano at) ∷ ":" ∷ sv.float.fixed_6 cost ∷ []))
              (unix_nano (at - window)) (2 * window))
        pure (sum_of_reply sv.float reply))
