-- ===== src/Efficiency/Triggers.antt =====
-- When the collector's loop runs: any interleaving of triggers, ticks and receptions.
use enterprise_llm_tracker.Base.{
  ℕ, ◌+◌, ◌*◌, ◌≤◌, ◌<◌, String, true, false, ◌≡◌, refl, List, [], ◌∷◌, str_eq, arith,
  if◌then◌else◌, inl, inr, Bool-cases,
}
use enterprise_llm_tracker.Base.{subst, ◌^◌}
use enterprise_llm_tracker.Base.Int.{pos, sub_ℕ, int_lt, wrap_64}
use enterprise_llm_tracker.Clock.{Time, second}
use enterprise_llm_tracker.Efficiency.{
  Pass, Collector, new_collector, trigger, run_once, tick, receive,
}

unfoldable pub last_finish : List Pass → Time
last_finish [] = 0
last_finish (p ∷ ps) = p.finish

-- how long after the last run a run of this source starts at the earliest
unfoldable pub gap : ℕ → String → ℕ
gap interval source = if str_eq source "trigger" then interval * second else 0

-- no two runs overlap, and a triggered one keeps the interval
unfoldable pub IsSpaced : ℕ → List Pass → Type 0
IsSpaced interval [] = Unit
IsSpaced interval (p ∷ ps) =
    (last_finish ps + gap interval p.source ≤ p.start) × IsSpaced interval ps

-- the states of Run up to the time `now`: a run at the start, then triggers, ticks and receptions
pub data Reachable (interval : ℕ) : Time → Collector → Type 0 where
  started :
      {now finish : Time}
      → now ≤ finish
      → Reachable interval finish (run_once "startup" now finish new_collector)
  triggered :
      {t now : Time} {c : Collector}
      → t ≤ now
      → Reachable interval t c
      → Reachable interval now (trigger c)
  ticked :
      {t now finish : Time} {c : Collector}
      → t ≤ now
      → now ≤ finish
      → Reachable interval t c
      → Reachable interval finish (tick now finish c)
  received :
      {t now finish : Time} {c : Collector}
      → t ≤ now
      → now ≤ finish
      → c.queued ≡ true
      → Reachable interval t c
      → Reachable interval finish (receive interval now finish c)

record IsTimed (interval : ℕ) (now : Time) (c : Collector) : Type 0 where
  latest : last_finish c.passes ≡ c.last_run_at
  past : c.last_run_at ≤ now
  spaced : IsSpaced interval c.passes

wrap_64_fits : (n : ℕ) → n < 2 ^ 63 → wrap_64 (pos n) ≡ pos n
wrap_64_fits n h = ground (arith, h)

-- a reception that is not early comes after the debounce
not_early :
    (now last debounce : ℕ)
    → last ≤ now
    → int_lt (sub_ℕ now last) (pos debounce) ≡ false
    → last + debounce ≤ now
not_early now last debounce past late = ground (arith, past, late)

module _ (interval : ℕ) (fits : interval * second < 2 ^ 63) where
  receive-IsTimed :
      (t now finish : Time) (c : Collector)
      → t ≤ now
      → now ≤ finish
      → IsTimed interval t c
      → IsTimed interval finish (receive interval now finish c)
  unfolding receive run_once last_finish gap IsSpaced
  receive-IsTimed t now finish c h k timed =
      let debounce = wrap_64 (pos (interval * second)) in
      elim (Bool-cases (int_lt (sub_ℕ now c.last_run_at) debounce)) [
        | inl early ↦ rw (early) (record {
          latest = timed.latest;
          past = ground (arith, timed.past);
          spaced = timed.spaced;
        })
        | inr late ↦ rw (late) (record {
          latest = refl;
          past = omega arith;
          spaced = (
            ground (
              arith,
              timed.latest,
              not_early now c.last_run_at (interval * second) (omega (arith, timed.past, h)) (
                  subst (λ d. int_lt (sub_ℕ now c.last_run_at) d ≡ false)
                    (wrap_64_fits (interval * second) fits) late),
            ),
            timed.spaced,
          );
        })
      ]

  Reachable-IsTimed :
      {now : Time} {c : Collector} → Reachable interval now c → IsTimed interval now c
  unfolding trigger tick run_once last_finish gap IsSpaced
  Reachable-IsTimed (started h) = record {
    latest = refl;
    past = omega arith;
    spaced = (omega arith, tt);
  }
  Reachable-IsTimed (triggered h r) =
      let timed = Reachable-IsTimed r in
      record { latest = timed.latest; past = ground (arith, timed.past); spaced = timed.spaced }
  Reachable-IsTimed (ticked h k r) =
      let timed = Reachable-IsTimed r in
      record {
        latest = refl;
        past = omega arith;
        spaced = (ground (arith, timed.latest, timed.past), timed.spaced);
      }
  Reachable-IsTimed (received h k q r) = receive-IsTimed _ _ _ _ h k (Reachable-IsTimed r)

  -- Whatever the order of triggers, ticks and receptions in the loop, whose clock does not go back, a
  -- run of the collector that a trigger starts comes at least the configured number of seconds after
  -- the end of the run before it, if that number of seconds is a Duration, and no run starts before
  -- the one before it has ended.
  pub Reachable-IsSpaced :
      (now : Time) (c : Collector) → Reachable interval now c → IsSpaced interval c.passes
  Reachable-IsSpaced now c r = (Reachable-IsTimed r).spaced
