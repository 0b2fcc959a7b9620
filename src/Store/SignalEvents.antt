-- ===== src/Store/SignalEvents.antt =====
-- ListSignalEvents of internal/store/signals.go, on the rows of signal_events in the order of their
-- insertion. Rows of the same time may come in any order; here the later ones come first.
use enterprise_llm_tracker.Base.{
  ℕ, String, Bool, ◌&&◌, ◌||◌, List, [], ◌∷◌, Option, none, some, str_eq, ltb, leb, ◌==◌, take,
  if◌then◌else◌,
}
use enterprise_llm_tracker.Base.Act.{Result, ok, err}
use enterprise_llm_tracker.Base.Int.{ℤ, pos}
use enterprise_llm_tracker.Clock.{Time, days_ago, is_zero}
use enterprise_llm_tracker.Services.{SignalRow}

pub record SignalEventFilter : Type 0 where
  pub engineer_id : String
  pub signal_type : String
  pub severity : String
  pub since : Time
  pub limit : ℤ

-- `if f.Limit <= 0 || f.Limit > 1000 { f.Limit = 100 }`
unfoldable pub event_limit : ℤ → ℕ
event_limit (pos n) = if (n == 0) || ltb 1000 n then 100 else n
event_limit _ = 100

unfoldable pub since_or_week : Time → Time → Time
since_or_week since now = if is_zero since then days_ago 7 now else since

-- ($2 = '' OR column = $2)
abbrev pub matches : String → String → Bool
matches wanted value = str_eq wanted "" || str_eq value wanted

-- the WHERE clause
unfoldable pub is_selected : {F : Type 0} → SignalEventFilter → Time → SignalRow F → Bool
is_selected f since r =
    leb since r.occurred_at
    && matches f.engineer_id r.engineer_id
    && matches f.signal_type r.signal_type
    && matches f.severity r.severity

-- ORDER BY occurred_at DESC
unfoldable pub insert_newest : {F : Type 0} → SignalRow F → List (SignalRow F) → List (SignalRow F)
insert_newest x [] = x ∷ []
insert_newest x (y ∷ ys) =
    let rest = insert_newest x ys in
    if ltb y.occurred_at x.occurred_at then x ∷ y ∷ ys else y ∷ rest

unfoldable pub newest_first :
    {F : Type 0} → (SignalRow F → Bool) → List (SignalRow F) → List (SignalRow F)
unfolding insert_newest
newest_first p [] = []
newest_first p (r ∷ rs) = let rest = newest_first p rs in if p r then insert_newest r rest else rest

unfoldable pub list_signal_events :
    {F : Type 0}
    → Option String
    → SignalEventFilter
    → Time
    → List (SignalRow F)
    → Result (List (SignalRow F))
unfolding newest_first event_limit since_or_week is_selected
list_signal_events (some e) f now rows = err e
list_signal_events none f now rows =
    ok (take (event_limit f.limit) (newest_first (is_selected f (since_or_week f.since now)) rows))
