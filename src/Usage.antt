-- ===== src/Usage.antt =====
-- internal/store/store.go and internal/service/persist.go: the usage_events table and the consumer
-- that fills it. The table is its rows, in the order of their ids.
pub mod Once
pub mod Queries
pub mod Hours
pub mod Windows
pub mod Series
use enterprise_llm_tracker.Base.{
  String, Bool, true, false, ◌||◌, Option, none, some, List, [], ◌∷◌, ◌++◌, str_eq, if◌then◌else◌,
}
use enterprise_llm_tracker.Base.Act.{Result, ok, err}
use enterprise_llm_tracker.Base.Dict.{Dict}
use enterprise_llm_tracker.Base.Format.{concat}
use enterprise_llm_tracker.Base.Int.{ℤ}
use enterprise_llm_tracker.Clock.{Time}
use enterprise_llm_tracker.Models.{Event}

-- a row of usage_events without its id; NULL is `none`
pub record UsageRow (F : Type 0) : Type 0 where
  pub event_id : Option String
  pub engineer_id : String
  pub occurred_at : Time
  pub source : String
  pub metric_name : String
  pub cost_usd : Option F
  pub tokens_input : Option ℤ
  pub tokens_output : Option ℤ
  pub tokens_cache_read : Option ℤ
  pub tokens_cache_creation : Option ℤ
  pub model : String
  pub raw : Dict String

-- What Postgres makes of a parameter on its way into a column, or why it refuses it: the text of a
-- UUID in its one spelling, a NUMERIC(10, 6), and an INT.
pub record Columns (F : Type 0) : Type 0 where
  pub uuid : String → Result String
  pub numeric : F → Result F
  pub int : ℤ → Result ℤ

-- a statement reaches the server or not, and its answer may be lost on the way back
pub data Contact : Type 0 where
  reached : Contact
  refused answer_lost : String → Contact

abbrev then_do {ℓ κ} : {A : Type ℓ} {B : Type κ} → Result A → (A → Result B) → Result B
then_do (ok a) f = f a
then_do (err e) f = err e

-- a parameter that may be NULL
unfoldable pub nullable {ℓ} : {A : Type ℓ} → (A → Result A) → Option A → Result (Option A)
nullable f none = ok none
nullable f (some a) = elim (f a) [ err e ↦ err e | ok b ↦ ok (some b) ]

-- an event has the id of a row
unfoldable pub same_id : Option String → String → Bool
same_id none id = false
same_id (some held) id = str_eq held id

unfoldable pub has_event : {F : Type 0} → String → List (UsageRow F) → Bool
unfolding same_id
has_event id [] = false
has_event id (r ∷ rs) = same_id r.event_id id || has_event id rs

-- the row with this id is there; NULL is not equal to NULL
abbrev pub conflicts : {F : Type 0} → Option String → List (UsageRow F) → Bool
conflicts none rows = false
conflicts (some id) rows = has_event id rows

-- INSERT ... ON CONFLICT (event_id) DO NOTHING
unfoldable pub insert_usage : {F : Type 0} → UsageRow F → List (UsageRow F) → List (UsageRow F)
insert_usage row rows = if conflicts row.event_id rows then rows else rows ++ row ∷ []

module _ {F : Type 0} (columns : Columns F) where
  -- the parameters of WriteEventPG, an empty id as NULL, as a row
  unfoldable pub row_of_event : Event F → Result (UsageRow F)
  unfolding nullable
  row_of_event e =
      then_do (nullable columns.uuid (if str_eq e.event_id "" then none else some e.event_id)) λ id.
        then_do (nullable columns.numeric e.cost_usd) λ cost.
          then_do (nullable columns.int e.tokens_input) λ input.
            then_do (nullable columns.int e.tokens_output) λ output.
              then_do (nullable columns.int e.tokens_cache_read) λ cache_read.
                then_do (nullable columns.int e.tokens_cache_creation) λ cache_creation.
                  ok (record {
                    event_id = id;
                    engineer_id = e.engineer_id;
                    occurred_at = e.occurred_at;
                    source = e.source;
                    metric_name = e.metric_name;
                    cost_usd = cost;
                    tokens_input = input;
                    tokens_output = output;
                    tokens_cache_read = cache_read;
                    tokens_cache_creation = cache_creation;
                    model = e.model;
                    raw = e.raw;
                  })

  -- fmt.Errorf("pg insert: %w", err)
  abbrev insert_failed : String → Result (Unit {0})
  insert_failed e = err (concat ("pg insert: " ∷ e ∷ []))

  -- WriteEventPG
  unfoldable pub write_event_pg :
      Contact → Event F → List (UsageRow F) → Result (Unit {0}) × List (UsageRow F)
  write_event_pg (refused e) event rows = (insert_failed e, rows)
  write_event_pg reached event rows = elim (row_of_event event) [
    | err e ↦ (insert_failed e, rows)
    | ok row ↦ (ok tt, insert_usage row rows)
  ]
  write_event_pg (answer_lost lost) event rows = elim (row_of_event event) [
    | err e ↦ (insert_failed e, rows)
    | ok row ↦ (insert_failed lost, insert_usage row rows)
  ]

-- the table, and how the statements to come will reach the server; from the end of the list on all do
pub record Persisted (F : Type 0) : Type 0 where
  pub rows : List (UsageRow F)
  pub contacts : List Contact

unfoldable pub next_contact : List Contact → Contact × List Contact
next_contact [] = (reached, [])
next_contact (c ∷ cs) = (c, cs)

-- HandleEvent of PersistService
unfoldable pub persist :
    {F : Type 0} → Columns F → Event F → Persisted F → Result (Unit {0}) × Persisted F
unfolding next_contact
persist columns e db =
    let (contact, later) = next_contact db.contacts in
    let (result, rows) = write_event_pg columns contact e db.rows in
    (result, record { rows = rows; contacts = later })
