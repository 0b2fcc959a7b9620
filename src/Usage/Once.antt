-- ===== src/Usage/Once.antt =====
-- An event with an id is stored once, however often it is delivered.
use enterprise_llm_tracker.Base.{
  ℕ, ◌+◌, ◌≤◌, str_eq, String, Bool, true, false, ◌≡◌, refl, Option, none, some, List, [], ◌∷◌,
  ◌++◌, eq_iff, eq_refl, arith, count_if, count_if-append, if◌then◌else◌, inl, inr, Option-cases,
}
use enterprise_llm_tracker.Base.Act.{Result, ok, err, Result-cases}
use enterprise_llm_tracker.Kafka.Consumer.{
  Reader, message, round, deliver, finish, advance, restart,
}
use enterprise_llm_tracker.Kafka.Consumer.Delivery.{
  Run, started, waited, delivered, restarted_at, restarted_new,
}
use enterprise_llm_tracker.Models.{Event}
use enterprise_llm_tracker.Usage.{
  UsageRow, Columns, Contact, reached, refused, answer_lost, Persisted, same_id, has_event,
  insert_usage, nullable, row_of_event, write_event_pg, persist, next_contact,
}

-- how many rows have the id
unfoldable pub stored : {F : Type 0} → String → List (UsageRow F) → ℕ
unfolding count_if same_id
stored id rows = count_if (λ r. same_id r.event_id id) rows

module _ {F : Type 0} (id : String) where
  stored-absent : (rows : List (UsageRow F)) → has_event id rows ≡ false → stored id rows ≡ 0
  unfolding stored has_event
  stored-absent [] h = refl
  stored-absent (r ∷ rs) h = ground (arith, h, stored-absent rs)

  stored-concat :
      (row : UsageRow F) (rows : List (UsageRow F))
      → stored id (rows ++ row ∷ []) ≡ stored id rows + (if same_id row.event_id id then 1 else 0)
  unfolding stored
  stored-concat row rows =
      ground (arith, count_if-append (λ (r : UsageRow F). same_id r.event_id id) rows (row ∷ []))

  insert_usage_once :
      (row : UsageRow F) (rows : List (UsageRow F))
      → stored id rows ≤ 1
      → stored id (insert_usage row rows) ≤ 1
  unfolding insert_usage same_id
  insert_usage_once row rows h = elim (Option-cases row.event_id) [
    | inl null ↦ ground (arith, h, null, stored-concat row rows)
    | inr (held, e) ↦
        ground (arith, h, e, eq_iff held id, stored-absent rows, stored-concat row rows)
  ]

  insert_usage_stays :
      (row : UsageRow F) (rows : List (UsageRow F))
      → 1 ≤ stored id rows
      → 1 ≤ stored id (insert_usage row rows)
  unfolding insert_usage
  insert_usage_stays row rows h = ground (arith, h, stored-concat row rows)

  stored-present : (rows : List (UsageRow F)) → has_event id rows ≡ true → 1 ≤ stored id rows
  unfolding stored has_event
  stored-present [] h = absurd (ground (arith, h))
  stored-present (r ∷ rs) h = ground (arith, h, stored-present rs)

-- what every insert keeps of the table, every run of the consumer keeps
module _ {F : Type 0} (columns : Columns F) (P : List (UsageRow F) → Type 0)
    (keep : (row : UsageRow F) (rows : List (UsageRow F))
      → P rows
      → P (insert_usage row rows)) where
  write_event_pg_keeps :
      (contact : Contact) (e : Event F) (rows : List (UsageRow F))
      → P rows
      → P (write_event_pg columns contact e rows).1
  unfolding write_event_pg
  write_event_pg_keeps (refused reason) e rows h = h
  write_event_pg_keeps reached e rows h = elim (Result-cases (row_of_event columns e)) [
    | inl (row, made) ↦ rw (made, write_event_pg) (keep row rows h)
    | inr (reason, bad) ↦ rw (bad, write_event_pg) h
  ]
  write_event_pg_keeps (answer_lost lost) e rows h = elim (Result-cases (row_of_event columns e)) [
    | inl (row, made) ↦ rw (made, write_event_pg) (keep row rows h)
    | inr (reason, bad) ↦ rw (bad, write_event_pg) h
  ]

  persist_keeps : (e : Event F) (db : Persisted F) → P db.rows → P (persist columns e db).1.rows
  unfolding persist
  persist_keeps e db h = write_event_pg_keeps (next_contact db.contacts).0 e db.rows h

  deliver_keeps :
      (accepted : Bool) (m : Option (Event F)) (s : Reader × Persisted F)
      → P s.1.rows
      → P (deliver (persist columns) accepted m s).1.rows
  unfolding deliver finish
  deliver_keeps accepted none (r, db) h = h
  deliver_keeps accepted (some e) (r, db) h = finished (persist columns e db) (persist_keeps e db h)
    where
      finished :
          (out : Result (Unit {0}) × Persisted F)
          → P out.1.rows
          → P (finish (persist columns) accepted out (advance r)).1.rows
      finished (ok _, db') h = h
      finished (err _, db') h = h

  Run_keeps :
      {log : List (Option (Event F))} {s₀ s : Reader × Persisted F} {base : ℕ}
      → P s₀.1.rows
      → Run log (persist columns) s₀ base s
      → P s.1.rows
  unfolding round restart
  Run_keeps h started = h
  Run_keeps h (waited accepted run) = Run_keeps h run
  Run_keeps h (delivered {s = s} accepted m at run) = deliver_keeps accepted m s (Run_keeps h run)
  Run_keeps h (restarted_at end has run) = Run_keeps h run
  Run_keeps h (restarted_new end has run) = Run_keeps h run

module _ {F : Type 0} (columns : Columns F) (id : String) where
  has_event-append :
      (rows added : List (UsageRow F))
      → has_event id added ≡ true
      → has_event id (rows ++ added) ≡ true
  unfolding has_event
  has_event-append [] added h = h
  has_event-append (r ∷ rs) added h = ground (arith, has_event-append rs added h)

  has_event-insert_usage :
      (row : UsageRow F) (rows : List (UsageRow F))
      → row.event_id ≡ some id
      → has_event id (insert_usage row rows) ≡ true
  unfolding insert_usage has_event same_id
  has_event-insert_usage row rows e =
      ground (arith, e, eq_refl id, has_event-append rows (row ∷ []))

  module _ (e : Event F) (row : UsageRow F) (made : row_of_event columns e ≡ ok row)
      (named : row.event_id ≡ some id) where
    write_present :
        (contact : Contact) (rows : List (UsageRow F))
        → has_event id rows ≡ true
        → (write_event_pg columns contact e rows).1 ≡ rows
    unfolding write_event_pg insert_usage
    write_present reached rows h = ground (arith, made, named, h)
    write_present (refused reason) rows h = refl
    write_present (answer_lost lost) rows h = ground (arith, made, named, h)

    write_done :
        (contact : Contact) (rows : List (UsageRow F))
        → (write_event_pg columns contact e rows).0 ≡ ok tt
        → has_event id (write_event_pg columns contact e rows).1 ≡ true
    unfolding write_event_pg
    write_done reached rows h = rw (made, write_event_pg) (has_event-insert_usage row rows named)
    write_done (refused reason) rows h = absurd (ground (arith, h))
    write_done (answer_lost lost) rows h = absurd (ground (arith, h, made))

    -- Once a write of an event with an id has succeeded, its row is there, and writing the event
    -- again leaves the table as it is, whether the statement is reached, refused or its answer lost.
    pub write_again :
        (contact again : Contact) (rows : List (UsageRow F))
        → (write_event_pg columns contact e rows).0 ≡ ok tt
        → let after = (write_event_pg columns contact e rows).1 in
          (has_event id after ≡ true) × ((write_event_pg columns again e after).1 ≡ after)
    write_again contact again rows h =
        let done = write_done contact rows h in
        (done, write_present again (write_event_pg columns contact e rows).1 done)

module _ {F : Type 0} (columns : Columns F) (e : Event F) (id : String)
    (named : str_eq e.event_id "" ≡ false) (uuid : columns.uuid e.event_id ≡ ok id) where
  row_of_event-event_id :
      (row : UsageRow F) → row_of_event columns e ≡ ok row → row.event_id ≡ some id
  unfolding row_of_event nullable
  row_of_event-event_id row h = ground (arith, named, uuid, h)

  write_stored :
      (contact : Contact) (rows : List (UsageRow F))
      → (write_event_pg columns contact e rows).0 ≡ ok tt
      → 1 ≤ stored id (write_event_pg columns contact e rows).1
  unfolding write_event_pg
  write_stored contact rows h = elim (Result-cases (row_of_event columns e)) [
    | inl (row, made) ↦
        stored-present id (write_event_pg columns contact e rows).1
          (write_done columns id e row made (row_of_event-event_id row made) contact rows h)
    | inr (reason, bad) ↦ absurd (not_written contact h bad)
  ]
    where
      not_written :
          (contact : Contact) {reason : String}
          → (write_event_pg columns contact e rows).0 ≡ ok tt
          → row_of_event columns e ≡ err reason
          → ⊥
      not_written reached h bad = ground (arith, h, bad)
      not_written (refused r) h bad = ground (arith, h)
      not_written (answer_lost l) h bad = ground (arith, h, bad)

  persist_done :
      (db : Persisted F)
      → (persist columns e db).0 ≡ ok tt
      → 1 ≤ stored id (persist columns e db).1.rows
  unfolding persist
  persist_done db h = write_stored (next_contact db.contacts).0 db.rows h

  round_done :
      (accepted : Bool) (s : Reader × Persisted F)
      → (persist columns e s.1).0 ≡ ok tt
      → 1 ≤ stored id (round (persist columns) accepted (message (some e)) s).1.1.rows
  unfolding round deliver finish
  round_done accepted (r, db) h = rw (h, deliver, finish) (persist_done db h)

  -- The Postgres writer stores an event exactly once, if the event has an id, which reads as a
  -- UUID, and at most one row had it at the start: over any run of the writer's consumer, with
  -- messages delivered again after restarts, refused statements and lost answers, the id never has
  -- two rows, and once a write of the event has succeeded, it has one row after any further run.
  -- Events without an id are not covered.
  pub Run-stored :
      (log : List (Option (Event F))) (s₀ s s' : Reader × Persisted F) (base base' : ℕ)
      (accepted : Bool)
      → stored id s₀.1.rows ≤ 1
      → Run log (persist columns) s₀ base s
      → (persist columns e s.1).0 ≡ ok tt
      → Run log (persist columns) (round (persist columns) accepted (message (some e)) s).1 base' s'
      → (stored id s.1.rows ≤ 1) × (stored id s'.1.rows ≡ 1)
  unfolding round
  Run-stored log s₀ s s' base base' accepted one run done later =
      let P_once = λ (rows : List (UsageRow F)). stored id rows ≤ 1 in
      let P_there = λ (rows : List (UsageRow F)). 1 ≤ stored id rows in
      let before = Run_keeps columns P_once (insert_usage_once id) one run in
      let after = deliver_keeps columns P_once (insert_usage_once id) accepted (some e) s before in
      let at_most = Run_keeps columns P_once (insert_usage_once id) after later in
      let there = round_done accepted s done in
      let at_least = Run_keeps columns P_there (insert_usage_stays id) there later in
      (before, omega (arith, at_most, at_least))
