-- ===== src/Engineers/Refresh.antt =====
-- What the registry reads from the engineers table.
use enterprise_llm_tracker.Base.{
  String, true, false, ◌≡◌, refl, ap, ◌∙◌, subst, Option, none, some, List, [], ◌∷◌, ◌++◌, arith,
  str_eq, if◌then◌else◌, Bool-cases, inl, inr, eq_iff,
}
use enterprise_llm_tracker.Base.Act.{ok}
use enterprise_llm_tracker.Base.Dict.{lookup, insert, lookup-insert}
use enterprise_llm_tracker.Engineers.{EngineerRow, Server, has_email, is_hit, find_row, set_rows}
use enterprise_llm_tracker.Engineers.Service.{
  to_registry, active_rows, query_active, refresh_registry,
}
use enterprise_llm_tracker.Engineers.Columns.{IsUnique}
use enterprise_llm_tracker.Float.{Float}
use enterprise_llm_tracker.Registry.{
  Engineer, Registry, Snapshot, scan_rows, load, finish_load, store_snapshot, lookup_by_email,
}

-- the engineer of a row, if there is one
abbrev pub as_engineer : {F : Type 0} → Option (EngineerRow F) → Option (Engineer F)
as_engineer none = none
as_engineer (some r) = some (to_registry r)

abbrev or_before : {F : Type 0} → Option (Engineer F) → Option (EngineerRow F) → Option (Engineer F)
or_before old none = old
or_before old (some r) = some (to_registry r)

module _ {F : Type 0} where
  absent :
      (email : String) (rs : List (EngineerRow F))
      → has_email email rs ≡ false
      → find_row (is_hit email) rs ≡ none
  unfolding has_email find_row
  absent email [] h = refl
  absent email (r ∷ rs) h = ground (arith, h, absent email rs)

  miss : (email : String) (r : EngineerRow F) → r.active ≡ false → is_hit email r ≡ false
  miss email r h = ground (arith, h)

  active_head :
      (r : EngineerRow F) (rs : List (EngineerRow F))
      → r.active ≡ true
      → active_rows (r ∷ rs) ≡ ok (to_registry r) ∷ active_rows rs
  unfolding active_rows
  active_head r rs active =
      ap (λ b. if b then ok (to_registry r) ∷ active_rows rs else active_rows rs) active

  last : (o : Option (EngineerRow F)) → or_before none o ≡ as_engineer o
  last none = refl
  last (some r) = refl

  -- an active row at the head: its entry is found unless the email is another's
  found_first :
      (email : String) (r : EngineerRow F) (rs : List (EngineerRow F)) (s : Snapshot F)
      → IsUnique (r ∷ rs)
      → r.active ≡ true
      → or_before
          (lookup email (insert r.email (to_registry r) s.by_email))
          (find_row (is_hit email) rs)
        ≡ or_before (lookup email s.by_email) (find_row (is_hit email) (r ∷ rs))
  unfolding find_row IsUnique
  found_first email r rs s u active = elim (Bool-cases (str_eq r.email email)) [
    | inl same ↦
        let nobody =
          absent email rs
            (subst (λ e. has_email e rs ≡ false) ((eq_iff r.email email).0 same) u.0) in
        rw (lookup-insert, same, active, nobody) refl
    | inr other ↦ rw (lookup-insert, other) refl
  ]

  scanned :
      (email : String) (rs : List (EngineerRow F)) (s : Snapshot F)
      → IsUnique rs
      → (s' : Snapshot F) × (scan_rows (active_rows rs) s ≡ ok s')
        × (lookup email s'.by_email
            ≡ or_before (lookup email s.by_email) (find_row (is_hit email) rs))
  unfolding scan_rows active_rows find_row IsUnique
  scanned email [] s u = (s, refl, refl)
  scanned email (r ∷ rs) s u = elim (Bool-cases r.active) [
    | inr inactive ↦
        let (s', read, found) = scanned email rs s u.2 in
        (s', rw inactive read, rw (miss email r inactive) found)
    | inl active ↦
        let s₁ : Snapshot F = record {
          by_email = insert r.email (to_registry r) s.by_email;
          by_github = insert r.github_username (to_registry r) s.by_github;
        } in
        let (s', read, found) = scanned email rs s₁ u.2 in
        (
          s',
          ap (λ l. scan_rows l s) (active_head r rs active) ∙ read,
          found ∙ found_first email r rs s u active,
        )
  ]

  -- After a refresh whose query succeeds, the registry finds exactly the active row of an email, if
  -- emails are unique in the table, and nothing else.
  pub refresh_registry_known :
      (fl : Float F) (sv : Server F) (t : List (EngineerRow F)) (reg : Registry F) (email : String)
      → IsUnique t
      → lookup_by_email (refresh_registry fl sv none t reg).registry email
        ≡ as_engineer (find_row (is_hit email) t)
  unfolding refresh_registry query_active load finish_load store_snapshot lookup_by_email
  refresh_registry_known fl sv t reg email u =
      let (s', read, found) = scanned email t (record { by_email = []; by_github = [] }) u in
      rw read (found ∙ last (find_row (is_hit email) t))

  pub find_row-snoc :
      (email : String) (r : EngineerRow F) (t : List (EngineerRow F))
      → has_email email t ≡ false
      → is_hit email r ≡ true
      → find_row (is_hit email) (t ++ r ∷ []) ≡ some r
  unfolding find_row has_email
  find_row-snoc email r [] h hit = rw hit refl
  find_row-snoc email r (x ∷ t) h hit =
      let missed : is_hit email x ≡ false = ground (arith, h) in
      rw missed (find_row-snoc email r t (ground (arith, h)) hit)

  -- rows that are no longer active are not hit
  pub gone :
      (email : String) (f : EngineerRow F → EngineerRow F) (t : List (EngineerRow F))
      → ((r : EngineerRow F) → (f r).active ≡ false)
      → find_row (is_hit email) (set_rows (is_hit email) f t) ≡ none
  unfolding find_row set_rows
  gone email f [] off = refl
  gone email f (x ∷ t) off = elim (Bool-cases (is_hit email x)) [
    | inl hit ↦ rw (hit, miss email (f x) (off x), gone email f t off) refl
    | inr missed ↦ rw (missed, missed, gone email f t off) refl
  ]
