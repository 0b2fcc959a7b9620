-- ===== src/Workers/Triggers.antt =====
-- The events of a consumer, one after the other.
use mathlib.Core.List.{Memᴰ}
use enterprise_llm_tracker.Base.{
  String, Bool, true, false, ◌||◌, ◌≡◌, refl, ap, ◌∙◌, subst, Option, none, some, List, [], ◌∷◌,
  ◌++◌, str_eq, eq_refl, arith, if◌then◌else◌, inl, inr, Bool-cases, Option-cases,
}
use enterprise_llm_tracker.Efficiency.{Collector, trigger}
use enterprise_llm_tracker.Efficiency.Collect.{mark_engineer_dirty}
use enterprise_llm_tracker.Models.{Event}
use enterprise_llm_tracker.Registry.{Engineer, Registry, lookup_by_email}
use enterprise_llm_tracker.Reverts.{is_member}
use enterprise_llm_tracker.Workers.{TriggerState, is_trigger, mark_known, github_trigger_handler}

is_member-concat :
    (u : String) (us : List String) (v : String)
    → is_member u (us ++ v ∷ []) ≡ (is_member u us || str_eq v u)
unfolding is_member
is_member-concat u [] v = ground arith
is_member-concat u (w ∷ us) v = ground (arith, is_member-concat u us v)

mark-is_member :
    (u : String) (dirty : List String)
    → str_eq u "" ≡ false
    → is_member u (mark_engineer_dirty u dirty) ≡ true
unfolding mark_engineer_dirty
mark-is_member u dirty named = ground (arith, named, is_member-concat u dirty u, eq_refl u)

is_member-mark :
    (u v : String) (dirty : List String)
    → is_member u dirty ≡ true
    → is_member u (mark_engineer_dirty v dirty) ≡ true
unfolding mark_engineer_dirty
is_member-mark u v dirty h = ground (arith, h, is_member-concat u dirty v)

-- a queued trigger is queued once
trigger_twice :
    (b : Bool) (c : Collector) → (if b then trigger (trigger c) else trigger c) ≡ trigger c
unfolding trigger
trigger_twice true c = refl
trigger_twice false c = refl

module _ {F : Type 0} (reg : Registry F) where
  -- the handler on each event of the list, with how SADD fares for it
  unfoldable pub handle_each : List (Option String × Event F) → TriggerState → TriggerState
  handle_each [] s = s
  handle_each ((fault, e) ∷ es) s = handle_each es (github_trigger_handler reg fault e s).1

  unfoldable pub any_trigger : List (Option String × Event F) → Bool
  any_trigger [] = false
  any_trigger ((fault, e) ∷ es) = is_trigger e || any_trigger es

  handler-collector :
      (fault : Option String) (e : Event F) (s : TriggerState) (c : Collector)
      → s.collector ≡ some c
      → (github_trigger_handler reg fault e s).1.collector
        ≡ some (if is_trigger e then trigger c else c)
  unfolding github_trigger_handler
  handler-collector fault e s c h = elim (Bool-cases (is_trigger e)) [
    | inl asks ↦ rw (asks, github_trigger_handler, h) refl
    | inr other ↦ rw (other, github_trigger_handler) h
  ]

  handle_each-collector :
      (es : List (Option String × Event F)) (s : TriggerState) (c : Collector)
      → s.collector ≡ some c
      → (handle_each es s).collector ≡ some (if any_trigger es then trigger c else c)
  unfolding handle_each any_trigger trigger
  handle_each-collector [] s c h = h
  handle_each-collector ((fault, e) ∷ es) s c h =
      let step = handler-collector fault e s c h in
      let rest = handle_each-collector es (github_trigger_handler reg fault e s).1 in
      elim (Bool-cases (is_trigger e)) [
        | inl asks ↦
            rw asks
              (rest (trigger c) (rw asks at step) ∙ ap some (trigger_twice (any_trigger es) c))
        | inr other ↦ rw other (rest c (rw other at step))
      ]

  mark_known-keeps :
      (fault : Option String) (e : Event F) (dirty : List String) (u : String)
      → is_member u dirty ≡ true
      → is_member u (mark_known reg fault e dirty) ≡ true
  unfolding mark_known
  mark_known-keeps fault e dirty u h = elim (Option-cases (lookup_by_email reg e.engineer_id)) [
    | inl unknown ↦ rw (unknown, mark_known) h
    | inr (eng, known) ↦
        let marked = is_member-mark u eng.github_username dirty h in
        rw (known, mark_known)
          (elim fault [ none ↦ ground (arith, h, marked) | some reason ↦ ground (arith, h) ])
  ]

  handler-keeps :
      (fault : Option String) (e : Event F) (s : TriggerState) (u : String)
      → is_member u s.dirty ≡ true
      → is_member u (github_trigger_handler reg fault e s).1.dirty ≡ true
  unfolding github_trigger_handler
  handler-keeps fault e s u h = ground (arith, h, mark_known-keeps fault e s.dirty u h)

  handle_each-keeps :
      (es : List (Option String × Event F)) (s : TriggerState) (u : String)
      → is_member u s.dirty ≡ true
      → is_member u (handle_each es s).dirty ≡ true
  unfolding handle_each
  handle_each-keeps [] s u h = h
  handle_each-keeps ((fault, e) ∷ es) s u h = handle_each-keeps es _ u (handler-keeps fault e s u h)

  module _ (e : Event F) (eng : Engineer F) (asks : is_trigger e ≡ true)
      (known : lookup_by_email reg e.engineer_id ≡ some eng)
      (named : str_eq eng.github_username "" ≡ false) where
    handler-marks :
        (s : TriggerState) (c : Collector)
        → s.collector ≡ some c
        → is_member eng.github_username (github_trigger_handler reg none e s).1.dirty ≡ true
    unfolding github_trigger_handler mark_known
    handler-marks s c h =
        rw (asks, github_trigger_handler, h)
          (rw (known, mark_known)
            (ground (arith, named, mark-is_member eng.github_username s.dirty named)))

    any_trigger-member :
        (es : List (Option String × Event F)) → Memᴰ (none, e) es → any_trigger es ≡ true
    unfolding any_trigger
    any_trigger-member [] listed = elim listed [ ]
    any_trigger-member (x ∷ es) (Memᴰ.head same) =
        subst (λ x'. any_trigger (x' ∷ es) ≡ true) same (ground (arith, asks))
    any_trigger-member (x ∷ es) (Memᴰ.tail there) = ground (arith, any_trigger-member es there)

    marked_in :
        (es : List (Option String × Event F)) (s : TriggerState) (c : Collector)
        → Memᴰ (none, e) es
        → s.collector ≡ some c
        → is_member eng.github_username (handle_each es s).dirty ≡ true
    unfolding handle_each
    marked_in [] s c listed h = elim listed [ ]
    marked_in (x ∷ es) s c (Memᴰ.head same) h =
        subst (λ x'. is_member eng.github_username (handle_each (x' ∷ es) s).dirty ≡ true) same
          (handle_each-keeps es _ eng.github_username (handler-marks s c h))
    marked_in ((fault, e') ∷ es) s c (Memᴰ.tail there) h =
        marked_in es _ (if is_trigger e' then trigger c else c) there
          (handler-collector fault e' s c h)

    -- An event about a commit or a pull request of a known engineer with a GitHub name, among any
    -- others before and after it, leaves the name in the dirty set if its SADD succeeds, and a
    -- collector that is configured with exactly one queued trigger, however many events ask for it.
    pub handle_each-asks :
        (es : List (Option String × Event F)) (s : TriggerState) (c : Collector)
        → Memᴰ (none, e) es
        → s.collector ≡ some c
        → (is_member eng.github_username (handle_each es s).dirty ≡ true)
          × ((handle_each es s).collector ≡ some (trigger c))
    handle_each-asks es s c listed h = (
      marked_in es s c listed h,
      rw (any_trigger-member es listed) at (handle_each-collector es s c h),
    )
