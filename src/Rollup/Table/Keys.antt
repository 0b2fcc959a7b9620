-- ===== src/Rollup/Table/Keys.antt =====
-- What a run of the rollup leaves of the rows by their keys.
use enterprise_llm_tracker.Base.{
  ℕ, ◌≤◌, String, false, ◌≡◌, refl, ap, ◌∙◌, subst, Option, none, some, List, [], ◌∷◌, ◌==◌, arith,
  if◌then◌else◌, inl, inr, Bool-cases,
}
use enterprise_llm_tracker.Base.Act.{ok, Result-cases}
use enterprise_llm_tracker.Base.Int.{ℤ}
use enterprise_llm_tracker.Clock.{Time, truncate_to_day, days_ago}
use enterprise_llm_tracker.Efficiency.{efficiency_windows}
use enterprise_llm_tracker.Float.{Float}
use enterprise_llm_tracker.Query.{Fault, refused, reply_lost}
use enterprise_llm_tracker.Registry.{Engineer}
use enterprise_llm_tracker.Rollup.{EngineerSignal, compute_one, signal_of, back_fill}
use enterprise_llm_tracker.Rollup.Table.{
  upsert_row, set_peer_rows, set_peer_percentile, find_signal, SignalColumns, to_columns,
  upsert_engineer_signal, Inputs, first_pass, second_pass, run_window, run_windows, rollup_once,
}
use enterprise_llm_tracker.Rollup.Table.Rows.{
  keyed, find-upsert_row, other_window, keyed-upsert_row, find-set_peer_rows, keyed-set_peer_rows,
}

truncate_to_day_idem : (t : Time) → truncate_to_day (truncate_to_day t) ≡ truncate_to_day t
unfolding truncate_to_day
truncate_to_day_idem t = omega arith

module _ {F : Type 0} (fl : Float F) (columns : SignalColumns F) (inputs : Inputs F) where
  to_columns-window_end :
      (sig row : EngineerSignal F)
      → to_columns columns sig ≡ ok row
      → row.window_end ≡ truncate_to_day sig.window_end
  unfolding to_columns
  to_columns-window_end sig row h = ground (arith, h)

  compute_one-window_end :
      (eng : Engineer F) (window : String) (start end now : Time) (sig : EngineerSignal F)
      (per_pr : Option F)
      → compute_one fl eng window start end now
          (inputs.usage eng.email start end)
          (inputs.pr_counts eng.github_username start end)
        ≡ ok (sig, per_pr)
      → sig.window_end ≡ end
  unfolding compute_one signal_of
  compute_one-window_end eng window start end now sig per_pr h = ground (arith, h)

  module _ (email window : String) (end : Time) where
    -- what a step leaves of a key: at most one row, and the very row if its window ends elsewhere
    record IsKept (today : Time) (t t' : List (EngineerSignal F)) : Type 0 where
      single : keyed email window end t ≤ 1 → keyed email window end t' ≤ 1
      elsewhere :
          (today == end) ≡ false → find_signal email window end t' ≡ find_signal email window end t

    unchanged : (today : Time) (t : List (EngineerSignal F)) → IsKept today t t
    unchanged today t = record { single = λ h. h; elsewhere = λ h. refl }

    then-IsKept :
        (today : Time) (t t' t'' : List (EngineerSignal F))
        → IsKept today t t'
        → IsKept today t' t''
        → IsKept today t t''
    then-IsKept today t t' t'' a b = record {
      single = λ h. b.single (a.single h);
      elsewhere = λ h. b.elsewhere h ∙ a.elsewhere h;
    }

    upsert_row-IsKept :
        (sig row : EngineerSignal F) (t : List (EngineerSignal F))
        → to_columns columns sig ≡ ok row
        → IsKept (truncate_to_day sig.window_end) t (upsert_row row t)
    upsert_row-IsKept sig row t made = record {
      single = λ h. ground (arith, h, keyed-upsert_row email window end row t);
      elsewhere = λ h.
          rw
            (
              find-upsert_row email window end row t,
              other_window email window end row
                  (ap (λ (e : Time). e == end) (to_columns-window_end sig row made) ∙ h),
            )
            refl;
    }

    upsert-IsKept :
        (fault : Option Fault) (sig : EngineerSignal F) (t : List (EngineerSignal F))
        → IsKept (truncate_to_day sig.window_end) t (upsert_engineer_signal columns fault sig t).1
    unfolding upsert_engineer_signal
    upsert-IsKept (some (refused e)) sig t = unchanged (truncate_to_day sig.window_end) t
    upsert-IsKept (some (reply_lost e)) sig t = elim (Result-cases (to_columns columns sig)) [
      | inl (row, made) ↦ rw (made, upsert_engineer_signal) (upsert_row-IsKept sig row t made)
      | inr (x, unfit) ↦
          rw (unfit, upsert_engineer_signal) (unchanged (truncate_to_day sig.window_end) t)
    ]
    upsert-IsKept none sig t = elim (Result-cases (to_columns columns sig)) [
      | inl (row, made) ↦ rw (made, upsert_engineer_signal) (upsert_row-IsKept sig row t made)
      | inr (x, unfit) ↦
          rw (unfit, upsert_engineer_signal) (unchanged (truncate_to_day sig.window_end) t)
    ]

    first_pass-IsKept :
        (w : String) (start today now : Time) (engs : List (Engineer F))
        (t : List (EngineerSignal F))
        → truncate_to_day today ≡ today
        → IsKept today t (first_pass fl columns inputs w start today now engs t).1
    unfolding first_pass
    first_pass-IsKept w start today now [] t midnight = unchanged today t
    first_pass-IsKept w start today now (eng ∷ engs) t midnight =
        let usage = inputs.usage eng.email start today in
        let counts = inputs.pr_counts eng.github_username start today in
        elim (Result-cases (compute_one fl eng w start today now usage counts)) [
          | inl ((sig, per_pr), computed) ↦
              let fault = inputs.upsert_fault w eng.email in
              let written = (upsert_engineer_signal columns fault sig t).1 in
              let same_end =
                ap truncate_to_day
                  (compute_one-window_end eng w start today now sig per_pr computed)
                ∙ midnight in
              let kept =
                subst (λ end'. IsKept end' t written) same_end (upsert-IsKept fault sig t) in
              let all =
                then-IsKept today t written
                  (first_pass fl columns inputs w start today now engs written).1 kept
                  (first_pass-IsKept w start today now engs written midnight) in
              elim (Result-cases (upsert_engineer_signal columns fault sig t).0) [
                | inl (_, stored) ↦ rw (computed, first_pass) (rw (stored, first_pass) all)
                | inr (e, unstored) ↦ rw (computed, first_pass) (rw (unstored, first_pass) all)
              ]
          | inr (e, failed) ↦
              rw (failed, first_pass) (first_pass-IsKept w start today now engs t midnight)
        ]

    set_peer_rows-IsKept :
        (e w : String) (today : Time) (m : F) (percentile : ℤ) (t : List (EngineerSignal F))
        → IsKept
            (truncate_to_day today)
            t
            (set_peer_rows e w (truncate_to_day today) m percentile t)
    set_peer_rows-IsKept e w today m percentile t =
        let day = truncate_to_day today in
        record {
          single = λ h. rw (keyed-set_peer_rows email window end e w day m percentile t) h;
          elsewhere = find-set_peer_rows email window end e w day m percentile t;
        }

    peer-IsKept :
        (fault : Option Fault) (e w : String) (today : Time) (median : F) (percentile : ℤ)
        (t : List (EngineerSignal F))
        → IsKept
            (truncate_to_day today)
            t
            (set_peer_percentile columns fault e w today median percentile t)
    unfolding set_peer_percentile
    peer-IsKept (some (refused reason)) e w today median percentile t =
        unchanged (truncate_to_day today) t
    peer-IsKept (some (reply_lost reason)) e w today median percentile t =
        elim (Result-cases (columns.numeric median)) [
          | inl (m, rounded) ↦
              rw (rounded, set_peer_percentile) (set_peer_rows-IsKept e w today m percentile t)
          | inr (x, unfit) ↦ rw (unfit, set_peer_percentile) (unchanged (truncate_to_day today) t)
        ]
    peer-IsKept none e w today median percentile t = elim (Result-cases (columns.numeric median)) [
      | inl (m, rounded) ↦
          rw (rounded, set_peer_percentile) (set_peer_rows-IsKept e w today m percentile t)
      | inr (x, unfit) ↦ rw (unfit, set_peer_percentile) (unchanged (truncate_to_day today) t)
    ]

    second_pass-IsKept :
        (w : String) (today : Time) (us : List (String × F × ℤ)) (t : List (EngineerSignal F))
        → truncate_to_day today ≡ today
        → IsKept today t (second_pass fl columns inputs w today us t)
    unfolding second_pass
    second_pass-IsKept w today [] t midnight = unchanged today t
    second_pass-IsKept w today ((e, median, percentile) ∷ us) t midnight =
        let next =
          set_peer_percentile columns (inputs.peer_fault w e) e w today median percentile t in
        then-IsKept today t next (second_pass fl columns inputs w today us next)
          (subst (λ day. IsKept day t next) midnight
            (peer-IsKept (inputs.peer_fault w e) e w today median percentile t))
          (second_pass-IsKept w today us next midnight)

    run_windows-IsKept :
        (now : Time) (engs : List (Engineer F)) (ws : List (String × ℕ))
        (t : List (EngineerSignal F))
        → IsKept (truncate_to_day now) t (run_windows fl columns inputs now engs ws t)
    unfolding run_windows run_window
    run_windows-IsKept now engs [] t = unchanged (truncate_to_day now) t
    run_windows-IsKept now engs ((w, days) ∷ ws) t =
        let today = truncate_to_day now in
        let start = truncate_to_day (days_ago days now) in
        let (entries, written) = first_pass fl columns inputs w start today now engs t in
        let filled = second_pass fl columns inputs w today (back_fill fl entries) written in
        then-IsKept today t filled (run_windows fl columns inputs now engs ws filled)
          (then-IsKept today t written filled
            (first_pass-IsKept w start today now engs t (truncate_to_day_idem now))
            (second_pass-IsKept w today (back_fill fl entries) written (truncate_to_day_idem now)))
          (run_windows-IsKept now engs ws filled)

    -- A nightly run keeps the table in order, whatever its queries and statements answer: an
    -- engineer, a window and its end never get a second row, and unless the window ends on the day
    -- of the run, what is stored under them stays as it is.
    pub rollup_once-kept :
        (now : Time) (engs : List (Engineer F)) (t : List (EngineerSignal F))
        → keyed email window end t ≤ 1
        → (keyed email window end (rollup_once fl columns inputs now engs t) ≤ 1)
          × ((if truncate_to_day now == end
                then none
                else find_signal email window end (rollup_once fl columns inputs now engs t))
              ≡ (if truncate_to_day now == end then none else find_signal email window end t))
    unfolding rollup_once
    rollup_once-kept now engs t one =
        let kept = run_windows-IsKept now engs efficiency_windows t in
        (
          kept.single one,
          elim (Bool-cases (truncate_to_day now == end)) [
            | inl today ↦ rw today refl
            | inr other ↦ rw other (kept.elsewhere other)
          ],
        )
