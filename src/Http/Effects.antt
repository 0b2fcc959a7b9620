-- ===== src/Http/Effects.antt =====
-- What requests to the admin routes change.
use enterprise_llm_tracker.Base.{
  ℕ, ◌≤◌, ◌+◌, Bool, true, not, ◌||◌, ltb, String, false, ◌≡◌, refl, sym, ap, subst, none, some,
  str_eq, arith, inl, inr, Bool-cases, Option-cases, ◌⊎◌,
}
use enterprise_llm_tracker.Base.Act.{err, Result-cases}
use enterprise_llm_tracker.Engineers.{EngineerError, Outcome, done, failed_with}
use enterprise_llm_tracker.Engineers.Service.{State, create, update, deactivate, query_active}
use enterprise_llm_tracker.Float.{Float}
use enterprise_llm_tracker.Http.{
  Request, Endpoint, Found, endpoint, not_found, method_not_allowed, admin_routes, find_route,
  bearer_auth, admin_mux,
}
use enterprise_llm_tracker.Http.Admin.{
  AdminWorld, Meets, create_handler, update_handler, delete_handler, refresh_registry_handler,
  refresh_efficiency_handler, handle, serve_admin, changed,
}
use enterprise_llm_tracker.Base.Text.{trim_prefix}
use enterprise_llm_tracker.Engineers.Keeps.{
  is_lost, is_plain, is_told, create-keeps, update-keeps, deactivate-keeps,
}
use enterprise_llm_tracker.Http.Reads.{is_read, handle-reads}
use enterprise_llm_tracker.Clock.{Time}
use enterprise_llm_tracker.Query.{QueryResult, query_failed, rows}
use enterprise_llm_tracker.Registry.{Engineer, Registry, load, finish_load, record_error}

-- the same engineers, the same snapshot of them, and no trigger more
pub record IsSame {F : Type 0} (w w' : AdminWorld F) : Type 0 where
  pub table : w'.state.table ≡ w.state.table
  pub snapshot : w'.state.registry.snap ≡ w.state.registry.snap
  pub triggers : w'.triggers ≡ w.triggers

same : {F : Type 0} (w : AdminWorld F) → IsSame w w
same w = record { table = refl; snapshot = refl; triggers = refl }

pub Found-cases :
    (f : Found) → (f ≡ not_found) ⊎ ((f ≡ method_not_allowed) ⊎ ((e : Endpoint) × f ≡ endpoint e))
Found-cases not_found = inl refl
Found-cases method_not_allowed = inr (inl refl)
Found-cases (endpoint e) = inr (inr (e, refl))

module _ {F : Type 0} (fl : Float F) (m : Meets F)
    (plain : is_plain m.faults.statement ≡ true) where
  -- the status is not the server's, or the reply of the statement arrived
  abbrev pub is_told_by : ℕ → Bool
  is_told_by status = ltb status 500 || not (is_lost m.faults.statement)

  -- a change that is answered with an error has not happened
  changed-IsSame :
      {A : Type 0} (success : ℕ) (w : AdminWorld F) (out : Outcome A × State F)
      → success + 1 ≤ 400
      → ((e : EngineerError)
          → is_told m.faults.statement e ≡ true
          → out.0 ≡ failed_with e
          → out.1 ≡ w.state)
      → 400 ≤ (changed fl m success w out).0
      → is_told_by (changed fl m success w out).0 ≡ true
      → IsSame w (changed fl m success w out).1
  changed-IsSame success w (done a, s) small keeps h told = absurd (omega arith)
  changed-IsSame success w (failed_with e, s) small keeps h told =
      let kept = keeps e told refl in
      record {
        table = ap (λ (s' : State F). s'.table) kept;
        snapshot = ap (λ (s' : State F). s'.registry.snap) kept;
        triggers = refl;
      }

  -- a load that fails leaves the snapshot
  load-keeps :
      (q : QueryResult (Engineer F)) (now : Time) (reg : Registry F) (e : String)
      → (load q now reg).0 ≡ err e
      → (load q now reg).1.snap ≡ reg.snap
  unfolding load finish_load record_error
  load-keeps (query_failed e') now reg e h = refl
  load-keeps (rows rs none) now reg e h = ground (arith, h)
  load-keeps (rows rs (some late)) now reg e h = ground (arith, h)

  load-IsSame :
      (w : AdminWorld F)
      → 400 ≤ (refresh_registry_handler fl m w).0
      → IsSame w (refresh_registry_handler fl m w).1
  unfolding refresh_registry_handler
  load-IsSame w h =
      let q = query_active m.query_fault w.state.table in
      elim (Result-cases (load q m.now w.state.registry).0) [
        | inl (_, loaded) ↦ absurd (ground (arith, h, loaded))
        | inr (e, failed) ↦
            rw (failed, refresh_registry_handler)
              (record {
                table = refl;
                snapshot = load-keeps q m.now w.state.registry e failed;
                triggers = refl;
              })
      ]

  IsSame-of : (w w' : AdminWorld F) → w' ≡ w → IsSame w w'
  IsSame-of w w' e = subst (IsSame w) (sym e) (same w)

  create-IsSame :
      (r : Request F) (w : AdminWorld F)
      → 400 ≤ (create_handler fl m r w).0
      → is_told_by (create_handler fl m r w).0 ≡ true
      → IsSame w (create_handler fl m r w).1
  unfolding create_handler
  create-IsSame r w h told = elim (Result-cases r.create_body) [
    | inl (input, read) ↦
        let out = create fl m.server m.texts m.faults input w.state in
        rw (read, create_handler)
          (changed-IsSame 201 w out (omega arith)
            (λ e t. create-keeps fl m.server m.texts m.faults input w.state e plain t)
            (rw (read, create_handler) at h) (rw (read, create_handler) at told))
    | inr (e, bad) ↦ rw (bad, create_handler) (same w)
  ]

  update-IsSame :
      (email : String) (r : Request F) (w : AdminWorld F)
      → 400 ≤ (update_handler fl m email r w).0
      → is_told_by (update_handler fl m email r w).0 ≡ true
      → IsSame w (update_handler fl m email r w).1
  unfolding update_handler
  update-IsSame email r w h told = elim (Bool-cases (str_eq email "")) [
    | inl blank ↦ rw (blank, update_handler) (same w)
    | inr given ↦ elim (Result-cases r.update_body) [
      | inl (input, read) ↦
          let out = update fl m.server m.faults email input w.state in
          rw (given, read, update_handler)
            (changed-IsSame 200 w out (omega arith)
              (λ e t. update-keeps fl m.server m.faults email input w.state e plain t)
              (rw (given, read, update_handler) at h) (rw (given, read, update_handler) at told))
      | inr (e, bad) ↦ rw (given, bad, update_handler) (same w)
    ]
  ]

  delete-IsSame :
      (email : String) (w : AdminWorld F)
      → 400 ≤ (delete_handler fl m email w).0
      → is_told_by (delete_handler fl m email w).0 ≡ true
      → IsSame w (delete_handler fl m email w).1
  unfolding delete_handler
  delete-IsSame email w h told = elim (Bool-cases (str_eq email "")) [
    | inl blank ↦ rw (blank, delete_handler) (same w)
    | inr given ↦
        let out = deactivate fl m.server m.faults email w.state in
        rw (given, delete_handler)
          (changed-IsSame 204 w out (omega arith)
            (λ e t. deactivate-keeps fl m.server m.faults email w.state e plain t)
            (rw (given, delete_handler) at h) (rw (given, delete_handler) at told))
  ]

  refresh_efficiency_never : (w : AdminWorld F) → ¬ (400 ≤ (refresh_efficiency_handler fl m w).0)
  unfolding refresh_efficiency_handler
  refresh_efficiency_never w h = absurd (elim (Option-cases m.publish_fault) [
    | inl fine ↦ ground (arith, rw (fine, refresh_efficiency_handler) at h)
    | inr (e, failed) ↦ ground (arith, rw (failed, refresh_efficiency_handler) at h)
  ])

  handle-IsSame :
      (e : Endpoint) (r : Request F) (w : AdminWorld F)
      → 400 ≤ (handle fl m e r w).0
      → is_told_by (handle fl m e r w).0 ≡ true
      → IsSame w (handle fl m e r w).1
  unfolding handle is_read
  handle-IsSame Endpoint.create_engineer r w h told = create-IsSame r w h told
  handle-IsSame (Endpoint.update_engineer email) r w h told = update-IsSame email r w h told
  handle-IsSame (Endpoint.delete_engineer email) r w h told = delete-IsSame email w h told
  handle-IsSame Endpoint.refresh_efficiency r w h told = absurd (refresh_efficiency_never w h)
  handle-IsSame Endpoint.refresh_registry r w h told = load-IsSame w h
  handle-IsSame Endpoint.list_engineers r w h told = same w
  handle-IsSame (Endpoint.get_engineer email) r w h told =
      IsSame-of w _ (handle-reads fl m (Endpoint.get_engineer email) r w refl)
  handle-IsSame Endpoint.leaderboard r w h told =
      IsSame-of w _ (handle-reads fl m Endpoint.leaderboard r w refl)
  handle-IsSame Endpoint.recent_usage r w h told =
      IsSame-of w _ (handle-reads fl m Endpoint.recent_usage r w refl)
  handle-IsSame Endpoint.efficiency_list r w h told =
      IsSame-of w _ (handle-reads fl m Endpoint.efficiency_list r w refl)
  handle-IsSame Endpoint.events_list r w h told =
      IsSame-of w _ (handle-reads fl m Endpoint.events_list r w refl)
  handle-IsSame (Endpoint.efficiency_one email) r w h told =
      IsSame-of w _ (handle-reads fl m (Endpoint.efficiency_one email) r w refl)
  handle-IsSame (Endpoint.events_for_engineer email) r w h told =
      IsSame-of w _ (handle-reads fl m (Endpoint.events_for_engineer email) r w refl)

  mux-IsSame :
      (r : Request F) (w : AdminWorld F)
      → 400 ≤ (admin_mux (handle fl m) r w).0
      → is_told_by (admin_mux (handle fl m) r w).0 ≡ true
      → IsSame w (admin_mux (handle fl m) r w).1
  unfolding admin_mux
  mux-IsSame r w h told = elim (Found-cases (find_route admin_routes r.method r.path false)) [
    | inl missing ↦ rw (missing, admin_mux) (same w)
    | inr (inl other) ↦ rw (other, admin_mux) (same w)
    | inr (inr (e, found)) ↦
        rw (found, admin_mux)
          (handle-IsSame e r w (rw (found, admin_mux) at h) (rw (found, admin_mux) at told))
  ]

  -- A request to the admin routes that is answered with a client's error, from 400 to 499, has left
  -- the engineers, the registry's snapshot of them and the number of published refresh triggers as
  -- they were, whatever the statements, the queries and the publishing of the trigger did. So has
  -- one with a server's error, unless a statement was carried out and its reply lost. It is assumed
  -- that the error of a lost reply does not name the server's code of a unique violation.
  pub errors_change_nothing :
      (admin_token : String) (r : Request F) (w : AdminWorld F)
      → 400 ≤ (serve_admin fl m admin_token r w).0
      → (ltb (serve_admin fl m admin_token r w).0 500 || not (is_lost m.faults.statement)) ≡ true
      → IsSame w (serve_admin fl m admin_token r w).1
  unfolding serve_admin bearer_auth
  errors_change_nothing admin_token r w h told = elim (Bool-cases (str_eq admin_token "")) [
    | inl blank ↦ rw (blank, serve_admin, bearer_auth) (same w)
    | inr set ↦ elim (Bool-cases (str_eq (trim_prefix r.authorization "Bearer ") admin_token)) [
      | inl known ↦
          rw (set, known, serve_admin, bearer_auth)
            (mux-IsSame r w (rw (set, known, serve_admin, bearer_auth) at h)
              (rw (set, known, serve_admin, bearer_auth) at told))
      | inr unknown ↦ rw (set, unknown, serve_admin, bearer_auth) (same w)
    ]
  ]
