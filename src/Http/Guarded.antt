-- ===== src/Http/Guarded.antt =====
-- Which requests the admin routes serve, and which methods only read.
use enterprise_llm_tracker.Base.{
  String, Bool, true, false, ◌≡◌, refl, List, [], ◌∷◌, All, str_eq, arith, inl, inr, Bool-cases,
  Option-cases,
}
use enterprise_llm_tracker.Float.{Float}
use enterprise_llm_tracker.Http.{
  Request, Endpoint, Route, endpoint, admin_routes, find_route, match_path, takes_method,
  bearer_auth, admin_mux,
}
use enterprise_llm_tracker.Http.Admin.{AdminWorld, Meets, handle, serve_admin}
use enterprise_llm_tracker.Http.Effects.{Found-cases}
use enterprise_llm_tracker.Http.Reads.{is_read, handle-reads}

-- the method is served by the route only to read
abbrev IsSafeFor : String → Route → Type 0
IsSafeFor method r =
    (found : String) → takes_method r.method method ≡ true → is_read (r.endpoint found) ≡ true

module _ (method : String) where
  other_method :
      (held : String)
      → str_eq held method ≡ false
      → str_eq held "GET" ≡ false
      → ¬ (takes_method held method ≡ true)
  other_method held h not_get t = ground (arith, h, not_get, t)

  admin_routes-IsSafeFor :
      str_eq "POST" method ≡ false
      → str_eq "PUT" method ≡ false
      → str_eq "DELETE" method ≡ false
      → All (IsSafeFor method) admin_routes
  unfolding is_read
  admin_routes-IsSafeFor post put delete = (
    λ _ t. absurd (other_method "POST" post refl t),
    (
      λ _ t. refl,
      (
        λ _ t. refl,
        (
          λ _ t. absurd (other_method "PUT" put refl t),
          (
            λ _ t. absurd (other_method "DELETE" delete refl t),
            (
              λ _ t. refl,
              (
                λ _ t. refl,
                (
                  λ _ t. absurd (other_method "POST" post refl t),
                  (
                    λ _ t. absurd (other_method "POST" post refl t),
                    (λ _ t. refl, (λ _ t. refl, (λ _ t. refl, (λ _ t. refl, tt)))),
                  ),
                ),
              ),
            ),
          ),
        ),
      ),
    ),
  )

  found_reads :
      (rs : List Route) (path : List String) (known : Bool) (e : Endpoint)
      → All (IsSafeFor method) rs
      → find_route rs method path known ≡ endpoint e
      → is_read e ≡ true
  unfolding find_route
  found_reads [] path true e safe h = absurd (ground (arith, h))
  found_reads [] path false e safe h = absurd (ground (arith, h))
  found_reads (r ∷ rs) path known e safe h = elim (Option-cases (match_path r.pattern path "")) [
    | inl other ↦ found_reads rs path known e safe.1 (rw (other, find_route) at h)
    | inr (found, matched) ↦ elim (Bool-cases (takes_method r.method method)) [
      | inl taken ↦
          let same_endpoint : endpoint (r.endpoint found) ≡ endpoint e =
            rw (matched, taken, find_route) at h in
          cc (safe.0 found taken, same_endpoint)
      | inr not_taken ↦ found_reads rs path true e safe.1 (rw (matched, not_taken, find_route) at h)
    ]
  ]

module _ {F : Type 0} (fl : Float F) (m : Meets F) where
  -- A request to the admin routes with any other method than POST, PUT and DELETE changes nothing,
  -- whatever its path, its query and its token: every route that takes the method only reads.
  pub serve_admin-reads :
      (admin_token : String) (r : Request F) (w : AdminWorld F)
      → str_eq "POST" r.method ≡ false
      → str_eq "PUT" r.method ≡ false
      → str_eq "DELETE" r.method ≡ false
      → (serve_admin fl m admin_token r w).1 ≡ w
  unfolding serve_admin bearer_auth admin_mux
  serve_admin-reads admin_token r w post put delete =
      let safe = admin_routes-IsSafeFor r.method post put delete in
      let found_lem = found_reads r.method admin_routes r.path false in
      let muxed : (admin_mux (handle fl m) r w).1 ≡ w =
        elim (Found-cases (find_route admin_routes r.method r.path false)) [
          | inl missing ↦ rw (missing, admin_mux) refl
          | inr (inl other) ↦ rw (other, admin_mux) refl
          | inr (inr (e, found)) ↦
              rw (found, admin_mux) (handle-reads fl m e r w (found_lem e safe found))
        ] in
      ground (arith, muxed)
