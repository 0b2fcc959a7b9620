-- ===== src/Http/Reads.antt =====
-- The handlers that only read.
use enterprise_llm_tracker.Base.{String, Bool, true, false, ◌≡◌, refl, arith}
use enterprise_llm_tracker.Engineers.{}
use enterprise_llm_tracker.Engineers.Service.{}
use enterprise_llm_tracker.Float.{Float}
use enterprise_llm_tracker.Http.{Request, Endpoint}
use enterprise_llm_tracker.Http.Admin.{
  AdminWorld, Meets, param, get_handler, leaderboard_handler, recent_usage_handler,
  efficiency_list_handler, efficiency_one_handler, events_handler, handle,
}

-- the endpoints that only read
unfoldable pub is_read : Endpoint → Bool
is_read Endpoint.create_engineer = false
is_read (Endpoint.update_engineer email) = false
is_read (Endpoint.delete_engineer email) = false
is_read Endpoint.refresh_efficiency = false
is_read Endpoint.refresh_registry = false
is_read _ = true

module _ {F : Type 0} (fl : Float F) (m : Meets F) where
  get-reads : (email : String) (w : AdminWorld F) → (get_handler fl m email w).1 ≡ w
  unfolding get_handler
  get-reads email w = ground arith

  leaderboard-reads : (r : Request F) (w : AdminWorld F) → (leaderboard_handler fl m r w).1 ≡ w
  unfolding leaderboard_handler
  leaderboard-reads r w = ground arith

  efficiency_list-reads :
      (r : Request F) (w : AdminWorld F) → (efficiency_list_handler fl m r w).1 ≡ w
  unfolding efficiency_list_handler
  efficiency_list-reads r w = ground arith

  efficiency_one-reads :
      (email : String) (r : Request F) (w : AdminWorld F)
      → (efficiency_one_handler fl m email r w).1 ≡ w
  unfolding efficiency_one_handler
  efficiency_one-reads email r w = ground arith

  events-reads :
      (engineer : String) (r : Request F) (w : AdminWorld F)
      → (events_handler fl m engineer r w).1 ≡ w
  unfolding events_handler
  events-reads engineer r w = ground arith

  pub handle-reads :
      (e : Endpoint) (r : Request F) (w : AdminWorld F)
      → is_read e ≡ true
      → (handle fl m e r w).1 ≡ w
  unfolding handle is_read recent_usage_handler
  handle-reads Endpoint.create_engineer r w h = absurd (ground (arith, h))
  handle-reads Endpoint.list_engineers r w h = refl
  handle-reads (Endpoint.get_engineer email) r w h = get-reads email w
  handle-reads (Endpoint.update_engineer email) r w h = absurd (ground (arith, h))
  handle-reads (Endpoint.delete_engineer email) r w h = absurd (ground (arith, h))
  handle-reads Endpoint.leaderboard r w h = leaderboard-reads r w
  handle-reads Endpoint.recent_usage r w h = refl
  handle-reads Endpoint.refresh_efficiency r w h = absurd (ground (arith, h))
  handle-reads Endpoint.refresh_registry r w h = absurd (ground (arith, h))
  handle-reads Endpoint.efficiency_list r w h = efficiency_list-reads r w
  handle-reads Endpoint.events_list r w h = events-reads (param "engineer" r) r w
  handle-reads (Endpoint.efficiency_one email) r w h = efficiency_one-reads email r w
  handle-reads (Endpoint.events_for_engineer email) r w h = ground (arith, events-reads email r w)
