-- ===== src/Http.antt =====
-- internal/http/router.go and internal/middleware/auth.go: which handler a request reaches. The
-- methods and paths are matched as net/http's ServeMux does it: a name in braces takes one segment
-- that is not empty, a pattern for GET takes HEAD too, and a path that only other methods have is
-- answered with 405. A path is its segments. What a handler writes is its status; headers and bodies
-- are not modelled.
pub mod Admin
pub mod Reads
pub mod Guarded
pub mod Effects
use enterprise_llm_tracker.Base.{
  ℕ, String, Bool, true, false, not, ◌&&◌, ◌||◌, Option, none, some, List, [], ◌∷◌, str_eq,
  if◌then◌else◌,
}
use enterprise_llm_tracker.Base.Act.{Act, Result, ok, err}
use enterprise_llm_tracker.Base.Dict.{Dict}
use enterprise_llm_tracker.Base.Text.{trim_prefix}
use enterprise_llm_tracker.Engineers.{EngineerCreate, EngineerUpdate}

-- a request: the decoder's result for either kind of body stands in place of the body
pub record Request (F : Type 0) : Type 0 where
  pub method : String
  pub path : List String
  pub authorization : String
  pub query : Dict String
  pub create_body : Result (EngineerCreate F)
  pub update_body : Result (EngineerUpdate F)

-- the handlers of the admin routes, with the path's email
pub data Endpoint : Type 0 where
  create_engineer list_engineers : Endpoint
  get_engineer update_engineer delete_engineer : String → Endpoint
  leaderboard recent_usage refresh_efficiency refresh_registry : Endpoint
  efficiency_list events_list : Endpoint
  efficiency_one events_for_engineer : String → Endpoint

-- a segment of a pattern
pub data Segment : Type 0 where
  lit : String → Segment
  email : Segment

pub record Route : Type 0 where
  pub method : String
  pub pattern : List Segment
  pub endpoint : String → Endpoint

abbrev to_endpoint : Endpoint → String → Endpoint
to_endpoint e path_email = e

abbrev pub admin_routes : List Route
admin_routes =
    record {
      method = "POST";
      pattern = lit "admin" ∷ lit "engineers" ∷ [];
      endpoint = to_endpoint create_engineer;
    }
    ∷ record {
      method = "GET";
      pattern = lit "admin" ∷ lit "engineers" ∷ [];
      endpoint = to_endpoint list_engineers;
    }
    ∷ record {
      method = "GET";
      pattern = lit "admin" ∷ lit "engineers" ∷ email ∷ [];
      endpoint = get_engineer;
    }
    ∷ record {
      method = "PUT";
      pattern = lit "admin" ∷ lit "engineers" ∷ email ∷ [];
      endpoint = update_engineer;
    }
    ∷ record {
      method = "DELETE";
      pattern = lit "admin" ∷ lit "engineers" ∷ email ∷ [];
      endpoint = delete_engineer;
    }
    ∷ record {
      method = "GET";
      pattern = lit "admin" ∷ lit "leaderboard" ∷ [];
      endpoint = to_endpoint leaderboard;
    }
    ∷ record {
      method = "GET";
      pattern = lit "admin" ∷ lit "usage" ∷ lit "recent" ∷ [];
      endpoint = to_endpoint recent_usage;
    }
    ∷ record {
      method = "POST";
      pattern = lit "admin" ∷ lit "refresh-efficiency" ∷ [];
      endpoint = to_endpoint refresh_efficiency;
    }
    ∷ record {
      method = "POST";
      pattern = lit "admin" ∷ lit "registry" ∷ lit "refresh" ∷ [];
      endpoint = to_endpoint refresh_registry;
    }
    ∷ record {
      method = "GET";
      pattern = lit "admin" ∷ lit "signals" ∷ lit "efficiency" ∷ [];
      endpoint = to_endpoint efficiency_list;
    }
    ∷ record {
      method = "GET";
      pattern = lit "admin" ∷ lit "signals" ∷ lit "efficiency" ∷ email ∷ [];
      endpoint = efficiency_one;
    }
    ∷ record {
      method = "GET";
      pattern = lit "admin" ∷ lit "signals" ∷ lit "events" ∷ [];
      endpoint = to_endpoint events_list;
    }
    ∷ record {
      method = "GET";
      pattern = lit "admin" ∷ lit "signals" ∷ lit "events" ∷ email ∷ [];
      endpoint = events_for_engineer;
    }
    ∷ []

-- the email that the path has where the pattern asks for one
unfoldable pub match_path : List Segment → List String → String → Option String
match_path [] [] found = some found
match_path [] (s ∷ ss) found = none
match_path (p ∷ ps) [] found = none
match_path (lit text ∷ ps) (s ∷ ss) found =
    let rest = match_path ps ss found in if str_eq text s then rest else none
match_path (email ∷ ps) (s ∷ ss) found =
    let rest = match_path ps ss s in if str_eq s "" then none else rest

abbrev pub takes_method : String → String → Bool
takes_method held asked = str_eq held asked || (str_eq held "GET" && str_eq asked "HEAD")

-- what the mux makes of a method and a path
pub data Found : Type 0 where
  not_found method_not_allowed : Found
  endpoint : Endpoint → Found

unfoldable pub find_route : List Route → String → List String → Bool → Found
find_route [] method path known = if known then method_not_allowed else not_found
find_route (r ∷ rs) method path known =
    let other_path = find_route rs method path known in
    let other_method = find_route rs method path true in
    elim (match_path r.pattern path "") [
      | none ↦ other_path
      | some found ↦
          if takes_method r.method method then endpoint (r.endpoint found) else other_method
    ]

module _ {F W : Type 0} where
  -- BearerAuth in front of a handler
  unfoldable pub bearer_auth : String → (Request F → Act W ℕ) → Request F → Act W ℕ
  unfolding trim_prefix
  bearer_auth expected next r w =
      if str_eq expected ""
      then (503, w)
      else if not (str_eq (trim_prefix r.authorization "Bearer ") expected)
      then (401, w)
      else next r w

  -- the admin mux
  unfoldable pub admin_mux : (Endpoint → Request F → Act W ℕ) → Request F → Act W ℕ
  unfolding find_route match_path
  admin_mux handle r w = elim (find_route admin_routes r.method r.path false) [
    | not_found ↦ (404, w)
    | method_not_allowed ↦ (405, w)
    | endpoint e ↦ handle e r w
  ]

-- readyz: the status in its body, from the two pings
unfoldable pub readyz : Option String → Option String → String
readyz none none = "ok"
readyz _ _ = "degraded"
