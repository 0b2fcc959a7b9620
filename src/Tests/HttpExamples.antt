-- ===== src/Tests/HttpExamples.antt =====
-- Requests to the admin routes over a table of one engineer.
use enterprise_llm_tracker.Base.{ℕ, true, String, List, ◌≡◌, refl, none, [], ◌∷◌, arith}
use enterprise_llm_tracker.Base.Act.{ok, err}
use enterprise_llm_tracker.Base.Text.{trim_left, trim_right, trim_prefix, strip}
use enterprise_llm_tracker.Engineers.{create_engineer, insert_row, has_email, has_github}
use enterprise_llm_tracker.Engineers.Service.{
  create, check_create, clean_create, settle, status_of_error,
}
use enterprise_llm_tracker.Http.{Request, bearer_auth, admin_mux, find_route, match_path}
use enterprise_llm_tracker.Http.Admin.{AdminWorld, Meets, handle, serve_admin, create_handler}
use enterprise_llm_tracker.Http.Effects.{IsSame, errors_change_nothing}
use enterprise_llm_tracker.Http.Guarded.{serve_admin-reads}
use enterprise_llm_tracker.Query.{rows}
use enterprise_llm_tracker.Tests.EngineerExamples.{server, texts, input, one}
use enterprise_llm_tracker.Tests.Fakes.{thousandths, noon}

abbrev meets : Meets ℕ
meets = record {
  server = server;
  texts = texts;
  faults = record { statement = none; refresh = none };
  query_fault = none;
  publish_fault = none;
  collates = λ a b. true;
  now = noon;
  snapshots = λ start end. rows [] none;
  parse_rfc3339 = λ v. none;
}

abbrev world : AdminWorld ℕ
world = record { state = one; triggers = 0; signals = []; usage = []; signal_events = [] }

abbrev request : String → List String → String → Request ℕ
request method path authorization = record {
  method = method;
  path = path;
  authorization = authorization;
  query = [];
  create_body = ok input;
  update_body = err "empty";
}

-- POST of an engineer who is there
abbrev again : Request ℕ
again = request "POST" ("admin" ∷ "engineers" ∷ []) "Bearer s3cret"

conflict : (serve_admin thousandths meets "s3cret" again world).0 ≡ 409
unfolding serve_admin bearer_auth trim_prefix strip admin_mux find_route match_path handle
    create_handler create check_create clean_create settle create_engineer insert_row has_email
    has_github trim_left trim_right status_of_error
conflict = refl

-- a trailing segment that is empty is not an email
no_email :
    (serve_admin thousandths meets "s3cret"
      (request "GET" ("admin" ∷ "engineers" ∷ "" ∷ []) "s3cret")
      world).0
    ≡ 404
unfolding serve_admin bearer_auth trim_prefix strip admin_mux find_route match_path
no_email = refl

-- the leaderboard takes no POST
wrong_method :
    (serve_admin thousandths meets "s3cret"
      (request "POST" ("admin" ∷ "leaderboard" ∷ []) "s3cret")
      world).0
    ≡ 405
unfolding serve_admin bearer_auth trim_prefix strip admin_mux find_route match_path
wrong_method = refl

errors_change_nothing_example : IsSame world (serve_admin thousandths meets "s3cret" again world).1
errors_change_nothing_example =
    errors_change_nothing thousandths meets refl "s3cret" again world (rw (conflict) (omega arith))
      (rw (conflict) refl)

serve_admin-reads_example :
    (serve_admin thousandths meets "s3cret"
      (request "GET" ("admin" ∷ "engineers" ∷ "a@x.io" ∷ []) "Bearer s3cret")
      world).1
    ≡ world
serve_admin-reads_example =
    serve_admin-reads thousandths meets "s3cret"
      (request "GET" ("admin" ∷ "engineers" ∷ "a@x.io" ∷ []) "Bearer s3cret") world refl refl refl
