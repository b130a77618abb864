-- ===== src/Tests/Http.antt =====
-- Tests of `Do`: the connection is reset, the server is down, and then it answers.
use network_digital_twin_pla.Prelude.{
  ℕ, zero, suc, ◌≡◌, ◌≢◌, refl, String, true, false, none, some, Result, ok, err, ltb,
  if◌then◌else◌, String-discrete,
}
use network_digital_twin_pla.Prelude.Dict.{insert}
use network_digital_twin_pla.Factory.{AuthConfig}
use network_digital_twin_pla.HttpClient.{
  Response, Network, response, failure, nothing, context_error, server_error, do_request, back_off,
  judge, try_once, attempts, max_retries, retry_base_delay,
}
use network_digital_twin_pla.HttpClient.Auth.{value_or_env, apply_auth}
use network_digital_twin_pla.HttpClient.Pages.{resolve_url}
use network_digital_twin_pla.HttpClient.Requests.{
  HttpRequest, HttpClient, Outside, returned, prepare, run, request, json_header, get,
  set_auth_token,
}
use network_digital_twin_pla.HttpClient.Retry.{Outcome, do_request-Outcome}

abbrev not_found : Response
not_found = record { status_code = 404; body = "no such device" }

abbrev down : Response
down = record { status_code = 503; body = "" }

abbrev answers : ℕ → Result String Response
answers zero = err "connection reset"
answers (suc zero) = ok down
answers (suc (suc n)) = ok not_found

abbrev recovering : Network String
recovering = record {
  done = λ attempt delay. none;
  wait = λ attempt. none;
  send = answers;
  is_context_error = λ e. false;
}

abbrev always_down : Network String
always_down = record recovering { send = λ attempt. ok down }

-- The caller gives up during a delay of more than a second.
abbrev impatient : Network String
impatient = record always_down {
  done = λ attempt delay. if ltb 1000 delay then some "deadline exceeded" else none;
}

do_request-Outcome_example :
    Outcome recovering 0 4 (do_request recovering) × (do_request recovering ≢ nothing)
do_request-Outcome_example = do_request-Outcome recovering

recovering_test : do_request recovering ≡ response not_found
unfolding do_request attempts try_once judge back_off max_retries
recovering_test = refl

always_down_test : do_request always_down ≡ failure (server_error 503)
unfolding do_request attempts try_once judge back_off max_retries
always_down_test = refl

impatient_test : do_request impatient ≡ failure (context_error "deadline exceeded")
unfolding do_request attempts try_once judge back_off max_retries retry_base_delay
impatient_test = refl

-- A request for a controller, which authenticates by a bearer token.
abbrev bearer : AuthConfig
bearer = record {
  type = "bearer";
  token = "";
  token_env = "";
  username = "";
  password = "";
  password_env = "";
}

abbrev controller_client : HttpClient
controller_client = set_auth_token "t1" (record { base_url = "https://controller"; auth = bearer })

abbrev neighbors : HttpRequest
neighbors = request "POST" "/isis-neighbor" json_header (some "{}")

abbrev sent_neighbors : HttpRequest
sent_neighbors = record neighbors {
  url = "https://controller/isis-neighbor";
  headers = insert "Authorization" "Bearer t1" json_header;
}

abbrev neighbor_list : Response
neighbor_list = record { status_code = 200; body = "[]" }

-- The server fails the first attempt, and answers the others.
abbrev answer : ℕ → Result String Response
answer zero = ok down
answer (suc n) = ok neighbor_list

abbrev web : Outside String
web = record {
  getenv = λ name. "";
  basic = λ name password. "";
  is_url = λ text. true;
  host = λ text. "";
  new_request = λ method path. none;
  done = λ attempt delay. none;
  wait = λ attempt. none;
  is_context_error = λ e. false;
  send = λ n req. answer n;
}

get_test : get web controller_client "/isis-neighbor" ≡ returned (response neighbor_list)
unfolding get run prepare apply_auth value_or_env resolve_url insert String-discrete do_request
    attempts try_once judge back_off max_retries
get_test = refl

prepared_test : prepare web controller_client neighbors ≡ ok sent_neighbors
unfolding prepare apply_auth value_or_env resolve_url insert String-discrete
prepared_test = refl
