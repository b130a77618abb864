-- ===== src/HttpClient/Requests.antt =====
-- internal/connector/httpclient.go: `Do` as a whole, with the methods that make a request for it. What is outside
-- is a parameter: the environment, the parser of URLs and what the library makes of a request. Each attempt gives
-- the transport a clone of one request. The clones share the reader of the body, and the transport may rewind it:
-- what an attempt sends of a body is the transport's answer, of which nothing is assumed.
-- A URL is its text, which the library prints as it was given.
use Prim.Native.String.{len}
use network_digital_twin_pla.Prelude.{
  ℕ, Bool, String, [], Option, none, some, Result, ok, err, if◌then◌else◌, ◌==◌,
}
use network_digital_twin_pla.Prelude.Dict.{Dict, insert}
use network_digital_twin_pla.Factory.{AuthConfig}
use network_digital_twin_pla.HttpClient.{Response, Returned, Network, do_request}
use network_digital_twin_pla.HttpClient.Auth.{apply_auth}
use network_digital_twin_pla.HttpClient.Pages.{resolve_url}

pub record HttpRequest : Type 0 where
  pub method : String
  pub url : String
  pub headers : Dict String
  pub body : Option String
  pub content_length : ℕ

pub record HttpClient : Type 0 where
  pub base_url : String
  pub auth : AuthConfig

-- `send` is what the transport answers to a request in an attempt. The other fields of an attempt are those of
-- `Network`.
pub record Outside (E : Type 0) : Type 0 where
  pub getenv : String → String
  pub basic : String → String → String
  pub is_url : String → Bool
  pub host : String → String
  pub new_request : String → String → Option E
  pub done : ℕ → ℕ → Option E
  pub wait : ℕ → Option E
  pub is_context_error : E → Bool
  pub send : ℕ → HttpRequest → Result E Response

pub data Done (E : Type 0) : Type 0 where
  create_error : E → Done E
  url_error : String → Done E
  panicked : Done E
  returned : Returned E → Done E

-- `http.NewRequestWithContext`, with a header; the length is that of the reader.
abbrev pub request : String → String → Dict String → Option String → HttpRequest
request method path headers body = record {
  method = method;
  url = path;
  headers = headers;
  body = body;
  content_length = elim body [ none ↦ 0 | some b ↦ len b ];
}

abbrev pub json_header : Dict String
json_header = insert "Content-Type" "application/json" []

module _ {E : Type 0} (out : Outside E) where
  -- The attempts of the loop, for a request.
  abbrev pub network_of : HttpRequest → Network E
  network_of req = record {
    done = out.done;
    wait = out.wait;
    send = λ n. out.send n req;
    is_context_error = out.is_context_error;
  }

  abbrev authorized : HttpClient → HttpRequest → HttpRequest
  authorized c req = record req { headers = apply_auth out.getenv out.basic c.auth req.headers }

  -- `Do` before its loop: the full URL and the header.
  unfoldable pub prepare : HttpClient → HttpRequest → Result (Done E) HttpRequest
  unfolding apply_auth resolve_url
  prepare c req =
      if c.base_url == ""
      then ok (authorized c req)
      else if out.host req.url == ""
      then elim (resolve_url out.is_url c.base_url req.url) [
        | none ↦ err panicked
        | some full_url ↦
            if out.is_url full_url
            then ok (authorized c (record req { url = full_url }))
            else err (url_error full_url)
      ]
      else ok (authorized c req)

  unfoldable pub run : HttpClient → HttpRequest → Done E
  unfolding prepare do_request
  run c req = elim (prepare c req) [ err e ↦ e | ok sent ↦ returned (do_request (network_of sent)) ]

  abbrev created_and_run : HttpClient → String → String → Dict String → Option String → Done E
  created_and_run c method path headers body = elim (out.new_request method path) [
    | some e ↦ create_error e
    | none ↦ run c (request method path headers body)
  ]

  unfoldable pub get : HttpClient → String → Done E
  unfolding run
  get c path =
      created_and_run c "GET" path
        (insert "Content-Type" "application/json" (insert "Accept" "application/json" [])) none

  unfoldable pub post : HttpClient → String → Option String → Done E
  unfolding run
  post c path body = created_and_run c "POST" path [] body

  unfoldable pub post_json : HttpClient → String → Option String → Done E
  unfolding run
  post_json c path body = created_and_run c "POST" path json_header body

  unfoldable pub put : HttpClient → String → Option String → Done E
  unfolding run
  put c path body = created_and_run c "PUT" path json_header body

  unfoldable pub delete : HttpClient → String → Done E
  unfolding run
  delete c path = created_and_run c "DELETE" path json_header none

abbrev pub set_auth_token : String → HttpClient → HttpClient
set_auth_token token c = record c { auth = record (c.auth) { token = token } }
