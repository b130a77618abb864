-- ===== src/HttpClient.antt =====
-- internal/connector/httpclient.go: the loop of `Do`, once the request has its URL and its header.
-- The transport, the limiter and the context are parameters: what they answer in each attempt.
pub mod Pages
pub mod Paging
pub mod Auth
pub mod Netbox
pub mod Requests
pub mod Retry
use network_digital_twin_pla.Prelude.{
  ℕ, zero, suc, ◌-◌, ◌*◌, ◌^◌, Bool, String, ◌<>◌, Option, none, some, Result, ok, err, leb,
  if◌then◌else◌,
}

pub record Response : Type 0 where
  pub status_code : ℕ
  pub body : String

pub data HttpError (E : Type 0) : Type 0 where
  context_error : E → HttpError E
  rate_limiter : E → HttpError E
  transport : E → HttpError E
  server_error : ℕ → HttpError E

-- The pairs of a response and an error that Go may return: one of them is nil, or both are.
pub data Returned (E : Type 0) : Type 0 where
  response : Response → Returned E
  failure : HttpError E → Returned E
  nothing : Returned E

-- The answers in an attempt: that of the context while `Do` waits for a delay in milliseconds, that
-- of `limiter.Wait` and that of `client.Do`; and the test that `errors.Is` makes of an error.
pub record Network (E : Type 0) : Type 0 where
  pub done : ℕ → ℕ → Option E
  pub wait : ℕ → Option E
  pub send : ℕ → Result E Response
  pub is_context_error : E → Bool

unfoldable pub max_retries : ℕ
max_retries = 3

unfoldable pub retry_base_delay : ℕ
retry_base_delay = 500

module _ {E : Type 0} (net : Network E) where
  -- The wait before an attempt. The first one waits for nothing.
  unfoldable pub back_off : ℕ → Option E
  back_off zero = none
  back_off (suc n) = net.done (suc n) (retry_base_delay * 2 ^ n)

  -- What becomes of an answer: `err` where the loop continues with that as its last error.
  unfoldable pub judge : Result E Response → Result (HttpError E) (Returned E)
  judge (err e) = if net.is_context_error e then ok (failure (transport e)) else err (transport e)
  judge (ok resp) =
      if leb 500 resp.status_code then err (server_error resp.status_code) else ok (response resp)

  -- The body of the loop.
  unfoldable pub try_once : ℕ → Result (HttpError E) (Returned E)
  try_once attempt = elim (back_off attempt) [
    | some e ↦ ok (failure (context_error e))
    | none ↦ elim (net.wait attempt) [
      | some e ↦ ok (failure (rate_limiter e))
      | none ↦ judge (net.send attempt)
    ]
  ]

  -- The loop from an attempt on, with the attempts left and what it returns at its end.
  unfoldable pub attempts : ℕ → ℕ → Returned E → Returned E
  attempts zero attempt last = last
  attempts (suc left) attempt last = elim (try_once attempt) [
    | ok r ↦ r
    | err e ↦ attempts left (suc attempt) (failure e)
  ]

  unfoldable pub do_request : Returned E
  do_request = attempts (suc max_retries) 0 nothing
