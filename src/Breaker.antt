-- ===== src/Breaker.antt =====
-- internal/api/middleware/circuitbreaker.go. A time is a number on the monotonic clock, and a
-- duration one of the same unit. The failures are counted without the bound of Go's `int`, which
-- 2^63 failed requests would reach.
pub mod Single
pub mod Serial
pub mod Reach
pub mod Lost
use network_digital_twin_pla.Prelude.{
  ℕ, suc, ◌-◌, ◌≡◌, Bool, true, false, not, ◌&&◌, List, [], ◌∷◌, ltb, leb, if◌then◌else◌,
}

pub data CircuitState : Type 0 where
  state_closed state_open state_half_open : CircuitState

pub record CircuitBreaker : Type 0 where
  pub state : CircuitState
  pub failures : ℕ
  pub threshold : ℕ
  pub timeout : ℕ
  pub last_failure_time : ℕ
  pub half_open_pending : Bool

unfoldable pub new_circuit_breaker : ℕ → ℕ → CircuitBreaker
new_circuit_breaker threshold timeout = record {
  state = state_closed;
  failures = 0;
  threshold = threshold;
  timeout = timeout;
  last_failure_time = 0;
  half_open_pending = false;
}

-- `allow` at the time `now`.
unfoldable pub allow : ℕ → CircuitBreaker → Bool × CircuitBreaker
allow now cb = elim cb.state [
  | state_closed ↦ (true, cb)
  | state_open ↦
      if ltb cb.timeout (now - cb.last_failure_time)
      then (true, record cb { state = state_half_open; half_open_pending = false })
      else (false, cb)
  | state_half_open ↦
      if not cb.half_open_pending
      then (true, record cb { half_open_pending = true })
      else (false, cb)
]

unfoldable pub record_success : CircuitBreaker → CircuitBreaker
record_success cb = elim cb.state [
  | state_half_open ↦ record cb { state = state_closed; failures = 0; half_open_pending = false }
  | _ ↦ cb
]

unfoldable pub record_failure : ℕ → CircuitBreaker → CircuitBreaker
record_failure now cb =
    let counted = record cb { failures = suc cb.failures; last_failure_time = now } in
    elim cb.state [
      | state_half_open ↦ record counted { state = state_open; half_open_pending = false }
      | _ ↦
          if leb cb.threshold (suc cb.failures)
          then record counted { state = state_open }
          else counted
    ]

abbrev pub is_server_error : ℕ → Bool
is_server_error status = leb 500 status && ltb status 600

-- The handler after `c.Next()`.
unfoldable pub settle : ℕ → ℕ → CircuitBreaker → CircuitBreaker
unfolding record_success record_failure
settle now status cb = if is_server_error status then record_failure now cb else record_success cb

-- A request: the time at which it comes, the time at which its handler ends, and the status.
pub record Request : Type 0 where
  pub arrival : ℕ
  pub departure : ℕ
  pub status : ℕ

-- The whole handler, for a request that no other one overlaps. The status of a refused one is 503.
unfoldable pub serve : Request → CircuitBreaker → ℕ × CircuitBreaker
unfolding allow settle
serve req cb =
    let (allowed, cb') = allow req.arrival cb in
    if allowed then (req.status, settle req.departure req.status cb') else (503, cb')

unfoldable pub serve_all : List Request → CircuitBreaker → CircuitBreaker
unfolding serve
serve_all [] cb = cb
serve_all (req ∷ reqs) cb = serve_all reqs (serve req cb).1
