-- ===== src/Breaker/Single.antt =====
-- What one call does, in each state.
use network_digital_twin_pla.Prelude.{ℕ, suc, ◌<◌, ◌≤◌, ◌≡◌, refl, true, false, leb, arith}
use network_digital_twin_pla.Breaker.{
  state_closed, state_open, CircuitBreaker, is_server_error, Request, serve,
}

abbrev pub counted : ℕ → CircuitBreaker → CircuitBreaker
counted now cb = record cb { failures = suc cb.failures; last_failure_time = now }

abbrev pub opened : ℕ → CircuitBreaker → CircuitBreaker
opened now cb = record cb {
  state = state_open;
  failures = suc cb.failures;
  last_failure_time = now;
}

module _ (req : Request) (cb : CircuitBreaker) (c : cb.state ≡ state_closed) where
  pub serve-success : is_server_error req.status ≡ false → serve req cb ≡ (req.status, cb)
  unfolding serve
  serve-success good = rw (c, good) refl

  pub serve-counted :
      is_server_error req.status ≡ true
      → suc cb.failures < cb.threshold
      → serve req cb ≡ (req.status, counted req.departure cb)
  unfolding serve
  serve-counted bad few =
      let under : leb cb.threshold (suc cb.failures) ≡ false = ground arith in
      rw (c, bad, under) refl

  pub serve-opened :
      is_server_error req.status ≡ true
      → cb.threshold ≤ suc cb.failures
      → serve req cb ≡ (req.status, opened req.departure cb)
  unfolding serve
  serve-opened bad many =
      let over : leb cb.threshold (suc cb.failures) ≡ true = ground arith in rw (c, bad, over) refl
