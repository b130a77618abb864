-- ===== src/Tests/Breaker.antt =====
-- Tests of the circuit breaker.
use network_digital_twin_pla.Prelude.{ℕ, ◌≡◌, refl, false, arith}
use network_digital_twin_pla.Breaker.{CircuitBreaker, new_circuit_breaker, allow, settle, Request}
use network_digital_twin_pla.Breaker.Reach.{
  System, Reachable, here, next, admitted, settled, fresh, IsSound, Reachable-IsSound,
}
use network_digital_twin_pla.Breaker.Lost.{probe_lost_for_good}

abbrev failing : Request
failing = record { arrival = 1; departure = 2; status = 500 }

abbrev succeeding : Request
succeeding = record { arrival = 3; departure = 4; status = 200 }

-- Two failures with a success in between, and a threshold of 2.
-- One request is let in, and its handler answers 500.
after_failure :
    Reachable
      (fresh 1 30)
      (record { breaker = settle 5 500 (new_circuit_breaker 1 30); in_flight = 0 })
unfolding allow new_circuit_breaker
after_failure = next (next here (admitted {cb = new_circuit_breaker 1 30} 4 refl)) (settled 5 500)

Reachable-IsSound_example : IsSound (settle 5 500 (new_circuit_breaker 1 30))
Reachable-IsSound_example = Reachable-IsSound 1 30 (omega arith) after_failure

probe_lost_for_good_example :
    (cb : CircuitBreaker) × Reachable (fresh 1 30) (record { breaker = cb; in_flight = 2 })
    × Reachable (record { breaker = cb; in_flight = 2 }) (record { breaker = cb; in_flight = 0 })
    × ((s : System)
        → Reachable (record { breaker = cb; in_flight = 0 }) s
        → (now : ℕ) → (allow now s.breaker).0 ≡ false)
probe_lost_for_good_example = probe_lost_for_good 1 30 (omega arith)
