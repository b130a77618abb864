-- ===== src/Breaker/Lost.antt =====
-- internal/api/middleware/circuitbreaker.go: how the breaker comes to refuse all requests, and stays so.
use mathlib.Core.Path.{subst}
use network_digital_twin_pla.Prelude.{
  ℕ, zero, suc, ◌-◌, ◌<◌, ◌≡◌, refl, ◌∙◌, ap, sym, Bool, true, false, leb, ltb, arith,
}
use network_digital_twin_pla.Breaker.{
  CircuitState, state_closed, state_open, state_half_open, CircuitBreaker, new_circuit_breaker,
  allow, record_failure, settle,
}
use network_digital_twin_pla.Breaker.Reach.{
  System, Step, admitted, refused, settled, panicked, Reachable, here, next, fresh,
}

module _ (cb : CircuitBreaker) (half : cb.state ≡ state_half_open)
    (pending : cb.half_open_pending ≡ true) where
  allow_pending : (now : ℕ) → allow now cb ≡ (false, cb)
  unfolding allow
  allow_pending now = rw (half, pending) refl

-- What the breaker is while its probe is pending and no handler is under way.
pub record IsLost (s : System) : Type 0 where
  pub half_open : s.breaker.state ≡ state_half_open
  pub pending : s.breaker.half_open_pending ≡ true
  pub none_left : s.in_flight ≡ 0

IsLost-Step : (s t : System) → IsLost s → Step s t → t ≡ s
IsLost-Step s t lost (admitted {cb = cb} {n = n} now e) =
    let refuses = allow_pending cb lost.half_open lost.pending now in cc
IsLost-Step s t lost (refused {cb = cb} {cb' = cb'} {n = n} now e) =
    let refuses = allow_pending cb lost.half_open lost.pending now in
    let same : cb' ≡ cb = cc in ap (λ x. record { breaker = x; in_flight = n }) same
IsLost-Step s t lost (settled now status) = absurd (omega (arith, lost.none_left))
IsLost-Step s t lost panicked = absurd (omega (arith, lost.none_left))

lost_for_good :
    (s t : System) → IsLost s → Reachable s t → (now : ℕ) → (allow now t.breaker).0 ≡ false
lost_for_good s t lost r now = rw (stays s t lost r) (
    ap (λ (x : Bool × CircuitBreaker). x.0)
      (allow_pending s.breaker lost.half_open lost.pending now))
  where
    stays : (s t : System) → IsLost s → Reachable s t → t ≡ s
    stays s t lost here = refl
    stays s t lost (next {s = m} r step) =
        let same = stays s m lost r in IsLost-Step m t (subst IsLost (sym same) lost) step ∙ same

module _ (threshold timeout : ℕ) where
  -- A breaker that has counted failures, the last of them at the time 0.
  abbrev after_failures : CircuitState → ℕ → Bool → CircuitBreaker
  after_failures state n pending = record {
    state = state;
    failures = n;
    threshold = threshold;
    timeout = timeout;
    last_failure_time = 0;
    half_open_pending = pending;
  }

  abbrev at : CircuitBreaker → ℕ → System
  at cb n = record { breaker = cb; in_flight = n }

  counts :
      (n : ℕ)
      → suc n < threshold
      → settle 0 500 (after_failures state_closed n false)
        ≡ after_failures state_closed (suc n) false
  unfolding settle record_failure
  counts n below = let under : leb threshold (suc n) ≡ false = ground arith in rw under refl

  opens :
      (n : ℕ)
      → suc n ≡ threshold
      → settle 0 500 (after_failures state_closed n false)
        ≡ after_failures state_open threshold false
  unfolding settle record_failure
  opens n e =
      let over : leb threshold (suc n) ≡ true = ground arith in
      rw over (ap (λ k. after_failures state_open k false) e)

  -- A request fails.
  fails :
      (n : ℕ)
      → Reachable (fresh threshold timeout) (at (after_failures state_closed n false) 0)
      → Reachable
          (fresh threshold timeout)
          (at (settle 0 500 (after_failures state_closed n false)) 0)
  unfolding allow
  fails n r =
      next (next r (admitted {cb = after_failures state_closed n false} 0 refl)) (settled 0 500)

  fails_below :
      (n : ℕ)
      → n < threshold
      → Reachable (fresh threshold timeout) (at (after_failures state_closed n false) 0)
  unfolding new_circuit_breaker
  fails_below zero below = here
  fails_below (suc n) below =
      subst (λ cb. Reachable (fresh threshold timeout) (at cb 0)) (counts n below)
        (fails n (fails_below n (omega arith)))

  open_reached :
      0 < threshold
      → Reachable (fresh threshold timeout) (at (after_failures state_open threshold false) 0)
  open_reached some_ =
      subst (λ cb. Reachable (fresh threshold timeout) (at cb 0))
        (opens (threshold - 1) (omega arith))
        (fails (threshold - 1) (fails_below (threshold - 1) (omega arith)))

  half_open :
      (n : ℕ)
      → allow (suc timeout) (after_failures state_open n false)
        ≡ (true, after_failures state_half_open n false)
  unfolding allow
  half_open n = let late : ltb timeout (suc timeout - 0) ≡ true = ground arith in rw late refl

  probes :
      (n : ℕ)
      → allow (suc timeout) (after_failures state_half_open n false)
        ≡ (true, after_failures state_half_open n true)
  unfolding allow
  probes n = refl

  -- With a threshold above 0, a new breaker reaches a state in which two requests are in their handlers, and
  -- from which, if both handlers panic, it refuses every request from then on, at whatever time it comes and
  -- whatever happens before.
  pub probe_lost_for_good :
      0 < threshold
      → (cb : CircuitBreaker) × Reachable (fresh threshold timeout) (at cb 2)
        × Reachable (at cb 2) (at cb 0)
        × ((s : System) → Reachable (at cb 0) s → (now : ℕ) → (allow now s.breaker).0 ≡ false)
  probe_lost_for_good some_ = (
    after_failures state_half_open threshold true,
    next (next (open_reached some_) (admitted (suc timeout) (half_open threshold)))
        (admitted (suc timeout) (probes threshold)),
    next (next here panicked) panicked,
    λ s r now.
        lost_for_good (at (after_failures state_half_open threshold true) 0) s
          (record { half_open = refl; pending = refl; none_left = refl }) r now,
  )
