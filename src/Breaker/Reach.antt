-- ===== src/Breaker/Reach.antt =====
-- The breaker under requests that overlap: each call locks the breaker, so that the calls stand in
-- some order, and a handler is under way between its `allow` and its record.
use mathlib.Core.Path.{subst}
use network_digital_twin_pla.Prelude.{
  ℕ, suc, ◌-◌, ◌<◌, ◌≤◌, ◌≡◌, refl, ◌⊎◌, inl, inr, Bool, true, false, ltb, leb, arith, Bool-cases,
}
use network_digital_twin_pla.Breaker.{
  CircuitState, state_closed, state_open, state_half_open, CircuitBreaker, new_circuit_breaker,
  allow, record_failure, record_success, settle, is_server_error,
}

-- The breaker, and the number of handlers under way.
pub record System : Type 0 where
  pub breaker : CircuitBreaker
  pub in_flight : ℕ

-- A handler that panics is left by `gin.Recovery` above the breaker, and records nothing.
pub data Step : System → System → Type 0 where
  admitted :
      {cb cb' : CircuitBreaker} {n : ℕ} (now : ℕ)
      → allow now cb ≡ (true, cb')
      → Step (record { breaker = cb; in_flight = n }) (record { breaker = cb'; in_flight = suc n })
  refused :
      {cb cb' : CircuitBreaker} {n : ℕ} (now : ℕ)
      → allow now cb ≡ (false, cb')
      → Step (record { breaker = cb; in_flight = n }) (record { breaker = cb'; in_flight = n })
  settled :
      {cb : CircuitBreaker} {n : ℕ} (now status : ℕ)
      → Step
          (record { breaker = cb; in_flight = suc n })
          (record { breaker = settle now status cb; in_flight = n })
  panicked :
      {cb : CircuitBreaker} {n : ℕ}
      → Step (record { breaker = cb; in_flight = suc n }) (record { breaker = cb; in_flight = n })

pub data Reachable (start : System) : System → Type 0 where
  here : Reachable start start
  next : {s t : System} → Reachable start s → Step s t → Reachable start t

abbrev pub fresh : ℕ → ℕ → System
fresh threshold timeout = record { breaker = new_circuit_breaker threshold timeout; in_flight = 0 }

-- The failures are below the threshold exactly while the breaker is closed, and a probe is pending
-- only in the half-open state.
abbrev pub SoundAt : CircuitState → ℕ → ℕ → Bool → Type 0
SoundAt state_closed failures threshold pending = (failures < threshold) × (pending ≡ false)
SoundAt state_open failures threshold pending =
    (threshold ≤ failures) × (0 < threshold) × (pending ≡ false)
SoundAt state_half_open failures threshold pending = (threshold ≤ failures) × (0 < threshold)

abbrev pub IsSound : CircuitBreaker → Type 0
IsSound cb = SoundAt cb.state cb.failures cb.threshold cb.half_open_pending

state_cases : (s : CircuitState) → (s ≡ state_closed) ⊎ ((s ≡ state_open) ⊎ (s ≡ state_half_open))
state_cases state_closed = inl refl
state_cases state_open = inr (inl refl)
state_cases state_half_open = inr (inr refl)

sound_in :
    (cb : CircuitBreaker) (s : CircuitState)
    → cb.state ≡ s
    → IsSound cb
    → SoundAt s cb.failures cb.threshold cb.half_open_pending
sound_in cb s e h = subst (λ x. SoundAt x cb.failures cb.threshold cb.half_open_pending) e h

allow-IsSound : (now : ℕ) (cb : CircuitBreaker) → IsSound cb → IsSound (allow now cb).1
unfolding allow
allow-IsSound now cb s = elim (state_cases cb.state) [
  | inl c ↦ rw c (sound_in cb state_closed c s)
  | inr (inl c) ↦
      let h = sound_in cb state_open c s in
      elim (Bool-cases (ltb cb.timeout (now - cb.last_failure_time))) [
        | inl late ↦ rw (c, late) (h.0, h.1)
        | inr early ↦ rw (c, early) h
      ]
  | inr (inr c) ↦
      let h = sound_in cb state_half_open c s in
      elim (Bool-cases cb.half_open_pending) [
        | inl busy ↦ rw (c, busy) h
        | inr free ↦ rw (c, free) h
      ]
]

record_success-IsSound : (cb : CircuitBreaker) → IsSound cb → IsSound (record_success cb)
unfolding record_success
record_success-IsSound cb s = elim (state_cases cb.state) [
  | inl c ↦ rw c (sound_in cb state_closed c s)
  | inr (inl c) ↦ rw c (sound_in cb state_open c s)
  | inr (inr c) ↦ let h = sound_in cb state_half_open c s in rw c (h.1, refl)
]

record_failure-IsSound :
    (now : ℕ) (cb : CircuitBreaker) → IsSound cb → IsSound (record_failure now cb)
unfolding record_failure
record_failure-IsSound now cb s = elim (Bool-cases (leb cb.threshold (suc cb.failures))) [
  | inl over ↦ elim (state_cases cb.state) [
    | inl c ↦
        let h = sound_in cb state_closed c s in
        rw (c, over) (ground (arith, over), omega (arith, h.0), h.1)
    | inr (inl c) ↦
        let h = sound_in cb state_open c s in rw (c, over) ((omega (arith, h.0), h.1, h.2))
    | inr (inr c) ↦
        let h = sound_in cb state_half_open c s in rw (c) ((omega (arith, h.0), h.1, refl))
  ]
  | inr under ↦ elim (state_cases cb.state) [
    | inl c ↦ let h = sound_in cb state_closed c s in rw (c, under) (ground (arith, under), h.1)
    | inr (inl c) ↦ let h = sound_in cb state_open c s in absurd (ground (arith, under, h.0))
    | inr (inr c) ↦ let h = sound_in cb state_half_open c s in absurd (ground (arith, under, h.0))
  ]
]

settle-IsSound :
    (now status : ℕ) (cb : CircuitBreaker) → IsSound cb → IsSound (settle now status cb)
unfolding settle
settle-IsSound now status cb s = elim (Bool-cases (is_server_error status)) [
  | inl bad ↦ rw (bad, settle) (record_failure-IsSound now cb s)
  | inr good ↦ rw (good, settle) (record_success-IsSound cb s)
]

-- In every state that a new breaker with a threshold above 0 can reach, whatever the order of the
-- calls, the failures are below the threshold exactly while it is closed, and a probe is pending
-- only while it is half open.
pub Reachable-IsSound :
    (threshold timeout : ℕ)
    → 0 < threshold
    → {s : System} → Reachable (fresh threshold timeout) s
    → IsSound s.breaker
unfolding new_circuit_breaker
Reachable-IsSound threshold timeout p here = (p, refl)
Reachable-IsSound threshold timeout p (next r (admitted {cb = cb} now e)) =
    subst (λ (x : Bool × CircuitBreaker). IsSound x.1) e
      (allow-IsSound now cb (Reachable-IsSound threshold timeout p r))
Reachable-IsSound threshold timeout p (next r (refused {cb = cb} now e)) =
    subst (λ (x : Bool × CircuitBreaker). IsSound x.1) e
      (allow-IsSound now cb (Reachable-IsSound threshold timeout p r))
Reachable-IsSound threshold timeout p (next r (settled {cb = cb} now status)) =
    settle-IsSound now status cb (Reachable-IsSound threshold timeout p r)
Reachable-IsSound threshold timeout p (next r panicked) = Reachable-IsSound threshold timeout p r

-- Two requests pass a half-open breaker before it refuses one: the first after the timeout, which
-- leaves no probe pending, and the next one.
pub two_probes :
    (cb : CircuitBreaker) (now now' now'' : ℕ)
    → cb.state ≡ state_open
    → cb.timeout < now - cb.last_failure_time
    → ((allow now cb).0 ≡ true)
      × ((allow now' (allow now cb).1).0 ≡ true)
      × ((allow now'' (allow now' (allow now cb).1).1).0 ≡ false)
unfolding allow
two_probes cb now now' now'' is_open late =
    let passed : ltb cb.timeout (now - cb.last_failure_time) ≡ true = ground arith in
    let first : allow now cb
        ≡ (true, record cb { state = state_half_open; half_open_pending = false }) =
      rw (is_open, passed) refl in
    rw (first) (refl, refl, refl)
