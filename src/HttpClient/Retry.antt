-- ===== src/HttpClient/Retry.antt =====
-- What `Do` returns, of its answers alone.
use network_digital_twin_pla.Prelude.{
  ℕ, zero, suc, ◌+◌, ◌≤◌, ◌<◌, ◌≡◌, refl, ◌≢◌, ◌⊎◌, inl, inr, true, false, none, some, ok, err,
  Bool-cases, Option-cases, Result-cases, sym, leb, arith,
}
use network_digital_twin_pla.HttpClient.{
  Response, HttpError, context_error, rate_limiter, transport, server_error, Returned, response,
  failure, nothing, Network, back_off, judge, try_once, attempts, do_request, max_retries,
}
use mathlib.Core.Path.{subst}

module _ {E : Type 0} (net : Network E) where
  -- The attempt gets as far as its request.
  pub record IsSent (attempt : ℕ) : Type 0 where
    pub slept : back_off net attempt ≡ none
    pub admitted : net.wait attempt ≡ none

  -- The attempt ends with an error after which another may help: the request got lost, the context
  -- not being at fault, or met a server error.
  pub data Transient (attempt : ℕ) : HttpError E → Type 0 where
    lost :
        {e : E}
        → IsSent attempt
        → net.send attempt ≡ err e
        → net.is_context_error e ≡ false
        → Transient attempt (transport e)
    refused :
        {resp : Response}
        → IsSent attempt
        → net.send attempt ≡ ok resp
        → 500 ≤ resp.status_code
        → Transient attempt (server_error resp.status_code)

  -- The attempt ends `Do`.
  pub data Final (attempt : ℕ) : Returned E → Type 0 where
    answered :
        {resp : Response}
        → IsSent attempt
        → net.send attempt ≡ ok resp
        → resp.status_code < 500
        → Final attempt (response resp)
    cancelled :
        {e : E}
        → IsSent attempt
        → net.send attempt ≡ err e
        → net.is_context_error e ≡ true
        → Final attempt (failure (transport e))
    out_of_time :
        {e : E} → back_off net attempt ≡ some e → Final attempt (failure (context_error e))
    limited :
        {e : E}
        → back_off net attempt ≡ none
        → net.wait attempt ≡ some e
        → Final attempt (failure (rate_limiter e))

  -- The attempts from `first` on, before `bound`, all end in a transient error.
  abbrev pub AllTransient : ℕ → ℕ → Type 0
  AllTransient first bound = (j : ℕ) → first ≤ j → j < bound → (e : HttpError E) × Transient j e

  -- The results of attempts from `first` on, before `bound`: that of the first attempt that is final,
  -- or else the error of the last one.
  pub data Outcome (first bound : ℕ) : Returned E → Type 0 where
    settled :
        {r : Returned E}
        → (k : ℕ) → first ≤ k
        → k < bound
        → AllTransient first k
        → Final k r
        → Outcome first bound r
    exhausted :
        {e : HttpError E}
        → (k : ℕ) → first ≤ k
        → suc k ≡ bound
        → AllTransient first k
        → Transient k e
        → Outcome first bound (failure e)

  judge-cases :
      (j : ℕ)
      → IsSent j
      → ((r : Returned E) × ((judge net (net.send j) ≡ ok r) × Final j r))
        ⊎ ((e : HttpError E) × ((judge net (net.send j) ≡ err e) × Transient j e))
  unfolding judge
  judge-cases j sent = elim (Result-cases (net.send j)) [
    | inl (resp, e) ↦ elim (Bool-cases (leb 500 resp.status_code)) [
      | inl bad ↦
          inr (
            server_error resp.status_code,
            (rw (e, judge, bad) refl, refused sent e (ground arith)),
          )
      | inr good ↦ inl (response resp, (rw (e, judge, good) refl, answered sent e (ground arith)))
    ]
    | inr (x, e) ↦ elim (Bool-cases (net.is_context_error x)) [
      | inl at_fault ↦
          inl (failure (transport x), (rw (e, judge, at_fault) refl, cancelled sent e at_fault))
      | inr other ↦ inr (transport x, (rw (e, judge, other) refl, lost sent e other))
    ]
  ]

  try_once-cases :
      (j : ℕ)
      → ((r : Returned E) × ((try_once net j ≡ ok r) × Final j r))
        ⊎ ((e : HttpError E) × ((try_once net j ≡ err e) × Transient j e))
  unfolding try_once
  try_once-cases j = elim (Option-cases (back_off net j)) [
    | inl slept ↦ elim (Option-cases (net.wait j)) [
      | inl admitted ↦
          rw (try_once, slept, admitted)
            (judge-cases j (record { slept = slept; admitted = admitted }))
      | inr (e, refusal) ↦
          inl
            (failure (rate_limiter e), (rw (try_once, slept, refusal) refl, limited slept refusal))
    ]
    | inr (e, over) ↦ inl (failure (context_error e), (rw (try_once, over) refl, out_of_time over))
  ]

  AllTransient-suc :
      (first bound : ℕ) (e : HttpError E)
      → Transient first e
      → AllTransient (suc first) bound
      → AllTransient first bound
  AllTransient-suc first bound e here later j low high = elim (Bool-cases (leb j first)) [
    | inl eq ↦ let same : first ≡ j = ground arith in (e, rw (sym same) here)
    | inr above ↦ later j (ground arith) high
  ]

  Outcome-suc :
      (first bound : ℕ) (e : HttpError E) (r : Returned E)
      → Transient first e
      → Outcome (suc first) bound r
      → Outcome first bound r
  Outcome-suc first bound e r here (settled k low high before final) =
      settled k (omega arith) high (AllTransient-suc first k e here before) final
  Outcome-suc first bound e r here (exhausted k low end before last) =
      exhausted k (omega arith) end (AllTransient-suc first k e here before) last

  none_before : (first : ℕ) → AllTransient first first
  none_before first j low high = absurd (omega (arith, low, high))

  settled_here :
      (first left : ℕ) (r : Returned E) → Final first r → Outcome first (suc left + first) r
  settled_here first left r final =
      settled first (omega arith) (omega arith) (none_before first) final

  last_error :
      (first : ℕ) (e : HttpError E) → Transient first e → Outcome first (1 + first) (failure e)
  last_error first e transient =
      exhausted first (omega arith) (omega arith) (none_before first) transient

  attempts-Outcome :
      (left first : ℕ) (last : Returned E)
      → Outcome first (suc left + first) (attempts net (suc left) first last)
  unfolding attempts
  attempts-Outcome zero first last = elim (try_once-cases first) [
    | inl (r, (e, final)) ↦ rw (e, attempts) (settled_here first 0 r final)
    | inr (x, (e, transient)) ↦ rw (e, attempts) (last_error first x transient)
  ]
  attempts-Outcome (suc left) first last = elim (try_once-cases first) [
    | inl (r, (e, final)) ↦ rw (e, attempts) (settled_here first (suc left) r final)
    | inr (x, (e, transient)) ↦
        let same : suc left + suc first ≡ suc (suc left) + first = omega arith in
        let more = attempts-Outcome left (suc first) (failure x) in
        rw (e, attempts)
          (Outcome-suc first (suc (suc left) + first) x
            (attempts net (suc left) (suc first) (failure x)) transient
            (subst (λ b. Outcome (suc first) b (attempts net (suc left) (suc first) (failure x)))
              same more))
  ]

  Final-something : (j : ℕ) (r : Returned E) → Final j r → r ≢ nothing
  Final-something j r (answered sent e h) p = ground arith
  Final-something j r (cancelled sent e h) p = ground arith
  Final-something j r (out_of_time e) p = ground arith
  Final-something j r (limited slept e) p = ground arith

  Outcome-something : (first bound : ℕ) (r : Returned E) → Outcome first bound r → r ≢ nothing
  Outcome-something first bound r (settled k low high before final) p = Final-something k r final p
  Outcome-something first bound r (exhausted k low end before last) p = ground arith

  -- `Do` makes at most four attempts. It returns what the first attempt gives that is not a
  -- transient error, and where all four end in one, the error of the last; it never returns a nil
  -- response with a nil error.
  pub do_request-Outcome : Outcome 0 4 (do_request net) × (do_request net ≢ nothing)
  unfolding do_request max_retries
  do_request-Outcome =
      let o = attempts-Outcome 3 0 nothing in
      (o, Outcome-something 0 4 (attempts net 4 0 nothing) o)
