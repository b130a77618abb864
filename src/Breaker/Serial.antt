-- ===== src/Breaker/Serial.antt =====
-- The breaker under requests one after the other.
use network_digital_twin_pla.Prelude.{
  ℕ, suc, ◌+◌, ◌<◌, ◌≡◌, refl, inl, inr, true, List, [], ◌∷◌, arith, if◌then◌else◌, Bool-cases,
  ◌++◌, ◌∙◌, ap,
}
use network_digital_twin_pla.Breaker.{
  state_closed, state_open, CircuitBreaker, is_server_error, Request, serve, serve_all,
  new_circuit_breaker,
}
use network_digital_twin_pla.Breaker.Single.{counted, serve-success, serve-counted, serve-opened}

abbrev pub server_errors : List Request → ℕ
server_errors [] = 0
server_errors (req ∷ reqs) =
    let rest = server_errors reqs in if is_server_error req.status then suc rest else rest

serve_all-snoc :
    (reqs : List Request) (last : Request) (cb : CircuitBreaker)
    → serve_all (reqs ++ last ∷ []) cb ≡ (serve last (serve_all reqs cb)).1
unfolding serve_all
serve_all-snoc [] last cb = refl
serve_all-snoc (req ∷ reqs) last cb = serve_all-snoc reqs last (serve req cb).1

-- A closed breaker stays closed through requests whose server errors, with those counted before,
-- are fewer than the threshold, and counts all of them: a success in between resets nothing.
pub serve_all-closed :
    (reqs : List Request) (cb : CircuitBreaker)
    → cb.state ≡ state_closed
    → cb.failures + server_errors reqs < cb.threshold
    → ((serve_all reqs cb).state ≡ state_closed)
      × ((serve_all reqs cb).failures ≡ cb.failures + server_errors reqs)
      × ((serve_all reqs cb).threshold ≡ cb.threshold)
unfolding serve_all
serve_all-closed [] cb c few = (c, omega arith, refl)
serve_all-closed (req ∷ reqs) cb c few = elim (Bool-cases (is_server_error req.status)) [
  | inl bad ↦
      let some_left : suc cb.failures + server_errors reqs < cb.threshold = ground arith in
      let (s, f, t) = serve_all-closed reqs (counted req.departure cb) c some_left in
      rw (serve-counted req cb c bad (omega arith), serve_all) (s, ground arith, t)
  | inr good ↦
      let (s, f, t) = serve_all-closed reqs cb c (ground arith) in
      rw (serve-success req cb c good, serve_all) (s, ground arith, t)
]

-- A new breaker with a threshold above 0 is open after the server error that makes their number
-- reach the threshold, however many successes stood between them, and not before.
pub serve_all-opens :
    (threshold timeout : ℕ) (reqs : List Request) (last : Request)
    → suc (server_errors reqs) ≡ threshold
    → is_server_error last.status ≡ true
    → ((serve_all reqs (new_circuit_breaker threshold timeout)).state ≡ state_closed)
      × ((serve_all (reqs ++ last ∷ []) (new_circuit_breaker threshold timeout)).state ≡ state_open)
unfolding new_circuit_breaker
serve_all-opens threshold timeout reqs last enough bad =
    let cb = new_circuit_breaker threshold timeout in
    let (s, f, t) = serve_all-closed reqs cb refl (omega arith) in
    (
      s,
      ap (λ (x : CircuitBreaker). x.state) (serve_all-snoc reqs last cb)
          ∙ ap (λ (x : ℕ × CircuitBreaker). x.1.state)
              (serve-opened last (serve_all reqs cb) s bad (ground (arith, f, t))),
    )
