-- ===== src/Controller/Client/Tokens.antt =====
-- Every request that fetches something carries a token that the client takes for good.
use network_digital_twin_pla.Prelude.{
  ℕ, ◌+◌, ◌<◌, ◌≡◌, ◌≢◌, refl, ◌⊎◌, inl, inr, String, Option, some, Result, ok, err, eqb, arith,
  Bool-cases, Option-cases, Result-cases, ◌==◌,
}
use network_digital_twin_pla.HttpClient.{Response, Returned, response, failure, nothing, do_request}
use network_digital_twin_pla.Controller.Client.{
  ControllerClient, TokenResponse, TokenError, FetchError, token_error, Api, after_seconds,
  accept_token, receive_token, encrypt_password, fetch_token_locked, token_valid, ensure_token,
  receive, send, fetch,
}

-- The HTTP client sends the token that the client keeps.
pub record IsSound (c : ControllerClient) : Type 0 where
  pub sends : c.token ≢ "" → c.auth_token ≡ c.token

module _ {E : Type 0} (api : Api E) where
  abbrev encrypted_password : ControllerClient → Result (TokenError E) String
  encrypted_password c =
      encrypt_password api.encrypt TokenError.key_length c.des_secret_key c.password

  -- A token that has come from the controller, in answer to the client's password.
  pub record IsFresh (later : ℕ) (c c' : ControllerClient) : Type 0 where
    pub answer : TokenResponse
    pub encrypted : String
    pub resp : Response
    pub accepted : encrypted_password c ≡ ok encrypted
    pub posted : do_request (api.post_token encrypted) ≡ response resp
    pub status : resp.status_code ≡ 200
    pub decoded : api.decode_token resp.body ≡ some answer
    pub not_empty : answer.access_token ≢ ""
    pub renewed : c' ≡ record c {
      token = answer.access_token;
      token_exp = after_seconds later answer.expires_in;
      auth_token = answer.access_token;
    }

  pub data Ensured (now later : ℕ) (c : ControllerClient)
      : Result (TokenError E) (Unit {0}) × ControllerClient → Type 0 where
    kept : c.token ≢ "" → now + 60 < c.token_exp → Ensured now later c (ok tt, c)
    fetched : {c' : ControllerClient} → IsFresh later c c' → Ensured now later c (ok tt, c')
    refused : {e : TokenError E} → Ensured now later c (err e, c)

  receive_token-Ensured :
      (now later : ℕ) (c : ControllerClient) (encrypted : String) (r : Returned E)
      → encrypted_password c ≡ ok encrypted
      → do_request (api.post_token encrypted) ≡ r
      → Ensured now later c (receive_token api later r c)
  unfolding receive_token accept_token
  receive_token-Ensured now later c encrypted (failure e) p q = refused
  receive_token-Ensured now later c encrypted nothing p q = refused
  receive_token-Ensured now later c encrypted (response resp) p q =
      elim (Bool-cases (eqb resp.status_code 200)) [
        | inr bad ↦ rw bad refused
        | inl good ↦ elim (Option-cases (api.decode_token resp.body)) [
          | inl undecoded ↦ rw (good, undecoded, accept_token) refused
          | inr (answer, decoded) ↦ elim (Bool-cases (answer.access_token == "")) [
            | inl empty ↦ rw (good, decoded, accept_token, empty) refused
            | inr some_token ↦
                rw (good, decoded, accept_token, some_token)
                  (fetched (record {
                    answer = answer;
                    encrypted = encrypted;
                    resp = resp;
                    accepted = p;
                    posted = q;
                    status = ground arith;
                    decoded = decoded;
                    not_empty = λ e. ground arith;
                    renewed = refl;
                  }))
          ]
        ]
      ]

  fetch_token_locked-Ensured :
      (now later : ℕ) (c : ControllerClient) → Ensured now later c (fetch_token_locked api later c)
  unfolding fetch_token_locked
  fetch_token_locked-Ensured now later c = elim (Result-cases (encrypted_password c)) [
    | inl (encrypted, e) ↦
        rw (fetch_token_locked, e)
          (receive_token-Ensured now later c encrypted (do_request (api.post_token encrypted)) e
            refl)
    | inr (bad, e) ↦ rw (fetch_token_locked, e) refused
  ]

  ensure_token-Ensured :
      (now later : ℕ) (c : ControllerClient) → Ensured now later c (ensure_token api now later c)
  unfolding ensure_token token_valid
  ensure_token-Ensured now later c = elim (Bool-cases (token_valid api now c)) [
    | inl valid ↦ rw valid (kept (λ e. ground arith) (ground arith))
    | inr stale ↦ rw stale (fetch_token_locked-Ensured now later c)
  ]

  module _ {A : Type 0} (decode : String → Option A) (path : String) where
    -- What a method that fetches does: nothing without a token, or else one request with it.
    pub data Fetched (now later : ℕ) (c : ControllerClient)
        : Result (FetchError E) A × ControllerClient → Type 0 where
      unauthorized : {e : TokenError E} → Fetched now later c (err (token_error e), c)
      authorized :
          {c' : ControllerClient}
          → c'.auth_token ≡ c'.token
          → c'.token ≢ ""
          → (((c' ≡ c) × (now + 60 < c.token_exp)) ⊎ IsFresh later c c')
          → Fetched now later c (receive api decode (do_request (api.get c'.auth_token path)), c')

    send-Fetched :
        (now later : ℕ) (c : ControllerClient)
        (r : Result (TokenError E) (Unit {0}) × ControllerClient)
        → IsSound c
        → Ensured now later c r
        → Fetched now later c (send api decode path r)
    unfolding send
    send-Fetched now later c r sound refused = unauthorized
    send-Fetched now later c r sound (kept some_token soon) =
        authorized (sound.sends some_token) some_token (inl (refl, soon))
    send-Fetched now later c r sound (fetched {c' = c'} fresh) =
        let sent : c'.auth_token ≡ c'.token = cc (fresh.renewed) in
        let some_token = λ (e : c'.token ≡ ""). fresh.not_empty (cc (fresh.renewed, e)) in
        authorized sent some_token (inr fresh)

    -- With the HTTP client sending the token of the client, a method that fetches either has no token and
    -- changes nothing, or makes its one request with a token that is not empty and has more than 60
    -- seconds left, or has just come from the controller in answer to the encrypted password. The HTTP
    -- client then still sends the token of the client.
    pub fetch-Fetched :
        (now later : ℕ) (c : ControllerClient)
        → IsSound c
        → Fetched now later c (fetch api decode path now later c)
    unfolding fetch
    fetch-Fetched now later c sound =
        send-Fetched now later c (ensure_token api now later c) sound
          (ensure_token-Ensured now later c)
