-- ===== src/Controller/Client.antt =====
-- internal/connector/controller: client.go and the fetch methods of api_topology.go. A time is a number
-- of seconds. The cipher, the network and JSON are parameters; a method reads the clock once before and
-- once after its request for a token.
pub mod Padding
pub mod Tokens
pub mod Vpns
use Prim.Native.String.{len}
use network_digital_twin_pla.Prelude.{
  ℕ, zero, suc, ◌+◌, ◌-◌, ◌*◌, ◌%◌, Bool, true, false, not, ◌&&◌, ◌||◌, String, ◌<>◌, List, [], ◌∷◌,
  ◌++◌, Option, none, some, Result, ok, err, length, ltb, leb, eqb, if◌then◌else◌, ◌==◌,
}
use network_digital_twin_pla.Prelude.Dict.{lookup}
use network_digital_twin_pla.Text.{decimal}
use network_digital_twin_pla.Value.{
  ℤ, pos, negsuc, Value, str, Props, Values, Fields, object, array, end, item, no_field, field,
}
use network_digital_twin_pla.HttpClient.{
  Response, HttpError, Returned, response, failure, nothing, Network, do_request,
}
use network_digital_twin_pla.Controller.Transform.{as_string, field_at}

pub record DeviceInfo : Type 0 where
  pub name : String
  pub vendor : String

-- The fields that a method changes, and those that it reads. `auth_token` is the one that the HTTP client
-- sends, in `auth.Token`.
pub record ControllerClient : Type 0 where
  pub des_secret_key : String
  pub password : List ℕ
  pub token : String
  pub token_exp : ℕ
  pub auth_token : String
  pub cached_devices : List DeviceInfo
  pub cache_time : ℕ
  pub cache_ttl : ℕ

pub record TokenResponse : Type 0 where
  pub access_token : String
  pub expires_in : ℤ

pub data TokenError (E : Type 0) : Type 0 where
  key_length : ℕ → TokenError E
  token_request : HttpError E → TokenError E
  token_status : ℕ → TokenError E
  token_decode : TokenError E
  empty_token : TokenError E
  no_answer : TokenError E

pub data FetchError (E : Type 0) : Type 0 where
  token_error : TokenError E → FetchError E
  request_failed : HttpError E → FetchError E
  bad_status : ℕ → FetchError E
  decode_failed : FetchError E
  no_page : FetchError E

repeat_byte : ℕ → ℕ → List ℕ
repeat_byte zero b = []
repeat_byte (suc n) b = b ∷ repeat_byte n b

-- The padding of `encryptPassword` to blocks of eight bytes.
unfoldable pub pad : List ℕ → List ℕ
unfolding repeat_byte
pad plaintext = let padding = 8 - length plaintext % 8 in plaintext ++ repeat_byte padding padding

-- What the standard library's cipher and Base64 make of a key and padded bytes.
module _ (encrypt : String → List ℕ → String) where
  unfoldable pub encrypt_password : {E : Type 0} → (ℕ → E) → String → List ℕ → Result E String
  unfolding pad
  encrypt_password bad secret_key plaintext =
      if eqb (len secret_key) 24
      then ok (encrypt secret_key (pad plaintext))
      else err (bad (len secret_key))

-- The network and JSON: what a request with a password gets, what one with a token and a path gets.
pub record Api (E : Type 0) : Type 0 where
  pub encrypt : String → List ℕ → String
  pub post_token : String → Network E
  pub decode_token : String → Option TokenResponse
  pub get : String → String → Network E

-- The time in `expires_in` seconds.
unfoldable pub after_seconds : ℕ → ℤ → ℕ
after_seconds now (pos n) = now + n
after_seconds now (negsuc n) = now - suc n

module _ {E : Type 0} (api : Api E) where
  -- From the decoded answer.
  unfoldable pub accept_token :
      ℕ
      → Option TokenResponse
      → ControllerClient
      → Result (TokenError E) (Unit {0}) × ControllerClient
  unfolding after_seconds
  accept_token later none c = (err token_decode, c)
  accept_token later (some resp) c = if resp.access_token == "" then (err empty_token, c) else (
    ok tt,
    record c {
      token = resp.access_token;
      token_exp = after_seconds later resp.expires_in;
      auth_token = resp.access_token;
    },
  )

  unfoldable pub receive_token :
      ℕ → Returned E → ControllerClient → Result (TokenError E) (Unit {0}) × ControllerClient
  unfolding accept_token
  receive_token later (response resp) c =
      if eqb resp.status_code 200
      then accept_token later (api.decode_token resp.body) c
      else (err (token_status resp.status_code), c)
  receive_token later (failure e) c = (err (token_request e), c)
  receive_token later nothing c = (err no_answer, c)

  unfoldable pub fetch_token_locked :
      ℕ → ControllerClient → Result (TokenError E) (Unit {0}) × ControllerClient
  unfolding encrypt_password receive_token
  fetch_token_locked later c =
      elim (encrypt_password api.encrypt key_length c.des_secret_key c.password) [
        | err e ↦ (err e, c)
        | ok encrypted ↦ receive_token later (do_request (api.post_token encrypted)) c
      ]

  -- The time before `tokenExp.Add(-60s)`.
  unfoldable pub token_valid : ℕ → ControllerClient → Bool
  token_valid now c = not (c.token == "") && ltb (now + 60) c.token_exp

  unfoldable pub ensure_token :
      ℕ → ℕ → ControllerClient → Result (TokenError E) (Unit {0}) × ControllerClient
  unfolding token_valid fetch_token_locked
  ensure_token now later c = if token_valid now c then (ok tt, c) else fetch_token_locked later c

  -- From what `Get` returns: the test of the status and the decoding.
  unfoldable pub receive : {A : Type 0} → (String → Option A) → Returned E → Result (FetchError E) A
  receive decode (response resp) =
      if eqb resp.status_code 200
      then elim (decode resp.body) [ none ↦ err decode_failed | some a ↦ ok a ]
      else err (bad_status resp.status_code)
  receive decode (failure e) = err (request_failed e)
  receive decode nothing = err no_page

  -- The request, from what `ensureToken` returns.
  unfoldable pub send :
      {A : Type 0}
      → (String → Option A)
      → String
      → Result (TokenError E) (Unit {0}) × ControllerClient
      → Result (FetchError E) A × ControllerClient
  unfolding receive
  send decode path (err e, c) = (err (token_error e), c)
  send decode path (ok _, c) = (receive decode (do_request (api.get c.auth_token path)), c)

  -- `FetchDevices`, `FetchLinks`, `FetchAlarms` and `FetchTunnels`, each with its path and its decoder.
  unfoldable pub fetch :
      {A : Type 0}
      → (String → Option A)
      → String
      → ℕ
      → ℕ
      → ControllerClient
      → Result (FetchError E) A × ControllerClient
  unfolding ensure_token send
  fetch decode path now later c = send decode path (ensure_token now later c)

  text_of : String → Props → String
  text_of key raw = elim (as_string (lookup key raw)) [ none ↦ "" | some s ↦ s ]

  device_infos : List Props → List DeviceInfo
  unfolding text_of
  device_infos [] = []
  device_infos (raw ∷ raws) =
      record { name = text_of "name" raw; vendor = text_of "vendor-id" raw } ∷ device_infos raws

  -- `getDevices`; `stored` is the time when the devices are stored.
  unfoldable pub get_devices :
      (String → Option (List Props))
      → ℕ
      → ℕ
      → ℕ
      → ControllerClient
      → Result (FetchError E) (List DeviceInfo) × ControllerClient
  unfolding fetch device_infos
  get_devices decode now later stored c =
      if ltb (now - c.cache_time) c.cache_ttl && ltb 0 (length c.cached_devices)
      then (ok c.cached_devices, c)
      else let (fetched, c') = fetch decode "/api/no/config/terra-pe:peInfos/peInfos" now later c in
        elim fetched [
          | err e ↦ (err e, c')
          | ok raws ↦
              let devices = device_infos raws in
              (ok devices, record c' { cached_devices = devices; cache_time = stored })
        ]

-- The page of VPNs that a response body stands for.
pub record VpnPage : Type 0 where
  pub total_pages : ℕ
  pub content : List Props

services_of : Values → List Fields
services_of end = []
services_of (item (object fs) vs) = fs ∷ services_of vs
services_of (item v vs) = services_of vs

unfoldable pub flatten_vpn_items : List Props → List Fields
unfolding services_of field_at
flatten_vpn_items [] = []
flatten_vpn_items (entry ∷ content) =
    let rest = flatten_vpn_items content in
    elim (lookup "vpn-services" entry) [
      | some (object services) ↦ elim (field_at "vpn-service" services) [
        | some (array vs) ↦ services_of vs ++ rest
        | _ ↦ rest
      ]
      | _ ↦ rest
    ]

module _ {E : Type 0} (get : String → Returned E) (decode : String → Option VpnPage) where
  -- A page as `paginateVPN` reads it: the status is not looked at.
  unfoldable pub vpn_page : String → ℕ → Result (FetchError E) VpnPage
  vpn_page base_url index =
      elim (get (base_url <> "?pageNo=" <> decimal index <> "&pageSize=100")) [
        | response resp ↦ elim (decode resp.body) [ none ↦ err decode_failed | some p ↦ ok p ]
        | failure e ↦ err (request_failed e)
        | nothing ↦ err no_page
      ]

  -- The loop from a page on, counted from 0; `none` is out of fuel.
  unfoldable pub paginate_vpn :
      ℕ → String → ℕ → List Fields → Option (Result (FetchError E) (List Fields))
  unfolding flatten_vpn_items vpn_page
  paginate_vpn zero base_url index all_items = none
  paginate_vpn (suc fuel) base_url index all_items = elim (vpn_page base_url index) [
    | err e ↦ some (err e)
    | ok page ↦
        let items = all_items ++ flatten_vpn_items page.content in
        let rest = paginate_vpn fuel base_url (suc index) items in
        if leb page.total_pages (suc index) || eqb (length page.content) 0
        then some (ok items)
        else rest
  ]
