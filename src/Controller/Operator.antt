-- ===== src/Controller/Operator.antt =====
-- internal/connector/controller/operator.go with api_config.go, and the path detail of api_srte.go. A request
-- that runs on a device is a value, which the network and JSON take as they are.
pub mod Live
use network_digital_twin_pla.Prelude.{
  ℕ, Bool, true, String, ◌<>◌, List, [], ◌∷◌, map, Option, none, some, Result, ok, err,
}
use network_digital_twin_pla.Text.Url.{path_escape}
use network_digital_twin_pla.Value.{ℤ, str, Props, Value}
use network_digital_twin_pla.HttpClient.{Network, do_request}
use network_digital_twin_pla.Controller.Parser.{parse_bgp_text, parse_isis_text}
use network_digital_twin_pla.Controller.Transform.{transform_isis_peer, transform_bgp_peer}
use network_digital_twin_pla.Controller.Client.{
  DeviceInfo, ControllerClient, TokenError, FetchError, token_error, Api, ensure_token, receive,
  fetch, get_devices,
}
use network_digital_twin_pla.Controller.Collect.{lookup_vendor}

-- The bodies of the requests; a process has a number, and `verbose` is a flag.
pub data RpcRequest : Type 0 where
  isis_request : String → ℕ → Bool → String → RpcRequest
  bgp_request : String → String → RpcRequest
  restconf_request : String → RpcRequest

-- `restconfResponse`
pub record RestconfOutput : Type 0 where
  pub current_config_result : String
  pub isis_neighbor_result : String

-- Requests to run on a device, with a token, a path and a body, and what their answers decode to.
pub record Rpc (E : Type 0) : Type 0 where
  pub post : String → String → RpcRequest → Network E
  pub decode_restconf : String → Option RestconfOutput

module _ {E : Type 0} (api : Api E) (rpc : Rpc E) where
  -- What a method gives, from the clock before and after its request for a token.
  abbrev Method : Type 0 → Type 0
  Method A = ℕ → ℕ → ControllerClient → Result (FetchError E) A × ControllerClient

  abbrev decode_field : (RestconfOutput → String) → String → Option String
  decode_field field_ body = elim (rpc.decode_restconf body) [
    | none ↦ none
    | some out ↦ some (field_ out)
  ]

  unfoldable pub send_rpc :
      String
      → RpcRequest
      → (RestconfOutput → String)
      → Result (TokenError E) (Unit {0}) × ControllerClient
      → Result (FetchError E) String × ControllerClient
  unfolding receive
  send_rpc path body field_ (err e, c) = (err (token_error e), c)
  send_rpc path body field_ (ok _, c) =
      (receive api (decode_field field_) (do_request (rpc.post c.auth_token path body)), c)

  unfoldable pub fetch_isis_neighbors : String → Method String
  unfolding send_rpc ensure_token
  fetch_isis_neighbors pe_name now later c =
      send_rpc "/restconf/operations/oper-rpc:isis-neighbor" (isis_request pe_name 10 true "isis")
        (λ out. out.isis_neighbor_result) (ensure_token api now later c)

  unfoldable pub fetch_bgp_peers : String → Method String
  unfolding send_rpc ensure_token
  fetch_bgp_peers pe_name now later c =
      send_rpc "/restconf/operations/oper-rpc:bgp-peer-config" (bgp_request pe_name "IPv4")
        (λ out. out.current_config_result) (ensure_token api now later c)

  unfoldable pub fetch_vpn_config : String → Method String
  unfolding send_rpc ensure_token
  fetch_vpn_config pe_name now later c =
      send_rpc "/restconf/operations/oper-rpc:vpn-config" (restconf_request pe_name)
        (λ out. out.current_config_result) (ensure_token api now later c)

  unfoldable pub fetch_current_config : String → Method String
  unfolding send_rpc ensure_token
  fetch_current_config pe_name now later c =
      send_rpc "/restconf/operations/oper-rpc:current-config" (restconf_request pe_name)
        (λ out. out.current_config_result) (ensure_token api now later c)

  unfoldable pub fetch_global_route : String → Method String
  unfolding send_rpc ensure_token
  fetch_global_route pe_name now later c =
      send_rpc "/restconf/operations/oper-rpc:global-route" (restconf_request pe_name)
        (λ out. out.current_config_result) (ensure_token api now later c)

  -- A text under a key, with its device.
  abbrev labelled :
      {A : Type 0}
      → (Props → A)
      → String
      → String
      → Result (FetchError E) String × ControllerClient
      → Result (FetchError E) A × ControllerClient
  labelled f key device (err e, c) = (err e, c)
  labelled f key device (ok echo, c) = (ok (f ((key, str echo) ∷ ("device", str device) ∷ [])), c)

  unfoldable pub query_device_config : String → Method Props
  unfolding fetch_current_config
  query_device_config device now later c =
      labelled (λ props. props) "config" device (fetch_current_config device now later c)

  unfoldable pub query_vpn_config : String → Method Props
  unfolding fetch_vpn_config
  query_vpn_config device now later c =
      labelled (λ props. props) "config" device (fetch_vpn_config device now later c)

  unfoldable pub query_global_route : String → Method (List Props)
  unfolding fetch_global_route
  query_global_route device now later c =
      labelled (λ props. props ∷ []) "route" device (fetch_global_route device now later c)

  -- The client, and the times that the clock shows: around the first request for a token, around the second
  -- one, and when the devices are stored.
  module _ (device_response : String → Option (List Props)) (now later now' later' stored : ℕ) where
    -- What is made of the device's vendor and its text, once both are there; `none` is a panic.
    unfoldable pub with_vendor :
        String
        → (String → String → Option (List Props))
        → Result (FetchError E) String × ControllerClient
        → Option (Result (FetchError E) (List Props) × ControllerClient)
    unfolding get_devices lookup_vendor
    with_vendor device make (err e, c) = some (err e, c)
    with_vendor device make (ok echo, c) =
        let (found, c') = get_devices api device_response now' later' stored c in
        elim found [
          | err e ↦ some (err e, c')
          | ok devices ↦ elim (make (lookup_vendor devices device) echo) [
            | none ↦ none
            | some result ↦ some (ok result, c')
          ]
        ]

    unfoldable pub query_isis_neighbors :
        String → ControllerClient → Option (Result (FetchError E) (List Props) × ControllerClient)
    unfolding with_vendor fetch_isis_neighbors parse_isis_text
    query_isis_neighbors device c =
        with_vendor device
          (λ vendor echo. some (map (transform_isis_peer device) (parse_isis_text vendor echo)))
          (fetch_isis_neighbors device now later c)

    unfoldable pub query_bgp_peers :
        (ℕ → ℤ)
        → String
        → ControllerClient
        → Option (Result (FetchError E) (List Props) × ControllerClient)
    unfolding with_vendor fetch_bgp_peers parse_bgp_text
    query_bgp_peers int_of_float device c =
        with_vendor device
          (λ vendor echo. elim (parse_bgp_text vendor echo) [
            | none ↦ none
            | some peers ↦ some (map (transform_bgp_peer int_of_float device) peers)
          ])
          (fetch_bgp_peers device now later c)

  -- The body as an object, or the first element of a list of objects.
  unfoldable pub path_detail :
      (String → Option Props) → (String → Option (List Props)) → String → Option Props
  path_detail as_object as_array body = elim (as_object body) [
    | some result ↦ some result
    | none ↦ elim (as_array body) [ none ↦ none | some [] ↦ some [] | some (raw ∷ raws) ↦ some raw ]
  ]

  unfoldable pub fetch_srte_path_detail :
      (String → Option Props) → (String → Option (List Props)) → String → Method Props
  unfolding fetch path_detail path_escape
  fetch_srte_path_detail as_object as_array instance_id =
      fetch api (path_detail as_object as_array)
        ("/api/sr/config/terra-te-svc:te-policy-instance/" <> path_escape instance_id)
