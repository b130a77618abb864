-- ===== src/Controller/Topology.antt =====
-- internal/connector/controller/api_topology.go: the methods with their paths. JSON is a parameter.
use network_digital_twin_pla.Prelude.{ℕ, String, ◌<>◌, List, [], Option, some, Result, ok, err}
use network_digital_twin_pla.Text.{decimal}
use network_digital_twin_pla.Value.{Props, Fields}
use network_digital_twin_pla.HttpClient.{Returned, do_request}
use network_digital_twin_pla.Controller.Client.{
  ControllerClient, TokenError, FetchError, token_error, Api, ensure_token, fetch, VpnPage,
  paginate_vpn,
}

-- The bodies that the methods decode, into lists of JSON objects and pages.
pub record Decoders (P : Type 0) : Type 0 where
  pub device_response : String → Option (List Props)
  pub objects : String → Option (List Props)
  pub alarm_response : String → Option (List Props)
  pub paged_result : String → Option P
  pub vpn_page_response : String → Option VpnPage

module _ {E P : Type 0} (api : Api E) (json : Decoders P) where
  -- What a method gives, from the clock before and after its request for a token.
  abbrev Method : Type 0 → Type 0
  Method A = ℕ → ℕ → ControllerClient → Result (FetchError E) A × ControllerClient

  unfoldable pub fetch_devices : Method (List Props)
  unfolding fetch
  fetch_devices = fetch api json.device_response "/api/no/config/terra-pe:peInfos/peInfos"

  unfoldable pub fetch_devices_paged : ℕ → ℕ → Method P
  unfolding fetch
  fetch_devices_paged page size = fetch api json.paged_result (
      "/api/no/config/terra-pe:peInfos/page?pageNumber="
      <> decimal page
      <> "&pageSize="
      <> decimal size)

  unfoldable pub fetch_pop_list : Method (List Props)
  unfolding fetch
  fetch_pop_list = fetch api json.objects "/api/no/config/terra-pe:peInfos/popInfos"

  unfoldable pub fetch_vendors : Method (List Props)
  unfolding fetch
  fetch_vendors = fetch api json.objects "/api/no/config/terra-pe:peInfos/getAllVendorProdModel"

  unfoldable pub fetch_links : Method (List Props)
  unfolding fetch
  fetch_links =
      fetch api json.objects "/api/sr/config/network-topology:network-topology/topology/linksInfo"

  unfoldable pub fetch_alarms : Method (List Props)
  unfolding fetch
  fetch_alarms = fetch api json.alarm_response "/monitor/alert/list?namespace=business&interval=1h"

  unfoldable pub fetch_tunnels : Method (List Props)
  unfolding fetch
  fetch_tunnels = fetch api json.objects "/api/sr/config/terra-te-svc:te-policy-instance/all"

  -- The pages, from what `ensureToken` returns; `none` is out of fuel.
  unfoldable pub fetch_vpn_pages :
      ℕ
      → String
      → Result (TokenError E) (Unit {0}) × ControllerClient
      → Option (Result (FetchError E) (List Fields)) × ControllerClient
  unfolding paginate_vpn
  fetch_vpn_pages fuel base_url (err e, c) = (some (err (token_error e)), c)
  fetch_vpn_pages fuel base_url (ok _, c) =
      let get : String → Returned E = λ path. do_request (api.get c.auth_token path) in
      (paginate_vpn get json.vpn_page_response fuel base_url 0 [], c)

  unfoldable pub fetch_l3_vpns :
      ℕ → ℕ → ℕ → ControllerClient → Option (Result (FetchError E) (List Fields)) × ControllerClient
  unfolding fetch_vpn_pages ensure_token
  fetch_l3_vpns fuel now later c =
      fetch_vpn_pages fuel "/api/no/config/ietf-l3vpn-ntw:l3vpn-ntw/page"
        (ensure_token api now later c)

  unfoldable pub fetch_l2_vpns :
      ℕ → ℕ → ℕ → ControllerClient → Option (Result (FetchError E) (List Fields)) × ControllerClient
  unfolding fetch_vpn_pages ensure_token
  fetch_l2_vpns fuel now later c =
      fetch_vpn_pages fuel "/api/no/config/ietf-l2vpn-svc:l2vpn-svc/page"
        (ensure_token api now later c)
