-- ===== src/Tests/Controller.antt =====
-- Tests of the controller's connector.
use network_digital_twin_pla.Prelude.{
  ℕ, ◌+◌, ◌%◌, ◌<◌, ◌≤◌, ◌≡◌, ◌≢◌, refl, String, false, List, [], ◌∷◌, Option, none, some, ok, All,
  length, arith, String-discrete,
}
use network_digital_twin_pla.Prelude.Dict.{lookup, insert}
use network_digital_twin_pla.Value.{
  pos, Props, str, int, int_native, object, array, field, no_field, item, end,
}
use network_digital_twin_pla.Text.Scan.{split_lines, contains_text}
use network_digital_twin_pla.Normalizer.{Resource}
use network_digital_twin_pla.HttpClient.{
  Network, do_request, back_off, judge, try_once, attempts, max_retries,
}
use network_digital_twin_pla.Controller.Parser.{parse_bgp_text, parse_isis_text, process_id}
use network_digital_twin_pla.Controller.Parser.Bgp.{Outcome, parse_bgp_text-Outcome}
use network_digital_twin_pla.Controller.Parser.Isis.{
  blocks, peers_of, HasSystem, parse_isis_text-Blocks,
}
use network_digital_twin_pla.Controller.Transform.{
  transform_device, transform_interface, transform_link, transform_alarm, transform_vpn,
  transform_tunnel, transform_bgp_peer, map_status, map_severity, put_all,
}
use network_digital_twin_pla.Controller.Transform.Enums.{
  InEnum, up_down, fsm_states, transform_InEnum,
}
use network_digital_twin_pla.Controller.Client.{ControllerClient, Api, pad, fetch, DeviceInfo}
use network_digital_twin_pla.Controller.Client.Padding.{unpad, unpad-pad}
use network_digital_twin_pla.Controller.Client.Tokens.{IsSound, Fetched, fetch-Fetched}
use network_digital_twin_pla.Controller.Collect.{
  Collection, start, Step, skips, starts, finishes, Reachable, here, next,
}
use network_digital_twin_pla.Controller.Collect.Goroutines.{all_of, Reachable-collects}
use network_digital_twin_pla.Controller.Collect.{gather_isis, gather_bgp}
use network_digital_twin_pla.Controller.Operator.{
  Rpc, fetch_isis_neighbors, fetch_bgp_peers, query_isis_neighbors, query_bgp_peers,
}
use network_digital_twin_pla.Controller.Operator.Live.{Live, query_neighbors-Live}
use network_digital_twin_pla.Controller.Monitor.{MonitorJson, parse_monitor_response}
use network_digital_twin_pla.Tests.{ne_of_test}
use mathlib.Core.List.{Perm}
use mathlib.Core.Logic.{◌⊎◌}

abbrev bgp_echo : String
bgp_echo =
    "BGP local router ID: 172.16.11.2\nLocal AS number: 137749\nPeer AS MsgRcvd MsgSent OutQ PrefRcv Up/Down State\n 1.1.1.3 137749 0 0 0 0 5523h36m Connect\n"

parse_bgp_text-Outcome_example : Outcome (split_lines bgp_echo) (parse_bgp_text "H3C" bgp_echo)
parse_bgp_text-Outcome_example = parse_bgp_text-Outcome "H3C" bgp_echo

bgp_test :
    parse_bgp_text "H3C" bgp_echo
    ≡ some (
        (("peer_ip", str "1.1.1.3")
          ∷ ("peer_as", int int_native (pos 137749))
          ∷ ("state", str "Connect")
          ∷ ("uptime", str "5523h36m")
          ∷ ("router_id", str "172.16.11.2")
          ∷ ("local_as", int int_native (pos 137749))
          ∷ [])
        ∷ [])
unfolding parse_bgp_text String-discrete contains_text
bgp_test = refl

-- A row without its state.
panic_test : parse_bgp_text "ZTE" "Peer State\n1.1.1.3 137749 0 0 0 0 5523h36m" ≡ none
unfolding parse_bgp_text String-discrete contains_text
panic_test = refl

abbrev isis_echo : String
isis_echo =
    "Peer information for IS-IS(10)\nSystem ID: NJ-R02\nState: Up     HoldTime: 25s        Type: L2\n\nState: Down\n"

parse_isis_text-Blocks_example :
    (parse_isis_text "H3C" isis_echo
      ≡ peers_of (process_id (split_lines isis_echo)) (blocks (split_lines isis_echo)))
    × All HasSystem (parse_isis_text "H3C" isis_echo)
parse_isis_text-Blocks_example = parse_isis_text-Blocks "H3C" isis_echo

isis_test :
    parse_isis_text "H3C" isis_echo
    ≡ (("system_id", str "NJ-R02")
        ∷ ("status", str "Active")
        ∷ ("holdtime", str "25s")
        ∷ ("level", str "L2")
        ∷ ("process_id", str "10")
        ∷ [])
      ∷ []
unfolding parse_isis_text String-discrete lookup insert
isis_test = refl

abbrev raw_device : Props
raw_device = ("name", str "core-1") ∷ ("connect-status", str "DOWN") ∷ ("status", str "UP") ∷ []

transform_InEnum_example :
    InEnum up_down "status" (transform_device raw_device)
    × InEnum up_down "status" (transform_interface "core-1" raw_device)
    × InEnum up_down "status" (transform_link raw_device)
    × InEnum up_down "status" (transform_vpn "L3" raw_device)
    × InEnum up_down "status" (transform_tunnel raw_device)
    × ((peer : Props) → InEnum fsm_states "state" (transform_bgp_peer (λ n. pos n) "core-1" peer))
transform_InEnum_example = transform_InEnum raw_device "core-1" "L3" (λ n. pos n)

device_test :
    transform_device raw_device
    ≡ ("serial_number", str "core-1") ∷ ("hostname", str "core-1") ∷ ("status", str "Down") ∷ []
unfolding transform_device map_status put_all lookup insert String-discrete
device_test = refl

-- The ontology has no severity of this name.
alarm_test : transform_alarm (("level", str "INFO") ∷ []) ≡ ("severity", str "INFO") ∷ []
unfolding transform_alarm map_severity put_all lookup insert String-discrete
alarm_test = refl

tunnel_test :
    transform_tunnel (
      (
        "te-tuples",
        array (
            item
              (object (
                field "explicit-tunnel"
                  (array
                    (item (object (field "tunnel-name" (str "t1") no_field)) (item (str "x") end)))
                  no_field))
              end),
      )
      ∷ [])
    ≡ ("path_count", int int_native (pos 1)) ∷ ("tunnel_name", str "t1") ∷ []
unfolding transform_tunnel put_all lookup insert String-discrete
tunnel_test = refl

abbrev password : List ℕ
password = 1 ∷ 2 ∷ []

unpad-pad_example :
    (unpad (pad password) ≡ password)
    × (length (pad password) % 8 ≡ 0)
    × (length password < length (pad password))
    × (length (pad password) ≤ length password + 8)
unpad-pad_example = unpad-pad password

pad_test : pad password ≡ 1 ∷ 2 ∷ 6 ∷ 6 ∷ 6 ∷ 6 ∷ 6 ∷ 6 ∷ []
unfolding pad
pad_test = refl

abbrev client : ControllerClient
client = record {
  des_secret_key = "9mng65v8jf4lxn93nabf981m";
  password = password;
  token = "old";
  token_exp = 100;
  auth_token = "old";
  cached_devices = [];
  cache_time = 0;
  cache_ttl = 300;
}

abbrev answering : String → Network String
answering body = record {
  done = λ attempt delay. none;
  wait = λ attempt. none;
  send = λ attempt. ok (record { status_code = 200; body = body });
  is_context_error = λ e. false;
}

abbrev api : Api String
api = record {
  encrypt = λ key bytes. key;
  post_token = λ encrypted. answering "token";
  decode_token = λ body. some (record { access_token = "new"; expires_in = pos 3600 });
  get = λ token path. answering token;
}

client-IsSound : IsSound client
client-IsSound = record { sends = λ some_token. refl }

fetch-Fetched_example :
    Fetched api
      (λ body. some body)
      "/links"
      50
      51
      client
      (fetch api (λ body. some body) "/links" 50 51 client)
fetch-Fetched_example = fetch-Fetched api (λ body. some body) "/links" 50 51 client client-IsSound

-- At 50 the old token has less than a minute left; at 30 it has more.
fetch_new_test : (fetch api (λ body. some body) "/links" 50 51 client).0 ≡ ok "new"
unfolding fetch do_request attempts try_once judge back_off max_retries String-discrete
fetch_new_test = refl

fetch_old_test : (fetch api (λ body. some body) "/links" 30 31 client).0 ≡ ok "old"
unfolding fetch do_request attempts try_once judge back_off max_retries String-discrete
fetch_old_test = refl

abbrev named : DeviceInfo
named = record { name = "core-1"; vendor = "H3C" }

abbrev nameless : DeviceInfo
nameless = record { name = ""; vendor = "ZTE" }

abbrev one_of : DeviceInfo → Option (List Resource)
one_of d = some (record { kind = "BGP"; id = d.name; properties = [] } ∷ [])

abbrev over : Collection
over = record {
  waiting = [];
  running = [];
  resources = record { kind = "BGP"; id = "core-1"; properties = [] } ∷ [];
}

core_named : ◌≢◌ {A = String} "core-1" ""
unfolding String-discrete
core_named = ne_of_test "core-1" "" refl

over-Reachable : Reachable one_of (start (nameless ∷ named ∷ [])) (some over)
over-Reachable =
    next (next (next here (skips refl)) (starts core_named (omega arith)))
      (finishes [] [] named refl refl)

Reachable-collects_example :
    (length over.running ≤ 5)
    × ((over.waiting ≢ []) ⊎ (over.running ≢ []) → (t : Option Collection) × Step one_of over t)
    × (over.waiting ≡ []
        → over.running ≡ []
        → Perm over.resources (all_of one_of (nameless ∷ named ∷ [])))
Reachable-collects_example = Reachable-collects one_of (nameless ∷ named ∷ []) over over-Reachable

abbrev rpc : Rpc String
rpc = record {
  post = λ token path body. answering isis_echo;
  decode_restconf =
      λ body. some (record { current_config_result = body; isis_neighbor_result = body });
}

abbrev device_response : String → Option (List Props)
device_response body = some ((("name", str "core-1") ∷ ("vendor-id", str "H3C") ∷ []) ∷ [])

query_neighbors-Live_example :
    Live api rpc device_response 30 31 32 33 34 "core-1"
      (fetch_isis_neighbors api rpc "core-1" 30 31 client)
      (λ d echo. some (gather_isis d echo))
      (query_isis_neighbors api rpc device_response 30 31 32 33 34 "core-1" client)
    × Live api rpc device_response 30 31 32 33 34 "core-1"
        (fetch_bgp_peers api rpc "core-1" 30 31 client)
        (gather_bgp (λ n. pos n))
        (query_bgp_peers api rpc device_response 30 31 32 33 34 (λ n. pos n) "core-1" client)
query_neighbors-Live_example =
    query_neighbors-Live api rpc device_response 30 31 32 33 34 "core-1" (λ n. pos n) client

abbrev monitor_json : MonitorJson ℕ
monitor_json = record {
  monitor_array = λ body. none;
  monitor_object = λ body.
      some (none ∷ some (record { metric = "cpu"; raw_points = (pos 1, 45) ∷ [] } ∷ []) ∷ []);
  log_page = λ body. none;
  topology = λ body. none;
  objects = λ body. none;
}

-- The first field that decodes to series.
monitor_test :
    parse_monitor_response monitor_json "r1" "{}"
    ≡ some (record {
      device = "r1";
      port = "";
      vpn = "";
      tunnel = "";
      metrics =
          record { name = "cpu"; data_points = record { timestamp = pos 1; value = 45 } ∷ [] } ∷ [];
    })
unfolding parse_monitor_response String-discrete
monitor_test = refl
