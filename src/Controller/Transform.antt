-- ===== src/Controller/Transform.antt =====
-- internal/connector/controller/transform.go, and internal/connector/netbox/transform.go.
pub mod Enums
use network_digital_twin_pla.Prelude.{
  ℕ, zero, suc, ◌+◌, String, ◌<>◌, List, [], ◌∷◌, Option, none, some, if◌then◌else◌, ◌==◌,
}
use network_digital_twin_pla.Prelude.Dict.{Dict, lookup, insert}
use network_digital_twin_pla.Value.{
  ℤ, pos, int_text, int_native, Value, null, str, int, float64, array, object, Values, end, item,
  Fields, no_field, field, Props,
}
use network_digital_twin_pla.Text.{replace_all}
use network_digital_twin_pla.Text.Scan.{to_lower, cut}

-- What a type assertion finds.
abbrev pub as_string : Option Value → Option String
as_string (some (str s)) = some s
as_string _ = none

unfoldable pub as_object : Option Value → Fields
as_object (some (object fs)) = fs
as_object _ = no_field

unfoldable pub as_array : Option Value → Values
as_array (some (array vs)) = vs
as_array _ = end

unfoldable pub field_at : String → Fields → Option Value
field_at k no_field = none
field_at k (field j v fs) = if k == j then some v else field_at k fs

abbrev pub mapped : (String → String) → Option String → Option Value
mapped f none = none
mapped f (some s) = some (str (f s))

abbrev same : String → String
same s = s

-- An assignment under the test that there is a value.
abbrev pub put : String → Option Value → Props → Props
put key none props = props
put key (some v) props = insert key v props

unfoldable pub put_all : List (String × Option Value) → Props → Props
put_all [] props = props
put_all ((key, v) ∷ entries) props = put_all entries (put key v props)

abbrev pub or_else : String → Option String → String
or_else s none = s
or_else s (some t) = t

abbrev pub bgp_state_map : Dict String
bgp_state_map =
    ("0", "Idle")
    ∷ ("1", "Connect")
    ∷ ("2", "Active")
    ∷ ("3", "OpenSent")
    ∷ ("4", "OpenConfirm")
    ∷ ("5", "Established")
    ∷ []

-- The names of the states in any case.
unfoldable pub bgp_state_name : String → String
unfolding to_lower
bgp_state_name val =
    if val == ""
    then "Connect"
    else let v = to_lower val in
      if v == "established"
      then "Established"
      else if v == "connect"
      then "Connect"
      else if v == "idle"
      then "Idle"
      else if v == "active"
      then "Active"
      else if v == "opensent"
      then "OpenSent"
      else if v == "openconfirm"
      then "OpenConfirm"
      else "Connect"

unfoldable pub map_bgp_state : String → String
unfolding bgp_state_name lookup
map_bgp_state val = or_else (bgp_state_name val) (lookup val bgp_state_map)

abbrev pub status_map : Dict String
status_map =
    ("UP", "Up")
    ∷ ("DOWN", "Down")
    ∷ ("UNKNOWN", "Down")
    ∷ ("up", "Up")
    ∷ ("down", "Down")
    ∷ ("COMPLETED", "Up")
    ∷ ("PENDING", "Down")
    ∷ ("FAILED", "Down")
    ∷ []

unfoldable pub map_status : String → String → String
unfolding lookup
map_status default_val val = or_else default_val (lookup val status_map)

unfoldable pub map_severity : String → String
unfolding lookup
map_severity val = or_else val (
    lookup val (
      ("CRITICAL", "Critical")
      ∷ ("MAJOR", "Major")
      ∷ ("MINOR", "Minor")
      ∷ ("WARNING", "Warning")
      ∷ []))

unfoldable pub map_device_type : String → String
unfolding lookup
map_device_type val =
    or_else val
      (lookup val (("PE", "Edge") ∷ ("P", "Core") ∷ ("CE", "Access") ∷ ("ASBR", "Edge") ∷ []))

-- The values of a map by a key: any, or a string. In the second, of an object in the map.
module _ (raw : Props) where
  abbrev value_at : String → Option Value
  value_at key = lookup key raw

  abbrev text_at : String → Option Value
  text_at key = mapped same (as_string (lookup key raw))

  abbrev text_by : (String → String) → String → Option Value
  text_by f key = mapped f (as_string (lookup key raw))

  abbrev text_in : String → String → Option Value
  text_in outer key = mapped same (as_string (field_at key (as_object (lookup outer raw))))

unfoldable pub transform_device : Props → Props
unfolding lookup field_at as_object
transform_device raw =
    put_all
      (("serial_number", text_at raw "name")
        ∷ ("hostname", text_at raw "name")
        ∷ ("vendor", text_at raw "vendor-id")
        ∷ ("model", text_at raw "product-name")
        ∷ ("management_ip", text_at raw "management-ip")
        ∷ ("status", text_by raw (map_status "Up") "connect-status")
        ∷ ("device_type", text_by raw map_device_type "node-type")
        ∷ ("alias", text_at raw "pe-alias")
        ∷ ("platform", text_at raw "platform-id")
        ∷ ("as_number", value_at raw "pe-as")
        ∷ ("version", text_at raw "version")
        ∷ ("pop_id", text_at raw "pop-id")
        ∷ [])
      []

unfoldable pub transform_interface : String → Props → Props
transform_interface device_name port =
    put_all
      (("device_serial", some (str device_name))
        ∷ ("if_name", text_at port "name")
        ∷ ("status", text_by port (map_status "Up") "status")
        ∷ ("bandwidth", value_at port "total-bandwidth")
        ∷ ("description", text_at port "intf-description")
        ∷ ("port_type", text_at port "port-type")
        ∷ ("port_speed", text_at port "port-speed")
        ∷ ("ipv4_address", text_at port "ipv4-addr")
        ∷ [])
      []

unfoldable pub transform_link : Props → Props
unfolding field_at as_object
transform_link raw =
    put_all
      (("link_id", text_at raw "link-id")
        ∷ ("name", text_at raw "link-id")
        ∷ ("bandwidth", value_at raw "cfg-bw")
        ∷ ("status", text_by raw (map_status "Up") "link-status")
        ∷ ("link_type", text_at raw "link-type")
        ∷ ("utilization_ratio", value_at raw "utilization-ratio")
        ∷ ("delay", value_at raw "delay")
        ∷ ("loss", value_at raw "loss")
        ∷ ("jitter", value_at raw "jitter")
        ∷ ("source_node", text_in raw "source" "source-node")
        ∷ ("source_tp", text_in raw "source" "source-tp")
        ∷ ("dest_node", text_in raw "destination" "dest-node")
        ∷ ("dest_tp", text_in raw "destination" "dest-tp")
        ∷ [])
      []

unfoldable pub transform_alarm : Props → Props
transform_alarm raw =
    put_all
      (("alarm_id", text_at raw "id")
        ∷ ("severity", text_by raw map_severity "level")
        ∷ ("message", text_at raw "msg")
        ∷ ("timestamp", text_at raw "time")
        ∷ ("source", text_at raw "source")
        ∷ ("category", text_at raw "category")
        ∷ ("component", text_at raw "component")
        ∷ ("recovery_time", value_at raw "recoveryTime")
        ∷ [])
      []

unfoldable pub normalize_vpn_topology : String → String
unfolding cut
normalize_vpn_topology val = elim (cut b':' val) [ none ↦ val | some (_, after) ↦ after ]

unfoldable pub normalize_vpn_svc_type : String → String
unfolding to_lower replace_all
normalize_vpn_svc_type val = replace_all (to_lower val) "_" "-"

unfoldable pub transform_vpn : String → Props → Props
transform_vpn vpn_type raw =
    put_all
      (("vpn_id", text_at raw "vpn-id")
        ∷ ("name", text_at raw "svc-name")
        ∷ ("svc_type", text_by raw normalize_vpn_svc_type "vpn-svc-type")
        ∷ ("tunnel_type", text_at raw "vpn-tunnel-type")
        ∷ (
          "topology",
          text_by raw normalize_vpn_topology
              (if vpn_type == "L3" then "vpn-service-topology" else "svc-topo"),
        )
        ∷ ("site_count", value_at raw "site-count")
        ∷ ("sna_count", value_at raw "sna-count")
        ∷ ("status", text_by raw (map_status "Up") "pre-create-status")
        ∷ ("create_time", text_at raw "create-time")
        ∷ ("update_time", text_at raw "update-time")
        ∷ [])
      []

-- The loop over the tunnels of a tuple, with the number and the first name so far.
count_tunnels : Values → ℕ × String → ℕ × String
unfolding field_at
count_tunnels end acc = acc
count_tunnels (item (object tunnel) tunnels) (n, name) =
    count_tunnels tunnels
      (suc n, if name == "" then or_else "" (as_string (field_at "tunnel-name" tunnel)) else name)
count_tunnels (item v tunnels) acc = count_tunnels tunnels acc

count_tuples : Values → ℕ × String → ℕ × String
unfolding count_tunnels field_at as_array
count_tuples end acc = acc
count_tuples (item (object tuple) tuples) acc =
    count_tuples tuples (count_tunnels (as_array (field_at "explicit-tunnel" tuple)) acc)
count_tuples (item v tuples) acc = count_tuples tuples acc

abbrev non_empty : String → Option Value
non_empty s = if s == "" then none else some (str s)

unfoldable pub transform_tunnel : Props → Props
unfolding count_tuples as_array field_at as_object
transform_tunnel raw =
    let (path_count, first_tunnel_name) =
      count_tuples (as_array (lookup "te-tuples" raw)) (0, "") in
    put_all
      (("tunnel_id", text_at raw "instance-id")
        ∷ ("name", text_at raw "policy-template-name")
        ∷ ("status", text_by raw (map_status "Down") "cfg-status")
        ∷ ("src_device", text_in raw "te-policy-targets" "src-device")
        ∷ ("dst_device", text_in raw "te-policy-targets" "dst-device")
        ∷ ("vpn_id", text_in raw "te-policy-targets" "l3-vpn-id")
        ∷ ("path_count", some (int int_native (pos path_count)))
        ∷ ("tunnel_name", non_empty first_tunnel_name)
        ∷ [])
      []

unfoldable pub transform_isis_peer : String → Props → Props
transform_isis_peer pe_name peer =
    insert "isis_id" (str (pe_name <> "_" <> or_else "" (as_string (lookup "system_id" peer)))) peer

abbrev pub bgp_id : String → Props → String
bgp_id pe_name peer = pe_name <> "_" <> or_else "" (as_string (lookup "peer_ip" peer))

-- `int_of_float` is the conversion of a `float64` to an `int`.
module _ (int_of_float : ℕ → ℤ) where
  unfoldable pub state_text : Value → String
  state_text (str s) = s
  state_text (int int_native n) = int_text n
  state_text (float64 x) = int_text (int_of_float x)
  state_text _ = ""

  unfoldable pub bgp_state : Option Value → Option Value
  unfolding state_text
  bgp_state none = none
  bgp_state (some v) = some (str (map_bgp_state (state_text v)))

  unfoldable pub transform_bgp_peer : String → Props → Props
  unfolding bgp_state
  transform_bgp_peer pe_name peer =
      put_all
        (("state", bgp_state (lookup "state" peer))
          ∷ ("bgp_id", some (str (bgp_id pe_name peer)))
          ∷ [])
        peer

-- The value of a field of an object in the map; nil where the object has no such field.
unfoldable pub nested : String → String → Props → Option Value
unfolding field_at
nested outer key raw = elim (lookup outer raw) [
  | some (object fs) ↦ some (elim (field_at key fs) [ none ↦ null | some v ↦ v ])
  | _ ↦ none
]

-- The transform of the NetBox connector.
unfoldable pub netbox_device : Props → Props
unfolding nested
netbox_device raw =
    put_all
      (("serial", value_at raw "serial")
        ∷ ("name", value_at raw "name")
        ∷ ("status", value_at raw "status")
        ∷ ("platform", value_at raw "platform")
        ∷ ("role", value_at raw "role")
        ∷ ("device_type", nested "device_type" "slug" raw)
        ∷ ("site", nested "site" "name" raw)
        ∷ [])
      []

unfoldable pub netbox_interface : Props → Props
unfolding nested
netbox_interface raw =
    put_all
      (("name", value_at raw "name")
        ∷ ("type", value_at raw "type")
        ∷ ("enabled", value_at raw "enabled")
        ∷ ("mtu", value_at raw "mtu")
        ∷ ("mac_address", value_at raw "mac_address")
        ∷ ("description", value_at raw "description")
        ∷ ("device_name", nested "device" "name" raw)
        ∷ [])
      []
