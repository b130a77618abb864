-- ===== src/Controller/Collect.antt =====
-- internal/connector/controller/controller.go: from what the client fetches to resources; `lookupVendor` of
-- operator.go; and `Collect` of internal/connector/mock/mock.go.
pub mod Goroutines
use network_digital_twin_pla.Prelude.{
  ℕ, zero, suc, ◌+◌, ◌<◌, ◌≡◌, ◌≢◌, String, ◌<>◌, List, [], ◌∷◌, ◌++◌, map, Option, none, some,
  Result, ok, err, if◌then◌else◌, ◌==◌, length,
}
use network_digital_twin_pla.Prelude.Dict.{Dict, lookup}
use network_digital_twin_pla.Text.{decimal}
use network_digital_twin_pla.Value.{
  props_of, ℤ, str, Props, Value, Values, Fields, object, array, end, item, no_field, field,
}
use network_digital_twin_pla.Normalizer.{Resource}
use network_digital_twin_pla.Controller.Parser.{parse_bgp_text, parse_isis_text}
use network_digital_twin_pla.Controller.Transform.{
  as_string, as_array, field_at, or_else, transform_device, transform_interface, transform_link,
  transform_alarm, transform_vpn, transform_tunnel, transform_isis_peer, transform_bgp_peer,
}
use network_digital_twin_pla.Controller.Client.{DeviceInfo}

abbrev text : String → Props → String
text key raw = or_else "" (as_string (lookup key raw))

-- One of the loops that make resources.
unfoldable pub resources_of : String → String → (Props → Props) → List Props → List Resource
resources_of kind id_key transform [] = []
resources_of kind id_key transform (raw ∷ raws) =
    record { kind = kind; id = text id_key raw; properties = transform raw }
    ∷ resources_of kind id_key transform raws

ports_of : String → Values → List Resource
ports_of device_name end = []
ports_of device_name (item (object port) items) =
    record {
      kind = "Interface";
      id = text "id" (props_of port);
      properties = transform_interface device_name (props_of port);
    }
    ∷ ports_of device_name items
ports_of device_name (item v items) = ports_of device_name items

unfoldable pub extract_interfaces : String → Props → List Resource
unfolding ports_of as_array field_at
extract_interfaces device_name raw = elim (lookup "peports" raw) [
  | some (object peports) ↦ ports_of device_name (as_array (field_at "peport-info" peports))
  | _ ↦ []
]

interfaces_of : List Props → List Resource
unfolding extract_interfaces
interfaces_of [] = []
interfaces_of (raw ∷ raws) = extract_interfaces (text "name" raw) raw ++ interfaces_of raws

vpns_of : List Props → List Props → List Resource
unfolding resources_of
vpns_of l3 l2 =
    resources_of "VPN" "vpn-id" (transform_vpn "L3") l3
    ++ resources_of "VPN" "vpn-id" (transform_vpn "L2") l2

-- What a method returns, from what the client has fetched.
module _ {E : Type 0} where
  collected : (List Props → List Resource) → Result E (List Props) → Result E (List Resource)
  collected make (err e) = err e
  collected make (ok raws) = ok (make raws)

  unfoldable pub collect_devices : Result E (List Props) → Result E (List Resource)
  unfolding collected resources_of
  collect_devices = collected (resources_of "Device" "id" transform_device)

  unfoldable pub collect_interfaces : Result E (List Props) → Result E (List Resource)
  unfolding collected interfaces_of
  collect_interfaces = collected interfaces_of

  unfoldable pub collect_links : Result E (List Props) → Result E (List Resource)
  unfolding collected resources_of
  collect_links = collected (resources_of "Link" "link-id" transform_link)

  unfoldable pub collect_alarms : Result E (List Props) → Result E (List Resource)
  unfolding collected resources_of
  collect_alarms = collected (resources_of "Alarm" "id" transform_alarm)

  unfoldable pub collect_tunnels : Result E (List Props) → Result E (List Resource)
  unfolding collected resources_of
  collect_tunnels = collected (resources_of "Tunnel" "instance-id" transform_tunnel)

  -- One list that fails is left out, unless the other has no VPN.
  unfoldable pub collect_vpns :
      Result E (List Props) → Result E (List Props) → Result E (List Resource)
  unfolding vpns_of
  collect_vpns (ok l3) (ok l2) = ok (vpns_of l3 l2)
  collect_vpns (ok []) (err e) = err e
  collect_vpns (ok (raw ∷ raws)) (err e) = ok (vpns_of (raw ∷ raws) [])
  collect_vpns (err e) (ok []) = err e
  collect_vpns (err e) (ok (raw ∷ raws)) = ok (vpns_of [] (raw ∷ raws))
  collect_vpns (err e) (err e') = err e

unfoldable pub lookup_vendor : List DeviceInfo → String → String
lookup_vendor [] device_name = "unknown"
lookup_vendor (d ∷ devices) device_name =
    if d.name == device_name then d.vendor else lookup_vendor devices device_name

unfoldable pub peers_of : String → String → (Props → Props) → List Props → List Resource
peers_of kind id_key transform [] = []
peers_of kind id_key transform (peer ∷ peers) =
    let props = transform peer in
    record { kind = kind; id = text id_key props; properties = props }
    ∷ peers_of kind id_key transform peers

-- A goroutine of `collectISIS`, from the text that the client fetches, `none` for an error.
unfoldable pub gather_isis : DeviceInfo → Option String → List Resource
unfolding peers_of
gather_isis d none = []
gather_isis d (some echo) =
    peers_of "ISIS" "isis_id" (transform_isis_peer d.name) (parse_isis_text d.vendor echo)

-- A goroutine of `collectBGP`; `none` is a panic.
unfoldable pub gather_bgp : (ℕ → ℤ) → DeviceInfo → Option String → Option (List Resource)
unfolding peers_of
gather_bgp int_of_float d none = some []
gather_bgp int_of_float d (some echo) = elim (parse_bgp_text d.vendor echo) [
  | none ↦ none
  | some peers ↦ some (peers_of "BGP" "bgp_id" (transform_bgp_peer int_of_float d.name) peers)
]

-- The devices that wait for a goroutine, those with one, and what has been appended.
pub record Collection : Type 0 where
  pub waiting : List DeviceInfo
  pub running : List DeviceInfo
  pub resources : List Resource

abbrev pub start : List DeviceInfo → Collection
start devices = record { waiting = devices; running = []; resources = [] }

-- The steps of `collectISIS` and `collectBGP`, where `gather` is what a goroutine makes of a device.
-- `none` is the end of the process by a panic.
module _ (gather : DeviceInfo → Option (List Resource)) where
  pub data Step : Collection → Option Collection → Type 0 where
    -- The loop goes past a device without a name.
    skips :
        {d : DeviceInfo} {ds running : List DeviceInfo} {rs : List Resource}
        → d.name ≡ ""
        → Step
            (record { waiting = d ∷ ds; running = running; resources = rs })
            (some (record { waiting = ds; running = running; resources = rs }))
    -- It takes one of the five places, and starts a goroutine.
    starts :
        {d : DeviceInfo} {ds running : List DeviceInfo} {rs : List Resource}
        → d.name ≢ ""
        → length running < 5
        → Step
            (record { waiting = d ∷ ds; running = running; resources = rs })
            (some (record { waiting = ds; running = d ∷ running; resources = rs }))
    -- A goroutine appends what it has, and gives its place back.
    finishes :
        {waiting running : List DeviceInfo} {rs got : List Resource}
        → (before after : List DeviceInfo) → (d : DeviceInfo) → running ≡ before ++ d ∷ after
        → gather d ≡ some got
        → Step
            (record { waiting = waiting; running = running; resources = rs })
            (some (record { waiting = waiting; running = before ++ after; resources = rs ++ got }))
    panics :
        {waiting running : List DeviceInfo} {rs : List Resource}
        → (before after : List DeviceInfo) → (d : DeviceInfo) → running ≡ before ++ d ∷ after
        → gather d ≡ none
        → Step (record { waiting = waiting; running = running; resources = rs }) none

  pub data Reachable (s : Collection) : Option Collection → Type 0 where
    here : Reachable s (some s)
    next :
        {t : Collection} {u : Option Collection} → Reachable s (some t) → Step t u → Reachable s u

-- The mock connector: the entries of a file, with an identity from their number where they have none.
unfoldable pub mock_resources : String → ℕ → List Props → List Resource
mock_resources entity_type i [] = []
mock_resources entity_type i (raw ∷ raws) =
    let id = text "id" raw in
    record {
      kind = entity_type;
      id = if id == "" then entity_type <> "-" <> decimal i else id;
      properties = raw;
    }
    ∷ mock_resources entity_type (suc i) raws
