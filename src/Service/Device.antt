-- ===== src/Service/Device.antt =====
-- internal/service/device_service.go. A time is a number, and `none` is the zero time. The connectors are a
-- parameter, each with the capabilities that it has; `quote` is what `%q` makes of a text.
use network_digital_twin_pla.Prelude.{
  String, ◌<>◌, ℕ, List, Option, none, some, Result, ok, err, if◌then◌else◌, ◌==◌,
}
use network_digital_twin_pla.Prelude.Dict.{Dict, lookup}
use network_digital_twin_pla.Value.{ℤ, pos}

pub record MonitorRequest : Type 0 where
  pub connector_name : String
  pub query_type : String
  pub device : String
  pub port : String
  pub vpn_id : String
  pub tunnel : String
  pub metrics : List String
  pub namespace : String
  pub interval : String
  pub start_time : Option ℕ
  pub end_time : Option ℕ
  pub log_type : String

pub record LogQueryOptions : Type 0 where
  pub interval : String
  pub start_time : Option ℕ
  pub end_time : Option ℕ
  pub page_num : ℤ
  pub page_size : ℤ

pub record DeviceInfoRequest : Type 0 where
  pub connector_name : String
  pub query_type : String
  pub device : String

-- The capabilities, of capability.go; an error of a connector is its text.
pub record MonitorQuerier (A : Type 0) : Type 0 where
  pub query_device_metrics : String → List String → Option ℕ → Option ℕ → Result String A
  pub query_port_metrics : String → String → List String → Option ℕ → Option ℕ → Result String A
  pub query_vpn_traffic : String → List String → Option ℕ → Option ℕ → Result String A
  pub query_tunnel_traffic : String → String → List String → Option ℕ → Option ℕ → Result String A
  pub query_alerts : String → String → Result String A
  pub query_logs : String → LogQueryOptions → Result String A

pub record DeviceOperator (A : Type 0) : Type 0 where
  pub query_device_config : String → Result String A
  pub query_isis_neighbors : String → Result String A
  pub query_bgp_peers : String → Result String A
  pub query_vpn_config : String → Result String A
  pub query_global_route : String → Result String A
  pub query_topology_live : Result String A

pub record Connector (A : Type 0) : Type 0 where
  pub monitor : Option (MonitorQuerier A)
  pub operator : Option (DeviceOperator A)

-- An error wraps `ErrConnectorNotFound`, or is only its text.
pub data ServiceError : Type 0 where
  connector_not_found : ServiceError
  other_error : String → ServiceError

abbrev pub error_text : ServiceError → String
error_text connector_not_found = "get connector: connector not found"
error_text (other_error s) = s

abbrev pub wrapped {ℓ} : {A : Type ℓ} → String → Result String A → Result String A
wrapped prefix (ok a) = ok a
wrapped prefix (err s) = err (prefix <> s)

abbrev pub as_service_error {ℓ} : {A : Type ℓ} → Result String A → Result ServiceError A
as_service_error (ok a) = ok a
as_service_error (err s) = err (other_error s)

module _ {A : Type 0} (quote : String → String) where
  -- The switch of `QueryMonitor`.
  unfoldable pub monitor_call : MonitorQuerier A → MonitorRequest → Result String A
  monitor_call mq req =
      if req.query_type == "device"
      then wrapped "query device metrics: "
          (mq.query_device_metrics req.device req.metrics req.start_time req.end_time)
      else if req.query_type == "port"
      then wrapped "query port metrics: "
          (mq.query_port_metrics req.device req.port req.metrics req.start_time req.end_time)
      else if req.query_type == "vpn"
      then wrapped "query vpn traffic: "
          (mq.query_vpn_traffic req.vpn_id req.metrics req.start_time req.end_time)
      else if req.query_type == "tunnel"
      then wrapped "query tunnel traffic: "
          (mq.query_tunnel_traffic req.device req.tunnel req.metrics req.start_time req.end_time)
      else if req.query_type == "alerts"
      then wrapped "query alerts: " (mq.query_alerts req.namespace req.interval)
      else if req.query_type == "logs"
      then wrapped "query logs: " (
          mq.query_logs req.log_type (record {
            interval = req.interval;
            start_time = req.start_time;
            end_time = req.end_time;
            page_num = pos 0;
            page_size = pos 0;
          }))
      else err (
          "unknown monitor query_type "
          <> quote req.query_type
          <> ", expected device/port/vpn/tunnel/alerts/logs")

  -- The switch of `QueryDeviceInfo`.
  unfoldable pub device_call : DeviceOperator A → DeviceInfoRequest → Result String A
  device_call op req =
      if req.query_type == "config"
      then (op.query_device_config req.device)
      else if req.query_type == "isis"
      then (op.query_isis_neighbors req.device)
      else if req.query_type == "bgp"
      then (op.query_bgp_peers req.device)
      else if req.query_type == "vpn_config"
      then (op.query_vpn_config req.device)
      else if req.query_type == "route"
      then (op.query_global_route req.device)
      else if req.query_type == "topology"
      then op.query_topology_live
      else err ("unknown device query_type " <> quote req.query_type)

module _ {A : Type 0} (quote : String → String) (connectors : Dict (Connector A)) where
  unfoldable pub query_monitor : MonitorRequest → Result ServiceError A
  unfolding monitor_call
  query_monitor req = elim (lookup req.connector_name connectors) [
    | none ↦ err connector_not_found
    | some conn ↦ elim conn.monitor [
      | none ↦ err (
          other_error (
            ("connector " <> quote req.connector_name <> " ")
            <> ("does not support" <> " monitoring (MonitorQuerier not implemented)")))
      | some mq ↦ as_service_error (monitor_call quote mq req)
    ]
  ]

  unfoldable pub query_device_info : DeviceInfoRequest → Result ServiceError A
  unfolding device_call
  query_device_info req = elim (lookup req.connector_name connectors) [
    | none ↦ err connector_not_found
    | some conn ↦ elim conn.operator [
      | none ↦ err (
          other_error (
            ("connector " <> quote req.connector_name <> " ")
            <> ("does not support" <> " device operations (DeviceOperator not implemented)")))
      | some op ↦ as_service_error (device_call quote op req)
    ]
  ]
