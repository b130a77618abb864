-- ===== src/Api/Device.antt =====
-- internal/api/handlers/device.go and the live topology of topology.go. The query parameters of a request
-- are a map, and `parse_time` is `time.Parse` for RFC 3339.
pub mod Outcome
use network_digital_twin_pla.Prelude.{
  ℕ, String, ◌<>◌, List, [], ◌∷◌, Option, none, some, Result, ok, err, if◌then◌else◌, ◌==◌,
}
use network_digital_twin_pla.Prelude.Dict.{Dict, lookup}
use network_digital_twin_pla.Text.Scan.{contains_text, trim_space, split_on}
use network_digital_twin_pla.Service.Device.{
  MonitorRequest, DeviceInfoRequest, Connector, ServiceError, connector_not_found, other_error,
  error_text, query_monitor, query_device_info,
}
use network_digital_twin_pla.Api.Response.{
  Reply, ok_reply, fail, code_internal_error, code_topology_bad_request, code_topology_query_failed,
  code_device_not_found, code_device_unsupported, code_monitor_bad_request, code_monitor_not_found,
  code_monitor_unsupported,
}

-- `c.Query`
abbrev pub query_param : String → Dict String → String
query_param key params = elim (lookup key params) [ none ↦ "" | some s ↦ s ]

non_empty : List String → List String
unfolding trim_space
non_empty [] = []
non_empty (v ∷ vs) =
    let rest = non_empty vs in if trim_space v == "" then rest else trim_space v ∷ rest

unfoldable pub parse_metrics : String → List String
unfolding non_empty split_on
parse_metrics s = non_empty (split_on b',' s)

module _ {A : Type 0} where
  unfoldable pub respond_device_error : ServiceError → Reply A
  unfolding contains_text
  respond_device_error connector_not_found =
      fail 404 code_device_not_found (error_text connector_not_found)
  respond_device_error (other_error s) =
      if contains_text s "does not support"
      then fail 501 code_device_unsupported s
      else fail 500 code_internal_error s

  unfoldable pub respond_monitor_error : ServiceError → Reply A
  unfolding contains_text
  respond_monitor_error connector_not_found =
      fail 404 code_monitor_not_found (error_text connector_not_found)
  respond_monitor_error (other_error s) =
      if contains_text s "does not support"
      then fail 501 code_monitor_unsupported s
      else fail 500 code_internal_error s

-- A time among the parameters: absent, read, or malformed.
unfoldable pub time_param : (String → Option ℕ) → String → Option (Option ℕ)
time_param parse_time v =
    if v == "" then some none else elim (parse_time v) [ none ↦ none | some t ↦ some (some t) ]

abbrev pub monitor_request : String → String → Dict String → Option ℕ → Option ℕ → MonitorRequest
monitor_request connector query_type params start end = record {
  connector_name = connector;
  query_type = query_type;
  device = query_param "device" params;
  port = query_param "port" params;
  vpn_id = query_param "vpn_id" params;
  tunnel = query_param "tunnel" params;
  metrics = parse_metrics (query_param "metrics" params);
  namespace = query_param "namespace" params;
  interval = query_param "interval" params;
  start_time = start;
  end_time = end;
  log_type = query_param "log_type" params;
}

module _ {A : Type 0} (quote : String → String) (connectors : Dict (Connector A)) where
  unfoldable pub handle_device_info : String → String → Dict String → Reply A
  unfolding query_device_info respond_device_error
  handle_device_info connector query_type params =
      elim (query_device_info quote connectors (record {
        connector_name = connector;
        query_type = query_type;
        device = query_param "device" params;
      })) [ err e ↦ respond_device_error e | ok a ↦ ok_reply a ]

  unfoldable pub handle_topology_live : Dict String → Reply A
  unfolding query_device_info
  handle_topology_live params =
      let connector = query_param "connector" params in
      if connector == ""
      then fail 400 code_topology_bad_request "connector query param is required"
      else elim (query_device_info quote connectors
          (record { connector_name = connector; query_type = "topology"; device = "" })) [
            | err e ↦ fail 500 code_topology_query_failed (error_text e)
            | ok a ↦ ok_reply a
          ]

  unfoldable pub handle_monitor : (String → Option ℕ) → String → String → Dict String → Reply A
  unfolding query_monitor respond_monitor_error time_param
  handle_monitor parse_time connector query_type params =
      elim (time_param parse_time (query_param "start_time" params)) [
        | none ↦ fail 400 code_monitor_bad_request "invalid start_time format, expected RFC3339"
        | some start ↦ elim (time_param parse_time (query_param "end_time" params)) [
          | none ↦ fail 400 code_monitor_bad_request "invalid end_time format, expected RFC3339"
          | some end ↦
              elim (query_monitor quote connectors
                (monitor_request connector query_type params start end)) [
                  | err e ↦ respond_monitor_error e
                  | ok a ↦ ok_reply a
                ]
        ]
      ]
