-- ===== src/Controller/Monitor.antt =====
-- internal/connector/controller/api_monitor.go, with the results of internal/connector/capability.go and the
-- query of alerts of monitor.go. JSON, the format of times and the clock are parameters; a time is a number of
-- seconds, and `none` is the zero time. A measured value is of any type.
use network_digital_twin_pla.Prelude.{
  ℕ, ◌-◌, String, ◌<>◌, List, [], ◌∷◌, Option, none, some, Result, ok, err, eqb, if◌then◌else◌,
  ◌==◌,
}
use network_digital_twin_pla.Prelude.Dict.{Dict}
use network_digital_twin_pla.Text.{join, decimal}
use network_digital_twin_pla.Text.Url.{encode, path_escape}
use network_digital_twin_pla.Value.{ℤ, pos, Props}
use network_digital_twin_pla.HttpClient.{Returned, response, failure, nothing, do_request}
use network_digital_twin_pla.Service.Analysis.{limit_or}
use network_digital_twin_pla.Service.Device.{LogQueryOptions}
use network_digital_twin_pla.Controller.Client.{
  ControllerClient, TokenError, FetchError, token_error, Api, ensure_token, receive, fetch,
}
use network_digital_twin_pla.Controller.Topology.{Decoders, fetch_alarms}

pub record DataPoint (F : Type 0) : Type 0 where
  pub timestamp : ℤ
  pub value : F

pub record MetricSeries (F : Type 0) : Type 0 where
  pub name : String
  pub data_points : List (DataPoint F)

pub record MetricsResult (F : Type 0) : Type 0 where
  pub device : String
  pub port : String
  pub vpn : String
  pub tunnel : String
  pub metrics : List (MetricSeries F)

-- A series as the controller sends it, with the seconds and the value of each point.
pub record MonitorRawSeries (F : Type 0) : Type 0 where
  pub metric : String
  pub raw_points : List (ℤ × F)

pub record LogResult : Type 0 where
  pub logs : List Props
  pub total_count : ℤ
  pub page_num : ℤ
  pub page_size : ℤ

pub record TopologyLiveResult : Type 0 where
  pub nodes : List Props
  pub links : List Props

-- What the bodies decode to. Of an object, `monitor_object` gives for each field, in the order in which Go
-- ranges over them, the series that the field decodes to. `log_page` has the fields of `logPageResponse`.
pub record MonitorJson (F : Type 0) : Type 0 where
  pub monitor_array : String → Option (List (MonitorRawSeries F))
  pub monitor_object : String → Option (List (Option (List (MonitorRawSeries F))))
  pub log_page : String → Option LogResult
  pub topology : String → Option TopologyLiveResult
  pub objects : String → Option (List Props)

unfoldable pub build_monitor_url : String → Dict String → String
unfolding encode
build_monitor_url base_path [] = base_path
build_monitor_url base_path (p ∷ params) = base_path <> "?" <> encode (p ∷ params)

module _ {F : Type 0} where
  points_of : List (ℤ × F) → List (DataPoint F)
  points_of [] = []
  points_of ((time, value) ∷ points) = record { timestamp = time; value = value } ∷ points_of points

  series_of : List (MonitorRawSeries F) → List (MetricSeries F)
  unfolding points_of
  series_of [] = []
  series_of (rs ∷ raw_series) =
      record { name = rs.metric; data_points = points_of rs.raw_points } ∷ series_of raw_series

  unfoldable pub build_metrics_from_array : List (MonitorRawSeries F) → String → MetricsResult F
  unfolding series_of
  build_metrics_from_array raw_series device = record {
    device = device;
    port = "";
    vpn = "";
    tunnel = "";
    metrics = series_of raw_series;
  }

  -- The first field that decodes; without one there are no series.
  unfoldable pub first_series :
      List (Option (List (MonitorRawSeries F))) → List (MonitorRawSeries F)
  first_series [] = []
  first_series (some series ∷ fields) = series
  first_series (none ∷ fields) = first_series fields

  unfoldable pub parse_monitor_response : MonitorJson F → String → String → Option (MetricsResult F)
  unfolding build_metrics_from_array first_series
  parse_monitor_response json device body =
      if body == ""
      then some (build_metrics_from_array [] device)
      else elim (json.monitor_array body) [
        | some raw_series ↦ some (build_metrics_from_array raw_series device)
        | none ↦ elim (json.monitor_object body) [
          | none ↦ none
          | some fields ↦ some (build_metrics_from_array (first_series fields) device)
        ]
      ]

-- The time range of a log query: the last hour, where no start is given.
abbrev pub log_range : ℕ → Option ℕ → Option ℕ → Option ℕ × Option ℕ
log_range now none end = (some (now - 3600), some now)
log_range now (some start) none = (some start, some now)
log_range now (some start) (some end) = (some start, some end)

module _ {E F : Type 0} (api : Api E) (json : MonitorJson F)
    (format_monitor_time : Option ℕ → String) where
  -- What a method gives, from the clock before and after its request for a token.
  abbrev Method : Type 0 → Type 0
  Method A = ℕ → ℕ → ControllerClient → Result (FetchError E) A × ControllerClient

  -- The parameters of all queries of metrics.
  abbrev metric_params : String → List String → Option ℕ → Option ℕ → Dict String → Dict String
  metric_params namespace metrics start end dimensions =
      ("namespace", namespace)
      ∷ ("metricNames", join metrics ",")
      ∷ ("startTime", format_monitor_time start)
      ∷ ("endTime", format_monitor_time end)
      ∷ dimensions

  abbrev fetched :
      (MetricsResult F → MetricsResult F)
      → Result (FetchError E) (MetricsResult F) × ControllerClient
      → Result (FetchError E) (MetricsResult F) × ControllerClient
  fetched f (err e, c) = (err e, c)
  fetched f (ok r, c) = (ok (f r), c)

  unfoldable pub fetch_device_metrics :
      String → List String → Option ℕ → Option ℕ → Method (MetricsResult F)
  unfolding fetch parse_monitor_response build_monitor_url
  fetch_device_metrics device metrics start end = fetch api (parse_monitor_response json device) (
      build_monitor_url "/monitor/controller/history" (metric_params "system" metrics start end []))

  unfoldable pub fetch_port_metrics :
      String → String → List String → Option ℕ → Option ℕ → Method (MetricsResult F)
  unfolding fetch parse_monitor_response build_monitor_url
  fetch_port_metrics device port metrics start end now later c =
      let path = build_monitor_url "/monitor/switch/history" (
        metric_params "port" metrics start end (
          ("dimensions.0.name", "switch")
          ∷ ("dimensions.0.value", device)
          ∷ ("dimensions.1.name", "port")
          ∷ ("dimensions.1.value", port)
          ∷ [])) in
      fetched (λ r. record r { port = port })
        (fetch api (parse_monitor_response json device) path now later c)

  unfoldable pub fetch_vpn_traffic :
      String → List String → Option ℕ → Option ℕ → Method (MetricsResult F)
  unfolding fetch parse_monitor_response build_monitor_url
  fetch_vpn_traffic vpn_id metrics start end now later c =
      let path = build_monitor_url "/monitor/vpn/history" (
        metric_params "traffic" metrics start end
          (("dimensions.0.name", "vpnId") ∷ ("dimensions.0.value", vpn_id) ∷ [])) in
      fetched (λ r. record r { vpn = vpn_id })
        (fetch api (parse_monitor_response json "") path now later c)

  unfoldable pub fetch_tunnel_traffic :
      String → String → List String → Option ℕ → Option ℕ → Method (MetricsResult F)
  unfolding fetch parse_monitor_response build_monitor_url
  fetch_tunnel_traffic device tunnel metrics start end now later c =
      let path = build_monitor_url "/monitor/te/history" (
        metric_params "traffic" metrics start end (
          ("dimensions.0.name", "deviceName")
          ∷ ("dimensions.0.value", device)
          ∷ ("dimensions.1.name", "tunnelName")
          ∷ ("dimensions.1.value", tunnel)
          ∷ [])) in
      fetched (λ r. record r { tunnel = tunnel })
        (fetch api (parse_monitor_response json device) path now later c)

  -- The parameters of a log query; the clock is read when no end is known.
  abbrev log_params : ℕ → LogQueryOptions → Dict String
  log_params clock opts =
      let (start, end) = log_range clock opts.start_time opts.end_time in
      ("startTime", format_monitor_time start)
      ∷ ("endTime", format_monitor_time end)
      ∷ ("pageNum", decimal (limit_or 1 opts.page_num))
      ∷ ("pageSize", decimal (limit_or 20 opts.page_size))
      ∷ []

  unfoldable pub fetch_system_logs : ℕ → LogQueryOptions → Method LogResult
  unfolding fetch build_monitor_url
  fetch_system_logs clock opts =
      fetch api json.log_page (build_monitor_url "/monitor/logs" (log_params clock opts))

  -- Without such logs the answer is 404, and the result is empty.
  unfoldable pub receive_login : LogQueryOptions → Returned E → Result (FetchError E) LogResult
  unfolding receive
  receive_login opts (response resp) =
      if eqb resp.status_code 404
      then ok (record {
        logs = [];
        total_count = pos 0;
        page_num = pos (limit_or 1 opts.page_num);
        page_size = pos (limit_or 20 opts.page_size);
      })
      else receive api json.log_page (response resp)
  receive_login opts (failure e) = receive api json.log_page (failure e)
  receive_login opts nothing = receive api json.log_page nothing

  unfoldable pub send_login :
      String
      → LogQueryOptions
      → Result (TokenError E) (Unit {0}) × ControllerClient
      → Result (FetchError E) LogResult × ControllerClient
  unfolding receive_login
  send_login path opts (err e, c) = (err (token_error e), c)
  send_login path opts (ok _, c) = (receive_login opts (do_request (api.get c.auth_token path)), c)

  unfoldable pub fetch_login_logs : ℕ → LogQueryOptions → Method LogResult
  unfolding ensure_token send_login build_monitor_url
  fetch_login_logs clock opts now later c =
      send_login (build_monitor_url "/monitor/logs/login" (log_params clock opts)) opts
        (ensure_token api now later c)

  unfoldable pub fetch_logs : ℕ → String → LogQueryOptions → Method LogResult
  unfolding fetch_system_logs fetch_login_logs
  fetch_logs clock log_type opts =
      if log_type == "login" then fetch_login_logs clock opts else fetch_system_logs clock opts

  unfoldable pub fetch_topology : Method TopologyLiveResult
  unfolding fetch
  fetch_topology = fetch api json.topology "/api/sr/config/network-topology:network-topology"

  unfoldable pub fetch_topology_nodes : Method (List Props)
  unfolding fetch
  fetch_topology_nodes =
      fetch api json.objects "/api/sr/config/network-topology:network-topology/nodes"

  unfoldable pub fetch_topology_links : Method (List Props)
  unfolding fetch
  fetch_topology_links =
      fetch api json.objects "/api/sr/config/network-topology:network-topology/links"

  unfoldable pub fetch_link_metrics : Method (List Props)
  unfolding fetch
  fetch_link_metrics =
      fetch api json.objects "/api/sr/config/network-topology:network-topology/links-metrics"

  unfoldable pub fetch_l2_links : String → Method (List Props)
  unfolding fetch path_escape
  fetch_l2_links topology_name = fetch api json.objects (
      "/api/sr/config/network-topology:network-topology/topology/"
      <> path_escape topology_name
      <> "/l2link")

  -- `QueryAlerts` of the connector passes on neither argument.
  unfoldable pub query_alerts : {P : Type 0} → Decoders P → String → String → Method (List Props)
  unfolding fetch_alarms
  query_alerts decoders namespace interval = fetch_alarms api decoders
