-- ===== src/Api/Device/Outcome.antt =====
-- How the monitoring handler answers.
use network_digital_twin_pla.Prelude.{
  ℕ, ◌≡◌, ◌≢◌, refl, inl, inr, true, false, String, ◌<>◌, List, [], ◌∷◌, Option, none, some, Result,
  ok, err, Bool-cases, Option-cases, arith, All, ◌==◌, String-discrete,
}
use network_digital_twin_pla.Prelude.Dict.{Dict, lookup}
use network_digital_twin_pla.Text.Scan.{contains_text, contains_text-middle}
use network_digital_twin_pla.Service.Device.{
  MonitorQuerier, Connector, wrapped, as_service_error, monitor_call, query_monitor,
}
use network_digital_twin_pla.Value.{pos}
use network_digital_twin_pla.Api.Response.{
  Reply, ok_reply, fail, code_internal_error, code_monitor_bad_request, code_monitor_not_found,
  code_monitor_unsupported,
}
use network_digital_twin_pla.Api.Device.{
  query_param, parse_metrics, respond_monitor_error, time_param, monitor_request, handle_monitor,
}

words_test : (("does not support" <> " monitoring (MonitorQuerier not implemented)") == "") ≡ false
unfolding String-discrete
words_test = refl

words : "does not support" <> " monitoring (MonitorQuerier not implemented)" ≢ ""
words e = ground (arith, words_test)

-- A parameter for a time that is absent or that is read.
pub data IsTime (parse_time : String → Option ℕ) (v : String) : Option ℕ → Type 0 where
  absent : (v == "") ≡ true → IsTime parse_time v none
  given : {t : ℕ} → (v == "") ≡ false → parse_time v ≡ some t → IsTime parse_time v (some t)

pub data IsMalformed (parse_time : String → Option ℕ) (v : String) : Type 0 where
  malformed : (v == "") ≡ false → parse_time v ≡ none → IsMalformed parse_time v

-- How `time_param` judges a parameter.
data Judged (parse_time : String → Option ℕ) (v : String) : Type 0 where
  refused : time_param parse_time v ≡ none → IsMalformed parse_time v → Judged parse_time v
  taken :
      {t : Option ℕ}
      → time_param parse_time v ≡ some t
      → IsTime parse_time v t
      → Judged parse_time v

time_param-Judged : (parse_time : String → Option ℕ) (v : String) → Judged parse_time v
unfolding time_param
time_param-Judged parse_time v = elim (Bool-cases (v == "")) [
  | inl empty ↦ taken (rw (time_param, empty) refl) (absent empty)
  | inr filled ↦ elim (Option-cases (parse_time v)) [
    | inl bad ↦ refused (rw (time_param, filled, bad) refl) (malformed filled bad)
    | inr (t, read) ↦ taken (rw (time_param, filled, read) refl) (given filled read)
  ]
]

-- The types of queries.
abbrev pub monitor_types : List String
monitor_types = "device" ∷ "port" ∷ "vpn" ∷ "tunnel" ∷ "alerts" ∷ "logs" ∷ []

not_type : {s t : String} → (s == t) ≡ false → s ≢ t
not_type n = λ e. ground arith

module _ {A : Type 0} (quote : String → String) (connectors : Dict (Connector A))
    (parse_time : String → Option ℕ) (connector query_type : String) (params : Dict String) where
  abbrev param : String → String
  param key = query_param key params

  abbrev metrics : List String
  metrics = parse_metrics (param "metrics")

  -- What the connector is asked for each type of query, and what it answers; the text of a failure says what
  -- was asked. Any other type asks for nothing, and is a failure.
  pub data Asked (mq : MonitorQuerier A) (start end : Option ℕ) : Result String A → Type 0 where
    device_metrics :
        {r : Result String A}
        → query_type ≡ "device"
        → wrapped "query device metrics: "
            (mq.query_device_metrics (param "device") metrics start end)
          ≡ r
        → Asked mq start end r
    port_metrics :
        {r : Result String A}
        → query_type ≡ "port"
        → wrapped "query port metrics: "
            (mq.query_port_metrics (param "device") (param "port") metrics start end)
          ≡ r
        → Asked mq start end r
    vpn_traffic :
        {r : Result String A}
        → query_type ≡ "vpn"
        → wrapped "query vpn traffic: " (mq.query_vpn_traffic (param "vpn_id") metrics start end)
          ≡ r
        → Asked mq start end r
    tunnel_traffic :
        {r : Result String A}
        → query_type ≡ "tunnel"
        → wrapped "query tunnel traffic: "
            (mq.query_tunnel_traffic (param "device") (param "tunnel") metrics start end)
          ≡ r
        → Asked mq start end r
    alerts :
        {r : Result String A}
        → query_type ≡ "alerts"
        → wrapped "query alerts: " (mq.query_alerts (param "namespace") (param "interval")) ≡ r
        → Asked mq start end r
    logs :
        {r : Result String A}
        → query_type ≡ "logs"
        → wrapped "query logs: " (
            mq.query_logs (param "log_type") (record {
              interval = param "interval";
              start_time = start;
              end_time = end;
              page_num = pos 0;
              page_size = pos 0;
            }))
          ≡ r
        → Asked mq start end r
    unknown :
        {msg : String}
        → All (λ (t : String). query_type ≢ t) monitor_types
        → Asked mq start end (err msg)

  -- How `QueryMonitor` of the service ends, for two times.
  pub data Served (start end : Option ℕ) : Reply A → Type 0 where
    missing :
        {msg : String}
        → lookup connector connectors ≡ none
        → Served start end (fail 404 code_monitor_not_found msg)
    incapable :
        {conn : Connector A} {msg : String}
        → lookup connector connectors ≡ some conn
        → conn.monitor ≡ none
        → Served start end (fail 501 code_monitor_unsupported msg)
    answered :
        {conn : Connector A} {mq : MonitorQuerier A} {a : A}
        → lookup connector connectors ≡ some conn
        → conn.monitor ≡ some mq
        → Asked mq start end (ok a)
        → Served start end (ok_reply a)
    failed :
        {conn : Connector A} {mq : MonitorQuerier A} {msg : String}
        → lookup connector connectors ≡ some conn
        → conn.monitor ≡ some mq
        → Asked mq start end (err msg)
        → contains_text msg "does not support" ≡ false
        → Served start end (fail 500 code_internal_error msg)
    -- The text of a failure may have the words that mark a missing capability.
    misread :
        {conn : Connector A} {mq : MonitorQuerier A} {msg : String}
        → lookup connector connectors ≡ some conn
        → conn.monitor ≡ some mq
        → Asked mq start end (err msg)
        → contains_text msg "does not support" ≡ true
        → Served start end (fail 501 code_monitor_unsupported msg)

  pub data Outcome : Reply A → Type 0 where
    bad_start :
        {msg : String}
        → IsMalformed parse_time (query_param "start_time" params)
        → Outcome (fail 400 code_monitor_bad_request msg)
    bad_end :
        {msg : String}
        → IsMalformed parse_time (query_param "end_time" params)
        → Outcome (fail 400 code_monitor_bad_request msg)
    served :
        {start end : Option ℕ} {reply : Reply A}
        → IsTime parse_time (query_param "start_time" params) start
        → IsTime parse_time (query_param "end_time" params) end
        → Served start end reply
        → Outcome reply

  monitor_call-Asked :
      (mq : MonitorQuerier A) (start end : Option ℕ)
      → Asked mq start end
          (monitor_call quote mq (monitor_request connector query_type params start end))
  unfolding monitor_call
  monitor_call-Asked mq start end = elim (Bool-cases (query_type == "device")) [
    | inl t ↦ rw (monitor_call, t) (device_metrics (ground arith) refl)
    | inr n1 ↦ elim (Bool-cases (query_type == "port")) [
      | inl t ↦ rw (monitor_call, n1, t) (port_metrics (ground arith) refl)
      | inr n2 ↦ elim (Bool-cases (query_type == "vpn")) [
        | inl t ↦ rw (monitor_call, n1, n2, t) (vpn_traffic (ground arith) refl)
        | inr n3 ↦ elim (Bool-cases (query_type == "tunnel")) [
          | inl t ↦ rw (monitor_call, n1, n2, n3, t) (tunnel_traffic (ground arith) refl)
          | inr n4 ↦ elim (Bool-cases (query_type == "alerts")) [
            | inl t ↦ rw (monitor_call, n1, n2, n3, n4, t) (alerts (ground arith) refl)
            | inr n5 ↦ elim (Bool-cases (query_type == "logs")) [
              | inl t ↦ rw (monitor_call, n1, n2, n3, n4, n5, t) (logs (ground arith) refl)
              | inr n6 ↦
                  rw (monitor_call, n1, n2, n3, n4, n5, n6)
                    (unknown (
                      not_type n1,
                      (not_type n2, (not_type n3, (not_type n4, (not_type n5, (not_type n6, tt))))),
                    ))
            ]
          ]
        ]
      ]
    ]
  ]

  respond-Served :
      {start end : Option ℕ} {conn : Connector A} {mq : MonitorQuerier A} (r : Result String A)
      → lookup connector connectors ≡ some conn
      → conn.monitor ≡ some mq
      → Asked mq start end r
      → Served start end
          (elim (as_service_error r) [ err e ↦ respond_monitor_error e | ok a ↦ ok_reply a ])
  unfolding respond_monitor_error
  respond-Served (ok a) found able e = answered found able e
  respond-Served (err msg) found able e = elim (Bool-cases (contains_text msg "does not support")) [
    | inl marked ↦ rw marked (misread found able e marked)
    | inr plain ↦ rw plain (failed found able e plain)
  ]

  query_monitor-Served :
      (start end : Option ℕ)
      → Served start end
          (elim (query_monitor quote connectors
            (monitor_request connector query_type params start end)) [
              | err e ↦ respond_monitor_error e
              | ok a ↦ ok_reply a
            ])
  unfolding query_monitor respond_monitor_error
  query_monitor-Served start end = elim (Option-cases (lookup connector connectors)) [
    | inl none_ ↦ rw (query_monitor, none_) (missing none_)
    | inr (conn, found) ↦ elim (Option-cases conn.monitor) [
      | inl unable ↦
          let marked =
            contains_text-middle ("connector " <> quote connector <> " ") "does not support"
              " monitoring (MonitorQuerier not implemented)" words in
          rw (query_monitor, found, unable, marked) (incapable found unable)
      | inr (mq, able) ↦
          rw (query_monitor, found, able)
            (respond-Served
              (monitor_call quote mq (monitor_request connector query_type params start end)) found
              able (monitor_call-Asked mq start end))
    ]
  ]

  -- `QueryMonitor` answers 400 for a time that is given and malformed; 404 for a connector that is not
  -- registered; 501 for one that does not query monitoring data; 200 with what the connector has answered to
  -- the query of the request's type; and for a failing query, or an unknown type, 500, but 501 where the
  -- text of the error has the words `does not support`.
  pub handle_monitor-Outcome :
      Outcome (handle_monitor quote connectors parse_time connector query_type params)
  unfolding handle_monitor
  handle_monitor-Outcome = elim (time_param-Judged parse_time (query_param "start_time" params)) [
    | refused none_ bad ↦ rw (handle_monitor, none_) (bad_start bad)
    | taken {t = start} some_ read ↦
        elim (time_param-Judged parse_time (query_param "end_time" params)) [
          | refused none_ bad ↦ rw (handle_monitor, some_, none_) (bad_end bad)
          | taken {t = end} some' read' ↦
              rw (handle_monitor, some_, some') (served read read' (query_monitor-Served start end))
        ]
  ]
