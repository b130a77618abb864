-- ===== src/Api/Codes.antt =====
-- The codes of all replies.
use network_digital_twin_pla.Prelude.{
  ℕ, ◌/◌, ◌≤◌, ◌≡◌, refl, inl, inr, String, List, Option, none, some, Result, ok, err, Bool-cases,
  Option-cases, Result-cases, arith, ◌||◌, ◌==◌, Bool,
}
use network_digital_twin_pla.Prelude.Dict.{Dict}
use network_digital_twin_pla.Value.{Props, Host}
use network_digital_twin_pla.Schema.Registry.{Registry}
use network_digital_twin_pla.Graph.{GraphDb}
use network_digital_twin_pla.Graph.Driver.{Param}
use network_digital_twin_pla.Text.Scan.{contains_text}
use network_digital_twin_pla.Events.{Channel, PublishError, publish}
use network_digital_twin_pla.Service.Device.{
  Connector, ServiceError, connector_not_found, other_error, error_text, query_device_info,
  query_monitor,
}
use network_digital_twin_pla.Snapshot.Diff.{SnapshotDiff}
use network_digital_twin_pla.Snapshot.Manager.{Archives, State, ManagerError}
use network_digital_twin_pla.Snapshot.Manager.Operations.{create, delete, restore, list}
use network_digital_twin_pla.Sync.{SyncError, Connectors, Synced, full_sync}
use network_digital_twin_pla.Api.Response.{Reply, ok_reply, fail, code_topology_query_failed}
use network_digital_twin_pla.Api.Device.{
  query_param, time_param, respond_device_error, respond_monitor_error, monitor_request,
  handle_device_info, handle_topology_live, handle_monitor,
}
use network_digital_twin_pla.Api.Snapshot.{
  Content, required, replied, list_snapshots, create_snapshot, delete_snapshot, restore_snapshot,
  diff_snapshots, query_audit,
}
use network_digital_twin_pla.Api.Sync.{
  action_of, full_reply, handle_full_sync, queued, handle_webhook,
}
use network_digital_twin_pla.Api.Topology.{handle_topology}

module _ {D : Type 0} where
  -- A success has the code 0, a status from 200 to 202 and a content. A failure has no content, a status from
  -- 400 on, and a code whose first three digits are the status.
  pub data IsCoded (reply : Reply D) : Type 0 where
    success :
        reply.code ≡ 0
        → 200 ≤ reply.status
        → reply.status ≤ 202
        → (d : D) → reply.content ≡ some d
        → IsCoded reply
    failure :
        reply.content ≡ none → 400 ≤ reply.status → reply.code / 1000 ≡ reply.status → IsCoded reply

  monitor_error-IsCoded : (e : ServiceError) → IsCoded (respond_monitor_error {A = D} e)
  unfolding respond_monitor_error
  monitor_error-IsCoded connector_not_found = failure refl (omega arith) refl
  monitor_error-IsCoded (other_error s) = elim (Bool-cases (contains_text s "does not support")) [
    | inl marked ↦ rw marked (failure refl (omega arith) refl)
    | inr plain ↦ rw plain (failure refl (omega arith) refl)
  ]

  device_error-IsCoded : (e : ServiceError) → IsCoded (respond_device_error {A = D} e)
  unfolding respond_device_error
  device_error-IsCoded connector_not_found = failure refl (omega arith) refl
  device_error-IsCoded (other_error s) = elim (Bool-cases (contains_text s "does not support")) [
    | inl marked ↦ rw marked (failure refl (omega arith) refl)
    | inr plain ↦ rw plain (failure refl (omega arith) refl)
  ]

  served-IsCoded :
      {E : Type 0} (f : E → Reply D) (r : Result E D)
      → ((e : E) → IsCoded (f e))
      → IsCoded (elim r [ err e ↦ f e | ok d ↦ ok_reply d ])
  served-IsCoded f (err e) h = h e
  served-IsCoded f (ok d) h = success refl (omega arith) (omega arith) d refl

module _ {A : Type 0} (quote : String → String) (connectors : Dict (Connector A))
    (params : Dict String) where
  device-IsCoded :
      (connector query_type : String)
      → IsCoded (handle_device_info quote connectors connector query_type params)
  unfolding handle_device_info
  device-IsCoded connector query_type =
      served-IsCoded respond_device_error
        (query_device_info quote connectors (record {
          connector_name = connector;
          query_type = query_type;
          device = query_param "device" params;
        }))
        device_error-IsCoded

  live-IsCoded : IsCoded (handle_topology_live quote connectors params)
  unfolding handle_topology_live
  live-IsCoded = elim (Bool-cases (query_param "connector" params == "")) [
    | inl none_ ↦ rw (handle_topology_live, none_) (failure refl (omega arith) refl)
    | inr named ↦
        rw (handle_topology_live, named)
          (served-IsCoded (λ (e : ServiceError). fail 500 code_topology_query_failed (error_text e))
            _ (λ e. failure refl (omega arith) refl))
  ]

  monitor-IsCoded :
      (parse_time : String → Option ℕ) (connector query_type : String)
      → IsCoded (handle_monitor quote connectors parse_time connector query_type params)
  unfolding handle_monitor
  monitor-IsCoded parse_time connector query_type =
      elim (Option-cases (time_param parse_time (query_param "start_time" params))) [
        | inl bad ↦ rw (handle_monitor, bad) (failure refl (omega arith) refl)
        | inr (start, read) ↦
            elim (Option-cases (time_param parse_time (query_param "end_time" params))) [
              | inl bad ↦ rw (handle_monitor, read, bad) (failure refl (omega arith) refl)
              | inr (end, read') ↦
                  rw (handle_monitor, read, read')
                    (served-IsCoded respond_monitor_error
                      (query_monitor quote connectors
                        (monitor_request connector query_type params start end))
                      monitor_error-IsCoded)
            ]
      ]

topology-IsCoded :
    (query : String → String → Dict Param → Result String (List Props)) (params : Dict String)
    → IsCoded (handle_topology query params)
unfolding handle_topology
topology-IsCoded query params =
    served-IsCoded (fail 500 code_topology_query_failed) _ (λ e. failure refl (omega arith) refl)

queued-IsCoded :
    {A : Type 0} (p : Result PublishError (Unit {0}) × Channel A) → IsCoded (queued p).0
queued-IsCoded (err e, ch) = failure refl (omega arith) refl
queued-IsCoded (ok _, ch) = success refl (omega arith) (omega arith) "event queued" refl

webhook-IsCoded : {A : Type 0} (req : Option A) (ch : Channel A) → IsCoded (handle_webhook req ch).0
unfolding handle_webhook
webhook-IsCoded none ch = failure refl (omega arith) refl
webhook-IsCoded (some event) ch = queued-IsCoded (publish event ch)

module _ {G E : Type 0} (db : GraphDb G E) (error_text : SyncError E → String) (has_log : Bool)
    (host : Host) (r : Registry) where
  full_reply-IsCoded : (s : Synced G E) → IsCoded (full_reply db error_text has_log host r s).0
  full_reply-IsCoded s = elim (Result-cases s.result) [
    | inr (e, bad) ↦ rw bad (failure refl (omega arith) refl)
    | inl (result, good) ↦ rw good (success refl (omega arith) (omega arith) _ refl)
  ]

  sync-IsCoded :
      (cs : Connectors) (req : Option String) (g : G)
      → IsCoded (handle_full_sync db error_text has_log host r cs req g).0
  unfolding handle_full_sync
  sync-IsCoded cs req g = elim (Bool-cases (action_of req == "full")) [
    | inl full ↦ rw (handle_full_sync, full) (full_reply-IsCoded (full_sync db has_log host r cs g))
    | inr other ↦ rw (handle_full_sync, other) (failure refl (omega arith) refl)
  ]

module _ {G E F X : Type 0} (db : GraphDb G E) (ar : Archives F X)
    (error_text : ManagerError E X → String) where
  -- A reply to a success has a content and the code 0.
  abbrev Succeeds : {A : Type 0} → (A → Reply Content) → Type 0
  Succeeds {A} reply = (a : A) → IsCoded (reply a)

  replied-IsCoded :
      {A : Type 0} (reply : A → Reply Content) (p : Result (ManagerError E X) A × State G F)
      → Succeeds reply
      → IsCoded (replied db ar error_text reply p).0
  replied-IsCoded reply (err e, s) h = failure refl (omega arith) refl
  replied-IsCoded reply (ok a, s) h = h a

  list-IsCoded :
      (rfc3339 : ℕ → String) (s : State G F) → IsCoded (list_snapshots db ar error_text rfc3339 s).0
  unfolding list_snapshots
  list-IsCoded rfc3339 s =
      replied-IsCoded _ (list db ar error_text s)
        (λ a. success refl (omega arith) (omega arith) _ refl)

  create-IsCoded :
      (days_before : ℕ → ℕ → ℕ) (fuel now : ℕ) (req : Option String) (s : State G F)
      → IsCoded (create_snapshot db ar error_text days_before fuel now req s).0
  unfolding create_snapshot
  create-IsCoded days_before fuel now req s = elim (Option-cases (required req)) [
    | inl none_ ↦ rw (create_snapshot, none_) (failure refl (omega arith) refl)
    | inr (name, named) ↦
        rw (create_snapshot, named)
          (replied-IsCoded _ (create db ar error_text days_before fuel now name s)
            (λ a. success refl (omega arith) (omega arith) _ refl))
  ]

  delete-IsCoded :
      (now : ℕ) (name : String) (s : State G F)
      → IsCoded (delete_snapshot db ar error_text now name s).0
  unfolding delete_snapshot
  delete-IsCoded now name s =
      replied-IsCoded _ (delete db ar error_text now name s)
        (λ a. success refl (omega arith) (omega arith) _ refl)

  restore-IsCoded :
      (now : ℕ) (req : Option String) (s : State G F)
      → IsCoded (restore_snapshot db ar error_text now req s).0
  unfolding restore_snapshot
  restore-IsCoded now req s = elim (Option-cases (required req)) [
    | inl none_ ↦ rw (restore_snapshot, none_) (failure refl (omega arith) refl)
    | inr (name, named) ↦
        rw (restore_snapshot, named)
          (replied-IsCoded _ (restore db ar error_text now name s)
            (λ a. success refl (omega arith) (omega arith) _ refl))
  ]

  diff-IsCoded :
      (diff : String → String → Result (ManagerError E X) SnapshotDiff) (params : Dict String)
      → IsCoded (diff_snapshots db ar error_text diff params)
  unfolding diff_snapshots
  diff-IsCoded diff params =
      let a = query_param "a" params in
      let b = query_param "b" params in
      elim (Bool-cases (a == "" || b == "")) [
        | inl none_ ↦ rw (diff_snapshots, none_) (failure refl (omega arith) refl)
        | inr named ↦ elim (Result-cases (diff a b)) [
          | inr (e, bad) ↦ rw (diff_snapshots, named, bad) (failure refl (omega arith) refl)
          | inl (d, good) ↦
              rw (diff_snapshots, named, good) (success refl (omega arith) (omega arith) _ refl)
        ]
      ]

  audit-IsCoded :
      (params : Dict String) (s : State G F) → IsCoded (query_audit db ar error_text params s)
  unfolding query_audit
  audit-IsCoded params s = success refl (omega arith) (omega arith) _ refl

-- Each handler for devices, monitoring, topology, synchronisation and snapshots replies with the code 0, a
-- status from 200 to 202 and a content, or else with a status from 400 on, a code whose first three digits
-- are that status, and no content, whatever the request, the connectors, the driver, the archives and the
-- state are.
pub handlers-IsCoded :
    {G E F X A B : Type 0} (db : GraphDb G E) (ar : Archives F X)
    (error_text : ManagerError E X → String) (sync_text : SyncError E → String) (host : Host)
    (r : Registry) (quote : String → String) (connectors : Dict (Connector A))
    (params : Dict String)
    → ((connector query_type : String)
        → IsCoded (handle_device_info quote connectors connector query_type params))
      × IsCoded (handle_topology_live quote connectors params)
      × ((parse_time : String → Option ℕ) (connector query_type : String)
          → IsCoded (handle_monitor quote connectors parse_time connector query_type params))
      × ((query : String → String → Dict Param → Result String (List Props))
          → IsCoded (handle_topology query params))
      × ((req : Option B) (ch : Channel B) → IsCoded (handle_webhook req ch).0)
      × ((has_log : Bool) (cs : Connectors) (req : Option String) (g : G)
          → IsCoded (handle_full_sync db sync_text has_log host r cs req g).0)
      × ((rfc3339 : ℕ → String) (s : State G F)
          → IsCoded (list_snapshots db ar error_text rfc3339 s).0)
      × ((days_before : ℕ → ℕ → ℕ) (fuel now : ℕ) (req : Option String) (s : State G F)
          → IsCoded (create_snapshot db ar error_text days_before fuel now req s).0)
      × ((now : ℕ) (name : String) (s : State G F)
          → IsCoded (delete_snapshot db ar error_text now name s).0)
      × ((now : ℕ) (req : Option String) (s : State G F)
          → IsCoded (restore_snapshot db ar error_text now req s).0)
      × ((diff : String → String → Result (ManagerError E X) SnapshotDiff)
          → IsCoded (diff_snapshots db ar error_text diff params))
      × ((s : State G F) → IsCoded (query_audit db ar error_text params s))
handlers-IsCoded db ar error_text sync_text host r quote connectors params = (
  device-IsCoded quote connectors params,
  live-IsCoded quote connectors params,
  monitor-IsCoded quote connectors params,
  λ query. topology-IsCoded query params,
  webhook-IsCoded,
  λ has_log. sync-IsCoded db sync_text has_log host r,
  list-IsCoded db ar error_text,
  create-IsCoded db ar error_text,
  delete-IsCoded db ar error_text,
  restore-IsCoded db ar error_text,
  λ diff. diff-IsCoded db ar error_text diff params,
  audit-IsCoded db ar error_text params,
)
