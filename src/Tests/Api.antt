-- ===== src/Tests/Api.antt =====
-- Tests of the API: a connector that only queries monitoring data, and whose queries of ports fail.
use network_digital_twin_pla.Prelude.{
  ℕ, Bool, String, ◌<>◌, List, [], ◌∷◌, Option, none, some, Result, ok, err,
}
use network_digital_twin_pla.Prelude.Dict.{Dict}
use network_digital_twin_pla.Value.{plain_host, Props}
use network_digital_twin_pla.Events.{Channel}
use network_digital_twin_pla.Graph.{GraphDb}
use network_digital_twin_pla.Graph.Driver.{Param, Statement}
use network_digital_twin_pla.Graph.Client.{neo4j_client}
use network_digital_twin_pla.Snapshot.Archive.{yaml_archives}
use network_digital_twin_pla.Snapshot.Diff.{SnapshotDiff}
use network_digital_twin_pla.Snapshot.Manager.{Archives, State, ManagerError}
use network_digital_twin_pla.Sync.{SyncError, Connectors}
use network_digital_twin_pla.Tests.{registry}
use network_digital_twin_pla.Tests.Archive.{Doc, yaml}
use network_digital_twin_pla.Tests.Graph.{session, range}
use network_digital_twin_pla.Api.Codes.{IsCoded, handlers-IsCoded}
use network_digital_twin_pla.Api.Snapshot.{
  list_snapshots, create_snapshot, delete_snapshot, restore_snapshot, diff_snapshots, query_audit,
}
use network_digital_twin_pla.Api.Sync.{handle_full_sync, handle_webhook}
use network_digital_twin_pla.Api.Topology.{handle_topology}
use network_digital_twin_pla.Service.Device.{Connector}
use network_digital_twin_pla.Api.Device.{handle_device_info, handle_topology_live, handle_monitor}
use network_digital_twin_pla.Api.Device.Outcome.{Outcome, handle_monitor-Outcome}

abbrev connectors : Dict (Connector String)
connectors =
    (
      "c1",
      record {
        monitor = some (record {
          query_device_metrics = λ device metrics start end. ok device;
          query_port_metrics =
              λ device port metrics start end. err "this port does not support counters";
          query_vpn_traffic = λ vpn metrics start end. ok vpn;
          query_tunnel_traffic = λ device tunnel metrics start end. ok tunnel;
          query_alerts = λ namespace interval. ok namespace;
          query_logs = λ log_type opts. ok log_type;
        });
        operator = none;
      },
    )
    ∷ []

abbrev quote : String → String
quote s = "'" <> s <> "'"

abbrev parse_time : String → Option ℕ
parse_time s = none

abbrev params : Dict String
params = ("device", "r1") ∷ ("port", "p1") ∷ []

handle_monitor-Outcome_example :
    Outcome quote connectors parse_time "c1" "port" params
      (handle_monitor quote connectors parse_time "c1" "port" params)
handle_monitor-Outcome_example =
    handle_monitor-Outcome quote connectors parse_time "c1" "port" params

abbrev db : GraphDb (List Statement) String
db = neo4j_client session range

abbrev archives : Archives (Dict (List Doc)) String
archives = yaml_archives yaml (λ dir files. ok [])

abbrev manager_text : ManagerError String String → String
manager_text e = "snapshot"

abbrev sync_text : SyncError String → String
sync_text e = "sync"

handlers-IsCoded_example :
    ((connector query_type : String)
      → IsCoded (handle_device_info quote connectors connector query_type params))
    × IsCoded (handle_topology_live quote connectors params)
    × ((parse_time : String → Option ℕ) (connector query_type : String)
        → IsCoded (handle_monitor quote connectors parse_time connector query_type params))
    × ((query : String → String → Dict Param → Result String (List Props))
        → IsCoded (handle_topology query params))
    × ((req : Option ℕ) (ch : Channel ℕ) → IsCoded (handle_webhook req ch).0)
    × ((has_log : Bool) (cs : Connectors) (req : Option String) (g : List Statement)
        → IsCoded (handle_full_sync db sync_text has_log plain_host registry cs req g).0)
    × ((rfc3339 : ℕ → String) (s : State (List Statement) (Dict (List Doc)))
        → IsCoded (list_snapshots db archives manager_text rfc3339 s).0)
    × ((days_before : ℕ → ℕ → ℕ) (fuel now : ℕ) (req : Option String)
          (s : State (List Statement) (Dict (List Doc)))
        → IsCoded (create_snapshot db archives manager_text days_before fuel now req s).0)
    × ((now : ℕ) (name : String) (s : State (List Statement) (Dict (List Doc)))
        → IsCoded (delete_snapshot db archives manager_text now name s).0)
    × ((now : ℕ) (req : Option String) (s : State (List Statement) (Dict (List Doc)))
        → IsCoded (restore_snapshot db archives manager_text now req s).0)
    × ((diff : String → String → Result (ManagerError String String) SnapshotDiff)
        → IsCoded (diff_snapshots db archives manager_text diff params))
    × ((s : State (List Statement) (Dict (List Doc)))
        → IsCoded (query_audit db archives manager_text params s))
handlers-IsCoded_example =
    handlers-IsCoded {B = ℕ} db archives manager_text sync_text plain_host registry quote connectors
      params
