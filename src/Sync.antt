-- ===== src/Sync.antt =====
-- internal/service/sync_service.go. The connectors are what the registry lists and what their
-- `Collect` returns, the log is what is given to its repository. Durations, metrics and the trace
-- are left out. The graph lock makes each call one step.
pub mod Neo4j
pub mod Outcome
pub mod Incremental
use network_digital_twin_pla.Prelude.{
  ℕ, String, Bool, true, false, List, [], ◌∷◌, ◌++◌, Option, none, some, Result, ok, err, length,
  ◌==◌, if◌then◌else◌,
}
use network_digital_twin_pla.Value.{Props, Host}
use network_digital_twin_pla.Schema.Types.{SchemaError}
use network_digital_twin_pla.Schema.Registry.{Registry}
use network_digital_twin_pla.Normalizer.{Resource, NormalizedResource, normalize}
use network_digital_twin_pla.Assembler.{Relation, GraphModel, ValidationWarning, assemble}
use network_digital_twin_pla.Graph.{GraphDb}

pub record SyncResult : Type 0 where
  pub nodes_created : ℕ
  pub relations_created : ℕ
  pub orphan_edges_skipped : ℕ
  pub warnings : List ValidationWarning

pub record SyncEvent : Type 0 where
  pub action : String
  pub entity_type : String
  pub connector : String
  pub data_items : List Props  -- `Data`
  pub uris : List String
  pub relations : List Relation

-- `toServiceEvent` copies each relation of the event that the bus delivers.
copy_relations : List Relation → List Relation
copy_relations [] = []
copy_relations (r ∷ relations) =
    record { type = r.type; from = r.from; to = r.to; props = r.props } ∷ copy_relations relations

unfoldable pub to_service_event : SyncEvent → SyncEvent
unfolding copy_relations
to_service_event e = record {
  action = e.action;
  entity_type = e.entity_type;
  connector = e.connector;
  data_items = e.data_items;
  uris = e.uris;
  relations = copy_relations e.relations;
}

-- `connector.ConnectorMetadata`, as far as the sync reads it.
pub record ConnectorMetadata : Type 0 where
  pub name : String
  pub entity_types : List String

-- What the connector registry lists; whether `Get` finds a name; what `Collect` returns, `none`
-- where it fails.
pub record Connectors : Type 0 where
  pub metas : List ConnectorMetadata
  pub found : String → Bool
  pub collect : String → String → Option (List Resource)

pub data SyncError (E : Type 0) : Type 0 where
  clear_failed : E → SyncError E
  assemble_failed : SchemaError → SyncError E
  bulk_create_failed : E → SyncError E
  upsert_failed : E → SyncError E
  delete_failed : E → SyncError E
  delete_relations_failed : E → SyncError E
  unknown_action : String → SyncError E

-- `repository.SyncLogRecord` without its times.
pub record SyncLog (E : Type 0) : Type 0 where
  pub sync_type : String
  pub status : String
  pub result : Option SyncResult
  pub error : Option E

-- Step 3.
unfoldable pub collect_types : Connectors → String → List String → List Resource
collect_types cs name [] = []
collect_types cs name (et ∷ ets) =
    let rest = collect_types cs name ets in
    elim (cs.collect name et) [ none ↦ rest | some resources ↦ resources ++ rest ]

unfoldable pub collect_all : Connectors → List ConnectorMetadata → List Resource
unfolding collect_types
collect_all cs [] = []
collect_all cs (meta ∷ metas) =
    let rest = collect_all cs metas in
    if cs.found meta.name then collect_types cs meta.name meta.entity_types ++ rest else rest

-- Step 4, and step 2 of an incremental update: what cannot be normalized is skipped.
unfoldable pub normalize_all : Host → Registry → List Resource → List NormalizedResource
normalize_all host r [] = []
normalize_all host r (res ∷ resources) =
    let rest = normalize_all host r resources in
    elim (normalize host r res) [ err e ↦ rest | ok n ↦ n ∷ rest ]

-- Step 1 of an incremental update.
unfoldable pub resources_of : String → List Props → List Resource
resources_of kind [] = []
resources_of kind (props ∷ items) =
    record { kind = kind; id = ""; properties = props } ∷ resources_of kind items

abbrev pub result_of : GraphModel → List ValidationWarning → SyncResult
result_of model warnings = record {
  nodes_created = length model.nodes;
  relations_created = length model.relations;
  orphan_edges_skipped = length warnings;
  warnings = warnings;
}

abbrev pub no_result : SyncResult
no_result = record {
  nodes_created = 0;
  relations_created = 0;
  orphan_edges_skipped = 0;
  warnings = [];
}

-- What a sync leaves: its result, the graph, and the records for the log.
pub record Synced (G E : Type 0) : Type 0 where
  pub result : Result (SyncError E) SyncResult
  pub graph : G
  pub log : List (SyncLog E)

module _ {G E : Type 0} (db : GraphDb G E) (has_log : Bool) where
  -- `recordSyncLog`
  unfoldable pub record_sync_log : String → String → Option SyncResult → Option E → List (SyncLog E)
  record_sync_log sync_type status result error =
      if has_log
      then record { sync_type = sync_type; status = status; result = result; error = error } ∷ []
      else []

  module _ (host : Host) (r : Registry) where
    -- The end of `FullSync`, from what `BulkCreate` returns.
    write_done : GraphModel → List ValidationWarning → Result E (Unit {0}) × G → Synced G E
    unfolding record_sync_log
    write_done model warnings (err e, g) = record {
      result = err (bulk_create_failed e);
      graph = g;
      log = record_sync_log "full" "failed" none (some e);
    }
    write_done model warnings (ok _, g) = record {
      result = ok (result_of model warnings);
      graph = g;
      log = record_sync_log "full" "success" (some (result_of model warnings)) none;
    }

    -- From what `Assemble` returns, on the cleared graph.
    write_model : Result SchemaError (GraphModel × List ValidationWarning) → G → Synced G E
    unfolding write_done
    write_model (err e) g = record { result = err (assemble_failed e); graph = g; log = [] }
    write_model (ok (model, warnings)) g =
        write_done model warnings (db.bulk_create "default" model.nodes model.relations g)

    -- From what `ClearDB` returns.
    after_clear : Connectors → Result E (Unit {0}) × G → Synced G E
    unfolding write_model collect_all normalize_all record_sync_log
    after_clear cs (err e, g) = record {
      result = err (clear_failed e);
      graph = g;
      log = record_sync_log "full" "failed" none (some e);
    }
    after_clear cs (ok _, g) =
        write_model (assemble r (normalize_all host r (collect_all cs cs.metas))) g

    -- `FullSync`
    unfoldable pub full_sync : Connectors → G → Synced G E
    unfolding after_clear
    full_sync cs g = after_clear cs (db.clear_db "default" g)

    -- The end of an update, from what `Upsert` returns.
    upsert_done : GraphModel → List ValidationWarning → Result E (Unit {0}) × G → Synced G E
    unfolding record_sync_log
    upsert_done model warnings (err e, g) = record {
      result = err (upsert_failed e);
      graph = g;
      log = [];
    }
    upsert_done model warnings (ok _, g) = record {
      result = ok (result_of model warnings);
      graph = g;
      log = record_sync_log "incremental" "success" (some (result_of model warnings)) none;
    }

    upsert_model : Result SchemaError (GraphModel × List ValidationWarning) → G → Synced G E
    unfolding upsert_done
    upsert_model (err e) g = record { result = err (assemble_failed e); graph = g; log = [] }
    upsert_model (ok (model, warnings)) g =
        upsert_done model warnings (db.upsert "default" model.nodes model.relations g)

    update : SyncEvent → G → Synced G E
    unfolding upsert_model normalize_all resources_of
    update event g =
        upsert_model
          (assemble r (normalize_all host r (resources_of event.entity_type event.data_items))) g

    -- The two deletions: `failure` wraps the error of the driver.
    deleted : (E → SyncError E) → Result E (Unit {0}) × G → Synced G E
    unfolding record_sync_log
    deleted failure (err e, g) = record {
      result = err (failure e);
      graph = g;
      log = record_sync_log "incremental" "failed" none (some e);
    }
    deleted failure (ok _, g) = record {
      result = ok no_result;
      graph = g;
      log = record_sync_log "incremental" "success" (some no_result) none;
    }

    -- `IncrementalSync`
    unfoldable pub incremental_sync : SyncEvent → G → Synced G E
    unfolding update deleted
    incremental_sync event g =
        if event.action == "update"
        then update event g
        else if event.action == "delete"
        then deleted delete_failed (db.delete_by_uris "default" event.uris g)
        else if event.action == "delete_relation"
        then deleted delete_relations_failed (db.delete_relations "default" event.relations g)
        else record { result = err (unknown_action event.action); graph = g; log = [] }

    -- The consumer's loop over the events that the bus delivers, as `StartConsumer` handles each.
    unfoldable pub consume : List SyncEvent → G → G
    unfolding to_service_event incremental_sync
    consume [] g = g
    consume (event ∷ events) g = consume events (incremental_sync (to_service_event event) g).graph
