-- ===== src/Tests/Services.antt =====
-- A graph database in memory, and tests of the services on it.
use network_digital_twin_pla.Prelude.{
  ℕ, ◌≡◌, refl, ◌⊎◌, String, true, false, List, [], ◌∷◌, ◌++◌, none, some, ok, err, if◌then◌else◌,
  contains, take, drop, String-discrete, map, arith,
}
use network_digital_twin_pla.Prelude.Dict.{Dict, lookup, insert, erase, has, keys}
use network_digital_twin_pla.Value.{str, strings, object, no_field, Props, plain_host}
use network_digital_twin_pla.Assembler.{Node, Relation}
use network_digital_twin_pla.Graph.{GraphDb}
use network_digital_twin_pla.Schema.Registry.{values}
use network_digital_twin_pla.Snapshot.Audit.{new_audit_log}
use network_digital_twin_pla.Snapshot.Manager.{
  SnapshotMeta, Archives, State, ManagerError, pages, nodes_of_rows,
}
use network_digital_twin_pla.Snapshot.Manager.Operations.{create, list}
use network_digital_twin_pla.Snapshot.Manager.Listing.{
  Serves, new_meta, list-create, nodes_of_rows-append,
}
use network_digital_twin_pla.Snapshot.Manager.Paging.{pages-all}
use network_digital_twin_pla.Sync.{Connectors, SyncEvent, full_sync, incremental_sync}
use network_digital_twin_pla.Sync.Outcome.{ClearFailed, Rebuilt, full_sync_outcome}
use network_digital_twin_pla.Sync.Incremental.{Incremental, incremental_sync-Incremental}
use network_digital_twin_pla.Tests.{registry, device_resource, device_props}

abbrev pub Content : Type 0
Content = List Node × List Relation

abbrev content : String → Dict Content → Content
content db g = elim (lookup db g) [ none ↦ ([], []) | some c ↦ c ]

abbrev without : List String → List Node → List Node
without uris [] = []
without uris (n ∷ nodes) =
    if contains uris n.uri then without uris nodes else n ∷ without uris nodes

abbrev node_row : Node → Props
node_row n = ("labels", strings n.labels) ∷ ("uri", str n.uri) ∷ ("props", object no_field) ∷ []

abbrev rel_row : Relation → Props
rel_row r =
    ("type", str r.type) ∷ ("from", str r.from) ∷ ("to", str r.to) ∷ ("props", object no_field) ∷ []

-- Each logical database is an entry. No write fails.
abbrev pub memory_db : GraphDb (Dict Content) String
memory_db = record {
  bulk_create =
      λ db nodes rels g. let c = content db g in (ok tt, insert db (c.0 ++ nodes, c.1 ++ rels) g);
  upsert = λ db nodes rels g.
      let c = content db g in
      (ok tt, insert db (without (map (λ (n : Node). n.uri) nodes) c.0 ++ nodes, c.1 ++ rels) g);
  delete_relations = λ db rels g. (ok tt, g);
  delete_by_uris =
      λ db uris g. let c = content db g in (ok tt, insert db (without uris c.0, c.1) g);
  clear_db = λ db g. (ok tt, erase db g);
  clone_db = λ from to g. (ok tt, insert to (content from g) g);
  list_dbs = λ g. ok (keys g);
  has_db = λ db g. ok (has db g);
  query_nodes = λ db skip limit g. ok (take limit (drop skip (map node_row (content db g).0)));
  query_rels = λ db skip limit g. ok (take limit (drop skip (map rel_row (content db g).1)));
}

abbrev connectors : Connectors
connectors = record {
  metas = record { name = "cmdb"; entity_types = "Device" ∷ [] } ∷ [];
  found = λ name. true;
  collect = λ name et. some (device_resource ∷ []);
}

full_sync_outcome_example :
    ClearFailed memory_db true plain_host registry connectors []
      (full_sync memory_db true plain_host registry connectors [])
    ⊎ Rebuilt memory_db true plain_host registry connectors []
        (full_sync memory_db true plain_host registry connectors [])
full_sync_outcome_example = full_sync_outcome memory_db true plain_host registry connectors []

abbrev update_event : SyncEvent
update_event = record {
  action = "update";
  entity_type = "Device";
  connector = "cmdb";
  data_items = device_props ∷ [];
  uris = [];
  relations = [];
}

incremental_sync-Incremental_example :
    Incremental memory_db true plain_host registry update_event []
      (incremental_sync memory_db true plain_host registry update_event [])
incremental_sync-Incremental_example =
    incremental_sync-Incremental memory_db true plain_host registry update_event []

-- A directory in memory: an archive for each path.
abbrev pub archives : Archives (Dict (SnapshotMeta × Content)) String
archives = record {
  export_to_yaml = λ path meta nodes rels files. (ok tt, insert path (meta, (nodes, rels)) files);
  import_from_yaml =
      λ path files. elim (lookup path files) [ none ↦ err "no such file" | some a ↦ ok a.1 ];
  read_dir = λ dir files. ok (keys files);
  import_meta_only =
      λ path files. elim (lookup path files) [ none ↦ err "no such file" | some a ↦ ok a.0 ];
}

abbrev edge_node : Node
edge_node = record { labels = "Device" ∷ []; uri = "device:edge"; props = [] }

abbrev live : Dict Content
live = ("default", (edge_node ∷ [], [])) ∷ ("monday", ([], [])) ∷ []

-- After a restart: an empty cache.
abbrev started : State (Dict Content) (Dict (SnapshotMeta × Content))
started = record {
  graph = live;
  files = [];
  snap_dir = "snapshots";
  max_active = 2;
  last_access = [];
  meta_cache = [];
  cache_ready = false;
  audit_log = new_audit_log 1000;
  retention_days = 0;
}

abbrev pub text_of_error : ManagerError String String → String
text_of_error e = "failed"

abbrev same_day : ℕ → ℕ → ℕ
same_day now days = now

abbrev rows : List Props
rows = node_row edge_node ∷ []

live-Serves : Serves memory_db live rows []
unfolding lookup String-discrete
live-Serves = record { nodes = λ skip. refl; rels = λ skip. refl }

list-create_example :
    ((create memory_db archives text_of_error same_day 1 5 "tuesday" started).0
      ≡ ok (new_meta memory_db archives text_of_error same_day 5 "tuesday" started rows []))
    × ((list memory_db archives text_of_error
          (create memory_db archives text_of_error same_day 1 5 "tuesday" started).1).0
        ≡ ok (
            values (
              insert "tuesday"
                (new_meta memory_db archives text_of_error same_day 5 "tuesday" started rows [])
                [])))
list-create_example =
    list-create memory_db archives text_of_error same_day 5 "tuesday" started rows [] 1 _
      live-Serves (omega arith) (omega arith) refl refl

pages-all_example :
    pages (λ skip. memory_db.query_nodes "default" skip 500 live) nodes_of_rows 1 0
    ≡ some (ok (nodes_of_rows rows))
pages-all_example =
    pages-all (λ skip. memory_db.query_nodes "default" skip 500 live) nodes_of_rows rows
      live-Serves.nodes nodes_of_rows-append 1 0 (omega arith)
