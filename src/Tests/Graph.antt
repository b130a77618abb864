-- ===== src/Tests/Graph.antt =====
-- Tests of the graph driver, with a session that keeps the statements it is given. Maps are ranged over
-- from their end.
use mathlib.Core.List.{reverse, reverse_perm}
use network_digital_twin_pla.Prelude.{
  ℕ, suc, ◌≡◌, refl, String, true, false, some, List, [], ◌∷◌, ◌++◌, map, none, ok, err,
  String-discrete, ◌==◌, if◌then◌else◌,
}
use network_digital_twin_pla.Prelude.Dict.{Dict, lookup}
use network_digital_twin_pla.Value.{plain_host, str, strings, object, field, no_field, Props}
use network_digital_twin_pla.Assembler.{Node, most_specific_label, Relation}
use network_digital_twin_pla.Graph.Groups.{IsOrder}
use network_digital_twin_pla.Graph.Driver.{
  Statement, Session, create_text, merge_text, create_rel_text, merge_rel_text, delete_rel_text,
  create_data, merge_data, bulk_create, upsert, delete_relations,
}
use network_digital_twin_pla.Graph.Driver.Sends.{sent_rel, Sends, writes-Sends}
use network_digital_twin_pla.Graph.Client.{neo4j_client}
use network_digital_twin_pla.Sync.{Connectors, full_sync}
use network_digital_twin_pla.Sync.Neo4j.{Rewritten, full_sync-Rewritten}
use network_digital_twin_pla.Tests.{registry, device_resource}
use network_digital_twin_pla.Graph.Clone.{nodes_query, clone_db}
use network_digital_twin_pla.Graph.Clone.Copies.{Cloned, clone_db-Cloned}
use network_digital_twin_pla.Snapshot.Audit.{new_audit_log}
use network_digital_twin_pla.Snapshot.Manager.{Archives, State, ManagerError}

-- The second row has no labels.
abbrev node_rows : List Props
node_rows =
    (("labels", strings ("Resource" ∷ "Device" ∷ []))
      ∷ ("uri", str "device:a")
      ∷ ("props", object (field "_db" (str "s1") no_field))
      ∷ [])
    ∷ (("uri", str "device:b") ∷ [])
    ∷ []

abbrev pub session : Session (List Statement) String
session = record {
  read = λ st g.
      ok (record { rows = if st.cypher == nodes_query then node_rows else []; error = none });
  write = λ st g. if st.cypher == "" then (err "syntax", g) else (ok tt, g ++ st ∷ []);
}

abbrev pub range : (V : Type 0) → Dict V → Dict V
range V m = reverse m

range-IsOrder : IsOrder range
range-IsOrder V m = reverse_perm m

abbrev nodes : List Node
nodes =
    record { labels = "Resource" ∷ "Device" ∷ []; uri = "device:a"; props = [] }
    ∷ record { labels = "Resource" ∷ "Link" ∷ []; uri = "link:a"; props = [] }
    ∷ record { labels = "Resource" ∷ "Device" ∷ []; uri = "device:b"; props = [] }
    ∷ []

abbrev rels : List Relation
rels = record { type = "CONNECTS"; from = "device:a"; to = "device:b"; props = [] } ∷ []

abbrev labels_of : String → List String
labels_of label = "Resource" ∷ label ∷ []

writes-Sends_example :
    Sends session
      (bulk_create session range "default" nodes rels)
      (map (λ n. (create_text n.labels, create_data "default" n)) nodes)
      (map (sent_rel create_rel_text) rels)
    × Sends session
        (upsert session range "default" nodes rels)
        (map (λ n. (merge_text (most_specific_label n) n.labels, merge_data "default" n)) nodes)
        (map (sent_rel merge_rel_text) rels)
    × Sends session
        (delete_relations session range "default" rels)
        []
        (map (sent_rel delete_rel_text) rels)
unfolding most_specific_label
writes-Sends_example =
    writes-Sends session range range-IsOrder labels_of "default" nodes rels
      (refl, (refl, (refl, tt)))

clone_db-Cloned_example :
    Cloned session range "s1" "default" [] (clone_db session range "s1" "default" [])
clone_db-Cloned_example = clone_db-Cloned session range range-IsOrder "s1" "default" []

abbrev archives : Archives ℕ String
archives = record {
  export_to_yaml = λ path meta nodes rels files. (ok tt, suc files);
  import_from_yaml = λ path files. ok (nodes, rels);
  read_dir = λ dir files. ok [];
  import_meta_only = λ path files. err "no such file";
}

abbrev started : State (List Statement) ℕ
started = record {
  graph = [];
  files = 0;
  snap_dir = "snapshots";
  max_active = 2;
  last_access = [];
  meta_cache = [];
  cache_ready = false;
  audit_log = new_audit_log 1000;
  retention_days = 0;
}

abbrev text_of_error : ManagerError String String → String
text_of_error e = "failed"

abbrev connectors : Connectors
connectors = record {
  metas = record { name = "cmdb"; entity_types = "Device" ∷ [] } ∷ [];
  found = λ name. true;
  collect = λ name et. some (device_resource ∷ []);
}

no_nameless_type : lookup "" registry.entity_types ≡ none
unfolding lookup String-discrete
no_nameless_type = refl

full_sync-Rewritten_example :
    Rewritten session range true plain_host registry connectors []
      (full_sync (neo4j_client session range) true plain_host registry connectors [])
full_sync-Rewritten_example =
    full_sync-Rewritten session range true plain_host registry connectors range-IsOrder
      no_nameless_type []
