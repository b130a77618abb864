-- ===== src/Snapshot/Manager/Comparing.antt =====
-- internal/snapshot/manager.go: `Diff`, which compares two snapshots in the database. What a query answers on
-- the graph is a parameter.
pub mod Rows
pub mod Queries
pub mod Outcome
use network_digital_twin_pla.Prelude.{
  ℕ, String, List, [], ◌∷◌, some, Result, ok, err, ◌>>=◌, wrap_err, if◌then◌else◌,
}
use network_digital_twin_pla.Prelude.Dict.{Dict, lookup}
use network_digital_twin_pla.Value.{str, Props, Host}
use network_digital_twin_pla.Graph.{GraphDb}
use network_digital_twin_pla.Graph.Driver.{Param, text}
use network_digital_twin_pla.Snapshot.Diff.{
  NodeChange, RelChange, SnapshotDiff, Comparison, compare_props, is_change,
}
use network_digital_twin_pla.Snapshot.Manager.{
  Archives, State, ManagerError, any_to_string_slice, extract_props, nodes_of_rows, rels_of_rows,
}
use network_digital_twin_pla.Snapshot.Manager.Operations.{ensure_loaded}

pub data ComparingError (E X : Type 0) : Type 0 where
  ensure_loaded_a ensure_loaded_b : ManagerError E X → ComparingError E X
  added_nodes_failed removed_nodes_failed added_rels_failed removed_rels_failed changed_nodes_failed
        changed_rels_failed :
      E → ComparingError E X

abbrev pub missing_nodes_query : String
missing_nodes_query =
    "MATCH (n) WHERE n._db = $_db AND NOT EXISTS { MATCH (m {_db: $other, uri: n.uri}) } RETURN labels(n) AS labels, n.uri AS uri, properties(n) AS props"

abbrev pub missing_rels_query : String
missing_rels_query =
    "MATCH (src)-[r]->(dst) WHERE src._db = $_db AND NOT EXISTS { MATCH (otherSrc {_db: $other, uri: src.uri})-[r2]->(otherDst {_db: $other, uri: dst.uri}) WHERE type(r2) = type(r) } RETURN type(r) AS type, src.uri AS from, dst.uri AS to, properties(r) AS props"

abbrev pub changed_nodes_query : String
changed_nodes_query =
    "MATCH (a {_db: $a}) MATCH (b {_db: $b}) WHERE a.uri = b.uri AND labels(a) = labels(b) WITH a, b, [k IN keys(a) WHERE k <> '_db' AND a[k] <> b[k]] AS diffKeys WHERE size(diffKeys) > 0 RETURN a.uri AS uri, labels(a) AS labels, properties(a) AS aProps, properties(b) AS bProps"

abbrev pub changed_rels_query : String
changed_rels_query =
    "MATCH (sa)-[ra]->(ea), (sb)-[rb]->(eb) WHERE sa._db = $a AND sb._db = $b AND sa.uri = sb.uri AND ea.uri = eb.uri AND type(ra) = type(rb) WITH ra, rb, [k IN keys(ra) WHERE ra[k] <> rb[k]] AS diffKeys WHERE size(diffKeys) > 0 RETURN type(ra) AS type, startNode(ra).uri AS from, endNode(ra).uri AS to, properties(ra) AS aProps, properties(rb) AS bProps"

-- `row[key].(string)`, with the empty string where the assertion fails.
abbrev string_at : String → Props → String
string_at key row = elim (lookup key row) [ some (str s) ↦ s | _ ↦ "" ]

-- The last of the labels, the most specific one.
pub last_label : List String → String
last_label [] = ""
last_label (label ∷ []) = label
last_label (label ∷ next ∷ labels) = last_label (next ∷ labels)

module _ (host : Host) where
  abbrev compared : Props → Comparison host
  compared row =
      compare_props host (extract_props (lookup "aProps" row)) (extract_props (lookup "bProps" row))

  unfoldable pub node_changes : List Props → List NodeChange
  unfolding compare_props extract_props any_to_string_slice last_label
  node_changes [] = []
  node_changes (row ∷ rows) =
      let rest = node_changes rows in
      let c = compared row in
      if is_change host c
      then record {
        uri = string_at "uri" row;
        label = last_label (any_to_string_slice (lookup "labels" row));
        added_fields = c.added;
        removed_fields = c.removed;
        modified_fields = c.modified;
      }
        ∷ rest
      else rest

  unfoldable pub rel_changes : List Props → List RelChange
  unfolding compare_props extract_props
  rel_changes [] = []
  rel_changes (row ∷ rows) =
      let rest = rel_changes rows in
      let c = compared row in
      if is_change host c
      then record {
        type = string_at "type" row;
        from = string_at "from" row;
        to = string_at "to" row;
        added_fields = c.added;
        removed_fields = c.removed;
        modified_fields = c.modified;
      }
        ∷ rest
      else rest

  module _ {E : Type 0} (X : Type 0)
      (query : String → String → Dict Param → Result E (List Props)) where
    -- The six queries on a graph with both snapshots.
    unfoldable pub diff_loaded : String → String → Result (ComparingError E X) SnapshotDiff
    unfolding nodes_of_rows rels_of_rows node_changes rel_changes
    diff_loaded a b = do
      added_nodes ←
          wrap_err added_nodes_failed (query b missing_nodes_query (("other", text a) ∷ []))
      removed_nodes ←
          wrap_err removed_nodes_failed (query a missing_nodes_query (("other", text b) ∷ []))
      added_rels ← wrap_err added_rels_failed (query b missing_rels_query (("other", text a) ∷ []))
      removed_rels ←
          wrap_err removed_rels_failed (query a missing_rels_query (("other", text b) ∷ []))
      changed_nodes ←
          wrap_err changed_nodes_failed
            (query b changed_nodes_query (("a", text a) ∷ ("b", text b) ∷ []))
      changed_rels ←
          wrap_err changed_rels_failed
            (query b changed_rels_query (("a", text a) ∷ ("b", text b) ∷ []))
      ok (record {
        added_nodes = nodes_of_rows added_nodes;
        removed_nodes = nodes_of_rows removed_nodes;
        added_rels = rels_of_rows added_rels;
        removed_rels = rels_of_rows removed_rels;
        changed_nodes = node_changes changed_nodes;
        changed_rels = rel_changes changed_rels;
      })

module _ {G E F X : Type 0} (db : GraphDb G E) (ar : Archives F X)
    (error_text : ManagerError E X → String) (host : Host)
    (query : G → String → String → Dict Param → Result E (List Props)) where
  abbrev pub diff_after :
      String
      → String
      → Result (ManagerError E X) (Unit {0}) × State G F
      → Result (ComparingError E X) SnapshotDiff × State G F
  diff_after a b (err e, s) = (err (ensure_loaded_b e), s)
  diff_after a b (ok _, s) = (diff_loaded host X (query s.graph) a b, s)

  abbrev pub diff_with :
      ℕ
      → String
      → String
      → Result (ManagerError E X) (Unit {0}) × State G F
      → Result (ComparingError E X) SnapshotDiff × State G F
  diff_with now b a (err e, s) = (err (ensure_loaded_a e), s)
  diff_with now b a (ok _, s) = diff_after a b (ensure_loaded db ar error_text now b s)

  -- `Diff`, with the clock at each of the two loads.
  unfoldable pub diff :
      ℕ → ℕ → String → String → State G F → Result (ComparingError E X) SnapshotDiff × State G F
  unfolding ensure_loaded diff_loaded
  diff now later a b s = diff_with later b a (ensure_loaded db ar error_text now a s)
