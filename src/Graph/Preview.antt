-- ===== src/Graph/Preview.antt =====
-- internal/graph/neo4j.go: `BuildCypher`, which shows statements without running them.
use network_digital_twin_pla.Prelude.{String, ◌<>◌, List, [], ◌∷◌, map, if◌then◌else◌, ◌==◌}
use network_digital_twin_pla.Prelude.Dict.{Dict, insert}
use network_digital_twin_pla.Text.{join}
use network_digital_twin_pla.Value.{str, object, Props, fields_of}
use network_digital_twin_pla.Assembler.{Node, Relation}
use network_digital_twin_pla.Graph.Driver.{
  Param, text, texts, maps, join_labels, group_nodes_by_labels, group_rels_by_type, first_labels,
  parent_labels, rel_data,
}

abbrev preview_data : Node → Props
preview_data n = ("uri", str n.uri) ∷ ("props", object (fields_of n.props)) ∷ []

-- A statement, and its entry among the parameters.
abbrev Shown : Type 0
Shown = String × (String × Param)

abbrev show_nodes : (String → List Node → String) → String → List Node → Shown
show_nodes text_of label group =
    (text_of label group, ("nodes_" <> label, maps (map preview_data group)))

abbrev create_preview : String → List Node → String
create_preview label group =
    "UNWIND $nodes_"
    <> label
    <> " AS n CREATE (x"
    <> join_labels (first_labels group)
    <> " {_db: $_db, uri: n.uri}) SET x += n.props"

abbrev upsert_preview : String → List Node → String
upsert_preview label group =
    "UNWIND $nodes_"
    <> label
    <> " AS n MERGE (x:"
    <> label
    <> " {_db: $_db, uri: n.uri})"
    <> (elim (parent_labels (first_labels group)) [
      | [] ↦ ""
      | parent ∷ parents ↦ " ON CREATE SET x" <> join_labels (parent ∷ parents)
    ])
    <> " SET x += n.props"

abbrev show_rels : String → List Relation → Shown
show_rels type group = (
  "UNWIND $rels_" <> type <> " AS r MATCH (a {_db: $_db, uri: r.from})-[x:" <> type
      <> "]->(b {_db: $_db, uri: r.to}) DELETE x",
  ("rels_" <> type, maps (map rel_data group)),
)

-- The loop over the groups, with the parameters so far.
previews :
    {B : Type 0} → (String → List B → Shown) → Dict (List B) → Dict Param → List String × Dict Param
previews show [] params = ([], params)
previews show ((k, bs) ∷ groups) params =
    let (cypher, (name, sent)) = show k bs in
    let (cyphers, all) = previews show groups (insert name sent params) in (cypher ∷ cyphers, all)

abbrev joined : List String × Dict Param → String × Dict Param
joined (cyphers, params) = (join cyphers ";\n", params)

unfoldable pub build_cypher :
    ((V : Type 0) → Dict V → Dict V)
    → String
    → String
    → List Node
    → List Relation
    → List String
    → String × Dict Param
unfolding previews join group_nodes_by_labels group_rels_by_type
build_cypher range action db nodes rels uris =
    let params = ("_db", text db) ∷ [] in
    let node_groups = range (List Node) (group_nodes_by_labels nodes) in
    let rel_groups = range (List Relation) (group_rels_by_type rels) in
    if action == "create"
    then joined (previews (show_nodes create_preview) node_groups params)
    else if action == "upsert"
    then joined (previews (show_nodes upsert_preview) node_groups params)
    else if action == "delete"
    then (
      "UNWIND $uris AS uri MATCH (n {_db: $_db, uri: uri}) DETACH DELETE n",
      insert "uris" (texts uris) params,
    )
    else if action == "delete_relations"
    then joined (previews show_rels rel_groups params)
    else ("", params)
