-- ===== src/Graph/Clone.antt =====
-- internal/graph/neo4j.go: `CloneDB`, which reads a logical database and writes its nodes and relations
-- into another one.
pub mod Copies
use network_digital_twin_pla.Prelude.{
  String, ◌<>◌, List, [], ◌∷◌, map, Option, none, some, Result, ok, err, if◌then◌else◌, ◌==◌,
}
use network_digital_twin_pla.Prelude.Dict.{Dict, lookup, insert}
use network_digital_twin_pla.Text.{join}
use network_digital_twin_pla.Value.{
  Value, Values, str, strings, array, object, item, end, Props, fields_of, props_of,
}
use network_digital_twin_pla.Graph.Groups.{group_loop}
use network_digital_twin_pla.Graph.Driver.{
  text, maps, Statement, Session, join_labels, then_write, run_each, query,
}

text_items : Values → List String
text_items end = []
text_items (item (str s) vs) = s ∷ text_items vs
text_items (item v vs) = text_items vs

-- The labels of a row, in either of the two types in which they may come.
unfoldable pub clone_labels : Props → List String
unfolding text_items
clone_labels row = elim (lookup "labels" row) [
  | some (strings labels) ↦ labels
  | some (array vs) ↦ text_items vs
  | _ ↦ []
]

-- A row without labels is left out; any other notes its labels.
abbrev pub with_labels : List String → Props → Option (String × Props)
with_labels [] row = none
with_labels (label ∷ labels) row =
    some (join (label ∷ labels) ":", insert "_labels" (strings (label ∷ labels)) row)

unfoldable pub clone_key : Props → Option (String × Props)
unfolding clone_labels join
clone_key row = with_labels (clone_labels row) row

unfoldable pub group_clone_nodes_by_labels : List Props → Dict (List Props)
unfolding group_loop clone_key
group_clone_nodes_by_labels rows = group_loop clone_key [] rows

abbrev pub text_at : String → Props → String
text_at key row = elim (lookup key row) [ some (str s) ↦ s | _ ↦ "" ]

-- A row without a type is left out.
unfoldable pub clone_rel_key : Props → Option (String × Props)
clone_rel_key row = let type = text_at "type" row in if type == "" then none else some (type, row)

unfoldable pub group_clone_rels_by_type : List Props → Dict (List Props)
unfolding group_loop clone_rel_key
group_clone_rels_by_type rows = group_loop clone_rel_key [] rows

abbrev pub noted_labels : Props → List String
noted_labels row = elim (lookup "_labels" row) [ some (strings labels) ↦ labels | _ ↦ [] ]

abbrev pub first_noted : List Props → List String
first_noted [] = []
first_noted (row ∷ _) = noted_labels row

abbrev pub clone_text : List String → String
clone_text labels =
    "UNWIND $nodes AS n CREATE (x"
    <> join_labels labels
    <> " {_db: $to, uri: n.uri}) SET x += n.props"

abbrev pub clone_rel_text : String → String
clone_rel_text type =
    "UNWIND $rels AS r MATCH (a {_db: $to, uri: r.from}) MATCH (b {_db: $to, uri: r.to}) CREATE (a)-[:"
    <> type <> "]->(b)"

abbrev pub props_at : Props → Props
props_at row = elim (lookup "props" row) [ some (object fs) ↦ props_of fs | _ ↦ [] ]

-- The properties of a row, with the other logical database.
abbrev pub clone_data : String → Props → Props
clone_data to row =
    ("uri", str (text_at "uri" row))
    ∷ ("props", object (fields_of (insert "_db" (str to) (props_at row))))
    ∷ []

abbrev pub clone_rel_data : Props → Props
clone_rel_data row = ("from", str (text_at "from" row)) ∷ ("to", str (text_at "to" row)) ∷ []

abbrev pub clone_nodes : String → String → List Props → Statement
clone_nodes to key group = record {
  cypher = clone_text (first_noted group);
  params = ("to", text to) ∷ ("nodes", maps (map (clone_data to) group)) ∷ [];
}

abbrev pub clone_rels : String → String → List Props → Statement
clone_rels to type group = record {
  cypher = clone_rel_text type;
  params = ("to", text to) ∷ ("rels", maps (map clone_rel_data group)) ∷ [];
}

abbrev pub nodes_query : String
nodes_query =
    "MATCH (n {_db: $_db}) RETURN labels(n) AS labels, n.uri AS uri, properties(n) AS props"

abbrev pub rels_query : String
rels_query =
    "MATCH (a {_db: $_db})-[r]->(b {_db: $_db}) RETURN type(r) AS type, a.uri AS from, b.uri AS to"

module _ {G E : Type 0} (session : Session G E) (range : (V : Type 0) → Dict V → Dict V) where
  -- The writes, from the rows that are read.
  unfoldable pub write_clone : String → List Props → List Props → G → Result E (Unit {0}) × G
  unfolding run_each group_clone_nodes_by_labels group_clone_rels_by_type
  write_clone to nodes rels g =
      then_write
        (run_each session (clone_nodes to) (range (List Props) (group_clone_nodes_by_labels nodes))
          g)
        (run_each session (clone_rels to) (range (List Props) (group_clone_rels_by_type rels)))

  unfoldable pub clone_db : String → String → G → Result E (Unit {0}) × G
  unfolding write_clone query
  clone_db from to g = elim (query session from nodes_query [] g) [
    | err e ↦ (err e, g)
    | ok nodes ↦ elim (query session from rels_query [] g) [
      | err e ↦ (err e, g)
      | ok rels ↦ write_clone to nodes rels g
    ]
  ]
