-- ===== src/Graph/Driver.antt =====
-- internal/graph/neo4j.go: the statements that the driver sends, over what a session answers. The order in
-- which Go ranges over a map is a parameter.
pub mod Statements
pub mod Sends
use network_digital_twin_pla.Prelude.{
  ℕ, Bool, false, String, ◌<>◌, List, [], ◌∷◌, map, Option, none, some, Result, ok, err,
}
use network_digital_twin_pla.Prelude.Dict.{Dict, lookup, insert}
use network_digital_twin_pla.Text.{join}
use network_digital_twin_pla.Text.Scan.{to_lower}
use network_digital_twin_pla.Value.{str, bool, object, Props, fields_of}
use network_digital_twin_pla.Assembler.{Node, most_specific_label, Relation}
use network_digital_twin_pla.Graph.Groups.{group_loop}

pub data Param : Type 0 where
  text : String → Param
  number : ℕ → Param
  texts : List String → Param
  maps : List Props → Param

pub record Statement : Type 0 where
  pub cypher : String
  pub params : Dict Param

-- The rows of a result, and the error that ends the iteration over them.
pub record Cursor (E : Type 0) : Type 0 where
  pub rows : List Props
  pub error : Option E

-- What the library's sessions do: one to read, and one to write, whose results are not looked at.
pub record Session (G E : Type 0) : Type 0 where
  pub read : Statement → G → Result E (Cursor E)
  pub write : Statement → G → Result E (Unit {0}) × G

unfoldable pub join_labels : List String → String
unfolding join
join_labels [] = ""
join_labels (label ∷ labels) = ":" <> join (label ∷ labels) ":"

abbrev pub node_key : Node → Option (String × Node)
node_key n = some (most_specific_label n, n)

abbrev pub rel_key : Relation → Option (String × Relation)
rel_key r = some (r.type, r)

unfoldable pub group_nodes_by_labels : List Node → Dict (List Node)
unfolding group_loop most_specific_label
group_nodes_by_labels nodes = group_loop node_key [] nodes

unfoldable pub group_rels_by_type : List Relation → Dict (List Relation)
unfolding group_loop
group_rels_by_type rels = group_loop rel_key [] rels

-- The labels of the first node of a group.
abbrev pub first_labels : List Node → List String
first_labels [] = []
first_labels (n ∷ _) = n.labels

-- All labels but the last.
abbrev pub parent_labels : List String → List String
parent_labels [] = []
parent_labels (label ∷ []) = []
parent_labels (label ∷ next ∷ labels) = label ∷ parent_labels (next ∷ labels)

abbrev pub create_text : List String → String
create_text labels =
    "UNWIND $nodes AS n CREATE (x" <> join_labels labels <> " {_db: $_db, uri: n.uri}) SET x += n"

abbrev pub merge_text : String → List String → String
merge_text label labels = elim (parent_labels labels) [
  | [] ↦ "UNWIND $nodes AS n MERGE (x:" <> label <> " {_db: $_db, uri: n.uri}) SET x += n.props"
  | parent ∷ parents ↦
      "UNWIND $nodes AS n MERGE (x:"
      <> label
      <> " {_db: $_db, uri: n.uri}) ON CREATE SET x"
      <> join_labels (parent ∷ parents)
      <> " SET x += n.props"
]

abbrev matched : String
matched = "UNWIND $rels AS r MATCH (a {_db: $_db, uri: r.from}) MATCH (b {_db: $_db, uri: r.to}) "

abbrev pub create_rel_text : String → String
create_rel_text type = matched <> "CREATE (a)-[:" <> type <> "]->(b)"

abbrev pub merge_rel_text : String → String
merge_rel_text type = matched <> "MERGE (a)-[:" <> type <> "]->(b)"

abbrev pub delete_rel_text : String → String
delete_rel_text type =
    "UNWIND $rels AS r MATCH (a {_db: $_db, uri: r.from})-[x:" <> type
    <> "]->(b {_db: $_db, uri: r.to}) DELETE x"

-- The properties of a node, with the logical database and the URI.
abbrev pub create_data : String → Node → Props
create_data db n = insert "uri" (str n.uri) (insert "_db" (str db) n.props)

abbrev pub merge_data : String → Node → Props
merge_data db n =
    ("uri", str n.uri) ∷ ("props", object (fields_of (insert "_db" (str db) n.props))) ∷ []

-- Of a relation only its ends are sent.
abbrev pub rel_data : Relation → Props
rel_data r = ("from", str r.from) ∷ ("to", str r.to) ∷ []

module _ (db : String) where
  abbrev pub create_nodes : String → List Node → Statement
  create_nodes label group = record {
    cypher = create_text (first_labels group);
    params = ("_db", text db) ∷ ("nodes", maps (map (create_data db) group)) ∷ [];
  }

  abbrev pub merge_nodes : String → List Node → Statement
  merge_nodes label group = record {
    cypher = merge_text label (first_labels group);
    params = ("_db", text db) ∷ ("nodes", maps (map (merge_data db) group)) ∷ [];
  }

  abbrev pub rels_by : (String → String) → String → List Relation → Statement
  rels_by text_of type group = record {
    cypher = text_of type;
    params = ("_db", text db) ∷ ("rels", maps (map rel_data group)) ∷ [];
  }

-- What follows a write, unless it fails.
module _ {G E : Type 0} where
  abbrev pub then_write :
      Result E (Unit {0}) × G → (G → Result E (Unit {0}) × G) → Result E (Unit {0}) × G
  then_write (err e, g) next = (err e, g)
  then_write (ok _, g) next = next g

db_names : List Props → List String
db_names [] = []
db_names (row ∷ rows) =
    let rest = db_names rows in elim (lookup "db" row) [ some (str s) ↦ s ∷ rest | _ ↦ rest ]

module _ {G E : Type 0} (session : Session G E) where
  -- The loop over the groups, which ends at the first failure.
  unfoldable pub run_each :
      {V : Type 0} → (String → V → Statement) → Dict V → G → Result E (Unit {0}) × G
  run_each make [] g = (ok tt, g)
  run_each make ((k, v) ∷ groups) g =
      then_write (session.write (make k v) g) (λ g'. run_each make groups g')

  module _ (range : (V : Type 0) → Dict V → Dict V) where
    unfoldable pub bulk_create : String → List Node → List Relation → G → Result E (Unit {0}) × G
    unfolding run_each group_nodes_by_labels group_rels_by_type
    bulk_create db nodes rels g =
        then_write (run_each (create_nodes db) (range (List Node) (group_nodes_by_labels nodes)) g)
          (λ g'.
            run_each (rels_by db create_rel_text) (range (List Relation) (group_rels_by_type rels))
              g')

    unfoldable pub upsert : String → List Node → List Relation → G → Result E (Unit {0}) × G
    unfolding run_each group_nodes_by_labels group_rels_by_type
    upsert db nodes rels g =
        then_write (run_each (merge_nodes db) (range (List Node) (group_nodes_by_labels nodes)) g)
          (λ g'.
            run_each (rels_by db merge_rel_text) (range (List Relation) (group_rels_by_type rels))
              g')

    unfoldable pub delete_relations : String → List Relation → G → Result E (Unit {0}) × G
    unfolding run_each group_rels_by_type
    delete_relations db rels g =
        run_each (rels_by db delete_rel_text) (range (List Relation) (group_rels_by_type rels)) g

  unfoldable pub delete_by_uris : String → List String → G → Result E (Unit {0}) × G
  delete_by_uris db uris g =
      session.write
        (record {
          cypher = "UNWIND $uris AS uri MATCH (n {_db: $_db, uri: uri}) DETACH DELETE n";
          params = ("_db", text db) ∷ ("uris", texts uris) ∷ [];
        })
        g

  unfoldable pub clear_db : String → G → Result E (Unit {0}) × G
  clear_db db g =
      session.write
        (record {
          cypher = "MATCH (n {_db: $_db}) DETACH DELETE n";
          params = ("_db", text db) ∷ [];
        })
        g

  -- `Query`; the rows that come along with an error are left out, as its callers do.
  unfoldable pub query : String → String → Dict Param → G → Result E (List Props)
  query db cypher params g =
      elim (session.read (record { cypher = cypher; params = insert "_db" (text db) params }) g) [
        | err e ↦ err e
        | ok cursor ↦ elim cursor.error [ some e ↦ err e | none ↦ ok cursor.rows ]
      ]

  unfoldable pub list_dbs : G → Result E (List String)
  unfolding db_names
  list_dbs g =
      elim (session.read
        (record {
          cypher = "MATCH (n) WHERE n._db IS NOT NULL RETURN DISTINCT n._db AS db";
          params = [];
        })
        g) [
          | err e ↦ err e
          | ok cursor ↦ elim cursor.error [ some e ↦ err e | none ↦ ok (db_names cursor.rows) ]
        ]

  -- Only the first row is looked at.
  unfoldable pub has_db : String → G → Result E Bool
  has_db db g =
      elim (session.read
        (record {
          cypher = "MATCH (n {_db: $_db}) RETURN count(n) > 0 AS exists";
          params = ("_db", text db) ∷ [];
        })
        g) [
          | err e ↦ err e
          | ok cursor ↦ elim cursor.rows [
            | [] ↦ elim cursor.error [ some e ↦ err e | none ↦ ok false ]
            | row ∷ _ ↦ elim (lookup "exists" row) [ some (bool b) ↦ ok b | _ ↦ ok false ]
          ]
        ]

  unfoldable pub ensure_indexes : List String → G → Result E (Unit {0}) × G
  unfolding to_lower
  ensure_indexes [] g = (ok tt, g)
  ensure_indexes (label ∷ labels) g =
      then_write
        (session.write
          (record {
            cypher =
                "CREATE INDEX idx_"
                <> to_lower label
                <> "_db_uri IF NOT EXISTS FOR (n:"
                <> label
                <> ") ON (n._db, n.uri)";
            params = [];
          })
          g)
        (λ g'. ensure_indexes labels g')
