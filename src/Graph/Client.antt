-- ===== src/Graph/Client.antt =====
-- The driver of internal/graph/neo4j.go as the services use it, and internal/graph/logical_db.go.
use network_digital_twin_pla.Prelude.{
  ℕ, String, List, [], ◌∷◌, Result, ok, err, contains, if◌then◌else◌, ◌==◌, ◌||◌,
}
use network_digital_twin_pla.Prelude.Dict.{Dict}
use network_digital_twin_pla.Graph.{GraphDb}
use network_digital_twin_pla.Graph.Driver.{
  Param, number, Session, then_write, bulk_create, upsert, delete_relations, delete_by_uris,
  clear_db, query, list_dbs, has_db,
}
use network_digital_twin_pla.Graph.Clone.{clone_db}

-- The queries of `Create` in internal/snapshot/manager.go.
abbrev page_of_nodes : String
page_of_nodes =
    "MATCH (n) WHERE n._db = $_db RETURN labels(n) AS labels, n.uri AS uri, properties(n) AS props ORDER BY n.uri SKIP $skip LIMIT $limit"

abbrev page_of_rels : String
page_of_rels =
    "MATCH (src)-[r]->(dst) WHERE src._db = $_db RETURN type(r) AS type, src.uri AS from, dst.uri AS to, properties(r) AS props ORDER BY src.uri SKIP $skip LIMIT $limit"

abbrev page_params : ℕ → ℕ → Dict Param
page_params skip limit = ("skip", number skip) ∷ ("limit", number limit) ∷ []

module _ {G E : Type 0} (session : Session G E) (range : (V : Type 0) → Dict V → Dict V) where
  abbrev pub neo4j_client : GraphDb G E
  neo4j_client = record {
    bulk_create = bulk_create session range;
    upsert = upsert session range;
    delete_relations = delete_relations session range;
    delete_by_uris = delete_by_uris session;
    clear_db = clear_db session;
    clone_db = clone_db session range;
    list_dbs = list_dbs session;
    has_db = has_db session;
    query_nodes = λ db skip limit. query session db page_of_nodes (page_params skip limit);
    query_rels = λ db skip limit. query session db page_of_rels (page_params skip limit);
  }

module _ {G E : Type 0} (client : GraphDb G E) where
  unfoldable pub ensure_db_ready : String → G → Result E (Unit {0}) × G
  ensure_db_ready db g = client.clear_db db g

  clean_each : List String → List String → G → Result E (Unit {0}) × G
  clean_each keep [] g = (ok tt, g)
  clean_each keep (db ∷ dbs) g =
      if db == "default" || contains keep db
      then clean_each keep dbs g
      else then_write (client.clear_db db g) (λ g'. clean_each keep dbs g')

  -- `keep` has the names that `keepDBs` maps to true.
  unfoldable pub clean_stale_dbs : List String → G → Result E (Unit {0}) × G
  unfolding clean_each
  clean_stale_dbs keep g = elim (client.list_dbs g) [
    | err e ↦ (err e, g)
    | ok dbs ↦ clean_each keep dbs g
  ]
