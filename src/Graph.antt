-- ===== src/Graph.antt =====
-- internal/graph/interface.go: `GraphDB`, as far as the services call it. `G` is what the database
-- holds and `E` its errors; a write returns the database that it leaves, also where it fails.
pub mod Groups
pub mod Driver
pub mod Clone
pub mod Client
pub mod Preview
use network_digital_twin_pla.Prelude.{String, Bool, List, Result, ℕ}
use network_digital_twin_pla.Value.{Props}
use network_digital_twin_pla.Assembler.{Node, Relation}

pub record GraphDb (G E : Type 0) : Type 0 where
  pub bulk_create : String → List Node → List Relation → G → Result E (Unit {0}) × G
  pub upsert : String → List Node → List Relation → G → Result E (Unit {0}) × G
  pub delete_relations : String → List Relation → G → Result E (Unit {0}) × G
  pub delete_by_uris : String → List String → G → Result E (Unit {0}) × G
  pub clear_db : String → G → Result E (Unit {0}) × G
  pub clone_db : String → String → G → Result E (Unit {0}) × G
  pub list_dbs : G → Result E (List String)
  pub has_db : String → G → Result E Bool
  -- The two queries of `Create`: the rows from `skip` on, at most `limit`.
  pub query_nodes : String → ℕ → ℕ → G → Result E (List Props)
  pub query_rels : String → ℕ → ℕ → G → Result E (List Props)
