-- ===== src/Snapshot/Manager/Restoring.antt =====
-- internal/snapshot/manager.go: `Restore` with the driver of internal/graph/neo4j.go.
use network_digital_twin_pla.Prelude.{ℕ, ◌≡◌, String, [], ◌∷◌, Result, ok, err}
use network_digital_twin_pla.Prelude.Dict.{Dict}
use network_digital_twin_pla.Graph.Driver.{text, Statement, Session}
use network_digital_twin_pla.Graph.Clone.Copies.{Cloned}
use network_digital_twin_pla.Graph.Client.{neo4j_client}
use network_digital_twin_pla.Snapshot.Manager.{
  Archives, State, ManagerError, clear_failed, clone_failed, ensure_loaded_failed,
}
use network_digital_twin_pla.Snapshot.Manager.Operations.{ensure_loaded}

-- The statement that deletes the live graph.
abbrev pub clear_default : Statement
clear_default = record {
  cypher = "MATCH (n {_db: $_db}) DETACH DELETE n";
  params = ("_db", text "default") ∷ [];
}

module _ {G E F X : Type 0} (session : Session G E) (range : (V : Type 0) → Dict V → Dict V)
    (ar : Archives F X) (error_text : ManagerError E X → String) (now : ℕ) (name : String)
    (s : State G F) where
  abbrev Ended : Type 0
  Ended = Result (ManagerError E X) (Unit {0}) × State G F

  abbrev pub load : Ended
  load = ensure_loaded (neo4j_client session range) ar error_text now name s

  abbrev of_clone : Result E (Unit {0}) → Result (ManagerError E X) (Unit {0})
  of_clone (ok _) = ok tt
  of_clone (err e) = err (clone_failed e)

  -- A result, the graph and the archives with it.
  abbrev IsEnd : Ended → Result (ManagerError E X) (Unit {0}) → G → F → Type 0
  IsEnd r result g files = (r.0 ≡ result) × (r.1.graph ≡ g) × (r.1.files ≡ files)

  -- What a restore comes to.
  pub data Restored (r : Ended) : Type 0 where
    not_loaded :
        {e : ManagerError E X} {s' : State G F}
        → load ≡ (err e, s')
        → IsEnd r (err (ensure_loaded_failed e)) s'.graph s'.files
        → Restored r
    not_cleared :
        {e : E} {s' : State G F} {g : G}
        → load ≡ (ok tt, s')
        → session.write clear_default s'.graph ≡ (err e, g)
        → IsEnd r (err (clear_failed e)) g s'.files
        → Restored r
    replaced :
        {s' : State G F} {g g' : G} {w : Result E (Unit {0})}
        → load ≡ (ok tt, s')
        → session.write clear_default s'.graph ≡ (ok tt, g)
        → Cloned session range name "default" g (w, g')
        → IsEnd r (of_clone w) g' s'.files
        → Restored r
