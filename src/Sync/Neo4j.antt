-- ===== src/Sync/Neo4j.antt =====
-- `FullSync` with the driver of internal/graph/neo4j.go: what is sent to the database.
use mathlib.Core.List.{Perm}
use network_digital_twin_pla.Prelude.{
  ◌≡◌, ◌≢◌, refl, sym, ap, ◌∙◌, String, Bool, List, [], ◌∷◌, ◌++◌, map, none, Result, ok, err, All₂,
}
use network_digital_twin_pla.Prelude.Dict.{Dict, lookup}
use network_digital_twin_pla.Value.{Host}
use network_digital_twin_pla.Schema.Registry.{Registry, get_labels}
use network_digital_twin_pla.Schema.Registry.Labels.{last, last-get_labels}
use network_digital_twin_pla.Normalizer.{NormalizedResource}
use network_digital_twin_pla.Assembler.{
  Node, last_of, most_specific_label, GraphModel, ValidationWarning, assemble,
}
use network_digital_twin_pla.Assembler.Nodes.{NodeOf}
use network_digital_twin_pla.Graph.Groups.{IsOrder}
use network_digital_twin_pla.Graph.Driver.{
  text, Statement, Session, then_write, create_text, create_rel_text, create_data, bulk_create,
  clear_db,
}
use network_digital_twin_pla.Graph.Driver.Statements.{sent_all, run_all}
use network_digital_twin_pla.Graph.Driver.Sends.{HasOwnLabels, sent_rel, writes-Sends}
use network_digital_twin_pla.Graph.Client.{neo4j_client}
use network_digital_twin_pla.Sync.{
  SyncError, Connectors, collect_all, normalize_all, result_of, Synced, full_sync, after_clear,
  write_model, write_done,
}
use network_digital_twin_pla.Sync.Outcome.{assemble-normalize_all}

last-last_of : (xs : List String) → last_of xs ≡ last xs
last-last_of [] = refl
last-last_of (x ∷ []) = refl
last-last_of (x ∷ y ∷ ys) = last-last_of (y ∷ ys)

module _ (r : Registry) (named : lookup "" r.entity_types ≡ none) where
  specific :
      (res : NormalizedResource) (n : Node) → NodeOf r res n → most_specific_label n ≡ res.kind
  unfolding most_specific_label
  specific res n h =
      let proper : res.kind ≢ "" = λ e. cc (h.known, named, e) in
      ap last_of h.labels ∙ last-last_of (get_labels r res.kind) ∙ last-get_labels r res.kind proper

  -- The nodes that are assembled have the labels of their types.
  nodes-HasOwnLabels :
      (resources : List NormalizedResource) (nodes : List Node)
      → All₂ (NodeOf r) resources nodes
      → HasOwnLabels (get_labels r) nodes
  nodes-HasOwnLabels [] [] all = tt
  nodes-HasOwnLabels [] (n ∷ nodes) all = elim all [ ]
  nodes-HasOwnLabels (res ∷ resources) [] all = tt
  nodes-HasOwnLabels (res ∷ resources) (n ∷ nodes) (h, all) = (
    h.labels ∙ ap (get_labels r) (sym (specific res n h)),
    nodes-HasOwnLabels resources nodes all,
  )

abbrev pub clear_statement : String → Statement
clear_statement db = record {
  cypher = "MATCH (n {_db: $_db}) DETACH DELETE n";
  params = ("_db", text db) ∷ [];
}

module _ {G E : Type 0} where
  -- A sync leaves the graph that statements leave, and succeeds, with the counts of a model, if all of them
  -- do.
  pub EndsAs : Synced G E → GraphModel → List ValidationWarning → Result E (Unit {0}) × G → Type 0
  EndsAs s model warnings (ok _, g) = (s.graph ≡ g) × (s.result ≡ ok (result_of model warnings))
  EndsAs s model warnings (err _, g) = (s.graph ≡ g) × ((e : SyncError E) × (s.result ≡ err e))

module _ {G E : Type 0} (session : Session G E) (range : (V : Type 0) → Dict V → Dict V)
    (has_log : Bool) (host : Host) (r : Registry) (cs : Connectors) where
  -- What `FullSync` sends, and how it ends.
  pub record Rewritten (g : G) (s : Synced G E) : Type 0 where
    pub model : GraphModel
    pub warnings : List ValidationWarning
    pub assembled :
        assemble r (normalize_all host r (collect_all cs cs.metas)) ≡ ok (model, warnings)
    pub earlier : List Statement
    pub later : List Statement
    pub earlier_sends :
        Perm
          (sent_all earlier)
          (map (λ n. (create_text n.labels, create_data "default" n)) model.nodes)
    pub later_sends : Perm (sent_all later) (map (sent_rel create_rel_text) model.relations)
    pub ended :
        EndsAs s model warnings (run_all session (clear_statement "default" ∷ (earlier ++ later)) g)

  module _ (model : GraphModel) (warnings : List ValidationWarning) where
    write_done-EndsAs :
        (p : Result E (Unit {0}) × G)
        → EndsAs
            (write_done (neo4j_client session range) has_log host r model warnings p)
            model
            warnings
            p
    unfolding write_done EndsAs
    write_done-EndsAs (ok _, g) = (refl, refl)
    write_done-EndsAs (err e, g) = (refl, (_, refl))

    after_clear-EndsAs :
        (ss : List Statement)
        → assemble r (normalize_all host r (collect_all cs cs.metas)) ≡ ok (model, warnings)
        → ((g : G)
            → bulk_create session range "default" model.nodes model.relations g
              ≡ run_all session ss g)
        → (w : Result E (Unit {0}) × G)
        → EndsAs
            (after_clear (neo4j_client session range) has_log host r cs w)
            model
            warnings
            (then_write w (run_all session ss))
    unfolding after_clear write_model EndsAs
    after_clear-EndsAs ss made runs (err e, g) = (refl, (_, refl))
    after_clear-EndsAs ss made runs (ok _, g) =
        rw (made, ← runs g)
          (write_done-EndsAs (bulk_create session range "default" model.nodes model.relations g))

  -- With the Neo4j driver, and no type without a name, `FullSync` assembles what the normalizer accepts of
  -- all that the connectors deliver, and runs one statement after the other, up to the first that fails: one
  -- that deletes the old graph, then statements that send each assembled node once, to be created with the
  -- labels of its type, and then statements that send each assembled relation once. It leaves the graph that
  -- these leave, and succeeds exactly if they all do.
  pub full_sync-Rewritten :
      IsOrder range
      → lookup "" r.entity_types ≡ none
      → (g : G) → Rewritten g (full_sync (neo4j_client session range) has_log host r cs g)
  unfolding full_sync run_all clear_db
  full_sync-Rewritten is_order named g =
      let a = assemble-normalize_all r host (collect_all cs cs.metas) in
      let own = nodes-HasOwnLabels r named _ a.model.nodes a.nodes in
      let (sends, _, _) =
        writes-Sends session range is_order (get_labels r) "default" a.model.nodes a.model.relations
          own in
      record {
        model = a.model;
        warnings = a.warnings;
        assembled = a.returned;
        earlier = sends.earlier;
        later = sends.later;
        earlier_sends = sends.earlier_sends;
        later_sends = sends.later_sends;
        ended =
            after_clear-EndsAs a.model a.warnings (sends.earlier ++ sends.later) a.returned
              sends.runs (session.write (clear_statement "default") g);
      }
