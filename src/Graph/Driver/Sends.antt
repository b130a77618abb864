-- ===== src/Graph/Driver/Sends.antt =====
-- What `BulkCreate`, `Upsert` and `DeleteRelations` send to the database.
use mathlib.Core.List.{Perm}
use mathlib.Core.List.Perm
use network_digital_twin_pla.Prelude.{
  ◌≡◌, ◌≢◌, refl, sym, ap, ◌∙◌, String, List, [], ◌∷◌, ◌++◌, map, some, Result, All, All-map,
}
use network_digital_twin_pla.Prelude.Dict.{Dict}
use network_digital_twin_pla.Value.{Props}
use network_digital_twin_pla.Assembler.{Node, most_specific_label, Relation}
use network_digital_twin_pla.Graph.Groups.{IsOrder, kept}
use network_digital_twin_pla.Graph.Driver.{
  Statement, Session, node_key, rel_key, group_nodes_by_labels, group_rels_by_type, first_labels,
  create_text, merge_text, create_rel_text, merge_rel_text, delete_rel_text, create_data,
  merge_data, rel_data, create_nodes, merge_nodes, rels_by, bulk_create, upsert, delete_relations,
}
use network_digital_twin_pla.Graph.Driver.Statements.{
  sent_all, sent-maps, statements, SendsGroup, group_loop-sent, run_all, run_each-run_all,
  run_each-run_each,
}

-- A type's labels are those of its line of parents.
abbrev pub HasOwnLabels : (String → List String) → List Node → Type 0
HasOwnLabels labels_of nodes =
    All (λ (n : Node). n.labels ≡ labels_of (most_specific_label n)) nodes

module _ (labels_of : String → List String) where
  abbrev InGroup : String → Node → Type 0
  InGroup k n = (n.labels ≡ labels_of k) × (most_specific_label n ≡ k)

  keys-InGroup :
      (nodes : List Node)
      → HasOwnLabels labels_of nodes
      → All (λ (n : Node). (k : String) (m : Node) → node_key n ≡ some (k, m) → InGroup k m) nodes
  keys-InGroup [] all = tt
  keys-InGroup (n ∷ nodes) (own, all) = (λ k m e. ((cc), (cc)), keys-InGroup nodes all)

  -- All members of a group have the labels of its first one.
  alike-first :
      (k : String) (group : List Node)
      → group ≢ []
      → All (InGroup k) group
      → All (λ (n : Node). (n.labels ≡ first_labels group) × (most_specific_label n ≡ k)) group
  alike-first k [] some_ all = absurd (some_ refl)
  alike-first k (first ∷ group) some_ ((own, is), all) =
      ((refl, is), All-map (InGroup k) _ group (λ n (e, is'). (e ∙ sym own, is')) all)

  create-SendsGroup :
      (db : String)
      → SendsGroup node_key
          (create_nodes db)
          (λ n. (create_text n.labels, create_data db n))
          InGroup
  create-SendsGroup db k group some_ all =
      sent-maps (create_text (first_labels group)) (create_data db) (λ n. create_text n.labels)
        group (All-map _ _ group (λ n (e, is). ap create_text e) (alike-first k group some_ all))

  merge-SendsGroup :
      (db : String)
      → SendsGroup node_key
          (merge_nodes db)
          (λ n. (merge_text (most_specific_label n) n.labels, merge_data db n))
          InGroup
  merge-SendsGroup db k group some_ all =
      sent-maps (merge_text k (first_labels group)) (merge_data db)
        (λ n. merge_text (most_specific_label n) n.labels) group
        (All-map _ _ group (λ n (e, is). cc (e, is)) (alike-first k group some_ all))

abbrev pub sent_rel : (String → String) → Relation → String × Props
sent_rel text_of r = (text_of r.type, rel_data r)

rels-SendsGroup :
    (text_of : String → String) (db : String)
    → SendsGroup rel_key (rels_by db text_of) (sent_rel text_of) (λ k r. r.type ≡ k)
rels-SendsGroup text_of db k group some_ all =
    sent-maps (text_of k) rel_data (λ r. text_of r.type) group
      (All-map _ _ group (λ r e. ap text_of e) all)

kept-node_key : (nodes : List Node) → kept node_key nodes ≡ nodes
unfolding kept
kept-node_key [] = refl
kept-node_key (n ∷ nodes) = ap (λ l. n ∷ l) (kept-node_key nodes)

kept-rel_key : (rels : List Relation) → kept rel_key rels ≡ rels
unfolding kept
kept-rel_key [] = refl
kept-rel_key (r ∷ rels) = ap (λ l. r ∷ l) (kept-rel_key rels)

rel_keys :
    (rels : List Relation)
    → All
        (λ (r : Relation). (k : String) (s : Relation) → rel_key r ≡ some (k, s) → s.type ≡ k)
        rels
rel_keys [] = tt
rel_keys (r ∷ rels) = (λ k s e. cc, rel_keys rels)

module _ {G E : Type 0} (session : Session G E) where
  -- An operation runs statements one after the other, up to the first that fails: statements that send
  -- `first`, in some order, and then statements that send `second`.
  pub record Sends (act : G → Result E (Unit {0}) × G) (first second : List (String × Props))
      : Type 0 where
    pub earlier : List Statement
    pub later : List Statement
    pub runs : (g : G) → act g ≡ run_all session (earlier ++ later) g
    pub earlier_sends : Perm (sent_all earlier) first
    pub later_sends : Perm (sent_all later) second

  module _ (range : (V : Type 0) → Dict V → Dict V) where
    module _ (is_order : IsOrder range) where
      rel_statements : (String → String) → String → List Relation → List Statement
      rel_statements text_of db rels =
          statements (rels_by db text_of) (range (List Relation) (group_rels_by_type rels))

      node_statements : (String → List Node → Statement) → List Node → List Statement
      node_statements make nodes = statements make (range (List Node) (group_nodes_by_labels nodes))

      rels-sent :
          (text_of : String → String) (db : String) (rels : List Relation)
          → Perm (sent_all (rel_statements text_of db rels)) (map (sent_rel text_of) rels)
      unfolding group_rels_by_type rel_statements
      rels-sent text_of db rels =
          let sends =
            group_loop-sent {A = Relation} {B = Relation} rel_key (rels_by db text_of)
              (sent_rel text_of) (λ k r. r.type ≡ k) (rels-SendsGroup text_of db) rels
              (rel_keys rels) (range (List Relation) (group_rels_by_type rels))
              (is_order (List Relation) (group_rels_by_type rels)) in
          rw (kept-rel_key rels) at sends

      module _ (labels_of : String → List String) where
        nodes-sent :
            (make : String → List Node → Statement) (what : Node → String × Props)
            (nodes : List Node)
            → SendsGroup node_key make what (InGroup labels_of)
            → HasOwnLabels labels_of nodes
            → Perm (sent_all (node_statements make nodes)) (map what nodes)
        unfolding group_nodes_by_labels node_statements
        nodes-sent make what nodes h own =
            let sends =
              group_loop-sent {A = Node} {B = Node} node_key make what (InGroup labels_of) h nodes
                (keys-InGroup labels_of nodes own) (range (List Node) (group_nodes_by_labels nodes))
                (is_order (List Node) (group_nodes_by_labels nodes)) in
            rw (kept-node_key nodes) at sends

        -- Whatever the order in which Go ranges over a map, `BulkCreate` sends each node once, in a statement
        -- that creates it with its own labels, and then each relation once, with its ends and its type but
        -- without its properties; `Upsert` likewise, in statements that merge; `DeleteRelations` sends each
        -- relation once. They stop at the first statement that fails. The labels of a node are to be those
        -- of its most specific one.
        pub writes-Sends :
            (db : String) (nodes : List Node) (rels : List Relation)
            → HasOwnLabels labels_of nodes
            → Sends
                (bulk_create session range db nodes rels)
                (map (λ n. (create_text n.labels, create_data db n)) nodes)
                (map (sent_rel create_rel_text) rels)
              × Sends
                  (upsert session range db nodes rels)
                  (map (λ n. (merge_text (most_specific_label n) n.labels, merge_data db n)) nodes)
                  (map (sent_rel merge_rel_text) rels)
              × Sends
                  (delete_relations session range db rels)
                  []
                  (map (sent_rel delete_rel_text) rels)
        unfolding bulk_create upsert delete_relations rel_statements node_statements sent_all
        writes-Sends db nodes rels own = (
          record {
            earlier = node_statements (create_nodes db) nodes;
            later = rel_statements create_rel_text db rels;
            runs = run_each-run_each session (create_nodes db) (rels_by db create_rel_text) _ _;
            earlier_sends =
                nodes-sent (create_nodes db) _ nodes (create-SendsGroup labels_of db) own;
            later_sends = rels-sent create_rel_text db rels;
          },
          record {
            earlier = node_statements (merge_nodes db) nodes;
            later = rel_statements merge_rel_text db rels;
            runs = run_each-run_each session (merge_nodes db) (rels_by db merge_rel_text) _ _;
            earlier_sends = nodes-sent (merge_nodes db) _ nodes (merge-SendsGroup labels_of db) own;
            later_sends = rels-sent merge_rel_text db rels;
          },
          record {
            earlier = [];
            later = rel_statements delete_rel_text db rels;
            runs = run_each-run_all session (rels_by db delete_rel_text) _;
            earlier_sends = Perm.refl [];
            later_sends = rels-sent delete_rel_text db rels;
          },
        )
