-- ===== src/Graph/Clone/Copies.antt =====
-- What `CloneDB` sends to the database.
use mathlib.Core.List.{Perm}
use network_digital_twin_pla.Prelude.{
  ◌≡◌, ◌≢◌, refl, sym, ap, ◌∙◌, inl, inr, String, ◌<>◌, List, [], ◌∷◌, ◌++◌, map, none, some,
  Result, ok, err, All, All-map, Bool-cases, Result-cases, ◌==◌, if◌then◌else◌, String-discrete,
}
use network_digital_twin_pla.Prelude.Dict.{Dict, lookup, insert, lookup-insert, lookup-insert_self}
use network_digital_twin_pla.Text.{join}
use network_digital_twin_pla.Value.{Props, strings}
use network_digital_twin_pla.Graph.Groups.{IsOrder, kept}
use network_digital_twin_pla.Graph.Driver.{Statement, Session, join_labels, query}
use network_digital_twin_pla.Graph.Driver.Statements.{
  sent_all, sent-maps, statements, SendsGroup, group_loop-sent, run_all, run_each-run_each,
}
use network_digital_twin_pla.Graph.Clone.{
  clone_labels, with_labels, clone_key, group_clone_nodes_by_labels, text_at, clone_rel_key,
  group_clone_rels_by_type, noted_labels, first_noted, clone_text, clone_rel_text, clone_data,
  clone_rel_data, clone_nodes, clone_rels, nodes_query, rels_query, write_clone, clone_db,
}

-- The rows with labels, each with the text that creates a node with these labels.
abbrev pub copied_nodes : String → List Props → List (String × Props)
copied_nodes to [] = []
copied_nodes to (row ∷ rows) = elim (clone_labels row) [
  | [] ↦ copied_nodes to rows
  | label ∷ labels ↦ (clone_text (label ∷ labels), clone_data to row) ∷ copied_nodes to rows
]

-- The rows with a type, each with the text that creates a relation of this type.
abbrev pub copied_rels : List Props → List (String × Props)
copied_rels [] = []
copied_rels (row ∷ rows) =
    if text_at "type" row == ""
    then copied_rels rows
    else (clone_rel_text (text_at "type" row), clone_rel_data row) ∷ copied_rels rows

abbrev sent_row : String → Props → String × Props
sent_row to row = (clone_text (noted_labels row), clone_data to row)

-- A member of a group has the labels of its key.
abbrev HasKey : String → Props → Type 0
HasKey k row = join_labels (noted_labels row) ≡ ":" <> k

noted-insert :
    (labels : List String) (row : Props)
    → noted_labels (insert "_labels" (strings labels) row) ≡ labels
noted-insert labels row = rw (noted_labels, lookup-insert_self "_labels" (strings labels) row) refl

with_labels-HasKey :
    (labels : List String) (row : Props) (k : String) (b : Props)
    → with_labels labels row ≡ some (k, b)
    → HasKey k b
unfolding join_labels
with_labels-HasKey [] row k b e = cc
with_labels-HasKey (label ∷ labels) row k b e =
    let is_k : join (label ∷ labels) ":" ≡ k = cc in
    let is_b : insert "_labels" (strings (label ∷ labels)) row ≡ b = cc in
    rw (← is_b, noted-insert (label ∷ labels) row, ← is_k) refl

keys-HasKey :
    (rows : List Props)
    → All
        (λ (row : Props). (k : String) (b : Props) → clone_key row ≡ some (k, b) → HasKey k b)
        rows
unfolding clone_key
keys-HasKey [] = tt
keys-HasKey (row ∷ rows) = (with_labels-HasKey (clone_labels row) row, keys-HasKey rows)

-- The noted labels are not among what is sent.
sent_row-noted :
    (to : String) (labels : List String) (row : Props)
    → sent_row to (insert "_labels" (strings labels) row) ≡ (clone_text labels, clone_data to row)
unfolding String-discrete
sent_row-noted to labels row =
    let row' = insert "_labels" (strings labels) row in
    let uri : lookup "uri" row' ≡ lookup "uri" row =
      lookup-insert "uri" "_labels" (strings labels) row in
    let props : lookup "props" row' ≡ lookup "props" row =
      lookup-insert "props" "_labels" (strings labels) row in
    cc (noted-insert labels row, uri, props)

with_labels-copied :
    (to : String) (labels : List String) (row : Props) (rows : List Props)
    (rest : List (String × Props))
    → map (sent_row to) rows ≡ rest
    → map (sent_row to) (elim (with_labels labels row) [ none ↦ rows | some (_, b) ↦ b ∷ rows ])
      ≡ elim labels [
        | [] ↦ rest
        | label ∷ more ↦ (clone_text (label ∷ more), clone_data to row) ∷ rest
      ]
with_labels-copied to [] row rows rest e = e
with_labels-copied to (label ∷ labels) row rows rest e =
    cc (e, sent_row-noted to (label ∷ labels) row)

kept-rows :
    (to : String) (rows : List Props)
    → map (sent_row to) (kept clone_key rows) ≡ copied_nodes to rows
unfolding kept clone_key
kept-rows to [] = refl
kept-rows to (row ∷ rows) =
    let rest = kept-rows to rows in
    with_labels-copied to (clone_labels row) row (kept clone_key rows) (copied_nodes to rows) rest

rows-alike :
    (k : String) (group : List Props)
    → group ≢ []
    → All (HasKey k) group
    → All (λ (row : Props). clone_text (noted_labels row) ≡ clone_text (first_noted group)) group
rows-alike k [] some_ all = absurd (some_ refl)
rows-alike k (first ∷ group) some_ (is, all) =
    let text_of = λ (s : String).
      "UNWIND $nodes AS n CREATE (x" <> s <> " {_db: $to, uri: n.uri}) SET x += n.props" in
    (refl, All-map (HasKey k) _ group (λ row e. ap text_of (e ∙ sym is)) all)

nodes-SendsGroup : (to : String) → SendsGroup clone_key (clone_nodes to) (sent_row to) HasKey
nodes-SendsGroup to k group some_ all =
    sent-maps (clone_text (first_noted group)) (clone_data to)
      (λ row. clone_text (noted_labels row)) group (rows-alike k group some_ all)

abbrev sent_rel_row : Props → String × Props
sent_rel_row row = (clone_rel_text (text_at "type" row), clone_rel_data row)

rel_rows-SendsGroup :
    (to : String)
    → SendsGroup clone_rel_key (clone_rels to) sent_rel_row (λ k row. text_at "type" row ≡ k)
rel_rows-SendsGroup to k group some_ all =
    sent-maps (clone_rel_text k) clone_rel_data (λ row. clone_rel_text (text_at "type" row)) group
      (All-map _ _ group (λ row e. ap clone_rel_text e) all)

rel_key-type :
    (row : Props) (k : String) (b : Props) → clone_rel_key row ≡ some (k, b) → text_at "type" b ≡ k
unfolding clone_rel_key
rel_key-type row k b e = elim (Bool-cases (text_at "type" row == "")) [
  | inl none_ ↦ let no : none ≡ some (k, b) = rw none_ at e in cc
  | inr typed ↦ let is : some (text_at "type" row, row) ≡ some (k, b) = rw typed at e in cc
]

rel_keys :
    (rows : List Props)
    → All
        (λ (row : Props).
          (k : String) (b : Props) → clone_rel_key row ≡ some (k, b) → text_at "type" b ≡ k)
        rows
rel_keys [] = tt
rel_keys (row ∷ rows) = (rel_key-type row, rel_keys rows)

kept-rel_rows : (rows : List Props) → map sent_rel_row (kept clone_rel_key rows) ≡ copied_rels rows
unfolding kept clone_rel_key
kept-rel_rows [] = refl
kept-rel_rows (row ∷ rows) = elim (Bool-cases (text_at "type" row == "")) [
  | inl none_ ↦ rw (kept, copied_rels, none_) (kept-rel_rows rows)
  | inr typed ↦ rw (kept, copied_rels, typed) (ap (λ l. sent_rel_row row ∷ l) (kept-rel_rows rows))
]

module _ {G E : Type 0} (session : Session G E) (range : (V : Type 0) → Dict V → Dict V) where
  -- What a clone comes to.
  pub data Cloned (from to : String) (g : G) : Result E (Unit {0}) × G → Type 0 where
    no_nodes : {e : E} → query session from nodes_query [] g ≡ err e → Cloned from to g (err e, g)
    no_rels : {e : E} → query session from rels_query [] g ≡ err e → Cloned from to g (err e, g)
    copies :
        {nodes rels : List Props}
        → query session from nodes_query [] g ≡ ok nodes
        → query session from rels_query [] g ≡ ok rels
        → (earlier later : List Statement) → Perm (sent_all earlier) (copied_nodes to nodes)
        → Perm (sent_all later) (copied_rels rels)
        → Cloned from to g (run_all session (earlier ++ later) g)

  module _ (is_order : IsOrder range) where
    node_rows-sent :
        (to : String) (nodes : List Props)
        → Perm
            (sent_all (
              statements (clone_nodes to) (range (List Props) (group_clone_nodes_by_labels nodes))))
            (copied_nodes to nodes)
    unfolding group_clone_nodes_by_labels
    node_rows-sent to nodes =
        let sends =
          group_loop-sent {A = Props} {B = Props} clone_key (clone_nodes to) (sent_row to) HasKey
            (nodes-SendsGroup to) nodes (keys-HasKey nodes)
            (range (List Props) (group_clone_nodes_by_labels nodes))
            (is_order (List Props) (group_clone_nodes_by_labels nodes)) in
        rw (kept-rows to nodes) at sends

    rel_rows-sent :
        (to : String) (rels : List Props)
        → Perm
            (sent_all
              (statements (clone_rels to) (range (List Props) (group_clone_rels_by_type rels))))
            (copied_rels rels)
    unfolding group_clone_rels_by_type
    rel_rows-sent to rels =
        let sends =
          group_loop-sent {A = Props} {B = Props} clone_rel_key (clone_rels to) sent_rel_row
            (λ k row. text_at "type" row ≡ k) (rel_rows-SendsGroup to) rels (rel_keys rels)
            (range (List Props) (group_clone_rels_by_type rels))
            (is_order (List Props) (group_clone_rels_by_type rels)) in
        rw (kept-rel_rows rels) at sends

    write_clone-Cloned :
        (from to : String) (nodes rels : List Props) (g : G)
        → query session from nodes_query [] g ≡ ok nodes
        → query session from rels_query [] g ≡ ok rels
        → Cloned from to g (write_clone session range to nodes rels g)
    unfolding write_clone
    write_clone-Cloned from to nodes rels g e e' =
        let earlier =
          statements (clone_nodes to) (range (List Props) (group_clone_nodes_by_labels nodes)) in
        let later =
          statements (clone_rels to) (range (List Props) (group_clone_rels_by_type rels)) in
        rw (run_each-run_each session (clone_nodes to) (clone_rels to) _ _ g)
          (copies e e' earlier later (node_rows-sent to nodes) (rel_rows-sent to rels))

    -- `CloneDB` writes nothing if one of its two queries fails. Else, whatever the order in which Go ranges
    -- over a map, it sends each node that has a label once, in a statement that creates it with its labels
    -- and properties in the other logical database, and then each relation that has a type once, with its
    -- ends but without its properties, up to the first statement that fails. A node without labels is left
    -- out.
    pub clone_db-Cloned :
        (from to : String) (g : G) → Cloned from to g (clone_db session range from to g)
    unfolding clone_db
    clone_db-Cloned from to g = elim (Result-cases (query session from nodes_query [] g)) [
      | inr (e, bad) ↦ rw (clone_db, bad) (no_nodes bad)
      | inl (nodes, read) ↦ elim (Result-cases (query session from rels_query [] g)) [
        | inr (e, bad) ↦ rw (clone_db, read, bad) (no_rels bad)
        | inl (rels, read') ↦
            rw (clone_db, read, read') (write_clone-Cloned from to nodes rels g read read')
      ]
    ]
