-- ===== src/Snapshot/Manager/Comparing/Queries.antt =====
-- internal/snapshot/manager.go: the six queries of `Diff`, on a database that answers them as the language of
-- the queries says.
use mathlib.Core.List.{Memᴰ}
use mathlib.Core.Logic.Iff
use mathlib.Core.Path.{subst}
use mathlib.Core.Option.{some-injective}
use network_digital_twin_pla.Prelude.{
  ◌<◌, ◌≡◌, ◌≢◌, ◌↔◌, inl, inr, Bool, true, String, List, [], ◌∷◌, some, Result, ok, err, eqb,
  length, ◌==◌, Bool-cases, Result-cases, arith,
}
use network_digital_twin_pla.Prelude.Dict.{Dict, lookup}
use network_digital_twin_pla.Value.{Value, Props, Host}
use network_digital_twin_pla.Assembler.{Node, Relation}
use network_digital_twin_pla.Graph.Driver.{Param, text}
use network_digital_twin_pla.Snapshot.Diff.{NodeChange, RelChange, SnapshotDiff}
use network_digital_twin_pla.Snapshot.Manager.{nodes_of_rows, rels_of_rows}
use network_digital_twin_pla.Snapshot.Manager.Comparing.{
  ComparingError, added_nodes_failed, removed_nodes_failed, added_rels_failed, removed_rels_failed,
  changed_nodes_failed, changed_rels_failed, missing_nodes_query, missing_rels_query,
  changed_nodes_query, changed_rels_query, node_changes, rel_changes, diff_loaded,
}
use network_digital_twin_pla.Snapshot.Manager.Comparing.Rows.{
  Answered, ShowsNode, ShowsRel, ShowsNodes, ShowsRels, reported_node, reported_rel,
  reported_change, reported_rel_change, nodes_of_rows-Memᴰ, rels_of_rows-Memᴰ, node_changes-Memᴰ,
  rel_changes-Memᴰ,
}

-- A node of one graph whose URI no node of the other has.
abbrev pub MissingNode : List Node → List Node → Node → Type 0
MissingNode here there n = Memᴰ n here × ((m : Node) → Memᴰ m there → m.uri ≢ n.uri)

abbrev pub SameEnds : Relation → Relation → Type 0
SameEnds q r = (q.type ≡ r.type) × (q.from ≡ r.from) × (q.to ≡ r.to)

abbrev pub MissingRel : List Relation → List Relation → Relation → Type 0
MissingRel here there r = Memᴰ r here × ((q : Relation) → Memᴰ q there → SameEnds q r → ⊥)

-- A key that both maps hold with values that differ, as `<>` of the queries tells.
abbrev pub DifferAt : (Value → Value → Bool) → Props → Props → String → Type 0
DifferAt differs a b k =
    (x : Value) × (y : Value) × (lookup k a ≡ some x) × (lookup k b ≡ some y) × (differs x y ≡ true)

abbrev pub ChangedNodes : (Value → Value → Bool) → List Node → List Node → Node × Node → Type 0
ChangedNodes differs ms ns (m, n) =
    Memᴰ m ms
    × Memᴰ n ns
    × (m.uri ≡ n.uri)
    × (m.labels ≡ n.labels)
    × ((k : String) × (k ≢ "_db") × DifferAt differs m.props n.props k)

abbrev pub ChangedRels :
    (Value → Value → Bool) → List Relation → List Relation → Relation × Relation → Type 0
ChangedRels differs qs rs (q, r) =
    Memᴰ q qs × Memᴰ r rs × SameEnds q r × ((k : String) × DifferAt differs q.props r.props k)

-- What a logical database holds. The properties of a node are all those that it has in the database.
pub record Stored : Type 0 where
  pub nodes : List Node
  pub rels : List Relation

-- With a label and a URI.
abbrev pub IsNamed : Node → Type 0
IsNamed n = (0 < length n.labels) × (n.uri ≢ "")

abbrev pub IsTyped : Relation → Type 0
IsTyped r = (r.type ≢ "") × (r.from ≢ "") × (r.to ≢ "")

reported_node_parts : (m n : Node) → reported_node m ≡ some n → (m ≡ n) × IsNamed m
reported_node_parts m n e = elim (Bool-cases (eqb (length m.labels) 0)) [
  | inl bare ↦ absurd (ground (arith, bare, e))
  | inr labelled ↦ elim (Bool-cases (m.uri == "")) [
    | inl nameless ↦ absurd (ground (arith, labelled, nameless, e))
    | inr named ↦
        let same : some m ≡ some n = ground (arith, labelled, named, e) in
        (some-injective m n same, (ground arith, λ empty. ground arith))
  ]
]

reported_rel_parts : (q r : Relation) → reported_rel q ≡ some r → (q ≡ r) × IsTyped q
reported_rel_parts q r e = elim (Bool-cases (q.type == "")) [
  | inl bare ↦ absurd (ground (arith, bare, e))
  | inr typed ↦ elim (Bool-cases (q.from == "")) [
    | inl rootless ↦ absurd (ground (arith, typed, rootless, e))
    | inr rooted ↦ elim (Bool-cases (q.to == "")) [
      | inl endless ↦ absurd (ground (arith, typed, rooted, endless, e))
      | inr ended ↦
          let same : some q ≡ some r = ground (arith, typed, rooted, ended, e) in
          (some-injective q r same, ((λ e. ground arith), (λ e. ground arith), λ e. ground arith))
    ]
  ]
]

node-reported : (n : Node) → IsNamed n → reported_node n ≡ some n
node-reported n named = ground arith

rel-reported : (r : Relation) → IsTyped r → reported_rel r ≡ some r
rel-reported r typed = ground arith

-- What is reported of the nodes that are asked for.
reported_nodes :
    {Asked : Node → Type 0} (n : Node)
    → ((m : Node) × Asked m × (reported_node m ≡ some n)) ↔ (Asked n × IsNamed n)
reported_nodes {Asked} n = (
  (λ (m, asked, reported).
      let (same, named) = reported_node_parts m n reported in
      (subst Asked same asked, subst IsNamed same named)),
  (λ (asked, named). (n, asked, node-reported n named)),
)

reported_rels :
    {Asked : Relation → Type 0} (r : Relation)
    → ((q : Relation) × Asked q × (reported_rel q ≡ some r)) ↔ (Asked r × IsTyped r)
reported_rels {Asked} r = (
  (λ (q, asked, reported).
      let (same, typed) = reported_rel_parts q r reported in
      (subst Asked same asked, subst IsTyped same typed)),
  (λ (asked, typed). (r, asked, rel-reported r typed)),
)

module _ {E : Type 0} (host : Host) (differs : Value → Value → Bool)
    (query : String → String → Dict Param → Result E (List Props)) (a b : String) where
  -- The rows of the six queries are those that their texts ask for, in any order.
  pub record Answers (in_a in_b : Stored) : Type 0 where
    pub added_nodes :
        (rows : List Props)
        → query b missing_nodes_query (("other", text a) ∷ []) ≡ ok rows
        → Answered ShowsNode (MissingNode in_b.nodes in_a.nodes) rows
    pub removed_nodes :
        (rows : List Props)
        → query a missing_nodes_query (("other", text b) ∷ []) ≡ ok rows
        → Answered ShowsNode (MissingNode in_a.nodes in_b.nodes) rows
    pub added_rels :
        (rows : List Props)
        → query b missing_rels_query (("other", text a) ∷ []) ≡ ok rows
        → Answered ShowsRel (MissingRel in_b.rels in_a.rels) rows
    pub removed_rels :
        (rows : List Props)
        → query a missing_rels_query (("other", text b) ∷ []) ≡ ok rows
        → Answered ShowsRel (MissingRel in_a.rels in_b.rels) rows
    pub changed_nodes :
        (rows : List Props)
        → query b changed_nodes_query (("a", text a) ∷ ("b", text b) ∷ []) ≡ ok rows
        → Answered (ShowsNodes host) (ChangedNodes differs in_a.nodes in_b.nodes) rows
    pub changed_rels :
        (rows : List Props)
        → query b changed_rels_query (("a", text a) ∷ ("b", text b) ∷ []) ≡ ok rows
        → Answered (ShowsRels host) (ChangedRels differs in_a.rels in_b.rels) rows

  pub record Compared (in_a in_b : Stored) (d : SnapshotDiff) : Type 0 where
    pub added_nodes :
        (n : Node) → Memᴰ n d.added_nodes ↔ (MissingNode in_b.nodes in_a.nodes n × IsNamed n)
    pub removed_nodes :
        (n : Node) → Memᴰ n d.removed_nodes ↔ (MissingNode in_a.nodes in_b.nodes n × IsNamed n)
    pub added_rels :
        (r : Relation) → Memᴰ r d.added_rels ↔ (MissingRel in_b.rels in_a.rels r × IsTyped r)
    pub removed_rels :
        (r : Relation) → Memᴰ r d.removed_rels ↔ (MissingRel in_a.rels in_b.rels r × IsTyped r)
    pub changed_nodes :
        (c : NodeChange)
        → Memᴰ c d.changed_nodes ↔ (
            (p : Node × Node) × ChangedNodes differs in_a.nodes in_b.nodes p
            × (reported_change host p ≡ some c))
    pub changed_rels :
        (c : RelChange)
        → Memᴰ c d.changed_rels ↔ (
            (p : Relation × Relation) × ChangedRels differs in_a.rels in_b.rels p
            × (reported_rel_change host p ≡ some c))

  rows-Compared :
      (in_a in_b : Stored) (answers : Answers in_a in_b) {r1 r2 r3 r4 r5 r6 : List Props}
      → query b missing_nodes_query (("other", text a) ∷ []) ≡ ok r1
      → query a missing_nodes_query (("other", text b) ∷ []) ≡ ok r2
      → query b missing_rels_query (("other", text a) ∷ []) ≡ ok r3
      → query a missing_rels_query (("other", text b) ∷ []) ≡ ok r4
      → query b changed_nodes_query (("a", text a) ∷ ("b", text b) ∷ []) ≡ ok r5
      → query b changed_rels_query (("a", text a) ∷ ("b", text b) ∷ []) ≡ ok r6
      → Compared in_a in_b (record {
        added_nodes = nodes_of_rows r1;
        removed_nodes = nodes_of_rows r2;
        added_rels = rels_of_rows r3;
        removed_rels = rels_of_rows r4;
        changed_nodes = node_changes host r5;
        changed_rels = rel_changes host r6;
      })
  rows-Compared in_a in_b answers e1 e2 e3 e4 e5 e6 = record {
    added_nodes =
        λ n. Iff.trans (nodes_of_rows-Memᴰ (answers.added_nodes _ e1) n) (reported_nodes n);
    removed_nodes =
        λ n. Iff.trans (nodes_of_rows-Memᴰ (answers.removed_nodes _ e2) n) (reported_nodes n);
    added_rels = λ r. Iff.trans (rels_of_rows-Memᴰ (answers.added_rels _ e3) r) (reported_rels r);
    removed_rels =
        λ r. Iff.trans (rels_of_rows-Memᴰ (answers.removed_rels _ e4) r) (reported_rels r);
    changed_nodes = node_changes-Memᴰ host (answers.changed_nodes _ e5);
    changed_rels = rel_changes-Memᴰ host (answers.changed_rels _ e6);
  }

  module _ (X : Type 0) where
    -- The first query that fails ends the comparison, those before it having been answered.
    pub data Ended (in_a in_b : Stored) : Result (ComparingError E X) SnapshotDiff → Type 0 where
      added_nodes_fails :
          {e : E}
          → query b missing_nodes_query (("other", text a) ∷ []) ≡ err e
          → Ended in_a in_b (err (added_nodes_failed e))
      removed_nodes_fails :
          {e : E} {r1 : List Props}
          → query b missing_nodes_query (("other", text a) ∷ []) ≡ ok r1
          → query a missing_nodes_query (("other", text b) ∷ []) ≡ err e
          → Ended in_a in_b (err (removed_nodes_failed e))
      added_rels_fails :
          {e : E} {r1 r2 : List Props}
          → query b missing_nodes_query (("other", text a) ∷ []) ≡ ok r1
          → query a missing_nodes_query (("other", text b) ∷ []) ≡ ok r2
          → query b missing_rels_query (("other", text a) ∷ []) ≡ err e
          → Ended in_a in_b (err (added_rels_failed e))
      removed_rels_fails :
          {e : E} {r1 r2 r3 : List Props}
          → query b missing_nodes_query (("other", text a) ∷ []) ≡ ok r1
          → query a missing_nodes_query (("other", text b) ∷ []) ≡ ok r2
          → query b missing_rels_query (("other", text a) ∷ []) ≡ ok r3
          → query a missing_rels_query (("other", text b) ∷ []) ≡ err e
          → Ended in_a in_b (err (removed_rels_failed e))
      changed_nodes_fails :
          {e : E} {r1 r2 r3 r4 : List Props}
          → query b missing_nodes_query (("other", text a) ∷ []) ≡ ok r1
          → query a missing_nodes_query (("other", text b) ∷ []) ≡ ok r2
          → query b missing_rels_query (("other", text a) ∷ []) ≡ ok r3
          → query a missing_rels_query (("other", text b) ∷ []) ≡ ok r4
          → query b changed_nodes_query (("a", text a) ∷ ("b", text b) ∷ []) ≡ err e
          → Ended in_a in_b (err (changed_nodes_failed e))
      changed_rels_fails :
          {e : E} {r1 r2 r3 r4 r5 : List Props}
          → query b missing_nodes_query (("other", text a) ∷ []) ≡ ok r1
          → query a missing_nodes_query (("other", text b) ∷ []) ≡ ok r2
          → query b missing_rels_query (("other", text a) ∷ []) ≡ ok r3
          → query a missing_rels_query (("other", text b) ∷ []) ≡ ok r4
          → query b changed_nodes_query (("a", text a) ∷ ("b", text b) ∷ []) ≡ ok r5
          → query b changed_rels_query (("a", text a) ∷ ("b", text b) ∷ []) ≡ err e
          → Ended in_a in_b (err (changed_rels_failed e))
      compares : {d : SnapshotDiff} → Compared in_a in_b d → Ended in_a in_b (ok d)

    pub diff_loaded-Ended :
        (in_a in_b : Stored) → Answers in_a in_b → Ended in_a in_b (diff_loaded host X query a b)
    unfolding diff_loaded
    diff_loaded-Ended in_a in_b answers =
        elim (Result-cases (query b missing_nodes_query (("other", text a) ∷ []))) [
          | inr (e, f1) ↦ rw (diff_loaded, f1) (added_nodes_fails f1)
          | inl (r1, e1) ↦
              elim (Result-cases (query a missing_nodes_query (("other", text b) ∷ []))) [
                | inr (e, f2) ↦ rw (diff_loaded, e1, f2) (removed_nodes_fails e1 f2)
                | inl (r2, e2) ↦
                    elim (Result-cases (query b missing_rels_query (("other", text a) ∷ []))) [
                      | inr (e, f3) ↦ rw (diff_loaded, e1, e2, f3) (added_rels_fails e1 e2 f3)
                      | inl (r3, e3) ↦
                          elim (Result-cases
                            (query a missing_rels_query (("other", text b) ∷ []))) [
                              | inr (e, f4) ↦
                                  rw (diff_loaded, e1, e2, e3, f4) (removed_rels_fails e1 e2 e3 f4)
                              | inl (r4, e4) ↦
                                  elim (Result-cases (
                                    query b changed_nodes_query
                                      (("a", text a) ∷ ("b", text b) ∷ []))) [
                                        | inr (e, f5) ↦
                                            rw (diff_loaded, e1, e2, e3, e4, f5)
                                              (changed_nodes_fails e1 e2 e3 e4 f5)
                                        | inl (r5, e5) ↦
                                            elim (Result-cases (
                                              query b changed_rels_query
                                                (("a", text a) ∷ ("b", text b) ∷ []))) [
                                                  | inr (e, f6) ↦
                                                      rw (diff_loaded, e1, e2, e3, e4, e5, f6)
                                                        (changed_rels_fails e1 e2 e3 e4 e5 f6)
                                                  | inl (r6, e6) ↦
                                                      rw (diff_loaded, e1, e2, e3, e4, e5, e6)
                                                        (compares (
                                                          rows-Compared in_a in_b answers e1 e2 e3
                                                            e4 e5 e6))
                                                ]
                                      ]
                            ]
                    ]
              ]
        ]
