-- ===== src/Assembler/Outcome.antt =====
-- `Assemble` as a whole: the graph it builds, or the resource it stops at.
use mathlib.Core.List.{Memᴰ}
use network_digital_twin_pla.Prelude.{
  ◌+◌, ◌≡◌, refl, ◌⊎◌, inl, inr, String, true, List, [], ◌∷◌, ◌++◌, none, ok, err, arith, contains,
  length, All, All₂, Option-cases, Result, Result-cases,
}
use network_digital_twin_pla.Prelude.Dict.{lookup}
use network_digital_twin_pla.Schema.Types.{SchemaError, entity_not_found}
use network_digital_twin_pla.Schema.Registry.{Registry, get_entity_type}
use network_digital_twin_pla.Normalizer.{NormalizedResource}
use network_digital_twin_pla.Assembler.{
  Node, Relation, GraphModel, ValidationWarning, make_nodes, field_relations, derive_relations,
  uris_of, keep_relations, assemble,
}
use network_digital_twin_pla.Assembler.Nodes.{>>=-ok, >>=-err, NodeOf, make_nodes-NodeOf}
use network_digital_twin_pla.Assembler.Relations.{Justified, derive_relations-Justified}
use network_digital_twin_pla.Assembler.Complete.{
  derive_relations-complete, keep_relations-has, keep_relations-count, keep_relations-All,
}

module _ (r : Registry) (resources : List NormalizedResource) where
  -- A resource is of a kind that the registry does not know, and the error names it.
  pub record UnknownKind (result : Result SchemaError (GraphModel × List ValidationWarning))
      : Type 0 where
    pub resource : NormalizedResource
    pub among : Memᴰ resource resources
    pub missing : lookup resource.kind r.entity_types ≡ none
    pub reported : result ≡ err (entity_not_found resource.kind)

  -- The graph has a node for each resource in order, and exactly those relations that have a reason
  -- and a target among the nodes; each other relation made leaves a warning.
  pub record Assembled (result : Result SchemaError (GraphModel × List ValidationWarning))
      : Type 0 where
    pub model : GraphModel
    pub warnings : List ValidationWarning
    pub returned : result ≡ ok (model, warnings)
    pub nodes : All₂ (NodeOf r) resources model.nodes
    pub justified :
        All
          (λ rel. Justified r resources rel × (contains (uris_of model.nodes) rel.to ≡ true))
          model.relations
    pub complete :
        (rel : Relation)
        → Justified r resources rel
        → contains (uris_of model.nodes) rel.to ≡ true
        → Memᴰ rel model.relations
    pub made : List Relation
    pub all_made : derive_relations r resources ≡ ok made
    pub counted : length model.relations + length warnings ≡ length made

missing_of_err :
    (r : Registry) (kind : String) (e : SchemaError)
    → get_entity_type r kind ≡ err e
    → (lookup kind r.entity_types ≡ none) × (e ≡ entity_not_found kind)
unfolding get_entity_type
missing_of_err r kind e h = elim (Option-cases (lookup kind r.entity_types)) [
  | inl n ↦ (n, ground arith)
  | inr (et, s) ↦ absurd (ground arith)
]

module _ (r : Registry) where
  make_nodes_err :
      (resources : List NormalizedResource) (e : SchemaError)
      → make_nodes r resources ≡ err e
      → (res : NormalizedResource) × Memᴰ res resources
        × (lookup res.kind r.entity_types ≡ none)
        × (e ≡ entity_not_found res.kind)
  unfolding make_nodes
  make_nodes_err [] e h = cc
  make_nodes_err (res ∷ resources) e h = elim (>>=-err (get_entity_type r res.kind) _ h) [
    | inl found ↦
        let (missing, same) = missing_of_err r res.kind e found in
        (res, Memᴰ.head refl, missing, same)
    | inr (et, found, h₁) ↦ elim (>>=-err (make_nodes r resources) _ h₁) [
      | inl rest ↦ let (x, m, n, q) = make_nodes_err resources e rest in (x, Memᴰ.tail m, n, q)
      | inr (nodes, made, h₂) ↦ cc
    ]
  ]

  -- The second stage meets no unknown kind after the first has met none.
  derive_relations_total :
      (resources : List NormalizedResource) (nodes : List Node)
      → make_nodes r resources ≡ ok nodes
      → (rels : List Relation) × (derive_relations r resources ≡ ok rels)
  unfolding derive_relations make_nodes
  derive_relations_total [] nodes e = ([], refl)
  derive_relations_total (res ∷ resources) nodes e =
      let (et, found, e₁) = >>=-ok (get_entity_type r res.kind) _ e in
      let (rest, made, e₂) = >>=-ok (make_nodes r resources) _ e₁ in
      let (rels, derived) = derive_relations_total resources rest made in
      (field_relations r et.spec.relation_fields res ++ rels, rw (found, derived) refl)

  -- `Assemble` ends in one of two ways. Either some resource is of a kind that the registry does
  -- not know, and the error names that kind; or there is a graph, with one node for each resource,
  -- in order (its URI and labels, and the properties that are no relation fields), whose relations
  -- are exactly those that a relation field of a resource lists, with a defined relation type that
  -- may start at its kind, and whose target is the URI of a node. The relations that are left out
  -- are as many as the warnings.
  pub assemble_outcome :
      (resources : List NormalizedResource)
      → UnknownKind r resources (assemble r resources)
        ⊎ Assembled r resources (assemble r resources)
  unfolding assemble
  assemble_outcome resources = elim (Result-cases (make_nodes r resources)) [
    | inr (e, failed) ↦
        let (res, m, n, q) = make_nodes_err resources e failed in
        inl (record { resource = res; among = m; missing = n; reported = rw (failed) (cc q) })
    | inl (nodes, made_nodes) ↦
        let (rels, derived) = derive_relations_total resources nodes made_nodes in
        inr (record {
          model = record { nodes = nodes; relations = (keep_relations (uris_of nodes) rels).0 };
          warnings = (keep_relations (uris_of nodes) rels).1;
          returned = rw (made_nodes, derived) refl;
          nodes = make_nodes-NodeOf r resources nodes made_nodes;
          justified =
              keep_relations-All (Justified r resources) (uris_of nodes) rels
                (derive_relations-Justified r resources rels derived);
          complete = λ rel j here.
              keep_relations-has (uris_of nodes) rels rel
                (derive_relations-complete r resources rels derived rel j) here;
          made = rels;
          all_made = derived;
          counted = keep_relations-count (uris_of nodes) rels;
        })
  ]
