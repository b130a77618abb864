-- ===== src/Assembler/Relations.antt =====
-- Stages 2 and 3 of `Assemble`: which relations are made, and which are kept.
use mathlib.Core.List.{Memᴰ}
use network_digital_twin_pla.Prelude.{
  ◌≡◌, refl, inl, inr, String, true, List, [], ◌∷◌, ◌++◌, Option, none, some, ok, arith, contains,
  All, All-append, All-map, Bool-cases, Option-cases,
}
use network_digital_twin_pla.Prelude.Dict.{Dict, lookup}
use network_digital_twin_pla.Value.{Value}
use network_digital_twin_pla.Schema.Types.{EntityType, RelationType, RelationFieldSpec}
use network_digital_twin_pla.Schema.Registry.{Registry, get_entity_type, get_relation_type}
use network_digital_twin_pla.Normalizer.{NormalizedResource}
use network_digital_twin_pla.Assembler.{
  Relation, to_string_slice, may_start, relations_to, targets_of, field_relations, derive_relations,
}
use network_digital_twin_pla.Assembler.Nodes.{>>=-ok, entity_of_ok}

module _ (r : Registry) where
  -- A relation field of the resource's type lists the target, and its relation type is defined and
  -- may start at the kind.
  pub record Derived (res : NormalizedResource) (rel : Relation) : Type 0 where
    pub entity : EntityType
    pub known : lookup res.kind r.entity_types ≡ some entity
    pub field : String
    pub spec : RelationFieldSpec
    pub declared : Memᴰ (field, spec) entity.spec.relation_fields
    pub relation_type : RelationType
    pub defined : lookup spec.relation_type r.relation_types ≡ some relation_type
    pub starts : contains relation_type.spec.source res.kind ≡ true
    pub value : Value
    pub given : lookup field res.properties ≡ some value
    pub uris : List String
    pub listed : to_string_slice value ≡ some uris
    pub target : contains uris rel.to ≡ true
    pub made : rel ≡ record { type = spec.relation_type; from = res.uri; to = rel.to; props = [] }

  abbrev pub Justified : List NormalizedResource → Relation → Type 0
  Justified resources rel = (res : NormalizedResource) × Memᴰ res resources × Derived res rel

  abbrev MadeOf : String → String → List String → Relation → Type 0
  MadeOf type from targets rel =
      (contains targets rel.to ≡ true)
      × (rel ≡ record { type = type; from = from; to = rel.to; props = [] })

  relations_to-MadeOf :
      (type from : String) (targets : List String)
      → All (MadeOf type from targets) (relations_to type from targets)
  relations_to-MadeOf type from [] = tt
  relations_to-MadeOf type from (t ∷ targets) = (
    (ground arith, refl),
    All-map (MadeOf type from targets) (MadeOf type from (t ∷ targets))
        (relations_to type from targets) (λ rel h. (ground arith, h.1))
        (relations_to-MadeOf type from targets),
  )

  may_start_parts :
      (type kind : String)
      → may_start r type kind ≡ true
      → (rt : RelationType) × (lookup type r.relation_types ≡ some rt)
        × (contains rt.spec.source kind ≡ true)
  unfolding may_start get_relation_type
  may_start_parts type kind h = elim (Option-cases (lookup type r.relation_types)) [
    | inl e ↦ absurd (ground arith)
    | inr (rt, e) ↦ (rt, e, ground arith)
  ]

  module _ (res : NormalizedResource) (et : EntityType)
      (known : lookup res.kind r.entity_types ≡ some et) where
    Derived-of :
        (field : String) (spec : RelationFieldSpec)
        → Memᴰ (field, spec) et.spec.relation_fields
        → may_start r spec.relation_type res.kind ≡ true
        → (rel : Relation)
        → MadeOf spec.relation_type res.uri (targets_of (lookup field res.properties)) rel
        → Derived res rel
    Derived-of field spec m h rel (listed, made) =
        let (rt, defined, starts) = may_start_parts spec.relation_type res.kind h in
        go (lookup field res.properties) refl rt defined starts listed
      where
        go :
            (o : Option Value)
            → lookup field res.properties ≡ o
            → (rt : RelationType) → lookup spec.relation_type r.relation_types ≡ some rt
            → contains rt.spec.source res.kind ≡ true
            → contains (targets_of o) rel.to ≡ true
            → Derived res rel
        go none e rt d s l = cc
        go (some v) e rt d s l = elim (Option-cases (to_string_slice v)) [
          | inl q ↦ absurd (ground arith)
          | inr (uris, q) ↦ record {
            entity = et;
            known = known;
            field = field;
            spec = spec;
            declared = m;
            relation_type = rt;
            defined = d;
            starts = s;
            value = v;
            given = e;
            uris = uris;
            listed = q;
            target = ground arith;
            made = made;
          }
        ]

    field_relations-Derived :
        (fields : Dict RelationFieldSpec)
        → ((e : String × RelationFieldSpec) → Memᴰ e fields → Memᴰ e et.spec.relation_fields)
        → All (Derived res) (field_relations r fields res)
    unfolding field_relations
    field_relations-Derived [] sub = tt
    field_relations-Derived ((field, spec) ∷ fields) sub =
        let rest = field_relations-Derived fields (λ e m. sub e (Memᴰ.tail m)) in
        elim (Bool-cases (may_start r spec.relation_type res.kind)) [
          | inr skip ↦ rw (skip, field_relations) rest
          | inl start ↦
              rw (start, field_relations)
                (All-append (Derived res) _ _
                  (All-map
                    (MadeOf spec.relation_type res.uri (targets_of (lookup field res.properties)))
                    (Derived res) _
                    (Derived-of field spec (sub (field, spec) (Memᴰ.head refl)) start)
                    (relations_to-MadeOf spec.relation_type res.uri
                      (targets_of (lookup field res.properties))))
                  rest)
        ]

  -- Every relation made has its reason in a resource.
  pub derive_relations-Justified :
      (resources : List NormalizedResource) (rels : List Relation)
      → derive_relations r resources ≡ ok rels
      → All (Justified resources) rels
  unfolding derive_relations
  derive_relations-Justified [] [] e = tt
  derive_relations-Justified [] (x ∷ xs) e = cc
  derive_relations-Justified (res ∷ resources) rels e =
      let (et, found, e₁) = >>=-ok (get_entity_type r res.kind) _ e in
      let (rest, made, e₂) = >>=-ok (derive_relations r resources) _ e₁ in
      let same : field_relations r et.spec.relation_fields res ++ rest ≡ rels = cc in
      rw (← same) (
        All-append (Justified (res ∷ resources)) _ _
          (All-map (Derived res) (Justified (res ∷ resources)) _ (λ rel d. (res, Memᴰ.head refl, d))
            (field_relations-Derived res et (entity_of_ok r res.kind et found)
              et.spec.relation_fields (λ x m. m)))
          (All-map (Justified resources) (Justified (res ∷ resources)) _
            (λ rel j. (j.0, Memᴰ.tail j.1, j.2)) (derive_relations-Justified resources rest made)))
