-- ===== src/Assembler/Nodes.antt =====
-- Stage 1 of `Assemble`: the node of each resource.
use mathlib.Core.Path.{subst}
use network_digital_twin_pla.Prelude.{
  ◌≡◌, refl, ◌⊎◌, inl, inr, String, List, [], ◌∷◌, map, none, some, Result, ok, err, ◌>>=◌, arith,
  if◌then◌else◌, All₂,
}
use network_digital_twin_pla.Prelude.Dict.{Dict, lookup, has}
use network_digital_twin_pla.Value.{Props}
use network_digital_twin_pla.Schema.Types.{EntityType, RelationFieldSpec}
use network_digital_twin_pla.Schema.Registry.{Registry, get_entity_type, get_labels}
use network_digital_twin_pla.Normalizer.{NormalizedResource}
use network_digital_twin_pla.Assembler.{Node, plain_props, make_nodes, uris_of}

-- A node keeps the properties that are no relation fields.
pub lookup-plain_props :
    (fields : Dict RelationFieldSpec) (props : Props) (k : String)
    → lookup k (plain_props fields props) ≡ (if has k fields then none else lookup k props)
unfolding plain_props lookup
lookup-plain_props fields [] k = ground arith
lookup-plain_props fields ((j, v) ∷ props) k = ground (arith, lookup-plain_props fields props k)

pub >>=-ok {ℓ κ} :
    {E : Type 0} {A : Type ℓ} {B : Type κ} (m : Result E A) (f : A → Result E B) {b : B}
    → (m >>= f) ≡ ok b
    → (a : A) × (m ≡ ok a) × (f a ≡ ok b)
>>=-ok (ok a) f h = (a, refl, h)
>>=-ok (err e) f h = cc

pub >>=-err {ℓ κ} :
    {E : Type 0} {A : Type ℓ} {B : Type κ} (m : Result E A) (f : A → Result E B) {e : E}
    → (m >>= f) ≡ err e
    → (m ≡ err e) ⊎ ((a : A) × (m ≡ ok a) × (f a ≡ err e))
>>=-err (ok a) f h = inr (a, refl, h)
>>=-err (err e) f h = inl (cc)

module _ (r : Registry) where
  -- The node of a resource.
  pub record NodeOf (res : NormalizedResource) (n : Node) : Type 0 where
    pub labels : n.labels ≡ get_labels r res.kind
    pub uri : n.uri ≡ res.uri
    pub entity : EntityType
    pub known : lookup res.kind r.entity_types ≡ some entity
    pub props :
        (k : String)
        → lookup k n.props
          ≡ (if has k entity.spec.relation_fields then none else lookup k res.properties)

  pub entity_of_ok :
      (kind : String) (et : EntityType)
      → get_entity_type r kind ≡ ok et
      → lookup kind r.entity_types ≡ some et
  unfolding get_entity_type
  entity_of_ok kind et e = ground arith

  pub make_nodes-NodeOf :
      (resources : List NormalizedResource) (nodes : List Node)
      → make_nodes r resources ≡ ok nodes
      → All₂ NodeOf resources nodes
  unfolding make_nodes
  make_nodes-NodeOf [] [] e = tt
  make_nodes-NodeOf [] (n ∷ nodes) e = cc
  make_nodes-NodeOf (res ∷ resources) nodes e =
      let (et, found, e₁) = >>=-ok (get_entity_type r res.kind) _ e in
      let (rest, made, e₂) = >>=-ok (make_nodes r resources) _ e₁ in
      let n : Node = record {
        labels = get_labels r res.kind;
        uri = res.uri;
        props = plain_props et.spec.relation_fields res.properties;
      } in
      let same : n ∷ rest ≡ nodes = cc in
      subst (All₂ NodeOf (res ∷ resources)) same (
        record {
          labels = refl;
          uri = refl;
          entity = et;
          known = entity_of_ok res.kind et found;
          props = lookup-plain_props et.spec.relation_fields res.properties;
        },
        make_nodes-NodeOf resources rest made,
      )

  abbrev pub uris_of_resources : List NormalizedResource → List String
  uris_of_resources = map (λ (res : NormalizedResource). res.uri)

  pub uris_of-NodeOf :
      (resources : List NormalizedResource) (nodes : List Node)
      → All₂ NodeOf resources nodes
      → uris_of nodes ≡ uris_of_resources resources
  uris_of-NodeOf [] [] a = refl
  uris_of-NodeOf [] (n ∷ nodes) a = elim a [ ]
  uris_of-NodeOf (res ∷ resources) [] a = elim a [ ]
  uris_of-NodeOf (res ∷ resources) (n ∷ nodes) (h, rest) =
      cc (h.uri, uris_of-NodeOf resources nodes rest)
