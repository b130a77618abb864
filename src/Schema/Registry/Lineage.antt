-- ===== src/Schema/Registry/Lineage.antt =====
-- What an entity type inherits, independently of how `resolveInheritance` computes it.
use mathlib.Core.Option.{or_else}
use network_digital_twin_pla.Prelude.{
  ◌≡◌, ◌≢◌, refl, ◌∙◌, ap, String, List, [], ◌∷◌, Option, none, some,
}
use network_digital_twin_pla.Prelude.Dict.{Dict, lookup}
use network_digital_twin_pla.Schema.Types.{EntityType, PropertySpec, RelationFieldSpec}
use network_digital_twin_pla.Schema.Registry.{merge_entity_type}
use network_digital_twin_pla.Schema.Registry.Merge.{lookup-merge_missing}

-- The type of a name, its parent's, and so on up to a type that extends none.
pub data Lineage (m : Dict EntityType) : String → List EntityType → Type 0 where
  root :
      {k : String} {et : EntityType}
      → lookup k m ≡ some et
      → et.spec.extends ≡ ""
      → Lineage m k (et ∷ [])
  child :
      {k : String} {et : EntityType} {ets : List EntityType}
      → lookup k m ≡ some et
      → et.spec.extends ≢ ""
      → Lineage m et.spec.extends ets
      → Lineage m k (et ∷ ets)

-- The entry of the nearest type that has one.
abbrev pub nearest {ℓ} : {V : Type ℓ} → (EntityType → Dict V) → List EntityType → String → Option V
nearest part [] p = none
nearest part (et ∷ ets) p = or_else (lookup p (part et)) (nearest part ets p)

abbrev pub properties_of : EntityType → Dict PropertySpec
properties_of et = et.spec.properties

abbrev pub field_mapping_of : EntityType → Dict String
field_mapping_of et = et.spec.field_mapping

abbrev pub relation_fields_of : EntityType → Dict RelationFieldSpec
relation_fields_of et = et.spec.relation_fields

-- `et'` is `et` with what it inherits along its lineage.
pub record Inherits (et et' : EntityType) (lineage : List EntityType) : Type 0 where
  pub properties : (p : String) → lookup p (properties_of et') ≡ nearest properties_of lineage p
  pub field_mapping :
      (p : String) → lookup p (field_mapping_of et') ≡ nearest field_mapping_of lineage p
  pub relation_fields :
      (p : String) → lookup p (relation_fields_of et') ≡ nearest relation_fields_of lineage p
  pub identity : et'.spec.identity ≡ et.spec.identity
  pub uri_template : et'.spec.uri_template ≡ et.spec.uri_template
  pub extends : et'.spec.extends ≡ et.spec.extends
  pub metadata : et'.metadata ≡ et.metadata

or_else-none {ℓ} : {V : Type ℓ} (o : Option V) → o ≡ or_else o none
unfolding or_else
or_else-none none = refl
or_else-none (some v) = refl

pub Inherits_root : (et : EntityType) → Inherits et et (et ∷ [])
Inherits_root et = record {
  properties = λ p. or_else-none (lookup p (properties_of et));
  field_mapping = λ p. or_else-none (lookup p (field_mapping_of et));
  relation_fields = λ p. or_else-none (lookup p (relation_fields_of et));
  identity = refl;
  uri_template = refl;
  extends = refl;
  metadata = refl;
}

pub Inherits_child :
    (et parent parent' : EntityType) (lineage : List EntityType)
    → Inherits parent parent' lineage
    → Inherits et (merge_entity_type et parent') (et ∷ lineage)
unfolding merge_entity_type
Inherits_child et parent parent' lineage i = record {
  properties = λ p.
      lookup-merge_missing p (properties_of et) (properties_of parent')
      ∙ ap (or_else (lookup p (properties_of et))) (i.properties p);
  field_mapping = λ p.
      lookup-merge_missing p (field_mapping_of et) (field_mapping_of parent')
      ∙ ap (or_else (lookup p (field_mapping_of et))) (i.field_mapping p);
  relation_fields = λ p.
      lookup-merge_missing p (relation_fields_of et) (relation_fields_of parent')
      ∙ ap (or_else (lookup p (relation_fields_of et))) (i.relation_fields p);
  identity = refl;
  uri_template = refl;
  extends = refl;
  metadata = refl;
}
