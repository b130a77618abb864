-- ===== src/Schema/Registry.antt =====
-- internal/schema/registry.go. The registry's maps hold `*EntityType`; only `Load` writes through
-- these pointers, each of them is in the map under one name, and so the model stores values.
pub mod Labels
pub mod Merge
pub mod Lineage
pub mod Progress
pub mod Resolve
use network_digital_twin_pla.Prelude.{
  ℕ, zero, suc, ◌≡◌, String, Bool, true, false, ◌||◌, List, [], ◌∷◌, ◌++◌, Option, none, some,
  Result, ok, err, ◌>>=◌, ◌==◌, contains, if◌then◌else◌, length,
}
use network_digital_twin_pla.Prelude.Dict.{Dict, lookup, insert, keys, has}
use network_digital_twin_pla.Value.{Value, Props}
use network_digital_twin_pla.Schema.Types.{
  EntityType, EntityTypeSpec, RelationType, RelationFieldSpec, PropertySpec, SchemaError,
  entity_not_found, relation_not_found, no_schemas, circular_inheritance, unknown_parent,
  not_reached,
}
use network_digital_twin_pla.Schema.Inheritance.{
  Dfs, out_of_fuel, circular, done, detect_cycle, topo_sort,
}
use network_digital_twin_pla.Schema.Validator.{FieldError, validate_props, apply_defaults}

-- `registryImpl`
pub record Registry : Type 0 where
  pub entity_types : Dict EntityType
  pub relation_types : Dict RelationType

unfoldable pub new_schema_registry : Registry
new_schema_registry = record { entity_types = []; relation_types = [] }

unfoldable pub get_entity_type : Registry → String → Result SchemaError EntityType
get_entity_type r name = elim (lookup name r.entity_types) [
  | none ↦ err (entity_not_found name)
  | some et ↦ ok et
]

unfoldable pub get_relation_type : Registry → String → Result SchemaError RelationType
get_relation_type r name = elim (lookup name r.relation_types) [
  | none ↦ err (relation_not_found name)
  | some rt ↦ ok rt
]

unfoldable pub values {ℓ} : {V : Type ℓ} → Dict V → List V
values [] = []
values ((k, v) ∷ m) = v ∷ values m

unfoldable pub list_entity_types : Registry → List EntityType
unfolding values
list_entity_types r = values r.entity_types

unfoldable pub list_relation_types : Registry → List RelationType
unfolding values
list_relation_types r = values r.relation_types

-- `errors.Join` of what `validateProps` finds, behind the lookup of the entity type.
pub data ValidateError : Type 0 where
  unknown_kind : SchemaError → ValidateError
  failed : String → List FieldError → ValidateError

unfoldable pub validate : Registry → String → Props → Result ValidateError (Unit {0})
unfolding get_entity_type
validate r kind props = elim (get_entity_type r kind) [
  | err e ↦ err (unknown_kind e)
  | ok et ↦ elim (validate_props et props) [
    | [] ↦ ok tt
    | e ∷ es ↦ err (failed et.metadata.name (e ∷ es))
  ]
]

unfoldable pub apply_schema_defaults : Registry → String → Props → Result SchemaError Props
unfolding get_entity_type
apply_schema_defaults r kind props = do et ← get_entity_type r kind; ok (apply_defaults et props)

-- The loop of `GetLabels`; `none` means that the fuel ran out.
unfoldable pub labels_loop :
    Dict EntityType → ℕ → List String → String → List String → Option (List String)
labels_loop m zero visited current labels = none
labels_loop m (suc f) visited current labels = elim (current == "" || contains visited current) [
  | true ↦ some labels
  | false ↦ elim (lookup current m) [
    | none ↦ some (current ∷ labels)
    | some et ↦ labels_loop m f (current ∷ visited) et.spec.extends (current ∷ labels)
  ]
]

abbrev or_nil : Option (List String) → List String
or_nil none = []
or_nil (some l) = l

-- `GetLabels`. A round visits a new name, and all but the last of these are in the map.
unfoldable pub get_labels : Registry → String → List String
get_labels r kind = elim (lookup kind r.entity_types) [
  | none ↦ kind ∷ []
  | some et ↦
      if et.spec.extends == ""
      then kind ∷ []
      else or_nil (labels_loop r.entity_types (suc (suc (length (keys r.entity_types)))) [] kind [])
]

-- A warning of `crossValidate`: the entity type, its field, and the relation type that it lacks.
pub record UndefinedRelation : Type 0 where
  pub entity : String
  pub field : String
  pub relation_type : String

undefined_in : Dict RelationType → String → Dict RelationFieldSpec → List UndefinedRelation
undefined_in rts entity [] = []
undefined_in rts entity ((field, spec) ∷ rest) =
    let more = undefined_in rts entity rest in
    if has spec.relation_type rts
    then more
    else record { entity = entity; field = field; relation_type = spec.relation_type } ∷ more

cross_validate_types : Dict RelationType → Dict EntityType → List UndefinedRelation
cross_validate_types rts [] = []
cross_validate_types rts ((name, et) ∷ rest) =
    undefined_in rts et.metadata.name et.spec.relation_fields ++ cross_validate_types rts rest

unfoldable pub cross_validate : Registry → List UndefinedRelation
unfolding undefined_in cross_validate_types
cross_validate r = cross_validate_types r.relation_types r.entity_types

-- Step 1 of `resolveInheritance`: the map from child to parent.
unfoldable pub inheritance_of : Dict EntityType → Dict String
inheritance_of [] = []
inheritance_of ((name, et) ∷ rest) =
    let more = inheritance_of rest in
    if et.spec.extends == "" then more else (name, et.spec.extends) ∷ more

-- One of the four loops of `mergeEntityType`: what the parent has and the child lacks.
unfoldable pub merge_missing {ℓ} : {V : Type ℓ} → Dict V → Dict V → Dict V
merge_missing child [] = child
merge_missing child ((k, v) ∷ parent) =
    merge_missing (if has k child then child else insert k v child) parent

-- `append` makes a new list here. Where the parent's slice has room left, Go's `append` writes
-- into the array that it shares; that sharing is not in this definition.
unfoldable pub merge_entity_type : EntityType → EntityType → EntityType
unfolding merge_missing
merge_entity_type child parent =
    let c = child.spec in
    let p = parent.spec in
    record child {
      spec = record c {
        properties = merge_missing c.properties p.properties;
        field_mapping = merge_missing c.field_mapping p.field_mapping;
        normalize = p.normalize ++ c.normalize;
        relation_fields = merge_missing c.relation_fields p.relation_fields;
      };
    }

-- Step 3 of `resolveInheritance`, with the map as it is when the loop ends or fails. The map of
-- parents holds no empty name, so that `parent == ""` says that `child` has no parent.
unfoldable pub merge_all :
    Dict String → List String → Dict EntityType → Dict EntityType × Option SchemaError
merge_all inheritance [] m = (m, none)
merge_all inheritance (child ∷ order) m = elim (lookup child inheritance) [
  | none ↦ merge_all inheritance order m
  | some parent ↦ elim (lookup parent m) [
    | none ↦ (m, some (unknown_parent child parent))
    | some parent_et ↦ elim (lookup child m) [
      | none ↦ (m, some not_reached)
      | some child_et ↦
          merge_all inheritance order (insert child (merge_entity_type child_et parent_et) m)
    ]
  ]
]

-- Steps 2 and 3, and the early return where no type extends another.
unfoldable pub resolve_from : Dict String → Dict EntityType → Dict EntityType × Option SchemaError
resolve_from [] m = (m, none)
resolve_from (e ∷ es) m = elim (detect_cycle (e ∷ es)) [
  | out_of_fuel ↦ (m, some not_reached)
  | circular n ↦ (m, some (circular_inheritance n))
  | done _ _ ↦ elim (topo_sort (e ∷ es)) [
    | none ↦ (m, some not_reached)
    | some order ↦ merge_all (e ∷ es) order m
  ]
]

unfoldable pub resolve_inheritance : Dict EntityType → Dict EntityType × Option SchemaError
unfolding resolve_from
resolve_inheritance m = resolve_from (inheritance_of m) m

unfoldable pub add_entity_types : List EntityType → Dict EntityType → Dict EntityType
add_entity_types [] m = m
add_entity_types (et ∷ ets) m = add_entity_types ets (insert et.metadata.name et m)

unfoldable pub add_relation_types : List RelationType → Dict RelationType → Dict RelationType
add_relation_types [] m = m
add_relation_types (rt ∷ rts) m = add_relation_types rts (insert rt.metadata.name rt m)

-- What `Load` leaves: the registry, the error if there is one, and the warnings logged.
pub record Loaded : Type 0 where
  pub registry : Registry
  pub error : Option SchemaError
  pub warnings : List UndefinedRelation

unfoldable pub finish_load : Registry → Option SchemaError → Loaded
finish_load r none = record { registry = r; error = none; warnings = cross_validate r }
finish_load r (some e) = record { registry = r; error = some e; warnings = [] }

-- `Load`, from what `LoadFromDir` returns for the directory.
unfoldable pub load :
    String → Result SchemaError (List EntityType × List RelationType) → Registry → Loaded
unfolding finish_load
load dir (err e) r = record { registry = r; error = some e; warnings = [] }
load dir (ok ([], [])) r = record { registry = r; error = some (no_schemas dir); warnings = [] }
load dir (ok (ets, rts)) r =
    let (m, error) = resolve_inheritance (add_entity_types ets r.entity_types) in
    finish_load
      (record { entity_types = m; relation_types = add_relation_types rts r.relation_types }) error
