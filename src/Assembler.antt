-- ===== src/Assembler.antt =====
-- internal/assembler: types.go and assembler.go
pub mod Nodes
pub mod Relations
pub mod Complete
pub mod Outcome
use network_digital_twin_pla.Prelude.{
  String, ◌<>◌, Bool, true, false, List, [], ◌∷◌, ◌++◌, Option, none, some, Result, ok, err, ◌>>=◌,
  contains, if◌then◌else◌,
}
use network_digital_twin_pla.Prelude.Dict.{Dict, lookup, has}
use network_digital_twin_pla.Value.{Value, Values, end, item, null, str, strings, array, Props}
use network_digital_twin_pla.Schema.Types.{EntityType, RelationType, RelationFieldSpec, SchemaError}
use network_digital_twin_pla.Schema.Registry.{
  Registry, get_entity_type, get_relation_type, get_labels,
}
use network_digital_twin_pla.Normalizer.{NormalizedResource}

pub record Node : Type 0 where
  pub labels : List String
  pub uri : String
  pub props : Props

unfoldable pub new_node : String → String → Props → Node
new_node label uri props = record { labels = label ∷ []; uri = uri; props = props }

abbrev pub last_of : List String → String
last_of [] = ""
last_of (x ∷ []) = x
last_of (x ∷ y ∷ ys) = last_of (y ∷ ys)

unfoldable pub most_specific_label : Node → String
most_specific_label n = last_of n.labels

pub record Relation : Type 0 where
  pub type : String
  pub from : String
  pub to : String
  pub props : Props

pub record GraphModel : Type 0 where
  pub nodes : List Node
  pub relations : List Relation

pub record ValidationWarning : Type 0 where
  pub type : String
  pub detail : String

items_strings : Values → List String
items_strings end = []
items_strings (item (str s) vs) = s ∷ items_strings vs
items_strings (item v vs) = items_strings vs

unfoldable pub to_string_slice : Value → Option (List String)
unfolding items_strings
to_string_slice (strings xs) = some xs
to_string_slice (array vs) = some (items_strings vs)
to_string_slice _ = none

-- The properties that are no relation fields.
unfoldable pub plain_props : Dict RelationFieldSpec → Props → Props
plain_props fields [] = []
plain_props fields ((k, v) ∷ props) =
    let rest = plain_props fields props in if has k fields then rest else (k, v) ∷ rest

abbrev pub relations_to : String → String → List String → List Relation
relations_to type from [] = []
relations_to type from (target ∷ targets) =
    record { type = type; from = from; to = target; props = [] } ∷ relations_to type from targets

abbrev pub targets_of : Option Value → List String
targets_of none = []
targets_of (some v) = elim (to_string_slice v) [ none ↦ [] | some uris ↦ uris ]

module _ (r : Registry) where
  -- Stage 1. The set `uriIndex` holds the URIs of the nodes.
  unfoldable pub make_nodes : List NormalizedResource → Result SchemaError (List Node)
  make_nodes [] = ok []
  make_nodes (res ∷ resources) = do
    et ← get_entity_type r res.kind
    nodes ← make_nodes resources
    ok (
        record {
          labels = get_labels r res.kind;
          uri = res.uri;
          props = plain_props et.spec.relation_fields res.properties;
        }
        ∷ nodes)

  -- The relation type is defined, and may start at the kind.
  unfoldable pub may_start : String → String → Bool
  may_start relation_type kind = elim (get_relation_type r relation_type) [
    | err e ↦ false
    | ok rt ↦ contains rt.spec.source kind
  ]

  -- The loop of stage 2 over the relation fields of one resource.
  unfoldable pub field_relations : Dict RelationFieldSpec → NormalizedResource → List Relation
  unfolding may_start to_string_slice
  field_relations [] res = []
  field_relations ((field, spec) ∷ fields) res =
      let rest = field_relations fields res in
      if may_start spec.relation_type res.kind
      then relations_to spec.relation_type res.uri (targets_of (lookup field res.properties))
        ++ rest
      else rest

  -- Stage 2.
  unfoldable pub derive_relations : List NormalizedResource → Result SchemaError (List Relation)
  unfolding field_relations
  derive_relations [] = ok []
  derive_relations (res ∷ resources) = do
    et ← get_entity_type r res.kind
    rest ← derive_relations resources
    ok (field_relations et.spec.relation_fields res ++ rest)

abbrev pub uris_of : List Node → List String
uris_of [] = []
uris_of (n ∷ nodes) = n.uri ∷ uris_of nodes

orphan : Relation → ValidationWarning
orphan rel = record {
  type = "orphan_edge";
  detail = rel.type <> ": " <> rel.from <> " → " <> rel.to;
}

-- Stage 3.
unfoldable pub keep_relations : List String → List Relation → List Relation × List ValidationWarning
unfolding orphan
keep_relations uris [] = ([], [])
keep_relations uris (rel ∷ rels) =
    let (valid, warnings) = keep_relations uris rels in
    if contains uris rel.to then (rel ∷ valid, warnings) else (valid, orphan rel ∷ warnings)

-- `Assemble`
unfoldable pub assemble :
    Registry → List NormalizedResource → Result SchemaError (GraphModel × List ValidationWarning)
unfolding make_nodes derive_relations keep_relations
assemble r resources = do
  nodes ← make_nodes r resources
  relations ← derive_relations r resources
  let (valid, warnings) = keep_relations (uris_of nodes) relations
  ok (record { nodes = nodes; relations = valid }, warnings)
