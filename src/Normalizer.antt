-- ===== src/Normalizer.antt =====
-- internal/normalizer/normalizer.go and internal/connector/types.go
pub mod Outcome
pub mod Mapping
use network_digital_twin_pla.Prelude.{
  String, List, [], ◌∷◌, Option, none, some, Result, ok, err, ◌>>=◌, wrap_err,
}
use network_digital_twin_pla.Prelude.Dict.{Dict, lookup, insert, erase}
use network_digital_twin_pla.Text.{replace_all}
use network_digital_twin_pla.Value.{Value, str, Props, Host}
use network_digital_twin_pla.Schema.Types.{NormalizeRule, SchemaError}
use network_digital_twin_pla.Schema.Registry.{
  Registry, get_entity_type, apply_schema_defaults, validate, ValidateError,
}
use network_digital_twin_pla.Uri.{UriError, generate_uri}

-- `connector.Resource`
pub record Resource : Type 0 where
  pub kind : String
  pub id : String
  pub properties : Props

pub record NormalizedResource : Type 0 where
  pub kind : String
  pub uri : String
  pub properties : Props

pub data NormalizeError : Type 0 where
  no_entity_type : SchemaError → NormalizeError
  no_defaults : SchemaError → NormalizeError
  invalid : ValidateError → NormalizeError
  no_uri : UriError → NormalizeError

-- Step 3: `props[dst] = val`, then `delete(props, src)`.
unfoldable pub map_fields : Dict String → Props → Props
map_fields [] props = props
map_fields ((src, dst) ∷ mapping) props =
    map_fields mapping
      (elim (lookup src props) [ none ↦ props | some v ↦ erase src (insert dst v props) ])

apply_rule : NormalizeRule → Option Value → Props → Props
apply_rule rule (some (str s)) props =
    insert rule.field (str (replace_all s rule.pattern rule.replace)) props
apply_rule rule _ props = props

-- Step 4.
unfoldable pub apply_rules : List NormalizeRule → Props → Props
unfolding apply_rule
apply_rules [] props = props
apply_rules (rule ∷ rules) props =
    apply_rules rules (apply_rule rule (lookup rule.field props) props)

-- `Normalize`. The copy that step 2 makes is the same map.
unfoldable pub normalize : Host → Registry → Resource → Result NormalizeError NormalizedResource
normalize host r resource = do
  et ← wrap_err no_entity_type (get_entity_type r resource.kind)
  let mapped = map_fields et.spec.field_mapping resource.properties
  let cleaned = apply_rules et.spec.normalize mapped
  props ← wrap_err no_defaults (apply_schema_defaults r resource.kind cleaned)
  _ ← wrap_err invalid (validate r resource.kind props)
  uri ← wrap_err no_uri (generate_uri host et.spec.uri_template et.spec.identity.stable_keys props)
  ok (record { kind = resource.kind; uri = uri; properties = props })
