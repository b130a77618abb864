-- ===== src/Schema/Types.antt =====
-- internal/schema/types.go and internal/schema/errors.go. A slice or map that is nil stands as
-- the empty one, and a `Default` that is nil as `null`.
use network_digital_twin_pla.Prelude.{String, Bool, List}
use network_digital_twin_pla.Prelude.Dict.{Dict}
use network_digital_twin_pla.Value.{Value}

pub record IdentitySpec : Type 0 where
  pub stable_keys : List String

pub record NormalizeRule : Type 0 where
  pub field : String
  pub pattern : String
  pub replace : String

pub record RelationFieldSpec : Type 0 where
  pub relation_type : String

pub record PropertySpec : Type 0 where
  pub type : String
  pub required : Bool
  pub enum : List String
  pub default : Value

pub record EntityTypeSpec : Type 0 where
  pub extends : String
  pub identity : IdentitySpec
  pub uri_template : String
  pub field_mapping : Dict String
  pub normalize : List NormalizeRule
  pub relation_fields : Dict RelationFieldSpec
  pub properties : Dict PropertySpec

pub record Metadata : Type 0 where
  pub name : String
  pub labels : List String

pub record EntityType : Type 0 where
  pub api_version : String
  pub kind : String
  pub metadata : Metadata
  pub spec : EntityTypeSpec

pub record RelationTypeSpec : Type 0 where
  pub source : List String
  pub target : List String

pub record RelationType : Type 0 where
  pub api_version : String
  pub kind : String
  pub metadata : Metadata
  pub spec : RelationTypeSpec

-- The errors of the package, the sentinels of errors.go among them, with what they report.
pub data SchemaError : Type 0 where
  invalid_schema : SchemaError
  unsupported_kind : String → SchemaError
  invalid_api_version : String → SchemaError
  entity_not_found : String → SchemaError  -- `ErrSchemaNotFound`
  relation_not_found : String → SchemaError  -- `ErrSchemaNotFound`
  read_failed : String → SchemaError
  no_schemas : String → SchemaError
  circular_inheritance : String → SchemaError
  unknown_parent : String → String → SchemaError
  -- A case that the code cannot be in: a nil `*EntityType`, or the end of the model's own fuel.
  not_reached : SchemaError
