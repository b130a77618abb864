-- ===== src/Schema/Loader.antt =====
-- internal/schema/loader.go. A file is a stream of YAML documents, and the decoder of YAML is a parameter.
-- The texts that wrap an error are left out.
pub mod Documents
pub mod Outcome
use network_digital_twin_pla.Prelude.{
  String, ◌<>◌, Bool, true, false, not, ◌&&◌, ◌||◌, List, [], ◌∷◌, ◌++◌, Option, none, some, Result,
  ok, err, ◌==◌, if◌then◌else◌,
}
use network_digital_twin_pla.Schema.Types.{
  EntityType, RelationType, SchemaError, invalid_schema, unsupported_kind, invalid_api_version,
  read_failed,
}
use network_digital_twin_pla.Schema.Registry.{Registry, Loaded, load}

abbrev pub expected_api_version : String
expected_api_version = "twin.io/v1"

pub record Probe : Type 0 where
  pub api_version : String
  pub kind : String

-- What the decoder finds in a file, document by document.
pub data Stream (N : Type 0) : Type 0 where
  eof : Stream N
  broken : Stream N
  document : N → Stream N → Stream N

-- `yaml.Node.Decode`, into each of the three types.
pub record Decoder (N : Type 0) : Type 0 where
  pub probe : N → Option Probe
  pub entity_type : N → Option EntityType
  pub relation_type : N → Option RelationType

-- The two pointers that `unmarshalNode` returns.
pub data Doc : Type 0 where
  nothing : Doc
  entity : EntityType → Doc
  relation : RelationType → Doc

-- An entry of a directory; the stream is `none` where the file cannot be read.
pub record DirEntry (N : Type 0) : Type 0 where
  pub name : String
  pub is_dir : Bool
  pub contents : Option (Stream N)

abbrev pub Types : Type 0
Types = List EntityType × List RelationType

-- `append`, of what a document gives.
abbrev pub with_doc : Doc → Types → Types
with_doc nothing types = types
with_doc (entity et) (ets, rts) = (et ∷ ets, rts)
with_doc (relation rt) (ets, rts) = (ets, rt ∷ rts)

unfoldable pub has_suffix : String → String → Bool
has_suffix String.[] suffix = suffix == ""
has_suffix (String.◌∷◌ c s) suffix = String.◌∷◌ c s == suffix || has_suffix s suffix

abbrev pub is_yaml : String → Bool
is_yaml name = has_suffix name ".yaml" || has_suffix name ".yml"

module _ {N : Type 0} (yaml : Decoder N) where
  unfoldable pub decode_kind : Probe → N → Result SchemaError Doc
  decode_kind p n =
      if p.kind == "EntityType"
      then elim (yaml.entity_type n) [ none ↦ err invalid_schema | some et ↦ ok (entity et) ]
      else if p.kind == "RelationType"
      then elim (yaml.relation_type n) [ none ↦ err invalid_schema | some rt ↦ ok (relation rt) ]
      else err (unsupported_kind p.kind)

  unfoldable pub unmarshal_node : N → Result SchemaError Doc
  unfolding decode_kind
  unmarshal_node n = elim (yaml.probe n) [
    | none ↦ err invalid_schema
    | some p ↦
        if p.kind == "" && p.api_version == ""
        then ok nothing
        else if p.api_version == expected_api_version
        then decode_kind p n
        else err (invalid_api_version p.api_version)
  ]

  -- The loop of `loadFileExpanded`.
  unfoldable pub read_documents : Stream N → Result SchemaError Types
  unfolding unmarshal_node
  read_documents eof = ok ([], [])
  read_documents broken = err invalid_schema
  read_documents (document n stream) =
      let rest = read_documents stream in
      elim (unmarshal_node n) [
        | err e ↦ err e
        | ok doc ↦ elim rest [ err e ↦ err e | ok types ↦ ok (with_doc doc types) ]
      ]

  unfoldable pub load_file_expanded : String → Option (Stream N) → Result SchemaError Types
  unfolding read_documents
  load_file_expanded path none = err (read_failed path)
  load_file_expanded path (some stream) = read_documents stream

  -- `LoadFromFile` decodes the first document alone.
  unfoldable pub load_from_file : String → Option (Stream N) → Result SchemaError Doc
  unfolding unmarshal_node
  load_from_file path none = err (read_failed path)
  load_from_file path (some eof) = ok nothing
  load_from_file path (some broken) = err invalid_schema
  load_from_file path (some (document n stream)) = unmarshal_node n

  unfoldable pub load_entries : String → List (DirEntry N) → Result SchemaError Types
  unfolding load_file_expanded has_suffix
  load_entries dir [] = ok ([], [])
  load_entries dir (entry ∷ entries) =
      let rest = load_entries dir entries in
      if entry.is_dir || not (is_yaml entry.name)
      then rest
      else elim (load_file_expanded (dir <> "/" <> entry.name) entry.contents) [
        | err e ↦ err e
        | ok (ets, rts) ↦ elim rest [
          | err e ↦ err e
          | ok (ets', rts') ↦ ok (ets ++ ets', rts ++ rts')
        ]
      ]

  -- `LoadFromDir`, from what `os.ReadDir` returns.
  unfoldable pub load_from_dir : String → Option (List (DirEntry N)) → Result SchemaError Types
  unfolding load_entries
  load_from_dir dir none = err (read_failed dir)
  load_from_dir dir (some entries) = load_entries dir entries

  -- `Load` of the registry.
  unfoldable pub load_dir : String → Option (List (DirEntry N)) → Registry → Loaded
  unfolding load_from_dir
  load_dir dir listing r = load dir (load_from_dir dir listing) r
