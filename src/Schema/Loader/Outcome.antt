-- ===== src/Schema/Loader/Outcome.antt =====
-- What the loader makes of a directory: all of it, or the first error.
use network_digital_twin_pla.Prelude.{
  ◌≡◌, ◌⊎◌, true, false, not, ◌||◌, String, ◌<>◌, List, [], ◌∷◌, ◌++◌, Option, none, some, Result,
  ok, err,
}
use network_digital_twin_pla.Schema.Types.{EntityType, RelationType, SchemaError, read_failed}
use network_digital_twin_pla.Schema.Loader.{Stream, Decoder, DirEntry, Types, is_yaml}
use network_digital_twin_pla.Schema.Types.{no_schemas}
use network_digital_twin_pla.Schema.Registry.{
  Registry, Loaded, add_entity_types, add_relation_types, resolve_inheritance,
}
use network_digital_twin_pla.Schema.Loader.Documents.{Reads, Fails}

module _ {N : Type 0} (yaml : Decoder N) where
  -- A directory, or a file with another suffix.
  abbrev IsSkipped : DirEntry N → Type 0
  IsSkipped entry = (entry.is_dir || not (is_yaml entry.name)) ≡ true

  abbrev IsFile : DirEntry N → Type 0
  IsFile entry = (entry.is_dir || not (is_yaml entry.name)) ≡ false

  -- A file cannot be read, or one of its documents is not valid.
  pub data FileFails (dir : String) (entry : DirEntry N) : SchemaError → Type 0 where
    no_contents :
        entry.contents ≡ none → FileFails dir entry (read_failed (dir <> "/" <> entry.name))
    bad_document :
        {stream : Stream N} {e : SchemaError}
        → entry.contents ≡ some stream
        → Fails yaml stream e
        → FileFails dir entry e

  pub data FileReads (entry : DirEntry N) : Types → Type 0 where
    all_valid :
        {stream : Stream N} {types : Types}
        → entry.contents ≡ some stream
        → Reads yaml stream types
        → FileReads entry types

  -- All files of a directory are read, and give these types in their order.
  pub data Loads : List (DirEntry N) → Types → Type 0 where
    no_entry : Loads [] ([], [])
    skips :
        {entry : DirEntry N} {entries : List (DirEntry N)} {types : Types}
        → IsSkipped entry
        → Loads entries types
        → Loads (entry ∷ entries) types
    reads :
        {entry : DirEntry N} {entries : List (DirEntry N)} {ets ets' : List EntityType}
        {rts rts' : List RelationType}
        → IsFile entry
        → FileReads entry (ets, rts)
        → Loads entries (ets', rts')
        → Loads (entry ∷ entries) (ets ++ ets', rts ++ rts')

  -- The first file that fails has this error.
  pub data Stops (dir : String) : List (DirEntry N) → SchemaError → Type 0 where
    fails :
        {entry : DirEntry N} {entries : List (DirEntry N)} {e : SchemaError}
        → IsFile entry
        → FileFails dir entry e
        → Stops dir (entry ∷ entries) e
    goes_past :
        {entry : DirEntry N} {entries : List (DirEntry N)} {e : SchemaError}
        → IsSkipped entry ⊎ ((types : Types) × FileReads entry types)
        → Stops dir entries e
        → Stops dir (entry ∷ entries) e

  pub DirJudged : String → List (DirEntry N) → Result SchemaError Types → Type 0
  DirJudged dir entries (ok types) = Loads entries types
  DirJudged dir entries (err e) = Stops dir entries e

  FileJudged : String → DirEntry N → Result SchemaError Types → Type 0
  FileJudged dir entry (ok types) = FileReads entry types
  FileJudged dir entry (err e) = FileFails dir entry e

  with_entries : Result SchemaError Types → Result SchemaError Types → Result SchemaError Types
  with_entries (err e) rest = err e
  with_entries (ok types) (err e) = err e
  with_entries (ok (ets, rts)) (ok (ets', rts')) = ok (ets ++ ets', rts ++ rts')

  -- How a registry ends up.
  pub data Outcome (dir : String) (r : Registry)
      : Option (List (DirEntry N)) → Loaded → Type 0 where
    no_directory :
        {l : Loaded} → l.registry ≡ r → l.error ≡ some (read_failed dir) → Outcome dir r none l
    stopped :
        {entries : List (DirEntry N)} {e : SchemaError} {l : Loaded}
        → Stops dir entries e
        → l.registry ≡ r
        → l.error ≡ some e
        → Outcome dir r (some entries) l
    empty_directory :
        {entries : List (DirEntry N)} {l : Loaded}
        → Loads entries ([], [])
        → l.registry ≡ r
        → l.error ≡ some (no_schemas dir)
        → Outcome dir r (some entries) l
    resolved :
        {entries : List (DirEntry N)} {l : Loaded}
        → (ets : List EntityType) → (rts : List RelationType) → Loads entries (ets, rts)
        → l.registry.entity_types ≡ (resolve_inheritance (add_entity_types ets r.entity_types)).0
        → l.registry.relation_types ≡ add_relation_types rts r.relation_types
        → l.error ≡ (resolve_inheritance (add_entity_types ets r.entity_types)).1
        → Outcome dir r (some entries) l
