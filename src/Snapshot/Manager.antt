-- ===== src/Snapshot/Manager.antt =====
-- internal/snapshot/manager.go without a snapshot repository, which makes the cache the only record
-- of the metadata. The YAML files are an interface, an operation reads the clock once, and the
-- locks make each operation one step. Metrics and traces are left out.
pub mod Paging
pub mod Lru
pub mod Operations
pub mod Listing
pub mod Restoring
pub mod Comparing
use network_digital_twin_pla.Prelude.{
  ℕ, zero, suc, ◌+◌, ◌-◌, String, ◌<>◌, Bool, true, false, not, ◌&&◌, List, [], ◌∷◌, ◌++◌, Option,
  none, some, Result, ok, err, length, take, ltb, leb, eqb, ◌==◌, if◌then◌else◌,
}
use network_digital_twin_pla.Prelude.Dict.{Dict, lookup, insert, erase, has}
use network_digital_twin_pla.Text.{decimal}
use network_digital_twin_pla.Text.Sort.{str_leb}
use network_digital_twin_pla.Value.{
  Value, Values, Fields, no_field, field, str, strings, array, object, Props,
}
use network_digital_twin_pla.Assembler.{Node, Relation, to_string_slice}
use network_digital_twin_pla.Graph.{GraphDb}
use network_digital_twin_pla.Snapshot.Audit.{AuditEntry, AuditLog, record_entry}
use network_digital_twin_pla.Schema.Registry.{values}

pub record SnapshotMeta : Type 0 where
  pub name : String
  pub created_at : ℕ
  pub node_count : ℕ
  pub rel_count : ℕ
  pub file_path : String

-- exporter.go, importer.go and the directory. `F` is what the directory holds, `X` the errors.
pub record Archives (F X : Type 0) : Type 0 where
  pub export_to_yaml :
      String → SnapshotMeta → List Node → List Relation → F → Result X (Unit {0}) × F
  pub import_from_yaml : String → F → Result X (List Node × List Relation)
  -- The paths of the archives of a directory, as `ReadDir` and the test of the suffix leave them.
  pub read_dir : String → F → Result X (List String)
  pub import_meta_only : String → F → Result X SnapshotMeta

-- `SnapshotManager`, with the graph and the directory that it works on.
pub record State (G F : Type 0) : Type 0 where
  pub graph : G
  pub files : F
  pub snap_dir : String
  pub max_active : ℕ
  pub last_access : Dict ℕ
  pub meta_cache : Dict SnapshotMeta
  pub cache_ready : Bool
  pub audit_log : AuditLog
  pub retention_days : ℕ

pub data ManagerError (E X : Type 0) : Type 0 where
  query_nodes_failed query_rels_failed has_db_failed clear_failed clone_failed bulk_create_failed :
      E → ManagerError E X
  export_failed import_failed read_dir_failed : X → ManagerError E X
  ensure_loaded_failed : ManagerError E X → ManagerError E X
  -- The end of the model's own fuel.
  not_reached : ManagerError E X

-- `anyToStringSlice`, which reads the two kinds of slices as `toStringSlice` does.
unfoldable pub any_to_string_slice : Option Value → List String
any_to_string_slice none = []
any_to_string_slice (some v) = elim (to_string_slice v) [ none ↦ [] | some xs ↦ xs ]

-- `row[key].(string)`, with the empty string where the assertion fails.
abbrev pub text_of : Option Value → String
text_of (some (str s)) = s
text_of _ = ""

props_of_fields : Fields → Props
props_of_fields no_field = []
props_of_fields (field k v fs) = (k, v) ∷ props_of_fields fs

-- `extractProps`
unfoldable pub extract_props : Option Value → Props
unfolding props_of_fields
extract_props (some (object fs)) = props_of_fields fs
extract_props _ = []

-- The bodies of the two loops of `Create` over the rows of a page.
unfoldable pub nodes_of_rows : List Props → List Node
unfolding any_to_string_slice extract_props
nodes_of_rows [] = []
nodes_of_rows (row ∷ rows) =
    let rest = nodes_of_rows rows in
    let labels = any_to_string_slice (lookup "labels" row) in
    let uri = text_of (lookup "uri" row) in
    if eqb (length labels) 0
    then rest
    else if uri == ""
    then rest
    else record { labels = labels; uri = uri; props = extract_props (lookup "props" row) } ∷ rest

unfoldable pub rels_of_rows : List Props → List Relation
unfolding extract_props
rels_of_rows [] = []
rels_of_rows (row ∷ rows) =
    let rest = rels_of_rows rows in
    let type = text_of (lookup "type" row) in
    let from = text_of (lookup "from" row) in
    let to = text_of (lookup "to" row) in
    if type == ""
    then rest
    else if from == ""
    then rest
    else if to == ""
    then rest
    else record { type = type; from = from; to = to; props = extract_props (lookup "props" row) }
      ∷ rest

abbrev pub page_size : ℕ
page_size = 500

-- Either loop over the pages: `fetch` asks for the rows from `skip` on, `keep` is the inner loop.
-- `none` means that the fuel ran out.
unfoldable pub pages {ℓ} :
    {E : Type 0} {A : Type ℓ}
    → (ℕ → Result E (List Props))
    → (List Props → List A)
    → ℕ
    → ℕ
    → Option (Result E (List A))
pages fetch keep zero skip = none
pages fetch keep (suc f) skip = elim (fetch skip) [
  | err e ↦ some (err e)
  | ok rows ↦
      if ltb (length rows) page_size
      then some (ok (keep rows))
      else elim (pages fetch keep f (skip + page_size)) [
        | none ↦ none
        | some (err e) ↦ some (err e)
        | some (ok rest) ↦ some (ok (keep rows ++ rest))
      ]
]

abbrev pub access_time : Option ℕ → ℕ
access_time none = 0
access_time (some t) = t

-- The order of `cleanup`: by the last access, a missing one being the zero time, then by name.
unfoldable pub older : Dict ℕ → String → String → Bool
older access i j =
    let ti = access_time (lookup i access) in
    let tj = access_time (lookup j access) in if eqb ti tj then not (str_leb j i) else ltb ti tj

insert_older : Dict ℕ → String → List String → List String
unfolding older
insert_older access x [] = x ∷ []
insert_older access x (y ∷ ys) =
    let rest = insert_older access x ys in if older access y x then y ∷ rest else x ∷ y ∷ ys

unfoldable pub sort_older : Dict ℕ → List String → List String
unfolding insert_older
sort_older access [] = []
sort_older access (x ∷ xs) = insert_older access x (sort_older access xs)

abbrev pub not_default : List String → List String
not_default [] = []
not_default (db ∷ dbs) = if db == "default" then not_default dbs else db ∷ not_default dbs

-- The databases that `cleanup` clears, the one accessed longest ago first.
unfoldable pub victims : ℕ → Dict ℕ → List String → List String
unfolding sort_older
victims max_active access dbs =
    let snapshots = not_default dbs in
    if leb (length snapshots) max_active
    then []
    else take (length snapshots - max_active) (sort_older access snapshots)
