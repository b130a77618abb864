-- ===== src/Snapshot/Archive.antt =====
-- internal/snapshot/exporter.go and importer.go: an archive is a stream of three YAML documents. The
-- encoder and the decoder of YAML, of streams of type `C`, are parameters; the directory maps a path to a
-- stream.
pub mod RoundTrip
use network_digital_twin_pla.Prelude.{
  ℕ, String, List, [], ◌∷◌, Option, none, some, Result, ok, err, if◌then◌else◌, ◌==◌, ◌>>=◌,
}
use network_digital_twin_pla.Prelude.Dict.{Dict, lookup, insert}
use network_digital_twin_pla.Value.{Props}
use network_digital_twin_pla.Assembler.{Node, Relation}
use network_digital_twin_pla.Snapshot.Manager.{SnapshotMeta, Archives}

pub record YamlMetaDoc : Type 0 where
  pub kind : String
  pub name : String
  pub created_at : ℕ
  pub node_count : ℕ
  pub rel_count : ℕ

pub record YamlNodeItem : Type 0 where
  pub labels : List String
  pub uri : String
  pub props : Props

-- The item as it is read, with the one label of the old format.
pub record YamlNodeItemImport : Type 0 where
  pub label : String
  pub labels : List String
  pub uri : String
  pub props : Props

pub record YamlRelItem : Type 0 where
  pub type : String
  pub from : String
  pub to : String
  pub props : Props

-- A document of nodes or of relations.
pub record ItemsDoc (A : Type 0) : Type 0 where
  pub kind : String
  pub items : List A

unfoldable pub get_labels_of : YamlNodeItemImport → List String
get_labels_of item = elim item.labels [
  | label ∷ labels ↦ label ∷ labels
  | [] ↦ if item.label == "" then [] else item.label ∷ []
]

unfoldable pub node_items : List Node → List YamlNodeItem
node_items [] = []
node_items (n ∷ nodes) =
    record { labels = n.labels; uri = n.uri; props = n.props } ∷ node_items nodes

unfoldable pub rel_items : List Relation → List YamlRelItem
rel_items [] = []
rel_items (r ∷ rels) =
    record { type = r.type; from = r.from; to = r.to; props = r.props } ∷ rel_items rels

unfoldable pub nodes_of : List YamlNodeItemImport → List Node
unfolding get_labels_of
nodes_of [] = []
nodes_of (item ∷ items) =
    record { labels = get_labels_of item; uri = item.uri; props = item.props } ∷ nodes_of items

unfoldable pub rels_of : List YamlRelItem → List Relation
rels_of [] = []
rels_of (item ∷ items) =
    record { type = item.type; from = item.from; to = item.to; props = item.props } ∷ rels_of items

-- `yaml.Encoder` and `yaml.Decoder`, which decode into a type that the caller names, and the errors of
-- `os.Create` and of a file that is not there.
pub record Yaml (C X : Type 0) : Type 0 where
  pub empty : C
  pub encode_meta : YamlMetaDoc → C → Result X C
  pub encode_nodes : ItemsDoc YamlNodeItem → C → Result X C
  pub encode_rels : ItemsDoc YamlRelItem → C → Result X C
  pub decode_meta : C → Result X (YamlMetaDoc × C)
  pub decode_nodes : C → Result X (ItemsDoc YamlNodeItemImport × C)
  pub decode_rels : C → Result X (ItemsDoc YamlRelItem × C)
  pub create : String → Option X
  pub not_found : X

module _ {C X : Type 0} (yaml : Yaml C X) where
  abbrev pub meta_doc : SnapshotMeta → YamlMetaDoc
  meta_doc meta = record {
    kind = "SnapshotMeta";
    name = meta.name;
    created_at = meta.created_at;
    node_count = meta.node_count;
    rel_count = meta.rel_count;
  }

  -- An encoding that fails leaves the documents before it.
  written :
      String
      → C
      → Dict C
      → Result X C
      → (C → Result X (Unit {0}) × Dict C)
      → Result X (Unit {0}) × Dict C
  written path before files (err x) rest = (err x, insert path before files)
  written path before files (ok c) rest = rest c

  unfoldable pub export_to_yaml :
      String → SnapshotMeta → List Node → List Relation → Dict C → Result X (Unit {0}) × Dict C
  unfolding written node_items rel_items
  export_to_yaml path meta nodes rels files = elim (yaml.create path) [
    | some x ↦ (err x, files)
    | none ↦ written path yaml.empty files (yaml.encode_meta (meta_doc meta) yaml.empty) (λ c₁.
        written path c₁ files
          (yaml.encode_nodes (record { kind = "Nodes"; items = node_items nodes }) c₁)
          (λ c₂.
            written path c₂ files
              (yaml.encode_rels (record { kind = "Relations"; items = rel_items rels }) c₂)
              (λ c₃. (ok tt, insert path c₃ files))))
  ]

  open_file : String → Dict C → Result X C
  open_file path files = elim (lookup path files) [ none ↦ err yaml.not_found | some c ↦ ok c ]

  abbrev pub meta_of : String → YamlMetaDoc → SnapshotMeta
  meta_of path doc = record {
    name = doc.name;
    created_at = doc.created_at;
    node_count = doc.node_count;
    rel_count = doc.rel_count;
    file_path = path;
  }

  unfoldable pub import_meta_only : String → Dict C → Result X SnapshotMeta
  unfolding open_file
  import_meta_only path files = do
    c ← open_file path files
    (doc, c₁) ← yaml.decode_meta c
    ok (meta_of path doc)

  unfoldable pub import_from_yaml :
      String → Dict C → Result X (List Node × List Relation × SnapshotMeta)
  unfolding open_file nodes_of rels_of
  import_from_yaml path files = do
    c ← open_file path files
    (doc, c₁) ← yaml.decode_meta c
    (nodes_doc, c₂) ← yaml.decode_nodes c₁
    (rels_doc, c₃) ← yaml.decode_rels c₂
    ok (nodes_of nodes_doc.items, rels_of rels_doc.items, meta_of path doc)

  -- What the manager has of these, with a directory that lists its paths.
  abbrev pub yaml_archives : (String → Dict C → Result X (List String)) → Archives (Dict C) X
  yaml_archives read_dir = record {
    export_to_yaml = export_to_yaml;
    import_from_yaml =
        λ path files. import_from_yaml path files >>= λ (nodes, rels, meta). ok (nodes, rels);
    read_dir = read_dir;
    import_meta_only = import_meta_only;
  }
