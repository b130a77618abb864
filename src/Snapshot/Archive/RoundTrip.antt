-- ===== src/Snapshot/Archive/RoundTrip.antt =====
-- What is written to an archive is read from it.
use network_digital_twin_pla.Prelude.{
  ◌≡◌, ◌≢◌, refl, ap, inl, inr, String, List, [], ◌∷◌, map, Result, ok, err, Result-cases,
  Option-cases, arith, ◌>>=◌, String-discrete,
}
use network_digital_twin_pla.Prelude.Dict.{Dict, lookup, insert, lookup-insert, lookup-insert_self}
use network_digital_twin_pla.Value.{Props}
use network_digital_twin_pla.Assembler.{Node, Relation}
use network_digital_twin_pla.Snapshot.Manager.{SnapshotMeta}
use network_digital_twin_pla.Snapshot.Archive.{
  YamlMetaDoc, YamlNodeItem, YamlNodeItemImport, YamlRelItem, ItemsDoc, get_labels_of, node_items,
  rel_items, nodes_of, rels_of, Yaml, meta_doc, written, export_to_yaml, open_file,
  import_meta_only, import_from_yaml,
}

-- YAML may read a value as another type than it was written from, such as a number of 64 bits as an
-- `int`: `reload` says what becomes of properties.
module _ (reload : Props → Props) where
  abbrev pub read_node_item : YamlNodeItem → YamlNodeItemImport
  read_node_item item = record {
    label = "";
    labels = item.labels;
    uri = item.uri;
    props = reload item.props;
  }

  abbrev pub read_rel_item : YamlRelItem → YamlRelItem
  read_rel_item item = record item { props = reload item.props }

  abbrev pub reload_node : Node → Node
  reload_node n = record n { props = reload n.props }

  abbrev pub reload_rel : Relation → Relation
  reload_rel r = record r { props = reload r.props }

  get_labels_of-read :
      (labels : List String) (uri : String) (props : Props)
      → get_labels_of (record { label = ""; labels = labels; uri = uri; props = props }) ≡ labels
  unfolding get_labels_of String-discrete
  get_labels_of-read [] uri props = refl
  get_labels_of-read (l ∷ labels) uri props = refl

  nodes_of-node_items :
      (nodes : List Node) → nodes_of (map read_node_item (node_items nodes)) ≡ map reload_node nodes
  unfolding nodes_of node_items
  nodes_of-node_items [] = refl
  nodes_of-node_items (n ∷ nodes) =
      rw (get_labels_of-read n.labels n.uri (reload n.props))
        (ap (λ l. reload_node n ∷ l) (nodes_of-node_items nodes))

  rels_of-rel_items :
      (rels : List Relation) → rels_of (map read_rel_item (rel_items rels)) ≡ map reload_rel rels
  unfolding rels_of rel_items
  rels_of-rel_items [] = refl
  rels_of-rel_items (r ∷ rels) = ap (λ l. reload_rel r ∷ l) (rels_of-rel_items rels)

  module _ {C X : Type 0} (yaml : Yaml C X) where
    -- The three documents of a stream come back in their order, each as its own type.
    pub record IsCodec : Type 0 where
      pub decodes :
          (m : YamlMetaDoc) (ns : ItemsDoc YamlNodeItem) (rs : ItemsDoc YamlRelItem) (c₁ c₂ c₃ : C)
          → yaml.encode_meta m yaml.empty ≡ ok c₁
          → yaml.encode_nodes ns c₁ ≡ ok c₂
          → yaml.encode_rels rs c₂ ≡ ok c₃
          → (d₁ : C) × (d₂ : C) × (d₃ : C) × (yaml.decode_meta c₃ ≡ ok (m, d₁))
            × (yaml.decode_nodes d₁
                ≡ ok (record { kind = ns.kind; items = map read_node_item ns.items }, d₂))
            × (yaml.decode_rels d₂
                ≡ ok (record { kind = rs.kind; items = map read_rel_item rs.items }, d₃))

    module _ (path : String) (meta : SnapshotMeta) (nodes : List Node) (rels : List Relation)
        (files : Dict C) where
      abbrev nodes_doc : ItemsDoc YamlNodeItem
      nodes_doc = record { kind = "Nodes"; items = node_items nodes }

      abbrev rels_doc : ItemsDoc YamlRelItem
      rels_doc = record { kind = "Relations"; items = rel_items rels }

      data Exported : Result X (Unit {0}) × Dict C → Type 0 where
        failed : {x : X} {f : Dict C} → Exported (err x, f)
        stored :
            (c₁ c₂ c₃ : C)
            → yaml.encode_meta (meta_doc yaml meta) yaml.empty ≡ ok c₁
            → yaml.encode_nodes nodes_doc c₁ ≡ ok c₂
            → yaml.encode_rels rels_doc c₂ ≡ ok c₃
            → Exported (ok tt, insert path c₃ files)

      export_to_yaml-Exported : Exported (export_to_yaml yaml path meta nodes rels files)
      unfolding export_to_yaml
      export_to_yaml-Exported = elim (Option-cases (yaml.create path)) [
        | inr (x, e) ↦ rw (export_to_yaml, e) failed
        | inl e ↦ elim (Result-cases (yaml.encode_meta (meta_doc yaml meta) yaml.empty)) [
          | inr (x, e₁) ↦ rw (export_to_yaml, e, written, e₁) failed
          | inl (c₁, e₁) ↦ elim (Result-cases (yaml.encode_nodes nodes_doc c₁)) [
            | inr (x, e₂) ↦ rw (export_to_yaml, e, written, e₁, written, e₂) failed
            | inl (c₂, e₂) ↦ elim (Result-cases (yaml.encode_rels rels_doc c₂)) [
              | inr (x, e₃) ↦ rw (export_to_yaml, e, written, e₁, written, e₂, written, e₃) failed
              | inl (c₃, e₃) ↦
                  rw (export_to_yaml, e, written, e₁, written, e₂, written, e₃)
                    (stored c₁ c₂ c₃ e₁ e₂ e₃)
            ]
          ]
        ]
      ]

      -- What is read from a stream that is stored so.
      stored-reads :
          (c₁ c₂ c₃ : C)
          → IsCodec
          → yaml.encode_meta (meta_doc yaml meta) yaml.empty ≡ ok c₁
          → yaml.encode_nodes nodes_doc c₁ ≡ ok c₂
          → yaml.encode_rels rels_doc c₂ ≡ ok c₃
          → (import_from_yaml yaml path (insert path c₃ files)
              ≡ ok (map reload_node nodes, map reload_rel rels, record meta { file_path = path }))
            × (import_meta_only yaml path (insert path c₃ files)
                ≡ ok (record meta { file_path = path }))
      unfolding import_from_yaml import_meta_only open_file
      stored-reads c₁ c₂ c₃ codec e₁ e₂ e₃ =
          let (d₁, d₂, d₃, r₁, r₂, r₃) =
            codec.decodes (meta_doc yaml meta) nodes_doc rels_doc c₁ c₂ c₃ e₁ e₂ e₃ in
          let opened : open_file yaml path (insert path c₃ files) ≡ ok c₃ =
            rw (open_file, lookup-insert_self path c₃ files) refl in
          (
            rw
                (
                  opened,
                  ◌>>=◌,
                  r₁,
                  ◌>>=◌,
                  r₂,
                  ◌>>=◌,
                  r₃,
                  nodes_of-node_items nodes,
                  rels_of-rel_items rels,
                )
                refl,
            rw (opened, ◌>>=◌, r₁) refl,
          )

      -- An archive whose export succeeds is imported with the nodes, the relations, the labels and the
      -- metadata that were exported, with the properties as YAML reads them again; its metadata can be read
      -- alone. No other file changes.
      pub import-export :
          (after : Dict C)
          → IsCodec
          → export_to_yaml yaml path meta nodes rels files ≡ (ok tt, after)
          → (import_from_yaml yaml path after
              ≡ ok (map reload_node nodes, map reload_rel rels, record meta { file_path = path }))
            × (import_meta_only yaml path after ≡ ok (record meta { file_path = path }))
            × ((p : String) → p ≢ path → lookup p after ≡ lookup p files)
      import-export after codec e =
          go (export_to_yaml yaml path meta nodes rels files) export_to_yaml-Exported e
        where
          go :
              (r : Result X (Unit {0}) × Dict C)
              → Exported r
              → r ≡ (ok tt, after)
              → (import_from_yaml yaml path after
                  ≡ ok (
                    map reload_node nodes,
                    map reload_rel rels,
                    record meta { file_path = path },
                  ))
                × (import_meta_only yaml path after ≡ ok (record meta { file_path = path }))
                × ((p : String) → p ≢ path → lookup p after ≡ lookup p files)
          go r failed e = cc
          go r (stored c₁ c₂ c₃ e₁ e₂ e₃) e =
              let is_after : insert path c₃ files ≡ after = cc in
              let (nodes_rels, only) = stored-reads c₁ c₂ c₃ codec e₁ e₂ e₃ in
              (
                rw (← is_after) nodes_rels,
                rw (← is_after) only,
                λ p other. rw (← is_after) (ground (arith, lookup-insert p path c₃ files)),
              )
