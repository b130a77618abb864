-- ===== src/Snapshot/Manager/Listing.antt =====
-- What `List` shows after `Create`.
use network_digital_twin_pla.Prelude.{
  ℕ, ◌<◌, ◌*◌, ◌≡◌, refl, ◌∙◌, String, true, List, [], ◌∷◌, ◌++◌, some, ok, length, take, drop, eqb,
  ◌==◌, ap, Bool-cases, inl, inr,
}
use network_digital_twin_pla.Prelude.Dict.{lookup, insert}
use network_digital_twin_pla.Value.{Props}
use network_digital_twin_pla.Assembler.{Node, Relation}
use network_digital_twin_pla.Graph.{GraphDb}
use network_digital_twin_pla.Schema.Registry.{values}
use network_digital_twin_pla.Snapshot.Manager.{
  SnapshotMeta, Archives, State, ManagerError, nodes_of_rows, rels_of_rows, page_size,
  any_to_string_slice, extract_props, text_of,
}
use network_digital_twin_pla.Snapshot.Manager.Operations.{
  archive_path, create, create_parts, exported, cleanup_expired, list,
}
use network_digital_twin_pla.Snapshot.Manager.Paging.{pages-all}

abbrev node_of : Props → Node
node_of row = record {
  labels = any_to_string_slice (lookup "labels" row);
  uri = text_of (lookup "uri" row);
  props = extract_props (lookup "props" row);
}

abbrev rel_of : Props → Relation
rel_of row = record {
  type = text_of (lookup "type" row);
  from = text_of (lookup "from" row);
  to = text_of (lookup "to" row);
  props = extract_props (lookup "props" row);
}

pub nodes_of_rows-append :
    (xs ys : List Props) → nodes_of_rows (xs ++ ys) ≡ nodes_of_rows xs ++ nodes_of_rows ys
unfolding nodes_of_rows
nodes_of_rows-append [] ys = refl
nodes_of_rows-append (row ∷ xs) ys =
    let rest = nodes_of_rows-append xs ys in
    elim (Bool-cases (eqb (length (any_to_string_slice (lookup "labels" row))) 0)) [
      | inl no_label ↦ rw (no_label, nodes_of_rows) rest
      | inr some_label ↦ elim (Bool-cases (text_of (lookup "uri" row) == "")) [
        | inl no_uri ↦ rw (some_label, no_uri, nodes_of_rows) rest
        | inr uri ↦ rw (some_label, uri, nodes_of_rows) (ap (λ l. node_of row ∷ l) rest)
      ]
    ]

rels_of_rows-append :
    (xs ys : List Props) → rels_of_rows (xs ++ ys) ≡ rels_of_rows xs ++ rels_of_rows ys
unfolding rels_of_rows
rels_of_rows-append [] ys = refl
rels_of_rows-append (row ∷ xs) ys =
    let rest = rels_of_rows-append xs ys in
    elim (Bool-cases (text_of (lookup "type" row) == "")) [
      | inl no_type ↦ rw (no_type, rels_of_rows) rest
      | inr type ↦ elim (Bool-cases (text_of (lookup "from" row) == "")) [
        | inl no_from ↦ rw (type, no_from, rels_of_rows) rest
        | inr from ↦ elim (Bool-cases (text_of (lookup "to" row) == "")) [
          | inl no_to ↦ rw (type, from, no_to, rels_of_rows) rest
          | inr to ↦ rw (type, from, to, rels_of_rows) (ap (λ l. rel_of row ∷ l) rest)
        ]
      ]
    ]

-- The two queries of `Create` page through fixed lists of rows.
pub record Serves {G E : Type 0} (db : GraphDb G E) (g : G) (node_rows rel_rows : List Props)
    : Type 0 where
  pub nodes :
      (skip : ℕ) → db.query_nodes "default" skip 500 g ≡ ok (take page_size (drop skip node_rows))
  pub rels :
      (skip : ℕ) → db.query_rels "default" skip 500 g ≡ ok (take page_size (drop skip rel_rows))

module _ {G E F X : Type 0} (db : GraphDb G E) (ar : Archives F X)
    (error_text : ManagerError E X → String) (days_before : ℕ → ℕ → ℕ) where
  cleanup_expired-never :
      (now : ℕ) (s : State G F)
      → s.retention_days ≡ 0
      → cleanup_expired db ar error_text days_before now s ≡ s
  unfolding cleanup_expired
  cleanup_expired-never now s keep = rw (keep, cleanup_expired) refl

  module _ (now : ℕ) (name : String) (s : State G F) (node_rows rel_rows : List Props) where
    -- The metadata of the new snapshot.
    abbrev pub new_meta : SnapshotMeta
    new_meta = record {
      name = name;
      created_at = now;
      node_count = length (nodes_of_rows node_rows);
      rel_count = length (rels_of_rows rel_rows);
      file_path = archive_path s.snap_dir name;
    }

    -- The state with the new snapshot in the cache.
    abbrev stored : F → State G F
    stored files = record s {
      files = files;
      meta_cache = insert name new_meta s.meta_cache;
      cache_ready = true;
    }

    create_parts-ok :
        (files : F)
        → s.retention_days ≡ 0
        → ar.export_to_yaml
            (archive_path s.snap_dir name)
            new_meta
            (nodes_of_rows node_rows)
            (rels_of_rows rel_rows)
            s.files
          ≡ (ok tt, files)
        → create_parts db ar error_text days_before now name
            (some (ok (nodes_of_rows node_rows)))
            (some (ok (rels_of_rows rel_rows)))
            s
          ≡ (ok new_meta, stored files)
    unfolding create_parts exported
    create_parts-ok files keep written =
        ap (exported db ar error_text days_before now new_meta s) written
        ∙ ap (λ t. (ok new_meta, t)) (cleanup_expired-never now (stored files) keep)

    -- With the queries answered from fixed rows, the fuel more than their full pages, the archive
    -- written and no retention set, `Create` returns the counts of all nodes and relations. The `List`
    -- after it returns what the cache held before and the new snapshot, also where the cache had
    -- never been filled from the directory.
    pub list-create :
        (fuel : ℕ) (files : F)
        → Serves db s.graph node_rows rel_rows
        → length node_rows < fuel * page_size
        → length rel_rows < fuel * page_size
        → s.retention_days ≡ 0
        → ar.export_to_yaml
            (archive_path s.snap_dir name)
            new_meta
            (nodes_of_rows node_rows)
            (rels_of_rows rel_rows)
            s.files
          ≡ (ok tt, files)
        → ((create db ar error_text days_before fuel now name s).0 ≡ ok new_meta)
          × ((list db ar error_text (create db ar error_text days_before fuel now name s).1).0
              ≡ ok (values (insert name new_meta s.meta_cache)))
    unfolding create list
    list-create fuel files serves n_fuel r_fuel keep written =
        let got_nodes =
          pages-all (λ skip. db.query_nodes "default" skip 500 s.graph) nodes_of_rows node_rows
            serves.nodes nodes_of_rows-append fuel 0 n_fuel in
        let got_rels =
          pages-all (λ skip. db.query_rels "default" skip 500 s.graph) rels_of_rows rel_rows
            serves.rels rels_of_rows-append fuel 0 r_fuel in
        let parts = create_parts-ok files keep written in
        rw (got_nodes, got_rels, parts) (refl, refl)
