-- ===== src/Snapshot/Manager/Operations.antt =====
-- internal/snapshot/manager.go: the operations of the manager.
use network_digital_twin_pla.Prelude.{
  ℕ, String, ◌<>◌, true, List, [], ◌∷◌, Option, none, some, Result, ok, err, length, ltb, eqb,
  if◌then◌else◌,
}
use network_digital_twin_pla.Prelude.Dict.{Dict, insert, erase}
use network_digital_twin_pla.Text.{decimal}
use network_digital_twin_pla.Assembler.{Node, Relation}
use network_digital_twin_pla.Graph.{GraphDb}
use network_digital_twin_pla.Schema.Registry.{values}
use network_digital_twin_pla.Snapshot.Audit.{AuditEntry, record_entry}
use network_digital_twin_pla.Snapshot.Manager.{
  SnapshotMeta, Archives, State, ManagerError, query_nodes_failed, query_rels_failed, has_db_failed,
  clear_failed, clone_failed, bulk_create_failed, export_failed, import_failed, read_dir_failed,
  ensure_loaded_failed, not_reached, nodes_of_rows, rels_of_rows, pages, victims,
}

abbrev entry : String → String → String → String → AuditEntry
entry action snapshot detail error = record {
  timestamp = 0;
  action = action;
  snapshot = snapshot;
  actor = "system";
  detail = detail;
  error = error;
}

-- `filepath.Join(sm.snapDir, name+".yaml")`, for a clean directory and a plain name.
abbrev pub archive_path : String → String → String
archive_path dir name = dir <> "/" <> name <> ".yaml"

module _ {G E F X : Type 0} (db : GraphDb G E) (ar : Archives F X)
    (error_text : ManagerError E X → String) where
  abbrev Result' : Type 0 → Type 0
  Result' A = Result (ManagerError E X) A × State G F

  abbrev err_str {ℓ} : {A : Type ℓ} → Result (ManagerError E X) A → String
  err_str (err e) = error_text e
  err_str (ok _) = ""

  abbrev pub audited : ℕ → AuditEntry → State G F → State G F
  audited now e s = record s { audit_log = (record_entry now e s.audit_log).0 }

  -- The last loop of `cleanup`: a database that cannot be cleared keeps its access time.
  unfoldable pub clear_all : List String → State G F → State G F
  clear_all [] s = s
  clear_all (name ∷ names) s =
      let (cleared, g) = db.clear_db name s.graph in
      clear_all names (elim cleared [
        | err e ↦ record s { graph = g }
        | ok _ ↦ record s { graph = g; last_access = erase name s.last_access }
      ])

  unfoldable pub cleanup : State G F → State G F
  unfolding clear_all victims
  cleanup s = elim (db.list_dbs s.graph) [
    | err e ↦ s
    | ok dbs ↦ clear_all (victims s.max_active s.last_access dbs) s
  ]

  -- From what `BulkCreate` returns.
  unfoldable pub loaded : State G F → Result E (Unit {0}) × G → Result' (Unit {0})
  unfolding cleanup
  loaded s (err e, g) = (err (bulk_create_failed e), record s { graph = g })
  loaded s (ok _, g) = (ok tt, cleanup (record s { graph = g }))

  unfoldable pub load_archive : String → State G F → Result' (Unit {0})
  unfolding loaded
  load_archive name s = elim (ar.import_from_yaml (archive_path s.snap_dir name) s.files) [
    | err x ↦ (err (import_failed x), s)
    | ok (nodes, rels) ↦ loaded s (db.bulk_create name nodes rels s.graph)
  ]

  unfoldable pub ensure_loaded : ℕ → String → State G F → Result' (Unit {0})
  unfolding load_archive
  ensure_loaded now name s = elim (db.has_db name s.graph) [
    | err e ↦ (err (has_db_failed e), s)
    | ok exists ↦
        let s' = record s { last_access = insert name now s.last_access } in
        if exists then (ok tt, s') else load_archive name s'
  ]

  unfoldable pub clone_default : String → State G F → Result E (Unit {0}) × G → Result' (Unit {0})
  clone_default name s (err e, g) = (err (clone_failed e), record s { graph = g })
  clone_default name s (ok _, g) = (ok tt, record s { graph = g })

  unfoldable pub replace_default : String → State G F → Result E (Unit {0}) × G → Result' (Unit {0})
  unfolding clone_default
  replace_default name s (err e, g) = (err (clear_failed e), record s { graph = g })
  replace_default name s (ok _, g) = clone_default name s (db.clone_db name "default" g)

  unfoldable pub restore_loaded : String → Result' (Unit {0}) → Result' (Unit {0})
  unfolding replace_default
  restore_loaded name (err e, s) = (err (ensure_loaded_failed e), s)
  restore_loaded name (ok _, s) = replace_default name s (db.clear_db "default" s.graph)

  -- `Restore`
  unfoldable pub restore : ℕ → String → State G F → Result' (Unit {0})
  unfolding ensure_loaded restore_loaded
  restore now name s =
      let (result, s') = restore_loaded name (ensure_loaded now name s) in
      (result, audited now (entry "restore" name "restore to default" (err_str result)) s')

  unfoldable pub cleared_db : String → State G F → Result E (Unit {0}) × G → Result' (Unit {0})
  cleared_db name s (err e, g) = (err (clear_failed e), record s { graph = g })
  cleared_db name s (ok _, g) =
      (ok tt, record s { graph = g; meta_cache = erase name s.meta_cache })

  unfoldable pub delete_db : String → State G F → Result' (Unit {0})
  unfolding cleared_db
  delete_db name s = elim (db.has_db name s.graph) [
    | err e ↦ (err (has_db_failed e), s)
    | ok exists ↦
        if exists
        then cleared_db name s (db.clear_db name s.graph)
        else (ok tt, record s { meta_cache = erase name s.meta_cache })
  ]

  -- `Delete`
  unfoldable pub delete : ℕ → String → State G F → Result' (Unit {0})
  unfolding delete_db
  delete now name s =
      let (result, s') = delete_db name s in
      (result, audited now (entry "delete" name "delete snapshot" (err_str result)) s')

  unfoldable pub expired : ℕ → Dict SnapshotMeta → List String
  expired cutoff [] = []
  expired cutoff ((name, meta) ∷ cache) =
      let rest = expired cutoff cache in if ltb meta.created_at cutoff then name ∷ rest else rest

  unfoldable pub delete_expired : ℕ → List String → State G F → State G F
  unfolding delete
  delete_expired now [] s = s
  delete_expired now (name ∷ names) s =
      let (result, s') = delete now name s in
      delete_expired now names (elim result [
        | err e ↦ s'
        | ok _ ↦ audited now (entry "auto_delete" name "expired TTL cleanup" "") s'
      ])

  -- `AddDate(0, 0, -days)` for the time and the days.
  module _ (days_before : ℕ → ℕ → ℕ) where
    unfoldable pub cleanup_expired : ℕ → State G F → State G F
    unfolding expired delete_expired
    cleanup_expired now s =
        if eqb s.retention_days 0
        then s
        else delete_expired now (expired (days_before now s.retention_days) s.meta_cache) s

    -- The end of `Create`, from what `exportToYAML` returns.
    unfoldable pub exported :
        ℕ → SnapshotMeta → State G F → Result X (Unit {0}) × F → Result' SnapshotMeta
    unfolding cleanup_expired
    exported now meta s (err x, files) = (err (export_failed x), record s { files = files })
    exported now meta s (ok _, files) = (
      ok meta,
      cleanup_expired now (record s {
        files = files;
        meta_cache = insert meta.name meta s.meta_cache;
        cache_ready = true;
      }),
    )

    unfoldable pub export_all :
        ℕ → String → List Node → List Relation → State G F → Result' SnapshotMeta
    unfolding exported
    export_all now name nodes rels s =
        let path = archive_path s.snap_dir name in
        let meta : SnapshotMeta = record {
          name = name;
          created_at = now;
          node_count = length nodes;
          rel_count = length rels;
          file_path = path;
        } in
        exported now meta s (ar.export_to_yaml path meta nodes rels s.files)

    unfoldable pub create_parts :
        ℕ
        → String
        → Option (Result E (List Node))
        → Option (Result E (List Relation))
        → State G F
        → Result' SnapshotMeta
    unfolding export_all
    create_parts now name none rels s = (err not_reached, s)
    create_parts now name (some (err e)) rels s = (err (query_nodes_failed e), s)
    create_parts now name (some (ok nodes)) none s = (err not_reached, s)
    create_parts now name (some (ok nodes)) (some (err e)) s = (err (query_rels_failed e), s)
    create_parts now name (some (ok nodes)) (some (ok rels)) s = export_all now name nodes rels s

    abbrev counts : Result (ManagerError E X) SnapshotMeta → String
    counts (ok meta) = "nodes=" <> decimal meta.node_count <> ", rels=" <> decimal meta.rel_count
    counts (err e) = "nodes=0, rels=0"

    -- `Create`, on fuel for the pages of either loop.
    unfoldable pub create : ℕ → ℕ → String → State G F → Result' SnapshotMeta
    unfolding create_parts pages nodes_of_rows rels_of_rows
    create fuel now name s =
        let (result, s') =
          create_parts now name
            (pages (λ skip. db.query_nodes "default" skip 500 s.graph) nodes_of_rows fuel 0)
            (pages (λ skip. db.query_rels "default" skip 500 s.graph) rels_of_rows fuel 0) s in
        (result, audited now (entry "create" name (counts result) (err_str result)) s')

  -- The loop of `warmCache`: an archive that cannot be read is skipped.
  unfoldable pub warm : List String → F → Dict SnapshotMeta → Dict SnapshotMeta × List SnapshotMeta
  warm [] files cache = (cache, [])
  warm (path ∷ paths) files cache = elim (ar.import_meta_only path files) [
    | err x ↦ warm paths files cache
    | ok meta ↦
        let (cache', rest) = warm paths files (insert meta.name meta cache) in (cache', meta ∷ rest)
  ]

  unfoldable pub warm_cache : State G F → Result' (List SnapshotMeta)
  unfolding warm
  warm_cache s =
      if s.cache_ready
      then (ok (values s.meta_cache), s)
      else elim (ar.read_dir s.snap_dir s.files) [
        | err x ↦ (err (read_dir_failed x), s)
        | ok paths ↦
            let (cache, result) = warm paths s.files s.meta_cache in
            (ok result, record s { meta_cache = cache; cache_ready = true })
      ]

  -- `List`
  unfoldable pub list : State G F → Result' (List SnapshotMeta)
  unfolding warm_cache
  list s = if s.cache_ready then (ok (values s.meta_cache), s) else warm_cache s
