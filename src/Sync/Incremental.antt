-- ===== src/Sync/Incremental.antt =====
-- `IncrementalSync`, for each action.
use network_digital_twin_pla.Prelude.{
  ◌≡◌, refl, ◌∙◌, ◌⊎◌, inl, inr, Bool, true, false, List, [], none, some, Result, ok, err, arith,
  All, All-map, ap, contains, ◌==◌, String-discrete, ◌≢◌,
}
use network_digital_twin_pla.Value.{Host}
use network_digital_twin_pla.Schema.Registry.{Registry}
use network_digital_twin_pla.Normalizer.{NormalizedResource}
use network_digital_twin_pla.Assembler.{uris_of, assemble}
use network_digital_twin_pla.Assembler.Outcome.{Assembled}
use network_digital_twin_pla.Graph.{GraphDb}
use network_digital_twin_pla.Sync.{
  SyncEvent, SyncError, upsert_failed, delete_failed, delete_relations_failed, unknown_action,
  normalize_all, result_of, no_result, Synced, record_sync_log, resources_of, upsert_done,
  upsert_model, update, deleted, incremental_sync,
}
use network_digital_twin_pla.Sync.Outcome.{assemble-normalize_all}

module _ {G E : Type 0} (db : GraphDb G E) (has_log : Bool) (host : Host) (r : Registry)
    (event : SyncEvent) (g : G) where
  abbrev pub normalized : List NormalizedResource
  normalized = normalize_all host r (resources_of event.entity_type event.data_items)

  -- The nodes and relations of the event's own data are given to `Upsert`; a relation to a node that
  -- is not in the event is not among them. A failure is not logged.
  pub record Updated (s : Synced G E) : Type 0 where
    pub assembled : Assembled r normalized (assemble r normalized)
    pub within :
        All
          (λ rel. contains (uris_of assembled.model.nodes) rel.to ≡ true)
          assembled.model.relations
    pub ended :
        ((failure : E) × (left : G) × (db.upsert "default" assembled.model.nodes
              assembled.model.relations g
            ≡ (err failure, left))
          × (s ≡ record { result = err (upsert_failed failure); graph = left; log = [] }))
        ⊎ ((written : G) × (db.upsert "default" assembled.model.nodes assembled.model.relations g
              ≡ (ok tt, written))
            × (s ≡ record {
              result = ok (result_of assembled.model assembled.warnings);
              graph = written;
              log =
                  record_sync_log db has_log "incremental" "success"
                    (some (result_of assembled.model assembled.warnings))
                    none;
            }))

  -- The driver's deletion decides, and both its ends are logged.
  pub data Removed (failure : E → SyncError E) (driver : Result E (Unit {0}) × G) (s : Synced G E)
      : Type 0 where
    not_removed :
        {e : E} {left : G}
        → driver ≡ (err e, left)
        → s ≡ record {
          result = err (failure e);
          graph = left;
          log = record_sync_log db has_log "incremental" "failed" none (some e);
        }
        → Removed failure driver s
    removed :
        {left : G}
        → driver ≡ (ok tt, left)
        → s ≡ record {
          result = ok no_result;
          graph = left;
          log = record_sync_log db has_log "incremental" "success" (some no_result) none;
        }
        → Removed failure driver s

  pub data Incremental (s : Synced G E) : Type 0 where
    updates : event.action ≡ "update" → Updated s → Incremental s
    deletes :
        event.action ≡ "delete"
        → Removed delete_failed (db.delete_by_uris "default" event.uris g) s
        → Incremental s
    deletes_relations :
        event.action ≡ "delete_relation"
        → Removed delete_relations_failed (db.delete_relations "default" event.relations g) s
        → Incremental s
    ignores :
        event.action ≢ "update"
        → event.action ≢ "delete"
        → event.action ≢ "delete_relation"
        → s ≡ record { result = err (unknown_action event.action); graph = g; log = [] }
        → Incremental s

  update-Updated : Updated (update db has_log host r event g)
  unfolding update
  update-Updated =
      let a = assemble-normalize_all r host (resources_of event.entity_type event.data_items) in
      record {
        assembled = a;
        within = All-map _ _ a.model.relations (λ rel h. h.1) a.justified;
        ended = go a (db.upsert "default" a.model.nodes a.model.relations g) refl;
      }
    where
      go :
          (a : Assembled r normalized (assemble r normalized)) (p : Result E (Unit {0}) × G)
          → db.upsert "default" a.model.nodes a.model.relations g ≡ p
          → ((failure : E) × (left : G) × (db.upsert "default" a.model.nodes a.model.relations g
                ≡ (err failure, left))
              × (update db has_log host r event g
                  ≡ record { result = err (upsert_failed failure); graph = left; log = [] }))
            ⊎ ((written : G) × (db.upsert "default" a.model.nodes a.model.relations g
                  ≡ (ok tt, written))
                × (update db has_log host r event g ≡ record {
                  result = ok (result_of a.model a.warnings);
                  graph = written;
                  log =
                      record_sync_log db has_log "incremental" "success"
                        (some (result_of a.model a.warnings))
                        none;
                }))
      go a (err e, left) q = inl (
        e,
        left,
        q,
        ap (λ m. upsert_model db has_log host r m g) a.returned
            ∙ ap (upsert_done db has_log host r a.model a.warnings) q,
      )
      go a (ok u, written) q = inr (
        written,
        q,
        ap (λ m. upsert_model db has_log host r m g) a.returned
            ∙ ap (upsert_done db has_log host r a.model a.warnings) q,
      )

  deleted-Removed :
      (failure : E → SyncError E) (p : Result E (Unit {0}) × G)
      → Removed failure p (deleted db has_log host r failure p)
  unfolding deleted
  deleted-Removed failure (err e, left) = not_removed refl refl
  deleted-Removed failure (ok u, left) = removed refl refl

  -- `IncrementalSync` does what the event's action asks for. An update gives to `Upsert` the
  -- assembly of what the normalizer accepts of the event's data, with only those relations whose
  -- target is in the event as well. The two deletions end as the driver's do. Any other action is
  -- refused, and leaves the graph and the log alone.
  pub incremental_sync-Incremental : Incremental (incremental_sync db has_log host r event g)
  unfolding incremental_sync
  incremental_sync-Incremental = elim (String-discrete event.action "update") [
    | yes e ↦
        let t : (event.action == "update") ≡ true = ground (arith, e) in
        rw t (updates e update-Updated)
    | no n ↦
        let f : (event.action == "update") ≡ false = ground (arith, n) in
        elim (String-discrete event.action "delete") [
          | yes e ↦
              let t : (event.action == "delete") ≡ true = ground (arith, e) in
              rw (f, t)
                (deletes e
                  (deleted-Removed delete_failed (db.delete_by_uris "default" event.uris g)))
          | no n' ↦
              let f' : (event.action == "delete") ≡ false = ground (arith, n') in
              elim (String-discrete event.action "delete_relation") [
                | yes e ↦
                    let t : (event.action == "delete_relation") ≡ true = ground (arith, e) in
                    rw (f, f', t)
                      (deletes_relations e (
                        deleted-Removed delete_relations_failed
                          (db.delete_relations "default" event.relations g)))
                | no n'' ↦
                    let f'' : (event.action == "delete_relation") ≡ false = ground (arith, n'') in
                    rw (f, f', f'') (ignores n n' n'' refl)
              ]
        ]
  ]
