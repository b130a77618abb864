-- ===== src/Sync/Outcome.antt =====
-- `FullSync`: which resources it takes in, and how it ends.
use mathlib.Core.Path.{subst}
use mathlib.Core.List.{Memᴰ}
use network_digital_twin_pla.Prelude.{
  ◌≡◌, refl, ◌∙◌, ◌⊎◌, inl, inr, String, Bool, true, List, [], ◌∷◌, none, some, Result, ok, err,
  wrap_err, All, ap, sym, Bool-cases, Option-cases, Result-cases,
}
use network_digital_twin_pla.Prelude.Dict.{lookup}
use network_digital_twin_pla.Value.{Host}
use network_digital_twin_pla.Schema.Types.{EntityType}
use network_digital_twin_pla.Schema.Registry.{
  Registry, get_entity_type, apply_schema_defaults, validate,
}
use network_digital_twin_pla.Uri.{generate_uri}
use network_digital_twin_pla.Normalizer.{
  Resource, NormalizedResource, normalize, no_entity_type, no_defaults, invalid, no_uri, map_fields,
  apply_rules,
}
use network_digital_twin_pla.Assembler.{assemble}
use network_digital_twin_pla.Assembler.Nodes.{>>=-ok, entity_of_ok}
use network_digital_twin_pla.Assembler.Complete.{Memᴰ-append}
use network_digital_twin_pla.Assembler.Outcome.{Assembled, assemble_outcome}
use network_digital_twin_pla.Graph.{GraphDb}
use network_digital_twin_pla.Sync.{
  ConnectorMetadata, Connectors, clear_failed, bulk_create_failed, collect_types, collect_all,
  normalize_all, result_of, Synced, record_sync_log, full_sync, after_clear, write_model,
  write_done,
}

ok_injective {ℓ} : {E : Type 0} {A : Type ℓ} (a b : A) → ◌≡◌ {A = Result E A} (ok a) (ok b) → a ≡ b
ok_injective a b e = cc

wrap_err_ok {ℓ} :
    {E E' : Type 0} {A : Type ℓ} (f : E → E') (m : Result E A) (a : A)
    → wrap_err f m ≡ ok a
    → m ≡ ok a
wrap_err_ok f (ok b) a e = cc
wrap_err_ok f (err x) a e = cc

module _ (r : Registry) where
  -- The kind of a resource is in the registry.
  abbrev pub IsKnown : NormalizedResource → Type 0
  IsKnown n = (et : EntityType) × (lookup n.kind r.entity_types ≡ some et)

  normalize-IsKnown :
      (host : Host) (res : Resource) (n : NormalizedResource)
      → normalize host r res ≡ ok n
      → IsKnown n
  unfolding normalize
  normalize-IsKnown host res n e =
      let (et, found, e₁) = >>=-ok (wrap_err no_entity_type (get_entity_type r res.kind)) _ e in
      let cleaned =
        apply_rules et.spec.normalize (map_fields et.spec.field_mapping res.properties) in
      let (props, _, e₂) =
        >>=-ok (wrap_err no_defaults (apply_schema_defaults r res.kind cleaned)) _ e₁ in
      let (_, _, e₃) = >>=-ok (wrap_err invalid (validate r res.kind props)) _ e₂ in
      let (uri, _, e₄) =
        >>=-ok
          (wrap_err no_uri
            (generate_uri host et.spec.uri_template et.spec.identity.stable_keys props))
          _ e₃ in
      let same = ok_injective (record { kind = res.kind; uri = uri; properties = props }) n e₄ in
      (
        et,
        ap (λ (x : NormalizedResource). lookup x.kind r.entity_types) (sym same)
            ∙ entity_of_ok r res.kind et
                (wrap_err_ok no_entity_type (get_entity_type r res.kind) et found),
      )

  All-Memᴰ {ℓ κ} : {A : Type ℓ} (P : A → Type κ) (xs : List A) (x : A) → All P xs → Memᴰ x xs → P x
  All-Memᴰ P [] x a m = elim m [ ]
  All-Memᴰ P (y ∷ ys) x (p, a) (Memᴰ.head e) = rw e p
  All-Memᴰ P (y ∷ ys) x (p, a) (Memᴰ.tail m) = All-Memᴰ P ys x a m

  normalize_all-IsKnown :
      (host : Host) (resources : List Resource) → All IsKnown (normalize_all host r resources)
  unfolding normalize_all
  normalize_all-IsKnown host [] = tt
  normalize_all-IsKnown host (res ∷ resources) = elim (Result-cases (normalize host r res)) [
    | inl (n, e) ↦
        rw (e, normalize_all) (normalize-IsKnown host res n e, normalize_all-IsKnown host resources)
    | inr (x, e) ↦ rw (e, normalize_all) (normalize_all-IsKnown host resources)
  ]

  -- What the normalizer accepts, the assembler never refuses.
  pub assemble-normalize_all :
      (host : Host) (resources : List Resource)
      → Assembled r (normalize_all host r resources) (assemble r (normalize_all host r resources))
  assemble-normalize_all host resources =
      let ns = normalize_all host r resources in
      elim (assemble_outcome r ns) [
        | inr a ↦ a
        | inl u ↦
            let (et, known) =
              All-Memᴰ IsKnown ns u.resource (normalize_all-IsKnown host resources) u.among in
            cc (u.missing, known)
      ]

  -- A resource that a connector delivers for one of its entity types, and its normal form.
  pub record Delivered (host : Host) (cs : Connectors) (n : NormalizedResource) : Type 0 where
    pub meta : ConnectorMetadata
    pub listed : Memᴰ meta cs.metas
    pub found : cs.found meta.name ≡ true
    pub entity_type : String
    pub collected_type : Memᴰ entity_type meta.entity_types
    pub resources : List Resource
    pub collected : cs.collect meta.name entity_type ≡ some resources
    pub resource : Resource
    pub among : Memᴰ resource resources
    pub normalized : normalize host r resource ≡ ok n

  normalize_all-has :
      (host : Host) (resources : List Resource) (res : Resource) (n : NormalizedResource)
      → Memᴰ res resources
      → normalize host r res ≡ ok n
      → Memᴰ n (normalize_all host r resources)
  unfolding normalize_all
  normalize_all-has host [] res n m e = elim m [ ]
  normalize_all-has host (x ∷ resources) res n (Memᴰ.head same) e =
      let here : normalize host r x ≡ ok n = cc (same, e) in
      rw (here, normalize_all) (Memᴰ.head refl)
  normalize_all-has host (x ∷ resources) res n (Memᴰ.tail m) e =
      let rest = normalize_all-has host resources res n m e in
      elim (Result-cases (normalize host r x)) [
        | inl (y, here) ↦ rw (here, normalize_all) (Memᴰ.tail rest)
        | inr (y, here) ↦ rw (here, normalize_all) rest
      ]

collect_types-has :
    (cs : Connectors) (name : String) (ets : List String) (et : String) (resources : List Resource)
    (res : Resource)
    → Memᴰ et ets
    → cs.collect name et ≡ some resources
    → Memᴰ res resources
    → Memᴰ res (collect_types cs name ets)
unfolding collect_types
collect_types-has cs name [] et resources res m e h = elim m [ ]
collect_types-has cs name (x ∷ ets) et resources res (Memᴰ.head same) e h =
    let here : cs.collect name x ≡ some resources = cc (same, e) in
    rw (here, collect_types) (Memᴰ-append res resources _ (inl h))
collect_types-has cs name (x ∷ ets) et resources res (Memᴰ.tail m) e h =
    let rest = collect_types-has cs name ets et resources res m e h in
    elim (Option-cases (cs.collect name x)) [
      | inl none_here ↦ rw (none_here, collect_types) rest
      | inr (ys, here) ↦ rw (here, collect_types) (Memᴰ-append res ys _ (inr rest))
    ]

collect_all-has :
    (cs : Connectors) (metas : List ConnectorMetadata) (meta : ConnectorMetadata) (res : Resource)
    → Memᴰ meta metas
    → cs.found meta.name ≡ true
    → Memᴰ res (collect_types cs meta.name meta.entity_types)
    → Memᴰ res (collect_all cs metas)
unfolding collect_all
collect_all-has cs [] meta res m f h = elim m [ ]
collect_all-has cs (x ∷ metas) meta res (Memᴰ.head same) f h =
    let here : cs.found x.name ≡ true = cc (same, f) in
    rw (here, collect_all)
      (Memᴰ-append res (collect_types cs x.name x.entity_types) _ (
        inl (
          subst (λ (y : ConnectorMetadata). Memᴰ res (collect_types cs y.name y.entity_types)) same
            h)))
collect_all-has cs (x ∷ metas) meta res (Memᴰ.tail m) f h =
    let rest = collect_all-has cs metas meta res m f h in
    elim (Bool-cases (cs.found x.name)) [
      | inl here ↦
          rw (here, collect_all)
            (Memᴰ-append res (collect_types cs x.name x.entity_types) _ (inr rest))
      | inr gone ↦ rw (gone, collect_all) rest
    ]

module _ {G E : Type 0} (db : GraphDb G E) (has_log : Bool) (host : Host) (r : Registry)
    (cs : Connectors) (g : G) where
  abbrev pub taken : List NormalizedResource
  taken = normalize_all host r (collect_all cs cs.metas)

  -- The old graph could not be cleared.
  pub record ClearFailed (s : Synced G E) : Type 0 where
    pub failure : E
    pub left : G
    pub cleared : db.clear_db "default" g ≡ (err failure, left)
    pub ended : s ≡ record {
      result = err (clear_failed failure);
      graph = left;
      log = record_sync_log db has_log "full" "failed" none (some failure);
    }

  -- The old graph is cleared, and the new one is the assembly of the resources that the connectors
  -- deliver and the normalizer accepts; it could not be written, or it was.
  pub record Rebuilt (s : Synced G E) : Type 0 where
    pub emptied : G
    pub cleared : db.clear_db "default" g ≡ (ok tt, emptied)
    pub assembled : Assembled r taken (assemble r taken)
    pub complete : (n : NormalizedResource) → Delivered r host cs n → Memᴰ n taken
    pub ended :
        ((failure : E) × (left : G) × (db.bulk_create "default" assembled.model.nodes
              assembled.model.relations emptied
            ≡ (err failure, left))
          × (s ≡ record {
            result = err (bulk_create_failed failure);
            graph = left;
            log = record_sync_log db has_log "full" "failed" none (some failure);
          }))
        ⊎ ((written : G) × (db.bulk_create "default" assembled.model.nodes assembled.model.relations
                emptied
              ≡ (ok tt, written))
            × (s ≡ record {
              result = ok (result_of assembled.model assembled.warnings);
              graph = written;
              log =
                  record_sync_log db has_log "full" "success"
                    (some (result_of assembled.model assembled.warnings))
                    none;
            }))

  delivered_taken : (n : NormalizedResource) → Delivered r host cs n → Memᴰ n taken
  delivered_taken n d =
      normalize_all-has r host (collect_all cs cs.metas) d.resource n
        (collect_all-has cs cs.metas d.meta d.resource d.listed d.found (
          collect_types-has cs d.meta.name d.meta.entity_types d.entity_type d.resources d.resource
            d.collected_type d.collected d.among))
        d.normalized

  module _ (emptied : G) (cleared : db.clear_db "default" g ≡ (ok tt, emptied)) where
    built :
        (a : Assembled r taken (assemble r taken))
        → full_sync db has_log host r cs g
          ≡ write_done db has_log host r a.model a.warnings
              (db.bulk_create "default" a.model.nodes a.model.relations emptied)
    unfolding full_sync
    built a =
        ap (after_clear db has_log host r cs) cleared
        ∙ ap (λ m. write_model db has_log host r m emptied) a.returned

    full_sync-Rebuilt : Rebuilt (full_sync db has_log host r cs g)
    unfolding full_sync
    full_sync-Rebuilt =
        let a = assemble-normalize_all r host (collect_all cs cs.metas) in
        record {
          emptied = emptied;
          cleared = cleared;
          assembled = a;
          complete = delivered_taken;
          ended = go a (db.bulk_create "default" a.model.nodes a.model.relations emptied) refl;
        }
      where
        go :
            (a : Assembled r taken (assemble r taken)) (p : Result E (Unit {0}) × G)
            → db.bulk_create "default" a.model.nodes a.model.relations emptied ≡ p
            → ((failure : E) × (left : G) × (db.bulk_create "default" a.model.nodes
                    a.model.relations emptied
                  ≡ (err failure, left))
                × (full_sync db has_log host r cs g ≡ record {
                  result = err (bulk_create_failed failure);
                  graph = left;
                  log = record_sync_log db has_log "full" "failed" none (some failure);
                }))
              ⊎ ((written : G) × (db.bulk_create "default" a.model.nodes a.model.relations emptied
                    ≡ (ok tt, written))
                  × (full_sync db has_log host r cs g ≡ record {
                    result = ok (result_of a.model a.warnings);
                    graph = written;
                    log =
                        record_sync_log db has_log "full" "success"
                          (some (result_of a.model a.warnings))
                          none;
                  }))
        go a (err e, left) q =
            inl (e, left, q, built a ∙ ap (write_done db has_log host r a.model a.warnings) q)
        go a (ok u, written) q =
            inr (written, q, built a ∙ ap (write_done db has_log host r a.model a.warnings) q)

  -- `FullSync` fails only where the driver does: to clear the old graph, or to write the new one
  -- once it is cleared. The new graph is the assembly of what the normalizer accepts, which the
  -- assembler never refuses; no failing connector, and no resource that the normalizer refuses,
  -- keeps another resource out.
  pub full_sync_outcome :
      ClearFailed (full_sync db has_log host r cs g) ⊎ Rebuilt (full_sync db has_log host r cs g)
  unfolding full_sync
  full_sync_outcome = go (db.clear_db "default" g) refl
    where
      go :
          (p : Result E (Unit {0}) × G)
          → db.clear_db "default" g ≡ p
          → ClearFailed (full_sync db has_log host r cs g)
            ⊎ Rebuilt (full_sync db has_log host r cs g)
      go (err e, left) q = inl (record {
        failure = e;
        left = left;
        cleared = q;
        ended = ap (after_clear db has_log host r cs) q;
      })
      go (ok u, emptied) q = inr (full_sync-Rebuilt emptied q)
