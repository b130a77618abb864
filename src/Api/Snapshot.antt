-- ===== src/Api/Snapshot.antt =====
-- internal/api/handlers/snapshot.go and internal/service/snapshot_service.go, with the snapshot manager. The
-- name in a request body is what the decoder of JSON finds, `none` where it refuses the body.
use network_digital_twin_pla.Prelude.{
  ℕ, String, List, [], ◌∷◌, Option, none, some, Result, ok, err, length, not, ◌||◌, if◌then◌else◌,
  ◌==◌,
}
use network_digital_twin_pla.Prelude.Dict.{Dict}
use network_digital_twin_pla.Value.{pos}
use network_digital_twin_pla.Controller.Parser.{atoi}
use network_digital_twin_pla.Graph.{GraphDb}
use network_digital_twin_pla.Service.Analysis.{limit_or}
use network_digital_twin_pla.Snapshot.Audit.{AuditEntry, query, recent}
use network_digital_twin_pla.Snapshot.Diff.{SnapshotDiff}
use network_digital_twin_pla.Snapshot.Manager.{SnapshotMeta, Archives, State, ManagerError}
use network_digital_twin_pla.Snapshot.Manager.Operations.{create, delete, restore, list}
use network_digital_twin_pla.Api.Response.{
  Reply, ok_reply, created, fail, code_internal_error, code_snapshot_bad_request,
}
use network_digital_twin_pla.Api.Device.{query_param}
use network_digital_twin_pla.Api.Topology.{default_query}

pub record SnapshotItem : Type 0 where
  pub name : String
  pub created_at : String
  pub node_count : ℕ
  pub rel_count : ℕ

-- What the replies hold.
pub data Content : Type 0 where
  snapshots : List SnapshotItem → Content
  created_snapshot : String → ℕ → ℕ → Content
  done : String → String → Content
  diff_counts : ℕ → ℕ → ℕ → ℕ → ℕ → ℕ → Content
  audit : List AuditEntry → ℕ → Content

abbrev items_of : (ℕ → String) → List SnapshotMeta → List SnapshotItem
items_of rfc3339 [] = []
items_of rfc3339 (m ∷ metas) =
    record {
      name = m.name;
      created_at = rfc3339 m.created_at;
      node_count = m.node_count;
      rel_count = m.rel_count;
    }
    ∷ items_of rfc3339 metas

-- A name that is required.
abbrev pub required : Option String → Option String
required none = none
required (some name) = if name == "" then none else some name

abbrev pub no_name : Reply Content
no_name = fail 400 code_snapshot_bad_request "name is required"

module _ {G E F X : Type 0} (db : GraphDb G E) (ar : Archives F X)
    (error_text : ManagerError E X → String) where
  -- From what the manager returns: its state, and the reply.
  abbrev pub replied :
      {A : Type 0}
      → (A → Reply Content)
      → Result (ManagerError E X) A × State G F
      → Reply Content × State G F
  replied reply (err e, s) = (fail 500 code_internal_error (error_text e), s)
  replied reply (ok a, s) = (reply a, s)

  unfoldable pub list_snapshots : (ℕ → String) → State G F → Reply Content × State G F
  unfolding list
  list_snapshots rfc3339 s =
      replied (λ metas. ok_reply (snapshots (items_of rfc3339 metas))) (list db ar error_text s)

  unfoldable pub create_snapshot :
      (ℕ → ℕ → ℕ) → ℕ → ℕ → Option String → State G F → Reply Content × State G F
  unfolding create
  create_snapshot days_before fuel now req s = elim (required req) [
    | none ↦ (no_name, s)
    | some name ↦
        replied (λ m. created (created_snapshot m.name m.node_count m.rel_count))
          (create db ar error_text days_before fuel now name s)
  ]

  unfoldable pub delete_snapshot : ℕ → String → State G F → Reply Content × State G F
  unfolding delete
  delete_snapshot now name s =
      replied (λ _. ok_reply (done "deleted" name)) (delete db ar error_text now name s)

  unfoldable pub restore_snapshot : ℕ → Option String → State G F → Reply Content × State G F
  unfolding restore
  restore_snapshot now req s = elim (required req) [
    | none ↦ (no_name, s)
    | some name ↦
        replied (λ _. ok_reply (done "restored" name)) (restore db ar error_text now name s)
  ]

  -- From what `Diff` of the manager returns for the two names.
  unfoldable pub diff_snapshots :
      (String → String → Result (ManagerError E X) SnapshotDiff) → Dict String → Reply Content
  diff_snapshots diff params =
      let a = query_param "a" params in
      let b = query_param "b" params in
      if a == "" || b == ""
      then fail 400 code_snapshot_bad_request "query params a and b are required"
      else elim (diff a b) [
        | err e ↦ fail 500 code_internal_error (error_text e)
        | ok d ↦ ok_reply (
            diff_counts (length d.added_nodes) (length d.removed_nodes) (length d.added_rels)
              (length d.removed_rels) (length d.changed_nodes) (length d.changed_rels))
      ]

  -- The limit holds only where there is no filter.
  unfoldable pub query_audit : Dict String → State G F → Reply Content
  unfolding query recent atoi
  query_audit params s =
      let limit = limit_or 50 (atoi (default_query "limit" "50" params)) in
      let action = query_param "action" params in
      let snapshot = query_param "snapshot" params in
      let entries =
        if not (action == "") || not (snapshot == "")
        then query (record { action = action; snapshot = snapshot; since = 0; until = 0 })
            s.audit_log
        else recent (pos limit) s.audit_log in
      ok_reply (audit entries (length entries))
