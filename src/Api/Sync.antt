-- ===== src/Api/Sync.antt =====
-- internal/api/handlers/sync.go, with `FullSync` and `HandleWebhook` of the sync service. A request body is
-- what the decoder of JSON makes of it, `none` where it refuses it. The duration in a
-- result, a text of the clock, is left out.
use network_digital_twin_pla.Prelude.{
  ℕ, String, Bool, Option, none, some, Result, ok, err, if◌then◌else◌, ◌==◌,
}
use network_digital_twin_pla.Value.{Host}
use network_digital_twin_pla.Schema.Registry.{Registry}
use network_digital_twin_pla.Graph.{GraphDb}
use network_digital_twin_pla.Events.{Channel, PublishError, publish}
use network_digital_twin_pla.Sync.{SyncError, SyncResult, Connectors, Synced, full_sync}
use network_digital_twin_pla.Api.Response.{
  Reply, ok_reply, accepted, fail, code_bad_request, code_internal_error,
  code_sync_unsupported_action, code_sync_queue_full,
}

pub record SyncResponse : Type 0 where
  pub nodes_created : ℕ
  pub relations_created : ℕ
  pub orphan_edges : ℕ

abbrev pub sync_response : SyncResult → SyncResponse
sync_response r = record {
  nodes_created = r.nodes_created;
  relations_created = r.relations_created;
  orphan_edges = r.orphan_edges_skipped;
}

-- The action of a request; a body that cannot be read asks for a full sync.
abbrev pub action_of : Option String → String
action_of none = "full"
action_of (some action) = if action == "" then "full" else action

module _ {G E : Type 0} (db : GraphDb G E) (error_text : SyncError E → String) (has_log : Bool)
    (host : Host) (r : Registry) where
  abbrev pub full_reply : Synced G E → Reply SyncResponse × G
  full_reply s = elim s.result [
    | err e ↦ (fail 500 code_internal_error (error_text e), s.graph)
    | ok result ↦ (ok_reply (sync_response result), s.graph)
  ]

  unfoldable pub handle_full_sync : Connectors → Option String → G → Reply SyncResponse × G
  unfolding full_sync
  handle_full_sync cs req g =
      if action_of req == "full"
      then full_reply (full_sync db has_log host r cs g)
      else (fail 400 code_sync_unsupported_action "unsupported action, only 'full' is supported", g)

module _ {A : Type 0} where
  abbrev pub queued : Result PublishError (Unit {0}) × Channel A → Reply String × Channel A
  queued (err e, ch) = (fail 503 code_sync_queue_full "publish event: event queue full", ch)
  queued (ok _, ch) = (accepted "event queued", ch)

  -- The event is the one that the request body has.
  unfoldable pub handle_webhook : Option A → Channel A → Reply String × Channel A
  unfolding publish
  handle_webhook none ch = (fail 400 code_bad_request "invalid request body", ch)
  handle_webhook (some event) ch = queued (publish event ch)
