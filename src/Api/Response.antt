-- ===== src/Api/Response.antt =====
-- internal/api/response/response.go.
use network_digital_twin_pla.Prelude.{ℕ, String, Option, none, some}

-- The status, and the fields of `Response`.
pub record Reply (D : Type 0) : Type 0 where
  pub status : ℕ
  pub code : ℕ
  pub message : String
  pub content : Option D

abbrev pub code_bad_request : ℕ
code_bad_request = 400001

abbrev pub code_internal_error : ℕ
code_internal_error = 500001

abbrev pub code_sync_unsupported_action : ℕ
code_sync_unsupported_action = 400011

abbrev pub code_sync_queue_full : ℕ
code_sync_queue_full = 503011

abbrev pub code_snapshot_bad_request : ℕ
code_snapshot_bad_request = 400021

abbrev pub code_topology_bad_request : ℕ
code_topology_bad_request = 400031

abbrev pub code_topology_query_failed : ℕ
code_topology_query_failed = 500031

abbrev pub code_device_not_found : ℕ
code_device_not_found = 404041

abbrev pub code_device_unsupported : ℕ
code_device_unsupported = 501041

abbrev pub code_monitor_bad_request : ℕ
code_monitor_bad_request = 400051

abbrev pub code_monitor_not_found : ℕ
code_monitor_not_found = 404051

abbrev pub code_monitor_unsupported : ℕ
code_monitor_unsupported = 501051

module _ {D : Type 0} where
  abbrev pub ok_reply : D → Reply D
  ok_reply d = record { status = 200; code = 0; message = "success"; content = some d }

  abbrev pub created : D → Reply D
  created d = record { status = 201; code = 0; message = "created"; content = some d }

  abbrev pub accepted : D → Reply D
  accepted d = record { status = 202; code = 0; message = "accepted"; content = some d }

  abbrev pub fail : ℕ → ℕ → String → Reply D
  fail http_code err_code msg = record {
    status = http_code;
    code = err_code;
    message = msg;
    content = none;
  }
