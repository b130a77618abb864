-- ===== src/Tests/Snapshot.antt =====
-- Tests of the audit log and of the comparison of archives.
use network_digital_twin_pla.Prelude.{
  ℕ, ◌≡◌, refl, ◌⊎◌, String, List, [], ◌∷◌, Result, ok, err, none, arith, if◌then◌else◌, ltb,
  String-discrete,
}
use network_digital_twin_pla.Prelude.Dict.{lookup, has}
use network_digital_twin_pla.Value.{str, int, int_native, pos, Props, plain_host}
use network_digital_twin_pla.Assembler.{Node, Relation}
use network_digital_twin_pla.Snapshot.Audit.{AuditEntry, AuditFilter, new_audit_log, recent}
use network_digital_twin_pla.Snapshot.Audit.History.{record_all, history, window, recent-history}
use network_digital_twin_pla.Snapshot.Diff.{
  SnapshotDiff, import_a, import_b, local_diff, compare_props,
}
use network_digital_twin_pla.Snapshot.Diff.Fields.{Agree, patched, change_of, compare_props-patched}
use network_digital_twin_pla.Snapshot.Diff.Outcome.{Compared, local_diff_outcome}

abbrev entry : String → AuditEntry
entry name = record {
  timestamp = 0;
  action = "create";
  snapshot = name;
  actor = "system";
  detail = "";
  error = "";
}

abbrev calls : List (ℕ × AuditEntry)
calls = (1, entry "a") ∷ (2, entry "b") ∷ (3, entry "c") ∷ []

recent-history_example :
    recent (pos 1) (record_all calls (new_audit_log 2))
    ≡ (if ltb 1 2 then window 1 (history calls) else window 2 (history calls))
recent-history_example = recent-history 2 1 calls (omega arith)

abbrev created : AuditFilter
created = record { action = "create"; snapshot = "c"; since = 2; until = 0 }

abbrev before : Props
before = ("mtu", int int_native (pos 1500)) ∷ ("name", str "a") ∷ []

abbrev after : Props
after = ("mtu", int int_native (pos 9000)) ∷ ("site", str "x") ∷ []

compare_props-patched_example :
    Agree plain_host
      (patched plain_host (compare_props plain_host before after) (lookup "mtu" before) "mtu")
      (lookup "mtu" after)
    × (lookup "mtu" (compare_props plain_host before after).added
        ≡ (if has "mtu" before then none else lookup "mtu" after))
    × (lookup "mtu" (compare_props plain_host before after).removed
        ≡ (if has "mtu" after then none else lookup "mtu" before))
    × (lookup "mtu" (compare_props plain_host before after).modified
        ≡ change_of plain_host (lookup "mtu" before) (lookup "mtu" after))
unfolding lookup String-discrete
compare_props-patched_example =
    compare_props-patched plain_host before after "mtu" (refl, (refl, tt))

abbrev archive_a : Result String (List Node × List Relation)
archive_a = ok (record { labels = "Device" ∷ []; uri = "device:a"; props = before } ∷ [], [])

abbrev archive_b : Result String (List Node × List Relation)
archive_b = ok (record { labels = "Device" ∷ []; uri = "device:a"; props = after } ∷ [], [])

local_diff_outcome_example :
    ((e : String) × (archive_a ≡ err e)
      × (local_diff plain_host archive_a archive_b ≡ err (import_a e)))
    ⊎ (((e : String) × (x : List Node × List Relation) × (archive_a ≡ ok x)
          × (archive_b ≡ err e)
          × (local_diff plain_host archive_a archive_b ≡ err (import_b e)))
        ⊎ ((x : List Node × List Relation) × (y : List Node × List Relation) × (diff : SnapshotDiff)
            × (archive_a ≡ ok x)
            × (archive_b ≡ ok y)
            × (local_diff plain_host archive_a archive_b ≡ ok diff)
            × Compared plain_host x y diff))
local_diff_outcome_example = local_diff_outcome plain_host archive_a archive_b
