-- ===== src/Snapshot/Audit.antt =====
-- internal/snapshot/audit.go. A time is a number, and 0 is the zero time. The goroutine that writes
-- an entry to the repository stands as the record that it is given.
pub mod History
pub mod Filter
use network_digital_twin_pla.Prelude.{
  ℕ, zero, suc, ◌-◌, ◌≡◌, String, Bool, true, false, not, ◌&&◌, List, [], ◌∷◌, ◌++◌, ◌==◌, ltb, leb,
  eqb, if◌then◌else◌, length, drop,
}
use network_digital_twin_pla.Value.{ℤ, pos, negsuc}

pub record AuditEntry : Type 0 where
  pub timestamp : ℕ
  pub action : String
  pub snapshot : String
  pub actor : String
  pub detail : String
  pub error : String

pub record AuditFilter : Type 0 where
  pub action : String
  pub snapshot : String
  pub since : ℕ
  pub until : ℕ

-- `repository.AuditLogRecord`, as far as the log fills it.
pub record AuditLogRecord : Type 0 where
  pub timestamp : ℕ
  pub action : String
  pub snapshot : String
  pub actor : String
  pub detail : String
  pub error : String

pub record AuditLog : Type 0 where
  pub entries : List AuditEntry
  pub max_entries : ℕ
  pub has_repo : Bool

unfoldable pub new_audit_log : ℕ → AuditLog
new_audit_log max_entries = record { entries = []; max_entries = max_entries; has_repo = false }

unfoldable pub set_repository : AuditLog → AuditLog
set_repository l = record l { has_repo = true }

unfoldable pub to_audit_record : AuditEntry → AuditLogRecord
to_audit_record e = record {
  timestamp = e.timestamp;
  action = e.action;
  snapshot = e.snapshot;
  actor = e.actor;
  detail = e.detail;
  error = e.error;
}

abbrev pub stamped : ℕ → AuditEntry → AuditEntry
stamped now entry = record entry { timestamp = now }

-- `Record` at the time `now`: the log, and what goes to the repository.
unfoldable pub record_entry : ℕ → AuditEntry → AuditLog → AuditLog × List AuditLogRecord
unfolding to_audit_record
record_entry now entry l =
    let entries = l.entries ++ stamped now entry ∷ [] in
    let kept =
      if ltb l.max_entries (length entries)
      then drop (length entries - l.max_entries) entries
      else entries in
    (
      record l { entries = kept },
      if l.has_repo then to_audit_record (stamped now entry) ∷ [] else [],
    )

-- The four tests of the loop of `Query`; true where none of them skips the entry.
unfoldable pub passes : AuditFilter → AuditEntry → Bool
passes filter e =
    not (not (filter.action == "") && not (e.action == filter.action))
    && (not (not (filter.snapshot == "") && not (e.snapshot == filter.snapshot))
        && (not (not (eqb filter.since 0) && ltb e.timestamp filter.since)
            && not (not (eqb filter.until 0) && ltb filter.until e.timestamp)))

query_loop : AuditFilter → List AuditEntry → List AuditEntry
query_loop filter [] = []
query_loop filter (e ∷ entries) =
    let rest = query_loop filter entries in if passes filter e then e ∷ rest else rest

unfoldable pub query : AuditFilter → AuditLog → List AuditEntry
unfolding query_loop passes
query filter l = query_loop filter l.entries

abbrev least : ℕ → ℕ → ℕ
least n m = if ltb m n then m else n

unfoldable pub recent : ℤ → AuditLog → List AuditEntry
recent (negsuc n) l = []
recent (pos zero) l = []
recent (pos (suc n)) l = drop (length l.entries - least (suc n) (length l.entries)) l.entries
