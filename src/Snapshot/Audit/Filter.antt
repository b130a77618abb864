-- ===== src/Snapshot/Audit/Filter.antt =====
-- `Query` returns the entries that the filter asks for.
use mathlib.Core.Path.{subst}
use mathlib.Core.List.{Memᴰ}
use network_digital_twin_pla.Prelude.{
  ◌≤◌, ◌≡◌, ◌⊎◌, inl, inr, ◌↔◌, Bool, true, List, [], ◌∷◌, arith, if◌then◌else◌, Bool-cases,
}
use network_digital_twin_pla.Snapshot.Audit.{
  AuditEntry, AuditFilter, AuditLog, passes, query, query_loop,
}

-- An empty name and a zero time ask for nothing.
pub record Asked (filter : AuditFilter) (e : AuditEntry) : Type 0 where
  pub action : (filter.action ≡ "") ⊎ (e.action ≡ filter.action)
  pub snapshot : (filter.snapshot ≡ "") ⊎ (e.snapshot ≡ filter.snapshot)
  pub since : (filter.since ≡ 0) ⊎ (filter.since ≤ e.timestamp)
  pub until : (filter.until ≡ 0) ⊎ (e.timestamp ≤ filter.until)

passes-Asked : (filter : AuditFilter) (e : AuditEntry) → passes filter e ≡ true → Asked filter e
unfolding passes
passes-Asked filter e h = record {
  action = ground arith;
  snapshot = ground arith;
  since = ground arith;
  until = ground arith;
}

Asked-passes : (filter : AuditFilter) (e : AuditEntry) → Asked filter e → passes filter e ≡ true
unfolding passes
Asked-passes filter e a = ground (arith, a.action, a.snapshot, a.since, a.until)

module _ (filter : AuditFilter) (e : AuditEntry) where
  Asked-head :
      (x : AuditEntry) (entries rest : List AuditEntry)
      → passes filter x ≡ true
      → (Memᴰ e rest → Memᴰ e entries × Asked filter e)
      → Memᴰ e (x ∷ rest)
      → Memᴰ e (x ∷ entries) × Asked filter e
  Asked-head x entries rest keep tail (Memᴰ.head same) =
      (Memᴰ.head same, rw same (passes-Asked filter x keep))
  Asked-head x entries rest keep tail (Memᴰ.tail m) = let (m', a) = tail m in (Memᴰ.tail m', a)

  Memᴰ-Asked :
      (entries : List AuditEntry)
      → Memᴰ e (query_loop filter entries)
      → Memᴰ e entries × Asked filter e
  unfolding query_loop
  Memᴰ-Asked [] m = elim m [ ]
  Memᴰ-Asked (x ∷ entries) m =
      let rest = query_loop filter entries in
      let at = λ (b : Bool). Memᴰ e (if b then x ∷ rest else rest) in
      elim (Bool-cases (passes filter x)) [
        | inl keep ↦ Asked-head x entries rest keep (Memᴰ-Asked entries) (subst at keep m)
        | inr skip ↦ let (m', a) = Memᴰ-Asked entries (subst at skip m) in (Memᴰ.tail m', a)
      ]

  Asked-Memᴰ :
      (entries : List AuditEntry)
      → Memᴰ e entries × Asked filter e
      → Memᴰ e (query_loop filter entries)
  unfolding query_loop
  Asked-Memᴰ [] (m, a) = elim m [ ]
  Asked-Memᴰ (x ∷ entries) (Memᴰ.head same, a) =
      let keep : passes filter x ≡ true = Asked-passes filter x (rw (← same) a) in
      rw (keep, query_loop) (Memᴰ.head same)
  Asked-Memᴰ (x ∷ entries) (Memᴰ.tail m, a) = elim (Bool-cases (passes filter x)) [
    | inl keep ↦ rw (keep, query_loop) (Memᴰ.tail (Asked-Memᴰ entries (m, a)))
    | inr skip ↦ rw (skip, query_loop) (Asked-Memᴰ entries (m, a))
  ]

-- `Query` returns the entries of the log that the filter asks for, and no others: each name that is
-- given is the entry's, and the time lies between the bounds that are given, these included.
pub query-Memᴰ :
    (filter : AuditFilter) (l : AuditLog) (e : AuditEntry)
    → Memᴰ e (query filter l) ↔ (Memᴰ e l.entries × Asked filter e)
unfolding query
query-Memᴰ filter l e = (Memᴰ-Asked filter e l.entries, Asked-Memᴰ filter e l.entries)
