-- ===== src/Snapshot/Audit/History.antt =====
-- The log as a window on the history of all that was recorded.
use mathlib.Core.List.{append-nil, append_assoc}
use network_digital_twin_pla.Prelude.{
  ℕ, zero, suc, ◌+◌, ◌-◌, ◌<◌, ◌≤◌, ◌≡◌, refl, ◌∙◌, ap, sym, inl, inr, List, [], ◌∷◌, ◌++◌, ltb,
  arith, if◌then◌else◌, length, length-append, drop, length-drop, drop-nil, drop-drop, Bool-cases,
}
use network_digital_twin_pla.Value.{pos}
use network_digital_twin_pla.Snapshot.Audit.{
  AuditEntry, AuditLog, new_audit_log, stamped, record_entry, recent, least,
}

-- The calls of `Record` so far, each with its time, the first one first.
abbrev pub record_all : List (ℕ × AuditEntry) → AuditLog → AuditLog
record_all [] l = l
record_all ((now, entry) ∷ calls) l = record_all calls (record_entry now entry l).0

abbrev pub history : List (ℕ × AuditEntry) → List AuditEntry
history [] = []
history ((now, entry) ∷ calls) = stamped now entry ∷ history calls

drop-append {ℓ} :
    {A : Type ℓ} (n : ℕ) (xs ys : List A) → n ≤ length xs → drop n (xs ++ ys) ≡ drop n xs ++ ys
drop-append zero xs ys h = refl
drop-append (suc n) [] ys h = absurd (omega arith)
drop-append (suc n) (x ∷ xs) ys h = drop-append n xs ys (omega arith)

-- The last `m` elements of a list, or all of it.
abbrev pub window : ℕ → List AuditEntry → List AuditEntry
window m xs = drop (length xs - m) xs

window-snoc :
    (m : ℕ) (xs : List AuditEntry) (e : AuditEntry)
    → window m (window m xs ++ e ∷ []) ≡ window m (xs ++ e ∷ [])
window-snoc m xs e =
    let l = length xs in
    let split : window m xs ++ e ∷ [] ≡ drop (l - m) (xs ++ e ∷ []) =
      sym (drop-append (l - m) xs (e ∷ []) (omega arith)) in
    let whole : length (window m xs ++ e ∷ []) ≡ (l - (l - m)) + 1 =
      omega (arith, length-append (window m xs) (e ∷ []), length-drop (l - m) xs) in
    let ends : length (xs ++ e ∷ []) ≡ l + 1 = length-append xs (e ∷ []) in
    let k : (length (window m xs ++ e ∷ []) - m) + (l - m) ≡ length (xs ++ e ∷ []) - m =
      omega (arith, whole, ends) in
    ap (drop (length (window m xs ++ e ∷ []) - m)) split
    ∙ drop-drop (length (window m xs ++ e ∷ []) - m) (l - m) (xs ++ e ∷ [])
    ∙ ap (λ n. drop n (xs ++ e ∷ [])) k

entries-record_entry :
    (now : ℕ) (entry : AuditEntry) (l : AuditLog)
    → (record_entry now entry l).0.entries
      ≡ window l.max_entries (l.entries ++ stamped now entry ∷ [])
unfolding record_entry
entries-record_entry now entry l =
    elim (Bool-cases (ltb l.max_entries (length (l.entries ++ stamped now entry ∷ [])))) [
      | inl over ↦ rw (over) refl
      | inr fits ↦
          let none_off : length (l.entries ++ stamped now entry ∷ []) - l.max_entries ≡ 0 =
            ground arith in
          rw (fits, none_off) refl
    ]

entries-record_all :
    (calls : List (ℕ × AuditEntry)) (l : AuditLog) (past : List AuditEntry)
    → l.entries ≡ window l.max_entries past
    → (record_all calls l).entries ≡ window l.max_entries (past ++ history calls)
unfolding record_entry
entries-record_all [] l past e = e ∙ ap (window l.max_entries) (sym (append-nil past))
entries-record_all ((now, entry) ∷ calls) l past e =
    let x = stamped now entry in
    let once : (record_entry now entry l).0.entries ≡ window l.max_entries (past ++ x ∷ []) =
      entries-record_entry now entry l
      ∙ ap (λ es. window l.max_entries (es ++ x ∷ [])) e
      ∙ window-snoc l.max_entries past x in
    entries-record_all calls (record_entry now entry l).0 (past ++ x ∷ []) once
    ∙ ap (window l.max_entries) (append_assoc past (x ∷ []) (history calls))

-- After any calls of `Record` on a new log, `Recent(n)` returns the last of all entries that were
-- recorded, in order and with the times of the calls: as many as `n` says, but no more than the
-- log's bound.
pub recent-history :
    (max_entries n : ℕ) (calls : List (ℕ × AuditEntry))
    → 0 < n
    → recent (pos n) (record_all calls (new_audit_log max_entries))
      ≡ (if ltb n max_entries then window n (history calls) else window max_entries (history calls))
unfolding recent new_audit_log
recent-history max_entries zero calls h = absurd (omega arith)
recent-history max_entries (suc n) calls h =
    let es = history calls in
    let m = max_entries in
    let l = length es in
    let log = record_all calls (new_audit_log m) in
    let kept : log.entries ≡ window m es =
      entries-record_all calls (new_audit_log m) [] (sym (drop-nil (0 - m))) in
    let size : length log.entries ≡ l - (l - m) = ap length kept ∙ length-drop (l - m) es in
    let off = length log.entries - least (suc n) (length log.entries) in
    let all_off : drop off log.entries ≡ drop (off + (l - m)) es =
      ap (drop off) kept ∙ drop-drop off (l - m) es in
    elim (Bool-cases (ltb (suc n) m)) [
      | inl under ↦
          let k : off + (l - m) ≡ l - suc n = ground (arith, size, under) in
          rw under (all_off ∙ ap (λ i. drop i es) k)
      | inr over ↦
          let k : off + (l - m) ≡ l - m = ground (arith, size, over) in
          rw over (all_off ∙ ap (λ i. drop i es) k)
    ]
