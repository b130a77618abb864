-- ===== src/Snapshot/Manager/Comparing/Outcome.antt =====
-- internal/snapshot/manager.go: how `Diff` ends.
use mathlib.Core.List.{Memᴰ}
use mathlib.Core.Path.{subst}
use network_digital_twin_pla.Prelude.{
  ℕ, ◌≡◌, ◌≢◌, refl, ◌∙◌, inl, inr, Bool, false, String, List, some, Result, ok, err, Bool-cases,
  arith,
}
use network_digital_twin_pla.Prelude.Dict.{Dict, lookup, NodupKeys}
use network_digital_twin_pla.Value.{Value, str, Props, Host, sprint}
use network_digital_twin_pla.Assembler.{Node}
use network_digital_twin_pla.Graph.{GraphDb}
use network_digital_twin_pla.Graph.Driver.{Param}
use network_digital_twin_pla.Snapshot.Diff.{
  FieldChange, NodeChange, SnapshotDiff, to_float64, values_equal, compare_props, is_change,
}
use network_digital_twin_pla.Snapshot.Diff.Fields.{compare_props-patched}
use network_digital_twin_pla.Snapshot.Manager.{Archives, State, ManagerError}
use network_digital_twin_pla.Snapshot.Manager.Operations.{ensure_loaded}
use network_digital_twin_pla.Snapshot.Manager.Comparing.{
  ComparingError, ensure_loaded_a, ensure_loaded_b, diff_loaded, diff_after, diff_with, diff,
}
use network_digital_twin_pla.Snapshot.Manager.Comparing.Rows.{reported_change}
use network_digital_twin_pla.Snapshot.Manager.Comparing.Queries.{
  Stored, Answers, Compared, Ended, added_nodes_fails, removed_nodes_fails, added_rels_fails,
  removed_rels_fails, changed_nodes_fails, changed_rels_fails, compares, diff_loaded-Ended,
}

module _ {G E F X : Type 0} (db : GraphDb G E) (ar : Archives F X)
    (error_text : ManagerError E X → String) (host : Host) (differs : Value → Value → Bool)
    (query : G → String → String → Dict Param → Result E (List Props))
    (content : G → String → Stored) (now later : ℕ) (a b : String) (s : State G F) where
  pub data Outcome : Result (ComparingError E X) SnapshotDiff × State G F → Type 0 where
    a_fails :
        {e : ManagerError E X} {s' : State G F}
        → ensure_loaded db ar error_text now a s ≡ (err e, s')
        → Outcome (err (ensure_loaded_a e), s')
    b_fails :
        {e : ManagerError E X} {s' s'' : State G F}
        → ensure_loaded db ar error_text now a s ≡ (ok tt, s')
        → ensure_loaded db ar error_text later b s' ≡ (err e, s'')
        → Outcome (err (ensure_loaded_b e), s'')
    queried :
        {r : Result (ComparingError E X) SnapshotDiff} {s' s'' : State G F}
        → ensure_loaded db ar error_text now a s ≡ (ok tt, s')
        → ensure_loaded db ar error_text later b s' ≡ (ok tt, s'')
        → Ended host differs (query s''.graph) a b X (content s''.graph a) (content s''.graph b) r
        → Outcome (r, s'')

  -- On the graph with both snapshots the queries are answered as their texts ask.
  abbrev pub AnswersLoaded : Type 0
  AnswersLoaded =
      (s' s'' : State G F)
      → ensure_loaded db ar error_text now a s ≡ (ok tt, s')
      → ensure_loaded db ar error_text later b s' ≡ (ok tt, s'')
      → Answers host differs (query s''.graph) a b (content s''.graph a) (content s''.graph b)

  after-Outcome :
      AnswersLoaded
      → (s' : State G F) → ensure_loaded db ar error_text now a s ≡ (ok tt, s')
      → (p : Result (ManagerError E X) (Unit {0}) × State G F)
      → ensure_loaded db ar error_text later b s' ≡ p
      → Outcome (diff_after db ar error_text host query a b p)
  after-Outcome answers s' first (err e, s'') second = b_fails first second
  after-Outcome answers s' first (ok _, s'') second = queried first second (
      diff_loaded-Ended host differs (query s''.graph) a b X (content s''.graph a)
        (content s''.graph b) (answers s' s'' first second))

  with-Outcome :
      AnswersLoaded
      → (p : Result (ManagerError E X) (Unit {0}) × State G F)
      → ensure_loaded db ar error_text now a s ≡ p
      → Outcome (diff_with db ar error_text host query later b a p)
  with-Outcome answers (err e, s') first = a_fails first
  with-Outcome answers (ok _, s') first =
      after-Outcome answers s' first (ensure_loaded db ar error_text later b s') refl

  -- `Diff` fails with the error of the first load or of the first query that fails. Else, on a graph where
  -- the queries are answered as their texts ask, a node is added if it has a label and a URI, and stands in
  -- the second snapshot where the first has no node of this URI; removed likewise; a relation, with a type
  -- and two ends, is added or removed if the other snapshot has none of its type between its ends; and of
  -- two nodes with one URI and the same labels, and of two relations with one type and the same ends, what
  -- `compareProps` finds is reported exactly if there is a key, for nodes another than `_db`, that both
  -- have with different values.
  pub diff-Outcome : AnswersLoaded → Outcome (diff db ar error_text host query now later a b s)
  unfolding diff
  diff-Outcome answers = with-Outcome answers (ensure_loaded db ar error_text now a s) refl

texts-differ : (host : Host) (a b : String) → a ≢ b → values_equal host (str a) (str b) ≡ false
unfolding values_equal to_float64 sprint
texts-differ host a b differ = ground arith

-- Every node of a logical database has its name as a property.
abbrev pub IsTagged : String → Stored → Type 0
IsTagged name stored =
    (n : Node) → Memᴰ n stored.nodes → NodupKeys n.props × (lookup "_db" n.props ≡ some (str name))

module _ {E : Type 0} (host : Host) (differs : Value → Value → Bool)
    (query : String → String → Dict Param → Result E (List Props)) (X : Type 0) (a b : String)
    (in_a in_b : Stored) where
  ended-Compared :
      (r : Result (ComparingError E X) SnapshotDiff) (d : SnapshotDiff)
      → Ended host differs query a b X in_a in_b r
      → r ≡ ok d
      → Compared host differs query a b in_a in_b d
  ended-Compared r d (compares {d = found} compared) e =
      subst (Compared host differs query a b in_a in_b) (ground (arith, e)) compared
  ended-Compared r d (added_nodes_fails f) e = absurd (cc)
  ended-Compared r d (removed_nodes_fails e1 f) e = absurd (cc)
  ended-Compared r d (added_rels_fails e1 e2 f) e = absurd (cc)
  ended-Compared r d (removed_rels_fails e1 e2 e3 f) e = absurd (cc)
  ended-Compared r d (changed_nodes_fails e1 e2 e3 e4 f) e = absurd (cc)
  ended-Compared r d (changed_rels_fails e1 e2 e3 e4 e5 f) e = absurd (cc)

  abbrev tag_change : FieldChange
  tag_change = record { old_value = str a; new_value = str b }

  tagged_change :
      (m n : Node) (c : NodeChange)
      → a ≢ b
      → NodupKeys m.props × (lookup "_db" m.props ≡ some (str a))
      → NodupKeys n.props × (lookup "_db" n.props ≡ some (str b))
      → reported_change host (m, n) ≡ some c
      → lookup "_db" c.modified_fields ≡ some tag_change
  tagged_change m n c differ (u, tag_a) (_, tag_b) reported =
      let d = compare_props host m.props n.props in
      let found : lookup "_db" d.modified ≡ some tag_change =
        (compare_props-patched host m.props n.props "_db" u).3
        ∙ rw (tag_a, tag_b, texts-differ host a b differ) refl in
      elim (Bool-cases (is_change host d)) [
        | inl some_ ↦ ground (arith, some_, reported, found)
        | inr none_ ↦ absurd (ground (arith, none_, reported))
      ]

  -- Of two snapshots with different names, every changed node is reported with `_db` among its modified
  -- fields, from the one name to the other.
  pub diff_loaded-tagged :
      a ≢ b
      → IsTagged a in_a
      → IsTagged b in_b
      → Answers host differs query a b in_a in_b
      → (d : SnapshotDiff) → diff_loaded host X query a b ≡ ok d
      → (c : NodeChange) → Memᴰ c d.changed_nodes
      → lookup "_db" c.modified_fields ≡ some tag_change
  diff_loaded-tagged differ tag_a tag_b answers d found c there =
      let compared =
        ended-Compared (diff_loaded host X query a b) d
          (diff_loaded-Ended host differs query a b X in_a in_b answers) found in
      let ((m, n), changed, reported) = (compared.changed_nodes c).0 there in
      tagged_change m n c differ (tag_a m changed.0) (tag_b n changed.1) reported
