-- ===== src/Tests/Comparing.antt =====
-- A comparison of two snapshots, "monday" and "tuesday", in a database with few nodes.
use mathlib.Core.List.{Memᴰ}
use mathlib.Core.List.Memᴰ
use mathlib.Core.Path.{subst}
use network_digital_twin_pla.Prelude.{
  ◌≡◌, ◌≢◌, refl, sym, ap, ◌∙◌, Bool, String, true, false, not, List, [], ◌∷◌, some, Result, ok,
  ◌==◌, if◌then◌else◌, String-discrete,
}
use network_digital_twin_pla.Prelude.Dict.{Dict, lookup, NodupKeys}
use network_digital_twin_pla.Value.{
  Value, str, strings, object, field, no_field, Props, plain_host, sprint,
}
use network_digital_twin_pla.Assembler.{Node, to_string_slice}
use network_digital_twin_pla.Graph.Driver.{Param}
use network_digital_twin_pla.Snapshot.Audit.{new_audit_log}
use network_digital_twin_pla.Snapshot.Diff.{NodeChange, SnapshotDiff, values_equal}
use network_digital_twin_pla.Snapshot.Manager.{
  SnapshotMeta, State, extract_props, any_to_string_slice,
}
use network_digital_twin_pla.Snapshot.Manager.Comparing.{
  missing_nodes_query, changed_nodes_query, diff_loaded, diff,
}
use network_digital_twin_pla.Snapshot.Manager.Comparing.Rows.{Answered, ShowsNode, ShowsNodes}
use network_digital_twin_pla.Snapshot.Manager.Comparing.Queries.{
  Stored, MissingNode, ChangedNodes, Answers,
}
use network_digital_twin_pla.Snapshot.Manager.Comparing.Outcome.{
  Outcome, diff-Outcome, IsTagged, diff_loaded-tagged,
}
use network_digital_twin_pla.Tests.{ne_of_test}
use network_digital_twin_pla.Tests.Services.{Content, memory_db, archives, text_of_error}

abbrev core_then : Node
core_then = record {
  labels = "Device" ∷ [];
  uri = "device:core";
  props = ("_db", str "monday") ∷ ("status", str "up") ∷ [];
}

abbrev core_now : Node
core_now = record {
  labels = "Device" ∷ [];
  uri = "device:core";
  props = ("_db", str "tuesday") ∷ ("status", str "down") ∷ [];
}

abbrev edge_now : Node
edge_now = record {
  labels = "Device" ∷ [];
  uri = "device:edge";
  props = ("_db", str "tuesday") ∷ [];
}

abbrev monday : Stored
monday = record { nodes = core_then ∷ []; rels = [] }

abbrev tuesday : Stored
tuesday = record { nodes = core_now ∷ edge_now ∷ []; rels = [] }

abbrev edge_row : Props
edge_row =
    ("labels", strings ("Device" ∷ []))
    ∷ ("uri", str "device:edge")
    ∷ ("props", object (field "_db" (str "tuesday") no_field))
    ∷ []

abbrev core_row : Props
core_row =
    ("uri", str "device:core")
    ∷ ("labels", strings ("Device" ∷ []))
    ∷ ("aProps", object (field "_db" (str "monday") (field "status" (str "up") no_field)))
    ∷ ("bProps", object (field "_db" (str "tuesday") (field "status" (str "down") no_field)))
    ∷ []

abbrev rows_of : String → String → List Props
rows_of db cypher =
    if cypher == missing_nodes_query
    then (if db == "tuesday" then edge_row ∷ [] else [])
    else if cypher == changed_nodes_query
    then core_row ∷ []
    else []

abbrev answer : String → String → Dict Param → Result String (List Props)
answer db cypher params = ok (rows_of db cypher)

abbrev differs : Value → Value → Bool
differs x y = not (values_equal plain_host x y)

rows_ok :
    {rows rows' : List Props}
    → ◌≡◌ {A = Result String (List Props)} (ok rows) (ok rows')
    → rows ≡ rows'
rows_ok e = cc

nothing-Answered :
    {A : Type 0} {Shows : Props → A → Type 0} {Asked : A → Type 0}
    → ((x : A) → Asked x → ⊥)
    → Answered Shows Asked []
nothing-Answered none_ = record {
  sound = λ row there. absurd (Memᴰ.not-nil there);
  complete = λ x asked. absurd (none_ x asked);
}

core_is_not_edge : ◌≢◌ {A = String} "device:core" "device:edge"
unfolding String-discrete
core_is_not_edge = ne_of_test "device:core" "device:edge" refl

edge_shown : ShowsNode edge_row edge_now
unfolding lookup String-discrete extract_props any_to_string_slice to_string_slice
edge_shown = record { labels = refl; uri = refl; props = refl }

other_uri : (m n : Node) → m ≡ core_then → n ≡ edge_now → m.uri ≢ n.uri
other_uri m n is_core is_edge e =
    core_is_not_edge (ap (λ (k : Node). k.uri) (sym is_core) ∙ e ∙ ap (λ (k : Node). k.uri) is_edge)

edge_missing : MissingNode tuesday.nodes monday.nodes edge_now
edge_missing =
    (Memᴰ.tail (Memᴰ.head refl), λ m there. other_uri m edge_now (Memᴰ.eq_of_singleton there) refl)

edge_answers :
    (n : Node)
    → MissingNode tuesday.nodes monday.nodes n
    → (row : Props) × Memᴰ row (edge_row ∷ []) × ShowsNode row n
edge_answers n (Memᴰ.head is_core, fresh) =
    absurd (fresh core_then (Memᴰ.head refl) (ap (λ (k : Node). k.uri) (sym is_core)))
edge_answers n (Memᴰ.tail there, fresh) = (
  edge_row,
  Memᴰ.head refl,
  subst (ShowsNode edge_row) (sym (Memᴰ.eq_of_singleton there)) edge_shown,
)

added-Answered : Answered ShowsNode (MissingNode tuesday.nodes monday.nodes) (edge_row ∷ [])
added-Answered = record {
  sound = λ row there. (
    edge_now,
    edge_missing,
    subst (λ r. ShowsNode r edge_now) (sym (Memᴰ.eq_of_singleton there)) edge_shown,
  );
  complete = edge_answers;
}

none_removed : (n : Node) → MissingNode monday.nodes tuesday.nodes n → ⊥
none_removed n (there, fresh) =
    fresh core_now (Memᴰ.head refl) (ap (λ (k : Node). k.uri) (sym (Memᴰ.eq_of_singleton there)))

status_differs : differs (str "up") (str "down") ≡ true
unfolding values_equal sprint String-discrete
status_differs = refl

status_is_no_tag : ◌≢◌ {A = String} "status" "_db"
unfolding String-discrete
status_is_no_tag = ne_of_test "status" "_db" refl

core_changed : ChangedNodes differs monday.nodes tuesday.nodes (core_then, core_now)
unfolding lookup String-discrete
core_changed = (
  Memᴰ.head refl,
  Memᴰ.head refl,
  refl,
  refl,
  ("status", status_is_no_tag, (str "up", str "down", refl, refl, status_differs)),
)

core_shown : ShowsNodes plain_host core_row (core_then, core_now)
unfolding lookup String-discrete extract_props any_to_string_slice to_string_slice
core_shown = record { uri = refl; labels = refl; a_props = refl; b_props = refl }

core_answers :
    (p : Node × Node)
    → ChangedNodes differs monday.nodes tuesday.nodes p
    → (row : Props) × Memᴰ row (core_row ∷ []) × ShowsNodes plain_host row p
core_answers (m, n) (first, Memᴰ.head second, _, _, _) =
    let same : ◌≡◌ {A = Node × Node} (core_then, core_now) (m, n) =
      λ i. (sym (Memᴰ.eq_of_singleton first) i, sym second i) in
    (core_row, Memᴰ.head refl, subst (ShowsNodes plain_host core_row) same core_shown)
core_answers (m, n) (first, Memᴰ.tail second, uri, _, _) =
    absurd (other_uri m n (Memᴰ.eq_of_singleton first) (Memᴰ.eq_of_singleton second) uri)

changed-Answered :
    Answered
      (ShowsNodes plain_host)
      (ChangedNodes differs monday.nodes tuesday.nodes)
      (core_row ∷ [])
changed-Answered = record {
  sound = λ row there. (
    (core_then, core_now),
    core_changed,
    subst (λ r. ShowsNodes plain_host r (core_then, core_now)) (sym (Memᴰ.eq_of_singleton there))
        core_shown,
  );
  complete = core_answers;
}

answers : Answers plain_host differs answer "monday" "tuesday" monday tuesday
unfolding String-discrete
answers = record {
  added_nodes = λ rows e. subst (Answered ShowsNode _) (rows_ok e) added-Answered;
  removed_nodes =
      λ rows e. subst (Answered ShowsNode _) (rows_ok e) (nothing-Answered none_removed);
  added_rels = λ rows e.
      subst (Answered _ _) (rows_ok e) (nothing-Answered (λ r missing. Memᴰ.not-nil missing.0));
  removed_rels = λ rows e.
      subst (Answered _ _) (rows_ok e) (nothing-Answered (λ r missing. Memᴰ.not-nil missing.0));
  changed_nodes = λ rows e. subst (Answered _ _) (rows_ok e) changed-Answered;
  changed_rels = λ rows e.
      subst (Answered _ _) (rows_ok e) (nothing-Answered (λ p changed. Memᴰ.not-nil changed.0));
}

abbrev loaded : State (Dict Content) (Dict (SnapshotMeta × Content))
loaded = record {
  graph = ("monday", ([], [])) ∷ ("tuesday", ([], [])) ∷ [];
  files = [];
  snap_dir = "snapshots";
  max_active = 2;
  last_access = [];
  meta_cache = [];
  cache_ready = false;
  audit_log = new_audit_log 1000;
  retention_days = 0;
}

abbrev stored : Dict Content → String → Stored
stored g name = if name == "monday" then monday else tuesday

stored_answers :
    (g : Dict Content)
    → Answers plain_host differs answer "monday" "tuesday" (stored g "monday") (stored g "tuesday")
unfolding String-discrete
stored_answers g = answers

diff-Outcome_example :
    Outcome memory_db archives text_of_error plain_host differs
      (λ g. answer)
      stored
      3
      4
      "monday"
      "tuesday"
      loaded
      (diff memory_db archives text_of_error plain_host (λ g. answer) 3 4 "monday" "tuesday" loaded)
diff-Outcome_example =
    diff-Outcome memory_db archives text_of_error plain_host differs (λ g. answer) stored 3 4
      "monday" "tuesday" loaded (λ s' s'' first second. stored_answers s''.graph)

monday-IsTagged : IsTagged "monday" monday
unfolding lookup String-discrete
monday-IsTagged n there =
    subst (λ (m : Node). NodupKeys m.props × (lookup "_db" m.props ≡ some (str "monday")))
      (sym (Memᴰ.eq_of_singleton there)) ((refl, (refl, tt)), refl)

tuesday-IsTagged : IsTagged "tuesday" tuesday
unfolding lookup String-discrete
tuesday-IsTagged n (Memᴰ.head is_core) =
    subst (λ (m : Node). NodupKeys m.props × (lookup "_db" m.props ≡ some (str "tuesday")))
      (sym is_core) ((refl, (refl, tt)), refl)
tuesday-IsTagged n (Memᴰ.tail there) =
    subst (λ (m : Node). NodupKeys m.props × (lookup "_db" m.props ≡ some (str "tuesday")))
      (sym (Memᴰ.eq_of_singleton there)) ((refl, tt), refl)

monday_is_not_tuesday : ◌≢◌ {A = String} "monday" "tuesday"
unfolding String-discrete
monday_is_not_tuesday = ne_of_test "monday" "tuesday" refl

abbrev core_change : NodeChange
core_change = record {
  uri = "device:core";
  label = "Device";
  added_fields = [];
  removed_fields = [];
  modified_fields =
      ("_db", record { old_value = str "monday"; new_value = str "tuesday" })
      ∷ ("status", record { old_value = str "up"; new_value = str "down" })
      ∷ [];
}

abbrev found : SnapshotDiff
found = record {
  added_nodes = edge_now ∷ [];
  removed_nodes = [];
  added_rels = [];
  removed_rels = [];
  changed_nodes = core_change ∷ [];
  changed_rels = [];
}

found_test : diff_loaded plain_host String answer "monday" "tuesday" ≡ ok found
unfolding diff_loaded String-discrete lookup to_string_slice values_equal sprint
found_test = refl

diff_loaded-tagged_example :
    lookup "_db" core_change.modified_fields
    ≡ some (record { old_value = str "monday"; new_value = str "tuesday" })
diff_loaded-tagged_example =
    diff_loaded-tagged plain_host differs answer String "monday" "tuesday" monday tuesday
      monday_is_not_tuesday monday-IsTagged tuesday-IsTagged answers found found_test core_change
      (Memᴰ.head refl)
