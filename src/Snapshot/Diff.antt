-- ===== src/Snapshot/Diff.antt =====
-- internal/snapshot/manager.go: `LocalDiff`, `compareProps` and what they use. What
-- `importFromYAML` returns for the two files is an argument.
pub mod Fields
pub mod Archives
pub mod Outcome
use network_digital_twin_pla.Prelude.{
  String, ◌<>◌, Bool, true, false, not, ◌||◌, ◌&&◌, List, [], ◌∷◌, Option, none, some, Result, ok,
  err, ◌>>=◌, wrap_err, ◌==◌, if◌then◌else◌,
}
use network_digital_twin_pla.Prelude.Dict.{Dict, lookup, insert, has}
use network_digital_twin_pla.Value.{
  ℤ, IntKind, int_native, int64, Value, int, float64, Props, Host, sprint,
}
use network_digital_twin_pla.Assembler.{Node, Relation, most_specific_label}
use Prim.Native.Nat.{ℕ}

pub record FieldChange : Type 0 where
  pub old_value : Value
  pub new_value : Value

pub record NodeChange : Type 0 where
  pub uri : String
  pub label : String
  pub added_fields : Props
  pub removed_fields : Props
  pub modified_fields : Dict FieldChange

pub record RelChange : Type 0 where
  pub type : String
  pub from : String
  pub to : String
  pub added_fields : Props
  pub removed_fields : Props
  pub modified_fields : Dict FieldChange

pub record SnapshotDiff : Type 0 where
  pub added_nodes : List Node
  pub removed_nodes : List Node
  pub added_rels : List Relation
  pub removed_rels : List Relation
  pub changed_nodes : List NodeChange
  pub changed_rels : List RelChange

-- Either loop that fills a new map with the entries whose key the other map lacks.
unfoldable pub lacking {ℓ κ} : {V : Type ℓ} {W : Type κ} → Dict W → Dict V → Dict V
lacking other [] = []
lacking other ((k, v) ∷ m) =
    let rest = lacking other m in if has k other then rest else (k, v) ∷ rest

-- The loops of `LocalDiff` that collect the values of these entries.
unfoldable pub missing_values {ℓ κ} : {V : Type ℓ} {W : Type κ} → Dict W → Dict V → List V
missing_values other [] = []
missing_values other ((k, v) ∷ m) =
    let rest = missing_values other m in if has k other then rest else v ∷ rest

-- The maps by URI and by key: where two have the same key, the last one stands.
unfoldable pub index_by {ℓ} : {V : Type ℓ} → (V → String) → List V → Dict V → Dict V
index_by key [] m = m
index_by key (x ∷ xs) m = index_by key xs (insert (key x) x m)

unfoldable pub rel_key : Relation → String
rel_key r = r.type <> "|" <> r.from <> "|" <> r.to

module _ (host : Host) where
  unfoldable pub to_float64 : Value → Option ℕ
  to_float64 (int int_native n) = some (host.of_int n)
  to_float64 (int int64 n) = some (host.of_int n)
  to_float64 (float64 x) = some x
  to_float64 _ = none

  unfoldable pub values_equal : Value → Value → Bool
  unfolding to_float64
  values_equal a b = elim (to_float64 a) [
    | none ↦ sprint host a == sprint host b
    | some x ↦ elim (to_float64 b) [
      | none ↦ sprint host a == sprint host b
      | some y ↦ host.float_eq x y
    ]
  ]

  -- The third loop of `compareProps`.
  unfoldable pub modified_in : Props → Props → Dict FieldChange
  unfolding values_equal
  modified_in b [] = []
  modified_in b ((k, x) ∷ a) =
      let rest = modified_in b a in
      elim (lookup k b) [
        | none ↦ rest
        | some y ↦
            if values_equal x y then rest else (k, record { old_value = x; new_value = y }) ∷ rest
      ]

  pub record Comparison : Type 0 where
    pub added : Props
    pub removed : Props
    pub modified : Dict FieldChange

  unfoldable pub compare_props : Props → Props → Comparison
  unfolding lacking modified_in
  compare_props a b = record {
    added = lacking a b;
    removed = lacking b a;
    modified = modified_in b a;
  }

  abbrev pub is_change : Comparison → Bool
  is_change c = elim c.added [
    | _ ∷ _ ↦ true
    | [] ↦ elim c.removed [ _ ∷ _ ↦ true | [] ↦ elim c.modified [ _ ∷ _ ↦ true | [] ↦ false ] ]
  ]

  unfoldable pub node_change : String → Node → Comparison → NodeChange
  node_change uri b c = record {
    uri = uri;
    label = most_specific_label b;
    added_fields = c.added;
    removed_fields = c.removed;
    modified_fields = c.modified;
  }

  unfoldable pub rel_change : String → Relation → Comparison → RelChange
  rel_change key b c = record {
    type = b.type;
    from = b.from;
    to = b.to;
    added_fields = c.added;
    removed_fields = c.removed;
    modified_fields = c.modified;
  }

  -- The last two loops of `LocalDiff`; `change` makes what they append.
  unfoldable pub changed_in {ℓ κ} :
      {V : Type ℓ} {C : Type κ}
      → (V → Props)
      → (String → V → Comparison → C)
      → Dict V
      → Dict V
      → List C
  unfolding compare_props
  changed_in props change in_a [] = []
  changed_in props change in_a ((key, b) ∷ in_b) =
      let rest = changed_in props change in_a in_b in
      elim (lookup key in_a) [
        | none ↦ rest
        | some a ↦
            let c = compare_props (props a) (props b) in
            if is_change c then change key b c ∷ rest else rest
      ]

  unfoldable pub diff_archives :
      List Node × List Relation → List Node × List Relation → SnapshotDiff
  unfolding index_by missing_values changed_in
  diff_archives (a_nodes, a_rels) (b_nodes, b_rels) =
      let nodes_a = index_by (λ (n : Node). n.uri) a_nodes [] in
      let nodes_b = index_by (λ (n : Node). n.uri) b_nodes [] in
      let rels_a = index_by rel_key a_rels [] in
      let rels_b = index_by rel_key b_rels [] in
      record {
        added_nodes = missing_values nodes_a nodes_b;
        removed_nodes = missing_values nodes_b nodes_a;
        added_rels = missing_values rels_a rels_b;
        removed_rels = missing_values rels_b rels_a;
        changed_nodes = changed_in (λ (n : Node). n.props) node_change nodes_a nodes_b;
        changed_rels = changed_in (λ (r : Relation). r.props) rel_change rels_a rels_b;
      }

-- Which of the two imports failed, and how.
pub data DiffError {ℓ} (E : Type ℓ) : Type ℓ where
  import_a : E → DiffError E
  import_b : E → DiffError E

-- `LocalDiff`
unfoldable pub local_diff {ℓ} :
    {E : Type ℓ}
    → Host
    → Result E (List Node × List Relation)
    → Result E (List Node × List Relation)
    → Result (DiffError E) SnapshotDiff
unfolding diff_archives
local_diff host a b = do
  x ← wrap_err import_a a
  y ← wrap_err import_b b
  ok (diff_archives host x y)
