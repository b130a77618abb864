-- ===== src/Snapshot/Manager/Comparing/Rows.antt =====
-- internal/snapshot/manager.go: the loops of `Diff` over the rows of a query.
use mathlib.Core.List.{Memᴰ}
use network_digital_twin_pla.Prelude.{
  ◌≡◌, refl, sym, ap, ◌∙◌, ◌↔◌, inl, inr, List, [], ◌∷◌, Option, none, some, eqb, length,
  if◌then◌else◌, ◌==◌, Bool-cases, Option-cases,
}
use network_digital_twin_pla.Prelude.Dict.{lookup}
use network_digital_twin_pla.Value.{str, Props, Host}
use network_digital_twin_pla.Assembler.{Node, Relation}
use network_digital_twin_pla.Snapshot.Diff.{
  NodeChange, RelChange, Comparison, compare_props, is_change,
}
use network_digital_twin_pla.Snapshot.Manager.{
  any_to_string_slice, extract_props, text_of, nodes_of_rows, rels_of_rows,
}
use network_digital_twin_pla.Snapshot.Manager.Comparing.{last_label, node_changes, rel_changes}

-- A loop that makes something of some of its rows.
module _ {B : Type 0} (f : Props → Option B) where
  pub kept : List Props → List B
  kept [] = []
  kept (row ∷ rows) = let rest = kept rows in elim (f row) [ none ↦ rest | some x ↦ x ∷ rest ]
  -- The rows show the elements that are asked for, each one some row, and nothing else.

pub record Answered {A : Type 0} (Shows : Props → A → Type 0) (Asked : A → Type 0)
    (rows : List Props) : Type 0 where
  pub sound : (row : Props) → Memᴰ row rows → (x : A) × Asked x × Shows row x
  pub complete : (x : A) → Asked x → (row : Props) × Memᴰ row rows × Shows row x

module _ {B : Type 0} (f : Props → Option B) where
  Memᴰ-kept :
      (rows : List Props) (x : B)
      → Memᴰ x (kept f rows)
      → (row : Props) × Memᴰ row rows × (f row ≡ some x)
  unfolding kept
  Memᴰ-kept [] x h = elim h [ ]
  Memᴰ-kept (row ∷ rows) x h =
      go (f row) refl (λ t. let (r, there, made) = Memᴰ-kept rows x t in (r, Memᴰ.tail there, made))
        h
    where
      go :
          (o : Option B)
          → f row ≡ o
          → (Memᴰ x (kept f rows) → (r : Props) × Memᴰ r (row ∷ rows) × (f r ≡ some x))
          → Memᴰ x (elim o [ none ↦ kept f rows | some y ↦ y ∷ kept f rows ])
          → (r : Props) × Memᴰ r (row ∷ rows) × (f r ≡ some x)
      go none e later t = later t
      go (some y) e later (Memᴰ.head same) = (row, Memᴰ.head refl, e ∙ ap some (sym same))
      go (some y) e later (Memᴰ.tail t) = later t

  kept-Memᴰ :
      (rows : List Props) (x : B) (row : Props)
      → Memᴰ row rows
      → f row ≡ some x
      → Memᴰ x (kept f rows)
  unfolding kept
  kept-Memᴰ [] x row h made = elim h [ ]
  kept-Memᴰ (r ∷ rows) x row (Memᴰ.head same) made =
      rw (ap f (sym same) ∙ made, kept) (Memᴰ.head refl)
  kept-Memᴰ (r ∷ rows) x row (Memᴰ.tail t) made = elim (Option-cases (f r)) [
    | inl gone ↦ rw (gone, kept) (kept-Memᴰ rows x row t made)
    | inr (y, there) ↦ rw (there, kept) (Memᴰ.tail (kept-Memᴰ rows x row t made))
  ]

  -- What a loop makes of such rows, in terms of what they show.
  pub Answered-kept :
      {A : Type 0} {Shows : Props → A → Type 0} {Asked : A → Type 0} {rows : List Props}
      (g : A → Option B)
      → ((row : Props) (y : A) → Shows row y → f row ≡ g y)
      → Answered Shows Asked rows
      → (x : B) → Memᴰ x (kept f rows) ↔ ((y : A) × Asked y × (g y ≡ some x))
  Answered-kept {rows = rows} g shown answered x = (
    (λ t.
        let (row, there, made) = Memᴰ-kept rows x t in
        let (y, asked, shows) = answered.sound row there in
        (y, asked, sym (shown row y shows) ∙ made)),
    (λ (y, asked, made).
        let (row, there, shows) = answered.complete y asked in
        kept-Memᴰ rows x row there (shown row y shows ∙ made)),
  )

-- A node that is reported has a label and a URI.
abbrev pub reported_node : Node → Option Node
reported_node n = if eqb (length n.labels) 0 then none else if n.uri == "" then none else some n

abbrev pub reported_rel : Relation → Option Relation
reported_rel r =
    if r.type == ""
    then none
    else if r.from == ""
    then none
    else if r.to == ""
    then none
    else some r

-- A row with the columns `labels`, `uri` and `props` of a node.
pub record ShowsNode (row : Props) (n : Node) : Type 0 where
  pub labels : any_to_string_slice (lookup "labels" row) ≡ n.labels
  pub uri : lookup "uri" row ≡ some (str n.uri)
  pub props : extract_props (lookup "props" row) ≡ n.props

pub record ShowsRel (row : Props) (r : Relation) : Type 0 where
  pub type : lookup "type" row ≡ some (str r.type)
  pub from : lookup "from" row ≡ some (str r.from)
  pub to : lookup "to" row ≡ some (str r.to)
  pub props : extract_props (lookup "props" row) ≡ r.props

abbrev node_at : Props → Node
node_at row = record {
  labels = any_to_string_slice (lookup "labels" row);
  uri = text_of (lookup "uri" row);
  props = extract_props (lookup "props" row);
}

abbrev node_of : Props → Option Node
node_of row = reported_node (node_at row)

abbrev rel_at : Props → Relation
rel_at row = record {
  type = text_of (lookup "type" row);
  from = text_of (lookup "from" row);
  to = text_of (lookup "to" row);
  props = extract_props (lookup "props" row);
}

abbrev rel_of : Props → Option Relation
rel_of row = reported_rel (rel_at row)

nodes_of_rows-kept : (rows : List Props) → nodes_of_rows rows ≡ kept node_of rows
unfolding nodes_of_rows kept
nodes_of_rows-kept [] = refl
nodes_of_rows-kept (row ∷ rows) =
    let rest = nodes_of_rows-kept rows in
    elim (Bool-cases (eqb (length (any_to_string_slice (lookup "labels" row))) 0)) [
      | inl bare ↦ rw (bare, nodes_of_rows, kept) rest
      | inr labelled ↦ elim (Bool-cases (text_of (lookup "uri" row) == "")) [
        | inl nameless ↦ rw (labelled, nameless, nodes_of_rows, kept) rest
        | inr named ↦ rw (labelled, named, nodes_of_rows, kept) (ap (λ ns. node_at row ∷ ns) rest)
      ]
    ]

rels_of_rows-kept : (rows : List Props) → rels_of_rows rows ≡ kept rel_of rows
unfolding rels_of_rows kept
rels_of_rows-kept [] = refl
rels_of_rows-kept (row ∷ rows) =
    let rest = rels_of_rows-kept rows in
    elim (Bool-cases (text_of (lookup "type" row) == "")) [
      | inl bare ↦ rw (bare, rels_of_rows, kept) rest
      | inr typed ↦ elim (Bool-cases (text_of (lookup "from" row) == "")) [
        | inl rootless ↦ rw (typed, rootless, rels_of_rows, kept) rest
        | inr rooted ↦ elim (Bool-cases (text_of (lookup "to" row) == "")) [
          | inl endless ↦ rw (typed, rooted, endless, rels_of_rows, kept) rest
          | inr ended ↦
              rw (typed, rooted, ended, rels_of_rows, kept) (ap (λ rs. rel_at row ∷ rs) rest)
        ]
      ]
    ]

-- What the loop over nodes makes of rows that show nodes.
pub nodes_of_rows-Memᴰ :
    {Asked : Node → Type 0} {rows : List Props}
    → Answered ShowsNode Asked rows
    → (n : Node) → Memᴰ n (nodes_of_rows rows) ↔ ((m : Node) × Asked m × (reported_node m ≡ some n))
nodes_of_rows-Memᴰ {rows = rows} answered n = rw (nodes_of_rows-kept rows) (
    Answered-kept node_of reported_node
      (λ row m shows. rw (shows.labels, shows.uri, shows.props) refl) answered n)

pub rels_of_rows-Memᴰ :
    {Asked : Relation → Type 0} {rows : List Props}
    → Answered ShowsRel Asked rows
    → (r : Relation)
    → Memᴰ r (rels_of_rows rows) ↔ ((q : Relation) × Asked q × (reported_rel q ≡ some r))
rels_of_rows-Memᴰ {rows = rows} answered r = rw (rels_of_rows-kept rows) (
    Answered-kept rel_of reported_rel
      (λ row q shows. rw (shows.type, shows.from, shows.to, shows.props) refl) answered r)

module _ (host : Host) where
  -- A row with the columns of two nodes, of which the first gives the URI and the labels.
  pub record ShowsNodes (row : Props) (p : Node × Node) : Type 0 where
    pub uri : lookup "uri" row ≡ some (str p.0.uri)
    pub labels : any_to_string_slice (lookup "labels" row) ≡ p.0.labels
    pub a_props : extract_props (lookup "aProps" row) ≡ p.0.props
    pub b_props : extract_props (lookup "bProps" row) ≡ p.1.props

  pub record ShowsRels (row : Props) (p : Relation × Relation) : Type 0 where
    pub type : lookup "type" row ≡ some (str p.0.type)
    pub from : lookup "from" row ≡ some (str p.0.from)
    pub to : lookup "to" row ≡ some (str p.0.to)
    pub a_props : extract_props (lookup "aProps" row) ≡ p.0.props
    pub b_props : extract_props (lookup "bProps" row) ≡ p.1.props

  abbrev pub reported_change : Node × Node → Option NodeChange
  reported_change (m, n) =
      let c = compare_props host m.props n.props in
      if is_change host c
      then some (record {
        uri = m.uri;
        label = last_label m.labels;
        added_fields = c.added;
        removed_fields = c.removed;
        modified_fields = c.modified;
      })
      else none

  abbrev pub reported_rel_change : Relation × Relation → Option RelChange
  reported_rel_change (q, r) =
      let c = compare_props host q.props r.props in
      if is_change host c
      then some (record {
        type = q.type;
        from = q.from;
        to = q.to;
        added_fields = c.added;
        removed_fields = c.removed;
        modified_fields = c.modified;
      })
      else none

  abbrev change_of_row : Props → Option NodeChange
  change_of_row row = reported_change (
    record {
      labels = any_to_string_slice (lookup "labels" row);
      uri = text_of (lookup "uri" row);
      props = extract_props (lookup "aProps" row);
    },
    record { labels = []; uri = ""; props = extract_props (lookup "bProps" row) },
  )

  abbrev rel_change_of_row : Props → Option RelChange
  rel_change_of_row row = reported_rel_change (
    record {
      type = text_of (lookup "type" row);
      from = text_of (lookup "from" row);
      to = text_of (lookup "to" row);
      props = extract_props (lookup "aProps" row);
    },
    record { type = ""; from = ""; to = ""; props = extract_props (lookup "bProps" row) },
  )

  abbrev compared_row : Props → Comparison host
  compared_row row =
      compare_props host (extract_props (lookup "aProps" row)) (extract_props (lookup "bProps" row))

  abbrev node_change_at : Props → NodeChange
  node_change_at row =
      let c = compared_row row in
      record {
        uri = text_of (lookup "uri" row);
        label = last_label (any_to_string_slice (lookup "labels" row));
        added_fields = c.added;
        removed_fields = c.removed;
        modified_fields = c.modified;
      }

  abbrev rel_change_at : Props → RelChange
  rel_change_at row =
      let c = compared_row row in
      record {
        type = text_of (lookup "type" row);
        from = text_of (lookup "from" row);
        to = text_of (lookup "to" row);
        added_fields = c.added;
        removed_fields = c.removed;
        modified_fields = c.modified;
      }

  node_changes-kept : (rows : List Props) → node_changes host rows ≡ kept change_of_row rows
  unfolding node_changes kept
  node_changes-kept [] = refl
  node_changes-kept (row ∷ rows) =
      let rest = node_changes-kept rows in
      elim (Bool-cases (is_change host (compared_row row))) [
        | inl differ ↦ rw (differ, node_changes, kept) (ap (λ cs. node_change_at row ∷ cs) rest)
        | inr same ↦ rw (same, node_changes, kept) rest
      ]

  rel_changes-kept : (rows : List Props) → rel_changes host rows ≡ kept rel_change_of_row rows
  unfolding rel_changes kept
  rel_changes-kept [] = refl
  rel_changes-kept (row ∷ rows) =
      let rest = rel_changes-kept rows in
      elim (Bool-cases (is_change host (compared_row row))) [
        | inl differ ↦ rw (differ, rel_changes, kept) (ap (λ cs. rel_change_at row ∷ cs) rest)
        | inr same ↦ rw (same, rel_changes, kept) rest
      ]

  pub node_changes-Memᴰ :
      {Asked : Node × Node → Type 0} {rows : List Props}
      → Answered ShowsNodes Asked rows
      → (c : NodeChange)
      → Memᴰ c (node_changes host rows)
        ↔ ((p : Node × Node) × Asked p × (reported_change p ≡ some c))
  node_changes-Memᴰ {rows = rows} answered c = rw (node_changes-kept rows) (
      Answered-kept change_of_row reported_change
        (λ row p shows. rw (shows.labels, shows.uri, shows.a_props, shows.b_props) refl) answered c)

  pub rel_changes-Memᴰ :
      {Asked : Relation × Relation → Type 0} {rows : List Props}
      → Answered ShowsRels Asked rows
      → (c : RelChange)
      → Memᴰ c (rel_changes host rows)
        ↔ ((p : Relation × Relation) × Asked p × (reported_rel_change p ≡ some c))
  rel_changes-Memᴰ {rows = rows} answered c = rw (rel_changes-kept rows) (
      Answered-kept rel_change_of_row reported_rel_change
        (λ row p shows. rw (shows.type, shows.from, shows.to, shows.a_props, shows.b_props) refl)
        answered c)
