-- ===== src/Snapshot/Diff/Outcome.antt =====
-- What `LocalDiff` returns.
use mathlib.Core.List.{Memᴰ}
use mathlib.Core.Option.{some-injective}
use text.Mathlib.TextLemmas.{append_assoc}
use network_digital_twin_pla.Prelude.{
  ◌≡◌, refl, ◌∙◌, ◌⊎◌, inl, inr, ◌↔◌, String, ◌<>◌, true, List, [], ◌∷◌, Option, none, some, Result,
  ok, err, arith, if◌then◌else◌, Bool-cases, Option-cases, sym, ap,
}
use network_digital_twin_pla.Prelude.Dict.{Dict, lookup}
use network_digital_twin_pla.Value.{Props, Host}
use network_digital_twin_pla.Assembler.{Node, Relation}
use network_digital_twin_pla.Snapshot.Diff.{
  NodeChange, RelChange, SnapshotDiff, index_by, rel_key, Comparison, compare_props, is_change,
  node_change, rel_change, changed_in, diff_archives, import_a, import_b, local_diff,
}
use network_digital_twin_pla.Snapshot.Diff.Archives.{
  latest, collect, Memᴰ-collect, collect-Memᴰ, index_by-NodupKeys, lookup-index,
  missing_values-latest,
}

abbrev pub uri_of : Node → String
uri_of n = n.uri

module _ (host : Host) where
  module _ {ℓ κ} {V : Type ℓ} {C : Type κ} (props : V → Props)
      (change : String → V → Comparison host → C) where
    abbrev change_made : Dict V → String → V → Option C
    change_made in_a key b = elim (lookup key in_a) [
      | none ↦ none
      | some a ↦
          let c = compare_props host (props a) (props b) in
          if is_change host c then some (change key b c) else none
    ]

    changed_in-collect :
        (in_a in_b : Dict V)
        → changed_in host props change in_a in_b ≡ collect (change_made in_a) in_b
    unfolding changed_in collect
    changed_in-collect in_a [] = refl
    changed_in-collect in_a ((key, b) ∷ in_b) =
        let rest = changed_in-collect in_a in_b in
        elim (Option-cases (lookup key in_a)) [
          | inl gone ↦ rw (gone, changed_in, collect) rest
          | inr (a, there) ↦
              let c = compare_props host (props a) (props b) in
              elim (Bool-cases (is_change host c)) [
                | inl differ ↦
                    rw (there, differ, changed_in, collect) (ap (λ l. change key b c ∷ l) rest)
                | inr same ↦ rw (there, same, changed_in, collect) rest
              ]
        ]

    -- The change `c` is one of the element with the key `k`, which the last elements with that key
    -- in the two archives show.
    abbrev pub ChangedAt : (V → String) → List V → List V → C → String → Type (ℓ ⊔ κ)
    ChangedAt key xs ys c k =
        (x : V) × (y : V) × (latest key k xs ≡ some x)
        × (latest key k ys ≡ some y)
        × (is_change host (compare_props host (props x) (props y)) ≡ true)
        × (c ≡ change k y (compare_props host (props x) (props y)))

    change_made_parts :
        (key : V → String) (xs ys : List V) (c : C) (k : String) (y : V)
        → latest key k ys ≡ some y
        → change_made (index_by key xs []) k y ≡ some c
        → ChangedAt key xs ys c k
    change_made_parts key xs ys c k y last made =
        elim (Option-cases (lookup k (index_by key xs []))) [
          | inl gone ↦ absurd (ground (arith, gone, made))
          | inr (x, there) ↦
              let d = compare_props host (props x) (props y) in
              elim (Bool-cases (is_change host d)) [
                | inr same ↦ absurd (ground (arith, there, same, made))
                | inl differ ↦
                    let this : some (change k y d) ≡ some c = ground (arith, there, differ, made) in
                    (
                      x,
                      y,
                      sym (lookup-index key xs k) ∙ there,
                      last,
                      differ,
                      sym (some-injective (change k y d) c this),
                    )
              ]
        ]

    change_made_of :
        (in_a : Dict V) (k : String) (x y : V) (c : C)
        → lookup k in_a ≡ some x
        → is_change host (compare_props host (props x) (props y)) ≡ true
        → c ≡ change k y (compare_props host (props x) (props y))
        → change_made in_a k y ≡ some c
    change_made_of in_a k x y c there differ is_c = ground (arith, there, differ, is_c)

    changed_in-latest :
        (key : V → String) (xs ys : List V) (c : C)
        → Memᴰ c (changed_in host props change (index_by key xs []) (index_by key ys []))
          ↔ ((k : String) × ChangedAt key xs ys c k)
    changed_in-latest key xs ys c =
        let in_a = index_by key xs [] in
        let in_b = index_by key ys [] in
        rw (changed_in-collect in_a in_b) (
          (λ t.
              let (k, y, found, made) =
                Memᴰ-collect (change_made in_a) in_b c (index_by-NodupKeys key ys [] tt) t in
              (k, change_made_parts key xs ys c k y (sym (lookup-index key ys k) ∙ found) made)),
          (λ (k, (x, y, first, second, differ, is_c)).
              collect-Memᴰ (change_made in_a) in_b c k y (lookup-index key ys k ∙ second)
                (change_made_of in_a k x y c (lookup-index key xs k ∙ first) differ is_c)),
        )

  -- What a comparison of two archives says, in terms of the last node with each URI and the last
  -- relation with each key.
  pub record Compared (a b : List Node × List Relation) (diff : SnapshotDiff) : Type 0 where
    pub added_nodes :
        (n : Node)
        → Memᴰ n diff.added_nodes
          ↔ ((latest uri_of n.uri b.0 ≡ some n) × (latest uri_of n.uri a.0 ≡ none))
    pub removed_nodes :
        (n : Node)
        → Memᴰ n diff.removed_nodes
          ↔ ((latest uri_of n.uri a.0 ≡ some n) × (latest uri_of n.uri b.0 ≡ none))
    pub added_rels :
        (r : Relation)
        → Memᴰ r diff.added_rels
          ↔ ((latest rel_key (rel_key r) b.1 ≡ some r) × (latest rel_key (rel_key r) a.1 ≡ none))
    pub removed_rels :
        (r : Relation)
        → Memᴰ r diff.removed_rels
          ↔ ((latest rel_key (rel_key r) a.1 ≡ some r) × (latest rel_key (rel_key r) b.1 ≡ none))
    pub changed_nodes :
        (c : NodeChange)
        → Memᴰ c diff.changed_nodes
          ↔ ((k : String) × ChangedAt (λ (n : Node). n.props) (node_change host) uri_of a.0 b.0 c k)
    pub changed_rels :
        (c : RelChange)
        → Memᴰ c diff.changed_rels ↔ (
            (k : String) × ChangedAt
              (λ (r : Relation). r.props)
              (rel_change host)
              rel_key
              a.1
              b.1
              c
              k)

  diff_archives-Compared : (a b : List Node × List Relation) → Compared a b (diff_archives host a b)
  unfolding diff_archives
  diff_archives-Compared (a, a_rels) (b, b_rels) = record {
    added_nodes = missing_values-latest uri_of b a;
    removed_nodes = missing_values-latest uri_of a b;
    added_rels = missing_values-latest rel_key b_rels a_rels;
    removed_rels = missing_values-latest rel_key a_rels b_rels;
    changed_nodes = changed_in-latest (λ (n : Node). n.props) (node_change host) uri_of a b;
    changed_rels =
        changed_in-latest (λ (r : Relation). r.props) (rel_change host) rel_key a_rels b_rels;
  }

  -- `LocalDiff` passes on the error of the first archive that cannot be read. With both read, a node
  -- is added if the second archive alone has its URI, removed if the first alone has it, and changed
  -- if both have it and `compareProps` finds something; likewise relations by their key. Where an
  -- archive has several of one URI or key, the last one counts.
  pub local_diff_outcome {ℓ} :
      {E : Type ℓ} (a b : Result E (List Node × List Relation))
      → ((e : E) × (a ≡ err e) × (local_diff host a b ≡ err (import_a e)))
        ⊎ (((e : E) × (x : List Node × List Relation) × (a ≡ ok x)
              × (b ≡ err e)
              × (local_diff host a b ≡ err (import_b e)))
            ⊎ ((x : List Node × List Relation) × (y : List Node × List Relation)
                × (diff : SnapshotDiff) × (a ≡ ok x)
                × (b ≡ ok y)
                × (local_diff host a b ≡ ok diff)
                × Compared x y diff))
  unfolding local_diff
  local_diff_outcome (err e) b = inl (e, refl, refl)
  local_diff_outcome (ok x) (err e) = inr (inl (e, x, refl, refl, refl))
  local_diff_outcome (ok x) (ok y) =
      inr (inr (x, y, diff_archives host x y, refl, refl, refl, diff_archives-Compared x y))

-- Two relations of one type whose URIs hold the separator can have one key: an end of one URI
-- counts as the start of the other.
pub rel_key_collides :
    (type from middle to : String) (props props' : Props)
    → rel_key (record { type = type; from = from <> "|" <> middle; to = to; props = props })
      ≡ rel_key (record { type = type; from = from; to = middle <> "|" <> to; props = props' })
unfolding rel_key
rel_key_collides type from middle to props props' =
    ap (λ s. type <> "|" <> s)
      (append_assoc from ("|" <> middle) ("|" <> to)
        ∙ ap (λ s. from <> s) (append_assoc "|" middle ("|" <> to)))
