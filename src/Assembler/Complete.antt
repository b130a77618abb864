-- ===== src/Assembler/Complete.antt =====
-- Stages 2 and 3 of `Assemble`: no relation with a reason is left out.
use mathlib.Core.Path.{subst}
use mathlib.Core.List.{Memᴰ}
use network_digital_twin_pla.Prelude.{
  ◌+◌, ◌≡◌, refl, inl, inr, String, true, List, [], ◌∷◌, ◌++◌, some, ok, arith, contains, length,
  All, Bool-cases, sym, ◌⊎◌, String-discrete,
}
use network_digital_twin_pla.Prelude.Dict.{Dict, lookup}
use network_digital_twin_pla.Schema.Types.{EntityType, RelationFieldSpec}
use network_digital_twin_pla.Schema.Registry.{Registry, get_entity_type, get_relation_type}
use network_digital_twin_pla.Normalizer.{NormalizedResource}
use network_digital_twin_pla.Assembler.{
  Relation, may_start, relations_to, targets_of, field_relations, derive_relations, keep_relations,
}
use network_digital_twin_pla.Assembler.Nodes.{>>=-ok, entity_of_ok}
use network_digital_twin_pla.Assembler.Relations.{Derived, Justified}

pub Memᴰ-append {ℓ} :
    {A : Type ℓ} (x : A) (xs ys : List A) → (Memᴰ x xs) ⊎ (Memᴰ x ys) → Memᴰ x (xs ++ ys)
Memᴰ-append x [] ys (inl m) = elim m [ ]
Memᴰ-append x [] ys (inr m) = m
Memᴰ-append x (z ∷ xs) ys (inl (Memᴰ.head e)) = Memᴰ.head e
Memᴰ-append x (z ∷ xs) ys (inl (Memᴰ.tail m)) = Memᴰ.tail (Memᴰ-append x xs ys (inl m))
Memᴰ-append x (z ∷ xs) ys (inr m) = Memᴰ.tail (Memᴰ-append x xs ys (inr m))

abbrev edge : String → String → String → Relation
edge type from to = record { type = type; from = from; to = to; props = [] }

relations_to-has :
    (type from t : String) (targets : List String)
    → contains targets t ≡ true
    → Memᴰ (edge type from t) (relations_to type from targets)
relations_to-has type from t [] h = absurd (ground arith)
relations_to-has type from t (x ∷ targets) h = elim (String-discrete t x) [
  | yes e ↦ Memᴰ.head (cc e)
  | no n ↦ Memᴰ.tail (relations_to-has type from t targets (ground arith))
]

module _ (r : Registry) where
  field_relations-has :
      (res : NormalizedResource) (fields : Dict RelationFieldSpec) (field : String)
      (spec : RelationFieldSpec) (t : String)
      → Memᴰ (field, spec) fields
      → may_start r spec.relation_type res.kind ≡ true
      → contains (targets_of (lookup field res.properties)) t ≡ true
      → Memᴰ (edge spec.relation_type res.uri t) (field_relations r fields res)
  unfolding field_relations
  field_relations-has res [] field spec t m start h = elim m [ ]
  field_relations-has res ((f, s) ∷ fields) field spec t (Memᴰ.head e) start h =
      subst
        (λ (p : String × RelationFieldSpec).
          Memᴰ (edge spec.relation_type res.uri t) (field_relations r (p ∷ fields) res))
        e
        (rw (start, field_relations)
          (Memᴰ-append _
            (relations_to spec.relation_type res.uri (targets_of (lookup field res.properties))) _
            (inl (relations_to-has spec.relation_type res.uri t _ h))))
  field_relations-has res ((f, s) ∷ fields) field spec t (Memᴰ.tail m) start h =
      let rest = field_relations-has res fields field spec t m start h in
      elim (Bool-cases (may_start r s.relation_type res.kind)) [
        | inr skip ↦ rw (skip, field_relations) rest
        | inl go ↦
            rw (go, field_relations)
              (Memᴰ-append _
                (relations_to s.relation_type res.uri (targets_of (lookup f res.properties))) _
                (inr rest))
      ]

  may_start_of :
      (res : NormalizedResource) (rel : Relation) (d : Derived r res rel)
      → may_start r d.spec.relation_type res.kind ≡ true
  unfolding may_start get_relation_type
  may_start_of res rel d = ground (arith, d.defined, d.starts)

  targets_have :
      (res : NormalizedResource) (rel : Relation) (d : Derived r res rel)
      → contains (targets_of (lookup d.field res.properties)) rel.to ≡ true
  targets_have res rel d = ground (arith, d.given, d.listed, d.target)

  derive_relations-has :
      (resources : List NormalizedResource) (rels : List Relation)
      → derive_relations r resources ≡ ok rels
      → (res : NormalizedResource) → Memᴰ res resources
      → (et : EntityType) → lookup res.kind r.entity_types ≡ some et
      → (rel : Relation) → Memᴰ rel (field_relations r et.spec.relation_fields res)
      → Memᴰ rel rels
  unfolding derive_relations
  derive_relations-has [] rels e res m et known rel h = elim m [ ]
  derive_relations-has (x ∷ resources) rels e res m et known rel h =
      let (et', found, e₁) = >>=-ok (get_entity_type r x.kind) _ e in
      let (rest, made, e₂) = >>=-ok (derive_relations r resources) _ e₁ in
      let same : field_relations r et'.spec.relation_fields x ++ rest ≡ rels = cc in
      let known' = entity_of_ok r x.kind et' found in
      subst (Memᴰ rel) same (elim m [
        | Memᴰ.head p ↦ Memᴰ-append rel _ rest (inl (subst (Memᴰ rel) (cc (p, known, known')) h))
        | Memᴰ.tail m' ↦
            Memᴰ-append rel (field_relations r et'.spec.relation_fields x) rest
              (inr (derive_relations-has resources rest made res m' et known rel h))
      ])

  -- Every relation with a reason is made.
  pub derive_relations-complete :
      (resources : List NormalizedResource) (rels : List Relation)
      → derive_relations r resources ≡ ok rels
      → (rel : Relation) → Justified r resources rel
      → Memᴰ rel rels
  derive_relations-complete resources rels e rel (res, m, d) =
      derive_relations-has resources rels e res m d.entity d.known rel (
        subst (λ (x : Relation). Memᴰ x (field_relations r d.entity.spec.relation_fields res))
          (sym d.made)
          (field_relations-has res d.entity.spec.relation_fields d.field d.spec rel.to d.declared
            (may_start_of res rel d) (targets_have res rel d)))

-- Stage 3 keeps what has its target, and warns of the rest.
pub keep_relations-has :
    (uris : List String) (rels : List Relation) (rel : Relation)
    → Memᴰ rel rels
    → contains uris rel.to ≡ true
    → Memᴰ rel (keep_relations uris rels).0
unfolding keep_relations
keep_relations-has uris [] rel m h = elim m [ ]
keep_relations-has uris (x ∷ rels) rel (Memᴰ.head e) h = rw (sym e, h) (Memᴰ.head refl)
keep_relations-has uris (x ∷ rels) rel (Memᴰ.tail m) h = elim (Bool-cases (contains uris x.to)) [
  | inl k ↦ rw (k) (Memᴰ.tail (keep_relations-has uris rels rel m h))
  | inr k ↦ rw (k) (keep_relations-has uris rels rel m h)
]

pub keep_relations-count :
    (uris : List String) (rels : List Relation)
    → length (keep_relations uris rels).0 + length (keep_relations uris rels).1 ≡ length rels
unfolding keep_relations
keep_relations-count uris [] = refl
keep_relations-count uris (x ∷ rels) = ground (arith, keep_relations-count uris rels)

pub keep_relations-All {κ} :
    (P : Relation → Type κ) (uris : List String) (rels : List Relation)
    → All P rels
    → All (λ rel. P rel × (contains uris rel.to ≡ true)) (keep_relations uris rels).0
unfolding keep_relations
keep_relations-All P uris [] h = tt
keep_relations-All P uris (x ∷ rels) (hx, hs) = elim (Bool-cases (contains uris x.to)) [
  | inl k ↦ rw (k) ((hx, k), keep_relations-All P uris rels hs)
  | inr k ↦ rw (k) (keep_relations-All P uris rels hs)
]
