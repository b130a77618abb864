-- ===== src/Schema/Registry/Resolve.antt =====
-- `resolveInheritance` gives each type what it inherits, or says why it cannot.
use mathlib.Core.Path.{subst}
use network_digital_twin_pla.Prelude.{
  ◌≡◌, refl, ◌∙◌, ◌⊎◌, inl, inr, String, true, List, [], ◌∷◌, Option, none, some, contains,
  Bool-cases, Option-cases, ap, sym,
}
use network_digital_twin_pla.Prelude.Dict.{Dict, lookup, NodupKeys, lookup-nil}
use network_digital_twin_pla.Schema.Types.{EntityType, SchemaError, circular_inheritance}
use network_digital_twin_pla.Schema.Inheritance.Ancestors.{Reaches}
use network_digital_twin_pla.Schema.Inheritance.Cycle.{detect_cycle_decides}
use network_digital_twin_pla.Schema.Inheritance.Visit.{Ordered}
use network_digital_twin_pla.Schema.Inheritance.Topo.{topo_sort-Ordered}
use network_digital_twin_pla.Schema.Registry.{
  inheritance_of, merge_all, resolve_from, resolve_inheritance,
}
use network_digital_twin_pla.Schema.Registry.Lineage.{root, Inherits_root}
use network_digital_twin_pla.Schema.Registry.Progress.{
  Entry, Unknown, Finished, Progress_start, extends_of_none, merge_all_lem,
}

module _ (m₀ : Dict EntityType) where
  -- The error names a type that is its own ancestor, and nothing has been merged.
  pub record Cyclic (r : Dict EntityType × Option SchemaError) : Type 0 where
    pub name : String
    pub reported : r ≡ (m₀, some (circular_inheritance name))
    pub on_cycle : Reaches (inheritance_of m₀) name name

  -- No error, the names are those from before, and each type has what it inherits.
  pub record Resolved (u : NodupKeys m₀) (r : Dict EntityType × Option SchemaError) : Type 0 where
    pub no_error : r.1 ≡ none
    pub absent : (k : String) → lookup k m₀ ≡ none → lookup k r.0 ≡ none
    pub entries : (k : String) (et : EntityType) → lookup k m₀ ≡ some et → Entry m₀ u r.0 k et

  module _ (u : NodupKeys m₀) where
    abbrev pub Outcome : Dict EntityType × Option SchemaError → Type 0
    Outcome r = Cyclic r ⊎ (Unknown m₀ u r ⊎ Resolved u r)

    all-Resolved :
        (order : List String) (r : Dict EntityType × Option SchemaError)
        → ((x p : String) → lookup x (inheritance_of m₀) ≡ some p → contains order x ≡ true)
        → Finished m₀ u [] order r
        → Resolved u r
    all-Resolved order r covers f = record {
      no_error = f.no_error;
      absent = f.progress.absent;
      entries = λ k et found. elim (Bool-cases (contains order k)) [
        | inl listed ↦ f.progress.resolved k et listed found
        | inr n ↦ elim (Option-cases (lookup k (inheritance_of m₀))) [
          | inr (p, e) ↦ cc (covers k p e)
          | inl e ↦ record {
            merged = et;
            stored = f.progress.untouched k n ∙ found;
            lineage = et ∷ [];
            line = root found (extends_of_none m₀ u k et e found);
            inherits = Inherits_root et;
          }
        ]
      ];
    }

    resolve_from_lem : (i : Dict String) → i ≡ inheritance_of m₀ → Outcome (resolve_from i m₀)
    unfolding resolve_from
    resolve_from_lem [] e = inr (
        inr (
          all-Resolved [] (m₀, none) (λ x p h. cc (ap (lookup x) e, lookup-nil {V = String} x))
            (record { no_error = refl; progress = Progress_start m₀ u })))
    resolve_from_lem (c ∷ cs) e = elim (detect_cycle_decides (c ∷ cs)) [
      | inl (n, found, r) ↦ inl (record {
        name = n;
        reported = rw (found, resolve_from);
        on_cycle = subst (λ i. Reaches i n n) e r;
      })
      | inr (names, ended, grounded, acyclic) ↦
          let (order, sorted, o, covers) = topo_sort-Ordered (c ∷ cs) grounded in
          rw (ended, sorted, resolve_from)
            (subst (λ i. Outcome (merge_all i order m₀)) (sym e)
              (elim (merge_all_lem m₀ u [] order m₀ (subst (λ i. Ordered i [] order) e o)
                (Progress_start m₀ u)) [
                  | inl w ↦ inr (inl w)
                  | inr f ↦ inr (
                      inr (
                        all-Resolved order _
                          (λ x p h. covers x p (subst (λ i. lookup x i ≡ some p) (sym e) h)) f))
                ]))
    ]

    -- `resolveInheritance` always ends, in one of three ways: a type is its own ancestor, and is
    -- reported with the map unchanged; a type extends an unknown one, and is reported; or there is
    -- no error, and the entry of each type in each of its three maps is that of the nearest type
    -- of its lineage which has one, while identity, URI template, parent and metadata are its own.
    pub resolve_inheritance-Outcome : Outcome (resolve_inheritance m₀)
    unfolding resolve_inheritance
    resolve_inheritance-Outcome = resolve_from_lem (inheritance_of m₀) refl
