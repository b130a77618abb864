-- ===== src/Schema/Registry/Progress.antt =====
-- The merging loop of `resolveInheritance`: what holds of the map after each name.
use mathlib.Core.Path.{subst}
use mathlib.Core.Option.{some-injective}
use network_digital_twin_pla.Prelude.{
  ◌≡◌, refl, ◌∙◌, ◌⊎◌, inl, inr, String, true, false, List, [], ◌∷◌, ◌++◌, Option, none, some,
  arith, contains, sym, Bool-cases, Option-cases, ◌≢◌, ap,
}
use mathlib.Core.List.{append_assoc, append-nil}
use network_digital_twin_pla.Prelude.Dict.{
  Dict, lookup, insert, NodupKeys, lookup-insert, lookup-insert_self,
}
use network_digital_twin_pla.Schema.Types.{EntityType, SchemaError, unknown_parent}
use network_digital_twin_pla.Schema.Inheritance.Visit.{Ordered, contains-append}
use network_digital_twin_pla.Schema.Registry.{inheritance_of, merge_entity_type, merge_all}
use network_digital_twin_pla.Schema.Registry.Merge.{parent_name, lookup-inheritance_of}
use network_digital_twin_pla.Schema.Registry.Lineage.{
  Lineage, root, child, Inherits, Inherits_root, Inherits_child,
}

module _ (m₀ : Dict EntityType) (u : NodupKeys m₀) where
  -- The entry of `k` in `m` is that of `m₀` with what it inherits in `m₀`.
  pub record Entry (m : Dict EntityType) (k : String) (et : EntityType) : Type 0 where
    pub merged : EntityType
    pub stored : lookup k m ≡ some merged
    pub lineage : List EntityType
    pub line : Lineage m₀ k lineage
    pub inherits : Inherits et merged lineage

  pub record Progress (before : List String) (m : Dict EntityType) : Type 0 where
    pub absent : (k : String) → lookup k m₀ ≡ none → lookup k m ≡ none
    pub untouched : (k : String) → contains before k ≡ false → lookup k m ≡ lookup k m₀
    pub resolved :
        (k : String) (et : EntityType)
        → contains before k ≡ true
        → lookup k m₀ ≡ some et
        → Entry m k et

  extends_of_some :
      (k p : String)
      → lookup k (inheritance_of m₀) ≡ some p
      → (et : EntityType) × (lookup k m₀ ≡ some et) × (et.spec.extends ≡ p) × (et.spec.extends ≢ "")
  extends_of_some k p e = go (lookup k m₀) (sym (lookup-inheritance_of k m₀ u) ∙ e)
    where
      go :
          (o : Option EntityType)
          → parent_name o ≡ some p
          → (et : EntityType) × (o ≡ some et) × (et.spec.extends ≡ p) × (et.spec.extends ≢ "")
      go none h = cc
      go (some et) h = (et, refl, ground arith, ground arith)

  pub extends_of_none :
      (k : String) (et : EntityType)
      → lookup k (inheritance_of m₀) ≡ none
      → lookup k m₀ ≡ some et
      → et.spec.extends ≡ ""
  extends_of_none k et e h = ground (arith, lookup-inheritance_of k m₀ u)

  pub Progress_start : Progress [] m₀
  Progress_start = record { absent = λ k h. h; untouched = λ k h. refl; resolved = λ k et h e. cc }

  module _ (before : List String) (m : Dict EntityType) (pr : Progress before m) (x : String) where
    -- A type that extends none is as it should be.
    Progress_skip :
        contains before x ≡ false
        → lookup x (inheritance_of m₀) ≡ none
        → Progress (before ++ x ∷ []) m
    Progress_skip new e = record {
      absent = pr.absent;
      untouched = λ k h. pr.untouched k (ground (arith, contains-append before (x ∷ []) k));
      resolved = λ k et h found. elim (Bool-cases (contains before k)) [
        | inl old ↦ pr.resolved k et old found
        | inr n ↦
            let same : x ≡ k = ground (arith, contains-append before (x ∷ []) k) in
            let e' : lookup k (inheritance_of m₀) ≡ none = cc in
            record {
              merged = et;
              stored = pr.untouched k n ∙ found;
              lineage = et ∷ [];
              line = root found (extends_of_none k et e' found);
              inherits = Inherits_root et;
            }
      ];
    }

    module _ (p : String) (ex ep : EntityType) where
      Entry_kept :
          (k : String) (et : EntityType)
          → contains before x ≡ false
          → contains before k ≡ true
          → Entry m k et
          → Entry (insert x (merge_entity_type ex ep) m) k et
      Entry_kept k et new old entry = record {
        merged = entry.merged;
        stored = ground (arith, lookup-insert k x (merge_entity_type ex ep) m, entry.stored);
        lineage = entry.lineage;
        line = entry.line;
        inherits = entry.inherits;
      }

      -- A type whose parent is as it should be takes what it lacks from it.
      Progress_merge :
          contains before x ≡ false
          → lookup x m₀ ≡ some ex
          → ex.spec.extends ≡ p
          → ex.spec.extends ≢ ""
          → (parent : EntityType) → (e : Entry m p parent) → e.merged ≡ ep
          → Progress (before ++ x ∷ []) (insert x (merge_entity_type ex ep) m)
      Progress_merge new found extends proper parent e same_ep = record {
        absent =
            λ k h. ground (arith, lookup-insert k x (merge_entity_type ex ep) m, pr.absent k h);
        untouched = λ k h. ground (
          arith,
          lookup-insert k x (merge_entity_type ex ep) m,
          contains-append before (x ∷ []) k,
          pr.untouched k,
        );
        resolved = λ k et h at_k. elim (Bool-cases (contains before k)) [
          | inl old ↦ Entry_kept k et new old (pr.resolved k et old at_k)
          | inr n ↦
              let same : x ≡ k = ground (arith, contains-append before (x ∷ []) k) in
              let same_et : ex ≡ et =
                some-injective ex et (sym found ∙ ap (λ j. lookup j m₀) same ∙ at_k) in
              subst (λ (q : String). Entry (insert x (merge_entity_type ex ep) m) q et) same
                (subst (Entry (insert x (merge_entity_type ex ep) m) x) same_et (record {
                  merged = merge_entity_type ex ep;
                  stored = lookup-insert_self x (merge_entity_type ex ep) m;
                  lineage = ex ∷ e.lineage;
                  line =
                      child found proper (subst (λ q. Lineage m₀ q e.lineage) (sym extends) e.line);
                  inherits =
                      subst (λ q. Inherits ex (merge_entity_type ex q) (ex ∷ e.lineage)) same_ep
                        (Inherits_child ex parent e.merged e.lineage e.inherits);
                }))
        ];
      }

  -- `Step 3` ends in a type whose parent is unknown, or with every type as it should be.
  pub record Unknown (r : Dict EntityType × Option SchemaError) : Type 0 where
    pub orphan : String
    pub parent : String
    pub reported : r.1 ≡ some (unknown_parent orphan parent)
    pub extends : lookup orphan (inheritance_of m₀) ≡ some parent
    pub missing : lookup parent m₀ ≡ none

  pub record Finished (before order : List String) (r : Dict EntityType × Option SchemaError)
      : Type 0 where
    pub no_error : r.1 ≡ none
    pub progress : Progress (before ++ order) r.0

  pub merge_all_lem :
      (before order : List String) (m : Dict EntityType)
      → Ordered (inheritance_of m₀) before order
      → Progress before m
      → Unknown (merge_all (inheritance_of m₀) order m)
        ⊎ Finished before order (merge_all (inheritance_of m₀) order m)
  unfolding merge_all
  merge_all_lem before [] m o pr = inr (record { no_error = refl; progress = rw append-nil pr })
  merge_all_lem before (x ∷ order) m o pr = elim (Option-cases (lookup x (inheritance_of m₀))) [
    | inl e ↦
        rw (e, merge_all)
          (shift (merge_all_lem (before ++ x ∷ []) order m o.2 (Progress_skip before m pr x o.0 e)))
    | inr (p, e) ↦ elim (Option-cases (lookup p m)) [
      | inl gone ↦ inl (record {
        orphan = x;
        parent = p;
        reported = rw (e, gone, merge_all);
        extends = e;
        missing = gone_before p (o.1 p e) gone;
      })
      | inr (ep, at_p) ↦
          let (ex, found, extends, proper) = extends_of_some x p e in
          let at_x : lookup x m ≡ some ex = pr.untouched x o.0 ∙ found in
          let (parent, entry, same) = parent_entry p ep (o.1 p e) at_p in
          rw (e, at_p, at_x, merge_all)
            (shift (
              merge_all_lem (before ++ x ∷ []) order (insert x (merge_entity_type ex ep) m) o.2
                (Progress_merge before m pr x p ex ep o.0 found extends proper parent entry same)))
    ]
  ]
    where
      shift :
          {r : Dict EntityType × Option SchemaError}
          → Unknown r ⊎ Finished (before ++ x ∷ []) order r
          → Unknown r ⊎ Finished before (x ∷ order) r
      shift (inl w) = inl w
      shift {r} (inr f) = inr (record {
        no_error = f.no_error;
        progress = subst (λ l. Progress l r.0) (append_assoc before (x ∷ []) order) f.progress;
      })

      gone_before : (p : String) → contains before p ≡ true → lookup p m ≡ none → lookup p m₀ ≡ none
      gone_before p listed gone = elim (Option-cases (lookup p m₀)) [
        | inl e ↦ e
        | inr (et, e) ↦ cc ((pr.resolved p et listed e).stored)
      ]

      parent_entry :
          (p : String) (ep : EntityType)
          → contains before p ≡ true
          → lookup p m ≡ some ep
          → (parent : EntityType) × (e : Entry m p parent) × (e.merged ≡ ep)
      parent_entry p ep listed at_p = elim (Option-cases (lookup p m₀)) [
        | inl e ↦ cc (pr.absent p e)
        | inr (parent, e) ↦
            let entry = pr.resolved p parent listed e in
            (parent, entry, some-injective entry.merged ep (sym entry.stored ∙ at_p))
      ]
