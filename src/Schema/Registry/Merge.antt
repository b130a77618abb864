-- ===== src/Schema/Registry/Merge.antt =====
-- What `mergeEntityType` makes of two types, field by field, and the map from child to parent.
use mathlib.Core.Option.{or_else}
use network_digital_twin_pla.Prelude.{
  ◌≡◌, refl, ◌∙◌, String, [], ◌∷◌, Option, none, some, arith, ◌==◌, if◌then◌else◌,
}
use network_digital_twin_pla.Prelude.Dict.{Dict, lookup, insert, has, NodupKeys, lookup-insert}
use network_digital_twin_pla.Schema.Types.{EntityType}
use network_digital_twin_pla.Schema.Registry.{merge_missing, inheritance_of}

-- A merged map has the child's entry where there is one, and else the parent's.
pub lookup-merge_missing {ℓ} :
    {V : Type ℓ} (k : String) (child parent : Dict V)
    → lookup k (merge_missing child parent) ≡ or_else (lookup k child) (lookup k parent)
unfolding merge_missing or_else lookup
lookup-merge_missing k child [] = ground arith
lookup-merge_missing k child ((j, v) ∷ parent) =
    lookup-merge_missing k (if has j child then child else insert j v child) parent
    ∙ ground (arith, lookup-insert k j v child)

abbrev pub parent_name : Option EntityType → Option String
parent_name none = none
parent_name (some et) = if et.spec.extends == "" then none else some et.spec.extends

lookup-inheritance_of_absent :
    (k : String) (m : Dict EntityType) → lookup k m ≡ none → lookup k (inheritance_of m) ≡ none
unfolding inheritance_of lookup
lookup-inheritance_of_absent k [] h = refl
lookup-inheritance_of_absent k ((j, et) ∷ m) h = ground (arith, lookup-inheritance_of_absent k m)

pub lookup-inheritance_of :
    (k : String) (m : Dict EntityType)
    → NodupKeys m
    → lookup k (inheritance_of m) ≡ parent_name (lookup k m)
unfolding inheritance_of lookup
lookup-inheritance_of k [] u = refl
lookup-inheritance_of k ((j, et) ∷ m) (fresh, u) =
    ground (arith, lookup-inheritance_of k m u, lookup-inheritance_of_absent j m fresh)
