-- ===== src/Snapshot/Diff/Fields.antt =====
-- What `compareProps` finds.
use network_digital_twin_pla.Prelude.{
  ◌≡◌, refl, ◌⊎◌, inl, inr, String, true, [], ◌∷◌, Option, none, some, arith, if◌then◌else◌,
  Bool-cases,
}
use network_digital_twin_pla.Prelude.Dict.{Dict, lookup, has, NodupKeys}
use network_digital_twin_pla.Value.{Value, Props, Host}
use network_digital_twin_pla.Snapshot.Diff.{
  FieldChange, lacking, values_equal, modified_in, Comparison, compare_props,
}

pub lookup-lacking {ℓ κ} :
    {V : Type ℓ} {W : Type κ} (other : Dict W) (m : Dict V) (k : String)
    → lookup k (lacking other m) ≡ (if has k other then none else lookup k m)
unfolding lacking lookup
lookup-lacking other [] k = ground arith
lookup-lacking other ((j, v) ∷ m) k = ground (arith, lookup-lacking other m k)

module _ (host : Host) where
  -- The change of a field that both maps hold.
  abbrev pub change_of : Option Value → Option Value → Option FieldChange
  change_of none y = none
  change_of (some x) none = none
  change_of (some x) (some y) =
      if values_equal host x y then none else some (record { old_value = x; new_value = y })

  lookup-modified_in :
      (b a : Props) (k : String)
      → NodupKeys a
      → lookup k (modified_in host b a) ≡ change_of (lookup k a) (lookup k b)
  unfolding modified_in lookup
  lookup-modified_in b [] k u = refl
  lookup-modified_in b ((j, x) ∷ a) k (fresh, u) = ground (arith, lookup-modified_in b a k u, fresh)

  abbrev patched_with :
      Option Value → Option Value → Option FieldChange → Option Value → Option Value
  patched_with (some x) added modified before = none
  patched_with none (some v) modified before = some v
  patched_with none none (some f) before = some f.new_value
  patched_with none none none before = before

  -- The three maps of the changes, applied to a field: a removed field goes, and an added or
  -- modified one is set.
  abbrev pub patched : Comparison host → Option Value → String → Option Value
  patched c before k =
      patched_with (lookup k c.removed) (lookup k c.added) (lookup k c.modified) before

  -- No value on either side, or two that are the same or that `valuesEqual` accepts.
  abbrev pub Agree : Option Value → Option Value → Type 0
  Agree none none = Unit
  Agree (some x) (some y) = (x ≡ y) ⊎ (values_equal host x y ≡ true)
  Agree none (some y) = ⊥
  Agree (some x) none = ⊥

  patched-Agree :
      (a b : Props) (k : String) (x y : Option Value)
      → lookup k a ≡ x
      → lookup k b ≡ y
      → NodupKeys a
      → Agree (patched (compare_props host a b) x k) y
  unfolding compare_props
  patched-Agree a b k none none ea eb u =
      rw (lookup-lacking b a k, lookup-lacking a b k, lookup-modified_in b a k u, ea, eb, has) tt
  patched-Agree a b k none (some y) ea eb u =
      rw (lookup-lacking b a k, lookup-lacking a b k, lookup-modified_in b a k u, ea, eb, has)
        (inl refl)
  patched-Agree a b k (some x) none ea eb u =
      rw (lookup-lacking b a k, lookup-lacking a b k, lookup-modified_in b a k u, ea, eb, has) tt
  patched-Agree a b k (some x) (some y) ea eb u = elim (Bool-cases (values_equal host x y)) [
    | inl same ↦
        rw
          (
            lookup-lacking b a k,
            lookup-lacking a b k,
            lookup-modified_in b a k u,
            ea,
            eb,
            same,
            has,
          )
          (inr same)
    | inr differ ↦
        rw
          (
            lookup-lacking b a k,
            lookup-lacking a b k,
            lookup-modified_in b a k u,
            ea,
            eb,
            differ,
            has,
          )
          (inl refl)
  ]

  -- `compareProps` finds all: the changes that it reports make of `a` a map that agrees with `b` at
  -- every field, up to the numbers and texts that `valuesEqual` takes for equal. A field is added if
  -- `b` alone has it, removed if `a` alone has it, and modified if both do and differ.
  pub compare_props-patched :
      (a b : Props) (k : String)
      → NodupKeys a
      → Agree (patched (compare_props host a b) (lookup k a) k) (lookup k b)
        × (lookup k (compare_props host a b).added ≡ (if has k a then none else lookup k b))
        × (lookup k (compare_props host a b).removed ≡ (if has k b then none else lookup k a))
        × (lookup k (compare_props host a b).modified ≡ change_of (lookup k a) (lookup k b))
  unfolding compare_props
  compare_props-patched a b k u = (
    patched-Agree a b k (lookup k a) (lookup k b) refl refl u,
    lookup-lacking a b k,
    lookup-lacking b a k,
    lookup-modified_in b a k u,
  )
