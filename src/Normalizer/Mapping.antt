-- ===== src/Normalizer/Mapping.antt =====
-- The loop over `FieldMapping`: what it makes of a map.
use mathlib.Core.Option.{or_else}
use network_digital_twin_pla.Prelude.{
  ◌≡◌, ◌≢◌, refl, ◌∙◌, String, true, false, List, [], ◌∷◌, Option, none, some, arith, ◌==◌,
  contains, if◌then◌else◌, Option-cases, inl, inr,
}
use network_digital_twin_pla.Prelude.Dict.{
  Dict, lookup, insert, erase, lookup-insert, lookup-erase, has,
}
use network_digital_twin_pla.Value.{Value, Props}
use network_digital_twin_pla.Normalizer.{map_fields}

abbrev pub targets : Dict String → List String
targets [] = []
targets ((src, dst) ∷ mapping) = dst ∷ targets mapping

-- No target is renamed again, and no two sources have one target.
abbrev pub IsSeparate : Dict String → Type 0
IsSeparate [] = Unit
IsSeparate ((src, dst) ∷ mapping) =
    (src ≢ dst)
    × (has src mapping ≡ false)
    × (has dst mapping ≡ false)
    × (contains (targets mapping) dst ≡ false)
    × (contains (targets mapping) src ≡ false)
    × IsSeparate mapping

-- The value that a rename brings to `k`.
abbrev pub renamed : String → Dict String → Props → Option Value
renamed k [] props = none
renamed k ((src, dst) ∷ mapping) props =
    if k == dst then lookup src props else renamed k mapping props

-- What a field holds after the renames.
abbrev pub after_renames : String → Dict String → Props → Option Value
after_renames k mapping props =
    if has k mapping then none else or_else (renamed k mapping props) (lookup k props)

renamed_same :
    (k : String) (mapping : Dict String) (props props' : Props)
    → ((s : String) → has s mapping ≡ true → lookup s props ≡ lookup s props')
    → renamed k mapping props ≡ renamed k mapping props'
unfolding lookup
renamed_same k [] props props' h = refl
renamed_same k ((src, dst) ∷ mapping) props props' h =
    ground
      (arith, h src (ground arith), renamed_same k mapping props props' (λ s q. h s (ground arith)))

renamed-none :
    (k : String) (mapping : Dict String) (props : Props)
    → contains (targets mapping) k ≡ false
    → renamed k mapping props ≡ none
renamed-none k [] props h = refl
renamed-none k ((src, dst) ∷ mapping) props h = ground (arith, renamed-none k mapping props)

-- One rename: the source is gone, the target has its value, all else is as it was.
lookup-rename :
    (k src dst : String) (v : Value) (props : Props)
    → lookup k (erase src (insert dst v props))
      ≡ (if k == src then none else (if k == dst then some v else lookup k props))
lookup-rename k src dst v props =
    lookup-erase k src (insert dst v props) ∙ ground (arith, lookup-insert k dst v props)

-- Where no target is renamed again and no two sources share a target, the loop has one result,
-- whatever its order: a source is gone, and a target has its source's value, if that is given.
pub lookup-map_fields :
    (k : String) (mapping : Dict String) (props : Props)
    → IsSeparate mapping
    → lookup k (map_fields mapping props) ≡ after_renames k mapping props
unfolding map_fields lookup or_else
lookup-map_fields k [] props u = refl
lookup-map_fields k ((src, dst) ∷ mapping) props (a, b, c, d, e, u) =
    elim (Option-cases (lookup src props)) [
      | inl gone ↦
          rw (gone, map_fields)
            (ground
              (arith, lookup-map_fields k mapping props u, gone, renamed-none k mapping props))
      | inr (v, found) ↦
          rw (found, map_fields)
            (ground (
              arith,
              lookup-map_fields k mapping (erase src (insert dst v props)) u,
              found,
              lookup-rename k src dst v props,
              renamed-none k mapping props,
              renamed_same k mapping (erase src (insert dst v props)) props (other v),
            ))
    ]
  where
    other :
        (v : Value) (s : String)
        → has s mapping ≡ true
        → lookup s (erase src (insert dst v props)) ≡ lookup s props
    other v s h = ground (arith, lookup-rename s src dst v props)
