-- ===== src/Schema/Validator/Defaults.antt =====
-- `applyDefaults` fills in the defaults of absent fields, and nothing else.
use mathlib.Core.Option.{or_else}
use network_digital_twin_pla.Prelude.{
  ◌≡◌, String, [], ◌∷◌, Option, none, some, arith, if◌then◌else◌,
}
use network_digital_twin_pla.Prelude.Dict.{Dict, lookup, insert, NodupKeys, lookup-insert}
use network_digital_twin_pla.Value.{Value, Props}
use network_digital_twin_pla.Schema.Types.{EntityType, PropertySpec}
use network_digital_twin_pla.Schema.Validator.{add_defaults, apply_defaults, has_default}

-- The default of a declared field, if it has one.
abbrev pub default_of : Option PropertySpec → Option Value
default_of none = none
default_of (some spec) = if has_default spec.default then some spec.default else none

lookup-add_defaults :
    (k : String) (specs : Dict PropertySpec) (props : Props)
    → NodupKeys specs
    → lookup k (add_defaults specs props) ≡ or_else (lookup k props) (default_of (lookup k specs))
unfolding add_defaults or_else lookup
lookup-add_defaults k [] props u = ground arith
lookup-add_defaults k ((name, spec) ∷ specs) props (fresh, u) = ground (
  arith,
  lookup-add_defaults k specs props u,
  lookup-add_defaults k specs (insert name spec.default props) u,
  lookup-insert k name spec.default props,
)

-- A field that is given keeps its value; one that is absent gets its default if it has one.
pub lookup-apply_defaults :
    (et : EntityType) (props : Props) (k : String)
    → NodupKeys et.spec.properties
    → lookup k (apply_defaults et props)
      ≡ or_else (lookup k props) (default_of (lookup k et.spec.properties))
unfolding apply_defaults
lookup-apply_defaults et props k u = lookup-add_defaults k et.spec.properties props u
