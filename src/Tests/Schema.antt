-- ===== src/Tests/Schema.antt =====
-- Tests of the schema registry.
use network_digital_twin_pla.Prelude.{
  ◌≡◌, refl, ◌⊎◌, ◌↔◌, String, true, List, [], ◌∷◌, some, contains, String-discrete,
}
use network_digital_twin_pla.Prelude.Dict.{lookup, NodupKeys}
use network_digital_twin_pla.Schema.Validator.{validate_props}
use network_digital_twin_pla.Schema.Validator.Conforms.{Conforms, validate_props_iff}
use network_digital_twin_pla.Schema.Inheritance.{
  detect_cycle, topo_sort, visit, visit_all, circular, done,
}
use network_digital_twin_pla.Schema.Inheritance.Ancestors.{Reaches, Grounded}
use network_digital_twin_pla.Schema.Inheritance.Cycle.{detect_cycle_decides}
use network_digital_twin_pla.Schema.Inheritance.Visit.{Ordered}
use network_digital_twin_pla.Schema.Inheritance.Topo.{topo_sort-Ordered}
use network_digital_twin_pla.Schema.Registry.{get_labels, resolve_inheritance}
use network_digital_twin_pla.Schema.Registry.Labels.{get_labels-Chain, extend, base}
use network_digital_twin_pla.Schema.Registry.Resolve.{Outcome, resolve_inheritance-Outcome}
use network_digital_twin_pla.Text.Sort.{sort}
use network_digital_twin_pla.Tests.{
  ne_of_test, device, router, types, registry, parents, parents-Grounded, clean_props,
}

validate_props_iff_example : (validate_props device clean_props ≡ []) ↔ Conforms clean_props device
validate_props_iff_example = validate_props_iff device clean_props

detect_cycle_decides_example :
    ((n : String) × (detect_cycle parents ≡ circular n) × Reaches parents n n)
    ⊎ ((names : List String) × (detect_cycle parents ≡ done names [])
        × ((x : String) → Grounded parents x)
        × ((x : String) → ¬ Reaches parents x x))
detect_cycle_decides_example = detect_cycle_decides parents

topo_sort-Ordered_example :
    (order : List String) × (topo_sort parents ≡ some order)
    × Ordered parents [] order
    × ((x p : String) → lookup x parents ≡ some p → contains order x ≡ true)
topo_sort-Ordered_example = topo_sort-Ordered parents parents-Grounded

topo_sort_test : topo_sort parents ≡ some ("Device" ∷ "Router" ∷ [])
unfolding topo_sort visit_all sort String-discrete visit lookup
topo_sort_test = refl

get_labels-Chain_example : get_labels registry "Router" ≡ "Device" ∷ "Router" ∷ []
unfolding lookup String-discrete
get_labels-Chain_example =
    get_labels-Chain registry "Router"
      (extend {et = router} refl (ne_of_test "Device" "" refl) (base {et = device} refl refl))
      (ne_of_test "Router" "" refl)

types-NodupKeys : NodupKeys types
unfolding lookup String-discrete
types-NodupKeys = (refl, (refl, tt))

resolve_inheritance-Outcome_example : Outcome types types-NodupKeys (resolve_inheritance types)
resolve_inheritance-Outcome_example = resolve_inheritance-Outcome types types-NodupKeys
