-- ===== src/Tests/Pipeline.antt =====
-- Tests of the pipeline from a collected resource to the graph: URI, normalizer, assembler.

use network_digital_twin_pla.Prelude.{◌≡◌, refl, ◌⊎◌, String, [], ◌∷◌, String-discrete}
use network_digital_twin_pla.Prelude.Dict.{Dict, lookup, insert, erase}
use network_digital_twin_pla.Value.{str, plain_host, Props}
use network_digital_twin_pla.Schema.Types.{EntityType}
use network_digital_twin_pla.Uri.{generate_uri}
use network_digital_twin_pla.Uri.Stable.{generate_uri_stable}
use network_digital_twin_pla.Normalizer.{map_fields}
use network_digital_twin_pla.Normalizer.Outcome.{UnknownKind, Rejected, Accepted, normalize_outcome}
use network_digital_twin_pla.Normalizer.Mapping.{IsSeparate, after_renames, lookup-map_fields}
use network_digital_twin_pla.Assembler.{assemble}
use network_digital_twin_pla.Assembler.Outcome.{Assembled, assemble_outcome}
use network_digital_twin_pla.Assembler.Outcome
use network_digital_twin_pla.Tests.{
  registry, clean_props, device_resource, normalized, plain_host-PrintsText, ne_of_test,
}

generate_uri_stable_example :
    generate_uri plain_host "device:{hostname}" ("hostname" ∷ []) clean_props
    ≡ generate_uri plain_host "device:{hostname}"
        ("hostname" ∷ [])
        (("hostname", str "core-1") ∷ [])
unfolding lookup String-discrete
generate_uri_stable_example =
    generate_uri_stable plain_host "device:{hostname}" ("hostname" ∷ []) clean_props
      (("hostname", str "core-1") ∷ []) (refl, tt)

normalize_outcome_example :
    UnknownKind plain_host registry device_resource
    ⊎ ((et : EntityType) × (Rejected plain_host registry device_resource et
          ⊎ Accepted plain_host registry device_resource et))
normalize_outcome_example =
    normalize_outcome plain_host registry device_resource plain_host-PrintsText

abbrev mapping : Dict String
mapping = ("name", "hostname") ∷ ("ip", "address") ∷ []

abbrev raw_props : Props
raw_props = ("name", str "core-1") ∷ ("role", str "core") ∷ []

mapping-IsSeparate : IsSeparate mapping
unfolding lookup String-discrete
mapping-IsSeparate = (
  ne_of_test "name" "hostname" refl,
  refl,
  refl,
  refl,
  refl,
  (ne_of_test "ip" "address" refl, refl, refl, refl, refl, tt),
)

lookup-map_fields_example :
    lookup "name" (map_fields mapping raw_props) ≡ after_renames "name" mapping raw_props
lookup-map_fields_example = lookup-map_fields "name" mapping raw_props mapping-IsSeparate

-- The same two renames, in both orders of the loop.
first_order_test :
    map_fields (("a", "b") ∷ ("b", "c") ∷ []) (("a", str "v") ∷ []) ≡ ("c", str "v") ∷ []
unfolding map_fields lookup insert erase String-discrete
first_order_test = refl

second_order_test :
    map_fields (("b", "c") ∷ ("a", "b") ∷ []) (("a", str "v") ∷ []) ≡ ("b", str "v") ∷ []
unfolding map_fields lookup insert erase String-discrete
second_order_test = refl

assemble_outcome_example :
    Outcome.UnknownKind registry normalized (assemble registry normalized)
    ⊎ Assembled registry normalized (assemble registry normalized)
assemble_outcome_example = assemble_outcome registry normalized
