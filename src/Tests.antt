-- ===== src/Tests.antt =====
-- The inputs of the tests: a schema of two entity types and one relation type, as the YAML files
-- under schemas/ declare them, and resources of these types.
pub mod Api
pub mod Archive
pub mod Breaker
pub mod Comparing
pub mod Controller
pub mod Events
pub mod Factory
pub mod Graph
pub mod Http
pub mod Loader
pub mod Pages
pub mod Schema
pub mod Services
pub mod Snapshot
pub mod Pipeline
use network_digital_twin_pla.Prelude.{
  ◌≡◌, ◌≢◌, refl, String, true, false, List, [], ◌∷◌, none, some, arith, String-discrete, ◌==◌,
}
use network_digital_twin_pla.Prelude.Dict.{Dict, lookup}
use network_digital_twin_pla.Text.{decimal-ne-nil}
use network_digital_twin_pla.Value.{
  Value, null, str, int, strings, int_native, pos, Props, plain_host,
}
use network_digital_twin_pla.Schema.Types.{EntityType, RelationType, PropertySpec}
use network_digital_twin_pla.Schema.Registry.{Registry}
use network_digital_twin_pla.Schema.Inheritance.Ancestors.{Grounded, top, up}
use network_digital_twin_pla.Normalizer.{Resource, NormalizedResource}
use network_digital_twin_pla.Uri.Stable.{PrintsText}

abbrev text_field : PropertySpec
text_field = record { type = "string"; required = true; enum = []; default = null }

abbrev status_field : PropertySpec
status_field = record {
  type = "string";
  required = false;
  enum = "up" ∷ "down" ∷ [];
  default = str "up";
}

abbrev pub device : EntityType
device = record {
  api_version = "v1";
  kind = "EntityType";
  metadata = record { name = "Device"; labels = [] };
  spec = record {
    extends = "";
    identity = record { stable_keys = "hostname" ∷ [] };
    uri_template = "device:{hostname}";
    field_mapping = ("name", "hostname") ∷ [];
    normalize = record { field = "hostname"; pattern = " "; replace = "-" } ∷ [];
    relation_fields = ("links", record { relation_type = "CONNECTS" }) ∷ [];
    properties = ("hostname", text_field) ∷ ("status", status_field) ∷ [];
  };
}

abbrev pub router : EntityType
router = record {
  api_version = "v1";
  kind = "EntityType";
  metadata = record { name = "Router"; labels = [] };
  spec = record {
    extends = "Device";
    identity = record { stable_keys = "hostname" ∷ [] };
    uri_template = "router:{hostname}";
    field_mapping = [];
    normalize = [];
    relation_fields = [];
    properties = ("asn", record { type = "int"; required = false; enum = []; default = null }) ∷ [];
  };
}

abbrev connects : RelationType
connects = record {
  api_version = "v1";
  kind = "RelationType";
  metadata = record { name = "CONNECTS"; labels = [] };
  spec = record { source = "Device" ∷ []; target = "Device" ∷ [] };
}

abbrev pub types : Dict EntityType
types = ("Device", device) ∷ ("Router", router) ∷ []

abbrev pub registry : Registry
registry = record { entity_types = types; relation_types = ("CONNECTS", connects) ∷ [] }

abbrev pub parents : Dict String
parents = ("Router", "Device") ∷ []

abbrev pub device_props : Props
device_props = ("name", str "core 1") ∷ ("links", strings ("device:edge" ∷ "device:gone" ∷ [])) ∷ []

abbrev pub clean_props : Props
clean_props =
    ("hostname", str "core-1")
    ∷ ("links", strings ("device:edge" ∷ "device:gone" ∷ []))
    ∷ ("status", str "up")
    ∷ []

abbrev pub device_resource : Resource
device_resource = record { kind = "Device"; id = "7"; properties = device_props }

abbrev pub normalized : List NormalizedResource
normalized =
    record { kind = "Device"; uri = "device:core-1"; properties = clean_props }
    ∷ record { kind = "Device"; uri = "device:edge"; properties = ("hostname", str "edge") ∷ [] }
    ∷ []

pub ne_of_test : (s t : String) → (s == t) ≡ false → s ≢ t
ne_of_test s t h e = ground arith

device_has_no_parent : lookup "Device" parents ≡ none
unfolding lookup String-discrete
device_has_no_parent = refl

-- In `parents` every line of ancestors ends.
pub parents-Grounded : (x : String) → Grounded parents x
unfolding lookup
parents-Grounded x = elim (String-discrete x "Router") [
  | yes same ↦
      let at : lookup x parents ≡ some "Device" = ground (arith, same) in
      up at (top device_has_no_parent)
  | no differ ↦ let at : lookup x parents ≡ none = ground arith in top at
]

pub plain_host-PrintsText : PrintsText plain_host
unfolding String-discrete
plain_host-PrintsText = record {
  text32 = decimal-ne-nil;
  text64 = decimal-ne-nil;
  text_other = λ n. ne_of_test "other" "" refl;
}
