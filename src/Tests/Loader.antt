-- ===== src/Tests/Loader.antt =====
-- Tests of the loader, with documents that are decoded already.
use network_digital_twin_pla.Prelude.{
  ◌≡◌, refl, String, false, [], ◌∷◌, Option, none, some, String-discrete,
}
use network_digital_twin_pla.Prelude.Dict.{insert}
use network_digital_twin_pla.Schema.Types.{RelationType, invalid_api_version}
use network_digital_twin_pla.Schema.Registry.{
  Registry, load, resolve_inheritance, inheritance_of, add_entity_types, add_relation_types,
}
use network_digital_twin_pla.Schema.Loader.{eof, broken, document, Decoder, DirEntry, load_dir}
use network_digital_twin_pla.Schema.Loader.Outcome.{Outcome}

record Node : Type 0 where
  api_version : String
  kind : String
  type : Option RelationType

abbrev yaml : Decoder Node
yaml = record {
  probe = λ n. some (record { api_version = n.api_version; kind = n.kind });
  entity_type = λ n. none;
  relation_type = λ n. n.type;
}

abbrev connects : RelationType
connects = record {
  api_version = "twin.io/v1";
  kind = "RelationType";
  metadata = record { name = "CONNECTS"; labels = [] };
  spec = record { source = "Device" ∷ []; target = "Device" ∷ [] };
}

abbrev separator : Node
separator = record { api_version = ""; kind = ""; type = none }

abbrev good : Node
good = record { api_version = "twin.io/v1"; kind = "RelationType"; type = some connects }

abbrev outdated : Node
outdated = record { api_version = "twin.io/v0"; kind = "RelationType"; type = some connects }

abbrev relations_yaml : DirEntry Node
relations_yaml = record {
  name = "relations.yaml";
  is_dir = false;
  contents = some (document good (document separator eof));
}

abbrev notes_txt : DirEntry Node
notes_txt = record { name = "notes.txt"; is_dir = false; contents = some broken }

abbrev outdated_yml : DirEntry Node
outdated_yml = record {
  name = "zz.yml";
  is_dir = false;
  contents = some (document outdated broken);
}

abbrev empty : Registry
empty = record { entity_types = []; relation_types = [] }

loaded_test :
    (load_dir yaml "d" (some (notes_txt ∷ relations_yaml ∷ [])) empty).registry.relation_types
    ≡ ("CONNECTS", connects) ∷ []
unfolding load_dir load String-discrete resolve_inheritance inheritance_of add_entity_types
    add_relation_types insert
loaded_test = refl

outdated_test :
    (load_dir yaml "d" (some (relations_yaml ∷ outdated_yml ∷ [])) empty).error
    ≡ some (invalid_api_version "twin.io/v0")
unfolding load_dir load String-discrete
outdated_test = refl
