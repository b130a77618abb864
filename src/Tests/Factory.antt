-- ===== src/Tests/Factory.antt =====
-- Tests of the factory: two connectors of one name, and an entry of an unknown type.
use network_digital_twin_pla.Prelude.{
  ◌≡◌, refl, String, List, [], ◌∷◌, none, some, ok, String-discrete,
}
use network_digital_twin_pla.Prelude.Dict.{lookup, insert}
use network_digital_twin_pla.Factory.{
  ConnectorConfigEntry, ConnectorFactory, create_each, create_connector, register,
}
use network_digital_twin_pla.Factory.Registered.{Loaded, create_each-Loaded}

-- A connector is its name and what it collects.
abbrev name_of : String × List String → String
name_of c = c.0

abbrev factory : ConnectorFactory String (String × List String)
factory = ("mock", λ name config types. ok (name, types)) ∷ []

abbrev entry : String → String → List String → ConnectorConfigEntry
entry name type types = record {
  name = name;
  type = type;
  config = [];
  entity_types = types;
  auth = record {
    type = "bearer";
    token = "";
    token_env = "TOKEN";
    username = "";
    password = "";
    password_env = "";
  };
}

abbrev entries : List ConnectorConfigEntry
entries =
    entry "lab" "mock" ("Device" ∷ [])
    ∷ entry "lab" "mock" ("Link" ∷ [])
    ∷ entry "core" "unknown" []
    ∷ entry "edge" "mock" []
    ∷ []

create_each-Loaded_example :
    Loaded name_of factory entries [] (create_each name_of factory entries [])
create_each-Loaded_example = create_each-Loaded name_of factory entries []

last_test : lookup "lab" (create_each name_of factory entries []).1 ≡ some ("lab", "Link" ∷ [])
unfolding lookup insert create_each create_connector register String-discrete
last_test = refl

unreached_test : lookup "edge" (create_each name_of factory entries []).1 ≡ none
unfolding lookup insert create_each create_connector register String-discrete
unreached_test = refl
