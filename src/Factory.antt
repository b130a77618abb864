-- ===== src/Factory.antt =====
-- internal/connector/factory.go and the registry of internal/connector/interface.go. A connector is
-- of any type `C`; the log is left out. The file of the configuration is read by a parameter.
pub mod Registered
use network_digital_twin_pla.Prelude.{String, List, [], ◌∷◌, none, some, Result, ok, err}
use network_digital_twin_pla.Prelude.Dict.{Dict, lookup, insert}
use network_digital_twin_pla.Value.{Props}

pub record AuthConfig : Type 0 where
  pub type : String
  pub token : String
  pub token_env : String
  pub username : String
  pub password : String
  pub password_env : String

pub record ConnectorConfigEntry : Type 0 where
  pub name : String
  pub type : String
  pub config : Props
  pub entity_types : List String
  pub auth : AuthConfig

pub data FactoryError (E : Type 0) : Type 0 where
  config_error : E → FactoryError E
  not_registered : String → FactoryError E
  build_error : String → E → FactoryError E

module _ (E C : Type 0) where
  abbrev pub ConnectorBuilder : Type 0
  ConnectorBuilder = String → Props → List String → Result E C

  abbrev pub ConnectorFactory : Type 0
  ConnectorFactory = Dict ConnectorBuilder

module _ {C : Type 0} (name_of : C → String) where
  unfoldable pub register : C → Dict C → Dict C
  register c registry = insert (name_of c) c registry

module _ {E C : Type 0} where
  unfoldable pub register_builder :
      String → ConnectorBuilder E C → ConnectorFactory E C → ConnectorFactory E C
  register_builder conn_type builder f = insert conn_type builder f

  unfoldable pub create_connector :
      ConnectorFactory E C → ConnectorConfigEntry → Result (FactoryError E) C
  create_connector f entry = elim (lookup entry.type f) [
    | none ↦ err (not_registered entry.type)
    | some builder ↦ elim (builder entry.name entry.config entry.entity_types) [
      | err e ↦ err (build_error entry.name e)
      | ok c ↦ ok c
    ]
  ]

  -- The loop of `CreateFromConfig`.
  unfoldable pub create_each :
      (C → String)
      → ConnectorFactory E C
      → List ConnectorConfigEntry
      → Dict C
      → Result (FactoryError E) (Unit {0}) × Dict C
  create_each name_of f [] registry = (ok tt, registry)
  create_each name_of f (entry ∷ entries) registry = elim (create_connector f entry) [
    | err e ↦ (err e, registry)
    | ok c ↦ create_each name_of f entries (register name_of c registry)
  ]

  -- `entries` is what `LoadConnectorConfig` returns.
  unfoldable pub create_from_config :
      (C → String)
      → ConnectorFactory E C
      → Result E (List ConnectorConfigEntry)
      → Dict C
      → Result (FactoryError E) (Unit {0}) × Dict C
  create_from_config name_of f (err e) registry = (err (config_error e), registry)
  create_from_config name_of f (ok entries) registry = create_each name_of f entries registry
