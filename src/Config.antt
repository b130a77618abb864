-- ===== src/Config.antt =====
-- internal/config/config.go: the configuration with its defaults, and the environment variables that override
-- it. The library that reads the file is a parameter, which fills in what the file has.
use network_digital_twin_pla.Prelude.{
  String, Bool, true, false, List, [], Result, ok, err, if◌then◌else◌, ◌==◌,
}
use network_digital_twin_pla.Value.{ℤ, pos}

pub record Neo4JConfig : Type 0 where
  pub uri : String
  pub user : String
  pub password : String
  pub default_db : String

pub record ServerConfig : Type 0 where
  pub port : ℤ

pub record SnapshotConfig : Type 0 where
  pub dir : String
  pub max_active : ℤ
  pub retention_days : ℤ

pub record SchemaConfig : Type 0 where
  pub ontology_dir : String

pub record ChannelConfig : Type 0 where
  pub buffer_size : ℤ

pub record KafkaConfig : Type 0 where
  pub enabled : Bool
  pub brokers : List String
  pub topic : String
  pub group_id : String
  pub sasl_user : String
  pub sasl_pass : String

pub record EventBusKafkaConfig : Type 0 where
  pub brokers : List String
  pub topic : String
  pub group_id : String
  pub sasl_user : String
  pub sasl_pass : String

pub record EventBusConfig : Type 0 where
  pub mode : String
  pub kafka : EventBusKafkaConfig

pub record PgConfig : Type 0 where
  pub enabled : Bool
  pub url : String
  pub max_conns : ℤ
  pub min_conns : ℤ

pub record ObservabilityConfig : Type 0 where
  pub otel_endpoint : String
  pub service_name : String

pub record Config : Type 0 where
  pub neo4j : Neo4JConfig
  pub server : ServerConfig
  pub snapshot : SnapshotConfig
  pub schema : SchemaConfig
  pub channel : ChannelConfig
  pub kafka : KafkaConfig
  pub event_bus : EventBusConfig
  pub postgres : PgConfig
  pub observability : ObservabilityConfig

-- What stands where the file has nothing.
abbrev pub defaults : Config
defaults = record {
  neo4j = record { uri = ""; user = ""; password = ""; default_db = "default" };
  server = record { port = pos 8080 };
  snapshot = record { dir = "snapshots"; max_active = pos 5; retention_days = pos 0 };
  schema = record { ontology_dir = "ontology" };
  channel = record { buffer_size = pos 100 };
  kafka = record {
    enabled = false;
    brokers = [];
    topic = "external-sync-events";
    group_id = "network-twin";
    sasl_user = "";
    sasl_pass = "";
  };
  event_bus = record {
    mode = "channel";
    kafka = record {
      brokers = [];
      topic = "internal-sync-events";
      group_id = "network-twin";
      sasl_user = "";
      sasl_pass = "";
    };
  };
  postgres = record { enabled = false; url = ""; max_conns = pos 10; min_conns = pos 2 };
  observability = record { otel_endpoint = ""; service_name = "network-digital-twin" };
}

-- The variables by name, the empty text where there is none.
module _ (env_str : String → String) where
  abbrev overridden : String → String → String
  overridden key value = if env_str key == "" then value else env_str key

  abbrev enabled_by : String → Bool → Bool
  enabled_by key value = if env_str key == "true" then true else value

  unfoldable pub apply_env_overrides : Config → Config
  apply_env_overrides cfg = record {
    neo4j = record {
      uri = overridden "NEO4J_URI" cfg.neo4j.uri;
      user = overridden "NEO4J_USER" cfg.neo4j.user;
      password = overridden "NEO4J_PASSWORD" cfg.neo4j.password;
      default_db = overridden "NEO4J_DEFAULT_DB" cfg.neo4j.default_db;
    };
    server = cfg.server;
    snapshot = cfg.snapshot;
    schema = cfg.schema;
    channel = cfg.channel;
    kafka = record (cfg.kafka) { enabled = enabled_by "KAFKA_ENABLED" cfg.kafka.enabled };
    event_bus = record (cfg.event_bus) { mode = overridden "EVENT_BUS_MODE" cfg.event_bus.mode };
    postgres = record (cfg.postgres) {
      enabled = enabled_by "POSTGRES_ENABLED" cfg.postgres.enabled;
      url = overridden "POSTGRES_URL" cfg.postgres.url;
    };
    observability = record {
      otel_endpoint = overridden "OTEL_ENDPOINT" cfg.observability.otel_endpoint;
      service_name = overridden "SERVICE_NAME" cfg.observability.service_name;
    };
  }

  -- `Load`, from what the library reads of a file over the defaults.
  unfoldable pub load :
      {X : Type 0} → (Config → String → Result X Config) → String → Result X Config
  unfolding apply_env_overrides
  load read path = elim (read defaults path) [
    | err e ↦ err e
    | ok cfg ↦ ok (apply_env_overrides cfg)
  ]
