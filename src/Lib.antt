-- ===== src/Lib.antt =====
-- A verification library of the network digital twin platform, whose Go code stands under cmd/,
-- internal/ and pkg/. It follows a resource from its collection to the graph: connectors deliver
-- resources; the normalizer maps, cleans and validates their properties against the ontology and
-- gives each a URI; the assembler makes graph nodes and relations of them; the graph driver stores
-- these, and the sync and snapshot services work on the stored graph.
--
-- Prelude, Text, Value: strings, Go maps as lists of entries, Go's `any`, and the functions of Go's
--   standard library that the code calls.
-- Schema.Types, Schema.Validator, Schema.Inheritance, Schema.Registry: internal/schema (types.go,
--   errors.go, validator.go, registry.go), the in-memory registry of entity and relation types.
-- Uri: pkg/utils/uri.go, `GenerateURI`.
-- Normalizer: internal/normalizer/normalizer.go, `Normalize`.
-- Assembler: internal/assembler (types.go, assembler.go), `Assemble`.
-- Breaker: internal/api/middleware/circuitbreaker.go. Serial has requests one after the other, Reach
--   the interleavings of overlapping ones as a step relation, with what panics do to them in Lost.
-- Snapshot.Audit: internal/snapshot/audit.go, the log in memory.
-- Snapshot.Diff: internal/snapshot/manager.go, `LocalDiff` and `compareProps`.
-- Snapshot.Manager: internal/snapshot/manager.go, the manager's state and its operations on a graph and
--   a directory (Operations); Paging, Lru, Listing and Restoring hold the theorems.
-- Graph: internal/graph/interface.go, the driver as a record of operations.
-- Sync: internal/service/sync_service.go, `FullSync`, `IncrementalSync` and the consumer's loop.
-- Events: internal/events/channel.go and fallback.go, the bus in memory and the publisher that falls
--   back on it; Fifo has histories of the bus, Recovery the steps of the publisher.
-- HttpClient: internal/connector/httpclient.go, the loop of `Do` over what the network answers in each
--   of its four attempts (Retry has the theorem), and in Pages `resolveURL` and `Paginate`, whose fuel
--   bounds the pages read (Paging has the theorem).
-- Factory: internal/connector/factory.go with config.go and `Register` of interface.go; Registered has
--   the theorem.
-- Schema.Loader: internal/schema/loader.go and `Load` of the registry with it; Documents has what it
--   makes of a file, Outcome what it makes of a directory.
-- Snapshot.Archive: internal/snapshot/exporter.go and importer.go, the archives of the manager, over a
--   codec for YAML documents; RoundTrip has the theorem.
-- Text.Scan: the functions of strings, strconv and regexp that the parser calls.
-- Controller.Parser: internal/connector/controller/parser.go, what devices print of their BGP and ISIS
--   neighbours; a panic is `none`.
-- Controller.Transform: transform.go beside it, from the controller's JSON to properties, and
--   internal/connector/netbox/transform.go.
-- Controller.Client, Controller.Topology: client.go and api_topology.go beside it, tokens, cached devices
--   and requests, over HttpClient; Padding, Tokens and Vpns hold theorems.
-- Controller.Collect: controller.go beside it, the collection of each entity type, where the goroutines
--   of `collectISIS` and `collectBGP` are a step relation; Goroutines has the theorem.
-- Graph.Groups, Graph.Driver, Graph.Clone, Graph.Preview, Graph.Client: internal/graph/neo4j.go and
--   logical_db.go, the statements that the driver sends, over what a session answers. The order in which
--   Go ranges over the maps of groups is a parameter. Statements, Sends and Copies hold theorems.
-- Sync.Neo4j: `FullSync` with this driver.
-- Service.Analysis, Service.Device: internal/service/analysis_service.go and device_service.go, with
--   internal/connector/capability.go, over connectors that are a parameter.
-- Api: internal/api/response/response.go and internal/api/handlers, the replies to requests. A request is
--   its query parameters and what the decoder makes of its body. Device.Outcome and Codes hold theorems.
-- Text.Url: the escapes of `net/url`.
-- Controller.Monitor: internal/connector/controller/api_monitor.go, with the alerts of monitor.go.
-- Controller.Operator: operator.go, api_config.go and the path detail of api_srte.go beside it. Live holds
--   theorems.
-- Snapshot.Manager.Comparing: `Diff` of internal/snapshot/manager.go, over what six queries answer. Rows,
--   Queries and Outcome hold theorems.
-- HttpClient.Auth, HttpClient.Netbox: `applyAuth` of internal/connector/httpclient.go, and the collection of
--   internal/connector/netbox/netbox.go.
-- Config: internal/config/config.go.
-- HttpClient.Requests: internal/connector/httpclient.go, `Do` as a whole and the methods that call it. What
--   the transport sends of a body, whose reader the attempts share, is left to the transport.
-- Tests: concrete inputs for the theorems.
--
-- A map is a list of entries, in the order in which a `range` loop happens to meet them; theorems
-- about every list hold for every order. An error is a value; its text is left out where nothing
-- reads it. Log lines are left out. A float is a bit pattern, and what the hardware does with floats is a parameter (`Host`).
--
-- Fuel: the searches along the inheritance map (`dfs`, `visit`) and the loop of `GetLabels` take the
-- number of keys and two more as fuel, since each round but the last two visits a new key. The
-- theorems state that they end. The loops over pages, of `Create`, `Paginate` and `paginateVPN`, have
-- fuel as an argument, and the theorems about them say how much is enough.
--
-- Not modelled: YAML and JSON decoding, files, HTTP, PostgreSQL, Kafka and Neo4j themselves, the
-- command-line programs under cmd/, tracing, metrics, and the sharing of arrays by Go's `append`.
pub mod Prelude
pub mod Text
pub mod Value
pub mod Schema
pub mod Uri
pub mod Normalizer
pub mod Api
pub mod Assembler
pub mod Breaker
pub mod Events
pub mod Factory
pub mod Config
pub mod Controller
pub mod Graph
pub mod HttpClient
pub mod Sync
pub mod Service
pub mod Snapshot
pub mod Tests
