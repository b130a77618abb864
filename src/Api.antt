-- ===== src/Api.antt =====
-- internal/api: the handlers of the HTTP API, from the request to the reply.
pub mod Response
pub mod Device
pub mod Snapshot
pub mod Sync
pub mod Topology
pub mod Codes
