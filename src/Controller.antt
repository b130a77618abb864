-- ===== src/Controller.antt =====
-- internal/connector/controller: the connector to the network controller.
pub mod Parser
pub mod Transform
pub mod Client
pub mod Topology
pub mod Collect
pub mod Monitor
pub mod Operator
