-- ===== src/Service.antt =====
-- internal/service: the services over connectors and the graph that answer a single request.
pub mod Analysis
pub mod Device
