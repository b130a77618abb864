-- ===== src/Schema.antt =====
-- internal/schema: the ontology types, the registry and what it guarantees.
pub mod Types
pub mod Validator
pub mod Inheritance
pub mod Loader
pub mod Registry
