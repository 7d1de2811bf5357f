-- ===== src/Rules.antt =====
-- The rules part of src/config_builder.py: providers, their order, the rule list and the catalog.
pub mod Order
pub mod Providers
pub mod Build
pub mod Match
pub mod Routing
pub mod Registered
pub mod Catalog
