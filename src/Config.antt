-- ===== src/Config.antt =====
-- `build_config` of src/config_builder.py, which makes the document that a client subscribes to.
pub mod Texts
pub mod Rendered
pub mod Sections
pub mod Dns
pub mod Build
pub mod Kept
pub mod Total
pub mod Entries
pub mod Router
pub mod Yaml
