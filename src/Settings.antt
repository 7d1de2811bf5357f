-- ===== src/Settings.antt =====
-- The global settings, a Python dict of values: their defaults (src/config_defaults.py) and the
-- generation profile (src/config_builder.py).
pub mod Defaults
pub mod Schema
pub mod Profile
pub mod Merge
