-- ===== src/Lib.antt =====
-- Clash-Config-Gen: a verification library of the server that makes Mihomo (Clash) subscriptions.
--
-- Parts and files. Paths are from the root of the repository.
--   RateLimit      the limiter of registrations, `_register_rate_limited` of src/auth_service.py
--   Login          `_try_login` of src/auth_service.py, over the accounts, the log and the sessions
--   Auth           src/auth.py: names, password hashes, Boolean variables
--   Storage        src/storage.py: the tables as lists of rows (Storage), the accounts (Storage/Users),
--                  the login sessions (Storage/Sessions), the audit log (Storage/Audit), and drafts,
--                  published texts and tokens (Storage/Configs)
--   Rules          `build_rules` of src/config_builder.py: the built-in providers (Rules/Providers),
--                  their order (Rules/Order), the rules and the fallback (Rules/Build), and the catalog
--                  that a page shows (Rules/Catalog)
--   Settings       src/config_defaults.py (Settings/Defaults, Settings/Schema, Settings/Merge) and
--                  `apply_generation_profile` of src/config_builder.py (Settings/Profile)
--   Groups         the proxy groups of src/clash_meta_gen.py, and `validate_config` of
--                  src/config_builder.py (Groups/Validate)
--   Value          the values of dicts and lists that the program handles: None, bool, int, float, str, list, dict
--   Normalizer     src/normalizer.py: the fields of a node (Normalizer), their ports (Normalizer/Ports), and
--                  `normalize_proxy` step by step (Normalizer/Proxy)
--   Config         `build_config` of src/config_builder.py: lines and numbers of settings (Config/Texts), the
--                  sections (Config/Sections, Config/Dns), groups and providers as values
--                  (Config/Rendered), the document (Config/Build), its text and headers (Config/Yaml)
--   Drafts         src/draft_service.py: what is accepted (Drafts/Intake), the document of a draft
--                  (Drafts/Generation) and its validation (Drafts/Validation)
--   Origin         `is_trusted_request_origin` of src/security.py
--   Csrf           the CSRF tokens of src/security.py
--   ClientIp       `request_client_ip` of src/security.py
--   Prelude        what these share: lists, texts, Python's int() and str() of numbers, association lists
--   Tests          the theorems at concrete data
-- A login (Login) reads the log's failures (Storage/Audit), checks the password (Storage/Users, Auth),
-- and on success makes a session (Storage/Sessions). The provider defaults of a new configuration come
-- from Rules. The body of a request becomes a draft (Drafts/Intake) with the nodes of Normalizer and the
-- settings of Settings. The document of a draft (Config) takes its nodes from Normalizer, its settings from
-- Settings, its groups from Groups and its rules from Rules, and is checked by Groups/Validate with the
-- check of a node's fields of Normalizer; the YAML round trip is a parameter.
-- Operations have the names of the functions that they model.
--
-- How the code is modelled.
--   A connection to SQLite is a `Db` passed on: an operation returns the answer and the tables after
--   it, and a transaction that fails returns the tables before it. UNIQUE, NOT NULL defaults, foreign keys
--   and ON DELETE CASCADE are written out. An exception is a value of `Error`.
--   Times are numbers of seconds: the stored UTC texts have seconds' precision and compare as numbers.
--   An operation reads the clock once. The attempts on one user name come one after the other, as the
--   lock of the name makes them.
--   Random tokens and salts, environment variables and clock readings are arguments. PBKDF2, SHA-256, HMAC,
--   Base64, the parsing of addresses, the JSON encoding and the YAML normalisation are parameters. A
--   theorem says what it assumes of them.
--   `lower` and `upper` cover ASCII and the Kelvin sign, NOCASE folds ASCII, int() takes ASCII digits
--   with sign, underscores and white space. A custom provider's fields are any values;
--   its target is as an f-string writes it.
--   A setting, or a field of a node, is a value of Value; a float is its text and, if it is whole, its value.
--   `isdigit` and `\d` take ASCII digits. How Python writes a list or a dict, ast.literal_eval, ipaddress,
--   urlsplit, yaml, difflib, the digest of a draft and the run of mihomo are parameters. That
--   `build_config` raises an exception is `none`; a refused request is a status and a detail.
-- Loops are structural recursion. The one fuel is that of `str(n)` in Prelude/Int, n + 1 for a number n, which
-- has at most n + 1 digits.
--
-- Not modelled: the HTTP API, the web pages, the importers, the node forms, the rule set downloads, the
-- migrations of old databases.

pub mod Origin
pub mod Prelude
pub mod Value
pub mod RateLimit
pub mod Rules
pub mod Settings
pub mod Groups
pub mod Normalizer
pub mod Csrf
pub mod Drafts
pub mod ClientIp
pub mod Config
pub mod Auth
pub mod Storage
pub mod Login
mod Tests
