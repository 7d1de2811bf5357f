-- ===== src/Tests.antt =====
-- Runs of the code on concrete data.
mod Limiter
mod RuleLists
mod Accounts
mod Logins
mod Subscriptions
mod Addresses
mod CsrfRuns
mod SettingsRuns
mod Nodes
mod Documents
mod DraftRuns
mod GroupRuns
use clash_config_gen.Prelude.{
  ℕ, String, ◌<>◌, true, false, none, some, List, [], ◌∷◌, ◌==◌, if◌then◌else◌,
}
use clash_config_gen.Auth.{Pbkdf2}
use clash_config_gen.Storage.{User, Config, Session, Db}
use clash_config_gen.Storage.Users.{blank_config}

-- A digest that depends on the password and the salt.
abbrev pub mixed : Pbkdf2
mixed password salt iterations = if password == "secret" then "11" else "22"

abbrev pub same_token_hash : String → String
same_token_hash token = token

abbrev pub admin : User
admin = record {
  id = 1;
  username = "Root";
  password_hash = "pbkdf2_sha256$260000$aa$11";
  is_admin = true;
  is_enabled = true;
  created_at = 10;
  updated_at = 10;
}

abbrev pub alice : User
alice = record {
  id = 2;
  username = "Alice";
  password_hash = "pbkdf2_sha256$260000$aa$11";
  is_admin = false;
  is_enabled = true;
  created_at = 20;
  updated_at = 20;
}

abbrev pub admin_config : Config
admin_config = blank_config 1 "t-root" 10

abbrev pub alice_config : Config
alice_config = blank_config 2 "t-alice" 20

abbrev pub two_users : Db
two_users = record {
  users = admin ∷ alice ∷ [];
  configs = admin_config ∷ alice_config ∷ [];
  sessions = [];
  audit = [];
  next_user_id = 3;
  cleanup_last_run = none;
}
