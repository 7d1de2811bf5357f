-- ===== src/Storage/Users.antt =====
-- The accounts of src/storage.py.
pub mod Accounts
pub mod Admin
pub mod Deletion
use clash_config_gen.Prelude.{
  ℕ, zero, suc, ◌+◌, ◌-◌, ◌*◌, ◌/◌, ◌%◌, ◌≤◌, ◌<◌, String, ◌<>◌, ◌≡◌, refl, sym, ap, ◌∙◌, ◌≢◌, ◌↔◌,
  ◌⊎◌, inl, inr, Bool, true, false, not, ◌&&◌, ◌||◌, Option, none, some, List, [], ◌∷◌, ◌++◌, map,
  arith, ◌==◌, eq_iff, eq_refl, ltb, leb, eqb, if◌then◌else◌, ltb→lt, lt→ltb, leb→le, le→leb,
  eqb_iff, Bool-cases, Option-cases, length, filter, count, any, all, find, length-append,
  filter-append, count-append, count-le-length, any-append, All, All-append,
}
use clash_config_gen.Prelude.Text.{strip, size}
use clash_config_gen.Auth.{Pbkdf2, is_valid_username, hash_password, verify_password}
use clash_config_gen.Rules.Providers.{default_rule_type}
use clash_config_gen.Storage.{
  User, Draft, Validation, Config, Session, Db, Error, invalid_username, short_password,
  username_taken, integrity_error, user_missing, admin_protected, empty_password, Result, ok, err,
  nocase, update_where, delete_where, has_user_id, get_user_by_id, is_unrevoked, owns_session,
  owns_config,
}

abbrev pub has_username : String → User → Bool
has_username username u = nocase u.username == nocase username

unfoldable pub get_user_by_username : String → Db → Option User
unfolding strip
get_user_by_username username db = find (has_username (strip username)) db.users

unfoldable pub validate_new_user_credentials : String → String → Db → Result String
unfolding strip size get_user_by_username
validate_new_user_credentials username password db =
    let normalized_username = strip username in
    if not (is_valid_username normalized_username)
    then err invalid_username
    else if ltb (size password) 8
    then err short_password
    else elim (get_user_by_username normalized_username db) [
      | some _ ↦ err username_taken
      | none ↦ ok normalized_username
    ]

-- The defaults of the schema, for a new row of `subscription_configs`.
abbrev pub blank_config : ℕ → String → ℕ → Config
blank_config user_id token now = record {
  user_id = user_id;
  token = token;
  draft = record {
    proxies_json = "[]";
    global_config_json = "{}";
    custom_rules_json = "[]";
    custom_rule_providers_json = "{}";
    import_sources_json = "[]";
    selected_rule_type = default_rule_type;
  };
  final_yaml = "";
  validation = record { status = "unknown"; message = ""; validated_at = none };
  draft_validation = record { status = "unknown"; message = ""; validated_at = none };
  published_at = none;
  created_at = now;
  updated_at = now;
}

abbrev pub has_token : String → Config → Bool
has_token token c = c.token == token

abbrev pub new_user : Db → String → String → Bool → ℕ → User
new_user db username password_hash is_admin now = record {
  id = db.next_user_id;
  username = username;
  password_hash = password_hash;
  is_admin = is_admin;
  is_enabled = true;
  created_at = now;
  updated_at = now;
}

-- The two INSERTs in one transaction, with the UNIQUE constraints on the name and on the token.
unfoldable pub insert_user : String → String → Bool → String → ℕ → Db → Result User × Db
insert_user username password_hash is_admin token now db =
    if any (has_username username) db.users || any (has_token token) db.configs
    then (err integrity_error, db)
    else (let user = new_user db username password_hash is_admin now in
        (
          ok user,
          record db {
            users = db.users ++ user ∷ [];
            configs = db.configs ++ blank_config db.next_user_id token now ∷ [];
            next_user_id = db.next_user_id + 1;
          },
        ))

abbrev pub insert_hashed : Option String → String → Bool → String → ℕ → Db → Result User × Db
insert_hashed none name is_admin token now db = (err empty_password, db)
insert_hashed (some password_hash) name is_admin token now db =
    insert_user name password_hash is_admin token now db

unfoldable pub create_user :
    Pbkdf2 → String → String → String → String → Bool → ℕ → Db → Result User × Db
create_user pbkdf2 salt token username password is_admin now db =
    let name = strip username in
    if not (is_valid_username name)
    then (err invalid_username, db)
    else if ltb (size password) 8
    then (err short_password, db)
    else insert_hashed (hash_password pbkdf2 salt password) name is_admin token now db

-- The dummy verification of a missing or disabled account takes time and changes no answer.
unfoldable pub authenticate_user : Pbkdf2 → String → String → Db → Option User
authenticate_user pbkdf2 username password db = elim (get_user_by_username username db) [
  | none ↦ none
  | some user ↦
      if not user.is_enabled
      then none
      else if verify_password pbkdf2 password user.password_hash
      then some user
      else none
]

abbrev pub revoke : ℕ → Session → Session
revoke now s = record s { revoked_at = some now }

unfoldable pub set_user_enabled : ℕ → Bool → ℕ → Db → Db
set_user_enabled user_id enabled now db = record db {
  users =
      update_where (has_user_id user_id) (λ u. record u { is_enabled = enabled; updated_at = now })
        db.users;
  sessions =
      if enabled
      then db.sessions
      else update_where (λ s. owns_session user_id s && is_unrevoked s) (revoke now) db.sessions;
}

-- The rows of other tables go by ON DELETE CASCADE.
unfoldable pub delete_rows : ℕ → Db → Db
delete_rows user_id db = record db {
  users = delete_where (has_user_id user_id) db.users;
  configs = delete_where (owns_config user_id) db.configs;
  sessions = delete_where (owns_session user_id) db.sessions;
}

unfoldable pub delete_regular_user : ℕ → Db → Result (Unit {0}) × Db
unfolding delete_rows
delete_regular_user user_id db = elim (get_user_by_id user_id db) [
  | none ↦ (err user_missing, db)
  | some user ↦ if user.is_admin then (err admin_protected, db) else (ok tt, delete_rows user_id db)
]

-- The variables are the values of ADMIN_USERNAME and ADMIN_PASSWORD, empty if not set.
abbrev pub outcome : Result User × Db → Result (Unit {0}) × Db
outcome (ok _, db) = (ok tt, db)
outcome (err e, db) = (err e, db)

-- The UPDATE of an administrator that is there.
unfoldable pub restore_admin : User → ℕ → Db → Db
restore_admin existing now db = if not existing.is_admin then db else record db {
  users =
      update_where (has_user_id existing.id)
        (λ u. record u { is_admin = true; is_enabled = true; updated_at = now }) db.users;
}

unfoldable pub ensure_admin_from_env :
    Pbkdf2 → String → String → String → String → ℕ → Db → Result (Unit {0}) × Db
unfolding restore_admin
ensure_admin_from_env pbkdf2 salt token admin_username admin_password now db =
    let username = strip admin_username in
    if username == "" || admin_password == ""
    then (ok tt, db)
    else if not (is_valid_username username)
    then (err invalid_username, db)
    else elim (get_user_by_username username db) [
      | some existing ↦ (ok tt, restore_admin existing now db)
      | none ↦ outcome (create_user pbkdf2 salt token username admin_password true now db)
    ]
