-- ===== src/Storage/Configs.antt =====
-- The subscription configurations of src/storage.py. `encode` stands for `normalize_proxies_for_mihomo`
-- and `json.dumps` of what the caller passes, `normalize_yaml` for `_normalize_final_yaml_proxies`.
pub mod Publishing
pub mod Tokens
use clash_config_gen.Prelude.{
  ℕ, zero, suc, ◌+◌, ◌-◌, ◌*◌, ◌/◌, ◌%◌, ◌≤◌, ◌<◌, String, ◌<>◌, ◌≡◌, refl, sym, ap, ◌∙◌, ◌≢◌, ◌↔◌,
  ◌⊎◌, inl, inr, Bool, true, false, not, ◌&&◌, ◌||◌, Option, none, some, List, [], ◌∷◌, ◌++◌, map,
  arith, ◌==◌, eq_iff, eq_refl, ltb, leb, eqb, if◌then◌else◌, ltb→lt, lt→ltb, leb→le, le→leb,
  eqb_iff, Bool-cases, Option-cases, length, filter, count, any, all, find, length-append,
  filter-append, count-append, count-le-length, any-append, All, All-append,
}
use clash_config_gen.Prelude.Text.{truncate}
use clash_config_gen.Storage.{
  User, Draft, Validation, Config, Db, Error, integrity_error, Result, ok, err, update_where,
  get_user_by_id, owns_config,
}
use clash_config_gen.Storage.Users.{blank_config, has_token}

-- An INSERT of a blank row: the foreign key and the two UNIQUE columns.
unfoldable pub insert_config : ℕ → String → ℕ → Db → Result Db
insert_config user_id token now db = elim (get_user_by_id user_id db) [
  | none ↦ err integrity_error
  | some _ ↦
      if any (owns_config user_id) db.configs || any (has_token token) db.configs
      then err integrity_error
      else ok (record db { configs = db.configs ++ blank_config user_id token now ∷ [] })
]

-- `INSERT OR IGNORE`: a row that breaks a UNIQUE constraint is left out; a missing user is an error.
unfoldable pub insert_or_ignore : ℕ → String → ℕ → Db → Result Db
insert_or_ignore user_id token now db = elim (get_user_by_id user_id db) [
  | none ↦
      if any (owns_config user_id) db.configs || any (has_token token) db.configs
      then ok db
      else err integrity_error
  | some _ ↦
      if any (owns_config user_id) db.configs || any (has_token token) db.configs
      then ok db
      else ok (record db { configs = db.configs ++ blank_config user_id token now ∷ [] })
]

-- `ensure_user_config`; `token` is the random text for a new row.
unfoldable pub ensure_user_config : ℕ → String → ℕ → Db → Result Db
unfolding insert_config
ensure_user_config user_id token now db =
    if any (owns_config user_id) db.configs then ok db else insert_config user_id token now db

-- `now if status != "unknown" else ""`
abbrev pub validation_of : String → String → ℕ → Validation
validation_of status message now = record {
  status = status;
  message = truncate 2000 message;
  validated_at = if status == "unknown" then none else some now;
}

abbrev pub set_draft : Draft → Validation → ℕ → Config → Config
set_draft draft validation now c = record c {
  draft = draft;
  draft_validation = validation;
  updated_at = now;
}

abbrev pub set_published : Draft → String → Validation → ℕ → Config → Config
set_published draft final_yaml validation now c = record c {
  draft = draft;
  final_yaml = final_yaml;
  validation = validation;
  draft_validation = validation;
  published_at = some now;
  updated_at = now;
}

unfoldable pub write_config : ℕ → (Config → Config) → Db → Db
write_config user_id f db = record db { configs = update_where (owns_config user_id) f db.configs }

abbrev pub with_row : (Db → Db) → Result Db → Db → Result (Unit {0}) × Db
with_row f (ok found) db = (ok tt, f found)
with_row f (err e) db = (err e, db)

module _ {Inputs : Type 0} (encode : Inputs → Draft) where
  unfoldable pub save_user_draft :
      ℕ → Inputs → String → String → String → ℕ → Db → Result (Unit {0}) × Db
  unfolding insert_or_ignore write_config truncate
  save_user_draft user_id inputs status message token now db =
      with_row
        (write_config user_id (set_draft (encode inputs) (validation_of status message now) now))
        (insert_or_ignore user_id token now db) db

  unfoldable pub save_user_config_atomic :
      ℕ → Inputs → String → String → String → String → ℕ → Db → Result (Unit {0}) × Db
  unfolding ensure_user_config write_config truncate
  save_user_config_atomic user_id inputs final_yaml status message token now db =
      with_row
        (write_config user_id
          (set_published (encode inputs) final_yaml (validation_of status message now) now))
        (ensure_user_config user_id token now db) db

  -- `save_user_config`: the row is ensured in a transaction of its own.
  unfoldable pub save_user_config :
      (String → String)
      → ℕ
      → Inputs
      → String
      → String
      → String
      → String
      → ℕ
      → Db
      → Result (Unit {0}) × Db
  unfolding ensure_user_config write_config truncate
  save_user_config normalize_yaml user_id inputs final_yaml status message token now db =
      with_row
        (write_config user_id (
          set_published (encode inputs) (normalize_yaml final_yaml)
            (validation_of status message now) now))
        (ensure_user_config user_id token now db) db

abbrev pub set_token : String → ℕ → Config → Config
set_token token now c = record c { token = token; updated_at = now }

-- `reset_subscription_token`: `spare` is the random text for a new row, `token` the one that is returned.
unfoldable pub reset_subscription_token : ℕ → String → String → ℕ → Db → Result String × Db
unfolding insert_or_ignore write_config
reset_subscription_token user_id spare token now db = elim (insert_or_ignore user_id spare now db) [
  | err e ↦ (err e, db)
  | ok found ↦
      if any (λ c. not (owns_config user_id c) && has_token token c) found.configs
      then (err integrity_error, db)
      else (ok token, write_config user_id (set_token token now) found)
]

abbrev pub owned_by : Config → Option User → Option (Config × User)
owned_by c none = none
owned_by c (some u) = if u.is_enabled then some (c, u) else none

abbrev pub joined_config : Db → Option Config → Option (Config × User)
joined_config db none = none
joined_config db (some c) = owned_by c (get_user_by_id c.user_id db)

-- `get_config_by_token`: the row of the token, joined with its user, who must be enabled.
unfoldable pub get_config_by_token : String → Db → Option (Config × User)
get_config_by_token token db = joined_config db (find (has_token token) db.configs)
