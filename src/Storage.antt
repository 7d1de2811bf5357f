-- ===== src/Storage.antt =====
-- The tables of src/storage.py, as lists of rows in the order of insertion. A time is a number of
-- seconds: the stored texts are UTC to the second, and compare as those numbers do.
pub mod Rows
pub mod Users
pub mod Configs
pub mod Sessions
pub mod Audit
use clash_config_gen.Prelude.{
  ℕ, zero, suc, ◌+◌, ◌-◌, ◌*◌, ◌/◌, ◌%◌, ◌≤◌, ◌<◌, String, ◌<>◌, ◌≡◌, refl, sym, ap, ◌∙◌, ◌≢◌, ◌↔◌,
  ◌⊎◌, inl, inr, Bool, true, false, not, ◌&&◌, ◌||◌, Option, none, some, List, [], ◌∷◌, ◌++◌, map,
  arith, ◌==◌, eq_iff, eq_refl, ltb, leb, eqb, if◌then◌else◌, ltb→lt, lt→ltb, leb→le, le→leb,
  eqb_iff, Bool-cases, Option-cases, length, filter, count, any, all, find, length-append,
  filter-append, count-append, count-le-length, any-append, All, All-append,
}
use Prim.Native.Char.{Char, code}
use Prim.Native.String
use clash_config_gen.Prelude.Text.{nth}

pub record User : Type 0 where
  pub id : ℕ
  pub username : String
  pub password_hash : String
  pub is_admin : Bool
  pub is_enabled : Bool
  pub created_at : ℕ
  pub updated_at : ℕ

-- The columns that hold an edited configuration.
pub record Draft : Type 0 where
  pub proxies_json : String
  pub global_config_json : String
  pub custom_rules_json : String
  pub custom_rule_providers_json : String
  pub import_sources_json : String
  pub selected_rule_type : String

-- The columns `validation_status`, `validation_message` and `validated_at`; the empty text is `none`.
pub record Validation : Type 0 where
  pub status : String
  pub message : String
  pub validated_at : Option ℕ

-- A row of `subscription_configs`.
pub record Config : Type 0 where
  pub user_id : ℕ
  pub token : String
  pub draft : Draft
  pub final_yaml : String
  pub validation : Validation
  pub draft_validation : Validation
  pub published_at : Option ℕ
  pub created_at : ℕ
  pub updated_at : ℕ

-- A row of `auth_sessions`; `revoked_at` is the empty text for a session that is not revoked.
pub record Session : Type 0 where
  pub user_id : ℕ
  pub token_hash : String
  pub expires_at : ℕ
  pub created_at : ℕ
  pub last_used_at : ℕ
  pub revoked_at : Option ℕ

-- A row of `auth_audit_log`.
pub record AuditEvent : Type 0 where
  pub event_type : String
  pub username : String
  pub client_ip : String
  pub success : Bool
  pub detail : String
  pub created_at : ℕ

-- The database, the next AUTOINCREMENT key of `users`, and the process's own note of its last cleanup of
-- sessions (`_session_cleanup_last_run` for this database).
pub record Db : Type 0 where
  pub users : List User
  pub configs : List Config
  pub sessions : List Session
  pub audit : List AuditEvent
  pub next_user_id : ℕ
  pub cleanup_last_run : Option ℕ

pub data Error : Type 0 where
  invalid_username short_password username_taken integrity_error user_missing user_disabled
        admin_protected empty_password :
      Error

pub data Result {ℓ} (A : Type ℓ) : Type ℓ where
  ok : A → Result A
  err : Error → Result A

-- Equality under SQLite's NOCASE, which folds ASCII letters only.
fold_char : Char → Char
unfolding nth
fold_char c =
    if leb 65 (code c) && leb (code c) 90 then nth "abcdefghijklmnopqrstuvwxyz" (code c - 65) else c

unfoldable pub nocase : String → String
unfolding fold_char
nocase String.[] = String.[]
nocase (String.◌∷◌ c s) = String.◌∷◌ (fold_char c) (nocase s)

-- `UPDATE … SET … WHERE …`
abbrev pub update_where {ℓ} : {A : Type ℓ} → (A → Bool) → (A → A) → List A → List A
update_where p f [] = []
update_where p f (x ∷ xs) = (if p x then f x else x) ∷ update_where p f xs

-- `DELETE FROM … WHERE …`
abbrev pub delete_where {ℓ} : {A : Type ℓ} → (A → Bool) → List A → List A
delete_where p = filter (λ x. not (p x))

abbrev pub has_user_id : ℕ → User → Bool
has_user_id user_id u = eqb u.id user_id

unfoldable pub get_user_by_id : ℕ → Db → Option User
get_user_by_id user_id db = find (has_user_id user_id) db.users

abbrev pub is_unrevoked : Session → Bool
is_unrevoked s = elim s.revoked_at [ none ↦ true | some _ ↦ false ]

abbrev pub owns_session : ℕ → Session → Bool
owns_session user_id s = eqb s.user_id user_id

abbrev pub owns_config : ℕ → Config → Bool
owns_config user_id c = eqb c.user_id user_id
