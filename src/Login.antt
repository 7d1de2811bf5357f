-- ===== src/Login.antt =====
-- The login of src/auth_service.py, under the lock of its user name: one attempt at a time.
pub mod Lockout
use clash_config_gen.Prelude.{
  ℕ, zero, suc, ◌+◌, ◌-◌, ◌*◌, ◌/◌, ◌%◌, ◌≤◌, ◌<◌, String, ◌<>◌, ◌≡◌, refl, sym, ap, ◌∙◌, ◌≢◌, ◌↔◌,
  ◌⊎◌, inl, inr, Bool, true, false, not, ◌&&◌, ◌||◌, Option, none, some, List, [], ◌∷◌, ◌++◌, map,
  arith, ◌==◌, eq_iff, eq_refl, ltb, leb, eqb, if◌then◌else◌, ltb→lt, lt→ltb, leb→le, le→leb,
  eqb_iff, Bool-cases, Option-cases, length, filter, count, any, all, find, length-append,
  filter-append, count-append, count-le-length, any-append, All, All-append,
}
use Prim.Native.Nat.{max}
use clash_config_gen.Prelude.Int.{ℤ, pos, negsuc, int_of_text}
use clash_config_gen.Prelude.Text.{strip, lower}
use clash_config_gen.Auth.{Pbkdf2}
use clash_config_gen.Storage.{User, Db, Error, Result, ok, err}
use clash_config_gen.Storage.Users.{authenticate_user}
use clash_config_gen.Storage.Sessions.{create_auth_session}
use clash_config_gen.Storage.Audit.{record_auth_audit_event, recent_login_failure_counts}

-- `_positive_int_env`, of the variable's value.
unfoldable pub positive_int_env : Option String → ℕ → ℕ
unfolding int_of_text
positive_int_env none default = max 1 default
positive_int_env (some value) default = elim (int_of_text value) [
  | none ↦ default
  | some parsed ↦ elim parsed [ pos n ↦ max 1 n | negsuc n ↦ 1 ]
]

-- The variables AUTH_RATE_LIMIT_WINDOW_SECONDS, …_ACCOUNT_FAILURES and …_IP_FAILURES.
pub record LoginEnv : Type 0 where
  pub window_seconds : Option String
  pub account_failures : Option String
  pub ip_failures : Option String

pub data LoginResult : Type 0 where
  blocked : LoginResult
  rejected : LoginResult
  accepted : String → Bool → User → LoginResult
  -- the exception of `create_auth_session`
  failed : Error → LoginResult

abbrev pub account_limit : LoginEnv → ℕ
account_limit env = positive_int_env env.account_failures 5

abbrev pub ip_limit : LoginEnv → ℕ
ip_limit env = positive_int_env env.ip_failures 20

abbrev pub login_window : LoginEnv → ℕ
login_window env = positive_int_env env.window_seconds 900

abbrev pub over_limit : LoginEnv → ℕ × ℕ → Bool
over_limit env counts = leb (account_limit env) counts.0 || leb (ip_limit env) counts.1

module _ (pbkdf2 : Pbkdf2) (hash_token : String → String) (env : LoginEnv) where
  -- `_try_login_locked`; `token` is the random text that a new session would get.
  unfoldable pub try_login_locked :
      String → String → String → Bool → String → String → ℕ → Db → LoginResult × Db
  try_login_locked username normalized_username password persistent client_ip token now db =
      if over_limit env
        (recent_login_failure_counts normalized_username client_ip (login_window env) now db)
      then (
        blocked,
        record_auth_audit_event "login_blocked" normalized_username client_ip false "rate_limit" now
            db,
      )
      else elim (authenticate_user pbkdf2 username password db) [
        | none ↦ (
          rejected,
          record_auth_audit_event "login" normalized_username client_ip false "invalid_credentials"
              now db,
        )
        | some user ↦
            let created =
              create_auth_session hash_token user.id (if persistent then 30 else 1) token now db in
            elim created.0 [
              | err e ↦ (failed e, created.1)
              | ok fresh ↦ (
                accepted fresh persistent user,
                record_auth_audit_event "login" user.username client_ip true "authenticated" now
                    created.1,
              )
            ]
      ]

  -- `_try_login`
  unfoldable pub try_login : String → String → Bool → String → String → ℕ → Db → LoginResult × Db
  unfolding try_login_locked
  try_login username password persistent client_ip token now db =
      try_login_locked username (lower (strip username)) password persistent client_ip token now db
