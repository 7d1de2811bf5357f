-- ===== src/Tests/Logins.antt =====
-- Logins and their sessions.
use clash_config_gen.Prelude.{
  ℕ, ◌+◌, ◌≤◌, ◌≡◌, refl, ◌≢◌, true, false, none, some, List, [], ◌∷◌, arith, ◌==◌, eq_iff, ltb,
  if◌then◌else◌, count,
}
use clash_config_gen.Prelude.Text.{strip}
use clash_config_gen.Auth.{verify_password}
use clash_config_gen.Storage.{nocase, AuditEvent, Session, Db, get_user_by_id}
use clash_config_gen.Storage.Users.{authenticate_user, get_user_by_username, set_user_enabled}
use clash_config_gen.Storage.Sessions.{
  session_seconds, session_row, delete_expired_auth_sessions, create_auth_session,
  get_user_by_auth_session, revoke_auth_session,
}
use clash_config_gen.Storage.Sessions.Validity.{
  user_of, get_user_by_auth_session_lem, get_user_by_auth_session-create_auth_session,
  get_user_by_auth_session-revoke_auth_session, get_user_by_auth_session-revoke_other,
  get_user_by_auth_session-set_user_enabled,
}
use clash_config_gen.Login.{LoginEnv, account_limit, positive_int_env}
use clash_config_gen.Login.Lockout.{Attempt, is_rejected, attempt_all, attempt_all-rejected_le}
use clash_config_gen.Tests.{mixed, same_token_hash, admin, two_users}

abbrev alice_session : Session
alice_session = record {
  user_id = 2;
  token_hash = "tok";
  expires_at = 86500;
  created_at = 100;
  last_used_at = 100;
  revoked_at = none;
}

abbrev logged_in : Db
logged_in = record two_users { sessions = alice_session ∷ [] }

get_user_by_auth_session_lem_example :
    (get_user_by_auth_session same_token_hash "tok" 5 900 logged_in).0 ≡ (
      if "tok" == ""
      then none
      else user_of same_token_hash (session_row same_token_hash "tok" 900 logged_in))
get_user_by_auth_session_lem_example =
    get_user_by_auth_session_lem same_token_hash "tok" 5 900 logged_in

get_user_by_auth_session-create_auth_session_example :
    (get_user_by_auth_session same_token_hash "tok" 5 86500 logged_in).0
    ≡ (if ltb 86500 (100 + session_seconds 1) then get_user_by_id 2 two_users else none)
unfolding create_auth_session get_user_by_id
get_user_by_auth_session-create_auth_session_example =
    get_user_by_auth_session-create_auth_session same_token_hash 2 1 "tok" 100 two_users logged_in 5
      86500 refl refl

get_user_by_auth_session-revoke_auth_session_example :
    (get_user_by_auth_session same_token_hash "tok" 5 900
      (revoke_auth_session same_token_hash "tok" 800 logged_in)).0
    ≡ none
get_user_by_auth_session-revoke_auth_session_example =
    get_user_by_auth_session-revoke_auth_session same_token_hash "tok" 800 5 900 logged_in

get_user_by_auth_session-revoke_other_example :
    (get_user_by_auth_session same_token_hash "tok" 5 900
      (revoke_auth_session same_token_hash "other" 800 logged_in)).0
    ≡ (get_user_by_auth_session same_token_hash "tok" 5 900 logged_in).0
get_user_by_auth_session-revoke_other_example =
    get_user_by_auth_session-revoke_other same_token_hash "other" "tok" 800 5 900 logged_in
      (λ e. ground (arith, (eq_iff "tok" "other").1 e))

-- Alice is disabled and enabled again; a new session of the administrator is not hers.
abbrev root_session : Session
root_session = record {
  user_id = 1;
  token_hash = "root";
  expires_at = 86500;
  created_at = 100;
  last_used_at = 100;
  revoked_at = none;
}

abbrev both_logged_in : Db
both_logged_in = record two_users { sessions = alice_session ∷ root_session ∷ [] }

get_user_by_auth_session-set_user_enabled_example : admin.id ≢ 2
unfolding get_user_by_auth_session session_row delete_expired_auth_sessions set_user_enabled
get_user_by_auth_session-set_user_enabled_example =
    get_user_by_auth_session-set_user_enabled same_token_hash 2 800 850 true "root" 5 900
      both_logged_in admin refl

abbrev strict_env : LoginEnv
strict_env = record { window_seconds = none; account_failures = some "2"; ip_failures = none }

abbrev attempt : ℕ → Attempt
attempt now = record {
  password = "wrong";
  persistent = false;
  client_ip = "1.2.3.4";
  token = "t";
  now = now;
}

abbrev attempts : List Attempt
attempts = attempt 1000 ∷ attempt 1001 ∷ attempt 1002 ∷ []

alice_rejected : authenticate_user mixed "alice" "wrong" two_users ≡ none
unfolding authenticate_user get_user_by_username nocase strip verify_password
alice_rejected = refl

attempt_all-rejected_le_example :
    count is_rejected (attempt_all mixed same_token_hash strict_env "alice" attempts two_users).0
    ≤ account_limit strict_env
unfolding positive_int_env
attempt_all-rejected_le_example =
    attempt_all-rejected_le mixed same_token_hash strict_env "alice" 1000 attempts two_users
      (omega arith)
      ((omega arith, omega arith), ((omega arith, omega arith), ((omega arith, omega arith), tt)))
      tt (alice_rejected, (alice_rejected, (alice_rejected, tt)))

abbrev wrong_password : ℕ → AuditEvent
wrong_password now = record {
  event_type = "login";
  username = "alice";
  client_ip = "1.2.3.4";
  success = false;
  detail = "invalid_credentials";
  created_at = now;
}
