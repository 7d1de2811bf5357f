-- ===== src/Storage/Sessions.antt =====
-- The login sessions of src/storage.py. `hash_token` stands for `_hash_auth_token`, SHA-256 in hexadecimal.
pub mod Validity
use clash_config_gen.Prelude.{
  ℕ, zero, suc, ◌+◌, ◌-◌, ◌*◌, ◌/◌, ◌%◌, ◌≤◌, ◌<◌, String, ◌<>◌, ◌≡◌, refl, sym, ap, ◌∙◌, ◌≢◌, ◌↔◌,
  ◌⊎◌, inl, inr, Bool, true, false, not, ◌&&◌, ◌||◌, Option, none, some, List, [], ◌∷◌, ◌++◌, map,
  arith, ◌==◌, eq_iff, eq_refl, ltb, leb, eqb, if◌then◌else◌, ltb→lt, lt→ltb, leb→le, le→leb,
  eqb_iff, Bool-cases, Option-cases, length, filter, count, any, all, find, length-append,
  filter-append, count-append, count-le-length, any-append, All, All-append,
}
use Prim.Native.Nat.{min, max}
use clash_config_gen.Storage.{
  User, Session, Db, Error, user_disabled, integrity_error, Result, ok, err, update_where,
  delete_where, has_user_id, get_user_by_id, is_unrevoked, owns_session,
}
use clash_config_gen.Storage.Users.{revoke}

abbrev pub has_hash : String → Session → Bool
has_hash token_hash s = s.token_hash == token_hash

-- `_session_touch_due`
unfoldable pub session_touch_due : ℕ → ℕ → Bool
session_touch_due last_used_at now = leb (last_used_at + 300) now

abbrev delete_expired : ℕ → Db → Db
delete_expired now db = record db {
  sessions = delete_where (λ s. leb s.expires_at now) db.sessions;
}

-- `monotonic_now - last_run < SESSION_CLEANUP_INTERVAL_SECONDS`
abbrev pub cleaned_recently : ℕ → Option ℕ → Bool
cleaned_recently monotonic_now none = false
cleaned_recently monotonic_now (some last_run) = ltb monotonic_now (last_run + 600)

-- `_delete_expired_auth_sessions`; `force` skips the throttle and does not note the run.
unfoldable pub delete_expired_auth_sessions : Bool → ℕ → ℕ → Db → Db
delete_expired_auth_sessions force monotonic_now now db =
    if force
    then delete_expired now db
    else if cleaned_recently monotonic_now db.cleanup_last_run
    then db
    else delete_expired now (record db { cleanup_last_run = some monotonic_now })

abbrev pub session_seconds : ℕ → ℕ
session_seconds days = max 1 (min days 90) * 86400

-- The JOIN, and the condition on the account. A digest is UNIQUE, so there is one session at most.
abbrev pub enabled_only : Session → Option User → Option (User × Session)
enabled_only s none = none
enabled_only s (some u) = if u.is_enabled then some (u, s) else none

abbrev pub joined : List User → Option Session → Option (User × Session)
joined users none = none
joined users (some s) = enabled_only s (find (has_user_id s.user_id) users)

-- `user is None or not user["is_enabled"]`, negated.
abbrev pub is_usable : Option User → Bool
is_usable none = false
is_usable (some u) = u.is_enabled

module _ (hash_token : String → String) where
  abbrev pub new_session : ℕ → ℕ → String → ℕ → Session
  new_session user_id days token now = record {
    user_id = user_id;
    token_hash = hash_token token;
    expires_at = now + session_seconds days;
    created_at = now;
    last_used_at = now;
    revoked_at = none;
  }

  -- The INSERT fails if the digest is there already; the transaction is then rolled back.
  unfoldable pub create_auth_session : ℕ → ℕ → String → ℕ → Db → Result String × Db
  unfolding delete_expired_auth_sessions
  create_auth_session user_id days token now db =
      let cleaned = delete_expired_auth_sessions true 0 now db in
      if not (is_usable (get_user_by_id user_id db))
      then (err user_disabled, db)
      else if any (has_hash (hash_token token)) cleaned.sessions
      then (err integrity_error, db)
      else (
        ok token,
        record cleaned { sessions = cleaned.sessions ++ new_session user_id days token now ∷ [] },
      )

  -- The WHERE clause: the digest, no revocation, and an expiry in the future.
  abbrev pub is_live : String → ℕ → Session → Bool
  is_live token now s = s.token_hash == hash_token token && (is_unrevoked s && ltb now s.expires_at)

  unfoldable pub session_row : String → ℕ → Db → Option (User × Session)
  session_row token now db = joined db.users (find (is_live token now) db.sessions)

  unfoldable pub touch_session : String → ℕ → Session → Db → Db
  unfolding session_touch_due
  touch_session token now s db =
      if session_touch_due s.last_used_at now
      then record db {
        sessions =
            update_where (has_hash (hash_token token)) (λ r. record r { last_used_at = now })
              db.sessions;
      }
      else db

  unfoldable pub get_user_by_auth_session : String → ℕ → ℕ → Db → Option User × Db
  get_user_by_auth_session token monotonic_now now db =
      let cleaned = delete_expired_auth_sessions false monotonic_now now db in
      if token == "" then (none, db) else elim (session_row token now cleaned) [
        | none ↦ (none, cleaned)
        | some (u, s) ↦ (some u, touch_session token now s cleaned)
      ]

  unfoldable pub revoke_auth_session : String → ℕ → Db → Db
  revoke_auth_session token now db = if token == "" then db else record db {
    sessions =
        update_where (λ s. has_hash (hash_token token) s && is_unrevoked s) (revoke now)
          db.sessions;
  }

unfoldable pub revoke_user_auth_sessions : ℕ → ℕ → Db → Db
revoke_user_auth_sessions user_id now db = record db {
  sessions = update_where (λ s. owns_session user_id s && is_unrevoked s) (revoke now) db.sessions;
}
