-- ===== src/Login/Lockout.antt =====
-- The limit on failed logins.
use clash_config_gen.Prelude.{
  ℕ, ◌+◌, ◌≤◌, ◌<◌, String, ◌≡◌, refl, ◌∙◌, inl, inr, Bool, true, false, ◌&&◌, none, List, [], ◌∷◌,
  ◌++◌, arith, eq_refl, ltb, leb, Bool-cases, count, count-append, All, All-append,
}
use Prim.Native.Nat.{max}
use clash_config_gen.Prelude.Text.{strip, lower, truncate}
use clash_config_gen.Auth.{Pbkdf2}
use clash_config_gen.Storage.{AuditEvent, Db, delete_where}
use clash_config_gen.Storage.Users.{authenticate_user, get_user_by_username}
use clash_config_gen.Storage.Audit.{
  audit_name, retention_seconds, record_auth_audit_event, in_window, is_success_of, is_failure_of,
  latest, account_failures, recent_login_failure_counts,
}
use clash_config_gen.Login.{
  LoginEnv, LoginResult, rejected, account_limit, login_window, over_limit, try_login_locked,
  try_login,
}

-- One attempt on the account: all but its user name.
pub record Attempt : Type 0 where
  pub password : String
  pub persistent : Bool
  pub client_ip : String
  pub token : String
  pub now : ℕ

abbrev pub is_rejected : LoginResult → Bool
is_rejected rejected = true
is_rejected _ = false

-- The failures of an account from a time on.
abbrev failures_from : String → ℕ → List AuditEvent → ℕ
failures_from name start = count (λ e. is_failure_of name e && leb start e.created_at)

abbrev SuccessesBefore : String → ℕ → List AuditEvent → Type 0
SuccessesBefore name start = All (λ e. is_success_of name e ≡ true → e.created_at ≤ start)

latest-le :
    (p : AuditEvent → Bool) (start : ℕ) (events : List AuditEvent)
    → All (λ e. p e ≡ true → e.created_at ≤ start) events
    → latest p events ≤ start
unfolding latest
latest-le p start [] h = omega arith
latest-le p start (e ∷ events) h = ground (arith, h.0, latest-le p start events h.1)

SuccessesBefore-window :
    (name : String) (window start now : ℕ) (events : List AuditEvent)
    → SuccessesBefore name start events
    → All
        (λ e. (is_success_of name e && in_window window now e) ≡ true → e.created_at ≤ start)
        events
SuccessesBefore-window name window start now [] h = tt
SuccessesBefore-window name window start now (e ∷ events) h =
    (λ p. h.0 (ground arith), SuccessesBefore-window name window start now events h.1)

count_mono {ℓ} :
    {A : Type ℓ} (p q : A → Bool) (xs : List A)
    → ((a : A) → p a ≡ true → q a ≡ true)
    → count p xs ≤ count q xs
count_mono p q [] h = omega arith
count_mono p q (x ∷ xs) h = ground (arith, h x, count_mono p q xs h)

-- Every failure since `start` is counted at a time within the window.
failures_from-le :
    (name : String) (window start now : ℕ) (events : List AuditEvent)
    → SuccessesBefore name start events
    → now ≤ start + max 60 window
    → failures_from name start events ≤ account_failures name window now events
unfolding account_failures
failures_from-le name window start now events h le =
    let last : latest (λ e. is_success_of name e && in_window window now e) events ≤ start =
      latest-le _ start events (SuccessesBefore-window name window start now events h) in
    count_mono _ _ events (λ e p. ground (arith, last))

failures_from-retained :
    (name : String) (start now : ℕ) (events : List AuditEvent)
    → now ≤ start + retention_seconds
    → failures_from name start
        (delete_where (λ e. ltb (e.created_at + retention_seconds) now) events)
      ≡ failures_from name start events
failures_from-retained name start now [] le = refl
failures_from-retained name start now (e ∷ events) le =
    ground (arith, failures_from-retained name start now events le)

SuccessesBefore-retained :
    (name : String) (start now : ℕ) (events : List AuditEvent)
    → SuccessesBefore name start events
    → SuccessesBefore name start
        (delete_where (λ e. ltb (e.created_at + retention_seconds) now) events)
SuccessesBefore-retained name start now [] h = tt
SuccessesBefore-retained name start now (e ∷ events) h =
    elim (Bool-cases (ltb (e.created_at + retention_seconds) now)) [
      | inl old ↦ rw old (SuccessesBefore-retained name start now events h.1)
      | inr new ↦ rw new (h.0, SuccessesBefore-retained name start now events h.1)
    ]

-- The row that a failed or blocked attempt adds.
abbrev failure_row : String → String → String → String → ℕ → AuditEvent
failure_row event_type name client_ip detail now = record {
  event_type = event_type;
  username = name;
  client_ip = client_ip;
  success = false;
  detail = detail;
  created_at = now;
}

failures_from-added :
    (name client_ip detail : String) (start now : ℕ) (events : List AuditEvent)
    → start ≤ now
    → now ≤ start + retention_seconds
    → failures_from name start (
        delete_where (λ e. ltb (e.created_at + retention_seconds) now) events
        ++ failure_row "login" name client_ip detail now ∷ [])
      ≡ failures_from name start events + 1
failures_from-added name client_ip detail start now events le le' =
    count-append (λ e. is_failure_of name e && leb start e.created_at)
      (delete_where (λ e. ltb (e.created_at + retention_seconds) now) events) _
    ∙ rw (failures_from-retained name start now events le', eq_refl) (ground arith)

failures_from-blocked :
    (name client_ip detail : String) (start now : ℕ) (events : List AuditEvent)
    → now ≤ start + retention_seconds
    → failures_from name start (
        delete_where (λ e. ltb (e.created_at + retention_seconds) now) events
        ++ failure_row "login_blocked" name client_ip detail now ∷ [])
      ≡ failures_from name start events
failures_from-blocked name client_ip detail start now events le' =
    count-append (λ e. is_failure_of name e && leb start e.created_at)
      (delete_where (λ e. ltb (e.created_at + retention_seconds) now) events) _
    ∙ rw (failures_from-retained name start now events le') (omega arith)

SuccessesBefore-added :
    (name : String) (start now : ℕ) (row : AuditEvent) (events : List AuditEvent)
    → row.success ≡ false
    → SuccessesBefore name start events
    → SuccessesBefore name start
        (delete_where (λ e. ltb (e.created_at + retention_seconds) now) events ++ row ∷ [])
SuccessesBefore-added name start now row events e h =
    All-append _ (delete_where (λ e. ltb (e.created_at + retention_seconds) now) events) (row ∷ [])
      (SuccessesBefore-retained name start now events h) ((λ p. ground arith), tt)

authenticate_user-users :
    (pbkdf2 : Pbkdf2) (username password : String) (db db' : Db)
    → db'.users ≡ db.users
    → authenticate_user pbkdf2 username password db' ≡ authenticate_user pbkdf2 username password db
unfolding authenticate_user get_user_by_username
authenticate_user-users pbkdf2 username password db db' e = rw e

module _ (pbkdf2 : Pbkdf2) (hash_token : String → String) (env : LoginEnv) (username : String) where
  -- The name under which the audit log has the account.
  abbrev account_name : String
  account_name = audit_name (lower (strip username))

  attempt_login : Attempt → Db → LoginResult × Db
  attempt_login a db =
      try_login pbkdf2 hash_token env username a.password a.persistent a.client_ip a.token a.now db

  -- The attempts in turn.
  unfoldable pub attempt_all : List Attempt → Db → List LoginResult × Db
  unfolding attempt_login
  attempt_all [] db = ([], db)
  attempt_all (a ∷ attempts) db =
      let (r, db') = attempt_login a db in
      let (rs, last) = attempt_all attempts db' in (r ∷ rs, last)

  record Stepped (start : ℕ) (db : Db) (r : LoginResult) (db' : Db) : Type 0 where
    failures :
        failures_from account_name start db'.audit
        ≡ failures_from account_name start db.audit + count is_rejected (r ∷ [])
    below : is_rejected r ≡ true → failures_from account_name start db.audit < account_limit env
    successes : SuccessesBefore account_name start db'.audit
    users : db'.users ≡ db.users

  attempt_login-Stepped :
      (start : ℕ) (a : Attempt) (db : Db)
      → start ≤ a.now
      → a.now ≤ start + max 60 (login_window env)
      → max 60 (login_window env) ≤ retention_seconds
      → SuccessesBefore account_name start db.audit
      → authenticate_user pbkdf2 username a.password db ≡ none
      → Stepped start db (attempt_login a db).0 (attempt_login a db).1
  unfolding attempt_login try_login try_login_locked record_auth_audit_event truncate
      recent_login_failure_counts
  attempt_login-Stepped start a db from until kept h wrong =
      elim (Bool-cases (
        over_limit env (
          recent_login_failure_counts (lower (strip username)) a.client_ip (login_window env) a.now
            db))) [
              | inl over ↦ rw over (record {
                failures =
                    failures_from-blocked account_name _ _ start a.now db.audit (omega arith)
                    ∙ omega arith;
                below = λ e. cc;
                successes = SuccessesBefore-added account_name start a.now _ db.audit refl h;
                users = refl;
              })
              | inr under ↦
                  rw (under, wrong)
                    (record {
                      failures =
                          failures_from-added account_name _ _ start a.now db.audit from
                            (omega arith);
                      below = λ e. ground (
                        arith,
                        failures_from-le account_name (login_window env) start a.now db.audit h
                            until,
                      );
                      successes = SuccessesBefore-added account_name start a.now _ db.audit refl h;
                      users = refl;
                    })
            ]

  abbrev pub AllWithin : ℕ → List Attempt → Type 0
  AllWithin start = All (λ a. (start ≤ a.now) × (a.now ≤ start + max 60 (login_window env)))

  abbrev pub AllWrong : Db → List Attempt → Type 0
  AllWrong db = All (λ a. authenticate_user pbkdf2 username a.password db ≡ none)

  AllWrong-users :
      (db db' : Db) (attempts : List Attempt)
      → db'.users ≡ db.users
      → AllWrong db attempts
      → AllWrong db' attempts
  AllWrong-users db db' [] e h = tt
  AllWrong-users db db' (a ∷ attempts) e h = (
    authenticate_user-users pbkdf2 username a.password db db' e ∙ h.0,
    AllWrong-users db db' attempts e h.1,
  )

  attempt_all_bound :
      (start : ℕ) (attempts : List Attempt) (db : Db)
      → max 60 (login_window env) ≤ retention_seconds
      → AllWithin start attempts
      → SuccessesBefore account_name start db.audit
      → AllWrong db attempts
      → failures_from account_name start db.audit + count is_rejected (attempt_all attempts db).0
        ≤ max (account_limit env) (failures_from account_name start db.audit)
  unfolding attempt_all
  attempt_all_bound start [] db kept within h wrong = omega arith
  attempt_all_bound start (a ∷ attempts) db kept within h wrong =
      let step : Stepped start db (attempt_login a db).0 (attempt_login a db).1 =
        attempt_login-Stepped start a db within.0.0 within.0.1 kept h wrong.0 in
      ground (
        arith,
        step.failures,
        step.below,
        attempt_all_bound start attempts (attempt_login a db).1 kept within.1 step.successes
            (AllWrong-users db (attempt_login a db).1 attempts step.users wrong.1),
      )

  -- However many wrong passwords are tried on an account within one window, at most `account_limit`
  -- of them are compared with the stored hash: the others are blocked. The window must not exceed
  -- the 90 days for which the log is kept, and no login may have succeeded after the window began.
  pub attempt_all-rejected_le :
      (start : ℕ) (attempts : List Attempt) (db : Db)
      → max 60 (login_window env) ≤ retention_seconds
      → AllWithin start attempts
      → All (λ e. is_success_of account_name e ≡ true → e.created_at ≤ start) db.audit
      → AllWrong db attempts
      → count is_rejected (attempt_all attempts db).0 ≤ account_limit env
  attempt_all-rejected_le start attempts db kept within h wrong =
      omega (arith, attempt_all_bound start attempts db kept within h wrong)
