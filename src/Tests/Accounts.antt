-- ===== src/Tests/Accounts.antt =====
-- Accounts and passwords.
use clash_config_gen.Prelude.{◌≡◌, refl, ◌⊎◌, true, false, none, some, arith, ◌==◌, any}
use clash_config_gen.Prelude.Text.{lacks}
use clash_config_gen.Auth.{hash_password, verify_password, password_iterations}
use clash_config_gen.Auth.Passwords.{verify_password-hash_password}
use clash_config_gen.Storage.{
  nocase, User, Db, ok, err, user_missing, admin_protected, get_user_by_id, owns_config,
  owns_session,
}
use clash_config_gen.Storage.Users.{
  create_user, delete_regular_user, ensure_admin_from_env, set_user_enabled,
}
use clash_config_gen.Storage.Users.Accounts.{
  IsValid, create, set_enabled, delete, AccountRun, here, next, AccountRun-IsValid,
}
use clash_config_gen.Storage.Users.Admin.{ensure_admin_from_env_keeps_users}
use clash_config_gen.Storage.Users.Deletion.{Untouched, delete_regular_user_lem}
use clash_config_gen.Tests.{mixed, alice, two_users}

verify_password-hash_password_example :
    verify_password mixed "wrong" "pbkdf2_sha256$260000$aa$11"
    ≡ (mixed "wrong" "aa" password_iterations == mixed "secret" "aa" password_iterations)
unfolding lacks hash_password
verify_password-hash_password_example =
    verify_password-hash_password mixed "aa" "secret" "wrong" "pbkdf2_sha256$260000$aa$11" refl refl

pub two_users-IsValid : IsValid two_users
unfolding nocase
two_users-IsValid = record {
  ids = (refl, (refl, tt));
  names = (refl, (refl, tt));
  owners = (refl, (refl, tt));
  tokens = (refl, (refl, tt));
  users_below = (omega arith, (omega arith, tt));
  configs_below = (omega arith, (omega arith, tt));
}

-- Bob is made, a name that differs by case is refused, Alice is disabled and deleted.
abbrev with_bob : Db
with_bob = (create_user mixed "aa" "t-bob" " bob " "password" false 30 two_users).1

abbrev second_bob : Db
second_bob = (create_user mixed "aa" "t-other" "BOB" "password" false 31 with_bob).1

abbrev without_alice : Db
without_alice = (delete_regular_user 2 (set_user_enabled 2 false 32 second_bob)).1

AccountRun-IsValid_example : IsValid without_alice
AccountRun-IsValid_example = AccountRun-IsValid steps two_users-IsValid
  where
    steps : AccountRun mixed two_users without_alice
    steps =
        next
          (next
            (next (next here (create "aa" "t-bob" " bob " "password" false 30))
              (create "aa" "t-other" "BOB" "password" false 31))
            (set_enabled 2 false 32))
          (delete 2)

-- An environment that names Alice.
ensure_admin_from_env_keeps_users_example :
    get_user_by_id 2 (ensure_admin_from_env mixed "aa" "t-new" "alice" "secret" 40 two_users).1
    ≡ some alice
unfolding get_user_by_id
ensure_admin_from_env_keeps_users_example =
    ensure_admin_from_env_keeps_users mixed "aa" "t-new" "alice" "secret" 40 2 two_users alice
      two_users-IsValid refl refl

delete_regular_user_lem_example :
    let (answer, after) = delete_regular_user 2 two_users in
    ((u : User) × (get_user_by_id 2 two_users ≡ some u)
      × (u.is_admin ≡ false)
      × (answer ≡ ok tt)
      × (get_user_by_id 2 after ≡ none)
      × (any (owns_config 2) after.configs ≡ false)
      × (any (owns_session 2) after.sessions ≡ false)
      × Untouched 1 two_users after)
    ⊎ ((after ≡ two_users)
        × (((answer ≡ err user_missing) × (get_user_by_id 2 two_users ≡ none))
            ⊎ ((u : User) × (answer ≡ err admin_protected)
                × (get_user_by_id 2 two_users ≡ some u)
                × (u.is_admin ≡ true))))
delete_regular_user_lem_example = delete_regular_user_lem 2 1 two_users (λ e. omega (arith, e))
