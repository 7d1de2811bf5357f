-- ===== src/Storage/Users/Admin.antt =====
-- The administrator of the environment and the other accounts.
use clash_config_gen.Prelude.{
  ℕ, String, ◌≡◌, ◌∙◌, inl, inr, Bool, true, false, not, ◌||◌, Option, none, some, arith, ◌==◌, ltb,
  eqb, eqb_iff, Bool-cases, Option-cases, any,
}
use clash_config_gen.Prelude.Apart.{find-Apart}
use clash_config_gen.Prelude.Text.{strip, size}
use clash_config_gen.Auth.{Pbkdf2, is_valid_username, hash_password}
use clash_config_gen.Storage.{User, Db, has_user_id, get_user_by_id}
use clash_config_gen.Storage.Users.{
  has_username, get_user_by_username, has_token, insert_user, insert_hashed, create_user,
  restore_admin, ensure_admin_from_env,
}
use clash_config_gen.Storage.Rows.{find-some_append, find-update_where_apart}
use clash_config_gen.Storage.Users.Accounts.{same_id, IsValid, outcome-db}

get_user_by_id-insert_user :
    (username password_hash : String) (is_admin : Bool) (token : String) (now id : ℕ) (db : Db)
    (u : User)
    → get_user_by_id id db ≡ some u
    → get_user_by_id id (insert_user username password_hash is_admin token now db).1 ≡ some u
unfolding insert_user get_user_by_id
get_user_by_id-insert_user username password_hash is_admin token now id db u h =
    elim (Bool-cases (any (has_username username) db.users || any (has_token token) db.configs)) [
      | inl taken ↦ rw taken h
      | inr free ↦ rw free (find-some_append (has_user_id id) db.users _ u h)
    ]

get_user_by_id-insert_hashed :
    (hashed : Option String) (name : String) (is_admin : Bool) (token : String) (now id : ℕ)
    (db : Db) (u : User)
    → get_user_by_id id db ≡ some u
    → get_user_by_id id (insert_hashed hashed name is_admin token now db).1 ≡ some u
get_user_by_id-insert_hashed none name is_admin token now id db u h = h
get_user_by_id-insert_hashed (some password_hash) name is_admin token now id db u h =
    get_user_by_id-insert_user name password_hash is_admin token now id db u h

-- Making an account changes no other account.
get_user_by_id-create_user :
    (pbkdf2 : Pbkdf2) (salt token username password : String) (is_admin : Bool) (now id : ℕ)
    (db : Db) (u : User)
    → get_user_by_id id db ≡ some u
    → get_user_by_id id (create_user pbkdf2 salt token username password is_admin now db).1 ≡ some u
unfolding create_user
get_user_by_id-create_user pbkdf2 salt token username password is_admin now id db u h =
    elim (Bool-cases (not (is_valid_username (strip username)))) [
      | inl e ↦ rw e h
      | inr e ↦ rw e (elim (Bool-cases (ltb (size password) 8)) [
        | inl e' ↦ rw e' h
        | inr e' ↦ rw e' (
            get_user_by_id-insert_hashed (hash_password pbkdf2 salt password) (strip username)
              is_admin token now id db u h)
      ])
    ]

get_user_by_id-restore_admin :
    (existing : User) (now id : ℕ) (db : Db) (u : User)
    → get_user_by_id existing.id db ≡ some existing
    → get_user_by_id id db ≡ some u
    → u.is_admin ≡ false
    → get_user_by_id id (restore_admin existing now db) ≡ some u
unfolding restore_admin get_user_by_id
get_user_by_id-restore_admin existing now id db u found h plain =
    elim (Bool-cases (not existing.is_admin)) [
      | inl e ↦ rw e h
      | inr e ↦ rw e (elim (Bool-cases (eqb existing.id id)) [
        | inl same ↦
            let is : existing.id ≡ id = (eqb_iff existing.id id).0 same in
            absurd (ground (arith, (rw is at found), h, plain, e))
        | inr other ↦
            find-update_where_apart (has_user_id id) (has_user_id existing.id) _ db.users
              (λ v q. ground arith)
            ∙ h
      ])
    ]

-- With unique ids and names, the account of the environment never promotes or changes a user who is no
-- administrator, not even one of the same name, whatever the answer is.
pub ensure_admin_from_env_keeps_users :
    (pbkdf2 : Pbkdf2) (salt token admin_username admin_password : String) (now id : ℕ) (db : Db)
    (u : User)
    → IsValid db
    → get_user_by_id id db ≡ some u
    → u.is_admin ≡ false
    → get_user_by_id id
        (ensure_admin_from_env pbkdf2 salt token admin_username admin_password now db).1
      ≡ some u
unfolding ensure_admin_from_env
ensure_admin_from_env_keeps_users pbkdf2 salt token admin_username admin_password now id db u v h
      plain =
    elim (Bool-cases (strip admin_username == "" || admin_password == "")) [
      | inl e ↦ rw e h
      | inr e ↦ rw e (elim (Bool-cases (not (is_valid_username (strip admin_username)))) [
        | inl e' ↦ rw e' h
        | inr e' ↦ rw e' (elim (Option-cases (get_user_by_username (strip admin_username) db)) [
          | inl e'' ↦
              rw (e'', outcome-db)
                (get_user_by_id-create_user pbkdf2 salt token (strip admin_username) admin_password
                  true now id db u h)
          | inr (existing, e'') ↦
              rw e''
                (get_user_by_id-restore_admin existing now id db u (found existing e'') h plain)
        ])
      ])
    ]
  where
    found :
        (existing : User)
        → get_user_by_username (strip admin_username) db ≡ some existing
        → get_user_by_id existing.id db ≡ some existing
    found existing e =
        unfold get_user_by_username get_user_by_id in
        find-Apart same_id _ db.users existing (λ a b. ground arith) (ground arith) v.ids e
