-- ===== src/Storage/Users/Deletion.antt =====
-- The deletion of an account.
use clash_config_gen.Prelude.{
  ℕ, ◌≡◌, refl, ◌≢◌, ◌⊎◌, inl, inr, true, false, none, some, arith, Bool-cases, Option-cases,
  filter, any,
}
use clash_config_gen.Storage.{
  User, Db, user_missing, admin_protected, ok, err, has_user_id, get_user_by_id, owns_session,
  owns_config,
}
use clash_config_gen.Storage.Users.{delete_rows, delete_regular_user}
use clash_config_gen.Storage.Rows.{
  filter-delete_where_apart, find-delete_where_apart, find-delete_where_self,
}

-- What is left without the rows of a user.
record Deleted (user_id : ℕ) (after : Db) : Type 0 where
  account : get_user_by_id user_id after ≡ none
  configs : any (owns_config user_id) after.configs ≡ false
  sessions : any (owns_session user_id) after.sessions ≡ false

delete_rows-Deleted : (user_id : ℕ) (db : Db) → Deleted user_id (delete_rows user_id db)
unfolding delete_rows get_user_by_id
delete_rows-Deleted user_id db = record {
  account = (find-delete_where_self (has_user_id user_id) db.users).0;
  configs = (find-delete_where_self (owns_config user_id) db.configs).1;
  sessions = (find-delete_where_self (owns_session user_id) db.sessions).1;
}

-- Nothing of another user is touched.
pub record Untouched (other : ℕ) (before after : Db) : Type 0 where
  pub account : get_user_by_id other after ≡ get_user_by_id other before
  pub configs : filter (owns_config other) after.configs ≡ filter (owns_config other) before.configs
  pub sessions :
      filter (owns_session other) after.sessions ≡ filter (owns_session other) before.sessions

delete_rows-Untouched :
    (user_id other : ℕ) (db : Db) → other ≢ user_id → Untouched other db (delete_rows user_id db)
unfolding delete_rows get_user_by_id
delete_rows-Untouched user_id other db ne = record {
  account =
      find-delete_where_apart (has_user_id other) (has_user_id user_id) db.users
        (λ v q. ground arith);
  configs =
      filter-delete_where_apart (owns_config other) (owns_config user_id) db.configs
        (λ v q. ground arith);
  sessions =
      filter-delete_where_apart (owns_session other) (owns_session user_id) db.sessions
        (λ v q. ground arith);
}

-- Deleting an account: exactly a missing one and an administrator's are errors, and nothing changes. Else the user, who
-- is there and is no administrator, is gone with every configuration and session of theirs, and any other
-- user keeps account, configurations and sessions.
pub delete_regular_user_lem :
    (user_id other : ℕ) (db : Db)
    → other ≢ user_id
    → let (answer, after) = delete_regular_user user_id db in
      ((u : User) × (get_user_by_id user_id db ≡ some u)
        × (u.is_admin ≡ false)
        × (answer ≡ ok tt)
        × (get_user_by_id user_id after ≡ none)
        × (any (owns_config user_id) after.configs ≡ false)
        × (any (owns_session user_id) after.sessions ≡ false)
        × Untouched other db after)
      ⊎ ((after ≡ db)
          × (((answer ≡ err user_missing) × (get_user_by_id user_id db ≡ none))
              ⊎ ((u : User) × (answer ≡ err admin_protected)
                  × (get_user_by_id user_id db ≡ some u)
                  × (u.is_admin ≡ true))))
unfolding delete_regular_user
delete_regular_user_lem user_id other db ne = elim (Option-cases (get_user_by_id user_id db)) [
  | inl e ↦ rw (e, delete_regular_user) (inr (refl, inl (refl, refl)))
  | inr (u, e) ↦ elim (Bool-cases u.is_admin) [
    | inl admin ↦ rw (e, delete_regular_user) (simp admin (inr (refl, inr (u, refl, refl, admin))))
    | inr plain ↦
        rw (e, delete_regular_user)
          (let gone = delete_rows-Deleted user_id db in
            let kept = delete_rows-Untouched user_id other db ne in
            simp plain
              (inl (u, refl, plain, refl, gone.account, gone.configs, gone.sessions, kept)))
  ]
]
