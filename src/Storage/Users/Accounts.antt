-- ===== src/Storage/Users/Accounts.antt =====
-- What the operations on the accounts keep true of the tables.
use clash_config_gen.Prelude.{
  ℕ, ◌<◌, String, ◌≡◌, refl, inl, inr, Bool, true, not, ◌||◌, Option, none, some, List, [], ◌∷◌,
  arith, ◌==◌, ltb, eqb, Bool-cases, Option-cases, filter, any, All, All-append,
}
use clash_config_gen.Prelude.Apart.{Apart, Apart-append, Apart-filter, All-any-false}
use clash_config_gen.Prelude.Text.{strip, size}
use clash_config_gen.Auth.{Pbkdf2, is_valid_username, hash_password}
use clash_config_gen.Storage.{
  User, Config, Session, Db, Result, ok, err, nocase, update_where, has_user_id, get_user_by_id,
}
use clash_config_gen.Storage.Users.{
  has_username, get_user_by_username, blank_config, has_token, new_user, insert_user, insert_hashed,
  create_user, set_user_enabled, delete_rows, delete_regular_user, outcome, restore_admin,
  ensure_admin_from_env,
}

abbrev pub same_id : User → User → Bool
same_id u v = eqb u.id v.id

abbrev pub same_name : User → User → Bool
same_name u v = nocase u.username == nocase v.username

abbrev pub same_owner : Config → Config → Bool
same_owner c d = eqb c.user_id d.user_id

abbrev pub same_token : Config → Config → Bool
same_token c d = c.token == d.token

-- No two users have one id, or names that differ by the case of ASCII letters only; no two
-- configurations have one owner or one token; no id is the next one or above it.
pub record IsValid (db : Db) : Type 0 where
  pub ids : Apart same_id db.users
  pub names : Apart same_name db.users
  pub owners : Apart same_owner db.configs
  pub tokens : Apart same_token db.configs
  pub users_below : All (λ u. u.id < db.next_user_id) db.users
  pub configs_below : All (λ c. c.user_id < db.next_user_id) db.configs

All-imp {ℓ} :
    {A : Type ℓ} (P Q : A → Type 0) (xs : List A) → ((a : A) → P a → Q a) → All P xs → All Q xs
All-imp P Q [] f h = tt
All-imp P Q (x ∷ xs) f h = (f x h.0, All-imp P Q xs f h.1)

All-filter {ℓ} :
    {A : Type ℓ} (P : A → Type 0) (q : A → Bool) (xs : List A) → All P xs → All P (filter q xs)
All-filter P q [] h = tt
All-filter P q (x ∷ xs) h = elim (Bool-cases (q x)) [
  | inl e ↦ rw e (h.0, All-filter P q xs h.1)
  | inr e ↦ rw e (All-filter P q xs h.1)
]

-- An UPDATE that changes neither ids nor names.
record Relabels (f : User → User) : Type 0 where
  id : (u : User) → (f u).id ≡ u.id
  name : (u : User) → (f u).username ≡ u.username

module _ (q : User → Bool) (f : User → User) (keeps : Relabels f) where
  any-update_where :
      (p : User → Bool) (users : List User)
      → ((u : User) → p (f u) ≡ p u)
      → any p (update_where q f users) ≡ any p users
  any-update_where p [] h = refl
  any-update_where p (u ∷ users) h = ground (arith, h u, any-update_where p users h)

  ids-update_where :
      (users : List User) → Apart same_id users → Apart same_id (update_where q f users)
  ids-update_where [] h = tt
  ids-update_where (u ∷ users) h = elim (Bool-cases (q u)) [
    | inl e ↦
        rw
          (
            e,
            any-update_where (same_id (f u)) users (λ v. rw (keeps.id u, keeps.id v) refl),
            keeps.id u,
          )
          (h.0, ids-update_where users h.1)
    | inr e ↦
        rw (e, any-update_where (same_id u) users (λ v. rw (keeps.id v) refl))
          (h.0, ids-update_where users h.1)
  ]

  names-update_where :
      (users : List User) → Apart same_name users → Apart same_name (update_where q f users)
  names-update_where [] h = tt
  names-update_where (u ∷ users) h = elim (Bool-cases (q u)) [
    | inl e ↦
        rw
          (
            e,
            any-update_where (same_name (f u)) users (λ v. rw (keeps.name u, keeps.name v) refl),
            keeps.name u,
          )
          (h.0, names-update_where users h.1)
    | inr e ↦
        rw (e, any-update_where (same_name u) users (λ v. rw (keeps.name v) refl))
          (h.0, names-update_where users h.1)
  ]

  below-update_where :
      (n : ℕ) (users : List User)
      → All (λ u. u.id < n) users
      → All (λ u. u.id < n) (update_where q f users)
  below-update_where n [] h = tt
  below-update_where n (u ∷ users) h = elim (Bool-cases (q u)) [
    | inl e ↦ rw (e, keeps.id u) (h.0, below-update_where n users h.1)
    | inr e ↦ rw e (h.0, below-update_where n users h.1)
  ]

  update_where-IsValid :
      (db : Db) (sessions : List Session)
      → IsValid db
      → IsValid (record db { users = update_where q f db.users; sessions = sessions })
  update_where-IsValid db sessions v = record {
    ids = ids-update_where db.users v.ids;
    names = names-update_where db.users v.names;
    owners = v.owners;
    tokens = v.tokens;
    users_below = below-update_where db.next_user_id db.users v.users_below;
    configs_below = v.configs_below;
  }

insert_user-IsValid :
    (username password_hash : String) (is_admin : Bool) (token : String) (now : ℕ) (db : Db)
    → IsValid db
    → IsValid (insert_user username password_hash is_admin token now db).1
unfolding insert_user
insert_user-IsValid username password_hash is_admin token now db v =
    elim (Bool-cases (any (has_username username) db.users || any (has_token token) db.configs)) [
      | inl taken ↦ rw taken v
      | inr free ↦ rw free (record {
        ids =
            Apart-append same_id db.users user v.ids
              (All-any-false _ db.users (All-imp _ _ db.users (λ u h. ground arith) v.users_below));
        names = Apart-append same_name db.users user v.names (ground arith);
        owners = Apart-append same_owner db.configs config v.owners (
            All-any-false _ db.configs
              (All-imp _ _ db.configs (λ c h. ground arith) v.configs_below));
        tokens = Apart-append same_token db.configs config v.tokens (ground arith);
        users_below =
            All-append _ db.users (user ∷ [])
              (All-imp _ _ db.users (λ u h. omega arith) v.users_below) (omega arith, tt);
        configs_below =
            All-append _ db.configs (config ∷ [])
              (All-imp _ _ db.configs (λ u h. omega arith) v.configs_below) (omega arith, tt);
      })
    ]
  where
    user : User
    user = new_user db username password_hash is_admin now

    config : Config
    config = blank_config db.next_user_id token now

insert_hashed-IsValid :
    (hashed : Option String) (name : String) (is_admin : Bool) (token : String) (now : ℕ) (db : Db)
    → IsValid db
    → IsValid (insert_hashed hashed name is_admin token now db).1
insert_hashed-IsValid none name is_admin token now db v = v
insert_hashed-IsValid (some password_hash) name is_admin token now db v =
    insert_user-IsValid name password_hash is_admin token now db v

create_user-IsValid :
    (pbkdf2 : Pbkdf2) (salt token username password : String) (is_admin : Bool) (now : ℕ) (db : Db)
    → IsValid db
    → IsValid (create_user pbkdf2 salt token username password is_admin now db).1
unfolding create_user
create_user-IsValid pbkdf2 salt token username password is_admin now db v =
    elim (Bool-cases (not (is_valid_username (strip username)))) [
      | inl e ↦ rw e v
      | inr e ↦ rw e (elim (Bool-cases (ltb (size password) 8)) [
        | inl e' ↦ rw e' v
        | inr e' ↦ rw e' (
            insert_hashed-IsValid (hash_password pbkdf2 salt password) (strip username) is_admin
              token now db v)
      ])
    ]

restore_admin-IsValid :
    (existing : User) (now : ℕ) (db : Db) → IsValid db → IsValid (restore_admin existing now db)
unfolding restore_admin
restore_admin-IsValid existing now db v = elim (Bool-cases (not existing.is_admin)) [
  | inl e ↦ rw e v
  | inr e ↦ rw e (
      update_where-IsValid (has_user_id existing.id) _ (record { id = λ u. refl; name = λ u. refl })
        db db.sessions v)
]

delete_rows-IsValid : (user_id : ℕ) (db : Db) → IsValid db → IsValid (delete_rows user_id db)
unfolding delete_rows
delete_rows-IsValid user_id db v = record {
  ids = Apart-filter same_id _ db.users v.ids;
  names = Apart-filter same_name _ db.users v.names;
  owners = Apart-filter same_owner _ db.configs v.owners;
  tokens = Apart-filter same_token _ db.configs v.tokens;
  users_below = All-filter _ _ db.users v.users_below;
  configs_below = All-filter _ _ db.configs v.configs_below;
}

set_user_enabled-IsValid :
    (user_id : ℕ) (enabled : Bool) (now : ℕ) (db : Db)
    → IsValid db
    → IsValid (set_user_enabled user_id enabled now db)
unfolding set_user_enabled
set_user_enabled-IsValid user_id enabled now db v =
    update_where-IsValid (has_user_id user_id) _ (record { id = λ u. refl; name = λ u. refl }) db _
      v

delete_regular_user-IsValid :
    (user_id : ℕ) (db : Db) → IsValid db → IsValid (delete_regular_user user_id db).1
unfolding delete_regular_user
delete_regular_user-IsValid user_id db v = elim (Option-cases (get_user_by_id user_id db)) [
  | inl e ↦ rw (e, delete_regular_user) v
  | inr (user, e) ↦
      rw (e, delete_regular_user)
        (elim (Bool-cases user.is_admin) [
          | inl e' ↦ rw e' v
          | inr e' ↦ rw e' (delete_rows-IsValid user_id db v)
        ])
]

pub outcome-db : (r : Result User × Db) → (outcome r).1 ≡ r.1
outcome-db (ok u, db) = refl
outcome-db (err e, db) = refl

ensure_admin_from_env-IsValid :
    (pbkdf2 : Pbkdf2) (salt token admin_username admin_password : String) (now : ℕ) (db : Db)
    → IsValid db
    → IsValid (ensure_admin_from_env pbkdf2 salt token admin_username admin_password now db).1
unfolding ensure_admin_from_env
ensure_admin_from_env-IsValid pbkdf2 salt token admin_username admin_password now db v =
    elim (Bool-cases (strip admin_username == "" || admin_password == "")) [
      | inl e ↦ rw e v
      | inr e ↦ rw e (elim (Bool-cases (not (is_valid_username (strip admin_username)))) [
        | inl e' ↦ rw e' v
        | inr e' ↦ rw e' (elim (Option-cases (get_user_by_username (strip admin_username) db)) [
          | inl e'' ↦
              rw (e'', outcome-db)
                (create_user-IsValid pbkdf2 salt token (strip admin_username) admin_password true
                  now db v)
          | inr (existing, e'') ↦ rw e'' (restore_admin-IsValid existing now db v)
        ])
      ])
    ]

-- One operation on the accounts, with any arguments.
pub data AccountStep (pbkdf2 : Pbkdf2) (db : Db) : Db → Type 0 where
  create :
      (salt token username password : String) (is_admin : Bool) (now : ℕ)
      → AccountStep pbkdf2 db (create_user pbkdf2 salt token username password is_admin now db).1
  ensure_admin :
      (salt token username password : String) (now : ℕ)
      → AccountStep pbkdf2 db (ensure_admin_from_env pbkdf2 salt token username password now db).1
  set_enabled :
      (user_id : ℕ) (enabled : Bool) (now : ℕ)
      → AccountStep pbkdf2 db (set_user_enabled user_id enabled now db)
  delete : (user_id : ℕ) → AccountStep pbkdf2 db (delete_regular_user user_id db).1

pub data AccountRun (pbkdf2 : Pbkdf2) (start : Db) : Db → Type 0 where
  here : AccountRun pbkdf2 start start
  next :
      {db after : Db}
      → AccountRun pbkdf2 start db
      → AccountStep pbkdf2 db after
      → AccountRun pbkdf2 start after

AccountStep-IsValid :
    {pbkdf2 : Pbkdf2} {db after : Db} → AccountStep pbkdf2 db after → IsValid db → IsValid after
AccountStep-IsValid {pbkdf2} {db} (create salt token username password is_admin now) v =
    create_user-IsValid pbkdf2 salt token username password is_admin now db v
AccountStep-IsValid {pbkdf2} {db} (ensure_admin salt token username password now) v =
    ensure_admin_from_env-IsValid pbkdf2 salt token username password now db v
AccountStep-IsValid {pbkdf2} {db} (set_enabled user_id enabled now) v =
    set_user_enabled-IsValid user_id enabled now db v
AccountStep-IsValid {pbkdf2} {db} (delete user_id) v = delete_regular_user-IsValid user_id db v

-- Whatever accounts are made, enabled, disabled and deleted, in any order and with any failures,
-- the tables stay valid: no two users have one id or names that differ by case only, no two
-- configurations have one owner or one token, and no id is used that is yet to be given.
pub AccountRun-IsValid :
    {pbkdf2 : Pbkdf2} {start after : Db}
    → AccountRun pbkdf2 start after
    → IsValid start
    → IsValid after
AccountRun-IsValid here v = v
AccountRun-IsValid (next run step) v = AccountStep-IsValid step (AccountRun-IsValid run v)
