-- ===== src/Storage/Sessions/Validity.antt =====
-- Which tokens stand for which users.
use clash_config_gen.Prelude.{
  ℕ, ◌+◌, String, ◌≡◌, refl, sym, ◌∙◌, ◌≢◌, inl, inr, Bool, true, false, ◌&&◌, Option, none, some,
  List, [], ◌∷◌, ◌++◌, arith, ◌==◌, eq_iff, eq_refl, ltb, leb, if◌then◌else◌, Bool-cases,
  Option-cases, any, all, find, All,
}
use clash_config_gen.Storage.{
  User, Session, Db, ok, update_where, delete_where, has_user_id, get_user_by_id, is_unrevoked,
  owns_session,
}
use clash_config_gen.Storage.Users.{revoke, set_user_enabled}
use clash_config_gen.Storage.Sessions.{
  has_hash, cleaned_recently, delete_expired_auth_sessions, session_seconds, is_usable,
  enabled_only, new_session, joined, create_auth_session, is_live, session_row,
  get_user_by_auth_session, revoke_auth_session,
}

find-delete_where {ℓ} :
    {A : Type ℓ} (p dead : A → Bool) (xs : List A)
    → ((a : A) → dead a ≡ true → p a ≡ false)
    → find p (delete_where dead xs) ≡ find p xs
find-delete_where p dead [] h = refl
find-delete_where p dead (x ∷ xs) h = ground (arith, h x, find-delete_where p dead xs h)

find-update_where-none {ℓ} :
    {A : Type ℓ} (p q : A → Bool) (f : A → A) (xs : List A)
    → ((a : A) → q a ≡ true → p (f a) ≡ false)
    → ((a : A) → q a ≡ false → p a ≡ false)
    → find p (update_where q f xs) ≡ none
find-update_where-none p q f [] h k = refl
find-update_where-none p q f (x ∷ xs) h k =
    ground (arith, h x, k x, find-update_where-none p q f xs h k)

find-update_where_other {ℓ} :
    {A : Type ℓ} (p q : A → Bool) (f : A → A) (xs : List A)
    → ((a : A) → q a ≡ true → (p a ≡ false) × (p (f a) ≡ false))
    → find p (update_where q f xs) ≡ find p xs
find-update_where_other p q f [] h = refl
find-update_where_other p q f (x ∷ xs) h = ground (arith, h x, find-update_where_other p q f xs h)

find-none_append {ℓ} :
    {A : Type ℓ} (p : A → Bool) (xs : List A) (x : A)
    → any p xs ≡ false
    → find p (xs ++ x ∷ []) ≡ (if p x then some x else none)
find-none_append p [] x h = refl
find-none_append p (y ∷ xs) x h = ground (arith, find-none_append p xs x)

any-weaken {ℓ} :
    {A : Type ℓ} (p q : A → Bool) (xs : List A)
    → ((a : A) → p a ≡ true → q a ≡ true)
    → any q xs ≡ false
    → any p xs ≡ false
any-weaken p q [] h k = refl
any-weaken p q (x ∷ xs) h k = ground (arith, h x, any-weaken p q xs h)

find-All {ℓ} :
    {A : Type ℓ} (P : A → Type 0) (p : A → Bool) (xs : List A) (x : A)
    → All P xs
    → find p xs ≡ some x
    → P x × (p x ≡ true)
find-All P p [] x h e = cc
find-All P p (y ∷ xs) x h e = elim (Bool-cases (p y)) [
  | inl t ↦ let same : y ≡ x = ground (arith, e) in rw (← same) (h.0, t)
  | inr t ↦ find-All P p xs x h.1 (ground (arith, e))
]

abbrev AllRevoked : ℕ → List Session → Type 0
AllRevoked user_id = All (λ s. (owns_session user_id s && is_unrevoked s) ≡ false)

AllRevoked-revoke :
    (user_id now : ℕ) (sessions : List Session)
    → AllRevoked user_id
        (update_where (λ s. owns_session user_id s && is_unrevoked s) (revoke now) sessions)
AllRevoked-revoke user_id now [] = tt
AllRevoked-revoke user_id now (s ∷ sessions) =
    (ground arith, AllRevoked-revoke user_id now sessions)

module _ (hash_token : String → String) where
  not-is_live_expired :
      (token : String) (now : ℕ) (s : Session)
      → leb s.expires_at now ≡ true
      → is_live hash_token token now s ≡ false
  not-is_live_expired token now s h = ground arith

  session_row-cleaned :
      (token : String) (monotonic_now now : ℕ) (db : Db)
      → session_row hash_token token now (delete_expired_auth_sessions false monotonic_now now db)
        ≡ session_row hash_token token now db
  unfolding session_row delete_expired_auth_sessions
  session_row-cleaned token monotonic_now now db =
      elim (Bool-cases (cleaned_recently monotonic_now db.cleanup_last_run)) [
        | inl e ↦ rw e refl
        | inr e ↦
            rw
              (
                e,
                find-delete_where (is_live hash_token token now) (λ s. leb s.expires_at now)
                    db.sessions (λ s h. not-is_live_expired token now s h),
              )
              refl
      ]

  abbrev pub user_of : Option (User × Session) → Option User
  user_of none = none
  user_of (some (u, _)) = some u

  -- The answer for a token is what the live sessions say, whether or not this call cleaned up.
  pub get_user_by_auth_session_lem :
      (token : String) (monotonic_now now : ℕ) (db : Db)
      → (get_user_by_auth_session hash_token token monotonic_now now db).0
        ≡ (if token == "" then none else user_of (session_row hash_token token now db))
  unfolding get_user_by_auth_session
  get_user_by_auth_session_lem token monotonic_now now db =
      rw (session_row-cleaned token monotonic_now now db) (ground arith)

  -- A new session's token stands for its user until the expiry, and for nobody from then on.
  pub get_user_by_auth_session-create_auth_session :
      (user_id days : ℕ) (token : String) (now : ℕ) (db after : Db) (monotonic_now later : ℕ)
      → (token == "") ≡ false
      → create_auth_session hash_token user_id days token now db ≡ (ok token, after)
      → (get_user_by_auth_session hash_token token monotonic_now later after).0
        ≡ (if ltb later (now + session_seconds days) then get_user_by_id user_id db else none)
  unfolding create_auth_session session_row get_user_by_id
  get_user_by_auth_session-create_auth_session user_id days token now db after monotonic_now later
        given h =
      elim (Bool-cases (is_usable (get_user_by_id user_id db))) [
        | inl usable ↦ elim (Bool-cases (any (has_hash (hash_token token)) fresh)) [
          | inl taken ↦ absurd (ground (arith, h, usable, taken))
          | inr free ↦
              let same : after ≡ record db {
                sessions = fresh ++ new_session hash_token user_id days token now ∷ [];
              } =
                ground (arith, h, usable, free) in
              get_user_by_auth_session_lem token monotonic_now later after
              ∙ rw
                  (
                    given,
                    same,
                    session_row,
                    find-none_append (is_live hash_token token later) fresh
                        (new_session hash_token user_id days token now)
                        (any-weaken (is_live hash_token token later) (has_hash (hash_token token))
                          fresh (λ s e. ground arith) free),
                    eq_refl,
                  )
                  (ground (arith, usable))
        ]
        | inr unusable ↦ absurd (ground (arith, h, unusable))
      ]
    where
      fresh : List Session
      fresh = delete_where (λ s. leb s.expires_at now) db.sessions

  -- A revoked token stands for nobody, at any time.
  pub get_user_by_auth_session-revoke_auth_session :
      (token : String) (now monotonic_now later : ℕ) (db : Db)
      → (get_user_by_auth_session hash_token token monotonic_now later
          (revoke_auth_session hash_token token now db)).0
        ≡ none
  unfolding revoke_auth_session session_row
  get_user_by_auth_session-revoke_auth_session token now monotonic_now later db =
      elim (Bool-cases (token == "")) [
        | inl e ↦ rw e (get_user_by_auth_session_lem token monotonic_now later db ∙ rw e refl)
        | inr e ↦
            get_user_by_auth_session_lem token monotonic_now later _
            ∙ rw
                (
                  e,
                  find-update_where-none (is_live hash_token token later)
                      (λ s. has_hash (hash_token token) s && is_unrevoked s) (revoke now)
                      db.sessions (λ s h. ground arith) (λ s h. ground arith),
                )
                refl
      ]

  -- Revoking one token changes the answer for no other.
  pub get_user_by_auth_session-revoke_other :
      (token other : String) (now monotonic_now later : ℕ) (db : Db)
      → hash_token other ≢ hash_token token
      → (get_user_by_auth_session hash_token other monotonic_now later
          (revoke_auth_session hash_token token now db)).0
        ≡ (get_user_by_auth_session hash_token other monotonic_now later db).0
  unfolding revoke_auth_session session_row
  get_user_by_auth_session-revoke_other token other now monotonic_now later db ne =
      get_user_by_auth_session_lem other monotonic_now later _
      ∙ rw same refl
      ∙ sym (get_user_by_auth_session_lem other monotonic_now later db)
    where
      same :
          session_row hash_token other later (revoke_auth_session hash_token token now db)
          ≡ session_row hash_token other later db
      same = elim (Bool-cases (token == "")) [
        | inl e ↦ rw e refl
        | inr e ↦
            rw
              (
                e,
                find-update_where_other (is_live hash_token other later)
                    (λ s. has_hash (hash_token token) s && is_unrevoked s) (revoke now) db.sessions
                    (λ s h. ground (
                      arith,
                      eq_iff s.token_hash (hash_token token),
                      eq_iff s.token_hash (hash_token other),
                    )),
              )
              refl
      ]

  session_row-AllRevoked :
      (token : String) (later user_id : ℕ) (db : Db) (u : User)
      → AllRevoked user_id db.sessions
      → user_of (session_row hash_token token later db) ≡ some u
      → u.id ≢ user_id
  unfolding session_row
  session_row-AllRevoked token later user_id db u all e =
      elim (Option-cases (find (is_live hash_token token later) db.sessions)) [
        | inl nobody ↦ absurd (nothing (rw nobody at e))
        | inr (s, live) ↦
            let fact : ((owns_session user_id s && is_unrevoked s) ≡ false)
                × (is_live hash_token token later s ≡ true) =
              find-All _ (is_live hash_token token later) db.sessions s all live in
            owner s fact.0 fact.1 (rw live at e)
      ]
    where
      nothing : none ≡ some u → ⊥
      nothing h = cc

      owner :
          (s : Session)
          → (owns_session user_id s && is_unrevoked s) ≡ false
          → is_live hash_token token later s ≡ true
          → user_of (joined db.users (some s)) ≡ some u
          → u.id ≢ user_id
      owner s own live h = elim (Option-cases (find (has_user_id s.user_id) db.users)) [
        | inl missing ↦ absurd (nothing (rw missing at h))
        | inr (v, found) ↦
            let is : Unit {0} × (has_user_id s.user_id v ≡ true) =
              find-All (λ _. Unit {0}) (has_user_id s.user_id) db.users v (all_unit db.users)
                found in
            same v (is.1) (rw found at h)
      ]
        where
          all_unit : (users : List User) → All (λ _. Unit {0}) users
          all_unit [] = tt
          all_unit (x ∷ users) = (tt, all_unit users)

          same :
              (v : User)
              → has_user_id s.user_id v ≡ true
              → user_of (enabled_only s (some v)) ≡ some u
              → u.id ≢ user_id
          same v is h = ground (arith, own, live)

  -- Disabling an account ends every session that it had, for good: enabling it again brings none back.
  pub get_user_by_auth_session-set_user_enabled :
      (user_id now again : ℕ) (enabled : Bool) (token : String) (monotonic_now later : ℕ) (db : Db)
      (u : User)
      → (get_user_by_auth_session hash_token token monotonic_now later
          (set_user_enabled user_id enabled again (set_user_enabled user_id false now db))).0
        ≡ some u
      → u.id ≢ user_id
  unfolding set_user_enabled
  get_user_by_auth_session-set_user_enabled user_id now again enabled token monotonic_now later db u
        e =
      elim (Bool-cases (token == "")) [
        | inl empty ↦ absurd (ground (arith, answer, e, empty))
        | inr given ↦
            session_row-AllRevoked token later user_id last u revoked (sym (rw given at answer) ∙ e)
      ]
    where
      last : Db
      last = set_user_enabled user_id enabled again (set_user_enabled user_id false now db)

      answer :
          (get_user_by_auth_session hash_token token monotonic_now later last).0
          ≡ (if token == "" then none else user_of (session_row hash_token token later last))
      answer = get_user_by_auth_session_lem token monotonic_now later last

      revoked : AllRevoked user_id last.sessions
      revoked = elim (Bool-cases enabled) [
        | inl on ↦ rw on (AllRevoked-revoke user_id now db.sessions)
        | inr off ↦ rw off (AllRevoked-revoke user_id again _)
      ]
