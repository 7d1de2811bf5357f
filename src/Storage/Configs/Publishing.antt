-- ===== src/Storage/Configs/Publishing.antt =====
-- What a subscriber gets, by the token of the subscription.
use clash_config_gen.Prelude.{
  ℕ, String, ◌≡◌, refl, ◌∙◌, ◌⊎◌, inl, inr, true, false, ◌||◌, Option, none, some, [], ◌∷◌, ◌++◌,
  arith, ◌==◌, eqb, if◌then◌else◌, Bool-cases, Option-cases, any, find,
}
use clash_config_gen.Prelude.Apart.{find-All, any-false-All}
use clash_config_gen.Storage.{
  User, Draft, Validation, Config, Db, Error, integrity_error, Result, ok, err, get_user_by_id,
  owns_config,
}
use clash_config_gen.Prelude.Text.{truncate}
use clash_config_gen.Storage.Rows.{find-update_where_keeps, find-some_append}
use clash_config_gen.Storage.Users.{blank_config, has_token}
use clash_config_gen.Storage.Configs.{
  insert_config, insert_or_ignore, ensure_user_config, validation_of, set_draft, set_published,
  write_config, with_row, save_user_draft, save_user_config_atomic, get_config_by_token, owned_by,
  joined_config,
}

-- What the join tells of a row that is served.
pub record Serves (token : String) (db : Db) (c : Config) (u : User) : Type 0 where
  pub row : find (has_token token) db.configs ≡ some c
  pub owner : get_user_by_id c.user_id db ≡ some u
  pub enabled : u.is_enabled ≡ true

owned_by-some :
    (c d : Config) (o : Option User) (u : User)
    → owned_by c o ≡ some (d, u)
    → (c ≡ d) × (o ≡ some u) × (u.is_enabled ≡ true)
owned_by-some c d none u h = cc
owned_by-some c d (some v) u h = ground (arith, h)

joined_config-some :
    (db : Db) (o : Option Config) (c : Config) (u : User)
    → joined_config db o ≡ some (c, u)
    → (o ≡ some c) × (get_user_by_id c.user_id db ≡ some u) × (u.is_enabled ≡ true)
joined_config-some db none c u h = cc
joined_config-some db (some d) c u h =
    let (same, owner, enabled) = owned_by-some d c (get_user_by_id d.user_id db) u h in
    (rw same refl, (rw same at owner), enabled)

pub served :
    (token : String) (db : Db) (c : Config) (u : User)
    → get_config_by_token token db ≡ some (c, u)
    → Serves token db c u
unfolding get_config_by_token
served token db c u h =
    let (row, owner, enabled) = joined_config-some db (find (has_token token) db.configs) c u h in
    record { row = row; owner = owner; enabled = enabled }

pub serves :
    (token : String) (db : Db) (c : Config) (u : User)
    → Serves token db c u
    → get_config_by_token token db ≡ some (c, u)
unfolding get_config_by_token
serves token db c u s = rw (s.row) (rw (s.owner) (rw (s.enabled) refl))

-- What an operation that ensures a row comes to: a failure for a user without a row, the table as it
-- was, or one new row at the end.
abbrev Ensured : ℕ → String → ℕ → Db → Result Db → Type 0
Ensured user_id token now db r =
    (((e : Error) × (r ≡ err e)) × (any (owns_config user_id) db.configs ≡ false))
    ⊎ (r ≡ ok db)
    ⊎ (r ≡ ok (record db { configs = db.configs ++ blank_config user_id token now ∷ [] }))

insert_or_ignore-Ensured :
    (user_id : ℕ) (token : String) (now : ℕ) (db : Db)
    → Ensured user_id token now db (insert_or_ignore user_id token now db)
unfolding insert_or_ignore
insert_or_ignore-Ensured user_id token now db =
    elim (Bool-cases (any (owns_config user_id) db.configs || any (has_token token) db.configs)) [
      | inl e ↦ elim (Option-cases (get_user_by_id user_id db)) [
        | inl e' ↦ rw (e', insert_or_ignore) (rw e (inr (inl refl)))
        | inr (u, e') ↦ rw (e', insert_or_ignore) (rw e (inr (inl refl)))
      ]
      | inr e ↦ elim (Option-cases (get_user_by_id user_id db)) [
        | inl e' ↦ rw (e', insert_or_ignore) (rw e (inl ((integrity_error, refl), ground arith)))
        | inr (u, e') ↦ rw (e', insert_or_ignore) (rw e (inr (inr refl)))
      ]
    ]

ensure_user_config-Ensured :
    (user_id : ℕ) (token : String) (now : ℕ) (db : Db)
    → Ensured user_id token now db (ensure_user_config user_id token now db)
unfolding ensure_user_config
ensure_user_config-Ensured user_id token now db =
    elim (Bool-cases (any (owns_config user_id) db.configs)) [
      | inl owned ↦ rw owned (inr (inl refl))
      | inr unowned ↦ rw unowned (elim (Option-cases (get_user_by_id user_id db)) [
        | inl e ↦ rw (e, insert_config) (inl ((integrity_error, refl), refl))
        | inr (u, e) ↦
            rw (e, insert_config)
              (rw unowned (elim (Bool-cases (any (has_token token) db.configs)) [
                | inl taken ↦ rw taken (inl ((integrity_error, refl), refl))
                | inr free ↦ rw free (inr (inr refl))
              ]))
      ])
    ]

-- An UPDATE that changes neither owner nor token.
record Keeps (f : Config → Config) : Type 0 where
  owner : (c : Config) → (f c).user_id ≡ c.user_id
  token : (c : Config) → (f c).token ≡ c.token

Serves-write_config :
    (user_id : ℕ) (f : Config → Config) (t : String) (db : Db) (c : Config) (u : User)
    → Keeps f
    → Serves t db c u
    → Serves t (write_config user_id f db) (if eqb c.user_id user_id then f c else c) u
unfolding write_config get_user_by_id
Serves-write_config user_id f t db c u k s = elim (Bool-cases (eqb c.user_id user_id)) [
  | inl own ↦ rw own (record {
    row =
        (find-update_where_keeps (has_token t) (owns_config user_id) f db.configs c
          (λ d. rw (k.token d) refl) s.row)
        ∙ (rw own refl);
    owner = rw (k.owner c) s.owner;
    enabled = s.enabled;
  })
  | inr other ↦ rw other (record {
    row =
        (find-update_where_keeps (has_token t) (owns_config user_id) f db.configs c
          (λ d. rw (k.token d) refl) s.row)
        ∙ (rw other refl);
    owner = s.owner;
    enabled = s.enabled;
  })
]

Serves-append :
    (x : Config) (t : String) (db : Db) (c : Config) (u : User)
    → Serves t db c u
    → Serves t (record db { configs = db.configs ++ x ∷ [] }) c u
unfolding get_user_by_id
Serves-append x t db c u s = record {
  row = find-some_append (has_token t) db.configs (x ∷ []) c s.row;
  owner = s.owner;
  enabled = s.enabled;
}

-- A user without a row owns none that is served.
not_owner :
    (user_id : ℕ) (t : String) (db : Db) (c : Config) (u : User)
    → any (owns_config user_id) db.configs ≡ false
    → Serves t db c u
    → eqb c.user_id user_id ≡ false
not_owner user_id t db c u none_owned s =
    (find-All (λ d. owns_config user_id d ≡ false) (has_token t) db.configs c
      (any-false-All (owns_config user_id) db.configs none_owned) s.row).0

Serves-with_row :
    (user_id : ℕ) (token : String) (now : ℕ) (f : Config → Config) (db : Db) (r : Result Db)
    (t : String) (c : Config) (u : User)
    → Keeps f
    → Ensured user_id token now db r
    → Serves t db c u
    → Serves t
        (with_row (write_config user_id f) r db).1
        (if eqb c.user_id user_id then f c else c)
        u
Serves-with_row user_id token now f db r t c u k (inl ((e, is), none_owned)) s =
    rw (is, not_owner user_id t db c u none_owned s) s
Serves-with_row user_id token now f db r t c u k (inr (inl is)) s =
    rw is (Serves-write_config user_id f t db c u k s)
Serves-with_row user_id token now f db r t c u k (inr (inr is)) s = rw is (
    Serves-write_config user_id f t _ c u k
      (Serves-append (blank_config user_id token now) t db c u s))

-- Saving a draft changes no subscription: every token that is served goes on being served, to the
-- same user, with the same published text, time and validation. The user's own row gets the draft.
pub save_user_draft-get_config_by_token :
    {Inputs : Type 0} (encode : Inputs → Draft) (user_id : ℕ) (inputs : Inputs)
    (status message fresh : String) (now : ℕ) (db : Db) (t : String) (c : Config) (u : User)
    → get_config_by_token t db ≡ some (c, u)
    → let after = (save_user_draft encode user_id inputs status message fresh now db).1 in
      (d : Config) × (get_config_by_token t after ≡ some (d, u))
      × (d.final_yaml ≡ c.final_yaml)
      × (d.published_at ≡ c.published_at)
      × (d.validation ≡ c.validation)
      × (d.draft ≡ (if eqb c.user_id user_id then encode inputs else c.draft))
unfolding save_user_draft
save_user_draft-get_config_by_token encode user_id inputs status message fresh now db t c u h =
    let now_served = serves t _ _ u (
      Serves-with_row user_id fresh now
        (set_draft (encode inputs) (validation_of status message now) now) db _ t c u
        (record { owner = λ d. refl; token = λ d. refl })
        (insert_or_ignore-Ensured user_id fresh now db) (served t db c u h)) in
    elim (Bool-cases (eqb c.user_id user_id)) [
      | inl own ↦ rw own (_, (rw own at now_served), refl, refl, refl, refl)
      | inr other ↦ rw other (_, (rw other at now_served), refl, refl, refl, refl)
    ]

-- Publishing for a user makes that user's own token serve exactly the published text, with the draft that it was made
-- from, the time and the validation, whose message is cut at 2000 characters; and every other user's token goes
-- on serving every column as it was.
pub save_user_config_atomic-get_config_by_token :
    {Inputs : Type 0} (encode : Inputs → Draft) (user_id : ℕ) (inputs : Inputs)
    (final_yaml status message fresh : String) (now : ℕ) (db : Db) (t : String) (c : Config)
    (u : User)
    → get_config_by_token t db ≡ some (c, u)
    → let after =
        (save_user_config_atomic encode user_id inputs final_yaml status message fresh now db).1 in
      let own = eqb c.user_id user_id in
      let verdict : Validation = record {
        status = status;
        message = truncate 2000 message;
        validated_at = if status == "unknown" then none else some now;
      } in
      get_config_by_token t after
      ≡ some (
        record {
          user_id = c.user_id;
          token = c.token;
          draft = if own then encode inputs else c.draft;
          final_yaml = if own then final_yaml else c.final_yaml;
          validation = if own then verdict else c.validation;
          draft_validation = if own then verdict else c.draft_validation;
          published_at = if own then some now else c.published_at;
          created_at = c.created_at;
          updated_at = if own then now else c.updated_at;
        },
        u,
      )
unfolding save_user_config_atomic
save_user_config_atomic-get_config_by_token encode user_id inputs final_yaml status message fresh
      now db t c u h =
    let now_served = serves t _ _ u (
      Serves-with_row user_id fresh now
        (set_published (encode inputs) final_yaml (validation_of status message now) now) db _ t c u
        (record { owner = λ d. refl; token = λ d. refl })
        (ensure_user_config-Ensured user_id fresh now db) (served t db c u h)) in
    elim (Bool-cases (eqb c.user_id user_id)) [
      | inl own ↦ rw own (rw own at now_served)
      | inr other ↦ rw other (rw other at now_served)
    ]
