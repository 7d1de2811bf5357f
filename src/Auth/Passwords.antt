-- ===== src/Auth/Passwords.antt =====
-- Stored passwords and what verifying amounts to.
use clash_config_gen.Prelude.{
  String, ◌<>◌, ◌≡◌, refl, ap, ◌∙◌, inl, inr, true, some, List, [], ◌∷◌, arith, ◌==◌, Bool-cases,
}
use clash_config_gen.Prelude.Text.{
  split_at_most, split_at_most_from, split_at_most_from-append, split_at_most_from-zero, lacks,
}
use mathlib.Core.Option.{some-injective}
use clash_config_gen.Auth.{Pbkdf2, hash_password, verify_password, password_iterations}

split-stored :
    (salt digest : String)
    → lacks b'$' salt ≡ true
    → split_at_most 3 b'$' ("pbkdf2_sha256$260000$" <> (salt <> ("$" <> digest)))
      ≡ "pbkdf2_sha256" ∷ "260000" ∷ salt ∷ digest ∷ []
unfolding split_at_most split_at_most_from ◌<>◌
split-stored salt digest h =
    ap (λ (l : List String). "pbkdf2_sha256" ∷ "260000" ∷ l)
      (split_at_most_from-append 0 b'$' "" salt ("$" <> digest) h
        ∙ ap (λ (l : List String). salt ∷ l) (split_at_most_from-zero b'$' digest))

-- A password's stored hash verifies exactly the passwords whose digest under its salt is the same; a
-- salt of hexadecimal digits, as `secrets.token_hex` makes it, has no `$`.
pub verify_password-hash_password :
    (pbkdf2 : Pbkdf2) (salt password attempt stored : String)
    → lacks b'$' salt ≡ true
    → hash_password pbkdf2 salt password ≡ some stored
    → verify_password pbkdf2 attempt stored
      ≡ (pbkdf2 attempt salt password_iterations == pbkdf2 password salt password_iterations)
unfolding hash_password verify_password
verify_password-hash_password pbkdf2 salt password attempt stored h e =
    elim (Bool-cases (password == "")) [
      | inl empty ↦ absurd (ground arith)
      | inr given ↦
          let same : "pbkdf2_sha256$260000$"
                <> (salt <> ("$" <> pbkdf2 password salt password_iterations))
              ≡ stored =
            some-injective _ _ (rw given at e) in
          rw (← same, split-stored salt (pbkdf2 password salt password_iterations) h) refl
    ]
