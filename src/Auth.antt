-- ===== src/Auth.antt =====
-- src/auth.py. PBKDF2 and the random salt are arguments.
pub mod Passwords
use clash_config_gen.Prelude.{
  ℕ, zero, suc, ◌+◌, ◌-◌, ◌*◌, ◌/◌, ◌%◌, ◌≤◌, ◌<◌, String, ◌<>◌, ◌≡◌, refl, sym, ap, ◌∙◌, ◌≢◌, ◌↔◌,
  ◌⊎◌, inl, inr, Bool, true, false, not, ◌&&◌, ◌||◌, Option, none, some, List, [], ◌∷◌, ◌++◌, map,
  arith, ◌==◌, eq_iff, eq_refl, ltb, leb, eqb, if◌then◌else◌, ltb→lt, lt→ltb, leb→le, le→leb,
  eqb_iff, Bool-cases, Option-cases, length, filter, count, any, all, find, length-append,
  filter-append, count-append, count-le-length, any-append, All, All-append,
}
use Prim.Native.Char.{Char, code}
use Prim.Native.String
use clash_config_gen.Prelude.Dict.{contains}
use clash_config_gen.Prelude.Int.{ℤ, pos, negsuc, int_of_text}
use clash_config_gen.Prelude.Text.{strip, lower, is_digit, all_chars, size, split_at_most}

unfoldable pub is_username_char : Char → Bool
unfolding is_digit
is_username_char c =
    is_digit c
    || (leb 65 (code c) && leb (code c) 90)
    || (leb 97 (code c) && leb (code c) 122)
    || eqb (code c) b'_'
    || eqb (code c) b'.'
    || eqb (code c) b'-'

-- `USERNAME_PATTERN.fullmatch(username.strip())`
unfoldable pub is_valid_username : String → Bool
unfolding is_username_char strip all_chars size
is_valid_username username =
    let name = strip username in
    leb 3 (size name) && leb (size name) 32 && all_chars is_username_char name

-- `get_bool_env`, of the variable's value.
unfoldable pub get_bool_env : Option String → Bool → Bool
unfolding contains lower strip
get_bool_env none default = default
get_bool_env (some value) default =
    contains ("1" ∷ "true" ∷ "yes" ∷ "on" ∷ []) (lower (strip value))

-- `hashlib.pbkdf2_hmac("sha256", password, salt, iterations).hex()`
abbrev pub Pbkdf2 : Type 0
Pbkdf2 = String → String → ℕ → String

abbrev pub password_iterations : ℕ
password_iterations = 260000

-- `none` is the ValueError of an empty password.
unfoldable pub hash_password : Pbkdf2 → String → String → Option String
unfolding ◌<>◌
hash_password pbkdf2 salt password =
    if password == ""
    then none
    else some
        ("pbkdf2_sha256$260000$" <> (salt <> ("$" <> pbkdf2 password salt password_iterations)))

-- The comparison after the split; any other number of parts is a ValueError, and so is a text that is
-- no number. PBKDF2 raises for a count below 1.
check_parts : Pbkdf2 → String → List String → Bool
unfolding int_of_text
check_parts pbkdf2 password (algorithm ∷ iterations ∷ salt ∷ expected ∷ []) =
    if algorithm == "pbkdf2_sha256"
    then elim (int_of_text iterations) [
      | none ↦ false
      | some n ↦ elim n [ pos k ↦ leb 1 k && pbkdf2 password salt k == expected | negsuc k ↦ false ]
    ]
    else false
check_parts pbkdf2 password _ = false

unfoldable pub verify_password : Pbkdf2 → String → String → Bool
unfolding check_parts split_at_most
verify_password pbkdf2 password stored_hash =
    check_parts pbkdf2 password (split_at_most 3 b'$' stored_hash)
