-- ===== src/Tests/CsrfRuns.antt =====
-- A CSRF token of one session.
use clash_config_gen.Prelude.{
  ◌+◌, ◌%◌, ◌≤◌, String, ◌≡◌, refl, true, Option, none, some, arith, ◌==◌, if◌then◌else◌,
}
use Prim.Native.Char.{Char}
use clash_config_gen.Prelude.Int.{int_of_text, text_of_int}
use clash_config_gen.Prelude.Text.{split, lacks, all_chars, rstrip, size}
use clash_config_gen.Csrf.{is_ascii_char, is_equals, padded}
use clash_config_gen.Csrf.Issued.{validate_csrf_token-create_csrf_token}
use clash_config_gen.Csrf.{
  csrf_secret, compare_digest, csrf_payload, csrf_parts, create_csrf_token, validate_csrf_token,
}
use clash_config_gen.Csrf.Binding.{Accepted, validate_csrf_token_lem, validate_csrf_token_unique}

-- A signature that is a text without colons.
abbrev sign : String → String → String
sign secret payload = if payload == "logout:90:n:s1" then "a1" else "b2"

-- An encoding in groups of four characters: one for each character of the text, and a last one with two signs =.
unfoldable spread : String → String
spread String.[] = "aa=="
spread (String.◌∷◌ c s) = String.◌∷◌ c (String.◌∷◌ "a" (String.◌∷◌ "a" (String.◌∷◌ "a" (spread s))))

abbrev prepended : Char → Option String → Option String
prepended c none = none
prepended c (some s) = some (String.◌∷◌ c s)

unfoldable gather : String → Option String
gather (String.◌∷◌ c (String.◌∷◌ _ (String.◌∷◌ third (String.◌∷◌ _ s)))) =
    let rest = gather s in if is_equals third then some "" else prepended c rest
gather _ = none

gather-spread : (s : String) → gather (spread s) ≡ some s
unfolding gather spread
gather-spread String.[] = refl
gather-spread (String.◌∷◌ c s) = rw (gather-spread s) refl

-- A spread text without its signs =.
unfoldable unsigned : String → String
unsigned String.[] = "aa"
unsigned (String.◌∷◌ c s) =
    String.◌∷◌ c (String.◌∷◌ "a" (String.◌∷◌ "a" (String.◌∷◌ "a" (unsigned s))))

rstrip-spread : (s : String) → rstrip is_equals (spread s) ≡ unsigned s
unfolding rstrip spread unsigned
rstrip-spread String.[] = refl
rstrip-spread (String.◌∷◌ c s) = rw (rstrip-spread s) (ground arith)

size-unsigned : (s : String) → size (spread s) ≡ size (unsigned s) + 2
unfolding size spread unsigned
size-unsigned String.[] = refl
size-unsigned (String.◌∷◌ c s) = omega (arith, size-unsigned s)

spread-whole : (s : String) → size (spread s) % 4 ≡ 0
unfolding size spread
spread-whole String.[] = refl
spread-whole (String.◌∷◌ c s) = omega (arith, spread-whole s)

spread-few : (s : String) → size (spread s) ≤ size (rstrip is_equals (spread s)) + 2
spread-few s = rw (rstrip-spread s) (omega (arith, size-unsigned s))

abbrev secret_text : String
secret_text = "0123456789abcdef0123456789abcdef"

abbrev token : String
token = unsigned "logout:90:n:s1:a1"

created : create_csrf_token sign spread gather secret_text "logout" 90 "n" "s1" ≡ some token
unfolding create_csrf_token csrf_payload csrf_secret text_of_int rstrip spread unsigned
created = refl

token_accepted :
    validate_csrf_token sign spread gather secret_text token "logout" 100 3600 "s1" ≡ true
unfolding validate_csrf_token csrf_parts csrf_payload csrf_secret compare_digest int_of_text split
    text_of_int padded gather unsigned size
token_accepted = refl

validate_csrf_token_lem_example :
    Accepted sign spread gather secret_text token "logout" 100 3600 "s1"
validate_csrf_token_lem_example =
    validate_csrf_token_lem sign spread gather secret_text token "logout" 100 3600 "s1"
      token_accepted

abbrev logout : String
logout = "logout"

abbrev session : String
session = "s1"

validate_csrf_token_unique_example : (logout ≡ logout) × (session ≡ session)
validate_csrf_token_unique_example =
    validate_csrf_token_unique sign spread gather secret_text token "logout" "logout" 100 100 3600
      3600 "s1" "s1" token_accepted token_accepted

-- A digest that is a text without colons.
abbrev digest : String → String → String
digest key message = "a1"

digest-lacks :
    (key message : String)
    → (lacks b':' (digest key message) ≡ true)
      × (all_chars is_ascii_char (digest key message) ≡ true)
unfolding lacks all_chars
digest-lacks key message = (refl, refl)

issued : create_csrf_token digest spread gather secret_text "logout" 90 "n" "s1" ≡ some token
unfolding create_csrf_token csrf_payload csrf_secret text_of_int rstrip spread unsigned
issued = refl

validate_csrf_token-create_csrf_token_example :
    validate_csrf_token digest spread gather secret_text token "logout" 100 3600 "s1" ≡ true
unfolding lacks all_chars
validate_csrf_token-create_csrf_token_example =
    validate_csrf_token-create_csrf_token digest spread gather secret_text gather-spread
      spread-whole spread-few digest-lacks "logout" "n" "s1" token 90 100 3600 refl refl refl refl
      refl (omega arith) (omega arith) issued
