-- ===== src/Csrf.antt =====
-- The CSRF tokens of src/security.py. HMAC-SHA256 in hexadecimal and URL-safe Base64 of UTF-8 are parameters: `encode`
-- gives the text with its signs =, and `decode`, which fails on a text that is no encoding, reads such a text. Tokens
-- are without these signs.
pub mod Binding
pub mod Issued
use clash_config_gen.Prelude.{
  ℕ, zero, suc, ◌+◌, ◌-◌, ◌*◌, ◌/◌, ◌%◌, ◌≤◌, ◌<◌, String, ◌<>◌, ◌≡◌, refl, sym, ap, ◌∙◌, ◌≢◌, ◌↔◌,
  ◌⊎◌, inl, inr, Bool, true, false, not, ◌&&◌, ◌||◌, Option, none, some, List, [], ◌∷◌, ◌++◌, map,
  arith, ◌==◌, eq_iff, eq_refl, ltb, leb, eqb, if◌then◌else◌, ltb→lt, lt→ltb, leb→le, le→leb,
  eqb_iff, Bool-cases, Option-cases, length, filter, count, any, all, find, length-append,
  filter-append, count-append, count-le-length, any-append, All, All-append,
}
use Prim.Native.Char.{Char, code}
use Prim.Native.Nat.{max}
use Prim.Native.String
use clash_config_gen.Prelude.Int.{ℤ, pos, negsuc, int_of_text, text_of_int}
use clash_config_gen.Prelude.Text.{
  lower, contains_text, split, size, nth, all_chars, truncate, rstrip,
}

abbrev pub has_placeholder : String → Bool
has_placeholder lowered =
    contains_text "change-me" lowered
    || (contains_text "change-this" lowered || contains_text "replace-with" lowered)

-- `_csrf_secret`, of the variable's value; `none` is the RuntimeError.
unfoldable pub csrf_secret : String → Option String
unfolding size lower contains_text
csrf_secret secret =
    if ltb (size secret) 32
    then none
    else if has_placeholder (lower secret)
    then none
    else some secret

abbrev pub is_ascii_char : Char → Bool
is_ascii_char c = ltb (code c) 128

-- `hmac.compare_digest` of texts; false also stands for its TypeError on a text that is not ASCII.
unfoldable pub compare_digest : String → String → Bool
unfolding all_chars
compare_digest a b = all_chars is_ascii_char a && (all_chars is_ascii_char b && a == b)

-- `csrf_session_binding`, with SHA-256 in hexadecimal.
unfoldable pub csrf_session_binding : (String → String) → String → String
unfolding truncate
csrf_session_binding sha256 session_token =
    if session_token == "" then "" else truncate 32 (sha256 session_token)

unfoldable pub csrf_payload : String → ℤ → String → String → String
unfolding ◌<>◌ text_of_int
csrf_payload action issued_at nonce binding =
    let payload = action <> (":" <> (text_of_int issued_at <> (":" <> nonce))) in
    if binding == "" then payload else payload <> (":" <> binding)

-- The parts of a token.
pub record CsrfParts : Type 0 where
  pub action : String
  pub issued_at_text : String
  pub nonce : String
  pub binding : String
  pub signature : String

-- Four parts without a session, five with one, which must not be empty.
unfoldable pub csrf_parts : List String → Option CsrfParts
csrf_parts (action ∷ issued_at_text ∷ nonce ∷ signature ∷ []) = some (record {
  action = action;
  issued_at_text = issued_at_text;
  nonce = nonce;
  binding = "";
  signature = signature;
})
csrf_parts (action ∷ issued_at_text ∷ nonce ∷ binding ∷ signature ∷ []) =
    if binding == ""
    then none
    else some (record {
      action = action;
      issued_at_text = issued_at_text;
      nonce = nonce;
      binding = binding;
      signature = signature;
    })
csrf_parts _ = none

-- `issued_at > current + 30`
abbrev pub is_early : ℤ → ℕ → Bool
is_early (pos n) current = ltb (current + 30) n
is_early (negsuc n) current = false

-- `current - issued_at > max(60, ttl_seconds)`
abbrev pub is_expired : ℤ → ℕ → ℕ → Bool
is_expired (pos n) current ttl_seconds = ltb (max 60 ttl_seconds + n) current
is_expired (negsuc n) current ttl_seconds = ltb (max 60 ttl_seconds) (current + (n + 1))

abbrev pub is_equals : Char → Bool
is_equals c = String.◌∷◌ c String.[] == "="

-- `"=" * n`
unfoldable pub equals_signs : ℕ → String
unfolding ◌<>◌
equals_signs zero = ""
equals_signs (suc n) = "=" <> equals_signs n

-- `token + "=" * (-len(token) % 4)`
unfoldable pub padded : String → String
unfolding ◌<>◌ size equals_signs
padded token = token <> equals_signs ((4 - size token % 4) % 4)

module _ (hmac : String → String → String) (encode : String → String)
    (decode : String → Option String) (secret_text : String) where
  abbrev pub signed_token : String → Option String → Option String
  signed_token payload none = none
  signed_token payload (some secret) =
      some (rstrip is_equals (encode (payload <> (":" <> hmac secret payload))))

  -- `create_csrf_token`; `nonce` is the random text.
  unfoldable pub create_csrf_token : String → ℕ → String → String → Option String
  unfolding csrf_payload csrf_secret ◌<>◌ rstrip
  create_csrf_token action now nonce binding =
      signed_token (csrf_payload action (pos now) nonce binding) (csrf_secret secret_text)

  abbrev pub has_signature : CsrfParts → ℤ → Option String → Bool
  has_signature parts issued_at none = false
  has_signature parts issued_at (some secret) =
      compare_digest parts.signature
        (hmac secret (csrf_payload parts.action issued_at parts.nonce parts.binding))

  -- From the conversion of the time on; a text that is no number is an exception.
  abbrev pub check_time : String → ℕ → ℕ → String → CsrfParts → Option ℤ → Bool
  check_time action now ttl_seconds binding parts none = false
  check_time action now ttl_seconds binding parts (some issued_at) =
      if not (parts.action == action) || (parts.nonce == "" || is_early issued_at now)
      then false
      else if is_expired issued_at now ttl_seconds
      then false
      else if not (compare_digest parts.binding binding)
      then false
      else has_signature parts issued_at (csrf_secret secret_text)

  abbrev pub check_parts_of : String → ℕ → ℕ → String → Option CsrfParts → Bool
  check_parts_of action now ttl_seconds binding none = false
  check_parts_of action now ttl_seconds binding (some parts) =
      check_time action now ttl_seconds binding parts (int_of_text parts.issued_at_text)

  abbrev pub check_raw : String → ℕ → ℕ → String → Option String → Bool
  check_raw action now ttl_seconds binding none = false
  check_raw action now ttl_seconds binding (some raw) =
      check_parts_of action now ttl_seconds binding (csrf_parts (split b':' raw))

  unfoldable pub validate_csrf_token : String → String → ℕ → ℕ → String → Bool
  unfolding csrf_parts csrf_payload csrf_secret compare_digest int_of_text split padded
  validate_csrf_token token action now ttl_seconds binding =
      check_raw action now ttl_seconds binding (decode (padded token))
