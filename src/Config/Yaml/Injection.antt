-- ===== src/Config/Yaml/Injection.antt =====
-- The values of a subscription's headers.
use clash_config_gen.Prelude.{
  ℕ, String, ◌<>◌, ◌≡◌, refl, inl, inr, Bool, true, ◌&&◌, Option, List, [], ◌∷◌, ◌++◌, arith, ◌==◌,
  leb, Bool-cases, all,
}
use Prim.Native.Char.{Char, code}
use clash_config_gen.Prelude.Int.{text_of_nat}
use clash_config_gen.Prelude.Text.{all_chars, is_digit}
use clash_config_gen.Prelude.Decimal.{all_chars-append, text_of_nat-all_chars}
use clash_config_gen.Config.Yaml.{
  is_name_char, name_headers, profile_name_of, subscription_profile_name_headers,
  build_subscription_headers, announce,
}

-- A printable ASCII character.
abbrev pub is_printable : Char → Bool
is_printable c = leb 32 (code c) && leb (code c) 126

abbrev pub is_header : String × String → Bool
is_header (key, value) = all_chars is_printable value

chars_imply :
    (p q : Char → Bool) (s : String)
    → ((c : Char) → p c ≡ true → q c ≡ true)
    → all_chars p s ≡ true
    → all_chars q s ≡ true
unfolding all_chars
chars_imply p q String.[] g h = refl
chars_imply p q (String.◌∷◌ c s) g h =
    ground (arith, g c (ground (arith, h)), chars_imply p q s g (ground (arith, h)))

name_char_printable : (c : Char) → is_name_char c ≡ true → is_printable c ≡ true
unfolding is_name_char is_digit
name_char_printable c h = ground (arith, h)

digit_printable : (c : Char) → is_digit c ≡ true → is_printable c ≡ true
unfolding is_digit
digit_printable c h = ground (arith, h)

count_printable : (n : ℕ) → all_chars is_printable (text_of_nat n) ≡ true
count_printable n =
    chars_imply is_digit is_printable (text_of_nat n) digit_printable (text_of_nat-all_chars n)

behind :
    (before s : String)
    → all_chars is_printable before ≡ true
    → all_chars is_printable s ≡ true
    → all_chars is_printable (before <> s) ≡ true
behind before s b h = rw (all_chars-append is_printable before s, b, h) refl

all-append {ℓ} :
    {A : Type ℓ} (p : A → Bool) (xs ys : List A) → all p (xs ++ ys) ≡ (all p xs && all p ys)
all-append p [] ys = refl
all-append p (x ∷ xs) ys = ground (arith, all-append p xs ys)

module _ (base64 : String → String) (quote : String → String)
    (encoded : (s : String)
      → (all_chars is_printable (base64 s) ≡ true)
        × (all_chars is_printable (quote s) ≡ true)) where
  name_headers_lem : (name : String) → all is_header (name_headers base64 quote name) ≡ true
  unfolding name_headers all_chars
  name_headers_lem name = elim (Bool-cases (name == "")) [
    | inl e ↦ rw e refl
    | inr e ↦ elim (Bool-cases (all_chars is_name_char name)) [
      | inl plain ↦
          let shown : all_chars is_printable name ≡ true =
            chars_imply is_name_char is_printable name name_char_printable plain in
          rw (e, plain, shown, behind name "\"" shown refl) refl
      | inr other ↦ rw (e, other, (encoded name).0, (encoded name).1) refl
    ]
  ]

  -- If Base64 and percent-encoding give printable ASCII, every header of a subscription is printable ASCII, so
  -- that no user name puts a line break, or anything else that ends a header, into the response.
  pub build_subscription_headers_lem :
      (proxy_count group_count : ℕ) (profile_name : Option String)
      → all is_header (build_subscription_headers base64 quote proxy_count group_count profile_name)
        ≡ true
  unfolding build_subscription_headers subscription_profile_name_headers all_chars
  build_subscription_headers_lem proxy_count group_count profile_name =
      rw
        (
          all-append is_header (name_headers base64 quote (profile_name_of profile_name)),
          name_headers_lem (profile_name_of profile_name),
          (encoded (announce base64 quote)).0,
          count_printable proxy_count,
          count_printable group_count,
        )
        refl
