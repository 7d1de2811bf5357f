-- ===== src/Csrf/Issued.antt =====
-- A token that the program made is accepted.
use clash_config_gen.Prelude.{
  ℕ, zero, suc, ◌+◌, ◌-◌, ◌%◌, ◌≤◌, String, ◌<>◌, ◌≡◌, refl, sym, ap, ◌∙◌, inl, inr, true, false,
  ◌&&◌, Option, none, some, [], ◌∷◌, arith, ◌==◌, eq_iff, eq_refl, eqb, Bool-cases, Option-cases,
}
use Prim.Native.Char.{Char, code}
use Prim.Native.Nat.{max}
use mathlib.Core.Option.{some-injective}
use clash_config_gen.Prelude.Int.{pos, text_of_int, text_of_nat}
use clash_config_gen.Prelude.Text.{
  split, split_from, lacks, append_assoc, append-nil, all_chars, is_digit, is_empty, rstrip, size,
  nth,
}
use clash_config_gen.Prelude.Decimal.{int_of_text-text_of_int, text_of_nat-all_chars}
use clash_config_gen.Csrf.{
  is_ascii_char, is_equals, equals_signs, padded, compare_digest, csrf_payload, CsrfParts,
  csrf_parts, csrf_secret, is_early, is_expired, create_csrf_token, validate_csrf_token,
}

split_from-append :
    (part s t : String)
    → lacks b':' s ≡ true
    → split_from b':' part (s <> (":" <> t)) ≡ (part <> s) ∷ split_from b':' "" t
unfolding split_from lacks ◌<>◌
split_from-append part String.[] t h = rw append-nil refl
split_from-append part (String.◌∷◌ c s) t h = elim (Bool-cases (eqb (code c) b':')) [
  | inl e ↦ absurd (ground (arith, h, e))
  | inr e ↦
      rw
        (
          e,
          split_from-append (part <> String.◌∷◌ c String.[]) s t (ground (arith, h, e)),
          append_assoc part (String.◌∷◌ c String.[]) s,
        )
        refl
]

split_from-lacks :
    (part s : String) → lacks b':' s ≡ true → split_from b':' part s ≡ (part <> s) ∷ []
unfolding split_from lacks ◌<>◌
split_from-lacks part String.[] h = rw append-nil refl
split_from-lacks part (String.◌∷◌ c s) h = elim (Bool-cases (eqb (code c) b':')) [
  | inl e ↦ absurd (ground (arith, h, e))
  | inr e ↦
      rw
        (
          e,
          split_from-lacks (part <> String.◌∷◌ c String.[]) s (ground (arith, h, e)),
          append_assoc part (String.◌∷◌ c String.[]) s,
        )
        refl
]

split-append :
    (s t : String) → lacks b':' s ≡ true → split b':' (s <> (":" <> t)) ≡ s ∷ split b':' t
unfolding split ◌<>◌
split-append s t h = split_from-append "" s t h

split-lacks : (s : String) → lacks b':' s ≡ true → split b':' s ≡ s ∷ []
unfolding split ◌<>◌
split-lacks s h = split_from-lacks "" s h

append_colon : (s t u : String) → (s <> (":" <> t)) <> u ≡ s <> (":" <> (t <> u))
unfolding ◌<>◌
append_colon s t u = append_assoc s (":" <> t) u

-- The parts of a payload with more behind it.
split_payload :
    (action time nonce tail : String)
    → lacks b':' action ≡ true
    → lacks b':' time ≡ true
    → lacks b':' nonce ≡ true
    → split b':' ((action <> (":" <> (time <> (":" <> nonce)))) <> (":" <> tail))
      ≡ action ∷ time ∷ nonce ∷ split b':' tail
split_payload action time nonce tail a t n =
    rw
      (
        append_colon action (time <> (":" <> nonce)) (":" <> tail),
        split-append action ((time <> (":" <> nonce)) <> (":" <> tail)) a,
        append_colon time nonce (":" <> tail),
        split-append time (nonce <> (":" <> tail)) t,
        split-append nonce tail n,
      )
      refl

digits_lack_colon : (s : String) → all_chars is_digit s ≡ true → lacks b':' s ≡ true
unfolding all_chars is_digit lacks
digits_lack_colon String.[] h = refl
digits_lack_colon (String.◌∷◌ c s) h = ground (arith, h, digits_lack_colon s)

time_lacks_colon : (now : ℕ) → lacks b':' (text_of_int (pos now)) ≡ true
unfolding text_of_int
time_lacks_colon now = digits_lack_colon (text_of_nat now) (text_of_nat-all_chars now)

compare_digest_self : (s : String) → all_chars is_ascii_char s ≡ true → compare_digest s s ≡ true
unfolding compare_digest
compare_digest_self s h = rw (h, eq_refl s) refl

size-append : (s t : String) → size (s <> t) ≡ size s + size t
unfolding size ◌<>◌
size-append String.[] t = omega arith
size-append (String.◌∷◌ c s) t = omega (arith, size-append s t)

size-equals_signs : (n : ℕ) → size (equals_signs n) ≡ n
unfolding size equals_signs ◌<>◌
size-equals_signs zero = refl
size-equals_signs (suc n) = omega (arith, size-equals_signs n)

equals_sign : (c : Char) (s : String) → is_equals c ≡ true → String.◌∷◌ c s ≡ "=" <> s
unfolding nth ◌<>◌
equals_sign c s h =
    ap (λ text. String.◌∷◌ (nth text 0) s) ((eq_iff (String.◌∷◌ c String.[]) "=").0 h)

empty_lem : (s : String) → is_empty s ≡ true → s ≡ ""
empty_lem String.[] h = refl
empty_lem (String.◌∷◌ c s) h = absurd (ground (arith, h))

-- What `rstrip` takes away.
stripped_signs : (s : String) → (n : ℕ) × (s ≡ rstrip is_equals s <> equals_signs n)
unfolding rstrip equals_signs ◌<>◌
stripped_signs String.[] = (0, refl)
stripped_signs (String.◌∷◌ c s) =
    let (n, e) = stripped_signs s in
    elim (Bool-cases (is_equals c && is_empty (rstrip is_equals s))) [
      | inl h ↦ (
        suc n,
        rw h (
            equals_sign c s (ground (arith, h))
            ∙ ap (λ r. "=" <> r)
                (e
                  ∙ ap (λ r. r <> equals_signs n)
                      (empty_lem (rstrip is_equals s) (ground (arith, h))))),
      )
      | inr h ↦ (n, rw h (ap (λ r. String.◌∷◌ c r) e))
    ]

-- A text of whole groups of four with at most two signs = at its end is got back by the padding.
padded-rstrip :
    (s : String)
    → size s % 4 ≡ 0
    → size s ≤ size (rstrip is_equals s) + 2
    → padded (rstrip is_equals s) ≡ s
unfolding padded
padded-rstrip s whole few =
    let (n, e) = stripped_signs s in
    let sizes : size s ≡ size (rstrip is_equals s) + n =
      ap size e ∙ size-append _ _ ∙ ap (λ m. size (rstrip is_equals s) + m) (size-equals_signs n) in
    let count : (4 - size (rstrip is_equals s) % 4) % 4 ≡ n = omega (arith, sizes, whole, few) in
    ap (λ m. rstrip is_equals s <> equals_signs m) count ∙ sym e

module _ (action nonce signature : String) (now : ℕ) (a : lacks b':' action ≡ true)
    (n : lacks b':' nonce ≡ true) (s : lacks b':' signature ≡ true) where
  issued_parts : String → CsrfParts
  issued_parts binding = record {
    action = action;
    issued_at_text = text_of_int (pos now);
    nonce = nonce;
    binding = binding;
    signature = signature;
  }

  plain_parts :
      csrf_parts (split b':' (csrf_payload action (pos now) nonce "" <> (":" <> signature)))
      ≡ some (issued_parts "")
  unfolding csrf_parts csrf_payload issued_parts
  plain_parts =
      rw
        (
          split_payload action (text_of_int (pos now)) nonce signature a (time_lacks_colon now) n,
          split-lacks signature s,
        )
        refl

  bound_parts :
      (binding : String)
      → lacks b':' binding ≡ true
      → (binding == "") ≡ false
      → csrf_parts (split b':' (csrf_payload action (pos now) nonce binding <> (":" <> signature)))
        ≡ some (issued_parts binding)
  unfolding csrf_parts csrf_payload issued_parts
  bound_parts binding b filled =
      rw
        (
          filled,
          append_colon (action <> (":" <> (text_of_int (pos now) <> (":" <> nonce)))) binding
              (":" <> signature),
          split_payload action (text_of_int (pos now)) nonce (binding <> (":" <> signature)) a
              (time_lacks_colon now) n,
          split-append binding signature b,
          split-lacks signature s,
          filled,
        )
        refl

  all_parts :
      (binding : String)
      → lacks b':' binding ≡ true
      → csrf_parts (split b':' (csrf_payload action (pos now) nonce binding <> (":" <> signature)))
        ≡ some (issued_parts binding)
  all_parts binding b = elim (Bool-cases (binding == "")) [
    | inl e ↦ rw ((eq_iff binding "").0 e) plain_parts
    | inr e ↦ bound_parts binding b e
  ]

module _ (hmac : String → String → String) (encode : String → String)
    (decode : String → Option String) (secret_text : String) where
  -- Base64 decodes what it encodes, its texts are of whole groups of four characters and have at most two signs = at
  -- their ends, and a hexadecimal digest is ASCII without a colon. Then a token that `create_csrf_token` makes for an
  -- action and a session, with a nonce that is not empty, none of them with a colon and the session's digest ASCII,
  -- is accepted for that action and session until max(60, ttl) seconds have passed.
  pub validate_csrf_token-create_csrf_token :
      (decodes : (s : String) → decode (encode s) ≡ some s)
      (whole : (s : String) → size (encode s) % 4 ≡ 0)
      (few : (s : String) → size (encode s) ≤ size (rstrip is_equals (encode s)) + 2)
      (hexadecimal : (key message : String)
        → (lacks b':' (hmac key message) ≡ true)
          × (all_chars is_ascii_char (hmac key message) ≡ true))
      (action nonce binding token : String) (now later ttl_seconds : ℕ)
      → lacks b':' action ≡ true
      → lacks b':' nonce ≡ true
      → (nonce == "") ≡ false
      → lacks b':' binding ≡ true
      → all_chars is_ascii_char binding ≡ true
      → now ≤ later
      → later ≤ max 60 ttl_seconds + now
      → create_csrf_token hmac encode decode secret_text action now nonce binding ≡ some token
      → validate_csrf_token hmac encode decode secret_text token action later ttl_seconds binding
        ≡ true
  unfolding create_csrf_token validate_csrf_token issued_parts
  validate_csrf_token-create_csrf_token decodes whole few hexadecimal action nonce binding token now
        later ttl_seconds a n filled b ascii after within made =
      elim (Option-cases (csrf_secret secret_text)) [
        | inl e ↦ let q : none ≡ some token = sym (rw e refl) ∙ made in absurd (ground (arith, q))
        | inr (secret, e) ↦
            let payload = csrf_payload action (pos now) nonce binding in
            let signature = hmac secret payload in
            let raw = payload <> (":" <> signature) in
            let issued : some (rstrip is_equals (encode raw)) ≡ some token =
              sym (rw e refl) ∙ made in
            let same : rstrip is_equals (encode raw) ≡ token = some-injective _ _ issued in
            let fresh : is_expired (pos now) later ttl_seconds ≡ false = ground (arith, within) in
            let late : is_early (pos now) later ≡ false = ground (arith, after) in
            rw
              (
                ← same,
                padded-rstrip (encode raw) (whole raw) (few raw),
                decodes raw,
                all_parts action nonce signature now a n (hexadecimal secret payload).0 binding b,
                int_of_text-text_of_int (pos now),
                eq_refl action,
                filled,
                late,
                fresh,
                compare_digest_self binding ascii,
                e,
              )
              (compare_digest_self signature (hexadecimal secret payload).1)
      ]
