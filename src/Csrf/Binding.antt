-- ===== src/Csrf/Binding.antt =====
-- What an accepted CSRF token is bound to.
use mathlib.Core.Option.{some-injective}
use clash_config_gen.Prelude.{
  ℕ, ◌+◌, ◌≤◌, ◌<◌, String, ◌≡◌, sym, ap, ◌∙◌, ◌⊎◌, inl, inr, Bool, true, false, not, ◌||◌, Option,
  some, arith, ◌==◌, eq_iff, ltb, leb, if◌then◌else◌, ltb→lt, leb→le, Bool-cases, Option-cases,
}
use clash_config_gen.Prelude.Int.{ℤ, pos, negsuc, int_of_text}
use clash_config_gen.Prelude.Text.{split}
use clash_config_gen.Csrf.{
  csrf_secret, compare_digest, csrf_payload, CsrfParts, csrf_parts, is_early, is_expired,
  check_time, check_parts_of, padded, validate_csrf_token,
}

compare_digest-eq : (a b : String) → compare_digest a b ≡ true → a ≡ b
unfolding compare_digest
compare_digest-eq a b h = ground (arith, eq_iff a b, h)

-- The guards in a row all hold.
guards :
    (same empty early expired bound signed : Bool)
    → (if not same || (empty || early)
        then false
        else if expired
        then false
        else if not bound
        then false
        else signed)
      ≡ true
    → (same ≡ true) × (early ≡ false) × (expired ≡ false) × (bound ≡ true) × (signed ≡ true)
guards same empty early expired bound signed h =
    (ground (arith, h), ground (arith, h), ground (arith, h), ground (arith, h), ground (arith, h))

-- A time at most 30 seconds ahead of `now`, and at most the time to live behind it, of 60 seconds or more.
abbrev pub IsInTime : ℤ → ℕ → ℕ → Type 0
IsInTime (pos n) now ttl_seconds = (n ≤ now + 30) × (now ≤ n + 60 ⊎ now ≤ n + ttl_seconds)
IsInTime (negsuc n) now ttl_seconds = now + n < 60 ⊎ now + n < ttl_seconds

not_late_or_early :
    (issued_at : ℤ) (now ttl_seconds : ℕ)
    → is_early issued_at now ≡ false
    → is_expired issued_at now ttl_seconds ≡ false
    → IsInTime issued_at now ttl_seconds
not_late_or_early (pos n) now ttl_seconds early expired = (
  ground (arith, early),
  elim (Bool-cases (leb now (n + 60))) [
    | inl e ↦ inl (leb→le _ _ e)
    | inr e ↦ inr (ground (arith, e, expired))
  ],
)
not_late_or_early (negsuc n) now ttl_seconds early expired = elim (Bool-cases (ltb (now + n) 60)) [
  | inl e ↦ inl (ltb→lt _ _ e)
  | inr e ↦ inr (ground (arith, e, expired))
]

module _ (hmac : String → String → String) (encode : String → String)
    (decode : String → Option String) (secret_text : String) where
  -- What a token says that is accepted.
  pub record Accepted (token action : String) (now ttl_seconds : ℕ) (binding : String)
      : Type 0 where
    pub raw : String
    pub parts : CsrfParts
    pub issued_at : ℤ
    pub secret : String
    pub decoded : decode (padded token) ≡ some raw
    pub parsed : csrf_parts (split b':' raw) ≡ some parts
    pub dated : int_of_text parts.issued_at_text ≡ some issued_at
    pub keyed : csrf_secret secret_text ≡ some secret
    pub for_action : parts.action ≡ action
    pub for_binding : parts.binding ≡ binding
    pub in_time : IsInTime issued_at now ttl_seconds
    pub signed : parts.signature ≡ hmac secret (csrf_payload action issued_at parts.nonce binding)

  -- A token that is accepted decodes, with its signs = put back, to parts that name the action and the session asked
  -- for, is dated at most 30 seconds ahead and at most max(60, ttl) seconds back, and has the HMAC of exactly
  -- these under the secret.
  pub validate_csrf_token_lem :
      (token action : String) (now ttl_seconds : ℕ) (binding : String)
      → validate_csrf_token hmac encode decode secret_text token action now ttl_seconds binding
        ≡ true
      → Accepted token action now ttl_seconds binding
  unfolding validate_csrf_token
  validate_csrf_token_lem token action now ttl_seconds binding h =
      elim (Option-cases (decode (padded token))) [
        | inl e ↦ absurd (ground (arith, (rw e at h)))
        | inr (raw, e) ↦ parts_of raw e (rw e at h)
      ]
    where
      timed :
          (raw : String) (parts : CsrfParts) (issued_at : ℤ)
          → decode (padded token) ≡ some raw
          → csrf_parts (split b':' raw) ≡ some parts
          → int_of_text parts.issued_at_text ≡ some issued_at
          → check_time hmac encode decode secret_text action now ttl_seconds binding parts
              (some issued_at)
            ≡ true
          → Accepted token action now ttl_seconds binding
      timed raw parts issued_at d e i k = elim (Option-cases (csrf_secret secret_text)) [
        | inl n ↦ absurd (ground (arith, (rw n at k)))
        | inr (secret, n) ↦
            let facts =
              guards (parts.action == action) (parts.nonce == "") (is_early issued_at now)
                (is_expired issued_at now ttl_seconds) (compare_digest parts.binding binding)
                (compare_digest parts.signature
                  (hmac secret (csrf_payload parts.action issued_at parts.nonce parts.binding)))
                (rw n at k) in
            let same : parts.action ≡ action = (eq_iff parts.action action).0 facts.0 in
            let bound : parts.binding ≡ binding = compare_digest-eq parts.binding binding facts.3 in
            record {
              raw = raw;
              parts = parts;
              issued_at = issued_at;
              secret = secret;
              decoded = d;
              parsed = e;
              dated = i;
              keyed = n;
              for_action = same;
              for_binding = bound;
              in_time = not_late_or_early issued_at now ttl_seconds facts.1 facts.2;
              signed = rw (← same, ← bound) (compare_digest-eq _ _ facts.4);
            }
      ]

      parts_of :
          (raw : String)
          → decode (padded token) ≡ some raw
          → check_parts_of hmac encode decode secret_text action now ttl_seconds binding
              (csrf_parts (split b':' raw))
            ≡ true
          → Accepted token action now ttl_seconds binding
      parts_of raw d k = elim (Option-cases (csrf_parts (split b':' raw))) [
        | inl e ↦ absurd (ground (arith, (rw e at k)))
        | inr (parts, e) ↦ elim (Option-cases (int_of_text parts.issued_at_text)) [
          | inl i ↦ absurd (ground (arith, (rw (e, i) at k)))
          | inr (issued_at, i) ↦ timed raw parts issued_at d e i (rw (e, i) at k)
        ]
      ]

  -- One token is accepted for one action and one session at most.
  pub validate_csrf_token_unique :
      (token action other_action : String) (now later ttl_seconds other_ttl : ℕ)
      (binding other_binding : String)
      → validate_csrf_token hmac encode decode secret_text token action now ttl_seconds binding
        ≡ true
      → validate_csrf_token hmac encode decode secret_text token other_action later other_ttl
          other_binding
        ≡ true
      → (action ≡ other_action) × (binding ≡ other_binding)
  validate_csrf_token_unique token action other_action now later ttl_seconds other_ttl binding
        other_binding h k =
      let a = validate_csrf_token_lem token action now ttl_seconds binding h in
      let b = validate_csrf_token_lem token other_action later other_ttl other_binding k in
      let raws : a.raw ≡ b.raw = some-injective _ _ (sym a.decoded ∙ b.decoded) in
      let parts : a.parts ≡ b.parts = some-injective _ _ (sym a.parsed ∙ rw raws b.parsed) in
      (
        sym a.for_action ∙ ap (λ (p : CsrfParts). p.action) parts ∙ b.for_action,
        sym a.for_binding ∙ ap (λ (p : CsrfParts). p.binding) parts ∙ b.for_binding,
      )
