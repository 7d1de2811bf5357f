-- ===== src/Origin.antt =====
-- `is_trusted_request_origin` of src/security.py. `urlsplit` gives the scheme and the network location of a text, or
-- raises a ValueError, which the code does not catch: then the answer is `none`.
use clash_config_gen.Prelude.{
  String, ◌<>◌, ◌≡◌, refl, sym, ◌∙◌, ◌↔◌, ◌⊎◌, inl, inr, Bool, true, false, not, ◌&&◌, ◌||◌, Option,
  none, some, List, [], ◌∷◌, map, arith, ◌==◌, eq_iff, if◌then◌else◌, Bool-cases, Option-cases,
  filter, any, All,
}
use mathlib.Core.Option.{some-injective}
use clash_config_gen.Prelude.Dict.{contains}
use clash_config_gen.Prelude.Text.{strip, lower, split}

contains-filter :
    (xs : List String) (k : String)
    → (k == "") ≡ false
    → contains (filter (λ o. not (o == "")) xs) k ≡ contains xs k
unfolding contains
contains-filter [] k h = refl
contains-filter (x ∷ xs) k h = elim (Bool-cases (x == "")) [
  | inl e ↦ elim (Bool-cases (x == k)) [
    | inl q ↦
        let same : k ≡ "" = sym ((eq_iff x k).0 q) ∙ (eq_iff x "").0 e in
        absurd (ground (arith, h, (eq_iff k "").1 same))
    | inr q ↦ rw (e, q) (contains-filter xs k h)
  ]
  | inr e ↦ elim (Bool-cases (x == k)) [
    | inl q ↦ rw (e, contains, q) refl
    | inr q ↦ rw (e, contains, q) (contains-filter xs k h)
  ]
]

module _ (urlsplit : String → Option (String × String)) where
  abbrev origin_of : Option (String × String) → Option String
  origin_of none = none
  origin_of (some (scheme, netloc)) = some (
      if (scheme == "http" || scheme == "https") && not (netloc == "")
      then lower scheme <> ("://" <> lower netloc)
      else "")

  -- `_origin`; the empty text is no origin.
  unfoldable pub origin_text : String → Option String
  unfolding lower ◌<>◌
  origin_text value = origin_of (urlsplit value)

  abbrev with_origin : Option String → Option (List String) → Option (List String)
  with_origin (some o) (some os) = some (o ∷ os)
  with_origin _ _ = none

  unfoldable pub origins : List String → Option (List String)
  unfolding origin_text
  origins [] = some []
  origins (value ∷ values) = with_origin (origin_text value) (origins values)

  abbrev pub listed_values : String → List String
  listed_values listed =
      map (λ value. strip value) (filter (λ value. not (strip value == "")) (split b',' listed))

  abbrev given_origins : Option (List String) → Option (List String)
  given_origins none = none
  given_origins (some os) = some (filter (λ o. not (o == "")) os)

  -- The public address and the variable `AUTH_ALLOWED_ORIGINS`.
  unfoldable pub allowed_origins : String → String → Option (List String)
  unfolding origins split strip
  allowed_origins public_base_url listed =
      given_origins (origins (public_base_url ∷ listed_values listed))

  abbrev pub trusts : Option (List String) → Option String → Option Bool
  trusts (some allowed) (some supplied) = some (not (supplied == "") && contains allowed supplied)
  trusts _ _ = none

  unfoldable pub is_trusted_request_origin : String → String → String → String → Option Bool
  unfolding origin_text allowed_origins contains
  is_trusted_request_origin origin referer public_base_url listed =
      trusts (allowed_origins public_base_url listed)
        (if origin == "" then origin_text referer else origin_text origin)

  abbrev pub is_origin : String → Option String → Bool
  is_origin own none = false
  is_origin own (some o) = o == own

  -- The origin of a request is that of one of the values, all of which urlsplit can read.
  pub record Trusted (origin : String) (values : List String) : Type 0 where
    pub own : String
    pub has_origin : origin_text origin ≡ some own
    pub given : (own == "") ≡ false
    pub readable : All (λ value. (o : String) × (origin_text value ≡ some o)) values
    pub listed : any (λ value. is_origin own (origin_text value)) values ≡ true

  record Origins (values os : List String) : Type 0 where
    read : origins values ≡ some os
    readable : All (λ value. (o : String) × (origin_text value ≡ some o)) values
    same : (k : String) → contains os k ≡ any (λ value. is_origin k (origin_text value)) values

  origins-cases :
      (values : List String)
      → ((os : List String) × Origins values os)
        ⊎ ((origins values ≡ none)
            × ¬ All (λ value. (o : String) × (origin_text value ≡ some o)) values)
  unfolding origins contains
  origins-cases [] = inl ([], record { read = refl; readable = tt; same = λ k. refl })
  origins-cases (value ∷ values) = elim (Option-cases (origin_text value)) [
    | inl e ↦ inr (
      rw e refl,
      λ all. let (o, q) = all.0 in (let c : none ≡ some o = sym e ∙ q in ground (arith, c)),
    )
    | inr (o, e) ↦ elim (origins-cases values) [
      | inl (os, r) ↦ inl (
        o ∷ os,
        record {
          read = rw (e, r.read) refl;
          readable = ((o, e), r.readable);
          same = λ k. rw (e, contains, r.same k) (ground arith);
        },
      )
      | inr (q, unread) ↦ inr (rw (e, q) refl, λ all. unread all.1)
    ]
  ]

  -- A request with an Origin header is trusted exactly if that header has an http or https origin, which is that of the
  -- public address or of an entry of the variable, and all of these can be read; whatever its Referer header is.
  pub is_trusted_request_origin_lem :
      (origin referer public_base_url listed : String)
      → (origin == "") ≡ false
      → (is_trusted_request_origin origin referer public_base_url listed ≡ some true)
        ↔ Trusted origin (
            public_base_url
            ∷ map
                (λ value. strip value)
                (filter (λ value. not (strip value == "")) (split b',' listed)))
  unfolding is_trusted_request_origin allowed_origins
  is_trusted_request_origin_lem origin referer public_base_url listed filled =
      rw filled (forth, back)
    where
      values : List String
      values =
          public_base_url
          ∷ map (λ value. strip value)
              (filter (λ value. not (strip value == "")) (split b',' listed))

      forth :
          trusts (given_origins (origins values)) (origin_text origin) ≡ some true
          → Trusted origin values
      forth h = elim (origins-cases values) [
        | inr (q, unread) ↦
            let c : none ≡ some true = sym (rw q refl) ∙ h in absurd (ground (arith, c))
        | inl (os, r) ↦ elim (Option-cases (origin_text origin)) [
          | inl e ↦
              let c : none ≡ some true = sym (rw (r.read, e) refl) ∙ h in absurd (ground (arith, c))
          | inr (own, e) ↦
              let c : (not (own == "") && contains (filter (λ o. not (o == "")) os) own) ≡ true =
                some-injective _ _ (sym (rw (r.read, e) refl) ∙ h) in
              let given : (own == "") ≡ false = ground (arith, c) in
              record {
                own = own;
                has_origin = e;
                given = given;
                readable = r.readable;
                listed = sym (r.same own) ∙ sym (contains-filter os own given) ∙ ground (arith, c);
              }
        ]
      ]

      back :
          Trusted origin values
          → trusts (given_origins (origins values)) (origin_text origin) ≡ some true
      back t = elim (origins-cases values) [
        | inr (q, unread) ↦ absurd (unread t.readable)
        | inl (os, r) ↦
            rw
              (
                r.read,
                t.has_origin,
                t.given,
                contains-filter os t.own t.given,
                r.same t.own,
                t.listed,
              )
              refl
      ]
