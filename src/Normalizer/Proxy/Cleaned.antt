-- ===== src/Normalizer/Proxy/Cleaned.antt =====
-- The fields of a normalized node that mihomo would misread.
use clash_config_gen.Prelude.{
  if_lem, ℕ, String, ◌≡◌, refl, ap, ◌∙◌, inl, inr, Bool, true, false, not, ◌&&◌, ◌||◌, Option, none,
  some, List, [], ◌∷◌, arith, ◌==◌, eq_refl, ltb, leb, if◌then◌else◌, Bool-cases,
}
use clash_config_gen.Prelude.Dict.{Dict, contains, lookup, erase, lookup-put, lookup-erase}
use clash_config_gen.Prelude.Int.{ℤ, pos, negsuc}
use clash_config_gen.Prelude.Text.{lower, strip, split, decimal_from}
use clash_config_gen.Value.{
  Value, null, boolean, integer, real, text, array, table, number, truthy_entry,
}
use clash_config_gen.Normalizer.{
  browser_client_fingerprints, is_certificate_pin, normalize_hysteria2_hop_interval,
  hop_interval_of_text, range_start, positive, is_decimal,
}
use clash_config_gen.Normalizer.Proxy.{
  Pass, field_of, set_field, is_given, stripped, is_text_entry, fingerprint_text, hop_step,
  hop_result, is_vision, is_plain_smux_entry, normalize_smux, normalize_fingerprint,
  normalize_client_fingerprint, normalize_hop_interval, normalize_ech, normalize_port,
  normalize_proxy, normalized_pass,
}
use clash_config_gen.Normalizer.Proxy.Keeps.{
  first_steps, last_steps, last_steps-lookup, hop_and_ech-lookup, normalize_smux-Keeps,
  normalize_client_fingerprint-Keeps, ech_step-Keeps,
}

-- No interval, or a whole number of seconds above 0.
unfoldable pub is_hop_interval : Option Value → Bool
is_hop_interval none = true
is_hop_interval (some null) = false
is_hop_interval (some (boolean b)) = false
is_hop_interval (some (integer (pos n))) = ltb 0 n
is_hop_interval (some (integer (negsuc n))) = false
is_hop_interval (some (real s n)) = false
is_hop_interval (some (text s)) = false
is_hop_interval (some (array vs)) = false
is_hop_interval (some (table fs)) = false

-- No value.
abbrev is_absent : Option Value → Bool
is_absent o = not (is_given o)

erased : (key : String) (d : Dict Value) → lookup key (erase key d) ≡ none
erased key d = rw (lookup-erase key key d, eq_refl key) refl

-- No number, or one above 0.
abbrev is_positive : Option ℕ → Bool
is_positive none = true
is_positive (some n) = ltb 0 n

positive_lem : (z : ℤ) → is_positive (positive z) ≡ true
positive_lem (pos k) = ground arith
positive_lem (negsuc k) = refl

range_test :
    (b : Bool) (start last : ℕ)
    → is_positive
        (if b && (ltb 0 start && (ltb 0 last && leb start last)) then some start else none)
      ≡ true
range_test b start last = ground arith

and-false : (b : Bool) → (b && false) ≡ false
and-false true = refl
and-false false = refl

or-true : (b : Bool) → (b || true) ≡ true
or-true true = refl
or-true false = refl

range_start_lem : (parts : List String) → is_positive (range_start parts) ≡ true
range_start_lem [] = refl
range_start_lem (a ∷ []) = refl
range_start_lem (a ∷ b ∷ []) =
    range_test (is_decimal (strip a) && is_decimal (strip b)) (decimal_from 0 (strip a))
      (decimal_from 0 (strip b))
range_start_lem (a ∷ b ∷ c ∷ rest) = refl

hop_interval_of_text_lem : (s : String) → is_positive (hop_interval_of_text s) ≡ true
unfolding hop_interval_of_text
hop_interval_of_text_lem s =
    if_lem is_positive (s == "") none
      (if is_decimal s then positive (pos (decimal_from 0 s)) else range_start (split b'-' s)) refl
      (if_lem is_positive (is_decimal s) (positive (pos (decimal_from 0 s)))
        (range_start (split b'-' s)) (positive_lem (pos (decimal_from 0 s)))
        (range_start_lem (split b'-' s)))

hop_interval_lem :
    (repr : Value → String) (v : Value)
    → is_positive (normalize_hysteria2_hop_interval repr v) ≡ true
unfolding normalize_hysteria2_hop_interval
hop_interval_lem repr null = refl
hop_interval_lem repr (boolean b) = refl
hop_interval_lem repr (integer z) = positive_lem z
hop_interval_lem repr (real s none) = refl
hop_interval_lem repr (real s (some z)) = positive_lem z
hop_interval_lem repr (text s) = hop_interval_of_text_lem (strip s)
hop_interval_lem repr (array vs) = hop_interval_of_text_lem (strip (repr (array vs)))
hop_interval_lem repr (table fs) = hop_interval_of_text_lem (strip (repr (table fs)))

hop_result_lem :
    (r : Option ℕ) (pass : Pass)
    → is_positive r ≡ true
    → is_hop_interval (field_of "hop-interval" (hop_result r pass)) ≡ true
unfolding is_hop_interval
hop_result_lem none pass h = rw (erased "hop-interval" pass.proxy) refl
hop_result_lem (some n) pass h =
    rw (lookup-put "hop-interval" "hop-interval" (number n) pass.proxy) h

module _ (repr : Value → String) (single_of_list : String → Option Value)
    (ip_version : String → Option ℕ) where
  hop_step_lem :
      (b : Bool) (o : Option Value) (pass : Pass)
      → field_of "hop-interval" pass ≡ o
      → b ≡ true
      → is_hop_interval (field_of "hop-interval" (hop_step repr single_of_list ip_version b o pass))
        ≡ true
  unfolding is_hop_interval
  hop_step_lem b none pass f e = rw f refl
  hop_step_lem b (some v) pass f e =
      rw e (hop_result_lem (normalize_hysteria2_hop_interval repr v) pass (hop_interval_lem repr v))

  -- The interval of a hysteria2 node.
  normalize_hop_interval_lem :
      (pass : Pass)
      → is_text_entry "hysteria2" (field_of "type" pass) ≡ true
      → is_hop_interval
          (field_of "hop-interval" (normalize_hop_interval repr single_of_list ip_version pass))
        ≡ true
  unfolding normalize_hop_interval
  normalize_hop_interval_lem pass h =
      hop_step_lem (is_text_entry "hysteria2" (field_of "type" pass)) (field_of "hop-interval" pass)
        pass refl h

  normalize_smux_lem :
      (pass : Pass)
      → (is_vision repr single_of_list ip_version
            (field_of "flow" (normalize_smux repr single_of_list ip_version pass))
          && is_plain_smux_entry
              (field_of "smux" (normalize_smux repr single_of_list ip_version pass)))
        ≡ false
  unfolding normalize_smux
  normalize_smux_lem pass =
      elim (Bool-cases (
        is_vision repr single_of_list ip_version (field_of "flow" pass)
        && is_plain_smux_entry (field_of "smux" pass))) [
          | inl e ↦
              rw (e, erased "smux" pass.proxy)
                (and-false (
                  is_vision repr single_of_list ip_version
                    (lookup "flow" (erase "smux" pass.proxy))))
          | inr e ↦ rw e e
        ]

  -- No certificate's pin, or one that is a SHA256 fingerprint.
  abbrev pub is_pinned : Option Value → Bool
  is_pinned o = not (is_given o) || is_certificate_pin (stripped repr single_of_list ip_version o)

  unpinned :
      (pass : Pass) → is_pinned (lookup "fingerprint" (erase "fingerprint" pass.proxy)) ≡ true
  unpinned pass = rw (erased "fingerprint" pass.proxy) refl

  fingerprint_text_lem :
      (raw : String) (pass : Pass)
      → stripped repr single_of_list ip_version (field_of "fingerprint" pass) ≡ raw
      → is_pinned (field_of "fingerprint" (fingerprint_text raw pass)) ≡ true
  fingerprint_text_lem raw pass e =
      let pinned : Pass → Bool = λ after. is_pinned (field_of "fingerprint" after) in
      if_lem pinned (lower raw == "none") _ _ (unpinned pass) (
        if_lem pinned (contains browser_client_fingerprints (lower raw)) _ _
          (unpinned (
            if truthy_entry (field_of "client-fingerprint" pass)
            then pass
            else set_field "client-fingerprint" (text (lower raw)) pass))
          (elim (Bool-cases (is_certificate_pin raw)) [
            | inl c ↦ rw (c, e, c) (or-true (not (is_given (field_of "fingerprint" pass))))
            | inr c ↦ rw c (unpinned pass)
          ]))

  if_not_given :
      (b : Bool) (pass after : Pass)
      → is_given (field_of "fingerprint" pass) ≡ b
      → is_pinned (field_of "fingerprint" after) ≡ true
      → is_pinned (field_of "fingerprint" (if b then after else pass)) ≡ true
  if_not_given true pass after e h = h
  if_not_given false pass after e h = rw e refl

  normalize_fingerprint_lem :
      (pass : Pass)
      → is_pinned
          (field_of "fingerprint" (normalize_fingerprint repr single_of_list ip_version pass))
        ≡ true
  unfolding normalize_fingerprint
  normalize_fingerprint_lem pass =
      let raw = stripped repr single_of_list ip_version (field_of "fingerprint" pass) in
      if_not_given (is_given (field_of "fingerprint" pass)) pass (fingerprint_text raw pass) refl
        (fingerprint_text_lem raw pass refl)

  hop_of_type :
      (pass : Pass)
      → (not (is_text_entry "hysteria2" (field_of "type" pass))
          || is_hop_interval (
              field_of "hop-interval" (normalize_hop_interval repr single_of_list ip_version pass)))
        ≡ true
  hop_of_type pass = elim (Bool-cases (is_text_entry "hysteria2" (field_of "type" pass))) [
    | inl e ↦
        rw (normalize_hop_interval_lem pass e)
          (or-true (not (is_text_entry "hysteria2" (field_of "type" pass))))
    | inr e ↦ rw e refl
  ]

  ech_step_hop :
      (pass : Pass)
      → field_of "hop-interval" (normalize_ech repr single_of_list ip_version pass)
        ≡ field_of "hop-interval" pass
  unfolding normalize_ech
  ech_step_hop pass =
      ech_step-Keeps repr single_of_list ip_version (field_of "ech-opts" pass) pass "hop-interval"
        refl

  -- The fingerprint of a normalized node, if there is one, is a SHA256 pin once it is written as a text and
  -- stripped; its hop-interval, if it is a hysteria2 node and has one, is a positive whole number; and it does not
  -- combine the vision flow with plain smux.
  pub normalize_proxy_clean :
      (proxy : Dict Value)
      → (is_pinned
            (lookup "fingerprint" (normalize_proxy repr single_of_list ip_version proxy).proxy)
          ≡ true)
        × ((not (
                is_text_entry "hysteria2"
                  (lookup "type" (normalize_proxy repr single_of_list ip_version proxy).proxy))
              || is_hop_interval (
                  lookup "hop-interval"
                    (normalize_proxy repr single_of_list ip_version proxy).proxy))
            ≡ true)
        × ((is_vision repr single_of_list ip_version
                (lookup "flow" (normalize_proxy repr single_of_list ip_version proxy).proxy)
              && is_plain_smux_entry
                  (lookup "smux" (normalize_proxy repr single_of_list ip_version proxy).proxy))
            ≡ false)
  unfolding normalize_proxy normalized_pass first_steps last_steps
  normalize_proxy_clean proxy =
      let ported = normalize_port (first_steps repr single_of_list ip_version proxy) in
      let hopped = normalize_hop_interval repr single_of_list ip_version ported in
      let middle = normalize_ech repr single_of_list ip_version hopped in
      let fixed = normalize_fingerprint repr single_of_list ip_version middle in
      let client = normalize_client_fingerprint repr single_of_list ip_version fixed in
      let result = (normalize_proxy repr single_of_list ip_version proxy).proxy in
      let same_pin : lookup "fingerprint" result ≡ field_of "fingerprint" fixed =
        normalize_smux-Keeps repr single_of_list ip_version client "fingerprint" refl
        ∙ normalize_client_fingerprint-Keeps repr single_of_list ip_version fixed "fingerprint"
            refl in
      let same_type : lookup "type" result ≡ field_of "type" ported =
        last_steps-lookup repr single_of_list ip_version middle "type" refl refl refl
        ∙ hop_and_ech-lookup repr single_of_list ip_version ported "type" refl refl in
      let same_hop : lookup "hop-interval" result ≡ field_of "hop-interval" hopped =
        last_steps-lookup repr single_of_list ip_version middle "hop-interval" refl refl refl
        ∙ ech_step_hop hopped in
      (
        ap is_pinned same_pin ∙ normalize_fingerprint_lem middle,
        ap
              (λ o.
                not (is_text_entry "hysteria2" o) || is_hop_interval (lookup "hop-interval" result))
              same_type
            ∙ (ap
                  (λ o.
                    not (is_text_entry "hysteria2" (field_of "type" ported)) || is_hop_interval o)
                  same_hop
                ∙ hop_of_type ported),
        normalize_smux_lem client,
      )
