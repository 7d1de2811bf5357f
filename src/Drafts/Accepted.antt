-- ===== src/Drafts/Accepted.antt =====
-- What `_normalize_draft` accepts.
use clash_config_gen.Prelude.{
  ℕ, suc, String, ◌<>◌, ◌≡◌, refl, sym, ap, ◌∙◌, ◌⊎◌, inl, inr, Bool, true, false, not, ◌&&◌, ◌||◌,
  Option, none, some, List, [], ◌∷◌, ◌++◌, arith, ◌==◌, ltb, leb, Bool-cases, length, any, all,
  any-append,
}
use clash_config_gen.Prelude.{if_lem}
use clash_config_gen.Prelude.Dict.{Dict, lookup}
use clash_config_gen.Prelude.Int.{ℤ, pos, negsuc}
use clash_config_gen.Prelude.Text.{size, contains_text, has_prefix, decimal_from}
use clash_config_gen.Value.{Value, null, boolean, integer, real, text, array, table, entries}
use clash_config_gen.Normalizer.{
  is_decimal, parse_strict_port, port_in_range, port_errors, port_error_of, missing_fields,
  missing_errors, validate_proxy_fields, type_text,
}
use clash_config_gen.Drafts.{accepted, Accepts, then-Accepts, raise_if-Accepts, raise_if_lem}
use clash_config_gen.Drafts.Intake.{
  is_port_error, check_proxies, check_name, stripped_name, check_rules, check_provider,
  check_providers, is_text_or_none, is_interval,
}

-- A text with another before it.
pub contains_text-append :
    (sub before s : String) → contains_text sub s ≡ true → contains_text sub (before <> s) ≡ true
unfolding contains_text ◌<>◌
contains_text-append sub String.[] s h = h
contains_text-append sub (String.◌∷◌ c before) s h =
    ground (arith, contains_text-append sub before s h)

-- A port's error is one that the draft is refused for.
port_message : String ⊎ ℕ → Bool
port_message (inl message) = is_port_error message
port_message (inr port) = true

port_in_range-port_message : (z : ℤ) → port_message (port_in_range "端口" z) ≡ true
unfolding port_message is_port_error contains_text has_prefix ◌<>◌
port_in_range-port_message (pos n) =
    if_lem port_message (leb 1 n && leb n 65535) (inr n) (inl ("端口" <> "必须在 1-65535 范围内")) refl refl
port_in_range-port_message (negsuc n) = refl

parse_strict_port-port_message : (v : Value) → port_message (parse_strict_port "端口" v) ≡ true
unfolding parse_strict_port port_message is_port_error contains_text has_prefix ◌<>◌
parse_strict_port-port_message null = refl
parse_strict_port-port_message (boolean b) = refl
parse_strict_port-port_message (integer z) = port_in_range-port_message z
parse_strict_port-port_message (real s z) = refl
parse_strict_port-port_message (text s) =
    if_lem port_message (is_decimal s) (port_in_range "端口" (pos (decimal_from 0 s)))
      (inl ("端口" <> "必须是 1-65535 范围内的十进制整数")) (port_in_range-port_message (pos (decimal_from 0 s)))
      refl
parse_strict_port-port_message (array vs) = refl
parse_strict_port-port_message (table fs) = refl

abbrev pub no_errors : List String → Bool
no_errors [] = true
no_errors (_ ∷ _) = false

port_error_of_lem :
    (r : String ⊎ ℕ)
    → port_message r ≡ true
    → any is_port_error (port_error_of r) ≡ false
    → no_errors (port_error_of r) ≡ true
unfolding port_message
port_error_of_lem (inl m) h e = absurd (ground (arith, h, e))
port_error_of_lem (inr n) h e = refl

port_errors_lem :
    (o : Option Value)
    → any is_port_error (port_errors o) ≡ false
    → no_errors (port_errors o) ≡ true
port_errors_lem none h = refl
port_errors_lem (some v) h =
    port_error_of_lem (parse_strict_port "端口" v) (parse_strict_port-port_message v) h

-- A MASQUE node, which every check reports, or a node whose port is faultless.
abbrev pub has_port : (Value → String) → Dict Value → Bool
has_port repr proxy =
    type_text repr (lookup "type" proxy) == "masque"
    || no_errors (port_errors (lookup "port" proxy))

pub validate_proxy_fields-has_port :
    (repr : Value → String) (proxy : Dict Value)
    → any is_port_error (validate_proxy_fields repr proxy) ≡ false
    → has_port repr proxy ≡ true
unfolding validate_proxy_fields
validate_proxy_fields-has_port repr proxy h =
    elim (Bool-cases (type_text repr (lookup "type" proxy) == "masque")) [
      | inl m ↦ rw m refl
      | inr m ↦
          let missing = missing_errors (missing_fields repr proxy) in
          let q : any is_port_error (missing ++ port_errors (lookup "port" proxy)) ≡ false =
            sym (rw (m, validate_proxy_fields) refl) ∙ h in
          let both : (any is_port_error missing
                || any is_port_error (port_errors (lookup "port" proxy)))
              ≡ false =
            sym (any-append is_port_error missing (port_errors (lookup "port" proxy))) ∙ q in
          rw m (port_errors_lem (lookup "port" proxy) (ground (arith, both)))
    ]

abbrev pub is_name : String → Bool
is_name s = not (s == "") && leb (size s) 128

check_name_lem :
    (index : ℕ) (name : String) → Accepts (λ _. is_name name ≡ true) (check_name index name)
check_name_lem index name =
    raise_if-Accepts (λ _. is_name name ≡ true) (name == "") 400 _ _
      (λ a.
        raise_if_lem (is_name name ≡ true) (ltb 128 (size name)) 400 _ (λ b. ground (arith, a, b)))

pub check_proxies_lem :
    (repr : Value → String) (index : ℕ) (vs : List Value)
    → Accepts
        (λ ds.
          (length ds ≡ length vs)
          × (all (λ d. is_name (stripped_name repr (lookup "name" d))) ds ≡ true))
        (check_proxies repr index vs)
unfolding check_proxies
check_proxies_lem repr index [] = (refl, refl)
check_proxies_lem repr index (table fs ∷ vs) =
    let name = stripped_name repr (lookup "name" (entries fs)) in
    let is_ok : Dict Value → Bool = λ d. is_name (stripped_name repr (lookup "name" d)) in
    then-Accepts (λ _. is_name name ≡ true)
      (λ ds. (length ds ≡ suc (length vs)) × (all is_ok ds ≡ true)) (check_name index name) _
      (check_name_lem index name)
      (λ _ named.
        then-Accepts (λ ds. (length ds ≡ length vs) × (all is_ok ds ≡ true))
          (λ ds. (length ds ≡ suc (length vs)) × (all is_ok ds ≡ true))
          (check_proxies repr (suc index) vs) (λ rest. accepted (entries fs ∷ rest))
          (check_proxies_lem repr (suc index) vs)
          (λ ds h. (ap (λ n. suc n) h.0, ground (arith, named, h.1))))
check_proxies_lem repr index (null ∷ vs) = tt
check_proxies_lem repr index (boolean b ∷ vs) = tt
check_proxies_lem repr index (integer n ∷ vs) = tt
check_proxies_lem repr index (real s n ∷ vs) = tt
check_proxies_lem repr index (text s ∷ vs) = tt
check_proxies_lem repr index (array ws ∷ vs) = tt

pub check_rules_lem :
    (index : ℕ) (vs : List Value)
    → Accepts
        (λ rs. (length rs ≡ length vs) × (all (λ r. leb (size r) 512) rs ≡ true))
        (check_rules index vs)
unfolding check_rules
check_rules_lem index [] = (refl, refl)
check_rules_lem index (text s ∷ vs) =
    raise_if-Accepts (λ rs. (length rs ≡ suc (length vs)) × (all (λ r. leb (size r) 512) rs ≡ true))
      (ltb 512 (size s)) 400 _ _
      (λ short.
        then-Accepts (λ rs. (length rs ≡ length vs) × (all (λ r. leb (size r) 512) rs ≡ true))
          (λ rs. (length rs ≡ suc (length vs)) × (all (λ r. leb (size r) 512) rs ≡ true))
          (check_rules (suc index) vs) (λ rest. accepted (s ∷ rest))
          (check_rules_lem (suc index) vs)
          (λ rs h. (ap (λ n. suc n) h.0, ground (arith, short, h.1))))
check_rules_lem index (null ∷ vs) = tt
check_rules_lem index (boolean b ∷ vs) = tt
check_rules_lem index (integer n ∷ vs) = tt
check_rules_lem index (real s n ∷ vs) = tt
check_rules_lem index (array ws ∷ vs) = tt
check_rules_lem index (table fs ∷ vs) = tt

abbrev pub is_provider : String × Dict Value → Bool
is_provider (alias, provider) =
    is_text_or_none (lookup "url" provider)
    && is_text_or_none (lookup "path" provider)
    && is_interval (lookup "interval" provider)

check_provider_lem :
    (alias : String) (provider : Dict Value)
    → Accepts (λ _. is_provider (alias, provider) ≡ true) (check_provider alias provider)
unfolding check_provider
check_provider_lem alias provider =
    raise_if-Accepts (λ _. is_provider (alias, provider) ≡ true)
      (not (is_text_or_none (lookup "url" provider))) 400 _ _
      (λ a.
        raise_if-Accepts (λ _. is_provider (alias, provider) ≡ true)
          (not (is_text_or_none (lookup "path" provider))) 400 _ _
          (λ b.
            raise_if_lem (is_provider (alias, provider) ≡ true)
              (not (is_interval (lookup "interval" provider))) 400 _
              (λ c. ground (arith, a, b, c))))

pub check_providers_lem :
    (d : Dict Value) → Accepts (λ ps. all is_provider ps ≡ true) (check_providers d)
unfolding check_providers
check_providers_lem [] = refl
check_providers_lem ((alias, table fs) ∷ d) =
    then-Accepts (λ _. is_provider (alias, entries fs) ≡ true) (λ ps. all is_provider ps ≡ true)
      (check_provider alias (entries fs)) _ (check_provider_lem alias (entries fs))
      (λ _ ok.
        then-Accepts (λ ps. all is_provider ps ≡ true) (λ ps. all is_provider ps ≡ true)
          (check_providers d) (λ rest. accepted ((alias, entries fs) ∷ rest))
          (check_providers_lem d) (λ ps h. ground (arith, ok, h)))
check_providers_lem ((alias, null) ∷ d) = tt
check_providers_lem ((alias, boolean b) ∷ d) = tt
check_providers_lem ((alias, integer n) ∷ d) = tt
check_providers_lem ((alias, real s n) ∷ d) = tt
check_providers_lem ((alias, text s) ∷ d) = tt
check_providers_lem ((alias, array ws) ∷ d) = tt
