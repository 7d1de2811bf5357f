-- ===== src/Normalizer/Proxy/Checked.antt =====
-- A node that the normalization gives back without an error.
use clash_config_gen.Prelude.{
  ℕ, ◌≤◌, String, ◌≡◌, refl, sym, ap, ◌∙◌, ◌⊎◌, inl, inr, true, false, Option, none, some, List, [],
  ◌∷◌, ◌++◌, arith, ◌==◌, Bool-cases,
}
use clash_config_gen.Prelude.Dict.{Dict, contains, lookup, lookup-put, all-lookup, filter-contains}
use clash_config_gen.Value.{Value, number, is_blank}
use clash_config_gen.Normalizer.{
  protocol_required_fields, required_or_base, required_fields, missing_fields, missing_errors,
  port_errors, validate_proxy_fields, type_text, parse_strict_port,
}
use clash_config_gen.Normalizer.Ports.{parse_strict_port_lem}
use clash_config_gen.Normalizer.Proxy.{
  Pass, field_of, port_step, port_result, normalize_port, normalize_proxy, normalized_pass,
  normalize_hop_interval, normalize_ech,
}
use clash_config_gen.Normalizer.Proxy.Keeps.{
  first_steps, last_steps, last_steps-lookup, hop_and_ech-lookup,
}

needs_port :
    (o : Option (List String))
    → ((fields : List String) → o ≡ some fields → contains fields "port" ≡ true)
    → contains (required_or_base o) "port" ≡ true
unfolding contains
needs_port none h = refl
needs_port (some fields) h = h fields refl

required_fields-port :
    (repr : Value → String) (kind : String) → contains (required_fields repr kind) "port" ≡ true
unfolding protocol_required_fields contains
required_fields-port repr kind = needs_port (lookup kind protocol_required_fields) (λ fields e.
    all-lookup (λ fields. contains fields "port") protocol_required_fields kind fields refl e)

-- A port that is there and is a port.
abbrev pub IsPort : Option Value → Type 0
IsPort o = (n : ℕ) × ((o ≡ some (number n)) × ((1 ≤ n) × (n ≤ 65535)))

port_result_lem :
    (v : Value) (r : String ⊎ ℕ) (pass : Pass)
    → parse_strict_port "端口" v ≡ r
    → field_of "port" pass ≡ some v
    → port_errors (field_of "port" (port_result r pass)) ≡ []
    → IsPort (field_of "port" (port_result r pass))
port_result_lem v (inl m) pass e f h =
    let q : m ∷ [] ≡ [] = sym (rw (f, e) refl) ∙ h in absurd (ground (arith, q))
port_result_lem v (inr n) pass e f h =
    (n, (lookup-put "port" "port" (number n) pass.proxy, parse_strict_port_lem "端口" v n e))

port_step_lem :
    (o : Option Value) (pass : Pass)
    → field_of "port" pass ≡ o
    → is_blank (field_of "port" (port_step o pass)) ≡ false
    → port_errors (field_of "port" (port_step o pass)) ≡ []
    → IsPort (field_of "port" (port_step o pass))
unfolding is_blank
port_step_lem none pass f b h =
    let q : true ≡ false = sym (rw f refl) ∙ b in absurd (ground (arith, q))
port_step_lem (some v) pass f b h = port_result_lem v (parse_strict_port "端口" v) pass refl f h

normalize_port_lem :
    (pass : Pass)
    → is_blank (field_of "port" (normalize_port pass)) ≡ false
    → port_errors (field_of "port" (normalize_port pass)) ≡ []
    → IsPort (field_of "port" (normalize_port pass))
unfolding normalize_port
normalize_port_lem pass b h = port_step_lem (field_of "port" pass) pass refl b h

-- The steps after the port's leave it.
normalized_pass-port :
    (repr : Value → String) (single_of_list : String → Option Value)
    (ip_version : String → Option ℕ) (proxy : Dict Value)
    → lookup "port" (normalized_pass repr single_of_list ip_version proxy).proxy
      ≡ field_of "port" (normalize_port (first_steps repr single_of_list ip_version proxy))
unfolding normalized_pass first_steps last_steps
normalized_pass-port repr single_of_list ip_version proxy =
    let ported = normalize_port (first_steps repr single_of_list ip_version proxy) in
    last_steps-lookup repr single_of_list ip_version
      (normalize_ech repr single_of_list ip_version
        (normalize_hop_interval repr single_of_list ip_version ported))
      "port" refl refl refl
    ∙ hop_and_ech-lookup repr single_of_list ip_version ported "port" refl refl

append_is_nil : (xs ys : List String) → xs ++ ys ≡ [] → (xs ≡ []) × (ys ≡ [])
append_is_nil [] ys e = (refl, e)
append_is_nil (x ∷ xs) ys e = absurd (ground (arith, e))

missing_errors_lem : (missing : List String) → missing_errors missing ≡ [] → missing ≡ []
missing_errors_lem [] e = refl
missing_errors_lem (key ∷ missing) e = absurd (ground (arith, e))

validate_proxy_fields_lem :
    (repr : Value → String) (proxy : Dict Value)
    → validate_proxy_fields repr proxy ≡ []
    → (missing_fields repr proxy ≡ []) × (port_errors (lookup "port" proxy) ≡ [])
unfolding validate_proxy_fields
validate_proxy_fields_lem repr proxy e =
    elim (Bool-cases (type_text repr (lookup "type" proxy) == "masque")) [
      | inl m ↦
          let q : "不再支持 MASQUE 节点" ∷ [] ≡ [] = sym (rw (m, validate_proxy_fields) refl) ∙ e in
          absurd (ground (arith, q))
      | inr m ↦
          let q : missing_errors (missing_fields repr proxy) ++ port_errors (lookup "port" proxy)
              ≡ [] =
            sym (rw (m, validate_proxy_fields) refl) ∙ e in
          let r =
            append_is_nil (missing_errors (missing_fields repr proxy))
              (port_errors (lookup "port" proxy)) q in
          (missing_errors_lem (missing_fields repr proxy) r.0, r.1)
    ]

-- A node that `normalize_proxy` gives back without an error lacks no field that its protocol requires, and
-- its port is a whole number from 1 to 65535, not a text.
pub normalize_proxy_accepted :
    (repr : Value → String) (single_of_list : String → Option Value)
    (ip_version : String → Option ℕ) (proxy : Dict Value)
    → (normalize_proxy repr single_of_list ip_version proxy).errors ≡ []
    → (missing_fields repr (normalize_proxy repr single_of_list ip_version proxy).proxy ≡ [])
      × IsPort (lookup "port" (normalize_proxy repr single_of_list ip_version proxy).proxy)
unfolding normalize_proxy normalized_pass
normalize_proxy_accepted repr single_of_list ip_version proxy e =
    let result = (normalize_proxy repr single_of_list ip_version proxy).proxy in
    let checked = validate_proxy_fields_lem repr result e in
    let filled : is_blank (lookup "port" result) ≡ false =
      filter-contains (λ key. is_blank (lookup key result))
        (required_fields repr (type_text repr (lookup "type" result))) "port" checked.0
        (required_fields-port repr (type_text repr (lookup "type" result))) in
    let kept : lookup "port" result
        ≡ field_of "port" (normalize_port (first_steps repr single_of_list ip_version proxy)) =
      normalized_pass-port repr single_of_list ip_version proxy in
    (
      checked.0,
      rw kept (
          normalize_port_lem (first_steps repr single_of_list ip_version proxy)
            (sym (ap is_blank kept) ∙ filled) (sym (ap port_errors kept) ∙ checked.1)),
    )
