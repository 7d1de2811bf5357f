-- ===== src/Normalizer/Proxy/Keeps.antt =====
-- What the normalization of a node leaves as it is.
use clash_config_gen.Prelude.{
  ℕ, String, ◌≡◌, refl, ap, ◌∙◌, ◌⊎◌, inl, inr, Bool, true, false, not, ◌&&◌, ◌||◌, Option, none,
  some, List, [], ◌∷◌, arith, ◌==◌, if◌then◌else◌, Bool-cases,
}
use clash_config_gen.Prelude.Dict.{
  Dict, contains, lookup, lookup-put, lookup-put_apart, lookup-erase_apart,
}
use clash_config_gen.Prelude.Text.{strip, lower}
use clash_config_gen.Value.{Value, text, table, number, fields_of, truthy_entry, str}
use clash_config_gen.Normalizer.{
  browser_client_fingerprints, is_certificate_pin, normalize_ech_opts,
  normalize_hysteria2_hop_interval, normalize_server_address, parse_strict_port,
}
use clash_config_gen.Normalizer.Proxy.{
  Pass, type_step, name_step, server_step, port_result, port_step, hop_result, hop_step, ech_result,
  ech_step, move_fingerprint, fingerprint_text, is_given, stripped, client_text, field_of,
  is_text_entry, is_plain_smux_entry, is_vision, warn_some, set_field, drop_field, normalize_type,
  normalize_name, normalize_server, normalize_port, normalize_hop_interval, normalize_ech,
  normalize_fingerprint, normalize_client_fingerprint, normalize_smux, normalized_pass,
  normalize_proxy,
}

-- The keys that a step may write or remove.
abbrev pub normalized_keys : List String
normalized_keys =
    "type" ∷ "name" ∷ "server" ∷ "port" ∷ "hop-interval" ∷ "ech-opts" ∷ "fingerprint"
    ∷ "client-fingerprint" ∷ "smux" ∷ []

-- A step that leaves the entry of a key as it is.
abbrev Keeps : String → Pass → Pass → Type 0
Keeps k pass after = lookup k after.proxy ≡ lookup k pass.proxy

warn_some-Keeps :
    (w : Option String) (pass after : Pass) (k : String)
    → Keeps k pass after
    → Keeps k pass (warn_some w after)
warn_some-Keeps none pass after k h = h
warn_some-Keeps (some w) pass after k h = h

if-Keeps :
    (b : Bool) (k : String) (pass one other : Pass)
    → Keeps k pass one
    → Keeps k pass other
    → Keeps k pass (if b then one else other)
if-Keeps true k pass one other h g = h
if-Keeps false k pass one other h g = g

set_field-Keeps :
    (key k : String) (v : Value) (pass : Pass)
    → (key == k) ≡ false
    → Keeps k pass (set_field key v pass)
set_field-Keeps key k v pass h = lookup-put_apart key k v pass.proxy h

drop_field-Keeps :
    (key k : String) (pass : Pass) → (key == k) ≡ false → Keeps k pass (drop_field key pass)
drop_field-Keeps key k pass h = lookup-erase_apart key k pass.proxy h

port_result-Keeps :
    (r : String ⊎ ℕ) (pass : Pass) (k : String)
    → ("port" == k) ≡ false
    → Keeps k pass (port_result r pass)
port_result-Keeps (inl message) pass k h = refl
port_result-Keeps (inr port) pass k h = set_field-Keeps "port" k (number port) pass h

hop_result-Keeps :
    (r : Option ℕ) (pass : Pass) (k : String)
    → ("hop-interval" == k) ≡ false
    → Keeps k pass (hop_result r pass)
hop_result-Keeps none pass k h = drop_field-Keeps "hop-interval" k pass h
hop_result-Keeps (some seconds) pass k h = set_field-Keeps "hop-interval" k (number seconds) pass h

ech_result-Keeps :
    (r : Option (Dict Value) × List String) (pass : Pass) (k : String)
    → ("ech-opts" == k) ≡ false
    → Keeps k pass (ech_result r pass)
ech_result-Keeps (none, warnings) pass k h = drop_field-Keeps "ech-opts" k pass h
ech_result-Keeps (some opts, warnings) pass k h =
    set_field-Keeps "ech-opts" k (table (fields_of opts)) pass h

move_fingerprint-Keeps :
    (name : String) (pass : Pass) (k : String)
    → ("fingerprint" == k) ≡ false
    → ("client-fingerprint" == k) ≡ false
    → Keeps k pass (move_fingerprint name pass)
move_fingerprint-Keeps name pass k h g =
    elim (Bool-cases (truthy_entry (field_of "client-fingerprint" pass))) [
      | inl e ↦ rw e (drop_field-Keeps "fingerprint" k pass h)
      | inr e ↦ rw e (
          drop_field-Keeps "fingerprint" k (set_field "client-fingerprint" (text name) pass) h
          ∙ set_field-Keeps "client-fingerprint" k (text name) pass g)
    ]

fingerprint_text-Keeps :
    (raw : String) (pass : Pass) (k : String)
    → ("fingerprint" == k) ≡ false
    → ("client-fingerprint" == k) ≡ false
    → Keeps k pass (fingerprint_text raw pass)
fingerprint_text-Keeps raw pass k h g =
    let dropped : Keeps k pass (drop_field "fingerprint" pass) =
      drop_field-Keeps "fingerprint" k pass h in
    if-Keeps (lower raw == "none") k pass _ _ dropped (
      if-Keeps (contains browser_client_fingerprints (lower raw)) k pass _ _
        (move_fingerprint-Keeps (lower raw) pass k h g)
        (if-Keeps (not (is_certificate_pin raw)) k pass _ _ dropped refl))

client_text-Keeps :
    (raw : String) (pass : Pass) (k : String)
    → ("client-fingerprint" == k) ≡ false
    → Keeps k pass (client_text raw pass)
client_text-Keeps raw pass k h =
    if-Keeps (raw == "" || lower raw == "none") k pass _ _
      (drop_field-Keeps "client-fingerprint" k pass h)
      (if-Keeps (not (is_text_entry raw (field_of "client-fingerprint" pass))) k pass _ _
        (set_field-Keeps "client-fingerprint" k (text raw) pass h) refl)

module _ (repr : Value → String) (single_of_list : String → Option Value)
    (ip_version : String → Option ℕ) where
  type_step-Keeps :
      (o : Option Value) (pass : Pass) (k : String)
      → ("type" == k) ≡ false
      → Keeps k pass (type_step repr single_of_list ip_version o pass)
  type_step-Keeps none pass k h = refl
  type_step-Keeps (some v) pass k h =
      if-Keeps (lower (strip (str repr v)) == "hy2") k pass _ _
        (set_field-Keeps "type" k (text "hysteria2") pass h)
        (set_field-Keeps "type" k (text (lower (strip (str repr v)))) pass h)

  name_step-Keeps :
      (o : Option Value) (pass : Pass) (k : String)
      → ("name" == k) ≡ false
      → Keeps k pass (name_step repr single_of_list ip_version o pass)
  name_step-Keeps none pass k h = refl
  name_step-Keeps (some v) pass k h = set_field-Keeps "name" k (text (strip (str repr v))) pass h

  server_step-Keeps :
      (o : Option Value) (pass : Pass) (k : String)
      → ("server" == k) ≡ false
      → Keeps k pass (server_step repr single_of_list ip_version o pass)
  server_step-Keeps none pass k h = refl
  server_step-Keeps (some v) pass k h =
      let r = normalize_server_address repr single_of_list ip_version v in
      warn_some-Keeps r.1 pass (set_field "server" (text r.0) pass) k
        (set_field-Keeps "server" k (text r.0) pass h)

  hop_step-Keeps :
      (b : Bool) (o : Option Value) (pass : Pass) (k : String)
      → ("hop-interval" == k) ≡ false
      → Keeps k pass (hop_step repr single_of_list ip_version b o pass)
  hop_step-Keeps b none pass k h = refl
  hop_step-Keeps b (some v) pass k h =
      if-Keeps b k pass _ _ (hop_result-Keeps (normalize_hysteria2_hop_interval repr v) pass k h)
        refl

  pub ech_step-Keeps :
      (o : Option Value) (pass : Pass) (k : String)
      → ("ech-opts" == k) ≡ false
      → Keeps k pass (ech_step repr single_of_list ip_version o pass)
  ech_step-Keeps none pass k h = refl
  ech_step-Keeps (some v) pass k h = ech_result-Keeps (normalize_ech_opts repr v) pass k h

  pub normalize_smux-Keeps :
      (pass : Pass) (k : String)
      → ("smux" == k) ≡ false
      → Keeps k pass (normalize_smux repr single_of_list ip_version pass)
  unfolding normalize_smux
  normalize_smux-Keeps pass k h =
      if-Keeps
        (is_vision repr single_of_list ip_version (field_of "flow" pass)
          && is_plain_smux_entry (field_of "smux" pass))
        k pass _ _ (drop_field-Keeps "smux" k pass h) refl

  pub normalize_fingerprint-Keeps :
      (pass : Pass) (k : String)
      → ("fingerprint" == k) ≡ false
      → ("client-fingerprint" == k) ≡ false
      → Keeps k pass (normalize_fingerprint repr single_of_list ip_version pass)
  unfolding normalize_fingerprint
  normalize_fingerprint-Keeps pass k h g =
      if-Keeps (is_given (field_of "fingerprint" pass)) k pass _ _
        (fingerprint_text-Keeps
          (stripped repr single_of_list ip_version (field_of "fingerprint" pass)) pass k h g)
        refl

  pub normalize_client_fingerprint-Keeps :
      (pass : Pass) (k : String)
      → ("client-fingerprint" == k) ≡ false
      → Keeps k pass (normalize_client_fingerprint repr single_of_list ip_version pass)
  unfolding normalize_client_fingerprint
  normalize_client_fingerprint-Keeps pass k h =
      if-Keeps (is_given (field_of "client-fingerprint" pass)) k pass _ _
        (client_text-Keeps
          (stripped repr single_of_list ip_version (field_of "client-fingerprint" pass)) pass k h)
        refl

  port_step-Keeps :
      (o : Option Value) (pass : Pass) (k : String)
      → ("port" == k) ≡ false
      → Keeps k pass (port_step o pass)
  port_step-Keeps none pass k h = refl
  port_step-Keeps (some v) pass k h = port_result-Keeps (parse_strict_port "端口" v) pass k h

  -- The steps before the port's, and those after it.
  unfoldable pub first_steps : Dict Value → Pass
  first_steps proxy = normalize_server repr single_of_list ip_version (
      normalize_name repr single_of_list ip_version
        (normalize_type repr single_of_list ip_version (record { proxy = proxy; warnings = [] })))

  first_steps-lookup :
      (proxy : Dict Value) (k : String)
      → ("type" == k) ≡ false
      → ("name" == k) ≡ false
      → ("server" == k) ≡ false
      → lookup k (first_steps proxy).proxy ≡ lookup k proxy
  unfolding first_steps normalize_type normalize_name normalize_server
  first_steps-lookup proxy k t n s =
      let start : Pass = record { proxy = proxy; warnings = [] } in
      let typed = normalize_type repr single_of_list ip_version start in
      let named = normalize_name repr single_of_list ip_version typed in
      server_step-Keeps (field_of "server" named) named k s
      ∙ (name_step-Keeps (field_of "name" typed) typed k n
          ∙ type_step-Keeps (field_of "type" start) start k t)

  -- Without the keys of a fingerprint and of smux.
  unfoldable pub last_steps : Pass → Pass
  last_steps pass = normalize_smux repr single_of_list ip_version (
      normalize_client_fingerprint repr single_of_list ip_version
        (normalize_fingerprint repr single_of_list ip_version pass))

  pub last_steps-lookup :
      (pass : Pass) (k : String)
      → ("fingerprint" == k) ≡ false
      → ("client-fingerprint" == k) ≡ false
      → ("smux" == k) ≡ false
      → lookup k (last_steps pass).proxy ≡ lookup k pass.proxy
  unfolding last_steps
  last_steps-lookup pass k f c s =
      let fixed = normalize_fingerprint repr single_of_list ip_version pass in
      let client = normalize_client_fingerprint repr single_of_list ip_version fixed in
      normalize_smux-Keeps client k s
      ∙ (normalize_client_fingerprint-Keeps fixed k c ∙ normalize_fingerprint-Keeps pass k f c)

  pub hop_and_ech-lookup :
      (pass : Pass) (k : String)
      → ("hop-interval" == k) ≡ false
      → ("ech-opts" == k) ≡ false
      → lookup k
          (normalize_ech repr single_of_list ip_version
            (normalize_hop_interval repr single_of_list ip_version pass)).proxy
        ≡ lookup k pass.proxy
  unfolding normalize_ech normalize_hop_interval
  hop_and_ech-lookup pass k h e =
      let hopped = normalize_hop_interval repr single_of_list ip_version pass in
      ech_step-Keeps (field_of "ech-opts" hopped) hopped k e
      ∙ hop_step-Keeps (is_text_entry "hysteria2" (field_of "type" pass))
          (field_of "hop-interval" pass) pass k h

  -- The normalization leaves every entry of a node as it is whose key is none of the nine that it normalizes.
  pub normalize_proxy-lookup :
      (proxy : Dict Value) (k : String)
      → contains normalized_keys k ≡ false
      → lookup k (normalize_proxy repr single_of_list ip_version proxy).proxy ≡ lookup k proxy
  unfolding normalize_proxy normalized_pass contains normalize_port last_steps first_steps
  normalize_proxy-lookup proxy k h =
      let first = first_steps proxy in
      let ported = normalize_port first in
      let middle =
        normalize_ech repr single_of_list ip_version
          (normalize_hop_interval repr single_of_list ip_version ported) in
      last_steps-lookup middle k (ground arith) (ground arith) (ground arith)
      ∙ (hop_and_ech-lookup ported k (ground arith) (ground arith)
          ∙ (port_step-Keeps (field_of "port" first) first k (ground arith)
              ∙ first_steps-lookup proxy k (ground arith) (ground arith) (ground arith)))

  -- The name's text, stripped.
  abbrev pub named_entry : Option Value → Option Value
  named_entry none = none
  named_entry (some v) = some (text (strip (str repr v)))

  name_step_lem :
      (o : Option Value) (pass : Pass)
      → field_of "name" pass ≡ o
      → field_of "name" (name_step repr single_of_list ip_version o pass) ≡ named_entry o
  name_step_lem none pass e = e
  name_step_lem (some v) pass e = lookup-put "name" "name" (text (strip (str repr v))) pass.proxy

  pub normalize_proxy-name :
      (proxy : Dict Value)
      → lookup "name" (normalize_proxy repr single_of_list ip_version proxy).proxy
        ≡ named_entry (lookup "name" proxy)
  unfolding normalize_proxy normalized_pass normalize_port last_steps first_steps normalize_type
      normalize_name normalize_server
  normalize_proxy-name proxy =
      let start : Pass = record { proxy = proxy; warnings = [] } in
      let typed = normalize_type repr single_of_list ip_version start in
      let named = normalize_name repr single_of_list ip_version typed in
      let first = first_steps proxy in
      let ported = normalize_port first in
      let middle =
        normalize_ech repr single_of_list ip_version
          (normalize_hop_interval repr single_of_list ip_version ported) in
      last_steps-lookup middle "name" refl refl refl
      ∙ (hop_and_ech-lookup ported "name" refl refl
          ∙ (port_step-Keeps (field_of "port" first) first "name" refl
              ∙ (server_step-Keeps (field_of "server" named) named "name" refl
                  ∙ (name_step_lem (field_of "name" typed) typed refl
                      ∙ ap named_entry
                          (type_step-Keeps (field_of "type" start) start "name" refl)))))
