-- ===== src/Normalizer/Proxy.antt =====
-- `normalize_proxy` of src/normalizer.py, step by step. A step takes the node and the warnings so far.
pub mod Keeps
pub mod Checked
pub mod Cleaned
use clash_config_gen.Prelude.{
  ℕ, zero, suc, ◌+◌, ◌-◌, ◌*◌, ◌/◌, ◌%◌, ◌≤◌, ◌<◌, String, ◌<>◌, ◌≡◌, refl, sym, ap, ◌∙◌, ◌≢◌, ◌↔◌,
  ◌⊎◌, inl, inr, Bool, true, false, not, ◌&&◌, ◌||◌, Option, none, some, List, [], ◌∷◌, ◌++◌, map,
  arith, ◌==◌, eq_iff, eq_refl, ltb, leb, eqb, if◌then◌else◌, ltb→lt, lt→ltb, leb→le, le→leb,
  eqb_iff, Bool-cases, Option-cases, length, filter, count, any, all, find, length-append,
  filter-append, count-append, count-le-length, any-append, All, All-append,
}
use clash_config_gen.Prelude.Dict.{Dict, contains, lookup, has_key, put, erase}
use clash_config_gen.Prelude.Text.{strip, lower, contains_text}
use clash_config_gen.Value.{
  Value, null, boolean, integer, real, number, text, array, table, Fields, entries, fields_of,
  truthy, truthy_entry, is_text, str,
}
use clash_config_gen.Normalizer.{
  browser_client_fingerprints, parse_strict_port, normalize_bool_value, is_true, is_certificate_pin,
  normalize_hysteria2_hop_interval, normalize_ech_opts, normalize_server_address,
  validate_proxy_fields,
}

pub record Pass : Type 0 where
  pub proxy : Dict Value
  pub warnings : List String

abbrev pub warn : String → Pass → Pass
warn warning pass = record pass { warnings = pass.warnings ++ warning ∷ [] }

abbrev pub warn_some : Option String → Pass → Pass
warn_some none pass = pass
warn_some (some warning) pass = warn warning pass

abbrev pub set_field : String → Value → Pass → Pass
set_field key v pass = record pass { proxy = put key v pass.proxy }

abbrev pub drop_field : String → Pass → Pass
drop_field key pass = record pass { proxy = erase key pass.proxy }

abbrev pub field_of : String → Pass → Option Value
field_of key pass = lookup key pass.proxy

-- `normalized.get("type") == "hysteria2"`
abbrev pub is_text_entry : String → Option Value → Bool
is_text_entry s none = false
is_text_entry s (some v) = is_text s v

abbrev port_result : String ⊎ ℕ → Pass → Pass
port_result (inl message) pass = pass
port_result (inr port) pass = set_field "port" (number port) pass

-- A port that is none is kept for the validation to report.
abbrev port_step : Option Value → Pass → Pass
port_step none pass = pass
port_step (some v) pass = port_result (parse_strict_port "端口" v) pass

unfoldable pub normalize_port : Pass → Pass
unfolding put lookup parse_strict_port
normalize_port pass = port_step (field_of "port" pass) pass

abbrev hop_result : Option ℕ → Pass → Pass
hop_result none pass = warn "已移除无法解析为正整数秒的 hop-interval" (drop_field "hop-interval" pass)
hop_result (some seconds) pass = set_field "hop-interval" (number seconds) pass

abbrev warn_all : List String → Pass → Pass
warn_all warnings pass = record pass { warnings = pass.warnings ++ warnings }

abbrev ech_result : Option (Dict Value) × List String → Pass → Pass
ech_result (none, warnings) pass = warn_all warnings (drop_field "ech-opts" pass)
ech_result (some opts, warnings) pass =
    warn_all warnings (set_field "ech-opts" (table (fields_of opts)) pass)

-- A browser's name moves to client-fingerprint, unless that has a value.
abbrev move_fingerprint : String → Pass → Pass
move_fingerprint name pass = warn "已将 fingerprint 转换为 client-fingerprint，避免 mihomo 当作证书固定字段" (
    drop_field "fingerprint" (
      if truthy_entry (field_of "client-fingerprint" pass)
      then pass
      else set_field "client-fingerprint" (text name) pass))

abbrev fingerprint_text : String → Pass → Pass
fingerprint_text raw pass =
    if lower raw == "none"
    then warn "已移除 fingerprint=none" (drop_field "fingerprint" pass)
    else if contains browser_client_fingerprints (lower raw)
    then move_fingerprint (lower raw) pass
    else if not (is_certificate_pin raw)
    then warn "已移除不符合 SHA256 证书固定格式的 fingerprint" (drop_field "fingerprint" pass)
    else pass

-- `if value is not None`
abbrev is_given : Option Value → Bool
is_given none = false
is_given (some null) = false
is_given (some _) = true

abbrev client_text : String → Pass → Pass
client_text raw pass =
    if raw == "" || lower raw == "none"
    then warn "已移除空 client-fingerprint" (drop_field "client-fingerprint" pass)
    else if not (is_text_entry raw (field_of "client-fingerprint" pass))
    then set_field "client-fingerprint" (text raw) pass
    else pass

abbrev entry_of_table : String → Value → Option Value
entry_of_table key (table fs) = lookup key (entries fs)
entry_of_table key _ = none

abbrev smux_enabled : Value → Bool
smux_enabled null = false
smux_enabled (boolean b) = b
smux_enabled (integer n) = is_true (normalize_bool_value (some (integer n)))
smux_enabled (real s n) = false
smux_enabled (text s) = is_true (normalize_bool_value (some (text s)))
smux_enabled (array vs) = false
smux_enabled (table fs) = is_true (normalize_bool_value (lookup "enabled" (entries fs)))

abbrev is_enabled_table : Option Value → Bool
is_enabled_table none = false
is_enabled_table (some v) = is_true (normalize_bool_value (entry_of_table "enabled" v))

-- smux that is on, and without Brutal.
unfoldable pub is_plain_smux : Value → Bool
unfolding normalize_bool_value lookup
is_plain_smux v = smux_enabled v && not (is_enabled_table (entry_of_table "brutal-opts" v))

abbrev pub is_plain_smux_entry : Option Value → Bool
is_plain_smux_entry none = false
is_plain_smux_entry (some v) = is_plain_smux v

pub record NormalizationResult : Type 0 where
  pub proxy : Dict Value
  pub warnings : List String
  pub errors : List String

module _ (repr : Value → String) (single_of_list : String → Option Value)
    (ip_version : String → Option ℕ) where
  abbrev type_step : Option Value → Pass → Pass
  type_step none pass = pass
  type_step (some v) pass =
      let kind = lower (strip (str repr v)) in
      if kind == "hy2"
      then warn "已将协议类型 hy2 规范化为 hysteria2" (set_field "type" (text "hysteria2") pass)
      else set_field "type" (text kind) pass

  unfoldable pub normalize_type : Pass → Pass
  unfolding put lookup lower strip str
  normalize_type pass = type_step (field_of "type" pass) pass

  abbrev name_step : Option Value → Pass → Pass
  name_step none pass = pass
  name_step (some v) pass = set_field "name" (text (strip (str repr v))) pass

  unfoldable pub normalize_name : Pass → Pass
  unfolding put lookup strip str
  normalize_name pass = name_step (field_of "name" pass) pass

  abbrev server_step : Option Value → Pass → Pass
  server_step none pass = pass
  server_step (some v) pass =
      let (server, warning) = normalize_server_address repr single_of_list ip_version v in
      warn_some warning (set_field "server" (text server) pass)

  unfoldable pub normalize_server : Pass → Pass
  unfolding put lookup normalize_server_address
  normalize_server pass = server_step (field_of "server" pass) pass

  abbrev hop_step : Bool → Option Value → Pass → Pass
  hop_step is_hysteria2 none pass = pass
  hop_step is_hysteria2 (some v) pass =
      if is_hysteria2 then hop_result (normalize_hysteria2_hop_interval repr v) pass else pass

  unfoldable pub normalize_hop_interval : Pass → Pass
  unfolding put erase lookup is_text normalize_hysteria2_hop_interval
  normalize_hop_interval pass =
      hop_step (is_text_entry "hysteria2" (field_of "type" pass)) (field_of "hop-interval" pass)
        pass

  abbrev ech_step : Option Value → Pass → Pass
  ech_step none pass = pass
  ech_step (some v) pass = ech_result (normalize_ech_opts repr v) pass

  unfoldable pub normalize_ech : Pass → Pass
  unfolding put erase lookup normalize_ech_opts
  normalize_ech pass = ech_step (field_of "ech-opts" pass) pass

  abbrev stripped : Option Value → String
  stripped none = ""
  stripped (some v) = strip (str repr v)

  unfoldable pub normalize_fingerprint : Pass → Pass
  unfolding put erase lookup contains lower strip str truthy is_certificate_pin
  normalize_fingerprint pass =
      if is_given (field_of "fingerprint" pass)
      then fingerprint_text (stripped (field_of "fingerprint" pass)) pass
      else pass

  unfoldable pub normalize_client_fingerprint : Pass → Pass
  unfolding put erase lookup lower strip str is_text
  normalize_client_fingerprint pass =
      if is_given (field_of "client-fingerprint" pass)
      then client_text (stripped (field_of "client-fingerprint" pass)) pass
      else pass

  -- `str(normalized.get("flow") or "").strip().lower()`
  abbrev flow_of : Option Value → String
  flow_of none = ""
  flow_of (some v) = if truthy v then lower (strip (str repr v)) else ""

  unfoldable pub is_vision : Option Value → Bool
  unfolding contains_text lower strip str truthy
  is_vision flow = contains_text "xtls-rprx-vision" (flow_of flow)

  unfoldable pub normalize_smux : Pass → Pass
  unfolding lookup erase is_vision is_plain_smux
  normalize_smux pass =
      if is_vision (field_of "flow" pass) && is_plain_smux_entry (field_of "smux" pass)
      then warn "已自动移除与 xtls-rprx-vision 互斥的 smux 多路复用配置" (drop_field "smux" pass)
      else pass

  -- All steps, before the validation.
  unfoldable pub normalized_pass : Dict Value → Pass
  normalized_pass proxy = normalize_smux (
      normalize_client_fingerprint (
        normalize_fingerprint (
          normalize_ech (
            normalize_hop_interval (
              normalize_port (
                normalize_server
                  (normalize_name (normalize_type (record { proxy = proxy; warnings = [] })))))))))

  unfoldable pub normalize_proxy : Dict Value → NormalizationResult
  unfolding normalized_pass validate_proxy_fields
  normalize_proxy proxy =
      let pass = normalized_pass proxy in
      record {
        proxy = pass.proxy;
        warnings = pass.warnings;
        errors = validate_proxy_fields repr pass.proxy;
      }

  abbrev name_or_last : Option Value → String
  name_or_last none = "未命名节点"
  name_or_last (some v) = if truthy v then str repr v else "未命名节点"

  abbrev pub name_or : Option Value → Option Value → String
  name_or (some v) other = if truthy v then str repr v else name_or_last other
  name_or none other = name_or_last other

  -- `normalize_proxies`: the nodes, the warnings and the errors, each with the node's name.
  unfoldable pub normalize_proxies :
      List (Dict Value) → List (Dict Value) × (List String × List String)
  unfolding normalize_proxy lookup truthy str ◌<>◌
  normalize_proxies [] = ([], ([], []))
  normalize_proxies (proxy ∷ proxies) =
      let result = normalize_proxy proxy in
      let name = name_or (lookup "name" result.proxy) (lookup "name" proxy) in
      let (nodes, (warnings, errors)) = normalize_proxies proxies in
      (
        result.proxy ∷ nodes,
        (
          map (λ w. "节点 " <> (name <> (": " <> w))) result.warnings ++ warnings,
          map (λ e. "节点 " <> (name <> (": " <> e))) result.errors ++ errors,
        ),
      )

  unfoldable pub normalize_proxies_for_mihomo : List (Dict Value) → List (Dict Value)
  unfolding normalize_proxies
  normalize_proxies_for_mihomo proxies = (normalize_proxies proxies).0

  unfoldable pub normalize_proxy_for_mihomo : Dict Value → Dict Value
  unfolding normalize_proxy
  normalize_proxy_for_mihomo proxy = (normalize_proxy proxy).proxy
