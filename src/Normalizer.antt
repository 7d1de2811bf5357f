-- ===== src/Normalizer.antt =====
-- src/normalizer.py: the fields of a node. A node is a dict of values. `repr` is Python's for a list or a dict,
-- `single_of_list` the one item of a text that `ast.literal_eval` reads as a list of one, and `ip_version`
-- the version of a text that the module ipaddress reads. `isdigit` and `\d` take ASCII digits.
pub mod Proxy
pub mod Ports
use clash_config_gen.Prelude.{
  ℕ, zero, suc, ◌+◌, ◌-◌, ◌*◌, ◌/◌, ◌%◌, ◌≤◌, ◌<◌, String, ◌<>◌, ◌≡◌, refl, sym, ap, ◌∙◌, ◌≢◌, ◌↔◌,
  ◌⊎◌, inl, inr, Bool, true, false, not, ◌&&◌, ◌||◌, Option, none, some, List, [], ◌∷◌, ◌++◌, map,
  arith, ◌==◌, eq_iff, eq_refl, ltb, leb, eqb, if◌then◌else◌, ltb→lt, lt→ltb, leb→le, le→leb,
  eqb_iff, Bool-cases, Option-cases, length, filter, count, any, all, find, length-append,
  filter-append, count-append, count-le-length, any-append, All, All-append,
}
use Prim.Native.Char.{Char, code}
use Prim.Native.String
use clash_config_gen.Prelude.Dict.{Dict, contains, lookup, has_key, put, erase}
use clash_config_gen.Prelude.Int.{ℤ, pos, negsuc, int_of_text}
use clash_config_gen.Prelude.Text.{
  strip, lower, split, join, size, all_chars, is_digit, decimal_from, starts_with_char,
  ends_with_char, truncate,
}
use clash_config_gen.Value.{
  Value, null, boolean, integer, real, number, text, array, table, Items, nil, cons, Fields,
  entries, fields_of, is_blank, str,
}

abbrev pub browser_client_fingerprints : List String
browser_client_fingerprints =
    "chrome" ∷ "firefox" ∷ "safari" ∷ "ios" ∷ "android" ∷ "edge" ∷ "360" ∷ "qq" ∷ "random"
    ∷ "randomized" ∷ []

-- `PROTOCOL_REQUIRED_FIELDS`, each set sorted.
unfoldable pub protocol_required_fields : Dict (List String)
protocol_required_fields =
    ("ss", "cipher" ∷ "name" ∷ "password" ∷ "port" ∷ "server" ∷ "type" ∷ [])
    ∷ (
      "ssr",
      "cipher" ∷ "name" ∷ "obfs" ∷ "password" ∷ "port" ∷ "protocol" ∷ "server" ∷ "type" ∷ [],
    )
    ∷ ("trojan", "name" ∷ "password" ∷ "port" ∷ "server" ∷ "type" ∷ [])
    ∷ ("vmess", "alterId" ∷ "cipher" ∷ "name" ∷ "port" ∷ "server" ∷ "type" ∷ "uuid" ∷ [])
    ∷ ("vless", "name" ∷ "port" ∷ "server" ∷ "type" ∷ "uuid" ∷ [])
    ∷ ("hysteria2", "name" ∷ "password" ∷ "port" ∷ "server" ∷ "type" ∷ [])
    ∷ ("tuic", "name" ∷ "password" ∷ "port" ∷ "server" ∷ "type" ∷ "uuid" ∷ [])
    ∷ ("anytls", "name" ∷ "password" ∷ "port" ∷ "server" ∷ "type" ∷ [])
    ∷ ("wireguard", "ip" ∷ "name" ∷ "port" ∷ "private-key" ∷ "public-key" ∷ "server" ∷ "type" ∷ [])
    ∷ []

-- A text of one ASCII digit or more: `[0-9]+`.
unfoldable pub is_decimal : String → Bool
unfolding all_chars is_digit
is_decimal s = not (s == "") && all_chars is_digit s

-- The check of the range; the other message is for what is no decimal number.
abbrev pub port_in_range : String → ℤ → String ⊎ ℕ
port_in_range label (pos n) =
    if leb 1 n && leb n 65535 then inr n else inl (label <> "必须在 1-65535 范围内")
port_in_range label (negsuc n) = inl (label <> "必须在 1-65535 范围内")

abbrev pub not_decimal : String → String
not_decimal label = label <> "必须是 1-65535 范围内的十进制整数"

-- The left side is the message of the ValueError.
unfoldable pub parse_strict_port : String → Value → String ⊎ ℕ
unfolding ◌<>◌ is_decimal decimal_from
parse_strict_port label null = inl (not_decimal label)
parse_strict_port label (boolean b) = inl (not_decimal label)
parse_strict_port label (integer n) = port_in_range label n
parse_strict_port label (real s n) = inl (not_decimal label)
parse_strict_port label (text s) =
    if is_decimal s then port_in_range label (pos (decimal_from 0 s)) else inl (not_decimal label)
parse_strict_port label (array vs) = inl (not_decimal label)
parse_strict_port label (table fs) = inl (not_decimal label)

-- `_normalize_bool_value`, of `config.get(key)`.
abbrev pub bool_of_int : ℤ → Option Bool
bool_of_int (pos n) = if eqb n 0 then some false else if eqb n 1 then some true else none
bool_of_int (negsuc n) = none

unfoldable pub normalize_bool_value : Option Value → Option Bool
unfolding contains lower strip
normalize_bool_value none = none
normalize_bool_value (some null) = none
normalize_bool_value (some (boolean b)) = some b
normalize_bool_value (some (integer n)) = bool_of_int n
normalize_bool_value (some (real s n)) = none
normalize_bool_value (some (text s)) =
    let lowered = lower (strip s) in
    if contains ("1" ∷ "true" ∷ "yes" ∷ "on" ∷ []) lowered
    then some true
    else if contains ("0" ∷ "false" ∷ "no" ∷ "off" ∷ []) lowered
    then some false
    else none
normalize_bool_value (some (array vs)) = none
normalize_bool_value (some (table fs)) = none

abbrev pub is_true : Option Bool → Bool
is_true none = false
is_true (some b) = b

-- A hexadecimal digit, of a certificate's pin.
unfoldable pub is_hex : Char → Bool
unfolding is_digit
is_hex c =
    is_digit c || (leb 65 (code c) && leb (code c) 70) || (leb 97 (code c) && leb (code c) 102)

abbrev is_hex_pair : String → Bool
is_hex_pair s = eqb (size s) 2 && all_chars is_hex s

-- `CERTIFICATE_PIN_PATTERN.fullmatch`: 64 digits, or 32 pairs with colons between them.
unfoldable pub is_certificate_pin : String → Bool
unfolding size all_chars is_hex split
is_certificate_pin s =
    (eqb (size s) 64 && all_chars is_hex s)
    || (let pairs = split b':' s in eqb (length pairs) 32 && all is_hex_pair pairs)

abbrev pub positive : ℤ → Option ℕ
positive (pos n) = if eqb n 0 then none else some n
positive (negsuc n) = none

-- `HOP_INTERVAL_RANGE_PATTERN` and the test of its two numbers.
abbrev pub range_start : List String → Option ℕ
range_start (a ∷ b ∷ []) =
    let start = decimal_from 0 (strip a) in
    let last = decimal_from 0 (strip b) in
    if is_decimal (strip a)
      && is_decimal (strip b)
      && (ltb 0 start && (ltb 0 last && leb start last))
    then some start
    else none
range_start _ = none

unfoldable pub hop_interval_of_text : String → Option ℕ
unfolding is_decimal decimal_from split strip
hop_interval_of_text s =
    if s == ""
    then none
    else if is_decimal s
    then positive (pos (decimal_from 0 s))
    else range_start (split b'-' s)

abbrev real_seconds : Option ℤ → Option ℕ
real_seconds none = none
real_seconds (some n) = positive n

-- The texts before and after: the first character and the last one dropped.
unfoldable pub inner_text : String → String
unfolding size truncate
inner_text String.[] = ""
inner_text (String.◌∷◌ c s) = truncate (size s - 1) s

module _ (repr : Value → String) where
  -- `_normalize_hysteria2_hop_interval`
  unfoldable pub normalize_hysteria2_hop_interval : Value → Option ℕ
  unfolding hop_interval_of_text strip str
  normalize_hysteria2_hop_interval null = none
  normalize_hysteria2_hop_interval (boolean b) = none
  normalize_hysteria2_hop_interval (integer n) = positive n
  normalize_hysteria2_hop_interval (real s n) = real_seconds n
  normalize_hysteria2_hop_interval (text s) = hop_interval_of_text (strip s)
  normalize_hysteria2_hop_interval (array vs) = hop_interval_of_text (strip (repr (array vs)))
  normalize_hysteria2_hop_interval (table fs) = hop_interval_of_text (strip (repr (table fs)))

  -- `enable` of ech-opts.
  abbrev ech_enable : Dict Value → Option Value → Dict Value × List String
  ech_enable opts none = (opts, [])
  ech_enable opts (some v) = elim (normalize_bool_value (some v)) [
    | none ↦ (erase "enable" opts, "已移除无法解析为布尔值的 ech-opts.enable" ∷ [])
    | some enabled ↦ (put "enable" (boolean enabled) opts, [])
  ]

  -- `config` and `query-server-name` of ech-opts.
  abbrev ech_text : String → Dict Value → Option Value → Dict Value × List String
  ech_text key opts none = (opts, [])
  ech_text key opts (some v) =
      if strip (str repr v) == ""
      then (erase key opts, ("已移除空 ech-opts." <> key) ∷ [])
      else (put key (text (strip (str repr v))) opts, [])

  abbrev is_no_entry : Dict Value → Bool
  is_no_entry [] = true
  is_no_entry (_ ∷ _) = false

  abbrev joined_warnings : List String → List String
  joined_warnings [] = []
  joined_warnings (w ∷ ws) = join "；" (w ∷ ws) ∷ []

  -- `_normalize_ech_opts`: the options that stay, and the warning, if there is one.
  unfoldable pub normalize_ech_opts : Value → Option (Dict Value) × List String
  unfolding normalize_bool_value strip str put erase lookup join ◌<>◌
  normalize_ech_opts (table fs) =
      let opts = entries fs in
      let (enabled, first) = ech_enable opts (lookup "enable" opts) in
      let (configured, second) = ech_text "config" enabled (lookup "config" enabled) in
      let (named, third) =
        ech_text "query-server-name" configured (lookup "query-server-name" configured) in
      if is_no_entry named
      then (none, "已移除空 ech-opts" ∷ [])
      else (some named, joined_warnings (first ++ (second ++ third)))
  normalize_ech_opts _ = (none, "已移除非字典 ech-opts" ∷ [])

module _ (repr : Value → String) (single_of_list : String → Option Value)
    (ip_version : String → Option ℕ) where
  abbrev is_six : Option ℕ → Bool
  is_six none = false
  is_six (some version) = eqb version 6

  abbrev is_bracketed : String → Bool
  is_bracketed s = starts_with_char b'[' s && ends_with_char b']' s

  -- `_strip_ipv6_brackets`
  unfoldable pub strip_ipv6_brackets : String → String
  unfolding starts_with_char ends_with_char strip inner_text
  strip_ipv6_brackets s =
      if not (is_bracketed s)
      then s
      else if is_six (ip_version (strip (inner_text s)))
      then strip (inner_text s)
      else s

  abbrev stripped_item : Option Value → Option String
  stripped_item none = none
  stripped_item (some v) = some (strip (str repr v))

  -- `_parse_single_string_list`
  unfoldable pub parse_single_string_list : String → Option String
  unfolding starts_with_char ends_with_char strip str
  parse_single_string_list s =
      if not (is_bracketed s) then none else stripped_item (single_of_list s)

  abbrev without_list : String → Option String → Option String → String × Option String
  without_list s warning none = (s, warning)
  without_list s warning (some item) = (item, some "已将列表字符串形式的 server 规范化为字符串")

  abbrev without_brackets : String × Option String → String × Option String
  without_brackets (s, warning) =
      if strip_ipv6_brackets s == s
      then (s, warning)
      else (strip_ipv6_brackets s, some "已移除 IPv6 server 外层方括号")

  -- From the conversion to a text on.
  abbrev server_of : Value → Option String → String × Option String
  server_of v warning =
      let s = strip (str repr v) in
      without_brackets (without_list s warning (parse_single_string_list s))

  -- `_normalize_server_address`
  unfoldable pub normalize_server_address : Value → String × Option String
  unfolding strip_ipv6_brackets parse_single_string_list strip str
  normalize_server_address (array nil) = (strip (repr (array nil)), none)
  normalize_server_address (array (cons v nil)) = server_of v (some "已将单元素 server 列表规范化为字符串")
  normalize_server_address (array (cons v (cons w vs))) =
      (strip (repr (array (cons v (cons w vs)))), none)
  normalize_server_address v = server_of v none

abbrev pub required_or_base : Option (List String) → List String
required_or_base none = "name" ∷ "port" ∷ "server" ∷ "type" ∷ []
required_or_base (some fields) = fields

abbrev pub missing_errors : List String → List String
missing_errors [] = []
missing_errors (key ∷ missing) = ("缺少必填字段: " <> join ", " (key ∷ missing)) ∷ []

abbrev pub port_error_of : String ⊎ ℕ → List String
port_error_of (inl message) = message ∷ []
port_error_of (inr port) = []

abbrev pub port_errors : Option Value → List String
port_errors none = []
port_errors (some v) = port_error_of (parse_strict_port "端口" v)

module _ (repr : Value → String) where
  -- `str(proxy.get("type", "")).strip().lower()`
  abbrev pub type_text : Option Value → String
  type_text none = ""
  type_text (some v) = lower (strip (str repr v))

  abbrev pub required_fields : String → List String
  required_fields proxy_type = required_or_base (lookup proxy_type protocol_required_fields)

  abbrev pub missing_fields : Dict Value → List String
  missing_fields proxy =
      filter (λ key. is_blank (lookup key proxy))
        (required_fields (type_text (lookup "type" proxy)))

  unfoldable pub validate_proxy_fields : Dict Value → List String
  unfolding lower strip str lookup protocol_required_fields is_blank join ◌<>◌ parse_strict_port
  validate_proxy_fields proxy =
      if type_text (lookup "type" proxy) == "masque"
      then "不再支持 MASQUE 节点" ∷ []
      else missing_errors (missing_fields proxy) ++ port_errors (lookup "port" proxy)

-- `strip_internal_proxy_metadata`: no key that begins with `_`.
abbrev pub is_internal : String × Value → Bool
is_internal (key, value) = starts_with_char b'_' key

unfoldable pub strip_internal_proxy_metadata : Dict Value → Dict Value
unfolding starts_with_char
strip_internal_proxy_metadata proxy = filter (λ e. not (is_internal e)) proxy
