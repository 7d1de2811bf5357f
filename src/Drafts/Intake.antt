-- ===== src/Drafts/Intake.antt =====
-- `_normalize_draft`: the body of a request becomes a draft, or is refused.
use clash_config_gen.Prelude.{
  ℕ, suc, String, ◌<>◌, Bool, true, false, not, ◌&&◌, Option, none, some, List, [], ◌∷◌, map, ◌==◌,
  ltb, leb, if◌then◌else◌, length, filter, count, any,
}
use clash_config_gen.Prelude.Dict.{Dict, lookup, put}
use clash_config_gen.Prelude.Int.{ℤ, pos, negsuc, text_of_nat}
use clash_config_gen.Prelude.Text.{strip, size, contains_text, join}
use clash_config_gen.Value.{
  Value, null, integer, number, text, array, table, items, entries, truthy, str,
}
use clash_config_gen.Normalizer.Proxy.{normalize_proxies}
use clash_config_gen.Rules.Providers.{default_rule_type}
use clash_config_gen.Settings.Defaults.{build_default_global_config}
use clash_config_gen.Settings.Merge.{apply_v2_global_defaults}
use clash_config_gen.Drafts.{Outcome, accepted, refused, ◌>>=◌, ◌>>◌, raise_if, Draft, DraftMeta}

-- `value or {}`, for what may be a dict.
abbrev table_of : Option Value → Option (Dict Value)
table_of (some (table fs)) = some (entries fs)
table_of _ = none

-- `_draft_source`
unfoldable pub draft_source : Dict Value → Dict Value
unfolding lookup
draft_source body = elim (table_of (lookup "config" body)) [ none ↦ body | some config ↦ config ]

-- `_merged_global_config`
unfoldable pub merged_global_config : Option (Dict Value) → Option (Dict Value) → Dict Value
unfolding apply_v2_global_defaults
merged_global_config none none = apply_v2_global_defaults build_default_global_config []
merged_global_config none (some saved) = apply_v2_global_defaults build_default_global_config saved
merged_global_config (some raw) saved = apply_v2_global_defaults build_default_global_config raw

abbrev numbered : String → ℕ → String → String
numbered before index after = before <> (text_of_nat index <> after)

-- `str(raw_proxy.get("name") or "").strip()`
abbrev pub stripped_name : (Value → String) → Option Value → String
stripped_name repr none = ""
stripped_name repr (some v) = if truthy v then strip (str repr v) else ""

abbrev pub check_name : ℕ → String → Outcome (Unit {0})
check_name index name = do
  raise_if (name == "") 400 (numbered "第 " index " 个节点 name 不能为空")
  raise_if (ltb 128 (size name)) 400 (numbered "第 " index " 个节点 name 长度不能超过 128 字符")

-- The loop over the nodes; the number is that of the next one.
unfoldable pub check_proxies : (Value → String) → ℕ → List Value → Outcome (List (Dict Value))
unfolding lookup truthy strip str size ◌<>◌ text_of_nat
check_proxies repr index [] = accepted []
check_proxies repr index (table fs ∷ proxies) = do
  check_name index (stripped_name repr (lookup "name" (entries fs)))
  rest ← check_proxies repr (suc index) proxies
  accepted (entries fs ∷ rest)
check_proxies repr index (_ ∷ proxies) = refused 400 (numbered "第 " index " 个节点必须是对象")

abbrev pub max_draft_proxies : ℕ
max_draft_proxies = 500

-- `source["proxies"]`, if it is a list.
abbrev pub proxies_of : Option Value → Outcome (List Value)
proxies_of (some (array vs)) = accepted (items vs)
proxies_of _ = refused 400 "proxies 必须是节点数组"

unfoldable pub intake_proxies : (Value → String) → Option Value → Outcome (List (Dict Value))
unfolding check_proxies text_of_nat ◌<>◌
intake_proxies repr given = do
  proxies ← proxies_of given
  raise_if (ltb max_draft_proxies (length proxies)) 413
      ("节点数量超过上限 " <> text_of_nat max_draft_proxies)
  check_proxies repr 1 proxies

-- `global_config`, if it is given.
unfoldable pub intake_global_config : Option Value → Outcome (Option (Dict Value))
intake_global_config none = accepted none
intake_global_config (some null) = accepted none
intake_global_config (some (table fs)) = accepted (some (entries fs))
intake_global_config (some _) = refused 400 "global_config 必须是对象"

unfoldable pub check_rules : ℕ → List Value → Outcome (List String)
unfolding size ◌<>◌ text_of_nat
check_rules index [] = accepted []
check_rules index (text rule ∷ rules) = do
  raise_if (ltb 512 (size rule)) 400 (numbered "第 " index " 条规则长度不能超过 512 字符")
  rest ← check_rules (suc index) rules
  accepted (rule ∷ rest)
check_rules index (_ ∷ rules) = refused 400 "custom_rules 的每项必须是字符串"

abbrev pub list_of : String → Option Value → Outcome (List Value)
list_of message none = accepted []
list_of message (some null) = accepted []
list_of message (some (array vs)) = accepted (items vs)
list_of message (some _) = refused 400 message

unfoldable pub intake_rules : Option Value → Outcome (List String)
unfolding check_rules
intake_rules given = do
  rules ← list_of "custom_rules 必须是数组" given
  raise_if (ltb 500 (length rules)) 413 "自定义规则数量超过上限 500"
  check_rules 1 rules

-- `url_value is not None and not isinstance(url_value, str)`
abbrev pub is_text_or_none : Option Value → Bool
is_text_or_none none = true
is_text_or_none (some null) = true
is_text_or_none (some (text s)) = true
is_text_or_none (some _) = false

abbrev in_interval : ℤ → Bool
in_interval (pos n) = leb 1 n && leb n 31536000
in_interval (negsuc n) = false

abbrev pub is_interval : Option Value → Bool
is_interval none = true
is_interval (some null) = true
is_interval (some (integer n)) = in_interval n
is_interval (some _) = false

abbrev provider_message : String → String → String
provider_message alias message = "规则集 " <> (alias <> message)

unfoldable pub check_provider : String → Dict Value → Outcome (Unit {0})
unfolding lookup ◌<>◌
check_provider alias provider = do
  raise_if (not (is_text_or_none (lookup "url" provider))) 400
      (provider_message alias " 的 url 必须是字符串")
  raise_if (not (is_text_or_none (lookup "path" provider))) 400
      (provider_message alias " 的 path 必须是字符串")
  raise_if (not (is_interval (lookup "interval" provider))) 400
      (provider_message alias " 的 interval 必须是 1-31536000 的整数")

unfoldable pub check_providers : Dict Value → Outcome (Dict (Dict Value))
unfolding check_provider
check_providers [] = accepted []
check_providers ((alias, table fs) ∷ providers) = do
  check_provider alias (entries fs)
  rest ← check_providers providers
  accepted ((alias, entries fs) ∷ rest)
check_providers ((alias, _) ∷ providers) = refused 400 "custom_rule_providers 的每项必须是对象"

unfoldable pub intake_providers : Option Value → Outcome (Dict (Dict Value))
unfolding check_providers
intake_providers none = accepted []
intake_providers (some null) = accepted []
intake_providers (some (table fs)) = check_providers (entries fs)
intake_providers (some _) = refused 400 "custom_rule_providers 必须是对象"

unfoldable pub intake_rule_type : Option Value → Outcome String
unfolding strip
intake_rule_type none = accepted default_rule_type
intake_rule_type (some null) = accepted default_rule_type
intake_rule_type (some (text s)) = accepted (if strip s == "" then default_rule_type else strip s)
intake_rule_type (some _) = refused 400 "selected_rule_type 必须是字符串"

unfoldable pub check_sources : List Value → Outcome (List (Dict Value))
check_sources [] = accepted []
check_sources (table fs ∷ sources) = do rest ← check_sources sources; accepted (entries fs ∷ rest)
check_sources (_ ∷ sources) = refused 400 "import_sources 的每项必须是对象"

unfoldable pub intake_sources : Option Value → Outcome (List (Dict Value))
unfolding check_sources
intake_sources given = do sources ← list_of "import_sources 必须是数组" given; check_sources sources

-- `str(value or "")`
abbrev text_or_blank : (Value → String) → Option Value → String
text_or_blank repr none = ""
text_or_blank repr (some v) = if truthy v then str repr v else ""

-- How many nodes come from a source.
abbrev node_count : (Value → String) → List (Dict Value) → String → ℕ
node_count repr proxies source =
    if source == ""
    then 0
    else count (λ proxy. text_or_blank repr (lookup "_source_id" proxy) == source) proxies

unfoldable pub count_sources :
    (Value → String) → List (Dict Value) → List (Dict Value) → List (Dict Value)
unfolding lookup put truthy str
count_sources repr proxies sources =
    map
      (λ item.
        put "node_count" (number (node_count repr proxies (text_or_blank repr (lookup "id" item))))
          item)
      sources

-- `error for error in proxy_errors if "端口" in error`
unfoldable pub is_port_error : String → Bool
unfolding contains_text
is_port_error error = contains_text "端口" error

module _ (repr : Value → String) (single_of_list : String → Option Value)
    (ip_version : String → Option ℕ) where
  unfoldable pub normalize_draft : Dict Value → Option (Dict Value) → Outcome (Draft × DraftMeta)
  unfolding draft_source lookup intake_proxies normalize_proxies is_port_error join
      intake_global_config merged_global_config intake_rules intake_providers intake_rule_type
      intake_sources count_sources ◌<>◌
  normalize_draft body saved_global_config = do
    let source = draft_source body
    raw_proxies ← intake_proxies repr (lookup "proxies" source)
    let (proxies, (proxy_warnings, proxy_errors)) =
        normalize_proxies repr single_of_list ip_version raw_proxies
    raise_if (any is_port_error proxy_errors) 400 (join "；" (filter is_port_error proxy_errors))
    raw_global ← intake_global_config (lookup "global_config" source)
    custom_rules ← intake_rules (lookup "custom_rules" source)
    custom_rule_providers ← intake_providers (lookup "custom_rule_providers" source)
    selected_rule_type ← intake_rule_type (lookup "selected_rule_type" source)
    sources ← intake_sources (lookup "import_sources" source)
    accepted (
      record {
        proxies = proxies;
        global_config = merged_global_config raw_global saved_global_config;
        custom_rules = custom_rules;
        custom_rule_providers = custom_rule_providers;
        selected_rule_type = selected_rule_type;
        import_sources = count_sources repr proxies sources;
      },
      record {
        warnings = map (λ w. "节点规范化：" <> w) proxy_warnings;
        errors = map (λ e. "节点规范化：" <> e) proxy_errors;
      },
    )
