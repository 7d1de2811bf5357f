-- ===== src/Groups/Validate.antt =====
-- `validate_config` of src/config_builder.py. `get_name` is `proxy.get("name")`, `validate_proxy_fields` and
-- the YAML round trip are other parts, here parameters.
use clash_config_gen.Prelude.{
  String, ◌<>◌, Bool, true, false, not, ◌&&◌, Option, none, some, List, [], ◌∷◌, ◌++◌, map, ◌==◌,
  if◌then◌else◌, any,
}
use clash_config_gen.Prelude.Dict.{contains}
use clash_config_gen.Prelude.Text.{has_prefix, split}
use clash_config_gen.Groups.{ProxyGroup}

-- An entry of `proxies`.
pub data Entry (Node : Type 0) : Type 0 where
  mapping : Node → Entry Node
  other : Entry Node

-- The keys of a configuration that are read here.
pub record MihomoConfig (Node : Type 0) : Type 0 where
  pub proxies : List (Entry Node)
  pub proxy_groups : List ProxyGroup
  pub rules : List String
  pub respect_rules : Bool
  pub proxy_server_nameserver : List String

abbrev pub built_in_targets : List String
built_in_targets = "DIRECT" ∷ "REJECT" ∷ "REJECT-DROP" ∷ "PASS" ∷ []

-- `parts[-2] if parts[-1] == "no-resolve" and len(parts) >= 3 else parts[-1]`, of two parts or more.
unfoldable pub rule_target_of : List String → Option String
rule_target_of [] = none
rule_target_of (a ∷ []) = none
rule_target_of (a ∷ b ∷ []) = some b
rule_target_of (a ∷ b ∷ c ∷ []) = some (if c == "no-resolve" then b else c)
rule_target_of (a ∷ b ∷ c ∷ d ∷ parts) = rule_target_of (b ∷ c ∷ d ∷ parts)

unfoldable pub rule_target : String → Option String
unfolding rule_target_of split
rule_target rule = rule_target_of (split b',' rule)

-- `[f(x) for x in xs]`, joined.
abbrev pub concat_map {ℓ} : {A : Type ℓ} → (A → List String) → List A → List String
concat_map f [] = []
concat_map f (x ∷ xs) = f x ++ concat_map f xs

abbrev pub error_if : Bool → String → List String
error_if wrong message = if wrong then message ∷ [] else []

abbrev pub is_nil {ℓ} : {A : Type ℓ} → List A → Bool
is_nil [] = true
is_nil (_ ∷ _) = false

unfoldable pub group_errors : List String → ProxyGroup → List String
unfolding contains ◌<>◌
group_errors valid_targets group =
    concat_map
      (λ target.
        error_if (not (contains valid_targets target))
          ("策略组 '" <> (group.name <> ("' 引用了不存在的节点/组: '" <> (target <> "'")))))
      group.proxies

abbrev pub target_errors : List String → String → Option String → List String
target_errors valid_targets rule none = []
target_errors valid_targets rule (some target) =
    error_if (not (contains valid_targets target))
      ("规则 '" <> (rule <> ("' 指向了不存在的策略组: '" <> (target <> "'"))))

unfoldable pub rule_errors : List String → String → List String
unfolding contains ◌<>◌ rule_target
rule_errors valid_targets rule = target_errors valid_targets rule (rule_target rule)

abbrev pub yaml_errors : Option String → List String
yaml_errors none = []
yaml_errors (some message) = ("YAML 反解析失败: " <> message) ∷ []

module _ {Node : Type 0} (get_name : Node → Option String)
    (validate_proxy_fields : Node → List String)
    (yaml_error : MihomoConfig Node → Option String) where
  abbrev node_name : Option String → List String
  node_name none = []
  node_name (some name) = name ∷ []

  -- The names of the nodes that are dicts; a missing name is no target of a text.
  unfoldable pub proxy_names : List (Entry Node) → List String
  proxy_names [] = []
  proxy_names (mapping node ∷ entries) = node_name (get_name node) ++ proxy_names entries
  proxy_names (other ∷ entries) = proxy_names entries

  abbrev or_unnamed : Option String → String
  or_unnamed none = "未命名节点"
  or_unnamed (some name) = name

  unfoldable pub proxy_errors : Entry Node → List String
  unfolding ◌<>◌
  proxy_errors (mapping node) =
      concat_map (λ message. ("节点 '" <> (or_unnamed (get_name node) <> ("' " <> message))) ∷ [])
        (validate_proxy_fields node)
  proxy_errors other = "存在非字典格式的节点" ∷ []

  unfoldable pub valid_targets : MihomoConfig Node → List String
  unfolding proxy_names
  valid_targets config =
      proxy_names config.proxies
      ++ (map (λ (g : ProxyGroup). g.name) config.proxy_groups ++ built_in_targets)

  -- The errors; the code's list of warnings is always empty.
  unfoldable pub validate_config : MihomoConfig Node → Bool → List String
  unfolding valid_targets group_errors rule_errors proxy_errors has_prefix ◌<>◌
  validate_config config allow_no_match =
      error_if (is_nil config.proxies) "Proxies 为空"
      ++ (error_if (is_nil config.proxy_groups) "Proxy Groups 为空"
          ++ (error_if (not allow_no_match && not (any (has_prefix "MATCH,") config.rules))
                "Rules 缺少 MATCH 兜底规则"
              ++ (concat_map proxy_errors config.proxies
                  ++ (concat_map (group_errors (valid_targets config)) config.proxy_groups
                      ++ (concat_map (rule_errors (valid_targets config)) config.rules
                          ++ (error_if
                                (config.respect_rules && is_nil config.proxy_server_nameserver)
                                "dns.respect-rules 已启用，但 dns.proxy-server-nameserver 为空"
                              ++ yaml_errors (yaml_error config)))))))
