-- ===== src/Config/Build.antt =====
-- `build_config`: the nodes, the groups, the sections that are on, and the rules. `repr`, `single_of_list` and
-- `ip_version` are those of the normalization; `int_of_real` takes the whole part of a float.
use clash_config_gen.Prelude.{
  ℕ, String, Bool, not, ◌&&◌, Option, none, some, List, [], ◌∷◌, map, ◌==◌, if◌then◌else◌, all,
}
use clash_config_gen.Prelude.{◌>>=◌}
use clash_config_gen.Prelude.Dict.{Dict, lookup, put, has_key}
use clash_config_gen.Prelude.Int.{ℤ}
use clash_config_gen.Prelude.Text.{strip}
use clash_config_gen.Value.{Value, text, array, texts, items_of, or_default, truthy, is_text, str}
use clash_config_gen.Normalizer.{strip_internal_proxy_metadata}
use clash_config_gen.Normalizer.Proxy.{normalize_proxies_for_mihomo}
use clash_config_gen.Settings.Profile.{apply_generation_profile}
use clash_config_gen.Groups.{ProxyGroup, generate_proxy_groups, generate_minimal_proxy_groups}
use clash_config_gen.Rules.Build.{
  Env, CustomProvider, RuleProvider, build_rules, is_no_base_rule_type,
}
use clash_config_gen.Config.Texts.{int_setting}
use clash_config_gen.Config.Rendered.{group_value, providers_value, name_of, targets_of}
use clash_config_gen.Config.Sections.{
  add_base_options, add_controller, add_router_options, add_core_options, add_sniffer, add_profile,
  add_ntp, object,
}
use clash_config_gen.Config.Dns.{add_tun, add_dns, add_authentication}

abbrev pub default_url_test_url : String
default_url_test_url = "http://cp.cloudflare.com/generate_204"

-- All sections, in the order of the code.
unfoldable pub add_sections : Dict Value → Dict Value → Option (Dict Value)
unfolding add_tun add_dns add_authentication
add_sections global_config start = do
  tun ← add_tun global_config (
      add_router_options global_config
        (add_controller global_config (add_base_options global_config start)))
  dns ← add_dns global_config tun
  add_authentication global_config (
      add_ntp global_config (
        add_profile global_config (add_sniffer global_config (add_core_options global_config dns))))

abbrev profile_entry : Dict Value → Value
profile_entry global_config =
    or_default (lookup "generation_profile" global_config) (text "openclash-router")

unfoldable pub is_minimal : Dict Value → Bool
unfolding lookup is_text
is_minimal global_config = is_text "minimal" (profile_entry global_config)

abbrev pub put_providers : Dict RuleProvider → Dict Value → Dict Value
put_providers [] final_config = final_config
put_providers (provider ∷ providers) final_config =
    put "rule-providers" (providers_value (provider ∷ providers)) final_config

-- The last two entries.
unfoldable pub put_rules : List String × Dict RuleProvider → Dict Value → Dict Value
unfolding put
put_rules (rules, providers) final_config =
    put "rules" (texts rules) (put_providers providers final_config)

-- The first two entries.
abbrev pub first_entries : List (Dict Value) → List ProxyGroup → Dict Value
first_entries proxies groups =
    ("proxies", array (items_of (map object proxies)))
    ∷ ("proxy-groups", array (items_of (map group_value groups)))
    ∷ []

module _ (repr : Value → String) (single_of_list : String → Option Value)
    (ip_version : String → Option ℕ) (int_of_real : String → Option ℤ) (env : Env) where
  -- The nodes of the document.
  unfoldable pub final_proxies : List (Dict Value) → List (Dict Value)
  unfolding normalize_proxies_for_mihomo strip_internal_proxy_metadata
  final_proxies proxies =
      map strip_internal_proxy_metadata
        (normalize_proxies_for_mihomo repr single_of_list ip_version proxies)

  -- `str(value or default).strip() or default`
  abbrev stripped_or : String → String → String
  stripped_or default s = if s == "" then default else s

  abbrev url_of : Option Value → String
  url_of none = default_url_test_url
  url_of (some v) =
      stripped_or default_url_test_url
        (strip (if truthy v then str repr v else default_url_test_url))

  -- `none` is the KeyError of a node without a name.
  abbrev full_groups : List (Dict Value) → String → ℕ → ℕ → Option (List ProxyGroup)
  full_groups proxies url interval tolerance =
      if all (has_key "name") proxies
      then some (generate_proxy_groups name_of proxies url interval tolerance)
      else none

  unfoldable pub final_groups : List (Dict Value) → Dict Value → Option (List ProxyGroup)
  unfolding lookup has_key truthy str strip is_minimal name_of
  final_groups proxies global_config =
      let url = url_of (lookup "url_test_url" global_config) in
      let interval = int_setting int_of_real (lookup "url_test_interval" global_config) 60 1 in
      let tolerance = int_setting int_of_real (lookup "url_test_tolerance" global_config) 30 0 in
      if is_minimal global_config
      then some (generate_minimal_proxy_groups name_of proxies url interval tolerance)
      else full_groups proxies url interval tolerance

  abbrev targets_for : Bool → Option Value → Option (Dict String)
  targets_for is_selected targets = if is_selected then targets_of repr targets else some []

  -- The call of `build_rules`, which reads the targets of the selected rule source only.
  unfoldable pub chosen_rules :
      Dict Value
      → List String
      → Dict CustomProvider
      → String
      → Option (List String × Dict RuleProvider)
  unfolding lookup targets_of build_rules
  chosen_rules global_config custom_rules custom_rule_providers selected_rule_type = do
    lhie1_targets ←
        targets_for (selected_rule_type == "lhie1规则")
          (lookup "lhie1_provider_targets" global_config)
    dustinwin_targets ←
        targets_for (selected_rule_type == "dustinwin规则")
          (lookup "dustinwin_provider_targets" global_config)
    some (
        build_rules env selected_rule_type custom_rules custom_rule_providers lhie1_targets
          dustinwin_targets)

  unfoldable pub final_rules :
      Dict Value
      → List String
      → Dict CustomProvider
      → String
      → Option (List String × Dict RuleProvider)
  unfolding is_minimal is_no_base_rule_type chosen_rules
  final_rules global_config custom_rules custom_rule_providers selected_rule_type =
      if is_minimal global_config && not (is_no_base_rule_type selected_rule_type)
      then some ("MATCH,Proxy" ∷ [], [])
      else chosen_rules global_config custom_rules custom_rule_providers selected_rule_type

  -- `none` is an exception.
  unfoldable pub build_config :
      List (Dict Value)
      → Dict Value
      → List String
      → Dict CustomProvider
      → String
      → Option (Dict Value)
  unfolding final_proxies apply_generation_profile final_groups add_sections final_rules
  build_config given given_config custom_rules custom_rule_providers selected_rule_type = do
    let proxies = final_proxies given
    let global_config = apply_generation_profile given_config
    groups ← final_groups proxies global_config
    final_config ← add_sections global_config (first_entries proxies groups)
    rules ← final_rules global_config custom_rules custom_rule_providers selected_rule_type
    some (put_rules rules final_config)
