-- ===== src/Tests/RuleLists.antt =====
-- Generated rule lists.
use clash_config_gen.Prelude.{
  ℕ, String, ◌<>◌, ◌≡◌, refl, ◌≢◌, Bool, false, ◌||◌, none, some, List, [], ◌∷◌, ◌++◌, ◌==◌, filter,
  find, All,
}
use clash_config_gen.Prelude.Dict.{Dict, lookup, has_key, contains}
use clash_config_gen.Value.{null, text, number}
use clash_config_gen.Rules.Order.{priority_ordered_items, of_name, filter-priority_ordered_items}
use clash_config_gen.Rules.Providers.{dustinwin_providers_map, DustinwinProvider}
use clash_config_gen.Rules.Build.{
  Env, is_no_base_rule_type, CustomProvider, is_match_rule, build_rules, get_public_base_url,
  get_ruleset_update_interval,
}
use clash_config_gen.Rules.Match.{IsOrdinary, fallback, build_rules-fallback}
use clash_config_gen.Rules.Routing.{build_rules_decides, build_rules_custom_first}
use clash_config_gen.Rules.Registered.{build_rules-registered}

abbrev plain_env : Env
plain_env = record {
  public_base_url = none;
  ruleset_cache_enabled = none;
  ruleset_update_interval = some "3600";
}

abbrev custom_rules : List String
custom_rules = "DOMAIN,a.test,DIRECT" ∷ "MATCH,Mine" ∷ []

abbrev my_provider : CustomProvider
my_provider = record {
  kind = none;
  behavior = some (text "domain");
  format = some (text "");
  url = some (text "https://a.test/x.yaml");
  path = none;
  interval = some null;
  proxy = none;
  target = some "DIRECT";
  order = some "优先 (覆盖)";
}

abbrev custom_providers : Dict CustomProvider
custom_providers = ("mine", my_provider) ∷ []

build_rules-fallback_example :
    (front : List String) × All IsOrdinary front
    × ((build_rules plain_env "dustinwin规则" custom_rules custom_providers [] []).0
        ≡ front ++ fallback "dustinwin规则" custom_rules)
build_rules-fallback_example =
    build_rules-fallback plain_env "dustinwin规则" custom_rules custom_providers [] []

-- A client at a connection that only the user's rule and MATCH rules hit.
abbrev hits : String → Bool
hits rule = is_match_rule rule || rule == "DOMAIN,a.test,DIRECT"

build_rules_decides_example :
    find hits (build_rules plain_env "" custom_rules custom_providers [] []).0 ≢ none
unfolding is_no_base_rule_type
build_rules_decides_example =
    build_rules_decides hits plain_env "" custom_rules custom_providers [] [] (λ rule h. rw h refl)
      refl

build_rules_custom_first_example :
    find hits (build_rules plain_env "lhie1规则" custom_rules custom_providers [] []).0
    ≡ some "DOMAIN,a.test,DIRECT"
unfolding is_match_rule
build_rules_custom_first_example =
    build_rules_custom_first hits plain_env "lhie1规则" custom_rules custom_providers [] []
      "DOMAIN,a.test,DIRECT" refl

abbrev ai : DustinwinProvider
ai = record {
  file = "ai.mrs";
  behavior = "domain";
  format = "mrs";
  target = "AI Suite";
  url = none;
  no_resolve = false;
}

build_rules-registered_example :
    lookup "ai" (build_rules plain_env "dustinwin规则" custom_rules custom_providers [] []).1
    ≡ some (record {
      kind = text "http";
      behavior = text "domain";
      format = some (text "mrs");
      url = some (
          text
            "https://github.com/DustinWin/ruleset_geodata/releases/download/mihomo-ruleset/ai.mrs");
      path = text "./ruleset/dustinwin/ai.mrs";
      interval = number 3600;
      proxy = none;
    })
unfolding has_key lookup dustinwin_providers_map get_public_base_url ◌<>◌
    get_ruleset_update_interval
build_rules-registered_example =
    build_rules-registered plain_env custom_rules custom_providers [] [] "ai" ai (refl, tt) refl
      refl

abbrev numbers : Dict ℕ
numbers = ("a", 1) ∷ ("b", 2) ∷ ("c", 3) ∷ []

filter-priority_ordered_items_example :
    filter (of_name "a") (priority_ordered_items numbers ("c" ∷ "x" ∷ []) ("a" ∷ []))
    ≡ filter (of_name "a") numbers
unfolding has_key contains
filter-priority_ordered_items_example =
    filter-priority_ordered_items "a" numbers ("c" ∷ "x" ∷ []) ("a" ∷ []) (refl, (refl, (refl, tt)))
      (refl, (refl, tt))
