-- ===== src/Drafts/Generation.antt =====
-- `_build_draft_config`: the document of a draft; and the warnings and the targets that a draft is shown with.
use clash_config_gen.Prelude.{
  ℕ, String, ◌<>◌, Option, none, some, List, ◌++◌, map, ◌==◌, if◌then◌else◌,
}
use clash_config_gen.Prelude.Dict.{Dict, lookup}
use clash_config_gen.Prelude.Int.{ℤ}
use clash_config_gen.Value.{Value, text, str}
use clash_config_gen.Rules.Build.{Env, CustomProvider}
use clash_config_gen.Rules.Providers.{
  default_rule_type, DustinwinProvider, dustinwin_providers_map, lhie1_providers_map,
}
use clash_config_gen.Config.Build.{build_config}
use clash_config_gen.Drafts.{Draft, DraftMeta}

abbrev text_field : Option Value → Option String
text_field (some (text s)) = some s
text_field _ = none

-- The target, as an f-string writes it.
abbrev target_field : (Value → String) → Option Value → Option String
target_field repr none = none
target_field repr (some target) = some (str repr target)

-- The keys of a provider that `build_rules` reads.
unfoldable pub provider_of : (Value → String) → Dict Value → CustomProvider
unfolding lookup str
provider_of repr provider = record {
  kind = lookup "type" provider;
  behavior = lookup "behavior" provider;
  format = lookup "format" provider;
  url = lookup "url" provider;
  path = lookup "path" provider;
  interval = lookup "interval" provider;
  proxy = lookup "proxy" provider;
  target = target_field repr (lookup "target" provider);
  order = text_field (lookup "order" provider);
}

unfoldable pub build_draft_config :
    (Value → String)
    → (String → Option Value)
    → (String → Option ℕ)
    → (String → Option ℤ)
    → Env
    → Draft
    → Option (Dict Value)
unfolding build_config provider_of
build_draft_config repr single_of_list ip_version int_of_real env draft =
    build_config repr single_of_list ip_version int_of_real env draft.proxies draft.global_config
      draft.custom_rules
      (map (λ (e : String × Dict Value). (e.0, provider_of repr e.1)) draft.custom_rule_providers)
      (if draft.selected_rule_type == "" then default_rule_type else draft.selected_rule_type)

-- `_draft_meta_warnings`
unfoldable pub draft_meta_warnings : DraftMeta → List String
unfolding ◌<>◌
draft_meta_warnings meta = meta.warnings ++ map (λ item. "草稿校验：" <> item) meta.errors

-- `_provider_defaults`: the targets of the two rule sources, dustinwin and lhie1.
unfoldable pub provider_defaults : Dict String × Dict String
unfolding dustinwin_providers_map lhie1_providers_map
provider_defaults = (
  map (λ (e : String × DustinwinProvider). (e.0, e.1.target)) dustinwin_providers_map,
  map (λ (e : String × (String × String)). (e.0, e.1.1)) lhie1_providers_map,
)
