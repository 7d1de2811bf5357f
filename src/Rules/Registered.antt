-- ===== src/Rules/Registered.antt =====
-- The entries of `rule-providers` for the providers of the built-in map.
use clash_config_gen.Prelude.{
  String, ◌<>◌, ◌≡◌, refl, ◌∙◌, inl, inr, true, false, not, ◌&&◌, Option, none, some, List, [], ◌∷◌,
  arith, ◌==◌, eq_iff, if◌then◌else◌, Bool-cases, filter,
}
use clash_config_gen.Prelude.Dict.{
  has_distinct_keys, has_distinct_keys-NodupKeys, Dict, lookup, has_key, put, contains, NodupKeys,
  lookup-put,
}
use clash_config_gen.Rules.Order.{
  item, of_name, Distinct, filter-mapping, filter-priority_ordered_items,
}
use clash_config_gen.Rules.Providers.{
  DustinwinProvider, dustinwin_providers_map, dustinwin_ruleset_base_url,
}
use clash_config_gen.Value.{text, number}
use clash_config_gen.Rules.Build.{
  Env, CustomProvider, RuleProvider, ProviderRules, custom_provider, add_custom_provider,
  custom_provider_loop, dustinwin_provider, dustinwin_loop, dustinwin_rules, base_rules,
  build_rules, leading_rules, get_public_base_url, bool_env, text_or, get_ruleset_update_interval,
  get_dustinwin_provider_url,
}

lookup-absent {ℓ} : {V : Type ℓ} (k : String) (d : Dict V) → has_key k d ≡ false → lookup k d ≡ none
unfolding lookup has_key
lookup-absent k [] h = refl
lookup-absent k ((j, v) ∷ d) h = ground (arith, lookup-absent k d)

providers-add_custom_provider :
    (name : String) (config : CustomProvider) (r : ProviderRules)
    → (add_custom_provider name config r).providers
      ≡ put name (custom_provider name config) r.providers
unfolding add_custom_provider
providers-add_custom_provider name config r = ground arith

abbrev custom_or : String → Option CustomProvider → Option RuleProvider → Option RuleProvider
custom_or name none base = base
custom_or name (some config) base = some (custom_provider name config)

-- A user's provider replaces one of the same name; the others stay.
lookup-custom_provider_loop :
    (k : String) (custom : Dict CustomProvider) (r : ProviderRules)
    → NodupKeys custom
    → lookup k (custom_provider_loop custom r).providers
      ≡ custom_or k (lookup k custom) (lookup k r.providers)
unfolding custom_provider_loop lookup
lookup-custom_provider_loop k [] r h = refl
lookup-custom_provider_loop k ((name, config) ∷ rest) r h =
    lookup-custom_provider_loop k rest (add_custom_provider name config r) h.1
    ∙ rw (providers-add_custom_provider name config r, lookup-put name k)
        (ground (arith, eq_iff name k, lookup-absent name rest h.0))

module _ (env : Env) (targets : Dict String) (k : String) where
  lookup-dustinwin_loop_absent :
      (items : List (String × DustinwinProvider)) (rules : List String)
      (providers : Dict RuleProvider)
      → filter (of_name k) items ≡ []
      → lookup k (dustinwin_loop env targets items rules providers).1 ≡ lookup k providers
  unfolding dustinwin_loop
  lookup-dustinwin_loop_absent [] rules providers h = refl
  lookup-dustinwin_loop_absent ((name, config) ∷ items) rules providers h =
      elim (Bool-cases (name == k)) [
        | inl e ↦ absurd (ground arith)
        | inr e ↦
            lookup-dustinwin_loop_absent items _ _ (rw e at h) ∙ rw (lookup-put name k) (rw e refl)
      ]

  lookup-dustinwin_loop :
      (items : List (String × DustinwinProvider)) (rules : List String)
      (providers : Dict RuleProvider) (config : DustinwinProvider)
      → filter (of_name k) items ≡ (k, config) ∷ []
      → lookup k (dustinwin_loop env targets items rules providers).1
        ≡ some (dustinwin_provider env config)
  unfolding dustinwin_loop
  lookup-dustinwin_loop [] rules providers config h = cc
  lookup-dustinwin_loop ((name, config') ∷ items) rules providers config h =
      elim (Bool-cases (name == k)) [
        | inl e ↦
            lookup-dustinwin_loop_absent items _ _ (ground arith)
            ∙ rw (lookup-put name k) (ground arith)
        | inr e ↦ lookup-dustinwin_loop items _ _ config (rw e at h)
      ]

dustinwin_providers_map-NodupKeys : NodupKeys dustinwin_providers_map
unfolding dustinwin_providers_map has_key has_distinct_keys
dustinwin_providers_map-NodupKeys = has_distinct_keys-NodupKeys dustinwin_providers_map refl

priority_names-Distinct : Distinct ("ai" ∷ "youtube" ∷ "google" ∷ [])
unfolding contains
priority_names-Distinct = (refl, (refl, (refl, tt)))

filter-dustinwin_providers_map :
    (k : String) (config : DustinwinProvider)
    → lookup k dustinwin_providers_map ≡ some config
    → filter (of_name k) dustinwin_providers_map ≡ (k, config) ∷ []
unfolding item
filter-dustinwin_providers_map k config h =
    filter-mapping k dustinwin_providers_map dustinwin_providers_map-NodupKeys ∙ rw (h, item) refl

-- With the rule source `dustinwin规则`, each provider of the built-in map is registered under its name, unless the
-- user's providers have that name: over http, with the behavior and the format of its entry, its file below
-- ./ruleset/dustinwin as path, the interval of the environment and no proxy, and as url the server's copy of the file
-- if a public address is set and the cache is on, and else the url of its entry or the file at the standard address.
pub build_rules-registered :
    (env : Env) (custom_rules : List String) (custom : Dict CustomProvider)
    (lhie1_targets dustinwin_targets : Dict String) (k : String) (config : DustinwinProvider)
    → NodupKeys custom
    → lookup k custom ≡ none
    → lookup k dustinwin_providers_map ≡ some config
    → lookup k (build_rules env "dustinwin规则" custom_rules custom lhie1_targets dustinwin_targets).1
      ≡ some (record {
        kind = text "http";
        behavior = text config.behavior;
        format = some (text config.format);
        url = some (
            text (
              if not (get_public_base_url env == "") && bool_env env.ruleset_cache_enabled true
              then get_public_base_url env <> ("/ruleset/dustinwin/" <> config.file)
              else text_or config.url (dustinwin_ruleset_base_url <> ("/" <> config.file))));
        path = text ("./ruleset/dustinwin/" <> config.file);
        interval = number (get_ruleset_update_interval env);
        proxy = none;
      })
unfolding build_rules base_rules dustinwin_rules dustinwin_provider get_dustinwin_provider_url ◌<>◌
build_rules-registered env custom_rules custom lhie1_targets dustinwin_targets k config nodup free
      known =
    lookup-custom_provider_loop k custom _ nodup
    ∙ rw free (
        lookup-dustinwin_loop env dustinwin_targets k _ leading_rules [] config (
          filter-priority_ordered_items k dustinwin_providers_map ("ai" ∷ "youtube" ∷ "google" ∷ [])
            ("cnip" ∷ []) dustinwin_providers_map-NodupKeys priority_names-Distinct
          ∙ filter-dustinwin_providers_map k config known))
