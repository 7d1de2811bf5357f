-- ===== src/Rules/Build.antt =====
-- `build_rules` of src/config_builder.py and what it calls. Environment variables are arguments.
use clash_config_gen.Prelude.{
  ℕ, String, ◌<>◌, Bool, true, false, not, ◌&&◌, Option, none, some, List, [], ◌∷◌, ◌++◌, ◌==◌, leb,
  eqb, if◌then◌else◌, filter, any,
}
use Prim.Native.Char.{code}
use clash_config_gen.Prelude.Dict.{Dict, contains, lookup, put}
use clash_config_gen.Prelude.Int.{ℤ, pos, negsuc, int_of_text}
use clash_config_gen.Prelude.Text.{
  strip, rstrip, lower, upper, before, has_prefix, spaces_to_underscores,
}
use clash_config_gen.Value.{Value, number, text, truthy}
use clash_config_gen.Rules.Order.{priority_ordered_items}
use clash_config_gen.Rules.Providers.{
  DustinwinProvider, dustinwin_providers_map, lhie1_providers_map, dustinwin_ruleset_base_url,
  dustinwin_ruleset_interval, dustinwin_ruleset_path_prefix, google_ruleset_file,
  google_ruleset_url,
}

-- The variables that `os.getenv` reads here.
pub record Env : Type 0 where
  pub public_base_url : Option String
  pub ruleset_cache_enabled : Option String
  pub ruleset_update_interval : Option String

-- A number that was read, if it is large enough.
abbrev pub at_least : ℕ → ℕ → Option ℤ → ℕ
at_least default minimum none = default
at_least default minimum (some (pos n)) = if leb minimum n then n else default
at_least default minimum (some (negsuc n)) = default

-- `int_config` of a text or None.
unfoldable pub int_config : Option String → ℕ → ℕ → ℕ
unfolding int_of_text
int_config none default minimum = default
int_config (some value) default minimum = at_least default minimum (int_of_text value)

unfoldable pub bool_env : Option String → Bool → Bool
unfolding contains lower strip
bool_env none default = default
bool_env (some raw) default = not (contains ("0" ∷ "false" ∷ "no" ∷ "off" ∷ []) (lower (strip raw)))

unfoldable pub get_public_base_url : Env → String
unfolding strip rstrip
get_public_base_url env = elim env.public_base_url [
  | none ↦ ""
  | some raw ↦ rstrip (λ c. eqb (code c) b'/') (strip raw)
]

-- `value or other`, for texts.
abbrev pub text_or : Option String → String → String
text_or none other = other
text_or (some value) other = if value == "" then other else value

unfoldable pub get_dustinwin_provider_url : Env → String → Option String → String
unfolding get_public_base_url bool_env ◌<>◌
get_dustinwin_provider_url env file_name source_url =
    if not (get_public_base_url env == "") && bool_env env.ruleset_cache_enabled true
    then get_public_base_url env <> ("/ruleset/dustinwin/" <> file_name)
    else text_or source_url (dustinwin_ruleset_base_url <> ("/" <> file_name))

unfoldable pub get_ruleset_update_interval : Env → ℕ
unfolding int_config
get_ruleset_update_interval env =
    int_config env.ruleset_update_interval dustinwin_ruleset_interval 1

unfoldable pub is_no_base_rule_type : String → Bool
unfolding contains lower strip
is_no_base_rule_type value =
    contains ("none" ∷ "无基础规则" ∷ "自定义规则" ∷ "custom" ∷ []) (lower (strip value))

unfoldable pub is_match_rule : String → Bool
unfolding upper strip before
is_match_rule rule = upper (strip (before b',' rule)) == "MATCH"

-- An entry of the generated `rule-providers`; a key that the code leaves out is `none`.
pub record RuleProvider : Type 0 where
  pub kind : Value
  pub behavior : Value
  pub format : Option Value
  pub url : Option Value
  pub path : Value
  pub interval : Value
  pub proxy : Option Value

-- A user's provider, a dict in which every key may be missing and any value may stand under a key. The target is
-- as an f-string writes it, and the order is `none` for a value that is no text.
pub record CustomProvider : Type 0 where
  pub kind : Option Value
  pub behavior : Option Value
  pub format : Option Value
  pub url : Option Value
  pub path : Option Value
  pub interval : Option Value
  pub proxy : Option Value
  pub target : Option String
  pub order : Option String

-- `config.get(key, default)`
abbrev pub get_or {ℓ} : {A : Type ℓ} → Option A → A → A
get_or none default = default
get_or (some value) default = value

-- `config[key] = value` only for a value that is true.
abbrev pub only_true : Option Value → Option Value
only_true none = none
only_true (some value) = if truthy value then some value else none

-- `value == "http"`
abbrev pub is_http : Value → Bool
is_http (text s) = s == "http"
is_http _ = false

unfoldable pub rule_set : String → String → String
unfolding ◌<>◌
rule_set name target = "RULE-SET," <> (name <> ("," <> target))

unfoldable pub dustinwin_provider : Env → DustinwinProvider → RuleProvider
unfolding get_dustinwin_provider_url get_ruleset_update_interval ◌<>◌
dustinwin_provider env config = record {
  kind = text "http";
  behavior = text config.behavior;
  format = some (text config.format);
  url = some (text (get_dustinwin_provider_url env config.file config.url));
  path = text (dustinwin_ruleset_path_prefix <> ("/" <> config.file));
  interval = number (get_ruleset_update_interval env);
  proxy = none;
}

-- The loop over the ordered providers: the rules and the providers so far.
unfoldable pub dustinwin_loop :
    Env
    → Dict String
    → List (String × DustinwinProvider)
    → List String
    → Dict RuleProvider
    → List String × Dict RuleProvider
dustinwin_loop env targets [] rules providers = (rules, providers)
dustinwin_loop env targets ((name, config) ∷ items) rules providers =
    dustinwin_loop env targets items
      (rules
        ++ (rule_set name (text_or (lookup name targets) config.target)
            <> (if config.no_resolve then ",no-resolve" else ""))
          ∷ [])
      (put name (dustinwin_provider env config) providers)

unfoldable pub lhie1_provider : String → String → RuleProvider
unfolding spaces_to_underscores ◌<>◌
lhie1_provider name suffix = record {
  kind = text "http";
  behavior = text "classical";
  format = none;
  url = some (
      text (
        "https://testingcf.jsdelivr.net/gh/dler-io/Rules@main/Clash/Provider"
        <> ("/" <> (suffix <> ".yaml"))));
  path = text ("./ruleset/" <> (spaces_to_underscores name <> ".yaml"));
  interval = number 86400;
  proxy = none;
}

unfoldable pub lhie1_loop :
    Dict String
    → List (String × (String × String))
    → List String
    → Dict RuleProvider
    → List String × Dict RuleProvider
lhie1_loop targets [] rules providers = (rules, providers)
lhie1_loop targets ((name, (suffix, target)) ∷ items) rules providers =
    lhie1_loop targets items (rules ++ rule_set name (text_or (lookup name targets) target) ∷ [])
      (put name (lhie1_provider name suffix) providers)

unfoldable pub google_provider : Env → RuleProvider
unfolding get_dustinwin_provider_url ◌<>◌
google_provider env = record {
  kind = text "http";
  behavior = text "classical";
  format = some (text "text");
  url = some (text (get_dustinwin_provider_url env google_ruleset_file (some google_ruleset_url)));
  path = text (dustinwin_ruleset_path_prefix <> ("/" <> google_ruleset_file));
  interval = number 86400;
  proxy = none;
}

abbrev pub leading_rules : List String
leading_rules =
    "DOMAIN-SUFFIX,xn--ngstr-lra8j.com,Proxy" ∷ "DOMAIN-SUFFIX,services.googleapis.cn,Google" ∷ []

-- The rule source `dustinwin规则`.
unfoldable pub dustinwin_rules : Env → Dict String → List String × Dict RuleProvider
dustinwin_rules env targets =
    let (rules, providers) =
      dustinwin_loop env targets
        (priority_ordered_items dustinwin_providers_map ("ai" ∷ "youtube" ∷ "google" ∷ [])
          ("cnip" ∷ []))
        leading_rules [] in
    (rules ++ "MATCH,Others" ∷ [], providers)

-- The rule source `lhie1规则`.
unfoldable pub lhie1_rules : Env → Dict String → List String × Dict RuleProvider
lhie1_rules env targets =
    let (rules, providers) =
      lhie1_loop targets
        (priority_ordered_items lhie1_providers_map ("AI Suite" ∷ [])
          ("Domestic" ∷ "Domestic IPs" ∷ []))
        leading_rules [] in
    (
      (rules ++ "RULE-SET,google,Google" ∷ [])
          ++ "GEOIP,CN,Domestic,no-resolve" ∷ "MATCH,Others" ∷ [],
      put "google" (google_provider env) providers,
    )

-- The branch on `selected_rule_type`: the rule list and the providers of the rule source.
unfoldable pub base_rules :
    Env → String → Dict String → Dict String → List String × Dict RuleProvider
base_rules env selected_rule_type lhie1_targets dustinwin_targets =
    if selected_rule_type == "dustinwin规则"
    then dustinwin_rules env dustinwin_targets
    else if selected_rule_type == "lhie1规则"
    then lhie1_rules env lhie1_targets
    else if is_no_base_rule_type selected_rule_type
    then ([], [])
    else (
      leading_rules
          ++ "DOMAIN-SUFFIX,google.com,Google" ∷ "DOMAIN-SUFFIX,youtube.com,Youtube"
            ∷ "GEOIP,CN,DIRECT,no-resolve" ∷ "MATCH,Proxy" ∷ [],
      [],
    )

unfoldable pub custom_provider : String → CustomProvider → RuleProvider
unfolding ◌<>◌ truthy
custom_provider name config = record {
  kind = get_or config.kind (text "http");
  behavior = get_or config.behavior (text "classical");
  path = get_or config.path (text ("./ruleset/" <> (name <> ".yaml")));
  interval = get_or config.interval (number 86400);
  url = if is_http (get_or config.kind (text "http")) then only_true config.url else none;
  proxy = config.proxy;
  format = only_true config.format;
}

-- The loop over the user's providers.
pub record ProviderRules : Type 0 where
  pub providers : Dict RuleProvider
  pub prepend : List String
  pub append : List String

unfoldable pub add_custom_provider : String → CustomProvider → ProviderRules → ProviderRules
add_custom_provider name config r =
    let rule = rule_set name (get_or config.target "Proxy") in
    let providers = put name (custom_provider name config) r.providers in
    if get_or config.order "" == "优先 (覆盖)"
    then record { providers = providers; prepend = r.prepend ++ rule ∷ []; append = r.append }
    else record { providers = providers; prepend = r.prepend; append = r.append ++ rule ∷ [] }

unfoldable pub custom_provider_loop : Dict CustomProvider → ProviderRules → ProviderRules
custom_provider_loop [] r = r
custom_provider_loop ((name, config) ∷ rest) r =
    custom_provider_loop rest (add_custom_provider name config r)

-- `custom_match[:1] or preset_match`
abbrev pub first_or : List String → List String → List String
first_or [] preset = preset
first_or (rule ∷ _) preset = rule ∷ []

unfoldable pub assemble_rules :
    String → List String → List String → List String → List String → List String
assemble_rules selected_rule_type custom_rules prepend rule_list append =
    let final_match =
      first_or (filter is_match_rule custom_rules) (filter is_match_rule rule_list) in
    let final_rules =
      filter (λ r. not (is_match_rule r)) custom_rules
      ++ (prepend ++ (filter (λ r. not (is_match_rule r)) rule_list ++ (append ++ final_match))) in
    if not (is_no_base_rule_type selected_rule_type) && not (any (has_prefix "MATCH,") final_rules)
    then final_rules ++ "MATCH,Proxy" ∷ []
    else final_rules

unfoldable pub build_rules :
    Env
    → String
    → List String
    → Dict CustomProvider
    → Dict String
    → Dict String
    → List String × Dict RuleProvider
build_rules env selected_rule_type custom_rules custom_rule_providers lhie1_targets
      dustinwin_targets =
    let (rule_list, providers) =
      base_rules env selected_rule_type lhie1_targets dustinwin_targets in
    let r =
      custom_provider_loop custom_rule_providers
        (record { providers = providers; prepend = []; append = [] }) in
    (assemble_rules selected_rule_type custom_rules r.prepend rule_list r.append, r.providers)
