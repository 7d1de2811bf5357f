-- ===== src/Tests/Documents.antt =====
-- Documents.
use clash_config_gen.Prelude.{
  ℕ, String, ◌≡◌, refl, true, false, Option, none, some, List, [], ◌∷◌, all,
}
use clash_config_gen.Prelude.Text.{all_chars}
use clash_config_gen.Config.Yaml.{build_subscription_headers}
use clash_config_gen.Config.Yaml.Injection.{is_printable, is_header, build_subscription_headers_lem}
use clash_config_gen.Prelude.Dict.{Dict}
use clash_config_gen.Prelude.Int.{ℤ}
use clash_config_gen.Value.{Value, text, number, boolean}
use clash_config_gen.Groups.{ProxyGroup, generate_proxy_groups}
use clash_config_gen.Rules.Build.{Env, RuleProvider, build_rules}
use clash_config_gen.Config.Rendered.{name_of}
use clash_config_gen.Config.Build.{final_proxies, default_url_test_url}

abbrev no_repr : Value → String
no_repr v = ""

abbrev no_list : String → Option Value
no_list s = none

abbrev no_version : String → Option ℕ
no_version s = none

abbrev no_int : String → Option ℤ
no_int s = none

abbrev env : Env
env = record {
  public_base_url = none;
  ruleset_cache_enabled = none;
  ruleset_update_interval = none;
}

abbrev proxies : List (Dict Value)
proxies = (("name", text "fast") ∷ ("port", number 443) ∷ ("_source_id", text "s") ∷ []) ∷ []

abbrev desktop : Dict Value
desktop =
    ("is_desktop", boolean true)
    ∷ ("enable_dns", boolean true)
    ∷ ("authentication", text "u:p")
    ∷ []

abbrev router : Dict Value
router =
    ("is_desktop", boolean false) ∷ ("secret", text "s") ∷ ("include_controller", boolean true) ∷ []

abbrev custom_rules : List String
custom_rules = "MATCH,Proxy" ∷ []

abbrev nodes : List (Dict Value)
nodes = final_proxies no_repr no_list no_version no_int env proxies

abbrev groups : List ProxyGroup
groups = generate_proxy_groups name_of nodes default_url_test_url 60 30

abbrev rules : List String × Dict RuleProvider
rules = build_rules env "none" custom_rules [] [] []

abbrev no_base64 : String → String
no_base64 s = "QQ=="

abbrev no_quote : String → String
no_quote s = "%41"

encoded :
    (s : String)
    → (all_chars is_printable (no_base64 s) ≡ true) × (all_chars is_printable (no_quote s) ≡ true)
unfolding all_chars
encoded s = (refl, refl)

build_subscription_headers_lem_example :
    all is_header (build_subscription_headers no_base64 no_quote 3 2 (some "a\"; x\n")) ≡ true
build_subscription_headers_lem_example =
    build_subscription_headers_lem no_base64 no_quote encoded 3 2 (some "a\"; x\n")
