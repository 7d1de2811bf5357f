-- ===== src/Tests/DraftRuns.antt =====
-- Drafts.
use clash_config_gen.Prelude.{
  ℕ, String, ◌≡◌, refl, true, not, Option, none, some, List, [], ◌∷◌, map, all,
}
use clash_config_gen.Prelude.Dict.{Dict, lookup}
use clash_config_gen.Prelude.Int.{ℤ}
use clash_config_gen.Value.{
  Value, text, number, texts, table, array, items_of, fields_of, truthy, str,
}
use clash_config_gen.Groups.Validate.{MihomoConfig}
use clash_config_gen.Rules.Build.{Env}
use clash_config_gen.Drafts.{accepted, Draft, DraftMeta}
use clash_config_gen.Drafts.Intake.{normalize_draft, merged_global_config}
use clash_config_gen.Drafts.Bounds.{IsBounded, normalize_draft-IsBounded}
use clash_config_gen.Drafts.Validation.{MihomoResult, run_validation, is_repeated}
use clash_config_gen.Drafts.Publishable.{IsPublishable, run_validation-IsPublishable}
use clash_config_gen.Normalizer.Proxy.{
  normalize_smux, normalize_client_fingerprint, normalize_fingerprint, normalize_ech,
  normalize_hop_interval, normalize_port, normalize_server, normalize_name, normalize_type,
}

abbrev no_repr : Value → String
no_repr v = ""

abbrev no_list : String → Option Value
no_list s = none

abbrev no_version : String → Option ℕ
no_version s = none

abbrev no_int : String → Option ℤ
no_int s = none

abbrev env : Env
env = record {
  public_base_url = none;
  ruleset_cache_enabled = none;
  ruleset_update_interval = none;
}

abbrev node : Dict Value
node =
    ("name", text "n")
    ∷ ("type", text "trojan")
    ∷ ("server", text "s")
    ∷ ("port", number 443)
    ∷ ("password", text "p")
    ∷ []

abbrev body : Dict Value
body =
    ("proxies", array (items_of (table (fields_of node) ∷ [])))
    ∷ ("custom_rules", texts ("MATCH,Proxy" ∷ []))
    ∷ ("selected_rule_type", text " none ")
    ∷ []

abbrev draft : Draft
draft = record {
  proxies = node ∷ [];
  global_config = merged_global_config none none;
  custom_rules = "MATCH,Proxy" ∷ [];
  custom_rule_providers = [];
  selected_rule_type = "none";
  import_sources = [];
}

abbrev meta : DraftMeta
meta = record { warnings = []; errors = [] }

body_accepted : normalize_draft no_repr no_list no_version body none ≡ accepted (draft, meta)
unfolding normalize_draft normalize_smux normalize_client_fingerprint normalize_fingerprint
    normalize_ech normalize_hop_interval normalize_port normalize_server normalize_name
    normalize_type
body_accepted = refl

normalize_draft-IsBounded_example : IsBounded no_repr no_list no_version draft
normalize_draft-IsBounded_example =
    normalize_draft-IsBounded no_repr no_list no_version body none draft meta body_accepted

abbrev same : String → String
same s = s

abbrev no_dump : Dict Value → String
no_dump d = "{}"

abbrev no_diff : List String → List String → String
no_diff a b = ""

-- The document of the draft's nodes, with one group.
abbrev build : Draft → Option (Dict Value)
build d = some (
    ("proxies", array (items_of (map (λ proxy. table (fields_of proxy)) d.proxies)))
    ∷ (
      "proxy-groups",
      array (
          items_of (
            table (
              fields_of (
                ("name", text "Proxy")
                ∷ ("type", text "select")
                ∷ ("proxies", texts ("n" ∷ "DIRECT" ∷ []))
                ∷ []))
            ∷ [])),
    )
    ∷ ("rules", texts d.custom_rules)
    ∷ [])

abbrev no_yaml_error : MihomoConfig (Dict Value) → Option String
no_yaml_error config = none

abbrev passing : String → Option MihomoResult
passing yaml = some (record { status = "passed"; ok = true; message = "" })

abbrev no_sign : Draft → String
no_sign d = ""

draft_ok :
    (run_validation no_repr same no_dump no_list no_diff build no_yaml_error passing no_sign draft
      "" meta).ok
    ≡ true
unfolding run_validation
draft_ok = refl

run_validation-IsPublishable_example :
    (meta.errors ≡ [])
    × ((all (λ name. not (is_repeated ("n" ∷ []) name)) ("n" ∷ []) ≡ true)
        × IsPublishable no_repr same no_dump no_list no_diff build no_yaml_error passing no_sign
            draft
            (build draft))
unfolding lookup truthy str
run_validation-IsPublishable_example =
    run_validation-IsPublishable no_repr same no_dump no_list no_diff build no_yaml_error passing
      no_sign draft "" meta draft_ok
