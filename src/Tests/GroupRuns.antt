-- ===== src/Tests/GroupRuns.antt =====
-- A configuration of two nodes.
use clash_config_gen.Prelude.{
  String, ◌≡◌, refl, inr, true, false, Option, none, some, List, [], ◌∷◌,
}
use clash_config_gen.Rules.Build.{Env}
use clash_config_gen.Groups.Validate.{MihomoConfig, validate_config}
use clash_config_gen.Groups.Generated.{generated_config, validate_config-generated}

abbrev plain_env : Env
plain_env = record {
  public_base_url = none;
  ruleset_cache_enabled = none;
  ruleset_update_interval = none;
}

-- Nodes are their names.
abbrev own_name : String → String
own_name node = node

abbrev no_faults : String → List String
no_faults node = []

abbrev reads_back : MihomoConfig String → Option String
reads_back config = none

validate_config-generated_example :
    validate_config
      (λ n. some (own_name n))
      no_faults
      reads_back
      (generated_config own_name
        ("a" ∷ "b" ∷ [])
        "http://cp.cloudflare.com/generate_204"
        60
        30
        plain_env
        "lhie1规则"
        true
        ("223.5.5.5" ∷ []))
      false
    ≡ []
validate_config-generated_example =
    validate_config-generated own_name no_faults reads_back "a" ("b" ∷ [])
      "http://cp.cloudflare.com/generate_204" 60 30 plain_env "lhie1规则" true ("223.5.5.5" ∷ [])
      false (inr refl) (refl, (refl, tt)) refl refl
