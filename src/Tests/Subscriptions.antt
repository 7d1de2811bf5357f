-- ===== src/Tests/Subscriptions.antt =====
-- Subscriptions: drafts, publishing and tokens.
use clash_config_gen.Prelude.{◌≡◌, refl, none, some, eqb, if◌then◌else◌}
use clash_config_gen.Prelude.Text.{truncate}
use clash_config_gen.Storage.{Draft, Config, get_user_by_id}
use clash_config_gen.Storage.Configs.{save_user_draft, save_user_config_atomic, get_config_by_token}
use clash_config_gen.Storage.Configs.Publishing.{
  save_user_draft-get_config_by_token, save_user_config_atomic-get_config_by_token,
}
use clash_config_gen.Tests.{alice, alice_config, two_users}

-- Inputs that are encoded already.
abbrev drafted : Draft → Draft
drafted draft = draft

abbrev my_draft : Draft
my_draft = record {
  proxies_json = "[1]";
  global_config_json = "{}";
  custom_rules_json = "[]";
  custom_rule_providers_json = "{}";
  import_sources_json = "[]";
  selected_rule_type = "lhie1规则";
}

save_user_draft-get_config_by_token_example :
    let after = (save_user_draft drafted 2 my_draft "unknown" "" "fresh" 50 two_users).1 in
    (d : Config) × (get_config_by_token "t-alice" after ≡ some (d, alice))
    × (d.final_yaml ≡ "")
    × (d.published_at ≡ none)
    × (d.validation ≡ alice_config.validation)
    × (d.draft ≡ (if eqb 2 2 then my_draft else alice_config.draft))
unfolding get_config_by_token get_user_by_id
save_user_draft-get_config_by_token_example =
    save_user_draft-get_config_by_token drafted 2 my_draft "unknown" "" "fresh" 50 two_users
      "t-alice" alice_config alice refl

save_user_config_atomic-get_config_by_token_example :
    get_config_by_token "t-alice"
      (save_user_config_atomic drafted 2 my_draft "proxies: []" "valid" "" "fresh" 50 two_users).1
    ≡ some (
      record {
        user_id = 2;
        token = "t-alice";
        draft = my_draft;
        final_yaml = "proxies: []";
        validation = record { status = "valid"; message = ""; validated_at = some 50 };
        draft_validation = record { status = "valid"; message = ""; validated_at = some 50 };
        published_at = some 50;
        created_at = alice_config.created_at;
        updated_at = 50;
      },
      alice,
    )
unfolding get_config_by_token get_user_by_id truncate
save_user_config_atomic-get_config_by_token_example =
    save_user_config_atomic-get_config_by_token drafted 2 my_draft "proxies: []" "valid" "" "fresh"
      50 two_users "t-alice" alice_config alice refl
