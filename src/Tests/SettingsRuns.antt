-- ===== src/Tests/SettingsRuns.antt =====
-- Settings of an account.
use clash_config_gen.Prelude.{◌≡◌, refl, true, some, [], ◌∷◌, arith, eq_iff}
use clash_config_gen.Prelude.Dict.{Dict, lookup, has_key}
use clash_config_gen.Value.{Value, boolean, number}
use clash_config_gen.Settings.Defaults.{build_default_global_config}
use clash_config_gen.Settings.Profile.{
  apply_generation_profile, apply_generation_profile-idempotent,
}
use clash_config_gen.Settings.Merge.{
  is_old_tolerance, apply_v2_global_defaults, apply_v2_global_defaults_keeps,
}

abbrev saved : Dict Value
saved = ("url_test_tolerance", number 50) ∷ ("enable_tun", boolean true) ∷ []

apply_generation_profile-idempotent_example :
    lookup "enable_tun" (apply_generation_profile (apply_generation_profile saved))
    ≡ lookup "enable_tun" (apply_generation_profile saved)
apply_generation_profile-idempotent_example = apply_generation_profile-idempotent "enable_tun" saved

apply_v2_global_defaults_keeps_example :
    lookup "enable_tun" (apply_v2_global_defaults build_default_global_config saved)
    ≡ some (boolean true)
unfolding lookup has_key is_old_tolerance
apply_v2_global_defaults_keeps_example =
    apply_v2_global_defaults_keeps build_default_global_config saved "enable_tun" (boolean true)
      (refl, (refl, tt)) refl (λ e. ground (arith, (eq_iff "enable_tun" "optional_globals_v2").1 e))
      (λ e. refl)
