-- ===== src/Storage/Configs/Tokens.antt =====
-- The reset of a subscription's token.
use clash_config_gen.Prelude.{ℕ, String, List}
use clash_config_gen.Prelude.Apart.{Apart}
use clash_config_gen.Storage.{Config, update_where, owns_config}
use clash_config_gen.Storage.Configs.{set_token}

module _ (user_id : ℕ) (token : String) (now : ℕ) where
  -- The table after the UPDATE.
  abbrev renamed : List Config → List Config
  renamed = update_where (owns_config user_id) (set_token token now)
