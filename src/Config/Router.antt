-- ===== src/Config/Router.antt =====
-- The document of the profile `openclash-router`.
use clash_config_gen.Prelude.Dict.{Dict}
use clash_config_gen.Value.{Value}
