-- ===== src/Config/Entries.antt =====
-- The nodes, the groups and the rules of the document that `build_config` gives back.
use clash_config_gen.Prelude.{String, ◌≡◌, false}
use clash_config_gen.Prelude.Dict.{Dict, contains}
use clash_config_gen.Value.{Value}
use clash_config_gen.Config.Kept.{section_keys, Same}

-- No entry changes whose key no section writes.
Untouched : Dict Value → Dict Value → Type 0
Untouched d after = (k : String) → contains section_keys k ≡ false → Same k d after
