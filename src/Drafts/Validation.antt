-- ===== src/Drafts/Validation.antt =====
-- `_run_validation`: errors, warnings, targets and differences of a draft. `hide` is the substitution of
-- credentials in an error's text, `dump` and `load` are YAML's, `unified_diff` is difflib's, `sign` digests a
-- draft, and `validate_with_mihomo` runs the kernel, where `none` is an exception.
use clash_config_gen.Prelude.{
  ℕ, String, ◌<>◌, Bool, true, false, not, ◌&&◌, ◌||◌, Option, none, some, List, [], ◌∷◌, ◌++◌, map,
  ◌==◌, ltb, eqb, if◌then◌else◌, length, filter, count,
}
use Prim.Native.Char.{code}
use Prim.Native.String.{compare}
use Prim.Native.Nat.{Ordering}
use clash_config_gen.Prelude.Dict.{Dict, contains, lookup}
use clash_config_gen.Prelude.Text.{strip, truncate}
use clash_config_gen.Value.{Value, text, array, table, items, entries, truthy, truthy_entry, str}
use clash_config_gen.Groups.{ProxyGroup}
use clash_config_gen.Groups.Validate.{Entry, mapping, other, MihomoConfig, validate_config}
use clash_config_gen.Normalizer.{validate_proxy_fields}
use clash_config_gen.Rules.Build.{is_no_base_rule_type}
use clash_config_gen.Config.Texts.{split_lines}
use clash_config_gen.Config.Yaml.{build_yaml}
use clash_config_gen.Drafts.{Draft, DraftMeta}

-- `_safe_error_text` of src/api_errors.py
abbrev without_nul : String → String
without_nul String.[] = String.[]
without_nul (String.◌∷◌ c s) =
    let rest = without_nul s in if eqb (code c) 0 then rest else String.◌∷◌ c rest

unfoldable pub safe_error_text : (String → String) → String → String
unfolding strip truncate
safe_error_text hide value =
    let shown = truncate 1000 (without_nul (hide (strip value))) in
    if shown == "" then "请求失败" else shown

-- `sorted` of a set: a name that is there is not added again.
abbrev pub insert_after : Ordering → String → String → List String → List String → List String
insert_after Ordering.lt name first rest inserted = name ∷ first ∷ rest
insert_after Ordering.eq name first rest inserted = first ∷ rest
insert_after Ordering.gt name first rest inserted = first ∷ inserted

unfoldable pub insert_name : String → List String → List String
insert_name name [] = name ∷ []
insert_name name (first ∷ rest) =
    insert_after (compare name first) name first rest (insert_name name rest)

unfoldable pub sorted : List String → List String
unfolding insert_name
sorted [] = []
sorted (name ∷ names) = insert_name name (sorted names)

-- `str(proxy.get("name") or "")`
abbrev pub name_or_blank : (Value → String) → Option Value → String
name_or_blank repr none = ""
name_or_blank repr (some v) = if truthy v then str repr v else ""

abbrev pub is_repeated : List String → String → Bool
is_repeated names name = not (name == "") && ltb 1 (count (λ n. n == name) names)

unfoldable pub duplicates : List String → List String
unfolding sorted
duplicates names = sorted (filter (is_repeated names) names)

-- What the checks of a document read of it.
abbrev node_entry : Value → Entry (Dict Value)
node_entry (table fs) = mapping (entries fs)
node_entry _ = other

abbrev text_or_nothing : Option Value → Option String
text_or_nothing (some (text s)) = some s
text_or_nothing _ = none

abbrev list_at : Option Value → List Value
list_at (some (array vs)) = items vs
list_at _ = []

abbrev entry_at : Option Value → Dict Value
entry_at (some (table fs)) = entries fs
entry_at _ = []

abbrev texts_at : (Value → String) → Option Value → List String
texts_at repr o = map (λ v. str repr v) (list_at o)

abbrev group_at : (Value → String) → Value → ProxyGroup
group_at repr v =
    let group = entry_at (some v) in
    record {
      name = name_or_blank repr (lookup "name" group);
      kind = name_or_blank repr (lookup "type" group);
      proxies = texts_at repr (lookup "proxies" group);
      url = none;
      interval = none;
      disable_udp = false;
      tolerance = none;
    }

-- A generated document, as `validate_config` reads it.
unfoldable pub read_config : (Value → String) → Dict Value → MihomoConfig (Dict Value)
unfolding lookup truthy str
read_config repr config =
    let dns = entry_at (lookup "dns" config) in
    record {
      proxies = map node_entry (list_at (lookup "proxies" config));
      proxy_groups = map (group_at repr) (list_at (lookup "proxy-groups" config));
      rules = texts_at repr (lookup "rules" config);
      respect_rules = truthy_entry (lookup "respect-rules" dns);
      proxy_server_nameserver = texts_at repr (lookup "proxy-server-nameserver" dns);
    }

pub record MihomoResult : Type 0 where
  pub status : String
  pub ok : Bool
  pub message : String

abbrev skipped : MihomoResult
skipped = record { status = "skipped"; ok = true; message = "未启用 mihomo 校验" }

-- The state of the validation.
pub record Progress : Type 0 where
  pub built : Option (Dict Value)
  pub yaml : String
  pub errors : List String
  pub warnings : List String
  pub mihomo : MihomoResult

abbrev pub failed : Progress → Progress
failed progress = record progress {
  errors = progress.errors ++ "配置生成失败，请检查节点、规则和全局设置" ∷ [];
  warnings = progress.warnings ++ "配置生成阶段发生错误，未返回内部异常详情" ∷ [];
}

abbrev pub with_mihomo : Option MihomoResult → Progress → Progress
with_mihomo none progress = failed progress
with_mihomo (some result) progress = record progress { mihomo = result }

-- A skipped check is passed.
abbrev pub mihomo_ok : MihomoResult → Bool
mihomo_ok result = result.status == "skipped" || result.ok

abbrev pub no_error : List String → Bool
no_error [] = true
no_error (_ ∷ _) = false

pub record Check : Type 0 where
  pub status : String
  pub label : String
  pub detail : String

pub record Stats : Type 0 where
  pub nodes : ℕ
  pub groups : ℕ
  pub rules : ℕ
  pub providers : ℕ
  pub sources : ℕ

pub record Diff : Type 0 where
  pub has_changes : Bool
  pub published : Bool
  pub unified : String
  pub lines : ℕ
  pub added_proxies : List String
  pub removed_proxies : List String

pub record Validated : Type 0 where
  pub ok : Bool
  pub checks : List Check
  pub warnings : List String
  pub stats : Stats
  pub mihomo : MihomoResult
  pub yaml : String
  pub draft_signature : String
  pub all_targets : List String
  pub publish_diff : Diff
  pub config : Draft
  pub built_config : Option (Dict Value)
  pub errors : List String

-- `BUILTIN_TARGETS`
abbrev pub builtin_targets : List String
builtin_targets =
    "DIRECT" ∷ "REJECT" ∷ "REJECT-DROP" ∷ "PASS" ∷ "Proxy" ∷ "Domestic" ∷ "Others" ∷ []

module _ (repr : Value → String) (hide : String → String) (dump : Dict Value → String)
    (load : String → Option Value) (unified_diff : List String → List String → String) where
  unfoldable pub validation_checks : List String → List String → MihomoResult → List Check
  unfolding safe_error_text ◌<>◌
  validation_checks errors warnings result =
      map
        (λ error. record { status = "error"; label = "结构检查"; detail = safe_error_text hide error })
        errors
      ++ (map
            (λ warning. record {
              status = "warn";
              label = "提示";
              detail = safe_error_text hide warning;
            })
            warnings
          ++ (if result.status == "skipped"
              then []
              else record {
                status = if result.ok then "ok" else "error";
                label = "mihomo 内核校验（" <> (result.status <> "）");
                detail = safe_error_text hide result.message;
              }
                ∷ []))

  -- Names that are not blank.
  abbrev pub names_of : List (Dict Value) → List String
  names_of proxies =
      filter (λ name. not (strip name == ""))
        (map (λ proxy. name_or_blank repr (lookup "name" proxy)) proxies)

  abbrev tables_at : Option Value → List (Dict Value)
  tables_at o = map (λ v. entry_at (some v)) (list_at o)

  -- `_safe_targets_for_draft`, of the document, if there is one.
  unfoldable pub safe_targets_for_draft : Draft → Option (Dict Value) → List String × List String
  unfolding sorted lookup truthy str strip
  safe_targets_for_draft draft none =
      (sorted (builtin_targets ++ names_of draft.proxies), "策略组构建失败，已返回内置目标和当前节点名" ∷ [])
  safe_targets_for_draft draft (some built) = (
    sorted (
        builtin_targets
        ++ (names_of (tables_at (lookup "proxy-groups" built))
            ++ names_of (tables_at (lookup "proxies" built)))),
    [],
  )

  unfoldable pub config_stats : Option (Dict Value) → Draft → Stats
  unfolding lookup
  config_stats none draft = record {
    nodes = length draft.proxies;
    groups = 0;
    rules = length draft.custom_rules;
    providers = length draft.custom_rule_providers;
    sources = length draft.import_sources;
  }
  config_stats (some built) draft = record {
    nodes = length (list_at (lookup "proxies" built));
    groups = length (list_at (lookup "proxy-groups" built));
    rules = length (list_at (lookup "rules" built));
    providers = length (entry_at (lookup "rule-providers" built));
    sources = length draft.import_sources;
  }

  abbrev named_texts : List (Dict Value) → List String
  named_texts proxies =
      map (λ proxy. name_or_blank repr (lookup "name" proxy))
        (filter (λ proxy. truthy_entry (lookup "name" proxy)) proxies)

  abbrev proxies_in : Option Value → List String
  proxies_in none = []
  proxies_in (some v) = named_texts (tables_at (lookup "proxies" (entry_at (some v))))

  unfoldable pub proxy_names_from_yaml : String → List String
  unfolding lookup truthy str strip
  proxy_names_from_yaml yaml_text =
      if strip yaml_text == "" then [] else proxies_in (load yaml_text)

  -- `text.splitlines()`, for a text without `\r\n`: no empty line after the last break.
  abbrev drop_last : List String → List String
  drop_last [] = []
  drop_last (line ∷ []) = if line == "" then [] else line ∷ []
  drop_last (line ∷ next ∷ lines) = line ∷ drop_last (next ∷ lines)

  unfoldable pub yaml_diff : String → String → Diff
  unfolding split_lines proxy_names_from_yaml contains strip
  yaml_diff draft_yaml published_yaml =
      let unified =
        unified_diff (drop_last (split_lines published_yaml))
          (drop_last (split_lines draft_yaml)) in
      let draft_names = proxy_names_from_yaml draft_yaml in
      let published_names = proxy_names_from_yaml published_yaml in
      record {
        has_changes = not (draft_yaml == published_yaml);
        published = not (strip published_yaml == "");
        unified = unified;
        lines = length (drop_last (split_lines unified));
        added_proxies = filter (λ name. not (contains published_names name)) draft_names;
        removed_proxies = filter (λ name. not (contains draft_names name)) published_names;
      }

  module _ (build : Draft → Option (Dict Value))
      (yaml_error : MihomoConfig (Dict Value) → Option String)
      (validate_with_mihomo : String → Option MihomoResult) (sign : Draft → String) where
    abbrev pub config_errors : Draft → Dict Value → List String
    config_errors draft built =
        validate_config (λ proxy. text_or_nothing (lookup "name" proxy))
          (validate_proxy_fields repr) yaml_error (read_config repr built)
          (is_no_base_rule_type draft.selected_rule_type)

    -- The part inside `try`.
    unfoldable pub generate : Draft → Option (Dict Value) → Progress → Progress
    unfolding build_yaml validate_config is_no_base_rule_type read_config lookup
        validate_proxy_fields
    generate draft none progress = failed progress
    generate draft (some built) progress =
        let yaml = build_yaml dump built in
        with_mihomo (validate_with_mihomo yaml) (record progress {
          built = some built;
          yaml = yaml;
          errors = progress.errors ++ config_errors draft built;
        })

    abbrev pub start : Draft → DraftMeta → Progress
    start draft meta = record {
      built = none;
      yaml = "";
      errors =
          meta.errors
          ++ map (λ name. "节点名称重复：" <> name)
              (duplicates (map (λ proxy. name_or_blank repr (lookup "name" proxy)) draft.proxies));
      warnings = meta.warnings;
      mihomo = skipped;
    }

    unfoldable pub run_validation : Draft → String → DraftMeta → Validated
    unfolding generate duplicates lookup truthy str ◌<>◌ safe_targets_for_draft validation_checks
        config_stats yaml_diff safe_error_text
    run_validation draft published_yaml meta =
        let progress = generate draft (build draft) (start draft meta) in
        let (targets, target_warnings) = safe_targets_for_draft draft progress.built in
        let warnings = progress.warnings ++ target_warnings in
        record {
          ok = no_error progress.errors && mihomo_ok progress.mihomo;
          checks = validation_checks progress.errors warnings progress.mihomo;
          warnings = warnings;
          stats = config_stats progress.built draft;
          mihomo = record {
            status = progress.mihomo.status;
            ok = mihomo_ok progress.mihomo;
            message = safe_error_text hide progress.mihomo.message;
          };
          yaml = progress.yaml;
          draft_signature = sign draft;
          all_targets = targets;
          publish_diff = yaml_diff progress.yaml published_yaml;
          config = draft;
          built_config = progress.built;
          errors = progress.errors;
        }
