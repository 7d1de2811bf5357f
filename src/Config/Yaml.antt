-- ===== src/Config/Yaml.antt =====
-- The text and the headers of a subscription: `build_yaml`, `build_subscription_headers` and the names in them.
-- `dump` is `yaml.dump`, `base64` and `quote` are the library's for UTF-8.
pub mod Injection
use clash_config_gen.Prelude.{
  ℕ, zero, suc, ◌+◌, ◌-◌, ◌*◌, ◌/◌, ◌%◌, ◌≤◌, ◌<◌, String, ◌<>◌, ◌≡◌, refl, sym, ap, ◌∙◌, ◌≢◌, ◌↔◌,
  ◌⊎◌, inl, inr, Bool, true, false, not, ◌&&◌, ◌||◌, Option, none, some, List, [], ◌∷◌, ◌++◌, map,
  arith, ◌==◌, eq_iff, eq_refl, ltb, leb, eqb, if◌then◌else◌, ltb→lt, lt→ltb, leb→le, le→leb,
  eqb_iff, Bool-cases, Option-cases, length, filter, count, any, all, find, length-append,
  filter-append, count-append, count-le-length, any-append, All, All-append,
}
use Prim.Native.Char.{Char, code}
use Prim.Native.String
use clash_config_gen.Prelude.Dict.{Dict}
use clash_config_gen.Prelude.Int.{text_of_nat}
use clash_config_gen.Prelude.Text.{strip, truncate, all_chars, is_digit, join}
use clash_config_gen.Value.{Value}

abbrev pub subscription_generator : String
subscription_generator = "Clash-Config-Gen"

abbrev pub subscription_project : String
subscription_project = "一万AI分享 Clash/OpenClash 订阅生成器"

abbrev pub subscription_usage : String
subscription_usage = "可直接导入 OpenClash、Nikki、Clash Verge Rev、FlClash 或其他 mihomo 兼容客户端"

abbrev pub subscription_github_url : String
subscription_github_url = "https://github.com/10000ge10000/clash-config-gen"

-- The lines of a text.
abbrev lines : List String → String
lines ls = join "\n" ls

unfoldable pub yaml_header : String
unfolding join ◌<>◌
yaml_header = lines (
    ("# Generator: " <> subscription_generator)
    ∷ ("# Generator-URL: " <> subscription_github_url)
    ∷ ("# Project: " <> subscription_project)
    ∷ ("# Project-URL: " <> subscription_github_url)
    ∷ ("# Usage: " <> subscription_usage)
    ∷ "# Note: 以 # 开头的内容是 YAML 注释，mihomo/OpenClash 会忽略"
    ∷ ""
    ∷ [])

unfoldable pub build_yaml : (Dict Value → String) → Dict Value → String
unfolding yaml_header ◌<>◌
build_yaml dump config = yaml_header <> dump config

-- `[\x00-\x1f\x7f-\x9f]`
unfoldable pub is_control : Char → Bool
is_control ch = let c = code ch in leb c 31 || (leb 127 c && leb c 159)

unfoldable pub without_controls : String → String
unfolding is_control
without_controls String.[] = String.[]
without_controls (String.◌∷◌ c s) =
    let rest = without_controls s in if is_control c then rest else String.◌∷◌ c rest

-- `[A-Za-z0-9._-]`
unfoldable pub is_name_char : Char → Bool
unfolding is_digit
is_name_char ch =
    let c = code ch in
    (leb 65 c && leb c 90)
    || (leb 97 c && leb c 122)
    || is_digit ch
    || eqb c 46
    || eqb c 95
    || eqb c 45

abbrev pub profile_name_of : Option String → String
profile_name_of none = ""
profile_name_of (some name) = truncate 64 (strip (without_controls name))

module _ (base64 : String → String) (quote : String → String) where
  unfoldable pub name_headers : String → Dict String
  unfolding all_chars is_name_char ◌<>◌
  name_headers name =
      if name == ""
      then ("Profile-Title", subscription_generator)
        ∷ ("Content-Disposition", "inline; filename=\"clash-config.yaml\"")
        ∷ []
      else if all_chars is_name_char name
      then ("Profile-Title", name)
        ∷ ("Content-Disposition", "inline; filename=\"" <> (name <> "\""))
        ∷ []
      else ("Profile-Title", "base64:" <> base64 name)
        ∷ (
          "Content-Disposition",
          "inline; filename=\"clash-config\"; filename*=UTF-8''" <> quote name,
        )
        ∷ []

  -- `_subscription_profile_name_headers`
  unfoldable pub subscription_profile_name_headers : Option String → Dict String
  unfolding name_headers without_controls truncate strip
  subscription_profile_name_headers profile_name = name_headers (profile_name_of profile_name)

  abbrev pub announce : String
  announce =
      "Generator: "
      <> (subscription_generator
          <> ("\nProject: " <> (subscription_project <> ("\nUsage: " <> subscription_usage))))

  unfoldable pub build_subscription_headers : ℕ → ℕ → Option String → Dict String
  unfolding subscription_profile_name_headers text_of_nat ◌<>◌
  build_subscription_headers proxy_count group_count profile_name =
      ("Profile-Update-Interval", "24")
      ∷ (subscription_profile_name_headers profile_name
          ++ ("Profile-Web-Page-Url", subscription_github_url)
            ∷ ("Support-Url", subscription_github_url)
            ∷ ("Announce", "base64:" <> base64 announce)
            ∷ ("X-Clash-Config-Project-Url", subscription_github_url)
            ∷ ("Cache-Control", "no-store")
            ∷ ("X-Content-Type-Options", "nosniff")
            ∷ ("X-Clash-Proxy-Count", text_of_nat proxy_count)
            ∷ ("X-Clash-Proxy-Group-Count", text_of_nat group_count)
            ∷ [])
