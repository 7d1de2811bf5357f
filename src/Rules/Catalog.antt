-- ===== src/Rules/Catalog.antt =====
-- `build_rule_catalog` of src/config_builder.py: the rules of each source, as a page shows them.
use clash_config_gen.Prelude.{
  String, Bool, true, false, not, ◌&&◌, Option, none, some, List, [], ◌∷◌, ◌==◌, if◌then◌else◌,
  filter, find,
}
use clash_config_gen.Prelude.Dict.{Dict, lookup, has_key}
use clash_config_gen.Prelude.Text.{split, join}
use clash_config_gen.Rules.Providers.{dustinwin_providers_map, lhie1_providers_map}
use clash_config_gen.Rules.Build.{Env, is_match_rule, build_rules}

-- `DUSTINWIN_RULE_LABELS`
unfoldable pub dustinwin_rule_labels : Dict String
dustinwin_rule_labels =
    ("private", "私有网络域名")
    ∷ ("ads", "广告域名")
    ∷ ("applications", "下载类应用")
    ∷ ("microsoft-cn", "微软国内域名")
    ∷ ("apple-cn", "苹果国内域名")
    ∷ ("google", "Google 服务")
    ∷ ("google-cn", "Google 国内域名")
    ∷ ("games-cn", "游戏国内域名")
    ∷ ("games", "游戏平台")
    ∷ ("netflix", "Netflix")
    ∷ ("disney", "Disney+")
    ∷ ("max", "HBO Max")
    ∷ ("primevideo", "Prime Video")
    ∷ ("appletv", "Apple TV")
    ∷ ("youtube", "YouTube")
    ∷ ("tiktok", "TikTok")
    ∷ ("bilibili", "哔哩哔哩")
    ∷ ("spotify", "Spotify")
    ∷ ("media", "其他流媒体")
    ∷ ("ai", "AI 服务")
    ∷ ("networktest", "测速站点")
    ∷ ("tld-proxy", "境外顶级域名")
    ∷ ("gfw", "GFW 名单")
    ∷ ("proxy", "代理域名")
    ∷ ("cn", "国内域名")
    ∷ ("privateip", "私有网络 IP")
    ∷ ("cnip", "国内 IP")
    ∷ ("telegramip", "Telegram IP")
    ∷ ("netflixip", "Netflix IP")
    ∷ ("mediaip", "流媒体 IP")
    ∷ []

-- `LHIE1_RULE_LABELS`
unfoldable pub lhie1_rule_labels : Dict String
lhie1_rule_labels =
    ("AdBlock", "广告拦截")
    ∷ ("HTTPDNS", "HTTPDNS 拦截")
    ∷ ("Special", "特殊直连")
    ∷ ("PROXY", "代理域名")
    ∷ ("Domestic", "国内域名")
    ∷ ("Domestic IPs", "国内 IP")
    ∷ ("LAN", "局域网")
    ∷ ("AI Suite", "AI 服务")
    ∷ ("Crypto", "加密货币")
    ∷ ("Scholar", "学术站点")
    ∷ ("Speedtest", "测速站点")
    ∷ ("google", "Google 服务")
    ∷ ("IQ", "爱奇艺海外")
    ∷ ("IQIYI", "爱奇艺")
    ∷ ("Letv", "乐视")
    ∷ ("Netease Music", "网易云音乐")
    ∷ ("Tencent Video", "腾讯视频")
    ∷ ("Youku", "优酷")
    ∷ ("Bilibili", "哔哩哔哩")
    ∷ ("Google FCM", "Google 推送")
    ∷ []

pub record CatalogEntry : Type 0 where
  pub kind : String
  pub value : String
  pub target : String
  pub no_resolve : Bool
  pub overridable : Bool
  pub label : String

-- `parts[1:-1]` and `parts[-1]`, of the parts after the first.
abbrev pub middle_and_last : List String → Option (List String × String)
middle_and_last [] = none
middle_and_last (part ∷ []) = some ([], part)
middle_and_last (part ∷ next ∷ parts) = elim (middle_and_last (next ∷ parts)) [
  | none ↦ none
  | some (middle, last) ↦ some (part ∷ middle, last)
]

-- `parts[:-1]` if the last part is no-resolve.
abbrev pub without_no_resolve : List String → Bool × List String
without_no_resolve [] = (false, [])
without_no_resolve (part ∷ []) = if part == "no-resolve" then (true, []) else (false, part ∷ [])
without_no_resolve (part ∷ next ∷ parts) =
    let (found, rest) = without_no_resolve (next ∷ parts) in (found, part ∷ rest)

abbrev label_or : Option String → String
label_or none = ""
label_or (some label) = label

abbrev entry_of :
    (String → Bool) → Dict String → Bool → String → List String × String → CatalogEntry
entry_of is_overridable labels no_resolve kind (middle, target) =
    let value = join "," middle in
    record {
      kind = kind;
      value = value;
      target = target;
      no_resolve = no_resolve;
      overridable = kind == "RULE-SET" && is_overridable value;
      label = if kind == "RULE-SET" then label_or (lookup value labels) else "内置规则";
    }

-- One part alone is its own type and target.
abbrev entry_of_parts : (String → Bool) → Dict String → Bool × List String → Option CatalogEntry
entry_of_parts is_overridable labels (no_resolve, []) = none
entry_of_parts is_overridable labels (no_resolve, kind ∷ []) =
    some (entry_of is_overridable labels no_resolve kind ([], kind))
entry_of_parts is_overridable labels (no_resolve, kind ∷ next ∷ parts) =
    elim (middle_and_last (next ∷ parts)) [
      | none ↦ none
      | some found ↦ some (entry_of is_overridable labels no_resolve kind found)
    ]

-- `_catalog_entry`; `none` is the IndexError of a rule without parts.
unfoldable pub catalog_entry : (String → Bool) → Dict String → String → Option CatalogEntry
unfolding split join lookup
catalog_entry is_overridable labels rule =
    entry_of_parts is_overridable labels (without_no_resolve (split b',' rule))

abbrev cons_entry : Option CatalogEntry → Option (List CatalogEntry) → Option (List CatalogEntry)
cons_entry (some entry) (some entries) = some (entry ∷ entries)
cons_entry _ _ = none

unfoldable pub catalog_entries :
    (String → Bool) → Dict String → List String → Option (List CatalogEntry)
unfolding catalog_entry
catalog_entries is_overridable labels [] = some []
catalog_entries is_overridable labels (rule ∷ rules) =
    cons_entry (catalog_entry is_overridable labels rule)
      (catalog_entries is_overridable labels rules)

-- `rule.split(",", 1)[1]`
abbrev pub after_comma : Option String → Option String
after_comma none = none
after_comma (some rule) = elim (split b',' rule) [ [] ↦ none | _ ∷ parts ↦ some (join "," parts) ]

-- The entry of one source in the catalog.
pub record CatalogSource : Type 0 where
  pub key : String
  pub label : String
  pub rules : Option (List CatalogEntry)
  pub fallback : Option String

unfoldable pub catalog_source :
    Env → String → String → String → (String → Bool) → Dict String → CatalogSource
unfolding catalog_entries build_rules is_match_rule
catalog_source env rule_type key label is_overridable labels =
    let rules = (build_rules env rule_type [] [] [] []).0 in
    record {
      key = key;
      label = label;
      rules =
          catalog_entries is_overridable labels (filter (λ rule. not (is_match_rule rule)) rules);
      fallback = after_comma (find is_match_rule rules);
    }

unfoldable pub build_rule_catalog : Env → Dict CatalogSource
unfolding catalog_source has_key dustinwin_providers_map lhie1_providers_map dustinwin_rule_labels
    lhie1_rule_labels
build_rule_catalog env =
    (
      "dustinwin规则",
      catalog_source env "dustinwin规则" "dustinwin" "DustinWin"
          (λ name. has_key name dustinwin_providers_map) dustinwin_rule_labels,
    )
    ∷ (
      "lhie1规则",
      catalog_source env "lhie1规则" "lhie1" "lhie1" (λ name. has_key name lhie1_providers_map)
          lhie1_rule_labels,
    )
    ∷ ("none", record { key = ""; label = "无基础规则"; rules = some []; fallback = none })
    ∷ []
