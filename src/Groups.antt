-- ===== src/Groups.antt =====
-- The proxy groups: src/clash_meta_gen.py, and `generate_minimal_proxy_groups` of src/config_builder.py.
-- A node is a dict of the caller's with a name, `name_of`.
pub mod Validate
pub mod Closed
pub mod Generated
use clash_config_gen.Prelude.{
  ℕ, zero, suc, ◌+◌, ◌-◌, ◌*◌, ◌/◌, ◌%◌, ◌≤◌, ◌<◌, String, ◌<>◌, ◌≡◌, refl, sym, ap, ◌∙◌, ◌≢◌, ◌↔◌,
  ◌⊎◌, inl, inr, Bool, true, false, not, ◌&&◌, ◌||◌, Option, none, some, List, [], ◌∷◌, ◌++◌, map,
  arith, ◌==◌, eq_iff, eq_refl, ltb, leb, eqb, if◌then◌else◌, ltb→lt, lt→ltb, leb→le, le→leb,
  eqb_iff, Bool-cases, Option-cases, length, filter, count, any, all, find, length-append,
  filter-append, count-append, count-le-length, any-append, All, All-append,
}
use clash_config_gen.Prelude.Dict.{contains}

-- A group; a key that the code leaves out is `none`, and `disable-udp` is there only if it is true.
pub record ProxyGroup : Type 0 where
  pub name : String
  pub kind : String
  pub proxies : List String
  pub url : Option String
  pub interval : Option ℕ
  pub disable_udp : Bool
  pub tolerance : Option ℕ

-- `if url: group["url"] = url`, and so for a number.
abbrev pub given_text : Option String → Option String
given_text none = none
given_text (some url) = if url == "" then none else some url

abbrev pub given_number : Option ℕ → Option ℕ
given_number none = none
given_number (some n) = if eqb n 0 then none else some n

-- A group that is written out.
abbrev select_group : String → List String → ProxyGroup
select_group name proxies = record {
  name = name;
  kind = "select";
  proxies = proxies;
  url = none;
  interval = none;
  disable_udp = false;
  tolerance = none;
}

abbrev pub global_tv_apps : List String
global_tv_apps = "HBO Max" ∷ "Netflix" ∷ "Disney Plus" ∷ "Discovery Plus" ∷ "DAZN" ∷ "Spotify" ∷ []

abbrev pub app_groups : List String
app_groups =
    "Microsoft" ∷ "AI Suite" ∷ "Apple" ∷ "Apple TV" ∷ "Google" ∷ "Google FCM" ∷ "Scholar"
    ∷ "Bilibili" ∷ "Bahamut" ∷ "HBO Max" ∷ "Pornhub" ∷ "Netflix" ∷ "Disney Plus" ∷ "Discovery Plus"
    ∷ "DAZN" ∷ "Spotify" ∷ "Steam" ∷ "TikTok" ∷ "miHoYo" ∷ "Telegram" ∷ "Crypto" ∷ "Discord"
    ∷ "Speedtest" ∷ "PayPal" ∷ []

-- The extra members of an app's group.
unfoldable pub app_extra : String → List String
unfolding contains
app_extra app =
    if contains global_tv_apps app
    then "Global TV" ∷ "DIRECT" ∷ "Proxy" ∷ []
    else if app == "Bahamut"
    then "Asian TV" ∷ "DIRECT" ∷ "Proxy" ∷ []
    else if app == "Bilibili"
    then "CN Mainland TV" ∷ "DIRECT" ∷ "Proxy" ∷ []
    else "Proxy" ∷ "DIRECT" ∷ []

module _ {Node : Type 0} (name_of : Node → String) where
  unfoldable pub create_group :
      String
      → String
      → List Node
      → List String
      → Option String
      → Option ℕ
      → Bool
      → Option ℕ
      → ProxyGroup
  create_group name type_name proxies_list extra_proxies url interval disable_udp tolerance =
      record {
        name = name;
        kind = type_name;
        proxies = extra_proxies ++ map name_of proxies_list;
        url = given_text url;
        interval = given_number interval;
        disable_udp = disable_udp;
        tolerance = if type_name == "url-test" then given_number tolerance else none;
      }

  abbrev node_group : List Node → String → List String → ProxyGroup
  node_group all_proxies name extra =
      create_group name "select" all_proxies extra none none false none

  -- The groups of the apps.
  abbrev pub groups_of_apps : List Node → List String → List ProxyGroup
  groups_of_apps all_proxies apps = map (λ app. node_group all_proxies app (app_extra app)) apps

  -- From Youtube on.
  abbrev pub last_groups : List Node → List ProxyGroup
  last_groups all_proxies =
      create_group "Youtube" "select" all_proxies ("Global TV" ∷ "DIRECT" ∷ "Proxy" ∷ []) none none
        true none
      ∷ select_group "AdBlock" ("REJECT" ∷ "DIRECT" ∷ "Proxy" ∷ [])
      ∷ select_group "HTTPDNS" ("REJECT" ∷ "DIRECT" ∷ "Proxy" ∷ [])
      ∷ node_group all_proxies "Global TV" ("Proxy" ∷ "DIRECT" ∷ [])
      ∷ node_group all_proxies "Asian TV" ("Proxy" ∷ "DIRECT" ∷ [])
      ∷ select_group "CN Mainland TV" ("DIRECT" ∷ "Proxy" ∷ [])
      ∷ []

  unfoldable pub generate_proxy_groups : List Node → String → ℕ → ℕ → List ProxyGroup
  unfolding create_group app_extra
  generate_proxy_groups all_proxies url_test_url url_test_interval url_test_tolerance =
      create_group "Auto - UrlTest" "url-test" all_proxies [] (some url_test_url)
        (some url_test_interval) false (some url_test_tolerance)
      ∷ node_group all_proxies "Proxy" ("Auto - UrlTest" ∷ "DIRECT" ∷ [])
      ∷ select_group "Domestic" ("DIRECT" ∷ "Proxy" ∷ [])
      ∷ select_group "Others" ("Proxy" ∷ "DIRECT" ∷ "Domestic" ∷ [])
      ∷ (groups_of_apps all_proxies app_groups ++ last_groups all_proxies)

  -- `proxy.get("name")`: a node without a name, or with an empty one, is left out.
  unfoldable pub generate_minimal_proxy_groups : List Node → String → ℕ → ℕ → List ProxyGroup
  generate_minimal_proxy_groups proxies url_test_url url_test_interval url_test_tolerance =
      let node_names = filter (λ name. not (name == "")) (map name_of proxies) in
      record {
        name = "Auto - UrlTest";
        kind = "url-test";
        proxies = node_names;
        url = some url_test_url;
        interval = some url_test_interval;
        disable_udp = false;
        tolerance = some url_test_tolerance;
      }
      ∷ select_group "Proxy" ("Auto - UrlTest" ∷ "DIRECT" ∷ node_names)
      ∷ []
