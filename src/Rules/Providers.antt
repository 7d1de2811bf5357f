-- ===== src/Rules/Providers.antt =====
-- The rule providers that src/config_builder.py knows by heart.
use clash_config_gen.Prelude.{ℕ, String, Bool, true, false, Option, none, some, [], ◌∷◌}
use clash_config_gen.Prelude.Dict.{Dict}

abbrev pub dustinwin_ruleset_base_url : String
dustinwin_ruleset_base_url =
    "https://github.com/DustinWin/ruleset_geodata/releases/download/mihomo-ruleset"

abbrev pub dustinwin_ruleset_interval : ℕ
dustinwin_ruleset_interval = 604800

abbrev pub dustinwin_ruleset_path_prefix : String
dustinwin_ruleset_path_prefix = "./ruleset/dustinwin"

abbrev pub google_ruleset_file : String
google_ruleset_file = "google.list"

abbrev pub google_ruleset_url : String
google_ruleset_url =
    "https://raw.githubusercontent.com/blackmatrix7/ios_rule_script/master/rule/Clash/Google/Google.list"

abbrev pub default_rule_type : String
default_rule_type = "dustinwin规则"

-- A value of `DUSTINWIN_PROVIDERS_MAP`; `url` and `no_resolve` are given for some only.
pub record DustinwinProvider : Type 0 where
  pub file : String
  pub behavior : String
  pub format : String
  pub target : String
  pub url : Option String
  pub no_resolve : Bool

abbrev entry : String → String → String → String → DustinwinProvider
entry file behavior format target = record {
  file = file;
  behavior = behavior;
  format = format;
  target = target;
  url = none;
  no_resolve = false;
}

-- `DUSTINWIN_PROVIDERS_MAP`
unfoldable pub dustinwin_providers_map : Dict DustinwinProvider
dustinwin_providers_map =
    ("private", entry "private.mrs" "domain" "mrs" "DIRECT")
    ∷ ("ads", entry "ads.mrs" "domain" "mrs" "AdBlock")
    ∷ ("applications", entry "applications.list" "classical" "text" "DIRECT")
    ∷ ("microsoft-cn", entry "microsoft-cn.mrs" "domain" "mrs" "Microsoft")
    ∷ ("apple-cn", entry "apple-cn.mrs" "domain" "mrs" "Apple")
    ∷ (
      "google",
      record (entry "google.list" "classical" "text" "Google") { url = some google_ruleset_url },
    )
    ∷ ("google-cn", entry "google-cn.mrs" "domain" "mrs" "Google")
    ∷ ("games-cn", entry "games-cn.mrs" "domain" "mrs" "Steam")
    ∷ ("games", entry "games.mrs" "domain" "mrs" "Steam")
    ∷ ("netflix", entry "netflix.mrs" "domain" "mrs" "Netflix")
    ∷ ("disney", entry "disney.mrs" "domain" "mrs" "Disney Plus")
    ∷ ("max", entry "max.mrs" "domain" "mrs" "HBO Max")
    ∷ ("primevideo", entry "primevideo.mrs" "domain" "mrs" "Global TV")
    ∷ ("appletv", entry "appletv.mrs" "domain" "mrs" "Apple TV")
    ∷ ("youtube", entry "youtube.mrs" "domain" "mrs" "Youtube")
    ∷ ("tiktok", entry "tiktok.mrs" "domain" "mrs" "TikTok")
    ∷ ("bilibili", entry "bilibili.mrs" "domain" "mrs" "Bilibili")
    ∷ ("spotify", entry "spotify.mrs" "domain" "mrs" "Spotify")
    ∷ ("media", entry "media.mrs" "domain" "mrs" "Global TV")
    ∷ ("ai", entry "ai.mrs" "domain" "mrs" "AI Suite")
    ∷ ("networktest", entry "networktest.mrs" "domain" "mrs" "Speedtest")
    ∷ ("tld-proxy", entry "tld-proxy.mrs" "domain" "mrs" "Proxy")
    ∷ ("gfw", entry "gfw.mrs" "domain" "mrs" "Proxy")
    ∷ ("proxy", entry "proxy.mrs" "domain" "mrs" "Proxy")
    ∷ ("cn", entry "cn.mrs" "domain" "mrs" "Domestic")
    ∷ ("privateip", record (entry "privateip.mrs" "ipcidr" "mrs" "DIRECT") { no_resolve = true })
    ∷ ("cnip", record (entry "cnip.mrs" "ipcidr" "mrs" "Domestic") { no_resolve = true })
    ∷ (
      "telegramip",
      record (entry "telegramip.mrs" "ipcidr" "mrs" "Telegram") { no_resolve = true },
    )
    ∷ ("netflixip", record (entry "netflixip.mrs" "ipcidr" "mrs" "Netflix") { no_resolve = true })
    ∷ ("mediaip", record (entry "mediaip.mrs" "ipcidr" "mrs" "Global TV") { no_resolve = true })
    ∷ []

-- `LHIE1_PROVIDERS_MAP`: the path of a provider and its target.
unfoldable pub lhie1_providers_map : Dict (String × String)
lhie1_providers_map =
    ("AdBlock", ("AdBlock", "AdBlock"))
    ∷ ("HTTPDNS", ("HTTPDNS", "HTTPDNS"))
    ∷ ("Special", ("Special", "DIRECT"))
    ∷ ("PROXY", ("Proxy", "Proxy"))
    ∷ ("Domestic", ("Domestic", "Domestic"))
    ∷ ("Domestic IPs", ("Domestic%20IPs", "Domestic"))
    ∷ ("LAN", ("LAN", "DIRECT"))
    ∷ ("Netflix", ("Media/Netflix", "Netflix"))
    ∷ ("Spotify", ("Media/Spotify", "Spotify"))
    ∷ ("YouTube", ("Media/YouTube", "Youtube"))
    ∷ ("Max", ("Media/Max", "HBO Max"))
    ∷ ("Bilibili", ("Media/Bilibili", "Bilibili"))
    ∷ ("IQ", ("Media/IQ", "CN Mainland TV"))
    ∷ ("IQIYI", ("Media/IQIYI", "CN Mainland TV"))
    ∷ ("Letv", ("Media/Letv", "CN Mainland TV"))
    ∷ ("Netease Music", ("Media/Netease%20Music", "CN Mainland TV"))
    ∷ ("Tencent Video", ("Media/Tencent%20Video", "CN Mainland TV"))
    ∷ ("Youku", ("Media/Youku", "CN Mainland TV"))
    ∷ ("WeTV", ("Media/WeTV", "Global TV"))
    ∷ ("ABC", ("Media/ABC", "Global TV"))
    ∷ ("Abema TV", ("Media/Abema%20TV", "Asian TV"))
    ∷ ("Amazon", ("Media/Amazon", "Global TV"))
    ∷ ("Apple Music", ("Media/Apple%20Music", "Apple"))
    ∷ ("Apple News", ("Media/Apple%20News", "Apple"))
    ∷ ("Apple TV", ("Media/Apple%20TV", "Apple TV"))
    ∷ ("Bahamut", ("Media/Bahamut", "Bahamut"))
    ∷ ("BBC iPlayer", ("Media/BBC%20iPlayer", "Global TV"))
    ∷ ("DAZN", ("Media/DAZN", "DAZN"))
    ∷ ("Discovery Plus", ("Media/Discovery%20Plus", "Discovery Plus"))
    ∷ ("Disney Plus", ("Media/Disney%20Plus", "Disney Plus"))
    ∷ ("DMM", ("Media/DMM", "Asian TV"))
    ∷ ("encoreTVB", ("Media/encoreTVB", "Global TV"))
    ∷ ("F1 TV", ("Media/F1%20TV", "Global TV"))
    ∷ ("Fox Now", ("Media/Fox%20Now", "Global TV"))
    ∷ ("Fox+", ("Media/Fox%2B", "Asian TV"))
    ∷ ("Hulu Japan", ("Media/Hulu%20Japan", "Asian TV"))
    ∷ ("Hulu", ("Media/Hulu", "Global TV"))
    ∷ ("JOOX", ("Media/JOOX", "Asian TV"))
    ∷ ("KKBOX", ("Media/KKBOX", "Asian TV"))
    ∷ ("KKTV", ("Media/KKTV", "Asian TV"))
    ∷ ("Line TV", ("Media/Line%20TV", "Asian TV"))
    ∷ ("myTV SUPER", ("Media/myTV%20SUPER", "Asian TV"))
    ∷ ("Niconico", ("Media/Niconico", "Asian TV"))
    ∷ ("Pandora", ("Media/Pandora", "Global TV"))
    ∷ ("PBS", ("Media/PBS", "Global TV"))
    ∷ ("Pornhub", ("Media/Pornhub", "Pornhub"))
    ∷ ("Soundcloud", ("Media/Soundcloud", "Global TV"))
    ∷ ("ViuTV", ("Media/ViuTV", "Asian TV"))
    ∷ ("Telegram", ("Telegram", "Telegram"))
    ∷ ("Crypto", ("Crypto", "Crypto"))
    ∷ ("Discord", ("Discord", "Discord"))
    ∷ ("Steam", ("Steam", "Steam"))
    ∷ ("TikTok", ("TikTok", "TikTok"))
    ∷ ("Speedtest", ("Speedtest", "Speedtest"))
    ∷ ("PayPal", ("PayPal", "PayPal"))
    ∷ ("Microsoft", ("Microsoft", "Microsoft"))
    ∷ ("AI Suite", ("AI%20Suite", "AI Suite"))
    ∷ ("Apple", ("Apple", "Apple"))
    ∷ ("Google FCM", ("Google%20FCM", "Google"))
    ∷ ("Scholar", ("Scholar", "Scholar"))
    ∷ ("miHoYo", ("miHoYo", "miHoYo"))
    ∷ []
