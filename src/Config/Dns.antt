-- ===== src/Config/Dns.antt =====
-- The parts of the document that read settings line by line: TUN, DNS and the authentication.
use clash_config_gen.Prelude.{◌>>=◌}
use clash_config_gen.Prelude.{String, true, false, Option, some, List, [], ◌∷◌, map, if◌then◌else◌}
use clash_config_gen.Prelude.Dict.{Dict, lookup, put}
use clash_config_gen.Value.{Value, boolean, text, texts, truthy, update}
use clash_config_gen.Config.Texts.{
  setting, is_on, text_to_list, first_non_empty_list, parse_nameserver_policy,
}
use clash_config_gen.Config.Sections.{put_true, object}

abbrev pub fake_ip_filter_list : List String
fake_ip_filter_list =
    "+.services.googleapis.cn" ∷ "+.googleapis.cn" ∷ "*.lan" ∷ "*.localdomain" ∷ "*.example"
    ∷ "*.invalid" ∷ "*.localhost" ∷ "*.test" ∷ "*.local" ∷ "*.home.arpa" ∷ "*.direct"
    ∷ "time.windows.com" ∷ "geosite:cn" ∷ []

abbrev pub soft_router_fake_ip_filter_list : List String
soft_router_fake_ip_filter_list =
    "+.lan" ∷ "+.local" ∷ "+.localhost" ∷ "+.localdomain" ∷ "+.home.arpa" ∷ "+.test" ∷ "+.example"
    ∷ "+.invalid" ∷ "localhost" ∷ "msftconnecttest.com" ∷ "www.msftconnecttest.com" ∷ "msftncsi.com"
    ∷ "www.msftncsi.com" ∷ "detectportal.firefox.com" ∷ "time.apple.com" ∷ "time-ios.apple.com"
    ∷ "time1.apple.com" ∷ "time.windows.com" ∷ "time.nist.gov" ∷ "time.cloudflare.com"
    ∷ "time1.cloud.tencent.com" ∷ "ntp.aliyun.com" ∷ "ntp.tencent.com" ∷ "+.pool.ntp.org"
    ∷ "+.ntp.org.cn" ∷ "+.time.edu.cn" ∷ "short.weixin.qq.com" ∷ "long.weixin.qq.com"
    ∷ "dns.weixin.qq.com" ∷ "+.weixin.qq.com" ∷ "+.wechat.com" ∷ "+.wechatpay.com" ∷ "+.tenpay.com"
    ∷ "+.qpic.cn" ∷ "+.qlogo.cn" ∷ "+.gtimg.com" ∷ "+.gtimg.cn" ∷ "+.idqqimg.com" ∷ "stun.*.*"
    ∷ "stun.*.*.*" ∷ "+.srv.nintendo.net" ∷ "xbox.*.microsoft.com" ∷ "+.xboxlive.com"
    ∷ "+.steamcontent.com" ∷ "+.music.163.com" ∷ "+.126.net" ∷ "+.qqmusic.qq.com"
    ∷ "+.music.migu.cn" ∷ "+.mcdn.bilivideo.cn" ∷ "+.bilivideo.cn" ∷ "dlg.io.mi.com"
    ∷ "ot.io.mi.com" ∷ "+.mi.com" ∷ "+.xiaomi.com" ∷ "+.push.xiaomi.com" ∷ "+.cmbchina.com"
    ∷ "+.unionpay.com" ∷ "geosite:cn" ∷ []

-- `text_to_list(config.get(key, ""))`
abbrev pub lines_of : String → Dict Value → Option (List String)
lines_of key global_config = text_to_list (setting key (text "") global_config)

-- `if items: section[key] = items`
abbrev pub put_items : String → List String → Dict Value → Dict Value
put_items key [] section = section
put_items key (item ∷ items) section = put key (texts (item ∷ items)) section

abbrev pub hijacked : Dict Value → Option (List String)
hijacked global_config =
    if truthy (setting "tun_dns_hijack" (boolean true) global_config)
    then text_to_list (setting "tun_dns_hijack_value" (text "127.0.0.1:53") global_config)
    else some []

unfoldable pub tun_section : Dict Value → Option Value
unfolding lookup truthy text_to_list
tun_section global_config = do
  dns_hijack ← hijacked global_config
  some (
      object (
        ("enable", boolean true)
        ∷ ("stack", setting "tun_stack" (text "mixed") global_config)
        ∷ ("device", setting "tun_device" (text "utun") global_config)
        ∷ ("auto-route", setting "tun_auto_route" (boolean true) global_config)
        ∷ (
          "auto-detect-interface",
          setting "tun_auto_detect_interface" (boolean true) global_config,
        )
        ∷ ("dns-hijack", texts dns_hijack)
        ∷ (
          "endpoint-independent-nat",
          setting "tun_endpoint_independent_nat" (boolean true) global_config,
        )
        ∷ ("auto-redirect", setting "tun_auto_redirect" (boolean false) global_config)
        ∷ ("strict-route", setting "tun_strict_route" (boolean false) global_config)
        ∷ []))

abbrev pub dns_start : Dict Value → Dict Value
dns_start global_config =
    ("enable", boolean true)
    ∷ (
      "fake-ip-filter",
      texts (
          if is_on "openclash_preset" global_config
          then soft_router_fake_ip_filter_list
          else fake_ip_filter_list),
    )
    ∷ []

abbrev pub respect_rules : Dict Value → Value
respect_rules global_config = setting "dns_respect_rules" (boolean false) global_config

-- `proxy-server-nameserver`, which is there if the rules are respected.
unfoldable pub add_proxy_server_nameserver : Dict Value → Dict Value → Option (Dict Value)
unfolding lookup put truthy first_non_empty_list
add_proxy_server_nameserver global_config dns =
    if truthy (respect_rules global_config)
    then (do
      servers ←
          first_non_empty_list
            (setting "proxy_server_nameserver" (text "") global_config
              ∷ setting "direct_nameserver" (text "") global_config
              ∷ setting "default_nameserver" (text "") global_config
              ∷ setting "nameserver" (text "") global_config
              ∷ [])
            "223.5.5.5"
      some (put "proxy-server-nameserver" (texts servers) dns))
    else some dns

abbrev fallback_filter : Value
fallback_filter = object (
    ("geoip", boolean true)
    ∷ ("geoip-code", text "CN")
    ∷ ("ipcidr", texts ("240.0.0.0/4" ∷ []))
    ∷ [])

abbrev pub add_fallback : List String → Dict Value → Dict Value
add_fallback [] dns = dns
add_fallback (item ∷ items) dns =
    put "fallback-filter" fallback_filter (put "fallback" (texts (item ∷ items)) dns)

abbrev pub add_policy_section : Dict String → Dict Value → Dict Value
add_policy_section [] dns = dns
add_policy_section (entry ∷ policy) dns =
    put "nameserver-policy"
      (object (map (λ (e : String × String). (e.0, text e.1)) (entry ∷ policy))) dns

abbrev pub desktop_options : Dict Value → List String → List String → Dict Value
desktop_options global_config default_nameserver nameserver =
    ("listen", setting "dns_listen" (text "0.0.0.0:7874") global_config)
    ∷ ("ipv6", setting "dns_ipv6" (boolean true) global_config)
    ∷ ("enhanced-mode", setting "enhanced_mode" (text "fake-ip") global_config)
    ∷ ("fake-ip-range", setting "fake_ip_range" (text "198.18.0.1/16") global_config)
    ∷ ("default-nameserver", texts default_nameserver)
    ∷ ("nameserver", texts nameserver)
    ∷ []

-- The DNS of a desktop client, up to its own name servers.
unfoldable pub desktop_start : Dict Value → Option (Dict Value)
unfolding lookup put truthy update text_to_list
desktop_start global_config = do
  default_nameserver ← lines_of "default_nameserver" global_config
  nameserver ← lines_of "nameserver" global_config
  direct_nameserver ← lines_of "direct_nameserver" global_config
  let first =
      update (dns_start global_config) (desktop_options global_config default_nameserver nameserver)
  let ranged = put_true "fake-ip-range6" (lookup "fake_ip_range6" global_config) first
  let respecting = put "respect-rules" (respect_rules global_config) ranged
  let filtered =
      put_true "fake-ip-filter-mode" (lookup "fake_ip_filter_mode" global_config) respecting
  some (put_items "direct-nameserver" direct_nameserver filtered)

unfoldable pub desktop_dns : Dict Value → Option (Dict Value)
unfolding lookup put text_to_list desktop_start add_proxy_server_nameserver parse_nameserver_policy
desktop_dns global_config = do
  start ← desktop_start global_config
  dns ← add_proxy_server_nameserver global_config start
  fallback ← lines_of "fallback" global_config
  policy ← parse_nameserver_policy (setting "nameserver_policy" (text "") global_config)
  some (add_policy_section policy (add_fallback fallback dns))

-- The DNS of OpenClash, whose other fields the plugin sets.
unfoldable pub router_dns : Dict Value → Option (Dict Value)
unfolding lookup put truthy add_proxy_server_nameserver
router_dns global_config =
    add_proxy_server_nameserver global_config
      (put "respect-rules" (respect_rules global_config) (dns_start global_config))

unfoldable pub dns_section : Dict Value → Option (Dict Value)
unfolding lookup truthy desktop_dns router_dns
dns_section global_config =
    if truthy (setting "is_desktop" (boolean true) global_config)
    then desktop_dns global_config
    else router_dns global_config

unfoldable pub add_tun : Dict Value → Dict Value → Option (Dict Value)
unfolding lookup put truthy tun_section
add_tun global_config final_config =
    if is_on "enable_tun" global_config
    then (do tun ← tun_section global_config; some (put "tun" tun final_config))
    else some final_config

unfoldable pub add_dns : Dict Value → Dict Value → Option (Dict Value)
unfolding lookup put truthy dns_section
add_dns global_config final_config =
    if is_on "enable_dns" global_config
    then (do dns ← dns_section global_config; some (put "dns" (object dns) final_config))
    else some final_config

unfoldable pub add_authentication : Dict Value → Dict Value → Option (Dict Value)
unfolding lookup put text_to_list
add_authentication global_config final_config = do
  users ← lines_of "authentication" global_config
  some (put_items "authentication" users final_config)
