-- ===== src/Config/Sections.antt =====
-- The parts of the document that settings switch on, and that read no lines.
use clash_config_gen.Prelude.{
  ℕ, String, Bool, true, false, ◌||◌, Option, none, some, List, [], ◌∷◌, map, if◌then◌else◌,
}
use clash_config_gen.Prelude.Dict.{Dict, lookup, put}
use clash_config_gen.Value.{
  Value, boolean, number, text, array, table, texts, items_of, fields_of, truthy, is_blank, update,
}
use clash_config_gen.Config.Texts.{setting, is_on}

abbrev pub sniffer_force_domain : List String
sniffer_force_domain =
    "+.youtube.com" ∷ "+.googlevideo.com" ∷ "+.ytimg.com" ∷ "+.ggpht.com" ∷ "+.netflix.com"
    ∷ "+.nflxvideo.net" ∷ "+.nflximg.net" ∷ "+.nflxso.net" ∷ "+.nflxext.com" ∷ "+.disneyplus.com"
    ∷ "+.dssott.com" ∷ "+.disney.com" ∷ "+.discord.com" ∷ "+.discord.gg" ∷ "+.discordapp.com"
    ∷ "+.discordapp.net" ∷ "+.telegram.org" ∷ "+.t.me" ∷ "+.twitter.com" ∷ "+.x.com" ∷ "+.twimg.com"
    ∷ "+.facebook.com" ∷ "+.fbcdn.net" ∷ "+.instagram.com" ∷ "+.cdninstagram.com" ∷ []

abbrev pub sniffer_skip_domain : List String
sniffer_skip_domain =
    "Mijia Cloud" ∷ "dlg.io.mi.com" ∷ "+.mi.com" ∷ "+.xiaomi.com" ∷ "+.push.xiaomi.com"
    ∷ "+.oray.com" ∷ "+.sunlogin.net" ∷ "+.xunlei.com" ∷ "courier.push.apple.com"
    ∷ "+.push.apple.com" ∷ []

abbrev pub sniffer_skip_dst_address : List String
sniffer_skip_dst_address =
    "0.0.0.0/8" ∷ "10.0.0.0/8" ∷ "100.64.0.0/10" ∷ "127.0.0.0/8" ∷ "169.254.0.0/16"
    ∷ "172.16.0.0/12" ∷ "192.168.0.0/16" ∷ "224.0.0.0/4" ∷ "::1/128" ∷ "fc00::/7" ∷ "fe80::/10"
    ∷ "ff00::/8" ∷ []

abbrev pub object : Dict Value → Value
object d = table (fields_of d)

abbrev numbers : List ℕ → Value
numbers ns = array (items_of (map (λ n. number n) ns))

-- `if config.get(setting): final_config[key] = …`
abbrev pub put_true : String → Option Value → Dict Value → Dict Value
put_true key none final_config = final_config
put_true key (some v) final_config = if truthy v then put key v final_config else final_config

-- `if default not in (None, ""): final_config[key] = default`
abbrev pub put_filled : String → Option Value → Dict Value → Dict Value
put_filled key none final_config = final_config
put_filled key (some v) final_config =
    if is_blank (some v) then final_config else put key v final_config

abbrev pub put_if : Bool → String → Value → Dict Value → Dict Value
put_if applies key v final_config = if applies then put key v final_config else final_config

unfoldable pub base_options : Dict Value → Dict Value
unfolding lookup
base_options global_config =
    ("port", setting "port" (number 7890) global_config)
    ∷ ("socks-port", setting "socks_port" (number 7891) global_config)
    ∷ ("mixed-port", setting "mixed_port" (number 7893) global_config)
    ∷ ("allow-lan", setting "allow_lan" (boolean false) global_config)
    ∷ ("bind-address", setting "bind_address" (text "*") global_config)
    ∷ ("mode", setting "mode" (text "rule") global_config)
    ∷ ("log-level", setting "log_level" (text "info") global_config)
    ∷ ("ipv6", setting "ipv6_support" (boolean false) global_config)
    ∷ ("find-process-mode", setting "find_process_mode" (text "strict") global_config)
    ∷ []

-- The entry `global` and the inbound ports.
unfoldable pub add_base_options : Dict Value → Dict Value → Dict Value
unfolding lookup put update truthy base_options
add_base_options global_config final_config =
    let compat =
      put_if (is_on "include_global_compat" global_config) "global"
        (object (base_options global_config)) final_config in
    if is_on "include_inbound_ports" global_config
    then update compat (base_options global_config)
    else compat

unfoldable pub add_controller : Dict Value → Dict Value → Dict Value
unfolding lookup put truthy
add_controller global_config final_config =
    if is_on "include_controller" global_config
    then put_true "external-ui-url" (lookup "external_ui_url" global_config) (
        put_true "external-ui-name" (lookup "external_ui_name" global_config) (
          put_true "external-ui" (lookup "external_ui" global_config) (
            put_true "secret" (lookup "secret" global_config) (
              put_true "external-controller" (lookup "external_controller" global_config)
                final_config))))
    else final_config

unfoldable pub add_router_options : Dict Value → Dict Value → Dict Value
unfolding lookup put truthy is_blank
add_router_options global_config final_config =
    if is_on "include_router_options" global_config
    then put_filled "keep-alive-idle" (lookup "keep_alive_idle" global_config) (
        put_filled "keep-alive-interval" (lookup "keep_alive_interval" global_config) (
          put_filled "interface-name" (lookup "interface_name" global_config) (
            put_filled "tproxy-port" (lookup "tproxy_port" global_config)
              (put_filled "redir-port" (lookup "redir_port" global_config) final_config))))
    else final_config

unfoldable pub add_core_options : Dict Value → Dict Value → Dict Value
unfolding lookup put truthy
add_core_options global_config final_config =
    if is_on "enable_core_options" global_config
    then put "geodata-loader" (setting "geodata_loader" (text "standard") global_config) (
        put "geodata-mode" (setting "geodata_mode" (boolean false) global_config) (
          put "unified-delay" (setting "unified_delay" (boolean false) global_config) (
            put "tcp-concurrent" (setting "tcp_concurrent" (boolean false) global_config)
              final_config)))
    else final_config

abbrev sniffed : Value
sniffed = object (
    ("TLS", object (("ports", numbers (443 ∷ [])) ∷ []))
    ∷ (
      "HTTP",
      object (
          ("ports", array (items_of (number 80 ∷ text "8080-8880" ∷ [])))
          ∷ ("override-destination", boolean true)
          ∷ []),
    )
    ∷ ("QUIC", object (("ports", numbers (443 ∷ 8443 ∷ [])) ∷ []))
    ∷ [])

unfoldable pub sniffer_section : Dict Value → Value
unfolding lookup
sniffer_section global_config = object (
    ("enable", boolean true)
    ∷ ("sniff", sniffed)
    ∷ ("override-destination", setting "sniff_override_dest" (boolean false) global_config)
    ∷ ("force-domain", texts sniffer_force_domain)
    ∷ ("skip-domain", texts sniffer_skip_domain)
    ∷ ("parse-pure-ip", setting "sniffer_parse_pure_ip" (boolean true) global_config)
    ∷ ("force-dns-mapping", setting "sniffer_force_dns_mapping" (boolean true) global_config)
    ∷ ("skip-dst-address", texts sniffer_skip_dst_address)
    ∷ [])

abbrev pub profile_section : Dict Value → Value
profile_section global_config = object (
    ("store-selected", setting "profile_store_selected" (boolean false) global_config)
    ∷ ("store-fake-ip", setting "profile_store_fake_ip" (boolean false) global_config)
    ∷ [])

abbrev pub ntp_section : Dict Value → Value
ntp_section global_config = object (
    ("enable", boolean true)
    ∷ ("server", setting "ntp_server" (text "time.apple.com") global_config)
    ∷ ("port", setting "ntp_port" (number 123) global_config)
    ∷ ("interval", setting "ntp_interval" (number 30) global_config)
    ∷ ("write-to-system", setting "ntp_write_to_system" (boolean true) global_config)
    ∷ [])

-- The sniffer, the stored profile and the clock.
unfoldable pub add_sniffer : Dict Value → Dict Value → Dict Value
unfolding lookup put truthy sniffer_section
add_sniffer global_config final_config =
    put_if (is_on "enable_sniffer" global_config) "sniffer" (sniffer_section global_config)
      final_config

unfoldable pub add_profile : Dict Value → Dict Value → Dict Value
unfolding lookup put truthy
add_profile global_config final_config =
    put_if
      (is_on "profile_store_selected" global_config || is_on "profile_store_fake_ip" global_config)
      "profile" (profile_section global_config) final_config

unfoldable pub add_ntp : Dict Value → Dict Value → Dict Value
unfolding lookup put truthy
add_ntp global_config final_config =
    put_if (is_on "ntp_enable" global_config) "ntp" (ntp_section global_config) final_config
