-- ===== src/Settings/Defaults.antt =====
-- The tables of src/config_defaults.py.
use clash_config_gen.Prelude.{true, false, [], ◌∷◌}
use clash_config_gen.Prelude.Dict.{Dict}
use clash_config_gen.Value.{Value, boolean, number, text, table, end}

unfoldable pub build_default_global_config : Dict Value
build_default_global_config =
    ("include_global_compat", boolean false)
    ∷ ("include_inbound_ports", boolean false)
    ∷ ("include_controller", boolean false)
    ∷ ("include_router_options", boolean false)
    ∷ ("enable_core_options", boolean false)
    ∷ ("optional_globals_v2", boolean true)
    ∷ ("port", number 7890)
    ∷ ("socks_port", number 7891)
    ∷ ("mixed_port", number 7893)
    ∷ ("allow_lan", boolean false)
    ∷ ("bind_address", text "*")
    ∷ ("mode", text "rule")
    ∷ ("log_level", text "info")
    ∷ ("ipv6_support", boolean false)
    ∷ ("external_controller", text "0.0.0.0:9090")
    ∷ ("secret", text "")
    ∷ ("redir_port", number 7892)
    ∷ ("tproxy_port", number 7895)
    ∷ ("interface_name", text "")
    ∷ ("external_ui", text "")
    ∷ ("external_ui_name", text "")
    ∷ ("external_ui_url", text "")
    ∷ ("keep_alive_interval", number 15)
    ∷ ("keep_alive_idle", number 600)
    ∷ ("url_test_url", text "http://cp.cloudflare.com/generate_204")
    ∷ ("url_test_interval", number 60)
    ∷ ("url_test_tolerance", number 30)
    ∷ ("tcp_concurrent", boolean false)
    ∷ ("unified_delay", boolean false)
    ∷ ("find_process_mode", text "strict")
    ∷ ("geodata_mode", boolean false)
    ∷ ("geodata_loader", text "standard")
    ∷ ("enable_tun", boolean false)
    ∷ ("tun_stack", text "mixed")
    ∷ ("tun_device", text "utun")
    ∷ ("tun_auto_route", boolean false)
    ∷ ("tun_auto_detect_interface", boolean false)
    ∷ ("tun_dns_hijack", boolean false)
    ∷ ("tun_dns_hijack_value", text "127.0.0.1:53")
    ∷ ("tun_endpoint_independent_nat", boolean false)
    ∷ ("tun_auto_redirect", boolean false)
    ∷ ("tun_strict_route", boolean false)
    ∷ ("enable_dns", boolean false)
    ∷ ("dns_listen", text "0.0.0.0:7874")
    ∷ ("dns_ipv6", boolean false)
    ∷ ("enhanced_mode", text "fake-ip")
    ∷ ("fake_ip_range", text "198.18.0.1/16")
    ∷ ("fake_ip_range6", text "fc00::/18")
    ∷ ("fake_ip_filter_mode", text "blacklist")
    ∷ ("dns_respect_rules", boolean false)
    ∷ ("direct_nameserver", text "")
    ∷ ("proxy_server_nameserver", text "")
    ∷ ("default_nameserver", text "223.5.5.5\n119.29.29.29")
    ∷ ("nameserver", text "https://dns.alidns.com/dns-query\nhttps://doh.pub/dns-query")
    ∷ ("fallback", text "https://1.1.1.1/dns-query\ntcp://8.8.8.8")
    ∷ ("nameserver_policy", text "")
    ∷ ("enable_sniffer", boolean false)
    ∷ ("sniff_override_dest", boolean false)
    ∷ ("sniffer_parse_pure_ip", boolean false)
    ∷ ("sniffer_force_dns_mapping", boolean false)
    ∷ ("openclash_preset", boolean false)
    ∷ ("profile_store_selected", boolean false)
    ∷ ("profile_store_fake_ip", boolean false)
    ∷ ("ntp_enable", boolean false)
    ∷ ("ntp_server", text "time.apple.com")
    ∷ ("ntp_port", number 123)
    ∷ ("ntp_interval", number 30)
    ∷ ("ntp_write_to_system", boolean false)
    ∷ ("authentication", text "")
    ∷ ("generation_profile", text "openclash-router")
    ∷ ("is_desktop", boolean false)
    ∷ ("lhie1_provider_targets", table end)
    ∷ ("dustinwin_provider_targets", table end)
    ∷ []

-- `FULL_CLIENT_DNS_PRESET`
unfoldable pub full_client_dns_preset : Dict Value
full_client_dns_preset =
    ("include_global_compat", boolean false)
    ∷ ("include_inbound_ports", boolean false)
    ∷ ("include_controller", boolean false)
    ∷ ("include_router_options", boolean false)
    ∷ ("enable_core_options", boolean true)
    ∷ ("tcp_concurrent", boolean true)
    ∷ ("unified_delay", boolean true)
    ∷ ("geodata_mode", boolean true)
    ∷ ("enable_dns", boolean true)
    ∷ ("dns_listen", text "0.0.0.0:7874")
    ∷ ("dns_ipv6", boolean false)
    ∷ ("enhanced_mode", text "fake-ip")
    ∷ ("fake_ip_range", text "198.18.0.1/16")
    ∷ ("fake_ip_range6", text "fc00::/18")
    ∷ ("fake_ip_filter_mode", text "blacklist")
    ∷ ("default_nameserver", text "223.5.5.5\n119.29.29.29")
    ∷ ("nameserver", text "https://dns.alidns.com/dns-query\nhttps://doh.pub/dns-query")
    ∷ ("direct_nameserver", text "223.5.5.5\n119.29.29.29")
    ∷ ("proxy_server_nameserver", text "223.5.5.5")
    ∷ ("fallback", text "")
    ∷ ("dns_respect_rules", boolean true)
    ∷ ("openclash_preset", boolean false)
    ∷ ("enable_tun", boolean true)
    ∷ ("tun_stack", text "mixed")
    ∷ ("tun_auto_route", boolean true)
    ∷ ("tun_auto_detect_interface", boolean true)
    ∷ ("tun_dns_hijack", boolean true)
    ∷ ("tun_dns_hijack_value", text "127.0.0.1:53")
    ∷ ("tun_endpoint_independent_nat", boolean true)
    ∷ ("tun_auto_redirect", boolean false)
    ∷ ("tun_strict_route", boolean true)
    ∷ ("enable_sniffer", boolean true)
    ∷ ("sniff_override_dest", boolean true)
    ∷ ("sniffer_parse_pure_ip", boolean true)
    ∷ ("sniffer_force_dns_mapping", boolean true)
    ∷ ("profile_store_selected", boolean true)
    ∷ ("profile_store_fake_ip", boolean true)
    ∷ ("generation_profile", text "desktop-full")
    ∷ ("is_desktop", boolean true)
    ∷ ("target_mode_user_selected", boolean true)
    ∷ []

-- `OPENCLASH_ROUTER_SAFE_PRESET`
unfoldable pub openclash_router_safe_preset : Dict Value
openclash_router_safe_preset =
    ("include_global_compat", boolean false)
    ∷ ("include_inbound_ports", boolean false)
    ∷ ("include_controller", boolean false)
    ∷ ("include_router_options", boolean false)
    ∷ ("enable_core_options", boolean false)
    ∷ ("enable_dns", boolean false)
    ∷ ("dns_respect_rules", boolean false)
    ∷ ("direct_nameserver", text "")
    ∷ ("proxy_server_nameserver", text "")
    ∷ ("enable_tun", boolean false)
    ∷ ("tun_dns_hijack", boolean false)
    ∷ ("tun_strict_route", boolean false)
    ∷ ("enable_sniffer", boolean false)
    ∷ ("sniff_override_dest", boolean false)
    ∷ ("sniffer_parse_pure_ip", boolean false)
    ∷ ("sniffer_force_dns_mapping", boolean false)
    ∷ ("openclash_preset", boolean false)
    ∷ ("profile_store_selected", boolean false)
    ∷ ("profile_store_fake_ip", boolean false)
    ∷ ("generation_profile", text "openclash-router")
    ∷ ("is_desktop", boolean false)
    ∷ ("target_mode_user_selected", boolean true)
    ∷ []
