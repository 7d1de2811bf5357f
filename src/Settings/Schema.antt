-- ===== src/Settings/Schema.antt =====
-- `build_global_config_schema` of src/config_defaults.py: what a page shows of the settings.
use clash_config_gen.Prelude.{String, Bool, true, Option, none, some, List, [], ◌∷◌, if◌then◌else◌}
use clash_config_gen.Prelude.Dict.{Dict, lookup, contains}
use clash_config_gen.Value.{Value}
use clash_config_gen.Settings.Defaults.{build_default_global_config}

-- `{"key": …, "equals": True}`
pub record Visible : Type 0 where
  pub key : String
  pub equals : Bool

-- A field of the schema; a key that the code leaves out is `none`.
pub record SchemaField : Type 0 where
  pub key : String
  pub label : String
  pub kind : String
  pub default : Option Value
  pub control : Option String
  pub input_type : Option String
  pub options : Option (List String)
  pub visible : Option Visible

abbrev pub input_types : List String
input_types = "text" ∷ "password" ∷ "number" ∷ []

-- `_global_schema_field`; a default of `none` is the KeyError of a key without a default.
unfoldable pub global_schema_field :
    String → String → String → Option (List String) → Option Visible → SchemaField
unfolding lookup contains build_default_global_config
global_schema_field key label field_type options visible =
    let is_input = contains input_types field_type in
    record {
      key = key;
      label = label;
      kind = if is_input then "input" else field_type;
      default = lookup key build_default_global_config;
      control = if is_input then some "input" else none;
      input_type = if is_input then some field_type else none;
      options = options;
      visible = visible;
    }

abbrev on : String → Visible
on key = record { key = key; equals = true }

abbrev desktop : Visible
desktop = on "is_desktop"

abbrev tun : Visible
tun = on "enable_tun"

abbrev dns : Visible
dns = on "enable_dns"

abbrev controller : Visible
controller = on "include_controller"

abbrev core : Visible
core = on "enable_core_options"

abbrev sniffer : Visible
sniffer = on "enable_sniffer"

unfoldable pub build_global_config_schema : Dict SchemaField
build_global_config_schema =
    (
      "optional_globals_v2",
      global_schema_field "optional_globals_v2" "启用扩展全局设置" "checkbox" (none) (none),
    )
    ∷ (
      "generation_profile",
      global_schema_field "generation_profile" "生成模式" "select"
          (some ("openclash-router" ∷ "desktop-full" ∷ "minimal" ∷ [])) (none),
    )
    ∷ ("is_desktop", global_schema_field "is_desktop" "桌面客户端模式" "checkbox" (none) (none))
    ∷ (
      "include_inbound_ports",
      global_schema_field "include_inbound_ports" "输出入站端口" "checkbox" (none) (some desktop),
    )
    ∷ (
      "include_global_compat",
      global_schema_field "include_global_compat" "兼容 global 字段" "checkbox" (none) (some desktop),
    )
    ∷ (
      "include_controller",
      global_schema_field "include_controller" "输出外部控制器" "checkbox" (none) (some desktop),
    )
    ∷ (
      "include_router_options",
      global_schema_field "include_router_options" "输出路由选项" "checkbox" (none) (some desktop),
    )
    ∷ (
      "enable_core_options",
      global_schema_field "enable_core_options" "输出核心选项" "checkbox" (none) (some desktop),
    )
    ∷ ("port", global_schema_field "port" "HTTP 端口" "number" (none) (some desktop))
    ∷ ("socks_port", global_schema_field "socks_port" "Socks 端口" "number" (none) (some desktop))
    ∷ ("mixed_port", global_schema_field "mixed_port" "Mixed 端口" "number" (none) (some desktop))
    ∷ ("allow_lan", global_schema_field "allow_lan" "允许局域网访问" "checkbox" (none) (some desktop))
    ∷ ("bind_address", global_schema_field "bind_address" "绑定地址" "text" (none) (some desktop))
    ∷ (
      "mode",
      global_schema_field "mode" "运行模式" "select" (some ("rule" ∷ "global" ∷ "direct" ∷ []))
          (some desktop),
    )
    ∷ (
      "log_level",
      global_schema_field "log_level" "日志级别" "select"
          (some ("info" ∷ "warning" ∷ "error" ∷ "debug" ∷ "silent" ∷ [])) (some desktop),
    )
    ∷ ("ipv6_support", global_schema_field "ipv6_support" "IPv6" "checkbox" (none) (some desktop))
    ∷ (
      "external_controller",
      global_schema_field "external_controller" "外部控制器地址" "text" (none) (some controller),
    )
    ∷ ("secret", global_schema_field "secret" "外部控制器密钥" "password" (none) (some controller))
    ∷ ("external_ui", global_schema_field "external_ui" "外部 UI 路径" "text" (none) (some controller))
    ∷ (
      "external_ui_name",
      global_schema_field "external_ui_name" "外部 UI 名称" "text" (none) (some controller),
    )
    ∷ (
      "external_ui_url",
      global_schema_field "external_ui_url" "外部 UI 地址" "text" (none) (some controller),
    )
    ∷ (
      "find_process_mode",
      global_schema_field "find_process_mode" "进程匹配模式" "select"
          (some ("strict" ∷ "always" ∷ "off" ∷ [])) (some desktop),
    )
    ∷ ("url_test_url", global_schema_field "url_test_url" "测速 URL" "text" (none) (none))
    ∷ ("url_test_interval", global_schema_field "url_test_interval" "测速间隔" "number" (none) (none))
    ∷ ("url_test_tolerance", global_schema_field "url_test_tolerance" "测速容差" "number" (none) (none))
    ∷ (
      "tcp_concurrent",
      global_schema_field "tcp_concurrent" "TCP 并发" "checkbox" (none) (some core),
    )
    ∷ ("unified_delay", global_schema_field "unified_delay" "统一延迟" "checkbox" (none) (some core))
    ∷ ("enable_tun", global_schema_field "enable_tun" "启用 TUN" "checkbox" (none) (some desktop))
    ∷ (
      "tun_stack",
      global_schema_field "tun_stack" "TUN 协议栈" "select" (some ("gvisor" ∷ "system" ∷ "mixed" ∷ []))
          (some tun),
    )
    ∷ ("tun_device", global_schema_field "tun_device" "TUN 设备" "text" (none) (some tun))
    ∷ ("tun_auto_route", global_schema_field "tun_auto_route" "自动路由" "checkbox" (none) (some tun))
    ∷ (
      "tun_auto_detect_interface",
      global_schema_field "tun_auto_detect_interface" "自动检测接口" "checkbox" (none) (some tun),
    )
    ∷ ("tun_dns_hijack", global_schema_field "tun_dns_hijack" "DNS 劫持" "checkbox" (none) (some tun))
    ∷ (
      "tun_dns_hijack_value",
      global_schema_field "tun_dns_hijack_value" "DNS 劫持目标" "text" (none) (some tun),
    )
    ∷ (
      "tun_endpoint_independent_nat",
      global_schema_field "tun_endpoint_independent_nat" "端点独立 NAT" "checkbox" (none) (some tun),
    )
    ∷ (
      "tun_auto_redirect",
      global_schema_field "tun_auto_redirect" "自动重定向" "checkbox" (none) (some tun),
    )
    ∷ (
      "tun_strict_route",
      global_schema_field "tun_strict_route" "严格路由" "checkbox" (none) (some tun),
    )
    ∷ ("enable_dns", global_schema_field "enable_dns" "启用 DNS" "checkbox" (none) (some desktop))
    ∷ ("dns_listen", global_schema_field "dns_listen" "DNS 监听" "text" (none) (some dns))
    ∷ ("dns_ipv6", global_schema_field "dns_ipv6" "DNS IPv6" "checkbox" (none) (some dns))
    ∷ (
      "enhanced_mode",
      global_schema_field "enhanced_mode" "增强模式" "select" (some ("fake-ip" ∷ "redir-host" ∷ []))
          (some dns),
    )
    ∷ ("fake_ip_range", global_schema_field "fake_ip_range" "Fake-IP 网段" "text" (none) (some dns))
    ∷ (
      "fake_ip_range6",
      global_schema_field "fake_ip_range6" "Fake-IP IPv6 网段" "text" (none) (some dns),
    )
    ∷ (
      "fake_ip_filter_mode",
      global_schema_field "fake_ip_filter_mode" "Fake-IP 过滤模式" "select"
          (some ("blacklist" ∷ "whitelist" ∷ [])) (some dns),
    )
    ∷ (
      "dns_respect_rules",
      global_schema_field "dns_respect_rules" "DNS 遵循规则" "checkbox" (none) (some dns),
    )
    ∷ (
      "direct_nameserver",
      global_schema_field "direct_nameserver" "直连 DNS" "textarea" (none) (some dns),
    )
    ∷ (
      "proxy_server_nameserver",
      global_schema_field "proxy_server_nameserver" "代理 DNS" "textarea" (none) (some dns),
    )
    ∷ (
      "default_nameserver",
      global_schema_field "default_nameserver" "Bootstrap DNS" "textarea" (none) (some dns),
    )
    ∷ ("nameserver", global_schema_field "nameserver" "主要 DNS" "textarea" (none) (some dns))
    ∷ ("fallback", global_schema_field "fallback" "Fallback DNS" "textarea" (none) (some dns))
    ∷ (
      "nameserver_policy",
      global_schema_field "nameserver_policy" "DNS 策略" "textarea" (none) (some dns),
    )
    ∷ (
      "enable_sniffer",
      global_schema_field "enable_sniffer" "启用嗅探" "checkbox" (none) (some desktop),
    )
    ∷ (
      "sniff_override_dest",
      global_schema_field "sniff_override_dest" "嗅探覆盖目标" "checkbox" (none) (some sniffer),
    )
    ∷ (
      "sniffer_parse_pure_ip",
      global_schema_field "sniffer_parse_pure_ip" "嗅探纯 IP" "checkbox" (none) (some sniffer),
    )
    ∷ (
      "sniffer_force_dns_mapping",
      global_schema_field "sniffer_force_dns_mapping" "强制 DNS 映射" "checkbox" (none) (some sniffer),
    )
    ∷ (
      "openclash_preset",
      global_schema_field "openclash_preset" "OpenClash 预设" "checkbox" (none) (none),
    )
    ∷ (
      "profile_store_selected",
      global_schema_field "profile_store_selected" "保存选中策略" "checkbox" (none) (some desktop),
    )
    ∷ (
      "profile_store_fake_ip",
      global_schema_field "profile_store_fake_ip" "保存 Fake-IP" "checkbox" (none) (some desktop),
    )
    ∷ ("ntp_enable", global_schema_field "ntp_enable" "启用 NTP" "checkbox" (none) (some desktop))
    ∷ ("ntp_server", global_schema_field "ntp_server" "NTP 服务器" "text" (none) (some desktop))
    ∷ ("ntp_port", global_schema_field "ntp_port" "NTP 端口" "number" (none) (some desktop))
    ∷ ("ntp_interval", global_schema_field "ntp_interval" "NTP 间隔" "number" (none) (some desktop))
    ∷ (
      "ntp_write_to_system",
      global_schema_field "ntp_write_to_system" "写入系统时间" "checkbox" (none) (some desktop),
    )
    ∷ (
      "authentication",
      global_schema_field "authentication" "认证用户" "textarea" (none) (some desktop),
    )
    ∷ (
      "keep_alive_interval",
      global_schema_field "keep_alive_interval" "保活间隔" "number" (none) (some desktop),
    )
    ∷ (
      "keep_alive_idle",
      global_schema_field "keep_alive_idle" "保活空闲时间" "number" (none) (some desktop),
    )
    ∷ ("redir_port", global_schema_field "redir_port" "Redir 端口" "number" (none) (some desktop))
    ∷ ("tproxy_port", global_schema_field "tproxy_port" "TProxy 端口" "number" (none) (some desktop))
    ∷ ("interface_name", global_schema_field "interface_name" "网络接口" "text" (none) (some desktop))
    ∷ (
      "geodata_mode",
      global_schema_field "geodata_mode" "GeoData 模式" "checkbox" (none) (some core),
    )
    ∷ (
      "geodata_loader",
      global_schema_field "geodata_loader" "GeoData 加载器" "select"
          (some ("standard" ∷ "memconservative" ∷ [])) (some core),
    )
    ∷ (
      "lhie1_provider_targets",
      global_schema_field "lhie1_provider_targets" "lhie1 目标覆盖" "textarea" (none) (none),
    )
    ∷ (
      "dustinwin_provider_targets",
      global_schema_field "dustinwin_provider_targets" "DustinWin 目标覆盖" "textarea" (none) (none),
    )
    ∷ []
