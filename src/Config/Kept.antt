-- ===== src/Config/Kept.antt =====
-- The keys that the sections of the document write.
use clash_config_gen.Prelude.{
  String, ◌≡◌, refl, ◌∙◌, inl, inr, Bool, true, false, ◌||◌, Option, none, some, List, [], ◌∷◌,
  arith, ◌==◌, if◌then◌else◌, Bool-cases,
}
use clash_config_gen.Prelude.Dict.{
  Dict, lookup, has_key, put, contains, lookup-put_apart, contains-apart,
}
use clash_config_gen.Value.{Value, texts, truthy, is_blank, update, boolean, text}
use clash_config_gen.Config.Texts.{is_on, setting}
use clash_config_gen.Config.Sections.{
  put_true, put_filled, put_if, base_options, add_base_options, add_controller, add_router_options,
  add_core_options, add_sniffer, add_profile, add_ntp, sniffer_section, profile_section,
  ntp_section, object,
}
use clash_config_gen.Config.Dns.{put_items}

abbrev pub section_keys : List String
section_keys =
    "global" ∷ "port" ∷ "socks-port" ∷ "mixed-port" ∷ "allow-lan" ∷ "bind-address" ∷ "mode"
    ∷ "log-level" ∷ "ipv6" ∷ "find-process-mode" ∷ "external-controller" ∷ "secret" ∷ "external-ui"
    ∷ "external-ui-name" ∷ "external-ui-url" ∷ "redir-port" ∷ "tproxy-port" ∷ "interface-name"
    ∷ "keep-alive-interval" ∷ "keep-alive-idle" ∷ "tun" ∷ "dns" ∷ "tcp-concurrent" ∷ "unified-delay"
    ∷ "geodata-mode" ∷ "geodata-loader" ∷ "sniffer" ∷ "profile" ∷ "ntp" ∷ "authentication" ∷ []

-- The entry of a key is the same in both documents.
abbrev pub Same : String → Dict Value → Dict Value → Type 0
Same k before after = lookup k after ≡ lookup k before

pub if-Same :
    (b : Bool) (k : String) (d one other : Dict Value)
    → Same k d one
    → Same k d other
    → Same k d (if b then one else other)
if-Same true k d one other h g = h
if-Same false k d one other h g = g

pub update-Same :
    (k : String) (d other : Dict Value) → has_key k other ≡ false → Same k d (update d other)
unfolding update has_key
update-Same k d [] h = refl
update-Same k d ((j, v) ∷ other) h = elim (Bool-cases (j == k)) [
  | inl e ↦ absurd (ground (arith, h, e))
  | inr e ↦ update-Same k (put j v d) other (ground (arith, h, e)) ∙ lookup-put_apart j k v d e
]

put_true-Same :
    (j k : String) (o : Option Value) (d : Dict Value)
    → (j == k) ≡ false
    → Same k d (put_true j o d)
put_true-Same j k none d h = refl
put_true-Same j k (some v) d h =
    if-Same (truthy v) k d (put j v d) d (lookup-put_apart j k v d h) refl

put_filled-Same :
    (j k : String) (o : Option Value) (d : Dict Value)
    → (j == k) ≡ false
    → Same k d (put_filled j o d)
put_filled-Same j k none d h = refl
put_filled-Same j k (some v) d h =
    if-Same (is_blank (some v)) k d d (put j v d) refl (lookup-put_apart j k v d h)

put_if-Same :
    (b : Bool) (j k : String) (v : Value) (d : Dict Value)
    → (j == k) ≡ false
    → Same k d (put_if b j v d)
put_if-Same b j k v d h = if-Same b k d (put j v d) d (lookup-put_apart j k v d h) refl

pub put_items-Same :
    (j k : String) (items : List String) (d : Dict Value)
    → (j == k) ≡ false
    → Same k d (put_items j items d)
put_items-Same j k [] d h = refl
put_items-Same j k (item ∷ items) d h = lookup-put_apart j k (texts (item ∷ items)) d h

-- A key that no section writes is another than each that one writes.
pub section_key_apart :
    (j k : String)
    → contains section_keys k ≡ false
    → contains section_keys j ≡ true
    → (j == k) ≡ false
section_key_apart j k h c = contains-apart section_keys j k h c

base_options-apart :
    (global_config : Dict Value) (k : String)
    → contains section_keys k ≡ false
    → has_key k (base_options global_config) ≡ false
unfolding base_options has_key contains
base_options-apart global_config k h = ground (arith, h)

module _ (global_config : Dict Value) (k : String) (h : contains section_keys k ≡ false) where
  pub add_base_options-Same : (d : Dict Value) → Same k d (add_base_options global_config d)
  unfolding add_base_options contains
  add_base_options-Same d =
      let compat =
        put_if (is_on "include_global_compat" global_config) "global"
          (object (base_options global_config)) d in
      let first : Same k d compat =
        put_if-Same (is_on "include_global_compat" global_config) "global" k
          (object (base_options global_config)) d (section_key_apart "global" k h refl) in
      if-Same (is_on "include_inbound_ports" global_config) k d
        (update compat (base_options global_config)) compat
        (update-Same k compat (base_options global_config) (base_options-apart global_config k h)
          ∙ first)
        first

  pub add_controller-Same : (d : Dict Value) → Same k d (add_controller global_config d)
  unfolding add_controller contains
  add_controller-Same d =
      let c0 = put_true "external-controller" (lookup "external_controller" global_config) d in
      let c1 = put_true "secret" (lookup "secret" global_config) c0 in
      let c2 = put_true "external-ui" (lookup "external_ui" global_config) c1 in
      let c3 = put_true "external-ui-name" (lookup "external_ui_name" global_config) c2 in
      let c4 = put_true "external-ui-url" (lookup "external_ui_url" global_config) c3 in
      if-Same (is_on "include_controller" global_config) k d c4 d
        (put_true-Same "external-ui-url" k (lookup "external_ui_url" global_config) c3
            (section_key_apart "external-ui-url" k h refl)
          ∙ (put_true-Same "external-ui-name" k (lookup "external_ui_name" global_config) c2
                (section_key_apart "external-ui-name" k h refl)
              ∙ (put_true-Same "external-ui" k (lookup "external_ui" global_config) c1
                    (section_key_apart "external-ui" k h refl)
                  ∙ (put_true-Same "secret" k (lookup "secret" global_config) c0
                        (section_key_apart "secret" k h refl)
                      ∙ (put_true-Same "external-controller" k
                          (lookup "external_controller" global_config) d
                          (section_key_apart "external-controller" k h refl))))))
        refl

  pub add_router_options-Same : (d : Dict Value) → Same k d (add_router_options global_config d)
  unfolding add_router_options contains
  add_router_options-Same d =
      let c0 = put_filled "redir-port" (lookup "redir_port" global_config) d in
      let c1 = put_filled "tproxy-port" (lookup "tproxy_port" global_config) c0 in
      let c2 = put_filled "interface-name" (lookup "interface_name" global_config) c1 in
      let c3 = put_filled "keep-alive-interval" (lookup "keep_alive_interval" global_config) c2 in
      let c4 = put_filled "keep-alive-idle" (lookup "keep_alive_idle" global_config) c3 in
      if-Same (is_on "include_router_options" global_config) k d c4 d
        (put_filled-Same "keep-alive-idle" k (lookup "keep_alive_idle" global_config) c3
            (section_key_apart "keep-alive-idle" k h refl)
          ∙ (put_filled-Same "keep-alive-interval" k (lookup "keep_alive_interval" global_config) c2
                (section_key_apart "keep-alive-interval" k h refl)
              ∙ (put_filled-Same "interface-name" k (lookup "interface_name" global_config) c1
                    (section_key_apart "interface-name" k h refl)
                  ∙ (put_filled-Same "tproxy-port" k (lookup "tproxy_port" global_config) c0
                        (section_key_apart "tproxy-port" k h refl)
                      ∙ (put_filled-Same "redir-port" k (lookup "redir_port" global_config) d
                          (section_key_apart "redir-port" k h refl))))))
        refl

  pub add_core_options-Same : (d : Dict Value) → Same k d (add_core_options global_config d)
  unfolding add_core_options contains
  add_core_options-Same d =
      let c0 = put "tcp-concurrent" (setting "tcp_concurrent" (boolean false) global_config) d in
      let c1 = put "unified-delay" (setting "unified_delay" (boolean false) global_config) c0 in
      let c2 = put "geodata-mode" (setting "geodata_mode" (boolean false) global_config) c1 in
      let c3 = put "geodata-loader" (setting "geodata_loader" (text "standard") global_config) c2 in
      if-Same (is_on "enable_core_options" global_config) k d c3 d
        (lookup-put_apart "geodata-loader" k
            (setting "geodata_loader" (text "standard") global_config) c2
            (section_key_apart "geodata-loader" k h refl)
          ∙ (lookup-put_apart "geodata-mode" k
                (setting "geodata_mode" (boolean false) global_config) c1
                (section_key_apart "geodata-mode" k h refl)
              ∙ (lookup-put_apart "unified-delay" k
                    (setting "unified_delay" (boolean false) global_config) c0
                    (section_key_apart "unified-delay" k h refl)
                  ∙ (lookup-put_apart "tcp-concurrent" k
                      (setting "tcp_concurrent" (boolean false) global_config) d
                      (section_key_apart "tcp-concurrent" k h refl)))))
        refl

  pub add_sniffer-Same : (d : Dict Value) → Same k d (add_sniffer global_config d)
  unfolding add_sniffer contains
  add_sniffer-Same d =
      put_if-Same (is_on "enable_sniffer" global_config) "sniffer" k (sniffer_section global_config)
        d (section_key_apart "sniffer" k h refl)

  pub add_profile-Same : (d : Dict Value) → Same k d (add_profile global_config d)
  unfolding add_profile contains
  add_profile-Same d =
      put_if-Same
        (is_on "profile_store_selected" global_config
          || is_on "profile_store_fake_ip" global_config)
        "profile" k (profile_section global_config) d (section_key_apart "profile" k h refl)

  pub add_ntp-Same : (d : Dict Value) → Same k d (add_ntp global_config d)
  unfolding add_ntp contains
  add_ntp-Same d =
      put_if-Same (is_on "ntp_enable" global_config) "ntp" k (ntp_section global_config) d
        (section_key_apart "ntp" k h refl)
