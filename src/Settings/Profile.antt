-- ===== src/Settings/Profile.antt =====
-- `apply_generation_profile` of src/config_builder.py.
use clash_config_gen.Prelude.{
  String, ◌≡◌, refl, ◌∙◌, inl, inr, Bool, true, false, Option, none, some, [], ◌∷◌, arith, ◌==◌,
  eq_iff, if◌then◌else◌, Bool-cases,
}
use clash_config_gen.Prelude.Dict.{
  Dict, lookup, has_key, put, NodupKeys, lookup-put, has_distinct_keys, has_distinct_keys-NodupKeys,
}
use clash_config_gen.Value.{Value, boolean, text, truthy, is_text, update}

abbrev pub profile_or : Option Value → Value
profile_or none = text "desktop-full"
profile_or (some v) = if truthy v then v else text "desktop-full"

-- The profile, from the entries `is_desktop` and `generation_profile`.
abbrev pub profile_from : Option Value → Option Value → Value
profile_from (some is_desktop) _ =
    if truthy is_desktop then text "desktop-full" else text "openclash-router"
profile_from none generation_profile = profile_or generation_profile

unfoldable pub profile_of : Dict Value → Value
unfolding lookup
profile_of config = profile_from (lookup "is_desktop" config) (lookup "generation_profile" config)

unfoldable pub router_settings : Dict Value
router_settings =
    ("include_global_compat", boolean false)
    ∷ ("include_inbound_ports", boolean false)
    ∷ ("include_controller", boolean false)
    ∷ ("include_router_options", boolean false)
    ∷ ("enable_core_options", boolean false)
    ∷ ("enable_dns", boolean false)
    ∷ ("enable_tun", boolean false)
    ∷ ("enable_sniffer", boolean false)
    ∷ ("profile_store_selected", boolean false)
    ∷ ("profile_store_fake_ip", boolean false)
    ∷ ("ntp_enable", boolean false)
    ∷ ("authentication", text "")
    ∷ []

unfoldable pub minimal_settings : Dict Value
minimal_settings =
    ("include_global_compat", boolean false)
    ∷ ("include_inbound_ports", boolean false)
    ∷ ("include_controller", boolean false)
    ∷ ("include_router_options", boolean false)
    ∷ ("enable_core_options", boolean false)
    ∷ ("enable_dns", boolean false)
    ∷ ("enable_tun", boolean false)
    ∷ ("enable_sniffer", boolean false)
    ∷ ("ntp_enable", boolean false)
    ∷ ("profile_store_selected", boolean false)
    ∷ ("profile_store_fake_ip", boolean false)
    ∷ []

-- `if profile == name: config.update(…)`
abbrev pub update_if : Bool → Dict Value → Dict Value → Dict Value
update_if applies settings config = if applies then update config settings else config

unfoldable pub apply_generation_profile : Dict Value → Dict Value
unfolding profile_of put update router_settings minimal_settings is_text
apply_generation_profile config =
    let profile = profile_of config in
    update_if (is_text "minimal" profile) minimal_settings (
      update_if (is_text "openclash-router" profile) router_settings
        (put "generation_profile" profile config))

-- The first value that is there.
abbrev pub found_or : Option Value → Option Value → Option Value
found_or none other = other
found_or (some v) _ = some v

lookup-absent : (k : String) (d : Dict Value) → has_key k d ≡ false → lookup k d ≡ none
unfolding lookup has_key
lookup-absent k [] h = refl
lookup-absent k ((j, v) ∷ d) h = ground (arith, lookup-absent k d)

pub lookup-update :
    (k : String) (config other : Dict Value)
    → NodupKeys other
    → lookup k (update config other) ≡ found_or (lookup k other) (lookup k config)
unfolding update lookup
lookup-update k config [] h = refl
lookup-update k config ((j, v) ∷ other) h =
    lookup-update k (put j v config) other h.1
    ∙ rw (lookup-put j k v config) (elim (Bool-cases (j == k)) [
      | inl e ↦ rw (e, lookup-absent k other (rw ((eq_iff j k).0 e) at h.0)) refl
      | inr e ↦ rw e refl
    ])

-- The settings that a profile forces.
abbrev pub forced : String → Value → Dict Value → String → Option Value
forced name profile settings k = if is_text name profile then lookup k settings else none

lookup-update_if :
    (applies : Bool) (settings config : Dict Value) (k : String)
    → has_distinct_keys settings ≡ true
    → lookup k (update_if applies settings config)
      ≡ found_or (if applies then lookup k settings else none) (lookup k config)
lookup-update_if true settings config k h =
    lookup-update k config settings (has_distinct_keys-NodupKeys settings h)
lookup-update_if false settings config k h = refl

router_settings-distinct : has_distinct_keys router_settings ≡ true
unfolding has_distinct_keys router_settings has_key
router_settings-distinct = refl

minimal_settings-distinct : has_distinct_keys minimal_settings ≡ true
unfolding has_distinct_keys minimal_settings has_key
minimal_settings-distinct = refl

-- The entry of each key: what the profile forces, or the profile under its own key, or what it was.
pub lookup-apply_generation_profile :
    (k : String) (config : Dict Value)
    → lookup k (apply_generation_profile config)
      ≡ found_or (forced "minimal" (profile_of config) minimal_settings k) (
          found_or
            (forced "openclash-router" (profile_of config) router_settings k)
            (if "generation_profile" == k then some (profile_of config) else lookup k config))
unfolding apply_generation_profile
lookup-apply_generation_profile k config =
    rw
      (
        lookup-update_if (is_text "minimal" (profile_of config)) minimal_settings
            (update_if (is_text "openclash-router" (profile_of config)) router_settings
              (put "generation_profile" (profile_of config) config))
            k minimal_settings-distinct,
        lookup-update_if (is_text "openclash-router" (profile_of config)) router_settings
            (put "generation_profile" (profile_of config) config) k router_settings-distinct,
        lookup-put "generation_profile" k (profile_of config) config,
      )
      refl

forced-absent :
    (name k : String) (profile : Value) (settings : Dict Value)
    → lookup k settings ≡ none
    → forced name profile settings k ≡ none
forced-absent name k profile settings h = rw h (ground arith)

profile_or-truthy : (v : Option Value) → truthy (profile_or v) ≡ true
unfolding truthy
profile_or-truthy none = refl
profile_or-truthy (some v) = elim (Bool-cases (truthy v)) [ inl e ↦ rw e e | inr e ↦ rw e refl ]

profile_from-again :
    (is_desktop generation_profile : Option Value)
    → profile_from is_desktop (some (profile_from is_desktop generation_profile))
      ≡ profile_from is_desktop generation_profile
profile_from-again (some v) g = refl
profile_from-again none g = rw (profile_or-truthy g) refl

-- A key that no profile forces.
lookup-apply_generation_profile_free :
    (k : String) (config : Dict Value)
    → lookup k minimal_settings ≡ none
    → lookup k router_settings ≡ none
    → lookup k (apply_generation_profile config)
      ≡ (if "generation_profile" == k then some (profile_of config) else lookup k config)
lookup-apply_generation_profile_free k config m r =
    lookup-apply_generation_profile k config
    ∙ rw
        (
          forced-absent "minimal" k (profile_of config) minimal_settings m,
          forced-absent "openclash-router" k (profile_of config) router_settings r,
        )
        refl

is_desktop-free :
    (lookup "is_desktop" minimal_settings ≡ none) × (lookup "is_desktop" router_settings ≡ none)
unfolding lookup minimal_settings router_settings
is_desktop-free = (refl, refl)

generation_profile-free :
    (lookup "generation_profile" minimal_settings ≡ none)
    × (lookup "generation_profile" router_settings ≡ none)
unfolding lookup minimal_settings router_settings
generation_profile-free = (refl, refl)

profile_of-apply_generation_profile :
    (config : Dict Value) → profile_of (apply_generation_profile config) ≡ profile_of config
unfolding profile_of
profile_of-apply_generation_profile config =
    rw
      (
        lookup-apply_generation_profile_free "is_desktop" config is_desktop-free.0
            is_desktop-free.1,
        lookup-apply_generation_profile_free "generation_profile" config generation_profile-free.0
            generation_profile-free.1,
      )
      (profile_from-again (lookup "is_desktop" config) (lookup "generation_profile" config))

found_or-again :
    (m r o : Option Value)
    → found_or m (found_or r (found_or m (found_or r o))) ≡ found_or m (found_or r o)
found_or-again (some v) r o = refl
found_or-again none (some v) o = refl
found_or-again none none o = refl

-- Settings that went through the profile once are not changed by it again, under any key.
pub apply_generation_profile-idempotent :
    (k : String) (config : Dict Value)
    → lookup k (apply_generation_profile (apply_generation_profile config))
      ≡ lookup k (apply_generation_profile config)
apply_generation_profile-idempotent k config =
    rw
      (
        lookup-apply_generation_profile k (apply_generation_profile config),
        profile_of-apply_generation_profile config,
      )
      (elim (Bool-cases ("generation_profile" == k)) [
        | inl own ↦ rw (own, lookup-apply_generation_profile k config, own) refl
        | inr other ↦
            rw (other, lookup-apply_generation_profile k config, other)
              (found_or-again (forced "minimal" (profile_of config) minimal_settings k)
                (forced "openclash-router" (profile_of config) router_settings k) (lookup k config))
      ])
