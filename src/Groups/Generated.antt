-- ===== src/Groups/Generated.antt =====
-- What `validate_config` of src/config_builder.py says of a generated configuration.
use clash_config_gen.Prelude.{
  ℕ, String, ◌≡◌, refl, ◌⊎◌, inl, inr, Bool, true, false, not, ◌&&◌, Option, none, some, List, [],
  ◌∷◌, map, arith, any, all, All,
}
use clash_config_gen.Prelude.Text.{has_prefix}
use clash_config_gen.Rules.Build.{Env, build_rules}
use clash_config_gen.Groups.{create_group, generate_proxy_groups}
use clash_config_gen.Groups.Validate.{
  mapping, MihomoConfig, error_if, is_nil, group_errors, rule_errors, proxy_names, proxy_errors,
  valid_targets, validate_config, yaml_errors,
}
use clash_config_gen.Groups.Closed.{
  fixed_targets, has_fixed_target, all_targets, groups-valid, rules-valid, dustinwin-fixed,
  lhie1-fixed, concat_map-nil,
}

-- What `build_config` writes of nodes, groups and rules: no rules of the user's, and one of the two rule sources.
abbrev pub generated_config :
    {Node : Type 0}
    → (Node → String)
    → List Node
    → String
    → ℕ
    → ℕ
    → Env
    → String
    → Bool
    → List String
    → MihomoConfig Node
generated_config name_of nodes url interval tolerance env source respect_rules
      proxy_server_nameserver =
    record {
      proxies = map mapping nodes;
      proxy_groups = generate_proxy_groups name_of nodes url interval tolerance;
      rules = (build_rules env source [] [] [] []).0;
      respect_rules = respect_rules;
      proxy_server_nameserver = proxy_server_nameserver;
    }

source-fixed :
    (env : Env) (source : String)
    → (source ≡ "dustinwin规则") ⊎ (source ≡ "lhie1规则")
    → (all has_fixed_target (build_rules env source [] [] [] []).0 ≡ true)
      × (any (has_prefix "MATCH,") (build_rules env source [] [] [] []).0 ≡ true)
source-fixed env source (inl e) = rw e (dustinwin-fixed env)
source-fixed env source (inr e) = rw e (lhie1-fixed env)

module _ {Node : Type 0} (name_of : Node → String) (validate_proxy_fields : Node → List String)
    (yaml_error : MihomoConfig Node → Option String) where
  proxy_names-mapping :
      (nodes : List Node)
      → proxy_names (λ n. some (name_of n)) validate_proxy_fields yaml_error (map mapping nodes)
        ≡ map name_of nodes
  unfolding proxy_names
  proxy_names-mapping [] = refl
  proxy_names-mapping (n ∷ nodes) = rw (proxy_names-mapping nodes) refl

  valid_targets-generated :
      (nodes : List Node) (url : String) (interval tolerance : ℕ) (env : Env) (source : String)
      (respect_rules : Bool) (servers : List String)
      → valid_targets
          (λ n. some (name_of n))
          validate_proxy_fields
          yaml_error
          (generated_config name_of nodes url interval tolerance env source respect_rules servers)
        ≡ all_targets name_of nodes
  unfolding valid_targets generate_proxy_groups create_group fixed_targets
  valid_targets-generated nodes url interval tolerance env source respect_rules servers =
      rw (proxy_names-mapping nodes) refl

  nodes-valid :
      (nodes : List Node)
      → All (λ n. validate_proxy_fields n ≡ []) nodes
      → All
          (λ e. proxy_errors (λ n. some (name_of n)) validate_proxy_fields yaml_error e ≡ [])
          (map mapping nodes)
  unfolding proxy_errors
  nodes-valid [] h = tt
  nodes-valid (n ∷ nodes) h = (rw h.0 refl, nodes-valid nodes h.1)

  no_error : (wrong : Bool) (message : String) → wrong ≡ false → error_if wrong message ≡ []
  no_error wrong message h = rw h refl

  yaml_errors-none : (o : Option String) → o ≡ none → yaml_errors o ≡ []
  yaml_errors-none o h = rw h refl

  -- The parts of the list of errors.
  validate_config-nil :
      (get_name : Node → Option String) (config : MihomoConfig Node) (allow_no_match : Bool)
      → is_nil config.proxies ≡ false
      → is_nil config.proxy_groups ≡ false
      → any (has_prefix "MATCH,") config.rules ≡ true
      → All (λ e. proxy_errors get_name validate_proxy_fields yaml_error e ≡ []) config.proxies
      → All
          (λ g.
            group_errors (valid_targets get_name validate_proxy_fields yaml_error config) g ≡ [])
          config.proxy_groups
      → All
          (λ r. rule_errors (valid_targets get_name validate_proxy_fields yaml_error config) r ≡ [])
          config.rules
      → (config.respect_rules && is_nil config.proxy_server_nameserver) ≡ false
      → yaml_error config ≡ none
      → validate_config get_name validate_proxy_fields yaml_error config allow_no_match ≡ []
  unfolding validate_config
  validate_config-nil get_name config allow_no_match proxies groups has_match p g r dns yaml =
      rw
        (
          no_error (is_nil config.proxies) "Proxies 为空" proxies,
          no_error (is_nil config.proxy_groups) "Proxy Groups 为空" groups,
          no_error (not allow_no_match && not (any (has_prefix "MATCH,") config.rules))
              "Rules 缺少 MATCH 兜底规则" (ground (arith, has_match)),
          concat_map-nil (proxy_errors get_name validate_proxy_fields yaml_error) config.proxies p,
          concat_map-nil
              (group_errors (valid_targets get_name validate_proxy_fields yaml_error config))
              config.proxy_groups g,
          concat_map-nil
              (rule_errors (valid_targets get_name validate_proxy_fields yaml_error config))
              config.rules r,
          no_error (config.respect_rules && is_nil config.proxy_server_nameserver)
              "dns.respect-rules 已启用，但 dns.proxy-server-nameserver 为空" dns,
          yaml_errors-none (yaml_error config) yaml,
        )
        refl

  -- For nodes without faults of their own, at least one, the configuration that is made of them with all groups and with
  -- either rule source has no validation errors: every member of a group and every rule's target is there. The YAML
  -- must read back, and a DNS that respects the rules needs its servers.
  pub validate_config-generated :
      (node : Node) (rest : List Node) (url : String) (interval tolerance : ℕ) (env : Env)
      (source : String) (respect_rules : Bool) (servers : List String) (allow_no_match : Bool)
      → (source ≡ "dustinwin规则") ⊎ (source ≡ "lhie1规则")
      → All (λ n. validate_proxy_fields n ≡ []) (node ∷ rest)
      → (respect_rules && is_nil servers) ≡ false
      → yaml_error (
          generated_config name_of
            (node ∷ rest)
            url
            interval
            tolerance
            env
            source
            respect_rules
            servers)
        ≡ none
      → validate_config
          (λ n. some (name_of n))
          validate_proxy_fields
          yaml_error
          (generated_config name_of
            (node ∷ rest)
            url
            interval
            tolerance
            env
            source
            respect_rules
            servers)
          allow_no_match
        ≡ []
  unfolding generate_proxy_groups
  validate_config-generated node rest url interval tolerance env source respect_rules servers
        allow_no_match known faultless dns yaml =
      let rules = source-fixed env source known in
      let targets =
        valid_targets-generated (node ∷ rest) url interval tolerance env source respect_rules
          servers in
      validate_config-nil (λ n. some (name_of n))
        (generated_config name_of (node ∷ rest) url interval tolerance env source respect_rules
          servers)
        allow_no_match refl refl rules.1 (nodes-valid (node ∷ rest) faultless)
        (rw targets (groups-valid name_of (node ∷ rest) url interval tolerance))
        (rw targets
          (rules-valid name_of (node ∷ rest) (build_rules env source [] [] [] []).0 rules.0))
        dns yaml
