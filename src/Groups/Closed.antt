-- ===== src/Groups/Closed.antt =====
-- The members of the generated groups and the targets of the generated rules, among the valid targets.
use clash_config_gen.Prelude.{
  ℕ, String, ◌≡◌, refl, inl, inr, Bool, true, false, ◌&&◌, ◌||◌, Option, none, some, List, [], ◌∷◌,
  ◌++◌, map, arith, eq_refl, Bool-cases, any, all, All, All-append,
}
use clash_config_gen.Prelude.Dict.{contains}
use clash_config_gen.Prelude.Text.{has_prefix}
use clash_config_gen.Rules.Build.{
  Env, rule_set, dustinwin_loop, dustinwin_rules, lhie1_loop, lhie1_rules, base_rules,
  custom_provider_loop, assemble_rules, build_rules, is_match_rule, is_no_base_rule_type,
}
use clash_config_gen.Rules.Order.{priority_ordered_items}
use clash_config_gen.Rules.Providers.{dustinwin_providers_map, lhie1_providers_map}
use clash_config_gen.Groups.{
  ProxyGroup, app_groups, app_extra, create_group, generate_proxy_groups, groups_of_apps,
  last_groups,
}
use clash_config_gen.Groups.Validate.{
  built_in_targets, rule_target, concat_map, group_errors, target_errors, rule_errors,
}

contains-append :
    (xs ys : List String) (k : String) → contains (xs ++ ys) k ≡ (contains xs k || contains ys k)
unfolding contains
contains-append [] ys k = refl
contains-append (x ∷ xs) ys k = ground (arith, contains-append xs ys k)

pub concat_map-nil {ℓ} :
    {A : Type ℓ} (f : A → List String) (xs : List A) → All (λ x. f x ≡ []) xs → concat_map f xs ≡ []
concat_map-nil f [] h = refl
concat_map-nil f (x ∷ xs) h = rw (h.0, concat_map-nil f xs h.1) refl

all-append {ℓ} :
    {A : Type ℓ} (p : A → Bool) (xs ys : List A) → all p (xs ++ ys) ≡ (all p xs && all p ys)
all-append p [] ys = refl
all-append p (x ∷ xs) ys = ground (arith, all-append p xs ys)

all_imp {ℓ} :
    {A : Type ℓ} (p q : A → Bool) (xs : List A)
    → ((a : A) → p a ≡ true → q a ≡ true)
    → all p xs ≡ true
    → all q xs ≡ true
all_imp p q [] f h = refl
all_imp p q (x ∷ xs) f h = ground (arith, f x, all_imp p q xs f)

all-contains_self :
    (xs ys : List String)
    → ((k : String) → contains xs k ≡ true → contains ys k ≡ true)
    → all (contains ys) xs ≡ true
unfolding contains
all-contains_self [] ys f = refl
all-contains_self (x ∷ xs) ys f =
    rw (f x (rw (eq_refl x) refl)) (all-contains_self xs ys (λ k h. f k (ground (arith, h))))

group_errors-nil :
    (valid : List String) (group : ProxyGroup)
    → all (contains valid) group.proxies ≡ true
    → group_errors valid group ≡ []
unfolding group_errors
group_errors-nil valid group h = each group.proxies h
  where
    each :
        (targets : List String)
        → all (contains valid) targets ≡ true
        → group_errors valid (record group { proxies = targets }) ≡ []
    each [] h = refl
    each (t ∷ targets) h =
        let valid_target : contains valid t ≡ true = ground (arith, h) in
        rw valid_target (each targets (ground (arith, h)))

-- The names of the generated groups.
abbrev pub group_names : List String
group_names =
    "Auto - UrlTest"
    ∷ "Proxy"
    ∷ "Domestic"
    ∷ "Others"
    ∷ (app_groups
        ++ "Youtube" ∷ "AdBlock" ∷ "HTTPDNS" ∷ "Global TV" ∷ "Asian TV" ∷ "CN Mainland TV" ∷ [])

unfoldable pub fixed_targets : List String
fixed_targets = group_names ++ built_in_targets

-- A rule without a target, or with one that is there whatever the nodes are.
abbrev is_fixed : Option String → Bool
is_fixed none = true
is_fixed (some target) = contains fixed_targets target

unfoldable pub has_fixed_target : String → Bool
unfolding fixed_targets rule_target contains
has_fixed_target rule = is_fixed (rule_target rule)

pub dustinwin-fixed :
    (env : Env)
    → (all has_fixed_target (build_rules env "dustinwin规则" [] [] [] []).0 ≡ true)
      × (any (has_prefix "MATCH,") (build_rules env "dustinwin规则" [] [] [] []).0 ≡ true)
unfolding build_rules has_fixed_target base_rules dustinwin_rules dustinwin_loop
    priority_ordered_items dustinwin_providers_map assemble_rules is_no_base_rule_type
    custom_provider_loop is_match_rule has_prefix rule_set
dustinwin-fixed env = (refl, refl)

pub lhie1-fixed :
    (env : Env)
    → (all has_fixed_target (build_rules env "lhie1规则" [] [] [] []).0 ≡ true)
      × (any (has_prefix "MATCH,") (build_rules env "lhie1规则" [] [] [] []).0 ≡ true)
unfolding build_rules has_fixed_target base_rules lhie1_rules lhie1_loop priority_ordered_items
    lhie1_providers_map assemble_rules is_no_base_rule_type custom_provider_loop is_match_rule
    has_prefix rule_set
lhie1-fixed env = (refl, refl)

module _ {Node : Type 0} (name_of : Node → String) (nodes : List Node) where
  -- All targets: the nodes, the groups and the built-in ones.
  abbrev pub all_targets : List String
  all_targets = map name_of nodes ++ fixed_targets

  fixed-valid : (k : String) → contains fixed_targets k ≡ true → contains all_targets k ≡ true
  fixed-valid k h = rw (contains-append (map name_of nodes) fixed_targets k, h) (ground arith)

  nodes-valid : all (contains all_targets) (map name_of nodes) ≡ true
  nodes-valid =
      all-contains_self (map name_of nodes) all_targets
        (λ k h. rw (contains-append (map name_of nodes) fixed_targets k, h) refl)

  select-valid :
      (extra : List String)
      → all (contains fixed_targets) extra ≡ true
      → all (contains all_targets) extra ≡ true
  select-valid extra h = all_imp (contains fixed_targets) (contains all_targets) extra fixed-valid h

  members-valid :
      (extra : List String)
      → all (contains fixed_targets) extra ≡ true
      → all (contains all_targets) (extra ++ map name_of nodes) ≡ true
  members-valid extra h =
      rw
        (
          all-append (contains all_targets) extra (map name_of nodes),
          select-valid extra h,
          nodes-valid,
        )
        refl

  apps-valid :
      (apps : List String)
      → all (λ app. all (contains fixed_targets) (app_extra app)) apps ≡ true
      → All
          (λ g. group_errors all_targets g ≡ [])
          (map
            (λ app. create_group name_of app "select" nodes (app_extra app) none none false none)
            apps)
  unfolding create_group
  apps-valid [] h = tt
  apps-valid (app ∷ apps) h = (
    group_errors-nil all_targets _ (members-valid (app_extra app) (ground (arith, h))),
    apps-valid apps (ground (arith, h)),
  )

  pub groups-valid :
      (url : String) (interval tolerance : ℕ)
      → All
          (λ g. group_errors all_targets g ≡ [])
          (generate_proxy_groups name_of nodes url interval tolerance)
  unfolding generate_proxy_groups create_group contains fixed_targets app_extra
  groups-valid url interval tolerance = (
    group_errors-nil all_targets _ (members-valid [] refl),
    (
      group_errors-nil all_targets _ (members-valid ("Auto - UrlTest" ∷ "DIRECT" ∷ []) refl),
      (
        group_errors-nil all_targets _ (select-valid ("DIRECT" ∷ "Proxy" ∷ []) refl),
        (
          group_errors-nil all_targets _ (select-valid ("Proxy" ∷ "DIRECT" ∷ "Domestic" ∷ []) refl),
          All-append (λ g. group_errors all_targets g ≡ [])
              (groups_of_apps name_of nodes app_groups) (last_groups name_of nodes)
              (apps-valid app_groups refl)
              (
                group_errors-nil all_targets _
                    (members-valid ("Global TV" ∷ "DIRECT" ∷ "Proxy" ∷ []) refl),
                (
                  group_errors-nil all_targets _
                      (select-valid ("REJECT" ∷ "DIRECT" ∷ "Proxy" ∷ []) refl),
                  (
                    group_errors-nil all_targets _
                        (select-valid ("REJECT" ∷ "DIRECT" ∷ "Proxy" ∷ []) refl),
                    (
                      group_errors-nil all_targets _ (members-valid ("Proxy" ∷ "DIRECT" ∷ []) refl),
                      (
                        group_errors-nil all_targets _
                            (members-valid ("Proxy" ∷ "DIRECT" ∷ []) refl),
                        (
                          group_errors-nil all_targets _
                              (select-valid ("DIRECT" ∷ "Proxy" ∷ []) refl),
                          tt,
                        ),
                      ),
                    ),
                  ),
                ),
              ),
        ),
      ),
    ),
  )

  rule-valid :
      (rule : String) (target : Option String)
      → is_fixed target ≡ true
      → target_errors all_targets rule target ≡ []
  rule-valid rule none h = refl
  rule-valid rule (some target) h = rw (fixed-valid target h) refl

  rule_errors-nil :
      (rule : String) → has_fixed_target rule ≡ true → rule_errors all_targets rule ≡ []
  unfolding has_fixed_target rule_errors
  rule_errors-nil rule h = rule-valid rule (rule_target rule) h

  pub rules-valid :
      (rules : List String)
      → all has_fixed_target rules ≡ true
      → All (λ rule. rule_errors all_targets rule ≡ []) rules
  rules-valid [] h = tt
  rules-valid (rule ∷ rules) h = elim (Bool-cases (has_fixed_target rule)) [
    | inl e ↦ (rule_errors-nil rule e, rules-valid rules (rw e at h))
    | inr e ↦ absurd (ground (arith, (rw e at h)))
  ]
