-- ===== src/Rules/Routing.antt =====
-- How a client reads a generated rule list: the first rule that hits decides.
use clash_config_gen.Prelude.{
  String, ◌≡◌, refl, ◌≢◌, inl, inr, Bool, true, false, not, none, some, List, [], ◌∷◌, ◌++◌, arith,
  if◌then◌else◌, Option-cases, filter, any, find, any-append,
}
use clash_config_gen.Prelude.Dict.{Dict}
use clash_config_gen.Rules.Match.{fallback, preset_fallback, build_rules-fallback}
use clash_config_gen.Rules.Build.{
  Env, CustomProvider, RuleProvider, ProviderRules, is_no_base_rule_type, is_match_rule,
  assemble_rules, build_rules, base_rules, custom_provider_loop,
}

find-append {ℓ} :
    {A : Type ℓ} (p : A → Bool) (xs ys : List A)
    → find p (xs ++ ys) ≡ (elim (find p xs) [ none ↦ find p ys | some a ↦ some a ])
find-append p [] ys = refl
find-append p (x ∷ xs) ys = ground (arith, find-append p xs ys)

find-some_append {ℓ} :
    {A : Type ℓ} (p : A → Bool) (xs ys : List A) (a : A)
    → find p xs ≡ some a
    → find p (xs ++ ys) ≡ some a
find-some_append p [] ys a h = cc
find-some_append p (x ∷ xs) ys a h = ground (arith, find-some_append p xs ys a)

any-find : (p : String → Bool) (xs : List String) → any p xs ≡ true → find p xs ≢ none
any-find p [] h = cc
any-find p (x ∷ xs) h = ground (arith, any-find p xs)

find-is_match_rule :
    (rules : List String) (rule : String)
    → find is_match_rule rules ≡ some rule
    → is_match_rule rule ≡ true
find-is_match_rule [] rule h = cc
find-is_match_rule (r ∷ rules) rule h = ground (arith, find-is_match_rule rules rule)

fallback_hits :
    (hits : String → Bool) (selected_rule_type : String) (custom_rules : List String)
    → ((rule : String) → is_match_rule rule ≡ true → hits rule ≡ true)
    → is_no_base_rule_type selected_rule_type ≡ false
    → any hits (fallback selected_rule_type custom_rules) ≡ true
unfolding fallback preset_fallback
fallback_hits hits selected_rule_type custom_rules m b =
    elim (Option-cases (find is_match_rule custom_rules)) [
      | inl e ↦ rw e (ground (arith, m "MATCH,Others" match_others, m "MATCH,Proxy" match_proxy))
      | inr (rule, e) ↦ rw (e, b) (ground (arith, m rule (find-is_match_rule custom_rules rule e)))
    ]
  where
    match_others : is_match_rule "MATCH,Others" ≡ true
    match_others = unfold is_match_rule in refl

    match_proxy : is_match_rule "MATCH,Proxy" ≡ true
    match_proxy = unfold is_match_rule in refl

assemble_rules_custom_first :
    (hits : String → Bool) (selected_rule_type : String)
    (custom_rules prepend rule_list append : List String) (rule : String)
    → find hits (filter (λ r. not (is_match_rule r)) custom_rules) ≡ some rule
    → find hits (assemble_rules selected_rule_type custom_rules prepend rule_list append)
      ≡ some rule
unfolding assemble_rules
assemble_rules_custom_first hits selected_rule_type custom_rules prepend rule_list append rule h =
    keep _ _ (find-some_append hits (filter (λ r. not (is_match_rule r)) custom_rules) _ rule h)
  where
    keep :
        (b : Bool) (rules : List String)
        → find hits rules ≡ some rule
        → find hits (if b then rules ++ "MATCH,Proxy" ∷ [] else rules) ≡ some rule
    keep true rules e = find-some_append hits rules _ rule e
    keep false rules e = e

module _ (hits : String → Bool) (env : Env) (selected_rule_type : String)
    (custom_rules : List String) (custom : Dict CustomProvider)
    (lhie1_targets dustinwin_targets : Dict String) where
  -- With a rule source, some rule decides every connection, if a MATCH rule hits every connection.
  pub build_rules_decides :
      ((rule : String) → is_match_rule rule ≡ true → hits rule ≡ true)
      → is_no_base_rule_type selected_rule_type ≡ false
      → find hits
          (build_rules env selected_rule_type custom_rules custom lhie1_targets dustinwin_targets).0
        ≢ none
  build_rules_decides m b =
      let (front, _, parts) =
        build_rules-fallback env selected_rule_type custom_rules custom lhie1_targets
          dustinwin_targets in
      rw parts (
        any-find hits _ (
          rw (any-append hits front, fallback_hits hits selected_rule_type custom_rules m b)
            (ground arith)))

  -- A rule of the user's that is no MATCH rule comes before all else: if it is the first of them
  -- that hits, it decides, whatever the rule source and the providers say.
  pub build_rules_custom_first :
      (rule : String)
      → find hits (filter (λ r. not (is_match_rule r)) custom_rules) ≡ some rule
      → find hits
          (build_rules env selected_rule_type custom_rules custom lhie1_targets dustinwin_targets).0
        ≡ some rule
  unfolding build_rules
  build_rules_custom_first rule h =
      let base : List String × Dict RuleProvider =
        base_rules env selected_rule_type lhie1_targets dustinwin_targets in
      let r : ProviderRules =
        custom_provider_loop custom (record { providers = base.1; prepend = []; append = [] }) in
      assemble_rules_custom_first hits selected_rule_type custom_rules r.prepend base.0 r.append
        rule h
