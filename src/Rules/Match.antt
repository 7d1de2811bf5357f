-- ===== src/Rules/Match.antt =====
-- Where the MATCH rules of a generated rule list stand.
use clash_config_gen.Prelude.{
  String, ◌<>◌, ◌≡◌, refl, sym, inl, inr, Bool, true, false, not, ◌&&◌, ◌||◌, Option, none, some,
  List, [], ◌∷◌, ◌++◌, arith, ◌==◌, if◌then◌else◌, Bool-cases, Option-cases, filter, any, find,
  filter-append, any-append, All, All-append,
}
use mathlib.Core.List.{append_assoc, append-nil}
use clash_config_gen.Prelude.Dict.{Dict}
use clash_config_gen.Prelude.Text.{has_prefix, has_prefix-split}
use clash_config_gen.Rules.Providers.{DustinwinProvider}
use clash_config_gen.Rules.Build.{
  Env, CustomProvider, RuleProvider, ProviderRules, is_no_base_rule_type, is_match_rule, rule_set,
  dustinwin_loop, lhie1_loop, base_rules, custom_provider_loop, add_custom_provider,
  dustinwin_rules, lhie1_rules, first_or, assemble_rules, build_rules, leading_rules, get_or,
}

abbrev pub IsOrdinary : String → Type 0
IsOrdinary rule = is_match_rule rule ≡ false

-- A rule that starts with `MATCH,` is a MATCH rule.
pub has_prefix-is_match_rule :
    (rule : String) → has_prefix "MATCH," rule ≡ true → is_match_rule rule ≡ true
unfolding is_match_rule ◌<>◌
has_prefix-is_match_rule rule h = let (t, e) = has_prefix-split "MATCH," rule h in rw e

is_match_rule-rule_set : (name target : String) → IsOrdinary (rule_set name target)
unfolding is_match_rule rule_set
is_match_rule-rule_set name target = refl

is_match_rule-rule_set_with :
    (name target suffix : String) → IsOrdinary (rule_set name target <> suffix)
unfolding is_match_rule rule_set
is_match_rule-rule_set_with name target suffix = refl

dustinwin_loop-IsOrdinary :
    (env : Env) (targets : Dict String) (items : List (String × DustinwinProvider))
    (rules : List String) (providers : Dict RuleProvider)
    → All IsOrdinary rules
    → All IsOrdinary (dustinwin_loop env targets items rules providers).0
unfolding dustinwin_loop
dustinwin_loop-IsOrdinary env targets [] rules providers h = h
dustinwin_loop-IsOrdinary env targets ((name, config) ∷ items) rules providers h =
    dustinwin_loop-IsOrdinary env targets items _ _
      (All-append IsOrdinary rules _ h (is_match_rule-rule_set_with name _ _, tt))

lhie1_loop-IsOrdinary :
    (targets : Dict String) (items : List (String × (String × String))) (rules : List String)
    (providers : Dict RuleProvider)
    → All IsOrdinary rules
    → All IsOrdinary (lhie1_loop targets items rules providers).0
unfolding lhie1_loop
lhie1_loop-IsOrdinary targets [] rules providers h = h
lhie1_loop-IsOrdinary targets ((name, (suffix, target)) ∷ items) rules providers h =
    lhie1_loop-IsOrdinary targets items _ _
      (All-append IsOrdinary rules _ h (is_match_rule-rule_set name _, tt))

OrdinaryProviders : ProviderRules → Type 0
OrdinaryProviders r = All IsOrdinary r.prepend × All IsOrdinary r.append

add_custom_provider-IsOrdinary :
    (name : String) (config : CustomProvider) (r : ProviderRules)
    → OrdinaryProviders r
    → OrdinaryProviders (add_custom_provider name config r)
unfolding add_custom_provider OrdinaryProviders
add_custom_provider-IsOrdinary name config r h =
    elim (Bool-cases (get_or config.order "" == "优先 (覆盖)")) [
      | inl e ↦
          rw e (All-append IsOrdinary r.prepend _ h.0 (is_match_rule-rule_set name _, tt), h.1)
      | inr e ↦ rw e (h.0, All-append IsOrdinary r.append _ h.1 (is_match_rule-rule_set name _, tt))
    ]

custom_provider_loop-IsOrdinary :
    (custom : Dict CustomProvider) (r : ProviderRules)
    → OrdinaryProviders r
    → OrdinaryProviders (custom_provider_loop custom r)
unfolding custom_provider_loop
custom_provider_loop-IsOrdinary [] r h = h
custom_provider_loop-IsOrdinary ((name, config) ∷ rest) r h =
    custom_provider_loop-IsOrdinary rest _ (add_custom_provider-IsOrdinary name config r h)

filter-ordinary :
    (rules : List String)
    → All IsOrdinary rules
    → (filter is_match_rule rules ≡ []) × (filter (λ r. not (is_match_rule r)) rules ≡ rules)
filter-ordinary [] h = (refl, refl)
filter-ordinary (r ∷ rules) h = ground (arith, filter-ordinary rules h.1)

filter-not-IsOrdinary :
    (rules : List String) → All IsOrdinary (filter (λ r. not (is_match_rule r)) rules)
filter-not-IsOrdinary [] = tt
filter-not-IsOrdinary (r ∷ rules) = ground (arith, filter-not-IsOrdinary rules)

-- The rule source's own fallback, with which its list ends.
unfoldable pub preset_fallback : String → List String
preset_fallback selected_rule_type =
    if selected_rule_type == "dustinwin规则" || selected_rule_type == "lhie1规则"
    then "MATCH,Others" ∷ []
    else if is_no_base_rule_type selected_rule_type
    then []
    else "MATCH,Proxy" ∷ []

-- The end of the list: the user's first MATCH rule, or else the source's fallback. A custom rule that is
-- a MATCH rule but does not start with `MATCH,` is followed by `MATCH,Proxy`, unless there is no base.
abbrev pub fallback_of : String → Option String → List String
fallback_of selected_rule_type none = preset_fallback selected_rule_type
fallback_of selected_rule_type (some rule) =
    if is_no_base_rule_type selected_rule_type || has_prefix "MATCH," rule
    then rule ∷ []
    else rule ∷ "MATCH,Proxy" ∷ []

unfoldable pub fallback : String → List String → List String
fallback selected_rule_type custom_rules =
    fallback_of selected_rule_type (find is_match_rule custom_rules)

record BaseShape (selected_rule_type : String) (rules : List String) : Type 0 where
  front : List String
  ordinary : All IsOrdinary front
  parts : rules ≡ front ++ preset_fallback selected_rule_type

leading_rules-IsOrdinary : All IsOrdinary leading_rules
unfolding is_match_rule
leading_rules-IsOrdinary = (refl, (refl, tt))

dustinwin_rules-shape :
    (env : Env) (targets : Dict String)
    → (front : List String) × All IsOrdinary front
      × ((dustinwin_rules env targets).0 ≡ front ++ "MATCH,Others" ∷ [])
unfolding dustinwin_rules
dustinwin_rules-shape env targets =
    (_, dustinwin_loop-IsOrdinary env targets _ leading_rules [] leading_rules-IsOrdinary, refl)

lhie1_rules-shape :
    (env : Env) (targets : Dict String)
    → (front : List String) × All IsOrdinary front
      × ((lhie1_rules env targets).0 ≡ front ++ "MATCH,Others" ∷ [])
unfolding lhie1_rules is_match_rule
lhie1_rules-shape env targets = (
  _,
  All-append IsOrdinary _ _
      (All-append IsOrdinary _ _
        (lhie1_loop-IsOrdinary targets _ leading_rules [] leading_rules-IsOrdinary) (refl, tt))
      (refl, tt),
  sym (append_assoc _ ("GEOIP,CN,Domestic,no-resolve" ∷ []) ("MATCH,Others" ∷ [])),
)

legacy_rules-IsOrdinary : All IsOrdinary (
    leading_rules
    ++ "DOMAIN-SUFFIX,google.com,Google" ∷ "DOMAIN-SUFFIX,youtube.com,Youtube"
      ∷ "GEOIP,CN,DIRECT,no-resolve" ∷ [])
unfolding is_match_rule
legacy_rules-IsOrdinary = (refl, (refl, (refl, (refl, (refl, tt)))))

base_rules-shape :
    (env : Env) (selected_rule_type : String) (lhie1_targets dustinwin_targets : Dict String)
    → BaseShape selected_rule_type
        (base_rules env selected_rule_type lhie1_targets dustinwin_targets).0
unfolding base_rules preset_fallback
base_rules-shape env selected_rule_type lhie1_targets dustinwin_targets =
    elim (Bool-cases (selected_rule_type == "dustinwin规则")) [
      | inl e ↦
          let (front, ordinary, parts) = dustinwin_rules-shape env dustinwin_targets in
          record { front = front; ordinary = ordinary; parts = rw e parts }
      | inr e ↦ elim (Bool-cases (selected_rule_type == "lhie1规则")) [
        | inl e' ↦
            let (front, ordinary, parts) = lhie1_rules-shape env lhie1_targets in
            record { front = front; ordinary = ordinary; parts = rw (e, e') parts }
        | inr e' ↦ elim (Bool-cases (is_no_base_rule_type selected_rule_type)) [
          | inl e'' ↦ record { front = []; ordinary = tt; parts = rw (e, e', e'') refl }
          | inr e'' ↦ record {
            front =
                leading_rules
                ++ "DOMAIN-SUFFIX,google.com,Google" ∷ "DOMAIN-SUFFIX,youtube.com,Youtube"
                  ∷ "GEOIP,CN,DIRECT,no-resolve" ∷ [];
            ordinary = legacy_rules-IsOrdinary;
            parts = rw (e, e', e'') refl;
          }
        ]
      ]
    ]

match_rules-fallback :
    (selected_rule_type : String)
    → (filter is_match_rule (preset_fallback selected_rule_type)
        ≡ preset_fallback selected_rule_type)
      × (filter (λ r. not (is_match_rule r)) (preset_fallback selected_rule_type) ≡ [])
unfolding preset_fallback is_match_rule
match_rules-fallback selected_rule_type = ground arith

any-IsOrdinary :
    (rules : List String) → All IsOrdinary rules → any (has_prefix "MATCH,") rules ≡ false
any-IsOrdinary [] h = refl
any-IsOrdinary (r ∷ rules) h = ground (arith, has_prefix-is_match_rule r, any-IsOrdinary rules h.1)

preset_fallback-any :
    (selected_rule_type : String)
    → (is_no_base_rule_type selected_rule_type
        || any (has_prefix "MATCH,") (preset_fallback selected_rule_type))
      ≡ true
unfolding preset_fallback has_prefix
preset_fallback-any selected_rule_type = ground arith

abbrev found_or : Option String → List String → List String
found_or none preset = preset
found_or (some rule) preset = rule ∷ []

first_or-found_or :
    (rules preset : List String)
    → first_or (filter is_match_rule rules) preset ≡ found_or (find is_match_rule rules) preset
first_or-found_or [] preset = refl
first_or-found_or (r ∷ rules) preset = ground (arith, first_or-found_or rules preset)

-- The test for a missing MATCH, after rules that are no MATCH rules.
close_rules : (no_base : Bool) (front final_match : List String) → List String
close_rules no_base front final_match =
    if not no_base && not (any (has_prefix "MATCH,") (front ++ final_match))
    then (front ++ final_match) ++ "MATCH,Proxy" ∷ []
    else front ++ final_match

close_rules_lem :
    (selected_rule_type : String) (custom_rules front : List String)
    → All IsOrdinary front
    → close_rules
        (is_no_base_rule_type selected_rule_type)
        front
        (found_or (find is_match_rule custom_rules) (preset_fallback selected_rule_type))
      ≡ front ++ fallback selected_rule_type custom_rules
unfolding close_rules fallback
close_rules_lem selected_rule_type custom_rules front h =
    elim (Option-cases (find is_match_rule custom_rules)) [
      | inl e ↦
          rw (e, any-append (has_prefix "MATCH,") front, any-IsOrdinary front h)
            (ground (arith, preset_fallback-any selected_rule_type))
      | inr (rule, e) ↦
          rw (e, any-append (has_prefix "MATCH,") front, any-IsOrdinary front h)
            (ground (arith, append_assoc front (rule ∷ []) ("MATCH,Proxy" ∷ [])))
    ]

assemble_rules-fallback :
    (selected_rule_type : String) (custom_rules prepend rule_list append : List String)
    → BaseShape selected_rule_type rule_list
    → All IsOrdinary prepend
    → All IsOrdinary append
    → (front : List String) × All IsOrdinary front
      × (assemble_rules selected_rule_type custom_rules prepend rule_list append
          ≡ front ++ fallback selected_rule_type custom_rules)
unfolding assemble_rules close_rules
assemble_rules-fallback selected_rule_type custom_rules prepend rule_list append shape hp ha = (
  front,
  ordinary,
  rw
      (
        shape.parts,
        filter-append is_match_rule shape.front (preset_fallback selected_rule_type),
        filter-append (λ r. not (is_match_rule r)) shape.front (preset_fallback selected_rule_type),
        (filter-ordinary shape.front shape.ordinary).0,
        (filter-ordinary shape.front shape.ordinary).1,
        (match_rules-fallback selected_rule_type).0,
        (match_rules-fallback selected_rule_type).1,
        append-nil shape.front,
        first_or-found_or custom_rules (preset_fallback selected_rule_type),
        regroup,
      )
      (close_rules_lem selected_rule_type custom_rules front ordinary),
)
  where
    own : List String
    own = filter (λ r. not (is_match_rule r)) custom_rules

    front : List String
    front = own ++ (prepend ++ (shape.front ++ append))

    ordinary : All IsOrdinary front
    ordinary =
        All-append IsOrdinary own _ (filter-not-IsOrdinary custom_rules) (
          All-append IsOrdinary prepend _ hp
            (All-append IsOrdinary shape.front _ shape.ordinary ha))

    regroup :
        own
          ++ (prepend
              ++ (shape.front
                  ++ (append
                      ++ found_or
                          (find is_match_rule custom_rules)
                          (preset_fallback selected_rule_type))))
        ≡ front ++ found_or (find is_match_rule custom_rules) (preset_fallback selected_rule_type)
    regroup = simp append_assoc

-- A generated list is ordinary rules, and then its fallback: no rule stands behind a MATCH rule
-- but that `MATCH,Proxy`.
pub build_rules-fallback :
    (env : Env) (selected_rule_type : String) (custom_rules : List String)
    (custom : Dict CustomProvider) (lhie1_targets dustinwin_targets : Dict String)
    → (front : List String) × All IsOrdinary front
      × ((build_rules env selected_rule_type custom_rules custom lhie1_targets dustinwin_targets).0
          ≡ front ++ fallback selected_rule_type custom_rules)
unfolding build_rules OrdinaryProviders
build_rules-fallback env selected_rule_type custom_rules custom lhie1_targets dustinwin_targets =
    let base : List String × Dict RuleProvider =
      base_rules env selected_rule_type lhie1_targets dustinwin_targets in
    let start : ProviderRules = record { providers = base.1; prepend = []; append = [] } in
    let added : OrdinaryProviders (custom_provider_loop custom start) =
      custom_provider_loop-IsOrdinary custom start (tt, tt) in
    assemble_rules-fallback selected_rule_type custom_rules _ _ _
      (base_rules-shape env selected_rule_type lhie1_targets dustinwin_targets) added.0 added.1
