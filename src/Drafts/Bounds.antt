-- ===== src/Drafts/Bounds.antt =====
-- The bounds of an accepted draft.
use clash_config_gen.Prelude.{
  ℕ, suc, ◌≤◌, String, ◌<>◌, ◌≡◌, refl, sym, ap, ◌∙◌, inl, inr, Bool, true, false, ◌||◌, Option,
  none, some, List, [], ◌∷◌, map, arith, ltb, leb, Bool-cases, length, any, all, any-append,
}
use clash_config_gen.Prelude.Dict.{Dict, lookup}
use clash_config_gen.Value.{
  Value, null, boolean, integer, real, text, array, table, entries, truthy,
}
use clash_config_gen.Prelude.Text.{size}
use clash_config_gen.Normalizer.{validate_proxy_fields}
use clash_config_gen.Normalizer.Proxy.{normalize_proxy, normalize_proxies, name_or}
use clash_config_gen.Normalizer.Proxy.Keeps.{named_entry, normalize_proxy-name}
use clash_config_gen.Drafts.{
  Outcome, accepted, refused, Draft, DraftMeta, Accepts, then-Accepts, raise_if-Accepts,
  accepted-Accepts,
}
use clash_config_gen.Drafts.Intake.{
  is_port_error, check_proxies, stripped_name, check_rules, proxies_of, list_of, intake_proxies,
  intake_rules, intake_providers, intake_global_config, intake_rule_type, intake_sources,
  draft_source, normalize_draft,
}
use clash_config_gen.Drafts.Accepted.{
  contains_text-append, has_port, is_name, validate_proxy_fields-has_port, check_proxies_lem,
  check_rules_lem, check_providers_lem, is_provider,
}

-- The name of a node in a draft.
abbrev pub has_name : Option Value → Bool
has_name none = false
has_name (some (text s)) = is_name s
has_name (some _) = false

any-map :
    (p : String → Bool) (f : String → String) (xs : List String)
    → ((x : String) → p x ≡ true → p (f x) ≡ true)
    → any p (map f xs) ≡ false
    → any p xs ≡ false
any-map p f [] g h = refl
any-map p f (x ∷ xs) g h = elim (Bool-cases (p x)) [
  | inl e ↦ absurd (ground (arith, h, g x e))
  | inr e ↦ rw e (any-map p f xs g (ground (arith, h)))
]

prefixed :
    (name : String) (x : String)
    → is_port_error x ≡ true
    → is_port_error ("节点 " <> (name <> (": " <> x))) ≡ true
unfolding is_port_error
prefixed name x h =
    contains_text-append "端口" "节点 " (name <> (": " <> x))
      (contains_text-append "端口" name (": " <> x) (contains_text-append "端口" ": " x h))

anything {ℓ} : {A : Type ℓ} (o : Outcome A) → Accepts (λ _. Unit {0}) o
anything (accepted a) = tt
anything (refused status detail) = tt

weaken {ℓ} :
    {A : Type ℓ} (P Q : A → Type 0) (o : Outcome A)
    → Accepts P o
    → ((a : A) → P a → Q a)
    → Accepts Q o
weaken P Q (accepted a) h g = g a h
weaken P Q (refused status detail) h g = tt

module _ (repr : Value → String) (single_of_list : String → Option Value)
    (ip_version : String → Option ℕ) where
  named_lem :
      (o : Option Value)
      → is_name (stripped_name repr o) ≡ true
      → has_name (named_entry repr single_of_list ip_version o) ≡ true
  named_lem none h = absurd (ground (arith, h))
  named_lem (some v) h = elim (Bool-cases (truthy v)) [
    | inl e ↦ sym (rw e refl) ∙ h
    | inr e ↦ let q : false ≡ true = sym (rw e refl) ∙ h in absurd (ground (arith, q))
  ]

  abbrev normalized : List (Dict Value) → List (Dict Value) × (List String × List String)
  normalized ds = normalize_proxies repr single_of_list ip_version ds

  length-normalized : (ds : List (Dict Value)) → length (normalized ds).0 ≡ length ds
  unfolding normalize_proxies
  length-normalized [] = refl
  length-normalized (d ∷ ds) = ap (λ n. suc n) (length-normalized ds)

  normalized_names :
      (ds : List (Dict Value))
      → all (λ d. is_name (stripped_name repr (lookup "name" d))) ds ≡ true
      → all (λ d. has_name (lookup "name" d)) (normalized ds).0 ≡ true
  unfolding normalize_proxies
  normalized_names [] h = refl
  normalized_names (d ∷ ds) h =
      let one : has_name (lookup "name" (normalize_proxy repr single_of_list ip_version d).proxy)
          ≡ true =
        ap has_name (normalize_proxy-name repr single_of_list ip_version d)
        ∙ named_lem (lookup "name" d) (ground (arith, h)) in
      rw one (normalized_names ds (ground (arith, h)))

  errors_of :
      (d : Dict Value)
      → (normalize_proxy repr single_of_list ip_version d).errors
        ≡ validate_proxy_fields repr (normalize_proxy repr single_of_list ip_version d).proxy
  unfolding normalize_proxy
  errors_of d = refl

  normalized_ports :
      (ds : List (Dict Value))
      → any is_port_error (normalized ds).1.1 ≡ false
      → all (has_port repr) (normalized ds).0 ≡ true
  unfolding normalize_proxies
  normalized_ports [] h = refl
  normalized_ports (d ∷ ds) h =
      let result = normalize_proxy repr single_of_list ip_version d in
      let name =
        name_or repr single_of_list ip_version (lookup "name" result.proxy) (lookup "name" d) in
      let labelled = map (λ e. "节点 " <> (name <> (": " <> e))) result.errors in
      let both : (any is_port_error labelled || any is_port_error (normalized ds).1.1) ≡ false =
        sym (any-append is_port_error labelled (normalized ds).1.1) ∙ h in
      let own : any is_port_error result.errors ≡ false =
        any-map is_port_error (λ e. "节点 " <> (name <> (": " <> e))) result.errors (prefixed name)
          (ground (arith, both)) in
      let one : has_port repr result.proxy ≡ true =
        validate_proxy_fields-has_port repr result.proxy
          (ap (any is_port_error) (sym (errors_of d)) ∙ own) in
      ground (arith, one, normalized_ports ds (ground (arith, both)))

  -- What holds of an accepted draft.
  abbrev pub IsBounded : Draft → Type 0
  IsBounded draft =
      (length draft.proxies ≤ 500)
      × ((all (λ d. has_name (lookup "name" d)) draft.proxies ≡ true)
          × ((all (has_port repr) draft.proxies ≡ true)
              × ((length draft.custom_rules ≤ 500)
                  × ((all (λ rule. leb (size rule) 512) draft.custom_rules ≡ true)
                      × (all is_provider draft.custom_rule_providers ≡ true)))))

  intake_proxies_lem :
      (o : Option Value)
      → Accepts
          (λ ds.
            (length ds ≤ 500)
            × (all (λ d. is_name (stripped_name repr (lookup "name" d))) ds ≡ true))
          (intake_proxies repr o)
  unfolding intake_proxies
  intake_proxies_lem o =
      let Q : List (Dict Value) → Type 0 = λ ds.
        (length ds ≤ 500) × (all (λ d. is_name (stripped_name repr (lookup "name" d))) ds ≡ true) in
      then-Accepts (λ _. Unit {0}) Q (proxies_of o) _ (anything (proxies_of o))
        (λ vs _. raise_if-Accepts Q (ltb 500 (length vs)) 413 _ (check_proxies repr 1 vs) (λ few.
          weaken
            (λ ds.
              (length ds ≡ length vs)
              × (all (λ d. is_name (stripped_name repr (lookup "name" d))) ds ≡ true))
            Q (check_proxies repr 1 vs) (check_proxies_lem repr 1 vs)
            (λ ds h. (ground (arith, few, h.0), h.1))))

  intake_rules_lem :
      (o : Option Value)
      → Accepts (λ rs. (length rs ≤ 500) × (all (λ r. leb (size r) 512) rs ≡ true)) (intake_rules o)
  unfolding intake_rules
  intake_rules_lem o =
      let Q : List String → Type 0 =
        λ rs. (length rs ≤ 500) × (all (λ r. leb (size r) 512) rs ≡ true) in
      then-Accepts (λ _. Unit {0}) Q (list_of "custom_rules 必须是数组" o) _
        (anything (list_of "custom_rules 必须是数组" o))
        (λ vs _. raise_if-Accepts Q (ltb 500 (length vs)) 413 _ (check_rules 1 vs) (λ few.
          weaken (λ rs. (length rs ≡ length vs) × (all (λ r. leb (size r) 512) rs ≡ true)) Q
            (check_rules 1 vs) (check_rules_lem 1 vs) (λ rs h. (ground (arith, few, h.0), h.1))))

  intake_providers_lem :
      (o : Option Value) → Accepts (λ ps. all is_provider ps ≡ true) (intake_providers o)
  unfolding intake_providers
  intake_providers_lem none = refl
  intake_providers_lem (some null) = refl
  intake_providers_lem (some (boolean b)) = tt
  intake_providers_lem (some (integer n)) = tt
  intake_providers_lem (some (real s n)) = tt
  intake_providers_lem (some (text s)) = tt
  intake_providers_lem (some (array vs)) = tt
  intake_providers_lem (some (table fs)) = check_providers_lem (entries fs)

  normalize_draft-Accepts :
      (body : Dict Value) (saved : Option (Dict Value))
      → Accepts (λ r. IsBounded r.0) (normalize_draft repr single_of_list ip_version body saved)
  unfolding normalize_draft
  normalize_draft-Accepts body saved =
      let source = draft_source body in
      let P : Draft × DraftMeta → Type 0 = λ r. IsBounded r.0 in
      let names : List (Dict Value) → Type 0 = λ ds.
        (length ds ≤ 500) × (all (λ d. is_name (stripped_name repr (lookup "name" d))) ds ≡ true) in
      then-Accepts names P (intake_proxies repr (lookup "proxies" source)) _
        (intake_proxies_lem (lookup "proxies" source))
        (λ raw h. raise_if-Accepts P (any is_port_error (normalized raw).1.1) 400 _ _ (λ faultless.
          then-Accepts (λ _. Unit {0}) P (intake_global_config (lookup "global_config" source)) _
            (anything (intake_global_config (lookup "global_config" source)))
            (λ raw_global _.
              then-Accepts (λ rs. (length rs ≤ 500) × (all (λ r. leb (size r) 512) rs ≡ true)) P
                (intake_rules (lookup "custom_rules" source)) _
                (intake_rules_lem (lookup "custom_rules" source))
                (λ rules short.
                  then-Accepts (λ ps. all is_provider ps ≡ true) P
                    (intake_providers (lookup "custom_rule_providers" source)) _
                    (intake_providers_lem (lookup "custom_rule_providers" source))
                    (λ providers ok.
                      then-Accepts (λ _. Unit {0}) P
                        (intake_rule_type (lookup "selected_rule_type" source)) _
                        (anything (intake_rule_type (lookup "selected_rule_type" source)))
                        (λ kind _.
                          then-Accepts (λ _. Unit {0}) P
                            (intake_sources (lookup "import_sources" source)) _
                            (anything (intake_sources (lookup "import_sources" source)))
                            (λ sources _. (
                              omega (arith, length-normalized raw, h.0),
                              (
                                normalized_names raw h.1,
                                (normalized_ports raw faultless, (short.0, (short.1, ok))),
                              ),
                            ))))))))

  -- A draft that `_normalize_draft` accepts has at most 500 nodes, each with a name of 1 to 128 characters and,
  -- but for a MASQUE node, with a port that is none or a faultless one; at most 500 rules of at most 512
  -- characters; and rule providers with texts for url and path and an interval from 1 to 31536000, where given.
  pub normalize_draft-IsBounded :
      (body : Dict Value) (saved : Option (Dict Value)) (draft : Draft) (meta : DraftMeta)
      → normalize_draft repr single_of_list ip_version body saved ≡ accepted (draft, meta)
      → IsBounded draft
  normalize_draft-IsBounded body saved draft meta e =
      accepted-Accepts (λ r. IsBounded r.0)
        (normalize_draft repr single_of_list ip_version body saved) (draft, meta) e
        (normalize_draft-Accepts body saved)
