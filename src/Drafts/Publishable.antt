-- ===== src/Drafts/Publishable.antt =====
-- What a draft that passes the validation is.
use clash_config_gen.Prelude.{
  String, ◌<>◌, ◌≡◌, refl, sym, ap, ◌∙◌, inl, inr, Bool, true, false, not, ◌&&◌, Option, none, some,
  List, [], ◌∷◌, ◌++◌, map, arith, Bool-cases, filter, all,
}
use Prim.Native.String.{compare}
use Prim.Native.Nat.{Ordering}
use clash_config_gen.Prelude.Dict.{Dict, lookup}
use clash_config_gen.Value.{Value}
use clash_config_gen.Groups.Validate.{MihomoConfig}
use clash_config_gen.Config.Yaml.{build_yaml}
use clash_config_gen.Drafts.{Draft, DraftMeta}
use clash_config_gen.Drafts.Validation.{
  insert_after, insert_name, sorted, is_repeated, duplicates, name_or_blank, MihomoResult, Progress,
  failed, with_mihomo, mihomo_ok, no_error, config_errors, generate, start, run_validation,
}

no_error_lem : (errors : List String) → no_error errors ≡ true → errors ≡ []
no_error_lem [] h = refl
no_error_lem (e ∷ errors) h = absurd (ground (arith, h))

no_error-append : (xs ys : List String) → no_error (xs ++ ys) ≡ (no_error xs && no_error ys)
no_error-append [] ys = refl
no_error-append (x ∷ xs) ys = refl

no_error-map : (f : String → String) (xs : List String) → no_error (map f xs) ≡ true → xs ≡ []
no_error-map f [] h = refl
no_error-map f (x ∷ xs) h = absurd (ground (arith, h))

no_error-insert_after :
    (o : Ordering) (name first : String) (rest inserted : List String)
    → no_error (insert_after o name first rest inserted) ≡ false
no_error-insert_after Ordering.lt name first rest inserted = refl
no_error-insert_after Ordering.eq name first rest inserted = refl
no_error-insert_after Ordering.gt name first rest inserted = refl

no_error-insert_name :
    (name : String) (names : List String) → no_error (insert_name name names) ≡ false
unfolding insert_name
no_error-insert_name name [] = refl
no_error-insert_name name (first ∷ rest) =
    no_error-insert_after (compare name first) name first rest (insert_name name rest)

sorted_nil : (names : List String) → sorted names ≡ [] → names ≡ []
unfolding sorted
sorted_nil [] h = refl
sorted_nil (name ∷ names) h =
    let q : false ≡ true = sym (no_error-insert_name name (sorted names)) ∙ ap no_error h in
    absurd (ground (arith, q))

filter_nil :
    (p : String → Bool) (xs : List String) → filter p xs ≡ [] → all (λ x. not (p x)) xs ≡ true
filter_nil p [] h = refl
filter_nil p (x ∷ xs) h = elim (Bool-cases (p x)) [
  | inl e ↦ let q : x ∷ filter p xs ≡ [] = sym (rw e refl) ∙ h in absurd (ground (arith, q))
  | inr e ↦ rw e (filter_nil p xs (sym (rw e refl) ∙ h))
]

duplicates_lem :
    (names : List String)
    → duplicates names ≡ []
    → all (λ name. not (is_repeated names name)) names ≡ true
unfolding duplicates
duplicates_lem names h =
    filter_nil (is_repeated names) names (sorted_nil (filter (is_repeated names) names) h)

module _ (repr : Value → String) (hide : String → String) (dump : Dict Value → String)
    (load : String → Option Value) (unified_diff : List String → List String → String)
    (build : Draft → Option (Dict Value)) (yaml_error : MihomoConfig (Dict Value) → Option String)
    (validate_with_mihomo : String → Option MihomoResult) (sign : Draft → String) where
  abbrev errors_in : Draft → Dict Value → List String
  errors_in draft built =
      config_errors repr hide dump load unified_diff build yaml_error validate_with_mihomo sign
        draft built

  abbrev generated : Draft → Option (Dict Value) → Progress → Progress
  generated draft o progress =
      generate repr hide dump load unified_diff build yaml_error validate_with_mihomo sign draft o
        progress

  abbrev started : Draft → DraftMeta → Progress
  started draft meta =
      start repr hide dump load unified_diff build yaml_error validate_with_mihomo sign draft meta

  -- A document that was built, without an error, and that the kernel accepts.
  abbrev pub IsPublishable : Draft → Option (Dict Value) → Type 0
  IsPublishable draft o =
      (built : Dict Value) × ((o ≡ some built)
        × ((errors_in draft built ≡ [])
            × ((result : MihomoResult) × ((validate_with_mihomo (build_yaml dump built)
                    ≡ some result)
                  × (mihomo_ok result ≡ true)))))

  failed_lem : (progress : Progress) → no_error (failed progress).errors ≡ false
  failed_lem progress = no_error-append progress.errors ("配置生成失败，请检查节点、规则和全局设置" ∷ []) ∙ ground arith

  with_mihomo_lem :
      (r : Option MihomoResult) (progress : Progress)
      → (no_error (with_mihomo r progress).errors && mihomo_ok (with_mihomo r progress).mihomo)
        ≡ true
      → (no_error progress.errors ≡ true)
        × ((result : MihomoResult) × ((r ≡ some result) × (mihomo_ok result ≡ true)))
  with_mihomo_lem none progress h = absurd (ground (arith, h, failed_lem progress))
  with_mihomo_lem (some result) progress h =
      (ground (arith, h), (result, (refl, ground (arith, h))))

  generate_lem :
      (draft : Draft) (o : Option (Dict Value)) (progress : Progress)
      → (no_error (generated draft o progress).errors
          && mihomo_ok (generated draft o progress).mihomo)
        ≡ true
      → (no_error progress.errors ≡ true) × IsPublishable draft o
  unfolding generate
  generate_lem draft none progress h = absurd (ground (arith, h, failed_lem progress))
  generate_lem draft (some built) progress h =
      let yaml = build_yaml dump built in
      let checked : Progress = record progress {
        built = some built;
        yaml = yaml;
        errors = progress.errors ++ errors_in draft built;
      } in
      let (clean, passed) = with_mihomo_lem (validate_with_mihomo yaml) checked h in
      let both : (no_error progress.errors && no_error (errors_in draft built)) ≡ true =
        sym (no_error-append progress.errors (errors_in draft built)) ∙ clean in
      (
        ground (arith, both),
        (built, (refl, (no_error_lem (errors_in draft built) (ground (arith, both)), passed))),
      )

  -- If the validation says that a draft is in order, the normalization had found no error, no node name that is
  -- not empty occurs twice, a document was built from the draft, it has no error of `validate_config`, and
  -- mihomo was asked about its text and accepted it or was skipped.
  pub run_validation-IsPublishable :
      (draft : Draft) (published_yaml : String) (meta : DraftMeta)
      → (run_validation repr hide dump load unified_diff build yaml_error validate_with_mihomo sign
          draft published_yaml meta).ok
        ≡ true
      → (meta.errors ≡ [])
        × ((all
                (λ name. not (
                  is_repeated
                    (map (λ proxy. name_or_blank repr (lookup "name" proxy)) draft.proxies)
                    name))
                (map (λ proxy. name_or_blank repr (lookup "name" proxy)) draft.proxies)
              ≡ true)
            × IsPublishable draft (build draft))
  unfolding run_validation
  run_validation-IsPublishable draft published_yaml meta h =
      let names = map (λ proxy. name_or_blank repr (lookup "name" proxy)) draft.proxies in
      let (clean, publishable) = generate_lem draft (build draft) (started draft meta) h in
      let both : (no_error meta.errors
            && no_error (map (λ name. "节点名称重复：" <> name) (duplicates names)))
          ≡ true =
        sym (no_error-append meta.errors (map (λ name. "节点名称重复：" <> name) (duplicates names)))
        ∙ clean in
      (
        no_error_lem meta.errors (ground (arith, both)),
        (
          duplicates_lem names
              (no_error-map (λ name. "节点名称重复：" <> name) (duplicates names) (ground (arith, both))),
          publishable,
        ),
      )
