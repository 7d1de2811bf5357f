-- ===== src/Settings/Merge.antt =====
-- `migrate_global_defaults` and `apply_v2_global_defaults` of src/config_defaults.py.
use clash_config_gen.Prelude.{
  String, ◌≡◌, refl, sym, ◌≢◌, inl, inr, Bool, true, false, not, ◌&&◌, Option, none, some, [], ◌∷◌,
  arith, ◌==◌, eq_iff, eqb, if◌then◌else◌, Bool-cases,
}
use clash_config_gen.Prelude.Dict.{Dict, lookup, has_key, put, NodupKeys, lookup-put}
use clash_config_gen.Prelude.Int.{ℤ, pos, negsuc}
use clash_config_gen.Value.{
  Value, null, boolean, integer, real, number, text, array, table, truthy, truthy_entry, update,
}
use clash_config_gen.Settings.Profile.{lookup-update}

abbrev is_fifty : ℤ → Bool
is_fifty (pos n) = eqb n 50
is_fifty (negsuc n) = false

-- `saved.get("url_test_tolerance") in (None, 50)`
unfoldable pub is_old_tolerance : Option Value → Bool
is_old_tolerance none = true
is_old_tolerance (some null) = true
is_old_tolerance (some (boolean b)) = false
is_old_tolerance (some (integer n)) = is_fifty n
is_old_tolerance (some (real s none)) = false
is_old_tolerance (some (real s (some n))) = is_fifty n
is_old_tolerance (some (text s)) = false
is_old_tolerance (some (array vs)) = false
is_old_tolerance (some (table fs)) = false

-- The account never chose a target, and has no setting of one.
unfoldable pub without_target : Dict Value → Bool
unfolding lookup has_key truthy
without_target saved =
    not (truthy_entry (lookup "target_mode_user_selected" saved))
    && (not (has_key "generation_profile" saved) && not (has_key "is_desktop" saved))

unfoldable pub migrate_global_defaults : Dict Value → Dict Value → Dict Value
unfolding put lookup is_old_tolerance without_target
migrate_global_defaults global_config saved =
    let migrated =
      if is_old_tolerance (lookup "url_test_tolerance" saved)
      then put "url_test_tolerance" (number 30) global_config
      else global_config in
    if without_target saved
    then put "is_desktop" (boolean false)
        (put "generation_profile" (text "openclash-router") migrated)
    else migrated

unfoldable pub apply_v2_global_defaults : Dict Value → Dict Value → Dict Value
unfolding put update migrate_global_defaults
apply_v2_global_defaults global_config saved =
    put "optional_globals_v2" (boolean true)
      (migrate_global_defaults (update global_config saved) saved)

has_key-lookup :
    (k : String) (d : Dict Value) (v : Value) → lookup k d ≡ some v → has_key k d ≡ true
unfolding lookup has_key
has_key-lookup k [] v h = cc
has_key-lookup k ((j, w) ∷ d) v h = ground (arith, has_key-lookup k d v)

eq_false : (a b : String) → a ≢ b → a == b ≡ false
eq_false a b h = ground (arith, eq_iff a b, h)

target_apart :
    (saved : Dict Value) (j k : String)
    → has_key k saved ≡ true
    → (has_key j saved ≡ true → without_target saved ≡ false)
    → (without_target saved && j == k) ≡ false
target_apart saved j k h f = elim (Bool-cases (j == k)) [
  | inl e ↦ rw (f (rw ((eq_iff j k).0 e) h)) refl
  | inr e ↦ rw e (ground arith)
]

-- An account that has a key of the target is not migrated under it.
saved_target :
    (saved : Dict Value) (k : String) (v : Value)
    → lookup k saved ≡ some v
    → ((without_target saved && "is_desktop" == k) ≡ false)
      × ((without_target saved && "generation_profile" == k) ≡ false)
unfolding without_target
saved_target saved k v h = (
  target_apart saved "is_desktop" k (has_key-lookup k saved v h) (λ e. ground arith),
  target_apart saved "generation_profile" k (has_key-lookup k saved v h) (λ e. ground arith),
)

lookup-migrate_global_defaults :
    (k : String) (global_config saved : Dict Value)
    → lookup k (migrate_global_defaults global_config saved) ≡ (
        if without_target saved && "is_desktop" == k
        then some (boolean false)
        else if without_target saved && "generation_profile" == k
        then some (text "openclash-router")
        else if is_old_tolerance (lookup "url_test_tolerance" saved) && "url_test_tolerance" == k
        then some (number 30)
        else lookup k global_config)
unfolding migrate_global_defaults
lookup-migrate_global_defaults k global_config saved = elim (Bool-cases (without_target saved)) [
  | inl e ↦ elim (Bool-cases (is_old_tolerance (lookup "url_test_tolerance" saved))) [
    | inl e' ↦
        rw
          (
            e,
            e',
            lookup-put "is_desktop" k,
            lookup-put "generation_profile" k,
            lookup-put "url_test_tolerance" k,
          )
          refl
    | inr e' ↦ rw (e, e', lookup-put "is_desktop" k, lookup-put "generation_profile" k) refl
  ]
  | inr e ↦ elim (Bool-cases (is_old_tolerance (lookup "url_test_tolerance" saved))) [
    | inl e' ↦ rw (e, e', lookup-put "url_test_tolerance" k) refl
    | inr e' ↦ rw (e, e') refl
  ]
]

-- What an account saved is kept under every key: only an url_test_tolerance of None or 50, and the
-- key optional_globals_v2, are set anew.
pub apply_v2_global_defaults_keeps :
    (global_config saved : Dict Value) (k : String) (v : Value)
    → NodupKeys saved
    → lookup k saved ≡ some v
    → k ≢ "optional_globals_v2"
    → (k ≡ "url_test_tolerance" → is_old_tolerance (some v) ≡ false)
    → lookup k (apply_v2_global_defaults global_config saved) ≡ some v
unfolding apply_v2_global_defaults
apply_v2_global_defaults_keeps global_config saved k v nodup h other young =
    rw
      (
        lookup-put "optional_globals_v2" k,
        lookup-migrate_global_defaults k (update global_config saved) saved,
        lookup-update k global_config saved nodup,
        h,
      )
      (rw
        (
          (saved_target saved k v h).0,
          (saved_target saved k v h).1,
          eq_false "optional_globals_v2" k (λ e. other (sym e)),
          tolerance,
        )
        refl)
  where
    tolerance :
        (is_old_tolerance (lookup "url_test_tolerance" saved) && "url_test_tolerance" == k) ≡ false
    tolerance = elim (Bool-cases ("url_test_tolerance" == k)) [
      | inl e ↦
          let is : "url_test_tolerance" ≡ k = (eq_iff "url_test_tolerance" k).0 e in
          rw (is, h, young (sym is)) refl
      | inr e ↦ rw e (ground arith)
    ]
