-- ===== src/Prelude/Dict.antt =====
-- Python's dict with text keys, in insertion order.
use mathlib.Core.Path.{◌≡◌, refl, sym, ap, ◌∙◌}
use mathlib.Core.Bool.{Bool, true, false, not, ◌&&◌, ◌||◌}
use mathlib.Core.Option.{Option, none, some}
use mathlib.Core.List.{List, [], ◌∷◌}
use Prim.Native.String.{String}
use native.Mathlib.Omega.{arith}
use text.Mathlib.Text.{◌==◌}
use text.Mathlib.TextEquality.{eq_iff}
use clash_config_gen.Prelude.Tests.{if◌then◌else◌, Bool-cases}
use clash_config_gen.Prelude.Lists.{filter, all}
use mathlib.Core.Logic.{inl, inr}

abbrev pub Dict {ℓ} : Type ℓ → Type ℓ
Dict V = List (String × V)

-- `name in names`
unfoldable pub contains : List String → String → Bool
contains [] k = false
contains (j ∷ names) k = if j == k then true else contains names k

module _ {ℓ} {V : Type ℓ} where
  unfoldable pub lookup : String → Dict V → Option V
  lookup k [] = none
  lookup k ((j, v) ∷ d) = if j == k then some v else lookup k d

  unfoldable pub has_key : String → Dict V → Bool
  has_key k [] = false
  has_key k ((j, v) ∷ d) = if j == k then true else has_key k d

  -- `d[k] = v` keeps the place of an entry that is there.
  unfoldable pub put : String → V → Dict V → Dict V
  put k v [] = (k, v) ∷ []
  put k v ((j, w) ∷ d) = if j == k then (j, v) ∷ d else (j, w) ∷ put k v d

  -- `d.pop(k, None)`
  unfoldable pub erase : String → Dict V → Dict V
  erase k [] = []
  erase k ((j, w) ∷ d) = let rest = erase k d in if j == k then rest else (j, w) ∷ rest

  -- `list(d)`
  unfoldable pub keys : Dict V → List String
  keys [] = []
  keys ((j, _) ∷ d) = j ∷ keys d

  abbrev pub NodupKeys : Dict V → Type 0
  NodupKeys [] = Unit {0}
  NodupKeys ((j, _) ∷ d) = (has_key j d ≡ false) × NodupKeys d

  -- The test of `NodupKeys`, for a dict that is written out.
  unfoldable pub has_distinct_keys : Dict V → Bool
  has_distinct_keys [] = true
  has_distinct_keys ((j, _) ∷ d) = not (has_key j d) && has_distinct_keys d

  pub has_distinct_keys-NodupKeys : (d : Dict V) → has_distinct_keys d ≡ true → NodupKeys d
  unfolding has_distinct_keys
  has_distinct_keys-NodupKeys [] h = tt
  has_distinct_keys-NodupKeys ((j, _) ∷ d) h =
      (ground arith, has_distinct_keys-NodupKeys d (ground arith))

  pub lookup-put :
      (k j : String) (v : V) (d : Dict V)
      → lookup j (put k v d) ≡ (if k == j then some v else lookup j d)
  unfolding lookup put
  lookup-put k j v [] = refl
  lookup-put k j v ((i, w) ∷ d) =
      ground (arith, eq_iff k j, eq_iff i k, eq_iff i j, lookup-put k j v d)

  pub lookup-erase :
      (k j : String) (d : Dict V) → lookup j (erase k d) ≡ (if k == j then none else lookup j d)
  unfolding lookup erase
  lookup-erase k j [] = ground arith
  lookup-erase k j ((i, w) ∷ d) =
      ground (arith, eq_iff k j, eq_iff i k, eq_iff i j, lookup-erase k j d)

  pub lookup-put_apart :
      (j k : String) (v : V) (d : Dict V) → (j == k) ≡ false → lookup k (put j v d) ≡ lookup k d
  lookup-put_apart j k v d h = rw (lookup-put j k v d, h) refl

  pub lookup-erase_apart :
      (j k : String) (d : Dict V) → (j == k) ≡ false → lookup k (erase j d) ≡ lookup k d
  lookup-erase_apart j k d h = rw (lookup-erase j k d, h) refl

  pub has_key-put :
      (k j : String) (v : V) (d : Dict V) → has_key j (put k v d) ≡ (k == j || has_key j d)
  unfolding has_key put
  has_key-put k j v [] = ground arith
  has_key-put k j v ((i, w) ∷ d) =
      ground (arith, eq_iff k j, eq_iff i k, eq_iff i j, has_key-put k j v d)

  pub put-NodupKeys : (k : String) (v : V) (d : Dict V) → NodupKeys d → NodupKeys (put k v d)
  unfolding put has_key
  put-NodupKeys k v [] h = (refl, tt)
  put-NodupKeys k v ((j, w) ∷ d) h =
      ground (arith, put-NodupKeys k v d h.1, has_key-put k j v d, eq_iff j k, eq_iff k j)

  -- A test that all values pass.
  pub all-lookup :
      (p : V → Bool) (d : Dict V) (k : String) (v : V)
      → all (λ (e : String × V). p e.1) d ≡ true
      → lookup k d ≡ some v
      → p v ≡ true
  unfolding lookup
  all-lookup p [] k v h e = absurd (ground (arith, e))
  all-lookup p ((j, w) ∷ d) k v h e = elim (Bool-cases (j == k)) [
    | inl q ↦ ground (arith, e, q, h)
    | inr q ↦ all-lookup p d k v (ground (arith, h)) (sym (rw (q, lookup) refl) ∙ e)
  ]

-- A name in a list is another than one that is not in it.
pub contains-apart :
    (names : List String) (j k : String)
    → contains names k ≡ false
    → contains names j ≡ true
    → (j == k) ≡ false
contains-apart names j k h c = elim (Bool-cases (j == k)) [
  | inl e ↦
      let same : true ≡ false = sym c ∙ (ap (contains names) ((eq_iff j k).0 e) ∙ h) in
      absurd (ground (arith, same))
  | inr e ↦ e
]

-- A test that all names of a list pass.
pub all-contains :
    (p : String → Bool) (names : List String) (k : String)
    → all p names ≡ true
    → contains names k ≡ true
    → p k ≡ true
unfolding contains
all-contains p [] k h c = absurd (ground (arith, c))
all-contains p (j ∷ names) k h c = elim (Bool-cases (j == k)) [
  | inl q ↦ rw (← (eq_iff j k).0 q) (ground (arith, h))
  | inr q ↦ all-contains p names k (ground (arith, h)) (ground (arith, c, q))
]

-- No name of a list passes a test that filters it to nothing.
pub filter-contains :
    (p : String → Bool) (names : List String) (k : String)
    → filter p names ≡ []
    → contains names k ≡ true
    → p k ≡ false
unfolding contains
filter-contains p [] k h c = absurd (ground (arith, c))
filter-contains p (j ∷ names) k h c = elim (Bool-cases (p j)) [
  | inl e ↦ absurd (ground (arith, h, e))
  | inr e ↦ elim (Bool-cases (j == k)) [
    | inl q ↦ rw (← (eq_iff j k).0 q) e
    | inr q ↦ filter-contains p names k (ground (arith, h, e)) (ground (arith, c, q))
  ]
]

pub ruleset dict_laws = (lookup-put, lookup-erase, has_key-put)
