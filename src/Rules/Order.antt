-- ===== src/Rules/Order.antt =====
-- `priority_ordered_items` of src/config_builder.py: a generator, here the list of what it yields.
use clash_config_gen.Prelude.{
  String, ◌≡◌, refl, inl, inr, Bool, false, not, ◌&&◌, ◌||◌, none, some, List, [], ◌∷◌, ◌++◌, arith,
  ◌==◌, eq_iff, if◌then◌else◌, Bool-cases, filter, filter-append,
}
use mathlib.Core.List.{append-nil}
use clash_config_gen.Prelude.Dict.{Dict, contains, lookup, has_key, NodupKeys}

-- No text occurs twice.
abbrev pub Distinct : List String → Type 0
Distinct [] = Unit {0}
Distinct (name ∷ names) = (contains names name ≡ false) × Distinct names

module _ {ℓ} {V : Type ℓ} where
  unfoldable pub item : String → Dict V → List (String × V)
  item name mapping = elim (lookup name mapping) [ none ↦ [] | some v ↦ (name, v) ∷ [] ]

  -- The first loop: the names given priority that the mapping has.
  unfoldable pub priority_phase :
      Dict V → List String → List String → List (String × V) × List String
  priority_phase mapping [] seen = ([], seen)
  priority_phase mapping (name ∷ names) seen =
      let (rest, seen') =
        priority_phase mapping names (if has_key name mapping then name ∷ seen else seen) in
      (item name mapping ++ rest, seen')

  -- The second loop, over the mapping.
  unfoldable pub ordinary_phase :
      List String → Dict V → List String → List (String × V) × List String
  ordinary_phase deferred [] seen = ([], seen)
  ordinary_phase deferred ((name, value) ∷ mapping) seen =
      let taken = not (contains seen name) && not (contains deferred name) in
      let (rest, seen') = ordinary_phase deferred mapping (if taken then name ∷ seen else seen) in
      (if taken then (name, value) ∷ rest else rest, seen')

  -- The third loop: the deferred names that were not yielded yet.
  unfoldable pub deferred_phase : Dict V → List String → List String → List (String × V)
  deferred_phase mapping [] seen = []
  deferred_phase mapping (name ∷ names) seen =
      let taken = has_key name mapping && not (contains seen name) in
      let rest = deferred_phase mapping names (if taken then name ∷ seen else seen) in
      if taken then item name mapping ++ rest else rest

  unfoldable pub priority_ordered_items : Dict V → List String → List String → List (String × V)
  unfolding priority_phase ordinary_phase deferred_phase item lookup has_key contains
  priority_ordered_items mapping priority deferred =
      let (first, seen) = priority_phase mapping priority [] in
      let (middle, seen') = ordinary_phase deferred mapping seen in
      first ++ (middle ++ deferred_phase mapping deferred seen')

  abbrev pub of_name : String → String × V → Bool
  of_name k (name, _) = name == k

  filter-item :
      (k name : String) (mapping : Dict V)
      → filter (of_name k) (item name mapping) ≡ (if name == k then item k mapping else [])
  unfolding item
  filter-item k name mapping = ground (arith, eq_iff name k)

  filter-absent :
      (k : String) (mapping : Dict V) → has_key k mapping ≡ false → filter (of_name k) mapping ≡ []
  unfolding has_key
  filter-absent k [] h = refl
  filter-absent k ((j, v) ∷ mapping) h = ground (arith, filter-absent k mapping)

  pub filter-mapping :
      (k : String) (mapping : Dict V)
      → NodupKeys mapping
      → filter (of_name k) mapping ≡ item k mapping
  unfolding item lookup has_key
  filter-mapping k [] h = refl
  filter-mapping k ((j, v) ∷ mapping) h =
      ground (arith, eq_iff j k, filter-absent k mapping, filter-mapping k mapping h.1)

  item-absent : (k : String) (mapping : Dict V) → has_key k mapping ≡ false → item k mapping ≡ []
  unfolding item lookup has_key
  item-absent k [] h = refl
  item-absent k ((j, v) ∷ mapping) h = ground (arith, item-absent k mapping)

  filter-priority_phase :
      (k : String) (mapping : Dict V) (names seen : List String)
      → Distinct names
      → filter (of_name k) (priority_phase mapping names seen).0
        ≡ (if contains names k then item k mapping else [])
  unfolding priority_phase contains
  filter-priority_phase k mapping [] seen h = refl
  filter-priority_phase k mapping (name ∷ names) seen h =
      rw (filter-append (of_name k) (item name mapping), filter-item k name mapping)
        (ground (
          arith,
          eq_iff name k,
          append-nil (item k mapping),
          filter-priority_phase k mapping names (if has_key name mapping then name ∷ seen else seen)
              h.1,
        ))

  seen-priority_phase :
      (k : String) (mapping : Dict V) (names seen : List String)
      → contains (priority_phase mapping names seen).1 k
        ≡ (contains seen k || (contains names k && has_key k mapping))
  unfolding priority_phase contains
  seen-priority_phase k mapping [] seen = ground arith
  seen-priority_phase k mapping (name ∷ names) seen = ground (
    arith,
    eq_iff name k,
    seen-priority_phase k mapping names (name ∷ seen),
    seen-priority_phase k mapping names seen,
  )

  filter-ordinary_phase :
      (k : String) (deferred : List String) (mapping : Dict V) (seen : List String)
      → NodupKeys mapping
      → filter (of_name k) (ordinary_phase deferred mapping seen).0
        ≡ (if contains seen k || contains deferred k then [] else filter (of_name k) mapping)
  unfolding ordinary_phase contains has_key
  filter-ordinary_phase k deferred [] seen h = ground arith
  filter-ordinary_phase k deferred ((name, value) ∷ mapping) seen h = ground (
    arith,
    eq_iff name k,
    filter-absent k mapping,
    filter-ordinary_phase k deferred mapping (name ∷ seen) h.1,
    filter-ordinary_phase k deferred mapping seen h.1,
  )

  seen-ordinary_phase :
      (k : String) (deferred : List String) (mapping : Dict V) (seen : List String)
      → contains (ordinary_phase deferred mapping seen).1 k
        ≡ (contains seen k || (has_key k mapping && not (contains deferred k)))
  unfolding ordinary_phase contains has_key
  seen-ordinary_phase k deferred [] seen = ground arith
  seen-ordinary_phase k deferred ((name, value) ∷ mapping) seen = ground (
    arith,
    eq_iff name k,
    seen-ordinary_phase k deferred mapping (name ∷ seen),
    seen-ordinary_phase k deferred mapping seen,
  )

  filter-deferred_phase :
      (k : String) (mapping : Dict V) (names seen : List String)
      → filter (of_name k) (deferred_phase mapping names seen)
        ≡ (if contains names k && not (contains seen k) then item k mapping else [])
  unfolding deferred_phase contains
  filter-deferred_phase k mapping [] seen = refl
  filter-deferred_phase k mapping (name ∷ names) seen =
      elim (Bool-cases (has_key name mapping && not (contains seen name))) [
        | inl e ↦
            rw (e, filter-append (of_name k) (item name mapping), filter-item k name mapping)
              (ground (
                arith,
                eq_iff name k,
                append-nil (item k mapping),
                filter-deferred_phase k mapping names (name ∷ seen),
              ))
        | inr e ↦ rw e (
            ground (
              arith,
              eq_iff name k,
              item-absent k mapping,
              filter-deferred_phase k mapping names seen,
            ))
      ]

  -- Every entry of the mapping is yielded exactly once: of each key the items are those of the
  -- mapping, if the mapping's keys and the priority names are distinct.
  pub filter-priority_ordered_items :
      (k : String) (mapping : Dict V) (priority deferred : List String)
      → NodupKeys mapping
      → Distinct priority
      → filter (of_name k) (priority_ordered_items mapping priority deferred)
        ≡ filter (of_name k) mapping
  unfolding priority_ordered_items
  filter-priority_ordered_items k mapping priority deferred nodup distinct =
      let first : List (String × V) × List String = priority_phase mapping priority [] in
      let middle : List (String × V) × List String = ordinary_phase deferred mapping first.1 in
      rw
        (
          filter-append (of_name k) first.0 (middle.0 ++ deferred_phase mapping deferred middle.1),
          filter-append (of_name k) middle.0 (deferred_phase mapping deferred middle.1),
          filter-priority_phase k mapping priority [] distinct,
          filter-ordinary_phase k deferred mapping first.1 nodup,
          filter-deferred_phase k mapping deferred middle.1,
          seen-ordinary_phase k deferred mapping first.1,
          seen-priority_phase k mapping priority [],
          filter-mapping k mapping nodup,
        )
        (ground (arith, item-absent k mapping, append-nil (item k mapping)))
