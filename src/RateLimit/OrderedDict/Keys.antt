-- ===== src/RateLimit/OrderedDict/Keys.antt =====
-- The keys of an OrderedDict, what is found under them after an operation, and how many there can be.
use clash_config_gen.Prelude.{
  ℕ, suc, ◌≤◌, String, ◌≡◌, refl, sym, ◌∙◌, inl, inr, true, false, List, [], ◌∷◌, ◌++◌, arith, ◌==◌,
  eq_iff, eq_refl, if◌then◌else◌, Bool-cases, length, All,
}
use clash_config_gen.Prelude.Dict.{contains}
use clash_config_gen.RateLimit.OrderedDict.{
  Table, has_key, get_or_nil, put, without, move_to_end, evict,
}

abbrev pub HasDistinctKeys : Table → Type 0
HasDistinctKeys [] = Unit {0}
HasDistinctKeys ((k, _) ∷ t) = (has_key k t ≡ false) × HasDistinctKeys t

same_apart : (i k j : String) → (i == k) ≡ true → (k == j) ≡ false → (i == j) ≡ false
same_apart i k j e apart = let same : k ≡ i = sym ((eq_iff i k).0 e) in rw same at apart

apart_sym : (i k : String) → (i == k) ≡ false → (k == i) ≡ false
apart_sym i k e = elim (Bool-cases (k == i)) [
  | inl q ↦
      let c : false ≡ true = sym e ∙ (eq_iff i k).1 (sym ((eq_iff k i).0 q)) in
      absurd (ground (arith, c))
  | inr q ↦ q
]

pub get_or_nil-put :
    (k j : String) (v : List ℕ) (t : Table)
    → get_or_nil j (put k v t) ≡ (if k == j then v else get_or_nil j t)
unfolding get_or_nil put
get_or_nil-put k j v [] = refl
get_or_nil-put k j v ((i, w) ∷ t) = elim (Bool-cases (i == k)) [
  | inl e ↦ let same : i ≡ k = (eq_iff i k).0 e in rw e (rw same (ground arith))
  | inr e ↦ elim (Bool-cases (i == j)) [
    | inl q ↦
        let is : i ≡ j = (eq_iff i j).0 q in
        let apart : (k == j) ≡ false = apart_sym j k (rw is at e) in
        rw (e, get_or_nil, q, apart) refl
    | inr q ↦ rw (e, get_or_nil, q) (get_or_nil-put k j v t)
  ]
]

has_key-put_absent :
    (k j : String) (v : List ℕ) (t : Table)
    → (k == j) ≡ false
    → has_key j t ≡ false
    → has_key j (put k v t) ≡ false
unfolding has_key put
has_key-put_absent k j v [] apart h = rw apart refl
has_key-put_absent k j v ((i, w) ∷ t) apart h = ground (arith, has_key-put_absent k j v t apart)

pub put-HasDistinctKeys :
    (k : String) (v : List ℕ) (t : Table) → HasDistinctKeys t → HasDistinctKeys (put k v t)
unfolding put
put-HasDistinctKeys k v [] h = unfold has_key in (refl, tt)
put-HasDistinctKeys k v ((i, w) ∷ t) h = elim (Bool-cases (i == k)) [
  | inl e ↦ rw e h
  | inr e ↦ rw e (has_key-put_absent k i v t (apart_sym i k e) h.0, put-HasDistinctKeys k v t h.1)
]

has_key-without_absent :
    (k j : String) (t : Table) → has_key j t ≡ false → has_key j (without k t) ≡ false
unfolding has_key without
has_key-without_absent k j [] h = refl
has_key-without_absent k j ((i, w) ∷ t) h = ground (arith, h, has_key-without_absent k j t)

has_key-without : (k : String) (t : Table) → HasDistinctKeys t → has_key k (without k t) ≡ false
unfolding has_key without
has_key-without k [] h = refl
has_key-without k ((i, w) ∷ t) h = elim (Bool-cases (i == k)) [
  | inl e ↦ let same : i ≡ k = (eq_iff i k).0 e in rw e (rw same at h.0)
  | inr e ↦ rw (e, has_key, e) (has_key-without k t h.1)
]

without-HasDistinctKeys :
    (k : String) (t : Table) → HasDistinctKeys t → HasDistinctKeys (without k t)
unfolding without
without-HasDistinctKeys k [] h = tt
without-HasDistinctKeys k ((i, w) ∷ t) h = elim (Bool-cases (i == k)) [
  | inl e ↦ rw e h.1
  | inr e ↦ rw e (has_key-without_absent k i t h.0, without-HasDistinctKeys k t h.1)
]

has_key-append_absent :
    (j k : String) (v : List ℕ) (t : Table)
    → has_key j t ≡ false
    → (k == j) ≡ false
    → has_key j (t ++ (k, v) ∷ []) ≡ false
unfolding has_key
has_key-append_absent j k v [] h apart = rw apart refl
has_key-append_absent j k v ((i, w) ∷ t) h apart = ground (arith, h, has_key-append_absent j k v t)

append-HasDistinctKeys :
    (k : String) (v : List ℕ) (t : Table)
    → HasDistinctKeys t
    → has_key k t ≡ false
    → HasDistinctKeys (t ++ (k, v) ∷ [])
unfolding has_key
append-HasDistinctKeys k v [] d h = (refl, tt)
append-HasDistinctKeys k v ((i, w) ∷ t) d h = elim (Bool-cases (i == k)) [
  | inl e ↦ let c : true ≡ false = sym (rw e refl) ∙ h in absurd (ground (arith, c))
  | inr e ↦ (
    has_key-append_absent i k v t d.0 (apart_sym i k e),
    append-HasDistinctKeys k v t d.1 (sym (rw e refl) ∙ h),
  )
]

get_or_nil-append_absent :
    (k : String) (v : List ℕ) (t : Table)
    → has_key k t ≡ false
    → get_or_nil k (t ++ (k, v) ∷ []) ≡ v
unfolding has_key get_or_nil
get_or_nil-append_absent k v [] h = rw (eq_refl k) refl
get_or_nil-append_absent k v ((i, w) ∷ t) h = ground (arith, h, get_or_nil-append_absent k v t)

get_or_nil-append_apart :
    (k j : String) (v : List ℕ) (t : Table)
    → (k == j) ≡ false
    → get_or_nil j (t ++ (k, v) ∷ []) ≡ get_or_nil j t
unfolding get_or_nil
get_or_nil-append_apart k j v [] apart = rw apart refl
get_or_nil-append_apart k j v ((i, w) ∷ t) apart =
    ground (arith, get_or_nil-append_apart k j v t apart)

get_or_nil-move_apart :
    (k j : String) (v : List ℕ) (t : Table)
    → (k == j) ≡ false
    → get_or_nil j (without k t ++ (k, v) ∷ []) ≡ get_or_nil j t
unfolding get_or_nil without
get_or_nil-move_apart k j v [] apart = rw apart refl
get_or_nil-move_apart k j v ((i, w) ∷ t) apart = elim (Bool-cases (i == k)) [
  | inl e ↦ rw (e, same_apart i k j e apart) (get_or_nil-append_apart k j v t apart)
  | inr e ↦ elim (Bool-cases (i == j)) [
    | inl q ↦ rw (e, get_or_nil, q) refl
    | inr q ↦ rw (e, get_or_nil, q) (get_or_nil-move_apart k j v t apart)
  ]
]

pub get_or_nil-move_to_end :
    (k j : String) (t : Table) → HasDistinctKeys t → get_or_nil j (move_to_end k t) ≡ get_or_nil j t
unfolding move_to_end
get_or_nil-move_to_end k j t d = elim (Bool-cases (k == j)) [
  | inl e ↦
      rw (← (eq_iff k j).0 e)
        (get_or_nil-append_absent k (get_or_nil k t) (without k t) (has_key-without k t d))
  | inr e ↦ get_or_nil-move_apart k j (get_or_nil k t) t e
]

pub move_to_end-HasDistinctKeys :
    (k : String) (t : Table) → HasDistinctKeys t → HasDistinctKeys (move_to_end k t)
unfolding move_to_end
move_to_end-HasDistinctKeys k t d =
    append-HasDistinctKeys k (get_or_nil k t) (without k t) (without-HasDistinctKeys k t d)
      (has_key-without k t d)

pub evict-within : (cap : ℕ) (t : Table) → length t ≤ cap → evict cap t ≡ t
unfolding evict
evict-within cap [] h = refl
evict-within cap (e ∷ t) h = ground (arith, h)

pub get_or_nil-absent : (k : String) (t : Table) → has_key k t ≡ false → get_or_nil k t ≡ []
unfolding has_key get_or_nil
get_or_nil-absent k [] h = refl
get_or_nil-absent k ((i, w) ∷ t) h = ground (arith, h, get_or_nil-absent k t)

-- A list of names without one of them.
removed : String → List String → List String
removed k [] = []
removed k (name ∷ names) = if name == k then names else name ∷ removed k names

length-removed :
    (k : String) (names : List String)
    → contains names k ≡ true
    → suc (length (removed k names)) ≡ length names
unfolding removed contains
length-removed k [] h = cc
length-removed k (name ∷ names) h = ground (arith, h, length-removed k names)

contains-removed :
    (k j : String) (names : List String)
    → (k == j) ≡ false
    → contains names j ≡ true
    → contains (removed k names) j ≡ true
unfolding removed contains
contains-removed k j [] apart h = h
contains-removed k j (name ∷ names) apart h = elim (Bool-cases (name == k)) [
  | inl e ↦ rw e (sym (rw (same_apart name k j e apart) refl) ∙ h)
  | inr e ↦ elim (Bool-cases (name == j)) [
    | inl q ↦ rw (e, contains, q) refl
    | inr q ↦
        rw (e, contains, q) (contains-removed k j names apart (sym (rw (contains, q) refl) ∙ h))
  ]
]

contains-removed_all :
    (k : String) (names : List String) (t : Table)
    → has_key k t ≡ false
    → All (λ e. contains names e.0 ≡ true) t
    → All (λ e. contains (removed k names) e.0 ≡ true) t
unfolding has_key
contains-removed_all k names [] h known = tt
contains-removed_all k names ((j, v) ∷ t) h known = elim (Bool-cases (j == k)) [
  | inl e ↦ let c : true ≡ false = sym (rw e refl) ∙ h in absurd (ground (arith, c))
  | inr e ↦ (
    contains-removed k j names (apart_sym j k e) known.0,
    contains-removed_all k names t (sym (rw e refl) ∙ h) known.1,
  )
]

-- A table with distinct keys out of a list has no more of them than the list.
pub length-HasDistinctKeys :
    (names : List String) (t : Table)
    → HasDistinctKeys t
    → All (λ e. contains names e.0 ≡ true) t
    → length t ≤ length names
length-HasDistinctKeys names [] d known = omega arith
length-HasDistinctKeys names ((k, v) ∷ t) d known = omega (
  arith,
  length-HasDistinctKeys (removed k names) t d.1 (contains-removed_all k names t d.0 known.1),
  length-removed k names known.0,
)
