-- ===== src/RateLimit/Bounds.antt =====
-- What the limiter's table can hold, and how many attempts a client can make in a window.
use clash_config_gen.Prelude.{
  ℕ, suc, ◌≤◌, ◌<◌, String, ◌≡◌, refl, inl, inr, true, false, List, [], ◌∷◌, ◌++◌, arith, ◌==◌,
  eq_refl, leb, if◌then◌else◌, leb→le, Bool-cases, length, length-append, All, All-append,
}
use clash_config_gen.RateLimit.OrderedDict.{
  Table, has_key, get_or_nil, put, without, move_to_end, length-evict, All-evict, All-without,
  All-put,
}
use clash_config_gen.RateLimit.{expire, client_key, max_keys, touch, register_rate_limited}

length-expire : (window now : ℕ) (ts : List ℕ) → length (expire window now ts) ≤ length ts
unfolding expire
length-expire window now [] = omega arith
length-expire window now (t ∷ ts) = ground (arith, length-expire window now ts)

length-put :
    (k : String) (v : List ℕ) (t : Table)
    → length (put k v t) ≡ (if has_key k t then length t else suc (length t))
unfolding put has_key
length-put k v [] = refl
length-put k v ((j, w) ∷ t) = ground (arith, length-put k v t)

length-without :
    (k : String) (t : Table) → has_key k t ≡ true → suc (length (without k t)) ≡ length t
unfolding without has_key
length-without k [] h = cc
length-without k ((j, w) ∷ t) h = ground (arith, length-without k t)

has_key-put : (k : String) (v : List ℕ) (t : Table) → has_key k (put k v t) ≡ true
unfolding put has_key
has_key-put k v [] = rw eq_refl
has_key-put k v ((j, w) ∷ t) = ground (arith, has_key-put k v t)

has_key-append : (k : String) (v : List ℕ) (t : Table) → has_key k (t ++ (k, v) ∷ []) ≡ true
unfolding has_key
has_key-append k v [] = rw eq_refl
has_key-append k v ((j, w) ∷ t) = ground (arith, has_key-append k v t)

get_or_nil_fresh :
    (k : String) (t : Table)
    → has_key k t ≡ false
    → get_or_nil k (without k (put k [] t) ++ (k, get_or_nil k (put k [] t)) ∷ []) ≡ []
unfolding has_key get_or_nil put without
get_or_nil_fresh k [] h = ground (arith, eq_refl k)
get_or_nil_fresh k ((j, w) ∷ t) h = ground (arith, get_or_nil_fresh k t)

get_or_nil_keeps :
    (P : List ℕ → Type 0) (k : String) (t : Table) → P [] → All (λ e. P e.1) t → P (get_or_nil k t)
unfolding get_or_nil
get_or_nil_keeps P k [] z h = z
get_or_nil_keeps P k ((j, w) ∷ t) z h = elim (Bool-cases (j == k)) [
  | inl e ↦ rw e h.0
  | inr e ↦ rw e (get_or_nil_keeps P k t z h.1)
]

-- The table never has more clients than its cap, nor a client more attempts than the limit.
pub record IsBounded (limit : ℕ) (t : Table) : Type 0 where
  pub clients : length t ≤ max_keys
  pub attempts : All (λ e. length e.1 ≤ limit) t

length-touch :
    (k : String) (t : Table)
    → length (touch k t) ≡ (if has_key k t then length t else suc (length t))
unfolding touch move_to_end
length-touch k t = elim (Bool-cases (has_key k t)) [
  | inl e ↦
      rw e (
        omega (arith, length-append (without k t) ((k, get_or_nil k t) ∷ []), length-without k t e))
  | inr e ↦ rw e (
      ground (
        arith,
        length-append (without k (put k [] t)) ((k, get_or_nil k (put k [] t)) ∷ []),
        length-without k (put k [] t) (has_key-put k [] t),
        length-put k [] t,
      ))
]

touch_All :
    (P : List ℕ → Type 0) (k : String) (t : Table)
    → P []
    → All (λ e. P e.1) t
    → All (λ e. P e.1) (touch k t)
unfolding touch move_to_end
touch_All P k t z h =
    All-append Q (without k added) _ (All-without Q k added kept)
      (get_or_nil_keeps P k added z kept, tt)
  where
    Q : String × List ℕ → Type 0
    Q e = P e.1

    added : Table
    added = if has_key k t then t else put k [] t

    kept : All Q added
    kept = elim (Bool-cases (has_key k t)) [ inl e ↦ rw e h | inr e ↦ rw e (All-put Q k [] t z h) ]

has_key-touch : (k : String) (t : Table) → has_key k (touch k t) ≡ true
unfolding touch move_to_end
has_key-touch k t = has_key-append k _ _

get_or_nil-touch_fresh :
    (k : String) (t : Table) → has_key k t ≡ false → get_or_nil k (touch k t) ≡ []
unfolding touch move_to_end
get_or_nil-touch_fresh k t h = rw h (get_or_nil_fresh k t h)

length-blocked :
    (limit window now : ℕ) (k : String) (t : Table)
    → 0 < limit
    → leb limit (length (expire window now (get_or_nil k (touch k t)))) ≡ true
    → length (put k (expire window now (get_or_nil k (touch k t))) (touch k t)) ≡ length t
unfolding expire
length-blocked limit window now k t pos e = elim (Bool-cases (has_key k t)) [
  | inl old ↦ ground (
    arith,
    length-put k (expire window now (get_or_nil k (touch k t))) (touch k t),
    has_key-touch k t,
    length-touch k t,
  )
  | inr new ↦
      let none_left : length (expire window now (get_or_nil k (touch k t))) ≡ 0 =
        rw (get_or_nil-touch_fresh k t new) in
      absurd (omega (arith, leb→le _ _ e))
]

-- A call keeps the table within its bounds, whatever it answers: at most `max_keys` clients, and at
-- most `limit` attempts for each of them. The limit must be positive, as `_positive_int_env` makes it.
pub register_rate_limited-IsBounded :
    (limit window now : ℕ) (client_ip : String) (t : Table)
    → 0 < limit
    → IsBounded limit t
    → IsBounded limit (register_rate_limited limit window client_ip now t).1
unfolding register_rate_limited
register_rate_limited-IsBounded limit window now client_ip t pos b =
    elim (Bool-cases (leb limit (length attempts))) [
      | inl blocked ↦ rw blocked (record {
        clients = omega (arith, length-blocked limit window now key t pos blocked, b.clients);
        attempts = All-put Fits key attempts touched short all;
      })
      | inr accepted ↦ rw accepted (record {
        clients = length-evict max_keys _;
        attempts = All-evict Fits max_keys _ (All-put Fits key _ touched (room accepted) all);
      })
    ]
  where
    key : String
    key = client_key client_ip

    touched : Table
    touched = touch key t

    attempts : List ℕ
    attempts = expire window now (get_or_nil key touched)

    Fits : String × List ℕ → Type 0
    Fits e = length e.1 ≤ limit

    all : All Fits touched
    all = touch_All (λ d. length d ≤ limit) key t (omega arith) b.attempts

    short : length attempts ≤ limit
    short = omega (
      arith,
      length-expire window now (get_or_nil key touched),
      get_or_nil_keeps (λ d. length d ≤ limit) key touched (omega arith) all,
    )

    room : leb limit (length attempts) ≡ false → length (attempts ++ now ∷ []) ≤ limit
    room e = ground (arith, length-append attempts (now ∷ []))
