-- ===== src/RateLimit/OrderedDict.antt =====
-- The operations of an OrderedDict that the limiter uses; the oldest entry comes first.
pub mod Keys
use clash_config_gen.Prelude.{
  ℕ, ◌≤◌, String, Bool, true, false, List, [], ◌∷◌, ◌++◌, ◌==◌, ltb, length, arith, eq_iff,
  if◌then◌else◌, All,
}

abbrev pub Table : Type 0
Table = List (String × List ℕ)

unfoldable pub has_key : String → Table → Bool
has_key k [] = false
has_key k ((j, _) ∷ t) = if j == k then true else has_key k t

unfoldable pub get_or_nil : String → Table → List ℕ
get_or_nil k [] = []
get_or_nil k ((j, v) ∷ t) = if j == k then v else get_or_nil k t

-- `d[k] = v` keeps the place of an entry that is there, and appends a new one.
unfoldable pub put : String → List ℕ → Table → Table
put k v [] = (k, v) ∷ []
put k v ((j, w) ∷ t) = if j == k then (j, v) ∷ t else (j, w) ∷ put k v t

unfoldable pub without : String → Table → Table
without k [] = []
without k ((j, w) ∷ t) = if j == k then t else (j, w) ∷ without k t

unfoldable pub move_to_end : String → Table → Table
unfolding without get_or_nil
move_to_end k t = without k t ++ (k, get_or_nil k t) ∷ []

-- `while len(d) > cap: d.popitem(last=False)`
unfoldable pub evict : ℕ → Table → Table
evict cap [] = []
evict cap (e ∷ t) = let rest = evict cap t in if ltb cap (length (e ∷ t)) then rest else e ∷ t

pub length-evict : (cap : ℕ) (t : Table) → length (evict cap t) ≤ cap
unfolding evict
length-evict cap [] = omega arith
length-evict cap (e ∷ t) = ground (arith, length-evict cap t)

module _ (P : String × List ℕ → Type 0) where
  pub All-evict : (cap : ℕ) (t : Table) → All P t → All P (evict cap t)
  unfolding evict
  All-evict cap [] h = h
  All-evict cap (e ∷ t) h = ground (arith, All-evict cap t h.1)

  pub All-without : (k : String) (t : Table) → All P t → All P (without k t)
  unfolding without
  All-without k [] h = h
  All-without k ((j, w) ∷ t) h = ground (arith, All-without k t h.1)

  pub All-put : (k : String) (v : List ℕ) (t : Table) → P (k, v) → All P t → All P (put k v t)
  unfolding put
  All-put k v [] p h = (p, tt)
  All-put k v ((j, w) ∷ t) p h = ground (arith, All-put k v t p h.1, (eq_iff j k).0)
