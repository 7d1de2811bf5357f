-- ===== src/RateLimit.antt =====
-- The registration limiter of src/auth_service.py: an OrderedDict from client to the deque of its
-- recent attempts. Times are readings of the monotonic clock.
pub mod OrderedDict
pub mod Window
pub mod Reference
pub mod Bounds
use clash_config_gen.Prelude.{
  ℕ, ◌+◌, String, Bool, true, false, Option, none, some, List, [], ◌∷◌, ◌++◌, ◌==◌, leb, length,
  if◌then◌else◌,
}
use OrderedDict.{Table, get_or_nil, has_key, put, move_to_end, evict}

-- `while attempts and now - attempts[0] >= window: attempts.popleft()`
unfoldable pub expire : ℕ → ℕ → List ℕ → List ℕ
expire window now [] = []
expire window now (t ∷ ts) =
    let rest = expire window now ts in if leb (t + window) now then rest else t ∷ ts

-- `client_ip or "unknown"`
unfoldable pub client_key : String → String
client_key client_ip = if client_ip == "" then "unknown" else client_ip

-- `_REGISTER_ATTEMPTS_MAX_KEYS`
abbrev pub max_keys : ℕ
max_keys = 10000

-- `get`, the insertion of an empty deque, and `move_to_end`.
unfoldable pub touch : String → Table → Table
touch key table = move_to_end key (if has_key key table then table else put key [] table)

-- `_register_rate_limited`: the answer and the table after the call.
unfoldable pub register_rate_limited : ℕ → ℕ → String → ℕ → Table → Bool × Table
unfolding client_key
register_rate_limited limit window client_ip now table =
    let key = client_key client_ip in
    let touched = touch key table in
    let attempts = expire window now (get_or_nil key touched) in
    if leb limit (length attempts)
    then (true, put key attempts touched)
    else (false, evict max_keys (put key (attempts ++ now ∷ []) touched))
