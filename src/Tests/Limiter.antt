-- ===== src/Tests/Limiter.antt =====
-- The registration limiter on a few attempts.
use clash_config_gen.Prelude.{ℕ, String, ◌≡◌, refl, true, false, List, [], ◌∷◌, arith}
use clash_config_gen.Prelude.Dict.{contains}
use clash_config_gen.RateLimit.{expire, touch, register_rate_limited}
use clash_config_gen.RateLimit.OrderedDict.{Table, has_key, get_or_nil, put, move_to_end, evict}
use clash_config_gen.RateLimit.Reference.{answers, reference_answers, answers-register_rate_limited}
use clash_config_gen.RateLimit.Bounds.{IsBounded, register_rate_limited-IsBounded}

abbrev requests : List (String × ℕ)
requests = ("1.2.3.4", 10) ∷ ("", 11) ∷ ("1.2.3.4", 12) ∷ ("1.2.3.4", 13) ∷ ("1.2.3.4", 75) ∷ []

abbrev clients : List String
clients = "1.2.3.4" ∷ "unknown" ∷ []

answers_run : answers 2 60 requests [] ≡ false ∷ false ∷ false ∷ true ∷ false ∷ []
unfolding answers expire touch has_key get_or_nil put move_to_end evict
answers_run = refl

answers-register_rate_limited_example :
    answers 2 60 requests [] ≡ reference_answers 2 60 [] requests
unfolding contains
answers-register_rate_limited_example =
    answers-register_rate_limited 60 2 0 clients requests (omega arith)
      (refl, (refl, (refl, (refl, (refl, tt)))))
      (omega arith, (omega arith, (omega arith, (omega arith, (omega arith, tt)))))

abbrev one_client : Table
one_client = ("1.2.3.4", 10 ∷ 12 ∷ []) ∷ []

register_rate_limited-IsBounded_example :
    IsBounded 2 (register_rate_limited 2 60 "1.2.3.4" 13 one_client).1
register_rate_limited-IsBounded_example =
    register_rate_limited-IsBounded 2 60 13 "1.2.3.4" one_client (omega arith)
      (record { clients = omega arith; attempts = (omega arith, tt) })
