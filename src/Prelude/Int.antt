-- ===== src/Prelude/Int.antt =====
-- Signed integers over the native numbers, and Python's `int(text)`.
use Prim.Native.Nat.{ℕ, zero, suc, ◌+◌, ◌-◌, ◌*◌, ◌/◌, ◌%◌}
use Prim.Native.Char.{code}
use Prim.Native.String.{String, [], ◌∷◌}
use mathlib.Core.Path.{◌≡◌, refl}
use mathlib.Core.Bool.{Bool, true, false, ◌&&◌}
use mathlib.Core.Option
use mathlib.Core.Option.{Option, none, some}
use clash_config_gen.Prelude.Tests.{ltb, eqb, if◌then◌else◌}
use clash_config_gen.Prelude.Text.{◌<>◌, nth, strip, is_digit}

-- `negsuc n` is -(n + 1).
pub data ℤ : Type 0 where
  pos : ℕ → ℤ
  negsuc : ℕ → ℤ

abbrev pub neg : ℕ → ℤ
neg zero = pos 0
neg (suc n) = negsuc n

-- ASCII digits with single underscores between them; the flag says that a digit stands before.
unfoldable pub digits : Bool → ℕ → String → Option ℕ
unfolding is_digit
digits false n [] = none
digits true n [] = some n
digits seen n (c ∷ s) =
    let next = digits true (n * 10 + (code c - 48)) s in
    let joined = digits false n s in
    if is_digit c then next else if seen && eqb (code c) b'_' then joined else none

unfoldable pub signed : String → Option ℤ
signed [] = none
signed (c ∷ s) =
    if eqb (code c) b'-'
    then Option.map neg (digits false 0 s)
    else if eqb (code c) b'+'
    then Option.map pos (digits false 0 s)
    else Option.map pos (digits false 0 (c ∷ s))

-- `int(text)`; `none` is the ValueError.
unfoldable pub int_of_text : String → Option ℤ
unfolding signed digits strip
int_of_text s = signed (strip s)

abbrev pub decimal_digit : ℕ → String
decimal_digit n = nth "0123456789" n ∷ []

-- `str(n)`: fuel above n is enough, since a number has no more digits than that.
unfoldable pub decimal_digits : ℕ → ℕ → String
unfolding ◌<>◌ nth
decimal_digits zero n = []
decimal_digits (suc fuel) n = elim (ltb n 10) [
  | true ↦ decimal_digit n
  | false ↦ decimal_digits fuel (n / 10) <> decimal_digit (n % 10)
]

unfoldable pub text_of_nat : ℕ → String
unfolding decimal_digits
text_of_nat n = decimal_digits (n + 1) n

unfoldable pub text_of_int : ℤ → String
unfolding text_of_nat
text_of_int (pos n) = text_of_nat n
text_of_int (negsuc n) = "-" <> text_of_nat (n + 1)

int_runs :
    (int_of_text " -1_0\n" ≡ some (negsuc 9))
    × (int_of_text "1__0" ≡ none)
    × (int_of_text "007" ≡ some (pos 7))
unfolding int_of_text
int_runs = (refl, refl, refl)
