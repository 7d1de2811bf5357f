-- ===== src/Prelude/Decimal.antt =====
-- What `str(n)` writes, `int(text)` reads.
use Prim.Native.Nat.{ℕ, zero, suc, ◌+◌, ◌-◌, ◌*◌, ◌/◌, ◌%◌, ◌≤◌, ◌<◌}
use Prim.Native.Char.{Char, code}
use Prim.Native.String.{String, [], ◌∷◌}
use mathlib.Core.Path.{◌≡◌, refl, ap, ◌∙◌}
use mathlib.Core.Logic.{inl, inr}
use mathlib.Core.Bool.{Bool, true, false, ◌&&◌}
use mathlib.Core.Option.{some}
use native.Mathlib.Omega.{arith}
use clash_config_gen.Prelude.Tests.{ltb, eqb, Bool-cases}
use clash_config_gen.Prelude.Text.{
  ◌<>◌, nth, is_space, is_empty, lstrip, rstrip, strip, is_digit, all_chars, decimal_from,
}
use clash_config_gen.Prelude.Int.{
  ℤ, pos, negsuc, neg, digits, signed, decimal_digit, decimal_digits, text_of_nat, text_of_int,
  int_of_text,
}

decimal_from-append :
    (n : ℕ) (s t : String) → decimal_from n (s <> t) ≡ decimal_from (decimal_from n s) t
unfolding decimal_from ◌<>◌
decimal_from-append n [] t = refl
decimal_from-append n (c ∷ s) t = decimal_from-append (n * 10 + (code c - 48)) s t

pub all_chars-append :
    (p : Char → Bool) (s t : String) → all_chars p (s <> t) ≡ (all_chars p s && all_chars p t)
unfolding all_chars ◌<>◌
all_chars-append p [] t = refl
all_chars-append p (c ∷ s) t = ground (arith, all_chars-append p s t)

-- The ten digits.
abbrev below_ten : (ℕ → Bool) → Bool
below_ten p = p 0 && (p 1 && (p 2 && (p 3 && (p 4 && (p 5 && (p 6 && (p 7 && (p 8 && p 9))))))))

below_ten_sound : (p : ℕ → Bool) (n : ℕ) → below_ten p ≡ true → n < 10 → p n ≡ true
below_ten_sound p zero h l = ground (arith, h)
below_ten_sound p (suc zero) h l = ground (arith, h)
below_ten_sound p (suc (suc zero)) h l = ground (arith, h)
below_ten_sound p (suc (suc (suc zero))) h l = ground (arith, h)
below_ten_sound p (suc (suc (suc (suc zero)))) h l = ground (arith, h)
below_ten_sound p (suc (suc (suc (suc (suc zero))))) h l = ground (arith, h)
below_ten_sound p (suc (suc (suc (suc (suc (suc zero)))))) h l = ground (arith, h)
below_ten_sound p (suc (suc (suc (suc (suc (suc (suc zero))))))) h l = ground (arith, h)
below_ten_sound p (suc (suc (suc (suc (suc (suc (suc (suc zero)))))))) h l = ground (arith, h)
below_ten_sound p (suc (suc (suc (suc (suc (suc (suc (suc (suc zero))))))))) h l = ground (arith, h)
below_ten_sound p (suc (suc (suc (suc (suc (suc (suc (suc (suc (suc n)))))))))) h l =
    absurd (omega arith)

digit_table :
    below_ten
      (λ n. all_chars is_digit (decimal_digit n) && eqb (decimal_from 0 (decimal_digit n)) n)
    ≡ true
unfolding all_chars is_digit decimal_from nth
digit_table = refl

digit_char : (n : ℕ) → n < 10 → all_chars is_digit (decimal_digit n) ≡ true
digit_char n l = ground (
  arith,
  below_ten_sound
      (λ n. all_chars is_digit (decimal_digit n) && eqb (decimal_from 0 (decimal_digit n)) n) n
      digit_table,
)

digit_value : (m n : ℕ) → n < 10 → decimal_from m (decimal_digit n) ≡ m * 10 + n
unfolding decimal_from
digit_value m n l =
    let e : (all_chars is_digit (decimal_digit n)
          && eqb (0 * 10 + (code (nth "0123456789" n) - 48)) n)
        ≡ true =
      below_ten_sound
        (λ n. all_chars is_digit (decimal_digit n) && eqb (decimal_from 0 (decimal_digit n)) n) n
        digit_table l in
    ground (arith, e)

-- The digits of a number are digits, and their value is the number.
pub decimal_digits-all_chars : (fuel n : ℕ) → all_chars is_digit (decimal_digits fuel n) ≡ true
unfolding decimal_digits all_chars
decimal_digits-all_chars zero n = refl
decimal_digits-all_chars (suc fuel) n = elim (Bool-cases (ltb n 10)) [
  | inl l ↦ rw (l, decimal_digits) (digit_char n (ground arith))
  | inr m ↦
      rw
        (
          m,
          decimal_digits,
          all_chars-append is_digit (decimal_digits fuel (n / 10)) (decimal_digit (n % 10)),
          decimal_digits-all_chars fuel (n / 10),
        )
        (digit_char (n % 10) (omega arith))
]

decimal_from-decimal_digits : (fuel n : ℕ) → n < fuel → decimal_from 0 (decimal_digits fuel n) ≡ n
unfolding decimal_digits
decimal_from-decimal_digits zero n l = absurd (omega arith)
decimal_from-decimal_digits (suc fuel) n l = elim (Bool-cases (ltb n 10)) [
  | inl s ↦ rw (s, decimal_digits) (digit_value 0 n (ground arith) ∙ omega arith)
  | inr m ↦
      let big : 10 ≤ n = ground arith in
      rw
        (
          m,
          decimal_digits,
          decimal_from-append 0 (decimal_digits fuel (n / 10)) (decimal_digit (n % 10)),
          decimal_from-decimal_digits fuel (n / 10) (omega arith),
          digit_value (n / 10) (n % 10) (omega arith),
        )
        (omega arith)
]

append-is_empty : (s : String) (d : Char) → is_empty (s <> (d ∷ [])) ≡ false
unfolding ◌<>◌
append-is_empty [] d = refl
append-is_empty (c ∷ s) d = refl

decimal_digits-is_empty : (fuel n : ℕ) → n < fuel → is_empty (decimal_digits fuel n) ≡ false
unfolding decimal_digits
decimal_digits-is_empty zero n l = absurd (omega arith)
decimal_digits-is_empty (suc fuel) n l = elim (Bool-cases (ltb n 10)) [
  | inl s ↦ rw (s, decimal_digits) refl
  | inr m ↦
      rw (m, decimal_digits)
        (append-is_empty (decimal_digits fuel (n / 10)) (nth "0123456789" (n % 10)))
]

digit_no_space : (c : Char) → is_digit c ≡ true → is_space c ≡ false
unfolding is_digit is_space
digit_no_space c h = ground (arith, h)

-- A text of digits has no white space at its ends.
rstrip_digits : (s : String) → all_chars is_digit s ≡ true → rstrip is_space s ≡ s
unfolding all_chars rstrip
rstrip_digits [] h = refl
rstrip_digits (c ∷ s) h =
    let d : is_digit c ≡ true = ground (arith, h) in
    rw (digit_no_space c d, rstrip_digits s (ground (arith, h))) refl

lstrip_digits : (s : String) → all_chars is_digit s ≡ true → lstrip is_space s ≡ s
unfolding all_chars lstrip
lstrip_digits [] h = refl
lstrip_digits (c ∷ s) h =
    let d : is_digit c ≡ true = ground (arith, h) in rw (digit_no_space c d) refl

pub strip_digits : (s : String) → all_chars is_digit s ≡ true → strip s ≡ s
unfolding strip
strip_digits s h = rw (lstrip_digits s h) (rstrip_digits s h)

digits_seen :
    (n : ℕ) (s : String) → all_chars is_digit s ≡ true → digits true n s ≡ some (decimal_from n s)
unfolding digits decimal_from all_chars
digits_seen n [] h = refl
digits_seen n (c ∷ s) h =
    let d : is_digit c ≡ true = ground (arith, h) in
    rw d (digits_seen (n * 10 + (code c - 48)) s (ground (arith, h)))

digits_all :
    (s : String)
    → is_empty s ≡ false
    → all_chars is_digit s ≡ true
    → digits false 0 s ≡ some (decimal_from 0 s)
unfolding digits decimal_from all_chars
digits_all [] e h = absurd (ground (arith, e))
digits_all (c ∷ s) e h =
    let d : is_digit c ≡ true = ground (arith, h) in
    rw d (digits_seen (0 * 10 + (code c - 48)) s (ground (arith, h)))

digit_no_minus : (c : Char) → is_digit c ≡ true → eqb (code c) 45 ≡ false
unfolding is_digit
digit_no_minus c h = ground (arith, h)

digit_no_plus : (c : Char) → is_digit c ≡ true → eqb (code c) 43 ≡ false
unfolding is_digit
digit_no_plus c h = ground (arith, h)

signed_digits :
    (s : String)
    → is_empty s ≡ false
    → all_chars is_digit s ≡ true
    → signed s ≡ some (pos (decimal_from 0 s))
unfolding signed all_chars
signed_digits [] e h = absurd (ground (arith, e))
signed_digits (c ∷ s) e h =
    let d : is_digit c ≡ true = ground (arith, h) in
    let m : eqb (code c) 45 ≡ false = digit_no_minus c d in
    let p : eqb (code c) 43 ≡ false = digit_no_plus c d in rw (m, p, digits_all (c ∷ s) refl h) refl

pub text_of_nat-all_chars : (n : ℕ) → all_chars is_digit (text_of_nat n) ≡ true
unfolding text_of_nat
text_of_nat-all_chars n = decimal_digits-all_chars (n + 1) n

pub text_of_nat-is_empty : (n : ℕ) → is_empty (text_of_nat n) ≡ false
unfolding text_of_nat
text_of_nat-is_empty n = decimal_digits-is_empty (n + 1) n (omega arith)

pub decimal_from-text_of_nat : (n : ℕ) → decimal_from 0 (text_of_nat n) ≡ n
unfolding text_of_nat
decimal_from-text_of_nat n = decimal_from-decimal_digits (n + 1) n (omega arith)

suc_path : (n : ℕ) → n + 1 ≡ suc n
suc_path n = omega arith

-- `int(str(z))` is z.
pub int_of_text-text_of_int : (z : ℤ) → int_of_text (text_of_int z) ≡ some z
unfolding int_of_text text_of_int signed
int_of_text-text_of_int (pos n) =
    rw
      (
        strip_digits (text_of_nat n) (text_of_nat-all_chars n),
        signed_digits (text_of_nat n) (text_of_nat-is_empty n) (text_of_nat-all_chars n),
        decimal_from-text_of_nat n,
      )
      refl
int_of_text-text_of_int (negsuc n) =
    rw
      (
        rstrip_digits (text_of_nat (n + 1)) (text_of_nat-all_chars (n + 1)),
        digits_all (text_of_nat (n + 1)) (text_of_nat-is_empty (n + 1))
            (text_of_nat-all_chars (n + 1)),
        decimal_from-text_of_nat (n + 1),
      )
      (ap (λ k. some (neg k)) (suc_path n))
