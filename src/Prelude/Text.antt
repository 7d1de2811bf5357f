-- ===== src/Prelude/Text.antt =====
-- Python's text methods that the program calls, by recursion on the characters.
use native.Mathlib.Omega.{arith}
use text.Mathlib.TextEquality.{Char-path}
use Prim.Native.Nat.{ℕ, zero, suc, ◌+◌, ◌-◌, ◌*◌}
use Prim.Native.Char.{Char, code, nul}
use Prim.Native.String.{String, [], ◌∷◌}
use mathlib.Core.Path.{◌≡◌, refl, ap, ap₂}
use mathlib.Core.Bool.{Bool, true, false, ◌&&◌, ◌||◌}
use mathlib.Core.Option.{Option, none, some}
use mathlib.Core.List.{List}
use mathlib.Core.Logic.{inl, inr}
use clash_config_gen.Prelude.Tests.{Bool-cases, leb, eqb, if◌then◌else◌}

-- `s + t`, by clauses, so that a literal in front computes.
infixr 65 ◌<>◌
unfoldable pub ◌<>◌ : String → String → String
[] <> t = t
(c ∷ s) <> t = c ∷ (s <> t)

pub append_assoc : (s t u : String) → (s <> t) <> u ≡ s <> (t <> u)
unfolding ◌<>◌
append_assoc [] t u = refl
append_assoc (c ∷ s) t u = ap (λ r. c ∷ r) (append_assoc s t u)

pub append-nil : (s : String) → s <> [] ≡ s
unfolding ◌<>◌
append-nil [] = refl
append-nil (c ∷ s) = ap (λ r. c ∷ r) (append-nil s)

-- The code points that `str.isspace` accepts, which `str.strip` drops.
unfoldable pub is_space : Char → Bool
is_space ch =
    let c = code ch in
    (leb 9 c && leb c 13)
    || (leb 28 c && leb c 32)
    || eqb c 133
    || eqb c 160
    || eqb c 5760
    || (leb 8192 c && leb c 8202)
    || eqb c 8232
    || eqb c 8233
    || eqb c 8239
    || eqb c 8287
    || eqb c 12288

-- `text.lstrip()` and `text.rstrip()`, for the characters of a test.
unfoldable pub lstrip : (Char → Bool) → String → String
lstrip p [] = []
lstrip p (c ∷ s) = if p c then lstrip p s else c ∷ s

abbrev pub is_empty : String → Bool
is_empty [] = true
is_empty (_ ∷ _) = false

unfoldable pub rstrip : (Char → Bool) → String → String
rstrip p [] = []
rstrip p (c ∷ s) = let rest = rstrip p s in if p c && is_empty rest then [] else c ∷ rest

unfoldable pub strip : String → String
unfolding lstrip rstrip is_space
strip s = rstrip is_space (lstrip is_space s)

-- The character of a text at an index.
unfoldable pub nth : String → ℕ → Char
nth [] i = nul
nth (c ∷ s) zero = c
nth (c ∷ s) (suc i) = nth s i

-- `lower()` and `upper()` of one character. Beyond ASCII only the Kelvin sign has an ASCII letter
-- for its lower case; the other characters are left as they are.
unfoldable pub lower_char : Char → Char
unfolding nth
lower_char c =
    if leb 65 (code c) && leb (code c) 90
    then nth "abcdefghijklmnopqrstuvwxyz" (code c - 65)
    else if eqb (code c) 8490
    then nth "k" 0
    else c

unfoldable pub upper_char : Char → Char
unfolding nth
upper_char c =
    if leb 97 (code c) && leb (code c) 122
    then nth "ABCDEFGHIJKLMNOPQRSTUVWXYZ" (code c - 97)
    else c

unfoldable pub lower : String → String
unfolding lower_char
lower [] = []
lower (c ∷ s) = lower_char c ∷ lower s

unfoldable pub upper : String → String
unfolding upper_char
upper [] = []
upper (c ∷ s) = upper_char c ∷ upper s

-- `text.split(sep)` for a separator of one character; the second argument is the part read so far.
unfoldable pub split_from : ℕ → String → String → List String
unfolding ◌<>◌
split_from sep part [] = List.◌∷◌ part List.[]
split_from sep part (c ∷ s) =
    let closed = split_from sep [] s in
    let longer = split_from sep (part <> (c ∷ [])) s in
    if eqb (code c) sep then List.◌∷◌ part closed else longer

unfoldable pub split : ℕ → String → List String
unfolding split_from
split sep s = split_from sep [] s

-- `text.split(sep, n)`: at most `n` splits.
unfoldable pub split_at_most_from : ℕ → ℕ → String → String → List String
unfolding ◌<>◌
split_at_most_from n sep part [] = List.◌∷◌ part List.[]
split_at_most_from zero sep part (c ∷ s) = List.◌∷◌ (part <> (c ∷ s)) List.[]
split_at_most_from (suc n) sep part (c ∷ s) =
    let closed = split_at_most_from n sep [] s in
    let longer = split_at_most_from (suc n) sep (part <> (c ∷ [])) s in
    if eqb (code c) sep then List.◌∷◌ part closed else longer

unfoldable pub split_at_most : ℕ → ℕ → String → List String
unfolding split_at_most_from
split_at_most n sep s = split_at_most_from n sep [] s

-- The separator does not occur in the text.
unfoldable pub lacks : ℕ → String → Bool
lacks sep [] = true
lacks sep (c ∷ s) = if eqb (code c) sep then false else lacks sep s

pub split_at_most_from-append :
    (n sep : ℕ) (part s t : String)
    → lacks sep s ≡ true
    → split_at_most_from (suc n) sep part (s <> t) ≡ split_at_most_from (suc n) sep (part <> s) t
unfolding split_at_most_from lacks ◌<>◌
split_at_most_from-append n sep part [] t h = rw append-nil
split_at_most_from-append n sep part (c ∷ s) t h = elim (Bool-cases (eqb (code c) sep)) [
  | inl e ↦ absurd (ground arith)
  | inr e ↦
      rw (e, ← append_assoc part (c ∷ []) s)
        (split_at_most_from-append n sep (part <> (c ∷ [])) s t (ground arith))
]

pub split_at_most_from-zero :
    (sep : ℕ) (s : String) → split_at_most_from zero sep [] s ≡ List.◌∷◌ s List.[]
unfolding split_at_most_from ◌<>◌
split_at_most_from-zero sep [] = refl
split_at_most_from-zero sep (c ∷ s) = refl

-- A part without the separator, and a text that comes after it.
pub split_at_most-append :
    (n sep : ℕ) (s t : String)
    → lacks sep s ≡ true
    → split_at_most (suc n) sep (s <> t) ≡ split_at_most_from (suc n) sep s t
unfolding split_at_most ◌<>◌
split_at_most-append n sep s t h = split_at_most_from-append n sep [] s t h

-- `text.split(sep, 1)[0]`, and `text.split(sep, 1)[1]` where the separator occurs.
unfoldable pub before : ℕ → String → String
before sep [] = []
before sep (c ∷ s) = if eqb (code c) sep then [] else c ∷ before sep s

unfoldable pub after : ℕ → String → Option String
after sep [] = none
after sep (c ∷ s) = if eqb (code c) sep then some s else after sep s

-- `sub in text`, by a test at each position.
unfoldable pub has_prefix : String → String → Bool
has_prefix [] s = true
has_prefix (c ∷ p) [] = false
has_prefix (c ∷ p) (d ∷ s) = eqb (code c) (code d) && has_prefix p s

unfoldable pub contains_text : String → String → Bool
unfolding has_prefix
contains_text sub [] = is_empty sub
contains_text sub (c ∷ s) = has_prefix sub (c ∷ s) || contains_text sub s

-- `text.startswith("[")`, `text.endswith("]")`
unfoldable pub ends_with_char : ℕ → String → Bool
ends_with_char k [] = false
ends_with_char k (c ∷ s) = if is_empty s then eqb (code c) k else ends_with_char k s

unfoldable pub starts_with_char : ℕ → String → Bool
starts_with_char k [] = false
starts_with_char k (c ∷ s) = eqb (code c) k

unfoldable pub is_digit : Char → Bool
is_digit c = leb 48 (code c) && leb (code c) 57

unfoldable pub all_chars : (Char → Bool) → String → Bool
all_chars p [] = true
all_chars p (c ∷ s) = p c && all_chars p s

-- The value of ASCII digits after a number read so far.
unfoldable pub decimal_from : ℕ → String → ℕ
decimal_from n [] = n
decimal_from n (c ∷ s) = decimal_from (n * 10 + (code c - 48)) s

has_prefix-append : (p s : String) → has_prefix p (p <> s) ≡ true
unfolding has_prefix ◌<>◌
has_prefix-append [] s = refl
has_prefix-append (c ∷ p) s = ground (arith, has_prefix-append p s)

-- A text with a prefix is the prefix and a rest.
pub has_prefix-split : (p s : String) → has_prefix p s ≡ true → (t : String) × (s ≡ p <> t)
unfolding has_prefix ◌<>◌
has_prefix-split [] s h = (s, refl)
has_prefix-split (c ∷ p) [] h = cc
has_prefix-split (c ∷ p) (d ∷ s) h =
    let (t, e) = has_prefix-split p s (ground arith) in
    let same : d ≡ c = Char-path d c (ground arith) in (t, ap₂ ◌∷◌ same e)

-- `text.replace(" ", "_")`
unfoldable pub spaces_to_underscores : String → String
unfolding nth
spaces_to_underscores [] = []
spaces_to_underscores (c ∷ s) = (if eqb (code c) 32 then nth "_" 0 else c) ∷ spaces_to_underscores s

-- `text[:n]`
unfoldable pub truncate : ℕ → String → String
truncate zero s = []
truncate (suc n) [] = []
truncate (suc n) (c ∷ s) = c ∷ truncate n s

-- `sep.join(parts)`
unfoldable pub join : String → List String → String
unfolding ◌<>◌
join sep List.[] = []
join sep (List.◌∷◌ p List.[]) = p
join sep (List.◌∷◌ p (List.◌∷◌ q ps)) = p <> (sep <> join sep (List.◌∷◌ q ps))

-- The number of characters of a text.
unfoldable pub size : String → ℕ
size [] = 0
size (c ∷ s) = suc (size s)

strip_runs : strip "  a b \t" ≡ "a b"
unfolding strip
strip_runs = refl

split_runs :
    split b',' "GEOIP,CN,,X" ≡ List.◌∷◌ "GEOIP" (List.◌∷◌ "CN" (List.◌∷◌ "" (List.◌∷◌ "X" List.[])))
unfolding split
split_runs = refl

upper_runs : upper "mAtch-1" ≡ "MATCH-1"
unfolding upper
upper_runs = refl
