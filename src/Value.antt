-- ===== src/Value.antt =====
-- The values of the program's dicts and lists: Python's None, bool, int, float, str, list and dict.
use clash_config_gen.Prelude.{
  ℕ, String, ◌≡◌, refl, ap, Bool, true, false, not, Option, none, some, List, [], ◌∷◌, map, ◌==◌,
  eqb,
}
use clash_config_gen.Prelude.Dict.{Dict, put}
use clash_config_gen.Prelude.Int.{ℤ, pos, negsuc, text_of_int}

-- A `real` is a float: how `str` writes it, and its value if that is a whole number.
mutual
  pub data Value : Type 0 where
    null : Value
    boolean : Bool → Value
    integer : ℤ → Value
    real : String → Option ℤ → Value
    text : String → Value
    array : Items → Value
    table : Fields → Value

  pub data Items : Type 0 where
    nil : Items
    cons : Value → Items → Items

  pub data Fields : Type 0 where
    end : Fields
    field : String → Value → Fields → Fields

pattern abbrev pub number : ℕ → Value
number n = integer (pos n)

abbrev pub items : Items → List Value
items nil = []
items (cons v vs) = v ∷ items vs

abbrev pub items_of : List Value → Items
items_of [] = nil
items_of (v ∷ vs) = cons v (items_of vs)

abbrev pub entries : Fields → Dict Value
entries end = []
entries (field key value fields) = (key, value) ∷ entries fields

abbrev pub fields_of : Dict Value → Fields
fields_of [] = end
fields_of ((key, value) ∷ d) = field key value (fields_of d)

pub entries-fields_of : (d : Dict Value) → entries (fields_of d) ≡ d
entries-fields_of [] = refl
entries-fields_of ((key, value) ∷ d) = ap (λ r. (key, value) ∷ r) (entries-fields_of d)

-- A list of texts, as a value.
abbrev pub texts : List String → Value
texts names = array (items_of (map (λ name. text name) names))

abbrev is_zero : ℤ → Bool
is_zero (pos n) = eqb n 0
is_zero (negsuc n) = false

abbrev is_zero_real : Option ℤ → Bool
is_zero_real none = false
is_zero_real (some n) = is_zero n

abbrev is_no_item : Items → Bool
is_no_item nil = true
is_no_item (cons v vs) = false

abbrev is_no_field : Fields → Bool
is_no_field end = true
is_no_field (field key value fields) = false

-- The truth value of a value.
unfoldable pub truthy : Value → Bool
truthy null = false
truthy (boolean b) = b
truthy (integer n) = not (is_zero n)
truthy (real s n) = not (is_zero_real n)
truthy (text s) = not (s == "")
truthy (array vs) = not (is_no_item vs)
truthy (table fs) = not (is_no_field fs)

-- The truth value of `config.get(key)`.
abbrev pub truthy_entry : Option Value → Bool
truthy_entry none = false
truthy_entry (some v) = truthy v

-- `value == s`, for a text s.
unfoldable pub is_text : String → Value → Bool
is_text s null = false
is_text s (boolean b) = false
is_text s (integer n) = false
is_text s (real r n) = false
is_text s (text other) = other == s
is_text s (array vs) = false
is_text s (table fs) = false

-- `value in (None, "")`, for `config.get(key)`.
unfoldable pub is_blank : Option Value → Bool
is_blank none = true
is_blank (some null) = true
is_blank (some (boolean b)) = false
is_blank (some (integer n)) = false
is_blank (some (real s n)) = false
is_blank (some (text s)) = s == ""
is_blank (some (array vs)) = false
is_blank (some (table fs)) = false

-- `str(value)`; `repr` writes a list or a dict.
unfoldable pub str : (Value → String) → Value → String
unfolding text_of_int
str repr null = "None"
str repr (boolean true) = "True"
str repr (boolean false) = "False"
str repr (integer n) = text_of_int n
str repr (real s n) = s
str repr (text s) = s
str repr (array vs) = repr (array vs)
str repr (table fs) = repr (table fs)

-- `config.get(key, default)`, for the entry of the key.
abbrev pub or_default : Option Value → Value → Value
or_default none default = default
or_default (some v) default = v

-- `config.update(other)`
unfoldable pub update : Dict Value → Dict Value → Dict Value
unfolding put
update config [] = config
update config ((key, value) ∷ other) = update (put key value config) other
