-- ===== src/Config/Texts.antt =====
-- Settings that are read as lists of lines or as numbers.
use clash_config_gen.Prelude.{
  ℕ, String, ◌<>◌, Bool, not, ◌&&◌, ◌||◌, Option, none, some, List, [], ◌∷◌, map, ◌==◌, leb, eqb,
  if◌then◌else◌, filter,
}
use Prim.Native.Char.{Char, code}
use clash_config_gen.Prelude.{◌>>=◌}
use clash_config_gen.Prelude.Dict.{Dict, lookup, put}
use clash_config_gen.Prelude.Int.{ℤ, pos, int_of_text}
use clash_config_gen.Prelude.Text.{strip, before, after}
use clash_config_gen.Value.{
  Value, null, boolean, integer, real, text, array, table, or_default, truthy, truthy_entry,
}
use clash_config_gen.Rules.Build.{at_least}

-- `config.get(key, default)`
abbrev pub setting : String → Value → Dict Value → Value
setting key default config = or_default (lookup key config) default

-- `if config.get(key, False)`
abbrev pub is_on : String → Dict Value → Bool
is_on key config = truthy_entry (lookup key config)

-- The characters at which `str.splitlines` ends a line.
unfoldable pub is_line_break : Char → Bool
is_line_break ch =
    let c = code ch in
    (leb 10 c && leb c 13) || (leb 28 c && leb c 30) || eqb c 133 || eqb c 8232 || eqb c 8233

-- `text.splitlines()`, with an empty line more for `\r\n` and at the end; the program drops empty lines. The
-- first argument is the part of the line read so far.
unfoldable pub lines_from : String → String → List String
unfolding is_line_break ◌<>◌
lines_from part String.[] = part ∷ []
lines_from part (String.◌∷◌ c s) =
    let closed = lines_from String.[] s in
    let longer = lines_from (part <> String.◌∷◌ c String.[]) s in
    if is_line_break c then part ∷ closed else longer

unfoldable pub split_lines : String → List String
unfolding lines_from
split_lines s = lines_from String.[] s

-- `text or ""`, on which `splitlines` is called: `none` is the AttributeError of what is no text.
unfoldable pub text_or_empty : Value → Option String
unfolding truthy
text_or_empty (text s) = some s
text_or_empty null = some ""
text_or_empty (boolean b) = if b then none else some ""
text_or_empty (integer n) = if truthy (integer n) then none else some ""
text_or_empty (real s n) = if truthy (real s n) then none else some ""
text_or_empty (array vs) = if truthy (array vs) then none else some ""
text_or_empty (table fs) = if truthy (table fs) then none else some ""

abbrev pub filled_lines : String → List String
filled_lines s = filter (λ line. not (line == "")) (map strip (split_lines s))

unfoldable pub text_to_list : Value → Option (List String)
unfolding text_or_empty split_lines strip
text_to_list v = do s ← text_or_empty v; some (filled_lines s)

-- The items, or what comes after them.
abbrev pub items_or : List String → Option (List String) → Option (List String)
items_or [] rest = rest
items_or (item ∷ items) rest = some (item ∷ items)

unfoldable pub first_non_empty_list : List Value → String → Option (List String)
unfolding text_to_list
first_non_empty_list [] fallback = text_to_list (text fallback)
first_non_empty_list (v ∷ values) fallback =
    let rest = first_non_empty_list values fallback in
    do items ← text_to_list v; items_or items rest

-- A line of the policy, cut at its first colon.
abbrev pub add_policy : String → Option String → Dict String → Dict String
add_policy key none policy = policy
add_policy key (some value) policy =
    if not (strip key == "") && not (strip value == "")
    then put (strip key) (strip value) policy
    else policy

unfoldable pub policy_loop : List String → Dict String → Dict String
unfolding before after strip put
policy_loop [] policy = policy
policy_loop (line ∷ lines) policy =
    policy_loop lines (add_policy (before b':' line) (after b':' line) policy)

-- `_parse_nameserver_policy`
unfoldable pub parse_nameserver_policy : Value → Option (Dict String)
unfolding policy_loop text_or_empty split_lines
parse_nameserver_policy v = do s ← text_or_empty v; some (policy_loop (split_lines s) [])

-- `int(value)`, where `int_of_real` takes the whole part of a float; `none` is the TypeError or the ValueError.
unfoldable pub int_of_value : (String → Option ℤ) → Value → Option ℤ
unfolding int_of_text
int_of_value int_of_real null = none
int_of_value int_of_real (boolean b) = some (pos (if b then 1 else 0))
int_of_value int_of_real (integer n) = some n
int_of_value int_of_real (real s n) = int_of_real s
int_of_value int_of_real (text s) = int_of_text s
int_of_value int_of_real (array vs) = none
int_of_value int_of_real (table fs) = none

-- `int_config` of `config.get(key)`.
abbrev pub int_setting : (String → Option ℤ) → Option Value → ℕ → ℕ → ℕ
int_setting int_of_real none default minimum = default
int_setting int_of_real (some v) default minimum =
    at_least default minimum (int_of_value int_of_real v)
