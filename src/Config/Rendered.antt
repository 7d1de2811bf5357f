-- ===== src/Config/Rendered.antt =====
-- Groups and rule providers as the values of a document. A provider's keys stand in one order here; the code
-- writes those of its own providers in another.
use clash_config_gen.Prelude.{String, true, Option, none, some, [], ◌∷◌, ◌++◌, map, if◌then◌else◌}
use clash_config_gen.Prelude.Dict.{Dict, lookup}
use clash_config_gen.Value.{
  Value, null, boolean, integer, real, number, text, array, table, texts, fields_of, entries,
  truthy, str,
}
use clash_config_gen.Groups.{ProxyGroup}
use clash_config_gen.Rules.Build.{RuleProvider}

-- A key that is left out for `none`.
abbrev pub optional {ℓ} : {A : Type ℓ} → String → (A → Value) → Option A → Dict Value
optional key value none = []
optional key value (some a) = (key, value a) ∷ []

unfoldable pub group_value : ProxyGroup → Value
group_value g = table (
    fields_of (
      ("name", text g.name)
      ∷ ("type", text g.kind)
      ∷ ("proxies", texts g.proxies)
      ∷ (optional "url" (λ url. text url) g.url
          ++ (optional "interval" (λ n. number n) g.interval
              ++ ((if g.disable_udp then ("disable-udp", boolean true) ∷ [] else [])
                  ++ optional "tolerance" (λ n. number n) g.tolerance)))))

unfoldable pub provider_value : RuleProvider → Value
provider_value p = table (
    fields_of (
      ("type", p.kind)
      ∷ ("behavior", p.behavior)
      ∷ ("path", p.path)
      ∷ ("interval", p.interval)
      ∷ (optional "url" (λ url. url) p.url
          ++ (optional "proxy" (λ proxy. proxy) p.proxy
              ++ optional "format" (λ format. format) p.format))))

abbrev pub providers_value : Dict RuleProvider → Value
providers_value providers =
    table (fields_of (map (λ (e : String × RuleProvider). (e.0, provider_value e.1)) providers))

abbrev name_text : Option Value → String
name_text (some (text s)) = s
name_text _ = ""

-- The name of a node: the normalization has made a text of it.
unfoldable pub name_of : Dict Value → String
unfolding lookup
name_of proxy = name_text (lookup "name" proxy)

abbrev target_text : (Value → String) → Value → String
target_text repr v = if truthy v then str repr v else ""

abbrev target_texts : (Value → String) → Dict Value → Dict String
target_texts repr targets = map (λ (e : String × Value). (e.0, target_text repr e.1)) targets

-- The targets of rule providers, `targets or {}`: a rule names the text of a target that is true. `none` is
-- the AttributeError of what is no dict.
unfoldable pub targets_of : (Value → String) → Option Value → Option (Dict String)
unfolding truthy str
targets_of repr none = some []
targets_of repr (some (table fs)) = some (target_texts repr (entries fs))
targets_of repr (some null) = some []
targets_of repr (some (boolean b)) = if b then none else some []
targets_of repr (some (integer n)) = if truthy (integer n) then none else some []
targets_of repr (some (real s n)) = if truthy (real s n) then none else some []
targets_of repr (some (text s)) = if truthy (text s) then none else some []
targets_of repr (some (array vs)) = if truthy (array vs) then none else some []
