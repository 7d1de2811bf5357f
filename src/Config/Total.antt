-- ===== src/Config/Total.antt =====
-- `build_config` gives a document back, and what stands in it.
use clash_config_gen.Prelude.{
  ◌>>=◌, String, ◌≡◌, refl, Bool, true, false, not, Option, none, some, List, [], ◌∷◌, arith,
  if◌then◌else◌, all,
}
use clash_config_gen.Prelude.Dict.{Dict, lookup, put, contains, all-contains}
use clash_config_gen.Value.{
  Value, null, boolean, integer, real, text, array, table, texts, truthy, or_default,
}
use clash_config_gen.Config.Texts.{
  setting, text_or_empty, text_to_list, first_non_empty_list, items_or, parse_nameserver_policy,
  policy_loop, split_lines, filled_lines,
}
use clash_config_gen.Config.Dns.{
  lines_of, tun_section, hijacked, add_proxy_server_nameserver, desktop_start, desktop_dns,
  router_dns, dns_section, respect_rules, dns_start,
}

-- There is a result, and a predicate holds of it.
abbrev pub Gives {ℓ} : {A : Type ℓ} → (A → Type 0) → Option A → Type ℓ
Gives {A = A} P o = (a : A) × ((o ≡ some a) × P a)

-- A text, or no value: what `text_to_list` takes.
abbrev pub is_lines : Value → Bool
is_lines (text s) = true
is_lines v = not (truthy v)

module _ {ℓ κ} {A : Type ℓ} {B : Type κ} where
  pub then-Gives :
      (P : A → Type 0) (Q : B → Type 0) (m : Option A) (f : A → Option B)
      → Gives P m
      → ((a : A) → P a → Gives Q (f a))
      → Gives Q (m >>= f)
  then-Gives P Q m f (a, (e, p)) g = rw e (g a p)

pub if-Gives {ℓ} :
    {A : Type ℓ} (b : Bool) (P : A → Type 0) (m n : Option A)
    → Gives P m
    → Gives P n
    → Gives P (if b then m else n)
if-Gives true P m n g h = g
if-Gives false P m n g h = h

abbrev pub Any {ℓ} : {A : Type ℓ} → A → Type 0
Any a = Unit {0}

text_or_empty_lem : (v : Value) → is_lines v ≡ true → Gives Any (text_or_empty v)
unfolding text_or_empty truthy
text_or_empty_lem null h = ("", (refl, tt))
text_or_empty_lem (boolean b) h = ("", (ground arith, tt))
text_or_empty_lem (integer n) h = ("", (ground arith, tt))
text_or_empty_lem (real s n) h = ("", (ground arith, tt))
text_or_empty_lem (text s) h = (s, (refl, tt))
text_or_empty_lem (array vs) h = ("", (ground arith, tt))
text_or_empty_lem (table fs) h = ("", (ground arith, tt))

text_to_list_lem : (v : Value) → is_lines v ≡ true → Gives Any (text_to_list v)
unfolding text_to_list
text_to_list_lem v h =
    then-Gives Any Any (text_or_empty v) (λ s. some (filled_lines s)) (text_or_empty_lem v h)
      (λ s _. (filled_lines s, (refl, tt)))

abbrev is_lines_entry : Option Value → Bool
is_lines_entry none = true
is_lines_entry (some v) = is_lines v

-- The settings that are read line by line.
abbrev pub line_keys : List String
line_keys =
    "tun_dns_hijack_value" ∷ "default_nameserver" ∷ "nameserver" ∷ "direct_nameserver"
    ∷ "proxy_server_nameserver" ∷ "fallback" ∷ "nameserver_policy" ∷ "authentication" ∷ []

-- Each of these settings is a text or has no value.
unfoldable pub has_lines : Dict Value → Bool
unfolding lookup truthy
has_lines global_config = all (λ key. is_lines_entry (lookup key global_config)) line_keys

or_default_lines :
    (o : Option Value) (s : String)
    → is_lines_entry o ≡ true
    → is_lines (or_default o (text s)) ≡ true
or_default_lines none s h = refl
or_default_lines (some v) s h = h

module _ (global_config : Dict Value) (h : has_lines global_config ≡ true) where
  setting_lem :
      (key s : String)
      → contains line_keys key ≡ true
      → is_lines (setting key (text s) global_config) ≡ true
  unfolding has_lines
  setting_lem key s c =
      or_default_lines (lookup key global_config) s
        (all-contains (λ key. is_lines_entry (lookup key global_config)) line_keys key h c)

  pub lines_of_lem :
      (key : String) → contains line_keys key ≡ true → Gives Any (lines_of key global_config)
  lines_of_lem key c = text_to_list_lem (setting key (text "") global_config) (setting_lem key "" c)

  items_or_lem :
      (items : List String) (rest : Option (List String))
      → Gives Any rest
      → Gives Any (items_or items rest)
  items_or_lem [] rest g = g
  items_or_lem (item ∷ items) rest g = (item ∷ items, (refl, tt))

  first_lem :
      (values : List Value) (fallback : String)
      → all is_lines values ≡ true
      → Gives Any (first_non_empty_list values fallback)
  unfolding first_non_empty_list
  first_lem [] fallback l = text_to_list_lem (text fallback) refl
  first_lem (v ∷ values) fallback l =
      then-Gives Any Any (text_to_list v)
        (λ items. items_or items (first_non_empty_list values fallback))
        (text_to_list_lem v (ground (arith, l)))
        (λ items _.
          items_or_lem items (first_non_empty_list values fallback)
            (first_lem values fallback (ground (arith, l))))

  policy_lem : (v : Value) → is_lines v ≡ true → Gives Any (parse_nameserver_policy v)
  unfolding parse_nameserver_policy
  policy_lem v l =
      then-Gives Any Any (text_or_empty v) (λ s. some (policy_loop (split_lines s) []))
        (text_or_empty_lem v l) (λ s _. (policy_loop (split_lines s) [], (refl, tt)))

  add_proxy_server_nameserver_lem :
      (dns : Dict Value) → Gives Any (add_proxy_server_nameserver global_config dns)
  unfolding add_proxy_server_nameserver contains
  add_proxy_server_nameserver_lem dns =
      let values =
        setting "proxy_server_nameserver" (text "") global_config
        ∷ setting "direct_nameserver" (text "") global_config
        ∷ setting "default_nameserver" (text "") global_config
        ∷ setting "nameserver" (text "") global_config
        ∷ [] in
      let ok : all is_lines values ≡ true = ground (
        arith,
        setting_lem "proxy_server_nameserver" "" refl,
        setting_lem "direct_nameserver" "" refl,
        setting_lem "default_nameserver" "" refl,
        setting_lem "nameserver" "" refl,
      ) in
      if-Gives (truthy (respect_rules global_config)) Any _ _
        (then-Gives Any Any (first_non_empty_list values "223.5.5.5")
          (λ servers. some (put "proxy-server-nameserver" (texts servers) dns))
          (first_lem values "223.5.5.5" ok)
          (λ servers _. (put "proxy-server-nameserver" (texts servers) dns, (refl, tt))))
        (dns, (refl, tt))

  pub tun_section_lem : Gives Any (tun_section global_config)
  unfolding tun_section contains
  tun_section_lem =
      then-Gives Any Any (hijacked global_config) _
        (if-Gives (truthy (setting "tun_dns_hijack" (boolean true) global_config)) Any _ _
          (text_to_list_lem (setting "tun_dns_hijack_value" (text "127.0.0.1:53") global_config)
            (setting_lem "tun_dns_hijack_value" "127.0.0.1:53" refl))
          ([], (refl, tt)))
        (λ items _. (_, (refl, tt)))

  desktop_start_lem : Gives Any (desktop_start global_config)
  unfolding desktop_start contains
  desktop_start_lem =
      then-Gives Any Any (lines_of "default_nameserver" global_config) _
        (lines_of_lem "default_nameserver" refl)
        (λ a _.
          then-Gives Any Any (lines_of "nameserver" global_config) _
            (lines_of_lem "nameserver" refl)
            (λ b _.
              then-Gives Any Any (lines_of "direct_nameserver" global_config) _
                (lines_of_lem "direct_nameserver" refl) (λ c _. (_, (refl, tt)))))

  desktop_dns_lem : Gives Any (desktop_dns global_config)
  unfolding desktop_dns contains
  desktop_dns_lem = then-Gives Any Any (desktop_start global_config) _ desktop_start_lem (λ start _.
      then-Gives Any Any (add_proxy_server_nameserver global_config start) _
        (add_proxy_server_nameserver_lem start)
        (λ dns _.
          then-Gives Any Any (lines_of "fallback" global_config) _ (lines_of_lem "fallback" refl)
            (λ fallback _.
              then-Gives Any Any
                (parse_nameserver_policy (setting "nameserver_policy" (text "") global_config)) _
                (policy_lem (setting "nameserver_policy" (text "") global_config)
                  (setting_lem "nameserver_policy" "" refl))
                (λ policy _. (_, (refl, tt))))))

  pub dns_section_lem : Gives Any (dns_section global_config)
  unfolding dns_section router_dns
  dns_section_lem =
      if-Gives (truthy (setting "is_desktop" (boolean true) global_config)) Any _ _ desktop_dns_lem
        (add_proxy_server_nameserver_lem
          (put "respect-rules" (respect_rules global_config) (dns_start global_config)))
