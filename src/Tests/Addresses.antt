-- ===== src/Tests/Addresses.antt =====
-- A client behind one trusted proxy.
use clash_config_gen.Prelude.{
  String, ◌<>◌, ◌≡◌, refl, ◌↔◌, Bool, true, not, Option, none, some, ◌∷◌, map, ◌==◌, if◌then◌else◌,
  filter,
}
use clash_config_gen.Origin.{is_trusted_request_origin, is_trusted_request_origin_lem, Trusted}
use clash_config_gen.Prelude.Text.{strip, split}
use clash_config_gen.ClientIp.{is_trusted_proxy, request_client_ip}
use clash_config_gen.ClientIp.Forgery.{request_client_ip-forged}

-- Addresses in their standard form, and the proxy.
abbrev any_ip : String → String
any_ip text = text

-- A network of one address, written with the length of its prefix.
abbrev single : String → Option String
single text = if text == "127.0.0.1/32" then some "127.0.0.1" else none

abbrev is_single : String → String → Bool
is_single ip network = ip == network

abbrev cidrs : Option String
cidrs = some " 127.0.0.1/32,, x"

request_client_ip-forged_example :
    request_client_ip any_ip single is_single cidrs "127.0.0.1" ("9.9.9.9" <> ("," <> "1.2.3.4"))
    ≡ request_client_ip any_ip single is_single cidrs "127.0.0.1" "1.2.3.4"
unfolding split strip is_trusted_proxy
request_client_ip-forged_example =
    request_client_ip-forged any_ip single is_single cidrs "127.0.0.1" "9.9.9.9" "1.2.3.4" refl refl

-- The forged address is not the answer.
client_runs :
    request_client_ip any_ip single is_single cidrs "127.0.0.1" "9.9.9.9,1.2.3.4,127.0.0.1"
    ≡ "1.2.3.4"
unfolding request_client_ip
client_runs = refl

-- An address without a path.
abbrev no_path : String → Option (String × String)
no_path url =
    if url == "https://a.example"
    then some ("https", "a.example")
    else if url == "http://["
    then none
    else some ("", "")

origin_trusted :
    is_trusted_request_origin no_path "https://a.example" "http://b" "" " https://a.example,x"
    ≡ some true
unfolding is_trusted_request_origin
origin_trusted = refl

-- An entry that urlsplit cannot read stops the check.
origin_unread : is_trusted_request_origin no_path "https://a.example" "" "" "http://[" ≡ none
unfolding is_trusted_request_origin
origin_unread = refl

is_trusted_request_origin_lem_example :
    (is_trusted_request_origin no_path "https://a.example" "http://b" "" " https://a.example,x"
      ≡ some true)
    ↔ Trusted no_path "https://a.example" (
        ""
        ∷ map
            (λ value. strip value)
            (filter (λ value. not (strip value == "")) (split b',' " https://a.example,x")))
is_trusted_request_origin_lem_example =
    is_trusted_request_origin_lem no_path "https://a.example" "http://b" "" " https://a.example,x"
      refl
