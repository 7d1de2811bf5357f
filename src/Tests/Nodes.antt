-- ===== src/Tests/Nodes.antt =====
-- Nodes.
use clash_config_gen.Prelude.{
  ℕ, String, ◌≡◌, refl, inr, true, false, not, ◌&&◌, ◌||◌, Option, none, [], ◌∷◌, arith,
}
use clash_config_gen.Prelude.Dict.{Dict, contains, lookup}
use clash_config_gen.Prelude.Int.{text_of_nat}
use clash_config_gen.Value.{Value, text, number}
use clash_config_gen.Normalizer.{parse_strict_port, missing_fields}
use clash_config_gen.Normalizer.Ports.{parse_strict_port-text_of_nat}
use clash_config_gen.Normalizer.Proxy.{
  normalize_proxy, normalize_type, normalize_name, normalize_server, normalize_port,
  normalize_hop_interval, normalize_ech, normalize_fingerprint, normalize_client_fingerprint,
  normalize_smux, is_vision,
}
use clash_config_gen.Normalizer.Proxy.Keeps.{normalize_proxy-lookup}
use clash_config_gen.Normalizer.Proxy.Checked.{normalize_proxy_accepted, IsPort}
use clash_config_gen.Normalizer.Proxy.Cleaned.{normalize_proxy_clean, is_pinned, is_hop_interval}
use clash_config_gen.Normalizer.Proxy.{is_text_entry, is_plain_smux_entry}

abbrev no_repr : Value → String
no_repr v = ""

abbrev no_list : String → Option Value
no_list s = none

abbrev no_version : String → Option ℕ
no_version s = none

abbrev node : Dict Value
node =
    ("type", text "HY2")
    ∷ ("name", text " fast ")
    ∷ ("server", text "a.example")
    ∷ ("port", text "443")
    ∷ ("password", text "p")
    ∷ ("hop-interval", text "10-20")
    ∷ ("fingerprint", text "chrome")
    ∷ ("up", number 30)
    ∷ []

parse_strict_port-text_of_nat_example : parse_strict_port "端口" (text (text_of_nat 443)) ≡ inr 443
parse_strict_port-text_of_nat_example =
    parse_strict_port-text_of_nat "端口" 443 (omega arith) (omega arith)

normalize_proxy-lookup_example :
    lookup "up" (normalize_proxy no_repr no_list no_version node).proxy ≡ lookup "up" node
unfolding contains
normalize_proxy-lookup_example = normalize_proxy-lookup no_repr no_list no_version node "up" refl

node_normalized :
    (normalize_proxy no_repr no_list no_version node).proxy
    ≡ ("type", text "hysteria2")
      ∷ ("name", text "fast")
      ∷ ("server", text "a.example")
      ∷ ("port", number 443)
      ∷ ("password", text "p")
      ∷ ("hop-interval", number 10)
      ∷ ("up", number 30)
      ∷ ("client-fingerprint", text "chrome")
      ∷ []
unfolding normalize_proxy normalize_smux normalize_client_fingerprint normalize_fingerprint
    normalize_ech normalize_hop_interval normalize_port normalize_server normalize_name
    normalize_type
node_normalized = refl

node_errors : (normalize_proxy no_repr no_list no_version node).errors ≡ []
unfolding normalize_proxy normalize_smux normalize_client_fingerprint normalize_fingerprint
    normalize_ech normalize_hop_interval normalize_port normalize_server normalize_name
    normalize_type
node_errors = refl

normalize_proxy_accepted_example :
    (missing_fields no_repr (normalize_proxy no_repr no_list no_version node).proxy ≡ [])
    × IsPort (lookup "port" (normalize_proxy no_repr no_list no_version node).proxy)
normalize_proxy_accepted_example =
    normalize_proxy_accepted no_repr no_list no_version node node_errors

normalize_proxy_clean_example :
    (is_pinned no_repr no_list no_version
        (lookup "fingerprint" (normalize_proxy no_repr no_list no_version node).proxy)
      ≡ true)
    × ((not (
            is_text_entry "hysteria2"
              (lookup "type" (normalize_proxy no_repr no_list no_version node).proxy))
          || is_hop_interval
              (lookup "hop-interval" (normalize_proxy no_repr no_list no_version node).proxy))
        ≡ true)
    × ((is_vision no_repr no_list no_version
            (lookup "flow" (normalize_proxy no_repr no_list no_version node).proxy)
          && is_plain_smux_entry
              (lookup "smux" (normalize_proxy no_repr no_list no_version node).proxy))
        ≡ false)
normalize_proxy_clean_example = normalize_proxy_clean no_repr no_list no_version node
