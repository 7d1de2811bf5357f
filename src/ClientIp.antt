-- ===== src/ClientIp.antt =====
-- The client's address of src/security.py. The module ipaddress is parameters: `valid_ip`, the address that a text is,
-- in its standard form and empty for a text that is none; `ip_network`, the network that a text is, with
-- `strict=False`, which raises a ValueError for a text that is none; and `is_in`, whether an address is of the
-- version of a network and lies in it. `raw` is the value of the variable `TRUSTED_PROXY_CIDRS`, or its default.
pub mod Forgery
use clash_config_gen.Prelude.{
  ℕ, zero, suc, ◌+◌, ◌-◌, ◌*◌, ◌/◌, ◌%◌, ◌≤◌, ◌<◌, String, ◌<>◌, ◌≡◌, refl, sym, ap, ◌∙◌, ◌≢◌, ◌↔◌,
  ◌⊎◌, inl, inr, Bool, true, false, not, ◌&&◌, ◌||◌, Option, none, some, List, [], ◌∷◌, ◌++◌, map,
  arith, ◌==◌, eq_iff, eq_refl, ltb, leb, eqb, if◌then◌else◌, ltb→lt, lt→ltb, leb→le, le→leb,
  eqb_iff, Bool-cases, Option-cases, length, filter, count, any, all, find, length-append,
  filter-append, count-append, count-le-length, any-append, All, All-append,
}
use clash_config_gen.Prelude.Text.{strip, split}

-- `reversed(items)`
unfoldable pub reversed : List String → List String
reversed [] = []
reversed (item ∷ items) = reversed items ++ item ∷ []

-- `a or b`, for texts.
abbrev pub or_text : String → String → String
or_text a b = if a == "" then b else a

-- `DEFAULT_TRUSTED_PROXY_CIDRS`
abbrev pub default_trusted_proxy_cidrs : String
default_trusted_proxy_cidrs = "127.0.0.1/32,::1/128"

-- The value of the variable, if it is set.
abbrev pub trusted_proxy_cidrs : Option String → String
trusted_proxy_cidrs none = default_trusted_proxy_cidrs
trusted_proxy_cidrs (some value) = value

-- A network that was read is kept; a text that is none is left out.
abbrev pub kept {ℓ} : {A : Type ℓ} → Option A → List A → List A
kept none networks = networks
kept (some network) networks = network ∷ networks

module _ {Network : Type 0} (valid_ip : String → String) (ip_network : String → Option Network)
    (is_in : String → Network → Bool) (raw : Option String) where
  -- The loop over the items of the variable.
  unfoldable pub networks_of : List String → List Network
  unfolding strip
  networks_of [] = []
  networks_of (item ∷ items) =
      let networks = networks_of items in
      if strip item == "" then networks else kept (ip_network (strip item)) networks

  -- `_trusted_proxy_networks`
  unfoldable pub trusted_proxy_networks : List Network
  unfolding networks_of split
  trusted_proxy_networks = networks_of (split b',' (trusted_proxy_cidrs raw))

  -- `_is_trusted_proxy`
  unfoldable pub is_trusted_proxy : String → Bool
  unfolding trusted_proxy_networks
  is_trusted_proxy peer =
      if peer == "" then false else any (λ network. is_in peer network) trusted_proxy_networks

  -- The loop over the items, from the right; the second argument is the client so far.
  unfoldable pub client_of : List String → String → String
  unfolding strip is_trusted_proxy
  client_of [] client = client
  client_of (item ∷ items) client =
      let candidate = valid_ip (strip item) in
      let rest = client_of items candidate in
      if candidate == ""
      then client
      else if not (is_trusted_proxy candidate)
      then candidate
      else rest

  unfoldable pub request_client_ip : String → String → String
  unfolding client_of is_trusted_proxy split reversed
  request_client_ip peer_ip forwarded_for =
      let peer = valid_ip peer_ip in
      if forwarded_for == "" || not (is_trusted_proxy peer)
      then or_text peer "unknown"
      else or_text (client_of (reversed (split b',' forwarded_for)) "") (or_text peer "unknown")
