-- ===== src/ClientIp/Forgery.antt =====
-- Items of X-Forwarded-For to the left of those that the proxies added.
use clash_config_gen.Prelude.{
  String, ◌<>◌, ◌≡◌, refl, sym, ap, ◌∙◌, inl, inr, Bool, true, false, not, ◌||◌, Option, List, [],
  ◌∷◌, ◌++◌, arith, ◌==◌, eq_iff, Bool-cases, any, any-append,
}
use Prim.Native.Char.{Char}
use mathlib.Core.List.{append-nil}
use clash_config_gen.Prelude.Text.{strip, split, split_from, size}
use clash_config_gen.ClientIp.{reversed, is_trusted_proxy, client_of, request_client_ip}

split_from-append :
    (part a b : String)
    → split_from b',' part (a <> ("," <> b)) ≡ split_from b',' part a ++ split_from b',' "" b
unfolding split_from ◌<>◌
split_from-append part String.[] b = refl
split_from-append part (String.◌∷◌ c a) b =
    ground
      (arith, split_from-append "" a b, split_from-append (part <> (String.◌∷◌ c String.[])) a b)

given_cons : (c : Char) (s : String) → (String.◌∷◌ c s) == "" ≡ false
unfolding size
given_cons c s = elim (Bool-cases ((String.◌∷◌ c s) == "")) [
  | inl e ↦ absurd (omega (arith, ap size ((eq_iff (String.◌∷◌ c s) "").0 e)))
  | inr e ↦ e
]

given_joined : (a b : String) → (a <> ("," <> b)) == "" ≡ false
unfolding ◌<>◌
given_joined String.[] b = given_cons _ b
given_joined (String.◌∷◌ c a) b = given_cons c (a <> ("," <> b))

snoc_append : (xs ys : List String) (y : String) → xs ++ (ys ++ y ∷ []) ≡ (xs ++ ys) ++ y ∷ []
snoc_append [] ys y = refl
snoc_append (x ∷ xs) ys y = ap (λ l. x ∷ l) (snoc_append xs ys y)

reversed-append : (xs ys : List String) → reversed (xs ++ ys) ≡ reversed ys ++ reversed xs
unfolding reversed
reversed-append [] ys = sym (append-nil (reversed ys))
reversed-append (x ∷ xs) ys =
    rw (reversed-append xs ys) (sym (snoc_append (reversed ys) (reversed xs) x))

any-reversed : (p : String → Bool) (xs : List String) → any p (reversed xs) ≡ any p xs
unfolding reversed
any-reversed p [] = refl
any-reversed p (x ∷ xs) = rw (any-append p (reversed xs) (x ∷ []), any-reversed p xs) (ground arith)

module _ {Network : Type 0} (valid_ip : String → String) (ip_network : String → Option Network)
    (is_in : String → Network → Bool) (raw : Option String) where
  -- An item at which the loop ends: no address, or one that is no trusted proxy.
  abbrev pub ends : String → Bool
  ends item =
      valid_ip (strip item) == ""
      || not (is_trusted_proxy valid_ip ip_network is_in raw (valid_ip (strip item)))

  client_of-append :
      (xs ys : List String) (client : String)
      → any ends xs ≡ true
      → client_of valid_ip ip_network is_in raw (xs ++ ys) client
        ≡ client_of valid_ip ip_network is_in raw xs client
  unfolding client_of
  client_of-append [] ys client h = cc
  client_of-append (x ∷ xs) ys client h =
      ground (arith, h, client_of-append xs ys (valid_ip (strip x)))

  -- No client can forge its address: once the items that the proxies added hold one that is no trusted proxy's, the
  -- text to the left of them changes nothing.
  pub request_client_ip-forged :
      (peer_ip forged honest : String)
      → honest == "" ≡ false
      → any ends (split b',' honest) ≡ true
      → request_client_ip valid_ip ip_network is_in raw peer_ip (forged <> ("," <> honest))
        ≡ request_client_ip valid_ip ip_network is_in raw peer_ip honest
  unfolding request_client_ip split
  request_client_ip-forged peer_ip forged honest given h =
      rw
        (
          given_joined forged honest,
          given,
          split_from-append "" forged honest,
          reversed-append (split b',' forged) (split b',' honest),
          client_of-append (reversed (split b',' honest)) (reversed (split b',' forged)) ""
              (any-reversed ends (split b',' honest) ∙ h),
        )
        refl
