-- ===== src/Auth/Acl.antt =====
-- auth/auth.go: the access control list and the two checks of a peer's certificate.
use ghostunnel.Prelude.{
  Bool, true, false, ◌&&◌, List, [], ◌∷◌, if◌then◌else◌, Text, text_eq, any, Result, ok, err, panic,
  ◌>>=◌,
}
use ghostunnel.Wildcard.Compile.{Matcher, matches}
use ghostunnel.Auth.Ip.{Ip, ip_equal}

-- `ACL`, without its logger, which only prints.
pub record Acl : Type 0 where
  pub allow_all : Bool
  pub allowed_cns : List Text
  pub allowed_ous : List Text
  pub allowed_dnss : List Text
  pub allowed_ips : List Ip
  pub allowed_uris : List Matcher

-- The fields of `x509.Certificate` that the checks read; `Url` is `url.URL`.
pub record Certificate (Url : Type 0) : Type 0 where
  pub common_name : Text
  pub organizational_unit : List Text
  pub dns_names : List Text
  pub ip_addresses : List Ip
  pub uris : List Url

-- The one error: "unauthorized: invalid principal, or principal not allowed".
pub data AuthError : Type 0 where
  unauthorized : AuthError

abbrev pub Verdict : Type 0
Verdict = Result AuthError (Unit {0})

unfoldable pub contains : List Text → Text → Bool
contains [] item = false
contains (c ∷ set) item = if text_eq c item then true else contains set item

unfoldable pub intersects : List Text → List Text → Bool
intersects [] right = false
intersects (item ∷ left) right = if contains right item then true else intersects left right

unfoldable pub intersects_ip : List Ip → List Ip → Bool
intersects_ip [] right = false
intersects_ip (l ∷ left) right =
    if any (λ r. ip_equal r l) right then true else intersects_ip left right

unfoldable pub is_empty {ℓ} : {A : Type ℓ} → List A → Bool
is_empty [] = true
is_empty (_ ∷ _) = false

-- `url_string` is the method `String` of `url.URL`.
module _ {Url : Type 0} (url_string : Url → Text) where
  unfoldable pub intersects_uri : List Matcher → List Url → Bool
  intersects_uri [] right = false
  intersects_uri (l ∷ left) right =
      if any (λ r. matches l (url_string r)) right then true else intersects_uri left right

  -- `verifiedChains[0][0]`, which panics on an empty first chain.
  abbrev pub leaf : List (Certificate Url) → Result AuthError (Certificate Url)
  leaf [] = panic
  leaf (cert ∷ _) = ok cert

  -- The five checks of the leaf, in both functions.
  unfoldable pub check_cert : Acl → Certificate Url → Verdict
  check_cert a cert =
      if contains a.allowed_cns cert.common_name
      then ok tt
      else if intersects a.allowed_ous cert.organizational_unit
      then ok tt
      else if intersects a.allowed_dnss cert.dns_names
      then ok tt
      else if intersects_ip a.allowed_ips cert.ip_addresses
      then ok tt
      else if intersects_uri a.allowed_uris cert.uris
      then ok tt
      else err unauthorized

  unfoldable pub verify_peer_certificate_server : Acl → List (List (Certificate Url)) → Verdict
  verify_peer_certificate_server a [] = err unauthorized
  verify_peer_certificate_server a (chain ∷ chains) =
      if a.allow_all then ok tt else leaf chain >>= check_cert a

  unfoldable pub verify_peer_certificate_client : Acl → List (List (Certificate Url)) → Verdict
  verify_peer_certificate_client a [] = err unauthorized
  verify_peer_certificate_client a (chain ∷ chains) =
      if is_empty a.allowed_cns
        && is_empty a.allowed_ous
        && is_empty a.allowed_dnss
        && is_empty a.allowed_uris
        && is_empty a.allowed_ips
      then ok tt
      else leaf chain >>= check_cert a
