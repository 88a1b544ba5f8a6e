-- ===== src/Auth/Verify.antt =====
-- Who is let in: both checks against the meaning of the access control list.
use ghostunnel.Prelude.{
  ◌≡◌, refl, ◌≢◌, ◌↔◌, ◌⊎◌, inl, inr, Bool, true, false, List, [], ◌∷◌, ◌&&◌, arith, if◌then◌else◌,
  Text, In, ok, err, ◌>>=◌,
}
use ghostunnel.Wildcard.Compile.{matches}
use ghostunnel.Auth.Ip.{to_16}
use ghostunnel.Auth.Acl.{
  Acl, Certificate, unauthorized, Verdict, is_empty, leaf, check_cert,
  verify_peer_certificate_server, verify_peer_certificate_client,
}
use ghostunnel.Auth.Sets.{
  Shared, Meet, contains_iff, intersects_iff, intersects_ip_iff, intersects_uri_iff,
}

-- No access control entry of any kind.
pub record IsOpen (a : Acl) : Type 0 where
  pub no_cns : a.allowed_cns ≡ []
  pub no_ous : a.allowed_ous ≡ []
  pub no_dnss : a.allowed_dnss ≡ []
  pub no_ips : a.allowed_ips ≡ []
  pub no_uris : a.allowed_uris ≡ []

is_empty_iff : {A : Type 0} (l : List A) → (is_empty l ≡ true) ↔ (l ≡ [])
unfolding is_empty
is_empty_iff [] = (λ _. refl, λ _. refl)
is_empty_iff (x ∷ l) = (λ h. cc, λ h. cc)

-- The guard of the client's check.
abbrev pub open_guard : Acl → Bool
open_guard a =
    is_empty a.allowed_cns
    && is_empty a.allowed_ous
    && is_empty a.allowed_dnss
    && is_empty a.allowed_uris
    && is_empty a.allowed_ips

pub open_guard_iff : (a : Acl) → (open_guard a ≡ true) ↔ IsOpen a
open_guard_iff a =
    let (c, c') = is_empty_iff a.allowed_cns in
    let (o, o') = is_empty_iff a.allowed_ous in
    let (d, d') = is_empty_iff a.allowed_dnss in
    let (u, u') = is_empty_iff a.allowed_uris in
    let (i, i') = is_empty_iff a.allowed_ips in
    (
      λ h. record {
        no_cns = c (ground arith);
        no_ous = o (ground arith);
        no_dnss = d (ground arith);
        no_ips = i (ground arith);
        no_uris = u (ground arith);
      },
      λ p. rw (c' p.no_cns, o' p.no_ous, d' p.no_dnss, u' p.no_uris, i' p.no_ips),
    )

-- One check of the ladder.
or_else :
    {P Q : Type 0} (b : Bool) (rest : Verdict)
    → (b ≡ true) ↔ P
    → (rest ≡ ok tt) ↔ Q
    → ((if b then ok tt else rest) ≡ ok tt) ↔ (P ⊎ Q)
or_else true rest p q = (λ _. inl (p.0 refl), λ _. refl)
or_else false rest p q = (λ h. inr (q.0 h), λ h. elim h [ inl x ↦ cc (p.1 x) | inr x ↦ q.1 x ])

last_check :
    {P : Type 0} (b : Bool)
    → (b ≡ true) ↔ P
    → ◌≡◌ {A = Verdict} (if b then ok tt else err unauthorized) (ok tt) ↔ P
last_check true p = (λ _. p.0 refl, λ _. refl)
last_check false p = (λ h. cc, λ x. cc (p.1 x))

module _ {Url : Type 0} (url_string : Url → Text) where
  -- At least one attribute of the certificate is listed.
  abbrev pub IsListed : Acl → Certificate Url → Type 0
  IsListed a cert =
      In cert.common_name a.allowed_cns
      ⊎ (Shared a.allowed_ous cert.organizational_unit
          ⊎ (Shared a.allowed_dnss cert.dns_names
              ⊎ (Meet (λ l r. to_16 r ≡ to_16 l) a.allowed_ips cert.ip_addresses
                  ⊎ Meet (λ l r. matches l (url_string r) ≡ true) a.allowed_uris cert.uris)))

  check_cert_iff :
      (a : Acl) (cert : Certificate Url) → (check_cert url_string a cert ≡ ok tt) ↔ IsListed a cert
  unfolding check_cert
  check_cert_iff a cert = or_else _ _ (contains_iff a.allowed_cns cert.common_name) (
      or_else _ _ (intersects_iff a.allowed_ous cert.organizational_unit) (
        or_else _ _ (intersects_iff a.allowed_dnss cert.dns_names) (
          or_else _ _ (intersects_ip_iff a.allowed_ips cert.ip_addresses)
            (last_check _ (intersects_uri_iff url_string a.allowed_uris cert.uris)))))

  -- The leaf of the first chain.
  abbrev pub HasLeaf : List (List (Certificate Url)) → (Certificate Url → Type 0) → Type 0
  HasLeaf [] P = ⊥
  HasLeaf ([] ∷ _) P = ⊥
  HasLeaf ((cert ∷ _) ∷ _) P = P cert

  leaf_iff :
      (chain : List (Certificate Url)) (chains : List (List (Certificate Url)))
      (f : Certificate Url → Verdict) (P : Certificate Url → Type 0)
      → ((cert : Certificate Url) → (f cert ≡ ok tt) ↔ P cert)
      → ((leaf url_string chain >>= f) ≡ ok tt) ↔ HasLeaf (chain ∷ chains) P
  leaf_iff [] chains f P h = (λ e. cc, λ x. absurd x)
  leaf_iff (cert ∷ _) chains f P h = h cert

  -- A server lets a client in exactly if its certificate was verified and either every verified
  -- client is allowed or the leaf of the first verified chain has an attribute that is listed.
  pub verify_peer_certificate_server_iff :
      (a : Acl) (chains : List (List (Certificate Url)))
      → (verify_peer_certificate_server url_string a chains ≡ ok tt)
        ↔ ((chains ≢ []) × ((a.allow_all ≡ true) ⊎ HasLeaf chains (IsListed a)))
  unfolding verify_peer_certificate_server
  verify_peer_certificate_server_iff a [] = (λ h. cc, λ h. absurd (h.0 refl))
  verify_peer_certificate_server_iff a (chain ∷ chains) =
      let (to, from) =
        or_else a.allow_all (leaf url_string chain >>= check_cert url_string a) (λ h. h, λ h. h)
          (leaf_iff chain chains (check_cert url_string a) (IsListed a) (check_cert_iff a)) in
      (λ h. (λ e. cc, to h), λ h. from h.1)

  -- A client accepts a server exactly if its certificate was verified and either the list has no
  -- entry of any kind or the leaf of the first verified chain has an attribute that is listed.
  pub verify_peer_certificate_client_iff :
      (a : Acl) (chains : List (List (Certificate Url)))
      → (verify_peer_certificate_client url_string a chains ≡ ok tt)
        ↔ ((chains ≢ []) × (IsOpen a ⊎ HasLeaf chains (IsListed a)))
  unfolding verify_peer_certificate_client
  verify_peer_certificate_client_iff a [] = (λ h. cc, λ h. absurd (h.0 refl))
  verify_peer_certificate_client_iff a (chain ∷ chains) =
      let (to, from) =
        or_else (open_guard a) (leaf url_string chain >>= check_cert url_string a)
          (open_guard_iff a)
          (leaf_iff chain chains (check_cert url_string a) (IsListed a) (check_cert_iff a)) in
      (λ h. (λ e. cc, to h), λ h. from h.1)
