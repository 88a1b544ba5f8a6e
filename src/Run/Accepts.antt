-- ===== src/Run/Accepts.antt =====
-- main.go, auth/auth.go and wildcard/matcher.go: from the verify flags of a client to its verdict.
use ghostunnel.Prelude.{
  ◌≡◌, refl, sym, ◌∙◌, ◌≢◌, ◌↔◌, ◌⊎◌, inl, inr, Option, List, [], ◌∷◌, In, Text, ok,
}
use ghostunnel.Certloader.Reload
use ghostunnel.Wildcard.Compile.{Matcher}
use ghostunnel.Wildcard.Lists.{Compiled}
use ghostunnel.Auth.Ip.{to_16}
use ghostunnel.Auth.Acl.{Certificate, verify_peer_certificate_client}
use ghostunnel.Auth.Sets.{Shared, Meet}
use ghostunnel.Auth.Verify.{IsOpen, IsListed, HasLeaf, verify_peer_certificate_client_iff}
use ghostunnel.Auth.Uris.{HasUri, HasLeaf_iff}
use ghostunnel.Address.Parse.{Address}
use ghostunnel.Flags.Validate.{ClientFlags}
use ghostunnel.Run.System.{System}
use ghostunnel.Run.Access.{or_iff, uris_iff}
use ghostunnel.Run.Client.{MtlsDialer, client_backend_dialer}
use ghostunnel.Run.Dials.{Dials, client_backend_dialer-Dials}

-- No flag says whom to expect.
pub record Unasked (f : ClientFlags) : Type 0 where
  pub no_cns : f.allowed_cns ≡ []
  pub no_ous : f.allowed_ous ≡ []
  pub no_dnss : f.allowed_dnss ≡ []
  pub no_ips : f.allowed_ips ≡ []
  pub no_uris : f.allowed_uris ≡ []

Compiled-empty : (ps : List Text) (ms : List Matcher) → Compiled ps ms → (ms ≡ []) ↔ (ps ≡ [])
Compiled-empty [] [] c = (λ _. refl, λ _. refl)
Compiled-empty (p ∷ ps) (m ∷ ms) c = (λ h. cc, λ h. cc)
Compiled-empty [] (_ ∷ _) c = absurd c
Compiled-empty (_ ∷ _) [] c = absurd c

module _ {Key Pool Url : Type 0} (system : System Key Pool) (url_string : Url → Text) where
  -- An attribute of the certificate is in the list of its flag; a URI is meant by a pattern.
  abbrev pub Accepts : ClientFlags → Certificate Url → Type 0
  Accepts f cert =
      In cert.common_name f.allowed_cns
      ⊎ (Shared f.allowed_ous cert.organizational_unit
          ⊎ (Shared f.allowed_dnss cert.dns_names
              ⊎ (Meet (λ l r. to_16 r ≡ to_16 l) f.allowed_ips cert.ip_addresses
                  ⊎ HasUri url_string f.allowed_uris cert)))

  IsListed-Accepts :
      (f : ClientFlags) (o : Option (Reload.Certificate Key)) (a : Address)
      (d : MtlsDialer Key Pool) (cert : Certificate Url)
      → Dials system f o a d
      → IsListed url_string d.acl cert ↔ Accepts f cert
  IsListed-Accepts f o a d cert c =
      rw (c.allowed_cns, c.allowed_ous, c.allowed_dnss, c.allowed_ips)
        (or_iff system url_string (
          or_iff system url_string (
            or_iff system url_string (
              or_iff system url_string (
                uris_iff system url_string f.allowed_uris d.acl.allowed_uris cert
                  c.allowed_uris)))))

  IsOpen-Unasked :
      (f : ClientFlags) (o : Option (Reload.Certificate Key)) (a : Address)
      (d : MtlsDialer Key Pool)
      → Dials system f o a d
      → IsOpen d.acl ↔ Unasked f
  IsOpen-Unasked f o a d c =
      let (to, from) = Compiled-empty f.allowed_uris d.acl.allowed_uris c.allowed_uris in
      (
        λ i. record {
          no_cns = sym c.allowed_cns ∙ i.no_cns;
          no_ous = sym c.allowed_ous ∙ i.no_ous;
          no_dnss = sym c.allowed_dnss ∙ i.no_dnss;
          no_ips = sym c.allowed_ips ∙ i.no_ips;
          no_uris = to i.no_uris;
        },
        λ u. record {
          no_cns = c.allowed_cns ∙ u.no_cns;
          no_ous = c.allowed_ous ∙ u.no_ous;
          no_dnss = c.allowed_dnss ∙ u.no_dnss;
          no_ips = c.allowed_ips ∙ u.no_ips;
          no_uris = from u.no_uris;
        },
      )

  -- A client accepts a server exactly if the certificate of the server was verified and either no
  -- verify flag is given or the leaf of the first verified chain has an attribute in the list of its
  -- flag; a URI is matched by the meaning of the patterns.
  pub client_backend_dialer-Accepts :
      (f : ClientFlags) (o : Option (Reload.Certificate Key)) (a : Address)
      (d : MtlsDialer Key Pool) (chains : List (List (Certificate Url)))
      → client_backend_dialer system f o a ≡ ok d
      → (verify_peer_certificate_client url_string d.acl chains ≡ ok tt)
        ↔ ((chains ≢ []) × (Unasked f ⊎ HasLeaf url_string chains (Accepts f)))
  client_backend_dialer-Accepts f o a d chains h =
      let c = client_backend_dialer-Dials system f o a d h in
      let (to, from) = verify_peer_certificate_client_iff url_string d.acl chains in
      let (there, back) =
        HasLeaf_iff url_string chains (IsListed url_string d.acl) (Accepts f)
          (λ cert. IsListed-Accepts f o a d cert c) in
      let (asked, unasked) = IsOpen-Unasked f o a d c in
      (
        λ v. ((to v).0, elim (to v).1 [ inl i ↦ inl (asked i) | inr l ↦ inr (there l) ]),
        λ (n, s). from (n, elim s [ inl u ↦ inl (unasked u) | inr l ↦ inr (back l) ]),
      )
