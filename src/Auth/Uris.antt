-- ===== src/Auth/Uris.antt =====
-- URI patterns from the command line, compiled and checked against a certificate.
use ghostunnel.Prelude.{◌≡◌, ◌≢◌, ◌↔◌, inl, inr, false, List, [], ◌∷◌, Text, In, any_iff, ok}
use ghostunnel.Wildcard.Compile.{Matcher, compile_list, matches}
use ghostunnel.Wildcard.Lists.{SomeMatches, any-compile_list_iff}
use ghostunnel.Auth.Acl.{Acl, Certificate, verify_peer_certificate_server}
use ghostunnel.Auth.Verify.{IsListed, HasLeaf, verify_peer_certificate_server_iff}

-- `--allow-uri` alone.
abbrev pub uri_acl : List Matcher → Acl
uri_acl ms = record {
  allow_all = false;
  allowed_cns = [];
  allowed_ous = [];
  allowed_dnss = [];
  allowed_ips = [];
  allowed_uris = ms;
}

module _ {Url : Type 0} (url_string : Url → Text) where
  -- A URI of the certificate that a pattern means.
  abbrev pub HasUri : List Text → Certificate Url → Type 0
  HasUri ps cert = (u : Url) × In u cert.uris × SomeMatches ps (url_string u)

  IsListed-uri_iff :
      (ps : List Text) (ms : List Matcher) (cert : Certificate Url)
      → compile_list ps ≡ ok ms
      → IsListed url_string (uri_acl ms) cert ↔ HasUri ps cert
  IsListed-uri_iff ps ms cert h = (to, from)
    where
      to : IsListed url_string (uri_acl ms) cert → HasUri ps cert
      to (inl m) = absurd m
      to (inr (inl (i, m, _))) = absurd m
      to (inr (inr (inl (i, m, _)))) = absurd m
      to (inr (inr (inr (inl (l, _, m, _, _))))) = absurd m
      to (inr (inr (inr (inr (l, u, m, n, e))))) = (
        u,
        n,
        (any-compile_list_iff ps ms (url_string u) h).0
            ((any_iff (λ m. matches m (url_string u)) ms).1 (l, m, e)),
      )

      from : HasUri ps cert → IsListed url_string (uri_acl ms) cert
      from (u, n, s) =
          let (l, m, e) =
            (any_iff (λ m. matches m (url_string u)) ms).0
              ((any-compile_list_iff ps ms (url_string u) h).1 s) in
          inr (inr (inr (inr (l, u, m, n, e))))

  pub HasLeaf_iff :
      (chains : List (List (Certificate Url))) (P Q : Certificate Url → Type 0)
      → ((cert : Certificate Url) → P cert ↔ Q cert)
      → HasLeaf url_string chains P ↔ HasLeaf url_string chains Q
  HasLeaf_iff [] P Q f = (λ h. h, λ h. h)
  HasLeaf_iff ([] ∷ _) P Q f = (λ h. h, λ h. h)
  HasLeaf_iff ((cert ∷ _) ∷ _) P Q f = f cert

  -- With URI patterns as the only entries, a server lets in exactly the clients whose verified leaf
  -- certificate has a URI that one of the patterns means, segment by segment.
  pub verify_peer_certificate_server-compile_list :
      (ps : List Text) (ms : List Matcher) (chains : List (List (Certificate Url)))
      → compile_list ps ≡ ok ms
      → (verify_peer_certificate_server url_string (uri_acl ms) chains ≡ ok tt)
        ↔ HasLeaf url_string chains (HasUri ps)
  verify_peer_certificate_server-compile_list ps ms chains h =
      let (to, from) = verify_peer_certificate_server_iff url_string (uri_acl ms) chains in
      let (sound, complete) =
        HasLeaf_iff chains (IsListed url_string (uri_acl ms)) (HasUri ps)
          (λ cert. IsListed-uri_iff ps ms cert h) in
      (
        λ a. elim (to a).1 [ inl e ↦ cc | inr l ↦ sound l ],
        λ l. from (ne_nil chains l, inr (complete l)),
      )
    where
      ne_nil :
          (chains : List (List (Certificate Url)))
          → HasLeaf url_string chains (HasUri ps)
          → chains ≢ []
      ne_nil [] l = absurd l
      ne_nil (_ ∷ _) l = cc
