-- ===== src/Run/Access.antt =====
-- main.go, auth/auth.go and wildcard/matcher.go: from the access flags of a server to its verdict.
use ghostunnel.Prelude.{◌≡◌, sym, ◌∙◌, ◌≢◌, ◌↔◌, ◌⊎◌, inl, inr, true, List, [], In, Text, ok}
use ghostunnel.Wildcard.Compile.{Matcher, matches}
use ghostunnel.Wildcard.Lists.{Compiled, any-Compiled_sound, any-Compiled_complete}
use ghostunnel.Auth.Ip.{to_16}
use ghostunnel.Auth.Acl.{Certificate, verify_peer_certificate_server}
use ghostunnel.Auth.Sets.{Shared, Meet}
use ghostunnel.Auth.Verify.{IsListed, HasLeaf, verify_peer_certificate_server_iff}
use ghostunnel.Auth.Uris.{HasUri, HasLeaf_iff}
use ghostunnel.Signals.Handler.{Context}
use ghostunnel.Flags.Validate.{ServerFlags}
use ghostunnel.Run.System.{System}
use ghostunnel.Run.Server.{ServerTls, ServerProxy, server_start}
use ghostunnel.Run.Starts.{Configured, server_start-Started}

module _ {Key Pool Url : Type 0} (system : System Key Pool) (url_string : Url → Text) where
  -- An attribute of the certificate is in the list of its flag; a URI is meant by a pattern.
  abbrev pub Permits : ServerFlags → Certificate Url → Type 0
  Permits f cert =
      In cert.common_name f.allowed_cns
      ⊎ (Shared f.allowed_ous cert.organizational_unit
          ⊎ (Shared f.allowed_dnss cert.dns_names
              ⊎ (Meet (λ l r. to_16 r ≡ to_16 l) f.allowed_ips cert.ip_addresses
                  ⊎ HasUri url_string f.allowed_uris cert)))

  pub uris_iff :
      (ps : List Text) (ms : List Matcher) (cert : Certificate Url)
      → Compiled ps ms
      → Meet (λ l r. matches l (url_string r) ≡ true) ms cert.uris ↔ HasUri url_string ps cert
  uris_iff ps ms cert c = (
    λ (l, u, m, n, e). (u, n, any-Compiled_sound ps ms (url_string u) c l m e),
    λ (u, n, k). let (l, m, e) = any-Compiled_complete ps ms (url_string u) c k in (l, u, m, n, e),
  )

  pub or_iff : {A B C : Type 0} → B ↔ C → (A ⊎ B) ↔ (A ⊎ C)
  or_iff (to, from) = (
    λ s. elim s [ inl a ↦ inl a | inr b ↦ inr (to b) ],
    λ s. elim s [ inl a ↦ inl a | inr c ↦ inr (from c) ],
  )

  IsListed-Permits :
      (f : ServerFlags) (context : Context Key) (tls : ServerTls Key Pool) (cert : Certificate Url)
      → Configured system f context tls
      → IsListed url_string tls.acl cert ↔ Permits f cert
  IsListed-Permits f context tls cert c =
      rw (c.allowed_cns, c.allowed_ous, c.allowed_dnss, c.allowed_ips)
        (or_iff (
          or_iff
            (or_iff (or_iff (uris_iff f.allowed_uris tls.acl.allowed_uris cert c.allowed_uris)))))

  -- Where the check of a started server runs, it lets a client in exactly if its certificate was
  -- verified and either `--allow-all` is given or the leaf of the first verified chain has an
  -- attribute in the list of its flag; a URI is matched by the meaning of the patterns.
  pub server_start-Permits :
      (f : ServerFlags) (context context' : Context Key) (p : ServerProxy Key Pool)
      (chains : List (List (Certificate Url)))
      → server_start system f context ≡ ok (context', p)
      → (verify_peer_certificate_server url_string p.tls.acl chains ≡ ok tt)
        ↔ ((chains ≢ []) × ((f.allow_all ≡ true) ⊎ HasLeaf url_string chains (Permits f)))
  server_start-Permits f context context' p chains h =
      let c = (server_start-Started system f context context' p h).configured in
      let (to, from) = verify_peer_certificate_server_iff url_string p.tls.acl chains in
      let (there, back) =
        HasLeaf_iff url_string chains (IsListed url_string p.tls.acl) (Permits f)
          (λ cert. IsListed-Permits f context p.tls cert c) in
      (
        λ v.
            ((to v).0, elim (to v).1 [ inl a ↦ inl (sym c.allow_all ∙ a) | inr l ↦ inr (there l) ]),
        λ (n, s). from (n, elim s [ inl a ↦ inl (c.allow_all ∙ a) | inr l ↦ inr (back l) ]),
      )
