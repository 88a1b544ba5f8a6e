-- ===== src/Run/Dials.antt =====
-- main.go and certloader/dialer.go: what the dialer of a client is set up with, and a client without a certificate.
use ghostunnel.Prelude.{
  ℕ, suc, ◌≡◌, refl, sym, ap, subst, ◌∙◌, inl, inr, true, false, Option, none, some, List, ◌∷◌,
  if◌then◌else◌, ok, panic, >>=-eq-ok, ok-injective,
}
use ghostunnel.Certloader.Source.{Source}
use ghostunnel.Certloader.Reload.{Certificate}
use ghostunnel.Wildcard.Compile.{compile_list}
use ghostunnel.Wildcard.Lists.{Compiled, compile_list-Compiled}
use ghostunnel.Tls.Config.{with_error, build_config, ca_bundle}
use ghostunnel.Address.Parse.{Address}
use ghostunnel.Signals.Handler.{Platform, reload_handler}
use ghostunnel.Signals.Laws.{reload_handler-panic}
use ghostunnel.Flags.Validate.{
  pos, ClientFlags, given, has_pkcs11, validate_flags, client_validate_flags,
}
use ghostunnel.Flags.Modes.{client_validate_flags_iff}
use ghostunnel.Run.System.{
  System, bad_flags, bad_certificate, bad_config, bad_pattern, no_logger, no_fd_limit,
}
use ghostunnel.Run.Server.{new_context, init_logger, raise_limit, prepare}
use ghostunnel.Run.Laws.{FromFlags, build_certificate-FromFlags}
use ghostunnel.Run.Starts.{with_error-eq-ok}
use ghostunnel.Run.Client.{MtlsDialer, base_dialer, client_backend_dialer}

module _ {Key Pool : Type 0} (system : System Key Pool) where
  -- The dialer of a client dials the address of the flags, offers the given certificate, checks the
  -- server by the name of the flags or else by the host of the address, and by an access control
  -- list that is what the flags say, its URI patterns compiled one by one, and never allows all.
  pub record Dials (f : ClientFlags) (cert : Option (Certificate Key)) (a : Address)
      (d : MtlsDialer Key Pool) : Type 0 where
    pub target : (d.network ≡ a.network) × (d.address ≡ a.address)
    pub certificate : d.certificate ≡ cert
    pub server_name : d.server_name ≡ (if given f.server_name then f.server_name else a.host)
    pub allow_all : d.acl.allow_all ≡ false
    pub allowed_cns : d.acl.allowed_cns ≡ f.allowed_cns
    pub allowed_ous : d.acl.allowed_ous ≡ f.allowed_ous
    pub allowed_dnss : d.acl.allowed_dnss ≡ f.allowed_dnss
    pub allowed_ips : d.acl.allowed_ips ≡ f.allowed_ips
    pub allowed_uris : Compiled f.allowed_uris d.acl.allowed_uris
    pub dialer : base_dialer system f ≡ ok d.dialer

  -- A dialer that is built for a client dials the address of the flags and offers the given
  -- certificate; it checks the server by the name of the flags or else by the host of the address,
  -- and by an access control list that is what the flags say, its URI patterns compiled one by one,
  -- and does not allow all.
  pub client_backend_dialer-Dials :
      (f : ClientFlags) (cert : Option (Certificate Key)) (a : Address) (d : MtlsDialer Key Pool)
      → client_backend_dialer system f cert a ≡ ok d
      → Dials f cert a d
  unfolding client_backend_dialer
  client_backend_dialer-Dials f cert a d h =
      let (config, b, h1) =
        >>=-eq-ok
          (with_error bad_config
            (build_config system.cas f.common.enabled_cipher_suites f.common.ca_bundle_path))
          _ h in
      let (uris, u, h2) = >>=-eq-ok (with_error bad_pattern (compile_list f.allowed_uris)) _ h1 in
      let (dialer, c, h3) = >>=-eq-ok (base_dialer system f) _ h2 in
      let e = sym (ok-injective h3) in
      record {
        target = (
          ap (λ (x : MtlsDialer Key Pool). x.network) e,
          ap (λ (x : MtlsDialer Key Pool). x.address) e,
        );
        certificate = ap (λ (x : MtlsDialer Key Pool). x.certificate) e;
        server_name = ap (λ (x : MtlsDialer Key Pool). x.server_name) e;
        allow_all = ap (λ (x : MtlsDialer Key Pool). x.acl.allow_all) e;
        allowed_cns = ap (λ (x : MtlsDialer Key Pool). x.acl.allowed_cns) e;
        allowed_ous = ap (λ (x : MtlsDialer Key Pool). x.acl.allowed_ous) e;
        allowed_dnss = ap (λ (x : MtlsDialer Key Pool). x.acl.allowed_dnss) e;
        allowed_ips = ap (λ (x : MtlsDialer Key Pool). x.acl.allowed_ips) e;
        allowed_uris =
            subst (λ (x : MtlsDialer Key Pool). Compiled f.allowed_uris x.acl.allowed_uris) (sym e)
              (compile_list-Compiled f.allowed_uris uris (with_error-eq-ok bad_pattern _ u));
        dialer = c ∙ ap (λ (x : MtlsDialer Key Pool). ok x.dialer) (sym e);
      }

  disable_auth-none :
      (platform : Platform) (f : ClientFlags) (o : Option (Certificate Key))
      → client_validate_flags f ≡ ok tt
      → f.disable_auth ≡ true
      → has_pkcs11 f.common ≡ false
      → prepare system platform f.common ≡ ok o
      → o ≡ none
  unfolding prepare
  disable_auth-none platform f o v d p h =
      let (_, _, h1) = >>=-eq-ok (with_error bad_flags (validate_flags f.common)) _ h in
      let (_, _, l) =
        >>=-eq-ok
          (with_error no_logger (init_logger system (platform.use_syslog f.common.syslog_flag))) _
          h1 in
      let (_, _, r) =
        >>=-eq-ok (with_error no_fd_limit (raise_limit system platform f.common.fd_limit)) _ l in
      let (_, _, h2) =
        >>=-eq-ok (with_error bad_config (ca_bundle system.cas f.common.ca_bundle_path)) _ r in
      unset o (
        build_certificate-FromFlags system.certificates f.common o
          (with_error-eq-ok bad_certificate _ h2))
    where
      unset : (o : Option (Certificate Key)) → FromFlags system.certificates f.common o → o ≡ none
      unset none _ = refl
      unset (some c) (_, s) = elim ((client_validate_flags_iff f).0 v).0 [
        | inl (_, _, n) ↦ cc (n, d)
        | inr (inl (_, _, n)) ↦ cc (n, d)
        | inr (inr (k, i, _)) ↦ elim s [
          | inl q ↦ cc (q, p)
          | inr (inl q) ↦ cc (q, i)
          | inr (inr q) ↦ cc (q, k)
        ]
      ]

  -- A client that disables authentication, without a PKCS#11 module, has no certificate; the first
  -- reload that its timer asks for ends the program.
  pub disable_auth-reload_panic :
      (platform : Platform) (f : ClientFlags) (o : Option (Certificate Key)) (n : ℕ)
      (source : Source Key) (ticks : List (Source Key))
      → client_validate_flags f ≡ ok tt
      → f.disable_auth ≡ true
      → has_pkcs11 f.common ≡ false
      → prepare system platform f.common ≡ ok o
      → reload_handler (pos (suc n)) (source ∷ ticks) (new_context system f.common o) ≡ panic
  unfolding new_context
  disable_auth-reload_panic platform f o n source ticks v d p h =
      reload_handler-panic n source ticks (new_context system f.common o)
        (disable_auth-none platform f o v d p h)
