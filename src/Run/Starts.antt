-- ===== src/Run/Starts.antt =====
-- main.go: what a server has when it has started, and how a start can end the program.
use ghostunnel.Prelude.{
  ◌≡◌, refl, sym, ap, subst, ◌∙◌, inl, inr, Bool, true, false, Bool-cases, Option, none, some, [],
  if◌then◌else◌, Text, split, Result, ok, err, panic, >>=-eq-ok, ok-injective,
}
use ghostunnel.Certloader.Source.{Source}
use ghostunnel.Certloader.Reload.{Certificate}
use ghostunnel.Certloader.Reloads.{Created}
use ghostunnel.Wildcard.Compile.{compile_list}
use ghostunnel.Wildcard.Lists.{Compiled, compile_list-Compiled}
use ghostunnel.Tls.Suites.{collect_suites}
use ghostunnel.Tls.Config.{
  bad_suite, no_client_cert, Config, CaSource, with_error, build_config, ca_bundle,
}
use ghostunnel.Address.Parse.{tcp, Address, parse_unix_or_tcp_address}
use ghostunnel.Status.Handler.{set_listening}
use ghostunnel.Signals.Handler.{Context}
use ghostunnel.Flags.Validate.{CommonFlags, ServerFlags, given, server_validate_flags}
use ghostunnel.Flags.Modes.{server_validate_flags_iff}
use ghostunnel.Run.System.{System, RunError, bad_config, bad_pattern, bad_address, no_listener}
use ghostunnel.Run.Certificates.{build_certificate}
use ghostunnel.Run.Server.{
  ServerTls, ServerProxy, StatusServer, method_value, is_tcp, listen_status, serve_status,
  maybe_serve_status, server_tls, server_start,
}
use ghostunnel.Run.Laws.{build_certificate-FromFlags}

pub with_error-eq-ok :
    {E A : Type 0} (f : E → RunError) (r : Result E A) {a : A} → with_error f r ≡ ok a → r ≡ ok a
with_error-eq-ok f (ok a) h = cc
with_error-eq-ok f (err e) h = cc
with_error-eq-ok f panic h = cc

-- A server with flags that pass validation has a certificate that one of the constructors returned:
-- the nil certificate is left to clients.
pub server_validate_flags-Created :
    {Key : Type 0} (source : Source Key) (f : ServerFlags) (o : Option (Certificate Key))
    → server_validate_flags f ≡ ok tt
    → build_certificate source f.common f.common.keystore_path f.common.keystore_pass ≡ ok o
    → (c : Certificate Key) × (o ≡ some c) × Created source c
server_validate_flags-Created source f none v b =
    let (p, i, k) = build_certificate-FromFlags source f.common none b in
    elim ((server_validate_flags_iff f).0 v).0 [ inl (g, _) ↦ cc (g, k) | inr (_, g) ↦ cc (g, i) ]
server_validate_flags-Created source f (some c) v b =
    (c, refl, (build_certificate-FromFlags source f.common (some c) b).0)

build_config-no_client_cert :
    {Pool : Type 0} (source : CaSource Pool) (suites path : Text) (config : Config Pool)
    → build_config source suites path ≡ ok config
    → config.client_auth ≡ no_client_cert
unfolding build_config
build_config-no_client_cert {Pool = Pool} source suites path config h =
    let (ca, _, h1) = >>=-eq-ok (ca_bundle source path) _ h in
    let (l, _, h2) =
      >>=-eq-ok (with_error bad_suite (collect_suites [] (split suites b','))) _ h1 in
    sym (ap (λ (c : Config Pool). c.client_auth) (ok-injective h2))

module _ {Key Pool : Type 0} (system : System Key Pool) where
  -- The server's access control list is what the flags say, its URI patterns compiled one by one;
  -- it serves the certificate of the context; and it asks clients for no certificate.
  pub record Configured (f : ServerFlags) (context : Context Key) (tls : ServerTls Key Pool)
      : Type 0 where
    pub cert : context.cert ≡ some tls.certificate
    pub allow_all : tls.acl.allow_all ≡ f.allow_all
    pub allowed_cns : tls.acl.allowed_cns ≡ f.allowed_cns
    pub allowed_ous : tls.acl.allowed_ous ≡ f.allowed_ous
    pub allowed_dnss : tls.acl.allowed_dnss ≡ f.allowed_dnss
    pub allowed_ips : tls.acl.allowed_ips ≡ f.allowed_ips
    pub allowed_uris : Compiled f.allowed_uris tls.acl.allowed_uris
    pub client_auth : tls.config.client_auth ≡ no_client_cert

  server_tls-Configured :
      (f : ServerFlags) (context : Context Key) (tls : ServerTls Key Pool)
      → server_tls system f context ≡ ok tls
      → Configured f context tls
  unfolding server_tls
  server_tls-Configured f context tls h =
      let (config, b, h1) =
        >>=-eq-ok
          (with_error bad_config
            (build_config system.cas f.common.enabled_cipher_suites f.common.ca_bundle_path))
          _ h in
      let (uris, u, h2) = >>=-eq-ok (with_error bad_pattern (compile_list f.allowed_uris)) _ h1 in
      let (certificate, c, h3) = >>=-eq-ok (method_value context.cert) _ h2 in
      let e = sym (ok-injective h3) in
      record {
        cert =
            value context.cert certificate c
            ∙ ap (λ (t : ServerTls Key Pool). some t.certificate) (sym e);
        allow_all = ap (λ (t : ServerTls Key Pool). t.acl.allow_all) e;
        allowed_cns = ap (λ (t : ServerTls Key Pool). t.acl.allowed_cns) e;
        allowed_ous = ap (λ (t : ServerTls Key Pool). t.acl.allowed_ous) e;
        allowed_dnss = ap (λ (t : ServerTls Key Pool). t.acl.allowed_dnss) e;
        allowed_ips = ap (λ (t : ServerTls Key Pool). t.acl.allowed_ips) e;
        allowed_uris =
            subst (λ (t : ServerTls Key Pool). Compiled f.allowed_uris t.acl.allowed_uris) (sym e)
              (compile_list-Compiled f.allowed_uris uris (with_error-eq-ok bad_pattern _ u));
        client_auth =
            ap (λ (t : ServerTls Key Pool). t.config.client_auth) e
            ∙ auth f.disable_auth config (
                build_config-no_client_cert system.cas f.common.enabled_cipher_suites
                  f.common.ca_bundle_path config (with_error-eq-ok bad_config _ b));
      }
    where
      value :
          (o : Option (Certificate Key)) (c : Certificate Key)
          → method_value {E = RunError} o ≡ ok c
          → o ≡ some c
      value none c h = cc
      value (some d) c h = cc

      auth :
          (d : Bool) (config : Config Pool)
          → config.client_auth ≡ no_client_cert
          → (if d then record config { client_auth = no_client_cert } else config).client_auth
            ≡ no_client_cert
      auth true config h = refl
      auth false config h = h

  -- What a server has that has started: its TLS configuration is the one for its flags, its proxy
  -- has the timeout and the PROXY protocol of the flags, its status listens, and the context has
  -- kept its certificate.
  pub record Started (f : ServerFlags) (context context' : Context Key) (p : ServerProxy Key Pool)
      : Type 0 where
    pub configured : Configured f context p.tls
    pub connect_timeout : p.connect_timeout ≡ f.common.timeout_duration
    pub proxy_protocol : p.proxy_protocol ≡ f.proxy_protocol
    pub status : context'.status ≡ record { listening = true; reloading = false }
    pub cert : context'.cert ≡ context.cert

  -- The status page is served over TLS, with the certificate of the tunnel, exactly where its
  -- listener is not a UNIX socket.
  pub record Served (f : CommonFlags) (context context' : Context Key) (s : StatusServer Key)
      : Type 0 where
    pub parsed : Address
    pub parses : parse_unix_or_tcp_address system.resolves f.status_address ≡ ok parsed
    pub bound : (s.network ≡ parsed.network) × (s.address ≡ parsed.address)
    pub over_tls : s.over_tls ≡ is_tcp system parsed.network
    pub certificate : s.certificate ≡ context.cert
    pub cert : context'.cert ≡ context.cert
    pub status_http : context'.status_http ≡ true
    pub status : context'.status ≡ context.status

  -- A listener for the status page that was opened is bound to the parsed address of the flags, is
  -- served over TLS exactly if that is not a UNIX socket, and has the tunnel's certificate; the
  -- context keeps its certificate and its status, and has a server to shut down.
  pub serve_status-Served :
      (f : CommonFlags) (context context' : Context Key) (s : StatusServer Key)
      → serve_status system f context ≡ ok (context', s)
      → Served f context context' s
  unfolding serve_status
  serve_status-Served f context context' s h =
      let (config, _, h1) =
        >>=-eq-ok
          (with_error bad_config (build_config system.cas f.enabled_cipher_suites f.ca_bundle_path))
          _ h in
      let (a, p, h2) =
        >>=-eq-ok
          (with_error bad_address (parse_unix_or_tcp_address system.resolves f.status_address)) _
          h1 in
      let (_, _, h3) = >>=-eq-ok (listen_status system a) _ h2 in
      let e = sym (ok-injective h3) in
      record {
        parsed = a;
        parses = with_error-eq-ok bad_address _ p;
        bound = (
          ap (λ (x : Context Key × StatusServer Key). x.1.network) e,
          ap (λ (x : Context Key × StatusServer Key). x.1.address) e,
        );
        over_tls = ap (λ (x : Context Key × StatusServer Key). x.1.over_tls) e;
        certificate = ap (λ (x : Context Key × StatusServer Key). x.1.certificate) e;
        cert = ap (λ (x : Context Key × StatusServer Key). x.0.cert) e;
        status_http = ap (λ (x : Context Key × StatusServer Key). x.0.status_http) e;
        status = ap (λ (x : Context Key × StatusServer Key). x.0.status) e;
      }

  pub maybe_serve_status-cert :
      (f : CommonFlags) (context context' : Context Key)
      → maybe_serve_status system f context ≡ ok context'
      → context'.cert ≡ context.cert
  unfolding maybe_serve_status
  maybe_serve_status-cert f context context' h = elim (Bool-cases (given f.status_address)) [
    | inl g ↦
        let ((c, s), e, h1) = >>=-eq-ok (serve_status system f context) _ (rw g at h) in
        ap (λ (x : Context Key). x.cert) (sym (ok-injective h1))
        ∙ (serve_status-Served f context c s e).cert
    | inr g ↦ ap (λ (x : Context Key). x.cert) (sym (ok-injective (rw g at h)))
  ]

  -- A server that has started has the configuration of its flags: the proxy's access control list,
  -- timeout and PROXY protocol are those of the flags, it serves the certificate of the context,
  -- which is not nil, its status listens, and its TLS configuration asks clients for no
  -- certificate, whatever the flags.
  pub server_start-Started :
      (f : ServerFlags) (context context' : Context Key) (p : ServerProxy Key Pool)
      → server_start system f context ≡ ok (context', p)
      → Started f context context' p
  unfolding server_start set_listening
  server_start-Started f context context' p h =
      let (tls, t, h1) = >>=-eq-ok (server_tls system f context) _ h in
      let (_, _, h2) =
        >>=-eq-ok (with_error no_listener (system.reuse_port tcp f.listen_address)) _ h1 in
      let (c, m, h3) = >>=-eq-ok (maybe_serve_status system f.common context) _ h2 in
      let e = sym (ok-injective h3) in
      record {
        configured =
            subst (λ (x : Context Key × ServerProxy Key Pool). Configured f context x.1.tls) (sym e)
              (server_tls-Configured f context tls t);
        connect_timeout = ap (λ (x : Context Key × ServerProxy Key Pool). x.1.connect_timeout) e;
        proxy_protocol = ap (λ (x : Context Key × ServerProxy Key Pool). x.1.proxy_protocol) e;
        status = ap (λ (x : Context Key × ServerProxy Key Pool). x.0.status) e;
        cert =
            ap (λ (x : Context Key × ServerProxy Key Pool). x.0.cert) e
            ∙ maybe_serve_status-cert f.common context c m;
      }
