-- ===== src/Run/Succeeds.antt =====
-- main.go: a server whose flags and system are in order does start.
use ghostunnel.Prelude.{List, flat_map, >>=-ok, ◌≡◌, refl, ap, Option, some, split, ok}
use ghostunnel.Certloader.Reload.{Certificate}
use ghostunnel.Wildcard.Compile.{Matcher, compile_list}
use ghostunnel.Tls.Config.{Config, with_error, build_config, ca_bundle}
use ghostunnel.Address.Parse.{tcp}
use ghostunnel.Signals.Handler.{Context}
use ghostunnel.Flags.Validate.{ServerFlags}
use ghostunnel.Run.System.{System, bad_config, bad_pattern, no_listener}
use ghostunnel.Run.Server.{
  ServerTls, ServerProxy, method_value, maybe_serve_status, server_tls, server_start,
}
use ghostunnel.Tls.Laws.{group_of, configured, build_config-check_suites}
use ghostunnel.Tls.Suites.{check_suites}
use ghostunnel.Run.Starts.{Started, server_start-Started}

module _ {Key Pool : Type 0} (system : System Key Pool) where
  server_tls-ok :
      (f : ServerFlags) (context : Context Key) (config : Config Pool) (uris : List Matcher)
      (cert : Certificate Key)
      → build_config system.cas f.common.enabled_cipher_suites f.common.ca_bundle_path ≡ ok config
      → compile_list f.allowed_uris ≡ ok uris
      → context.cert ≡ some cert
      → (tls : ServerTls Key Pool) × (server_tls system f context ≡ ok tls)
  unfolding server_tls
  server_tls-ok f context config uris cert b u c =
      >>=-ok
        (with_error bad_config
          (build_config system.cas f.common.enabled_cipher_suites f.common.ca_bundle_path))
        _ (ap (with_error bad_config) b)
        (>>=-ok (with_error bad_pattern (compile_list f.allowed_uris)) _
          (ap (with_error bad_pattern) u)
          (>>=-ok (method_value context.cert) _
            (ap (λ (o : Option (Certificate Key)). method_value o) c) (_, refl)))

  -- With cipher suites that pass validation, a CA bundle that loads, URI patterns that compile, a
  -- certificate, a port that can be bound, and a status page that is served where one is asked for,
  -- the server starts, and what it has is the configuration of its flags.
  pub server_start-ok :
      (f : ServerFlags) (context context' : Context Key) (pool : Pool) (uris : List Matcher)
      (cert : Certificate Key)
      → check_suites (split f.common.enabled_cipher_suites b',') ≡ ok tt
      → ca_bundle system.cas f.common.ca_bundle_path ≡ ok pool
      → compile_list f.allowed_uris ≡ ok uris
      → context.cert ≡ some cert
      → system.reuse_port tcp f.listen_address ≡ ok tt
      → maybe_serve_status system f.common context ≡ ok context'
      → (t : Context Key) × (p : ServerProxy Key Pool) × (server_start system f context ≡ ok (t, p))
        × Started system f context t p
  unfolding server_start
  server_start-ok f context context' pool uris cert s a u c l m =
      let config =
        configured pool (flat_map group_of (split f.common.enabled_cipher_suites b',')) in
      let b =
        build_config-check_suites system.cas f.common.enabled_cipher_suites f.common.ca_bundle_path
          s in
      let (tls, k) = server_tls-ok f context config uris cert (rw a at b) u c in
      let ((t, p), e) = started tls k in (t, p, e, server_start-Started system f context t p e)
    where
      started :
          (tls : ServerTls Key Pool)
          → server_tls system f context ≡ ok tls
          → (x : Context Key × ServerProxy Key Pool) × (server_start system f context ≡ ok x)
      started tls k = >>=-ok (server_tls system f context) _ k (
          >>=-ok (with_error no_listener (system.reuse_port tcp f.listen_address)) _
            (ap (with_error no_listener) l)
            (>>=-ok (maybe_serve_status system f.common context) _ m (_, refl)))
