-- ===== src/Run/Client.antt =====
-- main.go and certloader/dialer.go: the client, its dialer and its listener.
use ghostunnel.Prelude.{
  Bool, true, false, Option, none, some, List, if◌then◌else◌, Text, Result, ok, ◌>>=◌,
}
use ghostunnel.Certloader.Source.{TlsCertificate, Source}
use ghostunnel.Certloader.Reload.{Certificate, get_client_certificate}
use ghostunnel.Wildcard.Compile.{compile_list}
use ghostunnel.Auth.Acl.{Acl}
use ghostunnel.Tls.Config.{no_client_cert, Config, with_error, build_config}
use ghostunnel.Address.Parse.{Network, Address, parse_unix_or_tcp_address}
use ghostunnel.Status.Handler.{set_listening}
use ghostunnel.Signals.Handler.{
  Event, Platform, Context, Listening, reload_handler, handle_and_wait,
}
use ghostunnel.Flags.Validate.{ℤ, ClientFlags, given, client_validate_flags}
use ghostunnel.Run.System.{
  System, RunError, bad_flags, bad_config, bad_address, bad_pattern, no_listener,
}
use ghostunnel.Run.Server.{maybe_serve_status, new_context, prepare}

-- The dialer below TLS: direct, or through a CONNECT proxy with a TLS configuration of its own.
pub data BaseDialer (Pool : Type 0) : Type 0 where
  net_dialer : (timeout : ℤ) → BaseDialer Pool
  http_tunnel : (timeout : ℤ) → (scheme : Text) → Config Pool → BaseDialer Pool

-- `mtlsDialer` with its configuration and what it dials: `GetClientCertificate` is the method of
-- `certificate`, and not set where that is `none`; `VerifyPeerCertificate` is
-- `VerifyPeerCertificateClient` of `acl`.
pub record MtlsDialer (Key Pool : Type 0) : Type 0 where
  pub config : Config Pool
  pub server_name : Text
  pub certificate : Option (Certificate Key)
  pub acl : Acl
  pub timeout : ℤ
  pub dialer : BaseDialer Pool
  pub network : Network
  pub address : Text

-- The certificate that a dial offers to the server, now.
unfoldable pub offered : {Key Pool : Type 0} → MtlsDialer Key Pool → Option (TlsCertificate Key)
offered d = elim d.certificate [ none ↦ none | some c ↦ get_client_certificate c ]

abbrev pub has_proxy : Option Text → Bool
has_proxy none = false
has_proxy (some _) = true

module _ {Key Pool : Type 0} (system : System Key Pool) where
  -- `if *clientConnectProxy != nil`
  unfoldable pub base_dialer : ClientFlags → Result RunError (BaseDialer Pool)
  base_dialer f = over f.connect_proxy
    where
      over : Option Text → Result RunError (BaseDialer Pool)
      over none = ok (net_dialer f.common.timeout_duration)
      over (some scheme) = do
        proxy_config ←
            with_error bad_config
              (build_config system.cas f.common.enabled_cipher_suites f.common.ca_bundle_path)
        ok (http_tunnel f.common.timeout_duration scheme proxy_config)

  unfoldable pub client_backend_dialer :
      ClientFlags → Option (Certificate Key) → Address → Result RunError (MtlsDialer Key Pool)
  client_backend_dialer f cert a = do
    config ←
        with_error bad_config
          (build_config system.cas f.common.enabled_cipher_suites f.common.ca_bundle_path)
    allowed_uris ← with_error bad_pattern (compile_list f.allowed_uris)
    dialer ← base_dialer f
    ok (record {
      config =
          if has_proxy f.connect_proxy
          then record config { client_auth = no_client_cert }
          else config;
      server_name = if given f.server_name then f.server_name else a.host;
      certificate = cert;
      acl = record {
        allow_all = false;
        allowed_cns = f.allowed_cns;
        allowed_ous = f.allowed_ous;
        allowed_dnss = f.allowed_dnss;
        allowed_ips = f.allowed_ips;
        allowed_uris = allowed_uris;
      };
      timeout = f.common.timeout_duration;
      dialer = dialer;
      network = a.network;
      address = a.address;
    })

  -- `clientListen` up to the signal handler.
  unfoldable pub client_start : ClientFlags → Context Key → Result RunError (Context Key)
  client_start f context = do
    a ← with_error bad_address (parse_unix_or_tcp_address system.resolves f.listen_address)
    _ ← with_error no_listener (system.listen a.network a.address)
    context' ← maybe_serve_status system f.common context
    ok (record context' { status = set_listening context'.status })

  unfoldable pub client_listen :
      Platform → List (Event Key) → ClientFlags → Context Key → Result RunError (Listening Key)
  client_listen platform events f context = do
    context' ← client_start f context
    with_error no_listener (handle_and_wait platform f.common.timed_reload events context')

  -- `run` in client mode. The timer of reloads is started before the listener; `early` are its
  -- ticks until the signal handler is called. They come first here, since no part of the start reads
  -- what a reload changes but through the certificate that both share.
  unfoldable pub run_client :
      Platform
      → (early : List (Source Key)) → List (Event Key)
      → ClientFlags
      → Result RunError (Listening Key)
  run_client platform early events f = do
    cert ← prepare system platform f.common
    _ ← with_error bad_flags (client_validate_flags f)
    a ← with_error bad_address (parse_unix_or_tcp_address system.resolves f.forward_address)
    _ ← client_backend_dialer f cert a
    context ←
        with_error no_listener
          (reload_handler f.common.timed_reload early (new_context system f.common cert))
    client_listen platform events f context
