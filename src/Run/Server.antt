-- ===== src/Run/Server.antt =====
-- main.go: the server, and the listener of the status page.
use ghostunnel.Prelude.{
  ℕ, zero, suc, Bool, true, false, Option, none, some, List, if◌then◌else◌, Text, Result, ok, err,
  panic, ◌>>=◌,
}
use ghostunnel.Certloader.Source.{Source}
use ghostunnel.Certloader.Reload.{Certificate}
use ghostunnel.Wildcard.Compile.{compile_list}
use ghostunnel.Auth.Acl.{Acl}
use ghostunnel.Tls.Config.{no_client_cert, Config, with_error, ca_bundle, build_config}
use ghostunnel.Address.Parse.{Network, unix, tcp, Address, parse_unix_or_tcp_address}
use ghostunnel.Status.Handler.{new_status_handler, set_listening}
use ghostunnel.Signals.Handler.{
  Event, Platform, Context, Listening, reload_handler, handle_and_wait,
}
use ghostunnel.Flags.Validate.{
  ℤ, CommonFlags, ServerFlags, given, validate_flags, server_validate_flags,
}
use ghostunnel.Run.System.{
  System, RunError, bad_flags, bad_config, bad_certificate, bad_address, bad_pattern, no_listener,
  no_logger, no_fd_limit,
}
use ghostunnel.Run.Certificates.{build_certificate}

-- The TLS configuration of the server with its two callbacks: `GetCertificate` is the method of
-- `certificate`, and `VerifyPeerCertificate` is `VerifyPeerCertificateServer` of `acl`.
pub record ServerTls (Key Pool : Type 0) : Type 0 where
  pub config : Config Pool
  pub certificate : Certificate Key
  pub acl : Acl

-- The listener of the status page: what it is bound to, whether it is wrapped in TLS, the
-- certificate that it then serves, and whether it has the pages of the profiler.
pub record StatusServer (Key : Type 0) : Type 0 where
  pub network : Network
  pub address : Text
  pub over_tls : Bool
  pub certificate : Option (Certificate Key)
  pub profiler : Bool

-- The arguments of `proxy.New` and `EnableProxyProtocol`.
pub record ServerProxy (Key Pool : Type 0) : Type 0 where
  pub tls : ServerTls Key Pool
  pub connect_timeout : ℤ
  pub proxy_protocol : Bool

-- A method value of a nil interface panics.
abbrev pub method_value {ℓ κ} : {E : Type ℓ} {C : Type κ} → Option C → Result E C
method_value none = panic
method_value (some c) = ok c

module _ {Key Pool : Type 0} (system : System Key Pool) where
  -- The `if network == "unix"`: the type assertion panics on the nil listener of a failed `Listen`.
  unfoldable pub listen_status : Address → Result RunError (Unit {0})
  listen_status a = on a.network
    where
      asserted : Result Text (Unit {0}) → Result RunError (Unit {0})
      asserted (ok _) = ok tt
      asserted (err _) = panic
      asserted panic = panic

      on : Network → Result RunError (Unit {0})
      on unix = asserted (system.listen unix a.address)
      on tcp = with_error no_listener (system.reuse_port tcp a.address)

  abbrev pub is_tcp : Network → Bool
  is_tcp unix = false
  is_tcp tcp = true

  unfoldable pub serve_status :
      CommonFlags → Context Key → Result RunError (Context Key × StatusServer Key)
  serve_status f context = do
    config ←
        with_error bad_config (build_config system.cas f.enabled_cipher_suites f.ca_bundle_path)
    a ← with_error bad_address (parse_unix_or_tcp_address system.resolves f.status_address)
    _ ← listen_status a
    ok (
      record context { status_http = true },
      record {
        network = a.network;
        address = a.address;
        over_tls = is_tcp a.network;
        certificate = context.cert;
        profiler = f.enable_prof;
      },
    )

  -- `if *statusAddress != ""`
  unfoldable pub maybe_serve_status : CommonFlags → Context Key → Result RunError (Context Key)
  maybe_serve_status f context =
      if given f.status_address
      then (do (context', _) ← serve_status f context; ok context')
      else ok context

  unfoldable pub server_tls : ServerFlags → Context Key → Result RunError (ServerTls Key Pool)
  server_tls f context = do
    config ←
        with_error bad_config
          (build_config system.cas f.common.enabled_cipher_suites f.common.ca_bundle_path)
    allowed_uris ← with_error bad_pattern (compile_list f.allowed_uris)
    certificate ← method_value context.cert
    ok (record {
      config = if f.disable_auth then record config { client_auth = no_client_cert } else config;
      certificate = certificate;
      acl = record {
        allow_all = f.allow_all;
        allowed_cns = f.allowed_cns;
        allowed_ous = f.allowed_ous;
        allowed_dnss = f.allowed_dnss;
        allowed_ips = f.allowed_ips;
        allowed_uris = allowed_uris;
      };
    })

  -- `serverListen` up to the signal handler: the proxy, and the context with its status.
  unfoldable pub server_start :
      ServerFlags → Context Key → Result RunError (Context Key × ServerProxy Key Pool)
  server_start f context = do
    tls ← server_tls f context
    _ ← with_error no_listener (system.reuse_port tcp f.listen_address)
    context' ← maybe_serve_status f.common context
    ok (
      record context' { status = set_listening context'.status },
      record {
        tls = tls;
        connect_timeout = f.common.timeout_duration;
        proxy_protocol = f.proxy_protocol;
      },
    )

  unfoldable pub server_listen :
      Platform → List (Event Key) → ServerFlags → Context Key → Result RunError (Listening Key)
  server_listen platform events f context = do
    (context', _) ← server_start f context
    with_error no_listener (handle_and_wait platform f.common.timed_reload events context')

  -- The address that `serverBackendDialer` dials.
  unfoldable pub server_backend_dialer : ServerFlags → Result RunError Address
  server_backend_dialer f =
      with_error bad_address (parse_unix_or_tcp_address system.resolves f.forward_address)

  unfoldable pub new_context : CommonFlags → Option (Certificate Key) → Context Key
  new_context f cert = record {
    status = new_status_handler;
    status_http = false;
    shutdown_timeout = f.shutdown_timeout;
    cert = cert;
  }

  -- The logger stays as it is, or writes to the system's log.
  abbrev pub init_logger : Bool → Result Text (Unit {0})
  init_logger syslog = if syslog then system.new_syslog else ok tt

  -- `if *fdLimit > 0`
  abbrev pub raise_limit : Platform → ℕ → Result Text (Unit {0})
  raise_limit platform zero = ok tt
  raise_limit platform (suc n) = platform.raise system.setrlimit (suc n)

  -- What `run` does before the switch on the mode. A logger that fails ends the program with the
  -- same status as an error of `run`.
  unfoldable pub prepare : Platform → CommonFlags → Result RunError (Option (Certificate Key))
  prepare platform f = do
    _ ← with_error bad_flags (validate_flags f)
    _ ← with_error no_logger (init_logger (platform.use_syslog f.syslog_flag))
    _ ← with_error no_fd_limit (raise_limit platform f.fd_limit)
    _ ← with_error bad_config (ca_bundle system.cas f.ca_bundle_path)
    with_error bad_certificate
        (build_certificate system.certificates f f.keystore_path f.keystore_pass)

  -- `run` in server mode. The timer of reloads is started before the listener; `early` are its
  -- ticks until the signal handler is called. They come first here, since no part of the start reads
  -- what a reload changes but through the certificate that both share.
  unfoldable pub run_server :
      Platform
      → (early : List (Source Key)) → List (Event Key)
      → ServerFlags
      → Result RunError (Listening Key)
  run_server platform early events f = do
    cert ← prepare platform f.common
    _ ← with_error bad_flags (server_validate_flags f)
    _ ← server_backend_dialer f
    context ←
        with_error no_listener
          (reload_handler f.common.timed_reload early (new_context f.common cert))
    server_listen platform events f context
