-- ===== src/Run/Tests.antt =====
-- main.go: runs of the sample flags.
use ghostunnel.Prelude.{
  List, map, All, ◌↔◌, ◌⊎◌, ◌≢◌, ℕ, ◌≡◌, refl, inl, true, false, none, some, [], ◌∷◌, ◌++◌, Text,
  codes, text_eq, has_prefix, split, trim_space, ok, panic,
}
use ghostunnel.Wildcard.Compile.{compile_list_from, compile_list}
use ghostunnel.Auth.Acl.{is_empty, verify_peer_certificate_client, verify_peer_certificate_server}
use ghostunnel.Tls.Suites.{cipher_suites, check_suites, collect_suites}
use ghostunnel.Tls.Config.{ca_bundle, build_config}
use ghostunnel.Address.Parse.{Address, unix, parse_unix_or_tcp_address, validate_unix_or_localhost}
use ghostunnel.Status.Handler.{set_listening, new_status_handler}
use ghostunnel.Signals.Handler.{
  sigint, sigusr1, signal_eq, unix_platform, is_shutdown_signal, Context, Event, got_signal,
  timer_tick, drained, ended, shutdown_actions, reload_handler, reload_ticks,
}
use ghostunnel.Signals.Laws.{reloaded}
use ghostunnel.Signals.Events.{GoesOn}
use ghostunnel.Certloader.Reload
use ghostunnel.Certloader.Reloads.{reloads}
use ghostunnel.Certloader.Keychain.{
  serialize_chain, try_identity, find_identity, load_certstore, reload_certstore,
}
use ghostunnel.Run.Ends.{Stops}
use ghostunnel.Flags.Validate.{
  pos, CommonFlags, has_pkcs11, has_keychain_identity, validate_flags, client_validate_flags,
}
use ghostunnel.Flags.Samples.{common, server, client}
use ghostunnel.Run.System.{System}
use ghostunnel.Run.Certificates.{build_certificate}
use ghostunnel.Run.Server.{
  StatusServer, server_start, server_tls, listen_status, serve_status, maybe_serve_status,
  new_context, prepare, run_server,
}
use ghostunnel.Run.Client.{MtlsDialer, net_dialer, base_dialer, client_backend_dialer}
use ghostunnel.Run.Starts.{Started, server_start-Started}
use ghostunnel.Auth.Acl
use ghostunnel.Auth.Verify.{HasLeaf}
use ghostunnel.Run.Access.{Permits, server_start-Permits}
use ghostunnel.Run.Returns.{before_listen, run_server-returned}
use ghostunnel.Run.Panics.{Calm, Unbound, serve_status-panic_iff}
use ghostunnel.Run.Process.{server_command, exited, main}
use ghostunnel.Run.Exits.{ComesUp, main-server_zero_iff}
use ghostunnel.Run.Accepts.{Unasked, Accepts, client_backend_dialer-Accepts}
use ghostunnel.Run.Dials.{disable_auth-reload_panic}
use ghostunnel.Run.Samples.{
  keychain, host, served, config, created, running, proxied, socket, prepared, server_valid, target,
  starts, keychain-Total,
}

server_start-Started_example : Started host server created running proxied
server_start-Started_example = server_start-Started host server created running proxied starts

-- A refresh signal and a tick, then a shutdown signal, and a tick before the connections drain.
refresh :
    All (GoesOn {Key = ℕ} unix_platform) (got_signal sigusr1 keychain ∷ timer_tick keychain ∷ [])
unfolding is_shutdown_signal signal_eq unix_platform
refresh = (refl, (tt, tt))

ticked_starts :
    server_start host server (before_listen host server served (keychain ∷ []))
    ≡ ok (reloaded (keychain ∷ []) served running, proxied)
unfolding server_start server_tls maybe_serve_status set_listening build_config ca_bundle
    collect_suites split trim_space cipher_suites text_eq compile_list compile_list_from new_context
    reloads Reload.reload reload_certstore load_certstore find_identity try_identity serialize_chain
ticked_starts = refl

run_server-returned_example :
    run_server host unix_platform
      (keychain ∷ [])
      ((got_signal sigusr1 keychain ∷ timer_tick keychain ∷ [])
        ++ got_signal sigint keychain ∷ (map timer_tick (keychain ∷ []) ++ drained ∷ []))
      server
    ≡ ok (
        ended
          (reloaded
            (keychain ∷ [])
            (reloads (keychain ∷ keychain ∷ []) (reloads (keychain ∷ []) served))
            (reloaded
              (keychain ∷ keychain ∷ [])
              (reloads (keychain ∷ []) served)
              (reloaded (keychain ∷ []) served running)))
          (shutdown_actions (reloaded (keychain ∷ []) served running)))
unfolding unix_platform
run_server-returned_example =
    run_server-returned host unix_platform (keychain ∷ [])
      (got_signal sigusr1 keychain ∷ timer_tick keychain ∷ []) sigint keychain (keychain ∷ []) []
      server served (socket (codes "/s")) (reloaded (keychain ∷ []) served running) proxied prepared
      server_valid target ticked_starts (keychain-Total, tt) (keychain-Total, (keychain-Total, tt))
      refresh (inl refl) (keychain-Total, tt)

abbrev with_status : CommonFlags
with_status = record common { status_address = codes "unix:/p" }

status_parses : parse_unix_or_tcp_address host.resolves (codes "unix:/p") ≡ ok (socket (codes "/p"))
unfolding parse_unix_or_tcp_address has_prefix
status_parses = refl

host-Calm : Calm host
host-Calm = record {
  system_cert_pool = tt;
  read_file = λ _. tt;
  listen = λ _ _. tt;
  reuse_port = λ _ _. tt;
}

serve_status-panic_iff_example :
    (serve_status host with_status created ≡ panic) ↔ Unbound host host-Calm with_status
serve_status-panic_iff_example = serve_status-panic_iff host host-Calm with_status created

-- The same system, where sockets can be bound.
abbrev free : System ℕ ℕ
free = record host { listen = λ _ _. ok tt }

abbrev status_server : StatusServer ℕ
status_server = record {
  network = unix;
  address = codes "/p";
  over_tls = false;
  certificate = some served;
  profiler = false;
}

serves :
    serve_status free with_status created
    ≡ ok (record created { status_http = true }, status_server)
unfolding serve_status listen_status build_config ca_bundle collect_suites split trim_space
    cipher_suites text_eq parse_unix_or_tcp_address has_prefix
serves = refl

client_valid : client_validate_flags client ≡ ok tt
unfolding client_validate_flags has_keychain_identity is_empty text_eq validate_unix_or_localhost
    has_prefix check_suites split trim_space cipher_suites
client_valid = refl

no_module : has_pkcs11 client.common ≡ false
unfolding has_pkcs11
no_module = refl

client_prepared : prepare host unix_platform client.common ≡ ok none
unfolding prepare unix_platform validate_flags ca_bundle build_certificate has_pkcs11
    has_keychain_identity text_eq
client_prepared = refl

disable_auth-reload_panic_example :
    reload_handler (pos 1) (keychain ∷ []) (new_context host client.common none) ≡ panic
disable_auth-reload_panic_example =
    disable_auth-reload_panic host unix_platform client none 0 keychain [] client_valid refl
      no_module client_prepared

abbrev dialer : MtlsDialer ℕ ℕ
dialer = record {
  config = config;
  server_name = codes "h";
  certificate = none;
  acl = record {
    allow_all = false;
    allowed_cns = [];
    allowed_ous = [];
    allowed_dnss = [];
    allowed_ips = [];
    allowed_uris = [];
  };
  timeout = pos 10;
  dialer = net_dialer (pos 10);
  network = unix;
  address = codes "/s";
}

abbrev named : Address
named = record { network = unix; address = codes "/s"; host = codes "h" }

dials : client_backend_dialer host client none named ≡ ok dialer
unfolding client_backend_dialer base_dialer build_config ca_bundle collect_suites split trim_space
    cipher_suites text_eq compile_list compile_list_from
dials = refl

abbrev peer : Acl.Certificate Text
peer = record {
  common_name = codes "cn";
  organizational_unit = [];
  dns_names = [];
  ip_addresses = [];
  uris = [];
}

client_backend_dialer-Accepts_example :
    (verify_peer_certificate_client (λ (u : Text). u) dialer.acl ((peer ∷ []) ∷ []) ≡ ok tt) ↔ (
      (((peer ∷ []) ∷ []) ≢ [])
      × (Unasked client
          ⊎ HasLeaf (λ (u : Text). u) ((peer ∷ []) ∷ []) (Accepts host (λ (u : Text). u) client)))
client_backend_dialer-Accepts_example =
    client_backend_dialer-Accepts host (λ (u : Text). u) client none named dialer ((peer ∷ []) ∷ [])
      dials

server_start-Permits_example :
    (verify_peer_certificate_server (λ (u : Text). u) proxied.tls.acl ((peer ∷ []) ∷ []) ≡ ok tt)
    ↔ ((((peer ∷ []) ∷ []) ≢ [])
        × ((server.allow_all ≡ true)
            ⊎ HasLeaf (λ (u : Text). u) ((peer ∷ []) ∷ []) (Permits host (λ (u : Text). u) server)))
server_start-Permits_example =
    server_start-Permits host (λ (u : Text). u) server created running proxied ((peer ∷ []) ∷ [])
      starts

-- A tick, a shutdown signal, and the end of the drain.
abbrev stopping : List (Event ℕ)
stopping = timer_tick keychain ∷ got_signal sigint keychain ∷ drained ∷ []

main-server_zero_iff_example :
    (main host unix_platform [] stopping (server_command server) ≡ exited 0)
    ↔ (ComesUp host unix_platform [] server × Stops unix_platform stopping)
main-server_zero_iff_example =
    main-server_zero_iff host unix_platform [] stopping server
      (keychain-Total, (keychain-Total, (tt, tt)))

comes_up : ComesUp host unix_platform [] server
unfolding new_context new_status_handler reload_handler reload_ticks
comes_up = record {
  cert = some served;
  address = socket (codes "/s");
  reloaded = created;
  context = running;
  proxy = proxied;
  prepared = prepared;
  valid = server_valid;
  target = target;
  ticked = refl;
  started = starts;
}

exits : main host unix_platform [] stopping (server_command server) ≡ exited 0
unfolding is_shutdown_signal signal_eq unix_platform
exits = main-server_zero_iff_example.1 (comes_up, inl (refl, tt))

abbrev client_context : Context ℕ
client_context = record created { cert = none }
