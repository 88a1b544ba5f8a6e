-- ===== src/Signals/Tests.antt =====
-- signals.go: signals of a run, one by one.
use ghostunnel.Prelude.{◌≡◌, refl, none, some, [], ◌∷◌, Text, codes, ok, err, true, false}
use ghostunnel.Certloader.Source.{Source}
use ghostunnel.Certloader.Keychain.{load_certstore, reload_certstore}
use ghostunnel.Certloader.Reload.{Certificate, certstore}
use ghostunnel.Certloader.Reload
use ghostunnel.Status.Handler.{set_listening, set_reloading}
use ghostunnel.Flags.Validate.{pos}
use ghostunnel.Signals.Handler.{
  sigterm, sigusr1, signal_eq, unix_platform, windows_platform, is_shutdown_signal, Context,
  returned, shutdown_status_http, force_exit_after, shutdown_proxy, shutdown_actions, reload,
  signal_handler, got_signal, drained, killed, wait, handle_and_wait,
}

-- A keychain that cannot be opened.
abbrev locked : Source Text
locked = record {
  open_file = λ _. err [];
  read_pem_blocks = λ _ _ _. record { blocks = []; failed = true };
  read_x509_blocks = λ _. record { calls = []; failed = true };
  encode_to_memory = λ b. b;
  x509_key_pair = λ _ _. err [];
  parse_certificate = λ _. err [];
  pkcs11_key = λ _ _ _ _. err [];
  identities = err (codes "locked");
}

abbrev in_keychain : Certificate Text
in_keychain = certstore (record { common_name = codes "me"; cached = none })

abbrev started : Context Text
started = record {
  status = record { listening = false; reloading = false };
  status_http = true;
  shutdown_timeout = pos 5;
  cert = some in_keychain;
}

-- A reload that fails, then a shutdown signal; the last event is not taken.
stops :
    signal_handler unix_platform
      (pos 0)
      (got_signal sigusr1 locked ∷ got_signal sigterm locked ∷ drained ∷ [])
      started
    ≡ ok (
        returned
          (record started { status = record { listening = true; reloading = false } })
          (shutdown_status_http ∷ force_exit_after (pos 5) ∷ shutdown_proxy ∷ [])
          (drained ∷ []))
unfolding signal_handler shutdown_actions is_shutdown_signal signal_eq unix_platform reload
    Reload.reload reload_certstore load_certstore set_listening set_reloading
stops = refl

-- A second shutdown signal does not wait for the connections.
killed_by_second :
    handle_and_wait unix_platform
      (pos 0)
      (got_signal sigterm locked ∷ got_signal sigterm locked ∷ drained ∷ [])
      started
    ≡ ok (killed sigterm)
unfolding handle_and_wait signal_handler wait shutdown_actions is_shutdown_signal signal_eq
    unix_platform
killed_by_second = refl

-- On Windows a termination signal is not among those that stop the tunnel.
goes_on : is_shutdown_signal windows_platform.shutdown_signals sigterm ≡ false
unfolding is_shutdown_signal signal_eq windows_platform
goes_on = refl
