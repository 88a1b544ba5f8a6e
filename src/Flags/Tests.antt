-- ===== src/Flags/Tests.antt =====
-- main.go: the validation of the sample flags.
use ghostunnel.Prelude.{◌≡◌, ◌↔◌, ◌⊎◌, true, split, ok}
use ghostunnel.Address.Parse.{validate_unix_or_localhost}
use ghostunnel.Tls.Suites.{check_suites}
use ghostunnel.Flags.Validate.{
  has_keychain_identity, given, has_access_flags, server_validate_flags, client_validate_flags,
}
use ghostunnel.Flags.Modes.{
  OneOf₂, OneOf₃, IsHttpProxy, server_validate_flags_iff, client_validate_flags_iff,
}
use ghostunnel.Flags.Samples.{server, client}

server_validate_flags_iff_example : (server_validate_flags server ≡ ok tt) ↔ (
    OneOf₂ (given server.common.keystore_path) (has_keychain_identity server.common)
    × OneOf₃ server.disable_auth server.allow_all (has_access_flags server)
    × ((server.unsafe_target ≡ true) ⊎ (validate_unix_or_localhost server.forward_address ≡ true))
    × (check_suites (split server.common.enabled_cipher_suites b',') ≡ ok tt))
server_validate_flags_iff_example = server_validate_flags_iff server

client_validate_flags_iff_example : (client_validate_flags client ≡ ok tt) ↔ (
    OneOf₃
      (given client.common.keystore_path)
      (has_keychain_identity client.common)
      client.disable_auth
    × ((client.unsafe_listen ≡ true) ⊎ (validate_unix_or_localhost client.listen_address ≡ true))
    × IsHttpProxy client.connect_proxy
    × (check_suites (split client.common.enabled_cipher_suites b',') ≡ ok tt))
client_validate_flags_iff_example = client_validate_flags_iff client
