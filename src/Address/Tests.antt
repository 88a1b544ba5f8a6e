-- ===== src/Address/Tests.antt =====
-- main.go: addresses of this machine.
use ghostunnel.Prelude.{◌≡◌, refl, true, Text, codes, has_prefix, ok}
use ghostunnel.Address.HostPort.{cut_first, cut_last, after_bracket, split_host_port}
use ghostunnel.Address.Parse.{Address, tcp, parse_unix_or_tcp_address, validate_unix_or_localhost}
use ghostunnel.Address.Join.{join_host_port, parse-join_host_port}
use ghostunnel.Address.Local.{IsLocal, validate-parse-IsLocal}

abbrev loopback : Text
loopback = codes "[::1]:80"

abbrev parsed : Address
parsed = record { network = tcp; address = loopback; host = codes "::1" }

validated : validate_unix_or_localhost loopback ≡ true
unfolding validate_unix_or_localhost has_prefix
validated = refl

parses : parse_unix_or_tcp_address (λ _. true) loopback ≡ ok parsed
unfolding parse_unix_or_tcp_address has_prefix split_host_port cut_first cut_last after_bracket
parses = refl

validate-parse-IsLocal_example : IsLocal loopback parsed
validate-parse-IsLocal_example = validate-parse-IsLocal (λ _. true) loopback parsed validated parses

parse-join_host_port_example :
    parse_unix_or_tcp_address (λ _. true) (join_host_port (codes "::1") (codes "80"))
    ≡ ok (record {
      network = tcp;
      address = join_host_port (codes "::1") (codes "80");
      host = codes "::1";
    })
parse-join_host_port_example =
    parse-join_host_port (λ _. true) (codes "::1") (codes "80") (refl, refl) refl (refl, refl)
      (λ h. cc) refl
