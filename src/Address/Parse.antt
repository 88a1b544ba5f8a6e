-- ===== src/Address/Parse.antt =====
-- main.go: `parseUnixOrTCPAddress` and `validateUnixOrLocalhost`.
use ghostunnel.Prelude.{
  Bool, true, false, [], ◌∷◌, if◌then◌else◌, Text, codes, has_prefix, Result, ok, err, ◌>>=◌,
}
use ghostunnel.Address.HostPort.{AddressError, unresolved, split_host_port}

pub data Network : Type 0 where
  unix tcp : Network

pub record Address : Type 0 where
  pub network : Network
  pub address : Text
  pub host : Text

abbrev pub unix_prefix : Text
unix_prefix = codes "unix:"

abbrev pub drop_prefix : Text → Text → Text
drop_prefix [] s = s
drop_prefix (_ ∷ p) [] = []
drop_prefix (_ ∷ p) (_ ∷ s) = drop_prefix p s

-- `resolves` is `net.ResolveTCPAddr("tcp", ...)`, which asks the system's resolver.
unfoldable pub parse_unix_or_tcp_address : (Text → Bool) → Text → Result AddressError Address
parse_unix_or_tcp_address resolves input =
    if has_prefix input unix_prefix
    then ok (record { network = unix; address = drop_prefix unix_prefix input; host = [] })
    else (do
      (host, _) ← split_host_port input
      if resolves input
          then ok (record { network = tcp; address = input; host = host })
          else err unresolved)

unfoldable pub validate_unix_or_localhost : Text → Bool
validate_unix_or_localhost addr =
    if has_prefix addr unix_prefix
    then true
    else if has_prefix addr (codes "127.0.0.1:")
    then true
    else if has_prefix addr (codes "[::1]:")
    then true
    else if has_prefix addr (codes "localhost:")
    then true
    else false
