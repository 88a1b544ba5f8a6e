-- ===== src/Proxy/Header.antt =====
-- proxy/proxy.go: `getProxyProtoHeaderFor`, the header that tells the backend who the client is.
use ghostunnel.Prelude.{
  ℕ, ◌≡◌, ◌↔◌, ◌<◌, refl, Bool, true, false, ◌&&◌, ◌||◌, length, ◌==◌, Text, text_eq, Result, ok,
  panic, ◌>>=◌, arith,
}
use Prim.Native.Nat.{◌^◌, ◌%◌}
use ghostunnel.Auth.Ip.{Ip, v4_in_v6_prefix, take}

-- `net.Addr`: a `*net.TCPAddr`, or another type.
pub data NetAddr : Type 0 where
  tcp_addr : (ip : Ip) (port : ℕ) → NetAddr
  other_addr : NetAddr

-- The constants of the library for a stream over IPv4 and over IPv6.
pub data Transport : Type 0 where
  tcp_v4 tcp_v6 : Transport

-- `proxyproto.Header`; the command is always `PROXY`.
pub record Header : Type 0 where
  pub version : ℕ
  pub transport_protocol : Transport
  pub source_address : Ip
  pub destination_address : Ip
  pub source_port : ℕ
  pub destination_port : ℕ

pub record TcpAddr : Type 0 where
  pub ip : Ip
  pub port : ℕ

-- A type assertion without `ok` panics.
abbrev pub as_tcp_addr : NetAddr → Result Text TcpAddr
as_tcp_addr (tcp_addr ip port) = ok (record { ip = ip; port = port })
as_tcp_addr other_addr = panic

unfoldable pub get_proxy_proto_header_for : (remote local : NetAddr) → Result Text Header
get_proxy_proto_header_for remote local = do
  s_addr ← as_tcp_addr remote
  d_addr ← as_tcp_addr local
  ok (record {
    version = 2;
    transport_protocol = tcp_v4;
    source_address = s_addr.ip;
    destination_address = d_addr.ip;
    source_port = s_addr.port % 2 ^ 16;
    destination_port = d_addr.port % 2 ^ 16;
  })

-- `ip.To4() != nil`
abbrev pub is_v4 : Ip → Bool
is_v4 ip = length ip == 4 || (length ip == 16 && text_eq (take 12 ip) v4_in_v6_prefix)

abbrev pub over_v4 : Transport → Bool
over_v4 tcp_v4 = true
over_v4 tcp_v6 = false

-- The header names the two ends of the connection.
abbrev pub Names : Header → (remote local : TcpAddr) → Type 0
Names h remote local =
    (h.source_address ≡ remote.ip)
    × (h.source_port ≡ remote.port)
    × (h.destination_address ≡ local.ip)
    × (h.destination_port ≡ local.port)

-- Both addresses are of the family that the transport announces.
abbrev pub OfFamily : Header → Type 0
OfFamily h =
    (is_v4 h.source_address ≡ over_v4 h.transport_protocol)
    × (is_v4 h.destination_address ≡ over_v4 h.transport_protocol)

port-wrap : (n : ℕ) → n < 0x10000 → n % 2 ^ 16 ≡ n
port-wrap n l = omega arith

-- The header of a connection between two TCP addresses, whose ports are numbers of 16 bits, names
-- both ends as they are; but its addresses are of the family that it announces only if both are
-- IPv4 addresses. A connection over IPv6 is announced as one over IPv4.
pub get_proxy_proto_header_for-Names :
    (remote local : TcpAddr)
    → remote.port < 0x10000
    → local.port < 0x10000
    → (h : Header) × (get_proxy_proto_header_for
          (tcp_addr remote.ip remote.port)
          (tcp_addr local.ip local.port)
        ≡ ok h)
      × Names h remote local
      × (OfFamily h ↔ ((is_v4 remote.ip ≡ true) × (is_v4 local.ip ≡ true)))
unfolding get_proxy_proto_header_for
get_proxy_proto_header_for-Names remote local r l =
    (_, refl, (refl, port-wrap remote.port r, refl, port-wrap local.port l), (λ f. f, λ f. f))
