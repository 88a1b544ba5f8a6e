-- ===== src/Proxy/Handler.antt =====
-- proxy/proxy.go: the handler of one connection from its handshake to its return, in what it leaves
-- open.
use ghostunnel.Prelude.{
  ◌≡◌, refl, ◌⊎◌, inl, inr, Bool, true, false, Option, none, some, if◌then◌else◌, Text, Result, ok,
  err, panic, ◌>>=◌, ok-injective, subst,
}
use ghostunnel.Proxy.Handshake.{Accepted, HandshakeError, force_handshake}
use ghostunnel.Proxy.Copy.{Conn, Ends, Direction, close, call, fuse, IsShut, fuse-IsShut}
use ghostunnel.Proxy.Header.{NetAddr, Header, get_proxy_proto_header_for}

-- What the handler's calls come back with; `first` is the copy that ends first.
pub record Calls : Type 0 where
  pub incoming : Accepted
  pub dial : Result Text Conn
  pub remote : NetAddr
  pub local : NetAddr
  pub write_to : Header → Result Text (Unit {0})
  pub first : Direction

-- The two connections when the handler has returned; `none` where none was dialed.
pub record Left : Type 0 where
  pub client : Conn
  pub backend : Option Conn

-- An early return: the deferred `conn.Close`.
abbrev pub early : Conn → Option Conn → Left
early client backend = record { client = call close client; backend = backend }

abbrev pub fused_ends : Direction → Conn → Conn → Left
fused_ends first client backend =
    let ends = fuse first (record { client = client; backend = backend }) in
    early ends.client (some ends.backend)

-- `if p.proxyProtocol`
unfoldable pub send_header : Bool → Calls → Result Text (Unit {0})
send_header proxy_protocol w =
    if proxy_protocol
    then (do h ← get_proxy_proto_header_for w.remote w.local; w.write_to h)
    else ok tt

abbrev pub after_header : Direction → Conn → Conn → Result Text (Unit {0}) → Result Text Left
after_header first client backend (ok _) = ok (fused_ends first client backend)
after_header first client backend (err _) = ok (early client (some backend))
after_header first client backend panic = panic

abbrev pub after_dialing : Bool → Calls → Conn → Result Text Conn → Result Text Left
after_dialing proxy_protocol w client (ok backend) =
    after_header w.first client backend (send_header proxy_protocol w)
after_dialing proxy_protocol w client (err _) = ok (early client none)
after_dialing proxy_protocol w client panic = panic

abbrev pub after_handshake :
    Bool → Calls → Conn → Result HandshakeError (Unit {0}) → Result Text Left
after_handshake proxy_protocol w client (ok _) = after_dialing proxy_protocol w client w.dial
after_handshake proxy_protocol w client (err _) = ok (early client none)
after_handshake proxy_protocol w client panic = panic

unfoldable pub handle_conn : (proxy_protocol : Bool) → Calls → Conn → Result Text Left
handle_conn proxy_protocol w client =
    after_handshake proxy_protocol w client (force_handshake w.incoming).1

-- The backend when the handler has returned: never dialed, or shut, or as it was dialed.
abbrev pub Backend : Bool → Calls → Option Conn → Type 0
Backend proxy_protocol w left =
    (left ≡ none)
    ⊎ (((b : Conn) × (left ≡ some b) × IsShut b)
        ⊎ ((proxy_protocol ≡ true)
            × ((e : Text) × (b : Conn) × (send_header proxy_protocol w ≡ err e)
                × (w.dial ≡ ok b)
                × (left ≡ some b))))

early-IsShut : (client : Conn) (backend : Option Conn) → IsShut (early client backend).client
unfolding call
early-IsShut client backend = (refl, refl)

-- What is left is of the shape the theorem names.
abbrev LeftIs : Bool → Calls → Left → Type 0
LeftIs b w left = IsShut left.client × Backend b w left.backend

on_proxy : (b : Bool) (w : Calls) (e : Text) → send_header b w ≡ err e → b ≡ true
unfolding send_header
on_proxy true w e s = refl
on_proxy false w e s = cc

fused-LeftIs :
    (b : Bool) (w : Calls) (client backend : Conn) → LeftIs b w (fused_ends w.first client backend)
fused-LeftIs b w client backend =
    let ends : Ends = record { client = client; backend = backend } in
    (
      early-IsShut (fuse w.first ends).client none,
      inr (inl ((fuse w.first ends).backend, refl, (fuse-IsShut w.first ends).1)),
    )

header-LeftIs :
    (b : Bool) (w : Calls) (client backend : Conn) (r : Result Text (Unit {0})) (left : Left)
    → send_header b w ≡ r
    → w.dial ≡ ok backend
    → after_header w.first client backend r ≡ ok left
    → LeftIs b w left
header-LeftIs b w client backend (ok _) left s d h =
    subst (LeftIs b w) (ok-injective h) (fused-LeftIs b w client backend)
header-LeftIs b w client backend (err e) left s d h =
    subst (LeftIs b w) (ok-injective h)
      (early-IsShut client none, inr (inr (on_proxy b w e s, (e, backend, s, d, refl))))
header-LeftIs b w client backend panic left s d h = cc

none-LeftIs :
    (b : Bool) (w : Calls) (client : Conn) (left : Left)
    → ◌≡◌ {A = Result Text Left} (ok (early client none)) (ok left)
    → LeftIs b w left
none-LeftIs b w client left h =
    subst (LeftIs b w) (ok-injective h) (early-IsShut client none, inl refl)

dialing-LeftIs :
    (b : Bool) (w : Calls) (client : Conn) (r : Result Text Conn) (left : Left)
    → w.dial ≡ r
    → after_dialing b w client r ≡ ok left
    → LeftIs b w left
dialing-LeftIs b w client (ok backend) left d h =
    header-LeftIs b w client backend (send_header b w) left refl d h
dialing-LeftIs b w client (err _) left d h = none-LeftIs b w client left h
dialing-LeftIs b w client panic left d h = cc

handshake-LeftIs :
    (b : Bool) (w : Calls) (client : Conn) (r : Result HandshakeError (Unit {0})) (left : Left)
    → after_handshake b w client r ≡ ok left
    → LeftIs b w left
handshake-LeftIs b w client (ok _) left h = dialing-LeftIs b w client w.dial left refl h
handshake-LeftIs b w client (err _) left h = none-LeftIs b w client left h
handshake-LeftIs b w client panic left h = cc

-- A handler that returns has shut the connection of its client; that of the backend was never
-- dialed, or is shut, or it is open as it was dialed, and that is so only where the header of the
-- PROXY protocol could not be written to it.
pub handle_conn-Backend :
    (proxy_protocol : Bool) (w : Calls) (client : Conn) (left : Left)
    → handle_conn proxy_protocol w client ≡ ok left
    → IsShut left.client × Backend proxy_protocol w left.backend
unfolding handle_conn
handle_conn-Backend b w client left h =
    handshake-LeftIs b w client (force_handshake w.incoming).1 left h
