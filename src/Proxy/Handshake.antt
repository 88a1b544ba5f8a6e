-- ===== src/Proxy/Handshake.antt =====
-- proxy/proxy.go: `forceHandshake`.
use ghostunnel.Prelude.{ℕ, ◌≡◌, refl, ◌↔◌, Bool, if◌then◌else◌, Text, Result, ok, err, panic}

-- An error of a handshake, with what `Timeout` of a `net.Error` says of it; false if it is none.
pub record HandshakeError : Type 0 where
  pub message : Text
  pub timeout : Bool

-- What the three calls on a `tls.Conn` come back with.
pub record TlsCalls : Type 0 where
  pub set_deadline : Result HandshakeError (Unit {0})
  pub handshake : Result HandshakeError (Unit {0})
  pub clear_deadline : Result HandshakeError (Unit {0})

-- The connection that was accepted: a `tls.Conn` or another.
pub data Accepted : Type 0 where
  tls_conn : TlsCalls → Accepted
  raw_conn : Accepted

abbrev pub timeouts_of : Result HandshakeError (Unit {0}) → ℕ
timeouts_of (ok _) = 0
timeouts_of (err e) = if e.timeout then 1 else 0
timeouts_of panic = 0

-- The increment of the counter of timeouts, and the error.
unfoldable pub force_handshake : Accepted → ℕ × Result HandshakeError (Unit {0})
force_handshake raw_conn = (0, ok tt)
force_handshake (tls_conn calls) = deadline calls.set_deadline
  where
    shaken : Result HandshakeError (Unit {0}) → ℕ × Result HandshakeError (Unit {0})
    shaken (ok _) = (0, calls.clear_deadline)
    shaken (err e) = (timeouts_of (err e), err e)
    shaken panic = (0, panic)

    deadline : Result HandshakeError (Unit {0}) → ℕ × Result HandshakeError (Unit {0})
    deadline (ok _) = shaken calls.handshake
    deadline (err e) = (0, err e)
    deadline panic = (0, panic)

-- The three calls all return no error.
abbrev pub Completes : Accepted → Type 0
Completes raw_conn = Unit
Completes (tls_conn calls) =
    (calls.set_deadline ≡ ok tt) × (calls.handshake ≡ ok tt) × (calls.clear_deadline ≡ ok tt)

tls_iff :
    (a b c : Result HandshakeError (Unit {0}))
    → ((force_handshake
          (tls_conn (record { set_deadline = a; handshake = b; clear_deadline = c }))).1
        ≡ ok tt)
      ↔ (((a ≡ ok tt) × (b ≡ ok tt) × (c ≡ ok tt))
          × ((force_handshake
                (tls_conn (record { set_deadline = a; handshake = b; clear_deadline = c }))).0
              ≡ 0))
unfolding force_handshake
tls_iff (ok _) (ok _) c = (λ h. ((refl, refl, h), refl), λ ((_, _, h), _). h)
tls_iff (ok _) (err e) c = (λ h. cc, λ ((_, h, _), _). cc)
tls_iff (ok _) panic c = (λ h. cc, λ ((_, h, _), _). cc)
tls_iff (err e) b c = (λ h. cc, λ ((h, _, _), _). cc)
tls_iff panic b c = (λ h. cc, λ ((h, _, _), _). cc)

-- A TLS connection passes exactly if the handshake succeeds and its deadline is set before and
-- cleared after; a connection of another kind always passes. One that passes counts no timeout.
pub force_handshake_iff :
    (c : Accepted) → ((force_handshake c).1 ≡ ok tt) ↔ (Completes c × ((force_handshake c).0 ≡ 0))
unfolding force_handshake
force_handshake_iff raw_conn = (λ _. (tt, refl), λ _. refl)
force_handshake_iff (tls_conn calls) =
    tls_iff calls.set_deadline calls.handshake calls.clear_deadline
