-- ===== src/Tunnel/Views.antt =====
-- A tunnel as its users see it, and what it promises them.
use ghostunnel.Prelude.{ℕ, suc, ◌≡◌, ◌⊎◌, Bool, true, false, Option, some}
use ghostunnel.Certloader.Source.{TlsCertificate}
use ghostunnel.Certloader.Reload.{get_certificate}
use ghostunnel.Proxy.Counts.{total, is_fusing}
use ghostunnel.Tunnel.Steps.{
  Main, preparing, starting, stopping, waiting, exited, forced, handling, Tunnel,
}

-- The tunnel is being started; it accepts connections; its listener is closed; `run` has returned
-- after the drain; the process has ended by an error of the start or by the timer of the exit.
pub data Mode : Type 0 where
  coming up draining down aborted : Mode

-- The tunnel has not ended.
abbrev pub Alive : Mode → Type 0
Alive down = ⊥
Alive aborted = ⊥
Alive _ = Unit

-- Connections can be copied.
abbrev pub Open : Mode → Type 0
Open m = (m ≡ up) ⊎ (m ≡ draining)

-- The connections that are being copied, and the certificate that a handshake gets.
pub record View (Key : Type 0) : Type 0 where
  pub mode : Mode
  pub live : ℕ
  pub cert : Option (TlsCertificate Key)

-- What a tunnel promises. A connection that is accepted can become live after the listener closes;
-- `finish` is the return of `run`, the only move to `down`; `kill` is an end by an error or by the timer.
pub data Move {Key : Type 0} : View Key → View Key → Type 0 where
  keep : {v : View Key} → Move v v
  renew :
      {v : View Key} (cert : TlsCertificate Key)
      → Alive v.mode
      → Move v (record v { cert = some cert })
  come : {v : View Key} → v.mode ≡ coming → Move v (record v { mode = up })
  join : {v : View Key} → Open v.mode → Move v (record v { live = suc v.live })
  leave : {v : View Key} (n : ℕ) → Open v.mode → v.live ≡ suc n → Move v (record v { live = n })
  stop : {v : View Key} → v.mode ≡ up → Move v (record v { mode = draining })
  finish : {v : View Key} → v.mode ≡ draining → v.live ≡ 0 → Move v (record v { mode = down })
  kill : {v : View Key} → Alive v.mode → Move v (record v { mode = aborted })

abbrev pub mode_at : Bool → Mode
mode_at true = up
mode_at false = draining

abbrev pub mode_of : {Key : Type 0} → Main Key → Bool → Mode
mode_of exited _ = down
mode_of forced _ = aborted
mode_of preparing _ = coming
mode_of starting l = mode_at l
mode_of (handling _) l = mode_at l
mode_of stopping l = mode_at l
mode_of waiting l = mode_at l

abbrev pub view : {Key : Type 0} → Tunnel Key → View Key
view t = record {
  mode = mode_of t.main t.proxy.listening;
  live = total is_fusing t.proxy.handlers;
  cert = get_certificate t.cert;
}
