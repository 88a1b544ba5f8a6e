-- ===== src/Tunnel/Serving.antt =====
-- When a running tunnel listens, and that a tunnel that was asked to stop can come to its end.
use ghostunnel.Prelude.{◌≡◌, ◌≢◌, refl, subst, ap, ◌∙◌, Bool, true, false, none}
use ghostunnel.Certloader.Reload.{Certificate, get_certificate}
use ghostunnel.Proxy.Steps.{State, Stage, not_called, returned, Reachable, WaitReturns}
use ghostunnel.Proxy.Counts.{total, is_fusing, quit_at, listening_at}
use ghostunnel.Proxy.Invariant.{Reachable-Stages}
use ghostunnel.Proxy.Wait.{WaitReturns-iff}
use ghostunnel.Tunnel.Steps.{
  Main, preparing, starting, stopping, waiting, exited, forced, handling, Tunnel, Runs,
}
use ghostunnel.Tunnel.Invariant.{AtStage, Consistent, Runs-Consistent}

-- What a client of the tunnel sees in the states of a main goroutine.
abbrev pub Seen : {Key : Type 0} → Main Key → State → Type 0
Seen preparing p = (p.listening ≡ true) × (p.quit ≡ false)
Seen starting p = (p.listening ≡ true) × (p.quit ≡ false)
Seen (handling _) p = (p.listening ≡ true) × (p.quit ≡ false)
Seen waiting p = (p.listening ≡ false) × (p.quit ≡ true)
Seen exited p = (p.listening ≡ false) × (p.quit ≡ true) × (total is_fusing p.handlers ≡ 0)
Seen stopping p = Unit
Seen forced p = Unit

pub at_stage :
    {proxy_protocol : Bool} (p : State) (x : Stage)
    → Reachable proxy_protocol p
    → p.shutdown ≡ x
    → (p.listening ≡ listening_at x) × (p.quit ≡ quit_at x)
at_stage p x r e =
    let i = Reachable-Stages p r in (i.listening ∙ ap listening_at e, i.quit ∙ ap quit_at e)

pub Consistent-Seen :
    {Key : Type 0} {proxy_protocol : Bool} (t : Tunnel Key) (m : Main Key)
    → t.main ≡ m
    → Consistent proxy_protocol t
    → Seen m t.proxy
Consistent-Seen t preparing e c =
    at_stage t.proxy not_called c.reached (subst (λ (m : Main _). AtStage m t.proxy) e c.stage)
Consistent-Seen t starting e c =
    at_stage t.proxy not_called c.reached (subst (λ (m : Main _). AtStage m t.proxy) e c.stage)
Consistent-Seen t (handling x) e c =
    at_stage t.proxy not_called c.reached (subst (λ (m : Main _). AtStage m t.proxy) e c.stage)
Consistent-Seen t waiting e c =
    at_stage t.proxy returned c.reached (subst (λ (m : Main _). AtStage m t.proxy) e c.stage)
Consistent-Seen t exited e c =
    let w : WaitReturns t.proxy = subst (λ (m : Main _). AtStage m t.proxy) e c.stage in
    let (s, z) = (WaitReturns-iff t.proxy c.reached).0 w in
    let (l, q) = at_stage t.proxy returned c.reached s in (l, q, z)
Consistent-Seen t stopping e c = tt
Consistent-Seen t forced e c = tt

-- A running tunnel, at every time: while the main goroutine handles signals, reloads included, the
-- listener is open; in `Wait` it is closed, and no connection is accepted any more; and when the
-- program returns, other than by the timer of the shutdown, no connection is being copied.
pub Runs-Seen :
    {Key : Type 0} {timed proxy_protocol : Bool} (cert : Certificate Key) (t : Tunnel Key)
    → get_certificate cert ≢ none
    → Runs timed proxy_protocol cert t
    → Seen t.main t.proxy
Runs-Seen cert t s r = Consistent-Seen t t.main refl (Runs-Consistent cert t s r)
