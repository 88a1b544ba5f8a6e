-- ===== src/Tunnel/Ends.antt =====
-- A tunnel that was told to shut down can always come to its end without being killed.
use ghostunnel.Prelude.{
  ℕ, zero, suc, ◌≤◌, ◌≡◌, ◌≢◌, refl, sym, subst, ap, ◌∙◌, ◌⊎◌, inl, inr, Bool, none, arith,
}
use ghostunnel.Certloader.Reload.{Certificate, get_certificate}
use ghostunnel.Proxy.Steps.{
  State, Stage, not_called, loaded, stored, listener_closed, returned, Step, accept, accept_error,
  accept_return, handshake_ok, handshake_error, dial_ok, dial_error, header_ok, header_error, serve,
  fused, shutdown_load, shutdown_store, shutdown_close, shutdown_done, Reachable, WaitReturns,
}
use ghostunnel.Proxy.Drain.{remaining, remaining-Step, remaining-progress, remaining-WaitReturns}
use ghostunnel.Proxy.Steps
use ghostunnel.Tunnel.Steps.{
  idle, Main, stopping, waiting, exited, handling, Tunnel, is_serving, TunnelStep, shutdown_signal,
  proxy_step, handler_return, wait_return, Runs, Leads, done, then,
}
use ghostunnel.Tunnel.Invariant.{AtStage, Runs-Consistent}
use ghostunnel.Tunnel.Serving.{at_stage}

-- After `Shutdown` has returned no step of the proxy changes that.
returned-Step :
    {proxy_protocol : Bool} (s t : State)
    → Step proxy_protocol s t
    → s.shutdown ≡ returned
    → t.shutdown ≡ returned
returned-Step s _ (accept a l) e = e
returned-Step s _ (accept_error a q) e = e
returned-Step s _ (accept_return a q) e = e
returned-Step s _ (handshake_ok b a c h k) e = e
returned-Step s _ (handshake_error b a c x h k) e = e
returned-Step s _ (dial_ok b a h) e = e
returned-Step s _ (dial_error b a h) e = e
returned-Step s _ (header_ok b a h) e = e
returned-Step s _ (header_error b a h) e = e
returned-Step s _ (serve b a h) e = e
returned-Step s _ (fused b a h) e = e
returned-Step s _ (shutdown_load h q) e = cc
returned-Step s _ (shutdown_store h) e = cc
returned-Step s _ (shutdown_close h) e = cc
returned-Step s _ (shutdown_done h) e = refl

-- The main goroutine waits for a signal, or is in `Shutdown`, or in `Wait`.
abbrev pub CanStop : {Key : Type 0} → Main Key → Type 0
CanStop m = (m ≡ handling idle) ⊎ (m ≡ stopping) ⊎ (m ≡ waiting)

module _ {Key : Type 0} (timed proxy_protocol : Bool) where
  -- A state from which the program can return.
  abbrev pub CanEnd : Tunnel Key → Type 0
  CanEnd t = (u : Tunnel Key) × Leads timed proxy_protocol t u × (u.main ≡ exited)

  after : (t u : Tunnel Key) → TunnelStep timed proxy_protocol t u → CanEnd u → CanEnd t
  after t u s (v, l, e) = (v, then s l, e)

  stop_step :
      (t : Tunnel Key) (p : State)
      → t.main ≡ stopping
      → Step proxy_protocol t.proxy p
      → CanEnd (record t { proxy = p })
      → CanEnd t
  stop_step t p m x c =
      after t (record t { proxy = p }) (proxy_step p (ap is_serving m) x (inr m)) c

  wait-CanEnd :
      (t : Tunnel Key)
      → t.main ≡ waiting
      → Reachable proxy_protocol t.proxy
      → remaining t.proxy ≡ 0
      → CanEnd t
  wait-CanEnd t m r z = (_, then (wait_return m (remaining-WaitReturns t.proxy r z).0) done, refl)

  -- In `Wait`, by the steps that remain.
  waiting-CanEnd :
      (n : ℕ) (t : Tunnel Key)
      → t.main ≡ waiting
      → t.proxy.shutdown ≡ returned
      → Reachable proxy_protocol t.proxy
      → remaining t.proxy ≤ n
      → CanEnd t
  waiting-CanEnd zero t m s r l = wait-CanEnd t m r (omega arith)
  waiting-CanEnd (suc n) t m s r l = elim (zero_or_more (remaining t.proxy)) [
    | inl z ↦ wait-CanEnd t m r z
    | inr k ↦
        let c = (at_stage t.proxy returned r s).0 in
        let (p, x) = remaining-progress t.proxy r c k in
        let d = remaining-Step t.proxy p r c x in
        let e = returned-Step t.proxy p x s in
        after t (record t { proxy = p }) (proxy_step p (ap is_serving m) x (inl (e ∙ sym s)))
          (waiting-CanEnd n (record t { proxy = p }) m e (Steps.next r x) (omega arith))
  ]
    where
      zero_or_more : (k : ℕ) → (k ≡ 0) ⊎ (k ≢ 0)
      zero_or_more zero = inl refl
      zero_or_more (suc k) = inr (λ h. omega arith)

-- The stages of `Shutdown`, the last one first.
abbrev StopsAt : (Key : Type 0) (timed proxy_protocol : Bool) → Stage → Type 0
StopsAt Key timed proxy_protocol x =
    (t : Tunnel Key)
    → t.main ≡ stopping
    → t.proxy.shutdown ≡ x
    → Reachable proxy_protocol t.proxy
    → CanEnd timed proxy_protocol t

module _ {Key : Type 0} (timed proxy_protocol : Bool) where
  stop_returned : StopsAt Key timed proxy_protocol returned
  stop_returned t m s r =
      after timed proxy_protocol t (record t { main = waiting }) (handler_return m s)
        (waiting-CanEnd timed proxy_protocol (remaining t.proxy) (record t { main = waiting }) refl
          s r (omega arith))

  stop_listener_closed : StopsAt Key timed proxy_protocol listener_closed
  stop_listener_closed t m s r =
      stop_step timed proxy_protocol t _ m (shutdown_done s)
        (stop_returned _ m refl (Steps.next r (shutdown_done s)))

  stop_stored : StopsAt Key timed proxy_protocol stored
  stop_stored t m s r =
      stop_step timed proxy_protocol t _ m (shutdown_close s)
        (stop_listener_closed _ m refl (Steps.next r (shutdown_close s)))

  stop_loaded : StopsAt Key timed proxy_protocol loaded
  stop_loaded t m s r =
      stop_step timed proxy_protocol t _ m (shutdown_store s)
        (stop_stored _ m refl (Steps.next r (shutdown_store s)))

  stop_not_called : StopsAt Key timed proxy_protocol not_called
  stop_not_called t m s r =
      let q = (at_stage t.proxy not_called r s).1 in
      stop_step timed proxy_protocol t _ m (shutdown_load s q)
        (stop_loaded _ m refl (Steps.next r (shutdown_load s q)))

  stopping-CanEnd : (x : Stage) → StopsAt Key timed proxy_protocol x
  stopping-CanEnd returned = stop_returned
  stopping-CanEnd listener_closed = stop_listener_closed
  stopping-CanEnd stored = stop_stored
  stopping-CanEnd loaded = stop_loaded
  stopping-CanEnd not_called = stop_not_called

  -- A tunnel that waits for a signal, or that is shutting down, can come to the return of `run`
  -- without the timer of the shutdown: whatever the connections, the reload of the timer and the
  -- stage of `Shutdown`, there is a run of steps to it.
  pub Runs-CanEnd :
      (cert : Certificate Key) (t : Tunnel Key)
      → get_certificate cert ≢ none
      → Runs timed proxy_protocol cert t
      → CanStop t.main
      → CanEnd timed proxy_protocol t
  Runs-CanEnd cert t s r (inl e) =
      let c = Runs-Consistent cert t s r in
      after timed proxy_protocol t (record t { main = stopping }) (shutdown_signal e)
        (stopping-CanEnd t.proxy.shutdown (record t { main = stopping }) refl refl c.reached)
  Runs-CanEnd cert t s r (inr (inl e)) =
      stopping-CanEnd t.proxy.shutdown t e refl (Runs-Consistent cert t s r).reached
  Runs-CanEnd cert t s r (inr (inr e)) =
      let c = Runs-Consistent cert t s r in
      waiting-CanEnd timed proxy_protocol (remaining t.proxy) t e
        (subst (λ (m : Main Key). AtStage m t.proxy) e c.stage) c.reached (omega arith)
