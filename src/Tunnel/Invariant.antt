-- ===== src/Tunnel/Invariant.antt =====
-- What holds of a running tunnel, whatever the order of the steps of its goroutines.
use ghostunnel.Prelude.{◌≡◌, ◌≢◌, refl, sym, subst, ap, ◌∙◌, ◌⊎◌, inl, inr, Bool, true, none}
use ghostunnel.Certloader.Reload.{Certificate, get_certificate}
use ghostunnel.Certloader.Store.{store-served}
use ghostunnel.Proxy.Steps.{
  State, Stage, not_called, returned, Step, new_proxy, Reachable, WaitReturns,
}
use ghostunnel.Proxy.Steps
use ghostunnel.Tunnel.Steps.{
  ReloadStage, Main, preparing, starting, stopping, waiting, exited, forced, handling, Tunnel,
  new_tunnel, is_serving, ReloadStep, mark, load_cert, store_cert, unmark, TunnelStep, start_error,
  start_accept, listen, timer_step, refresh_step, shutdown_signal, proxy_step, handler_return,
  wait_return, force_exit, Runs, start, next,
}

module _ {Key : Type 0} where
  -- `Shutdown` is called only after a shutdown signal, `Wait` only after it has returned, and the
  -- program returns only after `Wait`.
  abbrev pub AtStage : Main Key → State → Type 0
  AtStage preparing p = p.shutdown ≡ not_called
  AtStage starting p = p.shutdown ≡ not_called
  AtStage (handling _) p = p.shutdown ≡ not_called
  AtStage stopping p = Unit
  AtStage waiting p = p.shutdown ≡ returned
  AtStage exited p = WaitReturns p
  AtStage forced p = Unit

  AtStage-step :
      (m : Main Key) (p q : State)
      → is_serving m ≡ true
      → (q.shutdown ≡ p.shutdown) ⊎ (m ≡ stopping)
      → AtStage m p
      → AtStage m q
  AtStage-step preparing p q r e h = cc
  AtStage-step starting p q r (inl e) h = e ∙ h
  AtStage-step starting p q r (inr e) h = cc
  AtStage-step (handling _) p q r (inl e) h = e ∙ h
  AtStage-step (handling _) p q r (inr e) h = cc
  AtStage-step stopping p q r e h = tt
  AtStage-step waiting p q r (inl e) h = e ∙ h
  AtStage-step waiting p q r (inr e) h = cc
  AtStage-step exited p q r e h = cc
  AtStage-step forced p q r e h = cc

  ReloadStep-served :
      (t u : Tunnel Key) (from to : ReloadStage Key)
      → ReloadStep t from to u
      → get_certificate t.cert ≢ none
      → get_certificate u.cert ≢ none
  ReloadStep-served t _ _ _ mark s = s
  ReloadStep-served t _ _ _ (load_cert source r e n) s = s
  ReloadStep-served t _ _ _ (store_cert r) s = store-served t.cert r s
  ReloadStep-served t _ _ _ unmark s = s

  -- A call of `Context.reload` touches neither the proxy nor the main goroutine.
  pub ReloadStep-kept :
      (t u : Tunnel Key) (from to : ReloadStage Key)
      → ReloadStep t from to u
      → (u.main ≡ t.main) × (u.proxy ≡ t.proxy)
  ReloadStep-kept t _ _ _ mark = (refl, refl)
  ReloadStep-kept t _ _ _ (load_cert source r e n) = (refl, refl)
  ReloadStep-kept t _ _ _ (store_cert r) = (refl, refl)
  ReloadStep-kept t _ _ _ unmark = (refl, refl)

  pub record Consistent (proxy_protocol : Bool) (t : Tunnel Key) : Type 0 where
    pub reached : Reachable proxy_protocol t.proxy
    pub stage : AtStage t.main t.proxy
    pub served : get_certificate t.cert ≢ none

  TunnelStep-Consistent :
      {timed proxy_protocol : Bool} (t u : Tunnel Key)
      → TunnelStep timed proxy_protocol t u
      → Consistent proxy_protocol t
      → Consistent proxy_protocol u
  TunnelStep-Consistent t _ (start_error e) c = record {
    reached = c.reached;
    stage = tt;
    served = c.served;
  }
  TunnelStep-Consistent t _ (start_accept e) c = record {
    reached = c.reached;
    stage = subst (λ (m : Main Key). AtStage m t.proxy) e c.stage;
    served = c.served;
  }
  TunnelStep-Consistent t _ (listen e) c = record {
    reached = c.reached;
    stage = subst (λ (m : Main Key). AtStage m t.proxy) e c.stage;
    served = c.served;
  }
  TunnelStep-Consistent {proxy_protocol = b} t _ (timer_step {u = u} from to _ _ _ s) c =
      let (m, p) = ReloadStep-kept t u from to s in
      record {
        reached = subst (Reachable b) (sym p) c.reached;
        stage =
            subst (λ (x : Main Key). AtStage x u.proxy) (sym m)
              (subst (λ (x : State). AtStage t.main x) (sym p) c.stage);
        served = ReloadStep-served t u from to s c.served;
      }
  TunnelStep-Consistent {proxy_protocol = b} t _ (refresh_step {u = u} from to e s) c =
      let (_, p) = ReloadStep-kept t u from to s in
      record {
        reached = subst (Reachable b) (sym p) c.reached;
        stage =
            ap (λ (x : State). x.shutdown) p
            ∙ subst (λ (m : Main Key). AtStage m t.proxy) e c.stage;
        served = ReloadStep-served t u from to s c.served;
      }
  TunnelStep-Consistent t _ (shutdown_signal e) c = record {
    reached = c.reached;
    stage = tt;
    served = c.served;
  }
  TunnelStep-Consistent t _ (proxy_step p r s d) c = record {
    reached = Steps.next c.reached s;
    stage = AtStage-step t.main t.proxy p r d c.stage;
    served = c.served;
  }
  TunnelStep-Consistent t _ (handler_return e r) c = record {
    reached = c.reached;
    stage = r;
    served = c.served;
  }
  TunnelStep-Consistent t _ (wait_return e w) c = record {
    reached = c.reached;
    stage = w;
    served = c.served;
  }
  TunnelStep-Consistent t _ (force_exit e) c = record {
    reached = c.reached;
    stage = tt;
    served = c.served;
  }

  -- A tunnel that was started with a certificate that is not nil: in every order of the steps of the
  -- main goroutine, the timer, the accept loop and the handlers, both reloads included, the
  -- certificate it serves is never nil, the proxy is in one of its reachable states, and the calls
  -- of `Shutdown` and `Wait` stand where the main goroutine makes them.
  pub Runs-Consistent :
      {timed proxy_protocol : Bool} (cert : Certificate Key) (t : Tunnel Key)
      → get_certificate cert ≢ none
      → Runs timed proxy_protocol cert t
      → Consistent proxy_protocol t
  unfolding new_tunnel new_proxy
  Runs-Consistent cert _ s start = record { reached = Steps.start; stage = refl; served = s }
  Runs-Consistent cert u s (next {t = t} r step) =
      TunnelStep-Consistent t u step (Runs-Consistent cert t s r)
