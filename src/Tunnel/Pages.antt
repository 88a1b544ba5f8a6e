-- ===== src/Tunnel/Pages.antt =====
-- status.go, signals.go and main.go: what the status says at each place of the main goroutine.
use ghostunnel.Prelude.{◌≡◌, refl, subst, Bool, true, false, codes, ok}
use ghostunnel.Certloader.Source.{TlsCertificate, Source}
use ghostunnel.Certloader.Reload.{Certificate, load}
use ghostunnel.Certloader.Store.{store}
use ghostunnel.Status.Handler.{
  StatusHandler, new_status_handler, set_listening, set_reloading, message_of,
}
use ghostunnel.Proxy.Steps.{new_proxy}
use ghostunnel.Tunnel.Steps.{
  ReloadStage, idle, marked, stored, read, Main, preparing, starting, stopping, waiting, exited,
  forced, handling, Tunnel, new_tunnel, ReloadStep, mark, load_cert, store_cert, unmark, TunnelStep,
  start_error, start_accept, listen, timer_step, refresh_step, shutdown_signal, proxy_step,
  handler_return, wait_return, force_exit, Runs, start, next,
}

-- The status at a place of the main goroutine, when nothing else reloads. Nothing sets it back when
-- the listener closes.
abbrev pub SaysAt : {Key : Type 0} → Main Key → StatusHandler → Type 0
SaysAt preparing s = s ≡ record { listening = false; reloading = false }
SaysAt starting s = s ≡ record { listening = false; reloading = false }
SaysAt (handling idle) s = s ≡ record { listening = true; reloading = false }
SaysAt (handling _) s = s ≡ record { listening = true; reloading = true }
SaysAt stopping s = s ≡ record { listening = true; reloading = false }
SaysAt waiting s = s ≡ record { listening = true; reloading = false }
SaysAt exited s = s ≡ record { listening = true; reloading = false }
SaysAt forced s = Unit

module _ {Key : Type 0} where
  reload-SaysAt :
      (t u : Tunnel Key) (from to : ReloadStage Key)
      → ReloadStep t from to u
      → SaysAt (handling from) t.status
      → SaysAt (handling to) u.status
  unfolding set_listening set_reloading
  reload-SaysAt t _ _ _ mark h = rw h refl
  reload-SaysAt t _ _ _ (load_cert source r e n) h = h
  reload-SaysAt t _ _ _ (store_cert r) h = h
  reload-SaysAt t _ _ _ unmark h = refl

  step-SaysAt :
      {proxy_protocol : Bool} (t u : Tunnel Key)
      → TunnelStep false proxy_protocol t u
      → SaysAt t.main t.status
      → SaysAt u.main u.status
  unfolding set_listening
  step-SaysAt t _ (start_error e) h = tt
  step-SaysAt t _ (start_accept e) h = subst (λ (m : Main Key). SaysAt m t.status) e h
  step-SaysAt t _ (listen e) h = refl
  step-SaysAt t _ (timer_step from to n _ _ _) h = cc
  step-SaysAt t _ (refresh_step {u = u} from to e s) h =
      reload-SaysAt t u from to s (subst (λ (m : Main Key). SaysAt m t.status) e h)
  step-SaysAt t _ (shutdown_signal e) h = subst (λ (m : Main Key). SaysAt m t.status) e h
  step-SaysAt t _ (proxy_step p _ _ _) h = h
  step-SaysAt t _ (handler_return e _) h = subst (λ (m : Main Key). SaysAt m t.status) e h
  step-SaysAt t _ (wait_return e _) h = subst (λ (m : Main Key). SaysAt m t.status) e h
  step-SaysAt t _ (force_exit e) h = tt

  -- Without a timer of reloads the status is given by the place of the main goroutine at every time of
  -- a run: that of a tunnel that does not listen until the accept loop was started and `run` says so;
  -- then that of one that listens, with that of a reload exactly from the beginning to the end of one.
  -- It stays that of a tunnel that listens during the shutdown, the drain and after the return, where
  -- the listener may be closed; of an aborted process nothing is said.
  pub Runs-SaysAt :
      {proxy_protocol : Bool} (cert : Certificate Key) (t : Tunnel Key)
      → Runs false proxy_protocol cert t
      → SaysAt t.main t.status
  unfolding new_tunnel new_status_handler
  Runs-SaysAt cert _ start = refl
  Runs-SaysAt cert u (next {t = t} r s) = step-SaysAt t u s (Runs-SaysAt cert t r)

  -- A tunnel that was not started and whose page says that it listens.
  pub record Early (cert : Certificate Key) (new : TlsCertificate Key) : Type 0 where
    pub tunnel : Tunnel Key
    pub runs : Runs true false cert tunnel
    pub not_started : tunnel.main ≡ preparing
    pub served : tunnel.cert ≡ store cert (ok new)
    pub message : message_of tunnel.status ≡ codes "listening"

  -- With a timer it is not so: for every certificate and every load of it that succeeds, a reload of the
  -- timer that ends before the accept loop is started leaves a page that says that the tunnel
  -- listens.
  pub timer-Early :
      (cert : Certificate Key) (source : Source Key) (new : TlsCertificate Key)
      → load source cert ≡ ok new
      → Early cert new
  unfolding new_tunnel set_listening
  timer-Early cert source new e = record {
    tunnel = at (set_listening (set_reloading new_status_handler)) (store cert (ok new)) idle;
    runs =
        next
          (next
            (next
              (next {u = at busy cert marked} start (
                timer_step {t = at new_status_handler cert idle} {u = at busy cert idle} idle marked
                  refl refl refl mark))
              (timer_step {t = at busy cert marked} {u = at busy cert marked} marked (read (ok new))
                refl refl refl (load_cert source (ok new) e (λ h. cc))))
            (timer_step {t = at busy cert (read (ok new))}
              {u = at busy (store cert (ok new)) (read (ok new))} (read (ok new)) stored refl refl
              refl (store_cert (ok new))))
          (timer_step {t = at busy (store cert (ok new)) stored}
            {u = at (set_listening busy) (store cert (ok new)) stored} stored idle refl refl refl
            unmark);
    not_started = refl;
    served = refl;
    message = refl;
  }
    where
      busy : StatusHandler
      busy = set_reloading new_status_handler

      at : StatusHandler → Certificate Key → ReloadStage Key → Tunnel Key
      at s c x = record { status = s; cert = c; main = preparing; timer = x; proxy = new_proxy }
