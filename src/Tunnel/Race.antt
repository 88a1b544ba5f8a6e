-- ===== src/Tunnel/Race.antt =====
-- signals.go: two calls of `Context.reload` at once, that of the timer and that of a signal.
use ghostunnel.Prelude.{◌≡◌, refl, true, false, some, ok}
use ghostunnel.Certloader.Source.{TlsCertificate, Source}
use ghostunnel.Certloader.Reload.{Certificate, get_certificate, load}
use ghostunnel.Certloader.Store.{store, get_certificate-store}
use ghostunnel.Status.Handler.{StatusHandler, new_status_handler, set_listening, set_reloading}
use ghostunnel.Proxy.Steps.{new_proxy}
use ghostunnel.Tunnel.Steps.{
  idle, marked, stored, read, ReloadStage, Main, handling, starting, Tunnel, new_tunnel, mark,
  load_cert, store_cert, unmark, TunnelStep, start_accept, listen, timer_step, refresh_step, Runs,
  start, next, Leads, done, then,
}

-- A reload that is overtaken: `before`, the timer has read `old` and the signal's reload has read
-- nothing; `between`, that reload is over and its certificate is served; `after`, it is not.
pub record Overtaken {Key : Type 0} (cert : Certificate Key) (old new : TlsCertificate Key)
    : Type 0 where
  pub before : Tunnel Key
  pub between : Tunnel Key
  pub after : Tunnel Key
  pub reached : Runs true false cert before
  pub timer_read : before.timer ≡ read (ok old)
  pub signal_waits : before.main ≡ handling marked
  pub reloads : Leads true false before between
  pub signal_done : between.main ≡ handling idle
  pub new_served : get_certificate between.cert ≡ some new
  pub says_listening : between.status.reloading ≡ false
  pub timer_reloads : between.timer ≡ read (ok old)
  pub stores : TunnelStep true false between after
  pub old_served : get_certificate after.cert ≡ some old

module _ {Key : Type 0} (cert : Certificate Key) where
  -- The tunnel with the proxy as it was started.
  abbrev at : StatusHandler → Certificate Key → Main Key → ReloadStage Key → Tunnel Key
  at status c m timer = record {
    status = status;
    cert = c;
    main = m;
    timer = timer;
    proxy = new_proxy;
  }

  abbrev up : StatusHandler
  up = set_listening new_status_handler

  abbrev busy : StatusHandler
  busy = set_reloading up

  -- The timer has read `old`, and a signal has come.
  abbrev timer_has : TlsCertificate Key → Tunnel Key
  timer_has old = at (set_reloading busy) cert (handling marked) (read (ok old))

  timer_has-Runs :
      (first : Source Key) (old : TlsCertificate Key)
      → load first cert ≡ ok old
      → Runs true false cert (timer_has old)
  unfolding new_tunnel
  timer_has-Runs first old e =
      next
        (next
          (next
            (next {u = at up cert (handling idle) idle}
              (next {u = at new_status_handler cert starting idle} start (start_accept refl))
              (listen refl))
            (timer_step {t = at up cert (handling idle) idle}
              {u = at busy cert (handling idle) idle} idle marked refl refl refl mark))
          (timer_step {t = at busy cert (handling idle) marked}
            {u = at busy cert (handling idle) marked} marked (read (ok old)) refl refl refl
            (load_cert first (ok old) e (λ h. cc))))
        (refresh_step {t = at busy cert (handling idle) (read (ok old))}
          {u = at (set_reloading busy) cert (handling idle) (read (ok old))} idle marked refl mark)

  -- The signal's reload, from its load to its end.
  abbrev signal_over : (old new : TlsCertificate Key) → Tunnel Key
  signal_over old new =
      at (set_listening (set_reloading busy)) (store cert (ok new)) (handling idle) (read (ok old))

  signal_over-Leads :
      (second : Source Key) (old new : TlsCertificate Key)
      → load second cert ≡ ok new
      → Leads true false (timer_has old) (signal_over old new)
  signal_over-Leads second old new f =
      let b = set_reloading busy in
      let t = read (ok old) in
      then
        (refresh_step {t = at b cert (handling marked) t} {u = at b cert (handling marked) t} marked
          (read (ok new)) refl (load_cert second (ok new) f (λ h. cc)))
        (then
          (refresh_step {t = at b cert (handling (read (ok new))) t}
            {u = at b (store cert (ok new)) (handling (read (ok new))) t} (read (ok new)) stored
            refl (store_cert (ok new)))
          (then
            (refresh_step {t = at b (store cert (ok new)) (handling stored) t}
              {u = at (set_listening b) (store cert (ok new)) (handling stored) t} stored idle refl
              unmark)
            done))

  -- Nothing orders two calls of `reload`: for every certificate, and every two loads of it that
  -- succeed, the reload of the timer can take the first and that of a signal the second, so that the
  -- one that was read second is served and then replaced by the one that was read first; and while
  -- the timer is still in its reload the status is no longer that of a reload.
  pub reload-Overtaken :
      (first second : Source Key) (old new : TlsCertificate Key)
      → load first cert ≡ ok old
      → load second cert ≡ ok new
      → Overtaken cert old new
  unfolding set_listening
  reload-Overtaken first second old new e f = record {
    before = timer_has old;
    between = signal_over old new;
    after =
        at (set_listening (set_reloading busy)) (store (store cert (ok new)) (ok old))
          (handling idle) stored;
    reached = timer_has-Runs first old e;
    timer_read = refl;
    signal_waits = refl;
    reloads = signal_over-Leads second old new f;
    signal_done = refl;
    new_served = get_certificate-store cert new;
    says_listening = refl;
    timer_reloads = refl;
    stores =
        timer_step {t = signal_over old new}
          {u = at (set_listening (set_reloading busy)) (store (store cert (ok new)) (ok old))
            (handling idle) (read (ok old))}
          (read (ok old)) stored refl refl refl (store_cert (ok old));
    old_served = get_certificate-store (store cert (ok new)) old;
  }
