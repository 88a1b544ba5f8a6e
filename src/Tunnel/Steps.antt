-- ===== src/Tunnel/Steps.antt =====
-- main.go and signals.go: the goroutine that started the tunnel, the timer of reloads, and the proxy,
-- as steps on what they share.
use ghostunnel.Prelude.{◌≡◌, ◌⊎◌, Bool, true, false, Result, panic, ◌≢◌}
use ghostunnel.Certloader.Source.{TlsCertificate, LoadError, Source}
use ghostunnel.Certloader.Reload.{Certificate, load}
use ghostunnel.Certloader.Store.{store}
use ghostunnel.Status.Handler.{StatusHandler, new_status_handler, set_listening, set_reloading}
use ghostunnel.Proxy.Steps.{State, returned, Step, new_proxy, WaitReturns}

-- Where a call of `Context.reload` is: not made; after `status.Reloading`; in `cert.Reload`, with
-- what was read; after it.
pub data ReloadStage (Key : Type 0) : Type 0 where
  idle marked stored : ReloadStage Key
  read : Result LoadError (TlsCertificate Key) → ReloadStage Key

-- Where the main goroutine is: in the part of the start that can fail; before `status.Listening`; in
-- the loop of the signal handler, waiting or in a reload; after a shutdown signal; in `p.Wait`; and
-- how the program has ended, by the return of `run` without an error, or by an error of the start or
-- the timer of the shutdown.
pub data Main (Key : Type 0) : Type 0 where
  preparing starting stopping waiting exited forced : Main Key
  handling : ReloadStage Key → Main Key

pub record Tunnel (Key : Type 0) : Type 0 where
  pub status : StatusHandler
  pub cert : Certificate Key
  pub main : Main Key
  pub timer : ReloadStage Key
  pub proxy : State

-- After `go context.reloadHandler`; the proxy is the one that the start makes.
unfoldable pub new_tunnel : {Key : Type 0} → Certificate Key → Tunnel Key
new_tunnel cert = record {
  status = new_status_handler;
  cert = cert;
  main = preparing;
  timer = idle;
  proxy = new_proxy;
}

-- The program has not ended.
abbrev pub is_running : {Key : Type 0} → Main Key → Bool
is_running exited = false
is_running forced = false
is_running preparing = true
is_running starting = true
is_running stopping = true
is_running waiting = true
is_running (handling _) = true

-- The accept loop was started, and the program has not ended.
abbrev pub is_serving : {Key : Type 0} → Main Key → Bool
is_serving preparing = false
is_serving exited = false
is_serving forced = false
is_serving starting = true
is_serving stopping = true
is_serving waiting = true
is_serving (handling _) = true

-- A step of a call of `Context.reload`, that of the timer or that of a signal. Each takes the lock of the status, or stores the
-- pointer of the certificate, by itself; nothing is held between them.
pub data ReloadStep {Key : Type 0} (t : Tunnel Key)
    : ReloadStage Key → ReloadStage Key → Tunnel Key → Type 0 where
  mark : ReloadStep t idle marked (record t { status = set_reloading t.status })
  load_cert :
      (source : Source Key) (r : Result LoadError (TlsCertificate Key))
      → load source t.cert ≡ r
      → r ≢ panic
      → ReloadStep t marked (read r) t
  store_cert :
      (r : Result LoadError (TlsCertificate Key))
      → ReloadStep t (read r) stored (record t { cert = store t.cert r })
  unmark : ReloadStep t stored idle (record t { status = set_listening t.status })

-- One step of a tunnel. `timed` says that the interval of the timer is above zero.
pub data TunnelStep {Key : Type 0} (timed proxy_protocol : Bool)
    : Tunnel Key → Tunnel Key → Type 0 where
  start_error :
      {t : Tunnel Key}
      → t.main ≡ preparing
      → TunnelStep timed proxy_protocol t (record t { main = forced })
  start_accept :
      {t : Tunnel Key}
      → t.main ≡ preparing
      → TunnelStep timed proxy_protocol t (record t { main = starting })
  listen :
      {t : Tunnel Key}
      → t.main ≡ starting
      → TunnelStep timed proxy_protocol t
          (record t { status = set_listening t.status; main = handling idle })
  timer_step :
      {t u : Tunnel Key} (from to : ReloadStage Key)
      → timed ≡ true
      → is_running t.main ≡ true
      → t.timer ≡ from
      → ReloadStep t from to u
      → TunnelStep timed proxy_protocol t (record u { timer = to })
  refresh_step :
      {t u : Tunnel Key} (from to : ReloadStage Key)
      → t.main ≡ handling from
      → ReloadStep t from to u
      → TunnelStep timed proxy_protocol t (record u { main = handling to })
  shutdown_signal :
      {t : Tunnel Key}
      → t.main ≡ handling idle
      → TunnelStep timed proxy_protocol t (record t { main = stopping })
  proxy_step :
      {t : Tunnel Key} (p : State)
      → is_serving t.main ≡ true
      → Step proxy_protocol t.proxy p
      → (p.shutdown ≡ t.proxy.shutdown) ⊎ (t.main ≡ stopping)
      → TunnelStep timed proxy_protocol t (record t { proxy = p })
  handler_return :
      {t : Tunnel Key}
      → t.main ≡ stopping
      → t.proxy.shutdown ≡ returned
      → TunnelStep timed proxy_protocol t (record t { main = waiting })
  wait_return :
      {t : Tunnel Key}
      → t.main ≡ waiting
      → WaitReturns t.proxy
      → TunnelStep timed proxy_protocol t (record t { main = exited })
  force_exit :
      {t : Tunnel Key}
      → (t.main ≡ stopping) ⊎ (t.main ≡ waiting)
      → TunnelStep timed proxy_protocol t (record t { main = forced })

-- The states of a tunnel that was started with a certificate.
pub data Runs {Key : Type 0} (timed proxy_protocol : Bool) (cert : Certificate Key)
    : Tunnel Key → Type 0 where
  start : Runs timed proxy_protocol cert (new_tunnel cert)
  next :
      {t u : Tunnel Key}
      → Runs timed proxy_protocol cert t
      → TunnelStep timed proxy_protocol t u
      → Runs timed proxy_protocol cert u

-- A tunnel comes from one state to another.
pub data Leads {Key : Type 0} (timed proxy_protocol : Bool) : Tunnel Key → Tunnel Key → Type 0 where
  done : {t : Tunnel Key} → Leads timed proxy_protocol t t
  then :
      {t u v : Tunnel Key}
      → TunnelStep timed proxy_protocol t u
      → Leads timed proxy_protocol u v
      → Leads timed proxy_protocol t v
