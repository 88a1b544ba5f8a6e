-- ===== src/Run/Exits.antt =====
-- main.go: when the process exits with status 0.
use ghostunnel.Prelude.{
  ◌≡◌, refl, true, sym, ap, ◌∙◌, ◌↔◌, Option, some, List, All, Result, ok, err, panic, >>=-eq-ok,
}
use ghostunnel.Certloader.Source.{Source}
use ghostunnel.Certloader.Reload.{Certificate}
use ghostunnel.Tls.Config.{with_error}
use ghostunnel.Address.Parse.{Address}
use ghostunnel.Signals.Handler.{
  Platform, Context, Event, Listening, reload_handler, handle_and_wait,
}
use ghostunnel.Signals.Events.{Behaves}
use ghostunnel.Flags.Validate.{ServerFlags, server_validate_flags}
use ghostunnel.Run.System.{System, RunError, bad_flags, no_listener}
use ghostunnel.Run.Server.{
  ServerProxy, server_start, server_listen, server_backend_dialer, new_context, prepare, run_server,
}
use ghostunnel.Run.Starts.{with_error-eq-ok, server_start-Started}
use ghostunnel.Run.Process.{server_command, exited, exit_status, run, main}
use ghostunnel.Run.Ends.{status_of, Stops, handle_and_wait-status, status_of_iff}

zero-ok :
    {Key : Type 0} (r : Result RunError (Listening Key))
    → exit_status r ≡ exited 0
    → (h : Listening Key) × (r ≡ ok h)
unfolding exit_status
zero-ok (ok h) e = (h, refl)
zero-ok (err x) e = cc
zero-ok panic e = cc

module _ {Key Pool : Type 0} (system : System Key Pool) where
  -- A server with these flags comes up: each part of `run`, in order, has a result, the ticks of the
  -- timer before the listener is started among them.
  pub record ComesUp (platform : Platform) (early : List (Source Key)) (f : ServerFlags)
      : Type 0 where
    pub cert : Option (Certificate Key)
    pub address : Address
    pub reloaded : Context Key
    pub context : Context Key
    pub proxy : ServerProxy Key Pool
    pub prepared : prepare system platform f.common ≡ ok cert
    pub valid : server_validate_flags f ≡ ok tt
    pub target : server_backend_dialer system f ≡ ok address
    pub ticked :
        reload_handler f.common.timed_reload early (new_context system f.common cert) ≡ ok reloaded
    pub started : server_start system f reloaded ≡ ok (context, proxy)

  abbrev end_of :
      (platform : Platform) (events : List (Event Key)) (f : ServerFlags) (c : Context Key)
      → Result RunError (Listening Key)
  end_of platform events f c =
      with_error no_listener (handle_and_wait platform f.common.timed_reload events c)

  run_server-ComesUp :
      (platform : Platform) (early : List (Source Key)) (events : List (Event Key))
      (f : ServerFlags) (h : Listening Key)
      → run_server system platform early events f ≡ ok h
      → (u : ComesUp platform early f) × (end_of platform events f u.context ≡ ok h)
  unfolding run_server server_listen
  run_server-ComesUp platform early events f h e =
      let (o, b, e1) = >>=-eq-ok (prepare system platform f.common) _ e in
      let (_, v, e2) = >>=-eq-ok (with_error bad_flags (server_validate_flags f)) _ e1 in
      let (a, d, e3) = >>=-eq-ok (server_backend_dialer system f) _ e2 in
      let (c, t, e4) =
        >>=-eq-ok
          (with_error no_listener
            (reload_handler f.common.timed_reload early (new_context system f.common o)))
          _ e3 in
      let ((context, p), s, e5) = >>=-eq-ok (server_start system f c) _ e4 in
      (
        record {
          cert = o;
          address = a;
          reloaded = c;
          context = context;
          proxy = p;
          prepared = b;
          valid = with_error-eq-ok bad_flags _ v;
          target = d;
          ticked = with_error-eq-ok no_listener _ t;
          started = s;
        },
        e5,
      )

  pub main-server_zero_iff :
      (platform : Platform) (early : List (Source Key)) (events : List (Event Key))
      (f : ServerFlags)
      → All Behaves events
      → (main system platform early events (server_command f) ≡ exited 0)
        ↔ (ComesUp platform early f × Stops platform events)
  unfolding main run run_server server_listen
  main-server_zero_iff platform early events f behaves = (to, from)
    where
      ends :
          (u : ComesUp platform early f)
          → exit_status (end_of platform events f u.context)
            ≡ status_of platform f.common.timed_reload true events
      ends u =
          handle_and_wait-status platform f.common.timed_reload events u.context
            (some u.proxy.tls.certificate) behaves
            (let s = server_start-Started system f u.reloaded u.context u.proxy u.started in
              s.cert ∙ s.configured.cert)

      to :
          main system platform early events (server_command f) ≡ exited 0
          → ComesUp platform early f × Stops platform events
      to e =
          let (h, r) = zero-ok (run_server system platform early events f) e in
          let (u, k) = run_server-ComesUp platform early events f h r in
          (
            u,
            (status_of_iff platform f.common.timed_reload events).0
                (sym (ends u) ∙ ap exit_status (k ∙ sym r) ∙ e),
          )

      from :
          ComesUp platform early f × Stops platform events
          → main system platform early events (server_command f) ≡ exited 0
      from (u, s) =
          rw (u.prepared, u.valid, u.target, u.ticked, u.started)
            (ends u ∙ (status_of_iff platform f.common.timed_reload events).1 s)
