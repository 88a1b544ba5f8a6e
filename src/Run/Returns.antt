-- ===== src/Run/Returns.antt =====
-- main.go: how a run ends.
use ghostunnel.Prelude.{◌≡◌, refl, some, List, ◌∷◌, ◌++◌, map, All, In, ok}
use ghostunnel.Certloader.Source.{Source}
use ghostunnel.Certloader.Reload.{Certificate}
use ghostunnel.Certloader.Reloads.{reloads}
use ghostunnel.Certloader.Total.{Total}
use ghostunnel.Address.Parse.{Address}
use ghostunnel.Signals.Handler.{
  Signal, Platform, Context, Event, got_signal, timer_tick, drained, ended, shutdown_actions,
}
use ghostunnel.Signals.Laws.{ticks_of, reloaded, reload_handler-reloaded}
use ghostunnel.Signals.Events.{Behaves, GoesOn, reloads_of, handle_and_wait-ended}
use ghostunnel.Flags.Validate.{ServerFlags, server_validate_flags}
use ghostunnel.Run.System.{System}
use ghostunnel.Run.Server.{
  ServerProxy, server_start, server_listen, server_backend_dialer, new_context, prepare, run_server,
}
use ghostunnel.Run.Starts.{server_start-Started}

module _ {Key Pool : Type 0} (system : System Key Pool) where
  -- The context when the listener is started: the timer may have reloaded.
  abbrev pub before_listen : ServerFlags → Certificate Key → List (Source Key) → Context Key
  before_listen f cert early =
      reloaded (ticks_of f.common.timed_reload early) cert (new_context system f.common (some cert))

  -- A run of a server: with flags that pass validation, a target that parses, a certificate and a
  -- start that succeed, and libraries that behave as documented at each reload, it reloads once for
  -- each tick of its timer, if the interval is above zero, and once for each refresh signal; at the
  -- first shutdown signal it asks for the shutdown. It returns without an error when its connections
  -- have drained, if until then neither the timer of the exit nor a further signal has come; ticks
  -- that come until then still reload.
  pub run_server-returned :
      (platform : Platform) (early : List (Source Key)) (before : List (Event Key)) (sig : Signal)
      (source : Source Key) (ticks : List (Source Key)) (rest : List (Event Key)) (f : ServerFlags)
      (cert : Certificate Key) (a : Address) (context : Context Key) (p : ServerProxy Key Pool)
      → prepare system platform f.common ≡ ok (some cert)
      → server_validate_flags f ≡ ok tt
      → server_backend_dialer system f ≡ ok a
      → server_start system f (before_listen f cert early) ≡ ok (context, p)
      → All Total early
      → All Behaves before
      → All (GoesOn platform) before
      → In sig platform.shutdown_signals
      → All Total ticks
      → run_server system platform early
          (before ++ got_signal sig source ∷ (map timer_tick ticks ++ drained ∷ rest))
          f
        ≡ ok (
            ended
              (reloaded
                (ticks_of f.common.timed_reload ticks)
                (reloads
                  (reloads_of f.common.timed_reload before)
                  (reloads (ticks_of f.common.timed_reload early) cert))
                (reloaded
                  (reloads_of f.common.timed_reload before)
                  (reloads (ticks_of f.common.timed_reload early) cert)
                  context))
              (shutdown_actions context))
  unfolding run_server server_listen new_context
  run_server-returned platform early before sig source ticks rest f cert a context p b v d s te bb g
        m t =
      let kept = (server_start-Started system f (before_listen f cert early) context p s).cert in
      rw
        (
          b,
          v,
          d,
          reload_handler-reloaded f.common.timed_reload early
              (new_context system f.common (some cert)) cert te refl,
          s,
          handle_and_wait-ended platform f.common.timed_reload before sig source ticks rest context
              (reloads (ticks_of f.common.timed_reload early) cert) bb g m t kept,
        )
        refl
