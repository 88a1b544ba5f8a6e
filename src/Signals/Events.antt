-- ===== src/Signals/Events.antt =====
-- signals.go and main.go: the signal handler and the wait that follows, over the events of a run.
use ghostunnel.Prelude.{
  ℕ, zero, suc, ◌≡◌, refl, ap, ◌∙◌, true, false, Option, some, List, [], ◌∷◌, ◌++◌, map, All, In,
  Text, Result, ok, ◌>>=◌,
}
use ghostunnel.Certloader.Source.{Source}
use ghostunnel.Certloader.Total.{Total}
use ghostunnel.Certloader.Reload.{Certificate}
use ghostunnel.Certloader.Reload
use ghostunnel.Certloader.Reloads.{reloads}
use ghostunnel.Status.Handler.{StatusHandler}
use ghostunnel.Flags.Validate.{ℤ, pos, negsuc}
use ghostunnel.Signals.Handler.{
  Signal, Platform, is_shutdown_signal, Context, Action, Event, got_signal, timer_tick, exit_timer,
  drained, ended, shutdown_actions, signal_handler, reload_ticks, reload_handler, wait,
  handle_and_wait, then_wait, Handling,
}
use ghostunnel.Signals.Laws.{
  is_shutdown_signal_iff, status_after-listening, reloaded, reload-some, ticks_of,
}

module _ {Key : Type 0} where
  -- The libraries behave as documented at the reload of an event.
  abbrev pub Behaves : Event Key → Type 0
  Behaves (got_signal _ source) = Total source
  Behaves (timer_tick source) = Total source
  Behaves exit_timer = Unit
  Behaves drained = Unit

  -- The event does not ask for the shutdown.
  abbrev pub GoesOn : Platform → Event Key → Type 0
  GoesOn platform (got_signal sig _) = is_shutdown_signal platform.shutdown_signals sig ≡ false
  GoesOn platform _ = Unit

  -- What events that do not ask for the shutdown reload from.
  abbrev pub reloads_of : (interval : ℤ) → List (Event Key) → List (Source Key)
  reloads_of interval [] = []
  reloads_of interval (got_signal _ source ∷ events) = source ∷ reloads_of interval events
  reloads_of interval (timer_tick source ∷ events) =
      ticks_of interval (source ∷ []) ++ reloads_of interval events
  reloads_of interval (exit_timer ∷ events) = reloads_of interval events
  reloads_of interval (drained ∷ events) = reloads_of interval events

  reloaded-nil :
      (context : Context Key) (cert : Certificate Key)
      → context.cert ≡ some cert
      → context ≡ reloaded [] cert context
  unfolding reloads
  reloaded-nil context cert e = ap (λ (c : Option (Certificate Key)). record context { cert = c }) e

  -- The context after a reload.
  abbrev pub after_reload : Source Key → Certificate Key → Context Key → Context Key
  after_reload source cert context = record context {
    status = record { listening = true; reloading = false };
    cert = some (Reload.reload source cert).0;
  }

  reloaded-cons :
      (source : Source Key) (sources : List (Source Key)) (cert : Certificate Key)
      (context : Context Key)
      → reloaded sources (Reload.reload source cert).0 (after_reload source cert context)
        ≡ reloaded (source ∷ sources) cert context
  unfolding reloads
  reloaded-cons source sources cert context =
      ap
        (λ (s : StatusHandler). record context {
          status = s;
          cert = some (reloads sources (Reload.reload source cert).0);
        })
        (status_after-listening sources)

  -- With a certificate, a tick of an interval above zero is a reload.
  pub reload_handler-tick :
      (n : ℕ) (source : Source Key) (context : Context Key) (cert : Certificate Key)
      → Total source
      → context.cert ≡ some cert
      → reload_handler (pos (suc n)) (source ∷ []) context ≡ ok (after_reload source cert context)
  unfolding reload_handler reload_ticks
  reload_handler-tick n source context cert t e = rw (reload-some source context cert t e) refl

  -- Events that do not ask for the shutdown: the handler has reloaded for each signal, and for each
  -- tick if the interval is above zero, and goes on.
  pub signal_handler-reloaded :
      (platform : Platform) (interval : ℤ) (before after : List (Event Key)) (context : Context Key)
      (cert : Certificate Key)
      → All Behaves before
      → All (GoesOn platform) before
      → context.cert ≡ some cert
      → signal_handler platform interval (before ++ after) context
        ≡ signal_handler platform interval after
            (reloaded (reloads_of interval before) cert context)
  unfolding signal_handler reload_handler
  signal_handler-reloaded platform i [] after context cert t g e =
      ap (signal_handler platform i after) (reloaded-nil context cert e)
  signal_handler-reloaded platform i (got_signal sig source ∷ before) after context cert (t, ts)
        (g, gs) e =
      rw (g, reload-some source context cert t e)
        (signal_handler-reloaded platform i before after (after_reload source cert context)
            (Reload.reload source cert).0 ts gs refl
          ∙ ap (signal_handler platform i after)
              (reloaded-cons source (reloads_of i before) cert context))
  signal_handler-reloaded platform (pos (suc n)) (timer_tick source ∷ before) after context cert
        (t, ts) (g, gs) e =
      rw (reload_handler-tick n source context cert t e) (
        signal_handler-reloaded platform (pos (suc n)) before after
          (after_reload source cert context) (Reload.reload source cert).0 ts gs refl
        ∙ ap (signal_handler platform (pos (suc n)) after)
            (reloaded-cons source (reloads_of (pos (suc n)) before) cert context))
  signal_handler-reloaded platform (pos zero) (timer_tick _ ∷ before) after context cert (_, ts)
        (_, gs) e =
      signal_handler-reloaded platform (pos zero) before after context cert ts gs e
  signal_handler-reloaded platform (negsuc n) (timer_tick _ ∷ before) after context cert (_, ts)
        (_, gs) e =
      signal_handler-reloaded platform (negsuc n) before after context cert ts gs e
  signal_handler-reloaded platform i (exit_timer ∷ before) after context cert (_, ts) (_, gs) e =
      signal_handler-reloaded platform i before after context cert ts gs e
  signal_handler-reloaded platform i (drained ∷ before) after context cert (_, ts) (_, gs) e =
      signal_handler-reloaded platform i before after context cert ts gs e

  -- Ticks, then the end of the drain: the wait is over, and the timer has gone on reloading.
  wait-ended :
      (interval : ℤ) (ticks : List (Source Key)) (rest : List (Event Key)) (actions : List Action)
      (context : Context Key) (cert : Certificate Key)
      → All Total ticks
      → context.cert ≡ some cert
      → wait interval (map timer_tick ticks ++ drained ∷ rest) actions context
        ≡ ok (ended (reloaded (ticks_of interval ticks) cert context) actions)
  unfolding wait reload_handler
  wait-ended (pos (suc n)) (source ∷ ticks) rest actions context cert (t, ts) e =
      rw (reload_handler-tick n source context cert t e) (
        wait-ended (pos (suc n)) ticks rest actions (after_reload source cert context)
          (Reload.reload source cert).0 ts refl
        ∙ ap (λ (c : Context Key). ok (ended c actions)) (reloaded-cons source ticks cert context))
  wait-ended (pos zero) (source ∷ ticks) rest actions context cert (t, ts) e =
      wait-ended (pos zero) ticks rest actions context cert ts e
  wait-ended (negsuc n) (source ∷ ticks) rest actions context cert (t, ts) e =
      wait-ended (negsuc n) ticks rest actions context cert ts e
  wait-ended (pos (suc n)) [] rest actions context cert t e =
      ap (λ (c : Context Key). ok (ended c actions)) (reloaded-nil context cert e)
  wait-ended (pos zero) [] rest actions context cert t e =
      ap (λ (c : Context Key). ok (ended c actions)) (reloaded-nil context cert e)
  wait-ended (negsuc n) [] rest actions context cert t e =
      ap (λ (c : Context Key). ok (ended c actions)) (reloaded-nil context cert e)

  -- Events that do not ask for the shutdown, a shutdown signal, ticks, and the end of the drain.
  pub handle_and_wait-ended :
      (platform : Platform) (interval : ℤ) (before : List (Event Key)) (sig : Signal)
      (source : Source Key) (ticks : List (Source Key)) (rest : List (Event Key))
      (context : Context Key) (cert : Certificate Key)
      → All Behaves before
      → All (GoesOn platform) before
      → In sig platform.shutdown_signals
      → All Total ticks
      → context.cert ≡ some cert
      → handle_and_wait platform interval
          (before ++ got_signal sig source ∷ (map timer_tick ticks ++ drained ∷ rest))
          context
        ≡ ok (
            ended
              (reloaded
                (ticks_of interval ticks)
                (reloads (reloads_of interval before) cert)
                (reloaded (reloads_of interval before) cert context))
              (shutdown_actions context))
  unfolding handle_and_wait signal_handler shutdown_actions
  handle_and_wait-ended platform i before sig source ticks rest context cert b g m t e =
      ap (λ (r : Result Text (Handling Key)). r >>= then_wait i)
        (signal_handler-reloaded platform i before
          (got_signal sig source ∷ (map timer_tick ticks ++ drained ∷ rest)) context cert b g e)
      ∙ rw ((is_shutdown_signal_iff platform.shutdown_signals sig).1 m) (
          wait-ended i ticks rest (shutdown_actions context)
            (reloaded (reloads_of i before) cert context) (reloads (reloads_of i before) cert) t
            refl)
