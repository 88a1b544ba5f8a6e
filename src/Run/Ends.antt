-- ===== src/Run/Ends.antt =====
-- signals.go and main.go: what becomes of a process whose signal handler was called, by the events.
use ghostunnel.Prelude.{
  ◌≡◌, refl, inl, inr, Bool, true, false, Bool-cases, Option, none, some, List, [], ◌∷◌, All, zero,
  suc, if◌then◌else◌, ◌⊎◌, ◌↔◌,
}
use ghostunnel.Certloader.Reload.{Certificate}
use ghostunnel.Certloader.Reload
use ghostunnel.Tls.Config.{with_error}
use ghostunnel.Flags.Validate.{ℤ, pos, negsuc}
use ghostunnel.Run.System.{no_listener}
use ghostunnel.Signals.Handler.{
  Platform, is_shutdown_signal, Context, Event, got_signal, timer_tick, exit_timer, drained, Action,
  reload, reload_handler, reload_ticks, signal_handler, wait, handle_and_wait, shutdown_actions,
}
use ghostunnel.Signals.Laws.{reload-some}
use ghostunnel.Signals.Events.{Behaves, after_reload, reload_handler-tick}
use ghostunnel.Run.Process.{Exit, still_running, exited, killed_by, exit_status}

abbrev pub has_cert : {Key : Type 0} → Option (Certificate Key) → Bool
has_cert none = false
has_cert (some _) = true

-- After a reload: without a certificate it is a panic.
abbrev after_reloading : (has : Bool) → Exit → Exit
after_reloading true e = e
after_reloading false e = exited 2

-- After a tick: a reload if the interval is above zero.
abbrev after_ticking : (interval : ℤ) (has : Bool) → Exit → Exit
after_ticking (pos zero) has e = e
after_ticking (pos (suc _)) has e = after_reloading has e
after_ticking (negsuc _) has e = e

after_ticking-has : (i : ℤ) (e : Exit) → after_ticking i true e ≡ e
after_ticking-has (pos zero) e = refl
after_ticking-has (pos (suc _)) e = refl
after_ticking-has (negsuc _) e = refl

module _ {Key : Type 0} where
  -- Where the handler has returned.
  abbrev status_draining : (interval : ℤ) (has : Bool) → List (Event Key) → Exit
  status_draining i has [] = still_running
  status_draining i has (got_signal sig _ ∷ events) = killed_by sig
  status_draining i has (timer_tick _ ∷ events) = after_ticking i has (status_draining i has events)
  status_draining i has (exit_timer ∷ events) = exited 1
  status_draining i has (drained ∷ events) = exited 0

  -- By the interval of the timer, whether there is a certificate, and the events.
  abbrev pub status_of : Platform → (interval : ℤ) (has : Bool) → List (Event Key) → Exit
  status_of platform i has [] = still_running
  status_of platform i has (got_signal sig _ ∷ events) =
      if is_shutdown_signal platform.shutdown_signals sig
      then status_draining i has events
      else after_reloading has (status_of platform i has events)
  status_of platform i has (timer_tick _ ∷ events) =
      after_ticking i has (status_of platform i has events)
  status_of platform i has (exit_timer ∷ events) = status_of platform i has events
  status_of platform i has (drained ∷ events) = status_of platform i has events

  wait-status :
      (i : ℤ) (events : List (Event Key)) (actions : List Action) (context : Context Key)
      (o : Option (Certificate Key))
      → All Behaves events
      → context.cert ≡ o
      → exit_status (with_error no_listener (wait i events actions context))
        ≡ status_draining i (has_cert o) events
  unfolding exit_status wait reload_handler reload_ticks reload
  wait-status i [] actions context o b e = refl
  wait-status i (got_signal sig _ ∷ events) actions context o b e = refl
  wait-status i (exit_timer ∷ events) actions context o b e = refl
  wait-status i (drained ∷ events) actions context o b e = refl
  wait-status (pos zero) (timer_tick _ ∷ events) actions context o (_, b) e =
      wait-status (pos zero) events actions context o b e
  wait-status (negsuc n) (timer_tick _ ∷ events) actions context o (_, b) e =
      wait-status (negsuc n) events actions context o b e
  wait-status (pos (suc n)) (timer_tick source ∷ events) actions context none (_, b) e = rw e refl
  wait-status (pos (suc n)) (timer_tick source ∷ events) actions context (some cert) (t, b) e =
      rw (reload_handler-tick n source context cert t e) (
        wait-status (pos (suc n)) events actions (after_reload source cert context)
          (some (Reload.reload source cert).0) b refl)

  pub handle_and_wait-status :
      (platform : Platform) (i : ℤ) (events : List (Event Key)) (context : Context Key)
      (o : Option (Certificate Key))
      → All Behaves events
      → context.cert ≡ o
      → exit_status (with_error no_listener (handle_and_wait platform i events context))
        ≡ status_of platform i (has_cert o) events
  unfolding exit_status handle_and_wait signal_handler reload_handler reload_ticks reload
  handle_and_wait-status platform i [] context o b e = refl
  handle_and_wait-status platform i (got_signal sig source ∷ events) context none (_, b) e =
      elim (Bool-cases (is_shutdown_signal platform.shutdown_signals sig)) [
        | inl s ↦ rw s (wait-status i events (shutdown_actions context) context none b e)
        | inr s ↦ rw (s, e) refl
      ]
  handle_and_wait-status platform i (got_signal sig source ∷ events) context (some cert) (t, b) e =
      elim (Bool-cases (is_shutdown_signal platform.shutdown_signals sig)) [
        | inl s ↦ rw s (wait-status i events (shutdown_actions context) context (some cert) b e)
        | inr s ↦
            rw (s, reload-some source context cert t e)
              (handle_and_wait-status platform i events (after_reload source cert context)
                (some (Reload.reload source cert).0) b refl)
      ]
  handle_and_wait-status platform i (exit_timer ∷ events) context o (_, b) e =
      handle_and_wait-status platform i events context o b e
  handle_and_wait-status platform i (drained ∷ events) context o (_, b) e =
      handle_and_wait-status platform i events context o b e
  handle_and_wait-status platform (pos zero) (timer_tick _ ∷ events) context o (_, b) e =
      handle_and_wait-status platform (pos zero) events context o b e
  handle_and_wait-status platform (negsuc n) (timer_tick _ ∷ events) context o (_, b) e =
      handle_and_wait-status platform (negsuc n) events context o b e
  handle_and_wait-status platform (pos (suc n)) (timer_tick source ∷ events) context none (_, b) e =
      rw e refl
  handle_and_wait-status platform (pos (suc n)) (timer_tick source ∷ events) context (some cert)
        (t, b) e =
      rw (reload_handler-tick n source context cert t e) (
        handle_and_wait-status platform (pos (suc n)) events (after_reload source cert context)
          (some (Reload.reload source cert).0) b refl)

  -- The connections drain before a signal or the timer of the exit.
  abbrev pub Drains : List (Event Key) → Type 0
  Drains [] = ⊥
  Drains (got_signal _ _ ∷ events) = ⊥
  Drains (timer_tick _ ∷ events) = Drains events
  Drains (exit_timer ∷ events) = ⊥
  Drains (drained ∷ events) = Unit

  -- After the first shutdown signal the connections drain in time.
  abbrev pub Stops : Platform → List (Event Key) → Type 0
  Stops platform [] = ⊥
  Stops platform (got_signal sig _ ∷ events) =
      ((is_shutdown_signal platform.shutdown_signals sig ≡ true) × Drains events)
      ⊎ ((is_shutdown_signal platform.shutdown_signals sig ≡ false) × Stops platform events)
  Stops platform (_ ∷ events) = Stops platform events

  status_draining_iff :
      (i : ℤ) (events : List (Event Key))
      → (status_draining i true events ≡ exited 0) ↔ Drains events
  status_draining_iff i [] = (λ h. cc, λ h. absurd h)
  status_draining_iff i (got_signal sig _ ∷ events) = (λ h. cc, λ h. absurd h)
  status_draining_iff i (timer_tick _ ∷ events) =
      rw (after_ticking-has i (status_draining i true events)) (status_draining_iff i events)
  status_draining_iff i (exit_timer ∷ events) = (λ h. cc, λ h. absurd h)
  status_draining_iff i (drained ∷ events) = (λ _. tt, λ _. refl)

  pub status_of_iff :
      (platform : Platform) (i : ℤ) (events : List (Event Key))
      → (status_of platform i true events ≡ exited 0) ↔ Stops platform events
  status_of_iff platform i [] = (λ h. cc, λ h. absurd h)
  status_of_iff platform i (got_signal sig _ ∷ events) =
      elim (Bool-cases (is_shutdown_signal platform.shutdown_signals sig)) [
        | inl s ↦
            let (to, from) = status_draining_iff i events in
            rw s (λ h. inl (refl, to h), λ d. elim d [ inl (_, d) ↦ from d | inr (n, _) ↦ cc ])
        | inr s ↦
            let (to, from) = status_of_iff platform i events in
            rw s (λ h. inr (refl, to h), λ d. elim d [ inl (n, _) ↦ cc | inr (_, d) ↦ from d ])
      ]
  status_of_iff platform i (timer_tick _ ∷ events) =
      rw (after_ticking-has i (status_of platform i true events)) (status_of_iff platform i events)
  status_of_iff platform i (exit_timer ∷ events) = status_of_iff platform i events
  status_of_iff platform i (drained ∷ events) = status_of_iff platform i events
