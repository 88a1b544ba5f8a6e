-- ===== src/Signals/Handler.antt =====
-- signals.go: the signal handler, the timer of reloads, and the reload.
use ghostunnel.Prelude.{
  ℕ, zero, suc, Bool, true, false, Option, none, some, List, [], ◌∷◌, ◌++◌, ◌==◌, if◌then◌else◌,
  Text, Result, ok, err, panic, ◌>>=◌,
}
use ghostunnel.Fdlimit.{Rlimit, raise_unix, raise_windows}
use ghostunnel.Certloader.Source.{LoadError, Source}
use ghostunnel.Certloader.Reload.{Certificate}
use ghostunnel.Certloader.Reload
use ghostunnel.Status.Handler.{StatusHandler, set_listening, set_reloading}
use ghostunnel.Flags.Validate.{ℤ, pos, negsuc}

-- `os.Signal`: those that the program names, and the others by number.
pub data Signal : Type 0 where
  sigint sigterm sigusr1 : Signal
  other_signal : ℕ → Signal

unfoldable pub signal_eq : Signal → Signal → Bool
signal_eq sigint sigint = true
signal_eq sigterm sigterm = true
signal_eq sigusr1 sigusr1 = true
signal_eq (other_signal a) (other_signal b) = a == b
signal_eq _ _ = false

-- What the files for a platform declare: the two lists of signals, `useSyslog` by the flag for it,
-- and `fdlimit.Raise`.
pub record Platform : Type 0 where
  pub shutdown_signals : List Signal
  pub refresh_signals : List Signal
  pub use_syslog : Bool → Bool
  pub raise : (Rlimit → Result Text (Unit {0})) → ℕ → Result Text (Unit {0})

unfoldable pub unix_platform : Platform
unix_platform = record {
  shutdown_signals = sigint ∷ sigterm ∷ [];
  refresh_signals = sigusr1 ∷ [];
  use_syslog = λ syslog_flag. syslog_flag;
  raise = raise_unix;
}

-- `os.Interrupt` is the interrupt signal.
unfoldable pub windows_platform : Platform
windows_platform = record {
  shutdown_signals = sigint ∷ [];
  refresh_signals = [];
  use_syslog = λ _. false;
  raise = raise_windows;
}

-- The loop over `shutdownSignals`.
unfoldable pub is_shutdown_signal : List Signal → Signal → Bool
is_shutdown_signal [] sig = false
is_shutdown_signal (shutdown_signal ∷ signals) sig =
    if signal_eq sig shutdown_signal then true else is_shutdown_signal signals sig

-- `Context`: the dialer and the metrics are not changed by what is below. `status_http` says that
-- there is a server for the status; `cert` is the interface, which may be nil.
pub record Context (Key : Type 0) : Type 0 where
  pub status : StatusHandler
  pub status_http : Bool
  pub shutdown_timeout : ℤ
  pub cert : Option (Certificate Key)

-- What the signal handler starts when it shuts the tunnel down, in order.
pub data Action : Type 0 where
  shutdown_status_http : Action
  force_exit_after : ℤ → Action
  shutdown_proxy : Action

-- What comes to a run, with what the system has at that time: a signal that the program asked for, a
-- tick of the timer of reloads, the timer that `AfterFunc` starts, and that `p.Wait` may return.
pub data Event (Key : Type 0) : Type 0 where
  got_signal : Signal → Source Key → Event Key
  timer_tick : Source Key → Event Key
  exit_timer drained : Event Key

-- The handler waits for the next signal, or has returned; `rest` is what comes after that.
pub data Handling (Key : Type 0) : Type 0 where
  waiting : Context Key → Handling Key
  returned :
      (context : Context Key) (actions : List Action) (rest : List (Event Key)) → Handling Key

-- The handler waits; it has returned and `p.Wait` has not; that has, and the call of `serverListen`
-- or `clientListen` with it; or the process was ended by `exitFunc(1)`, or by a signal that the
-- program no longer asks for.
pub data Listening (Key : Type 0) : Type 0 where
  handling : Context Key → Listening Key
  draining ended : (context : Context Key) (actions : List Action) → Listening Key
  forced : Listening Key
  killed : Signal → Listening Key

module _ {Key : Type 0} where
  -- After `cert.Reload`: its error is only printed.
  abbrev pub reload_end :
      Context Key → Certificate Key × Result LoadError (Unit {0}) → Result Text (Context Key)
  reload_end c (cert, panic) = panic
  reload_end c (cert, ok _) = ok (record c { status = set_listening c.status; cert = some cert })
  reload_end c (cert, err _) = ok (record c { status = set_listening c.status; cert = some cert })

  -- A call of a method of the nil interface panics.
  unfoldable pub reload : Source Key → Context Key → Result Text (Context Key)
  reload source context = with_cert (record context { status = set_reloading context.status })
    where
      with_cert : Context Key → Result Text (Context Key)
      with_cert c = elim c.cert [
        | none ↦ panic
        | some cert ↦ reload_end c (Reload.reload source cert)
      ]

  unfoldable pub shutdown_actions : Context Key → List Action
  shutdown_actions context =
      (if context.status_http then shutdown_status_http ∷ [] else [])
      ++ force_exit_after context.shutdown_timeout ∷ shutdown_proxy ∷ []

  -- The loop over the ticks.
  unfoldable pub reload_ticks : List (Source Key) → Context Key → Result Text (Context Key)
  reload_ticks [] context = ok context
  reload_ticks (source ∷ ticks) context = reload source context >>= reload_ticks ticks

  -- `time.Tick` is nil for an interval below zero, and a nil channel never gives a value.
  unfoldable pub reload_handler : ℤ → List (Source Key) → Context Key → Result Text (Context Key)
  reload_handler (pos zero) ticks context = ok context
  reload_handler (pos (suc _)) ticks context = reload_ticks ticks context
  reload_handler (negsuc _) ticks context = ok context

  -- The loop, with the timer of reloads beside it. It does not stop for the other events, which do
  -- not come before it has returned.
  unfoldable pub signal_handler :
      Platform → (interval : ℤ) → List (Event Key) → Context Key → Result Text (Handling Key)
  signal_handler platform interval [] context = ok (waiting context)
  signal_handler platform interval (got_signal sig source ∷ events) context =
      if is_shutdown_signal platform.shutdown_signals sig
      then ok (returned context (shutdown_actions context) events)
      else reload source context >>= signal_handler platform interval events
  signal_handler platform interval (timer_tick source ∷ events) context =
      reload_handler interval (source ∷ []) context >>= signal_handler platform interval events
  signal_handler platform interval (exit_timer ∷ events) context =
      signal_handler platform interval events context
  signal_handler platform interval (drained ∷ events) context =
      signal_handler platform interval events context

  -- After the handler: `signal.Stop` was called, so that a signal has its default effect, and the
  -- timer of reloads goes on, until `p.Wait` returns or the timer of the exit comes.
  unfoldable pub wait :
      (interval : ℤ) → List (Event Key) → List Action → Context Key → Result Text (Listening Key)
  wait interval [] actions context = ok (draining context actions)
  wait interval (got_signal sig _ ∷ events) actions context = ok (killed sig)
  wait interval (timer_tick source ∷ events) actions context =
      reload_handler interval (source ∷ []) context >>= wait interval events actions
  wait interval (exit_timer ∷ events) actions context = ok forced
  wait interval (drained ∷ events) actions context = ok (ended context actions)

  -- `context.signalHandler(p)`, then `p.Wait()`.
  abbrev pub then_wait : (interval : ℤ) → Handling Key → Result Text (Listening Key)
  then_wait interval (waiting context) = ok (handling context)
  then_wait interval (returned context actions rest) = wait interval rest actions context

  unfoldable pub handle_and_wait :
      Platform → (interval : ℤ) → List (Event Key) → Context Key → Result Text (Listening Key)
  handle_and_wait platform interval events context =
      signal_handler platform interval events context >>= then_wait interval
