-- ===== src/Run/Process.antt =====
-- main.go: `run` with its two modes, and the status that the process exits with.
use ghostunnel.Prelude.{ℕ, List, Result, ok, err, panic, ◌>>=◌}
use ghostunnel.Certloader.Source.{Source}
use ghostunnel.Signals.Handler.{
  Signal, Platform, Event, Listening, handling, draining, ended, forced, killed,
}
use ghostunnel.Flags.Validate.{CommonFlags, ServerFlags, ClientFlags}
use ghostunnel.Run.System.{System, RunError, unknown_command}
use ghostunnel.Run.Server.{prepare, run_server}
use ghostunnel.Run.Client.{run_client}

-- The command that the parser of the command line found, with the flags that belong to it.
pub data Command : Type 0 where
  server_command : ServerFlags → Command
  client_command : ClientFlags → Command
  other_command : CommonFlags → Command

-- What becomes of the process.
pub data Exit : Type 0 where
  still_running : Exit
  exited : ℕ → Exit
  killed_by : Signal → Exit

-- An error of `run` gives status 1, and so does the timer of the shutdown; a panic that nothing
-- recovers ends a Go program with status 2.
unfoldable pub exit_status : {Key : Type 0} → Result RunError (Listening Key) → Exit
exit_status (ok (handling _)) = still_running
exit_status (ok (draining _ _)) = still_running
exit_status (ok (ended _ _)) = exited 0
exit_status (ok forced) = exited 1
exit_status (ok (killed sig)) = killed_by sig
exit_status (err _) = exited 1
exit_status panic = exited 2

module _ {Key Pool : Type 0} (system : System Key Pool) where
  unfoldable pub run :
      Platform
      → (early : List (Source Key)) → List (Event Key)
      → Command
      → Result RunError (Listening Key)
  run platform early events (server_command f) = run_server system platform early events f
  run platform early events (client_command f) = run_client system platform early events f
  run platform early events (other_command f) = do
    _ ← prepare system platform f
    err unknown_command

  unfoldable pub main : Platform → (early : List (Source Key)) → List (Event Key) → Command → Exit
  main platform early events command = exit_status (run platform early events command)
