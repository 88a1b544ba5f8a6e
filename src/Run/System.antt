-- ===== src/Run/System.antt =====
-- What a run asks of the system, and the errors that end it.
use ghostunnel.Prelude.{Text, Bool, Result}
use ghostunnel.Fdlimit.{Rlimit}
use ghostunnel.Certloader.Source.{Source, LoadError}
use ghostunnel.Tls.Config.{CaSource, ConfigError}
use ghostunnel.Address.HostPort.{AddressError}
use ghostunnel.Address.Parse.{Network}
use ghostunnel.Wildcard.Compile.{WildcardError}
use ghostunnel.Flags.Validate.{FlagError}

-- `net.ResolveTCPAddr`, `net.Listen`, `reuseport.NewReusablePortListener`, `gsyslog.NewLogger` and
-- `syscall.Setrlimit`; an error is its message.
pub record System (Key Pool : Type 0) : Type 0 where
  pub certificates : Source Key
  pub cas : CaSource Pool
  pub resolves : Text → Bool
  pub listen : Network → Text → Result Text (Unit {0})
  pub reuse_port : Network → Text → Result Text (Unit {0})
  pub new_syslog : Result Text (Unit {0})
  pub setrlimit : Rlimit → Result Text (Unit {0})

pub data RunError : Type 0 where
  bad_flags : FlagError → RunError
  bad_config : ConfigError → RunError
  bad_certificate : LoadError → RunError
  bad_address : AddressError → RunError
  bad_pattern : WildcardError → RunError
  no_listener : Text → RunError
  no_logger : Text → RunError
  no_fd_limit : Text → RunError
  unknown_command : RunError
