-- ===== src/Run/ClientExits.antt =====
-- main.go and signals.go: what a client process that has come up exits with.
use ghostunnel.Prelude.{◌≡◌, Option, List, ok}
use ghostunnel.Certloader.Source.{Source}
use ghostunnel.Certloader.Reload.{Certificate}
use ghostunnel.Address.Parse.{Address, parse_unix_or_tcp_address}
use ghostunnel.Signals.Handler.{Platform, Context, reload_handler}
use ghostunnel.Flags.Validate.{ClientFlags, client_validate_flags}
use ghostunnel.Run.System.{System}
use ghostunnel.Run.Server.{new_context, prepare}
use ghostunnel.Run.Client.{MtlsDialer, client_backend_dialer, client_start}

module _ {Key Pool : Type 0} (system : System Key Pool) where
  -- A client with these flags comes up: each part of `run`, in order, has a result.
  pub record ClientComesUp (platform : Platform) (early : List (Source Key)) (f : ClientFlags)
      : Type 0 where
    pub cert : Option (Certificate Key)
    pub address : Address
    pub dialer : MtlsDialer Key Pool
    pub reloaded : Context Key
    pub context : Context Key
    pub prepared : prepare system platform f.common ≡ ok cert
    pub valid : client_validate_flags f ≡ ok tt
    pub target : parse_unix_or_tcp_address system.resolves f.forward_address ≡ ok address
    pub dials : client_backend_dialer system f cert address ≡ ok dialer
    pub ticked :
        reload_handler f.common.timed_reload early (new_context system f.common cert) ≡ ok reloaded
    pub started : client_start system f reloaded ≡ ok context
