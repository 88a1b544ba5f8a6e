-- ===== src/Run/Panics.antt =====
-- main.go: when serving the status page ends the program.
use ghostunnel.Prelude.{
  ◌≡◌, ◌↔◌, refl, ℕ, Bool, Option, none, some, List, [], ◌∷◌, ◌++◌, Text, text_eq, split,
  has_prefix, Result, ok, err, panic, ◌>>=◌, Returns, Returns-no_panic, >>=-Returns, ite-Returns,
  trim_space, >>=-eq-panic,
}
use ghostunnel.Tls.Suites.{found, collect_suites, cipher_suites}
use ghostunnel.Tls.Config.{
  Config, bad_suite, ca_error, with_error, ca_bundle, build_config, from_pem,
}
use ghostunnel.Address.HostPort.{split_host_port, split_host_port-Returns}
use ghostunnel.Address.Parse.{Network, unix, tcp, Address, unix_prefix, parse_unix_or_tcp_address}
use ghostunnel.Signals.Handler.{Context}
use ghostunnel.Flags.Validate.{CommonFlags}
use ghostunnel.Run.System.{System, RunError, bad_config, bad_address, no_listener}
use ghostunnel.Run.Server.{listen_status, serve_status}
use ghostunnel.Run.Starts.{with_error-eq-ok}

with_error-Returns {ℓ κ ι} :
    {E : Type ℓ} {F : Type κ} {A : Type ι} (f : E → F) (r : Result E A)
    → Returns r
    → Returns (with_error f r)
with_error-Returns f (ok a) h = tt
with_error-Returns f (err e) h = tt
with_error-Returns f panic h = absurd h

-- The documented behaviour of the system's calls: they return a value or an error.
pub record Calm {Key Pool : Type 0} (system : System Key Pool) : Type 0 where
  pub system_cert_pool : Returns system.cas.system_cert_pool
  pub read_file : (path : Text) → Returns (system.cas.read_file path)
  pub listen : (network : Network) (address : Text) → Returns (system.listen network address)
  pub reuse_port :
      (network : Network) (address : Text) → Returns (system.reuse_port network address)

collect_suites-Returns :
    (suites : List ℕ) (parts : List Text) → Returns (collect_suites suites parts)
unfolding collect_suites
collect_suites-Returns suites [] = tt
collect_suites-Returns suites (part ∷ parts) =
    next (cipher_suites (trim_space part)) (λ l. collect_suites-Returns (suites ++ l) parts)
  where
    next :
        (o : Option (List ℕ))
        → ((l : List ℕ) → Returns (collect_suites (suites ++ l) parts))
        → Returns (found part o >>= λ l. collect_suites (suites ++ l) parts)
    next none k = tt
    next (some l) k = k l

parse-Returns :
    (resolves : Text → Bool) (input : Text) → Returns (parse_unix_or_tcp_address resolves input)
unfolding parse_unix_or_tcp_address
parse-Returns resolves input = ite-Returns (has_prefix input unix_prefix) _ _ tt (
    >>=-Returns (λ _. Unit) (split_host_port input) _ (split_host_port-Returns input)
      (λ _ _. ite-Returns (resolves input) _ _ tt tt))

module _ {Key Pool : Type 0} (system : System Key Pool) (calm : Calm system) where
  ca_bundle-Returns : (path : Text) → Returns (ca_bundle system.cas path)
  unfolding ca_bundle
  ca_bundle-Returns path =
      ite-Returns (text_eq path []) _ _
        (with_error-Returns ca_error system.cas.system_cert_pool calm.system_cert_pool)
        (>>=-Returns (λ _. Unit) (with_error ca_error (system.cas.read_file path)) _
          (with_error-Returns ca_error (system.cas.read_file path) (calm.read_file path))
          (λ bytes _. pool (system.cas.certs_from_pem bytes)))
    where
      pool : (o : Option Pool) → Returns (from_pem system.cas o)
      pool none = tt
      pool (some p) = tt

  build_config-Returns : (suites path : Text) → Returns (build_config system.cas suites path)
  unfolding build_config
  build_config-Returns suites path =
      >>=-Returns (λ _. Unit) (ca_bundle system.cas path) _ (ca_bundle-Returns path)
        (λ _ _.
          >>=-Returns (λ _. Unit) (with_error bad_suite (collect_suites [] (split suites b','))) _
            (with_error-Returns bad_suite (collect_suites [] (split suites b','))
              (collect_suites-Returns [] (split suites b',')))
            (λ _ _. tt))

  listen_status-panic :
      (a : Address)
      → listen_status system a ≡ panic
      → (a.network ≡ unix) × ((e : Text) × (system.listen unix a.address ≡ err e))
  unfolding listen_status
  listen_status-panic a h = on a.network a.address a.host h
    where
      bound :
          (address host : Text) (r : Result Text (Unit {0}))
          → system.listen unix address ≡ r
          → Returns r
          → listen_status system (record { network = unix; address = address; host = host }) ≡ panic
          → (e : Text) × (r ≡ err e)
      bound address host (ok _) e k h = cc (rw e at h)
      bound address host (err x) e k h = (x, refl)
      bound address host panic e k h = absurd k

      on :
          (n : Network) (address host : Text)
          → listen_status system (record { network = n; address = address; host = host }) ≡ panic
          → (n ≡ unix) × ((e : Text) × (system.listen unix address ≡ err e))
      on unix address host h =
          (refl, bound address host (system.listen unix address) refl (calm.listen unix address) h)
      on tcp address host h = absurd (
          Returns-no_panic (with_error no_listener (system.reuse_port tcp address))
            (with_error-Returns no_listener _ (calm.reuse_port tcp address)) h)

  -- A socket that was asked for and could not be bound.
  pub record Unbound (f : CommonFlags) : Type 0 where
    pub config : Config Pool
    pub address : Address
    pub error : Text
    pub configures : build_config system.cas f.enabled_cipher_suites f.ca_bundle_path ≡ ok config
    pub parses : parse_unix_or_tcp_address system.resolves f.status_address ≡ ok address
    pub is_unix : address.network ≡ unix
    pub fails : system.listen unix address.address ≡ err error

  -- Where the system's calls return, serving the status page panics exactly if the TLS configuration
  -- can be built, the address of the page parses as that of a UNIX socket, and that cannot be bound.
  pub serve_status-panic_iff :
      (f : CommonFlags) (context : Context Key)
      → (serve_status system f context ≡ panic) ↔ Unbound f
  unfolding serve_status listen_status
  serve_status-panic_iff f context = (to, from)
    where
      from : Unbound f → serve_status system f context ≡ panic
      from u = rw (u.configures, u.parses, u.is_unix, u.fails) refl

      to : serve_status system f context ≡ panic → Unbound f
      to h =
          let (config, b, h1) =
            >>=-eq-panic
              (with_error bad_config
                (build_config system.cas f.enabled_cipher_suites f.ca_bundle_path))
              _
              (with_error-Returns bad_config _
                (build_config-Returns f.enabled_cipher_suites f.ca_bundle_path))
              h in
          let (a, p, h2) =
            >>=-eq-panic
              (with_error bad_address (parse_unix_or_tcp_address system.resolves f.status_address))
              _ (with_error-Returns bad_address _ (parse-Returns system.resolves f.status_address))
              h1 in
          let (n, (e, l)) = listen_status-panic a (listen_panics _ (listen_status system a) h2) in
          record {
            config = config;
            address = a;
            error = e;
            configures = with_error-eq-ok bad_config _ b;
            parses = with_error-eq-ok bad_address _ p;
            is_unix = n;
            fails = l;
          }
        where
          listen_panics :
              {B : Type 0} (b : B) (r : Result RunError (Unit {0}))
              → (r >>= λ _. ok b) ≡ panic
              → r ≡ panic
          listen_panics b (ok _) h = cc
          listen_panics b (err e) h = cc
          listen_panics b panic h = refl
