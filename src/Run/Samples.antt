-- ===== src/Run/Samples.antt =====
-- main.go: a system, and what the starts of a server with the sample flags return on it.
use ghostunnel.Prelude.{
  ℕ, ◌≡◌, refl, true, false, none, some, [], ◌∷◌, Text, codes, text_eq, has_prefix, split,
  trim_space, ok, err,
}
use ghostunnel.Certloader.Source.{X509, Source}
use ghostunnel.Certloader.Keychain.{
  serialize_chain, try_identity, find_identity, load_certstore, reload_certstore,
  certificate_from_keychain_identity,
}
use ghostunnel.Certloader.Reload.{Certificate, certstore}
use ghostunnel.Wildcard.Compile.{compile_list_from, compile_list}
use ghostunnel.Auth.Acl.{is_empty}
use ghostunnel.Tls.Suites.{cipher_suites, check_suites, collect_suites}
use ghostunnel.Tls.Config.{Config, ca_bundle, build_config}
use ghostunnel.Tls.Laws.{configured}
use ghostunnel.Address.Parse.{Address, unix, parse_unix_or_tcp_address, validate_unix_or_localhost}
use ghostunnel.Status.Handler.{set_listening}
use ghostunnel.Signals.Handler.{unix_platform, Context}
use ghostunnel.Certloader.Total.{Total}
use ghostunnel.Flags.Validate.{
  pos, has_pkcs11, has_keychain_identity, has_access_flags, validate_flags, server_validate_flags,
}
use ghostunnel.Flags.Samples.{common, server}
use ghostunnel.Run.System.{System}
use ghostunnel.Run.Certificates.{build_certificate_from_certstore, build_certificate}
use ghostunnel.Run.Server.{
  ServerProxy, maybe_serve_status, server_tls, server_start, server_backend_dialer, prepare,
}

abbrev pub identity : X509
identity = record { raw = 1 ∷ []; common_name = codes "me"; public_key = [] }

abbrev pub keychain : Source ℕ
keychain = record {
  open_file = λ _. err [];
  read_pem_blocks = λ _ _ _. record { blocks = []; failed = true };
  read_x509_blocks = λ _. record { calls = []; failed = true };
  encode_to_memory = λ b. b;
  x509_key_pair = λ _ _. err [];
  parse_certificate = λ _. err [];
  pkcs11_key = λ _ _ _ _. err [];
  identities = ok ((ok (identity ∷ []), ok 7) ∷ []);
}

abbrev pub host : System ℕ ℕ
host = record {
  certificates = keychain;
  cas = record { system_cert_pool = ok 1; read_file = λ _. err []; certs_from_pem = λ _. none };
  resolves = λ _. true;
  listen = λ _ _. err (codes "in use");
  reuse_port = λ _ _. ok tt;
  new_syslog = err (codes "no syslog");
  setrlimit = λ _. ok tt;
}

abbrev pub served : Certificate ℕ
served = certstore (record {
  common_name = codes "me";
  cached = some (record { certificate = (1 ∷ []) ∷ []; private_key = some 7; leaf = none });
})

abbrev pub config : Config ℕ
config = configured 1 (0xc02b ∷ 0xc02f ∷ 0xc02c ∷ 0xc030 ∷ [])

abbrev pub created : Context ℕ
created = record {
  status = record { listening = false; reloading = false };
  status_http = false;
  shutdown_timeout = pos 5;
  cert = some served;
}

abbrev pub running : Context ℕ
running = record created { status = record { listening = true; reloading = false } }

abbrev pub proxied : ServerProxy ℕ ℕ
proxied = record {
  tls = record {
    config = config;
    certificate = served;
    acl = record {
      allow_all = false;
      allowed_cns = codes "cn" ∷ [];
      allowed_ous = [];
      allowed_dnss = [];
      allowed_ips = [];
      allowed_uris = [];
    };
  };
  connect_timeout = pos 10;
  proxy_protocol = true;
}

abbrev pub socket : Text → Address
socket path = record { network = unix; address = path; host = [] }

pub built : build_certificate keychain common [] [] ≡ ok (some served)
unfolding build_certificate build_certificate_from_certstore has_pkcs11 has_keychain_identity
    certificate_from_keychain_identity reload_certstore load_certstore find_identity try_identity
    serialize_chain text_eq
built = refl

pub prepared : prepare host unix_platform common ≡ ok (some served)
unfolding prepare unix_platform validate_flags ca_bundle build_certificate
    build_certificate_from_certstore has_pkcs11 has_keychain_identity
    certificate_from_keychain_identity reload_certstore load_certstore find_identity try_identity
    serialize_chain text_eq
prepared = refl

pub server_valid : server_validate_flags server ≡ ok tt
unfolding server_validate_flags has_keychain_identity has_access_flags is_empty text_eq
    validate_unix_or_localhost has_prefix check_suites split trim_space cipher_suites
server_valid = refl

pub target : server_backend_dialer host server ≡ ok (socket (codes "/s"))
unfolding server_backend_dialer parse_unix_or_tcp_address has_prefix
target = refl

pub configures : build_config host.cas (codes "AES") [] ≡ ok config
unfolding build_config ca_bundle collect_suites split trim_space cipher_suites text_eq
configures = refl

pub starts : server_start host server created ≡ ok (running, proxied)
unfolding server_start server_tls maybe_serve_status set_listening build_config ca_bundle
    collect_suites split trim_space cipher_suites text_eq compile_list compile_list_from
starts = refl

pub keychain-Total : Total keychain
keychain-Total = record {
  open_file = λ _. tt;
  x509_key_pair = λ _ _. tt;
  parse_certificate = λ _. tt;
  pkcs11_key = λ _ _ _ _. tt;
  identities = (((λ h. cc), tt), tt);
}
