-- ===== src/Tls/Config.antt =====
-- tls.go: `caBundle` and `buildConfig`.
use ghostunnel.Prelude.{
  ℕ, Bool, true, Option, none, some, List, [], ◌∷◌, if◌then◌else◌, Text, text_eq, split, Result, ok,
  err, panic, ◌>>=◌,
}
use ghostunnel.Tls.Suites.{SuiteError, collect_suites}

-- `tls.ClientAuthType`
pub data ClientAuth : Type 0 where
  no_client_cert request_client_cert require_any_client_cert verify_client_cert_if_given
        require_and_verify_client_cert :
      ClientAuth

pub data TlsVersion : Type 0 where
  version_tls10 version_tls11 version_tls12 : TlsVersion

pub data CurveId : Type 0 where
  x25519 curve_p256 curve_p384 curve_p521 : CurveId

-- The fields of `tls.Config` that the program sets; `Pool` is `x509.CertPool`. The callbacks are
-- set by the callers, and stand with those.
pub record Config (Pool : Type 0) : Type 0 where
  pub root_cas : Pool
  pub client_cas : Pool
  pub prefer_server_cipher_suites : Bool
  pub client_auth : ClientAuth
  pub min_version : TlsVersion
  pub cipher_suites : List ℕ
  pub curve_preferences : List CurveId

pub data ConfigError : Type 0 where
  ca_error : Text → ConfigError
  no_certificates : ConfigError
  bad_suite : SuiteError → ConfigError

-- What `caBundle` calls: the system's store, the file and the parser of PEM blocks. An error of the
-- system is its message.
pub record CaSource (Pool : Type 0) : Type 0 where
  pub system_cert_pool : Result Text Pool
  pub read_file : Text → Result Text Text
  pub certs_from_pem : Text → Option Pool

abbrev pub with_error {ℓ κ ι} :
    {E : Type ℓ} {F : Type κ} {A : Type ι} → (E → F) → Result E A → Result F A
with_error f (ok a) = ok a
with_error f (err e) = err (f e)
with_error f panic = panic

module _ {Pool : Type 0} (source : CaSource Pool) where
  abbrev pub from_pem : Option Pool → Result ConfigError Pool
  from_pem none = err no_certificates
  from_pem (some pool) = ok pool

  unfoldable pub ca_bundle : Text → Result ConfigError Pool
  ca_bundle ca_bundle_path =
      if text_eq ca_bundle_path [] then with_error ca_error source.system_cert_pool else (do
        bytes ← with_error ca_error (source.read_file ca_bundle_path)
        from_pem (source.certs_from_pem bytes))

  unfoldable pub build_config : Text → Text → Result ConfigError (Config Pool)
  build_config enabled_cipher_suites ca_bundle_path = do
    ca ← ca_bundle ca_bundle_path
    suites ← with_error bad_suite (collect_suites [] (split enabled_cipher_suites b','))
    ok (record {
      root_cas = ca;
      client_cas = ca;
      prefer_server_cipher_suites = true;
      client_auth = no_client_cert;
      min_version = version_tls10;
      cipher_suites = suites;
      curve_preferences = x25519 ∷ curve_p256 ∷ curve_p384 ∷ curve_p521 ∷ [];
    })
