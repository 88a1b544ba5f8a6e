-- ===== src/Flags/Validate.antt =====
-- main.go: `validateFlags`, `serverValidateFlags` and `clientValidateFlags`.
use ghostunnel.Prelude.{
  ℕ, zero, suc, Bool, true, false, not, ◌&&◌, ◌||◌, Option, none, some, List, [], Text, codes,
  text_eq, has_prefix, split, Result, ok, ◌>>◌, fail_if,
}
use ghostunnel.Auth.Ip.{Ip}
use ghostunnel.Auth.Acl.{is_empty}
use ghostunnel.Address.Parse.{validate_unix_or_localhost}
use ghostunnel.Tls.Suites.{SuiteError, check_suites}
use ghostunnel.Tls.Config.{with_error}

-- `time.Duration` in nanoseconds: `negsuc n` is -(n + 1).
pub data ℤ : Type 0 where
  pos : ℕ → ℤ
  negsuc : ℕ → ℤ

abbrev pub is_zero : ℤ → Bool
is_zero (pos zero) = true
is_zero (pos (suc _)) = false
is_zero (negsuc _) = false

-- The flags that are there in both modes. `keychain_identity` is the nil pointer where the build
-- has no keychain support, and the three PKCS#11 flags are so where it has no PKCS#11 support.
pub record CommonFlags : Type 0 where
  pub keystore_path : Text
  pub keystore_pass : Text
  pub ca_bundle_path : Text
  pub enabled_cipher_suites : Text
  pub keychain_identity : Option Text
  pub pkcs11_module : Option Text
  pub pkcs11_token_label : Text
  pub pkcs11_pin : Text
  pub timed_reload : ℤ
  pub shutdown_timeout : ℤ
  pub timeout_duration : ℤ
  pub metrics_url : Text
  pub status_address : Text
  pub enable_prof : Bool
  pub syslog_flag : Bool
  pub fd_limit : ℕ

-- `listen_address` is the text of the address that the flag was resolved to.
pub record ServerFlags : Type 0 where
  pub common : CommonFlags
  pub listen_address : Text
  pub forward_address : Text
  pub proxy_protocol : Bool
  pub unsafe_target : Bool
  pub allow_all : Bool
  pub allowed_cns : List Text
  pub allowed_ous : List Text
  pub allowed_dnss : List Text
  pub allowed_ips : List Ip
  pub allowed_uris : List Text
  pub disable_auth : Bool

-- `connect_proxy` is the scheme of the proxy's URL.
pub record ClientFlags : Type 0 where
  pub common : CommonFlags
  pub listen_address : Text
  pub forward_address : Text
  pub unsafe_listen : Bool
  pub server_name : Text
  pub connect_proxy : Option Text
  pub allowed_cns : List Text
  pub allowed_ous : List Text
  pub allowed_dnss : List Text
  pub allowed_ips : List Ip
  pub allowed_uris : List Text
  pub disable_auth : Bool

pub data FlagError : Type 0 where
  prof_requires_status metrics_url_scheme zero_timeout keystore_required keystore_exclusive
        access_required allow_all_exclusive disable_auth_exclusive unsafe_address proxy_scheme :
      FlagError
  suite : SuiteError → FlagError

-- `hasKeychainIdentity` and `hasPKCS11`: a pointer that is not nil, to a text that is not empty.
abbrev pub is_set : Option Text → Bool
is_set none = false
is_set (some s) = not (text_eq s [])

unfoldable pub has_keychain_identity : CommonFlags → Bool
has_keychain_identity f = is_set f.keychain_identity

unfoldable pub has_pkcs11 : CommonFlags → Bool
has_pkcs11 f = is_set f.pkcs11_module

abbrev pub given : Text → Bool
given s = not (text_eq s [])

unfoldable pub validate_flags : CommonFlags → Result FlagError (Unit {0})
validate_flags f = do
  fail_if (f.enable_prof && not (given f.status_address)) prof_requires_status
  fail_if
      (given f.metrics_url
        && not (has_prefix f.metrics_url (codes "http://"))
        && not (has_prefix f.metrics_url (codes "https://")))
      metrics_url_scheme
  fail_if (is_zero f.timeout_duration) zero_timeout
  ok tt

unfoldable pub has_access_flags : ServerFlags → Bool
has_access_flags f =
    not (is_empty f.allowed_cns)
    || not (is_empty f.allowed_ous)
    || not (is_empty f.allowed_dnss)
    || not (is_empty f.allowed_ips)
    || not (is_empty f.allowed_uris)

abbrev pub suites_of : CommonFlags → Result FlagError (Unit {0})
suites_of f = with_error suite (check_suites (split f.enabled_cipher_suites b','))

unfoldable pub server_validate_flags : ServerFlags → Result FlagError (Unit {0})
server_validate_flags f = do
  let keystore = given f.common.keystore_path
  let keychain = has_keychain_identity f.common
  fail_if (not keystore && not keychain) keystore_required
  fail_if (keystore && keychain) keystore_exclusive
  fail_if (not f.disable_auth && not f.allow_all && not (has_access_flags f)) access_required
  fail_if (not f.disable_auth && f.allow_all && has_access_flags f) allow_all_exclusive
  fail_if (f.disable_auth && (f.allow_all || has_access_flags f)) disable_auth_exclusive
  fail_if (not f.unsafe_target && not (validate_unix_or_localhost f.forward_address)) unsafe_address
  suites_of f.common

-- `*clientConnectProxy != nil` and neither of the two schemes.
abbrev pub bad_proxy : Option Text → Bool
bad_proxy none = false
bad_proxy (some scheme) =
    not (text_eq scheme (codes "http")) && not (text_eq scheme (codes "https"))

unfoldable pub client_validate_flags : ClientFlags → Result FlagError (Unit {0})
client_validate_flags f = do
  let keystore = given f.common.keystore_path
  let keychain = has_keychain_identity f.common
  fail_if (not keystore && not keychain && not f.disable_auth) keystore_required
  fail_if ((keystore && keychain) || (keystore && f.disable_auth) || (keychain && f.disable_auth))
      keystore_exclusive
  fail_if (not f.unsafe_listen && not (validate_unix_or_localhost f.listen_address)) unsafe_address
  fail_if (bad_proxy f.connect_proxy) proxy_scheme
  suites_of f.common
