-- ===== src/Run/Certificates.antt =====
-- tls.go: `buildCertificate` and the functions that it chooses from.
use ghostunnel.Prelude.{Option, none, some, [], if◌then◌else◌, Text, Result, ok, ◌>>=◌}
use ghostunnel.Certloader.Source.{Source, LoadError}
use ghostunnel.Certloader.Keystore.{certificate_from_keystore}
use ghostunnel.Certloader.Pkcs11.{certificate_from_pkcs11_module}
use ghostunnel.Certloader.Keychain.{certificate_from_keychain_identity}
use ghostunnel.Certloader.Reload.{Certificate, keystore, pkcs11, certstore}
use ghostunnel.Flags.Validate.{CommonFlags, given, has_pkcs11, has_keychain_identity}

-- The text that a flag points to; it is read only where the pointer is not nil.
abbrev pub deref : Option Text → Text
deref none = []
deref (some s) = s

module _ {Key : Type 0} (source : Source Key) where
  unfoldable pub build_certificate_from_pkcs11 :
      CommonFlags → Text → Result LoadError (Option (Certificate Key))
  build_certificate_from_pkcs11 f certificate_path = do
    c ←
        certificate_from_pkcs11_module source certificate_path (deref f.pkcs11_module)
          f.pkcs11_token_label f.pkcs11_pin
    ok (some (pkcs11 c))

  unfoldable pub build_certificate_from_certstore :
      CommonFlags → Result LoadError (Option (Certificate Key))
  build_certificate_from_certstore f = do
    c ← certificate_from_keychain_identity source (deref f.keychain_identity)
    ok (some (certstore c))

  -- `none` is the nil interface, with a nil error.
  unfoldable pub build_certificate :
      CommonFlags
      → (keystore_path keystore_pass : Text) → Result LoadError (Option (Certificate Key))
  build_certificate f keystore_path keystore_pass =
      if has_pkcs11 f
      then build_certificate_from_pkcs11 f keystore_path
      else if has_keychain_identity f
      then build_certificate_from_certstore f
      else if given keystore_path
      then (do
        c ← certificate_from_keystore source keystore_path keystore_pass
        ok (some (keystore c)))
      else ok none
