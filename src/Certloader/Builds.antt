-- ===== src/Certloader/Builds.antt =====
-- certloader/pkcs11_enabled.go, pkcs11_disabled.go, certstore_enabled.go and certstore_disabled.go:
-- what a build of the program has, by its tags.
use ghostunnel.Prelude.{Bool, true, false, Text, Result, err}
use ghostunnel.Certloader.Source.{Source, LoadError, not_supported}
use ghostunnel.Certloader.Pkcs11.{Pkcs11Certificate, certificate_from_pkcs11_module}
use ghostunnel.Certloader.Keychain.{CertstoreCertificate, certificate_from_keychain_identity}

-- `SupportsPKCS11` and `CertificateFromPKCS11Module`.
pub record Pkcs11Support (Key : Type 0) : Type 0 where
  pub supports_pkcs11 : Bool
  pub from_module :
      Source Key
      → (certificate_path module_path token_label pin : Text)
      → Result LoadError (Pkcs11Certificate Key)

-- `SupportsKeychain` and `CertificateFromKeychainIdentity`.
pub record KeychainSupport (Key : Type 0) : Type 0 where
  pub supports_keychain : Bool
  pub from_identity :
      Source Key → (common_name : Text) → Result LoadError (CertstoreCertificate Key)

unfoldable pub pkcs11_enabled : {Key : Type 0} → Pkcs11Support Key
pkcs11_enabled = record {
  supports_pkcs11 = true;
  from_module = λ source. certificate_from_pkcs11_module source;
}

unfoldable pub pkcs11_disabled : {Key : Type 0} → Pkcs11Support Key
pkcs11_disabled = record { supports_pkcs11 = false; from_module = λ _ _ _ _ _. err not_supported }

unfoldable pub certstore_enabled : {Key : Type 0} → KeychainSupport Key
certstore_enabled = record {
  supports_keychain = true;
  from_identity = λ source. certificate_from_keychain_identity source;
}

unfoldable pub certstore_disabled : {Key : Type 0} → KeychainSupport Key
certstore_disabled = record { supports_keychain = false; from_identity = λ _ _. err not_supported }
