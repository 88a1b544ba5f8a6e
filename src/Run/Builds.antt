-- ===== src/Run/Builds.antt =====
-- main.go and tls.go: the flags that a build registers, and the certificates that it can make.
use ghostunnel.Prelude.{
  ◌≡◌, refl, ◌⊎◌, inl, inr, Option, none, some, if◌then◌else◌, Text, Result, ok, ◌>>=◌,
}
use ghostunnel.Certloader.Source.{Source, LoadError}
use ghostunnel.Certloader.Keystore.{certificate_from_keystore}
use ghostunnel.Certloader.Reload.{Certificate, keystore, pkcs11, certstore}
use ghostunnel.Certloader.Builds.{
  Pkcs11Support, KeychainSupport, pkcs11_enabled, pkcs11_disabled, certstore_enabled,
  certstore_disabled,
}
use ghostunnel.Flags.Validate.{CommonFlags, given, has_pkcs11, has_keychain_identity}
use ghostunnel.Run.Certificates.{
  deref, build_certificate, build_certificate_from_pkcs11, build_certificate_from_certstore,
}

module _ {Key : Type 0} where
  -- `init`: the pointers of flags that are not registered stay nil.
  unfoldable pub register : Pkcs11Support Key → KeychainSupport Key → CommonFlags → CommonFlags
  register p k f = record f {
    keychain_identity = if k.supports_keychain then f.keychain_identity else none;
    pkcs11_module = if p.supports_pkcs11 then f.pkcs11_module else none;
  }

  -- `buildCertificate` with the functions of the build.
  unfoldable pub build_certificate_in :
      Pkcs11Support Key
      → KeychainSupport Key
      → Source Key
      → CommonFlags
      → (keystore_path keystore_pass : Text) → Result LoadError (Option (Certificate Key))
  build_certificate_in p k source f keystore_path keystore_pass =
      if has_pkcs11 f
      then (do
        c ←
            p.from_module source keystore_path (deref f.pkcs11_module) f.pkcs11_token_label
              f.pkcs11_pin
        ok (some (pkcs11 c)))
      else if has_keychain_identity f
      then (do c ← k.from_identity source (deref f.keychain_identity); ok (some (certstore c)))
      else if given keystore_path
      then (do
        c ← certificate_from_keystore source keystore_path keystore_pass
        ok (some (keystore c)))
      else ok none

  -- In each of the four builds, with the flags that it registers, `buildCertificate` comes to what it
  -- comes to with support for everything: the constructors that only report that they are not
  -- supported are never called.
  pub build_certificate_in-register :
      (p : Pkcs11Support Key) (k : KeychainSupport Key) (source : Source Key) (f : CommonFlags)
      (keystore_path keystore_pass : Text)
      → (p ≡ pkcs11_enabled) ⊎ (p ≡ pkcs11_disabled)
      → (k ≡ certstore_enabled) ⊎ (k ≡ certstore_disabled)
      → build_certificate_in p k source (register p k f) keystore_path keystore_pass
        ≡ build_certificate source (register p k f) keystore_path keystore_pass
  unfolding build_certificate_in build_certificate build_certificate_from_pkcs11
      build_certificate_from_certstore register pkcs11_enabled pkcs11_disabled certstore_enabled
      certstore_disabled has_pkcs11 has_keychain_identity
  build_certificate_in-register p k source f path pass (inl e) (inl d) = rw (e, d) refl
  build_certificate_in-register p k source f path pass (inl e) (inr d) = rw (e, d) refl
  build_certificate_in-register p k source f path pass (inr e) (inl d) = rw (e, d) refl
  build_certificate_in-register p k source f path pass (inr e) (inr d) = rw (e, d) refl
