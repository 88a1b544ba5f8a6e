-- ===== src/Run/Laws.antt =====
-- main.go and tls.go: what a run that starts has for its certificate, its access control and its
-- TLS configuration.
use ghostunnel.Prelude.{
  ◌≡◌, subst, ◌⊎◌, inl, inr, true, false, Bool-cases, Option, none, some, ok, >>=-eq-ok,
  ok-injective,
}
use ghostunnel.Certloader.Source.{Source}
use ghostunnel.Certloader.Keystore.{certificate_from_keystore}
use ghostunnel.Certloader.Pkcs11.{certificate_from_pkcs11_module}
use ghostunnel.Certloader.Keychain.{certificate_from_keychain_identity}
use ghostunnel.Certloader.Reload.{Certificate}
use ghostunnel.Certloader.Reloads.{
  Created, from_keystore, from_pkcs11_module, from_keychain_identity,
}
use ghostunnel.Flags.Validate.{CommonFlags, given, has_pkcs11, has_keychain_identity}
use ghostunnel.Run.Certificates.{
  deref, build_certificate_from_pkcs11, build_certificate_from_certstore, build_certificate,
}

-- A certificate that is not nil was made by one of the constructors.
abbrev pub FromFlags : {Key : Type 0} → Source Key → CommonFlags → Option (Certificate Key) → Type 0
FromFlags source f none =
    (has_pkcs11 f ≡ false) × (has_keychain_identity f ≡ false) × (given f.keystore_path ≡ false)
FromFlags source f (some c) =
    Created source c
    × ((has_pkcs11 f ≡ true) ⊎ ((has_keychain_identity f ≡ true) ⊎ (given f.keystore_path ≡ true)))

-- The certificate of a run: nil exactly if none of PKCS#11 module, keychain identity and keystore is
-- given, and otherwise what one of the constructors returned.
pub build_certificate-FromFlags :
    {Key : Type 0} (source : Source Key) (f : CommonFlags) (o : Option (Certificate Key))
    → build_certificate source f f.keystore_path f.keystore_pass ≡ ok o
    → FromFlags source f o
unfolding build_certificate build_certificate_from_pkcs11 build_certificate_from_certstore
build_certificate-FromFlags source f o h = elim (Bool-cases (has_pkcs11 f)) [
  | inl p ↦
      let (c, e, k) =
        >>=-eq-ok
          (certificate_from_pkcs11_module source f.keystore_path (deref f.pkcs11_module)
            f.pkcs11_token_label f.pkcs11_pin)
          _ (rw p at h) in
      subst (FromFlags source f) (ok-injective k) (
        from_pkcs11_module f.keystore_path (deref f.pkcs11_module) f.pkcs11_token_label f.pkcs11_pin
            e,
        inl p,
      )
  | inr p ↦ elim (Bool-cases (has_keychain_identity f)) [
    | inl i ↦
        let (c, e, k) =
          >>=-eq-ok (certificate_from_keychain_identity source (deref f.keychain_identity)) _
            (rw (p, i) at h) in
        subst (FromFlags source f) (ok-injective k)
          (from_keychain_identity (deref f.keychain_identity) e, inr (inl i))
    | inr i ↦ elim (Bool-cases (given f.keystore_path)) [
      | inl g ↦
          let (c, e, k) =
            >>=-eq-ok (certificate_from_keystore source f.keystore_path f.keystore_pass) _
              (rw (p, i, g) at h) in
          subst (FromFlags source f) (ok-injective k)
            (from_keystore f.keystore_path f.keystore_pass e, inr (inr g))
      | inr g ↦ subst (FromFlags source f) (ok-injective (rw (p, i, g) at h)) (p, i, g)
    ]
  ]
]
