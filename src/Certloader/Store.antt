-- ===== src/Certloader/Store.antt =====
-- certloader/: a reload in its two parts, what it reads and the atomic store of the pointer, which
-- another reload can come between.
use ghostunnel.Prelude.{◌≡◌, refl, ◌≢◌, none, some, Result, ok, err, panic}
use ghostunnel.Certloader.Source.{TlsCertificate, LoadError, Source}
use ghostunnel.Certloader.Keystore.{load_keystore, store_keystore, reload_keystore}
use ghostunnel.Certloader.Pkcs11.{load_pkcs11, store_pkcs11, reload_pkcs11}
use ghostunnel.Certloader.Keychain.{load_certstore, store_certstore, reload_certstore}
use ghostunnel.Certloader.Reload.{
  Certificate, keystore, pkcs11, certstore, get_certificate, reload, load,
}

module _ {Key : Type 0} where
  -- `atomic.StorePointer`, after a load that returned no error.
  unfoldable pub store : Certificate Key → Result LoadError (TlsCertificate Key) → Certificate Key
  store (keystore c) (ok cert) = keystore (record c { cached = some cert })
  store (pkcs11 c) (ok cert) = pkcs11 (record c { cached = some cert })
  store (certstore c) (ok cert) = certstore (record c { cached = some cert })
  store c (err e) = c
  store c panic = c

  -- A reload is the load and then the store.
  pub reload-store :
      (source : Source Key) (c : Certificate Key) → (reload source c).0 ≡ store c (load source c)
  unfolding reload load store reload_keystore reload_pkcs11 reload_certstore
  reload-store source (keystore c) =
      elim (load_keystore source c)
        as (λ r.
          ◌≡◌ {A = Certificate Key} (keystore (store_keystore source c r).0)
            (store (keystore c) r)) [ ok _ ↦ refl | err _ ↦ refl | panic ↦ refl ]
  reload-store source (pkcs11 c) =
      elim (load_pkcs11 source c)
        as (λ r.
          ◌≡◌ {A = Certificate Key} (pkcs11 (store_pkcs11 source c r).0) (store (pkcs11 c) r)) [
            | ok _ ↦ refl
            | err _ ↦ refl
            | panic ↦ refl
          ]
  reload-store source (certstore c) =
      elim (load_certstore source c)
        as (λ r.
          ◌≡◌ {A = Certificate Key} (certstore (store_certstore source c r).0)
            (store (certstore c) r)) [ ok _ ↦ refl | err _ ↦ refl | panic ↦ refl ]

  -- What a reload returns, by what it has read.
  abbrev pub outcome : Result LoadError (TlsCertificate Key) → Result LoadError (Unit {0})
  outcome (ok _) = ok tt
  outcome (err e) = err e
  outcome panic = panic

  pub reload-outcome :
      (source : Source Key) (c : Certificate Key) → (reload source c).1 ≡ outcome (load source c)
  unfolding reload load reload_keystore reload_pkcs11 reload_certstore
  reload-outcome source (keystore c) =
      elim (load_keystore source c) as (λ r. (store_keystore source c r).1 ≡ outcome r) [
        | ok _ ↦ refl
        | err _ ↦ refl
        | panic ↦ refl
      ]
  reload-outcome source (pkcs11 c) =
      elim (load_pkcs11 source c) as (λ r. (store_pkcs11 source c r).1 ≡ outcome r) [
        | ok _ ↦ refl
        | err _ ↦ refl
        | panic ↦ refl
      ]
  reload-outcome source (certstore c) =
      elim (load_certstore source c) as (λ r. (store_certstore source c r).1 ≡ outcome r) [
        | ok _ ↦ refl
        | err _ ↦ refl
        | panic ↦ refl
      ]

  pub get_certificate-store :
      (c : Certificate Key) (cert : TlsCertificate Key)
      → get_certificate (store c (ok cert)) ≡ some cert
  unfolding get_certificate store
  get_certificate-store (keystore c) cert = refl
  get_certificate-store (pkcs11 c) cert = refl
  get_certificate-store (certstore c) cert = refl

  -- A store never takes the certificate away.
  pub store-served :
      (c : Certificate Key) (r : Result LoadError (TlsCertificate Key))
      → get_certificate c ≢ none
      → get_certificate (store c r) ≢ none
  unfolding store
  store-served c (ok cert) s = λ h. cc (h, get_certificate-store c cert)
  store-served (keystore c) (err e) s = s
  store-served (pkcs11 c) (err e) s = s
  store-served (certstore c) (err e) s = s
  store-served (keystore c) panic s = s
  store-served (pkcs11 c) panic s = s
  store-served (certstore c) panic s = s
