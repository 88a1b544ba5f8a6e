-- ===== src/Certloader/Reload.antt =====
-- certloader/keystore.go: the interface `Certificate`, over the three kinds of certificate, and what
-- every reload keeps.
use ghostunnel.Prelude.{◌≡◌, refl, ◌≢◌, ◌⊎◌, inl, inr, Option, none, some, Result, ok, err, panic}
use ghostunnel.Certloader.Source.{TlsCertificate, LoadError, Source}
use ghostunnel.Certloader.Keystore.{
  KeystoreCertificate, load_keystore, store_keystore, reload_keystore,
}
use ghostunnel.Certloader.Pkcs11.{Pkcs11Certificate, load_pkcs11, store_pkcs11, reload_pkcs11}
use ghostunnel.Certloader.Keychain.{
  CertstoreCertificate, load_certstore, store_certstore, reload_certstore,
}

-- A value of the interface `Certificate`: a pointer to one of the three structs.
pub data Certificate (Key : Type 0) : Type 0 where
  keystore : KeystoreCertificate Key → Certificate Key
  pkcs11 : Pkcs11Certificate Key → Certificate Key
  certstore : CertstoreCertificate Key → Certificate Key

module _ {Key : Type 0} where
  unfoldable pub get_certificate : Certificate Key → Option (TlsCertificate Key)
  get_certificate (keystore c) = c.cached
  get_certificate (pkcs11 c) = c.cached
  get_certificate (certstore c) = c.cached

  unfoldable pub get_client_certificate : Certificate Key → Option (TlsCertificate Key)
  get_client_certificate (keystore c) = c.cached
  get_client_certificate (pkcs11 c) = c.cached
  get_client_certificate (certstore c) = c.cached

  -- The call of `Reload` through the interface.
  unfoldable pub reload :
      Source Key → Certificate Key → Certificate Key × Result LoadError (Unit {0})
  reload source (keystore c) = let (c', r) = reload_keystore source c in (keystore c', r)
  reload source (pkcs11 c) = let (c', r) = reload_pkcs11 source c in (pkcs11 c', r)
  reload source (certstore c) = let (c', r) = reload_certstore source c in (certstore c', r)

  -- The certificate that a reload would read now.
  unfoldable pub load : Source Key → Certificate Key → Result LoadError (TlsCertificate Key)
  load source (keystore c) = load_keystore source c
  load source (pkcs11 c) = load_pkcs11 source c
  load source (certstore c) = load_certstore source c

  -- The same object, but for what it has cached.
  abbrev pub SameSettings : Certificate Key → Certificate Key → Type 0
  SameSettings (keystore c) (keystore d) = record d { cached = none } ≡ record c { cached = none }
  SameSettings (pkcs11 c) (pkcs11 d) = record d { cached = none } ≡ record c { cached = none }
  SameSettings (certstore c) (certstore d) = record d { cached = none } ≡ record c { cached = none }
  SameSettings _ _ = ⊥

  -- A reload that returned no error serves the certificate that it read, to both callbacks.
  pub record Reloaded (source : Source Key) (c d : Certificate Key) : Type 0 where
    pub cert : TlsCertificate Key
    pub loaded : load source c ≡ ok cert
    pub served : get_certificate d ≡ some cert
    pub served_client : get_client_certificate d ≡ some cert
    pub settings : SameSettings c d

  -- What a call of `Reload` may do to the object `c`.
  abbrev pub Atomic :
      Source Key → Certificate Key → Certificate Key × Result LoadError (Unit {0}) → Type 0
  Atomic source c (d, r) = ((r ≡ ok tt) × Reloaded source c d) ⊎ ((r ≢ ok tt) × (d ≡ c))

  keystore-Atomic :
      (source : Source Key) (c : KeystoreCertificate Key)
      (r : Result LoadError (TlsCertificate Key))
      → load_keystore source c ≡ r
      → Atomic source
          (keystore c)
          (keystore (store_keystore source c r).0, (store_keystore source c r).1)
  unfolding load get_certificate get_client_certificate
  keystore-Atomic source c (ok cert) e = inl (
    refl,
    record { cert = cert; loaded = e; served = refl; served_client = refl; settings = refl },
  )
  keystore-Atomic source c (err x) e = inr (λ h. cc, refl)
  keystore-Atomic source c panic e = inr (λ h. cc, refl)

  pkcs11-Atomic :
      (source : Source Key) (c : Pkcs11Certificate Key) (r : Result LoadError (TlsCertificate Key))
      → load_pkcs11 source c ≡ r
      → Atomic source (pkcs11 c) (pkcs11 (store_pkcs11 source c r).0, (store_pkcs11 source c r).1)
  unfolding load get_certificate get_client_certificate
  pkcs11-Atomic source c (ok cert) e = inl (
    refl,
    record { cert = cert; loaded = e; served = refl; served_client = refl; settings = refl },
  )
  pkcs11-Atomic source c (err x) e = inr (λ h. cc, refl)
  pkcs11-Atomic source c panic e = inr (λ h. cc, refl)

  certstore-Atomic :
      (source : Source Key) (c : CertstoreCertificate Key)
      (r : Result LoadError (TlsCertificate Key))
      → load_certstore source c ≡ r
      → Atomic source
          (certstore c)
          (certstore (store_certstore source c r).0, (store_certstore source c r).1)
  unfolding load get_certificate get_client_certificate
  certstore-Atomic source c (ok cert) e = inl (
    refl,
    record { cert = cert; loaded = e; served = refl; served_client = refl; settings = refl },
  )
  certstore-Atomic source c (err x) e = inr (λ h. cc, refl)
  certstore-Atomic source c panic e = inr (λ h. cc, refl)

  -- A call of `Reload`, on any of the three kinds of certificate: either it returns no error, and
  -- then both callbacks serve the certificate that was read, with the settings of the object
  -- unchanged; or it returns an error, and then the object is as it was.
  pub reload-Atomic :
      (source : Source Key) (c : Certificate Key) → Atomic source c (reload source c)
  unfolding reload reload_keystore reload_pkcs11 reload_certstore
  reload-Atomic source (keystore c) = keystore-Atomic source c (load_keystore source c) refl
  reload-Atomic source (pkcs11 c) = pkcs11-Atomic source c (load_pkcs11 source c) refl
  reload-Atomic source (certstore c) = certstore-Atomic source c (load_certstore source c) refl
