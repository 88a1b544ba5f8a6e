-- ===== src/Certloader/Reloads.antt =====
-- certloader/: what holds of a certificate through any number of reloads.
use ghostunnel.Prelude.{
  ◌≡◌, refl, sym, ap, subst, ◌∙◌, ◌≢◌, ◌⊎◌, inl, inr, none, List, [], ◌∷◌, Text, Result, ok, err,
  panic,
}
use ghostunnel.Certloader.Source.{LoadError, Source}
use ghostunnel.Certloader.Keystore.{
  KeystoreCertificate, if_loaded, reload_keystore, certificate_from_pem_files,
  certificate_from_keystore,
}
use ghostunnel.Certloader.Pkcs11.{Pkcs11Certificate, reload_pkcs11, certificate_from_pkcs11_module}
use ghostunnel.Certloader.Keychain.{
  CertstoreCertificate, reload_certstore, certificate_from_keychain_identity,
}
use ghostunnel.Certloader.Reload.{
  Certificate, keystore, pkcs11, certstore, get_certificate, reload, Atomic, reload-Atomic,
}

module _ {Key : Type 0} where
  -- Reloads one after the other, each with what the system has at its time; the results are dropped,
  -- as in `Context.reload`.
  unfoldable pub reloads : List (Source Key) → Certificate Key → Certificate Key
  reloads [] c = c
  reloads (source ∷ sources) c = reloads sources (reload source c).0

  -- The object was returned by one of the four constructors.
  pub data Created (source : Source Key) : Certificate Key → Type 0 where
    from_pem_files :
        (certificate_path key_path : Text) {c : KeystoreCertificate Key}
        → certificate_from_pem_files source certificate_path key_path ≡ ok c
        → Created source (keystore c)
    from_keystore :
        (keystore_path keystore_password : Text) {c : KeystoreCertificate Key}
        → certificate_from_keystore source keystore_path keystore_password ≡ ok c
        → Created source (keystore c)
    from_pkcs11_module :
        (certificate_path module_path token_label pin : Text) {c : Pkcs11Certificate Key}
        → certificate_from_pkcs11_module source certificate_path module_path token_label pin ≡ ok c
        → Created source (pkcs11 c)
    from_keychain_identity :
        (common_name : Text) {c : CertstoreCertificate Key}
        → certificate_from_keychain_identity source common_name ≡ ok c
        → Created source (certstore c)

  if_loaded-ok :
      {C : Type 0} (source : Source Key) (x : C × Result LoadError (Unit {0})) (c : C)
      → if_loaded source x ≡ ok c
      → (x.0 ≡ c) × (x.1 ≡ ok tt)
  if_loaded-ok source (d, ok u) c h = (cc, refl)
  if_loaded-ok source (d, err e) c h = cc
  if_loaded-ok source (d, panic) c h = cc

  -- A reload never takes the certificate away, and one that returned no error has put one there.
  Atomic-served :
      (source : Source Key) (c d : Certificate Key) (r : Result LoadError (Unit {0}))
      → Atomic source c (d, r)
      → (r ≡ ok tt) ⊎ (get_certificate c ≢ none)
      → get_certificate d ≢ none
  Atomic-served source c d r (inl (_, l)) _ = λ e. cc
  Atomic-served source c d r (inr (n, e)) (inl o) = absurd (n o)
  Atomic-served source c d r (inr (n, e)) (inr s) = λ h. s (ap get_certificate (sym e) ∙ h)

  reloads-served :
      (sources : List (Source Key)) (c : Certificate Key)
      → get_certificate c ≢ none
      → get_certificate (reloads sources c) ≢ none
  unfolding reloads
  reloads-served [] c s = s
  reloads-served (source ∷ sources) c s = reloads-served sources (reload source c).0 (
      Atomic-served source c (reload source c).0 (reload source c).1 (reload-Atomic source c)
        (inr s))

  keystore-served :
      (source : Source Key) (b c : KeystoreCertificate Key)
      → if_loaded source (reload_keystore source b) ≡ ok c
      → get_certificate (keystore c) ≢ none
  unfolding reload
  keystore-served source b c h =
      let (same, loaded) = if_loaded-ok source (reload_keystore source b) c h in
      subst (λ (d : KeystoreCertificate Key). get_certificate (keystore d) ≢ none) same
        (Atomic-served source (keystore b) (keystore (reload_keystore source b).0)
          (reload_keystore source b).1 (reload-Atomic source (keystore b)) (inl loaded))

  pkcs11-served :
      (source : Source Key) (b c : Pkcs11Certificate Key)
      → if_loaded source (reload_pkcs11 source b) ≡ ok c
      → get_certificate (pkcs11 c) ≢ none
  unfolding reload
  pkcs11-served source b c h =
      let (same, loaded) = if_loaded-ok source (reload_pkcs11 source b) c h in
      subst (λ (d : Pkcs11Certificate Key). get_certificate (pkcs11 d) ≢ none) same
        (Atomic-served source (pkcs11 b) (pkcs11 (reload_pkcs11 source b).0)
          (reload_pkcs11 source b).1 (reload-Atomic source (pkcs11 b)) (inl loaded))

  certstore-served :
      (source : Source Key) (b c : CertstoreCertificate Key)
      → if_loaded source (reload_certstore source b) ≡ ok c
      → get_certificate (certstore c) ≢ none
  unfolding reload
  certstore-served source b c h =
      let (same, loaded) = if_loaded-ok source (reload_certstore source b) c h in
      subst (λ (d : CertstoreCertificate Key). get_certificate (certstore d) ≢ none) same
        (Atomic-served source (certstore b) (certstore (reload_certstore source b).0)
          (reload_certstore source b).1 (reload-Atomic source (certstore b)) (inl loaded))

  Created-served :
      (source : Source Key) (c : Certificate Key) → Created source c → get_certificate c ≢ none
  unfolding certificate_from_pem_files certificate_from_keystore certificate_from_pkcs11_module
      certificate_from_keychain_identity
  Created-served source _ (from_pem_files _ _ h) = keystore-served source _ _ h
  Created-served source _ (from_keystore _ _ h) = keystore-served source _ _ h
  Created-served source _ (from_pkcs11_module _ _ _ _ h) = pkcs11-served source _ _ h
  Created-served source _ (from_keychain_identity _ h) = certstore-served source _ _ h

  -- A certificate that one of the constructors returned is never nil in `GetCertificate`, after any
  -- number of reloads, whether they succeed, fail or find other files each time.
  pub reloads-Created :
      (source : Source Key) (sources : List (Source Key)) (c : Certificate Key)
      → Created source c
      → get_certificate (reloads sources c) ≢ none
  reloads-Created source sources c h = reloads-served sources c (Created-served source c h)
