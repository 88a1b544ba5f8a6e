-- ===== src/Certloader/Total.antt =====
-- certloader/: what the package relies on in the libraries that it calls, so that a load comes back.
use ghostunnel.Prelude.{
  ◌≡◌, ◌≢◌, refl, sym, ◌∙◌, Bool, false, Bool-cases, ◌||◌, inl, inr, Option, none, some, List, [],
  ◌∷◌, ◌++◌, All, Text, text_eq, Result, ok, err, panic, ◌>>=◌, Holds, Returns, >>=-Returns,
}
use ghostunnel.Auth.Acl.{is_empty}
use ghostunnel.Certloader.Source.{
  X509, TlsCertificate, LoadError, PemRead, Source, lift, check_blocks, has_errors, check_parsed,
  Parsed, callbacks, read_pem, read_x509,
}
use ghostunnel.Certloader.Keystore.{
  KeystoreCertificate, read_paths, encode_blocks, first_raw, load_keystore,
}
use ghostunnel.Certloader.Pkcs11.{Pkcs11Certificate, first_cert, choose_key, load_pkcs11}
use ghostunnel.Certloader.Keychain.{
  CertstoreCertificate, try_identity, or_next, find_identity, load_certstore,
}
use ghostunnel.Certloader.Reload.{Certificate, keystore, pkcs11, certstore, reload, load}
use ghostunnel.Certloader.Store.{outcome, reload-outcome}

lift-Holds {ℓ} : {A : Type ℓ} (P : A → Type 0) (r : Result Text A) → Holds P r → Holds P (lift r)
lift-Holds P (ok a) p = p
lift-Holds P (err e) p = tt
lift-Holds P panic p = absurd p

-- The documented behaviour of `os.Open`, `tls.X509KeyPair`, `x509.ParseCertificate`, the PKCS#11
-- library and the keychain: they return, a pair has at least one certificate, and so has a chain.
pub record Total {Key : Type 0} (source : Source Key) : Type 0 where
  pub open_file : (path : Text) → Returns (source.open_file path)
  pub x509_key_pair :
      (cert_pem key_pem : Text)
      → Holds (λ c. c.certificate ≢ []) (source.x509_key_pair cert_pem key_pem)
  pub parse_certificate : (raw : Text) → Returns (source.parse_certificate raw)
  pub pkcs11_key :
      (module_path token_label pin public_key : Text)
      → Returns (source.pkcs11_key module_path token_label pin public_key)
  pub identities :
      Holds (All (λ i. Holds (λ chain. chain ≢ []) i.0 × Returns i.1)) source.identities

module _ {Key : Type 0} (source : Source Key) (total : Total source) where
  read_pem-Returns : (path password format : Text) → Returns (read_pem source path password format)
  unfolding read_pem
  read_pem-Returns path password format =
      >>=-Returns _ (lift (source.open_file path)) _
        (lift-Holds _ (source.open_file path) (total.open_file path))
        (λ _ _. checked (source.read_pem_blocks path password format))
    where
      checked : (r : PemRead) → Returns (check_blocks path r)
      checked r = elim (Bool-cases r.failed) [
        | inl f ↦ rw f tt
        | inr f ↦ elim (Bool-cases (is_empty r.blocks)) [
          | inl e ↦ rw (f, e) tt
          | inr e ↦ rw (f, e) tt
        ]
      ]

  read_x509-Holds : (path : Text) → Holds (λ certs. certs ≢ []) (read_x509 source path)
  unfolding read_x509 is_empty
  read_x509-Holds path = opened (source.open_file path) (total.open_file path)
    where
      parsed :
          (failed : Bool) (p : Parsed) → Holds (λ certs. certs ≢ []) (check_parsed path failed p)
      parsed failed p = elim (Bool-cases (failed || has_errors p.errs)) [
        | inl f ↦ rw f tt
        | inr f ↦ elim (Bool-cases (is_empty p.out)) [
          | inl e ↦ rw (f, e) tt
          | inr e ↦ rw (f, e) (filled p.out e)
        ]
      ]
        where
          filled : (xs : List X509) → is_empty xs ≡ false → xs ≢ []
          filled [] e = cc
          filled (x ∷ xs) e = λ h. cc

      opened :
          (r : Result Text (Unit {0}))
          → Returns r
          → Holds
              (λ certs. certs ≢ [])
              (lift r >>= λ _.
                check_parsed path
                  (source.read_x509_blocks path).failed
                  (callbacks (record { errs = 0; out = [] }) (source.read_x509_blocks path).calls))
      opened (ok _) h =
          parsed (source.read_x509_blocks path).failed
            (callbacks (record { errs = 0; out = [] }) (source.read_x509_blocks path).calls)
      opened (err e) h = tt
      opened panic h = absurd h

  read_paths-Returns :
      (password format : Text) (blocks paths : List Text)
      → Returns (read_paths source password format blocks paths)
  unfolding read_paths
  read_paths-Returns password format blocks [] = tt
  read_paths-Returns password format blocks (path ∷ paths) =
      >>=-Returns _ (read_pem source path password format) _ (read_pem-Returns path password format)
        (λ b _. read_paths-Returns password format (blocks ++ b) paths)

  load_keystore-Returns : (c : KeystoreCertificate Key) → Returns (load_keystore source c)
  unfolding load_keystore
  load_keystore-Returns c =
      >>=-Returns _ (read_paths source c.keystore_password c.format [] c.keystore_paths) _
        (read_paths-Returns c.keystore_password c.format [] c.keystore_paths)
        (λ blocks _.
          let pem = encode_blocks source [] blocks in
          >>=-Returns _ (lift (source.x509_key_pair pem pem)) _
            (lift-Holds _ (source.x509_key_pair pem pem) (total.x509_key_pair pem pem))
            (λ pair chain.
              >>=-Returns (λ _. Unit) (first_raw source pair.certificate) _
                (first pair.certificate chain)
                (λ raw _.
                  >>=-Returns _ (lift (source.parse_certificate raw)) _
                    (lift-Holds _ (source.parse_certificate raw) (total.parse_certificate raw))
                    (λ _ _. tt))))
    where
      first : (raws : List Text) → raws ≢ [] → Returns (first_raw source raws)
      first [] n = absurd (n refl)
      first (raw ∷ _) n = tt

  load_pkcs11-Returns : (c : Pkcs11Certificate Key) → Returns (load_pkcs11 source c)
  unfolding load_pkcs11 choose_key
  load_pkcs11-Returns c =
      >>=-Returns (λ certs. certs ≢ []) (read_x509 source c.certificate_path) _
        (read_x509-Holds c.certificate_path)
        (λ certs some_certs.
          >>=-Returns (λ _. Unit) (first_cert certs) _ (first certs some_certs)
            (λ leaf _.
              >>=-Returns (λ _. Unit) (choose_key source c c.cached leaf) _ (chosen c.cached leaf)
                (λ _ _. tt)))
    where
      first : (certs : List X509) → certs ≢ [] → Returns (first_cert certs)
      first [] n = absurd (n refl)
      first (cert ∷ _) n = tt

      chosen :
          (o : Option (TlsCertificate Key)) (leaf : X509) → Returns (choose_key source c o leaf)
      chosen (some old) leaf = tt
      chosen none leaf =
          >>=-Returns (λ _. Unit)
            (lift (source.pkcs11_key c.module_path c.token_label c.pin leaf.public_key)) _
            (lift-Holds _ (source.pkcs11_key c.module_path c.token_label c.pin leaf.public_key)
              (total.pkcs11_key c.module_path c.token_label c.pin leaf.public_key))
            (λ _ _. tt)

  try_identity-Returns :
      (name : Text) (chain : Result Text (List X509)) (signer : Result Text Key)
      → Holds (λ certs. certs ≢ []) chain
      → Returns signer
      → Returns (try_identity source name chain signer)
  unfolding try_identity
  try_identity-Returns name (ok []) (ok signer) h k = absurd (h refl)
  try_identity-Returns name (ok (cert ∷ chain)) (ok signer) h k =
      elim (Bool-cases (text_eq cert.common_name name)) [ inl e ↦ rw e tt | inr e ↦ rw e tt ]
  try_identity-Returns name panic signer h k = absurd h
  try_identity-Returns name (err e) signer h k = tt
  try_identity-Returns name (ok chain) panic h k = absurd k
  try_identity-Returns name (ok chain) (err e) h k = tt

  find_identity-Returns :
      (name : Text) (identities : List (Result Text (List X509) × Result Text Key))
      → All (λ i. Holds (λ certs. certs ≢ []) i.0 × Returns i.1) identities
      → Returns (find_identity source name identities)
  unfolding find_identity
  find_identity-Returns name [] a = tt
  find_identity-Returns name ((chain, signer) ∷ identities) ((h, k), a) =
      >>=-Returns (λ _. Unit) (try_identity source name chain signer) _
        (try_identity-Returns name chain signer h k)
        (λ found _. next found (find_identity-Returns name identities a))
    where
      next :
          (found : Option (TlsCertificate Key))
          → Returns (find_identity source name identities)
          → Returns (or_next source found (find_identity source name identities))
      next none r = r
      next (some cert) r = tt

  load_certstore-Returns : (c : CertstoreCertificate Key) → Returns (load_certstore source c)
  unfolding load_certstore
  load_certstore-Returns c =
      >>=-Returns _ (lift source.identities) _ (lift-Holds _ source.identities total.identities)
        (λ identities a. find_identity-Returns c.common_name identities a)

  -- With libraries that behave as they are documented, the load of a reload never panics, on any of
  -- the three kinds of certificate: there is a first certificate wherever one is read at index 0.
  pub load-Returns : (c : Certificate Key) → Returns (load source c)
  unfolding load
  load-Returns (keystore c) = load_keystore-Returns c
  load-Returns (pkcs11 c) = load_pkcs11-Returns c
  load-Returns (certstore c) = load_certstore-Returns c

-- A reload with such libraries does not panic either.
pub reload-no_panic :
    {Key : Type 0} (source : Source Key) (c : Certificate Key)
    → Total source
    → (reload source c).1 ≢ panic
reload-no_panic {Key = Key} source c total = λ h.
    let returned = load-Returns source total c in
    ended (load source c) returned (sym (reload-outcome source c) ∙ h)
  where
    ended : (r : Result LoadError (TlsCertificate Key)) → Returns r → outcome r ≢ panic
    ended (ok _) h = λ e. cc
    ended (err _) h = λ e. cc
    ended panic h = absurd h
