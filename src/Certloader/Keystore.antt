-- ===== src/Certloader/Keystore.antt =====
-- certloader/keystore.go: a certificate and its key from PEM files or a PKCS#12 keystore.
use ghostunnel.Prelude.{
  Option, none, some, List, [], ◌∷◌, ◌++◌, Text, codes, Result, ok, err, panic, ◌>>=◌,
}
use ghostunnel.Certloader.Source.{TlsCertificate, LoadError, Source, lift, read_pem}

-- `keystoreCertificate`; `cached` is the nil pointer at first.
pub record KeystoreCertificate (Key : Type 0) : Type 0 where
  pub keystore_paths : List Text
  pub keystore_password : Text
  pub format : Text
  pub cached : Option (TlsCertificate Key)

module _ {Key : Type 0} (source : Source Key) where
  -- The first loop of `Reload`; `pem_blocks` is the slice that grows.
  unfoldable pub read_paths :
      (password format : Text) → List Text → List Text → Result LoadError (List Text)
  read_paths password format pem_blocks [] = ok pem_blocks
  read_paths password format pem_blocks (path ∷ paths) = do
    blocks ← read_pem source path password format
    read_paths password format (pem_blocks ++ blocks) paths

  -- The second loop.
  unfoldable pub encode_blocks : Text → List Text → Text
  encode_blocks pem_bytes [] = pem_bytes
  encode_blocks pem_bytes (block ∷ blocks) =
      encode_blocks (pem_bytes ++ source.encode_to_memory block) blocks

  -- `certAndKey.Certificate[0]`
  abbrev pub first_raw : List Text → Result LoadError Text
  first_raw [] = panic
  first_raw (raw ∷ _) = ok raw

  -- What `Reload` stores.
  unfoldable pub load_keystore : KeystoreCertificate Key → Result LoadError (TlsCertificate Key)
  load_keystore c = do
    pem_blocks ← read_paths c.keystore_password c.format [] c.keystore_paths
    let pem_bytes = encode_blocks [] pem_blocks
    cert_and_key ← lift (source.x509_key_pair pem_bytes pem_bytes)
    raw ← first_raw cert_and_key.certificate
    leaf ← lift (source.parse_certificate raw)
    ok (record cert_and_key { leaf = some leaf })

  -- The store, if the load returned no error.
  abbrev pub store_keystore :
      KeystoreCertificate Key
      → Result LoadError (TlsCertificate Key)
      → KeystoreCertificate Key × Result LoadError (Unit {0})
  store_keystore c (ok cert) = (record c { cached = some cert }, ok tt)
  store_keystore c (err e) = (c, err e)
  store_keystore c panic = (c, panic)

  unfoldable pub reload_keystore :
      KeystoreCertificate Key → KeystoreCertificate Key × Result LoadError (Unit {0})
  reload_keystore c = store_keystore c (load_keystore c)

  abbrev pub if_loaded {ℓ} : {C : Type ℓ} → C × Result LoadError (Unit {0}) → Result LoadError C
  if_loaded (c, ok _) = ok c
  if_loaded (c, err e) = err e
  if_loaded (c, panic) = panic

  unfoldable pub certificate_from_pem_files :
      (certificate_path key_path : Text) → Result LoadError (KeystoreCertificate Key)
  certificate_from_pem_files certificate_path key_path = if_loaded (
      reload_keystore (record {
        keystore_paths = certificate_path ∷ key_path ∷ [];
        keystore_password = [];
        format = codes "PEM";
        cached = none;
      }))

  unfoldable pub certificate_from_keystore :
      (keystore_path keystore_password : Text) → Result LoadError (KeystoreCertificate Key)
  certificate_from_keystore keystore_path keystore_password = if_loaded (
      reload_keystore (record {
        keystore_paths = keystore_path ∷ [];
        keystore_password = keystore_password;
        format = [];
        cached = none;
      }))
