-- ===== src/Certloader/Pkcs11.antt =====
-- certloader/pkcs11_enabled.go: a certificate from a file, with its key in a PKCS#11 module.
use ghostunnel.Prelude.{
  Option, none, some, List, [], ◌∷◌, ◌++◌, Text, Result, ok, err, panic, ◌>>=◌,
}
use ghostunnel.Certloader.Source.{X509, TlsCertificate, LoadError, Source, lift, read_x509}
use ghostunnel.Certloader.Keystore.{if_loaded}

pub record Pkcs11Certificate (Key : Type 0) : Type 0 where
  pub certificate_path : Text
  pub module_path : Text
  pub token_label : Text
  pub pin : Text
  pub cached : Option (TlsCertificate Key)

-- The loop that appends `cert.Raw` of every certificate.
unfoldable pub append_raws : List Text → List X509 → List Text
append_raws raws [] = raws
append_raws raws (cert ∷ certs) = append_raws (raws ++ cert.raw ∷ []) certs

-- `certs[0]`
abbrev pub first_cert : List X509 → Result LoadError X509
first_cert [] = panic
first_cert (cert ∷ _) = ok cert

module _ {Key : Type 0} (source : Source Key) where
  -- The old key if one is cached, else the key of the module.
  unfoldable pub choose_key :
      Pkcs11Certificate Key → Option (TlsCertificate Key) → X509 → Result LoadError (Option Key)
  choose_key c (some old) leaf = ok old.private_key
  choose_key c none leaf = do
    private_key ← lift (source.pkcs11_key c.module_path c.token_label c.pin leaf.public_key)
    ok (some private_key)

  unfoldable pub load_pkcs11 : Pkcs11Certificate Key → Result LoadError (TlsCertificate Key)
  load_pkcs11 c = do
    certs ← read_x509 source c.certificate_path
    leaf ← first_cert certs
    private_key ← choose_key c c.cached leaf
    ok (record { certificate = append_raws [] certs; private_key = private_key; leaf = some leaf })

  abbrev pub store_pkcs11 :
      Pkcs11Certificate Key
      → Result LoadError (TlsCertificate Key)
      → Pkcs11Certificate Key × Result LoadError (Unit {0})
  store_pkcs11 c (ok cert) = (record c { cached = some cert }, ok tt)
  store_pkcs11 c (err e) = (c, err e)
  store_pkcs11 c panic = (c, panic)

  unfoldable pub reload_pkcs11 :
      Pkcs11Certificate Key → Pkcs11Certificate Key × Result LoadError (Unit {0})
  reload_pkcs11 c = store_pkcs11 c (load_pkcs11 c)

  unfoldable pub certificate_from_pkcs11_module :
      (certificate_path module_path token_label pin : Text)
      → Result LoadError (Pkcs11Certificate Key)
  certificate_from_pkcs11_module certificate_path module_path token_label pin = if_loaded source (
      reload_pkcs11 (record {
        certificate_path = certificate_path;
        module_path = module_path;
        token_label = token_label;
        pin = pin;
        cached = none;
      }))
