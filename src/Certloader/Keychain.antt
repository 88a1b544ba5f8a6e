-- ===== src/Certloader/Keychain.antt =====
-- certloader/certstore_enabled.go: a certificate from an identity of the system's keychain.
use ghostunnel.Prelude.{
  Option, none, some, List, [], ◌∷◌, ◌++◌, if◌then◌else◌, Text, text_eq, Result, ok, err, panic,
  ◌>>=◌,
}
use ghostunnel.Certloader.Source.{X509, TlsCertificate, LoadError, identity_not_found, Source, lift}
use ghostunnel.Certloader.Keystore.{if_loaded}

pub record CertstoreCertificate (Key : Type 0) : Type 0 where
  pub common_name : Text
  pub cached : Option (TlsCertificate Key)

unfoldable pub serialize_from : List Text → List X509 → List Text
serialize_from out [] = out
serialize_from out (cert ∷ chain) = serialize_from (out ++ cert.raw ∷ []) chain

unfoldable pub serialize_chain : List X509 → List Text
unfolding serialize_from
serialize_chain chain = serialize_from [] chain

module _ {Key : Type 0} (source : Source Key) where
  -- One round of the loop: `none` goes on to the next identity. A chain is read at index 0.
  unfoldable pub try_identity :
      Text
      → Result Text (List X509)
      → Result Text Key
      → Result LoadError (Option (TlsCertificate Key))
  try_identity name (ok []) (ok signer) = panic
  try_identity name (ok (cert ∷ chain)) (ok signer) =
      if text_eq cert.common_name name
      then ok (
          some (record {
            certificate = serialize_chain (cert ∷ chain);
            private_key = some signer;
            leaf = none;
          }))
      else ok none
  try_identity name panic signer = panic
  try_identity name (err e) signer = ok none
  try_identity name (ok chain) panic = panic
  try_identity name (ok chain) (err e) = ok none

  abbrev pub or_next :
      Option (TlsCertificate Key)
      → Result LoadError (TlsCertificate Key)
      → Result LoadError (TlsCertificate Key)
  or_next none next = next
  or_next (some cert) next = ok cert

  unfoldable pub find_identity :
      Text
      → List (Result Text (List X509) × Result Text Key)
      → Result LoadError (TlsCertificate Key)
  find_identity name [] = err (identity_not_found name)
  find_identity name ((chain, signer) ∷ identities) = do
    found ← try_identity name chain signer
    or_next found (find_identity name identities)

  unfoldable pub load_certstore : CertstoreCertificate Key → Result LoadError (TlsCertificate Key)
  load_certstore c = do identities ← lift source.identities; find_identity c.common_name identities

  abbrev pub store_certstore :
      CertstoreCertificate Key
      → Result LoadError (TlsCertificate Key)
      → CertstoreCertificate Key × Result LoadError (Unit {0})
  store_certstore c (ok cert) = (record c { cached = some cert }, ok tt)
  store_certstore c (err e) = (c, err e)
  store_certstore c panic = (c, panic)

  unfoldable pub reload_certstore :
      CertstoreCertificate Key → CertstoreCertificate Key × Result LoadError (Unit {0})
  reload_certstore c = store_certstore c (load_certstore c)

  unfoldable pub certificate_from_keychain_identity :
      Text → Result LoadError (CertstoreCertificate Key)
  certificate_from_keychain_identity common_name =
      if_loaded source (reload_certstore (record { common_name = common_name; cached = none }))
