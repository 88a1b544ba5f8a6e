-- ===== src/Certloader/Tests.antt =====
-- certloader/: concrete files and modules that the theorems apply to.
use ghostunnel.Prelude.{
  text_eq, Text, List, Result, ◌≡◌, ◌↔◌, refl, true, ℕ, false, none, some, [], ◌∷◌, codes, ok, err,
}
use ghostunnel.Auth.Acl.{is_empty}
use ghostunnel.Certloader.Source.{X509, TlsCertificate, Source, read_x509, read_pem}
use ghostunnel.Certloader.Keychain.{find_identity, try_identity, serialize_chain}
use ghostunnel.Certloader.Dialer.{
  Race, dial_with_dialer, InTime, Bounded, dial_with_dialer_iff, dial_with_dialer-Bounded,
}
use ghostunnel.Certloader.Keystore.{
  KeystoreCertificate, certificate_from_keystore, reload_keystore, load_keystore, read_paths,
  encode_blocks,
}
use ghostunnel.Certloader.Pkcs11.{
  Pkcs11Certificate, certificate_from_pkcs11_module, reload_pkcs11, load_pkcs11, choose_key,
  append_raws,
}
use ghostunnel.Certloader.Reload.{keystore, reload, Atomic, reload-Atomic}

abbrev leaf_cert : X509
leaf_cert = record { raw = 1 ∷ []; common_name = codes "leaf"; public_key = 11 ∷ [] }

abbrev root_cert : X509
root_cert = record { raw = 2 ∷ []; common_name = codes "root"; public_key = 22 ∷ [] }

abbrev pair : TlsCertificate ℕ
pair = record { certificate = (1 ∷ []) ∷ []; private_key = some 7; leaf = none }

-- Files that can be read, and a module that has the key 7.
abbrev healthy : Source ℕ
healthy = record {
  open_file = λ _. ok tt;
  read_pem_blocks = λ _ _ _. record { blocks = (1 ∷ []) ∷ []; failed = false };
  read_x509_blocks = λ _. record { calls = some leaf_cert ∷ some root_cert ∷ []; failed = false };
  encode_to_memory = λ b. b;
  x509_key_pair = λ _ _. ok pair;
  parse_certificate = λ _. ok leaf_cert;
  pkcs11_key = λ _ _ _ _. ok 7;
  identities = ok [];
}

-- The files are gone.
abbrev missing : Source ℕ
missing = record healthy { open_file = λ _. err (codes "no such file") }

abbrev in_keystore : KeystoreCertificate ℕ
in_keystore = record {
  keystore_paths = codes "k.p12" ∷ [];
  keystore_password = [];
  format = [];
  cached = some (record pair { leaf = some leaf_cert });
}

abbrev fresh_module : Pkcs11Certificate ℕ
fresh_module = record {
  certificate_path = codes "c.pem";
  module_path = codes "m.so";
  token_label = codes "t";
  pin = codes "1";
  cached = none;
}

abbrev chained : TlsCertificate ℕ
chained = record {
  certificate = (1 ∷ []) ∷ (2 ∷ []) ∷ [];
  private_key = some 7;
  leaf = some leaf_cert;
}

created_keystore : certificate_from_keystore healthy (codes "k.p12") [] ≡ ok in_keystore
unfolding certificate_from_keystore reload_keystore load_keystore read_paths read_pem encode_blocks
    is_empty
created_keystore = refl

loaded_module : load_pkcs11 healthy fresh_module ≡ ok chained
unfolding load_pkcs11 choose_key append_raws read_x509 is_empty
loaded_module = refl

created_module :
    certificate_from_pkcs11_module healthy (codes "c.pem") (codes "m.so") (codes "t") (codes "1")
    ≡ ok (record fresh_module { cached = some chained })
unfolding certificate_from_pkcs11_module reload_pkcs11 load_pkcs11 choose_key append_raws read_x509
    is_empty
created_module = refl

reload-Atomic_example :
    Atomic missing (keystore in_keystore) (reload missing (keystore in_keystore))
reload-Atomic_example = reload-Atomic missing (keystore in_keystore)

-- A dial that returns in time, with a handshake that never ends.
abbrev stalled : Race
stalled = record { dial_at = 3; dialed = none; handshake = none; timer_wins = true }

dial_with_dialer_iff_example :
    ((dial_with_dialer 10 stalled).result ≡ none) ↔ ((stalled.dialed ≡ none) × InTime 10 stalled)
dial_with_dialer_iff_example = dial_with_dialer_iff 10 stalled

dial_with_dialer-Bounded_example : Bounded 10 stalled (dial_with_dialer 10 stalled)
dial_with_dialer-Bounded_example = dial_with_dialer-Bounded 10 stalled refl

-- A chain that cannot be read, another name, and the identity that is asked for.
abbrev identities : List (Result Text (List X509) × Result Text ℕ)
identities =
    (err (codes "denied"), ok 5)
    ∷ (ok (root_cert ∷ []), ok 6)
    ∷ (ok (leaf_cert ∷ root_cert ∷ []), ok 7)
    ∷ []

finds :
    find_identity healthy (codes "leaf") identities
    ≡ ok (record { certificate = (1 ∷ []) ∷ (2 ∷ []) ∷ []; private_key = some 7; leaf = none })
unfolding find_identity try_identity serialize_chain text_eq
finds = refl
