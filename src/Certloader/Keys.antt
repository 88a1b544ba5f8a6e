-- ===== src/Certloader/Keys.antt =====
-- certloader/pkcs11_enabled.go: the key and the chain through reloads.
use ghostunnel.Prelude.{
  ◌≡◌, refl, sym, ap, subst, ◌∙◌, Option, some, List, [], ◌∷◌, ◌++◌, map, append-nil, append_assoc,
  Text, Result, ok, err, panic, ◌>>=◌, >>=-eq-ok, ok-injective,
}
use ghostunnel.Certloader.Source.{X509, TlsCertificate, LoadError, Source, read_x509}
use ghostunnel.Certloader.Pkcs11.{
  Pkcs11Certificate, choose_key, first_cert, append_raws, load_pkcs11, store_pkcs11, reload_pkcs11,
}
use ghostunnel.Certloader.Reload.{Certificate, pkcs11, reload, get_certificate}
use ghostunnel.Certloader.Reloads.{reloads}

append_raws-map :
    (raws : List Text) (certs : List X509)
    → append_raws raws certs ≡ raws ++ map (λ cert. cert.raw) certs
unfolding append_raws
append_raws-map raws [] = sym (append-nil raws)
append_raws-map raws (cert ∷ certs) =
    append_raws-map (raws ++ cert.raw ∷ []) certs
    ∙ append_assoc raws (cert.raw ∷ []) (map (λ x. x.raw) certs)

module _ {Key : Type 0} (source : Source Key) (c : Pkcs11Certificate Key) where
  -- The certificate that a load of `c` read: the chain of the file in its order, its first one as
  -- the leaf, and a key.
  pub record Chained (cert : TlsCertificate Key) : Type 0 where
    pub leaf : X509
    pub rest : List X509
    pub read : read_x509 source c.certificate_path ≡ ok (leaf ∷ rest)
    pub key : choose_key source c c.cached leaf ≡ ok cert.private_key
    pub certificate : cert.certificate ≡ map (λ x. x.raw) (leaf ∷ rest)
    pub is_leaf : cert.leaf ≡ some leaf

  from_chain :
      (certs : List X509) (cert : TlsCertificate Key)
      → read_x509 source c.certificate_path ≡ ok certs
      → (first_cert certs >>= λ leaf. choose_key source c c.cached leaf >>= λ key.
          ok (record { certificate = append_raws [] certs; private_key = key; leaf = some leaf }))
        ≡ ok cert
      → Chained cert
  from_chain [] cert r h = cc
  from_chain (leaf ∷ rest) cert r h =
      let (key, k, e) = >>=-eq-ok (choose_key source c c.cached leaf) _ h in
      let same = ok-injective e in
      record {
        leaf = leaf;
        rest = rest;
        read = r;
        key = k ∙ ap (λ (x : TlsCertificate Key). ok x.private_key) same;
        certificate =
            sym (ap (λ (x : TlsCertificate Key). x.certificate) same)
            ∙ append_raws-map [] (leaf ∷ rest);
        is_leaf = sym (ap (λ (x : TlsCertificate Key). x.leaf) same);
      }

  -- A load for PKCS#11 that returns a certificate has read a file of at least one certificate; it
  -- has the chain of the file in its order, the first as its leaf, and the chosen key.
  pub load_pkcs11-Chained :
      (cert : TlsCertificate Key) → load_pkcs11 source c ≡ ok cert → Chained cert
  unfolding load_pkcs11
  load_pkcs11-Chained cert h =
      let (certs, r, e) = >>=-eq-ok (read_x509 source c.certificate_path) _ h in
      from_chain certs cert r e

module _ {Key : Type 0} where
  -- There is a certificate, and this is its key.
  abbrev pub HasKey : Certificate Key → Option Key → Type 0
  HasKey c key =
      (cert : TlsCertificate Key) × (get_certificate c ≡ some cert) × (cert.private_key ≡ key)

  store_pkcs11-HasKey :
      (source : Source Key) (c : Pkcs11Certificate Key) (key : Option Key)
      (r : Result LoadError (TlsCertificate Key))
      → load_pkcs11 source c ≡ r
      → HasKey (pkcs11 c) key
      → HasKey (pkcs11 (store_pkcs11 source c r).0) key
  unfolding get_certificate choose_key
  store_pkcs11-HasKey source c key (ok cert) l (old, e, k) =
      let same : choose_key source c (some old) (load_pkcs11-Chained source c cert l).leaf
          ≡ ok cert.private_key =
        subst
          (λ (o : Option (TlsCertificate Key)).
            choose_key source c o (load_pkcs11-Chained source c cert l).leaf ≡ ok cert.private_key)
          e (load_pkcs11-Chained source c cert l).key in
      (cert, refl, sym (ok-injective same) ∙ k)
  store_pkcs11-HasKey source c key (err x) l h = h
  store_pkcs11-HasKey source c key panic l h = h

  -- Once a certificate with a PKCS#11 key is loaded, the key stays the same through every reload;
  -- the module is never asked again.
  pub reloads-HasKey :
      (sources : List (Source Key)) (c : Pkcs11Certificate Key) (key : Option Key)
      → HasKey (pkcs11 c) key
      → HasKey (reloads sources (pkcs11 c)) key
  unfolding reloads reload reload_pkcs11
  reloads-HasKey [] c key h = h
  reloads-HasKey (source ∷ sources) c key h =
      reloads-HasKey sources (reload_pkcs11 source c).0 key
        (store_pkcs11-HasKey source c key (load_pkcs11 source c) refl h)
