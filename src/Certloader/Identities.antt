-- ===== src/Certloader/Identities.antt =====
-- certloader/certstore_enabled.go: which identity of the keychain a reload takes.
use ghostunnel.Prelude.{
  ◌≡◌, refl, sym, ap, ◌∙◌, ◌≢◌, inl, inr, Bool-cases, none, some, List, [], ◌∷◌, ◌++◌, map,
  append-nil, append_assoc, All, Text, text_eq, text_eq_iff, ne_of_text_eq, Result, ok, err, panic,
}
use ghostunnel.Certloader.Source.{X509, TlsCertificate, LoadError, identity_not_found, Source}
use ghostunnel.Certloader.Keychain.{serialize_from, serialize_chain, try_identity, find_identity}

serialize_from-map :
    (out : List Text) (certs : List X509)
    → serialize_from out certs ≡ out ++ map (λ cert. cert.raw) certs
unfolding serialize_from
serialize_from-map out [] = sym (append-nil out)
serialize_from-map out (cert ∷ certs) =
    serialize_from-map (out ++ cert.raw ∷ []) certs
    ∙ append_assoc out (cert.raw ∷ []) (map (λ x. x.raw) certs)

module _ {Key : Type 0} (source : Source Key) (name : Text) where
  -- An identity as the keychain gives it: its chain and its signer.
  abbrev pub Identity : Type 0
  Identity = Result Text (List X509) × Result Text Key

  -- The loop goes on to the next identity.
  abbrev pub Skips : Identity → Type 0
  Skips (err _, _) = Unit
  Skips (panic, _) = ⊥
  Skips (ok _, err _) = Unit
  Skips (ok _, panic) = ⊥
  Skips (ok [], ok _) = ⊥
  Skips (ok (cert ∷ _), ok _) = cert.common_name ≢ name

  -- The loop stops in a panic: a library panics, or the chain is empty.
  abbrev pub Crashes : Identity → Type 0
  Crashes (err _, _) = ⊥
  Crashes (panic, _) = Unit
  Crashes (ok _, err _) = ⊥
  Crashes (ok _, panic) = Unit
  Crashes (ok [], ok _) = Unit
  Crashes (ok (_ ∷ _), ok _) = ⊥

  -- The first identity that is not skipped has the name, and the certificate is its chain and its
  -- signer, with no leaf.
  pub record Chosen (identities : List Identity) (cert : TlsCertificate Key) : Type 0 where
    pub before : List Identity
    pub leaf : X509
    pub rest : List X509
    pub signer : Key
    pub after : List Identity
    pub parts : identities ≡ before ++ (ok (leaf ∷ rest), ok signer) ∷ after
    pub skipped : All Skips before
    pub named : leaf.common_name ≡ name
    pub built : cert ≡ record {
      certificate = map (λ x. x.raw) (leaf ∷ rest);
      private_key = some signer;
      leaf = none;
    }

  -- What a search in the identities may come to.
  abbrev pub Found : List Identity → Result LoadError (TlsCertificate Key) → Type 0
  Found identities (ok cert) = Chosen identities cert
  Found identities (err e) = (e ≡ identity_not_found name) × All Skips identities
  Found identities panic =
      (before : List Identity) × (i : Identity) × (after : List Identity) × (identities
        ≡ before ++ i ∷ after)
      × All Skips before
      × Crashes i

  Found-skip :
      (i : Identity) (identities : List Identity) (r : Result LoadError (TlsCertificate Key))
      → Skips i
      → Found identities r
      → Found (i ∷ identities) r
  Found-skip i identities (ok cert) s c = record {
    before = i ∷ c.before;
    leaf = c.leaf;
    rest = c.rest;
    signer = c.signer;
    after = c.after;
    parts = ap (λ (x : List Identity). i ∷ x) c.parts;
    skipped = (s, c.skipped);
    named = c.named;
    built = c.built;
  }
  Found-skip i identities (err e) s (h, a) = (h, (s, a))
  Found-skip i identities panic s (b, x, a, e, k, c) =
      (i ∷ b, x, a, ap (λ (l : List Identity). i ∷ l) e, (s, k), c)

  -- A search in the keychain takes the first identity whose chain and signer can be read and whose
  -- first certificate has the common name, with its whole chain in order; it fails with the name if
  -- no identity is such; and it panics only where a library does, or at an empty chain, before it
  -- has come to one.
  pub find_identity-Found :
      (identities : List Identity) → Found identities (find_identity source name identities)
  unfolding find_identity try_identity serialize_chain
  find_identity-Found [] = (refl, tt)
  find_identity-Found ((err e, signer) ∷ identities) =
      Found-skip (err e, signer) identities _ tt (find_identity-Found identities)
  find_identity-Found ((panic, signer) ∷ identities) =
      ([], (panic, signer), identities, refl, tt, tt)
  find_identity-Found ((ok [], err e) ∷ identities) =
      Found-skip (ok [], err e) identities _ tt (find_identity-Found identities)
  find_identity-Found ((ok (cert ∷ chain), err e) ∷ identities) =
      Found-skip (ok (cert ∷ chain), err e) identities _ tt (find_identity-Found identities)
  find_identity-Found ((ok [], panic) ∷ identities) = ([], (ok [], panic), identities, refl, tt, tt)
  find_identity-Found ((ok (cert ∷ chain), panic) ∷ identities) =
      ([], (ok (cert ∷ chain), panic), identities, refl, tt, tt)
  find_identity-Found ((ok [], ok signer) ∷ identities) =
      ([], (ok [], ok signer), identities, refl, tt, tt)
  find_identity-Found ((ok (cert ∷ chain), ok signer) ∷ identities) =
      elim (Bool-cases (text_eq cert.common_name name)) [
        | inl e ↦ rw e (record {
          before = [];
          leaf = cert;
          rest = chain;
          signer = signer;
          after = identities;
          parts = refl;
          skipped = tt;
          named = (text_eq_iff cert.common_name name).0 e;
          built =
              ap
                (λ (raws : List Text). record {
                  certificate = raws;
                  private_key = some signer;
                  leaf = none;
                })
                (serialize_from-map [] (cert ∷ chain));
        })
        | inr e ↦ rw e (
            Found-skip (ok (cert ∷ chain), ok signer) identities
              (find_identity source name identities) (ne_of_text_eq cert.common_name name e)
              (find_identity-Found identities))
      ]
