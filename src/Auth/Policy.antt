-- ===== src/Auth/Policy.antt =====
-- What follows for both sides: where they agree, where they fail open or closed, what more entries
-- change, and when the index into the chains is out of range.
use ghostunnel.Prelude.{
  ◌≡◌, refl, subst, ◌≢◌, ◌↔◌, ◌⊎◌, inl, inr, true, false, Bool-cases, List, [], ◌∷◌, arith, Text,
  In, ok, panic,
}
use ghostunnel.Auth.Acl.{
  Acl, Certificate, check_cert, verify_peer_certificate_server, verify_peer_certificate_client,
}
use ghostunnel.Auth.Verify.{
  IsOpen, IsListed, HasLeaf, open_guard, open_guard_iff, verify_peer_certificate_server_iff,
  verify_peer_certificate_client_iff,
}

-- Every entry of the first list is in the second.
abbrev pub Within : {A : Type 0} → List A → List A → Type 0
Within {A} xs ys = (a : A) → In a xs → In a ys

-- The second list allows whatever the first names.
pub record Extends (a b : Acl) : Type 0 where
  pub all : a.allow_all ≡ true → b.allow_all ≡ true
  pub cns : Within a.allowed_cns b.allowed_cns
  pub ous : Within a.allowed_ous b.allowed_ous
  pub dnss : Within a.allowed_dnss b.allowed_dnss
  pub ips : Within a.allowed_ips b.allowed_ips
  pub uris : Within a.allowed_uris b.allowed_uris

module _ {Url : Type 0} (url_string : Url → Text) where
  IsListed-Extends :
      (a b : Acl) (cert : Certificate Url)
      → Extends a b
      → IsListed url_string a cert
      → IsListed url_string b cert
  IsListed-Extends a b cert e (inl m) = inl (e.cns _ m)
  IsListed-Extends a b cert e (inr (inl (i, m, n))) = inr (inl (i, e.ous _ m, n))
  IsListed-Extends a b cert e (inr (inr (inl (i, m, n)))) = inr (inr (inl (i, e.dnss _ m, n)))
  IsListed-Extends a b cert e (inr (inr (inr (inl (l, r, m, n, k))))) =
      inr (inr (inr (inl (l, r, e.ips _ m, n, k))))
  IsListed-Extends a b cert e (inr (inr (inr (inr (l, r, m, n, k))))) =
      inr (inr (inr (inr (l, r, e.uris _ m, n, k))))

  HasLeaf-map :
      (chains : List (List (Certificate Url))) (P Q : Certificate Url → Type 0)
      → ((cert : Certificate Url) → P cert → Q cert)
      → HasLeaf url_string chains P
      → HasLeaf url_string chains Q
  HasLeaf-map [] P Q f h = h
  HasLeaf-map ([] ∷ _) P Q f h = h
  HasLeaf-map ((cert ∷ _) ∷ _) P Q f h = f cert h

  -- A server's list with more entries lets in every client that it let in before.
  pub verify_peer_certificate_server-Extends :
      (a b : Acl) (chains : List (List (Certificate Url)))
      → Extends a b
      → verify_peer_certificate_server url_string a chains ≡ ok tt
      → verify_peer_certificate_server url_string b chains ≡ ok tt
  verify_peer_certificate_server-Extends a b chains e h =
      let (n, k) = (verify_peer_certificate_server_iff url_string a chains).0 h in
      (verify_peer_certificate_server_iff url_string b chains).1 (
        n,
        elim k [
          | inl all ↦ inl (e.all all)
          | inr l ↦ inr (HasLeaf-map chains _ _ (λ cert. IsListed-Extends a b cert e) l)
        ],
      )

  -- With some entry in the list, and without `--allow-all`, the two checks are one function, errors
  -- and panics included.
  pub verify_peer_certificate-agree :
      (a : Acl) (chains : List (List (Certificate Url)))
      → a.allow_all ≡ false
      → ¬ IsOpen a
      → verify_peer_certificate_client url_string a chains
        ≡ verify_peer_certificate_server url_string a chains
  unfolding verify_peer_certificate_client verify_peer_certificate_server
  verify_peer_certificate-agree a [] h n = refl
  verify_peer_certificate-agree a (chain ∷ chains) h n = elim (Bool-cases (open_guard a)) [
    | inl o ↦ absurd (n ((open_guard_iff a).0 o))
    | inr o ↦ rw (h, o)
  ]

  -- With no entry in the list the two sides part: whatever was presented, the server lets nobody
  -- in, and the client accepts every server whose certificate was verified.
  pub verify_peer_certificate-IsOpen :
      (a : Acl) (chains : List (List (Certificate Url)))
      → IsOpen a
      → a.allow_all ≡ false
      → (verify_peer_certificate_server url_string a chains ≢ ok tt)
        × ((verify_peer_certificate_client url_string a chains ≡ ok tt) ↔ (chains ≢ []))
  verify_peer_certificate-IsOpen a chains o h = (
    λ k. nobody chains ((verify_peer_certificate_server_iff url_string a chains).0 k).1,
    (
      λ k. ((verify_peer_certificate_client_iff url_string a chains).0 k).0,
      λ n. (verify_peer_certificate_client_iff url_string a chains).1 (n, inl o),
    ),
  )
    where
      unlisted : (cert : Certificate Url) → ¬ IsListed url_string a cert
      unlisted cert (inl m) = subst (In cert.common_name) o.no_cns m
      unlisted cert (inr (inl (i, m, _))) = subst (In i) o.no_ous m
      unlisted cert (inr (inr (inl (i, m, _)))) = subst (In i) o.no_dnss m
      unlisted cert (inr (inr (inr (inl (l, _, m, _, _))))) = subst (In l) o.no_ips m
      unlisted cert (inr (inr (inr (inr (l, _, m, _, _))))) = subst (In l) o.no_uris m

      nobody :
          (chains : List (List (Certificate Url)))
          → ¬ ((a.allow_all ≡ true) ⊎ HasLeaf url_string chains (IsListed url_string a))
      nobody chains (inl k) = cc
      nobody [] (inr l) = l
      nobody ([] ∷ _) (inr l) = l
      nobody ((cert ∷ _) ∷ _) (inr l) = unlisted cert l

  check_cert-ne-panic : (a : Acl) (cert : Certificate Url) → check_cert url_string a cert ≢ panic
  unfolding check_cert
  check_cert-ne-panic a cert = ground arith

  -- The server's check panics exactly if the first verified chain is empty and not every verified
  -- client is allowed.
  pub verify_peer_certificate_server-panic_iff :
      (a : Acl) (chains : List (List (Certificate Url)))
      → (verify_peer_certificate_server url_string a chains ≡ panic)
        ↔ ((a.allow_all ≡ false) × ((rest : List (List (Certificate Url))) × (chains ≡ [] ∷ rest)))
  unfolding verify_peer_certificate_server
  verify_peer_certificate_server-panic_iff a [] = (λ h. cc, λ (_, (r, e)). cc)
  verify_peer_certificate_server-panic_iff a ([] ∷ chains) =
      (λ h. (ground arith, (chains, refl)), λ (k, _). rw k)
  verify_peer_certificate_server-panic_iff a ((cert ∷ more) ∷ chains) =
      (λ h. absurd (ground (arith, check_cert-ne-panic a cert)), λ (k, (r, e)). cc)
