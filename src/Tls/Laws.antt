-- ===== src/Tls/Laws.antt =====
-- The two loops over the suite list agree, and what a built configuration holds.
use ghostunnel.Prelude.{
  ℕ, ◌≡◌, refl, sym, ap, ◌∙◌, ◌↔◌, inl, inr, true, none, some, Option-cases, List, [], ◌∷◌, ◌++◌,
  append_assoc, append-nil, Text, split, trim_space, Result, ok, err, panic, ◌>>=◌, All, flat_map,
}
use ghostunnel.Tls.Suites.{SuiteError, cipher_suites, check_suites, collect_suites}
use ghostunnel.Tls.Config.{
  Config, CaSource, no_client_cert, version_tls10, x25519, curve_p256, curve_p384, curve_p521,
  ca_bundle, build_config,
}

-- The ciphers of one part of the list.
abbrev pub group_of : Text → List ℕ
group_of suite = elim (cipher_suites (trim_space suite)) [ none ↦ [] | some l ↦ l ]

-- The result of a loop that collects, from that of the loop that only checks.
abbrev collected : List ℕ → List Text → Result SuiteError (Unit {0}) → Result SuiteError (List ℕ)
collected acc suites (ok _) = ok (acc ++ flat_map group_of suites)
collected acc suites (err e) = err e
collected acc suites panic = panic

collected-cons :
    (acc l : List ℕ) (suite : Text) (suites : List Text) (r : Result SuiteError (Unit {0}))
    → group_of suite ≡ l
    → collected (acc ++ l) suites r ≡ collected acc (suite ∷ suites) r
collected-cons acc l suite suites (ok _) e = rw (e, append_assoc)
collected-cons acc l suite suites (err x) e = refl
collected-cons acc l suite suites panic e = refl

collect_suites-check :
    (acc : List ℕ) (suites : List Text)
    → collect_suites acc suites ≡ collected acc suites (check_suites suites)
unfolding collect_suites check_suites
collect_suites-check acc [] = ap ok (sym (append-nil acc))
collect_suites-check acc (suite ∷ suites) = elim (Option-cases (cipher_suites (trim_space suite))) [
  | inl e ↦ rw e
  | inr (l, e) ↦ rw e (
      collect_suites-check (acc ++ l) suites
      ∙ collected-cons acc l suite suites (check_suites suites) (rw (e, group_of)))
]

check_suites-ne-panic : (suites : List Text) → ¬ (check_suites suites ≡ panic)
unfolding check_suites
check_suites-ne-panic [] h = cc
check_suites-ne-panic (suite ∷ suites) h = elim (Option-cases (cipher_suites (trim_space suite))) [
  | inl e ↦ absurd (cc (rw e at h))
  | inr (l, e) ↦ check_suites-ne-panic suites (rw e at h)
]

-- The list of suites passes validation exactly if every part of it names a group of suites.
pub check_suites_iff :
    (suites : List Text)
    → (check_suites suites ≡ ok tt)
      ↔ All (λ suite. (l : List ℕ) × (cipher_suites (trim_space suite) ≡ some l)) suites
unfolding check_suites
check_suites_iff [] = (λ _. tt, λ _. refl)
check_suites_iff (suite ∷ suites) =
    let (to, from) = check_suites_iff suites in
    elim (Option-cases (cipher_suites (trim_space suite))) [
      | inl e ↦ rw e (λ h. cc, λ ((l, k), _). cc)
      | inr (l, e) ↦ rw e (λ h. ((l, refl), to h), λ (_, a). from a)
    ]

-- The configuration for a pool of certificates and a list of suites.
abbrev pub configured : {Pool : Type 0} → Pool → List ℕ → Config Pool
configured pool suites = record {
  root_cas = pool;
  client_cas = pool;
  prefer_server_cipher_suites = true;
  client_auth = no_client_cert;
  min_version = version_tls10;
  cipher_suites = suites;
  curve_preferences = x25519 ∷ curve_p256 ∷ curve_p384 ∷ curve_p521 ∷ [];
}

-- With a list of suites that passed validation, a configuration is built whenever the CA bundle
-- loads, and fails only as that does. Its suites are the groups in the order of the list, one pool
-- serves for both sides, and it asks clients for no certificate.
pub build_config-check_suites :
    {Pool : Type 0} (source : CaSource Pool) (suites path : Text)
    → check_suites (split suites b',') ≡ ok tt
    → build_config source suites path ≡ (
        ca_bundle source path >>= λ pool.
        ok (configured pool (flat_map group_of (split suites b','))))
unfolding build_config
build_config-check_suites source suites path h =
    let collects : collect_suites [] (split suites b',')
        ≡ ok (flat_map group_of (split suites b',')) =
      collect_suites-check [] (split suites b',') ∙ ap (collected [] (split suites b',')) h in
    rw collects
