-- ===== src/Flags/Modes.antt =====
-- What the flags of a run that passes validation say: one source of the certificate, one way of
-- access control, an address on this machine.
use ghostunnel.Prelude.{
  ◌≡◌, refl, ◌↔◌, ◌⊎◌, Bool, true, false, not, ◌&&◌, ◌||◌, Option, none, some, arith, Text, codes,
  text_eq_iff, split, Result, ok, err, panic, ◌>>◌, fail_if,
}
use ghostunnel.Address.Parse.{validate_unix_or_localhost}
use ghostunnel.Tls.Suites.{SuiteError, check_suites}
use ghostunnel.Tls.Config.{with_error}
use ghostunnel.Flags.Validate.{
  CommonFlags, ServerFlags, ClientFlags, FlagError, suite, has_keychain_identity, given,
  has_access_flags, suites_of, bad_proxy, server_validate_flags, client_validate_flags,
}

-- One of two, and not both.
abbrev pub OneOf₂ : Bool → Bool → Type 0
OneOf₂ a b = ((a ≡ true) × (b ≡ false)) ⊎ ((a ≡ false) × (b ≡ true))

-- One of three, and no other.
abbrev pub OneOf₃ : Bool → Bool → Bool → Type 0
OneOf₃ a b c =
    ((a ≡ true) × (b ≡ false) × (c ≡ false))
    ⊎ (((a ≡ false) × (b ≡ true) × (c ≡ false)) ⊎ ((a ≡ false) × (b ≡ false) × (c ≡ true)))

pub fail_if-seq :
    (b : Bool) (e : FlagError) (rest : Result FlagError (Unit {0}))
    → ((fail_if b e >> rest) ≡ ok tt) ↔ ((b ≡ false) × (rest ≡ ok tt))
fail_if-seq true e rest = (λ h. cc, λ (h, _). cc)
fail_if-seq false e rest = (λ h. (refl, h), λ (_, h). h)

suites_of_iff :
    (f : CommonFlags)
    → (suites_of f ≡ ok tt) ↔ (check_suites (split f.enabled_cipher_suites b',') ≡ ok tt)
suites_of_iff f = errors (check_suites (split f.enabled_cipher_suites b','))
  where
    errors :
        (r : Result SuiteError (Unit {0}))
        → (◌≡◌ {A = Result FlagError (Unit {0})} (with_error suite r) (ok tt)) ↔ (r ≡ ok tt)
    errors (ok _) = (λ h. refl, λ h. refl)
    errors (err e) = (λ h. cc, λ h. cc)
    errors panic = (λ h. cc, λ h. cc)

exclusive₂ : (a b : Bool) → ((((not a && not b) ≡ false) × ((a && b) ≡ false))) ↔ OneOf₂ a b
exclusive₂ a b = ground arith

exclusive₃ :
    (d a x : Bool)
    → (((not d && not a && not x) ≡ false)
        × ((not d && a && x) ≡ false)
        × ((d && (a || x)) ≡ false))
      ↔ OneOf₃ d a x
exclusive₃ d a x = ground arith

unless : (u l : Bool) → ((not u && not l) ≡ false) ↔ ((u ≡ true) ⊎ (l ≡ true))
unless u l = ground arith

-- The flags of a server pass validation exactly if one of keystore and keychain identity is given,
-- one of `--disable-authentication`, `--allow-all` and the access flags, the target is local or
-- declared unsafe, and every part of the cipher list names a group.
pub server_validate_flags_iff :
    (f : ServerFlags)
    → (server_validate_flags f ≡ ok tt) ↔ (
        OneOf₂ (given f.common.keystore_path) (has_keychain_identity f.common)
        × OneOf₃ f.disable_auth f.allow_all (has_access_flags f)
        × ((f.unsafe_target ≡ true) ⊎ (validate_unix_or_localhost f.forward_address ≡ true))
        × (check_suites (split f.common.enabled_cipher_suites b',') ≡ ok tt))
unfolding server_validate_flags
server_validate_flags_iff f = (
  λ h.
      let (k1, r1) = (fail_if-seq _ _ _).0 h in
      let (k2, r2) = (fail_if-seq _ _ _).0 r1 in
      let (a1, r3) = (fail_if-seq _ _ _).0 r2 in
      let (a2, r4) = (fail_if-seq _ _ _).0 r3 in
      let (a3, r5) = (fail_if-seq _ _ _).0 r4 in
      let (l, r6) = (fail_if-seq _ _ _).0 r5 in
      (
        (exclusive₂ _ _).0 (k1, k2),
        (exclusive₃ _ _ _).0 (a1, a2, a3),
        (unless f.unsafe_target (validate_unix_or_localhost f.forward_address)).0 l,
        (suites_of_iff f.common).0 r6,
      ),
  λ (k, a, l, s).
      let (k1, k2) = (exclusive₂ _ _).1 k in
      let (a1, a2, a3) = (exclusive₃ _ _ _).1 a in
      (fail_if-seq _ _ _).1 (
        k1,
        (fail_if-seq _ _ _).1 (
          k2,
          (fail_if-seq _ _ _).1 (
            a1,
            (fail_if-seq _ _ _).1 (
              a2,
              (fail_if-seq _ _ _).1 (
                a3,
                (fail_if-seq _ _ _).1 (
                  (unless f.unsafe_target (validate_unix_or_localhost f.forward_address)).1 l,
                  (suites_of_iff f.common).1 s,
                ),
              ),
            ),
          ),
        ),
      ),
)

client_exclusive :
    (k i d : Bool)
    → (((not k && not i && not d) ≡ false) × (((k && i) || (k && d) || (i && d)) ≡ false))
      ↔ OneOf₃ k i d
client_exclusive k i d = ground arith

-- No proxy, or one with an HTTP or HTTPS URL.
abbrev pub IsHttpProxy : Option Text → Type 0
IsHttpProxy none = Unit
IsHttpProxy (some scheme) = (scheme ≡ codes "http") ⊎ (scheme ≡ codes "https")

bad_proxy_iff : (o : Option Text) → (bad_proxy o ≡ false) ↔ IsHttpProxy o
bad_proxy_iff none = (λ _. tt, λ _. refl)
bad_proxy_iff (some scheme) =
    ground (arith, text_eq_iff scheme (codes "http"), text_eq_iff scheme (codes "https"))

-- The flags of a client pass validation exactly if one of keystore, keychain identity and
-- `--disable-authentication` is given, the listener is local or declared unsafe, a CONNECT proxy has
-- an HTTP or HTTPS URL, and every part of the cipher list names a group.
pub client_validate_flags_iff :
    (f : ClientFlags)
    → (client_validate_flags f ≡ ok tt) ↔ (
        OneOf₃ (given f.common.keystore_path) (has_keychain_identity f.common) f.disable_auth
        × ((f.unsafe_listen ≡ true) ⊎ (validate_unix_or_localhost f.listen_address ≡ true))
        × IsHttpProxy f.connect_proxy
        × (check_suites (split f.common.enabled_cipher_suites b',') ≡ ok tt))
unfolding client_validate_flags
client_validate_flags_iff f = (
  λ h.
      let (k1, r1) = (fail_if-seq _ _ _).0 h in
      let (k2, r2) = (fail_if-seq _ _ _).0 r1 in
      let (l, r3) = (fail_if-seq _ _ _).0 r2 in
      let (p, r4) = (fail_if-seq _ _ _).0 r3 in
      (
        (client_exclusive _ _ _).0 (k1, k2),
        (unless f.unsafe_listen (validate_unix_or_localhost f.listen_address)).0 l,
        (bad_proxy_iff f.connect_proxy).0 p,
        (suites_of_iff f.common).0 r4,
      ),
  λ (k, l, p, s).
      let (k1, k2) = (client_exclusive _ _ _).1 k in
      (fail_if-seq _ _ _).1 (
        k1,
        (fail_if-seq _ _ _).1 (
          k2,
          (fail_if-seq _ _ _).1 (
            (unless f.unsafe_listen (validate_unix_or_localhost f.listen_address)).1 l,
            (fail_if-seq _ _ _).1
                ((bad_proxy_iff f.connect_proxy).1 p, (suites_of_iff f.common).1 s),
          ),
        ),
      ),
)
