-- ===== src/Address/Local.antt =====
-- Addresses that pass `validateUnixOrLocalhost` stay on the machine.
use ghostunnel.Prelude.{
  ℕ, ◌≡◌, refl, sym, ap, subst, ◌∙◌, ◌⊎◌, inl, inr, Bool, true, false, Bool-cases, none, some, [],
  ◌∷◌, ◌++◌, arith, ◌==◌, ==_refl, if◌then◌else◌, Text, codes, has_prefix, has_prefix_sound,
  has_rune, ok, err, >>=-eq-ok, ok-injective,
}
use ghostunnel.Address.HostPort.{
  unresolved, cut_first, cut_last, after_bracket, plain_host, split_host_port,
}
use ghostunnel.Address.Parse.{
  unix, tcp, Address, unix_prefix, drop_prefix, parse_unix_or_tcp_address,
  validate_unix_or_localhost,
}

-- A cut at the last `c` of a text with a `c` in it: what stands before is all that stands before
-- the first `c`, or still has a `c` in it.
cut_last-append :
    (c : ℕ) (p r : Text)
    → (a b : Text) × (cut_last c (p ++ c ∷ r) ≡ some (a, b)) × ((a ≡ p) ⊎ (has_rune c a ≡ true))
unfolding cut_last
cut_last-append c [] r = elim (last_of r) [
  | inl e ↦ ([], r, rw (e, ==_refl c), inl refl)
  | inr (a, b, e) ↦ (c ∷ a, b, rw e, inr (rw (==_refl c)))
]
  where
    last_of : (r : Text) → (cut_last c r ≡ none) ⊎ ((a b : Text) × (cut_last c r ≡ some (a, b)))
    last_of r = elim (cut_last c r) as (λ o. (o ≡ none) ⊎ ((a b : Text) × (o ≡ some (a, b)))) [
      | none ↦ inl refl
      | some (a, b) ↦ inr (a, b, refl)
    ]
cut_last-append c (d ∷ p) r =
    let (a, b, e, h) = cut_last-append c p r in
    (
      d ∷ a,
      b,
      rw e,
      elim h [ inl q ↦ inl (ap (λ (x : Text). d ∷ x) q) | inr q ↦ inr (ground arith) ],
    )

plain_host-eq-ok :
    (a b host port : Text)
    → plain_host (a, b) ≡ ok (host, port)
    → (host ≡ a) × (has_rune b':' a ≡ false)
unfolding plain_host
plain_host-eq-ok a b host port h = (ground arith, ground arith)

-- The host of `p:r`, where `p` holds no colon and does not begin with a bracket.
split_host_port-plain :
    (d : ℕ) (p r host port : Text)
    → (d == b'[') ≡ false
    → split_host_port (d ∷ p ++ b':' ∷ r) ≡ ok (host, port)
    → host ≡ d ∷ p
unfolding split_host_port
split_host_port-plain d p r host port n h =
    let (a, b, e, s) = cut_last-append b':' (d ∷ p) r in
    let (same, no_colon) = plain_host-eq-ok a b host port (rw (e, n) at h) in
    elim s [ inl q ↦ same ∙ q | inr q ↦ cc (q, no_colon) ]

after_bracket-eq-ok : (host rest h port : Text) → after_bracket host rest ≡ ok (h, port) → h ≡ host
unfolding after_bracket
after_bracket-eq-ok host [] h port e = cc
after_bracket-eq-ok host (c ∷ rest) h port e = ground arith

split_host_port-loopback_6 :
    (r host port : Text)
    → split_host_port (codes "[::1]:" ++ r) ≡ ok (host, port)
    → host ≡ codes "::1"
unfolding split_host_port cut_first
split_host_port-loopback_6 r host port h =
    let (a, b, e, _) = cut_last-append b':' (codes "[") (codes ":1]:" ++ r) in
    after_bracket-eq-ok (codes "::1") (b':' ∷ r) host port (rw e at h)

-- An address of a UNIX socket, or one of this machine's loopback hosts.
pub data IsLocal (input : Text) (a : Address) : Type 0 where
  socket : a.network ≡ unix → input ≡ unix_prefix ++ a.address → IsLocal input a
  loopback :
      a.network ≡ tcp
      → a.address ≡ input
      → (a.host ≡ codes "127.0.0.1") ⊎ ((a.host ≡ codes "::1") ⊎ (a.host ≡ codes "localhost"))
      → IsLocal input a

validated_cases :
    (addr : Text)
    → validate_unix_or_localhost addr ≡ true
    → (has_prefix addr unix_prefix ≡ true)
      ⊎ ((has_prefix addr (codes "127.0.0.1:") ≡ true)
          ⊎ ((has_prefix addr (codes "[::1]:") ≡ true)
              ⊎ (has_prefix addr (codes "localhost:") ≡ true)))
unfolding validate_unix_or_localhost
validated_cases addr h = ground arith

-- The two ways in which an address parses.
parse-cases :
    (resolves : Text → Bool) (input : Text) (a : Address)
    → parse_unix_or_tcp_address resolves input ≡ ok a
    → ((has_prefix input unix_prefix ≡ true)
        × (a.network ≡ unix)
        × (input ≡ unix_prefix ++ a.address))
      ⊎ ((has_prefix input unix_prefix ≡ false)
          × (a.network ≡ tcp)
          × (a.address ≡ input)
          × ((port : Text) × (split_host_port input ≡ ok (a.host, port))))
unfolding parse_unix_or_tcp_address
parse-cases resolves input a h = elim (Bool-cases (has_prefix input unix_prefix)) [
  | inl u ↦
      let (r, e) = has_prefix_sound input unix_prefix u in
      let same = ok-injective (rw u at h) in
      inl (
        u,
        ground arith,
        e
            ∙ ap (λ (x : Text). unix_prefix ++ x)
                (sym (ap (drop_prefix unix_prefix) e) ∙ ap (λ (x : Address). x.address) same),
      )
  | inr u ↦
      let ((host, port), s, k) = >>=-eq-ok _ _ (rw u at h) in
      let (n, q, split) = resolved (resolves input) host port k s in inr (u, n, q, split)
]
  where
    resolved :
        (b : Bool) (host port : Text)
        → (if b
            then ok (record { network = tcp; address = input; host = host })
            else err unresolved)
          ≡ ok a
        → split_host_port input ≡ ok (host, port)
        → (a.network ≡ tcp)
          × (a.address ≡ input)
          × ((port : Text) × (split_host_port input ≡ ok (a.host, port)))
    resolved true host port k s =
        let same = ok-injective k in
        (
          ground arith,
          ground arith,
          (port, subst (λ (x : Address). split_host_port input ≡ ok (x.host, port)) same s),
        )
    resolved false host port k s = cc

-- The host, in the three cases of a TCP address.
loopback_host :
    (input host port : Text)
    → validate_unix_or_localhost input ≡ true
    → split_host_port input ≡ ok (host, port)
    → has_prefix input unix_prefix ≡ false
    → (host ≡ codes "127.0.0.1") ⊎ ((host ≡ codes "::1") ⊎ (host ≡ codes "localhost"))
loopback_host input host port v h u = elim (validated_cases input v) [
  | inl k ↦ cc (k, u)
  | inr (inl k) ↦
      let (r, e) = has_prefix_sound input (codes "127.0.0.1:") k in
      inl (split_host_port-plain b'1' (codes "27.0.0.1") r host port refl (rw e at h))
  | inr (inr (inl k)) ↦
      let (r, e) = has_prefix_sound input (codes "[::1]:") k in
      inr (inl (split_host_port-loopback_6 r host port (rw e at h)))
  | inr (inr (inr k)) ↦
      let (r, e) = has_prefix_sound input (codes "localhost:") k in
      inr (inr (split_host_port-plain b'l' (codes "ocalhost") r host port refl (rw e at h)))
]

-- An address that the flags allow without `--unsafe-target` or `--unsafe-listen`, and that parses,
-- is a UNIX socket or has `127.0.0.1`, `::1` or `localhost` for its host: nothing that follows the
-- prefix can name another host.
pub validate-parse-IsLocal :
    (resolves : Text → Bool) (input : Text) (a : Address)
    → validate_unix_or_localhost input ≡ true
    → parse_unix_or_tcp_address resolves input ≡ ok a
    → IsLocal input a
validate-parse-IsLocal resolves input a v h = elim (parse-cases resolves input a h) [
  | inl (_, n, e) ↦ socket n e
  | inr (u, n, e, (port, s)) ↦ loopback n e (loopback_host input a.host port v s u)
]
