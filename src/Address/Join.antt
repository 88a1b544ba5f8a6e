-- ===== src/Address/Join.antt =====
-- main.go: addresses that are written as `net.JoinHostPort` writes them are read back.
use ghostunnel.Prelude.{
  ℕ, ◌≡◌, ◌≢◌, refl, sym, ap, ap₂, ◌∙◌, inl, inr, Bool, true, false, Bool-cases, ◌==◌, ==_refl,
  none, some, [], ◌∷◌, ◌++◌, append_assoc, if◌then◌else◌, Text, codes, has_prefix, has_rune, ok,
  arith,
}
use ghostunnel.Address.HostPort.{cut_first, cut_last, after_bracket, plain_host, split_host_port}
use ghostunnel.Address.Parse.{tcp, unix_prefix, parse_unix_or_tcp_address}

-- `net.JoinHostPort`
unfoldable pub join_host_port : (host port : Text) → Text
join_host_port host port =
    if has_rune b':' host then b'[' ∷ host ++ b']' ∷ b':' ∷ port else host ++ b':' ∷ port

-- The text has neither brackets nor, for a port, a colon.
abbrev pub NoBrackets : Text → Type 0
NoBrackets s = (has_rune b'[' s ≡ false) × (has_rune b']' s ≡ false)

cut_last-none : (c : ℕ) (s : Text) → has_rune c s ≡ false → cut_last c s ≡ none
unfolding cut_last
cut_last-none c [] h = refl
cut_last-none c (d ∷ s) h = elim (Bool-cases (d == c)) [
  | inl e ↦ cc (h, e)
  | inr e ↦ rw (cut_last-none c s (rw e at h), e) refl
]

cut_last-append :
    (c : ℕ) (s t : Text) → has_rune c t ≡ false → cut_last c (s ++ c ∷ t) ≡ some (s, t)
unfolding cut_last
cut_last-append c [] t h = rw (cut_last-none c t h, ==_refl c) refl
cut_last-append c (d ∷ s) t h = rw (cut_last-append c s t h) refl

cut_first-append :
    (c : ℕ) (s t : Text) → has_rune c s ≡ false → cut_first c (s ++ c ∷ t) ≡ some (s, t)
unfolding cut_first
cut_first-append c [] t h = rw (==_refl c) refl
cut_first-append c (d ∷ s) t h = elim (Bool-cases (d == c)) [
  | inl e ↦ cc (h, e)
  | inr e ↦ rw (e, cut_first-append c s t (rw e at h)) refl
]

-- A text up to its first `c` is the prefix up to its first `c`.
prefix-rune :
    (c : ℕ) (s p t : Text)
    → has_rune c s ≡ false
    → has_rune c p ≡ false
    → has_prefix (s ++ c ∷ t) (p ++ c ∷ []) ≡ true
    → s ≡ p
unfolding has_prefix
prefix-rune c [] [] t h k e = refl
prefix-rune c [] (d ∷ p) t h k e = absurd (ground arith)
prefix-rune c (b ∷ s) [] t h k e = absurd (ground arith)
prefix-rune c (b ∷ s) (d ∷ p) t h k e =
    ap₂ ◌∷◌ (ground arith) (prefix-rune c s p t (ground arith) (ground arith) (ground arith))

not_unix :
    (host port : Text)
    → has_rune b':' host ≡ false
    → host ≢ codes "unix"
    → has_prefix (host ++ b':' ∷ port) unix_prefix ≡ false
not_unix host port h n = elim (Bool-cases (has_prefix (host ++ b':' ∷ port) unix_prefix)) [
  | inl e ↦ absurd (n (prefix-rune b':' host (codes "unix") port h refl e))
  | inr e ↦ e
]

plain :
    (host port : Text)
    → has_rune b':' host ≡ false
    → NoBrackets host
    → NoBrackets port
    → plain_host (host, port) ≡ ok (host, port)
unfolding plain_host
plain host port h (l, r) (m, q) = rw (h, l, m, r, q) refl

-- A host without colons, then the port.
split-plain :
    (host port : Text)
    → has_rune b':' host ≡ false
    → NoBrackets host
    → has_rune b':' port ≡ false
    → NoBrackets port
    → split_host_port (host ++ b':' ∷ port) ≡ ok (host, port)
unfolding split_host_port
split-plain [] port h (l, r) p (m, q) =
    rw (cut_last-append b':' [] port p) (plain [] port h (l, r) (m, q))
split-plain (c ∷ host) port h (l, r) p (m, q) =
    let b : (c == b'[') ≡ false = ground arith in
    rw (cut_last-append b':' (c ∷ host) port p, b) (plain (c ∷ host) port h (l, r) (m, q))

-- A host in brackets.
split-bracketed :
    (host port : Text)
    → NoBrackets host
    → has_rune b':' port ≡ false
    → NoBrackets port
    → split_host_port (b'[' ∷ host ++ b']' ∷ b':' ∷ port) ≡ ok (host, port)
unfolding split_host_port after_bracket cut_last
split-bracketed host port (l, r) p (m, q) =
    let e : cut_last b':' (host ++ b']' ∷ b':' ∷ port) ≡ some (host ++ b']' ∷ [], port) =
      ap (cut_last b':') (sym (append_assoc host (b']' ∷ []) (b':' ∷ port)))
      ∙ cut_last-append b':' (host ++ b']' ∷ []) port p in
    rw (e, cut_first-append b']' host (b':' ∷ port) r, p, l, m, q) refl

-- Hosts and ports in which the program reads no bracket, and no colon in the port: an address that
-- was joined from them, and that resolves, is read as the TCP address that it is, with its host. An
-- IPv6 host comes back without its brackets. The host `unix` has to be told from a socket.
pub parse-join_host_port :
    (resolves : Text → Bool) (host port : Text)
    → NoBrackets host
    → has_rune b':' port ≡ false
    → NoBrackets port
    → host ≢ codes "unix"
    → resolves (join_host_port host port) ≡ true
    → parse_unix_or_tcp_address resolves (join_host_port host port)
      ≡ ok (record { network = tcp; address = join_host_port host port; host = host })
unfolding join_host_port parse_unix_or_tcp_address has_prefix
parse-join_host_port resolves host port n p m u r = elim (Bool-cases (has_rune b':' host)) [
  | inl h ↦ rw (h, split-bracketed host port n p m, rw h at r) refl
  | inr h ↦ rw (h, not_unix host port h u, split-plain host port h n p m, rw h at r) refl
]
