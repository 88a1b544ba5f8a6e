-- ===== src/Address/HostPort.antt =====
-- `net.SplitHostPort`, which takes `host:port` and `[host]:port` apart.
use ghostunnel.Prelude.{
  ℕ, Option, none, some, [], ◌∷◌, ◌==◌, if◌then◌else◌, ◌||◌, Text, has_rune, Result, ok, err,
  Returns, ite-Returns,
}

pub data AddressError : Type 0 where
  missing_port too_many_colons missing_bracket unexpected_bracket unresolved : AddressError

-- The text cut at its first `c`, which is dropped.
unfoldable pub cut_first : ℕ → Text → Option (Text × Text)
cut_first c [] = none
cut_first c (d ∷ s) =
    if d == c
    then some ([], s)
    else elim (cut_first c s) [ none ↦ none | some (a, b) ↦ some (d ∷ a, b) ]

-- The text cut at its last `c`.
unfoldable pub cut_last : ℕ → Text → Option (Text × Text)
cut_last c [] = none
cut_last c (d ∷ s) = elim (cut_last c s) [
  | none ↦ if d == c then some ([], s) else none
  | some (a, b) ↦ some (d ∷ a, b)
]

-- `[host]` is read, and `rest` is what follows its bracket.
unfoldable pub after_bracket : Text → Text → Result AddressError (Text × Text)
after_bracket host [] = err missing_port
after_bracket host (c ∷ port) =
    if c == b':'
    then (if has_rune b':' port
        then err too_many_colons
        else if has_rune b'[' host || has_rune b'[' port
        then err unexpected_bracket
        else if has_rune b']' port
        then err unexpected_bracket
        else ok (host, port))
    else err missing_port

unfoldable pub plain_host : Text × Text → Result AddressError (Text × Text)
plain_host (host, port) =
    if has_rune b':' host
    then err too_many_colons
    else if has_rune b'[' host || has_rune b'[' port
    then err unexpected_bracket
    else if has_rune b']' host || has_rune b']' port
    then err unexpected_bracket
    else ok (host, port)

bracketed : Option (Text × Text) → Result AddressError (Text × Text)
bracketed none = err missing_bracket
bracketed (some (host, rest)) = after_bracket host rest

by_first : Text × Text → Text → Result AddressError (Text × Text)
by_first cut [] = plain_host cut
by_first cut (c ∷ rest) = if c == b'[' then bracketed (cut_first b']' rest) else plain_host cut

by_last : Option (Text × Text) → Text → Result AddressError (Text × Text)
by_last none hostport = err missing_port
by_last (some cut) hostport = by_first cut hostport

unfoldable pub split_host_port : Text → Result AddressError (Text × Text)
unfolding by_last by_first bracketed
split_host_port hostport = by_last (cut_last b':' hostport) hostport

-- Every text is split, or is an error.
plain_host-Returns : (cut : Text × Text) → Returns (plain_host cut)
unfolding plain_host
plain_host-Returns (host, port) = ite-Returns (has_rune b':' host) _ _ tt (
    ite-Returns (has_rune b'[' host || has_rune b'[' port) _ _ tt
      (ite-Returns (has_rune b']' host || has_rune b']' port) _ _ tt tt))

after_bracket-Returns : (host rest : Text) → Returns (after_bracket host rest)
unfolding after_bracket
after_bracket-Returns host [] = tt
after_bracket-Returns host (c ∷ port) =
    ite-Returns (c == b':') _ _
      (ite-Returns (has_rune b':' port) _ _ tt (
        ite-Returns (has_rune b'[' host || has_rune b'[' port) _ _ tt
          (ite-Returns (has_rune b']' port) _ _ tt tt)))
      tt

pub split_host_port-Returns : (hostport : Text) → Returns (split_host_port hostport)
unfolding split_host_port by_last by_first bracketed
split_host_port-Returns hostport = last (cut_last b':' hostport) hostport
  where
    brackets : (o : Option (Text × Text)) → Returns (bracketed o)
    brackets none = tt
    brackets (some (host, rest)) = after_bracket-Returns host rest

    first : (cut : Text × Text) (s : Text) → Returns (by_first cut s)
    first cut [] = plain_host-Returns cut
    first cut (c ∷ rest) =
        ite-Returns (c == b'[') _ _ (brackets (cut_first b']' rest)) (plain_host-Returns cut)

    last : (o : Option (Text × Text)) (s : Text) → Returns (by_last o s)
    last none s = tt
    last (some cut) s = first cut s
