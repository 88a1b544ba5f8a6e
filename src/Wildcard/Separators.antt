-- ===== src/Wildcard/Separators.antt =====
-- Separators that are special in regular expressions, which `CompileWithSeparator` does not quote.
use ghostunnel.Prelude.{ℕ, ◌≡◌, refl, ◌≢◌, inl, true, [], ◌∷◌, arith, codes, ok, split, text_eq}
use ghostunnel.Regexp.Syntax.{
  Regex, eps, begin_text, end_text, any_not_nl, lit, seq, opt, newline, Accepts,
}
use ghostunnel.Regexp.Parse
use ghostunnel.Regexp.Engine.Laws.{match_iff}
use ghostunnel.Wildcard.Compile.{
  Matcher, compile_with_separator, write_segment, write_segments, matches,
}
use ghostunnel.Wildcard.Pattern.{MatchesSegments, segment_of}

-- What `a.b` becomes with the separator `.`: the expression `^a.b.?$`.
abbrev dotted : Regex
dotted =
    seq
      (seq (seq (seq (seq (seq eps begin_text) (lit b'a')) any_not_nl) (lit b'b')) (opt any_not_nl))
      end_text

dotted-Accepts : (c : ℕ) → c ≢ newline → Accepts dotted (b'a' ∷ c ∷ b'b' ∷ [])
dotted-Accepts c n = record {
  before = [];
  start = b'a' ∷ c ∷ b'b' ∷ [];
  stop = [];
  split_at = refl;
  run = (
    [],
    (
      [],
      (
        b'b' ∷ [],
        (
          c ∷ b'b' ∷ [],
          (b'a' ∷ c ∷ b'b' ∷ [], (b'a' ∷ c ∷ b'b' ∷ [], refl, (refl, refl)), refl),
          (c, n, refl),
        ),
        refl,
      ),
      inl refl,
    ),
    (refl, refl),
  );
}

-- With the separator `.`, the pattern `a.b` is accepted, and its matcher takes any character but
-- the line feed between `a` and `b`, although the pattern means only `a.b` and `a.b.`.
pub dot_separator-matches_any :
    (c : ℕ)
    → c ≢ newline
    → c ≢ b'.'
    → (m : Matcher) × (compile_with_separator (codes "a.b") b'.' ≡ ok m)
      × (matches m (b'a' ∷ c ∷ b'b' ∷ []) ≡ true)
      × (¬ MatchesSegments b'.' (split (codes "a.b") b'.') (b'a' ∷ c ∷ b'b' ∷ []))
unfolding compile_with_separator write_segments write_segment Parse.compile Parse.quote_meta split
    text_eq matches segment_of
dot_separator-matches_any c n k = (
  record { pattern = dotted },
  refl,
  (match_iff dotted _).1 (dotted-Accepts c n),
  λ (t, e, (v, f, g)). ground arith,
)
