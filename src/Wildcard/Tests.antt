-- ===== src/Wildcard/Tests.antt =====
-- Runs of the compiler and the matcher, and the theorems at concrete patterns.
use ghostunnel.Prelude.{
  ◌≡◌, refl, ◌↔◌, Bool, true, false, List, [], ◌∷◌, Text, codes, text_eq, split, Result, ok, err,
  panic, ◌>>=◌, arith, ◌++◌,
}
use ghostunnel.Regexp.Syntax.{newline}
use ghostunnel.Regexp.Parse
use ghostunnel.Regexp.Parse.{is_meta, quote_meta}
use ghostunnel.Regexp.Engine
use ghostunnel.Wildcard.Compile.{
  WildcardError, invalid_wildcard, invalid_double_wildcard, empty_pattern, Matcher, write_segment,
  write_segments, compile_with_separator, compile, compile_list_from, compile_list, must_compile,
  matches, double_star_segment,
}
use ghostunnel.Wildcard.Pattern.{MatchesSegments}
use ghostunnel.Wildcard.Correct.{matches-compile_iff}
use ghostunnel.Wildcard.Outcome.{Outcome, compile_with_separator-Outcome}
use ghostunnel.Wildcard.Literal.{final_separator-not_optional}
use ghostunnel.Wildcard.Subtree.{Below, matches-subtree_iff}
use ghostunnel.Wildcard.Separators.{dot_separator-matches_any}

-- What a compilation runs through.
runs : Unit {0}
unfolding compile_with_separator compile compile_list compile_list_from must_compile write_segment
    write_segments matches Parse.compile quote_meta Engine.match split text_eq
runs = tt

abbrev run : Text → Text → Result WildcardError Bool
run pattern input = compile pattern >>= λ m. ok (matches m input)

one_star_run : run (codes "s://foo/*/bar") (codes "s://foo/baz/bar/") ≡ ok true
unfolding runs
one_star_run = refl

one_star_empty : run (codes "s://foo/*/bar") (codes "s://foo//bar") ≡ ok false
unfolding runs
one_star_empty = refl

double_star_run : run (codes "s://foo/*/bar/**") (codes "s://foo/x/bar/y/z") ≡ ok true
unfolding runs
double_star_run = refl

double_star_prefix : run (codes "s://foo/*/bar/**") (codes "s://foo/x/barf") ≡ ok false
unfolding runs
double_star_prefix = refl

meta_run : run (codes ".+") (codes "xx") ≡ ok false
unfolding runs
meta_run = refl

early : compile (codes "test://**/asdf") ≡ err invalid_double_wildcard
unfolding runs
early = refl

inside : compile (codes "test://foo*/asdf") ≡ err invalid_wildcard
unfolding runs
inside = refl

nothing : compile [] ≡ err empty_pattern
unfolding runs
nothing = refl

must_compile_panics : must_compile (codes "**/test") ≡ panic
unfolding runs
must_compile_panics = refl

abbrev matcher_of : Result WildcardError Matcher → Matcher
matcher_of (ok m) = m
matcher_of _ = record { pattern = ghostunnel.Regexp.Syntax.eps }

abbrev starred : Matcher
starred = matcher_of (compile_with_separator (codes "a/*") b'/')

matches-compile_iff_example :
    (matches starred (codes "a/b") ≡ true)
    ↔ MatchesSegments b'/' (split (codes "a/*") b'/') (codes "a/b")
unfolding runs is_meta
matches-compile_iff_example =
    matches-compile_iff (codes "a/*") b'/' starred (codes "a/b") refl (λ e. cc) refl

compile_with_separator-Outcome_example :
    Outcome (codes "**/a") b'/' (compile_with_separator (codes "**/a") b'/')
unfolding is_meta
compile_with_separator-Outcome_example =
    compile_with_separator-Outcome (codes "**/a") b'/' refl (λ e. cc)

abbrev plain : Matcher
plain = matcher_of (compile_with_separator (codes "a/b") b'/')

abbrev slashed : Matcher
slashed = matcher_of (compile_with_separator (codes "a/b" ++ b'/' ∷ []) b'/')

final_separator-not_optional_example : ¬ (matches slashed (codes "a/b") ≡ true)
unfolding runs is_meta
final_separator-not_optional_example =
    final_separator-not_optional (codes "a/b") b'/' slashed refl (λ e. cc) (omega arith) (λ e. cc)
      refl

abbrev below : Matcher
below = matcher_of (compile_with_separator (codes "a" ++ b'/' ∷ double_star_segment) b'/')

matches-subtree_iff_example :
    (matches below (codes "a/b\nc") ≡ true) ↔ Below b'/' (codes "a") (codes "a/b\nc")
unfolding runs is_meta
matches-subtree_iff_example =
    matches-subtree_iff (codes "a") b'/' below (codes "a/b\nc") refl (λ e. cc) (omega arith) refl

dot_separator-matches_any_example :
    (m : Matcher) × (compile_with_separator (codes "a.b") b'.' ≡ ok m)
    × (matches m (b'a' ∷ b'x' ∷ b'b' ∷ []) ≡ true)
    × (¬ MatchesSegments b'.' (split (codes "a.b") b'.') (b'a' ∷ b'x' ∷ b'b' ∷ []))
dot_separator-matches_any_example = dot_separator-matches_any b'x' (λ e. cc) (λ e. cc)

abbrev patterns : List Text
patterns = codes "a/*" ∷ codes "b" ∷ []

abbrev both : Result WildcardError (List Matcher) → List Matcher
both (ok ms) = ms
both _ = []
