-- ===== src/Regexp/Tests.antt =====
-- Runs of the parser and the matcher.
use ghostunnel.Prelude.{◌≡◌, refl, true, false, none, some, Text, codes, Option, Bool}
use ghostunnel.Regexp.Syntax.{Regex}
use ghostunnel.Regexp.Engine.{match}
use ghostunnel.Regexp.Parse.{compile, quote_meta}

abbrev matches : Option Regex → Text → Option Bool
matches none w = none
matches (some r) w = some (match r w)

literal_run : matches (compile (codes "^a/[^/]+/?(|/.*)$")) (codes "a/bc/d") ≡ some true
unfolding compile match
literal_run = refl

empty_segment : matches (compile (codes "^a/[^/]+/?$")) (codes "a//") ≡ some false
unfolding compile match
empty_segment = refl

unanchored : matches (compile (codes "b+.")) (codes "abbc") ≡ some true
unfolding compile match
unanchored = refl

missing_argument : compile (codes "a|?") ≡ none
unfolding compile
missing_argument = refl

unbalanced : compile (codes "a)b") ≡ none
unfolding compile
unbalanced = refl

quoted_run : quote_meta (codes "a.b*") ≡ codes "a\\.b\\*"
unfolding quote_meta
quoted_run = refl
