-- ===== src/Wildcard/Compile.antt =====
-- wildcard/matcher.go: the compiler from patterns to regular expressions, and `Matches`.
use ghostunnel.Prelude.{
  ℕ, ◌+◌, ◌-◌, Bool, true, false, Option, none, some, List, [], ◌∷◌, ◌++◌, ◌==◌, if◌then◌else◌,
  length, Text, codes, text_eq, has_rune, split, Result, ok, err, panic, ◌>>=◌,
}
use ghostunnel.Regexp.Syntax.{Regex}
use ghostunnel.Regexp.Parse.{quote_meta}
use ghostunnel.Regexp.Parse
use ghostunnel.Regexp.Engine

abbrev pub default_separator : ℕ
default_separator = b'/'

pub data WildcardError : Type 0 where
  empty_pattern invalid_wildcard invalid_double_wildcard regexp_compile : WildcardError

-- `regexpMatcher`
pub record Matcher : Type 0 where
  pub pattern : Regex

abbrev pub asterisk : ℕ
asterisk = b'*'

abbrev pub star_segment : Text
star_segment = codes "*"

abbrev pub double_star_segment : Text
double_star_segment = codes "**"

-- The `switch` on a segment: what the buffer holds after it, and whether the loop is left.
unfoldable pub write_segment : ℕ → Bool → Text → Text → Result WildcardError (Text × Bool)
write_segment separator is_last segment regex =
    if text_eq segment star_segment
    then ok (regex ++ (codes "[^" ++ separator ∷ codes "]+"), false)
    else if text_eq segment double_star_segment
    then (if is_last
        then ok (regex ++ (codes "?(|" ++ separator ∷ codes ".*)$"), true)
        else err invalid_double_wildcard)
    else if has_rune asterisk segment
    then err invalid_wildcard
    else ok (regex ++ quote_meta segment, false)

-- What follows a segment: the separator, and after the last one that it is optional.
abbrev pub write_separator : ℕ → Bool → Text → Text
write_separator separator is_last regex = regex ++ separator ∷ (if is_last then codes "?$" else [])

-- The loop over `segments`, from index `i`; `n` is `len(segments)`.
unfoldable pub write_segments : ℕ → ℕ → ℕ → List Text → Text → Result WildcardError Text
write_segments separator n i [] regex = ok regex
write_segments separator n i (segment ∷ segments) regex = do
  (written, leave) ← write_segment separator (i == n - 1) segment regex
  if leave
      then ok written
      else write_segments separator n (i + 1) segments
          (write_separator separator (i == n - 1) written)

abbrev pub compiled : Option Regex → Result WildcardError Matcher
compiled none = err regexp_compile
compiled (some r) = ok (record { pattern = r })

unfoldable pub compile_with_separator : Text → ℕ → Result WildcardError Matcher
compile_with_separator pattern separator = if text_eq pattern [] then err empty_pattern else (do
  let segments = split pattern separator
  regex ← write_segments separator (length segments) 0 segments (codes "^")
  compiled (Parse.compile regex))

unfoldable pub compile : Text → Result WildcardError Matcher
compile pattern = compile_with_separator pattern default_separator

-- The loop of `CompileList`; `ms` is the slice that grows.
unfoldable pub compile_list_from : List Matcher → List Text → Result WildcardError (List Matcher)
compile_list_from ms [] = ok ms
compile_list_from ms (pattern ∷ patterns) = do
  m ← compile pattern
  compile_list_from (ms ++ m ∷ []) patterns

unfoldable pub compile_list : List Text → Result WildcardError (List Matcher)
compile_list patterns = compile_list_from [] patterns

abbrev pub or_panic {ℓ κ} : {E : Type ℓ} {A : Type κ} → Result E A → Result E A
or_panic (ok a) = ok a
or_panic (err e) = panic
or_panic panic = panic

unfoldable pub must_compile : Text → Result WildcardError Matcher
must_compile pattern = or_panic (compile_with_separator pattern default_separator)

-- `Matches`
unfoldable pub matches : Matcher → Text → Bool
matches m input = Engine.match m.pattern input
