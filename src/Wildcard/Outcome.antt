-- ===== src/Wildcard/Outcome.antt =====
-- Which patterns compile, and with which error the others are refused.
use ghostunnel.Prelude.{
  ℕ, suc, ◌+◌, ◌-◌, ◌≡◌, refl, sym, subst, ◌≢◌, ◌↔◌, ◌⊎◌, inl, inr, true, false, Bool-cases, some,
  List, [], ◌∷◌, arith, ◌==◌, length, Text, codes, text_eq, text_eq_iff, ne_of_text_eq, has_rune,
  Result, ok, err, panic, ◌>>=◌, split,
}
use ghostunnel.Regexp.Syntax.{Regex, newline}
use ghostunnel.Regexp.Parse
use ghostunnel.Regexp.Parse.{is_meta, quote_meta}
use ghostunnel.Wildcard.Compile.{
  WildcardError, empty_pattern, invalid_wildcard, invalid_double_wildcard, regexp_compile, Matcher,
  asterisk, star_segment, double_star_segment, write_segment, write_segments, compiled,
  compile_with_separator,
}
use ghostunnel.Wildcard.Pattern.{NoAsterisk, IsPlainSegment, IsWellFormed}
use ghostunnel.Wildcard.Correct.{all_segments, split-ne-nil}

-- A segment with an asterisk in it that is neither `*` nor `**`.
abbrev pub IsBadSegment : Text → Type 0
IsBadSegment s = (s ≢ star_segment) × (s ≢ double_star_segment) × (has_rune asterisk s ≡ true)

-- A `**` with a segment after it, and only plain segments before it.
abbrev pub EarlyDoubleStar : List Text → Type 0
EarlyDoubleStar [] = ⊥
EarlyDoubleStar (s ∷ segments) =
    ((s ≡ double_star_segment) × (segments ≢ [])) ⊎ (IsPlainSegment s × EarlyDoubleStar segments)

-- A bad segment, and only plain segments before it.
abbrev pub FirstBad : List Text → Type 0
FirstBad [] = ⊥
FirstBad (s ∷ segments) = IsBadSegment s ⊎ (IsPlainSegment s × FirstBad segments)

has_rune-false : (s : Text) → has_rune asterisk s ≡ false → NoAsterisk s
has_rune-false [] h = tt
has_rune-false (c ∷ s) h = (ground arith, has_rune-false s (ground arith))

-- What the outcome of the loop over the segments says of them.
abbrev Written : List Text → Result WildcardError Text → Type 0
Written segments (ok text) = IsWellFormed segments
Written segments (err invalid_double_wildcard) = EarlyDoubleStar segments
Written segments (err invalid_wildcard) = FirstBad segments
Written segments (err empty_pattern) = ⊥
Written segments (err regexp_compile) = ⊥
Written segments panic = ⊥

-- A plain segment before the others.
Written-cons :
    (s : Text) (segments : List Text) (r : Result WildcardError Text)
    → IsPlainSegment s
    → Written segments r
    → Written (s ∷ segments) r
Written-cons s [] (ok text) p h = inl p
Written-cons s (t ∷ segments) (ok text) p h = (p, h)
Written-cons s segments (err invalid_double_wildcard) p h = inr (p, h)
Written-cons s segments (err invalid_wildcard) p h = inr (p, h)
Written-cons s segments (err empty_pattern) p h = h
Written-cons s segments (err regexp_compile) p h = h
Written-cons s segments panic p h = h

-- The index test for the last segment.
last_index :
    (n i : ℕ) (segments : List Text)
    → n ≡ i + suc (length segments)
    → (((i == n - 1) ≡ true) × (segments ≡ [])) ⊎ (((i == n - 1) ≡ false) × (segments ≢ []))
last_index n i [] e = inl (ground arith, refl)
last_index n i (s ∷ segments) e = inr (ground arith, cc)

module _ (sep n : ℕ) where
  write_segments-Written :
      (segments : List Text) (i : ℕ) (out : Text)
      → n ≡ i + length segments
      → Written segments (write_segments sep n i segments out)
  unfolding write_segments write_segment
  write_segments-Written [] i out e = tt
  write_segments-Written (s ∷ segments) i out e = elim (Bool-cases (text_eq s star_segment)) [
    | inl h ↦ rw h (
        Written-cons s segments _ (inl ((text_eq_iff s star_segment).0 h))
          (write_segments-Written segments (i + 1) _ (omega arith)))
    | inr h ↦ elim (Bool-cases (text_eq s double_star_segment)) [
      | inl d ↦ elim (last_index n i segments e) [
        | inl (l, z) ↦
            rw (h, d, l)
              (subst (λ x. IsWellFormed (s ∷ x)) (sym z)
                (inr ((text_eq_iff s double_star_segment).0 d)))
        | inr (l, z) ↦ rw (h, d, l) (inl ((text_eq_iff s double_star_segment).0 d, z))
      ]
      | inr d ↦ elim (Bool-cases (has_rune asterisk s)) [
        | inl b ↦
            rw (h, d, b)
              (inl (ne_of_text_eq s star_segment h, ne_of_text_eq s double_star_segment d, b))
        | inr b ↦
            rw (h, d, b)
              (Written-cons s segments _ (inr (has_rune-false s b))
                (write_segments-Written segments (i + 1) _ (omega arith)))
      ]
    ]
  ]

-- What the outcome of a compilation says of the pattern.
abbrev pub Outcome : Text → ℕ → Result WildcardError Matcher → Type 0
Outcome pattern sep (ok m) = (pattern ≢ []) × IsWellFormed (split pattern sep)
Outcome pattern sep (err empty_pattern) = pattern ≡ []
Outcome pattern sep (err invalid_double_wildcard) = EarlyDoubleStar (split pattern sep)
Outcome pattern sep (err invalid_wildcard) = FirstBad (split pattern sep)
Outcome pattern sep (err regexp_compile) = ⊥
Outcome pattern sep panic = ⊥

-- The regular expression that was written for a pattern always compiles.
compiled-Outcome :
    (pattern : Text) (sep : ℕ) (r : Result WildcardError Text)
    → pattern ≢ []
    → ((text : Text) → r ≡ ok text → (x : Regex) × (Parse.compile text ≡ some x))
    → Written (split pattern sep) r
    → Outcome pattern sep (r >>= λ text. compiled (Parse.compile text))
compiled-Outcome pattern sep (ok text) n c h = let (x, e) = c text refl in rw e (n, h)
compiled-Outcome pattern sep (err invalid_double_wildcard) n c h = h
compiled-Outcome pattern sep (err invalid_wildcard) n c h = h
compiled-Outcome pattern sep (err empty_pattern) n c h = absurd h
compiled-Outcome pattern sep (err regexp_compile) n c h = absurd h
compiled-Outcome pattern sep panic n c h = absurd h

-- A compilation that returns a matcher was given a well-formed pattern that is not empty; each
-- error but "internal bug" names its cause, which the first offending segment decides; the regular
-- expression that is generated always compiles. The separator is neither a character that
-- `QuoteMeta` escapes nor the line feed.
pub compile_with_separator-Outcome :
    (pattern : Text) (sep : ℕ)
    → is_meta sep ≡ false
    → sep ≢ newline
    → Outcome pattern sep (compile_with_separator pattern sep)
unfolding compile_with_separator
compile_with_separator-Outcome pattern sep plain no_newline =
    elim (Bool-cases (text_eq pattern [])) [
      | inl e ↦ rw e ((text_eq_iff pattern []).0 e)
      | inr e ↦ rw e (
          compiled-Outcome pattern sep (write_segments sep (length segments) 0 segments (codes "^"))
            (ne_of_text_eq pattern [] e)
            (λ text h.
              let c =
                all_segments sep plain no_newline (length segments) segments text refl
                  (split-ne-nil pattern sep) h in
              (c.regex, c.compiled))
            (write_segments-Written sep (length segments) segments 0 (codes "^") (omega arith)))
    ]
  where
    segments : List Text
    segments = split pattern sep

double_star-not_plain : ¬ IsPlainSegment double_star_segment
double_star-not_plain (inl e) = cc
double_star-not_plain (inr (n, _)) = n refl

bad-not_plain : (s : Text) → IsBadSegment s → ¬ IsPlainSegment s
bad-not_plain s (a, b, c) (inl e) = a e
bad-not_plain s (a, b, c) (inr n) = cc (c, NoAsterisk-has_rune s n)
  where
    NoAsterisk-has_rune : (s : Text) → NoAsterisk s → has_rune asterisk s ≡ false
    NoAsterisk-has_rune [] n = refl
    NoAsterisk-has_rune (c ∷ s) (n, m) = ground (arith, NoAsterisk-has_rune s m)

IsWellFormed-not_early : (segments : List Text) → IsWellFormed segments → ¬ EarlyDoubleStar segments
IsWellFormed-not_early [] w h = h
IsWellFormed-not_early (s ∷ []) w (inl (_, n)) = n refl
IsWellFormed-not_early (s ∷ []) w (inr (_, h)) = h
IsWellFormed-not_early (s ∷ t ∷ segments) (p, w) (inl (e, _)) =
    double_star-not_plain (subst IsPlainSegment e p)
IsWellFormed-not_early (s ∷ t ∷ segments) (p, w) (inr (_, h)) =
    IsWellFormed-not_early (t ∷ segments) w h

IsWellFormed-not_bad : (segments : List Text) → IsWellFormed segments → ¬ FirstBad segments
IsWellFormed-not_bad [] w h = h
IsWellFormed-not_bad (s ∷ []) (inl p) (inl b) = bad-not_plain s b p
IsWellFormed-not_bad (s ∷ []) (inr e) (inl b) = b.1 e
IsWellFormed-not_bad (s ∷ []) w (inr (_, h)) = h
IsWellFormed-not_bad (s ∷ t ∷ segments) (p, w) (inl b) = bad-not_plain s b p
IsWellFormed-not_bad (s ∷ t ∷ segments) (p, w) (inr (_, h)) =
    IsWellFormed-not_bad (t ∷ segments) w h

Outcome-ok :
    (pattern : Text) (sep : ℕ) (r : Result WildcardError Matcher)
    → pattern ≢ []
    → IsWellFormed (split pattern sep)
    → Outcome pattern sep r
    → (m : Matcher) × (r ≡ ok m)
Outcome-ok pattern sep (ok m) n w h = (m, refl)
Outcome-ok pattern sep (err empty_pattern) n w h = absurd (n h)
Outcome-ok pattern sep (err invalid_double_wildcard) n w h = absurd (IsWellFormed-not_early _ w h)
Outcome-ok pattern sep (err invalid_wildcard) n w h = absurd (IsWellFormed-not_bad _ w h)
Outcome-ok pattern sep (err regexp_compile) n w h = absurd h
Outcome-ok pattern sep panic n w h = absurd h

-- A pattern compiles exactly if it is not empty and well formed: `*` fills a segment alone, and
-- `**` stands only as the last segment. The separator is neither a character that `QuoteMeta`
-- escapes nor the line feed.
pub compiles_iff :
    (pattern : Text) (sep : ℕ)
    → is_meta sep ≡ false
    → sep ≢ newline
    → ((m : Matcher) × (compile_with_separator pattern sep ≡ ok m))
      ↔ ((pattern ≢ []) × IsWellFormed (split pattern sep))
compiles_iff pattern sep plain no_newline = (
  λ (m, e).
      subst (Outcome pattern sep) e (compile_with_separator-Outcome pattern sep plain no_newline),
  λ (n, w).
      Outcome-ok pattern sep (compile_with_separator pattern sep) n w
        (compile_with_separator-Outcome pattern sep plain no_newline),
)
