-- ===== src/Wildcard/Literal.antt =====
-- Patterns with no asterisk, which match themselves, and what `**` does not match.
use ghostunnel.Prelude.{
  ℕ, ◌≡◌, refl, sym, ap, subst, ◌∙◌, ◌≢◌, ◌↔◌, ◌⊎◌, inl, inr, true, false, Bool-cases, List, [],
  ◌∷◌, ◌++◌, map, arith, ◌==◌, ==_iff, append_assoc, append-nil, Text, text_eq, All, All-append, ok,
  split, split_from, join, length, length-append,
}
use ghostunnel.Regexp.Syntax.{newline}
use ghostunnel.Regexp.Parse.{is_meta}
use ghostunnel.Wildcard.Compile.{Matcher, asterisk, compile_with_separator, matches}
use ghostunnel.Wildcard.Pattern.{literal, segment_of, Follows, MatchesSegments, NoAsterisk}
use ghostunnel.Wildcard.Correct.{matches-compile_iff, split-ne-nil}

join-cons :
    (sep : ℕ) (p : Text) (s : Text) (cur : Text)
    → join sep (p ∷ split_from sep cur s) ≡ p ++ sep ∷ join sep (split_from sep cur s)
unfolding join split_from
join-cons sep p [] cur = refl
join-cons sep p (c ∷ s) cur = elim (Bool-cases (c == sep)) [
  | inl h ↦ rw h
  | inr h ↦ rw h (join-cons sep p s (cur ++ c ∷ []))
]

-- `strings.Join` undoes `strings.Split`.
pub join-split_from : (sep : ℕ) (cur s : Text) → join sep (split_from sep cur s) ≡ cur ++ s
unfolding split_from join
join-split_from sep cur [] = sym (append-nil cur)
join-split_from sep cur (c ∷ s) = elim (Bool-cases (c == sep)) [
  | inl h ↦ rw (h, join-cons sep cur s [], join-split_from sep [] s, (==_iff c sep).0 h)
  | inr h ↦ rw (h, join-split_from sep (cur ++ c ∷ []) s, append_assoc)
]

-- What stands after the first segment.
abbrev pub after : ℕ → List Text → Text
after sep [] = []
after sep (s ∷ segments) = sep ∷ (s ++ after sep segments)

pub join-after :
    (sep : ℕ) (s : Text) (segments : List Text) → join sep (s ∷ segments) ≡ s ++ after sep segments
unfolding join
join-after sep s [] = sym (append-nil s)
join-after sep s (t ∷ segments) = rw (join-after sep t segments)

pub segment_of-literal : (s : Text) → NoAsterisk s → segment_of s ≡ literal s
unfolding segment_of text_eq
segment_of-literal [] n = refl
segment_of-literal (c ∷ s) (n, m) = ground (arith, ==_iff c asterisk)

-- A text, or that text and a final separator.
abbrev pub UpTo : ℕ → Text → Text → Type 0
UpTo sep text t = (t ≡ text) ⊎ (t ≡ text ++ sep ∷ [])

UpTo-append : (sep : ℕ) (text s t : Text) → UpTo sep text t → UpTo sep (s ++ text) (s ++ t)
UpTo-append sep text s t (inl e) = inl (rw e)
UpTo-append sep text s t (inr e) = inr (rw (e, append_assoc))

UpTo-split :
    (sep : ℕ) (text s t : Text)
    → UpTo sep (s ++ text) t
    → (v : Text) × (t ≡ s ++ v) × UpTo sep text v
UpTo-split sep text s t (inl e) = (text, e, inl refl)
UpTo-split sep text s t (inr e) = (text ++ sep ∷ [], e ∙ append_assoc s text (sep ∷ []), inr refl)

Follows-literal :
    (sep : ℕ) (segments : List Text) (t : Text)
    → All NoAsterisk segments
    → Follows sep (map segment_of segments) t ↔ UpTo sep (after sep segments) t
Follows-literal sep [] t n = (λ h. h, λ h. h)
Follows-literal sep (s ∷ segments) t (n, a) = rw (segment_of-literal s n) (
  λ (v, e, f).
      subst (UpTo sep (sep ∷ (s ++ after sep segments))) (sym e)
        (UpTo-append sep (after sep segments) (sep ∷ s) v ((Follows-literal sep segments v a).0 f)),
  λ h.
      let (v, e, u) = UpTo-split sep (after sep segments) (sep ∷ s) t h in
      (v, e, (Follows-literal sep segments v a).1 u),
)

MatchesSegments-literal :
    (sep : ℕ) (segments : List Text) (t : Text)
    → segments ≢ []
    → All NoAsterisk segments
    → MatchesSegments sep segments t ↔ UpTo sep (join sep segments) t
MatchesSegments-literal sep [] t ne a = absurd (ne refl)
MatchesSegments-literal sep (s ∷ segments) t ne (n, a) =
    rw (segment_of-literal s n, join-after sep s segments)
      (
        λ (v, e, f).
            subst (UpTo sep (s ++ after sep segments)) (sym e)
              (UpTo-append sep (after sep segments) s v ((Follows-literal sep segments v a).0 f)),
        λ h.
            let (v, e, u) = UpTo-split sep (after sep segments) s t h in
            (v, e, (Follows-literal sep segments v a).1 u),
      )

pub split_from-NoAsterisk :
    (sep : ℕ) (cur s : Text) → NoAsterisk cur → NoAsterisk s → All NoAsterisk (split_from sep cur s)
unfolding split_from
split_from-NoAsterisk sep cur [] n m = (n, tt)
split_from-NoAsterisk sep cur (c ∷ s) n (h, m) = elim (Bool-cases (c == sep)) [
  | inl e ↦ rw e (n, split_from-NoAsterisk sep [] s tt m)
  | inr e ↦ rw e (
      split_from-NoAsterisk sep (cur ++ c ∷ []) s
        (All-append (λ d. d ≢ asterisk) cur (c ∷ []) n (h, tt)) m)
]

-- A pattern with no asterisk matches itself, itself with one separator behind it, and nothing
-- else. The separator is neither a character that `QuoteMeta` escapes nor the line feed.
pub matches-literal_iff :
    (pattern : Text) (sep : ℕ) (m : Matcher) (input : Text)
    → is_meta sep ≡ false
    → sep ≢ newline
    → NoAsterisk pattern
    → compile_with_separator pattern sep ≡ ok m
    → (matches m input ≡ true) ↔ UpTo sep pattern input
unfolding split
matches-literal_iff pattern sep m input plain no_newline n h =
    let (to, from) = matches-compile_iff pattern sep m input plain no_newline h in
    let (sound, complete) =
      MatchesSegments-literal sep (split pattern sep) input (split-ne-nil pattern sep)
        (split_from-NoAsterisk sep [] pattern tt n) in
    let back = join-split_from sep [] pattern in
    (
      λ a. subst (λ x. UpTo sep x input) back (sound (to a)),
      λ u. from (complete (subst (λ x. UpTo sep x input) (sym back) u)),
    )

-- Let the separator be none of the meta characters of regular expressions, not the line feed and not
-- the asterisk, and let a text have no asterisk: the pattern that is the text and the separator, if it
-- compiles, does not match the text.
pub final_separator-not_optional :
    (pattern : Text) (sep : ℕ) (m : Matcher)
    → is_meta sep ≡ false
    → sep ≢ newline
    → NoAsterisk pattern
    → sep ≢ asterisk
    → compile_with_separator (pattern ++ sep ∷ []) sep ≡ ok m
    → ¬ (matches m pattern ≡ true)
final_separator-not_optional pattern sep m plain no_newline n k h a = shorter (
    (matches-literal_iff (pattern ++ sep ∷ []) sep m pattern plain no_newline
        (All-append (λ d. d ≢ asterisk) pattern (sep ∷ []) n (k, tt)) h).0
      a)
  where
    shorter : ¬ UpTo sep (pattern ++ sep ∷ []) pattern
    shorter (inl e) = absurd (omega (arith, ap length e, length-append pattern (sep ∷ [])))
    shorter (inr e) = absurd (
        omega (
          arith,
          ap length e,
          length-append pattern (sep ∷ []),
          length-append (pattern ++ sep ∷ []) (sep ∷ []),
        ))
