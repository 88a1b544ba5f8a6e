-- ===== src/Wildcard/Subtree.antt =====
-- Patterns that end in `**` after a separator.
use ghostunnel.Prelude.{
  ℕ, ◌≡◌, refl, sym, subst, ◌∙◌, ◌≢◌, ◌↔◌, ◌⊎◌, inl, inr, true, false, Bool-cases, List, [], ◌∷◌,
  ◌++◌, map, arith, ◌==◌, ==_refl, append_assoc, Text, text_eq, All, ok, split, split_from, join,
}
use ghostunnel.Regexp.Syntax.{newline}
use ghostunnel.Regexp.Parse.{is_meta}
use ghostunnel.Wildcard.Compile.{
  Matcher, asterisk, double_star_segment, compile_with_separator, matches,
}
use ghostunnel.Wildcard.Pattern.{double_star, segment_of, Follows, MatchesSegments, NoAsterisk}
use ghostunnel.Wildcard.Correct.{matches-compile_iff, split-ne-nil}
use ghostunnel.Wildcard.Literal.{
  join-split_from, after, join-after, segment_of-literal, split_from-NoAsterisk,
}

split_from-append :
    (sep : ℕ) (cur s q : Text)
    → split_from sep cur (s ++ sep ∷ q) ≡ split_from sep cur s ++ split_from sep [] q
unfolding split_from
split_from-append sep cur [] q = rw (==_refl sep)
split_from-append sep cur (c ∷ s) q = elim (Bool-cases (c == sep)) [
  | inl h ↦ rw (h, split_from-append sep [] s q)
  | inr h ↦ rw (h, split_from-append sep (cur ++ c ∷ []) s q)
]

split_from-double_star :
    (sep : ℕ) → sep ≢ asterisk → split_from sep [] double_star_segment ≡ double_star_segment ∷ []
unfolding split_from
split_from-double_star sep n = ground arith

abbrev pub Line : Text → Type 0
Line v = All (λ c. c ≢ newline) v

-- A text, or a line below it.
abbrev pub Below : ℕ → Text → Text → Type 0
Below sep text t = (t ≡ text) ⊎ ((v : Text) × (t ≡ text ++ sep ∷ v) × Line v)

Below-append : (sep : ℕ) (text s t : Text) → Below sep text t → Below sep (s ++ text) (s ++ t)
Below-append sep text s t (inl e) = inl (rw e)
Below-append sep text s t (inr (v, e, l)) = inr (v, rw (e, append_assoc), l)

Below-split :
    (sep : ℕ) (text s t : Text)
    → Below sep (s ++ text) t
    → (u : Text) × (t ≡ s ++ u) × Below sep text u
Below-split sep text s t (inl e) = (text, e, inl refl)
Below-split sep text s t (inr (v, e, l)) =
    (text ++ sep ∷ v, e ∙ append_assoc s text (sep ∷ v), inr (v, refl, l))

segment_of-double_star : segment_of double_star_segment ≡ double_star
unfolding segment_of text_eq
segment_of-double_star = refl

Follows-subtree :
    (sep : ℕ) (segments : List Text) (t : Text)
    → All NoAsterisk segments
    → Follows sep (map segment_of (segments ++ double_star_segment ∷ [])) t
      ↔ Below sep (after sep segments) t
Follows-subtree sep [] t n = rw segment_of-double_star (λ h. h, λ h. h)
Follows-subtree sep (s ∷ segments) t (n, a) = rw (segment_of-literal s n) (
  λ (v, e, f).
      subst (Below sep (sep ∷ (s ++ after sep segments))) (sym e) (
        Below-append sep (after sep segments) (sep ∷ s) v ((Follows-subtree sep segments v a).0 f)),
  λ h.
      let (v, e, u) = Below-split sep (after sep segments) (sep ∷ s) t h in
      (v, e, (Follows-subtree sep segments v a).1 u),
)

MatchesSegments-subtree :
    (sep : ℕ) (segments : List Text) (t : Text)
    → segments ≢ []
    → All NoAsterisk segments
    → MatchesSegments sep (segments ++ double_star_segment ∷ []) t ↔ Below sep (join sep segments) t
MatchesSegments-subtree sep [] t ne a = absurd (ne refl)
MatchesSegments-subtree sep (s ∷ segments) t ne (n, a) =
    rw (segment_of-literal s n, join-after sep s segments)
      (
        λ (v, e, f).
            subst (Below sep (s ++ after sep segments)) (sym e)
              (Below-append sep (after sep segments) s v ((Follows-subtree sep segments v a).0 f)),
        λ h.
            let (v, e, u) = Below-split sep (after sep segments) s t h in
            (v, e, (Follows-subtree sep segments v a).1 u),
      )

-- A pattern of the form `p/**`, with no asterisk in `p`, matches `p` itself and every text that
-- goes on after `p` with a separator and then holds no line feed, and nothing else. So `**` does
-- not match a text with a line feed in it. The separator is neither `*`, nor another character
-- that `QuoteMeta` escapes, nor the line feed.
pub matches-subtree_iff :
    (p : Text) (sep : ℕ) (m : Matcher) (input : Text)
    → is_meta sep ≡ false
    → sep ≢ newline
    → NoAsterisk p
    → compile_with_separator (p ++ sep ∷ double_star_segment) sep ≡ ok m
    → (matches m input ≡ true) ↔ Below sep p input
unfolding split is_meta
matches-subtree_iff p sep m input plain no_newline n h =
    let (to, from) =
      matches-compile_iff (p ++ sep ∷ double_star_segment) sep m input plain no_newline h in
    let parts : split (p ++ sep ∷ double_star_segment) sep
        ≡ split p sep ++ double_star_segment ∷ [] =
      rw (
        split_from-append sep [] p double_star_segment,
        split_from-double_star sep (ground arith),
      ) in
    let (sound, complete) =
      MatchesSegments-subtree sep (split p sep) input (split-ne-nil p sep)
        (split_from-NoAsterisk sep [] p tt n) in
    let back = join-split_from sep [] p in
    (
      λ a.
          subst (λ x. Below sep x input) back
            (sound (subst (λ x. MatchesSegments sep x input) parts (to a))),
      λ u. from (
          subst (λ x. MatchesSegments sep x input) (sym parts)
            (complete (subst (λ x. Below sep x input) (sym back) u))),
    )
