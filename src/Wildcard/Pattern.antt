-- ===== src/Wildcard/Pattern.antt =====
-- What a pattern means, with no regular expression in it.
use ghostunnel.Prelude.{
  ℕ, ◌≡◌, ◌≢◌, ◌⊎◌, List, [], ◌∷◌, ◌++◌, if◌then◌else◌, Text, text_eq, All, map,
}
use ghostunnel.Regexp.Syntax.{newline}
use ghostunnel.Wildcard.Compile.{asterisk, star_segment, double_star_segment}

pub data Segment : Type 0 where
  literal : Text → Segment
  one_star double_star : Segment

unfoldable pub segment_of : Text → Segment
segment_of s =
    if text_eq s star_segment
    then one_star
    else if text_eq s double_star_segment
    then double_star
    else literal s

-- `*` stands for a text that is not empty and does not contain the separator.
abbrev pub FitsStar : ℕ → Text → Type 0
FitsStar sep u = (u ≢ []) × All (λ c. c ≢ sep) u

-- What may follow a segment of the text, by the segments that are left of the pattern: nothing or
-- a final separator at the end; nothing or a separator and any line at a final `**`; a separator
-- and a segment that fits otherwise.
abbrev pub Follows : ℕ → List Segment → Text → Type 0
Follows sep [] t = (t ≡ []) ⊎ (t ≡ sep ∷ [])
Follows sep (double_star ∷ _) t = (t ≡ []) ⊎ ((v : Text) × (t ≡ sep ∷ v) × All (λ c. c ≢ newline) v)
Follows sep (literal s ∷ segments) t = (v : Text) × (t ≡ sep ∷ (s ++ v)) × Follows sep segments v
Follows sep (one_star ∷ segments) t =
    (u v : Text) × (t ≡ sep ∷ (u ++ v)) × FitsStar sep u × Follows sep segments v

abbrev pub MatchesFrom : ℕ → List Segment → Text → Type 0
MatchesFrom sep [] w = ⊥
MatchesFrom sep (double_star ∷ _) w = Unit
MatchesFrom sep (literal s ∷ segments) w = (t : Text) × (w ≡ s ++ t) × Follows sep segments t
MatchesFrom sep (one_star ∷ segments) w =
    (u t : Text) × (w ≡ u ++ t) × FitsStar sep u × Follows sep segments t

abbrev pub MatchesSegments : ℕ → List Text → Text → Type 0
MatchesSegments sep segments w = MatchesFrom sep (map segment_of segments) w

abbrev pub NoAsterisk : Text → Type 0
NoAsterisk s = All (λ c. c ≢ asterisk) s

abbrev pub IsPlainSegment : Text → Type 0
IsPlainSegment s = (s ≡ star_segment) ⊎ NoAsterisk s

-- `*` fills a segment alone, and `**` is the last segment if it is one.
abbrev pub IsWellFormed : List Text → Type 0
IsWellFormed [] = Unit
IsWellFormed (s ∷ []) = IsPlainSegment s ⊎ (s ≡ double_star_segment)
IsWellFormed (s ∷ t ∷ segments) = IsPlainSegment s × IsWellFormed (t ∷ segments)
