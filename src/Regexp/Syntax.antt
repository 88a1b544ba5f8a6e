-- ===== src/Regexp/Syntax.antt =====
-- Regular expressions as `regexp/syntax` parses them, and the texts that they match.
use ghostunnel.Prelude.{ℕ, ◌≡◌, ◌≢◌, ◌⊎◌, [], ◌∷◌, ◌++◌, Text}

pub data Regex : Type 0 where
  eps begin_text end_text any_not_nl : Regex
  lit : ℕ → Regex
  not_char : ℕ → Regex
  seq : Regex → Regex → Regex
  alt : Regex → Regex → Regex
  star : Regex → Regex
  plus : Regex → Regex
  opt : Regex → Regex

abbrev pub newline : ℕ
newline = 10

-- Any number of steps of `R`.
pub data Star (R : Text → Text → Type 0) : Text → Text → Type 0 where
  done : {s : Text} → Star R s s
  more : {s t u : Text} → R s t → Star R t u → Star R s u

-- Inside the text `w`, from the suffix `s` of `w` that is still unread, `r` can match what lies
-- between `s` and the suffix `t`.
abbrev pub Run : Text → Regex → Text → Text → Type 0
Run w eps s t = s ≡ t
Run w begin_text s t = (s ≡ w) × (s ≡ t)
Run w end_text s t = (s ≡ []) × (s ≡ t)
Run w any_not_nl s t = (c : ℕ) × (c ≢ newline) × (s ≡ c ∷ t)
Run w (lit c) s t = s ≡ c ∷ t
Run w (not_char c) s t = (d : ℕ) × (d ≢ c) × (s ≡ d ∷ t)
Run w (seq r q) s u = (t : Text) × Run w r s t × Run w q t u
Run w (alt r q) s t = Run w r s t ⊎ Run w q s t
Run w (star r) s t = Star (Run w r) s t
Run w (plus r) s u = (t : Text) × Run w r s t × Star (Run w r) t u
Run w (opt r) s t = (s ≡ t) ⊎ Run w r s t

-- `Regexp.Match`: a match may begin and end anywhere.
pub record Accepts (r : Regex) (w : Text) : Type 0 where
  pub before : Text
  pub start : Text
  pub stop : Text
  pub split_at : w ≡ before ++ start
  pub run : Run w r start stop
