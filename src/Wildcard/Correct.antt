-- ===== src/Wildcard/Correct.antt =====
-- The compiled expression accepts exactly what the pattern means.
use ghostunnel.Prelude.{
  ℕ, suc, ◌+◌, ◌-◌, ◌≡◌, refl, sym, ap, subst, ◌∙◌, ◌≢◌, ◌↔◌, ◌⊎◌, inl, inr, Bool, true, false,
  Bool-cases, Option, none, some, List, [], ◌∷◌, ◌++◌, map, arith, ◌==◌, length, append_assoc, Text,
  codes, text_eq, All, ok, >>=-eq-ok, ok-injective, split, split_from,
}
use ghostunnel.Regexp.Syntax.{Regex, newline}
use ghostunnel.Regexp.Parse
use ghostunnel.Regexp.Parse.{is_meta, quote_meta}
use ghostunnel.Regexp.Engine.Laws.{match_iff}
use ghostunnel.Wildcard.Compile.{
  Matcher, star_segment, double_star_segment, write_segment, write_separator, write_segments,
  compiled, compile_with_separator, matches,
}
use ghostunnel.Wildcard.Pattern.{
  Segment, literal, one_star, double_star, segment_of, FitsStar, Follows, MatchesSegments,
}
use ghostunnel.Wildcard.Reads.{Reads, Reads-lit, Reads-quote, Reads-begin}
use ghostunnel.Wildcard.Endings.{Reads-star, Compiles, Compiles-final}
use ghostunnel.Wildcard.DoubleStar.{Compiles-double_star, Compiles-only_double_star}

-- What `write_segment` did.
data Wrote (sep : ℕ) (is_last : Bool) (s out written : Text) (leave : Bool) : Type 0 where
  wrote_star :
      segment_of s ≡ one_star
      → leave ≡ false
      → written ≡ out ++ (codes "[^" ++ sep ∷ codes "]+")
      → Wrote sep is_last s out written leave
  wrote_double_star :
      segment_of s ≡ double_star
      → leave ≡ true
      → is_last ≡ true
      → written ≡ out ++ (codes "?(|" ++ sep ∷ codes ".*)$")
      → Wrote sep is_last s out written leave
  wrote_literal :
      segment_of s ≡ literal s
      → leave ≡ false
      → written ≡ out ++ quote_meta s
      → Wrote sep is_last s out written leave

write_segment-Wrote :
    (sep : ℕ) (is_last : Bool) (s out written : Text) (leave : Bool)
    → write_segment sep is_last s out ≡ ok (written, leave)
    → Wrote sep is_last s out written leave
unfolding write_segment segment_of
write_segment-Wrote sep is_last s out written leave h = elim (Bool-cases (text_eq s star_segment)) [
  | inl e ↦ wrote_star (rw e) (ground arith) (ground arith)
  | inr e ↦ elim (Bool-cases (text_eq s double_star_segment)) [
    | inl d ↦ wrote_double_star (rw (e, d)) (ground arith) (ground arith) (ground arith)
    | inr d ↦ wrote_literal (rw (e, d)) (ground arith) (ground arith)
  ]
]

Reads-path : {out out' : Text} {P : Text → Text → Type 0} → out' ≡ out → Reads out P → Reads out' P
Reads-path e r = rw e r

Compiles-iff :
    {out out' : Text} {Q Q' : Text → Type 0}
    → Compiles out Q
    → out' ≡ out
    → ((w : Text) → Q w ↔ Q' w)
    → Compiles out' Q'
Compiles-iff c e h = record {
  regex = c.regex;
  compiled = rw e c.compiled;
  accepts = λ w. (λ a. (h w).0 ((c.accepts w).0 a), λ k. (c.accepts w).1 ((h w).1 k));
}

-- What the rest of a pattern adds to a prefix that leaves `t` exactly if `P t`.
abbrev Rest : ℕ → (Text → Type 0) → List Segment → Type 0
Rest sep P segments = (t : Text) × P t × Follows sep segments t

Rest-end : (sep : ℕ) (P : Text → Type 0) → (P [] ⊎ P (sep ∷ [])) ↔ Rest sep P []
Rest-end sep P = (to, from)
  where
    to : P [] ⊎ P (sep ∷ []) → Rest sep P []
    to (inl k) = ([], k, inl refl)
    to (inr k) = (sep ∷ [], k, inr refl)

    from : Rest sep P [] → P [] ⊎ P (sep ∷ [])
    from (t, k, inl e) = inl (subst P e k)
    from (t, k, inr e) = inr (subst P e k)

Rest-star :
    (sep : ℕ) (P : Text → Type 0) (s : Segment) (segments : List Segment)
    → s ≡ one_star
    → Rest sep (λ u. (v : Text) × FitsStar sep v × P (sep ∷ (v ++ u))) segments
      ↔ Rest sep P (s ∷ segments)
Rest-star sep P s segments e = rw e (
  λ (t, (v, f, k), m). (sep ∷ (v ++ t), k, (v, t, refl, f, m)),
  λ (t, k, (v, u, q, f, m)). (u, (v, f, subst P q k), m),
)

Rest-literal :
    (sep : ℕ) (P : Text → Type 0) (s : Segment) (q : Text) (segments : List Segment)
    → s ≡ literal q
    → Rest sep (λ u. P (sep ∷ (q ++ u))) segments ↔ Rest sep P (s ∷ segments)
Rest-literal sep P s q segments e =
    rw e (λ (t, k, m). (sep ∷ (q ++ t), k, (t, refl, m)), λ (t, k, (v, p, m)). (v, subst P p k, m))

Rest-double_star :
    (sep : ℕ) (P : Text → Type 0) (s : Segment) (segments : List Segment)
    → s ≡ double_star
    → ((t : Text) × P t × ((t ≡ []) ⊎ ((v : Text) × (t ≡ sep ∷ v) × All (λ c. c ≢ newline) v)))
      ↔ Rest sep P (s ∷ segments)
Rest-double_star sep P s segments e = rw e (λ x. x, λ x. x)

module _ (sep : ℕ) (plain : is_meta sep ≡ false) (no_newline : sep ≢ newline) (n : ℕ) where
  after_segment :
      (i : ℕ) (rest : List Text) (P : Text → Text → Type 0) (out text : Text)
      → n ≡ suc (i + length rest)
      → Reads out P
      → write_segments sep n (i + 1) rest (write_separator sep (i == n - 1) out) ≡ ok text
      → Compiles text (λ w. Rest sep (P w) (map segment_of rest))
  unfolding write_segments
  after_segment i [] P out text e r h =
      Compiles-iff (Compiles-final r sep plain) (ground arith) (λ w. Rest-end sep (P w))
  after_segment i (s ∷ rest) P out text e r h =
      let mid : (i == n - 1) ≡ false = ground arith in
      let h' = rw mid at h in
      let ((written, leave), wrote, k) = >>=-eq-ok _ _ h' in
      elim (write_segment-Wrote sep (i + 1 == n - 1) s (out ++ sep ∷ []) written leave wrote) [
        | wrote_star c l q ↦
            Compiles-iff
              (after_segment (i + 1) rest
                (λ w u. (v : Text) × FitsStar sep v × P w (sep ∷ (v ++ u))) written text
                (omega arith) (Reads-path q (Reads-star (Reads-lit r sep plain) sep plain))
                (rw l at k))
              refl (λ w. Rest-star sep (P w) (segment_of s) (map segment_of rest) c)
        | wrote_double_star c l b q ↦
            Compiles-iff (Compiles-double_star r sep plain no_newline)
              (sym (ok-injective (rw l at k)) ∙ q ∙ append_assoc out (sep ∷ []) _)
              (λ w. Rest-double_star sep (P w) (segment_of s) (map segment_of rest) c)
        | wrote_literal c l q ↦
            Compiles-iff
              (after_segment (i + 1) rest (λ w u. P w (sep ∷ (s ++ u))) written text (omega arith)
                (Reads-path q (Reads-quote (Reads-lit r sep plain) s)) (rw l at k))
              refl (λ w. Rest-literal sep (P w) (segment_of s) s (map segment_of rest) c)
      ]

  pub all_segments :
      (segments : List Text) (text : Text)
      → n ≡ length segments
      → segments ≢ []
      → write_segments sep n 0 segments (codes "^") ≡ ok text
      → Compiles text (MatchesSegments sep segments)
  unfolding write_segments
  all_segments [] text e ne h = absurd (ne refl)
  all_segments (s ∷ rest) text e ne h =
      let ((written, leave), wrote, k) = >>=-eq-ok _ _ h in
      elim (write_segment-Wrote sep (0 == n - 1) s (codes "^") written leave wrote) [
        | wrote_star c l q ↦
            Compiles-iff
              (after_segment 0 rest (λ w u. (v : Text) × FitsStar sep v × (w ≡ v ++ u)) written text
                (omega arith) (Reads-path q (Reads-star Reads-begin sep plain)) (rw l at k))
              refl
              (λ w.
                rw c (λ (t, (v, f, d), m). (v, t, d, f, m), λ (v, t, d, f, m). (t, (v, f, d), m)))
        | wrote_double_star c l b q ↦
            Compiles-iff (Compiles-only_double_star sep plain) (sym (ok-injective (rw l at k)) ∙ q)
              (λ w. rw c (λ x. x, λ x. x))
        | wrote_literal c l q ↦
            Compiles-iff
              (after_segment 0 rest (λ w u. w ≡ s ++ u) written text (omega arith)
                (Reads-path q (Reads-quote Reads-begin s)) (rw l at k))
              refl (λ w. rw c (λ x. x, λ x. x))
      ]

split_from-ne-nil : (sep : ℕ) (cur s : Text) → split_from sep cur s ≢ []
unfolding split_from
split_from-ne-nil sep cur [] = cc
split_from-ne-nil sep cur (c ∷ s) = ground (arith, split_from-ne-nil sep (cur ++ c ∷ []) s)

pub split-ne-nil : (s : Text) (sep : ℕ) → split s sep ≢ []
unfolding split
split-ne-nil s sep = split_from-ne-nil sep [] s

compiled-eq-ok : (o : Option Regex) (m : Matcher) → compiled o ≡ ok m → o ≡ some m.pattern
compiled-eq-ok none m h = cc
compiled-eq-ok (some r) m h = ap some (ap (λ (x : Matcher). x.pattern) (ok-injective h))

-- The two halves of a successful compilation.
pub compile_with_separator-eq-ok :
    (pattern : Text) (sep : ℕ) (m : Matcher)
    → compile_with_separator pattern sep ≡ ok m
    → (text : Text) × (write_segments sep
          (length (split pattern sep))
          0
          (split pattern sep)
          (codes "^")
        ≡ ok text)
      × (Parse.compile text ≡ some m.pattern)
unfolding compile_with_separator
compile_with_separator-eq-ok pattern sep m h = elim (Bool-cases (text_eq pattern [])) [
  | inl e ↦ absurd (cc (rw e at h))
  | inr e ↦
      let (text, w, k) = >>=-eq-ok _ _ (rw e at h) in
      (text, w, compiled-eq-ok (Parse.compile text) m k)
]

-- A compiled pattern accepts an input exactly if the pattern, taken segment by segment, matches
-- it. The separator is neither a character that `QuoteMeta` escapes nor the line feed.
pub matches-compile_iff :
    (pattern : Text) (sep : ℕ) (m : Matcher) (input : Text)
    → is_meta sep ≡ false
    → sep ≢ newline
    → compile_with_separator pattern sep ≡ ok m
    → (matches m input ≡ true) ↔ MatchesSegments sep (split pattern sep) input
unfolding matches
matches-compile_iff pattern sep m input plain no_newline h =
    let (text, w, k) = compile_with_separator-eq-ok pattern sep m h in
    let c =
      all_segments sep plain no_newline (length (split pattern sep)) (split pattern sep) text refl
        (split-ne-nil pattern sep) w in
    let same : m.pattern ≡ c.regex = cc (k, c.compiled) in
    (
      λ a. (c.accepts input).0 (rw same at ((match_iff m.pattern input).0 a)),
      λ a. (match_iff m.pattern input).1 (rw same ((c.accepts input).1 a)),
    )
