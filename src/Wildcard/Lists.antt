-- ===== src/Wildcard/Lists.antt =====
-- `CompileList`: the matchers of a list of patterns, in order.
use ghostunnel.Prelude.{
  ◌≡◌, refl, sym, subst, ◌∙◌, ◌↔◌, inl, inr, true, List, [], ◌∷◌, ◌++◌, append_assoc, append-nil,
  Text, In, any, any_iff, ok, ok-injective, >>=-eq-ok, split,
}
use ghostunnel.Wildcard.Compile.{
  Matcher, default_separator, compile, compile_list_from, compile_list, matches,
}
use ghostunnel.Wildcard.Pattern.{MatchesSegments}
use ghostunnel.Wildcard.Correct.{matches-compile_iff}
use ghostunnel.Regexp.Parse.{is_meta}

-- The patterns and their matchers, one by one.
abbrev pub Compiled : List Text → List Matcher → Type 0
Compiled [] [] = Unit
Compiled (p ∷ ps) (m ∷ ms) = (compile p ≡ ok m) × Compiled ps ms
Compiled [] (_ ∷ _) = ⊥
Compiled (_ ∷ _) [] = ⊥

compile_list_from-Compiled :
    (ms : List Matcher) (ps : List Text) (r : List Matcher)
    → compile_list_from ms ps ≡ ok r
    → (rs : List Matcher) × (r ≡ ms ++ rs) × Compiled ps rs
unfolding compile_list_from
compile_list_from-Compiled ms [] r h = ([], sym (ok-injective h) ∙ sym (append-nil ms), tt)
compile_list_from-Compiled ms (p ∷ ps) r h =
    let (m, c, k) = >>=-eq-ok _ _ h in
    let (rs, e, d) = compile_list_from-Compiled (ms ++ m ∷ []) ps r k in
    (m ∷ rs, e ∙ append_assoc ms (m ∷ []) rs, (c, d))

pub compile_list-Compiled :
    (ps : List Text) (ms : List Matcher) → compile_list ps ≡ ok ms → Compiled ps ms
unfolding compile_list
compile_list-Compiled ps ms h =
    let (rs, e, c) = compile_list_from-Compiled [] ps ms h in subst (Compiled ps) (sym e) c

matches-default_iff :
    (p : Text) (m : Matcher) (input : Text)
    → compile p ≡ ok m
    → (matches m input ≡ true) ↔ MatchesSegments default_separator (split p default_separator) input
unfolding compile is_meta
matches-default_iff p m input h = matches-compile_iff p default_separator m input refl (λ e. cc) h

-- A pattern of the list that means the input.
abbrev pub SomeMatches : List Text → Text → Type 0
SomeMatches ps input =
    (p : Text) × In p ps × MatchesSegments default_separator (split p default_separator) input

pub any-Compiled_sound :
    (ps : List Text) (ms : List Matcher) (input : Text)
    → Compiled ps ms
    → (m : Matcher) → In m ms
    → matches m input ≡ true
    → SomeMatches ps input
any-Compiled_sound [] (_ ∷ _) input c m i h = absurd c
any-Compiled_sound [] [] input c m i h = absurd i
any-Compiled_sound (_ ∷ _) [] input c m i h = absurd c
any-Compiled_sound (p ∷ ps) (m' ∷ ms) input (c, d) m (inl e) h =
    (p, inl refl, (matches-default_iff p m' input c).0 (subst (λ x. matches x input ≡ true) e h))
any-Compiled_sound (p ∷ ps) (m' ∷ ms) input (c, d) m (inr i) h =
    let (q, j, k) = any-Compiled_sound ps ms input d m i h in (q, inr j, k)

pub any-Compiled_complete :
    (ps : List Text) (ms : List Matcher) (input : Text)
    → Compiled ps ms
    → SomeMatches ps input
    → (m : Matcher) × In m ms × (matches m input ≡ true)
any-Compiled_complete [] ms input c (p, i, k) = absurd i
any-Compiled_complete (_ ∷ _) [] input c s = absurd c
any-Compiled_complete (q ∷ ps) (m ∷ ms) input (c, d) (p, inl e, k) = (
  m,
  inl refl,
  (matches-default_iff q m input c).1
      (subst (λ x. MatchesSegments default_separator (split x default_separator) input) e k),
)
any-Compiled_complete (q ∷ ps) (m ∷ ms) input (c, d) (p, inr i, k) =
    let (m', j, h) = any-Compiled_complete ps ms input d (p, i, k) in (m', inr j, h)

-- Some matcher of a compiled list accepts an input exactly if some pattern of the list means it.
pub any-compile_list_iff :
    (ps : List Text) (ms : List Matcher) (input : Text)
    → compile_list ps ≡ ok ms
    → (any (λ m. matches m input) ms ≡ true) ↔ SomeMatches ps input
any-compile_list_iff ps ms input h =
    let c = compile_list-Compiled ps ms h in
    (
      λ a.
          let (m, i, k) = (any_iff (λ m. matches m input) ms).0 a in
          any-Compiled_sound ps ms input c m i k,
      λ s. (any_iff (λ m. matches m input) ms).1 (any-Compiled_complete ps ms input c s),
    )
