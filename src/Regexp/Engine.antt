-- ===== src/Regexp/Engine.antt =====
-- An executable matcher: the suffixes at which a match can stop, and its agreement with `Run`.
pub mod Laws
use ghostunnel.Prelude.{
  ℕ, zero, suc, ◌≤◌, ◌<◌, ◌≡◌, refl, sym, ap, ◌≢◌, ◌↔◌, ◌⊎◌, inl, inr, Bool, true, false, not, List,
  [], ◌∷◌, ◌++◌, arith, ◌==◌, if◌then◌else◌, Bool-cases, Text, text_eq, text_eq_iff, length, In,
  In-append_left, In-append_right, In-append_inv, flat_map, In-flat_map, In-flat_map_inv, any,
  any_sound, any_complete,
}
use ghostunnel.Regexp.Syntax.{
  Regex, eps, begin_text, end_text, any_not_nl, lit, not_char, seq, alt, star, plus, opt, newline,
  Star, done, more, Run, Accepts,
}

-- At most `fuel` rounds of `f`.
rounds : (Text → List Text) → ℕ → Text → List Text
rounds f zero s = s ∷ []
rounds f (suc n) s = s ∷ flat_map (rounds f n) (f s)

one_char : (ℕ → Bool) → Text → List Text
one_char p [] = []
one_char p (c ∷ s) = if p c then s ∷ [] else []

-- Each round of a star that reads something shortens the text, so its length bounds the rounds.
unfoldable pub stops : Text → Regex → Text → List Text
unfolding rounds one_char text_eq
stops w eps s = s ∷ []
stops w begin_text s = if text_eq s w then s ∷ [] else []
stops w end_text s = if text_eq s [] then s ∷ [] else []
stops w any_not_nl s = one_char (λ c. not (c == newline)) s
stops w (lit d) s = one_char (λ c. c == d) s
stops w (not_char d) s = one_char (λ c. not (c == d)) s
stops w (seq r q) s = flat_map (stops w q) (stops w r s)
stops w (alt r q) s = stops w r s ++ stops w q s
stops w (star r) s = rounds (stops w r) (length s) s
stops w (plus r) s = flat_map (λ t. rounds (stops w r) (length t) t) (stops w r s)
stops w (opt r) s = s ∷ stops w r s

suffixes : Text → List Text
suffixes [] = [] ∷ []
suffixes (c ∷ s) = (c ∷ s) ∷ suffixes s

non_empty : List Text → Bool
non_empty [] = false
non_empty (_ ∷ _) = true

-- `Regexp.Match`
unfoldable pub match : Regex → Text → Bool
unfolding stops suffixes non_empty
match r w = any (λ s. non_empty (stops w r s)) (suffixes w)

abbrev Shrinks : Text → Text → Type 0
Shrinks s t = (t ≡ s) ⊎ (length t < length s)

Shrinks-trans : (s t u : Text) → Shrinks s t → Shrinks t u → Shrinks s u
Shrinks-trans s t u (inl e) h = rw (← e) h
Shrinks-trans s t u (inr l) (inl e) = inr (rw e l)
Shrinks-trans s t u (inr l) (inr k) = inr (omega arith)

Star-Shrinks :
    (R : Text → Text → Type 0)
    → ((s t : Text) → R s t → Shrinks s t)
    → (s t : Text) → Star R s t
    → Shrinks s t
Star-Shrinks R h s t done = inl refl
Star-Shrinks R h s u (more {t} x rest) = Shrinks-trans s t u (h s t x) (Star-Shrinks R h t u rest)

Shrinks-cons : (c : ℕ) (s t : Text) → s ≡ c ∷ t → Shrinks s t
Shrinks-cons c s t e = inr (rw e (omega arith))

Run-Shrinks : (w : Text) (r : Regex) (s t : Text) → Run w r s t → Shrinks s t
Run-Shrinks w eps s t h = inl (sym h)
Run-Shrinks w begin_text s t h = inl (sym h.1)
Run-Shrinks w end_text s t h = inl (sym h.1)
Run-Shrinks w any_not_nl s t (c, _, e) = Shrinks-cons c s t e
Run-Shrinks w (lit c) s t e = Shrinks-cons c s t e
Run-Shrinks w (not_char d) s t (c, _, e) = Shrinks-cons c s t e
Run-Shrinks w (seq r q) s u (t, h, k) =
    Shrinks-trans s t u (Run-Shrinks w r s t h) (Run-Shrinks w q t u k)
Run-Shrinks w (alt r q) s t (inl h) = Run-Shrinks w r s t h
Run-Shrinks w (alt r q) s t (inr h) = Run-Shrinks w q s t h
Run-Shrinks w (star r) s t h = Star-Shrinks (Run w r) (Run-Shrinks w r) s t h
Run-Shrinks w (plus r) s u (t, h, k) =
    Shrinks-trans s t u (Run-Shrinks w r s t h) (Star-Shrinks (Run w r) (Run-Shrinks w r) t u k)
Run-Shrinks w (opt r) s t (inl e) = inl (sym e)
Run-Shrinks w (opt r) s t (inr h) = Run-Shrinks w r s t h

-- One round, given by a list `f s` that lists what `R s` reaches.
module _ (R : Text → Text → Type 0) (f : Text → List Text) where
  rounds_sound :
      ((s t : Text) → In t (f s) → R s t) → (n : ℕ) (s t : Text) → In t (rounds f n s) → Star R s t
  unfolding rounds
  rounds_sound h zero s t (inl e) = rw e done
  rounds_sound h zero s t (inr m) = absurd m
  rounds_sound h (suc n) s t (inl e) = rw e done
  rounds_sound h (suc n) s t (inr m) =
      let (u, k, l) = In-flat_map_inv (rounds f n) (f s) t m in
      more (h s u k) (rounds_sound h n u t l)

  In-rounds_self : (n : ℕ) (s : Text) → In s (rounds f n s)
  unfolding rounds
  In-rounds_self zero s = inl refl
  In-rounds_self (suc n) s = inl refl

  rounds_complete :
      ((s t : Text) → R s t → In t (f s))
      → ((s t : Text) → R s t → Shrinks s t)
      → (s t : Text) → Star R s t
      → (n : ℕ) → length s ≤ n
      → In t (rounds f n s)
  unfolding rounds
  rounds_complete h k s t done n l = In-rounds_self n s
  rounds_complete h k s u (more {t} x rest) n l = elim (k s t x) [
    | inl e ↦ rw (← e) (rounds_complete h k t u rest n (rw e l))
    | inr lt ↦ more_rounds n l lt (rounds_complete h k t u rest)
  ]
    where
      more_rounds :
          (n : ℕ)
          → length s ≤ n
          → length t < length s
          → ((n : ℕ) → length t ≤ n → In u (rounds f n t))
          → In u (rounds f n s)
      more_rounds zero l lt ih = absurd (omega arith)
      more_rounds (suc n) l lt ih =
          inr (In-flat_map (rounds f n) (f s) t u (h s t x) (ih n (omega arith)))
