-- ===== src/Regexp/Engine/Laws.antt =====
-- `match` answers true exactly on the texts that the expression matches somewhere.
use ghostunnel.Prelude.{
  ℕ, ◌≡◌, refl, sym, ap, ◌↔◌, inl, inr, Bool, true, false, not, List, [], ◌∷◌, ◌++◌, arith, ◌==◌,
  if◌then◌else◌, Bool-cases, Text, text_eq, text_eq_iff, length, In, In-append_left,
  In-append_right, In-append_inv, In-flat_map, In-flat_map_inv, any_sound, any_complete,
}
use ghostunnel.Regexp.Syntax.{
  Regex, eps, begin_text, end_text, any_not_nl, lit, not_char, seq, alt, star, plus, opt, newline,
  Run, Accepts,
}
use ghostunnel.Regexp.Engine.{
  rounds, one_char, stops, suffixes, non_empty, match, Run-Shrinks, rounds_sound, rounds_complete,
}

one_char_sound :
    (p : ℕ → Bool) (s t : Text) → In t (one_char p s) → (c : ℕ) × (p c ≡ true) × (s ≡ c ∷ t)
unfolding one_char
one_char_sound p [] t m = absurd m
one_char_sound p (c ∷ s) t m = elim (Bool-cases (p c)) [
  | inl e ↦ (c, e, elim (rw e at m) [ inl q ↦ ap (λ (x : Text). c ∷ x) (sym q) | inr n ↦ absurd n ])
  | inr e ↦ absurd (rw e at m)
]

one_char_complete :
    (p : ℕ → Bool) (c : ℕ) (s t : Text) → p c ≡ true → s ≡ c ∷ t → In t (one_char p s)
unfolding one_char
one_char_complete p c s t h e = rw (e, h) (inl refl)

if_self_sound : (b : Bool) (s t : Text) → In t (if b then s ∷ [] else []) → (b ≡ true) × (s ≡ t)
if_self_sound true s t (inl e) = (refl, sym e)
if_self_sound true s t (inr m) = absurd m
if_self_sound false s t m = absurd m

if_self_complete : (b : Bool) (s t : Text) → b ≡ true → s ≡ t → In t (if b then s ∷ [] else [])
if_self_complete true s t h e = inl (sym e)
if_self_complete false s t h e = cc

pub stops_sound : (w : Text) (r : Regex) (s t : Text) → In t (stops w r s) → Run w r s t
unfolding stops
stops_sound w eps s t (inl e) = sym e
stops_sound w eps s t (inr m) = absurd m
stops_sound w begin_text s t m =
    let (h, e) = if_self_sound (text_eq s w) s t m in ((text_eq_iff s w).0 h, e)
stops_sound w end_text s t m =
    let (h, e) = if_self_sound (text_eq s []) s t m in ((text_eq_iff s []).0 h, e)
stops_sound w any_not_nl s t m =
    let (c, h, e) = one_char_sound (λ c. not (c == newline)) s t m in (c, ground arith, e)
stops_sound w (lit d) s t m =
    let (c, h, e) = one_char_sound (λ c. c == d) s t m in
    let same : c ≡ d = ground arith in rw (← same) e
stops_sound w (not_char d) s t m =
    let (c, h, e) = one_char_sound (λ c. not (c == d)) s t m in (c, ground arith, e)
stops_sound w (seq r q) s u m =
    let (t, k, l) = In-flat_map_inv (stops w q) (stops w r s) u m in
    (t, stops_sound w r s t k, stops_sound w q t u l)
stops_sound w (alt r q) s t m = elim (In-append_inv t (stops w r s) (stops w q s) m) [
  | inl l ↦ inl (stops_sound w r s t l)
  | inr l ↦ inr (stops_sound w q s t l)
]
stops_sound w (star r) s t m = rounds_sound (Run w r) (stops w r) (stops_sound w r) (length s) s t m
stops_sound w (plus r) s u m =
    let (t, k, l) = In-flat_map_inv (λ t. rounds (stops w r) (length t) t) (stops w r s) u m in
    (
      t,
      stops_sound w r s t k,
      rounds_sound (Run w r) (stops w r) (stops_sound w r) (length t) t u l,
    )
stops_sound w (opt r) s t (inl e) = inl (sym e)
stops_sound w (opt r) s t (inr m) = inr (stops_sound w r s t m)

pub stops_complete : (w : Text) (r : Regex) (s t : Text) → Run w r s t → In t (stops w r s)
unfolding stops
stops_complete w eps s t e = inl (sym e)
stops_complete w begin_text s t (h, e) = if_self_complete _ s t ((text_eq_iff s w).1 h) e
stops_complete w end_text s t (h, e) = if_self_complete _ s t ((text_eq_iff s []).1 h) e
stops_complete w any_not_nl s t (c, h, e) = one_char_complete _ c s t (ground arith) e
stops_complete w (lit d) s t e = one_char_complete _ d s t (ground arith) e
stops_complete w (not_char d) s t (c, h, e) = one_char_complete _ c s t (ground arith) e
stops_complete w (seq r q) s u (t, h, k) =
    In-flat_map (stops w q) (stops w r s) t u (stops_complete w r s t h) (stops_complete w q t u k)
stops_complete w (alt r q) s t (inl h) =
    In-append_left t (stops w r s) (stops w q s) (stops_complete w r s t h)
stops_complete w (alt r q) s t (inr h) =
    In-append_right t (stops w r s) (stops w q s) (stops_complete w q s t h)
stops_complete w (star r) s t h =
    rounds_complete (Run w r) (stops w r) (stops_complete w r) (Run-Shrinks w r) s t h (length s)
      (omega arith)
stops_complete w (plus r) s u (t, h, k) =
    In-flat_map (λ t. rounds (stops w r) (length t) t) (stops w r s) t u (stops_complete w r s t h)
      (rounds_complete (Run w r) (stops w r) (stops_complete w r) (Run-Shrinks w r) t u k (length t)
        (omega arith))
stops_complete w (opt r) s t (inl e) = inl (sym e)
stops_complete w (opt r) s t (inr h) = inr (stops_complete w r s t h)

suffixes_sound : (w s : Text) → In s (suffixes w) → (p : Text) × (w ≡ p ++ s)
unfolding suffixes
suffixes_sound [] s (inl e) = ([], sym e)
suffixes_sound [] s (inr m) = absurd m
suffixes_sound (c ∷ w) s (inl e) = ([], sym e)
suffixes_sound (c ∷ w) s (inr m) =
    let (p, e) = suffixes_sound w s m in (c ∷ p, ap (λ (x : Text). c ∷ x) e)

suffixes_complete : (p s : Text) → In s (suffixes (p ++ s))
unfolding suffixes
suffixes_complete [] [] = inl refl
suffixes_complete [] (c ∷ s) = inl refl
suffixes_complete (c ∷ p) s = inr (suffixes_complete p s)

non_empty_sound : (l : List Text) → non_empty l ≡ true → (t : Text) × In t l
unfolding non_empty
non_empty_sound [] h = cc
non_empty_sound (t ∷ l) h = (t, inl refl)

non_empty_complete : (l : List Text) (t : Text) → In t l → non_empty l ≡ true
unfolding non_empty
non_empty_complete [] t m = absurd m
non_empty_complete (u ∷ l) t m = refl

match_sound : (r : Regex) (w : Text) → match r w ≡ true → Accepts r w
unfolding match
match_sound r w h =
    let (s, m, n) = any_sound (λ s. non_empty (stops w r s)) (suffixes w) h in
    let (p, e) = suffixes_sound w s m in
    let (t, k) = non_empty_sound (stops w r s) n in
    record { before = p; start = s; stop = t; split_at = e; run = stops_sound w r s t k }

match_complete : (r : Regex) (w : Text) → Accepts r w → match r w ≡ true
unfolding match
match_complete r w a =
    any_complete (λ s. non_empty (stops w r s)) (suffixes w) a.start
      (rw a.split_at (suffixes_complete a.before a.start))
      (non_empty_complete _ a.stop (stops_complete w r a.start a.stop a.run))

-- The executable matcher answers true exactly if some stretch of the text is matched.
pub match_iff : (r : Regex) (w : Text) → (match r w ≡ true) ↔ Accepts r w
match_iff r w = (match_sound r w, match_complete r w)
