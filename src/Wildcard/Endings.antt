-- ===== src/Wildcard/Endings.antt =====
-- What the compiler writes for `*`, for the end of a pattern and for `**`, read back.
use ghostunnel.Prelude.{
  ℕ, ◌≡◌, refl, ap, ◌∙◌, ◌≢◌, ◌↔◌, ◌⊎◌, inl, inr, false, Option, some, [], ◌∷◌, ◌++◌, arith, Text,
  codes, All,
}
use ghostunnel.Regexp.Syntax.{
  Regex, end_text, lit, not_char, seq, plus, opt, Star, done, more, Run, Accepts,
}
use ghostunnel.Regexp.Parse.{is_meta, Last, item, repeated, concat, step, parse, compile}
use ghostunnel.Wildcard.Pattern.{FitsStar}
use ghostunnel.Wildcard.Reads.{parse-append, parse_plain, at, From, From-seq, Means, Reads}

-- One character of which `Q` holds.
abbrev pub OneChar : (ℕ → Type 0) → Text → Text → Type 0
OneChar Q s t = (c : ℕ) × Q c × (s ≡ c ∷ t)

pub Star-OneChar :
    (Q : ℕ → Type 0) (s u : Text) → Star (OneChar Q) s u → (v : Text) × All Q v × (s ≡ v ++ u)
Star-OneChar Q s u done = ([], tt, refl)
Star-OneChar Q s u (more {t} (c, q, e) rest) =
    let (v, a, k) = Star-OneChar Q t u rest in (c ∷ v, (q, a), e ∙ ap (λ (x : Text). c ∷ x) k)

pub All-Star : (Q : ℕ → Type 0) (v u : Text) → All Q v → Star (OneChar Q) (v ++ u) u
All-Star Q [] u a = done
All-Star Q (c ∷ v) u (q, a) = more (c, q, refl) (All-Star Q v u a)

Means-star :
    (q : Regex) (P : Text → Text → Type 0) (sep : ℕ)
    → Means q P
    → Means (seq q (plus (not_char sep))) (λ w u. (v : Text) × FitsStar sep v × P w (v ++ u))
Means-star q P sep h w u = (to, from)
  where
    to : From w (seq q (plus (not_char sep))) u → (v : Text) × FitsStar sep v × P w (v ++ u)
    to f =
        let (t, k, (t', (c, n, e), rest)) = (From-seq w q (plus (not_char sep)) u).0 f in
        let (v, a, e') = Star-OneChar (λ c. c ≢ sep) t' u rest in
        (c ∷ v, (λ z. cc, (n, a)), rw (e ∙ ap (λ (x : Text). c ∷ x) e') at ((h w t).0 k))

    from : (v : Text) × FitsStar sep v × P w (v ++ u) → From w (seq q (plus (not_char sep))) u
    from ([], (n, a), k) = absurd (n refl)
    from (c ∷ v, (n, (d, a)), k) =
        (From-seq w q (plus (not_char sep)) u).1 (
          c ∷ v ++ u,
          (h w (c ∷ v ++ u)).1 k,
          (v ++ u, (c, d, refl), All-Star (λ c. c ≢ sep) v u a),
        )

parse_star :
    (sep : ℕ) (last : Last) (r : Regex) (x : Option Regex)
    → is_meta sep ≡ false
    → parse (some (at last r x)) (codes "[^" ++ sep ∷ codes "]+")
      ≡ some (at repeated (concat r x) (some (plus (not_char sep))))
unfolding parse step is_meta
parse_star sep last r x h = ground arith

pub Reads-star :
    {P : Text → Text → Type 0} {out : Text} (r : Reads out P) (sep : ℕ)
    → is_meta sep ≡ false
    → Reads
        (out ++ (codes "[^" ++ sep ∷ codes "]+"))
        (λ w u. (v : Text) × FitsStar sep v × P w (v ++ u))
Reads-star {P} r sep h = record {
  last = repeated;
  before = concat r.before r.top;
  top = some (plus (not_char sep));
  parsed = rw (parse-append, r.parsed) (parse_star sep r.last r.before r.top h);
  meaning = Means-star (concat r.before r.top) P sep r.meaning;
}

pub Accepts-From : (w : Text) (r : Regex) → Accepts r w ↔ ((t : Text) × From w r t)
Accepts-From w r = (
  λ a. (a.stop, (a.before, a.start, a.split_at, a.run)),
  λ (t, (p, s, e, k)). record { before = p; start = s; stop = t; split_at = e; run = k },
)

parse_final :
    (sep : ℕ) (last : Last) (r : Regex) (x : Option Regex)
    → is_meta sep ≡ false
    → parse (some (at last r x)) (sep ∷ codes "?$")
      ≡ some (at item (seq (concat r x) (opt (lit sep))) (some end_text))
unfolding parse step
parse_final sep last r x h = rw (parse_plain sep (codes "?$") last r x h)

-- The text compiles, to an expression that accepts the texts `w` with `Q w`.
pub record Compiles (out : Text) (Q : Text → Type 0) : Type 0 where
  pub regex : Regex
  pub compiled : compile out ≡ some regex
  pub accepts : (w : Text) → Accepts regex w ↔ Q w

Run-opt_end :
    (w : Text) (r x : Regex) (P : Text → Type 0)
    → ((t : Text) → From w r t ↔ P t)
    → Accepts (seq (seq r (opt x)) end_text) w ↔ (P [] ⊎ ((t : Text) × P t × Run w x t []))
Run-opt_end w r x P h = (to, from)
  where
    pick : (t : Text) → From w r t → Run w (opt x) t [] → P [] ⊎ ((t : Text) × P t × Run w x t [])
    pick t k (inl e) = inl ((h []).0 (rw e at k))
    pick t k (inr m) = inr (t, (h t).0 k, m)

    to : Accepts (seq (seq r (opt x)) end_text) w → P [] ⊎ ((t : Text) × P t × Run w x t [])
    to a =
        let (u, f) = (Accepts-From w (seq (seq r (opt x)) end_text)).0 a in
        let (t, g, (e, _)) = (From-seq w (seq r (opt x)) end_text u).0 f in
        let (t', k, m) = (From-seq w r (opt x) t).0 g in pick t' k (rw e at m)

    finish : (t : Text) → P t → Run w (opt x) t [] → Accepts (seq (seq r (opt x)) end_text) w
    finish t k m = (Accepts-From w (seq (seq r (opt x)) end_text)).1 (
      [],
      (From-seq w (seq r (opt x)) end_text []).1
          ([], (From-seq w r (opt x) []).1 (t, (h t).1 k, m), (refl, refl)),
    )

    from : P [] ⊎ ((t : Text) × P t × Run w x t []) → Accepts (seq (seq r (opt x)) end_text) w
    from (inl k) = finish [] k (inl refl)
    from (inr (t, k, m)) = finish t k (inr m)

pub Compiles-final :
    {P : Text → Text → Type 0} {out : Text} (r : Reads out P) (sep : ℕ)
    → is_meta sep ≡ false
    → Compiles (out ++ sep ∷ codes "?$") (λ w. P w [] ⊎ P w (sep ∷ []))
unfolding compile
Compiles-final {P} r sep h = record {
  regex = seq (seq (concat r.before r.top) (opt (lit sep))) end_text;
  compiled = rw (parse-append, r.parsed, parse_final sep r.last r.before r.top h);
  accepts = λ w. (
    λ a. elim ((Run-opt_end w (concat r.before r.top) (lit sep) (P w) (r.meaning w)).0 a) [
      | inl k ↦ inl k
      | inr (t, k, e) ↦ inr (rw e at k)
    ],
    λ k.
        (Run-opt_end w (concat r.before r.top) (lit sep) (P w) (r.meaning w)).1
          (elim k [ inl k ↦ inl k | inr k ↦ inr (sep ∷ [], k, refl) ]),
  );
}
