-- ===== src/Wildcard/DoubleStar.antt =====
-- What the compiler writes for a final `**`, read back.
use ghostunnel.Prelude.{
  ℕ, ◌≡◌, refl, sym, ap, subst, ◌∙◌, ◌≢◌, ◌↔◌, ◌⊎◌, inl, inr, false, some, [], ◌∷◌, ◌++◌, arith,
  append-nil, Text, codes, All,
}
use ghostunnel.Regexp.Syntax.{
  Regex, eps, begin_text, end_text, any_not_nl, lit, seq, alt, star, opt, newline, Star, Run,
  Accepts,
}
use ghostunnel.Regexp.Parse.{is_meta, item, concat, start, step, parse, compile}
use ghostunnel.Wildcard.Reads.{parse-append, parse_plain, at, From, From-seq, Reads}
use ghostunnel.Wildcard.Endings.{OneChar, Star-OneChar, All-Star, Accepts-From, Compiles}

-- `(|/.*)`
abbrev group : ℕ → Regex
group sep = alt eps (seq (seq eps (lit sep)) (star any_not_nl))

abbrev Line : Text → Type 0
Line v = All (λ c. c ≢ newline) v

Run-group :
    (w : Text) (sep : ℕ) (t : Text)
    → Run w (group sep) t [] ↔ ((t ≡ []) ⊎ ((v : Text) × (t ≡ sep ∷ v) × Line v))
Run-group w sep t = (to, from)
  where
    to : Run w (group sep) t [] → (t ≡ []) ⊎ ((v : Text) × (t ≡ sep ∷ v) × Line v)
    to (inl e) = inl e
    to (inr (u, (s, e, k), m)) =
        let (v, a, q) = Star-OneChar (λ c. c ≢ newline) u [] m in
        inr (v, e ∙ k ∙ ap (λ (x : Text). sep ∷ x) (q ∙ append-nil v), a)

    from : (t ≡ []) ⊎ ((v : Text) × (t ≡ sep ∷ v) × Line v) → Run w (group sep) t []
    from (inl e) = inl e
    from (inr (v, e, a)) =
        let m : Star (OneChar (λ c. c ≢ newline)) v [] =
          rw (append-nil v) at (All-Star (λ c. c ≢ newline) v [] a) in
        inr (v, (t, refl, e), m)

parse_double_star :
    (sep : ℕ) (r : Regex) (x : Regex)
    → is_meta sep ≡ false
    → parse (some (at item r (some x))) (codes "?(|" ++ sep ∷ codes ".*)$")
      ≡ some (at item (seq (seq r (opt x)) (group sep)) (some end_text))
unfolding parse step is_meta
parse_double_star sep r x h = ground arith

-- What `r`, an optional `x`, the group and `$` accept, by what `r` leaves.
Accepts-group :
    (w : Text) (r x : Regex) (sep : ℕ)
    → Accepts (seq (seq (seq r (opt x)) (group sep)) end_text) w
      ↔ ((t u : Text) × From w r t × Run w (opt x) t u × Run w (group sep) u [])
Accepts-group w r x sep = (to, from)
  where
    whole : Regex
    whole = seq (seq r (opt x)) (group sep)

    to :
        Accepts (seq whole end_text) w
        → (t u : Text) × From w r t × Run w (opt x) t u × Run w (group sep) u []
    to a =
        let (z, f) = (Accepts-From w (seq whole end_text)).0 a in
        let (y, g, (e, _)) = (From-seq w whole end_text z).0 f in
        let (u, h, m) = (From-seq w (seq r (opt x)) (group sep) y).0 g in
        let (t, k, o) = (From-seq w r (opt x) u).0 h in
        (t, u, k, o, subst (Run w (group sep) u) e m)

    from :
        (t u : Text) × From w r t × Run w (opt x) t u × Run w (group sep) u []
        → Accepts (seq whole end_text) w
    from (t, u, k, o, m) = (Accepts-From w (seq whole end_text)).1 (
      [],
      (From-seq w whole end_text []).1 (
        [],
        (From-seq w (seq r (opt x)) (group sep) []).1 (u, (From-seq w r (opt x) u).1 (t, k, o), m),
        (refl, refl),
      ),
    )

-- After a separator, `**` adds nothing, or any line after the separator.
pub Compiles-double_star :
    {P : Text → Text → Type 0} {out : Text} (r : Reads out P) (sep : ℕ)
    → is_meta sep ≡ false
    → sep ≢ newline
    → Compiles
        (out ++ sep ∷ (codes "?(|" ++ sep ∷ codes ".*)$"))
        (λ w. (t : Text) × P w t × ((t ≡ []) ⊎ ((v : Text) × (t ≡ sep ∷ v) × Line v)))
unfolding compile parse
Compiles-double_star {P} r sep h n = record {
  regex = seq (seq (seq q (opt (lit sep))) (group sep)) end_text;
  compiled = rw (
    parse-append,
    r.parsed,
    parse_plain sep (codes "?(|" ++ sep ∷ codes ".*)$") r.last r.before r.top h,
    parse_double_star sep q (lit sep) h,
  );
  accepts = λ w. (
    λ a.
        let (t, u, k, o, m) = (Accepts-group w q (lit sep) sep).0 a in
        to w t u ((r.meaning w t).0 k) o ((Run-group w sep u).0 m),
    λ (t, k, m).
        (Accepts-group w q (lit sep) sep).1
          (t, t, (r.meaning w t).1 k, inl refl, (Run-group w sep t).1 m),
  );
}
  where
    q : Regex
    q = concat r.before r.top

    to :
        (w t u : Text)
        → P w t
        → Run w (opt (lit sep)) t u
        → (u ≡ []) ⊎ ((v : Text) × (u ≡ sep ∷ v) × Line v)
        → (t : Text) × P w t × ((t ≡ []) ⊎ ((v : Text) × (t ≡ sep ∷ v) × Line v))
    to w t u k (inl e) m = (u, subst (P w) e k, m)
    to w t u k (inr e) (inl m) = (t, k, inr ([], e ∙ ap (λ (x : Text). sep ∷ x) m, tt))
    to w t u k (inr e) (inr (v, m, a)) =
        (t, k, inr (sep ∷ v, e ∙ ap (λ (x : Text). sep ∷ x) m, (n, a)))

parse_begin : parse (some start) (codes "^") ≡ some (at item eps (some begin_text))
unfolding parse step
parse_begin = refl

-- Alone, `**` accepts every text: the `^` is made optional, and nothing is anchored at the start.
pub Compiles-only_double_star :
    (sep : ℕ)
    → is_meta sep ≡ false
    → Compiles (codes "^" ++ (codes "?(|" ++ sep ∷ codes ".*)$")) (λ w. Unit)
unfolding compile
Compiles-only_double_star sep h = record {
  regex = seq (seq (seq eps (opt begin_text)) (group sep)) end_text;
  compiled = rw (parse-append, parse_begin, parse_double_star sep eps begin_text h);
  accepts = λ w. (
    λ _. tt,
    λ _.
        (Accepts-group w eps begin_text sep).1
          ([], [], (w, [], sym (append-nil w), refl), inl refl, inl refl),
  );
}
