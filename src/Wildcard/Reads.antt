-- ===== src/Wildcard/Reads.antt =====
-- The texts that the compiler writes, read back by the parser: each piece that is written adds to
-- what the expression so far consumes.
use ghostunnel.Prelude.{
  ℕ, ◌≡◌, refl, sym, ap, ◌∙◌, ◌↔◌, inl, inr, true, false, Bool-cases, Option, none, some, [], ◌∷◌,
  ◌++◌, arith, append_assoc, append-nil, Text, codes,
}
use ghostunnel.Regexp.Syntax.{Regex, eps, begin_text, lit, seq, Run}
use ghostunnel.Regexp.Parse.{
  is_meta, quote_meta, backslash, Last, item, normal, escaped, State, concat, start, step, parse,
  push_item,
}

parse-none : (s : Text) → parse none s ≡ none
unfolding parse
parse-none [] = refl
parse-none (c ∷ s) = refl

pub parse-append : (s : Option State) (a b : Text) → parse s (a ++ b) ≡ parse (parse s a) b
unfolding parse
parse-append none [] b = refl
parse-append none (c ∷ a) b = sym (parse-none b)
parse-append (some s) [] b = refl
parse-append (some s) (c ∷ a) b = parse-append (step s s.mode c) a b

-- Outside groups, with `before` and then `top` read.
abbrev pub at : Last → Regex → Option Regex → State
at last before top = record {
  mode = normal last;
  frame = record { branches = none; before = before; top = top };
  outer = [];
}

-- In the text `w`, from anywhere, `r` stops with `t` unread.
abbrev pub From : Text → Regex → Text → Type 0
From w r t = (p s : Text) × (w ≡ p ++ s) × Run w r s t

-- The text `out` parses to an expression that can consume of `w` all but `t` exactly if `P w t`.
pub record Reads (out : Text) (P : Text → Text → Type 0) : Type 0 where
  pub last : Last
  pub before : Regex
  pub top : Option Regex
  pub parsed : parse (some start) out ≡ some (at last before top)
  pub meaning : (w t : Text) → From w (concat before top) t ↔ P w t

step_plain :
    (c : ℕ) (last : Last) (s : State)
    → is_meta c ≡ false
    → step s (normal last) c ≡ push_item (lit c) s
unfolding step is_meta
step_plain c last s h = ground arith

step_escaped : (c : ℕ) (s : State) → is_meta c ≡ true → step s escaped c ≡ push_item (lit c) s
unfolding step is_meta
step_escaped c s h = ground arith

pub parse_plain :
    (c : ℕ) (rest : Text) (last : Last) (r : Regex) (x : Option Regex)
    → is_meta c ≡ false
    → parse (some (at last r x)) (c ∷ rest)
      ≡ parse (some (at item (concat r x) (some (lit c)))) rest
unfolding parse
parse_plain c rest last r x h = ap (λ s. parse s rest) (step_plain c last (at last r x) h)

-- One more item after an expression.
pub From-seq :
    (w : Text) (r x : Regex) (u : Text)
    → From w (seq r x) u ↔ ((t : Text) × From w r t × Run w x t u)
From-seq w r x u =
    (λ (p, s, e, (t, h, k)). (t, (p, s, e, h), k), λ (t, (p, s, e, h), k). (p, s, e, (t, h, k)))

-- What the expression `q` consumes, given by `P`.
abbrev pub Means : Regex → (Text → Text → Type 0) → Type 0
Means q P = (w t : Text) → From w q t ↔ P w t

Means-lit :
    (q : Regex) (P : Text → Text → Type 0) (c : ℕ)
    → Means q P
    → Means (seq q (lit c)) (λ w u. P w (c ∷ u))
Means-lit q P c h w u = (
  λ f. let (t, k, e) = (From-seq w q (lit c) u).0 f in rw e at ((h w t).0 k),
  λ k. (From-seq w q (lit c) u).1 (c ∷ u, (h w (c ∷ u)).1 k, refl),
)

module _ {P : Text → Text → Type 0} {out : Text} (r : Reads out P) where
  pub Reads-lit : (c : ℕ) → is_meta c ≡ false → Reads (out ++ c ∷ []) (λ w u. P w (c ∷ u))
  unfolding parse
  Reads-lit c h = record {
    last = item;
    before = concat r.before r.top;
    top = some (lit c);
    parsed = rw (parse-append, r.parsed) (parse_plain c [] r.last r.before r.top h);
    meaning = Means-lit (concat r.before r.top) P c r.meaning;
  }

  Reads-escaped :
      (c : ℕ) → is_meta c ≡ true → Reads (out ++ backslash ∷ c ∷ []) (λ w u. P w (c ∷ u))
  unfolding parse step
  Reads-escaped c h = record {
    last = item;
    before = concat r.before r.top;
    top = some (lit c);
    parsed =
        rw (parse-append, r.parsed)
          (ap (λ s. parse s [])
            (step_escaped c (record (at r.last r.before r.top) { mode = escaped }) h));
    meaning = Means-lit (concat r.before r.top) P c r.meaning;
  }

pub Reads-quote :
    {P : Text → Text → Type 0} {out : Text} (r : Reads out P) (q : Text)
    → Reads (out ++ quote_meta q) (λ w u. P w (q ++ u))
unfolding quote_meta
Reads-quote {P} {out} r [] = rw (append-nil out) r
Reads-quote {P} {out} r (c ∷ q) = elim (Bool-cases (is_meta c)) [
  | inl h ↦
      rw (h, ← append_assoc out (backslash ∷ c ∷ []) (quote_meta q))
        (Reads-quote (Reads-escaped r c h) q)
  | inr h ↦ rw (h, ← append_assoc out (c ∷ []) (quote_meta q)) (Reads-quote (Reads-lit r c h) q)
]

-- `^`
pub Reads-begin : Reads (codes "^") (λ w t. w ≡ t)
unfolding parse step
Reads-begin = record {
  last = item;
  before = eps;
  top = some begin_text;
  parsed = refl;
  meaning =
      λ w t. (λ (p, s, e, (u, h, (k, l))). sym k ∙ l, λ e. ([], w, refl, (w, refl, (refl, e))));
}
