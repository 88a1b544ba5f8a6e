-- ===== src/Auth/Ip.antt =====
-- `net.IP` as its bytes, with `IP.Equal` of the package `net`.
use ghostunnel.Prelude.{
  ℕ, zero, suc, ◌≡◌, refl, sym, ap, ap₂, ◌∙◌, ◌↔◌, inl, inr, Bool, true, false, Bool-cases, ◌&&◌,
  List, [], ◌∷◌, ◌++◌, arith, ◌==◌, if◌then◌else◌, length, Text, text_eq, text_eq_iff, text_eq_refl,
}

abbrev pub Ip : Type 0
Ip = List ℕ

abbrev pub v4_in_v6_prefix : Ip
v4_in_v6_prefix = 0 ∷ 0 ∷ 0 ∷ 0 ∷ 0 ∷ 0 ∷ 0 ∷ 0 ∷ 0 ∷ 0 ∷ 0xff ∷ 0xff ∷ []

abbrev pub take : ℕ → Ip → Ip
take zero xs = []
take (suc n) [] = []
take (suc n) (x ∷ xs) = x ∷ take n xs

abbrev drop : ℕ → Ip → Ip
drop zero xs = xs
drop (suc n) [] = []
drop (suc n) (x ∷ xs) = drop n xs

-- `ip.Equal(x)`: an IPv4 address and the same address in IPv6 form are equal.
unfoldable pub ip_equal : Ip → Ip → Bool
ip_equal ip x =
    if length ip == length x
    then text_eq ip x
    else if length ip == 4 && length x == 16
    then text_eq (take 12 x) v4_in_v6_prefix && text_eq ip (drop 12 x)
    else if length ip == 16 && length x == 4
    then text_eq (take 12 ip) v4_in_v6_prefix && text_eq (drop 12 ip) x
    else false

-- The 16-byte form of an IPv4 address, and any other address as it is.
abbrev pub to_16 : Ip → Ip
to_16 ip = if length ip == 4 then v4_in_v6_prefix ++ ip else ip

take-append-drop : (n : ℕ) (xs : Ip) → take n xs ++ drop n xs ≡ xs
take-append-drop zero xs = refl
take-append-drop (suc n) [] = refl
take-append-drop (suc n) (x ∷ xs) = ap (λ (l : Ip). x ∷ l) (take-append-drop n xs)

-- The test of an IPv4 address against a 16-byte address.
mapped_iff :
    (ip x : Ip)
    → ((text_eq (take 12 x) v4_in_v6_prefix && text_eq ip (drop 12 x)) ≡ true)
      ↔ (v4_in_v6_prefix ++ ip ≡ x)
mapped_iff ip x = (to, from)
  where
    to :
        (text_eq (take 12 x) v4_in_v6_prefix && text_eq ip (drop 12 x)) ≡ true
        → v4_in_v6_prefix ++ ip ≡ x
    to h =
        let a : take 12 x ≡ v4_in_v6_prefix = (text_eq_iff _ _).0 (ground arith) in
        let b : ip ≡ drop 12 x = (text_eq_iff _ _).0 (ground arith) in
        ap₂ ◌++◌ (sym a) b ∙ take-append-drop 12 x

    from :
        v4_in_v6_prefix ++ ip ≡ x
        → (text_eq (take 12 x) v4_in_v6_prefix && text_eq ip (drop 12 x)) ≡ true
    from e = rw (← e, text_eq_refl v4_in_v6_prefix, text_eq_refl ip)

text_eq-sym : (s t : Text) → text_eq s t ≡ text_eq t s
text_eq-sym s t = elim (Bool-cases (text_eq s t)) [
  | inl h ↦ rw ((text_eq_iff s t).0 h)
  | inr h ↦ ground (arith, text_eq_iff s t, text_eq_iff t s)
]

mapped_back_iff :
    (ip x : Ip)
    → ((text_eq (take 12 ip) v4_in_v6_prefix && text_eq (drop 12 ip) x) ≡ true)
      ↔ (ip ≡ v4_in_v6_prefix ++ x)
mapped_back_iff ip x =
    let (to, from) = mapped_iff x ip in
    rw (text_eq-sym (drop 12 ip) x) (λ h. sym (to h), λ e. from (sym e))

ip_equal-other :
    (ip x : Ip)
    → (length ip == 4) ≡ false
    → (length x == 4) ≡ false
    → (ip_equal ip x ≡ true) ↔ (to_16 ip ≡ to_16 x)
unfolding ip_equal
ip_equal-other ip x a b = (
  λ h. rw (a, b) ((text_eq_iff ip x).0 (ground arith)),
  λ e.
      let same : ip ≡ x = rw (a, b) at e in
      let n = ap length same in ground (arith, text_eq_iff ip x),
)

-- `IP.Equal` compares the 16-byte forms, so it is an equivalence.
pub ip_equal_iff : (ip x : Ip) → (ip_equal ip x ≡ true) ↔ (to_16 ip ≡ to_16 x)
unfolding ip_equal
ip_equal_iff ip x = elim (Bool-cases (length ip == 4)) [
  | inl a ↦ elim (Bool-cases (length x == 4)) [
    | inl b ↦
        let same : (length ip == length x) ≡ true = ground arith in
        rw (same, a, b)
          (
            λ h. ap (λ (l : Ip). v4_in_v6_prefix ++ l) ((text_eq_iff ip x).0 h),
            λ e. (text_eq_iff ip x).1 (cc e),
          )
    | inr b ↦
        let other : (length ip == length x) ≡ false = ground arith in
        elim (Bool-cases (length x == 16)) [
          | inl c ↦ rw (other, a, b, c) (mapped_iff ip x)
          | inr c ↦
              let short : (length ip == 16) ≡ false = ground arith in
              rw (other, a, b, c, short) (λ h. cc, λ e. let n = ap length e in ground arith)
        ]
  ]
  | inr a ↦ elim (Bool-cases (length x == 4)) [
    | inl b ↦
        let other : (length ip == length x) ≡ false = ground arith in
        elim (Bool-cases (length ip == 16)) [
          | inl c ↦ rw (other, a, b, c) (mapped_back_iff ip x)
          | inr c ↦ rw (other, a, b, c) (λ h. cc, λ e. let n = ap length e in ground arith)
        ]
    | inr b ↦ ip_equal-other ip x a b
  ]
]
