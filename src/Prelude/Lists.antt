-- ===== src/Prelude/Lists.antt =====
-- Lists measured by native numbers, membership with a witness, and Boolean search.
use Prim.Native.Nat.{ℕ, suc, ◌+◌}
use mathlib.Core.Path.{◌≡◌, refl}
use mathlib.Core.Logic.{◌↔◌, ◌⊎◌, inl, inr}
use mathlib.Core.Bool.{Bool, true, false}
use mathlib.Core.List.{List, [], ◌∷◌, ◌++◌}
use native.Mathlib.Omega.{arith}
use ghostunnel.Prelude.Tests.{if◌then◌else◌, Bool-cases}

module _ {ℓ} {A : Type ℓ} where
  abbrev pub length : List A → ℕ
  length [] = 0
  length (x ∷ xs) = suc (length xs)

  pub length-append : (xs ys : List A) → length (xs ++ ys) ≡ length xs + length ys
  length-append [] ys = omega arith
  length-append (x ∷ xs) ys = omega (arith, length-append xs ys)

module _ {A : Type 0} where
  -- A position of the list where `a` stands.
  abbrev pub In : A → List A → Type 0
  In a [] = ⊥
  In a (x ∷ xs) = (a ≡ x) ⊎ In a xs

  pub In-append_left : (a : A) (xs ys : List A) → In a xs → In a (xs ++ ys)
  In-append_left a [] ys m = absurd m
  In-append_left a (x ∷ xs) ys (inl e) = inl e
  In-append_left a (x ∷ xs) ys (inr m) = inr (In-append_left a xs ys m)

  pub In-append_right : (a : A) (xs ys : List A) → In a ys → In a (xs ++ ys)
  In-append_right a [] ys m = m
  In-append_right a (x ∷ xs) ys m = inr (In-append_right a xs ys m)

  pub In-append_inv : (a : A) (xs ys : List A) → In a (xs ++ ys) → In a xs ⊎ In a ys
  In-append_inv a [] ys m = inr m
  In-append_inv a (x ∷ xs) ys (inl e) = inl (inl e)
  In-append_inv a (x ∷ xs) ys (inr m) = elim (In-append_inv a xs ys m) [
    | inl l ↦ inl (inr l)
    | inr r ↦ inr r
  ]

  -- A predicate at every element.
  abbrev pub All : (A → Type 0) → List A → Type 0
  All P [] = Unit
  All P (x ∷ xs) = P x × All P xs

  pub All-In : (P : A → Type 0) (xs : List A) (a : A) → All P xs → In a xs → P a
  All-In P [] a h m = absurd m
  All-In P (x ∷ xs) a (p, h) (inl e) = rw e p
  All-In P (x ∷ xs) a (p, h) (inr m) = All-In P xs a h m

  pub All-append : (P : A → Type 0) (xs ys : List A) → All P xs → All P ys → All P (xs ++ ys)
  All-append P [] ys h k = k
  All-append P (x ∷ xs) ys (p, h) k = (p, All-append P xs ys h k)

  -- A loop that returns true at the first element that passes the test.
  abbrev pub any : (A → Bool) → List A → Bool
  any p [] = false
  any p (x ∷ xs) = if p x then true else any p xs

  pub any_sound : (p : A → Bool) (xs : List A) → any p xs ≡ true → (a : A) × In a xs × (p a ≡ true)
  any_sound p [] h = cc
  any_sound p (x ∷ xs) h = elim (Bool-cases (p x)) [
    | inl e ↦ (x, inl refl, e)
    | inr e ↦ let (a, m, q) = any_sound p xs (rw e at h) in (a, inr m, q)
  ]

  pub any_complete : (p : A → Bool) (xs : List A) (a : A) → In a xs → p a ≡ true → any p xs ≡ true
  any_complete p [] a m q = absurd m
  any_complete p (x ∷ xs) a (inl e) q = rw (← e, q)
  any_complete p (x ∷ xs) a (inr m) q = ground (arith, any_complete p xs a m q)

  pub any_iff :
      (p : A → Bool) (xs : List A) → (any p xs ≡ true) ↔ ((a : A) × In a xs × (p a ≡ true))
  any_iff p xs = (any_sound p xs, λ (a, m, q). any_complete p xs a m q)

module _ {A B : Type 0} where
  abbrev pub flat_map : (A → List B) → List A → List B
  flat_map f [] = []
  flat_map f (x ∷ xs) = f x ++ flat_map f xs

  pub In-flat_map :
      (f : A → List B) (xs : List A) (a : A) (b : B) → In a xs → In b (f a) → In b (flat_map f xs)
  In-flat_map f [] a b m k = absurd m
  In-flat_map f (x ∷ xs) a b (inl e) k = In-append_left b (f x) (flat_map f xs) (rw (← e) k)
  In-flat_map f (x ∷ xs) a b (inr m) k =
      In-append_right b (f x) (flat_map f xs) (In-flat_map f xs a b m k)

  pub In-flat_map_inv :
      (f : A → List B) (xs : List A) (b : B) → In b (flat_map f xs) → (a : A) × In a xs × In b (f a)
  In-flat_map_inv f [] b m = absurd m
  In-flat_map_inv f (x ∷ xs) b m = elim (In-append_inv b (f x) (flat_map f xs) m) [
    | inl l ↦ (x, inl refl, l)
    | inr r ↦ let (a, k, n) = In-flat_map_inv f xs b r in (a, inr k, n)
  ]
