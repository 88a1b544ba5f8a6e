-- ===== src/Auth/Sets.antt =====
-- The loops over two lists answer whether the lists meet.
use ghostunnel.Prelude.{
  ◌≡◌, refl, sym, subst, ◌↔◌, inl, inr, Bool, true, Bool-cases, List, [], ◌∷◌, Text, text_eq,
  text_eq_iff, In, any, any_iff,
}
use ghostunnel.Wildcard.Compile.{Matcher, matches}
use ghostunnel.Auth.Ip.{Ip, ip_equal, to_16, ip_equal_iff}
use ghostunnel.Auth.Acl.{contains, intersects, intersects_ip, intersects_uri}

pub contains_iff : (set : List Text) (item : Text) → (contains set item ≡ true) ↔ In item set
unfolding contains
contains_iff [] item = (λ h. cc, λ h. absurd h)
contains_iff (c ∷ set) item = elim (Bool-cases (text_eq c item)) [
  | inl e ↦ rw e (λ _. inl (sym ((text_eq_iff c item).0 e)), λ _. refl)
  | inr e ↦
      let (to, from) = contains_iff set item in
      rw e (
        λ h. inr (to h),
        λ m. elim m [ inl k ↦ cc (e, (text_eq_iff c item).1 (sym k)) | inr k ↦ from k ],
      )
]

-- An item of both lists.
abbrev pub Shared : List Text → List Text → Type 0
Shared left right = (item : Text) × In item left × In item right

-- Two elements, one of each list, that are related.
abbrev pub Meet : {A B : Type 0} → (A → B → Type 0) → List A → List B → Type 0
Meet {A} {B} R left right = (l : A) × (r : B) × In l left × In r right × R l r

pub intersects_iff : (left right : List Text) → (intersects left right ≡ true) ↔ Shared left right
unfolding intersects
intersects_iff [] right = (λ h. cc, λ (i, m, n). absurd m)
intersects_iff (item ∷ left) right = elim (Bool-cases (contains right item)) [
  | inl e ↦ rw e (λ _. (item, inl refl, (contains_iff right item).0 e), λ _. refl)
  | inr e ↦
      let (to, from) = intersects_iff left right in
      rw e (
        λ h. let (i, m, n) = to h in (i, inr m, n),
        λ (i, m, n). elim m [
          | inl k ↦ cc (e, (contains_iff right item).1 (subst (λ x. In x right) k n))
          | inr k ↦ from (i, k, n)
        ],
      )
]

-- The two loops that test a pair of elements.
abbrev pub pairs : {A B : Type 0} → (A → B → Bool) → List A → List B → Bool
pairs test left right = any (λ l. any (test l) right) left

pairs_iff :
    {A B : Type 0} (test : A → B → Bool) (left : List A) (right : List B)
    → (pairs test left right ≡ true) ↔ Meet (λ l r. test l r ≡ true) left right
pairs_iff test left right = (
  λ h.
      let (l, m, k) = (any_iff (λ l. any (test l) right) left).0 h in
      let (r, n, e) = (any_iff (test l) right).0 k in (l, r, m, n, e),
  λ (l, r, m, n, e).
      (any_iff (λ l. any (test l) right) left).1 (l, m, (any_iff (test l) right).1 (r, n, e)),
)

intersects_ip-pairs :
    (left right : List Ip) → intersects_ip left right ≡ pairs (λ l r. ip_equal r l) left right
unfolding intersects_ip
intersects_ip-pairs [] right = refl
intersects_ip-pairs (l ∷ left) right = rw (intersects_ip-pairs left right)

-- Two addresses, one of each list, with the same 16-byte form.
pub intersects_ip_iff :
    (left right : List Ip)
    → (intersects_ip left right ≡ true) ↔ Meet (λ l r. to_16 r ≡ to_16 l) left right
intersects_ip_iff left right =
    let (to, from) = pairs_iff (λ l r. ip_equal r l) left right in
    rw (intersects_ip-pairs left right) (
      λ h. let (l, r, m, n, e) = to h in (l, r, m, n, (ip_equal_iff r l).0 e),
      λ (l, r, m, n, e). from (l, r, m, n, (ip_equal_iff r l).1 e),
    )

module _ {Url : Type 0} (url_string : Url → Text) where
  intersects_uri-pairs :
      (left : List Matcher) (right : List Url)
      → intersects_uri url_string left right ≡ pairs (λ l r. matches l (url_string r)) left right
  unfolding intersects_uri
  intersects_uri-pairs [] right = refl
  intersects_uri-pairs (l ∷ left) right = rw (intersects_uri-pairs left right)

  pub intersects_uri_iff :
      (left : List Matcher) (right : List Url)
      → (intersects_uri url_string left right ≡ true)
        ↔ Meet (λ l r. matches l (url_string r) ≡ true) left right
  intersects_uri_iff left right =
      rw (intersects_uri-pairs left right) (pairs_iff (λ l r. matches l (url_string r)) left right)
