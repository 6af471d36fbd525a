-- ===== src/Base/Lists.antt =====
-- Lists measured by native numbers, tests and predicates over all elements, and selections.
use Prim.Native.Nat.{ℕ, zero, suc, ◌+◌, ◌-◌, ◌≤◌, min}
use mathlib.Core.Path.{◌≡◌, refl, ap}
use mathlib.Core.Logic.{◌⊎◌, inl, inr}
use mathlib.Core.Bool.{Bool, true, false}
use mathlib.Core.List.{List, [], ◌∷◌, ◌++◌, map}
use native.Mathlib.Omega.{arith}
use sqlite_graphrag.Base.Tests.{if◌then◌else◌}

module _ {ℓ} {A : Type ℓ} where
  abbrev pub length : List A → ℕ
  length [] = 0
  length (x ∷ xs) = suc (length xs)

  abbrev pub get_or : List A → ℕ → A → A
  get_or [] i d = d
  get_or (x ∷ xs) zero d = x
  get_or (x ∷ xs) (suc i) d = get_or xs i d

  abbrev pub take : ℕ → List A → List A
  take zero xs = []
  take (suc n) [] = []
  take (suc n) (x ∷ xs) = x ∷ take n xs

  abbrev pub drop : ℕ → List A → List A
  drop zero xs = xs
  drop (suc n) [] = []
  drop (suc n) (x ∷ xs) = drop n xs

  pub length-append : (xs ys : List A) → length (xs ++ ys) ≡ length xs + length ys
  length-append [] ys = omega arith
  length-append (x ∷ xs) ys = omega (arith, length-append xs ys)

  pub length-take : (n : ℕ) (xs : List A) → length (take n xs) ≡ min n (length xs)
  length-take zero xs = omega arith
  length-take (suc n) [] = omega arith
  length-take (suc n) (x ∷ xs) = omega (arith, length-take n xs)

  pub length-drop : (n : ℕ) (xs : List A) → length (drop n xs) ≡ length xs - n
  length-drop zero xs = omega arith
  length-drop (suc n) [] = omega arith
  length-drop (suc n) (x ∷ xs) = omega (arith, length-drop n xs)

  pub take-append-drop : (n : ℕ) (xs : List A) → take n xs ++ drop n xs ≡ xs
  take-append-drop zero xs = refl
  take-append-drop (suc n) [] = refl
  take-append-drop (suc n) (x ∷ xs) = ap (◌∷◌ x) (take-append-drop n xs)

  pub List-cases : (xs : List A) → (xs ≡ []) ⊎ ((x : A) × (rest : List A) × (xs ≡ x ∷ rest))
  List-cases [] = inl refl
  List-cases (x ∷ xs) = inr (x, xs, refl)

  -- `a` occurs in the list.
  pub data In (a : A) : List A → Type ℓ where
    here : {x : A} {xs : List A} → a ≡ x → In a (x ∷ xs)
    there : {x : A} {xs : List A} → In a xs → In a (x ∷ xs)

  pub In-nil : {a : A} → ¬ In a []
  In-nil h = elim h [ ]

  pub In-cons : {a x : A} {xs : List A} → In a (x ∷ xs) → (a ≡ x) ⊎ In a xs
  In-cons (here e) = inl e
  In-cons (there h) = inr h

  pub In-append_left : {a : A} {xs : List A} (ys : List A) → In a xs → In a (xs ++ ys)
  In-append_left ys (here e) = here e
  In-append_left ys (there h) = there (In-append_left ys h)

  pub In-append_right : {a : A} (xs : List A) {ys : List A} → In a ys → In a (xs ++ ys)
  In-append_right [] h = h
  In-append_right (x ∷ xs) h = there (In-append_right xs h)

  pub In-append : {a : A} (xs ys : List A) → In a (xs ++ ys) → In a xs ⊎ In a ys
  In-append [] ys h = inr h
  In-append (x ∷ xs) ys h = elim (In-cons h) [
    | inl e ↦ inl (here e)
    | inr t ↦ elim (In-append xs ys t) [ inl l ↦ inl (there l) | inr r ↦ inr r ]
  ]

  -- Every element passes; every element satisfies.
  abbrev pub All {κ} : (A → Type κ) → List A → Type κ
  All P [] = Unit
  All P (x ∷ xs) = P x × All P xs

  pub All-In {κ} : (P : A → Type κ) (xs : List A) → All P xs → {a : A} → In a xs → P a
  All-In P [] h m = absurd (In-nil m)
  All-In P (x ∷ xs) h m = elim (In-cons m) [ inl e ↦ rw e h.0 | inr t ↦ All-In P xs h.1 t ]

  pub All-append {κ} : (P : A → Type κ) (xs ys : List A) → All P xs → All P ys → All P (xs ++ ys)
  All-append P [] ys hx hy = hy
  All-append P (x ∷ xs) ys hx hy = (hx.0, All-append P xs ys hx.1 hy)

  pub All-imp {κ μ} :
      (P : A → Type κ) (Q : A → Type μ)
      → ((a : A) → P a → Q a)
      → (xs : List A) → All P xs
      → All Q xs
  All-imp P Q f [] h = tt
  All-imp P Q f (x ∷ xs) h = (f x h.0, All-imp P Q f xs h.1)

  -- The elements that pass a test, in order.
  unfoldable pub filter : (A → Bool) → List A → List A
  filter p [] = []
  filter p (x ∷ xs) = let rest = filter p xs in if p x then x ∷ rest else rest

  In-if_cons :
      (b : Bool) {a x : A} {xs : List A}
      → In a (if b then x ∷ xs else xs)
      → ((b ≡ true) × (a ≡ x)) ⊎ In a xs
  In-if_cons true h = elim (In-cons h) [ inl e ↦ inl (refl, e) | inr t ↦ inr t ]
  In-if_cons false h = inr h

  pub In-filter : (p : A → Bool) (xs : List A) {a : A} → In a (filter p xs) → (p a ≡ true) × In a xs
  unfolding filter
  In-filter p [] h = absurd (In-nil h)
  In-filter p (x ∷ xs) h = elim (In-if_cons (p x) h) [
    | inl e ↦ (rw e.1 e.0, here e.1)
    | inr t ↦ let r = In-filter p xs t in (r.0, there r.1)
  ]

  pub In-filter_intro :
      (p : A → Bool) (xs : List A) {a : A} → p a ≡ true → In a xs → In a (filter p xs)
  unfolding filter
  In-filter_intro p [] e h = absurd (In-nil h)
  In-filter_intro p (x ∷ xs) {a} e h = elim (In-cons h) [
    | inl q ↦ let pass : p x ≡ true = rw (← q) e in rw pass (here q)
    | inr t ↦ keep (p x) (In-filter_intro p xs e t)
  ]
    where
      keep : (b : Bool) {ys : List A} → In a ys → In a (if b then x ∷ ys else ys)
      keep true m = there m
      keep false m = m

  pub filter_cong :
      (p q : A → Bool) (xs : List A) → ((x : A) → In x xs → p x ≡ q x) → filter p xs ≡ filter q xs
  unfolding filter
  filter_cong p q [] h = refl
  filter_cong p q (x ∷ xs) h = rw (h x (here refl), filter_cong p q xs (λ y i. h y (there i))) refl

  pub length-filter-le : (p : A → Bool) (xs : List A) → length (filter p xs) ≤ length xs
  unfolding filter
  length-filter-le p [] = omega arith
  length-filter-le p (x ∷ xs) = ground (arith, length-filter-le p xs)

  pub In-take : (n : ℕ) (xs : List A) {a : A} → In a (take n xs) → In a xs
  In-take zero xs h = absurd (In-nil h)
  In-take (suc n) [] h = h
  In-take (suc n) (x ∷ xs) h = elim (In-cons h) [ inl e ↦ here e | inr t ↦ there (In-take n xs t) ]

pub In-map {ℓ κ} :
    {A : Type ℓ} {B : Type κ} (f : A → B) (xs : List A) {b : B}
    → In b (map f xs)
    → (a : A) × In a xs × (b ≡ f a)
In-map f [] h = absurd (In-nil h)
In-map f (x ∷ xs) h = elim (In-cons h) [
  | inl e ↦ (x, here refl, e)
  | inr t ↦ let r = In-map f xs t in (r.0, there r.1, r.2)
]

pub In-map_intro {ℓ κ} :
    {A : Type ℓ} {B : Type κ} (f : A → B) (xs : List A) {a : A} → In a xs → In (f a) (map f xs)
In-map_intro f [] h = absurd (In-nil h)
In-map_intro f (x ∷ xs) h = elim (In-cons h) [
  | inl e ↦ here (ap f e)
  | inr t ↦ there (In-map_intro f xs t)
]
