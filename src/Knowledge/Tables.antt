-- ===== src/Knowledge/Tables.antt =====
-- Lemmas on the statements over tables, whatever the rows are: selections, tests for a row, and
-- columns whose values differ from row to row.
use sqlite_graphrag.Base.{
  ◌≡◌, refl, sym, ◌∙◌, ◌⊎◌, inl, inr, Bool, true, false, not, none, some, List, [], ◌∷◌, ◌++◌, map,
  filter, arith, In, here, there, In-cons, In-nil, In-filter, In-map, All, All-In, Bool-cases,
  if◌then◌else◌,
}
use sqlite_graphrag.Knowledge.{first, exists, drop_where, set_where}

module _ {A : Type 0} where
  pub exists-true :
      (p : A → Bool) (xs : List A) → exists p xs ≡ true → (x : A) × In x xs × (p x ≡ true)
  exists-true p [] h = ground arith
  exists-true p (x ∷ xs) h = elim (Bool-cases (p x)) [
    | inl e ↦ (x, here refl, e)
    | inr e ↦ let (y, i, f) = exists-true p xs (ground arith) in (y, there i, f)
  ]

  pub exists_intro :
      (p : A → Bool) (xs : List A) {x : A} → In x xs → p x ≡ true → exists p xs ≡ true
  exists_intro p [] i e = absurd (In-nil i)
  exists_intro p (y ∷ xs) {x} i e = elim (In-cons i) [
    | inl q ↦ let now : p y ≡ true = rw (← q) e in rw now refl
    | inr j ↦ let later = exists_intro p xs j e in ground arith
  ]

  pub exists-false :
      (p : A → Bool) (xs : List A) {x : A} → exists p xs ≡ false → In x xs → p x ≡ false
  exists-false p xs {x} h i = elim (Bool-cases (p x)) [
    | inl e ↦ let found = exists_intro p xs i e in ground arith
    | inr e ↦ e
  ]

  pub first-some :
      (p : A → Bool) (xs : List A) {x : A} → first p xs ≡ some x → In x xs × (p x ≡ true)
  first-some p [] h = cc
  first-some p (y ∷ xs) {x} h = elim (Bool-cases (p y)) [
    | inl e ↦ let same : y ≡ x = ground arith in (here (sym same), rw (← same) e)
    | inr e ↦ let (i, f) = first-some p xs (ground arith) in (there i, f)
  ]

  pub first-none : (p : A → Bool) (xs : List A) → first p xs ≡ none → exists p xs ≡ false
  first-none p [] h = refl
  first-none p (y ∷ xs) h = elim (Bool-cases (p y)) [
    | inl e ↦ ground arith
    | inr e ↦ let later = first-none p xs (ground arith) in ground arith
  ]

  pub In-drop_where :
      (p : A → Bool) (xs : List A) {x : A} → In x (drop_where p xs) → (p x ≡ false) × In x xs
  In-drop_where p xs {x} h = let (e, i) = In-filter (λ y. not (p y)) xs h in (ground arith, i)

  pub In-set_where :
      (p : A → Bool) (change : A → A) (xs : List A) {x : A}
      → In x (set_where p change xs)
      → (y : A) × In y xs × (((p y ≡ true) × (x ≡ change y)) ⊎ ((p y ≡ false) × (x ≡ y)))
  In-set_where p change xs {x} h =
      let (y, i, e) = In-map (λ z. if p z then change z else z) xs h in
      (
        y,
        i,
        elim (Bool-cases (p y)) [ inl f ↦ inl (f, e ∙ rw f refl) | inr f ↦ inr (f, e ∙ rw f refl) ],
      )

  -- Every row stands in a relation to every later one.
  abbrev pub AllPairs : (A → A → Type 0) → List A → Type 0
  AllPairs R [] = Unit
  AllPairs R (x ∷ xs) = All (R x) xs × AllPairs R xs

  filter-All : (P : A → Type 0) (p : A → Bool) (xs : List A) → All P xs → All P (filter p xs)
  unfolding filter
  filter-All P p [] h = tt
  filter-All P p (x ∷ xs) h = elim (Bool-cases (p x)) [
    | inl e ↦ rw e (h.0, filter-All P p xs h.1)
    | inr e ↦ rw e (filter-All P p xs h.1)
  ]

  pub filter-AllPairs :
      (R : A → A → Type 0) (p : A → Bool) (xs : List A) → AllPairs R xs → AllPairs R (filter p xs)
  unfolding filter
  filter-AllPairs R p [] h = tt
  filter-AllPairs R p (x ∷ xs) h = elim (Bool-cases (p x)) [
    | inl e ↦ rw e (filter-All (R x) p xs h.0, filter-AllPairs R p xs h.1)
    | inr e ↦ rw e (filter-AllPairs R p xs h.1)
  ]

  map-All :
      (P Q : A → Type 0) (f : A → A) (xs : List A)
      → ((x : A) → P x → Q (f x))
      → All P xs
      → All Q (map f xs)
  map-All P Q f [] h a = tt
  map-All P Q f (x ∷ xs) h a = (h x a.0, map-All P Q f xs h a.1)

  pub map-AllPairs :
      (R : A → A → Type 0) (f : A → A) (xs : List A)
      → ((x y : A) → R x y → R (f x) (f y))
      → AllPairs R xs
      → AllPairs R (map f xs)
  map-AllPairs R f [] h a = tt
  map-AllPairs R f (x ∷ xs) h a =
      (map-All (R x) (R (f x)) f xs (h x) a.0, map-AllPairs R f xs h a.1)

  All-snoc : (P : A → Type 0) (xs : List A) (y : A) → All P xs → P y → All P (xs ++ (y ∷ []))
  All-snoc P [] y h q = (q, tt)
  All-snoc P (x ∷ xs) y h q = (h.0, All-snoc P xs y h.1 q)

  pub AllPairs-snoc :
      (R : A → A → Type 0) (xs : List A) (y : A)
      → AllPairs R xs
      → ((x : A) → In x xs → R x y)
      → AllPairs R (xs ++ (y ∷ []))
  AllPairs-snoc R [] y h q = (tt, tt)
  AllPairs-snoc R (x ∷ xs) y h q =
      (All-snoc (R x) xs y h.0 (q x (here refl)), AllPairs-snoc R xs y h.1 (λ z i. q z (there i)))

  pub AllPairs-In :
      (R : A → A → Type 0) (xs : List A) {x y : A}
      → AllPairs R xs
      → In x xs
      → In y xs
      → (x ≡ y) ⊎ (R x y ⊎ R y x)
  AllPairs-In R [] h i j = absurd (In-nil i)
  AllPairs-In R (z ∷ xs) h i j = elim (In-cons i) [
    | inl e ↦ elim (In-cons j) [
      | inl f ↦ inl (e ∙ sym f)
      | inr l ↦ inr (inl (rw e (All-In (R z) xs h.0 l)))
    ]
    | inr k ↦ elim (In-cons j) [
      | inl f ↦ inr (inr (rw f (All-In (R z) xs h.0 k)))
      | inr l ↦ AllPairs-In R xs h.1 k l
    ]
  ]
