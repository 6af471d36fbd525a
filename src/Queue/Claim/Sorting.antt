-- ===== src/Queue/Claim/Sorting.antt =====
-- `ORDER BY priority DESC, id ASC` of the claims of src/commands/enrich/queue_ops.rs.
use sqlite_graphrag.Base.{
  ℕ, zero, ◌<◌, ◌≤◌, suc, ◌≡◌, ◌⊎◌, inl, inr, true, false, List, [], ◌∷◌, take, arith, In, here,
  there, In-cons, In-nil, All, All-In, All-imp, Bool-cases,
}
use sqlite_graphrag.Queue.{Row}
use sqlite_graphrag.Queue.Claim.{precedes, place, in_order}

-- A higher priority, or the same and an id not above.
abbrev pub ComesFirst : Row → Row → Type 0
ComesFirst r s = (s.priority < r.priority) ⊎ ((r.priority ≡ s.priority) × (r.id ≤ s.id))

pub precedes-ComesFirst : (r s : Row) → precedes r s ≡ true → ComesFirst r s
unfolding precedes
precedes-ComesFirst r s h = ground arith

abbrev pub Precedes : Row → Row → Type 0
Precedes r s = precedes r s ≡ true

precedes_total : (r s : Row) → precedes r s ≡ false → Precedes s r
unfolding precedes
precedes_total r s h = ground arith

Precedes-trans : (r s t : Row) → Precedes r s → Precedes s t → Precedes r t
unfolding precedes
Precedes-trans r s t h k = ground arith

abbrev pub Sorted : List Row → Type 0
Sorted [] = Unit
Sorted (r ∷ rs) = All (Precedes r) rs × Sorted rs

module _ (P : Row → Type 0) where
  place-All : (r : Row) (rs : List Row) → P r → All P rs → All P (place r rs)
  unfolding place
  place-All r [] h a = (h, tt)
  place-All r (s ∷ ss) h a = elim (Bool-cases (precedes r s)) [
    | inl e ↦ rw e (h, a)
    | inr e ↦ rw (e, place) (a.0, place-All r ss h a.1)
  ]

  in_order-All : (rs : List Row) → All P rs → All P (in_order rs)
  unfolding in_order
  in_order-All [] a = tt
  in_order-All (r ∷ rs) a = place-All r (in_order rs) a.0 (in_order-All rs a.1)

place-Sorted : (r : Row) (rs : List Row) → Sorted rs → Sorted (place r rs)
unfolding place
place-Sorted r [] h = (tt, tt)
place-Sorted r (s ∷ ss) h = elim (Bool-cases (precedes r s)) [
  | inl e ↦ rw e ((e, All-imp (Precedes s) (Precedes r) (λ t. Precedes-trans r s t e) ss h.0), h)
  | inr e ↦
      rw (e, place) (place-All (Precedes s) r ss (precedes_total r s e) h.0, place-Sorted r ss h.1)
]

pub in_order-Sorted : (rs : List Row) → Sorted (in_order rs)
unfolding in_order
in_order-Sorted [] = tt
in_order-Sorted (r ∷ rs) = place-Sorted r (in_order rs) (in_order-Sorted rs)

In-place : (r : Row) (rs : List Row) {s : Row} → In s (place r rs) → (s ≡ r) ⊎ In s rs
unfolding place
In-place r [] i = In-cons i
In-place r (t ∷ ts) {s} i = elim (Bool-cases (precedes r t)) [
  | inl e ↦ In-cons (rw e at i)
  | inr e ↦ elim (In-cons (rw (e, place) at i)) [
    | inl q ↦ inr (here q)
    | inr j ↦ elim (In-place r ts j) [ inl q ↦ inl q | inr k ↦ inr (there k) ]
  ]
]

pub In-in_order : (rs : List Row) {s : Row} → In s (in_order rs) → In s rs
unfolding in_order
In-in_order [] i = i
In-in_order (r ∷ rs) i = elim (In-place r (in_order rs) i) [
  | inl q ↦ here q
  | inr j ↦ there (In-in_order rs j)
]

In-place_intro : (r : Row) (rs : List Row) {s : Row} → In s (r ∷ rs) → In s (place r rs)
unfolding place
In-place_intro r [] i = i
In-place_intro r (t ∷ ts) {s} i = elim (Bool-cases (precedes r t)) [
  | inl e ↦ rw e i
  | inr e ↦
      rw (e, place)
        (elim (In-cons i) [
          | inl q ↦ there (In-place_intro r ts (here q))
          | inr j ↦ elim (In-cons j) [
            | inl q ↦ here q
            | inr k ↦ there (In-place_intro r ts (there k))
          ]
        ])
]

pub In-in_order_intro : (rs : List Row) {s : Row} → In s rs → In s (in_order rs)
unfolding in_order
In-in_order_intro [] i = i
In-in_order_intro (r ∷ rs) i = elim (In-cons i) [
  | inl q ↦ In-place_intro r (in_order rs) (here q)
  | inr j ↦ In-place_intro r (in_order rs) (there (In-in_order_intro rs j))
]

-- An element that is not among the first `n` comes after each of them.
pub take-Sorted :
    (n : ℕ) (rs : List Row)
    → Sorted rs
    → {r s : Row} → In r (take n rs)
    → In s rs
    → In s (take n rs) ⊎ Precedes r s
take-Sorted zero rs h i j = absurd (In-nil i)
take-Sorted (suc n) [] h i j = absurd (In-nil i)
take-Sorted (suc n) (x ∷ rs) h {r} {s} i j = elim (In-cons j) [
  | inl q ↦ inl (here q)
  | inr k ↦ elim (In-cons i) [
    | inl p ↦ inr (rw p (All-In (Precedes x) rs h.0 k))
    | inr l ↦ elim (take-Sorted n rs h.1 l k) [ inl t ↦ inl (there t) | inr t ↦ inr t ]
  ]
]
