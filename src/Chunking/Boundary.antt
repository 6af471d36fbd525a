-- ===== src/Chunking/Boundary.antt =====
-- The two searches for a character boundary.
use sqlite_graphrag.Base.{
  List, [], ◌∷◌, ◌++◌, sym, ap, ◌∙◌, get_or, length-append, ℕ, zero, suc, ◌+◌, ◌-◌, ◌≤◌, ◌<◌, min,
  ◌≡◌, refl, inl, inr, true, false, arith, length, Bool-cases,
}
use native.Mathlib.Decide.{ℕ_discrete}
use sqlite_graphrag.Chunking.{
  Bytes, is_continuation, is_char_boundary, back_to_boundary, previous_char_boundary,
  on_to_boundary, next_char_boundary,
}

-- Of four consecutive bytes one starts a character: in UTF-8 at most three continue one. Every Rust
-- `String` has this.
abbrev pub IsUtf8 : Bytes → Type 0
IsUtf8 body =
    (i : ℕ)
    → i + 3 < length body
    → (j : ℕ) × (i ≤ j) × (j ≤ i + 3) × (is_continuation (get_or body j 0) ≡ false)

pub is_char_boundary_of_start :
    (body : Bytes) (j : ℕ)
    → j < length body
    → is_continuation (get_or body j 0) ≡ false
    → is_char_boundary body j ≡ true
unfolding is_char_boundary
is_char_boundary_of_start body j inside h = ground arith

get_or-append_left {ℓ} :
    {A : Type ℓ} (xs ys : List A) (j : ℕ) (d : A)
    → j < length xs
    → get_or (xs ++ ys) j d ≡ get_or xs j d
get_or-append_left [] ys j d h = absurd (omega arith)
get_or-append_left (x ∷ xs) ys zero d h = refl
get_or-append_left (x ∷ xs) ys (suc j) d h = get_or-append_left xs ys j d (omega arith)

get_or-append_right {ℓ} :
    {A : Type ℓ} (xs ys : List A) (j : ℕ) (d : A)
    → length xs ≤ j
    → get_or (xs ++ ys) j d ≡ get_or ys (j - length xs) d
get_or-append_right [] ys j d h = let e : j - 0 ≡ j = omega arith in rw e refl
get_or-append_right (x ∷ xs) ys zero d h = absurd (omega arith)
get_or-append_right (x ∷ xs) ys (suc j) d h =
    let e : suc j - suc (length xs) ≡ j - length xs = omega arith in
    rw e (get_or-append_right xs ys j d (omega arith))

-- A part of a UTF-8 text never has a longer run of continuation bytes.
pub IsUtf8-part : (before part after : Bytes) → IsUtf8 (before ++ (part ++ after)) → IsUtf8 part
IsUtf8-part before part after utf8 i inside =
    let n = length-append before (part ++ after) in
    let m = length-append part after in
    let (j, lo, hi, p) = utf8 (length before + i) (omega (arith, n, m)) in
    let k = j - length before in
    (
      k,
      omega arith,
      omega arith,
      (ap is_continuation (
            sym (get_or-append_left part after k 0 (omega arith))
            ∙ sym (get_or-append_right before (part ++ after) j 0 (omega arith))))
          ∙ p,
    )

pub is_char_boundary_zero : (body : Bytes) → is_char_boundary body 0 ≡ true
unfolding is_char_boundary
is_char_boundary_zero body = refl

pub is_char_boundary-length : (body : Bytes) → is_char_boundary body (length body) ≡ true
unfolding is_char_boundary
is_char_boundary-length body = ground arith

back_to_boundary_lem :
    (body : Bytes) (i : ℕ)
    → (back_to_boundary body i ≤ i) × (is_char_boundary body (back_to_boundary body i) ≡ true)
unfolding back_to_boundary
back_to_boundary_lem body zero = (omega arith, is_char_boundary_zero body)
back_to_boundary_lem body (suc i) =
    let (le, b) = back_to_boundary_lem body i in
    elim (Bool-cases (is_char_boundary body (suc i))) [
      | inl h ↦ rw h (omega arith, h)
      | inr n ↦ rw n (omega arith, b)
    ]

-- Any boundary at or below the offset is a lower bound of the one found.
back_to_boundary_ge :
    (body : Bytes) (i j : ℕ) → j ≤ i → is_char_boundary body j ≡ true → j ≤ back_to_boundary body i
unfolding back_to_boundary
back_to_boundary_ge body zero j le b = omega arith
back_to_boundary_ge body (suc i) j le b = elim (Bool-cases (is_char_boundary body (suc i))) [
  | inl h ↦ rw h le
  | inr n ↦ elim (ℕ_discrete j (suc i)) [
    | yes e ↦ cc (b, n, e)
    | no e ↦ rw n (back_to_boundary_ge body i j (omega arith) b)
  ]
]

-- `previous_char_boundary` finds the last boundary at or below the offset.
pub previous_char_boundary_lem :
    (body : Bytes) (idx : ℕ)
    → (previous_char_boundary body idx ≤ min idx (length body))
      × (is_char_boundary body (previous_char_boundary body idx) ≡ true)
      × ((j : ℕ)
          → j ≤ min idx (length body)
          → is_char_boundary body j ≡ true
          → j ≤ previous_char_boundary body idx)
unfolding previous_char_boundary
previous_char_boundary_lem body idx =
    let i = min idx (length body) in
    let (le, b) = back_to_boundary_lem body i in (le, b, λ j n h. back_to_boundary_ge body i j n h)

on_to_boundary_lem :
    (body : Bytes) (rounds idx : ℕ)
    → idx + rounds ≡ length body
    → (idx ≤ on_to_boundary body rounds idx)
      × (on_to_boundary body rounds idx ≤ length body)
      × (is_char_boundary body (on_to_boundary body rounds idx) ≡ true)
unfolding on_to_boundary
on_to_boundary_lem body zero idx e =
    let p : idx ≡ length body = omega arith in
    (omega arith, omega arith, rw p (is_char_boundary-length body))
on_to_boundary_lem body (suc rounds) idx e =
    let (ge, le, b) = on_to_boundary_lem body rounds (suc idx) (omega arith) in
    elim (Bool-cases (is_char_boundary body idx)) [
      | inl h ↦ rw h (omega arith, omega arith, h)
      | inr n ↦ rw n (omega arith, le, b)
    ]

-- `next_char_boundary` finds a boundary at or above the offset, inside the body.
pub next_char_boundary_lem :
    (body : Bytes) (idx : ℕ)
    → (min idx (length body) ≤ next_char_boundary body idx)
      × (next_char_boundary body idx ≤ length body)
      × (is_char_boundary body (next_char_boundary body idx) ≡ true)
unfolding next_char_boundary
next_char_boundary_lem body idx =
    on_to_boundary_lem body (length body - min idx (length body)) (min idx (length body))
      (omega arith)
