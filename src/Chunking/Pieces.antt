-- ===== src/Chunking/Pieces.antt =====
-- `hard_slice_to_budget` cuts a body into pieces within the budget, and loses nothing.
use sqlite_graphrag.Base.{
  ℕ, zero, suc, ◌+◌, ◌-◌, ◌≤◌, ◌<◌, min, ◌≡◌, refl, sym, ap, ◌∙◌, true, false, arith, length, some,
  List, [], ◌∷◌, ◌++◌, take, drop, All, leb, length-take, length-drop, take-append-drop,
}
use native.Mathlib.Decide.{dec_le, dec_lt}
use sqlite_graphrag.Chunking.{
  Bytes, bytes_between, slice, is_char_boundary, previous_char_boundary, piece_end, pieces_from,
  hard_slice_to_budget,
}
use sqlite_graphrag.Chunking.Boundary.{
  IsUtf8, previous_char_boundary_lem, is_char_boundary-length, is_char_boundary_of_start,
  is_char_boundary_zero,
}

-- The concatenation of the parts.
abbrev pub concat : List Bytes → Bytes
concat [] = []
concat (p ∷ ps) = p ++ concat ps

take-append-drop_at {ℓ} :
    {A : Type ℓ} (i k : ℕ) (xs : List A) → take k (drop i xs) ++ drop (i + k) xs ≡ drop i xs
take-append-drop_at zero k xs = let e : 0 + k ≡ k = omega arith in rw e (take-append-drop k xs)
take-append-drop_at {A} (suc i) k [] =
    let e : suc i + k ≡ suc (i + k) = omega arith in rw e (take_nil k)
  where
    take_nil : (k : ℕ) → take {A = A} k [] ++ [] ≡ []
    take_nil zero = refl
    take_nil (suc k) = refl
take-append-drop_at (suc i) k (x ∷ xs) =
    let e : suc i + k ≡ suc (i + k) = omega arith in rw e (take-append-drop_at i k xs)

drop-length {ℓ} : {A : Type ℓ} (xs : List A) → drop (length xs) xs ≡ []
drop-length [] = refl
drop-length (x ∷ xs) = drop-length xs

-- A piece takes something, ends on a boundary inside the body, and keeps to a budget of four bytes
-- or more.
piece_end_lem :
    (max_bytes : ℕ) (body : Bytes) (start : ℕ)
    → 4 ≤ max_bytes
    → IsUtf8 body
    → start < length body
    → (start < piece_end max_bytes body start)
      × (piece_end max_bytes body start ≤ length body)
      × (piece_end max_bytes body start ≤ start + max_bytes)
      × (is_char_boundary body (piece_end max_bytes body start) ≡ true)
unfolding piece_end
piece_end_lem max_bytes body start four utf8 inside =
    let m = min (start + max_bytes) (length body) in
    let (le, b, greatest) = previous_char_boundary_lem body m in
    let beyond : start < previous_char_boundary body m = forward greatest in
    let go : leb (previous_char_boundary body m) start ≡ false = ground arith in
    rw go (beyond, omega arith, omega arith, b)
  where
    forward :
        ((j : ℕ)
          → j ≤ min (min (start + max_bytes) (length body)) (length body)
          → is_char_boundary body j ≡ true
          → j ≤ previous_char_boundary body (min (start + max_bytes) (length body)))
        → start < previous_char_boundary body (min (start + max_bytes) (length body))
    forward greatest = elim (dec_le (length body) (start + max_bytes)) [
      | yes last ↦
          omega (arith, greatest (length body) (omega arith) (is_char_boundary-length body))
      | no more ↦
          let (j, above, below, p) = utf8 (start + max_bytes - 3) (omega arith) in
          omega (arith, greatest j (omega arith) (is_char_boundary_of_start body j (omega arith) p))
    ]

slice_at :
    (body : Bytes) (from to : ℕ)
    → from ≤ to
    → is_char_boundary body from ≡ true
    → is_char_boundary body to ≡ true
    → slice body from to ≡ some (bytes_between body from to)
unfolding slice
slice_at body from to le b c = let d : leb from to ≡ true = ground arith in rw (d, b, c) refl

-- The pieces of a body, from an offset on, are cut at boundaries of its characters.
abbrev pub CutsAt : Bytes → ℕ → List Bytes → Type 0
CutsAt body at [] = is_char_boundary body at ≡ true
CutsAt body at (p ∷ ps) = (is_char_boundary body at ≡ true) × CutsAt body (at + length p) ps

-- What one run of the loop returns from `start` on.
record AreSliced (max_bytes : ℕ) (body : Bytes) (start : ℕ) (pieces : List Bytes) : Type 0 where
  whole : concat pieces ≡ drop start body
  sized : All (λ p. (0 < length p) × (length p ≤ max_bytes)) pieces
  cuts : CutsAt body start pieces

module _ (max_bytes : ℕ) (body : Bytes) (four : 4 ≤ max_bytes) (utf8 : IsUtf8 body) where
  no_pieces : (start : ℕ) → start ≡ length body → AreSliced max_bytes body start []
  no_pieces start e = record {
    whole = rw e (sym (drop-length body));
    sized = tt;
    cuts = rw e (is_char_boundary-length body);
  }

  pieces_from_lem :
      (fuel start : ℕ)
      → start ≤ length body
      → length body ≤ start + fuel
      → is_char_boundary body start ≡ true
      → (pieces : List Bytes) × (pieces_from max_bytes body fuel start ≡ some pieces)
        × AreSliced max_bytes body start pieces
  unfolding pieces_from
  pieces_from_lem zero start le enough b = ([], ground arith, no_pieces start (omega arith))
  pieces_from_lem (suc fuel) start le enough b = elim (dec_lt start (length body)) [
    | no end ↦ ([], ground arith, no_pieces start (omega arith))
    | yes inside ↦
        let (after, within, budget, c) = piece_end_lem max_bytes body start four utf8 inside in
        let end = piece_end max_bytes body start in
        let (pieces, p, sliced) = pieces_from_lem fuel end within (omega arith) c in
        let upto : start + (end - start) ≡ end = omega arith in
        let cut = slice_at body start end (omega arith) b c in
        let size : length (bytes_between body start end) ≡ end - start =
          omega (arith, length-take (end - start) (drop start body), length-drop start body) in
        let next : start + length (bytes_between body start end) ≡ end = omega arith in
        (
          bytes_between body start end ∷ pieces,
          ground arith,
          record {
            whole =
                ap (λ s. bytes_between body start end ++ s) sliced.whole
                ∙ rw upto at (take-append-drop_at start (end - start) body);
            sized = (omega arith, sliced.sized);
            cuts = (b, rw next sliced.cuts);
          },
        )
  ]

-- On a UTF-8 body and with a budget of four bytes or more the slicing ends without a panic, its
-- pieces put together are the body, they are cut at boundaries of characters, and each piece is
-- nonempty and within the budget.
pub hard_slice_to_budget_lossless :
    (max_bytes : ℕ) (body : Bytes)
    → 4 ≤ max_bytes
    → IsUtf8 body
    → (pieces : List Bytes) × (hard_slice_to_budget max_bytes body ≡ some pieces)
      × (concat pieces ≡ body)
      × All (λ p. (0 < length p) × (length p ≤ max_bytes)) pieces
      × CutsAt body 0 pieces
unfolding hard_slice_to_budget
hard_slice_to_budget_lossless max_bytes body four utf8 =
    let (pieces, p, sliced) =
      pieces_from_lem max_bytes body four utf8 (length body) 0 (omega arith) (omega arith)
        (is_char_boundary_zero body) in
    (pieces, p, sliced.whole, sliced.sized, sliced.cuts)
