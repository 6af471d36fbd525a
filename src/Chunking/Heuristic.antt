-- ===== src/Chunking/Heuristic.antt =====
-- `split_into_chunks` of src/chunking.rs: the split by characters, with an overlap. In a UTF-8 body
-- the offsets of its slices are boundaries, snapped or just after a match in ASCII, so that no slice
-- panics: the bytes between them are taken.
pub mod Examples
use sqlite_graphrag.Base.{
  ℕ, zero, suc, ◌+◌, ◌-◌, ◌/◌, ◌≤◌, ◌<◌, min, ◌≡◌, refl, sym, ap, ◌∙◌, inl, inr, Bool, true, false,
  ◌&&◌, Option, none, some, List, [], ◌∷◌, arith, length, Bool-cases, ltb, leb, ◌==◌, if◌then◌else◌,
}
use mathlib.Core.Option
use sqlite_graphrag.Chunking.{
  Bytes, Chunk, char_count, chunk_size_chars, chunk_overlap_chars, bytes_between, is_char_boundary,
  previous_char_boundary, next_char_boundary, on_to_boundary,
}
use sqlite_graphrag.Chunking.Boundary.{is_char_boundary_zero, previous_char_boundary_lem}

begins_with : ℕ → Bytes → Bool
begins_with b [] = false
begins_with b (x ∷ _) = x == b

-- `slice.rfind` of a text of two bytes, and of one.
pub rfind_pair : ℕ → ℕ → Bytes → Option ℕ
unfolding begins_with
rfind_pair a b [] = none
rfind_pair a b (x ∷ s) =
    let rest = rfind_pair a b s in
    elim rest [
      | some pos ↦ some (suc pos)
      | none ↦ if (x == a) && begins_with b s then some 0 else none
    ]

rfind_byte : ℕ → Bytes → Option ℕ
rfind_byte a [] = none
rfind_byte a (x ∷ s) =
    let rest = rfind_byte a s in
    elim rest [ some pos ↦ some (suc pos) | none ↦ if x == a then some 0 else none ]

find_split_boundary : Bytes → ℕ → ℕ → ℕ
find_split_boundary body start desired_end =
    let text = bytes_between body start desired_end in
    elim (rfind_pair 10 10 text) [
      | some pos ↦ start + pos + 2
      | none ↦ elim (rfind_pair b'.' b' ' text) [
        | some pos ↦ start + pos + 2
        | none ↦ elim (rfind_byte b' ' text) [ some pos ↦ start + pos + 1 | none ↦ desired_end ]
      ]
    ]

-- The end of the window, and the end of the chunk that starts at `start`.
pub desired_end_at : Bytes → ℕ → ℕ
desired_end_at body start =
    previous_char_boundary body (min (start + chunk_size_chars) (length body))

or_fallback : Bytes → ℕ → ℕ → ℕ
or_fallback body start end =
    if leb end start
    then (if ltb start (desired_end_at body start) then desired_end_at body start else length body)
    else end

chunk_end : Bytes → ℕ → ℕ
unfolding or_fallback
chunk_end body start = or_fallback body start (
    if ltb (desired_end_at body start) (length body)
    then find_split_boundary body start (desired_end_at body start)
    else desired_end_at body start)

next_start_after : Bytes → ℕ → ℕ
next_start_after body end =
    let next_start = next_char_boundary body (end - chunk_overlap_chars) in
    if leb end next_start then end else next_start

-- The `while` loop; `none` means that the fuel ran out.
chunks_from : Bytes → ℕ → ℕ → Option (List Chunk)
chunks_from body zero start = if ltb start (length body) then none else some []
chunks_from body (suc fuel) start =
    let from = next_char_boundary body start in
    let end = chunk_end body from in
    let chunk : Chunk = record {
      start_offset = from;
      end_offset = end;
      token_count_approx = char_count (bytes_between body from end) / 2;
    } in
    let rest = chunks_from body fuel (next_start_after body end) in
    if ltb start (length body)
    then (if leb (length body) end
        then some (chunk ∷ [])
        else Option.map (λ chunks. chunk ∷ chunks) rest)
    else some []

pub needs_chunking : Bytes → Bool
needs_chunking body = ltb chunk_size_chars (length body)

-- With this much fuel for the loop.
pub split_into_chunks : ℕ → Bytes → Option (List Chunk)
unfolding needs_chunking
split_into_chunks fuel body =
    if needs_chunking body
    then chunks_from body fuel 0
    else some (
        record {
          start_offset = 0;
          end_offset = length body;
          token_count_approx = char_count body / 2;
        }
        ∷ [])

on_to_boundary_here :
    (body : Bytes) (rounds : ℕ) → is_char_boundary body 0 ≡ true → on_to_boundary body rounds 0 ≡ 0
unfolding on_to_boundary
on_to_boundary_here body zero h = refl
on_to_boundary_here body (suc rounds) h = refl

next_char_boundary_zero : (body : Bytes) → next_char_boundary body 0 ≡ 0
unfolding next_char_boundary
next_char_boundary_zero body =
    let e : min 0 (length body) ≡ 0 = omega arith in
    rw e (on_to_boundary_here body (length body - 0) (is_char_boundary_zero body))

-- From an end within the overlap the loop comes back to the start of the body.
comes_back : (body : Bytes) (end : ℕ) → end ≤ chunk_overlap_chars → next_start_after body end ≡ 0
unfolding next_start_after
comes_back body end h =
    let e : end - chunk_overlap_chars ≡ 0 = omega arith in
    rw (e, next_char_boundary_zero) (ground arith)

chunks_from_diverges :
    (body : Bytes) (fuel : ℕ)
    → chunk_size_chars < length body
    → chunk_end body 0 ≤ chunk_overlap_chars
    → chunks_from body fuel 0 ≡ none
unfolding chunks_from
chunks_from_diverges body zero long near = ground arith
chunks_from_diverges body (suc fuel) long near =
    let again : chunks_from body fuel (next_start_after body (chunk_end body 0)) ≡ none =
      rw (comes_back body (chunk_end body 0) near) (chunks_from_diverges body fuel long near) in
    let here : next_char_boundary body 0 ≡ 0 = next_char_boundary_zero body in ground arith

desired_end_at_le : (body : Bytes) → desired_end_at body 0 ≤ chunk_size_chars
unfolding desired_end_at
desired_end_at_le body =
    let (le, b, _) = previous_char_boundary_lem body (min (0 + chunk_size_chars) (length body)) in
    omega arith

find_split_boundary_blank :
    (body : Bytes) (end pos : ℕ)
    → rfind_pair 10 10 (bytes_between body 0 end) ≡ some pos
    → find_split_boundary body 0 end ≡ pos + 2
unfolding find_split_boundary
find_split_boundary_blank body end pos found = ground arith

first_end :
    (body : Bytes) (pos : ℕ)
    → chunk_size_chars < length body
    → rfind_pair 10 10 (bytes_between body 0 (desired_end_at body 0)) ≡ some pos
    → chunk_end body 0 ≡ pos + 2
unfolding chunk_end
first_end body pos long found = ground (
  arith,
  desired_end_at_le body,
  find_split_boundary_blank body (desired_end_at body 0) pos found,
)

-- In a body of more than 800 bytes whose last blank line, within the window of the first chunk,
-- ends among the first 100 bytes, the loop never ends: no fuel is enough.
pub split_into_chunks_diverges :
    (body : Bytes) (pos fuel : ℕ)
    → chunk_size_chars < length body
    → rfind_pair 10 10 (bytes_between body 0 (desired_end_at body 0)) ≡ some pos
    → pos + 2 ≤ chunk_overlap_chars
    → split_into_chunks fuel body ≡ none
unfolding split_into_chunks
split_into_chunks_diverges body pos fuel long found near =
    let end = first_end body pos long found in
    let never = chunks_from_diverges body fuel long (omega (arith, end)) in ground arith
