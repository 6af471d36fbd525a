-- ===== src/Chunking/Heuristic/Examples.antt =====
-- `split_into_chunks` of src/chunking.rs on a body where it does not end.
use sqlite_graphrag.Base.{
  ℕ, zero, suc, ◌+◌, ◌≤◌, ◌<◌, ◌≡◌, refl, none, some, [], ◌∷◌, length, arith,
}
use sqlite_graphrag.Chunking.{
  Bytes, bytes_between, is_continuation, is_char_boundary, back_to_boundary, previous_char_boundary,
  chunk_size_chars, chunk_overlap_chars,
}
use sqlite_graphrag.Chunking.Heuristic.{
  begins_with, rfind_pair, desired_end_at, split_into_chunks, split_into_chunks_diverges,
}

abbrev letters : ℕ → Bytes
letters zero = []
letters (suc n) = 97 ∷ letters n

-- A blank line at the start, and then one long paragraph.
abbrev long_paragraph : Bytes
long_paragraph = 10 ∷ 10 ∷ letters 900

length-letters : (n : ℕ) → length (letters n) ≡ n
length-letters zero = refl
length-letters (suc n) = ap_suc (length-letters n)
  where
    ap_suc : {a b : ℕ} → a ≡ b → suc a ≡ suc b
    ap_suc e = omega (arith, e)

is_long : chunk_size_chars < length long_paragraph
is_long = omega (arith, length-letters 900)

blank_line :
    rfind_pair 10 10 (bytes_between long_paragraph 0 (desired_end_at long_paragraph 0)) ≡ some 0
unfolding rfind_pair begins_with desired_end_at previous_char_boundary back_to_boundary
    is_char_boundary is_continuation
blank_line = refl

in_overlap : 0 + 2 ≤ chunk_overlap_chars
in_overlap = omega arith

split_into_chunks_diverges_example : split_into_chunks 1000 long_paragraph ≡ none
split_into_chunks_diverges_example =
    split_into_chunks_diverges long_paragraph 0 1000 is_long blank_line in_overlap
