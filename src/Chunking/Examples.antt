-- ===== src/Chunking/Examples.antt =====
-- src/chunking.rs on concrete bodies.
use sqlite_graphrag.Base.{
  ℕ, zero, suc, ◌≤◌, ◌<◌, ◌≡◌, refl, some, List, [], ◌∷◌, length, get_or, arith, All,
}
use sqlite_graphrag.Chunking.{
  Bytes, Chunk, is_continuation, hard_slice_to_budget, chunk_size_tokens,
  autosplit_partition_max_bytes,
}
use sqlite_graphrag.Chunking.Boundary.{IsUtf8}
use sqlite_graphrag.Chunking.Pieces.{concat, CutsAt, hard_slice_to_budget_lossless}
use sqlite_graphrag.Chunking.Markdown.{split_body_by_sections}
use sqlite_graphrag.Chunking.Markdown.Starts.{StartsChar, WholeLines}
use sqlite_graphrag.Chunking.Markdown.Partition.{split_body_by_sections_lossless}
use sqlite_graphrag.Chunking.Tokens.{
  Offsets, IsOrdered, Covers, split_into_chunks_by_token_offsets, split_by_token_offsets-Covers,
}

-- "hé!!": the second and third bytes are one character.
abbrev accented : Bytes
accented = 104 ∷ 195 ∷ 169 ∷ 33 ∷ 33 ∷ []

accented-IsUtf8 : IsUtf8 accented
unfolding is_continuation
accented-IsUtf8 zero h = (0, omega arith, omega arith, refl)
accented-IsUtf8 (suc zero) h = (1, omega arith, omega arith, refl)
accented-IsUtf8 (suc (suc i)) h = absurd (omega (arith, h))

accented-StartsChar : StartsChar accented
unfolding is_continuation
accented-StartsChar = refl

accented-WholeLines : WholeLines accented
accented-WholeLines = (
  (λ e. absurd (omega (arith, e))),
  (
    (λ e. absurd (omega (arith, e))),
    (
      (λ e. absurd (omega (arith, e))),
      ((λ e. absurd (omega (arith, e))), ((λ e. absurd (omega (arith, e))), tt)),
    ),
  ),
)

four_fits : 4 ≤ 4
four_fits = omega arith

hard_slice_to_budget_lossless_example :
    (pieces : List Bytes) × (hard_slice_to_budget 4 accented ≡ some pieces)
    × (concat pieces ≡ accented)
    × All (λ p. (0 < length p) × (length p ≤ 4)) pieces
    × CutsAt accented 0 pieces
hard_slice_to_budget_lossless_example =
    hard_slice_to_budget_lossless 4 accented four_fits accented-IsUtf8

-- A body that the counters find too large, so that it is split.
split_body_by_sections_lossless_example :
    (parts : List Bytes) × (split_body_by_sections (λ b. 600) (λ b. length b) accented ≡ some parts)
    × (concat parts ≡ accented)
    × All (λ p. length p ≤ autosplit_partition_max_bytes) parts
    × All StartsChar parts
split_body_by_sections_lossless_example =
    split_body_by_sections_lossless (λ b. 600) (λ b. length b) accented accented-IsUtf8
      accented-StartsChar accented-WholeLines

abbrev tokens : ℕ → Offsets
tokens zero = []
tokens (suc n) = (0, 10) ∷ tokens n

tokens_start : (n i : ℕ) → (get_or (tokens n) i (0, 0)).0 ≡ 0
tokens_start zero i = refl
tokens_start (suc n) zero = refl
tokens_start (suc n) (suc i) = tokens_start n i

tokens-IsOrdered : IsOrdered (tokens 500)
tokens-IsOrdered i j le h = omega (arith, tokens_start 500 i)

split_by_token_offsets-Covers_example :
    (chunks : List Chunk) × (split_into_chunks_by_token_offsets 10 (tokens 500) ≡ some chunks)
    × Covers 0 10 chunks
    × All (λ c. c.token_count_approx ≤ chunk_size_tokens) chunks
split_by_token_offsets-Covers_example =
    split_by_token_offsets-Covers 10 (tokens 500) tokens-IsOrdered
