-- ===== src/Chunking/Tokens.antt =====
-- `split_into_chunks_by_token_offsets` of src/chunking.rs. Of the body only its length is used.
use sqlite_graphrag.Base.{
  ℕ, zero, suc, ◌+◌, ◌-◌, ◌≤◌, ◌<◌, min, ◌≡◌, refl, ◌≢◌, inl, inr, false, Option, none, some, List,
  [], ◌∷◌, arith, length, get_or, All, Bool-cases, leb, ◌==◌, if◌then◌else◌,
}
use mathlib.Core.Option
use native.Mathlib.Decide.{ℕ_discrete}
use sqlite_graphrag.Chunking.{Chunk, chunk_size_tokens, chunk_overlap_tokens}

abbrev pub Offsets : Type 0
Offsets = List (ℕ × ℕ)

abbrev offset : Offsets → ℕ → ℕ × ℕ
offset offsets i = get_or offsets i (0, 0)

last_token : Offsets → ℕ → ℕ
last_token offsets start_token = min (start_token + chunk_size_tokens) (length offsets)

token_chunk : ℕ → Offsets → ℕ → ℕ → Chunk
token_chunk body_len offsets start_token end_token = record {
  start_offset = if start_token == 0 then 0 else (offset offsets start_token).0;
  end_offset = if end_token == length offsets then body_len else (offset offsets (end_token - 1)).1;
  token_count_approx = end_token - start_token;
}

next_token : ℕ → ℕ → ℕ
next_token start_token end_token =
    if leb (end_token - chunk_overlap_tokens) start_token
    then end_token
    else end_token - chunk_overlap_tokens

-- The `while` loop; `none` means that the fuel ran out.
token_chunks : ℕ → Offsets → ℕ → ℕ → Option (List Chunk)
token_chunks body_len offsets zero start_token =
    if leb (length offsets) start_token then some [] else none
token_chunks body_len offsets (suc fuel) start_token =
    let end_token = last_token offsets start_token in
    let chunk = token_chunk body_len offsets start_token end_token in
    let rest = token_chunks body_len offsets fuel (next_token start_token end_token) in
    if leb (length offsets) start_token
    then some []
    else if end_token == length offsets
    then some (chunk ∷ [])
    else Option.map (λ chunks. chunk ∷ chunks) rest

pub split_into_chunks_by_token_offsets : ℕ → Offsets → Option (List Chunk)
split_into_chunks_by_token_offsets body_len offsets =
    if leb (length offsets) chunk_size_tokens
    then some (
        record { start_offset = 0; end_offset = body_len; token_count_approx = length offsets }
        ∷ [])
    else token_chunks body_len offsets (length offsets) 0

-- A token ends no earlier than the tokens before it, and itself, start.
abbrev pub IsOrdered : Offsets → Type 0
IsOrdered offsets =
    (i j : ℕ) → i ≤ j → j < length offsets → (offset offsets i).0 ≤ (offset offsets j).1

-- The chunks leave no gap from `from` to `to`: each starts at or before the end of the last.
abbrev pub Covers : ℕ → ℕ → List Chunk → Type 0
Covers from to [] = from ≡ to
Covers from to (c ∷ cs) = (c.start_offset ≤ from) × Covers c.end_offset to cs

abbrev IsBounded : Chunk → Type 0
IsBounded c = c.token_count_approx ≤ chunk_size_tokens

module _ (body_len : ℕ) (offsets : Offsets) (ordered : IsOrdered offsets) where
  -- What the loop needs to know of a turn that is not the last.
  turn :
      (start_token : ℕ)
      → start_token < length offsets
      → last_token offsets start_token ≢ length offsets
      → let end_token = last_token offsets start_token in
        (start_token < next_token start_token end_token)
        × (next_token start_token end_token < length offsets)
        × ((token_chunk body_len offsets
              (next_token start_token end_token)
              (last_token offsets (next_token start_token end_token))).start_offset
            ≤ (token_chunk body_len offsets start_token end_token).end_offset)
  unfolding last_token next_token token_chunk
  turn start_token inside more =
      let end : min (start_token + chunk_size_tokens) (length offsets) ≡ start_token + 400 =
        omega arith in
      let next : leb (start_token + 400 - chunk_overlap_tokens) start_token ≡ false =
        ground arith in
      rw (end, next)
        (
          omega arith,
          omega arith,
          ground (arith, ordered (start_token + 400 - 50) (start_token + 400 - 1)),
        )

  final :
      (start_token : ℕ)
      → last_token offsets start_token ≡ length offsets
      → (token_chunk body_len offsets start_token (last_token offsets start_token)).end_offset
        ≡ body_len
  unfolding token_chunk
  final start_token last = ground arith

  short :
      (start_token : ℕ)
      → IsBounded (token_chunk body_len offsets start_token (last_token offsets start_token))
  unfolding token_chunk last_token
  short start_token = omega arith

  token_chunks_lem :
      (fuel from start_token : ℕ)
      → start_token < length offsets
      → length offsets ≤ start_token + fuel
      → (token_chunk body_len offsets start_token (last_token offsets start_token)).start_offset
        ≤ from
      → (chunks : List Chunk) × (token_chunks body_len offsets fuel start_token ≡ some chunks)
        × Covers from body_len chunks
        × All IsBounded chunks
  unfolding token_chunks
  token_chunks_lem zero from start_token inside enough begins = absurd (omega arith)
  token_chunks_lem (suc fuel) from start_token inside enough begins =
      let end_token = last_token offsets start_token in
      let chunk = token_chunk body_len offsets start_token end_token in
      elim (ℕ_discrete end_token (length offsets)) [
        | yes last ↦
            (chunk ∷ [], ground arith, (begins, final start_token last), (short start_token, tt))
        | no more ↦
            let (on, inside', joins) = turn start_token inside more in
            let (chunks, e, covers, bounded) =
              token_chunks_lem fuel chunk.end_offset (next_token start_token end_token) inside'
                (omega arith) joins in
            (chunk ∷ chunks, ground arith, (begins, covers), (short start_token, bounded))
      ]

starts :
    (body_len : ℕ) (offsets : Offsets)
    → (token_chunk body_len offsets 0 (last_token offsets 0)).start_offset ≤ 0
unfolding token_chunk
starts body_len offsets = omega arith

-- For token offsets in order: the split ends, each chunk counts at most 400 tokens, the first chunk
-- starts at 0, each later one starts at or before the end of the one before it, and the last ends
-- at the end of the body.
pub split_by_token_offsets-Covers :
    (body_len : ℕ) (offsets : Offsets)
    → IsOrdered offsets
    → (chunks : List Chunk) × (split_into_chunks_by_token_offsets body_len offsets ≡ some chunks)
      × Covers 0 body_len chunks
      × All (λ c. c.token_count_approx ≤ chunk_size_tokens) chunks
unfolding split_into_chunks_by_token_offsets
split_by_token_offsets-Covers body_len offsets ordered =
    elim (Bool-cases (leb (length offsets) chunk_size_tokens)) [
      | inl few ↦ (
        record { start_offset = 0; end_offset = body_len; token_count_approx = length offsets }
            ∷ [],
        ground arith,
        (omega arith, refl),
        (ground arith, tt),
      )
      | inr many ↦
          let (chunks, e, covers, bounded) =
            token_chunks_lem body_len offsets ordered (length offsets) 0 0 (ground arith)
              (omega arith) (starts body_len offsets) in
          (chunks, ground arith, covers, bounded)
    ]
