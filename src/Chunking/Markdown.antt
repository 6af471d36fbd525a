-- ===== src/Chunking/Markdown.antt =====
-- The section split of src/chunking.rs: a large body becomes partitions, cut at Markdown headers.
pub mod Starts
pub mod Partition
use sqlite_graphrag.Base.{
  ℕ, zero, suc, ◌+◌, ◌-◌, ◌≤◌, Bool, true, false, not, ◌&&◌, ◌||◌, Option, none, some, List, [],
  ◌∷◌, ◌++◌, length, drop, ltb, leb, ◌==◌, if◌then◌else◌,
}
use mathlib.Core.Option
use sqlite_graphrag.Chunking.{Bytes, is_empty, hard_slice_to_budget, autosplit_partition_max_bytes}

-- `body.split_inclusive('\n')`
add_to_first : ℕ → List Bytes → List Bytes
add_to_first c [] = (c ∷ []) ∷ []
add_to_first c (line ∷ lines) = (c ∷ line) ∷ lines

pub split_inclusive : Bytes → List Bytes
unfolding add_to_first
split_inclusive [] = []
split_inclusive (c ∷ s) =
    let rest = split_inclusive s in if c == 10 then (c ∷ []) ∷ rest else add_to_first c rest

-- `line.trim_start_matches(' ')`
trim_spaces : Bytes → Bytes
trim_spaces [] = []
trim_spaces (c ∷ s) = let rest = trim_spaces s in if c == b' ' then rest else c ∷ s

count_hashes : Bytes → ℕ
count_hashes [] = 0
count_hashes (c ∷ s) = let rest = count_hashes s in if c == b'#' then suc rest else 0

ends_header : Bytes → Bool
ends_header [] = true
ends_header (c ∷ _) = (c == b' ') || (c == 10) || (c == 9)

pub is_atx_header : Bytes → Bool
unfolding trim_spaces count_hashes ends_header
is_atx_header line =
    let trimmed = trim_spaces line in
    let hashes = count_hashes trimmed in
    if (hashes == 0) || ltb 6 hashes then false else ends_header (drop hashes trimmed)

-- The loop over the lines; `current` is the section under way.
pub sections_from : Bytes → List Bytes → List Bytes
sections_from current [] = if is_empty current then [] else current ∷ []
sections_from current (line ∷ lines) = elim (is_atx_header line && not (is_empty current)) [
  | true ↦ current ∷ sections_from line lines
  | false ↦ sections_from (current ++ line) lines
]

pub or_whole : Bytes → List Bytes → List Bytes
or_whole body [] = body ∷ []
or_whole body (p ∷ ps) = p ∷ ps

pub split_markdown_sections : Bytes → List Bytes
split_markdown_sections body = or_whole body (sections_from [] (split_inclusive body))

-- The greedy packing; `current` is the partition under way.
pub pack_from : ℕ → Bytes → List Bytes → List Bytes
pack_from max_bytes current [] = if is_empty current then [] else current ∷ []
pack_from max_bytes current (section ∷ sections) =
    elim (not (is_empty current) && ltb max_bytes (length current + length section)) [
      | true ↦ current ∷ pack_from max_bytes section sections
      | false ↦ pack_from max_bytes (current ++ section) sections
    ]

-- `estimate_chunk_count` runs the splitter of the text_splitter crate, and `count_tokens` that of
-- the tokenizer crate.
module _ (estimate_chunk_count count_tokens : Bytes → ℕ) where
  pub fits_single_partition : Bytes → Bool
  fits_single_partition body =
      leb (length body) autosplit_partition_max_bytes
      && leb (estimate_chunk_count body) 512
      && leb (count_tokens body) 30000

  -- Each packed partition as it stands, or sliced.
  pub slice_oversized : List Bytes → Option (List Bytes)
  slice_oversized [] = some []
  slice_oversized (partition ∷ packed) =
      let rest = slice_oversized packed in
      elim rest [
        | none ↦ none
        | some parts ↦
            if fits_single_partition partition
            then some (partition ∷ parts)
            else Option.map (λ pieces. pieces ++ parts)
                (hard_slice_to_budget autosplit_partition_max_bytes partition)
      ]

  pub split_body_by_sections : Bytes → Option (List Bytes)
  split_body_by_sections body =
      if fits_single_partition body
      then some (body ∷ [])
      else Option.map (or_whole body) (
          slice_oversized
            (pack_from autosplit_partition_max_bytes [] (split_markdown_sections body)))
