-- ===== src/Chunking/Markdown/Partition.antt =====
-- `split_body_by_sections` loses nothing and keeps the byte budget.
use sqlite_graphrag.Base.{
  ℕ, ◌+◌, ◌≤◌, ◌≡◌, refl, sym, ap, ◌∙◌, inl, inr, true, ◌&&◌, not, some, List, [], ◌∷◌, ◌++◌,
  append_assoc, append-nil, arith, length, All, All-append, All-imp, Bool-cases, ltb, if◌then◌else◌,
}
use sqlite_graphrag.Chunking.{Bytes, is_empty, autosplit_partition_max_bytes}
use sqlite_graphrag.Chunking.Boundary.{IsUtf8, IsUtf8-part}
use sqlite_graphrag.Chunking.Pieces.{concat, hard_slice_to_budget_lossless}
use sqlite_graphrag.Chunking.Markdown.Starts.{
  StartsChar, WholeLines, CutsAt-StartsChar, or_whole-StartsChar, packed-StartsChar,
}
use sqlite_graphrag.Chunking.Markdown.{
  add_to_first, split_inclusive, is_atx_header, sections_from, or_whole, split_markdown_sections,
  pack_from, fits_single_partition, slice_oversized, split_body_by_sections,
}

concat-append : (ps qs : List Bytes) → concat (ps ++ qs) ≡ concat ps ++ concat qs
concat-append [] qs = refl
concat-append (p ∷ ps) qs =
    ap (λ s. p ++ s) (concat-append ps qs) ∙ sym (append_assoc p (concat ps) (concat qs))

concat-add_to_first :
    (c : ℕ) (lines : List Bytes) → concat (add_to_first c lines) ≡ c ∷ concat lines
unfolding add_to_first
concat-add_to_first c [] = refl
concat-add_to_first c (line ∷ lines) = refl

concat-split_inclusive : (s : Bytes) → concat (split_inclusive s) ≡ s
unfolding split_inclusive
concat-split_inclusive [] = refl
concat-split_inclusive (c ∷ s) =
    ground (arith, concat-split_inclusive s, concat-add_to_first c (split_inclusive s))

-- The text that is still open, at the end of a loop.
concat-last : (current : Bytes) → concat (if is_empty current then [] else current ∷ []) ≡ current
unfolding is_empty
concat-last [] = refl
concat-last (c ∷ s) = append-nil (c ∷ s)

concat-sections_from :
    (current : Bytes) (lines : List Bytes)
    → concat (sections_from current lines) ≡ current ++ concat lines
unfolding sections_from
concat-sections_from current [] = concat-last current ∙ sym (append-nil current)
concat-sections_from current (line ∷ lines) =
    elim (Bool-cases (is_atx_header line && not (is_empty current))) [
      | inl cut ↦ rw (cut, sections_from) (ap (λ s. current ++ s) (concat-sections_from line lines))
      | inr go ↦
          rw (go, sections_from)
            (concat-sections_from (current ++ line) lines
              ∙ append_assoc current line (concat lines))
    ]

concat-or_whole :
    (body : Bytes) (ps : List Bytes) → concat ps ≡ body → concat (or_whole body ps) ≡ body
unfolding or_whole
concat-or_whole body [] h = append-nil body
concat-or_whole body (p ∷ ps) h = h

concat-pack_from :
    (max_bytes : ℕ) (current : Bytes) (sections : List Bytes)
    → concat (pack_from max_bytes current sections) ≡ current ++ concat sections
unfolding pack_from
concat-pack_from max_bytes current [] = concat-last current ∙ sym (append-nil current)
concat-pack_from max_bytes current (p ∷ ps) =
    elim (Bool-cases (not (is_empty current) && ltb max_bytes (length current + length p))) [
      | inl cut ↦ rw (cut, pack_from) (ap (λ s. current ++ s) (concat-pack_from max_bytes p ps))
      | inr go ↦
          rw (go, pack_from)
            (concat-pack_from max_bytes (current ++ p) ps ∙ append_assoc current p (concat ps))
    ]

-- Each part stands somewhere in the whole.
IsUtf8-All : (before : Bytes) (ps : List Bytes) → IsUtf8 (before ++ concat ps) → All IsUtf8 ps
IsUtf8-All before [] u = tt
IsUtf8-All before (p ∷ ps) u =
    (IsUtf8-part before p (concat ps) u, IsUtf8-All (before ++ p) ps (rw append_assoc u))

abbrev IsSmall : Bytes → Type 0
IsSmall p = length p ≤ autosplit_partition_max_bytes

or_whole-IsSmall :
    (body : Bytes) (ps : List Bytes)
    → concat ps ≡ body
    → All IsSmall ps
    → All IsSmall (or_whole body ps)
unfolding or_whole
or_whole-IsSmall body [] h small = (omega (arith, ap length h), tt)
or_whole-IsSmall body (p ∷ ps) h small = small

concat-split_markdown_sections : (body : Bytes) → concat (split_markdown_sections body) ≡ body
unfolding split_markdown_sections
concat-split_markdown_sections body =
    concat-or_whole body (sections_from [] (split_inclusive body))
      (concat-sections_from [] (split_inclusive body) ∙ concat-split_inclusive body)

budget_four : 4 ≤ autosplit_partition_max_bytes
budget_four = omega arith

module _ (estimate_chunk_count count_tokens : Bytes → ℕ) where
  fits_length :
      (p : Bytes)
      → fits_single_partition estimate_chunk_count count_tokens p ≡ true
      → length p ≤ autosplit_partition_max_bytes
  unfolding fits_single_partition
  fits_length p h = ground arith

  slice_oversized_lem :
      (packed : List Bytes)
      → All IsUtf8 packed
      → All StartsChar packed
      → (parts : List Bytes) × (slice_oversized estimate_chunk_count count_tokens packed
          ≡ some parts)
        × (concat parts ≡ concat packed)
        × All IsSmall parts
        × All StartsChar parts
  unfolding slice_oversized
  slice_oversized_lem [] u starts = ([], refl, refl, tt, tt)
  slice_oversized_lem (p ∷ packed) u starts =
      let (parts, e, whole, small, begin) = slice_oversized_lem packed u.1 starts.1 in
      let (pieces, f, cut, sized, cuts) =
        hard_slice_to_budget_lossless autosplit_partition_max_bytes p budget_four u.0 in
      elim (Bool-cases (fits_single_partition estimate_chunk_count count_tokens p)) [
        | inl fits ↦ (
          p ∷ parts,
          ground arith,
          ap (λ s. p ++ s) whole,
          (fits_length p fits, small),
          (starts.0, begin),
        )
        | inr big ↦ (
          pieces ++ parts,
          ground arith,
          concat-append pieces parts ∙ cc (whole, cut),
          All-append IsSmall pieces parts (All-imp _ _ (λ q h. h.1) pieces sized) small,
          All-append StartsChar pieces parts (CutsAt-StartsChar p 0 pieces starts.0 cut cuts) begin,
        )
      ]

  -- For a UTF-8 body (also: it and what follows each newline begin with a character), and whatever
  -- the splitter and the tokenizer say: the split ends without a panic, its partitions put together
  -- are the body, each is within the byte budget, and none begins in the middle of a character.
  pub split_body_by_sections_lossless :
      (body : Bytes)
      → IsUtf8 body
      → StartsChar body
      → WholeLines body
      → (parts : List Bytes) × (split_body_by_sections estimate_chunk_count count_tokens body
          ≡ some parts)
        × (concat parts ≡ body)
        × All (λ p. length p ≤ autosplit_partition_max_bytes) parts
        × All StartsChar parts
  unfolding split_body_by_sections
  split_body_by_sections_lossless body u starts lines =
      let packed = pack_from autosplit_partition_max_bytes [] (split_markdown_sections body) in
      let packed_whole : concat packed ≡ body =
        concat-pack_from autosplit_partition_max_bytes [] (split_markdown_sections body)
        ∙ concat-split_markdown_sections body in
      let (parts, e, whole, small, begin) =
        slice_oversized_lem packed (IsUtf8-All [] packed (rw packed_whole u))
          (packed-StartsChar autosplit_partition_max_bytes body starts lines) in
      elim (Bool-cases (fits_single_partition estimate_chunk_count count_tokens body)) [
        | inl fits ↦
            (body ∷ [], ground arith, append-nil body, (fits_length body fits, tt), (starts, tt))
        | inr big ↦ (
          or_whole body parts,
          ground arith,
          concat-or_whole body parts (whole ∙ packed_whole),
          or_whole-IsSmall body parts (whole ∙ packed_whole) small,
          or_whole-StartsChar body parts starts begin,
        )
      ]
