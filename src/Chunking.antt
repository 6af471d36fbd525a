-- ===== src/Chunking.antt =====
-- src/chunking.rs over the bytes of a body (a Rust `String`, so UTF-8). Slices are by byte offset.
pub mod Boundary
pub mod Pieces
pub mod Markdown
pub mod Tokens
pub mod Heuristic
pub mod Examples
use sqlite_graphrag.Base.{
  ℕ, zero, suc, ◌+◌, ◌-◌, ◌*◌, ◌/◌, min, Bool, true, false, not, ◌&&◌, ◌||◌, Option, none, some,
  List, [], ◌∷◌, ◌++◌, length, get_or, take, drop, ltb, leb, ◌==◌, if◌then◌else◌,
}
use mathlib.Core.Option

abbrev pub Bytes : Type 0
Bytes = List ℕ

-- src/constants/limits.rs
abbrev pub chunk_size_tokens : ℕ
chunk_size_tokens = 400

abbrev pub chunk_overlap_tokens : ℕ
chunk_overlap_tokens = 50

abbrev pub autosplit_partition_max_bytes : ℕ
autosplit_partition_max_bytes = 80 * 1024

abbrev chars_per_token : ℕ
chars_per_token = 2

abbrev pub chunk_size_chars : ℕ
chunk_size_chars = 400 * 2

abbrev pub chunk_overlap_chars : ℕ
chunk_overlap_chars = 50 * 2

pub record Chunk : Type 0 where
  pub start_offset : ℕ
  pub end_offset : ℕ
  pub token_count_approx : ℕ

-- The bytes 0x80 to 0xBF continue a character.
pub is_continuation : ℕ → Bool
is_continuation b = leb 128 b && ltb b 192

-- `str::is_char_boundary`
pub is_char_boundary : Bytes → ℕ → Bool
unfolding is_continuation
is_char_boundary body idx =
    if idx == 0
    then true
    else if leb (length body) idx
    then idx == length body
    else not (is_continuation (get_or body idx 0))

-- `s.chars().count()`
char_count : Bytes → ℕ
unfolding is_continuation
char_count [] = 0
char_count (b ∷ s) = let rest = char_count s in if is_continuation b then rest else suc rest

pub is_empty : Bytes → Bool
is_empty [] = true
is_empty (_ ∷ _) = false

-- The bytes from an offset on and before another.
abbrev pub bytes_between : Bytes → ℕ → ℕ → Bytes
bytes_between body from to = take (to - from) (drop from body)

-- `body[start..end]`, which panics (`none`) where the offsets are not in order or one is not a
-- boundary of a character, inside the body.
pub slice : Bytes → ℕ → ℕ → Option Bytes
unfolding is_char_boundary
slice body from to =
    if leb from to && is_char_boundary body from && is_char_boundary body to
    then some (bytes_between body from to)
    else none

pub back_to_boundary : Bytes → ℕ → ℕ
unfolding is_char_boundary
back_to_boundary body zero = 0
back_to_boundary body (suc i) =
    let lower = back_to_boundary body i in if is_char_boundary body (suc i) then suc i else lower

pub previous_char_boundary : Bytes → ℕ → ℕ
unfolding back_to_boundary
previous_char_boundary body idx = back_to_boundary body (min idx (length body))

-- The loop runs while `idx < len`, so at most `len - idx` times.
pub on_to_boundary : Bytes → ℕ → ℕ → ℕ
unfolding is_char_boundary
on_to_boundary body zero idx = idx
on_to_boundary body (suc rounds) idx =
    let higher = on_to_boundary body rounds (suc idx) in
    if is_char_boundary body idx then idx else higher

pub next_char_boundary : Bytes → ℕ → ℕ
unfolding on_to_boundary
next_char_boundary body idx =
    on_to_boundary body (length body - min idx (length body)) (min idx (length body))

-- The end of the piece that starts at `start`, in `hard_slice_to_budget`.
pub piece_end : ℕ → Bytes → ℕ → ℕ
piece_end max_bytes body start =
    let end = previous_char_boundary body (min (start + max_bytes) (length body)) in
    if leb end start then next_char_boundary body (start + 1) else end

-- The `while` loop; `none` means that the fuel ran out or that a slice panicked.
pub pieces_from : ℕ → Bytes → ℕ → ℕ → Option (List Bytes)
pieces_from max_bytes body zero start = if ltb start (length body) then none else some []
pieces_from max_bytes body (suc fuel) start =
    let end = piece_end max_bytes body start in
    let rest = pieces_from max_bytes body fuel end in
    if ltb start (length body)
    then elim (slice body start end) [
      | none ↦ none
      | some piece ↦ Option.map (λ pieces. piece ∷ pieces) rest
    ]
    else some []

pub hard_slice_to_budget : ℕ → Bytes → Option (List Bytes)
hard_slice_to_budget max_bytes body = pieces_from max_bytes body (length body) 0
