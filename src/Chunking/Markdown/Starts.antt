-- ===== src/Chunking/Markdown/Starts.antt =====
-- The partitions of src/chunking.rs begin where a character does.
use sqlite_graphrag.Base.{
  ℕ, zero, suc, ◌+◌, ◌<◌, ◌≡◌, refl, sym, ap, ◌∙◌, inl, inr, true, false, not, ◌&&◌, List, [], ◌∷◌,
  ◌++◌, get_or, drop, length, length-drop, arith, All, Bool-cases, ltb, ◌==◌, ==_iff, if◌then◌else◌,
}
use sqlite_graphrag.Chunking.{Bytes, is_continuation, is_char_boundary, is_empty}
use sqlite_graphrag.Chunking.Pieces.{concat, CutsAt}
use sqlite_graphrag.Chunking.Markdown.{
  add_to_first, split_inclusive, is_atx_header, sections_from, or_whole, split_markdown_sections,
  pack_from,
}

-- The text does not begin in the middle of a character.
abbrev pub StartsChar : Bytes → Type 0
StartsChar s = is_continuation (get_or s 0 0) ≡ false

-- A character starts after each newline, as in UTF-8 after every ASCII byte.
abbrev pub WholeLines : Bytes → Type 0
WholeLines [] = Unit
WholeLines (c ∷ s) = ((c ≡ 10) → StartsChar s) × WholeLines s

empty_starts : StartsChar []
unfolding is_continuation
empty_starts = refl

get_or-drop : (i : ℕ) (xs : Bytes) → get_or (drop i xs) 0 0 ≡ get_or xs i 0
get_or-drop zero xs = refl
get_or-drop (suc i) [] = refl
get_or-drop (suc i) (x ∷ xs) = get_or-drop i xs

drop-drop : (i k : ℕ) (xs : Bytes) → drop (i + k) xs ≡ drop k (drop i xs)
drop-drop zero k xs = let e : 0 + k ≡ k = omega arith in rw e refl
drop-drop (suc i) zero [] = let e : suc i + 0 ≡ suc i = omega arith in rw e refl
drop-drop (suc i) (suc k) [] = let e : suc i + suc k ≡ suc (i + suc k) = omega arith in rw e refl
drop-drop (suc i) k (x ∷ xs) =
    let e : suc i + k ≡ suc (i + k) = omega arith in rw e (drop-drop i k xs)

drop-append : (p s : Bytes) → drop (length p) (p ++ s) ≡ s
drop-append [] s = refl
drop-append (x ∷ p) s = drop-append p s

boundary_starts :
    (body : Bytes) (at : ℕ)
    → StartsChar body
    → at < length body
    → is_char_boundary body at ≡ true
    → is_continuation (get_or body at 0) ≡ false
unfolding is_char_boundary
boundary_starts body zero whole inside b = whole
boundary_starts body (suc at) whole inside b = ground arith

pub CutsAt-StartsChar :
    (body : Bytes) (at : ℕ) (ps : List Bytes)
    → StartsChar body
    → concat ps ≡ drop at body
    → CutsAt body at ps
    → All StartsChar ps
CutsAt-StartsChar body at [] whole h cuts = tt
CutsAt-StartsChar body at ([] ∷ ps) whole h (b, cuts) =
    let e : at + 0 ≡ at = omega arith in
    (empty_starts, CutsAt-StartsChar body at ps whole h (rw e at cuts))
CutsAt-StartsChar body at ((c ∷ p) ∷ ps) whole h (b, cuts) =
    let first : get_or body at 0 ≡ c = sym (get_or-drop at body) ∙ ap (λ s. get_or s 0 0) (sym h) in
    let inside : at < length body = omega (arith, ap length h, length-drop at body) in
    let rest : concat ps ≡ drop (at + length (c ∷ p)) body =
      sym (drop-append (c ∷ p) (concat ps))
      ∙ ap (drop (length (c ∷ p))) h
      ∙ sym (drop-drop at (length (c ∷ p)) body) in
    (
      (let f = boundary_starts body at whole inside b in rw first at f),
      CutsAt-StartsChar body (at + length (c ∷ p)) ps whole rest cuts,
    )

-- All lines but the first.
abbrev later_lines : List Bytes → List Bytes
later_lines [] = []
later_lines (line ∷ lines) = lines

add_to_first-later :
    (c : ℕ) (lines : List Bytes) → later_lines (add_to_first c lines) ≡ later_lines lines
unfolding add_to_first
add_to_first-later c [] = refl
add_to_first-later c (line ∷ lines) = refl

add_to_first-StartsChar :
    (c : ℕ) (lines : List Bytes)
    → is_continuation c ≡ false
    → All StartsChar (later_lines lines)
    → All StartsChar (add_to_first c lines)
unfolding add_to_first
add_to_first-StartsChar c [] e h = (e, tt)
add_to_first-StartsChar c (line ∷ lines) e h = (e, h)

split_inclusive-StartsChar :
    (s : Bytes)
    → WholeLines s
    → All StartsChar (later_lines (split_inclusive s))
      × (StartsChar s → All StartsChar (split_inclusive s))
unfolding split_inclusive
split_inclusive-StartsChar [] w = (tt, λ h. tt)
split_inclusive-StartsChar (c ∷ s) w =
    let (later, all) = split_inclusive-StartsChar s w.1 in
    elim (Bool-cases (c == 10)) [
      | inl e ↦ let rest = all (w.0 ((==_iff c 10).0 e)) in rw e (rest, λ h. (h, rest))
      | inr e ↦
          rw (e, add_to_first-later)
            (later, λ h. add_to_first-StartsChar c (split_inclusive s) h later)
    ]

append-StartsChar : (p q : Bytes) → StartsChar p → StartsChar q → StartsChar (p ++ q)
append-StartsChar [] q h k = k
append-StartsChar (c ∷ p) q h k = h

last-StartsChar :
    (current : Bytes)
    → StartsChar current
    → All StartsChar (if is_empty current then [] else current ∷ [])
unfolding is_empty
last-StartsChar [] h = tt
last-StartsChar (c ∷ s) h = (h, tt)

sections_from-StartsChar :
    (current : Bytes) (lines : List Bytes)
    → StartsChar current
    → All StartsChar lines
    → All StartsChar (sections_from current lines)
unfolding sections_from
sections_from-StartsChar current [] h k = last-StartsChar current h
sections_from-StartsChar current (line ∷ lines) h k =
    elim (Bool-cases (is_atx_header line && not (is_empty current))) [
      | inl cut ↦ rw (cut, sections_from) (h, sections_from-StartsChar line lines k.0 k.1)
      | inr go ↦
          rw (go, sections_from)
            (sections_from-StartsChar (current ++ line) lines (append-StartsChar current line h k.0)
              k.1)
    ]

pub or_whole-StartsChar :
    (body : Bytes) (ps : List Bytes)
    → StartsChar body
    → All StartsChar ps
    → All StartsChar (or_whole body ps)
unfolding or_whole
or_whole-StartsChar body [] h k = (h, tt)
or_whole-StartsChar body (p ∷ ps) h k = k

pack_from-StartsChar :
    (max_bytes : ℕ) (current : Bytes) (sections : List Bytes)
    → StartsChar current
    → All StartsChar sections
    → All StartsChar (pack_from max_bytes current sections)
unfolding pack_from
pack_from-StartsChar max_bytes current [] h k = last-StartsChar current h
pack_from-StartsChar max_bytes current (p ∷ ps) h k =
    elim (Bool-cases (not (is_empty current) && ltb max_bytes (length current + length p))) [
      | inl cut ↦ rw (cut, pack_from) (h, pack_from-StartsChar max_bytes p ps k.0 k.1)
      | inr go ↦
          rw (go, pack_from)
            (pack_from-StartsChar max_bytes (current ++ p) ps (append-StartsChar current p h k.0)
              k.1)
    ]

-- The packed partitions of a body, before any of them is sliced.
pub packed-StartsChar :
    (max_bytes : ℕ) (body : Bytes)
    → StartsChar body
    → WholeLines body
    → All StartsChar (pack_from max_bytes [] (split_markdown_sections body))
unfolding split_markdown_sections
packed-StartsChar max_bytes body h w =
    pack_from-StartsChar max_bytes [] (split_markdown_sections body) empty_starts (
      or_whole-StartsChar body (sections_from [] (split_inclusive body)) h (
        sections_from-StartsChar [] (split_inclusive body) empty_starts
          ((split_inclusive-StartsChar body w).1 h)))
