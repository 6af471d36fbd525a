-- ===== src/Labels.antt =====
-- src/parsers/mod.rs, src/entity_type.rs and the name check of src/storage/entities/mod.rs: how the
-- names of entities, their types and the relations are normalised and refused. A label is the list
-- of its characters' code points. What stands on the tables of Unicode (the crate
-- unicode-normalization, `to_lowercase`, `is_whitespace`) is a parameter; a message is the name of
-- the function of src/i18n that writes it, or the start of its text.
pub mod Trim
pub mod Names
pub mod Relations
pub mod Examples
use Prim.Native.Char.{code}
use sqlite_graphrag.Base.{
  ℕ, ◌+◌, ◌≡◌, String, Bool, true, false, ◌&&◌, ◌||◌, List, [], ◌∷◌, map, ltb, leb, ◌==◌, filter,
  length, if◌then◌else◌, All, Result, ok, err, ◌>>=◌, ◌<◌,
}
use sqlite_graphrag.Errors.{AppError, validation}

abbrev pub Label : Type 0
Label = List ℕ

abbrev pub codes : String → Label
codes String.[] = []
codes (String.◌∷◌ c s) = code c ∷ codes s

unfoldable pub label_eq : Label → Label → Bool
label_eq [] [] = true
label_eq [] (d ∷ t) = false
label_eq (c ∷ s) [] = false
label_eq (c ∷ s) (d ∷ t) = let rest = label_eq s t in c == d && rest

-- `iter().all(…)` and `contains`
abbrev pub all : (ℕ → Bool) → Label → Bool
all p [] = true
all p (c ∷ s) = p c && all p s

unfoldable pub contains : List Label → Label → Bool
unfolding label_eq
contains [] s = false
contains (l ∷ ls) s = let rest = contains ls s in label_eq l s || rest

-- The ASCII classes of characters.
abbrev pub is_ascii : ℕ → Bool
is_ascii c = ltb c 128

abbrev pub is_upper : ℕ → Bool
is_upper c = leb b'A' c && leb c b'Z'

abbrev pub is_lower : ℕ → Bool
is_lower c = leb b'a' c && leb c b'z'

abbrev pub is_digit : ℕ → Bool
is_digit c = leb b'0' c && leb c b'9'

abbrev pub is_alphanumeric : ℕ → Bool
is_alphanumeric c = is_upper c || is_lower c || is_digit c

abbrev pub hyphen : ℕ
hyphen = b'-'

abbrev pub underscore : ℕ
underscore = b'_'

abbrev pub is_hyphen : ℕ → Bool
is_hyphen c = c == hyphen

abbrev pub ascii_lower : ℕ → ℕ
ascii_lower c = if is_upper c then c + 32 else c

abbrev pub is_newline : ℕ → Bool
is_newline c = c == 10 || c == 13

abbrev pub any : (ℕ → Bool) → Label → Bool
any p [] = false
any p (c ∷ s) = p c || any p s

-- `char::len_utf8` and `str::len`
abbrev pub width : ℕ → ℕ
width c = if ltb c 128 then 1 else if ltb c 2048 then 2 else if ltb c 65536 then 3 else 4

abbrev pub len : Label → ℕ
len [] = 0
len (c ∷ s) = width c + len s

abbrev pub replace : ℕ → ℕ → ℕ → ℕ
replace a b c = if c == a then b else c

unfoldable pub trim_start : (ℕ → Bool) → Label → Label
trim_start p [] = []
trim_start p (c ∷ s) = let rest = trim_start p s in if p c then rest else c ∷ s

abbrev pub keep_before : Bool → ℕ → Label → Label
keep_before true c [] = []
keep_before _ c s = c ∷ s

unfoldable pub trim_end : (ℕ → Bool) → Label → Label
trim_end p [] = []
trim_end p (c ∷ s) = keep_before (p c) c (trim_end p s)

abbrev pub trim : (ℕ → Bool) → Label → Label
trim p s = trim_end p (trim_start p s)

pub record Unicode : Type 0 where
  pub nfkd : Label → Label
  pub to_lowercase : Label → Label
  pub is_whitespace : ℕ → Bool

-- What holds of the tables on ASCII text.
pub record IsUnicode (u : Unicode) : Type 0 where
  pub nfkd_ascii : (s : Label) → All (λ c. c < 128) s → u.nfkd s ≡ s
  pub lower_ascii : (s : Label) → All (λ c. c < 128) s → u.to_lowercase s ≡ map ascii_lower s

-- Relations.
abbrev pub canonical_relations : List Label
canonical_relations =
    codes "applies-to"
    ∷ codes "uses"
    ∷ codes "depends-on"
    ∷ codes "causes"
    ∷ codes "fixes"
    ∷ codes "contradicts"
    ∷ codes "supports"
    ∷ codes "follows"
    ∷ codes "related"
    ∷ codes "mentions"
    ∷ codes "replaces"
    ∷ codes "tracked-in"
    ∷ []

unfoldable pub is_canonical_relation : Label → Bool
unfolding contains
is_canonical_relation s = contains canonical_relations s

unfoldable pub normalize_relation : Unicode → Label → Label
normalize_relation u s = map (replace underscore hyphen) (u.to_lowercase s)

-- The match of `map_to_canonical_relation`.
unfoldable pub alias : Label → Label
unfolding label_eq
alias s =
    if label_eq s (codes "adds") || label_eq s (codes "creates")
    then codes "causes"
    else if label_eq s (codes "implements")
    then codes "supports"
    else if label_eq s (codes "blocks")
    then codes "contradicts"
    else if label_eq s (codes "tested-by") || label_eq s (codes "related-to")
    then codes "related"
    else if label_eq s (codes "part-of")
    then codes "applies-to"
    else codes "related"

unfoldable pub map_to_canonical_relation : Unicode → Label → Label
unfolding is_canonical_relation normalize_relation alias
map_to_canonical_relation u s =
    let normalized = normalize_relation u s in
    if is_canonical_relation normalized then normalized else alias normalized

unfoldable pub validate_relation_format : Label → Result String (Unit {0})
validate_relation_format [] = err "relation must not be empty"
validate_relation_format (c ∷ s) =
    if is_lower c
    then if all (λ b. is_lower b || is_digit b || b == hyphen) (c ∷ s)
      then ok tt
      else err "relation must contain only lowercase letters, digits and hyphens"
    else err "relation must start with a lowercase letter"

unfoldable pub parse_relation : Unicode → Label → Result String Label
unfolding validate_relation_format normalize_relation
parse_relation u s =
    let normalized = normalize_relation u s in
    elim (validate_relation_format normalized) [ ok _ ↦ ok normalized | err e ↦ err e ]

-- Names of entities.
unfoldable pub collapse : Bool → Label → Label
collapse prev_was_hyphen [] = []
collapse prev_was_hyphen (c ∷ s) =
    let rest = collapse (is_hyphen c) s in
    if is_hyphen c then if prev_was_hyphen then rest else hyphen ∷ rest else c ∷ rest

abbrev pub hyphenate : ℕ → ℕ
hyphenate c = if is_alphanumeric c then c else hyphen

unfoldable pub normalize_entity_name : Unicode → Label → Label
unfolding collapse trim_start trim_end
normalize_entity_name u s =
    let ascii = filter is_ascii (u.nfkd s) in
    let hyphenated = map hyphenate (u.to_lowercase ascii) in
    trim is_hyphen (collapse false hyphenated)

unfoldable pub validate_entity_name : Label → Result AppError (Unit {0})
validate_entity_name name =
    if ltb (len name) 2
    then err (validation "entity_name_too_short")
    else if any is_newline name
    then err (validation "entity name must not contain newline characters")
    else if all is_digit name
    then err (validation "entity_name_purely_numeric")
    else if leb (len name) 4 && all (λ c. is_upper c || c == underscore || c == hyphen) name
    then err (validation "entity_name_all_caps_noise")
    else ok tt

-- Types of entities.
abbrev pub max_entity_type_len : ℕ
max_entity_type_len = 64

unfoldable pub normalize_entity_type : Unicode → Label → Result AppError Label
unfolding trim_start trim_end
normalize_entity_type u s =
    let normalized = map (replace hyphen underscore) (u.to_lowercase (trim u.is_whitespace s)) in
    if length normalized == 0
    then err (validation "entity_type_blank")
    else if any is_newline normalized
    then err (validation "entity_type_has_newline")
    else if all is_digit normalized
    then err (validation "entity_type_digits_only")
    else if ltb max_entity_type_len (length normalized)
    then err (validation "entity_type_too_long")
    else ok normalized
