-- ===== src/Labels/Relations.antt =====
-- The canonical relations (src/parsers/mod.rs, `map_to_canonical_relation`).
use sqlite_graphrag.Base.{
  ◌<◌, ◌≡◌, refl, sym, ap, ◌∙◌, Bool, true, false, ◌||◌, List, [], ◌∷◌, map, arith, inl, inr,
  Bool-cases, if◌then◌else◌, All, All-In, In, here, there,
}
use sqlite_graphrag.Labels.{
  Label, Unicode, IsUnicode, codes, label_eq, contains, canonical_relations, is_canonical_relation,
  normalize_relation, alias, map_to_canonical_relation, replace, underscore, hyphen, ascii_lower,
}
use sqlite_graphrag.Labels.Trim.{label_eq-true}

alias-canonical : (s : Label) → is_canonical_relation (alias s) ≡ true
unfolding alias is_canonical_relation contains label_eq
alias-canonical s =
    first (label_eq s (codes "adds") || label_eq s (codes "creates"))
      (label_eq s (codes "implements")) (label_eq s (codes "blocks"))
      (label_eq s (codes "tested-by") || label_eq s (codes "related-to"))
      (label_eq s (codes "part-of"))
  where
    first :
        (a b c d e : Bool)
        → contains canonical_relations (
            if a
            then codes "causes"
            else if b
            then codes "supports"
            else if c
            then codes "contradicts"
            else if d
            then codes "related"
            else if e
            then codes "applies-to"
            else codes "related")
          ≡ true
    first true b c d e = refl
    first false true c d e = refl
    first false false true d e = refl
    first false false false true e = refl
    first false false false false true = refl
    first false false false false false = refl

-- Every relation is mapped to one of the twelve canonical ones.
pub map_to_canonical_relation-canonical :
    (u : Unicode) (s : Label) → is_canonical_relation (map_to_canonical_relation u s) ≡ true
unfolding map_to_canonical_relation
map_to_canonical_relation-canonical u s =
    elim (Bool-cases (is_canonical_relation (normalize_relation u s))) [
      | inl e ↦ rw (e, map_to_canonical_relation) e
      | inr e ↦ rw (e, map_to_canonical_relation) (alias-canonical (normalize_relation u s))
    ]

contains-In : (ls : List Label) (s : Label) → contains ls s ≡ true → In s ls
unfolding contains
contains-In [] s h = ground arith
contains-In (l ∷ ls) s h = elim (Bool-cases (label_eq l s)) [
  | inl e ↦ here (sym (label_eq-true l s e))
  | inr e ↦ there (contains-In ls s (ground arith))
]

abbrev IsSettled : Label → Type 0
IsSettled l = All (λ c. c < 128) l × (map (replace underscore hyphen) (map ascii_lower l) ≡ l)

canonical-IsSettled : All IsSettled canonical_relations
canonical-IsSettled = ground arith

-- A canonical relation is its own normal form.
pub canonical_relation_fixed :
    (u : Unicode)
    → IsUnicode u
    → (s : Label) → is_canonical_relation s ≡ true
    → map_to_canonical_relation u s ≡ s
unfolding map_to_canonical_relation normalize_relation is_canonical_relation
canonical_relation_fixed u is s h =
    let (low, same) =
      All-In IsSettled canonical_relations canonical-IsSettled
        (contains-In canonical_relations s h) in
    let e : normalize_relation u s ≡ s =
      ap (map (replace underscore hyphen)) (is.lower_ascii s low) ∙ same in
    rw (e, h) refl

-- Mapping a relation to its canonical one a second time changes nothing, given that lower-casing
-- ASCII text maps A to Z alone.
pub map_to_canonical_relation_idem :
    (u : Unicode)
    → IsUnicode u
    → (s : Label)
    → map_to_canonical_relation u (map_to_canonical_relation u s) ≡ map_to_canonical_relation u s
map_to_canonical_relation_idem u is s =
    canonical_relation_fixed u is (map_to_canonical_relation u s)
      (map_to_canonical_relation-canonical u s)
