-- ===== src/Labels/Names.antt =====
-- The normal form of an entity's name (src/parsers/mod.rs, `normalize_entity_name`).
use sqlite_graphrag.Base.{
  ℕ, ◌<◌, ◌≡◌, refl, ap, ◌∙◌, true, false, ◌||◌, [], ◌∷◌, map, filter, arith, inl, inr, Bool-cases,
  All, All-imp,
}
use sqlite_graphrag.Labels.{
  Label, Unicode, IsUnicode, is_ascii, is_lower, is_digit, is_hyphen, ascii_lower, hyphenate,
  collapse, trim, trim_start, trim_end, normalize_entity_name,
}
use sqlite_graphrag.Labels.Trim.{
  IsTidy, collapse-IsTidy, collapse-IsTidy_id, IsTidy-weaken, trim_start-IsTidy,
  trim_start-IsTidy_id, trim_end-IsTidy, trim_end_idem, trim_start-All, trim_end-All, collapse-All,
}

-- Lower-case letters, digits and hyphens.
abbrev pub IsKebab : ℕ → Type 0
IsKebab c = (is_lower c || is_digit c || is_hyphen c) ≡ true

filter_ascii-All : (s : Label) → All (λ c. c < 128) (filter is_ascii s)
unfolding filter
filter_ascii-All [] = tt
filter_ascii-All (c ∷ s) = elim (Bool-cases (is_ascii c)) [
  | inl e ↦ rw e (ground arith, filter_ascii-All s)
  | inr e ↦ rw e (filter_ascii-All s)
]

filter_ascii_id : (s : Label) → All (λ c. c < 128) s → filter is_ascii s ≡ s
unfolding filter
filter_ascii_id [] h = refl
filter_ascii_id (c ∷ s) h =
    let low = h.0 in let e : is_ascii c ≡ true = ground arith in rw (e, filter_ascii_id s h.1) refl

hyphenate-IsKebab : (s : Label) → All IsKebab (map hyphenate (map ascii_lower s))
hyphenate-IsKebab [] = tt
hyphenate-IsKebab (c ∷ s) = (one c, hyphenate-IsKebab s)
  where
    one : (d : ℕ) → IsKebab (hyphenate (ascii_lower d))
    one d = ground arith

kebab_fixed : (s : Label) → All IsKebab s → map hyphenate (map ascii_lower s) ≡ s
kebab_fixed [] h = refl
kebab_fixed (c ∷ s) h = let e = one c h.0 in rw (e, kebab_fixed s h.1) refl
  where
    one : (d : ℕ) → IsKebab d → hyphenate (ascii_lower d) ≡ d
    one d k = ground arith

IsKebab-ascii : (s : Label) → All IsKebab s → All (λ c. c < 128) s
IsKebab-ascii s h = All-imp IsKebab (λ c. c < 128) (λ c k. ground arith) s h

module _ (u : Unicode) (is : IsUnicode u) where
  hyphenated : Label → Label
  hyphenated s = map hyphenate (u.to_lowercase (filter is_ascii (u.nfkd s)))

  hyphenated_lem :
      (s : Label) → hyphenated s ≡ map hyphenate (map ascii_lower (filter is_ascii (u.nfkd s)))
  unfolding hyphenated
  hyphenated_lem s =
      ap (map hyphenate) (is.lower_ascii (filter is_ascii (u.nfkd s)) (filter_ascii-All (u.nfkd s)))

  normalize-IsKebab : (s : Label) → All IsKebab (normalize_entity_name u s)
  unfolding normalize_entity_name hyphenated
  normalize-IsKebab s =
      let h : All IsKebab (hyphenated s) =
        rw (hyphenated_lem s) (hyphenate-IsKebab (filter is_ascii (u.nfkd s))) in
      trim_end-All IsKebab is_hyphen _
        (trim_start-All IsKebab is_hyphen _ (collapse-All IsKebab false _ refl h))

  normalize-IsTidy : (s : Label) → IsTidy true (normalize_entity_name u s)
  unfolding normalize_entity_name
  normalize-IsTidy s =
      let w = map hyphenate (u.to_lowercase (filter is_ascii (u.nfkd s))) in
      trim_end-IsTidy true (trim_start is_hyphen (collapse false w))
        (trim_start-IsTidy false (collapse false w) (collapse-IsTidy false w))

  kebab_normalized :
      (s : Label) → All IsKebab s → normalize_entity_name u s ≡ trim is_hyphen (collapse false s)
  unfolding normalize_entity_name hyphenated
  kebab_normalized s h =
      let low = IsKebab-ascii s h in
      let e : hyphenated s ≡ s =
        hyphenated_lem s
        ∙ ap (λ t. map hyphenate (map ascii_lower (filter is_ascii t))) (is.nfkd_ascii s low)
        ∙ ap (λ t. map hyphenate (map ascii_lower t)) (filter_ascii_id s low)
        ∙ kebab_fixed s h in
      ap (λ t. trim is_hyphen (collapse false t)) e

  trimmed_twice :
      (s : Label) → trim_end is_hyphen (normalize_entity_name u s) ≡ normalize_entity_name u s
  unfolding normalize_entity_name
  trimmed_twice s =
      let w = map hyphenate (u.to_lowercase (filter is_ascii (u.nfkd s))) in
      trim_end_idem is_hyphen (trim_start is_hyphen (collapse false w))

  -- Normalising an entity's name a second time changes nothing, given that compatibility
  -- decomposition keeps ASCII text and that lower-casing it maps A to Z alone.
  pub normalize_entity_name_idem :
      (s : Label) → normalize_entity_name u (normalize_entity_name u s) ≡ normalize_entity_name u s
  normalize_entity_name_idem s =
      let t = normalize_entity_name u s in
      let tidy : IsTidy true t = normalize-IsTidy s in
      kebab_normalized t (normalize-IsKebab s)
      ∙ ap (trim is_hyphen) (collapse-IsTidy_id false t (IsTidy-weaken false t tidy))
      ∙ ap (trim_end is_hyphen) (trim_start-IsTidy_id t tidy)
      ∙ trimmed_twice s
