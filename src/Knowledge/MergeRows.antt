-- ===== src/Knowledge/MergeRows.antt =====
-- `UPDATE OR IGNORE relationships` (src/commands/merge_entities/mod.rs): every row stays or changes,
-- the keys stay unique, and a row is left only where another has the key it should get.
use sqlite_graphrag.Base.{
  ◌≡◌, refl, sym, ◌∙◌, ◌⊎◌, inl, inr, Bool, true, false, not, ◌&&◌, List, [], ◌∷◌, ◌++◌,
  append_assoc, append-nil, ==_iff, arith, In, here, there, In-append, In-append_left,
  In-append_right, In-cons, In-nil, All, All-In, Bool-cases,
}
use sqlite_graphrag.Labels.Trim.{label_eq_iff}
use sqlite_graphrag.Knowledge.{Relationship, exists, is_key}
use sqlite_graphrag.Knowledge.Merge.{update_or_ignore}
use sqlite_graphrag.Knowledge.Tables.{AllPairs, exists-true, exists-false}
use sqlite_graphrag.Knowledge.Integrity.{DifferEdge, SameEdge}

-- One row put in the place of another, in a list whose pairs stand in a relation.
replace-All :
    {A : Type 0} (P : A → Type 0) (xs ys : List A) (x x' : A)
    → All P (xs ++ (x ∷ ys))
    → P x'
    → All P (xs ++ (x' ∷ ys))
replace-All P [] ys x x' h p = (p, h.1)
replace-All P (z ∷ xs) ys x x' h p = (h.0, replace-All P xs ys x x' h.1 p)

All_of : {A : Type 0} (P : A → Type 0) (xs : List A) → ((x : A) → In x xs → P x) → All P xs
All_of P [] h = tt
All_of P (x ∷ xs) h = (h x (here refl), All_of P xs (λ y i. h y (there i)))

replace-AllPairs :
    {A : Type 0} (R : A → A → Type 0) (xs ys : List A) (x x' : A)
    → AllPairs R (xs ++ (x ∷ ys))
    → ((z : A) → In z xs → R z x → R z x')
    → ((z : A) → In z ys → R x z → R x' z)
    → AllPairs R (xs ++ (x' ∷ ys))
replace-AllPairs R [] ys x x' h before after =
    (All_of (R x') ys (λ z i. after z i (All-In (R x) ys h.0 i)), h.1)
replace-AllPairs R (z ∷ xs) ys x x' h before after = (
  replace-All (R z) xs ys x x' h.0
      (before z (here refl) (All-In (R z) (xs ++ (x ∷ ys)) h.0 (In-append_right xs (here refl)))),
  replace-AllPairs R xs ys x x' h.1 (λ w i. before w (there i)) after,
)

pub is_key_iff :
    (s t : Relationship) → is_key t.source_id t.target_id t.relation s ≡ true → SameEdge s t
is_key_iff s t h =
    (ground arith, ground arith, (label_eq_iff s.relation t.relation).0 (ground arith))

pub SameEdge-is_key :
    (s t : Relationship) → SameEdge s t → is_key t.source_id t.target_id t.relation s ≡ true
SameEdge-is_key s t (a, b, c) =
    let e = (==_iff s.source_id t.source_id).1 a in
    let f = (==_iff s.target_id t.target_id).1 b in
    let g = (label_eq_iff s.relation t.relation).1 c in rw (e, f, g) refl

module _ (cond : Relationship → Bool) (change : Relationship → Relationship) where
  -- What becomes of a row, and of the rows of a list.
  abbrev pub Moved : Relationship → Relationship → Type 0
  Moved r s = (s ≡ r) ⊎ ((cond r ≡ true) × (s ≡ change r))

  abbrev pub AllMoved : List Relationship → List Relationship → Type 0
  AllMoved [] [] = Unit
  AllMoved (r ∷ rs) (s ∷ ss) = Moved r s × AllMoved rs ss
  AllMoved [] (s ∷ ss) = ⊥
  AllMoved (r ∷ rs) [] = ⊥

  pub AllMoved-to :
      (rs ss : List Relationship) {r : Relationship}
      → AllMoved rs ss
      → In r rs
      → (s : Relationship) × In s ss × Moved r s
  AllMoved-to [] ss h i = absurd (In-nil i)
  AllMoved-to (x ∷ rs) [] h i = absurd h
  AllMoved-to (x ∷ rs) (y ∷ ss) h i = elim (In-cons i) [
    | inl e ↦ (y, here refl, rw e h.0)
    | inr j ↦ let (s, k, m) = AllMoved-to rs ss h.1 j in (s, there k, m)
  ]

  pub AllMoved-from :
      (rs ss : List Relationship) {s : Relationship}
      → AllMoved rs ss
      → In s ss
      → (r : Relationship) × In r rs × Moved r s
  AllMoved-from [] [] h i = absurd (In-nil i)
  AllMoved-from [] (y ∷ ss) h i = absurd h
  AllMoved-from (x ∷ rs) [] h i = absurd h
  AllMoved-from (x ∷ rs) (y ∷ ss) h i = elim (In-cons i) [
    | inl e ↦ (x, here refl, rw e h.0)
    | inr j ↦ let (r, k, m) = AllMoved-from rs ss h.1 j in (r, there k, m)
  ]

  -- The rows that pass the test after all: another row has the key they should get.
  abbrev pub IsTaken : List Relationship → Relationship → Type 0
  IsTaken rows r = (s : Relationship) × In s rows × SameEdge s (change r)

  -- A row that has the key of a changed one does not pass the test.
  abbrev pub EndsTest : Type 0
  EndsTest = (r s : Relationship) → cond r ≡ true → SameEdge s (change r) → cond s ≡ false

  pub record Updated (before rest rows : List Relationship) : Type 0 where
    pub tail : List Relationship
    pub rows_are : rows ≡ before ++ tail
    pub moved : AllMoved rest tail
    pub left : (r : Relationship) → In r tail → cond r ≡ true → IsTaken rows r

  stays :
      (rs ss : List Relationship) {r : Relationship}
      → AllMoved rs ss
      → In r rs
      → cond r ≡ false
      → In r ss
  stays rs ss h i e =
      let (s, j, m) = AllMoved-to rs ss h i in
      elim m [ inl q ↦ rw (← q) j | inr (f, q) ↦ ground arith ]

  -- The row `r`, which became `y`, before the rest.
  Updated-cons :
      (before rest : List Relationship) (r y : Relationship) (rows : List Relationship)
      → Updated (before ++ (y ∷ [])) rest rows
      → Moved r y
      → (cond y ≡ true
          → (t : Relationship) × In t (before ++ rest) × SameEdge t (change y) × (cond t ≡ false))
      → Updated before (r ∷ rest) rows
  Updated-cons before rest r y rows u m taken =
      let place : rows ≡ before ++ (y ∷ u.tail) =
        u.rows_are ∙ append_assoc before (y ∷ []) u.tail in
      record {
        tail = y ∷ u.tail;
        rows_are = place;
        moved = (m, u.moved);
        left = λ x i c. elim (In-cons i) [
          | inr j ↦ u.left x j c
          | inl e ↦
              let (t, j, same, never) = taken (rw (← e) c) in
              let there_it_is : In t (before ++ (y ∷ u.tail)) = elim (In-append before rest j) [
                | inl k ↦ In-append_left (y ∷ u.tail) k
                | inr k ↦ In-append_right before (there (stays rest u.tail u.moved k never))
              ] in
              (t, rw place there_it_is, rw e same)
        ];
      }

  pub update_or_ignore-Updated :
      (before rest : List Relationship)
      → EndsTest
      → Updated before rest (update_or_ignore cond change before rest).1
  unfolding update_or_ignore
  update_or_ignore-Updated before [] ends = record {
    tail = [];
    rows_are = sym (append-nil before);
    moved = tt;
    left = λ r i e. absurd (In-nil i);
  }
  update_or_ignore-Updated before (r ∷ rest) ends =
      let key = is_key (change r).source_id (change r).target_id (change r).relation in
      elim (Bool-cases (cond r && not (exists key (before ++ rest)))) [
        | inl moves ↦
            let c : cond r ≡ true = ground arith in
            rw moves (
              Updated-cons before rest r (change r) _
                (update_or_ignore-Updated (before ++ (change r ∷ [])) rest ends) (inr (c, refl))
                (λ again.
                  let never = ends r (change r) c (refl, refl, refl) in absurd (ground arith)))
        | inr stay ↦ rw stay (
            Updated-cons before rest r r _ (update_or_ignore-Updated (before ++ (r ∷ [])) rest ends)
              (inl refl)
              (λ c.
                let found : exists key (before ++ rest) ≡ true = ground arith in
                let (t, i, e) = exists-true key (before ++ rest) found in
                let same = is_key_iff t (change r) e in (t, i, same, ends r t c same)))
      ]

  pub update_or_ignore-AllPairs :
      (before rest : List Relationship)
      → ((r : Relationship) → (change r).id ≡ r.id)
      → AllPairs DifferEdge (before ++ rest)
      → AllPairs DifferEdge (update_or_ignore cond change before rest).1
  unfolding update_or_ignore
  update_or_ignore-AllPairs before [] ids h =
      let e : before ++ [] ≡ before = append-nil before in rw (← e) h
  update_or_ignore-AllPairs before (r ∷ rest) ids h =
      let key = is_key (change r).source_id (change r).target_id (change r).relation in
      let step : (y : Relationship)
          → AllPairs DifferEdge (before ++ (y ∷ rest))
          → AllPairs DifferEdge (update_or_ignore cond change (before ++ (y ∷ [])) rest).1 =
        λ y d.
          update_or_ignore-AllPairs (before ++ (y ∷ [])) rest ids
            (rw (append_assoc before (y ∷ []) rest) d) in
      elim (Bool-cases (cond r && not (exists key (before ++ rest)))) [
        | inr stay ↦ rw stay (step r h)
        | inl moves ↦
            let free : exists key (before ++ rest) ≡ false = ground arith in
            let apart : (z : Relationship) → In z (before ++ rest) → ¬ SameEdge z (change r) =
              λ z i same.
                let never = exists-false key (before ++ rest) free i in
                let is = SameEdge-is_key z (change r) same in ground arith in
            rw moves (
              step (change r) (
                replace-AllPairs DifferEdge before rest r (change r) h
                  (λ z i (d, k). (λ e. d (e ∙ ids r), apart z (In-append_left rest i)))
                  (λ z i (d, k). (
                    λ e. d (sym (ids r) ∙ e),
                    λ (a, b, c). apart z (In-append_right before i) (sym a, sym b, sym c),
                  ))))
      ]
