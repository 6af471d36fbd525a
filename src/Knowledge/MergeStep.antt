-- ===== src/Knowledge/MergeStep.antt =====
-- One redirection of `merge-entities` (src/commands/merge_entities/mod.rs, steps 1a and 1b): what
-- stays true of the graph between the steps.
use sqlite_graphrag.Base.{
  ℕ, ◌≡◌, ◌≢◌, refl, sym, ap, ◌∙◌, ◌⊎◌, inl, inr, Bool, true, false, not, List, [], ◌∷◌, filter,
  ◌==◌, ==_iff, arith, In, In-filter_intro, Bool-cases,
}
use sqlite_graphrag.Knowledge.{Relationship, Db, touches, delete_relationships}
use sqlite_graphrag.Knowledge.Entities.{incident}
use sqlite_graphrag.Knowledge.Merge.{update_or_ignore}
use sqlite_graphrag.Knowledge.Tables.{In-drop_where}
use sqlite_graphrag.Knowledge.Degrees.{ExactBut, ExactBut-imp, delete_relationships-ExactBut}
use sqlite_graphrag.Knowledge.Integrity.{HasEntity, SameEdge, IsWf, delete_relationships-IsWf}
use sqlite_graphrag.Knowledge.MergeRows.{
  Moved, AllMoved, AllMoved-to, AllMoved-from, IsTaken, EndsTest, update_or_ignore-Updated,
  update_or_ignore-AllPairs,
}

module _ (target : ℕ) (sources : List ℕ) where
  -- An edge between the target and the entity.
  abbrev pub Joins : ℕ → Relationship → Type 0
  Joins i r =
      ((r.source_id ≡ target) × (r.target_id ≡ i)) ⊎ ((r.source_id ≡ i) × (r.target_id ≡ target))

  abbrev pub IsAdjacent : Db → ℕ → Type 0
  IsAdjacent db i = (r : Relationship) × In r db.relationships × Joins i r

  abbrev pub IsMerged : ℕ → Type 0
  IsMerged i = (i ≡ target) ⊎ In i sources

  -- The entities whose degrees may be wrong between the steps.
  abbrev pub MayBeWrong : Db → ℕ → Type 0
  MayBeWrong db i = IsAdjacent db i ⊎ IsMerged i

  pub record IsBetween (db : Db) : Type 0 where
    pub wf : IsWf db
    pub but : ExactBut (MayBeWrong db) db
    pub loops :
        (r : Relationship)
        → In r db.relationships
        → r.source_id ≡ r.target_id
        → IsMerged r.source_id
    pub has_target : HasEntity target db

  -- What the two redirections have in common.
  pub record IsRedirection (src : ℕ) (cond : Relationship → Bool)
      (change : Relationship → Relationship) : Type 0 where
    pub src_in : In src sources
    pub ids : (r : Relationship) → (change r).id ≡ r.id
    pub ends_test : EndsTest cond change
    pub apart :
        (i : ℕ) (r : Relationship)
        → i ≢ src
        → i ≢ target
        → cond r ≡ true
        → touches i (change r) ≡ touches i r
    pub hit : (i : ℕ) (r : Relationship) → cond r ≡ true → Joins i r → IsMerged i
    pub taken :
        (r s : Relationship)
        → cond r ≡ true
        → SameEdge s (change r)
        → (Joins r.source_id s ⊎ IsMerged r.source_id)
          × (Joins r.target_id s ⊎ IsMerged r.target_id)
    pub loop :
        (r : Relationship)
        → cond r ≡ true
        → (change r).source_id ≡ (change r).target_id
        → (change r).source_id ≡ target
    pub ends :
        (r : Relationship)
        → cond r ≡ true
        → (((change r).source_id ≡ r.source_id) ⊎ ((change r).source_id ≡ target))
          × (((change r).target_id ≡ r.target_id) ⊎ ((change r).target_id ≡ target))

  incident-AllMoved :
      (cond : Relationship → Bool) (change : Relationship → Relationship) (i : ℕ)
      (rs ss : List Relationship)
      → ((r : Relationship) → cond r ≡ true → touches i (change r) ≡ touches i r)
      → AllMoved cond change rs ss
      → incident i ss ≡ incident i rs
  unfolding incident filter
  incident-AllMoved cond change i [] [] h m = refl
  incident-AllMoved cond change i [] (s ∷ ss) h m = absurd m
  incident-AllMoved cond change i (r ∷ rs) [] h m = absurd m
  incident-AllMoved cond change i (r ∷ rs) (s ∷ ss) h m =
      let rest = incident-AllMoved cond change i rs ss h m.1 in
      let same : touches i s ≡ touches i r = elim m.0 [
        | inl e ↦ rw e refl
        | inr (c, e) ↦ rw e (h r c)
      ] in
      elim (Bool-cases (touches i r)) [
        | inl t ↦ rw (same, t, rest) refl
        | inr t ↦ rw (same, t) rest
      ]

  module _ (src : ℕ) (cond : Relationship → Bool) (change : Relationship → Relationship)
      (is : IsRedirection src cond change) where
    abbrev pub redirected : Db → List Relationship
    redirected db = (update_or_ignore cond change [] db.relationships).1

    abbrev pub middle : Db → Db
    middle db = record db { relationships = redirected db }

    abbrev pub final : Db → Db
    final db = delete_relationships cond (middle db)

    redirected-AllMoved : (db : Db) → AllMoved cond change db.relationships (redirected db)
    redirected-AllMoved db =
        let u = update_or_ignore-Updated cond change [] db.relationships is.ends_test in
        rw u.rows_are u.moved

    redirected-IsTaken :
        (db : Db) (r : Relationship)
        → In r (redirected db)
        → cond r ≡ true
        → IsTaken cond change (redirected db) r
    redirected-IsTaken db r i c =
        let u = update_or_ignore-Updated cond change [] db.relationships is.ends_test in
        u.left r (rw (← u.rows_are) i) c

    middle-IsWf : (db : Db) → HasEntity target db → IsWf db → IsWf (middle db)
    middle-IsWf db has wf =
        let all = redirected-AllMoved db in
        let id_of : (r s : Relationship) → Moved cond change r s → r.id ≡ s.id = λ r s m. elim m [
          | inl e ↦ sym (ap (λ x. x.id) e)
          | inr (c, e) ↦ sym (ap (λ x. x.id) e ∙ is.ids r)
        ] in
        record {
          entity_below = wf.entity_below;
          entities_differ = wf.entities_differ;
          edge_below = λ s i.
              let (r, j, m) = AllMoved-from cond change db.relationships (redirected db) all i in
              let same = id_of r s m in omega (arith, wf.edge_below r j, same);
          edges_differ =
              update_or_ignore-AllPairs cond change [] db.relationships is.ids wf.edges_differ;
          ends_exist = λ s i.
              let (r, j, m) = AllMoved-from cond change db.relationships (redirected db) all i in
              let (hs, ht) = wf.ends_exist r j in
              elim m [
                | inl e ↦ rw e (hs, ht)
                | inr (c, e) ↦
                    let (a, b) = is.ends r c in
                    rw e (
                      elim a [ inl p ↦ rw p hs | inr p ↦ rw p has ],
                      elim b [ inl p ↦ rw p ht | inr p ↦ rw p has ],
                    )
              ];
          entities_bound = wf.entities_bound;
          edges_bound = λ b i.
              let (r, j, e) = wf.edges_bound b i in
              let (s, k, m) = AllMoved-to cond change db.relationships (redirected db) all j in
              (s, k, sym (id_of r s m) ∙ e);
        }

    kept :
        (db : Db) {r : Relationship}
        → In r (redirected db)
        → cond r ≡ false
        → In r (final db).relationships
    unfolding delete_relationships
    kept db i c = In-filter_intro (λ r. not (cond r)) (redirected db) (rw c refl) i

    -- A neighbour of the target stays one.
    middle-MayBeWrong : (db : Db) (i : ℕ) → MayBeWrong db i → MayBeWrong (middle db) i
    middle-MayBeWrong db i (inr m) = inr m
    middle-MayBeWrong db i (inl (r, j, joins)) =
        let all = redirected-AllMoved db in
        let (s, k, m) = AllMoved-to cond change db.relationships (redirected db) all j in
        elim m [ inl e ↦ inl (s, k, rw e joins) | inr (c, e) ↦ inr (is.hit i r c joins) ]

    final-MayBeWrong : (db : Db) (i : ℕ) → MayBeWrong (middle db) i → MayBeWrong (final db) i
    final-MayBeWrong db i (inr m) = inr m
    final-MayBeWrong db i (inl (s, k, joins)) = elim (Bool-cases (cond s)) [
      | inl c ↦ inr (is.hit i s c joins)
      | inr c ↦ inl (s, kept db k c, joins)
    ]

    middle-but : (db : Db) → IsBetween db → ExactBut (MayBeWrong (middle db)) (middle db)
    middle-but db between e i = elim (Bool-cases (e.id == src)) [
      | inl s ↦ inr (inr (inr (let q : e.id ≡ src = ground arith in rw q is.src_in)))
      | inr s ↦ elim (Bool-cases (e.id == target)) [
        | inl t ↦ inr (inr (inl (ground arith)))
        | inr t ↦ elim (between.but e i) [
          | inr p ↦ inr (middle-MayBeWrong db e.id p)
          | inl x ↦ inl (
              x
              ∙ sym (
                  incident-AllMoved cond change e.id db.relationships (redirected db)
                    (λ r c.
                      is.apart e.id r (λ q. let hit = (==_iff e.id src).1 q in ground arith)
                        (λ q. let hit = (==_iff e.id target).1 q in ground arith) c)
                    (redirected-AllMoved db)))
        ]
      ]
    ]

    -- The rows that could not be redirected have a twin that joins their other end to the target.
    final-but : (db : Db) → IsBetween db → ExactBut (MayBeWrong (final db)) (final db)
    final-but db between =
        delete_relationships-ExactBut (MayBeWrong (final db)) cond (middle db)
          (λ r i c.
            let (s, k, same) = redirected-IsTaken db r i c in
            let stays = kept db k (is.ends_test r s c same) in
            let (a, b) = is.taken r s c same in
            (
              elim a [ inl j ↦ inl (s, stays, j) | inr m ↦ inr m ],
              elim b [ inl j ↦ inl (s, stays, j) | inr m ↦ inr m ],
            ))
          (ExactBut-imp (MayBeWrong (middle db)) (MayBeWrong (final db)) (middle db)
            (final-MayBeWrong db) (middle-but db between))

    final-from :
        (db : Db) {s : Relationship}
        → In s (final db).relationships
        → (cond s ≡ false) × ((r : Relationship) × In r db.relationships × Moved cond change r s)
    unfolding delete_relationships
    final-from db i =
        let (c, j) = In-drop_where cond (redirected db) i in
        (c, AllMoved-from cond change db.relationships (redirected db) (redirected-AllMoved db) j)

    pub final-IsBetween : (db : Db) → IsBetween db → IsBetween (final db)
    unfolding delete_relationships
    final-IsBetween db between = record {
      wf =
          delete_relationships-IsWf cond (middle db) (middle-IsWf db between.has_target between.wf);
      but = final-but db between;
      loops = λ s i l.
          let (c, (r, j, m)) = final-from db i in
          elim m [
            | inl e ↦ rw e (between.loops r j (rw (← e) l))
            | inr (d, e) ↦ inl (ap (λ x. x.source_id) e ∙ is.loop r d (rw (← e) l))
          ];
      has_target = between.has_target;
    }

    -- A test that no row passes, and no changed row, is passed by none afterwards; nor is `cond`.
    pub final-none :
        (p : Relationship → Bool) (db : Db)
        → ((r : Relationship) → cond r ≡ true → p r ≡ false → p (change r) ≡ false)
        → ((r : Relationship) → In r db.relationships → p r ≡ false)
        → (s : Relationship) → In s (final db).relationships
        → p s ≡ false
    final-none p db h none s i =
        let (c, (r, j, m)) = final-from db i in
        elim m [ inl e ↦ rw e (none r j) | inr (d, e) ↦ rw e (h r d (none r j)) ]

    pub final-cond : (db : Db) (s : Relationship) → In s (final db).relationships → cond s ≡ false
    final-cond db s i = (final-from db i).0
