-- ===== src/Knowledge/MergeGood.antt =====
-- `merge-entities` (src/commands/merge_entities/mod.rs) as a whole.
use sqlite_graphrag.Base.{
  ℕ, ◌≡◌, ◌≢◌, refl, sym, ◌∙◌, inl, inr, Bool, true, false, not, ◌&&◌, List, [], ◌∷◌, ◌++◌,
  append_assoc, filter, ◌==◌, ==_iff, In, here, there, In-append, In-append_left, In-append_right,
  In-cons, In-nil, In-filter_intro, In-map_intro, Bool-cases, if◌then◌else◌,
}
use sqlite_graphrag.Knowledge.{
  Relationship, MemoryEntity, Db, touches, has_entity, exists, drop_where, delete_relationships,
  delete_entity_row,
}
use sqlite_graphrag.Knowledge.Entities.{recalculate_degrees}
use sqlite_graphrag.Knowledge.DeleteEntity.{adjacent_ids}
use sqlite_graphrag.Knowledge.DeleteGood.{delete_entity_row-ExactBut}
use sqlite_graphrag.Knowledge.Merge.{
  redirect_all, is_loop, is_repeated, rebind, rebind_all, dedup_bindings, delete_entity_rows,
  merge_entities,
}
use sqlite_graphrag.Knowledge.Tables.{In-drop_where}
use sqlite_graphrag.Knowledge.Degrees.{ExactBut, ExactBut-imp, ExactBut-IsExact}
use sqlite_graphrag.Knowledge.Integrity.{HasEntity, IsWf, delete_entity_row-IsWf}
use sqlite_graphrag.Knowledge.Good.{IsGood, recalculate_degrees-IsGood}
use sqlite_graphrag.Knowledge.MergeStep.{Joins, MayBeWrong, IsBetween}
use sqlite_graphrag.Knowledge.MergeLoop.{
  IsFree, redirect_all-IsBetween, drop_loops-IsBetween, drop_repeated-IsBetween,
}

-- The bindings of memories change; they still name entities.
change_bindings-IsWf :
    (bindings : List MemoryEntity) (db : Db)
    → ((b : MemoryEntity) → In b bindings → HasEntity b.entity_id db)
    → IsWf db
    → IsWf (record db { memory_entities = bindings })
change_bindings-IsWf bindings db h wf = record {
  entity_below = wf.entity_below;
  entities_differ = wf.entities_differ;
  edge_below = wf.edge_below;
  edges_differ = wf.edges_differ;
  ends_exist = wf.ends_exist;
  entities_bound = h;
  edges_bound = wf.edges_bound;
}

rebind-In :
    (P : ℕ → Type 0) (target src : ℕ) (before rest : List MemoryEntity)
    → P target
    → ((b : MemoryEntity) → In b (before ++ rest) → P b.entity_id)
    → (b : MemoryEntity) → In b (rebind target src before rest)
    → P b.entity_id
unfolding rebind
rebind-In P target src before [] p h = λ b i. h b (In-append_left [] i)
rebind-In P target src before (c ∷ rest) p h =
    let step : (y : MemoryEntity)
        → P y.entity_id
        → (b : MemoryEntity) → In b (rebind target src (before ++ (y ∷ [])) rest)
        → P b.entity_id =
      λ y py. rebind-In P target src (before ++ (y ∷ [])) rest p λ b i.
        elim (In-append (before ++ (y ∷ [])) rest i) [
          | inr j ↦ h b (In-append_right before (there j))
          | inl j ↦ elim (In-append before (y ∷ []) j) [
            | inl k ↦ h b (In-append_left (c ∷ rest) k)
            | inr k ↦ elim (In-cons k) [ inl e ↦ rw e py | inr l ↦ absurd (In-nil l) ]
          ]
        ] in
    elim (Bool-cases (
      c.entity_id == src
      && not
          (exists (λ d. d.memory_id == c.memory_id && d.entity_id == target) (before ++ rest)))) [
            | inl moves ↦ rw moves (step (record c { entity_id = target }) p)
            | inr stay ↦ rw stay (step c (h c (In-append_right before (here refl))))
          ]

dedup_bindings-In :
    (before rest : List MemoryEntity) {b : MemoryEntity}
    → In b (dedup_bindings before rest)
    → In b (before ++ rest)
unfolding dedup_bindings
dedup_bindings-In before [] i = In-append_left [] i
dedup_bindings-In before (c ∷ rest) {b} i =
    elim (Bool-cases
      (exists (λ d. d.memory_id == c.memory_id && d.entity_id == c.entity_id) before)) [
        | inl again ↦
            let q : dedup_bindings before (c ∷ rest) ≡ dedup_bindings before rest =
              rw (again, dedup_bindings) refl in
            let j : In b (dedup_bindings before rest) = rw (← q) i in
            elim (In-append before rest (dedup_bindings-In before rest j)) [
              | inl k ↦ In-append_left (c ∷ rest) k
              | inr k ↦ In-append_right before (there k)
            ]
        | inr first ↦
            let q : dedup_bindings before (c ∷ rest) ≡ dedup_bindings (before ++ (c ∷ [])) rest =
              rw (first, dedup_bindings) refl in
            let j : In b (dedup_bindings (before ++ (c ∷ [])) rest) = rw (← q) i in
            rw (← append_assoc before (c ∷ []) rest) (dedup_bindings-In (before ++ (c ∷ [])) rest j)
      ]

module _ (target : ℕ) (sources : List ℕ) (outside : ¬ In target sources) where
  -- Changed bindings leave the rest as it is.
  rebound-IsBetween :
      (bindings : List MemoryEntity) (db : Db)
      → ((b : MemoryEntity) → In b bindings → HasEntity b.entity_id db)
      → IsBetween target sources db
      → IsBetween target sources (record db { memory_entities = bindings })
  rebound-IsBetween bindings db h between = record {
    wf = change_bindings-IsWf bindings db h between.wf;
    but = between.but;
    loops = between.loops;
    has_target = between.has_target;
  }

  -- Step 4.
  pub rebind_all-IsBetween :
      (todo : List ℕ) (db : Db)
      → IsBetween target sources db
      → IsBetween target sources (rebind_all target todo db)
        × ((rebind_all target todo db).relationships ≡ db.relationships)
  unfolding rebind_all
  rebind_all-IsBetween [] db between = (between, refl)
  rebind_all-IsBetween (src ∷ todo) db between =
      let rows = rebind target src [] db.memory_entities in
      let db' : Db = record db { memory_entities = drop_where (λ b. b.entity_id == src) rows } in
      rebind_all-IsBetween todo db' (
        rebound-IsBetween (drop_where (λ b. b.entity_id == src) rows) db
          (λ b i.
            rebind-In (λ j. HasEntity j db) target src [] db.memory_entities between.has_target
              (λ c j. between.wf.entities_bound c j) b
              (In-drop_where (λ c. c.entity_id == src) rows i).1)
          between)

  -- Step 6: the sources go, with nothing that refers to them.
  delete_entity_row-kept :
      (id : ℕ) (db : Db)
      → IsFree id db
      → {r : Relationship}
      → (In r db.relationships → In r (delete_entity_row id db).relationships)
        × (In r (delete_entity_row id db).relationships → In r db.relationships)
  unfolding delete_entity_row delete_relationships
  delete_entity_row-kept id db free {r} = elim (Bool-cases (has_entity id db)) [
    | inr gone ↦ (λ i. rw gone i, λ i. In-rows gone i)
    | inl there_is ↦ (
      λ i.
          rw there_is
            (In-filter_intro (λ x. not (touches id x)) db.relationships (rw (free r i) refl) i),
      λ i.
          let e : (delete_entity_row id db).relationships
              ≡ drop_where (touches id) db.relationships =
            rw there_is refl in
          (In-drop_where (touches id) db.relationships (rw (← e) i)).1,
    )
  ]
    where
      In-rows :
          has_entity id db ≡ false
          → In r (delete_entity_row id db).relationships
          → In r db.relationships
      In-rows gone i =
          let e : (delete_entity_row id db).relationships ≡ db.relationships = rw gone refl in
          rw (← e) i

  delete_entity_rows-lem :
      (Q : ℕ → Type 0) (todo : List ℕ) (db : Db)
      → ((i : ℕ) → In i todo → IsFree i db)
      → IsWf db
      → ExactBut Q db
      → let db' = delete_entity_rows todo db in
        IsWf db'
        × ExactBut (λ i. Q i × ¬ In i todo) db'
        × ((r : Relationship) → In r db.relationships → In r db'.relationships)
  unfolding delete_entity_rows
  delete_entity_rows-lem Q [] db free wf but =
      (wf, ExactBut-imp Q (λ i. Q i × ¬ In i []) db (λ i q. (q, In-nil)) but, λ r i. i)
  delete_entity_rows-lem Q (id ∷ todo) db free wf but =
      let here_free = free id (here refl) in
      let db' = delete_entity_row id db in
      let (w, b, k) =
        delete_entity_rows-lem (λ i. Q i × (i ≢ id)) todo db'
          (λ i m r j. free i (there m) r ((delete_entity_row-kept id db here_free).1 j))
          (delete_entity_row-IsWf id db wf) (delete_entity_row-ExactBut Q id db here_free but) in
      (
        w,
        ExactBut-imp (λ i. (Q i × (i ≢ id)) × ¬ In i todo) (λ i. Q i × ¬ In i (id ∷ todo))
            (delete_entity_rows todo db')
            (λ i ((q, other), out). (q, λ m. elim (In-cons m) [ inl e ↦ other e | inr l ↦ out l ]))
            b,
        λ r i. k r ((delete_entity_row-kept id db here_free).0 i),
      )

  -- Step 7 recalculates the target and its neighbours.
  adjacent-In :
      (db : Db) (i : ℕ) (r : Relationship)
      → In r db.relationships
      → Joins target sources i r
      → In i (target ∷ adjacent_ids target db)
  unfolding adjacent_ids
  adjacent-In db i r j joins =
      let other : Relationship → ℕ =
        λ x. if x.source_id == target then x.target_id else x.source_id in
      let m : touches target r ≡ true → In (other r) (adjacent_ids target db) = λ t.
        In-map_intro other (filter (touches target) db.relationships)
          (In-filter_intro (touches target) db.relationships t j) in
      elim joins [
        | inl (s, t) ↦
            let e = (==_iff r.source_id target).1 s in
            let q : other r ≡ i = rw e t in there (rw (← q) (m (rw e refl)))
        | inr (s, t) ↦
            let e = (==_iff r.target_id target).1 t in
            elim (Bool-cases (r.source_id == target)) [
              | inl f ↦ here (sym s ∙ (==_iff r.source_id target).0 f)
              | inr f ↦ let q : other r ≡ i = rw f s in there (rw (← q) (m (rw (f, e) refl)))
            ]
      ]

  pub start-IsBetween :
      (db : Db)
      → IsGood db
      → HasEntity target db
      → ((r : Relationship) → In r db.relationships → r.source_id ≢ r.target_id)
      → IsBetween target sources db
  start-IsBetween db good has loopless = record {
    wf = good.wf;
    but = ExactBut-IsExact (MayBeWrong target sources db) db good.exact;
    loops = λ r i e. absurd (loopless r i e);
    has_target = has;
  }

  -- The graph after step 6, and what step 7 has to recalculate.
  before_last :
      (db : Db)
      → IsBetween target sources db
      → let (moved, db1) = redirect_all target sources db in
        let db2 = delete_relationships is_loop db1 in
        let db3 = delete_relationships (is_repeated db2.relationships) db2 in
        let db4 = rebind_all target sources db3 in
        let db5 = record db4 { memory_entities = dedup_bindings [] db4.memory_entities } in
        let db6 = delete_entity_rows sources db5 in
        IsWf db6 × ExactBut (λ i. In i (target ∷ adjacent_ids target db6)) db6
  unfolding delete_relationships
  before_last db between =
      let db1 = (redirect_all target sources db).1 in
      let (b1, f1) = redirect_all-IsBetween target sources outside sources db (λ i m. m) between in
      let db2 = delete_relationships is_loop db1 in
      let b2 = drop_loops-IsBetween target sources outside db1 b1 in
      let db3 = delete_relationships (is_repeated db2.relationships) db2 in
      let b3 = drop_repeated-IsBetween target sources outside db2 b2 in
      let db4 = rebind_all target sources db3 in
      let (b4, rows) = rebind_all-IsBetween sources db3 b3 in
      let db5 : Db = record db4 { memory_entities = dedup_bindings [] db4.memory_entities } in
      let b5 =
        rebound-IsBetween (dedup_bindings [] db4.memory_entities) db4
          (λ b i. b4.wf.entities_bound b (dedup_bindings-In [] db4.memory_entities i)) b4 in
      let free : (i : ℕ) → In i sources → IsFree i db5 = λ i m r j.
        let k : In r db3.relationships = rw (← rows) j in
        f1 i (λ e. outside (rw (← e) m)) (inr m) r
          (fewer is_loop db1 (fewer (is_repeated db2.relationships) db2 k)) in
      let (w, but, keeps) =
        delete_entity_rows-lem (MayBeWrong target sources db5) sources db5 free b5.wf b5.but in
      let db6 = delete_entity_rows sources db5 in
      (
        w,
        ExactBut-imp (λ i. MayBeWrong target sources db5 i × ¬ In i sources)
            (λ i. In i (target ∷ adjacent_ids target db6)) db6
            (λ i (wrong, out). elim wrong [
              | inl (r, j, joins) ↦ adjacent-In db6 i r (keeps r j) joins
              | inr (inl e) ↦ here e
              | inr (inr m) ↦ absurd (out m)
            ])
            but,
      )
    where
      fewer :
          (cond : Relationship → Bool) (d : Db) {r : Relationship}
          → In r (delete_relationships cond d).relationships
          → In r d.relationships
      fewer cond d i = (In-drop_where cond d.relationships i).1

  -- Merging entities into another one keeps a good graph good, when no edge of it was a loop.
  pub merge_entities-IsGood :
      (db : Db)
      → IsGood db
      → HasEntity target db
      → ((r : Relationship) → In r db.relationships → r.source_id ≢ r.target_id)
      → IsGood (merge_entities target sources db).1
  unfolding merge_entities recalculate_degrees
  merge_entities-IsGood db good has loopless =
      let (w, but) = before_last db (start-IsBetween db good has loopless) in
      recalculate_degrees-IsGood (target ∷ _) _ w but
