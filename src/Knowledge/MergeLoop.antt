-- ===== src/Knowledge/MergeLoop.antt =====
-- The redirections of `merge-entities` (src/commands/merge_entities/mod.rs, steps 1 to 3).
use sqlite_graphrag.Base.{
  ℕ, ◌≡◌, ◌≢◌, refl, sym, ap, ◌∙◌, ◌⊎◌, inl, inr, Bool, true, false, not, ◌||◌, List, [], ◌∷◌,
  ltb→lt, ◌==◌, ==_iff, arith, In, here, there, In-cons, In-nil, In-filter_intro, Bool-cases,
}
use sqlite_graphrag.Knowledge.{Relationship, Db, touches, delete_relationships}
use sqlite_graphrag.Knowledge.Merge.{
  from_entity, to_entity, redirect_sources, redirect_targets, redirect_all, is_loop, is_repeated,
}
use sqlite_graphrag.Knowledge.Tables.{AllPairs-In, In-drop_where, exists-true}
use sqlite_graphrag.Knowledge.Degrees.{ExactBut-imp, delete_relationships-ExactBut}
use sqlite_graphrag.Knowledge.Integrity.{DifferEdge, IsWf, delete_relationships-IsWf}
use sqlite_graphrag.Knowledge.MergeRows.{is_key_iff}
use sqlite_graphrag.Knowledge.MergeStep.{
  IsMerged, MayBeWrong, IsBetween, IsRedirection, final-IsBetween, final-none, final-cond,
}

-- No edge touches the entity.
abbrev pub IsFree : ℕ → Db → Type 0
IsFree i db = (r : Relationship) → In r db.relationships → touches i r ≡ false

module _ (target : ℕ) (sources : List ℕ) (outside : ¬ In target sources) where
  abbrev new_source : Relationship → Relationship
  new_source r = record r { source_id = target }

  abbrev new_target : Relationship → Relationship
  new_target r = record r { target_id = target }

  other_than : (i j : ℕ) → i ≢ j → (i == j) ≡ false
  other_than i j h = elim (Bool-cases (i == j)) [
    | inl e ↦ absurd (h ((==_iff i j).0 e))
    | inr e ↦ e
  ]

  source_is_apart : (src : ℕ) → In src sources → src ≢ target
  source_is_apart src i e = outside (rw (← e) i)

  sources-IsRedirection :
      (src : ℕ) → In src sources → IsRedirection target sources src (from_entity src) new_source
  sources-IsRedirection src i = record {
    src_in = i;
    ids = λ r. refl;
    ends_test = λ r s c (a, b, l).
        let e = other_than src target (source_is_apart src i) in
        let q : s.source_id ≡ target = a in
        rw q (elim (Bool-cases (target == src)) [
          | inl f ↦ absurd (source_is_apart src i (sym ((==_iff target src).0 f)))
          | inr f ↦ f
        ]);
    apart = λ j r a b c.
        let e : r.source_id ≡ src = (==_iff r.source_id src).0 c in
        let f = other_than src j (λ q. a (sym q)) in
        let g = other_than target j (λ q. b (sym q)) in rw (e, f, g) refl;
    hit = λ j r c joins.
        let e : r.source_id ≡ src = (==_iff r.source_id src).0 c in
        elim joins [
          | inl (a, b) ↦ absurd (source_is_apart src i (sym e ∙ a))
          | inr (a, b) ↦ let q : j ≡ src = sym a ∙ e in inr (rw q i)
        ];
    taken = λ r s c (a, b, l).
        let e : r.source_id ≡ src = (==_iff r.source_id src).0 c in
        (inr (inr (rw e i)), inl (inl (a, b)));
    loop = λ r c e. refl;
    ends = λ r c. (inr refl, inl refl);
  }

  targets-IsRedirection :
      (src : ℕ) → In src sources → IsRedirection target sources src (to_entity src) new_target
  targets-IsRedirection src i = record {
    src_in = i;
    ids = λ r. refl;
    ends_test = λ r s c (a, b, l).
        let q : s.target_id ≡ target = b in
        rw q (elim (Bool-cases (target == src)) [
          | inl f ↦ absurd (source_is_apart src i (sym ((==_iff target src).0 f)))
          | inr f ↦ f
        ]);
    apart = λ j r a b c.
        let e : r.target_id ≡ src = (==_iff r.target_id src).0 c in
        let f = other_than src j (λ q. a (sym q)) in
        let g = other_than target j (λ q. b (sym q)) in rw (e, f, g) refl;
    hit = λ j r c joins.
        let e : r.target_id ≡ src = (==_iff r.target_id src).0 c in
        elim joins [
          | inl (a, b) ↦ let q : j ≡ src = sym b ∙ e in inr (rw q i)
          | inr (a, b) ↦ absurd (source_is_apart src i (sym e ∙ b))
        ];
    taken = λ r s c (a, b, l).
        let e : r.target_id ≡ src = (==_iff r.target_id src).0 c in
        (inl (inr (a, b)), inr (inr (rw e i)));
    loop = λ r c e. e;
    ends = λ r c. (inl refl, inr refl);
  }

  redirect_one :
      (src : ℕ) (db : Db)
      → In src sources
      → IsBetween target sources db
      → let db' = (redirect_targets target src (redirect_sources target src db).1).1 in
        IsBetween target sources db'
        × IsFree src db'
        × ((i : ℕ) → i ≢ target → IsFree i db → IsFree i db')
  unfolding redirect_sources redirect_targets
  redirect_one src db i between =
      let first = sources-IsRedirection src i in
      let second = targets-IsRedirection src i in
      let db1 = (redirect_sources target src db).1 in
      let mid = final-IsBetween target sources src (from_entity src) new_source first db between in
      let last = final-IsBetween target sources src (to_entity src) new_target second db1 mid in
      let never_source = final-cond target sources src (from_entity src) new_source first db in
      let none =
        final-none target sources src (to_entity src) new_target second (from_entity src) db1
          (λ r c n. n) never_source in
      let cond = final-cond target sources src (to_entity src) new_target second db1 in
      (
        last,
        λ r k. let a = none r k in let b = cond r k in rw (a, b) refl,
        λ j away free.
            let g = other_than target j (λ q. away (sym q)) in
            final-none target sources src (to_entity src) new_target second (touches j) db1
              (λ r c n. touch_less j r.source_id r.target_id target g n)
              (final-none target sources src (from_entity src) new_source first (touches j) db
                (λ r c n. touch_less' j r.source_id r.target_id target g n) free),
      )
    where
      touch_less :
          (j a b c : ℕ) → (c == j) ≡ false → (a == j || b == j) ≡ false → (a == j || c == j) ≡ false
      touch_less j a b c g n = ground arith

      touch_less' :
          (j a b c : ℕ) → (c == j) ≡ false → (a == j || b == j) ≡ false → (c == j || b == j) ≡ false
      touch_less' j a b c g n = ground arith

  -- The whole of step 1: no edge touches a source any more.
  pub redirect_all-IsBetween :
      (todo : List ℕ) (db : Db)
      → ((i : ℕ) → In i todo → In i sources)
      → IsBetween target sources db
      → let db' = (redirect_all target todo db).1 in
        IsBetween target sources db'
        × ((i : ℕ) → i ≢ target → IsFree i db ⊎ In i todo → IsFree i db')
  unfolding redirect_all
  redirect_all-IsBetween [] db known between =
      (between, λ i away h. elim h [ inl free ↦ free | inr m ↦ absurd (In-nil m) ])
  redirect_all-IsBetween (src ∷ todo) db known between =
      let (between', freed, keeps) = redirect_one src db (known src (here refl)) between in
      let db2 = (redirect_targets target src (redirect_sources target src db).1).1 in
      let (last, free) = redirect_all-IsBetween todo db2 (λ i m. known i (there m)) between' in
      (
        last,
        λ i away h. free i away (elim h [
          | inl f ↦ inl (keeps i away f)
          | inr m ↦ elim (In-cons m) [ inl e ↦ inl (rw e freed) | inr l ↦ inr l ]
        ]),
      )

  -- Edges between merged entities may go.
  drop-IsBetween :
      (cond : Relationship → Bool) (db : Db)
      → ((r : Relationship)
          → In r db.relationships
          → cond r ≡ true
          → IsMerged target sources r.source_id × IsMerged target sources r.target_id)
      → IsBetween target sources db
      → IsBetween target sources (delete_relationships cond db)
  unfolding delete_relationships
  drop-IsBetween cond db h between =
      let after = delete_relationships cond db in
      let still : (i : ℕ) → MayBeWrong target sources db i → MayBeWrong target sources after i =
        λ i w. elim w [
          | inr m ↦ inr m
          | inl (r, j, joins) ↦ elim (Bool-cases (cond r)) [
            | inr c ↦
                inl (r, In-filter_intro (λ x. not (cond x)) db.relationships (rw c refl) j, joins)
            | inl c ↦
                let (a, b) = h r j c in
                elim joins [ inl (p, q) ↦ inr (rw (← q) b) | inr (p, q) ↦ inr (rw (← p) a) ]
          ]
        ] in
      record {
        wf = delete_relationships-IsWf cond db between.wf;
        but =
            delete_relationships-ExactBut (MayBeWrong target sources after) cond db
              (λ r i c. let (a, b) = h r i c in (inr a, inr b))
              (ExactBut-imp (MayBeWrong target sources db) (MayBeWrong target sources after) db
                still between.but);
        loops = λ r i l. between.loops r (In-drop_where cond db.relationships i).1 l;
        has_target = between.has_target;
      }

  -- Step 2: every loop is the target's, or a source's.
  pub drop_loops-IsBetween :
      (db : Db)
      → IsBetween target sources db
      → IsBetween target sources (delete_relationships is_loop db)
  drop_loops-IsBetween db between =
      drop-IsBetween is_loop db
        (λ r i c.
          let e : r.source_id ≡ r.target_id = (==_iff r.source_id r.target_id).0 c in
          let m = between.loops r i e in (m, rw (← e) m))
        between

  -- Step 3 finds nothing, since the keys are unique.
  pub no_repetition :
      (db : Db)
      → IsWf db
      → (r : Relationship) → In r db.relationships
      → is_repeated db.relationships r ≡ false
  no_repetition db wf r i = elim (Bool-cases (is_repeated db.relationships r)) [
    | inr e ↦ e
    | inl e ↦
        let (s, j, h) = exists-true _ db.relationships e in
        let same = is_key_iff s r (ground arith) in
        let less = ltb→lt s.id r.id (ground arith) in
        elim (AllPairs-In DifferEdge db.relationships wf.edges_differ j i) [
          | inl q ↦ let ids : s.id ≡ r.id = ap (λ x. x.id) q in absurd (omega (arith, less, ids))
          | inr (inl d) ↦ absurd (d.1 same)
          | inr (inr d) ↦ absurd (d.1 (sym same.0, sym same.1, sym same.2))
        ]
  ]

  pub drop_repeated-IsBetween :
      (db : Db)
      → IsBetween target sources db
      → IsBetween target sources (delete_relationships (is_repeated db.relationships) db)
  drop_repeated-IsBetween db between =
      drop-IsBetween (is_repeated db.relationships) db
        (λ r i c. let e = no_repetition db between.wf r i in absurd (ground arith)) between
