-- ===== src/Knowledge/MergeLeft.antt =====
-- What `merge-entities` (src/commands/merge_entities/mod.rs) leaves of the entities merged.
use sqlite_graphrag.Base.{
  ℕ, ◌≡◌, ◌≢◌, refl, sym, ap, ◌∙◌, inl, inr, Bool, false, List, [], ◌∷◌, ◌==◌, ==_iff, arith, In,
  In-cons, In-nil, Bool-cases,
}
use sqlite_graphrag.Knowledge.{
  Entity, Relationship, Db, touches, has_entity, delete_relationships, delete_entity_row,
}
use sqlite_graphrag.Knowledge.Entities.{incident, recalculate_degree, recalculate_degrees}
use sqlite_graphrag.Knowledge.DeleteEntity.{adjacent_ids}
use sqlite_graphrag.Knowledge.Merge.{
  redirect_all, is_loop, is_repeated, rebind_all, dedup_bindings, delete_entity_rows,
  merge_entities,
}
use sqlite_graphrag.Knowledge.Tables.{In-drop_where, In-set_where, exists-false}
use sqlite_graphrag.Knowledge.Integrity.{HasEntity}
use sqlite_graphrag.Knowledge.Good.{IsGood}
use sqlite_graphrag.Knowledge.MergeLoop.{
  IsFree, redirect_all-IsBetween, drop_loops-IsBetween, drop_repeated-IsBetween,
}
use sqlite_graphrag.Knowledge.MergeGood.{start-IsBetween, rebind_all-IsBetween}

fewer :
    (cond : Relationship → Bool) (db : Db) {r : Relationship}
    → In r (delete_relationships cond db).relationships
    → (cond r ≡ false) × In r db.relationships
unfolding delete_relationships
fewer cond db i = In-drop_where cond db.relationships i

delete_entity_row-fewer :
    (id : ℕ) (db : Db) (r : Relationship)
    → In r (delete_entity_row id db).relationships
    → In r db.relationships
unfolding delete_entity_row delete_relationships
delete_entity_row-fewer id db r = elim (Bool-cases (has_entity id db)) [
  | inr gone ↦ rw gone λ i. i
  | inl there_is ↦ rw there_is λ i. (In-drop_where (touches id) db.relationships i).1
]

delete_entity_row-gone :
    (id : ℕ) (db : Db) (e : Entity)
    → In e (delete_entity_row id db).entities
    → (e.id ≢ id) × In e db.entities
unfolding delete_entity_row delete_relationships
delete_entity_row-gone id db e = elim (Bool-cases (has_entity id db)) [
  | inr gone ↦ rw gone λ i. (
    λ q.
        let never = exists-false (λ y. y.id == id) db.entities gone i in
        let hit = (==_iff e.id id).1 q in ground arith,
    i,
  )
  | inl there_is ↦ rw there_is λ i.
      let (other, j) = In-drop_where (λ y. y.id == id) db.entities i in
      (λ q. let hit = (==_iff e.id id).1 q in ground arith, j)
]

delete_entity_rows-fewer :
    (ids : List ℕ) (db : Db) (r : Relationship)
    → In r (delete_entity_rows ids db).relationships
    → In r db.relationships
unfolding delete_entity_rows
delete_entity_rows-fewer [] db r i = i
delete_entity_rows-fewer (id ∷ ids) db r i =
    delete_entity_row-fewer id db r (delete_entity_rows-fewer ids (delete_entity_row id db) r i)

delete_entity_rows-gone :
    (ids : List ℕ) (db : Db) (e : Entity)
    → In e (delete_entity_rows ids db).entities
    → (¬ In e.id ids) × In e db.entities
unfolding delete_entity_rows
delete_entity_rows-gone [] db e i = (In-nil, i)
delete_entity_rows-gone (id ∷ ids) db e i =
    let (out, j) = delete_entity_rows-gone ids (delete_entity_row id db) e i in
    let (other, k) = delete_entity_row-gone id db e j in
    (λ m. elim (In-cons m) [ inl q ↦ other q | inr l ↦ out l ], k)

recalculate_degrees-relationships :
    (ids : List ℕ) (db : Db) → (recalculate_degrees ids db).relationships ≡ db.relationships
unfolding recalculate_degrees recalculate_degree
recalculate_degrees-relationships [] db = refl
recalculate_degrees-relationships (id ∷ ids) db =
    recalculate_degrees-relationships ids (recalculate_degree id db)

recalculate_degrees-HasEntity :
    (ids : List ℕ) (db : Db) (i : ℕ) → HasEntity i (recalculate_degrees ids db) → HasEntity i db
unfolding recalculate_degrees recalculate_degree
recalculate_degrees-HasEntity [] db i h = h
recalculate_degrees-HasEntity (id ∷ ids) db i h =
    let (e, j, same) = recalculate_degrees-HasEntity ids (recalculate_degree id db) i h in
    let change : Entity → Entity = λ x. record x { degree = incident x.id db.relationships } in
    let (y, k, c) = In-set_where (λ x. x.id == id) change db.entities j in
    let ids_same : e.id ≡ y.id = elim c [
      | inl (f, q) ↦ ap (λ x. x.id) q
      | inr (f, q) ↦ ap (λ x. x.id) q
    ] in
    (y, k, sym ids_same ∙ same)

-- Merging entities into another one, in a good graph without loops: no entity merged is left, no
-- edge touches one, and no edge is a loop.
pub merge_entities-gone :
    (target : ℕ) (sources : List ℕ) (db : Db)
    → ¬ In target sources
    → IsGood db
    → HasEntity target db
    → ((r : Relationship) → In r db.relationships → r.source_id ≢ r.target_id)
    → let db' = (merge_entities target sources db).1 in
      ((i : ℕ) → In i sources → (¬ HasEntity i db') × IsFree i db')
      × ((r : Relationship) → In r db'.relationships → r.source_id ≢ r.target_id)
unfolding merge_entities recalculate_degrees
merge_entities-gone target sources db outside good has loopless =
    let between = start-IsBetween target sources outside db good has loopless in
    let db1 = (redirect_all target sources db).1 in
    let (b1, f1) = redirect_all-IsBetween target sources outside sources db (λ i m. m) between in
    let db2 = delete_relationships is_loop db1 in
    let b2 = drop_loops-IsBetween target sources outside db1 b1 in
    let db3 = delete_relationships (is_repeated db2.relationships) db2 in
    let b3 = drop_repeated-IsBetween target sources outside db2 b2 in
    let db4 = rebind_all target sources db3 in
    let (b4, rows) = rebind_all-IsBetween target sources outside sources db3 b3 in
    let db5 : Db = record db4 { memory_entities = dedup_bindings [] db4.memory_entities } in
    let db6 = delete_entity_rows sources db5 in
    let ids = target ∷ adjacent_ids target db6 in
    let back : (r : Relationship)
        → In r (recalculate_degrees ids db6).relationships
        → (is_loop r ≡ false) × In r db1.relationships =
      λ r i.
        let j : In r db6.relationships = rw (← recalculate_degrees-relationships ids db6) i in
        let k : In r db3.relationships = rw (← rows) (delete_entity_rows-fewer sources db5 r j) in
        fewer is_loop db1 (fewer (is_repeated db2.relationships) db2 k).1 in
    (
      λ i m. (
        λ h.
            let (e, j, same) = recalculate_degrees-HasEntity ids db6 i h in
            let (out, k) = delete_entity_rows-gone sources db5 e j in out (rw same m),
        λ r j. f1 i (λ q. outside (rw (← q) m)) (inr m) r (back r j).1,
      ),
      λ r i q.
          let (never, j) = back r i in
          let hit = (==_iff r.source_id r.target_id).1 q in ground arith,
    )
