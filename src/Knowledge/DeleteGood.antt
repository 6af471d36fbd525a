-- ===== src/Knowledge/DeleteGood.antt =====
-- `delete-entity` (src/commands/delete_entity.rs) keeps a graph good.
use sqlite_graphrag.Base.{
  ℕ, ◌≡◌, ◌≢◌, refl, ◌⊎◌, inl, inr, String, Bool, true, false, not, List, [], ◌∷◌, filter, ◌==◌,
  ==_iff, arith, In, In-filter_intro, In-map_intro, Bool-cases, Option-cases, if◌then◌else◌,
}
use sqlite_graphrag.Labels.{Label}
use sqlite_graphrag.Knowledge.{
  Entity, Relationship, Db, Platform, touches, has_entity, drop_where, delete_relationships,
  delete_entity_row, delete_memory_relationships,
}
use sqlite_graphrag.Knowledge.Entities.{find_entity_id}
use sqlite_graphrag.Knowledge.Unlink.{ids_where}
use sqlite_graphrag.Knowledge.DeleteEntity.{
  adjacent_ids, delete_bindings_of, delete_entity_steps, delete_entity,
}
use sqlite_graphrag.Knowledge.Tables.{In-drop_where, exists-false}
use sqlite_graphrag.Knowledge.Degrees.{
  ExactBut, ExactBut-IsExact, ExactBut-imp, delete_relationships-ExactBut,
}
use sqlite_graphrag.Knowledge.Integrity.{
  delete_relationships-IsWf, delete_memory_relationships-IsWf, delete_entity_row-IsWf,
}
use sqlite_graphrag.Knowledge.Good.{IsGood, Holds, drop_bindings-IsWf, recalculate_degrees-IsGood}

-- An entity without edges goes: no degree changes, and it is not among those left.
pub delete_entity_row-ExactBut :
    (P : ℕ → Type 0) (id : ℕ) (db : Db)
    → ((r : Relationship) → In r db.relationships → touches id r ≡ false)
    → ExactBut P db
    → ExactBut (λ i. P i × (i ≢ id)) (delete_entity_row id db)
unfolding delete_entity_row delete_relationships
delete_entity_row-ExactBut P id db apart exact =
    let apart_from : (e : Entity) → (e.id == id) ≡ false → P e.id → P e.id × (e.id ≢ id) =
      λ e other p. (p, λ same. let hit = (==_iff e.id id).1 same in ground arith) in
    elim (Bool-cases (has_entity id db)) [
      | inr gone ↦ rw gone λ e i. elim (exact e i) [
        | inl x ↦ inl x
        | inr p ↦ inr (apart_from e (exists-false (λ y. y.id == id) db.entities gone i) p)
      ]
      | inl here_it_is ↦ rw here_it_is λ e i.
          let (other, j) = In-drop_where (λ y. y.id == id) db.entities i in
          elim (delete_relationships-ExactBut P (touches id) db
            (λ r k c. let no = apart r k in ground arith) exact e j) [
              | inl x ↦ inl x
              | inr p ↦ inr (apart_from e other p)
            ]
    ]

delete_bindings_of-keeps :
    (ids : List ℕ) (db : Db)
    → ((delete_bindings_of ids db).relationships ≡ db.relationships)
      × ((delete_bindings_of ids db).entities ≡ db.entities)
unfolding delete_bindings_of delete_memory_relationships
delete_bindings_of-keeps [] db = (refl, refl)
delete_bindings_of-keeps (id ∷ ids) db =
    delete_bindings_of-keeps ids (delete_memory_relationships id db)

delete_bindings_of-IsGood :
    (ids : List ℕ) (db : Db) → IsGood db → IsGood (delete_bindings_of ids db)
unfolding delete_bindings_of delete_memory_relationships
delete_bindings_of-IsGood [] db good = good
delete_bindings_of-IsGood (id ∷ ids) db good =
    delete_bindings_of-IsGood ids (delete_memory_relationships id db)
      (record { wf = delete_memory_relationships-IsWf id db good.wf; exact = good.exact })

-- Both ends of an edge of the entity: it, or one of its neighbours.
adjacent_ids-In :
    (id : ℕ) (db : Db) (r : Relationship)
    → In r db.relationships
    → touches id r ≡ true
    → let P : ℕ → Type 0 = λ i. (i ≡ id) ⊎ In i (adjacent_ids id db) in
      P r.source_id × P r.target_id
unfolding adjacent_ids
adjacent_ids-In id db r i c =
    let m =
      In-map_intro (λ x. if x.source_id == id then x.target_id else x.source_id)
        (filter (touches id) db.relationships)
        (In-filter_intro (touches id) db.relationships c i) in
    elim (Bool-cases (r.source_id == id)) [
      | inl s ↦
          let other : (if r.source_id == id then r.target_id else r.source_id) ≡ r.target_id =
            rw s refl in
          let n : In r.target_id (adjacent_ids id db) = rw (← other) m in
          (inl (ground arith), inr n)
      | inr s ↦
          let other : (if r.source_id == id then r.target_id else r.source_id) ≡ r.source_id =
            rw s refl in
          let n : In r.source_id (adjacent_ids id db) = rw (← other) m in
          (inr n, inl (ground arith))
    ]

-- The neighbours lose an edge and are recalculated.
delete_entity_steps-IsGood : (id : ℕ) (db : Db) → IsGood db → IsGood (delete_entity_steps id db).1
unfolding delete_entity_steps delete_relationships
delete_entity_steps-IsGood id db good =
    let adjacent = adjacent_ids id db in
    let P : ℕ → Type 0 = λ i. (i ≡ id) ⊎ In i adjacent in
    let ids = ids_where (touches id) db in
    let unbound = delete_bindings_of ids db in
    let unbound-IsGood = delete_bindings_of-IsGood ids db good in
    let cut = delete_relationships (touches id) unbound in
    let freed : Db = record cut {
      memory_entities = drop_where (λ b. b.entity_id == id) cut.memory_entities;
    } in
    let wf =
      drop_bindings-IsWf (λ b. b.entity_id == id) cut
        (delete_relationships-IsWf (touches id) unbound unbound-IsGood.wf) in
    let but : ExactBut P freed =
      delete_relationships-ExactBut P (touches id) unbound
        (λ r i c. adjacent_ids-In id db r (rw (← (delete_bindings_of-keeps ids db).0) i) c)
        (ExactBut-IsExact P unbound unbound-IsGood.exact) in
    let left = filter (λ adj. not (adj == id)) adjacent in
    recalculate_degrees-IsGood left (delete_entity_row id freed)
      (delete_entity_row-IsWf id freed wf)
      (ExactBut-imp (λ i. P i × (i ≢ id)) (λ i. In i left) (delete_entity_row id freed)
        (λ i (p, other). elim p [
          | inl same ↦ absurd (other same)
          | inr m ↦ In-filter_intro (λ adj. not (adj == id)) adjacent (ground arith) m
        ])
        (delete_entity_row-ExactBut P id freed (cut_is_apart unbound) but))
  where
    cut_is_apart :
        (d : Db) (r : Relationship)
        → In r (delete_relationships (touches id) d).relationships
        → touches id r ≡ false
    cut_is_apart d r i = (In-drop_where (touches id) d.relationships i).0

pub delete_entity-IsGood :
    (platform : Platform) (namespace : String) (cascade : Bool) (name : Label) (db : Db)
    → IsGood db
    → Holds (λ x. IsGood x.1) (delete_entity platform namespace cascade name db)
unfolding delete_entity
delete_entity-IsGood platform namespace false name db good = tt
delete_entity-IsGood platform namespace true name db good =
    elim (Option-cases (find_entity_id platform namespace name db)) [
      | inl missing ↦ rw (missing, delete_entity) tt
      | inr (id, found) ↦ rw (found, delete_entity) (delete_entity_steps-IsGood id db good)
    ]
