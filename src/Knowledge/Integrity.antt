-- ===== src/Knowledge/Integrity.antt =====
-- The integrity of the graph's tables (migrations/V001__init.sql): the unique keys, the foreign keys
-- and the ids, and that the deletions keep it.
use sqlite_graphrag.Base.{
  ℕ, ◌≤◌, ◌≡◌, ◌≢◌, refl, sym, inl, inr, Bool, true, false, not, ◌&&◌, List, ◌==◌, arith, In,
  In-filter_intro, Bool-cases,
}
use sqlite_graphrag.Knowledge.{
  Entity, Relationship, MemoryEntity, MemoryRelationship, Db, touches, exists, has_entity,
  drop_where, delete_relationships, delete_entity_row, delete_memory_relationships,
}
use sqlite_graphrag.Knowledge.Tables.{
  AllPairs, AllPairs-In, filter-AllPairs, exists_intro, In-drop_where,
}

abbrev pub DifferEntity : Entity → Entity → Type 0
DifferEntity e f = (e.id ≢ f.id) × ¬ ((e.namespace ≡ f.namespace) × (e.name ≡ f.name))

abbrev pub SameEdge : Relationship → Relationship → Type 0
SameEdge r s = (r.source_id ≡ s.source_id) × (r.target_id ≡ s.target_id) × (r.relation ≡ s.relation)

abbrev pub DifferEdge : Relationship → Relationship → Type 0
DifferEdge r s = (r.id ≢ s.id) × ¬ SameEdge r s

abbrev pub HasEntity : ℕ → Db → Type 0
HasEntity id db = (e : Entity) × In e db.entities × (e.id ≡ id)

abbrev pub HasRelationship : ℕ → Db → Type 0
HasRelationship id db = (r : Relationship) × In r db.relationships × (r.id ≡ id)

pub record IsWf (db : Db) : Type 0 where
  pub entity_below : (e : Entity) → In e db.entities → e.id ≤ db.last_entity_id
  pub entities_differ : AllPairs DifferEntity db.entities
  pub edge_below : (r : Relationship) → In r db.relationships → r.id ≤ db.last_relationship_id
  pub edges_differ : AllPairs DifferEdge db.relationships
  pub ends_exist :
      (r : Relationship)
      → In r db.relationships
      → HasEntity r.source_id db × HasEntity r.target_id db
  pub entities_bound : (b : MemoryEntity) → In b db.memory_entities → HasEntity b.entity_id db
  pub edges_bound :
      (b : MemoryRelationship) → In b db.memory_relationships → HasRelationship b.relationship_id db

-- An id is that of one edge.
pub same_edge :
    (db : Db)
    → IsWf db
    → {r s : Relationship} → In r db.relationships
    → In s db.relationships
    → r.id ≡ s.id
    → r ≡ s
same_edge db wf i j e = elim (AllPairs-In DifferEdge db.relationships wf.edges_differ i j) [
  | inl same ↦ same
  | inr (inl d) ↦ absurd (d.0 e)
  | inr (inr d) ↦ absurd (d.0 (sym e))
]

In-keep :
    {A : Type 0} (p : A → Bool) (xs : List A) {x : A}
    → In x xs
    → p x ≡ false
    → In x (drop_where p xs)
In-keep p xs i e = In-filter_intro (λ y. not (p y)) xs (rw e refl) i

pub delete_memory_relationships-IsWf :
    (id : ℕ) (db : Db) → IsWf db → IsWf (delete_memory_relationships id db)
unfolding delete_memory_relationships
delete_memory_relationships-IsWf id db wf = record {
  entity_below = wf.entity_below;
  entities_differ = wf.entities_differ;
  edge_below = wf.edge_below;
  edges_differ = wf.edges_differ;
  ends_exist = wf.ends_exist;
  entities_bound = wf.entities_bound;
  edges_bound = λ b i.
      wf.edges_bound b (In-drop_where (λ c. c.relationship_id == id) db.memory_relationships i).1;
}

pub delete_relationships-IsWf :
    (cond : Relationship → Bool) (db : Db) → IsWf db → IsWf (delete_relationships cond db)
unfolding delete_relationships
delete_relationships-IsWf cond db wf = record {
  entity_below = wf.entity_below;
  entities_differ = wf.entities_differ;
  edge_below = λ r i. wf.edge_below r (In-drop_where cond db.relationships i).1;
  edges_differ = filter-AllPairs DifferEdge (λ r. not (cond r)) db.relationships wf.edges_differ;
  ends_exist = λ r i. wf.ends_exist r (In-drop_where cond db.relationships i).1;
  entities_bound = wf.entities_bound;
  edges_bound = λ b i.
      let (alive, j) =
        In-drop_where (λ c. exists (λ r. cond r && r.id == c.relationship_id) db.relationships)
          db.memory_relationships i in
      let (r, k, e) = wf.edges_bound b j in
      elim (Bool-cases (cond r)) [
        | inl f ↦
            let same : (r.id == b.relationship_id) ≡ true = ground arith in
            let dead =
              exists_intro (λ s. cond s && s.id == b.relationship_id) db.relationships k
                (rw (f, same) refl) in
            ground arith
        | inr f ↦ (r, In-keep cond db.relationships k f, e)
      ];
}

-- The row goes, with all that refers to it.
pub delete_entity_row-IsWf : (id : ℕ) (db : Db) → IsWf db → IsWf (delete_entity_row id db)
unfolding delete_entity_row delete_relationships
delete_entity_row-IsWf id db wf = elim (Bool-cases (has_entity id db)) [
  | inr e ↦ rw e wf
  | inl e ↦
      let left = delete_relationships-IsWf (touches id) db wf in
      let stays : (i : ℕ)
          → (i == id) ≡ false
          → HasEntity i db
          → (x : Entity) × In x (drop_where (λ y. y.id == id) db.entities) × (x.id ≡ i) =
        λ i other (x, j, same). (x, In-keep (λ y. y.id == id) db.entities j (ground arith), same) in
      rw e (record {
        entity_below = λ x i. wf.entity_below x (In-drop_where (λ y. y.id == id) db.entities i).1;
        entities_differ =
            filter-AllPairs DifferEntity (λ y. not (y.id == id)) db.entities wf.entities_differ;
        edge_below = left.edge_below;
        edges_differ = left.edges_differ;
        ends_exist = λ r i.
            let (apart, j) = In-drop_where (touches id) db.relationships i in
            let (s, t) = wf.ends_exist r j in
            (stays r.source_id (ground arith) s, stays r.target_id (ground arith) t);
        entities_bound = λ b i.
            let (apart, j) = In-drop_where (λ c. c.entity_id == id) db.memory_entities i in
            stays b.entity_id apart (wf.entities_bound b j);
        edges_bound = left.edges_bound;
      })
]
