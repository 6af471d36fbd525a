-- ===== src/Knowledge/CleanupResult.antt =====
-- What cleanup-orphans leaves (src/commands/cleanup_orphans.rs).
use sqlite_graphrag.Base.{
  ◌↔◌, ◌+◌, ℕ, ◌≡◌, ◌≢◌, refl, sym, inl, inr, String, Bool, true, false, not, Option, some, List,
  [], ◌∷◌, map, filter, length, ltb, ◌==◌, ==_iff, arith, In, here, there, In-cons, In-nil, In-map,
  In-map_intro, In-filter, In-filter_intro, Bool-cases, ok,
}
use sqlite_graphrag.Knowledge.{
  Entity, Relationship, Db, touches, exists, has_entity, drop_where, delete_relationships,
  delete_entity_row,
}
use sqlite_graphrag.Knowledge.Entities.{delete_relationships_by_ids, delete_entities_by_ids}
use sqlite_graphrag.Knowledge.Tables.{AllPairs, AllPairs-In, In-drop_where, exists-false}
use sqlite_graphrag.Knowledge.Integrity.{DifferEntity, DifferEdge}
use sqlite_graphrag.Knowledge.Cleanup.{
  is_orphan, find_orphan_entity_ids, is_dangling, find_dangling_relationship_ids, cleanup_orphans,
}

In-drop_where_intro :
    {A : Type 0} (p : A → Bool) (xs : List A) {x : A}
    → In x xs
    → p x ≡ false
    → In x (drop_where p xs)
In-drop_where_intro p xs {x} i e = In-filter_intro (λ y. not (p y)) xs (ground arith) i

other_id : (a b : ℕ) (ids : List ℕ) → ¬ In a (b ∷ ids) → (a == b) ≡ false
other_id a b ids apart = elim (Bool-cases (a == b)) [
  | inl e ↦ absurd (apart (here ((==_iff a b).0 e)))
  | inr e ↦ e
]

not_first : (a b : ℕ) (ids : List ℕ) → (a == b) ≡ false → ¬ In a ids → ¬ In a (b ∷ ids)
not_first a b ids e apart m = elim (In-cons m) [
  | inl q ↦ let f = (==_iff a b).1 q in absurd (ground arith)
  | inr n ↦ apart n
]

-- Deleting relationships by their ids.
delete_relationships_by_ids-In :
    (ids : List ℕ) (db : Db) (r : Relationship)
    → In r (delete_relationships_by_ids ids db).1.relationships
      ↔ In r db.relationships × ¬ In r.id ids
unfolding delete_relationships_by_ids delete_relationships
delete_relationships_by_ids-In [] db r = (λ i. (i, In-nil), λ (i, apart). i)
delete_relationships_by_ids-In (id ∷ ids) db r =
    let rest = delete_relationships_by_ids-In ids (delete_relationships (λ s. s.id == id) db) r in
    (
      λ i.
          let (j, apart) = rest.0 i in
          let (e, k) = In-drop_where (λ s. s.id == id) db.relationships j in
          (k, not_first r.id id ids e apart),
      λ (i, apart). rest.1 (
        In-drop_where_intro (λ s. s.id == id) db.relationships i (other_id r.id id ids apart),
        λ m. apart (there m),
      ),
    )

delete_relationships_by_ids-entities :
    (ids : List ℕ) (db : Db) → (delete_relationships_by_ids ids db).1.entities ≡ db.entities
unfolding delete_relationships_by_ids delete_relationships
delete_relationships_by_ids-entities [] db = refl
delete_relationships_by_ids-entities (id ∷ ids) db =
    delete_relationships_by_ids-entities ids (delete_relationships (λ s. s.id == id) db)

delete_entity_row-In :
    (id : ℕ) (db : Db) (e : Entity)
    → In e (delete_entity_row id db).entities ↔ In e db.entities × ((e.id == id) ≡ false)
unfolding delete_entity_row
delete_entity_row-In id db e = elim (Bool-cases (has_entity id db)) [
  | inl there_is ↦ rw there_is (
    λ i. let (f, j) = In-drop_where (λ x. x.id == id) db.entities i in (j, f),
    λ (i, f). In-drop_where_intro (λ x. x.id == id) db.entities i f,
  )
  | inr none_is ↦
      rw none_is (λ i. (i, exists-false (λ x. x.id == id) db.entities none_is i), λ (i, f). i)
]

delete_entity_row-edges :
    (id : ℕ) (db : Db) (r : Relationship)
    → touches id r ≡ false
    → In r (delete_entity_row id db).relationships ↔ In r db.relationships
unfolding delete_entity_row delete_relationships
delete_entity_row-edges id db r apart = elim (Bool-cases (has_entity id db)) [
  | inl there_is ↦ rw there_is (
    λ i. (In-drop_where (touches id) db.relationships i).1,
    λ i. In-drop_where_intro (touches id) db.relationships i apart,
  )
  | inr none_is ↦ rw none_is (λ i. i, λ i. i)
]

delete_entities_by_ids-In :
    (ids : List ℕ) (db : Db) (e : Entity)
    → In e (delete_entities_by_ids ids db).1.entities ↔ In e db.entities × ¬ In e.id ids
unfolding delete_entities_by_ids
delete_entities_by_ids-In [] db e = (λ i. (i, In-nil), λ (i, apart). i)
delete_entities_by_ids-In (id ∷ ids) db e =
    let rest = delete_entities_by_ids-In ids (delete_entity_row id db) e in
    let step = delete_entity_row-In id db e in
    (
      λ i. let (j, apart) = rest.0 i in let (k, f) = step.0 j in (k, not_first e.id id ids f apart),
      λ (i, apart). rest.1 (step.1 (i, other_id e.id id ids apart), λ m. apart (there m)),
    )

delete_entity_row-from :
    (id : ℕ) (db : Db) {r : Relationship}
    → In r (delete_entity_row id db).relationships
    → In r db.relationships
unfolding delete_entity_row delete_relationships
delete_entity_row-from id db = elim (Bool-cases (has_entity id db)) [
  | inl there_is ↦ rw there_is λ i. (In-drop_where (touches id) db.relationships i).1
  | inr none_is ↦ rw none_is λ i. i
]

delete_entities_by_ids-from :
    (ids : List ℕ) (db : Db) {r : Relationship}
    → In r (delete_entities_by_ids ids db).1.relationships
    → In r db.relationships
unfolding delete_entities_by_ids
delete_entities_by_ids-from [] db i = i
delete_entities_by_ids-from (id ∷ ids) db i =
    delete_entity_row-from id db (delete_entities_by_ids-from ids (delete_entity_row id db) i)

delete_entities_by_ids-keeps :
    (ids : List ℕ) (db : Db) {r : Relationship}
    → ((id : ℕ) → In id ids → touches id r ≡ false)
    → In r db.relationships
    → In r (delete_entities_by_ids ids db).1.relationships
unfolding delete_entities_by_ids
delete_entities_by_ids-keeps [] db apart i = i
delete_entities_by_ids-keeps (id ∷ ids) db {r} apart i =
    delete_entities_by_ids-keeps ids (delete_entity_row id db) (λ j m. apart j (there m))
      ((delete_entity_row-edges id db r (apart id (here refl))).1 i)

-- Keys are unique: the key of a row is listed exactly when the row is.
spared :
    {A : Type 0} (key : A → ℕ) (R : A → A → Type 0)
    → ((x y : A) → R x y → key x ≢ key y)
    → (p : A → Bool) (xs : List A) (x : A) → AllPairs R xs
    → In x xs
    → ¬ In (key x) (map key (filter p xs)) ↔ (p x ≡ false)
spared key R apart p xs x pairs i = (
  λ absent. elim (Bool-cases (p x)) [
    | inl e ↦ absurd (absent (In-map_intro key (filter p xs) (In-filter_intro p xs e i)))
    | inr e ↦ e
  ],
  λ e m.
      let (y, j, q) = In-map key (filter p xs) m in
      let (f, k) = In-filter p xs j in
      elim (AllPairs-In R xs pairs i k) [
        | inl same ↦ let g : p y ≡ false = rw (← same) e in absurd (ground arith)
        | inr (inl d) ↦ absurd (apart x y d q)
        | inr (inr d) ↦ absurd (apart y x d (sym q))
      ],
)

orphan_ids_apart :
    (namespace : Option String) (db : Db) (r : Relationship)
    → In r db.relationships
    → (id : ℕ) → In id (find_orphan_entity_ids namespace db)
    → touches id r ≡ false
unfolding find_orphan_entity_ids is_orphan
orphan_ids_apart namespace db r i id m =
    let (e, j, q) = In-map (λ x. x.id) (filter (is_orphan namespace db) db.entities) m in
    let (f, k) = In-filter (is_orphan namespace db) db.entities j in
    let free : exists (touches e.id) db.relationships ≡ false = ground arith in
    rw q (exists-false (touches e.id) db.relationships free i)

-- A confirmed cleanup of a namespace, in a graph whose ids and keys are unique, succeeds. The entities
-- it leaves are those of other namespaces and those that had a binding or an edge before it, be it an
-- edge that it deletes; the edges it leaves are those of other namespaces and those with both ends.
pub cleanup_orphans_lem :
    (violations : ℕ) (namespace : String) (db : Db)
    → AllPairs DifferEntity db.entities
    → AllPairs DifferEdge db.relationships
    → (report : ℕ × ℕ) × (db' : Db) × (cleanup_orphans violations false true namespace db
        ≡ ok (report, db'))
      × ((e : Entity)
          → In e db'.entities ↔ In e db.entities × (is_orphan (some namespace) db e ≡ false))
      × ((r : Relationship)
          → In r db'.relationships
            ↔ In r db.relationships × (is_dangling (some namespace) db r ≡ false))
unfolding cleanup_orphans find_orphan_entity_ids find_dangling_relationship_ids
cleanup_orphans_lem violations namespace db entities edges =
    let orphans = find_orphan_entity_ids (some namespace) db in
    let dangling = find_dangling_relationship_ids (some namespace) db in
    let (edges_removed, db1) = delete_relationships_by_ids dangling db in
    let (removed, db2) = delete_entities_by_ids orphans db1 in
    let same : db1.entities ≡ db.entities = delete_relationships_by_ids-entities dangling db in
    (
      (removed, edges_removed),
      db2,
      elim (Bool-cases (ltb 0 (length orphans + length dangling + violations))) [
        | inl e ↦ rw e refl
        | inr e ↦ rw e refl
      ],
      λ e.
          let left = delete_entities_by_ids-In orphans db1 e in
          let spare =
            spared (λ x. x.id) DifferEntity (λ x y d. d.0) (is_orphan (some namespace) db)
              db.entities e entities in
          (
            λ i.
                let (j, apart) = left.0 i in
                let k : In e db.entities = rw (← same) j in (k, (spare k).0 apart),
            λ (i, f). let j : In e db1.entities = rw same i in left.1 (j, (spare i).1 f),
          ),
      λ r.
          let left = delete_relationships_by_ids-In dangling db r in
          let spare =
            spared (λ x. x.id) DifferEdge (λ x y d. d.0) (is_dangling (some namespace) db)
              db.relationships r edges in
          (
            λ i.
                let (j, apart) = left.0 (delete_entities_by_ids-from orphans db1 i) in
                (j, (spare j).0 apart),
            λ (i, f).
                delete_entities_by_ids-keeps orphans db1 (orphan_ids_apart (some namespace) db r i)
                  (left.1 (i, (spare i).1 f)),
          ),
    )
