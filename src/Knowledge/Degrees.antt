-- ===== src/Knowledge/Degrees.antt =====
-- The column `degree` of src/storage/entities/merge.rs: what the recalculations repair, and which
-- degrees a statement can make wrong.
use sqlite_graphrag.Base.{
  ℕ, ◌≡◌, refl, sym, ap, ◌∙◌, ◌⊎◌, inl, inr, Bool, true, false, ◌&&◌, List, [], ◌∷◌, ◌++◌, filter,
  ◌==◌, ==_iff, arith, In, here, there, In-cons, In-nil, Bool-cases, String, Option,
}
use sqlite_graphrag.Labels.{Label}
use sqlite_graphrag.Knowledge.{
  Entity, Relationship, Db, touches, exists, drop_where, delete_relationships,
  delete_memory_relationships,
}
use sqlite_graphrag.Knowledge.Entities.{
  incident, recalculate_degree, recalculate_degrees, delete_relationship_by_id,
  delete_each_relationship, insert_relationship,
}
use sqlite_graphrag.Knowledge.Tables.{exists-true, exists-false, In-drop_where, In-set_where}

-- Every degree is the number of the entity's edges, but perhaps those of the entities in `P`.
abbrev pub ExactBut : (ℕ → Type 0) → Db → Type 0
ExactBut P db =
    (e : Entity) → In e db.entities → (e.degree ≡ incident e.id db.relationships) ⊎ P e.id

abbrev pub IsExact : Db → Type 0
IsExact db = (e : Entity) → In e db.entities → e.degree ≡ incident e.id db.relationships

pub ExactBut-imp :
    (P Q : ℕ → Type 0) (db : Db) → ((i : ℕ) → P i → Q i) → ExactBut P db → ExactBut Q db
ExactBut-imp P Q db f h e i = elim (h e i) [ inl x ↦ inl x | inr p ↦ inr (f e.id p) ]

pub ExactBut-IsExact : (P : ℕ → Type 0) (db : Db) → IsExact db → ExactBut P db
ExactBut-IsExact P db h e i = inl (h e i)

-- A recalculation repairs its entity and spoils none.
recalculate_degree-ExactBut :
    (P : ℕ → Type 0) (id : ℕ) (db : Db)
    → ExactBut (λ i. (i ≡ id) ⊎ P i) db
    → ExactBut P (recalculate_degree id db)
unfolding recalculate_degree
recalculate_degree-ExactBut P id db h e i =
    let (e0, j, c) =
      In-set_where (λ x. x.id == id) (λ x. record x { degree = incident x.id db.relationships })
        db.entities i in
    elim c [
      | inl (same, q) ↦
          inl (ap (λ x. x.degree) q ∙ sym (ap (λ x. incident x.id db.relationships) q))
      | inr (other, q) ↦ elim (h e0 j) [
        | inl exact ↦
            inl (ap (λ x. x.degree) q ∙ exact ∙ sym (ap (λ x. incident x.id db.relationships) q))
        | inr (inl same) ↦ ground arith
        | inr (inr p) ↦ inr (rw (ap (λ x. x.id) q) p)
      ]
    ]

-- The loop repairs the listed entities.
pub recalculate_degrees-IsExact :
    (ids : List ℕ) (db : Db) → ExactBut (λ i. In i ids) db → IsExact (recalculate_degrees ids db)
unfolding recalculate_degrees
recalculate_degrees-IsExact [] db h =
    λ e i. elim (h e i) [ inl exact ↦ exact | inr m ↦ absurd (In-nil m) ]
recalculate_degrees-IsExact (id ∷ ids) db h =
    recalculate_degrees-IsExact ids (recalculate_degree id db) (
      recalculate_degree-ExactBut (λ i. In i ids) id db
        (ExactBut-imp (λ i. In i (id ∷ ids)) (λ i. (i ≡ id) ⊎ In i ids) db (λ i m. In-cons m) h))

-- The count of an entity's edges, where rows go that do not touch it.
incident-drop :
    (id : ℕ) (cond : Relationship → Bool) (rs : List Relationship)
    → ((r : Relationship) → In r rs → (cond r && touches id r) ≡ false)
    → incident id (drop_where cond rs) ≡ incident id rs
unfolding incident filter
incident-drop id cond [] h = refl
incident-drop id cond (r ∷ rs) h =
    let rest = incident-drop id cond rs (λ s i. h s (there i)) in
    let now = h r (here refl) in
    elim (Bool-cases (cond r)) [
      | inl e ↦ elim (Bool-cases (touches id r)) [ inl f ↦ ground arith | inr f ↦ rw (e, f) rest ]
      | inr e ↦ elim (Bool-cases (touches id r)) [
        | inl f ↦ rw (e, f, rest) refl
        | inr f ↦ rw (e, f) rest
      ]
    ]

-- A deletion spoils the degrees of the ends of the deleted edges only.
pub delete_relationships-ExactBut :
    (P : ℕ → Type 0) (cond : Relationship → Bool) (db : Db)
    → ((r : Relationship) → In r db.relationships → cond r ≡ true → P r.source_id × P r.target_id)
    → ExactBut P db
    → ExactBut P (delete_relationships cond db)
unfolding delete_relationships
delete_relationships-ExactBut P cond db h exact e i =
    elim (Bool-cases (exists (λ r. cond r && touches e.id r) db.relationships)) [
      | inl found ↦
          let (r, j, both) = exists-true (λ s. cond s && touches e.id s) db.relationships found in
          let (ps, pt) = h r j (ground arith) in
          elim (Bool-cases (r.source_id == e.id)) [
            | inl s ↦ let same : r.source_id ≡ e.id = ground arith in inr (rw (← same) ps)
            | inr s ↦ let same : r.target_id ≡ e.id = ground arith in inr (rw (← same) pt)
          ]
      | inr none_there ↦ elim (exact e i) [
        | inl x ↦ inl (
            x
            ∙ sym (
                incident-drop e.id cond db.relationships (λ r j.
                  exists-false (λ s. cond s && touches e.id s) db.relationships none_there j)))
        | inr p ↦ inr p
      ]
    ]

pub delete_relationship_by_id-ExactBut :
    (P : ℕ → Type 0) (id : ℕ) (db : Db)
    → ((r : Relationship) → In r db.relationships → r.id ≡ id → P r.source_id × P r.target_id)
    → ExactBut P db
    → ExactBut P (delete_relationship_by_id id db)
unfolding delete_relationship_by_id delete_memory_relationships
delete_relationship_by_id-ExactBut P id db h exact =
    delete_relationships-ExactBut P (λ r. r.id == id) (delete_memory_relationships id db)
      (λ r i e. h r i ((==_iff r.id id).0 e)) exact

pub delete_each_relationship-ExactBut :
    (P : ℕ → Type 0) (ids : List ℕ) (db : Db)
    → ((r : Relationship) → In r db.relationships → In r.id ids → P r.source_id × P r.target_id)
    → ExactBut P db
    → ExactBut P (delete_each_relationship ids db)
unfolding delete_each_relationship delete_relationship_by_id delete_memory_relationships
    delete_relationships
delete_each_relationship-ExactBut P [] db h exact = exact
delete_each_relationship-ExactBut P (id ∷ ids) db h exact =
    delete_each_relationship-ExactBut P ids (delete_relationship_by_id id db)
      (λ r i m. h r (In-drop_where (λ s. s.id == id) db.relationships i).1 (there m))
      (delete_relationship_by_id-ExactBut P id db (λ r i e. h r i (here e)) exact)

-- The edges of a list grow by those that a new row has.
incident-snoc :
    (id : ℕ) (rs : List Relationship) (r : Relationship)
    → touches id r ≡ false
    → incident id (rs ++ (r ∷ [])) ≡ incident id rs
unfolding incident filter
incident-snoc id [] r e = rw e refl
incident-snoc id (s ∷ rs) r e = elim (Bool-cases (touches id s)) [
  | inl f ↦ rw (f, incident-snoc id rs r e) refl
  | inr f ↦ rw f (incident-snoc id rs r e)
]

pub insert_relationship-ExactBut :
    (P : ℕ → Type 0) (namespace : String) (source_id target_id : ℕ) (relation : Label) (weight : ℕ)
    (description : Option String) (db : Db)
    → P source_id
    → P target_id
    → ExactBut P db
    → ExactBut P (insert_relationship namespace source_id target_id relation weight description db)
unfolding insert_relationship
insert_relationship-ExactBut P namespace source_id target_id relation weight description db ps pt
      exact e i =
    elim (Bool-cases (source_id == e.id)) [
      | inl s ↦ let same : source_id ≡ e.id = ground arith in inr (rw (← same) ps)
      | inr s ↦ elim (Bool-cases (target_id == e.id)) [
        | inl t ↦ let same : target_id ≡ e.id = ground arith in inr (rw (← same) pt)
        | inr t ↦ elim (exact e i) [
          | inl x ↦ inl (x ∙ sym (incident-snoc e.id db.relationships _ (rw (s, t) refl)))
          | inr p ↦ inr p
        ]
      ]
    ]
