-- ===== src/Knowledge/Good.antt =====
-- Good graphs, whose tables are sound and whose degrees are exact, and the statements and storage
-- operations that keep them good.
use sqlite_graphrag.Base.{
  ℕ, suc, ◌≡◌, refl, sym, ◌∙◌, inl, inr, String, Bool, true, false, Option, List, [], ◌∷◌, map,
  ◌==◌, filter, arith, In, here, there, In-append, In-cons, In-nil, Bool-cases, if◌then◌else◌,
  Result, ok, err, ◌>>=◌,
}
use sqlite_graphrag.Errors.{AppError}
use sqlite_graphrag.Labels.{Label}
use sqlite_graphrag.Knowledge.{
  Entity, Relationship, MemoryEntity, Db, touches, exists, drop_where, is_named,
  delete_memory_relationships,
}
use sqlite_graphrag.Knowledge.Entities.{
  incident, recalculate_degrees, set_weight, write_entity, coalesce, delete_relationship_by_id,
  delete_each_relationship,
}
use sqlite_graphrag.Knowledge.Link.{refuse_if}
use sqlite_graphrag.Knowledge.Tables.{In-set_where, In-drop_where}
use sqlite_graphrag.Knowledge.Degrees.{ExactBut, IsExact, recalculate_degrees-IsExact}
use sqlite_graphrag.Knowledge.Integrity.{
  IsWf, delete_relationships-IsWf, delete_memory_relationships-IsWf,
}
use sqlite_graphrag.Knowledge.Rows.{recalculate_degrees-IsWf, write_entity-IsWf, set_weight-IsWf}

pub record IsGood (db : Db) : Type 0 where
  pub wf : IsWf db
  pub exact : IsExact db

-- What the result of a command satisfies, if it has one; a refused command changes nothing.
abbrev pub Holds : {A : Type 0} → (A → Type 0) → Result AppError A → Type 0
Holds P (ok x) = P x
Holds P (err e) = Unit

pub Holds-bind :
    {A B : Type 0} (P : A → Type 0) (Q : B → Type 0) (r : Result AppError A)
    (f : A → Result AppError B)
    → Holds P r
    → ((x : A) → P x → Holds Q (f x))
    → Holds Q (r >>= f)
Holds-bind P Q (ok x) f h g = g x h
Holds-bind P Q (err e) f h g = tt

pub Holds-refuse_if :
    {A : Type 0} (P : A → Type 0) (b : Bool) (message : String) (r : Result AppError A)
    → (b ≡ false → Holds P r)
    → Holds P (refuse_if b message r)
Holds-refuse_if P true message r h = tt
Holds-refuse_if P false message r h = h refl

pub Result-Holds : {A : Type 0} (r : Result AppError A) → Holds (λ x. Unit {0}) r
Result-Holds (ok x) = tt
Result-Holds (err e) = tt

pub delete_relationship_by_id-IsWf :
    (id : ℕ) (db : Db) → IsWf db → IsWf (delete_relationship_by_id id db)
unfolding delete_relationship_by_id
delete_relationship_by_id-IsWf id db wf =
    delete_relationships-IsWf (λ r. r.id == id) (delete_memory_relationships id db)
      (delete_memory_relationships-IsWf id db wf)

pub delete_each_relationship-IsWf :
    (ids : List ℕ) (db : Db) → IsWf db → IsWf (delete_each_relationship ids db)
unfolding delete_each_relationship
delete_each_relationship-IsWf [] db wf = wf
delete_each_relationship-IsWf (id ∷ ids) db wf =
    delete_each_relationship-IsWf ids (delete_relationship_by_id id db)
      (delete_relationship_by_id-IsWf id db wf)

pub drop_bindings-IsWf :
    (p : MemoryEntity → Bool) (db : Db)
    → IsWf db
    → IsWf (record db { memory_entities = drop_where p db.memory_entities })
drop_bindings-IsWf p db wf = record {
  entity_below = wf.entity_below;
  entities_differ = wf.entities_differ;
  edge_below = wf.edge_below;
  edges_differ = wf.edges_differ;
  ends_exist = wf.ends_exist;
  entities_bound = λ b i. wf.entities_bound b (In-drop_where p db.memory_entities i).1;
  edges_bound = wf.edges_bound;
}

-- Recalculating the entities that may be wrong makes a sound graph good.
pub recalculate_degrees-IsGood :
    (ids : List ℕ) (db : Db)
    → IsWf db
    → ExactBut (λ i. In i ids) db
    → IsGood (recalculate_degrees ids db)
recalculate_degrees-IsGood ids db wf but = record {
  wf = recalculate_degrees-IsWf ids db wf;
  exact = recalculate_degrees-IsExact ids db but;
}

incident-none :
    (id : ℕ) (rs : List Relationship)
    → ((r : Relationship) → In r rs → touches id r ≡ false)
    → incident id rs ≡ 0
unfolding incident filter
incident-none id [] h = refl
incident-none id (r ∷ rs) h = rw (h r (here refl)) (incident-none id rs (λ s i. h s (there i)))

-- A change of rows that keeps their ends keeps every count.
incident-map :
    (id : ℕ) (g : Relationship → Relationship) (rs : List Relationship)
    → ((r : Relationship) → touches id (g r) ≡ touches id r)
    → incident id (map g rs) ≡ incident id rs
unfolding incident filter
incident-map id g [] h = refl
incident-map id g (r ∷ rs) h = elim (Bool-cases (touches id r)) [
  | inl e ↦ rw (h r, e, incident-map id g rs h) refl
  | inr e ↦ rw (h r, e) (incident-map id g rs h)
]

pub set_weight-IsGood : (id weight : ℕ) (db : Db) → IsGood db → IsGood (set_weight id weight db)
unfolding set_weight
set_weight-IsGood id weight db good = record {
  wf = set_weight-IsWf id weight db good.wf;
  exact = λ e i.
      good.exact e i
      ∙ sym (
          incident-map e.id (λ r. if r.id == id then record r { weight = weight } else r)
            db.relationships
            (λ r. elim (Bool-cases (r.id == id)) [ inl f ↦ rw f refl | inr f ↦ rw f refl ]));
}

-- A new entity has no edges.
new_is_apart :
    (db : Db)
    → IsWf db
    → (r : Relationship) → In r db.relationships
    → touches (suc db.last_entity_id) r ≡ false
new_is_apart db wf r i =
    let ((e, j, s), (f, k, t)) = wf.ends_exist r i in
    let low = wf.entity_below e j in let low' = wf.entity_below f k in ground arith

pub write_entity-IsGood :
    (choose : Label → Label → Label) (namespace : String) (name kind : Label)
    (description : Option String) (db : Db)
    → IsGood db
    → IsGood (write_entity choose namespace name kind description db)
unfolding write_entity
write_entity-IsGood choose namespace name kind description db good = record {
  wf = write_entity-IsWf choose namespace name kind description db good.wf;
  exact = elim (Bool-cases (exists (is_named namespace name) db.entities)) [
    | inl there_is ↦ rw there_is λ e i.
        let change : Entity → Entity = λ x. record x {
          kind = choose kind x.kind;
          description = coalesce description x.description;
        } in
        let (y, j, q) = In-set_where (is_named namespace name) change db.entities i in
        let rest = good.exact y j in elim q [ inl (f, g) ↦ rw g rest | inr (f, g) ↦ rw g rest ]
    | inr fresh ↦ rw fresh λ e i. elim (In-append db.entities _ i) [
      | inl j ↦ good.exact e j
      | inr j ↦ elim (In-cons j) [
        | inl q ↦
            rw q (
              sym
                (incident-none (suc db.last_entity_id) db.relationships (new_is_apart db good.wf)))
        | inr l ↦ absurd (In-nil l)
      ]
    ]
  ];
}
