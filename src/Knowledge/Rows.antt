-- ===== src/Knowledge/Rows.antt =====
-- The integrity of the graph's tables under the statements that change or add a row.
use sqlite_graphrag.Base.{
  ℕ, suc, ◌≡◌, refl, sym, ap, ◌∙◌, inl, inr, String, Bool, true, false, Option, List, [], ◌∷◌, ◌++◌,
  map, str_eq, eq_iff, ◌==◌, ==_iff, arith, In, In-append, In-append_left, In-cons, In-nil, In-map,
  In-map_intro, Bool-cases, if◌then◌else◌,
}
use sqlite_graphrag.Labels.{Label, label_eq}
use sqlite_graphrag.Labels.Trim.{label_eq_iff}
use sqlite_graphrag.Knowledge.{Entity, Relationship, Db, exists, set_where, is_named, is_key}
use sqlite_graphrag.Knowledge.Entities.{
  incident, recalculate_degree, recalculate_degrees, set_weight, insert_relationship, write_entity,
  coalesce,
}
use sqlite_graphrag.Knowledge.Tables.{map-AllPairs, AllPairs-snoc, exists-false}
use sqlite_graphrag.Knowledge.Integrity.{DifferEntity, DifferEdge, SameEdge, HasEntity, IsWf}

-- What a change of an entity's row keeps.
abbrev pub KeepsName : Entity → Entity → Type 0
KeepsName e f = (e.id ≡ f.id) × (e.namespace ≡ f.namespace) × (e.name ≡ f.name)

abbrev pub KeepsEdge : Relationship → Relationship → Type 0
KeepsEdge r s = (r.id ≡ s.id) × SameEdge r s

set_where-Keeps :
    {A : Type 0} (K : A → A → Type 0)
    → ((x : A) → K x x)
    → (p : A → Bool) (change : A → A) → ((x : A) → K x (change x))
    → (x : A) → K x (if p x then change x else x)
set_where-Keeps K same p change h x = elim (Bool-cases (p x)) [
  | inl e ↦ rw e (h x)
  | inr e ↦ rw e (same x)
]

pub change_entities-IsWf :
    (p : Entity → Bool) (change : Entity → Entity) (db : Db)
    → ((e : Entity) → KeepsName e (change e))
    → IsWf db
    → IsWf (record db { entities = set_where p change db.entities })
change_entities-IsWf p change db keeps wf =
    let g : Entity → Entity = λ e. if p e then change e else e in
    let k : (e : Entity) → KeepsName e (g e) =
      set_where-Keeps KeepsName (λ e. (refl, refl, refl)) p change keeps in
    let moved : (i : ℕ) → HasEntity i db → (e : Entity) × In e (map g db.entities) × (e.id ≡ i) =
      λ i (e, j, same). (g e, In-map_intro g db.entities j, sym (k e).0 ∙ same) in
    record {
      entity_below = λ e i.
          let (y, j, q) = In-map g db.entities i in
          let same : y.id ≡ e.id = (k y).0 ∙ sym (ap (λ x. x.id) q) in
          omega (arith, wf.entity_below y j, same);
      entities_differ =
          map-AllPairs DifferEntity g db.entities
            (λ x y (ids, names). (
              λ e. ids ((k x).0 ∙ e ∙ sym (k y).0),
              λ (ns, nm). names ((k x).1 ∙ ns ∙ sym (k y).1, (k x).2 ∙ nm ∙ sym (k y).2),
            ))
            wf.entities_differ;
      edge_below = wf.edge_below;
      edges_differ = wf.edges_differ;
      ends_exist =
          λ r i. let (s, t) = wf.ends_exist r i in (moved r.source_id s, moved r.target_id t);
      entities_bound = λ b i. moved b.entity_id (wf.entities_bound b i);
      edges_bound = wf.edges_bound;
    }

pub recalculate_degree-IsWf : (id : ℕ) (db : Db) → IsWf db → IsWf (recalculate_degree id db)
unfolding recalculate_degree
recalculate_degree-IsWf id db =
    change_entities-IsWf (λ e. e.id == id)
      (λ e. record e { degree = incident e.id db.relationships }) db (λ e. (refl, refl, refl))

pub recalculate_degrees-IsWf :
    (ids : List ℕ) (db : Db) → IsWf db → IsWf (recalculate_degrees ids db)
unfolding recalculate_degrees
recalculate_degrees-IsWf [] db wf = wf
recalculate_degrees-IsWf (id ∷ ids) db wf =
    recalculate_degrees-IsWf ids (recalculate_degree id db) (recalculate_degree-IsWf id db wf)

pub set_weight-IsWf : (id weight : ℕ) (db : Db) → IsWf db → IsWf (set_weight id weight db)
unfolding set_weight
set_weight-IsWf id weight db wf =
    let p : Relationship → Bool = λ r. r.id == id in
    let change : Relationship → Relationship = λ r. record r { weight = weight } in
    let g : Relationship → Relationship = λ r. if p r then change r else r in
    let k : (r : Relationship) → KeepsEdge r (g r) =
      set_where-Keeps KeepsEdge (λ r. (refl, (refl, refl, refl))) p change
        (λ r. (refl, (refl, refl, refl))) in
    let from : (r : Relationship)
        → In r (set_where p change db.relationships)
        → (s : Relationship) × In s db.relationships × KeepsEdge s r =
      λ r i.
        let (s, j, q) = In-map g db.relationships i in
        let (a, (b, c, d)) = k s in
        (
          s,
          j,
          (
            a ∙ sym (ap (λ x. x.id) q),
            (
              b ∙ sym (ap (λ x. x.source_id) q),
              c ∙ sym (ap (λ x. x.target_id) q),
              d ∙ sym (ap (λ x. x.relation) q),
            ),
          ),
        ) in
    record {
      entity_below = wf.entity_below;
      entities_differ = wf.entities_differ;
      edge_below = λ r i. let (s, j, same) = from r i in omega (arith, wf.edge_below s j, same.0);
      edges_differ =
          map-AllPairs DifferEdge g db.relationships
            (λ x y (ids, edges). (
              λ e. ids ((k x).0 ∙ e ∙ sym (k y).0),
              λ (s, t, r). edges (
                (k x).1.0 ∙ s ∙ sym (k y).1.0,
                (k x).1.1 ∙ t ∙ sym (k y).1.1,
                (k x).1.2 ∙ r ∙ sym (k y).1.2,
              ),
            ))
            wf.edges_differ;
      ends_exist = λ r i.
          let (s, j, same) = from r i in
          let (a, b) = wf.ends_exist s j in
          ((a.0, a.1, a.2 ∙ same.1.0), (b.0, b.1, b.2 ∙ same.1.1));
      entities_bound = wf.entities_bound;
      edges_bound = λ b i.
          let (r, j, same) = wf.edges_bound b i in
          (g r, In-map_intro g db.relationships j, sym (k r).0 ∙ same);
    }

-- A new edge between two entities, where no row has its key.
pub insert_relationship-IsWf :
    (namespace : String) (source_id target_id : ℕ) (relation : Label) (weight : ℕ)
    (description : Option String) (db : Db)
    → HasEntity source_id db
    → HasEntity target_id db
    → exists (is_key source_id target_id relation) db.relationships ≡ false
    → IsWf db
    → IsWf (insert_relationship namespace source_id target_id relation weight description db)
unfolding insert_relationship
insert_relationship-IsWf namespace source_id target_id relation weight description db hs ht fresh
      wf =
    let new : Relationship = record {
      id = suc db.last_relationship_id;
      namespace = namespace;
      source_id = source_id;
      target_id = target_id;
      relation = relation;
      weight = weight;
      description = description;
    } in
    record {
      entity_below = wf.entity_below;
      entities_differ = wf.entities_differ;
      edge_below = λ r i. elim (In-append db.relationships (new ∷ []) i) [
        | inl j ↦ omega (arith, wf.edge_below r j)
        | inr j ↦ elim (In-cons j) [
          | inl e ↦ let same : r.id ≡ new.id = ap (λ x. x.id) e in omega (arith, same)
          | inr l ↦ absurd (In-nil l)
        ]
      ];
      edges_differ = AllPairs-snoc DifferEdge db.relationships new wf.edges_differ λ r i. (
        λ e. let low = wf.edge_below r i in omega (arith, low, e),
        λ (s, t, l).
            let there_is =
              exists-false (is_key source_id target_id relation) db.relationships fresh i in
            let es : (r.source_id == source_id) ≡ true = (==_iff r.source_id source_id).1 s in
            let et : (r.target_id == target_id) ≡ true = (==_iff r.target_id target_id).1 t in
            let el : label_eq r.relation relation ≡ true = (label_eq_iff r.relation relation).1 l in
            ground arith,
      );
      ends_exist = λ r i. elim (In-append db.relationships (new ∷ []) i) [
        | inl j ↦ wf.ends_exist r j
        | inr j ↦ elim (In-cons j) [ inl e ↦ rw e (hs, ht) | inr l ↦ absurd (In-nil l) ]
      ];
      entities_bound = wf.entities_bound;
      edges_bound =
          λ b i. let (r, j, same) = wf.edges_bound b i in (r, In-append_left (new ∷ []) j, same);
    }

-- Ids left out by AUTOINCREMENT.
advance-IsWf : (db : Db) → IsWf db → IsWf (record db { last_entity_id = suc db.last_entity_id })
advance-IsWf db wf = record {
  entity_below = λ e i. omega (arith, wf.entity_below e i);
  entities_differ = wf.entities_differ;
  edge_below = wf.edge_below;
  edges_differ = wf.edges_differ;
  ends_exist = wf.ends_exist;
  entities_bound = wf.entities_bound;
  edges_bound = wf.edges_bound;
}

-- An entity written by name: a new row, or the type and the description of the row there is.
pub write_entity-IsWf :
    (choose : Label → Label → Label) (namespace : String) (name kind : Label)
    (description : Option String) (db : Db)
    → IsWf db
    → IsWf (write_entity choose namespace name kind description db)
unfolding write_entity
write_entity-IsWf choose namespace name kind description db wf =
    elim (Bool-cases (exists (is_named namespace name) db.entities)) [
      | inl there_is ↦ rw there_is (
          advance-IsWf _ (
            change_entities-IsWf (is_named namespace name)
              (λ e. record e {
                kind = choose kind e.kind;
                description = coalesce description e.description;
              })
              db (λ e. (refl, refl, refl)) wf))
      | inr fresh ↦
          let new : Entity = record {
            id = suc db.last_entity_id;
            namespace = namespace;
            name = name;
            kind = kind;
            description = description;
            degree = 0;
          } in
          let more : (i : ℕ)
              → HasEntity i db
              → (e : Entity) × In e (db.entities ++ (new ∷ [])) × (e.id ≡ i) =
            λ i (e, j, same). (e, In-append_left (new ∷ []) j, same) in
          rw fresh (record {
            entity_below = λ e i. elim (In-append db.entities (new ∷ []) i) [
              | inl j ↦ omega (arith, wf.entity_below e j)
              | inr j ↦ elim (In-cons j) [
                | inl q ↦ let same : e.id ≡ new.id = ap (λ x. x.id) q in omega (arith, same)
                | inr l ↦ absurd (In-nil l)
              ]
            ];
            entities_differ = AllPairs-snoc DifferEntity db.entities new wf.entities_differ λ e i. (
              λ q. let low = wf.entity_below e i in omega (arith, low, q),
              λ (ns, nm).
                  let apart = exists-false (is_named namespace name) db.entities fresh i in
                  let x : str_eq e.namespace namespace ≡ true =
                    (eq_iff e.namespace namespace).1 ns in
                  let y : label_eq e.name name ≡ true = (label_eq_iff e.name name).1 nm in
                  ground arith,
            );
            edge_below = wf.edge_below;
            edges_differ = wf.edges_differ;
            ends_exist =
                λ r i. let (s, t) = wf.ends_exist r i in (more r.source_id s, more r.target_id t);
            entities_bound = λ b i. more b.entity_id (wf.entities_bound b i);
            edges_bound = wf.edges_bound;
          })
    ]
