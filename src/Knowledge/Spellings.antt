-- ===== src/Knowledge/Spellings.antt =====
-- The spelling of a relation in src/commands/link.rs, which stores the canonical one, and in
-- src/commands/unlink.rs, which looks for the one given.
use sqlite_graphrag.Base.{
  ℕ, ◌≡◌, refl, sym, ap, ◌∙◌, inl, inr, String, Bool, true, false, Option, none, some, List, ltb,
  length, ◌==◌, arith, In, In-append, In-cons, In-nil, In-map, Bool-cases, Option-cases,
  if◌then◌else◌, Result, ok, err, ◌>>=◌, Result-cases,
}
use sqlite_graphrag.Errors.{AppError, not_found}
use sqlite_graphrag.Labels.{
  Label, is_canonical_relation, map_to_canonical_relation, normalize_entity_name,
  validate_entity_name, normalize_entity_type,
}
use sqlite_graphrag.Labels.Trim.{label_eq-true}
use sqlite_graphrag.Labels.Relations.{map_to_canonical_relation-canonical}
use sqlite_graphrag.Knowledge.{Relationship, Db, Platform, exists, is_named, is_key, first}
use sqlite_graphrag.Knowledge.Entities.{
  NewEntity, write_entity, query_row, upsert_entity, upsert_entity_with, find_entity_id,
  find_relationship, create_or_fetch_relationship, insert_relationship, set_weight,
  recalculate_degree,
}
use sqlite_graphrag.Knowledge.Link.{
  LinkArgs, check_link, end_id, write_link, weight_or_default, link,
}
use sqlite_graphrag.Knowledge.Unlink.{unlink_pair}
use sqlite_graphrag.Knowledge.Tables.{first-some}
use sqlite_graphrag.Knowledge.Good.{Holds, Holds-bind, Result-Holds}

abbrev pub IsCanonical : List Relationship → Type 0
IsCanonical rs = (r : Relationship) → In r rs → is_canonical_relation r.relation ≡ true

-- Naming an entity leaves the edges as they are.
abbrev KeepsEdges : Db → ℕ × Db → Type 0
KeepsEdges db (id, db') = db'.relationships ≡ db.relationships

query_row-KeepsEdges :
    (db : Db) (o : Option ℕ) (db' : Db)
    → db'.relationships ≡ db.relationships
    → Holds (KeepsEdges db) (query_row o db')
unfolding query_row
query_row-KeepsEdges db none db' h = tt
query_row-KeepsEdges db (some id) db' h = h

write_entity-relationships :
    (choose : Label → Label → Label) (namespace : String) (name kind : Label)
    (description : Option String) (db : Db)
    → (write_entity choose namespace name kind description db).relationships ≡ db.relationships
unfolding write_entity
write_entity-relationships choose namespace name kind description db =
    elim (Bool-cases (exists (is_named namespace name) db.entities)) [
      | inl e ↦ rw e refl
      | inr e ↦ rw e refl
    ]

upsert_entity-KeepsEdges :
    (platform : Platform) (namespace : String) (e : NewEntity) (db : Db)
    → Holds (KeepsEdges db) (upsert_entity platform namespace e db)
unfolding upsert_entity upsert_entity_with
upsert_entity-KeepsEdges platform namespace e db =
    let normal = normalize_entity_name platform.unicode e.name in
    elim (Result-cases (validate_entity_name e.name)) [
      | inr (x, bad) ↦ rw (bad, upsert_entity_with) tt
      | inl (u, fine) ↦ elim (Bool-cases (ltb (length normal) 2)) [
        | inl short ↦ rw (fine, short, upsert_entity_with) tt
        | inr long ↦ elim (Result-cases (normalize_entity_type platform.unicode e.entity_type)) [
          | inr (x, bad) ↦ rw (fine, long, bad, upsert_entity_with) tt
          | inl (kind, typed) ↦
              rw (fine, long, typed, upsert_entity_with)
                (query_row-KeepsEdges db _ _ (
                  write_entity-relationships (λ new old. new) namespace normal kind e.description
                    db))
        ]
      ]
    ]

end_id-KeepsEdges :
    (platform : Platform) (namespace : String) (create_missing : Bool) (kind : Label)
    (the_end : Label × Option ℕ) (db : Db)
    → Holds (KeepsEdges db) (end_id platform namespace create_missing kind the_end db)
unfolding end_id
end_id-KeepsEdges platform namespace create_missing kind (name, some id) db = refl
end_id-KeepsEdges platform namespace create_missing kind (name, none) db =
    elim (Option-cases (find_entity_id platform namespace name db)) [
      | inr (id, found) ↦ rw (found, end_id) refl
      | inl missing ↦ elim (Bool-cases create_missing) [
        | inl create ↦
            rw (missing, create, end_id)
              (upsert_entity-KeepsEdges platform namespace
                (record { name = name; entity_type = kind; description = none }) db)
        | inr refuse ↦ rw (missing, refuse, end_id) tt
      ]
    ]

write_link-IsCanonical :
    (platform : Platform) (namespace : String) (args : LinkArgs) (s t : ℕ) (db : Db)
    → IsCanonical db.relationships
    → IsCanonical (write_link platform namespace args s t db).1.relationships
unfolding write_link create_or_fetch_relationship recalculate_degree insert_relationship set_weight
write_link-IsCanonical platform namespace args s t db all =
    let relation = map_to_canonical_relation platform.unicode args.relation in
    let weight = weight_or_default args.weight in
    elim (Option-cases (find_relationship s t relation db)) [
      | inr (row, found) ↦ elim (Bool-cases (platform.differs row.weight weight)) [
        | inr old_weight ↦ rw (found, old_weight, create_or_fetch_relationship) all
        | inl new_weight ↦
            rw (found, new_weight, create_or_fetch_relationship)
              λ r i.
                let g : Relationship → Relationship =
                  λ x. if x.id == row.id then record x { weight = weight } else x in
                let (q, j, e) = In-map g db.relationships i in
                let same : (g q).relation ≡ q.relation = elim (Bool-cases (q.id == row.id)) [
                  | inl f ↦ rw f refl
                  | inr f ↦ rw f refl
                ] in
                ap (λ x. is_canonical_relation x.relation) e
                ∙ ap is_canonical_relation same
                ∙ all q j
      ]
      | inl fresh ↦
          rw (fresh, create_or_fetch_relationship)
            λ r i. elim (In-append db.relationships _ i) [
              | inl j ↦ all r j
              | inr j ↦ elim (In-cons j) [
                | inl e ↦
                    ap (λ x. is_canonical_relation x.relation) e
                    ∙ map_to_canonical_relation-canonical platform.unicode args.relation
                | inr l ↦ absurd (In-nil l)
              ]
            ]
    ]

link-IsCanonical :
    (platform : Platform) (namespace : String) (args : LinkArgs) (db : Db)
    → IsCanonical db.relationships
    → Holds (λ x. IsCanonical x.1.relationships) (link platform namespace args db)
unfolding link
link-IsCanonical platform namespace args db all =
    Holds-bind (λ x. Unit {0}) (λ x. IsCanonical x.1.relationships)
      (check_link platform namespace args db)
      (λ (source, target, kind).
        end_id platform namespace args.create_missing kind source db >>= λ (s, db1).
        end_id platform namespace args.create_missing kind target db1 >>= λ (t, db2).
        ok (write_link platform namespace args s t db2))
      (Result-Holds (check_link platform namespace args db))
      λ (source, target, kind) u.
        Holds-bind (KeepsEdges db) (λ x. IsCanonical x.1.relationships)
          (end_id platform namespace args.create_missing kind source db)
          (λ (s, db1). end_id platform namespace args.create_missing kind target db1 >>= λ (t, db2).
            ok (write_link platform namespace args s t db2))
          (end_id-KeepsEdges platform namespace args.create_missing kind source db)
          λ (s, db1) e1.
            Holds-bind (KeepsEdges db1) (λ x. IsCanonical x.1.relationships)
              (end_id platform namespace args.create_missing kind target db1)
              (λ (t, db2). ok (write_link platform namespace args s t db2))
              (end_id-KeepsEdges platform namespace args.create_missing kind target db1)
              λ (t, db2) e2.
                write_link-IsCanonical platform namespace args s t db2
                  (let e : db2.relationships ≡ db.relationships = e2 ∙ e1 in rw e all)

-- A spelling that is not canonical finds no canonical edge.
unlink_pair-IsCanonical :
    (s t : ℕ) (relation : Label) (db : Db)
    → IsCanonical db.relationships
    → is_canonical_relation relation ≡ false
    → unlink_pair s t (some relation) db ≡ err (not_found "relationship_not_found")
unfolding unlink_pair find_relationship
unlink_pair-IsCanonical s t relation db all other =
    elim (Option-cases (first (is_key s t relation) db.relationships)) [
      | inl missing ↦ rw (missing, unlink_pair) refl
      | inr (row, found) ↦
          let (i, key) = first-some (is_key s t relation) db.relationships found in
          let same = label_eq-true row.relation relation (ground arith) in
          let both = sym (ap is_canonical_relation same) ∙ all row i in absurd (ground arith)
    ]

-- In a graph whose relations are all canonical, `link` with a relation that is not canonical leaves
-- them so, and `unlink` with that same relation is then refused for every pair of entities.
pub link-unlink_pair :
    (platform : Platform) (namespace : String) (args : LinkArgs) (db : Db)
    → IsCanonical db.relationships
    → is_canonical_relation args.relation ≡ false
    → Holds
        (λ x.
          IsCanonical x.1.relationships
          × ((s t : ℕ)
              → unlink_pair s t (some args.relation) x.1
                ≡ err (not_found "relationship_not_found")))
        (link platform namespace args db)
link-unlink_pair platform namespace args db all other =
    weaken (link platform namespace args db) (link-IsCanonical platform namespace args db all)
  where
    weaken :
        (r : Result AppError (Bool × Db))
        → Holds (λ x. IsCanonical x.1.relationships) r
        → Holds
            (λ x.
              IsCanonical x.1.relationships
              × ((s t : ℕ)
                  → unlink_pair s t (some args.relation) x.1
                    ≡ err (not_found "relationship_not_found")))
            r
    weaken (ok (created, db')) h = (h, λ s t. unlink_pair-IsCanonical s t args.relation db' h other)
    weaken (err e) h = tt
