-- ===== src/Knowledge/LinkGood.antt =====
-- `link` (src/commands/link.rs) keeps a graph good.
use sqlite_graphrag.Base.{
  ℕ, ◌≡◌, refl, ◌∙◌, inl, inr, String, Bool, not, ◌&&◌, Option, none, some, [], ◌∷◌, str_eq, ◌==◌,
  ltb, arith, length, In, here, there, In-append_left, In-map_intro, Bool-cases, Option-cases,
  if◌then◌else◌, Result, ok, ◌>>=◌, Result-cases,
}
use sqlite_graphrag.Errors.{AppError}
use sqlite_graphrag.Labels.{
  Label, label_eq, is_canonical_relation, map_to_canonical_relation, normalize_entity_name,
  validate_entity_name, normalize_entity_type,
}
use sqlite_graphrag.Knowledge.{Entity, Db, Platform, exists, is_named, is_key, first}
use sqlite_graphrag.Knowledge.Entities.{
  NewEntity, entity_named, write_entity, query_row, upsert_entity, upsert_entity_with,
  find_entity_id, find_relationship, create_or_fetch_relationship, insert_relationship,
  recalculate_degrees, coalesce,
}
use sqlite_graphrag.Knowledge.Link.{
  LinkArgs, resolve_entity_name_by_id, resolve_end, check_ends, check_link, refuse_if, end_id,
  write_link, weight_or_default, link, same_id,
}
use sqlite_graphrag.Knowledge.Tables.{first-some, first-none}
use sqlite_graphrag.Knowledge.Degrees.{ExactBut-IsExact, insert_relationship-ExactBut}
use sqlite_graphrag.Knowledge.Integrity.{HasEntity}
use sqlite_graphrag.Knowledge.Rows.{insert_relationship-IsWf}
use sqlite_graphrag.Knowledge.Good.{
  IsGood, Holds, Holds-bind, Holds-refuse_if, Result-Holds, set_weight-IsGood, write_entity-IsGood,
  recalculate_degrees-IsGood,
}

-- The entities of one graph are entities of the other.
abbrev pub Keeps : Db → Db → Type 0
Keeps db db' = (i : ℕ) → HasEntity i db → HasEntity i db'

write_entity-Keeps :
    (choose : Label → Label → Label) (namespace : String) (name kind : Label)
    (description : Option String) (db : Db)
    → Keeps db (write_entity choose namespace name kind description db)
unfolding write_entity
write_entity-Keeps choose namespace name kind description db i (e, j, same) =
    elim (Bool-cases (exists (is_named namespace name) db.entities)) [
      | inl there_is ↦
          let g : Entity → Entity = λ x.
            if is_named namespace name x
            then record x {
              kind = choose kind x.kind;
              description = coalesce description x.description;
            }
            else x in
          let kept : (g e).id ≡ e.id = elim (Bool-cases (is_named namespace name e)) [
            | inl f ↦ rw f refl
            | inr f ↦ rw f refl
          ] in
          rw there_is (g e, In-map_intro g db.entities j, kept ∙ same)
      | inr fresh ↦ rw fresh (e, In-append_left _ j, same)
    ]

pub entity_named-HasEntity :
    (namespace : String) (name : Label) (db : Db) (id : ℕ)
    → entity_named namespace name db ≡ some id
    → HasEntity id db
unfolding entity_named
entity_named-HasEntity namespace name db id h =
    elim (Option-cases (first (is_named namespace name) db.entities)) [
      | inl missing ↦ ground arith
      | inr (e, found) ↦
          let (i, named) = first-some (is_named namespace name) db.entities found in
          (e, i, ground arith)
    ]

-- What a command that names an entity leaves: a good graph with that entity and all there were.
abbrev pub Names : Db → ℕ × Db → Type 0
Names db (id, db') = IsGood db' × HasEntity id db' × Keeps db db'

query_row-Names :
    (namespace : String) (name : Label) (db db' : Db)
    → IsGood db'
    → Keeps db db'
    → Holds (Names db) (query_row (entity_named namespace name db') db')
unfolding query_row
query_row-Names namespace name db db' good keeps =
    elim (Option-cases (entity_named namespace name db')) [
      | inl missing ↦ rw missing tt
      | inr (id, found) ↦ rw found (good, entity_named-HasEntity namespace name db' id found, keeps)
    ]

pub upsert_entity_with-Names :
    (choose : Label → Label → Label) (platform : Platform) (namespace : String) (e : NewEntity)
    (db : Db)
    → IsGood db
    → Holds (Names db) (upsert_entity_with choose platform namespace e db)
unfolding upsert_entity_with
upsert_entity_with-Names choose platform namespace e db good =
    elim (Result-cases (validate_entity_name e.name)) [
      | inr (x, bad) ↦ rw (bad, upsert_entity_with) tt
      | inl (u, fine) ↦
          elim (Bool-cases (ltb (length (normalize_entity_name platform.unicode e.name)) 2)) [
            | inl short ↦ rw (fine, short, upsert_entity_with) tt
            | inr long ↦
                elim (Result-cases (normalize_entity_type platform.unicode e.entity_type)) [
                  | inr (x, bad) ↦ rw (fine, long, bad, upsert_entity_with) tt
                  | inl (kind, typed) ↦
                      rw (fine, long, typed, upsert_entity_with)
                        (query_row-Names namespace (normalize_entity_name platform.unicode e.name)
                          db
                          (write_entity choose namespace
                            (normalize_entity_name platform.unicode e.name) kind e.description db)
                          (write_entity-IsGood choose namespace _ kind e.description db good)
                          (write_entity-Keeps choose namespace _ kind e.description db))
                ]
          ]
    ]

end_id-Names :
    (platform : Platform) (namespace : String) (create_missing : Bool) (kind : Label)
    (the_end : Label × Option ℕ) (db : Db)
    → IsGood db
    → ((id : ℕ) → the_end.1 ≡ some id → HasEntity id db)
    → Holds (Names db) (end_id platform namespace create_missing kind the_end db)
unfolding end_id upsert_entity upsert_entity_with find_entity_id
end_id-Names platform namespace create_missing kind (name, some id) db good known =
    (good, known id refl, λ i h. h)
end_id-Names platform namespace create_missing kind (name, none) db good known =
    elim (Option-cases (find_entity_id platform namespace name db)) [
      | inr (id, found) ↦
          rw (found, end_id) (good, entity_named-HasEntity namespace _ db id found, λ i h. h)
      | inl missing ↦ elim (Bool-cases create_missing) [
        | inl create ↦
            rw (missing, create, end_id)
              (upsert_entity_with-Names (λ new old. new) platform namespace
                (record { name = name; entity_type = kind; description = none }) db good)
        | inr refuse ↦ rw (missing, refuse, end_id) tt
      ]
    ]

-- An edge is written between two entities that exist.
write_link-IsGood :
    (platform : Platform) (namespace : String) (args : LinkArgs) (s t : ℕ) (db : Db)
    → HasEntity s db
    → HasEntity t db
    → IsGood db
    → IsGood (write_link platform namespace args s t db).1
unfolding write_link create_or_fetch_relationship recalculate_degrees
write_link-IsGood platform namespace args s t db hs ht good =
    let relation = map_to_canonical_relation platform.unicode args.relation in
    let weight = weight_or_default args.weight in
    elim (Option-cases (find_relationship s t relation db)) [
      | inr (row, found) ↦ elim (Bool-cases (platform.differs row.weight weight)) [
        | inl new_weight ↦
            rw (found, new_weight, create_or_fetch_relationship)
              (set_weight-IsGood row.id weight db good)
        | inr old_weight ↦ rw (found, old_weight, create_or_fetch_relationship) good
      ]
      | inl fresh ↦
          rw (fresh, create_or_fetch_relationship)
            (recalculate_degrees-IsGood (s ∷ t ∷ [])
              (insert_relationship namespace s t relation weight none db)
              (insert_relationship-IsWf namespace s t relation weight none db hs ht
                (first-none (is_key s t relation) db.relationships fresh) good.wf)
              (insert_relationship-ExactBut (λ i. In i (s ∷ t ∷ [])) namespace s t relation weight
                none db (here refl) (there (here refl))
                (ExactBut-IsExact (λ i. In i (s ∷ t ∷ [])) db good.exact)))
    ]

-- An end that is given by its id exists.
abbrev IsKnown : Db → Label × Option ℕ → Type 0
IsKnown db (name, given) = (id : ℕ) → given ≡ some id → HasEntity id db

resolve_end-IsKnown :
    (platform : Platform) (required namespace : String) (id : Option ℕ) (name : Option Label)
    (db : Db)
    → Holds (IsKnown db) (resolve_end platform required namespace id name db)
unfolding resolve_end resolve_entity_name_by_id
resolve_end-IsKnown platform required namespace none none db = tt
resolve_end-IsKnown platform required namespace none (some name) db =
    elim (Result-cases (validate_entity_name name)) [
      | inl (u, fine) ↦ rw (fine, resolve_end) λ id e. ground arith
      | inr (e, bad) ↦ rw (bad, resolve_end) tt
    ]
resolve_end-IsKnown platform required namespace (some id) name db =
    let p : Entity → Bool = λ e. e.id == id && str_eq e.namespace namespace in
    elim (Option-cases (first p db.entities)) [
      | inl missing ↦ rw (missing, resolve_entity_name_by_id, resolve_end) tt
      | inr (e, found) ↦
          let (i, is) = first-some p db.entities found in
          let same : e.id ≡ id = ground arith in
          rw (found, resolve_entity_name_by_id, resolve_end)
            λ j given. (e, i, same ∙ (let q : id ≡ j = ground arith in q))
    ]

abbrev AreKnown : Db → (Label × Option ℕ) × (Label × Option ℕ) × Label → Type 0
AreKnown db (source, target, kind) = IsKnown db source × IsKnown db target

check_ends-AreKnown :
    (platform : Platform) (args : LinkArgs) (source target : Label × Option ℕ) (db : Db)
    → IsKnown db source
    → IsKnown db target
    → Holds (AreKnown db) (check_ends platform args source target)
unfolding check_ends
check_ends-AreKnown platform args source target db ks kt =
    let P = AreKnown db in
    let typed = normalize_entity_type platform.unicode args.entity_type in
    let r0 = typed >>= λ kind. ok (source, target, kind) in
    let b1 = args.strict_relations && not (is_canonical_relation args.relation) in
    let b2 = not (platform.in_unit (weight_or_default args.weight)) in
    let b3 = same_id source.1 target.1 in
    let r1 = refuse_if b1 "non_canonical_relation" r0 in
    let r2 = refuse_if b2 "invalid_link_weight" r1 in
    let r3 = refuse_if b3 "self_referential_link" r2 in
    let h0 : Holds P r0 =
      Holds-bind (λ kind. Unit {0}) P typed (λ kind. ok (source, target, kind)) (Result-Holds typed)
        (λ kind u. (ks, kt)) in
    let h1 : Holds P r1 = Holds-refuse_if P b1 "non_canonical_relation" r0 (λ f. h0) in
    let h2 : Holds P r2 = Holds-refuse_if P b2 "invalid_link_weight" r1 (λ f. h1) in
    let h3 : Holds P r3 = Holds-refuse_if P b3 "self_referential_link" r2 (λ f. h2) in
    Holds-refuse_if P (label_eq source.0 target.0) "self_referential_link" r3 (λ f. h3)

check_link-AreKnown :
    (platform : Platform) (namespace : String) (args : LinkArgs) (db : Db)
    → Holds (AreKnown db) (check_link platform namespace args db)
unfolding check_link
check_link-AreKnown platform namespace args db =
    Holds-bind (IsKnown db) (AreKnown db)
      (resolve_end platform "--from or --from-id is required" namespace args.source_id
        args.source_name db)
      (λ source.
        resolve_end platform "--to or --to-id is required" namespace args.target_id args.target_name
          db
        >>= λ target. check_ends platform args source target)
      (resolve_end-IsKnown platform _ namespace args.source_id args.source_name db)
      λ source ks.
        Holds-bind (IsKnown db) (AreKnown db)
          (resolve_end platform "--to or --to-id is required" namespace args.target_id
            args.target_name db)
          (λ target. check_ends platform args source target)
          (resolve_end-IsKnown platform _ namespace args.target_id args.target_name db)
          λ target kt. check_ends-AreKnown platform args source target db ks kt

-- The transaction, from its ends.
abbrev from_ends :
    Platform
    → String
    → LinkArgs
    → Db
    → (Label × Option ℕ) × (Label × Option ℕ) × Label
    → Result AppError (Bool × Db)
from_ends platform namespace args db (source, target, kind) =
    end_id platform namespace args.create_missing kind source db >>= λ (source_id, db1).
    end_id platform namespace args.create_missing kind target db1 >>= λ (target_id, db2).
    ok (write_link platform namespace args source_id target_id db2)

from_ends-IsGood :
    (platform : Platform) (namespace : String) (args : LinkArgs) (db : Db)
    (ends : (Label × Option ℕ) × (Label × Option ℕ) × Label)
    → IsGood db
    → AreKnown db ends
    → Holds (λ x. IsGood x.1) (from_ends platform namespace args db ends)
from_ends-IsGood platform namespace args db (source, target, kind) good (ks, kt) =
    Holds-bind (Names db) (λ x. IsGood x.1)
      (end_id platform namespace args.create_missing kind source db) _
      (end_id-Names platform namespace args.create_missing kind source db good ks)
      λ (s, db1) (good1, hs, keeps1).
        Holds-bind (Names db1) (λ x. IsGood x.1)
          (end_id platform namespace args.create_missing kind target db1) _
          (end_id-Names platform namespace args.create_missing kind target db1 good1
            (λ id e. keeps1 id (kt id e)))
          λ (t, db2) (good2, ht, keeps2).
            write_link-IsGood platform namespace args s t db2 (keeps2 s hs) ht good2

pub link-IsGood :
    (platform : Platform) (namespace : String) (args : LinkArgs) (db : Db)
    → IsGood db
    → Holds (λ x. IsGood x.1) (link platform namespace args db)
unfolding link
link-IsGood platform namespace args db good =
    Holds-bind (AreKnown db) (λ x. IsGood x.1) (check_link platform namespace args db)
      (from_ends platform namespace args db) (check_link-AreKnown platform namespace args db)
      λ ends known. from_ends-IsGood platform namespace args db ends good known
