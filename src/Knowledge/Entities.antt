-- ===== src/Knowledge/Entities.antt =====
-- src/storage/entities/mod.rs and merge.rs: the operations on the graph's tables.
use sqlite_graphrag.Base.{
  ℕ, suc, ◌+◌, String, Bool, true, false, ◌&&◌, Option, none, some, List, [], ◌∷◌, ◌++◌, ltb, ◌==◌,
  filter, length, if◌then◌else◌, Result, ok, err,
}
use sqlite_graphrag.Errors.{AppError, validation, database, other_sql_error}
use sqlite_graphrag.Labels.{
  Label, codes, label_eq, normalize_entity_name, validate_entity_name, normalize_entity_type,
  map_to_canonical_relation,
}
use sqlite_graphrag.Knowledge.{
  Relationship, MemoryEntity, Db, Platform, first, exists, drop_where, set_where, touches, is_key,
  is_named, id_of_entity, delete_relationships, delete_entity_row, delete_memory_relationships,
}

pub record NewEntity : Type 0 where
  pub name : Label
  pub entity_type : Label
  pub description : Option String

-- `COALESCE(a, b)`
abbrev pub coalesce : Option String → Option String → Option String
coalesce none b = b
coalesce (some a) b = some a

-- The row of a namespace and a normalised name.
unfoldable pub entity_named : String → Label → Db → Option ℕ
entity_named namespace name db = id_of_entity (first (is_named namespace name) db.entities)

-- `INSERT INTO entities … ON CONFLICT(namespace, name) DO UPDATE SET type = …, description = …`;
-- AUTOINCREMENT's counter advances in both cases.
unfoldable pub write_entity :
    (Label → Label → Label) → String → Label → Label → Option String → Db → Db
write_entity choose namespace name kind description db =
    if exists (is_named namespace name) db.entities
    then record db {
      entities =
          set_where (is_named namespace name)
            (λ e. record e {
              kind = choose kind e.kind;
              description = coalesce description e.description;
            })
            db.entities;
      last_entity_id = suc db.last_entity_id;
    }
    else record db {
      entities =
          db.entities
          ++ (record {
            id = suc db.last_entity_id;
            namespace = namespace;
            name = name;
            kind = kind;
            description = description;
            degree = 0;
          }
              ∷ []);
      last_entity_id = suc db.last_entity_id;
    }

-- `query_row(…)?`
unfoldable pub query_row : Option ℕ → Db → Result AppError (ℕ × Db)
query_row none db = err (database (other_sql_error "QueryReturnedNoRows"))
query_row (some id) db = ok (id, db)

-- The common body of the two upserts; `choose` takes the new type and the old.
unfoldable pub upsert_entity_with :
    (Label → Label → Label) → Platform → String → NewEntity → Db → Result AppError (ℕ × Db)
unfolding write_entity entity_named query_row
upsert_entity_with choose platform namespace e db =
    let name = normalize_entity_name platform.unicode e.name in
    elim (validate_entity_name e.name) [
      | err x ↦ err x
      | ok _ ↦
          if ltb (length name) 2
          then err (validation "entity_name_normalizes_too_short")
          else elim (normalize_entity_type platform.unicode e.entity_type) [
            | err x ↦ err x
            | ok kind ↦
                let db' = write_entity choose namespace name kind e.description db in
                query_row (entity_named namespace name db') db'
          ]
    ]

unfoldable pub upsert_entity : Platform → String → NewEntity → Db → Result AppError (ℕ × Db)
unfolding upsert_entity_with
upsert_entity = upsert_entity_with (λ new old. new)

unfoldable pub upsert_entity_preserving_type :
    Platform → String → NewEntity → Db → Result AppError (ℕ × Db)
unfolding upsert_entity_with
upsert_entity_preserving_type =
    upsert_entity_with (λ new old. if label_eq old (codes "concept") then new else old)

unfoldable pub find_entity_id : Platform → String → Label → Db → Option ℕ
unfolding entity_named
find_entity_id platform namespace name db =
    entity_named namespace (normalize_entity_name platform.unicode name) db

unfoldable pub find_relationship : ℕ → ℕ → Label → Db → Option Relationship
find_relationship source_id target_id relation db =
    first (is_key source_id target_id relation) db.relationships

unfoldable pub insert_relationship : String → ℕ → ℕ → Label → ℕ → Option String → Db → Db
insert_relationship namespace source_id target_id relation weight description db = record db {
  relationships =
      db.relationships
      ++ (record {
        id = suc db.last_relationship_id;
        namespace = namespace;
        source_id = source_id;
        target_id = target_id;
        relation = relation;
        weight = weight;
        description = description;
      }
          ∷ []);
  last_relationship_id = suc db.last_relationship_id;
}

unfoldable pub set_weight : ℕ → ℕ → Db → Db
set_weight id weight db = record db {
  relationships = set_where (λ r. r.id == id) (λ r. record r { weight = weight }) db.relationships;
}

-- The id of the relationship, and whether it is new: the SELECT after the INSERT finds the id just
-- given.
unfoldable pub create_or_fetch_relationship :
    Platform → String → ℕ → ℕ → Label → ℕ → Option String → Db → (ℕ × Bool) × Db
unfolding find_relationship insert_relationship set_weight
create_or_fetch_relationship platform namespace source_id target_id relation weight description db =
    let relation = map_to_canonical_relation platform.unicode relation in
    elim (find_relationship source_id target_id relation db) [
      | some row ↦ (
        (row.id, false),
        if platform.differs row.weight weight then set_weight row.id weight db else db,
      )
      | none ↦ (
        (suc db.last_relationship_id, true),
        insert_relationship namespace source_id target_id relation weight description db,
      )
    ]

unfoldable pub delete_relationship_by_id : ℕ → Db → Db
unfolding delete_memory_relationships
delete_relationship_by_id id db =
    delete_relationships (λ r. r.id == id) (delete_memory_relationships id db)

-- The number of rows removed comes first.
unfoldable pub delete_relationships_by_ids : List ℕ → Db → ℕ × Db
delete_relationships_by_ids [] db = (0, db)
delete_relationships_by_ids (id ∷ ids) db =
    let removed = length (filter (λ r. r.id == id) db.relationships) in
    let (later, db') =
      delete_relationships_by_ids ids (delete_relationships (λ r. r.id == id) db) in
    (removed + later, db')

-- `delete_relationship_by_id` for each of the ids
unfoldable pub delete_each_relationship : List ℕ → Db → Db
unfolding delete_relationship_by_id
delete_each_relationship [] db = db
delete_each_relationship (id ∷ ids) db =
    delete_each_relationship ids (delete_relationship_by_id id db)

unfoldable pub delete_entities_by_ids : List ℕ → Db → ℕ × Db
delete_entities_by_ids [] db = (0, db)
delete_entities_by_ids (id ∷ ids) db =
    let removed = length (filter (λ e. e.id == id) db.entities) in
    let (later, db') = delete_entities_by_ids ids (delete_entity_row id db) in
    (removed + later, db')

-- The relationships that the entity is an end of.
unfoldable pub incident : ℕ → List Relationship → ℕ
incident id rs = length (filter (touches id) rs)

unfoldable pub recalculate_degree : ℕ → Db → Db
unfolding incident
recalculate_degree id db = record db {
  entities =
      set_where (λ e. e.id == id) (λ e. record e { degree = incident e.id db.relationships })
        db.entities;
}

-- The loops that recalculate one entity after the other.
unfoldable pub recalculate_degrees : List ℕ → Db → Db
unfolding recalculate_degree
recalculate_degrees [] db = db
recalculate_degrees (id ∷ ids) db = recalculate_degrees ids (recalculate_degree id db)

-- `INSERT OR IGNORE INTO memory_entities …`
unfoldable pub link_memory_entity : ℕ → ℕ → Db → Db
link_memory_entity memory_id entity_id db =
    if exists (λ b. b.memory_id == memory_id && b.entity_id == entity_id) db.memory_entities
    then db
    else record db {
      memory_entities =
          db.memory_entities ++ (record { memory_id = memory_id; entity_id = entity_id } ∷ []);
    }

unfoldable pub link_memory_relationship : ℕ → ℕ → Db → Db
link_memory_relationship memory_id rel_id db =
    if exists (λ b. b.memory_id == memory_id && b.relationship_id == rel_id) db.memory_relationships
    then db
    else record db {
      memory_relationships =
          db.memory_relationships
          ++ (record { memory_id = memory_id; relationship_id = rel_id } ∷ []);
    }

-- The number of rows removed comes first.
unfoldable pub unlink_memory_entity : ℕ → ℕ → Db → ℕ × Db
unlink_memory_entity memory_id entity_id db =
    let is_binding : MemoryEntity → Bool =
      λ b. b.memory_id == memory_id && b.entity_id == entity_id in
    (
      length (filter is_binding db.memory_entities),
      record db { memory_entities = drop_where is_binding db.memory_entities },
    )

unfoldable pub clear_memory_graph_bindings : ℕ → Db → (ℕ × ℕ) × Db
clear_memory_graph_bindings memory_id db = (
  (
    length (filter (λ b. b.memory_id == memory_id) db.memory_entities),
    length (filter (λ b. b.memory_id == memory_id) db.memory_relationships),
  ),
  record db {
    memory_entities = drop_where (λ b. b.memory_id == memory_id) db.memory_entities;
    memory_relationships = drop_where (λ b. b.memory_id == memory_id) db.memory_relationships;
  },
)
