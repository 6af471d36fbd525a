-- ===== src/Knowledge.antt =====
-- migrations/V001__init.sql, src/storage/entities/mod.rs and merge.rs: the knowledge graph, four
-- tables of the main database as lists of rows in the order of their ids, and the SQL statements'
-- common parts. A statement is atomic and succeeds; foreign keys are enforced, with their cascades.
pub mod Entities
pub mod Link
pub mod Unlink
pub mod DeleteEntity
pub mod Prune
pub mod Merge
pub mod Tables
pub mod Degrees
pub mod Integrity
pub mod Rows
pub mod Good
pub mod LinkGood
pub mod UnlinkGood
pub mod DeleteGood
pub mod MergeRows
pub mod MergeCommand
pub mod MergeStep
pub mod MergeLoop
pub mod MergeGood
pub mod MergeResult
pub mod Commands
pub mod Spellings
pub mod Lookup
pub mod Neighbours
pub mod MergeLeft
pub mod Cleanup
pub mod CleanupResult
pub mod CleanupExamples
pub mod Examples
use sqlite_graphrag.Base.{
  ℕ, suc, String, Bool, true, false, not, ◌&&◌, ◌||◌, Option, none, some, List, [], ◌∷◌, ◌++◌, map,
  str_eq, ◌==◌, filter, length, if◌then◌else◌,
}
use sqlite_graphrag.Labels.{Label, Unicode, label_eq}
use sqlite_graphrag.Errors.{AppError}

-- `weight` is the bit pattern of an f64.
pub record Entity : Type 0 where
  pub id : ℕ
  pub namespace : String
  pub name : Label
  pub kind : Label
  pub description : Option String
  pub degree : ℕ

pub record Relationship : Type 0 where
  pub id : ℕ
  pub namespace : String
  pub source_id : ℕ
  pub target_id : ℕ
  pub relation : Label
  pub weight : ℕ
  pub description : Option String

pub record MemoryEntity : Type 0 where
  pub memory_id : ℕ
  pub entity_id : ℕ

pub record MemoryRelationship : Type 0 where
  pub memory_id : ℕ
  pub relationship_id : ℕ

-- The last ids given are kept by AUTOINCREMENT.
pub record Db : Type 0 where
  pub entities : List Entity
  pub relationships : List Relationship
  pub memory_entities : List MemoryEntity
  pub memory_relationships : List MemoryRelationship
  pub last_entity_id : ℕ
  pub last_relationship_id : ℕ

-- What the program takes from elsewhere: the tables of Unicode, the tests on floating-point weights
-- (`(a - b).abs() > EPSILON` and `(0.0..=1.0).contains(&w)`), and the printing of an error.
pub record Platform : Type 0 where
  pub unicode : Unicode
  pub differs : ℕ → ℕ → Bool
  pub in_unit : ℕ → Bool
  pub display : AppError → String

module _ {A : Type 0} where
  -- `SELECT … WHERE …` of at most one row, and `EXISTS (SELECT …)`
  abbrev pub first : (A → Bool) → List A → Option A
  first p [] = none
  first p (x ∷ xs) = let rest = first p xs in if p x then some x else rest

  abbrev pub exists : (A → Bool) → List A → Bool
  exists p [] = false
  exists p (x ∷ xs) = p x || exists p xs

  -- `DELETE … WHERE …`
  abbrev pub drop_where : (A → Bool) → List A → List A
  drop_where p xs = filter (λ x. not (p x)) xs

  -- `UPDATE … SET … WHERE …`
  abbrev pub set_where : (A → Bool) → (A → A) → List A → List A
  set_where p change xs = map (λ x. if p x then change x else x) xs

abbrev pub touches : ℕ → Relationship → Bool
touches id r = r.source_id == id || r.target_id == id

abbrev pub is_key : ℕ → ℕ → Label → Relationship → Bool
is_key source_id target_id relation r =
    r.source_id == source_id && r.target_id == target_id && label_eq r.relation relation

abbrev pub is_named : String → Label → Entity → Bool
is_named namespace name e = str_eq e.namespace namespace && label_eq e.name name

abbrev pub has_entity : ℕ → Db → Bool
has_entity id db = exists (λ e. e.id == id) db.entities

abbrev pub id_of_entity : Option Entity → Option ℕ
id_of_entity none = none
id_of_entity (some e) = some e.id

-- `DELETE FROM relationships WHERE …`, which cascades to `memory_relationships`
unfoldable pub delete_relationships : (Relationship → Bool) → Db → Db
delete_relationships cond db = record db {
  relationships = drop_where cond db.relationships;
  memory_relationships =
      drop_where (λ b. exists (λ r. cond r && r.id == b.relationship_id) db.relationships)
        db.memory_relationships;
}

-- `DELETE FROM entities WHERE id = ?1`, which cascades to the other tables
unfoldable pub delete_entity_row : ℕ → Db → Db
unfolding delete_relationships
delete_entity_row id db =
    let left = delete_relationships (touches id) db in
    if has_entity id db
    then record left {
      entities = drop_where (λ e. e.id == id) db.entities;
      memory_entities = drop_where (λ b. b.entity_id == id) db.memory_entities;
    }
    else db

unfoldable pub delete_memory_relationships : ℕ → Db → Db
delete_memory_relationships relationship_id db = record db {
  memory_relationships =
      drop_where (λ b. b.relationship_id == relationship_id) db.memory_relationships;
}
