-- ===== src/Knowledge/Unlink.antt =====
-- src/commands/unlink.rs: the four modes of `unlink`, each with the number of rows it removes.
use sqlite_graphrag.Base.{
  ℕ, String, Bool, true, false, ◌&&◌, Option, none, some, List, map, filter, length, ◌==◌,
  if◌then◌else◌, Result, ok, err,
}
use sqlite_graphrag.Errors.{AppError, validation, not_found, memory_not_found}
use sqlite_graphrag.Labels.{Label}
use sqlite_graphrag.Knowledge.{Relationship, Db, Platform, touches}
use sqlite_graphrag.Knowledge.Entities.{
  find_entity_id, find_relationship, delete_relationship_by_id, delete_each_relationship,
  recalculate_degree, unlink_memory_entity,
}

pub record UnlinkArgs : Type 0 where
  pub source_name : Option Label
  pub target_name : Option Label
  pub relation : Option Label
  pub entity : Option Label
  pub all_of_entity : Bool
  pub memory : Option String

abbrev pub ids_where : (Relationship → Bool) → Db → List ℕ
ids_where cond db = map (λ r. r.id) (filter cond db.relationships)

-- The ids are listed first; each is then deleted.
unfoldable pub delete_all_entity_relationships : ℕ → Db → ℕ × Db
delete_all_entity_relationships entity_id db =
    let ids = ids_where (touches entity_id) db in (length ids, delete_each_relationship ids db)

unfoldable pub is_between : ℕ → ℕ → Relationship → Bool
is_between source_id target_id r = r.source_id == source_id && r.target_id == target_id

unfoldable pub delete_relationships_between : ℕ → ℕ → Db → ℕ × Db
delete_relationships_between source_id target_id db =
    let ids = ids_where (is_between source_id target_id) db in
    (length ids, delete_each_relationship ids db)

-- `find_entity_id(…)?.ok_or_else(…)?`
abbrev pub or_not_found : Option ℕ → (ℕ → Result AppError (ℕ × Db)) → Result AppError (ℕ × Db)
or_not_found none f = err (not_found "entity_not_found")
or_not_found (some id) f = f id

-- `memory_id` is `find_by_name` of src/storage/memories, by namespace and name: it reads another
-- table, which these commands do not write.
unfoldable pub unlink_memory :
    Platform
    → (String → String → Option ℕ)
    → String
    → String
    → Option Label
    → Db
    → Result AppError (ℕ × Db)
unlink_memory platform memory_id namespace memory none db =
    err (validation "entity_required_when_memory")
unlink_memory platform memory_id namespace memory (some entity) db =
    elim (memory_id namespace memory) [
      | none ↦ err (memory_not_found memory namespace)
      | some id ↦ or_not_found (find_entity_id platform namespace entity db) λ entity_id.
          let (removed, db') = unlink_memory_entity id entity_id db in
          ok (removed, recalculate_degree entity_id db')
    ]

unfoldable pub unlink_entity : Platform → String → Option Label → Db → Result AppError (ℕ × Db)
unlink_entity platform namespace none db = err (not_found "entity_not_found")
unlink_entity platform namespace (some entity) db =
    or_not_found (find_entity_id platform namespace entity db) λ entity_id.
      let (removed, db') = delete_all_entity_relationships entity_id db in
      ok (removed, recalculate_degree entity_id db')

unfoldable pub unlink_pair : ℕ → ℕ → Option Label → Db → Result AppError (ℕ × Db)
unlink_pair source_id target_id (some relation) db =
    elim (find_relationship source_id target_id relation db) [
      | none ↦ err (not_found "relationship_not_found")
      | some row ↦ ok (
        1,
        recalculate_degree target_id
            (recalculate_degree source_id (delete_relationship_by_id row.id db)),
      )
    ]
unlink_pair source_id target_id none db =
    let (removed, db') = delete_relationships_between source_id target_id db in
    ok (removed, recalculate_degree target_id (recalculate_degree source_id db'))

unfoldable pub unlink_ends :
    Platform → String → Option Label → Option Label → Option Label → Db → Result AppError (ℕ × Db)
unfolding unlink_pair
unlink_ends platform namespace none target relation db =
    err (validation "from_required_without_entity_all")
unlink_ends platform namespace (some source) none relation db =
    err (validation "to_required_without_entity_all")
unlink_ends platform namespace (some source) (some target) relation db =
    or_not_found (find_entity_id platform namespace source db) λ source_id.
      or_not_found (find_entity_id platform namespace target db)
        λ target_id. unlink_pair source_id target_id relation db

abbrev pub is_given : Option Label → Bool
is_given none = false
is_given (some _) = true

-- An empty name stands for the entity that `--all` lacks; no row has one.
unfoldable pub unlink :
    Platform → (String → String → Option ℕ) → String → UnlinkArgs → Db → Result AppError (ℕ × Db)
unfolding unlink_memory unlink_entity unlink_ends
unlink platform memory_id namespace args db = elim args.memory [
  | some memory ↦ unlink_memory platform memory_id namespace memory args.entity db
  | none ↦
      if is_given args.entity
      then if args.all_of_entity
        then unlink_entity platform namespace args.entity db
        else err (validation "--entity must be combined with --all or --memory <name>")
      else if args.all_of_entity
      then unlink_entity platform namespace args.entity db
      else unlink_ends platform namespace args.source_name args.target_name args.relation db
]
