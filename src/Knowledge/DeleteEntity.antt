-- ===== src/Knowledge/DeleteEntity.antt =====
-- src/commands/delete_entity.rs: the transaction of `delete-entity --cascade`.
use sqlite_graphrag.Base.{
  ℕ, String, Bool, true, false, not, none, some, List, [], ◌∷◌, map, filter, length, ◌==◌,
  if◌then◌else◌, Result, ok, err,
}
use sqlite_graphrag.Errors.{AppError, validation, not_found}
use sqlite_graphrag.Labels.{Label}
use sqlite_graphrag.Knowledge.{
  Db, Platform, touches, drop_where, delete_relationships, delete_entity_row,
  delete_memory_relationships,
}
use sqlite_graphrag.Knowledge.Entities.{find_entity_id, recalculate_degrees}
use sqlite_graphrag.Knowledge.Unlink.{ids_where}

-- The other ends of the entity's edges. `DISTINCT` is left out: the list is recalculated entity by
-- entity, and that a second time changes nothing.
unfoldable pub adjacent_ids : ℕ → Db → List ℕ
adjacent_ids id db =
    map (λ r. if r.source_id == id then r.target_id else r.source_id)
      (filter (touches id) db.relationships)

unfoldable pub delete_bindings_of : List ℕ → Db → Db
unfolding delete_memory_relationships
delete_bindings_of [] db = db
delete_bindings_of (id ∷ ids) db = delete_bindings_of ids (delete_memory_relationships id db)

-- Steps 0 to 7; the counts are of relationships and of bindings.
unfoldable pub delete_entity_steps : ℕ → Db → (ℕ × ℕ) × Db
unfolding adjacent_ids delete_bindings_of
delete_entity_steps id db =
    let adjacent = adjacent_ids id db in
    let unbound = delete_bindings_of (ids_where (touches id) db) db in
    let cut = delete_relationships (touches id) unbound in
    let freed = record cut {
      memory_entities = drop_where (λ b. b.entity_id == id) cut.memory_entities;
    } in
    let gone = delete_entity_row id freed in
    (
      (
        length (filter (touches id) unbound.relationships),
        length (filter (λ b. b.entity_id == id) cut.memory_entities),
      ),
      recalculate_degrees (filter (λ adj. not (adj == id)) adjacent) gone,
    )

unfoldable pub delete_entity :
    Platform → String → Bool → Label → Db → Result AppError ((ℕ × ℕ) × Db)
unfolding delete_entity_steps
delete_entity platform namespace false name db =
    err (validation "use --cascade to confirm deletion of entity and all its relationships")
delete_entity platform namespace true name db = elim (find_entity_id platform namespace name db) [
  | none ↦ err (not_found "entity_not_found")
  | some id ↦ ok (delete_entity_steps id db)
]
