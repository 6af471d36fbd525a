-- ===== src/Knowledge/Cleanup.antt =====
-- src/commands/cleanup_orphans.rs with `--namespace`, and the searches of
-- src/storage/entities/merge.rs. Without `--namespace` the command deletes the other rows that break
-- a foreign key too, which is not modelled.
use sqlite_graphrag.Base.{
  ℕ, ◌+◌, String, Bool, true, not, ◌&&◌, ◌||◌, List, map, str_eq, ltb, ◌==◌, filter, length, Option,
  none, some, if◌then◌else◌, Result, ok, err,
}
use sqlite_graphrag.Errors.{AppError, validation}
use sqlite_graphrag.Knowledge.{Entity, Relationship, Db, touches, exists, has_entity}
use sqlite_graphrag.Knowledge.Entities.{delete_relationships_by_ids, delete_entities_by_ids}
use sqlite_graphrag.Knowledge.Unlink.{ids_where}

abbrev pub in_scope : Option String → String → Bool
in_scope none namespace = true
in_scope (some ns) namespace = str_eq namespace ns

unfoldable pub is_orphan : Option String → Db → Entity → Bool
is_orphan namespace db e =
    in_scope namespace e.namespace
    && not (exists (λ b. b.entity_id == e.id) db.memory_entities)
    && not (exists (touches e.id) db.relationships)

unfoldable pub find_orphan_entity_ids : Option String → Db → List ℕ
find_orphan_entity_ids namespace db = map (λ e. e.id) (filter (is_orphan namespace db) db.entities)

unfoldable pub is_dangling : Option String → Db → Relationship → Bool
is_dangling namespace db r =
    in_scope namespace r.namespace
    && (not (has_entity r.source_id db) || not (has_entity r.target_id db))

unfoldable pub find_dangling_relationship_ids : Option String → Db → List ℕ
find_dangling_relationship_ids namespace db = ids_where (is_dangling namespace db) db

-- `violations` is the number of rows that `PRAGMA foreign_key_check` reports. The counts are of the
-- entities and of the relationships deleted.
unfoldable pub cleanup_orphans :
    ℕ → (dry_run confirmed : Bool) → String → Db → Result AppError ((ℕ × ℕ) × Db)
unfolding find_orphan_entity_ids find_dangling_relationship_ids
cleanup_orphans violations dry_run confirmed namespace db =
    let orphan_ids = find_orphan_entity_ids (some namespace) db in
    let dangling_ids = find_dangling_relationship_ids (some namespace) db in
    let total = length orphan_ids + length dangling_ids + violations in
    if dry_run
    then ok ((0, 0), db)
    else if ltb 0 total && not confirmed
    then err (validation "refuse_delete_orphans_without_yes")
    else let (edges_removed, db1) = delete_relationships_by_ids dangling_ids db in
      let (removed, db2) = delete_entities_by_ids orphan_ids db1 in
      ok ((removed, edges_removed), db2)
