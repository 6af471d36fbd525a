-- ===== src/Knowledge/Merge.antt =====
-- src/commands/merge_entities/mod.rs: the transaction of `merge-entities`, once the ids of the
-- sources and of the target are known.
use sqlite_graphrag.Base.{
  ℕ, suc, ◌+◌, Bool, not, ◌&&◌, List, [], ◌∷◌, ◌++◌, ltb, ◌==◌, if◌then◌else◌,
}
use sqlite_graphrag.Knowledge.{
  Relationship, MemoryEntity, Db, exists, drop_where, is_key, delete_relationships,
  delete_entity_row,
}
use sqlite_graphrag.Knowledge.Entities.{recalculate_degree, recalculate_degrees}
use sqlite_graphrag.Knowledge.DeleteEntity.{adjacent_ids}

-- `UPDATE OR IGNORE relationships SET … WHERE …`: row by row, but not where another row has the new
-- key already. `before` are the rows that are passed.
unfoldable pub update_or_ignore :
    (Relationship → Bool)
    → (Relationship → Relationship)
    → List Relationship
    → List Relationship
    → ℕ × List Relationship
update_or_ignore cond change before [] = (0, before)
update_or_ignore cond change before (r ∷ rest) =
    let r' = change r in
    let key = is_key r'.source_id r'.target_id r'.relation in
    let moves = cond r && not (exists key (before ++ rest)) in
    let (moved, rows) =
      update_or_ignore cond change (before ++ ((if moves then r' else r) ∷ [])) rest in
    (if moves then suc moved else moved, rows)

abbrev pub from_entity : ℕ → Relationship → Bool
from_entity id r = r.source_id == id

abbrev pub to_entity : ℕ → Relationship → Bool
to_entity id r = r.target_id == id

-- Step 1a: redirect `source_id`, and delete what could not be.
unfoldable pub redirect_sources : ℕ → ℕ → Db → ℕ × Db
redirect_sources target_id src_id db =
    let (moved, rows) =
      update_or_ignore (from_entity src_id) (λ r. record r { source_id = target_id }) []
        db.relationships in
    (moved, delete_relationships (from_entity src_id) (record db { relationships = rows }))

-- Step 1b: the same with `target_id`.
unfoldable pub redirect_targets : ℕ → ℕ → Db → ℕ × Db
redirect_targets target_id src_id db =
    let (moved, rows) =
      update_or_ignore (to_entity src_id) (λ r. record r { target_id = target_id }) []
        db.relationships in
    (moved, delete_relationships (to_entity src_id) (record db { relationships = rows }))

unfoldable pub redirect_all : ℕ → List ℕ → Db → ℕ × Db
unfolding redirect_sources redirect_targets
redirect_all target_id [] db = (0, db)
redirect_all target_id (src_id ∷ src_ids) db =
    let (moved_src, db1) = redirect_sources target_id src_id db in
    let (moved_tgt, db2) = redirect_targets target_id src_id db1 in
    let (moved, db3) = redirect_all target_id src_ids db2 in (moved_src + moved_tgt + moved, db3)

abbrev pub is_loop : Relationship → Bool
is_loop r = r.source_id == r.target_id

-- Step 3: not the least id of its key.
abbrev pub is_repeated : List Relationship → Relationship → Bool
is_repeated rows r = exists (λ s. is_key r.source_id r.target_id r.relation s && ltb s.id r.id) rows

-- Step 4, row by row like `update_or_ignore`.
unfoldable pub rebind : ℕ → ℕ → List MemoryEntity → List MemoryEntity → List MemoryEntity
rebind target_id src_id before [] = before
rebind target_id src_id before (b ∷ rest) =
    let taken =
      exists (λ c. c.memory_id == b.memory_id && c.entity_id == target_id) (before ++ rest) in
    let moves = b.entity_id == src_id && not taken in
    rebind target_id src_id
      (before ++ ((if moves then record b { entity_id = target_id } else b) ∷ [])) rest

unfoldable pub rebind_all : ℕ → List ℕ → Db → Db
unfolding rebind
rebind_all target_id [] db = db
rebind_all target_id (src_id ∷ src_ids) db = rebind_all target_id src_ids (record db {
  memory_entities =
      drop_where (λ b. b.entity_id == src_id) (rebind target_id src_id [] db.memory_entities);
})

-- Step 5: the first row of every pair stays.
unfoldable pub dedup_bindings : List MemoryEntity → List MemoryEntity → List MemoryEntity
dedup_bindings before [] = before
dedup_bindings before (b ∷ rest) =
    dedup_bindings
      (if exists (λ c. c.memory_id == b.memory_id && c.entity_id == b.entity_id) before
        then before
        else before ++ (b ∷ []))
      rest

unfoldable pub delete_entity_rows : List ℕ → Db → Db
delete_entity_rows [] db = db
delete_entity_rows (id ∷ ids) db = delete_entity_rows ids (delete_entity_row id db)

-- Steps 1 to 7; the count is of the relationships moved.
unfoldable pub merge_entities : ℕ → List ℕ → Db → ℕ × Db
unfolding redirect_all rebind_all dedup_bindings delete_entity_rows
merge_entities target_id source_ids db =
    let (moved, db1) = redirect_all target_id source_ids db in
    let db2 = delete_relationships is_loop db1 in
    let db3 = delete_relationships (is_repeated db2.relationships) db2 in
    let db4 = rebind_all target_id source_ids db3 in
    let db5 = record db4 { memory_entities = dedup_bindings [] db4.memory_entities } in
    let db6 = delete_entity_rows source_ids db5 in
    let adjacent = adjacent_ids target_id db6 in
    (moved, recalculate_degrees adjacent (recalculate_degree target_id db6))
