-- ===== src/Knowledge/Prune.antt =====
-- src/storage/entities/merge.rs and src/commands/prune_relations.rs: the removal of a relation.
use sqlite_graphrag.Base.{
  ℕ, String, Bool, true, false, ◌&&◌, List, ◌++◌, map, str_eq, filter, length,
}
use sqlite_graphrag.Labels.{Label, label_eq}
use sqlite_graphrag.Knowledge.{Relationship, Db}
use sqlite_graphrag.Knowledge.Entities.{delete_each_relationship, recalculate_degrees}
use sqlite_graphrag.Knowledge.Unlink.{ids_where}

unfoldable pub has_relation : String → Label → Relationship → Bool
has_relation namespace relation r = str_eq r.namespace namespace && label_eq r.relation relation

unfoldable pub count_relationships_by_relation : String → Label → Db → ℕ
count_relationships_by_relation namespace relation db =
    length (filter (has_relation namespace relation) db.relationships)

-- The ends of the relation's edges; `UNION`, which drops repetitions, is left out as in
-- `adjacent_ids`.
unfoldable pub ends_by_relation : String → Label → Db → List ℕ
ends_by_relation namespace relation db =
    let edges = filter (has_relation namespace relation) db.relationships in
    map (λ r. r.source_id) edges ++ map (λ r. r.target_id) edges

unfoldable pub delete_relationships_by_relation : String → Label → Db → ℕ × Db
unfolding ends_by_relation
delete_relationships_by_relation namespace relation db =
    let entity_ids = ends_by_relation namespace relation db in
    let rel_ids = ids_where (has_relation namespace relation) db in
    (length rel_ids, recalculate_degrees entity_ids (delete_each_relationship rel_ids db))

-- What `prune-relations` reports, and the graph.
pub data PruneAction : Type 0 where
  dry_run aborted pruned : PruneAction

unfoldable pub prune_relations : Bool → Bool → String → Label → Db → (PruneAction × ℕ) × Db
prune_relations true _ namespace relation db =
    ((dry_run, count_relationships_by_relation namespace relation db), db)
prune_relations false false namespace relation db =
    ((aborted, count_relationships_by_relation namespace relation db), db)
prune_relations false true namespace relation db =
    let (count, db') = delete_relationships_by_relation namespace relation db in
    ((pruned, count), db')
