-- ===== src/Knowledge/CleanupExamples.antt =====
-- A graph with a dangling edge and an orphan, cleaned up.
use sqlite_graphrag.Base.{
  ℕ, ◌≡◌, ◌↔◌, refl, String, true, false, none, some, [], ◌∷◌, arith, In, filter, ok, err,
}
use sqlite_graphrag.Errors.{validation}
use sqlite_graphrag.Labels.{codes}
use sqlite_graphrag.Knowledge.{Entity, Relationship, Db, delete_relationships, delete_entity_row}
use sqlite_graphrag.Knowledge.Entities.{delete_entities_by_ids, delete_relationships_by_ids}
use sqlite_graphrag.Knowledge.Tables.{AllPairs}
use sqlite_graphrag.Knowledge.Integrity.{DifferEntity}
use sqlite_graphrag.Knowledge.Cleanup.{is_orphan, is_dangling, cleanup_orphans}
use sqlite_graphrag.Knowledge.CleanupResult.{cleanup_orphans_lem}

abbrev lone : ℕ → String → ℕ → Entity
lone id name degree = record {
  id = id;
  namespace = "global";
  name = codes name;
  kind = codes "concept";
  description = none;
  degree = degree;
}

abbrev dangling_edge : Relationship
dangling_edge = record {
  id = 1;
  namespace = "global";
  source_id = 1;
  target_id = 7;
  relation = codes "uses";
  weight = 0;
  description = none;
}

-- alice uses an entity that is gone; dave has no edge.
abbrev damaged : Db
damaged = record {
  entities = lone 1 "alice" 1 ∷ lone 2 "dave" 0 ∷ [];
  relationships = dangling_edge ∷ [];
  memory_entities = [];
  memory_relationships = [];
  last_entity_id = 7;
  last_relationship_id = 1;
}

-- What the first run leaves: alice, an orphan by now, whose degree counts the edge that is gone.
abbrev after_first : Db
after_first = record damaged { entities = lone 1 "alice" 1 ∷ []; relationships = [] }

refused :
    cleanup_orphans 1 false false "global" damaged
    ≡ err (validation "refuse_delete_orphans_without_yes")
unfolding cleanup_orphans filter is_orphan is_dangling
refused = refl

first_run : cleanup_orphans 1 false true "global" damaged ≡ ok ((1, 1), after_first)
unfolding cleanup_orphans filter is_orphan is_dangling delete_entities_by_ids
    delete_relationships_by_ids delete_relationships delete_entity_row
first_run = refl

second_run :
    cleanup_orphans 0 false true "global" after_first
    ≡ ok ((1, 0), record after_first { entities = [] })
unfolding cleanup_orphans filter is_orphan is_dangling delete_entities_by_ids
    delete_relationships_by_ids delete_relationships delete_entity_row
second_run = refl

damaged-entities_differ : AllPairs DifferEntity damaged.entities
damaged-entities_differ = ground arith

cleanup_orphans_lem_example :
    (report : ℕ × ℕ) × (db' : Db) × (cleanup_orphans 1 false true "global" damaged
      ≡ ok (report, db'))
    × ((e : Entity)
        → In e db'.entities ↔ In e damaged.entities × (is_orphan (some "global") damaged e ≡ false))
    × ((r : Relationship)
        → In r db'.relationships
          ↔ In r damaged.relationships × (is_dangling (some "global") damaged r ≡ false))
cleanup_orphans_lem_example =
    cleanup_orphans_lem 1 "global" damaged damaged-entities_differ (tt, tt)
