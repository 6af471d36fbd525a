-- ===== src/Knowledge/Examples.antt =====
-- A small graph, runs of the commands on it, and the theorems at concrete inputs.
use sqlite_graphrag.Base.{
  ok, length, if◌then◌else◌, ℕ, ◌≤◌, ◌<◌, ◌≡◌, ◌≢◌, refl, inl, inr, String, true, false, not, ◌==◌,
  none, some, List, [], ◌∷◌, arith, In, here, there, In-nil, In-cons, filter, All-In, err,
}
use sqlite_graphrag.Errors.{not_found}
use sqlite_graphrag.Labels.{
  codes, is_canonical_relation, label_eq, validate_entity_name, normalize_entity_name,
  normalize_entity_type,
}
use sqlite_graphrag.Labels.Examples.{ascii, ascii-IsUnicode}
use sqlite_graphrag.Knowledge.{Entity, Relationship, Db, Platform}
use sqlite_graphrag.Knowledge.Entities.{
  NewEntity, incident, upsert_entity, upsert_entity_preserving_type, find_entity_id,
  create_or_fetch_relationship,
}
use sqlite_graphrag.Knowledge.Link.{LinkArgs, link}
use sqlite_graphrag.Knowledge.Unlink.{UnlinkArgs, unlink_entity, unlink_pair}
use sqlite_graphrag.Knowledge.Merge.{merge_entities}
use sqlite_graphrag.Knowledge.MergeCommand.{MergeEntitiesArgs, merge}
use sqlite_graphrag.Knowledge.Tables.{AllPairs}
use sqlite_graphrag.Knowledge.Integrity.{HasEntity, DifferEntity, DifferEdge}
use sqlite_graphrag.Knowledge.Good.{IsGood, Holds}
use sqlite_graphrag.Knowledge.MergeLoop.{IsFree}
use sqlite_graphrag.Knowledge.MergeLeft.{merge_entities-gone}
use sqlite_graphrag.Knowledge.MergeResult.{merge-IsGood}
use sqlite_graphrag.Knowledge.Commands.{
  Command, link_ends, unlink_ends, delete_one, prune, history, history-IsGood,
}
use sqlite_graphrag.Knowledge.Spellings.{IsCanonical, link-unlink_pair}
use sqlite_graphrag.Knowledge.Lookup.{IsStored, upsert_entity-find}
use sqlite_graphrag.Knowledge.Neighbours.{unlink_entity_stale}

abbrev platform : Platform
platform = record {
  unicode = ascii;
  differs = λ a b. not (a == b);
  in_unit = λ w. true;
  display = λ e. "";
}

abbrev entity : ℕ → String → ℕ → Entity
entity id name degree = record {
  id = id;
  namespace = "global";
  name = codes name;
  kind = codes "concept";
  description = none;
  degree = degree;
}

abbrev edge : ℕ → ℕ → ℕ → Relationship
edge id source_id target_id = record {
  id = id;
  namespace = "global";
  source_id = source_id;
  target_id = target_id;
  relation = codes "uses";
  weight = 4602678819172646912;
  description = none;
}

-- alice uses bob, and carol uses alice and bob.
abbrev graph : Db
graph = record {
  entities = entity 1 "alice" 2 ∷ entity 2 "bob" 2 ∷ entity 3 "carol" 2 ∷ [];
  relationships = edge 1 1 2 ∷ edge 2 3 1 ∷ edge 3 3 2 ∷ [];
  memory_entities = record { memory_id = 9; entity_id = 2 } ∷ [];
  memory_relationships = record { memory_id = 9; relationship_id = 2 } ∷ [];
  last_entity_id = 3;
  last_relationship_id = 3;
}

graph-entities_differ : AllPairs DifferEntity graph.entities
graph-entities_differ = ground arith

graph-edges_differ : AllPairs DifferEdge graph.relationships
graph-edges_differ = ground arith

alice : HasEntity 1 graph
alice = (entity 1 "alice" 2, here refl, refl)

bob : HasEntity 2 graph
bob = (entity 2 "bob" 2, there (here refl), refl)

carol : HasEntity 3 graph
carol = (entity 3 "carol" 2, there (there (here refl)), refl)

graph-IsGood : IsGood graph
unfolding incident filter
graph-IsGood = record {
  wf = record {
    entity_below = λ e i.
        All-In (λ x. x.id ≤ 3) graph.entities (omega arith, (omega arith, (omega arith, tt))) i;
    entities_differ = graph-entities_differ;
    edge_below = λ r i.
        All-In (λ x. x.id ≤ 3) graph.relationships (omega arith, (omega arith, (omega arith, tt)))
          i;
    edges_differ = graph-edges_differ;
    ends_exist = λ r i.
        All-In (λ x. HasEntity x.source_id graph × HasEntity x.target_id graph) graph.relationships
          ((alice, bob), ((carol, alice), ((carol, bob), tt))) i;
    entities_bound =
        λ b i. All-In (λ x. HasEntity x.entity_id graph) graph.memory_entities (bob, tt) i;
    edges_bound = λ b i.
        All-In (λ x. (r : Relationship) × In r graph.relationships × (r.id ≡ x.relationship_id))
          graph.memory_relationships ((edge 2 3 1, there (here refl), refl), tt) i;
  };
  exact = λ e i.
      All-In (λ x. x.degree ≡ incident x.id graph.relationships) graph.entities
        (refl, (refl, (refl, tt))) i;
}

-- `link --from bob --to carol --relation implements`
abbrev link_args : LinkArgs
link_args = record {
  source_name = some (codes "Bob");
  source_id = none;
  target_name = none;
  target_id = some 3;
  relation = codes "implements";
  weight = none;
  create_missing = true;
  entity_type = codes "concept";
  strict_relations = false;
}

abbrev unlink_args : UnlinkArgs
unlink_args = record {
  source_name = some (codes "alice");
  target_name = some (codes "bob");
  relation = none;
  entity = none;
  all_of_entity = false;
  memory = none;
}

abbrev commands : List (String × Command)
commands =
    ("global", link_ends link_args)
    ∷ ("global", unlink_ends unlink_args)
    ∷ ("global", delete_one true (codes "carol"))
    ∷ ("global", prune false true (codes "uses"))
    ∷ []

history-IsGood_example : IsGood (history platform (λ ns name. none) commands graph)
history-IsGood_example =
    history-IsGood platform (λ ns name. none) commands graph (tt, (refl, (tt, (tt, tt))))
      graph-IsGood

graph-loopless : (r : Relationship) → In r graph.relationships → r.source_id ≢ r.target_id
graph-loopless r i =
    All-In (λ x. x.source_id ≢ x.target_id) graph.relationships
      (λ e. ground arith, (λ e. ground arith, (λ e. ground arith, tt))) i

-- carol goes into alice.
abbrev merge_args : MergeEntitiesArgs
merge_args = record {
  names = codes "carol" ∷ [];
  ids = [];
  into = some (codes "alice");
  into_id = none;
  cross_namespace = false;
}

merge-IsGood_example : Holds (λ x. IsGood x.1) (merge platform "global" merge_args graph)
merge-IsGood_example = merge-IsGood platform "global" merge_args graph graph-IsGood graph-loopless

alice_is_another : ¬ In {A = ℕ} 1 (3 ∷ [])
alice_is_another i = elim (In-cons i) [ inl e ↦ ground arith | inr l ↦ In-nil l ]

merge_entities-gone_example :
    let db' = (merge_entities 1 (3 ∷ []) graph).1 in
    ((i : ℕ) → In i (3 ∷ []) → (¬ HasEntity i db') × IsFree i db')
    × ((r : Relationship) → In r db'.relationships → r.source_id ≢ r.target_id)
merge_entities-gone_example =
    merge_entities-gone 1 (3 ∷ []) graph alice_is_another graph-IsGood alice graph-loopless

alice_is_found : find_entity_id platform "global" (codes "Alice") graph ≡ some 1
unfolding find_entity_id label_eq normalize_entity_name filter
alice_is_found = refl

bob_is_another : ◌≢◌ {A = ℕ} 2 1
bob_is_another e = ground arith

unlink_entity_stale_example :
    Holds
      (λ x. In (entity 2 "bob" 2) x.1.entities × (incident 2 x.1.relationships < 2))
      (unlink_entity platform "global" (some (codes "Alice")) graph)
unlink_entity_stale_example =
    unlink_entity_stale platform "global" (codes "Alice") graph 1 (entity 2 "bob" 2) (edge 1 1 2)
      graph-IsGood alice_is_found (here refl) refl (there (here refl)) refl bob_is_another

abbrev dave : NewEntity
dave = record { name = codes "Dave Doe"; entity_type = codes "person"; description = none }

dave_is_valid : validate_entity_name dave.name ≡ ok tt
unfolding validate_entity_name
dave_is_valid = refl

dave_is_long : 2 ≤ length (normalize_entity_name platform.unicode dave.name)
unfolding normalize_entity_name filter
dave_is_long = omega arith

dave_is_a_person : normalize_entity_type platform.unicode dave.entity_type ≡ ok (codes "person")
unfolding normalize_entity_type
dave_is_a_person = refl

upsert_entity-find_example :
    IsStored
      (λ new old. new)
      platform
      "global"
      dave
      (codes "person")
      graph
      (upsert_entity platform "global" dave graph)
    × IsStored
        (λ new old. if label_eq old (codes "concept") then new else old)
        platform
        "global"
        dave
        (codes "person")
        graph
        (upsert_entity_preserving_type platform "global" dave graph)
upsert_entity-find_example =
    upsert_entity-find platform "global" dave (codes "person") graph ascii-IsUnicode dave_is_valid
      dave_is_long dave_is_a_person

graph-IsCanonical : IsCanonical graph.relationships
unfolding is_canonical_relation
graph-IsCanonical r i =
    All-In (λ x. is_canonical_relation x.relation ≡ true) graph.relationships
      (refl, (refl, (refl, tt))) i

implements_is_an_alias : is_canonical_relation (codes "implements") ≡ false
unfolding is_canonical_relation
implements_is_an_alias = refl

link-unlink_pair_example :
    Holds
      (λ x.
        IsCanonical x.1.relationships
        × ((s t : ℕ)
            → unlink_pair s t (some (codes "implements")) x.1
              ≡ err (not_found "relationship_not_found")))
      (link platform "global" link_args graph)
link-unlink_pair_example =
    link-unlink_pair platform "global" link_args graph graph-IsCanonical implements_is_an_alias

-- The edge is written all the same, under another name.
linked : Holds (λ x. x.0 ≡ true) (link platform "global" link_args graph)
unfolding link find_entity_id filter incident validate_entity_name label_eq normalize_entity_name
    normalize_entity_type create_or_fetch_relationship
linked = refl
