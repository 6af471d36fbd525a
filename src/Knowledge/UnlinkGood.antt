-- ===== src/Knowledge/UnlinkGood.antt =====
-- `unlink` (src/commands/unlink.rs), `delete-entity` and `prune-relations` keep a graph good, but
-- for `unlink --entity --all`.
use sqlite_graphrag.Base.{
  ℕ, ◌≡◌, ap, ◌∙◌, inl, inr, String, Bool, true, false, ◌&&◌, Option, none, some, List, [], ◌∷◌,
  ◌++◌, map, filter, ◌==◌, arith, In, here, there, In-filter, In-filter_intro, In-map, In-map_intro,
  In-append_left, In-append_right, Bool-cases, Option-cases, Result,
}
use sqlite_graphrag.Errors.{AppError}
use sqlite_graphrag.Labels.{Label}
use sqlite_graphrag.Knowledge.{Relationship, MemoryEntity, Db, Platform, is_key, drop_where}
use sqlite_graphrag.Knowledge.Entities.{
  find_entity_id, find_relationship, recalculate_degree, recalculate_degrees,
  delete_relationship_by_id, delete_each_relationship, unlink_memory_entity,
}
use sqlite_graphrag.Knowledge.Unlink.{
  UnlinkArgs, ids_where, is_between, delete_relationships_between, or_not_found, unlink_memory,
  unlink_pair, unlink_ends, is_given, unlink,
}
use sqlite_graphrag.Knowledge.Prune.{
  has_relation, ends_by_relation, delete_relationships_by_relation, prune_relations,
}
use sqlite_graphrag.Knowledge.Tables.{first-some}
use sqlite_graphrag.Knowledge.Degrees.{
  ExactBut-IsExact, delete_relationship_by_id-ExactBut, delete_each_relationship-ExactBut,
}
use sqlite_graphrag.Knowledge.Integrity.{IsWf, same_edge}
use sqlite_graphrag.Knowledge.Good.{
  IsGood, Holds, delete_relationship_by_id-IsWf, delete_each_relationship-IsWf, drop_bindings-IsWf,
  recalculate_degrees-IsGood,
}

-- Where no id is used twice, the ids of the chosen edges are of no others.
ids_where-cond :
    (cond : Relationship → Bool) (db : Db)
    → IsWf db
    → (r : Relationship) → In r db.relationships
    → In r.id (ids_where cond db)
    → cond r ≡ true
ids_where-cond cond db wf r i m =
    let (s, j, e) = In-map (λ x. x.id) (filter cond db.relationships) m in
    let (c, k) = In-filter cond db.relationships j in rw (same_edge db wf i k e) c

-- Edges deleted one by one, and the listed entities recalculated, which their ends are among.
pub delete_each_relationship-IsGood :
    (cond : Relationship → Bool) (ids : List ℕ) (db : Db)
    → IsGood db
    → ((r : Relationship)
        → In r db.relationships
        → cond r ≡ true
        → In r.source_id ids × In r.target_id ids)
    → IsGood (recalculate_degrees ids (delete_each_relationship (ids_where cond db) db))
delete_each_relationship-IsGood cond ids db good h =
    let P : ℕ → Type 0 = λ i. In i ids in
    recalculate_degrees-IsGood ids (delete_each_relationship (ids_where cond db) db)
      (delete_each_relationship-IsWf (ids_where cond db) db good.wf)
      (delete_each_relationship-ExactBut P (ids_where cond db) db
        (λ r i m. h r i (ids_where-cond cond db good.wf r i m)) (ExactBut-IsExact P db good.exact))

find_relationship-some :
    (a b : ℕ) (l : Label) (db : Db) (row : Relationship)
    → find_relationship a b l db ≡ some row
    → In row db.relationships × (is_key a b l row ≡ true)
unfolding find_relationship
find_relationship-some a b l db row e = first-some (is_key a b l) db.relationships e

unlink_pair-IsGood :
    (s t : ℕ) (relation : Option Label) (db : Db)
    → IsGood db
    → Holds (λ x. IsGood x.1) (unlink_pair s t relation db)
unfolding unlink_pair delete_relationships_between is_between recalculate_degrees
unlink_pair-IsGood s t none db good =
    delete_each_relationship-IsGood (is_between s t) (s ∷ t ∷ []) db good
      (λ r i c. (here (ground arith), there (here (ground arith))))
unlink_pair-IsGood s t (some relation) db good =
    elim (Option-cases (find_relationship s t relation db)) [
      | inl missing ↦ rw (missing, unlink_pair) tt
      | inr (row, found) ↦
          let (i, key) = find_relationship-some s t relation db row found in
          let P : ℕ → Type 0 = λ j. In j (s ∷ t ∷ []) in
          let es : row.source_id ≡ s = ground arith in
          let et : row.target_id ≡ t = ground arith in
          rw (found, unlink_pair)
            (recalculate_degrees-IsGood (s ∷ t ∷ []) (delete_relationship_by_id row.id db)
              (delete_relationship_by_id-IsWf row.id db good.wf)
              (delete_relationship_by_id-ExactBut P row.id db
                (λ r j e.
                  let same = same_edge db good.wf j i e in
                  (
                    here (ap (λ x. x.source_id) same ∙ es),
                    there (here (ap (λ x. x.target_id) same ∙ et)),
                  ))
                (ExactBut-IsExact P db good.exact)))
    ]

unlink_memory_entity-IsGood :
    (memory_id entity_id : ℕ) (db : Db)
    → IsGood db
    → IsGood (recalculate_degree entity_id (unlink_memory_entity memory_id entity_id db).1)
unfolding unlink_memory_entity recalculate_degrees
unlink_memory_entity-IsGood memory_id entity_id db good =
    let is_binding : MemoryEntity → Bool =
      λ b. b.memory_id == memory_id && b.entity_id == entity_id in
    let cut = record db { memory_entities = drop_where is_binding db.memory_entities } in
    recalculate_degrees-IsGood (entity_id ∷ []) cut (drop_bindings-IsWf is_binding db good.wf)
      (ExactBut-IsExact (λ i. In i (entity_id ∷ [])) cut good.exact)

or_not_found-Holds :
    (P : ℕ × Db → Type 0) (found : Option ℕ) (f : ℕ → Result AppError (ℕ × Db))
    → ((id : ℕ) → Holds P (f id))
    → Holds P (or_not_found found f)
or_not_found-Holds P none f h = tt
or_not_found-Holds P (some id) f h = h id

unlink_memory-IsGood :
    (platform : Platform) (memory_id : String → String → Option ℕ) (namespace memory : String)
    (entity : Option Label) (db : Db)
    → IsGood db
    → Holds (λ x. IsGood x.1) (unlink_memory platform memory_id namespace memory entity db)
unfolding unlink_memory
unlink_memory-IsGood platform memory_id namespace memory none db good = tt
unlink_memory-IsGood platform memory_id namespace memory (some entity) db good =
    elim (Option-cases (memory_id namespace memory)) [
      | inl missing ↦ rw (missing, unlink_memory) tt
      | inr (id, found) ↦
          rw (found, unlink_memory)
            (or_not_found-Holds (λ x. IsGood x.1) (find_entity_id platform namespace entity db) _
              (λ entity_id. unlink_memory_entity-IsGood id entity_id db good))
    ]

unlink_ends-IsGood :
    (platform : Platform) (namespace : String) (source target relation : Option Label) (db : Db)
    → IsGood db
    → Holds (λ x. IsGood x.1) (unlink_ends platform namespace source target relation db)
unfolding unlink_ends
unlink_ends-IsGood platform namespace none target relation db good = tt
unlink_ends-IsGood platform namespace (some source) none relation db good = tt
unlink_ends-IsGood platform namespace (some source) (some target) relation db good =
    or_not_found-Holds (λ x. IsGood x.1) (find_entity_id platform namespace source db) _
      λ s.
        or_not_found-Holds (λ x. IsGood x.1) (find_entity_id platform namespace target db)
          (λ t. unlink_pair s t relation db) λ t. unlink_pair-IsGood s t relation db good

pub unlink-IsGood :
    (platform : Platform) (memory_id : String → String → Option ℕ) (namespace : String)
    (args : UnlinkArgs) (db : Db)
    → args.all_of_entity ≡ false
    → IsGood db
    → Holds (λ x. IsGood x.1) (unlink platform memory_id namespace args db)
unfolding unlink
unlink-IsGood platform memory_id namespace args db one good = elim (Option-cases args.memory) [
  | inr (memory, given) ↦
      rw (given, unlink)
        (unlink_memory-IsGood platform memory_id namespace memory args.entity db good)
  | inl no_memory ↦ elim (Bool-cases (is_given args.entity)) [
    | inl lone ↦ rw (no_memory, lone, one, unlink) tt
    | inr ends ↦
        rw (no_memory, ends, one, unlink)
          (unlink_ends-IsGood platform namespace args.source_name args.target_name args.relation db
            good)
  ]
]

-- Every end of a relation's edges is recalculated.
pub prune_relations-IsGood :
    (dry yes_given : Bool) (namespace : String) (relation : Label) (db : Db)
    → IsGood db
    → IsGood (prune_relations dry yes_given namespace relation db).1
unfolding prune_relations delete_relationships_by_relation ends_by_relation
prune_relations-IsGood true yes_given namespace relation db good = good
prune_relations-IsGood false false namespace relation db good = good
prune_relations-IsGood false true namespace relation db good =
    let p = has_relation namespace relation in
    let edges = filter p db.relationships in
    delete_each_relationship-IsGood p (map (λ r. r.source_id) edges ++ map (λ r. r.target_id) edges)
      db good
      λ r i c.
        let j = In-filter_intro p db.relationships c i in
        (
          In-append_left (map (λ x. x.target_id) edges) (In-map_intro (λ x. x.source_id) edges j),
          In-append_right (map (λ x. x.source_id) edges) (In-map_intro (λ x. x.target_id) edges j),
        )
