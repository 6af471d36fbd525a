-- ===== src/Knowledge/MergeResult.antt =====
-- What `merge-entities` (src/commands/merge_entities/mod.rs) leaves, from the names or ids given.
use sqlite_graphrag.Base.{
  ℕ, ◌≡◌, ◌≢◌, refl, sym, inl, inr, String, Bool, true, false, not, ◌&&◌, ◌||◌, List, [], ◌∷◌, ◌++◌,
  str_eq, ◌==◌, ==_iff, arith, In, In-append, In-cons, In-nil, Bool-cases, Option-cases, Result, ok,
  err,
}
use sqlite_graphrag.Errors.{AppError}
use sqlite_graphrag.Labels.{Label, label_eq}
use sqlite_graphrag.Knowledge.{Entity, Relationship, Db, Platform, first}
use sqlite_graphrag.Knowledge.Entities.{find_entity_id}
use sqlite_graphrag.Knowledge.Link.{refuse_if}
use sqlite_graphrag.Knowledge.LinkGood.{entity_named-HasEntity}
use sqlite_graphrag.Knowledge.Merge.{merge_entities}
use sqlite_graphrag.Knowledge.MergeCommand.{
  MergeEntitiesArgs, contains_id, find_entity_name_by_id, resolve_target, push_new, sources_by_id,
  sources_by_name, is_empty, has_own_id, has_own_name, resolve_sources, merge,
}
use sqlite_graphrag.Knowledge.Tables.{first-some}
use sqlite_graphrag.Knowledge.Integrity.{HasEntity}
use sqlite_graphrag.Knowledge.Good.{IsGood, Holds, Holds-bind, Holds-refuse_if, Result-Holds}
use sqlite_graphrag.Knowledge.MergeGood.{merge_entities-IsGood}

find_entity_name_by_id-HasEntity :
    (namespace : String) (id : ℕ) (enforce : Bool) (db : Db)
    → Holds (λ name. HasEntity id db) (find_entity_name_by_id namespace id enforce db)
unfolding find_entity_name_by_id
find_entity_name_by_id-HasEntity namespace id enforce db =
    let p : Entity → Bool = λ e. e.id == id && (not enforce || str_eq e.namespace namespace) in
    elim (Option-cases (first p db.entities)) [
      | inl missing ↦ rw (missing, find_entity_name_by_id) tt
      | inr (e, found) ↦
          let (i, is) = first-some p db.entities found in
          rw (found, find_entity_name_by_id) (e, i, ground arith)
    ]

resolve_target-HasEntity :
    (platform : Platform) (namespace : String) (args : MergeEntitiesArgs) (db : Db)
    → Holds (λ x. HasEntity x.0 db) (resolve_target platform namespace args db)
unfolding resolve_target find_entity_id
resolve_target-HasEntity platform namespace args db = elim (Option-cases args.into_id) [
  | inr (id, given) ↦
      rw (given, resolve_target)
        (named id (find_entity_name_by_id namespace id true db)
          (find_entity_name_by_id-HasEntity namespace id true db))
  | inl by_name ↦ elim (Option-cases args.into) [
    | inl nothing ↦ rw (by_name, nothing, resolve_target) tt
    | inr (name, given) ↦ elim (Option-cases (find_entity_id platform namespace name db)) [
      | inl missing ↦ rw (by_name, given, missing, resolve_target) tt
      | inr (id, found) ↦
          rw (by_name, given, found, resolve_target)
            (entity_named-HasEntity namespace _ db id found)
    ]
  ]
]
  where
    named :
        (id : ℕ) (r : Result AppError Label)
        → Holds (λ name. HasEntity id db) r
        → Holds
            (λ x. HasEntity x.0 db)
            (elim r as (λ x. Result AppError (ℕ × Label)) [
              | err e ↦ err e
              | ok name ↦ ok (id, name)
            ])
    named id (ok name) h = h
    named id (err e) h = tt

-- The target is never among the sources.
push_new-Lacks :
    (target id : ℕ) (found : List ℕ)
    → (id == target) ≡ false
    → ¬ In target found
    → ¬ In target (push_new id found)
push_new-Lacks target id found other h i = elim (Bool-cases (contains_id id found)) [
  | inl old ↦ let q : push_new id found ≡ found = rw old refl in h (rw (← q) i)
  | inr new ↦
      let q : push_new id found ≡ found ++ (id ∷ []) = rw new refl in
      elim (In-append found (id ∷ []) (rw (← q) i)) [
        | inl j ↦ h j
        | inr j ↦ elim (In-cons j) [
          | inl e ↦ let hit = (==_iff id target).1 (sym e) in ground arith
          | inr l ↦ In-nil l
        ]
      ]
]

sources_by_id-Lacks :
    (namespace : String) (target : ℕ) (cross : Bool) (ids found : List ℕ) (db : Db)
    → ¬ In target found
    → Holds (λ sources. ¬ In target sources) (sources_by_id namespace target cross ids found db)
unfolding sources_by_id
sources_by_id-Lacks namespace target cross [] found db h = h
sources_by_id-Lacks namespace target cross (id ∷ ids) found db h =
    Holds-refuse_if (λ sources. ¬ In target sources) (id == target) "self_merge_id" _
      λ other.
        Holds-bind (λ name. Unit {0}) (λ sources. ¬ In target sources)
          (find_entity_name_by_id namespace id (not cross) db)
          (λ name. sources_by_id namespace target cross ids (push_new id found) db)
          (Result-Holds (find_entity_name_by_id namespace id (not cross) db))
          λ name u.
            sources_by_id-Lacks namespace target cross ids (push_new id found) db
              (push_new-Lacks target id found other h)

sources_by_name-Lacks :
    (platform : Platform) (namespace : String) (target : ℕ) (target_name : Label)
    (names : List Label) (found : List ℕ) (db : Db)
    → ¬ In target found
    → Holds
        (λ sources. ¬ In target sources)
        (sources_by_name platform namespace target target_name names found db)
unfolding sources_by_name
sources_by_name-Lacks platform namespace target target_name [] found db h = h
sources_by_name-Lacks platform namespace target target_name (name ∷ names) found db h =
    Holds-refuse_if (λ sources. ¬ In target sources) (label_eq name target_name) "self_merge_name" _
      λ differs. elim (Option-cases (find_entity_id platform namespace name db)) [
        | inl missing ↦ rw missing tt
        | inr (id, there_is) ↦ rw there_is (
            Holds-refuse_if (λ sources. ¬ In target sources) (id == target)
              "self_merge_name_resolves_to_target"
              (sources_by_name platform namespace target target_name names (push_new id found) db)
              λ other.
                sources_by_name-Lacks platform namespace target target_name names
                  (push_new id found) db (push_new-Lacks target id found other h))
      ]

resolve_sources-Lacks :
    (platform : Platform) (namespace : String) (args : MergeEntitiesArgs) (target : ℕ)
    (target_name : Label) (db : Db)
    → Holds
        (λ sources. ¬ In target sources)
        (resolve_sources platform namespace args target target_name db)
unfolding resolve_sources
resolve_sources-Lacks platform namespace args target target_name db =
    elim (Bool-cases (is_empty args.ids)) [
      | inl by_name ↦
          rw (by_name, resolve_sources)
            (sources_by_name-Lacks platform namespace target target_name args.names [] db In-nil)
      | inr by_id ↦
          rw (by_id, resolve_sources)
            (sources_by_id-Lacks namespace target args.cross_namespace args.ids [] db In-nil)
    ]

-- What holds of every merge of entities into another one holds of the command.
merge_cases :
    (P : Db → Type 0) (platform : Platform) (namespace : String) (args : MergeEntitiesArgs)
    (db : Db)
    → ((target : ℕ) (sources : List ℕ)
        → HasEntity target db
        → ¬ In target sources
        → P (merge_entities target sources db).1)
    → Holds (λ x. P x.1) (merge platform namespace args db)
unfolding merge
merge_cases P platform namespace args db h =
    let Q : ℕ × Db → Type 0 = λ x. P x.1 in
    let none_given = is_empty args.names && is_empty args.ids in
    Holds-refuse_if Q none_given "--names or --ids must contain at least one source entity" _
      λ given. Holds-refuse_if Q (has_own_id args) "self_merge_id_in_ids" _ λ other_id.
        Holds-refuse_if Q (has_own_name args) "self_merge_name_in_names" _ λ other_name.
          Holds-bind (λ x. HasEntity x.0 db) Q (resolve_target platform namespace args db) _
            (resolve_target-HasEntity platform namespace args db)
            λ (target, target_name) has.
              Holds-bind (λ sources. ¬ In target sources) Q
                (resolve_sources platform namespace args target target_name db)
                (λ sources.
                  refuse_if (is_empty sources) "no valid source entities to merge"
                    (ok (merge_entities target sources db)))
                (resolve_sources-Lacks platform namespace args target target_name db)
                λ sources outside.
                  Holds-refuse_if Q (is_empty sources) "no valid source entities to merge"
                    (ok (merge_entities target sources db))
                    λ some_source. h target sources has outside

-- `merge-entities`, when it is not refused, keeps a good graph good, if no edge of that graph is a
-- loop: the keys stay unique, no reference dangles, and every degree counts the entity's edges.
pub merge-IsGood :
    (platform : Platform) (namespace : String) (args : MergeEntitiesArgs) (db : Db)
    → IsGood db
    → ((r : Relationship) → In r db.relationships → r.source_id ≢ r.target_id)
    → Holds (λ x. IsGood x.1) (merge platform namespace args db)
merge-IsGood platform namespace args db good loopless =
    merge_cases IsGood platform namespace args db λ target sources has outside.
      merge_entities-IsGood target sources outside db good has loopless
