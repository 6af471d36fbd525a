-- ===== src/Knowledge/MergeCommand.antt =====
-- src/commands/merge_entities/mod.rs and resolve.rs: how the target and the sources are found, and
-- the command as a whole.
use sqlite_graphrag.Base.{
  ℕ, String, Bool, true, false, not, ◌&&◌, ◌||◌, Option, none, some, List, [], ◌∷◌, ◌++◌, str_eq,
  ◌==◌, if◌then◌else◌, Result, ok, err, ◌>>=◌,
}
use sqlite_graphrag.Errors.{AppError, validation, not_found}
use sqlite_graphrag.Labels.{Label, label_eq, contains}
use sqlite_graphrag.Knowledge.{Db, Platform, exists, first}
use sqlite_graphrag.Knowledge.Entities.{find_entity_id}
use sqlite_graphrag.Knowledge.Link.{refuse_if}
use sqlite_graphrag.Knowledge.Merge.{merge_entities}

pub record MergeEntitiesArgs : Type 0 where
  pub names : List Label
  pub ids : List ℕ
  pub into : Option Label
  pub into_id : Option ℕ
  pub cross_namespace : Bool

abbrev pub contains_id : ℕ → List ℕ → Bool
contains_id id ids = exists (λ i. i == id) ids

-- Only the name is used of what it finds.
unfoldable pub find_entity_name_by_id : String → ℕ → Bool → Db → Result AppError Label
find_entity_name_by_id namespace id enforce_namespace db =
    elim (first (λ e. e.id == id && (not enforce_namespace || str_eq e.namespace namespace))
      db.entities) [
        | none ↦ err (not_found "entity_id_not_found_in_namespace")
        | some e ↦ ok e.name
      ]

unfoldable pub resolve_target :
    Platform → String → MergeEntitiesArgs → Db → Result AppError (ℕ × Label)
resolve_target platform namespace args db = elim args.into_id [
  | some id ↦ elim (find_entity_name_by_id namespace id true db) [
    | err e ↦ err e
    | ok name ↦ ok (id, name)
  ]
  | none ↦ elim args.into [
    | none ↦ err (validation "--into or --into-id is required")
    | some name ↦ elim (find_entity_id platform namespace name db) [
      | none ↦ err (not_found "entity_not_found")
      | some id ↦ ok (id, name)
    ]
  ]
]

-- `if !source_ids.contains(&id) { source_ids.push(id); }`
abbrev pub push_new : ℕ → List ℕ → List ℕ
push_new id found = if contains_id id found then found else found ++ (id ∷ [])

unfoldable pub sources_by_id : String → ℕ → Bool → List ℕ → List ℕ → Db → Result AppError (List ℕ)
sources_by_id namespace target_id cross [] found db = ok found
sources_by_id namespace target_id cross (id ∷ ids) found db =
    refuse_if (id == target_id) "self_merge_id" (
      find_entity_name_by_id namespace id (not cross) db >>= λ name.
      sources_by_id namespace target_id cross ids (push_new id found) db)

unfoldable pub sources_by_name :
    Platform → String → ℕ → Label → List Label → List ℕ → Db → Result AppError (List ℕ)
sources_by_name platform namespace target_id target_name [] found db = ok found
sources_by_name platform namespace target_id target_name (name ∷ names) found db =
    refuse_if (label_eq name target_name) "self_merge_name"
      (elim (find_entity_id platform namespace name db) [
        | none ↦ err (not_found "entity_not_found")
        | some id ↦
            refuse_if (id == target_id) "self_merge_name_resolves_to_target" (
              sources_by_name platform namespace target_id target_name names (push_new id found) db)
      ])

abbrev pub is_empty : {A : Type 0} → List A → Bool
is_empty [] = true
is_empty (x ∷ xs) = false

-- The guards before the database is opened.
abbrev pub has_own_id : MergeEntitiesArgs → Bool
has_own_id args = elim args.into_id [ none ↦ false | some id ↦ contains_id id args.ids ]

abbrev pub has_own_name : MergeEntitiesArgs → Bool
has_own_name args = elim args.into [ none ↦ false | some name ↦ contains args.names name ]

unfoldable pub resolve_sources :
    Platform → String → MergeEntitiesArgs → ℕ → Label → Db → Result AppError (List ℕ)
unfolding sources_by_id sources_by_name
resolve_sources platform namespace args target_id target_name db =
    if is_empty args.ids
    then sources_by_name platform namespace target_id target_name args.names [] db
    else sources_by_id namespace target_id args.cross_namespace args.ids [] db

unfoldable pub merge : Platform → String → MergeEntitiesArgs → Db → Result AppError (ℕ × Db)
unfolding resolve_target resolve_sources
merge platform namespace args db =
    refuse_if (is_empty args.names && is_empty args.ids)
      "--names or --ids must contain at least one source entity"
      (refuse_if (has_own_id args) "self_merge_id_in_ids" (
        refuse_if (has_own_name args) "self_merge_name_in_names" (
          resolve_target platform namespace args db >>= λ (target_id, target_name).
          resolve_sources platform namespace args target_id target_name db >>= λ source_ids.
          refuse_if (is_empty source_ids) "no valid source entities to merge"
            (ok (merge_entities target_id source_ids db)))))
