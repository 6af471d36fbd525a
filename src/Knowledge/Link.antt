-- ===== src/Knowledge/Link.antt =====
-- src/commands/link.rs: the transaction of `link`. A failed one changes nothing, since it is rolled
-- back.
use sqlite_graphrag.Base.{
  ℕ, String, Bool, true, false, not, ◌&&◌, Option, none, some, str_eq, ◌==◌, if◌then◌else◌, Result,
  ok, err, ◌>>=◌,
}
use sqlite_graphrag.Errors.{AppError, validation, not_found}
use sqlite_graphrag.Labels.{
  Label, label_eq, normalize_entity_name, validate_entity_name, normalize_entity_type,
  is_canonical_relation,
}
use sqlite_graphrag.Knowledge.{Db, Platform, first}
use sqlite_graphrag.Knowledge.Entities.{
  find_entity_id, upsert_entity, create_or_fetch_relationship, recalculate_degree,
}

pub record LinkArgs : Type 0 where
  pub source_name : Option Label
  pub source_id : Option ℕ
  pub target_name : Option Label
  pub target_id : Option ℕ
  pub relation : Label
  pub weight : Option ℕ
  pub create_missing : Bool
  pub entity_type : Label
  pub strict_relations : Bool

-- 0.5
abbrev pub default_relation_weight : ℕ
default_relation_weight = 4602678819172646912

unfoldable pub resolve_entity_name_by_id : String → ℕ → Db → Result AppError Label
resolve_entity_name_by_id namespace id db =
    elim (first (λ e. e.id == id && str_eq e.namespace namespace) db.entities) [
      | none ↦ err (not_found "entity_id_not_found_in_namespace")
      | some e ↦ ok e.name
    ]

-- One end of the edge: its normalised name, and its id when that was given.
unfoldable pub resolve_end :
    Platform → String → String → Option ℕ → Option Label → Db → Result AppError (Label × Option ℕ)
unfolding resolve_entity_name_by_id
resolve_end platform required namespace (some id) name db =
    elim (resolve_entity_name_by_id namespace id db) [
      | err e ↦ err e
      | ok found ↦ ok (found, some id)
    ]
resolve_end platform required namespace none (some name) db = elim (validate_entity_name name) [
  | err msg ↦ err (validation (platform.display msg))
  | ok _ ↦ ok (normalize_entity_name platform.unicode name, none)
]
resolve_end platform required namespace none none db = err (validation required)

abbrev pub same_id : Option ℕ → Option ℕ → Bool
same_id (some a) (some b) = a == b
same_id _ _ = false

abbrev pub weight_or_default : Option ℕ → ℕ
weight_or_default none = default_relation_weight
weight_or_default (some w) = w

-- `if … { return Err(AppError::Validation(…)); }`
abbrev pub refuse_if : {A : Type 0} → Bool → String → Result AppError A → Result AppError A
refuse_if true message rest = err (validation message)
refuse_if false message rest = rest

-- The checks once the ends are known.
unfoldable pub check_ends :
    Platform
    → LinkArgs
    → Label × Option ℕ
    → Label × Option ℕ
    → Result AppError ((Label × Option ℕ) × (Label × Option ℕ) × Label)
check_ends platform args source target =
    refuse_if (label_eq source.0 target.0) "self_referential_link" (
      refuse_if (same_id source.1 target.1) "self_referential_link" (
        refuse_if (not (platform.in_unit (weight_or_default args.weight))) "invalid_link_weight" (
          refuse_if (args.strict_relations && not (is_canonical_relation args.relation))
            "non_canonical_relation"
            (normalize_entity_type platform.unicode args.entity_type >>= λ kind.
              ok (source, target, kind)))))

-- The checks before the transaction: both ends and the type of new entities.
unfoldable pub check_link :
    Platform
    → String
    → LinkArgs
    → Db
    → Result AppError ((Label × Option ℕ) × (Label × Option ℕ) × Label)
unfolding resolve_end check_ends
check_link platform namespace args db =
    resolve_end platform "--from or --from-id is required" namespace args.source_id args.source_name
      db
    >>= λ source.
        resolve_end platform "--to or --to-id is required" namespace args.target_id args.target_name
          db
        >>= λ target. check_ends platform args source target

-- The id of an end, created when it is missing and that is wanted. Ids must exist already.
unfoldable pub end_id :
    Platform → String → Bool → Label → Label × Option ℕ → Db → Result AppError (ℕ × Db)
end_id platform namespace create_missing kind (name, some id) db = ok (id, db)
end_id platform namespace create_missing kind (name, none) db =
    elim (find_entity_id platform namespace name db) [
      | some id ↦ ok (id, db)
      | none ↦
          if create_missing
          then upsert_entity platform namespace
              (record { name = name; entity_type = kind; description = none }) db
          else err (not_found "entity_not_found")
    ]

-- Whether the edge is new, and the graph.
unfoldable pub write_link : Platform → String → LinkArgs → ℕ → ℕ → Db → Bool × Db
write_link platform namespace args source_id target_id db =
    let ((rel_id, was_created), db') =
      create_or_fetch_relationship platform namespace source_id target_id args.relation
        (weight_or_default args.weight) none db in
    if was_created
    then (true, recalculate_degree target_id (recalculate_degree source_id db'))
    else (false, db')

unfoldable pub link : Platform → String → LinkArgs → Db → Result AppError (Bool × Db)
unfolding check_link end_id write_link
link platform namespace args db =
    check_link platform namespace args db >>= λ (source, target, kind).
    end_id platform namespace args.create_missing kind source db >>= λ (source_id, db1).
    end_id platform namespace args.create_missing kind target db1 >>= λ (target_id, db2).
    ok (write_link platform namespace args source_id target_id db2)
