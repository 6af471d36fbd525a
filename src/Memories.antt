-- ===== src/Memories.antt =====
-- src/storage/memories/rows.rs, crud.rs, soft_delete.rs, src/memory_source.rs and
-- src/commands/forget.rs: the table `memories`, a list of rows in the order of their ids. Times are
-- in seconds, as unixepoch() gives them; `metadata` is the printed JSON. The columns' CHECKs hold.
pub mod Rows
pub mod Forget
pub mod Update
pub mod Examples
use sqlite_graphrag.Base.{
  ℕ, suc, String, Bool, true, false, not, ◌&&◌, ◌||◌, Option, none, some, List, [], ◌∷◌, ◌++◌, map,
  str_eq, ltb, ◌==◌, filter, length, if◌then◌else◌, Result, ok, err,
}
use sqlite_graphrag.Errors.{AppError, validation, not_found, database, sqlite_failure, other_code}
use sqlite_graphrag.Knowledge.{first, exists, set_where}

pub record NewMemory : Type 0 where
  pub namespace : String
  pub name : String
  pub memory_type : String
  pub description : String
  pub body : String
  pub body_hash : String
  pub session_id : Option String
  pub source : String
  pub metadata : String

pub record MemoryRow : Type 0 where
  pub id : ℕ
  pub namespace : String
  pub name : String
  pub memory_type : String
  pub description : String
  pub body : String
  pub body_hash : String
  pub session_id : Option String
  pub source : String
  pub metadata : String
  pub created_at : ℕ
  pub updated_at : ℕ
  pub deleted_at : Option ℕ

pub record Memories : Type 0 where
  pub rows : List MemoryRow
  pub last_id : ℕ

abbrev pub is_live : MemoryRow → Bool
is_live row = elim row.deleted_at [ none ↦ true | some t ↦ false ]

abbrev pub is_named : String → String → MemoryRow → Bool
is_named namespace name row = str_eq row.namespace namespace && str_eq row.name name

abbrev pub is_live_named : String → String → MemoryRow → Bool
is_live_named namespace name row = is_named namespace name row && is_live row

unfoldable pub validate_source : String → Result AppError String
validate_source raw =
    if str_eq raw "agent"
      || str_eq raw "user"
      || str_eq raw "system"
      || str_eq raw "import"
      || str_eq raw "sync"
    then ok raw
    else err (validation "invalid_memory_source")

-- `UPDATE memories SET … WHERE …`, and its trigger trg_memories_updated_at.
unfoldable pub update_rows : ℕ → (MemoryRow → Bool) → (MemoryRow → MemoryRow) → Memories → Memories
update_rows now cond change table = record table {
  rows = set_where cond (λ row. record (change row) { updated_at = now }) table.rows;
}

abbrev pub affected : (MemoryRow → Bool) → Memories → ℕ
affected cond table = length (filter cond table.rows)

unfoldable pub read_by_name : String → String → Memories → Option MemoryRow
read_by_name namespace name table = first (is_live_named namespace name) table.rows

unfoldable pub read_full : ℕ → Memories → Option MemoryRow
read_full memory_id table = first (λ row. row.id == memory_id && is_live row) table.rows

abbrev pub id_of_row : Option MemoryRow → Option ℕ
id_of_row none = none
id_of_row (some row) = some row.id

unfoldable pub find_by_hash : String → String → Memories → Option ℕ
find_by_hash namespace body_hash table = id_of_row (
    first (λ row. str_eq row.namespace namespace && str_eq row.body_hash body_hash && is_live row)
      table.rows)

-- The id, and whether the row is deleted.
unfoldable pub find_by_name_any_state : String → String → Memories → Option (ℕ × Bool)
find_by_name_any_state namespace name table = elim (first (is_named namespace name) table.rows) [
  | none ↦ none
  | some row ↦ some (row.id, not (is_live row))
]

-- A name is unique in its namespace, deleted rows included.
unfoldable pub insert : ℕ → NewMemory → Memories → Result AppError (ℕ × Memories)
unfolding validate_source
insert now m table = elim (validate_source m.source) [
  | err e ↦ err e
  | ok source ↦
      if exists (is_named m.namespace m.name) table.rows
      then err (database (sqlite_failure other_code "UNIQUE constraint failed"))
      else ok (
        suc table.last_id,
        record {
          rows =
              table.rows
              ++ (record {
                id = suc table.last_id;
                namespace = m.namespace;
                name = m.name;
                memory_type = m.memory_type;
                description = m.description;
                body = m.body;
                body_hash = m.body_hash;
                session_id = m.session_id;
                source = source;
                metadata = m.metadata;
                created_at = now;
                updated_at = now;
                deleted_at = none;
              }
                  ∷ []);
          last_id = suc table.last_id;
        },
      )
]

-- The WHERE of the two statements of `update`.
abbrev pub is_current : ℕ → Option ℕ → MemoryRow → Bool
is_current id none row = row.id == id && is_live row
is_current id (some ts) row = row.id == id && row.updated_at == ts && is_live row

unfoldable pub overwrite : NewMemory → String → MemoryRow → MemoryRow
overwrite m source row = record row {
  memory_type = m.memory_type;
  description = m.description;
  body = m.body;
  body_hash = m.body_hash;
  session_id = m.session_id;
  source = source;
  metadata = m.metadata;
}

-- Whether exactly one row was there to update.
unfoldable pub update : ℕ → ℕ → NewMemory → Option ℕ → Memories → Result AppError (Bool × Memories)
unfolding validate_source update_rows overwrite
update now id m expected_updated_at table = elim (validate_source m.source) [
  | err e ↦ err e
  | ok source ↦ ok (
    affected (is_current id expected_updated_at) table == 1,
    update_rows now (is_current id expected_updated_at) (overwrite m source) table,
  )
]

unfoldable pub clear_deleted_at : ℕ → ℕ → Memories → Memories
unfolding update_rows
clear_deleted_at now memory_id table =
    update_rows now (λ row. row.id == memory_id) (λ row. record row { deleted_at = none }) table

unfoldable pub soft_delete : ℕ → String → String → Memories → Bool × Memories
unfolding update_rows
soft_delete now namespace name table = (
  affected (is_live_named namespace name) table == 1,
  update_rows now (is_live_named namespace name) (λ row. record row { deleted_at = some now })
      table,
)

abbrev pub is_deleted_before : String → ℕ → MemoryRow → Bool
is_deleted_before namespace before_ts row =
    str_eq row.namespace namespace
    && elim row.deleted_at [ none ↦ false | some t ↦ ltb t before_ts ]

unfoldable pub list_deleted_before : String → ℕ → Memories → List ℕ
list_deleted_before namespace before_ts table =
    map (λ row. row.id) (filter (is_deleted_before namespace before_ts) table.rows)

-- What `forget` reports, with the time of deletion it read.
pub data ForgetAction : Type 0 where
  already_deleted soft_deleted : Option ℕ → ForgetAction

unfoldable pub deleted_at_of : ℕ → Memories → Option ℕ
deleted_at_of id table = elim (first (λ row. row.id == id) table.rows) [
  | none ↦ none
  | some row ↦ row.deleted_at
]

unfoldable pub forget : ℕ → String → String → Memories → Result AppError (ForgetAction × Memories)
unfolding soft_delete deleted_at_of
forget now namespace name table = elim (first (is_named namespace name) table.rows) [
  | none ↦ err (not_found "memory_not_found")
  | some row ↦ elim row.deleted_at [
    | some existing ↦ ok (already_deleted (some existing), table)
    | none ↦
        let (done, table') = soft_delete now namespace name table in
        ok (
          if done
              then soft_deleted (deleted_at_of row.id table')
              else already_deleted (deleted_at_of row.id table'),
          table',
        )
  ]
]
