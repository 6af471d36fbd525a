-- ===== src/Queue.antt =====
-- src/commands/enrich/queue.rs and queue_ops.rs: the enrichment queue, the SQLite table `queue`
-- as a list of rows in the order of their ids, and the SQL statements' common parts. A statement is
-- atomic and succeeds; times are in seconds; the integer columns, never negative, are natural
-- numbers.
pub mod Enqueue
pub mod Claim
pub mod Finish
pub mod Sweep
pub mod WellFormed
pub mod Loops
pub mod Actions
pub mod Statements
pub mod Traces
pub mod Backoff
pub mod Veto
pub mod Hot
pub mod Isolation
pub mod Runs
pub mod Examples
pub mod RunExamples
use sqlite_graphrag.Base.{
  ℕ, suc, ◌+◌, String, Bool, true, false, ◌&&◌, ◌||◌, Option, none, some, List, [], ◌∷◌, ◌++◌, map,
  str_eq, ◌==◌, leb, filter, length, if◌then◌else◌,
}

pub data Status : Type 0 where
  pending processing done skipped dead failed : Status

pub record Row : Type 0 where
  pub id : ℕ
  pub namespace : String
  pub item_key : String
  pub item_type : String
  pub status : Status
  pub memory_id : Option ℕ
  pub entity_id : Option ℕ
  pub entities : ℕ
  pub rels : ℕ
  pub error : Option String
  pub cost_usd : ℕ
  pub attempt : ℕ
  pub elapsed_ms : Option ℕ
  pub created_at : ℕ
  pub done_at : Option ℕ
  pub error_class : Option String
  pub next_retry_at : Option ℕ
  pub operation : Option String
  pub finish_reason : Option String
  pub input_tokens : Option ℕ
  pub output_tokens : Option ℕ
  pub claimed_at : Option ℕ
  pub priority : ℕ

-- `last_id` is what AUTOINCREMENT keeps: the greatest id ever given.
pub record Queue : Type 0 where
  pub rows : List Row
  pub last_id : ℕ

-- What the statements test.
abbrev pub is_pending : Status → Bool
is_pending pending = true
is_pending _ = false

abbrev pub is_processing : Status → Bool
is_processing processing = true
is_processing _ = false

abbrev pub is_skipped : Status → Bool
is_skipped skipped = true
is_skipped _ = false

abbrev pub is_dead : Status → Bool
is_dead dead = true
is_dead _ = false

abbrev pub is_failed : Status → Bool
is_failed failed = true
is_failed _ = false

abbrev pub is_skipped_or_done : Status → Bool
is_skipped_or_done skipped = true
is_skipped_or_done done = true
is_skipped_or_done _ = false

-- `operation = ?`, which NULL never satisfies, and `operation = ? OR operation IS NULL`
abbrev pub is_operation : String → Row → Bool
is_operation operation row = elim row.operation [ none ↦ false | some o ↦ str_eq o operation ]

abbrev pub is_operation_or_null : String → Row → Bool
is_operation_or_null operation row = elim row.operation [
  | none ↦ true
  | some o ↦ str_eq o operation
]

-- `operation = ? AND namespace = ?`
abbrev pub is_scoped : String → String → Row → Bool
is_scoped operation namespace row = is_operation operation row && str_eq row.namespace namespace

-- `UPDATE queue SET … WHERE …`, `DELETE FROM queue WHERE …`, and the number of rows they touch.
unfoldable pub update_row : (Row → Bool) → (Row → Row) → Row → Row
update_row cond change row = if cond row then change row else row

unfoldable pub update : (Row → Bool) → (Row → Row) → Queue → Queue
update cond change queue = record queue { rows = map (update_row cond change) queue.rows }

unfoldable pub delete : (Row → Bool) → Queue → Queue
delete cond queue = record queue {
  rows = filter (λ row. if cond row then false else true) queue.rows;
}

unfoldable pub count : (Row → Bool) → Queue → ℕ
count cond queue = length (filter cond queue.rows)

-- UNIQUE (namespace, operation, item_key): two NULLs are not equal.
unfoldable pub same_key : Row → Row → Bool
same_key r s =
    str_eq r.namespace s.namespace
    && elim r.operation [ none ↦ false | some o ↦ is_operation o s ]
    && str_eq r.item_key s.item_key

unfoldable pub conflicts : Row → List Row → Bool
conflicts row [] = false
conflicts row (r ∷ rs) = let rest = conflicts row rs in same_key row r || rest

-- `INSERT OR IGNORE`: a row whose key is there already is not inserted, but AUTOINCREMENT's counter
-- advances.
unfoldable pub insert_or_ignore : Row → Queue → Queue
insert_or_ignore row queue =
    if conflicts row queue.rows then record queue { last_id = suc queue.last_id } else record {
      rows = queue.rows ++ (record row { id = suc queue.last_id } ∷ []);
      last_id = suc queue.last_id;
    }

-- What a statement asks the main database; its tables are not modelled.
pub data ℤ : Type 0 where
  pos : ℕ → ℤ
  negsuc : ℕ → ℤ

pub record MainDb : Type 0 where
  -- the id of the live memory of this namespace and name
  pub memory_id : String → String → Option ℕ
  pub entity_id : String → String → Option ℕ
  -- whether the chunk belongs to a live memory of the namespace
  pub has_chunk : ℤ → String → Bool
  -- whether a vector of the active dimension is stored
  pub memory_has_live_embedding : ℕ → Bool
  pub entity_has_live_embedding : ℕ → Bool
  pub chunk_has_live_embedding : ℤ → Bool
