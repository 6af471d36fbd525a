-- ===== src/Errors.antt =====
-- src/errors.rs: the error type, its exit codes and its retry classes. The wrapped errors of other
-- crates (rusqlite, std::io, anyhow, serde_json) are texts, and of a rusqlite error also the code
-- that src/storage/utils.rs tests.
pub mod Classes
pub mod Examples
use sqlite_graphrag.Base.{ℕ, Bool, true, false, List, [], String, if◌then◌else◌}
use sqlite_graphrag.Retry.{AttemptOutcome, transient, hard_failure}

-- `rusqlite::ErrorCode`, as far as the program tells its values apart.
pub data ErrorCode : Type 0 where
  database_busy database_locked other_code : ErrorCode

-- `rusqlite::Error`: `SqliteFailure` with its code, or any other variant.
pub data SqlError : Type 0 where
  sqlite_failure : ErrorCode → String → SqlError
  other_sql_error : String → SqlError

pub data AppError : Type 0 where
  validation : String → AppError
  usage : (message : String) (discarded_flags : List String) → AppError
  binary_not_found : (name : String) → AppError
  rate_limited : (detail : String) → AppError
  timeout : (operation : String) (duration_secs : ℕ) → AppError
  duplicate conflict not_found : String → AppError
  memory_not_found : (name namespace : String) → AppError
  memory_not_found_by_id : (id : ℕ) → AppError
  entity_not_yet_materialized : (name namespace : String) → AppError
  namespace_error limit_exceeded : String → AppError
  body_too_large : (bytes limit : ℕ) → AppError
  too_many_chunks : (chunks limit : ℕ) → AppError
  too_many_tokens : (tokens limit : ℕ) → AppError
  database : SqlError → AppError
  embedding : String → AppError
  embedding_classified : (message : String) (retry_class : AttemptOutcome) → AppError
  vec_extension db_busy : String → AppError
  batch_partial_failure : (total failed : ℕ) → AppError
  io internal json lock_busy : String → AppError
  all_slots_full : (max_slots waited_secs : ℕ) → AppError
  job_singleton_locked : (job_type namespace : String) → AppError
  embedding_singleton_locked : (namespace : String) → AppError
  low_memory : (available_mb required_mb : ℕ) → AppError
  shutdown : (signal : String) → AppError
  provider_error : (code message : String) → AppError

unfoldable pub exit_code : AppError → ℕ
exit_code (validation _) = 1
exit_code (usage _ _) = 2
exit_code (binary_not_found _) = 1
exit_code (rate_limited _) = 1
exit_code (timeout _ _) = 1
exit_code (duplicate _) = 9
exit_code (conflict _) = 3
exit_code (not_found _) = 4
exit_code (memory_not_found _ _) = 4
exit_code (memory_not_found_by_id _) = 4
exit_code (entity_not_yet_materialized _ _) = 4
exit_code (namespace_error _) = 5
exit_code (limit_exceeded _) = 6
exit_code (body_too_large _ _) = 6
exit_code (too_many_chunks _ _) = 6
exit_code (too_many_tokens _ _) = 6
exit_code (database _) = 10
exit_code (embedding _) = 11
exit_code (embedding_classified _ _) = 11
exit_code (vec_extension _) = 12
exit_code (batch_partial_failure _ _) = 13
exit_code (db_busy _) = 15
exit_code (io _) = 14
exit_code (internal _) = 20
exit_code (json _) = 20
exit_code (lock_busy _) = 75
exit_code (all_slots_full _ _) = 75
exit_code (job_singleton_locked _ _) = 75
exit_code (embedding_singleton_locked _) = 75
exit_code (low_memory _ _) = 77
exit_code (shutdown _) = 19
exit_code (provider_error _ _) = 1

unfoldable pub discarded_flags : AppError → List String
discarded_flags (usage _ flags) = flags
discarded_flags _ = []

unfoldable pub is_retryable : AppError → Bool
is_retryable (db_busy _) = true
is_retryable (lock_busy _) = true
is_retryable (all_slots_full _ _) = true
is_retryable (job_singleton_locked _ _) = true
is_retryable (embedding_singleton_locked _) = true
is_retryable (low_memory _ _) = true
is_retryable (rate_limited _) = true
is_retryable (timeout _ _) = true
is_retryable (entity_not_yet_materialized _ _) = true
is_retryable _ = false

unfoldable pub is_shutdown : AppError → Bool
is_shutdown (shutdown _) = true
is_shutdown _ = false

unfoldable pub is_permanent : AppError → Bool
is_permanent (validation _) = true
is_permanent (usage _ _) = true
is_permanent (binary_not_found _) = true
is_permanent (duplicate _) = true
is_permanent (not_found _) = true
is_permanent (memory_not_found _ _) = true
is_permanent (memory_not_found_by_id _) = true
is_permanent (namespace_error _) = true
is_permanent (limit_exceeded _) = true
is_permanent (body_too_large _ _) = true
is_permanent (too_many_chunks _ _) = true
is_permanent (too_many_tokens _ _) = true
is_permanent (vec_extension _) = true
is_permanent (provider_error _ _) = true
is_permanent _ = false

unfoldable pub error_class : AppError → String
error_class e =
    if is_retryable e then "transient" else if is_permanent e then "permanent" else "ambiguous"

-- src/storage/utils.rs
is_busy_code : ErrorCode → Bool
is_busy_code database_busy = true
is_busy_code database_locked = true
is_busy_code other_code = false

unfoldable pub is_sqlite_busy : AppError → Bool
unfolding is_busy_code
is_sqlite_busy (database (sqlite_failure code _)) = is_busy_code code
is_sqlite_busy _ = false

-- src/commands/enrich/queue_ops.rs: what a failed item's error says of a retry.
unfoldable pub classify_enrich_outcome : AppError → AttemptOutcome
unfolding is_sqlite_busy
classify_enrich_outcome (rate_limited _) = transient
classify_enrich_outcome (timeout _ _) = transient
classify_enrich_outcome (db_busy _) = transient
classify_enrich_outcome (entity_not_yet_materialized _ _) = transient
classify_enrich_outcome (provider_error _ _) = hard_failure
classify_enrich_outcome (not_found _) = hard_failure
classify_enrich_outcome (memory_not_found _ _) = hard_failure
classify_enrich_outcome (memory_not_found_by_id _) = hard_failure
classify_enrich_outcome (database e) =
    if is_sqlite_busy (database e) then transient else hard_failure
classify_enrich_outcome (embedding_classified _ hard_failure) = hard_failure
classify_enrich_outcome (embedding_classified _ _) = transient
classify_enrich_outcome (embedding _) = transient
classify_enrich_outcome _ = hard_failure
