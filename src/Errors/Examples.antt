-- ===== src/Errors/Examples.antt =====
-- src/errors.rs at concrete errors.
use sqlite_graphrag.Base.{◌≡◌, ◌↔◌, ◌⊎◌, true}
use sqlite_graphrag.Retry.{hard_failure}
use sqlite_graphrag.Errors.{
  AppError, exit_code, is_retryable, is_permanent, error_class, classify_enrich_outcome,
}
use sqlite_graphrag.Errors.Classes.{error_class_iff, classify_coherent}

error_class_iff_example :
    ((error_class (AppError.db_busy "locked") ≡ "transient")
      ↔ (is_retryable (AppError.db_busy "locked") ≡ true))
    × ((error_class (AppError.db_busy "locked") ≡ "permanent")
        ↔ (is_permanent (AppError.db_busy "locked") ≡ true))
    × ¬ (
        (is_retryable (AppError.db_busy "locked") ≡ true)
        × (is_permanent (AppError.db_busy "locked") ≡ true))
error_class_iff_example = error_class_iff (AppError.db_busy "locked")

classify_coherent_example :
    (is_permanent (AppError.lock_busy "held") ≡ true
      → classify_enrich_outcome (AppError.lock_busy "held") ≡ hard_failure)
    × (is_retryable (AppError.lock_busy "held") ≡ true
        → classify_enrich_outcome (AppError.lock_busy "held") ≡ hard_failure
        → (exit_code (AppError.lock_busy "held") ≡ 75)
          ⊎ (exit_code (AppError.lock_busy "held") ≡ 77))
classify_coherent_example = classify_coherent (AppError.lock_busy "held")
