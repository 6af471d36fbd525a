-- ===== src/Storage/Examples.antt =====
-- The busy retry of src/storage/utils.rs on a database that is busy twice.
use sqlite_graphrag.Base.{
  ℕ, zero, suc, ◌-◌, ◌<◌, max, ◌≡◌, ◌⊎◌, false, List, String, Result, ok, err, arith, length, All,
}
use sqlite_graphrag.Retry.Delay.{Draws}
use sqlite_graphrag.Errors.{AppError, SqlError, database_busy}
use sqlite_graphrag.Storage.{with_busy_retry_policy, sqlite_busy_max_delay_ms}
use sqlite_graphrag.Storage.Busy.{IsBusy, with_busy_retry_policy_lem}

abbrev answers : ℕ → Result AppError ℕ
answers zero = err (AppError.database (SqlError.sqlite_failure database_busy "busy"))
answers (suc zero) = err (AppError.database (SqlError.sqlite_failure database_busy "busy"))
answers (suc (suc n)) = ok 7

abbrev last_draw : ℕ → ℕ
last_draw n = n - 1

last_draw-Draws : Draws last_draw
last_draw-Draws n h = omega (arith, h)

abbrev exhausted : ℕ → String
exhausted n = "exhausted"

abbrev retried : Result AppError ℕ × List ℕ
retried = with_busy_retry_policy last_draw false exhausted answers 5 300

with_busy_retry_policy_example :
    ((stop : ℕ) × ((i : ℕ) → i < stop → IsBusy last_draw exhausted answers i)
      × (length retried.1 ≡ stop)
      × ((stop < max 5 1) × ¬ IsBusy last_draw exhausted answers stop × (retried.0 ≡ answers stop)
          ⊎ (stop ≡ max 5 1) × (retried.0 ≡ err (AppError.db_busy (exhausted (max 5 1))))))
    × All (λ t. t < sqlite_busy_max_delay_ms) retried.1
with_busy_retry_policy_example =
    with_busy_retry_policy_lem last_draw exhausted answers last_draw-Draws 5 300
