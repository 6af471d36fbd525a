-- ===== src/Storage.antt =====
-- src/storage/utils.rs: a database call under the busy-retry budget.
pub mod Busy
pub mod Examples
use sqlite_graphrag.Base.{
  ℕ, zero, suc, ◌+◌, ◌*◌, ◌/◌, ◌^◌, min, max, Bool, true, false, List, [], ◌∷◌, String, Result, ok,
  err, ◌==◌, if◌then◌else◌,
}
use sqlite_graphrag.Retry.{saturating_mul}
use sqlite_graphrag.Errors.{AppError, is_sqlite_busy}

-- src/constants/storage.rs
abbrev pub sqlite_busy_max_delay_ms : ℕ
sqlite_busy_max_delay_ms = 5000

unfoldable pub busy_base_ms : ℕ → ℕ → ℕ
busy_base_ms base_delay_ms attempt =
    min (saturating_mul base_delay_ms (2 ^ min attempt 63)) sqlite_busy_max_delay_ms

-- `draw n` is `fastrand::u64(0..n)`.
unfoldable pub busy_delay : (ℕ → ℕ) → ℕ → ℕ → ℕ
busy_delay draw base_delay_ms attempt =
    let half = busy_base_ms base_delay_ms attempt / 2 in half + (if half == 0 then 0 else draw half)

-- `answers n` is what the call answers when it is made for the n-th time, from 0; `kill_switch` is
-- the configuration's `retry.disable`, and `message` the text of the last error.
module _ {A : Type 0} (draw : ℕ → ℕ) (kill_switch : Bool) (message : ℕ → String)
    (answers : ℕ → Result AppError A) where
  -- The `for` loop with `left` rounds to go, and the sleeps in order.
  unfoldable pub busy_rounds : ℕ → ℕ → ℕ → ℕ → Result AppError A × List ℕ
  busy_rounds max_retries base_delay_ms zero attempt =
      (err (AppError.db_busy (message max_retries)), [])
  busy_rounds max_retries base_delay_ms (suc left) attempt = elim (answers attempt) [
    | ok v ↦ (ok v, [])
    | err e ↦ elim (is_sqlite_busy e) [
      | false ↦ (err e, [])
      | true ↦ elim kill_switch [
        | true ↦ (err e, [])
        | false ↦
            let (answer, sleeps) = busy_rounds max_retries base_delay_ms left (suc attempt) in
            (answer, busy_delay draw base_delay_ms attempt ∷ sleeps)
      ]
    ]
  ]

  unfoldable pub with_busy_retry_policy : ℕ → ℕ → Result AppError A × List ℕ
  with_busy_retry_policy max_retries base_delay_ms =
      busy_rounds (max max_retries 1) (max base_delay_ms 1) (max max_retries 1) 0
