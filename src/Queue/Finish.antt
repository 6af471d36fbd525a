-- ===== src/Queue/Finish.antt =====
-- src/commands/enrich/queue_ops.rs: how a claimed row ends. A worker names its row by the id alone.
use sqlite_graphrag.Base.{
  ℕ, ◌+◌, ◌-◌, ◌/◌, max, String, Bool, true, Option, none, some, ltb, leb, ◌==◌, if◌then◌else◌,
}
use sqlite_graphrag.Retry.{
  AttemptOutcome, transient, hard_failure, success, compute_delay, llm_rate_limit,
}
use sqlite_graphrag.Errors.{AppError, classify_enrich_outcome}
use sqlite_graphrag.Queue.{pending, done, skipped, dead, Row, Queue, update}

unfoldable pub update_id : ℕ → (Row → Row) → Queue → Queue
update_id queue_id change queue = update (λ row. row.id == queue_id) change queue

unfoldable pub error_class_of : AttemptOutcome → String
error_class_of transient = "transient"
error_class_of hard_failure = "permanent"
error_class_of success = "success"

unfoldable pub is_terminal : ℕ → ℕ → AttemptOutcome → Bool
is_terminal attempt max_attempts hard_failure = true
is_terminal attempt max_attempts _ = leb max_attempts attempt

-- What a failed call told of itself.
pub record Diagnostics : Type 0 where
  pub err_str : String
  pub finish_reason : Option String
  pub input_tokens : Option ℕ
  pub output_tokens : Option ℕ

unfoldable pub note_failure : AttemptOutcome → Diagnostics → Row → Row
note_failure outcome seen row = record row {
  error = some seen.err_str;
  error_class = some (error_class_of outcome);
  finish_reason = seen.finish_reason;
  input_tokens = seen.input_tokens;
  output_tokens = seen.output_tokens;
}

-- Whole seconds of the delay, at least one; `draw` is the random generator.
unfoldable pub delay_secs : (ℕ → ℕ) → ℕ → ℕ
delay_secs draw attempt = max (compute_delay draw llm_rate_limit attempt / 1000) 1

unfoldable pub record_item_failure_typed :
    (ℕ → ℕ) → ℕ → ℕ → ℕ → ℕ → AttemptOutcome → Diagnostics → Queue → Queue × AttemptOutcome
record_item_failure_typed draw now queue_id attempt max_attempts outcome seen queue =
    if is_terminal attempt max_attempts outcome
    then (
      update_id queue_id
          (λ row. record (note_failure outcome seen row) { status = dead; done_at = some now })
          queue,
      outcome,
    )
    else (
      update_id queue_id
          (λ row. record (note_failure outcome seen row) {
            status = pending;
            next_retry_at = some (now + delay_secs draw attempt);
          })
          queue,
      outcome,
    )

-- `display` prints an error.
unfoldable pub record_item_failure :
    (AppError → String) → (ℕ → ℕ) → ℕ → ℕ → ℕ → ℕ → AppError → Queue → Queue × AttemptOutcome
record_item_failure display draw now queue_id attempt max_attempts e queue =
    record_item_failure_typed draw now queue_id attempt max_attempts (classify_enrich_outcome e)
      (record {
        err_str = display e;
        finish_reason = none;
        input_tokens = none;
        output_tokens = none;
      })
      queue

unfoldable pub requeue_wrong_op : ℕ → Queue → Queue
requeue_wrong_op queue_id queue =
    update_id queue_id
      (λ row. record row {
        status = pending;
        attempt = if ltb 0 row.attempt then row.attempt - 1 else 0;
        claimed_at = none;
        error = none;
        error_class = none;
      })
      queue

unfoldable pub skip_wrong_type : ℕ → ℕ → String → Queue → Queue
skip_wrong_type now queue_id reason queue =
    update_id queue_id
      (λ row. record row {
        status = skipped;
        error = some reason;
        done_at = some now;
        claimed_at = none;
      })
      queue

-- What a handler reports of a finished item.
pub record Accounting : Type 0 where
  pub memory_id : Option ℕ
  pub entity_id : Option ℕ
  pub entities : ℕ
  pub rels : ℕ
  pub cost_usd : ℕ
  pub elapsed_ms : ℕ

unfoldable pub mark_done : ℕ → ℕ → Accounting → Queue → Queue
mark_done now queue_id a queue =
    update_id queue_id
      (λ row. record row {
        status = done;
        memory_id = a.memory_id;
        entity_id = a.entity_id;
        entities = a.entities;
        rels = a.rels;
        cost_usd = a.cost_usd;
        elapsed_ms = some a.elapsed_ms;
        done_at = some now;
      })
      queue

unfoldable pub mark_skipped : ℕ → ℕ → String → Queue → Queue
mark_skipped now queue_id reason queue =
    update_id queue_id
      (λ row. record row { status = skipped; error = some reason; done_at = some now }) queue

unfoldable pub requeue_rate_limited : ℕ → Queue → Queue
requeue_rate_limited queue_id queue =
    update_id queue_id (λ row. record row { status = pending }) queue

-- queue.rs
unfoldable pub heartbeat : ℕ → ℕ → Queue → Queue
heartbeat now queue_id queue =
    update_id queue_id (λ row. record row { claimed_at = some now }) queue
