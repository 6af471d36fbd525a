-- ===== src/Queue/Actions.antt =====
-- The operations on the queue of src/commands/enrich/ as data, so that a history of the queue is a
-- list: each entry is an instant and what some process does then.
use sqlite_graphrag.Base.{ℕ, String, Bool, true, false, Option, List, [], ◌∷◌}
use sqlite_graphrag.Retry.{AttemptOutcome}
use sqlite_graphrag.Queue.{Queue, MainDb, ℤ}
use sqlite_graphrag.Queue.Enqueue.{
  enqueue_candidate, enqueue_candidate_with_priority, cleanup_queue_entry,
}
use sqlite_graphrag.Queue.Claim.{Backoff, dequeue_next_pending, dequeue_batch_pending}
use sqlite_graphrag.Queue.Finish.{
  Diagnostics, Accounting, record_item_failure_typed, requeue_wrong_op, skip_wrong_type, mark_done,
  mark_skipped, requeue_rate_limited, heartbeat,
}
use sqlite_graphrag.Queue.Sweep.{
  reset_stale_processing_claims, reset_processing_for_op, reset_failed_for_op, requeue_dead,
  requeue_skipped, reopen_force_redescribe_candidates, prune_dead_orphans,
  prune_dead_entity_orphans, reconcile_satisfied_reembed_pending, clear,
}

pub data Action : Type 0 where
  enqueue : (namespace key item_type operation : String) → Action
  enqueue_hot : (key item_type operation : String) (priority : ℕ) → Action
  sweep_stale : (max_age_secs : ℕ) → Action
  beat : (queue_id : ℕ) → Action
  claim_next : (operation namespace : String) (backoff : Backoff) → Action
  claim_batch : (operation namespace : String) (backoff : Backoff) (limit : ℕ) → Action
  reset_processing reset_failed : (operation namespace : String) → Action
  reopen_keys : (namespace : String) (keys : List String) → Action
  reconcile : (namespace : String) → Action
  fail :
      (queue_id attempt max_attempts : ℕ) (outcome : AttemptOutcome) (seen : Diagnostics) → Action
  wrong_op : (queue_id : ℕ) → Action
  wrong_type skip : (queue_id : ℕ) (reason : String) → Action
  finish : (queue_id : ℕ) (accounting : Accounting) → Action
  rate_limited : (queue_id : ℕ) → Action
  requeue_all_dead requeue_all_skipped : (operation namespace : String) → Action
  prune_memories prune_entities : (operation namespace : String) → Action
  clean : (memory_id : ℕ) (name : String) → Action
  clear_op : (operation namespace : String) → Action

-- The ways in, the claims, the heartbeat and the sweeps that a run makes by itself.
unfoldable pub is_background : Action → Bool
is_background (enqueue _ _ _ _) = true
is_background (enqueue_hot _ _ _ _) = true
is_background (sweep_stale _) = true
is_background (beat _) = true
is_background (claim_next _ _ _) = true
is_background (claim_batch _ _ _ _) = true
is_background (reset_processing _ _) = true
is_background (reset_failed _ _) = true
is_background (reopen_keys _ _) = true
is_background (reconcile _) = true
is_background _ = false

module _ (parse : String → Option ℤ) (main : MainDb) (draw : ℕ → ℕ) where
  unfoldable pub exec : ℕ → Action → Queue → Queue
  exec now (enqueue namespace key item_type operation) queue =
      enqueue_candidate parse now main namespace key item_type operation queue
  exec now (enqueue_hot key item_type operation priority) queue =
      enqueue_candidate_with_priority now key item_type operation priority queue
  exec now (sweep_stale max_age_secs) queue =
      (reset_stale_processing_claims now max_age_secs queue).0
  exec now (beat queue_id) queue = heartbeat now queue_id queue
  exec now (claim_next operation namespace backoff) queue =
      (dequeue_next_pending operation namespace backoff now queue).0
  exec now (claim_batch operation namespace backoff limit) queue =
      (dequeue_batch_pending operation namespace backoff limit now queue).0
  exec now (reset_processing operation namespace) queue =
      (reset_processing_for_op operation namespace queue).0
  exec now (reset_failed operation namespace) queue =
      (reset_failed_for_op operation namespace queue).0
  exec now (reopen_keys namespace keys) queue =
      (reopen_force_redescribe_candidates namespace keys queue).0
  exec now (reconcile namespace) queue =
      (reconcile_satisfied_reembed_pending parse main now namespace queue).0
  exec now (fail queue_id attempt max_attempts outcome seen) queue =
      (record_item_failure_typed draw now queue_id attempt max_attempts outcome seen queue).0
  exec now (wrong_op queue_id) queue = requeue_wrong_op queue_id queue
  exec now (wrong_type queue_id reason) queue = skip_wrong_type now queue_id reason queue
  exec now (skip queue_id reason) queue = mark_skipped now queue_id reason queue
  exec now (finish queue_id accounting) queue = mark_done now queue_id accounting queue
  exec now (rate_limited queue_id) queue = requeue_rate_limited queue_id queue
  exec now (requeue_all_dead operation namespace) queue = (requeue_dead operation namespace queue).0
  exec now (requeue_all_skipped operation namespace) queue =
      (requeue_skipped operation namespace queue).0
  exec now (prune_memories operation namespace) queue =
      (prune_dead_orphans main operation namespace queue).0
  exec now (prune_entities operation namespace) queue =
      (prune_dead_entity_orphans operation namespace queue).0
  exec now (clean memory_id name) queue = cleanup_queue_entry memory_id name queue
  exec now (clear_op operation namespace) queue = clear parse main operation namespace queue

-- An event: the time, the main database as it is then, and what happens.
abbrev pub Event : Type 0
Event = ℕ × MainDb × Action

module _ (parse : String → Option ℤ) (draw : ℕ → ℕ) where
  unfoldable pub history : List Event → Queue → Queue
  history [] queue = queue
  history ((now, main, a) ∷ rest) queue = history rest (exec parse main draw now a queue)
