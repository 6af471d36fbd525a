-- ===== src/Queue/Sweep.antt =====
-- The sweeps over many rows of src/commands/enrich/: queue.rs, queue_ops.rs, status.rs and
-- run/queue_prep.rs.
use sqlite_graphrag.Base.{
  ℕ, suc, ◌+◌, String, Bool, true, false, not, ◌&&◌, ◌||◌, Option, none, some, List, [], ◌∷◌,
  str_eq, ltb, ◌==◌, filter, if◌then◌else◌,
}
use sqlite_graphrag.Queue.{
  Status, pending, done, Row, Queue, MainDb, ℤ, update, delete, count, is_operation,
  is_operation_or_null, is_scoped, is_pending, is_processing, is_skipped, is_dead, is_failed,
  is_skipped_or_done,
}
use sqlite_graphrag.Queue.Enqueue.{EnrichOperation, entity_descriptions, re_embed, strip_prefix}

-- A claim older than `max_age_secs`; a clock that went back gives a negative age.
unfoldable pub is_stale : ℕ → ℕ → Row → Bool
is_stale now max_age_secs row =
    is_processing row.status
    && elim row.claimed_at [ none ↦ false | some at ↦ ltb (at + max_age_secs) now ]

unfoldable pub unclaim : Row → Row
unclaim row = record row { status = pending; claimed_at = none }

unfoldable pub reset_stale_processing_claims : ℕ → ℕ → Queue → Queue × ℕ
reset_stale_processing_claims now max_age_secs queue =
    (update (is_stale now max_age_secs) unclaim queue, count (is_stale now max_age_secs) queue)

unfoldable pub reset_processing_for_op : String → String → Queue → Queue × ℕ
reset_processing_for_op operation namespace queue =
    let here : Row → Bool = λ row. is_processing row.status && is_scoped operation namespace row in
    (update here unclaim queue, count here queue)

unfoldable pub renew : Row → Row
renew row = record row {
  status = pending;
  attempt = 0;
  next_retry_at = none;
  error = none;
  error_class = none;
}

unfoldable pub reset_failed_for_op : String → String → Queue → Queue × ℕ
reset_failed_for_op operation namespace queue =
    let here : Row → Bool = λ row. is_failed row.status && is_scoped operation namespace row in
    (update here (λ row. record (renew row) { claimed_at = none }) queue, count here queue)

-- `--requeue-dead` and `--requeue-skipped`
unfoldable pub is_requeued : (Status → Bool) → String → String → Row → Bool
is_requeued is_status operation namespace row =
    is_status row.status && is_operation_or_null operation row && str_eq row.namespace namespace

unfoldable pub requeue_dead : String → String → Queue → Queue × ℕ
requeue_dead operation namespace queue = (
  update (is_requeued is_dead operation namespace) renew queue,
  count (is_requeued is_dead operation namespace) queue,
)

unfoldable pub requeue_skipped : String → String → Queue → Queue × ℕ
requeue_skipped operation namespace queue = (
  update (is_requeued is_skipped operation namespace) renew queue,
  count (is_requeued is_skipped operation namespace) queue,
)

unfoldable pub is_reopened : String → String → Row → Bool
is_reopened namespace key row =
    is_scoped "EntityDescriptions" namespace row
    && str_eq row.item_key key
    && is_skipped_or_done row.status

-- The count of rows saturates at the machine's word, which no table reaches.
unfoldable pub reopen_force_redescribe_candidates : String → List String → Queue → Queue × ℕ
reopen_force_redescribe_candidates namespace [] queue = (queue, 0)
reopen_force_redescribe_candidates namespace (key ∷ keys) queue =
    let n = count (is_reopened namespace key) queue in
    let (queue', total) = reopen_force_redescribe_candidates namespace keys (
      update (is_reopened namespace key)
        (λ row. record (renew row) { claimed_at = none; done_at = none }) queue) in
    (queue', n + total)

unfoldable pub is_dead_memory : String → String → Row → Bool
is_dead_memory operation namespace row =
    is_dead row.status
    && str_eq row.item_type "memory"
    && is_operation_or_null operation row
    && str_eq row.namespace namespace

unfoldable pub memory_exists : MainDb → String → String → Bool
memory_exists main namespace name = elim (main.memory_id namespace name) [
  | none ↦ false
  | some _ ↦ true
]

-- The loop over the dead rows read before it.
unfoldable pub prune_each : MainDb → String → List Row → Queue → Queue × ℕ
prune_each main namespace [] queue = (queue, 0)
prune_each main namespace (r ∷ rs) queue =
    let found = memory_exists main namespace r.item_key in
    let (queue', pruned) =
      prune_each main namespace rs
        (if found then queue else delete (λ row. row.id == r.id) queue) in
    (queue', if found then pruned else suc pruned)

unfoldable pub prune_dead_orphans : MainDb → String → String → Queue → Queue × ℕ
prune_dead_orphans main operation namespace queue =
    prune_each main namespace (filter (is_dead_memory operation namespace) queue.rows) queue

unfoldable pub is_dead_entity : String → String → Row → Bool
is_dead_entity operation namespace row =
    is_dead row.status
    && str_eq row.item_type "entity"
    && is_operation_or_null operation row
    && str_eq row.namespace namespace

unfoldable pub prune_dead_entity_orphans : String → String → Queue → Queue × ℕ
prune_dead_entity_orphans operation namespace queue = (
  delete (is_dead_entity operation namespace) queue,
  count (is_dead_entity operation namespace) queue,
)

-- The flags of a run that concern its queue.
pub record PrepareArgs : Type 0 where
  pub stale_claim_secs : ℕ
  pub resume : Bool
  pub retry_failed : Bool
  pub until_empty : Bool
  pub force_redescribe : Bool
  pub operation : EnrichOperation

abbrev pub is_entity_descriptions : EnrichOperation → Bool
is_entity_descriptions entity_descriptions = true
is_entity_descriptions _ = false

abbrev pub is_re_embed : EnrichOperation → Bool
is_re_embed re_embed = true
is_re_embed _ = false

module _ (parse : String → Option ℤ) (main : MainDb) where
  unfoldable pub is_satisfied : String → String → Bool
  is_satisfied namespace key = elim (strip_prefix key "entity:") [
    | some name ↦ elim (main.entity_id namespace name) [
      | none ↦ false
      | some id ↦ main.entity_has_live_embedding id
    ]
    | none ↦ elim (strip_prefix key "chunk:") [
      | some chunk_key ↦ elim (parse chunk_key) [
        | none ↦ false
        | some id ↦ main.chunk_has_live_embedding id
      ]
      | none ↦ elim (main.memory_id namespace key) [
        | none ↦ false
        | some id ↦ main.memory_has_live_embedding id
      ]
    ]
  ]

  unfoldable pub is_pending_reembed : String → Row → Bool
  is_pending_reembed namespace row = is_pending row.status && is_scoped "ReEmbed" namespace row

  unfoldable pub reconcile_row : ℕ → Row → Row
  reconcile_row now row = record row {
    status = done;
    done_at = some now;
    claimed_at = none;
    error = some "reconciled: live embedding already present";
  }

  -- The loop over the pending rows read before it.
  unfoldable pub reconcile_each : ℕ → String → List Row → Queue → Queue × ℕ
  reconcile_each now namespace [] queue = (queue, 0)
  reconcile_each now namespace (r ∷ rs) queue =
      let here : Row → Bool = λ row. row.id == r.id && is_pending row.status in
      let satisfied = is_satisfied namespace r.item_key in
      let (queue', reconciled) =
        reconcile_each now namespace rs
          (if satisfied then update here (reconcile_row now) queue else queue) in
      (queue', if satisfied then count here queue + reconciled else reconciled)

  unfoldable pub reconcile_satisfied_reembed_pending : ℕ → String → Queue → Queue × ℕ
  reconcile_satisfied_reembed_pending now namespace queue =
      reconcile_each now namespace (filter (is_pending_reembed namespace) queue.rows) queue

  unfoldable pub clear : String → String → Queue → Queue
  clear op_label namespace queue =
      delete
        (λ row.
          is_operation op_label row && (str_eq row.namespace namespace || str_eq row.namespace ""))
        queue

  unfoldable pub prepare_queue : ℕ → PrepareArgs → String → String → List String → Queue → Queue
  prepare_queue now args namespace op_label scan_keys queue =
      let swept = (reset_stale_processing_claims now args.stale_claim_secs queue).0 in
      let resumed =
        if args.resume then (reset_processing_for_op op_label namespace swept).0 else swept in
      let retried =
        if args.retry_failed then (reset_failed_for_op op_label namespace resumed).0 else resumed in
      let cleared =
        if not args.resume && not args.retry_failed && not args.until_empty
        then clear op_label namespace retried
        else retried in
      let reopened =
        if args.force_redescribe && is_entity_descriptions args.operation
        then (reopen_force_redescribe_candidates namespace scan_keys cleared).0
        else cleared in
      if is_re_embed args.operation
      then (reconcile_satisfied_reembed_pending now namespace reopened).0
      else reopened
