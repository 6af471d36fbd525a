-- ===== src/Queue/Claim.antt =====
-- src/commands/enrich/queue_ops.rs: pending rows are claimed, and the claim is checked. Texts of
-- errors are those of the source.
pub mod Sorting
pub mod Order
pub mod Next
pub mod Check
pub mod Exclusive
pub mod Progress
pub mod Batch
use Prim.Native.String.{slice, find, ◌++◌ as text_append}
use sqlite_graphrag.Base.{
  ℕ, suc, ◌+◌, String, Bool, true, false, not, ◌&&◌, ◌||◌, Option, none, some, List, [], ◌∷◌, map,
  str_eq, starts_with, ltb, leb, ◌==◌, filter, if◌then◌else◌, take, zero,
}
use sqlite_graphrag.Queue.{
  Status, pending, processing, Row, Queue, update, count, is_scoped, is_pending,
}

-- `--ignore-backoff`, or `next_retry_at IS NULL OR next_retry_at <= datetime('now')`
pub data Backoff : Type 0 where
  ignored respected : Backoff

unfoldable pub is_ready : Backoff → ℕ → Option ℕ → Bool
is_ready ignored now next_retry_at = true
is_ready respected now none = true
is_ready respected now (some at) = leb at now

unfoldable pub is_eligible : String → String → Backoff → ℕ → Row → Bool
is_eligible operation namespace backoff now row =
    is_pending row.status
    && is_scoped operation namespace row
    && is_ready backoff now row.next_retry_at

-- `ORDER BY priority DESC, id ASC`
unfoldable pub precedes : Row → Row → Bool
precedes r s = ltb s.priority r.priority || (r.priority == s.priority && leb r.id s.id)

unfoldable pub place : Row → List Row → List Row
place r [] = r ∷ []
place r (s ∷ ss) = let rest = place r ss in if precedes r s then r ∷ s ∷ ss else s ∷ rest

unfoldable pub in_order : List Row → List Row
in_order [] = []
in_order (r ∷ rs) = place r (in_order rs)

unfoldable pub has_id : ℕ → List Row → Bool
has_id id [] = false
has_id id (r ∷ rs) = let rest = has_id id rs in id == r.id || rest

pub record ClaimedRow : Type 0 where
  pub id : ℕ
  pub item_key : String
  pub item_type : String
  pub operation : String
  pub attempt : ℕ

-- The `RETURNING` clause.
unfoldable pub returning : Row → ClaimedRow
returning row = record {
  id = row.id;
  item_key = row.item_key;
  item_type = row.item_type;
  operation = elim row.operation [ none ↦ "" | some o ↦ o ];
  attempt = row.attempt;
}

unfoldable pub start : ℕ → Row → Row
start now row = record row { status = processing; attempt = suc row.attempt; claimed_at = some now }

-- The subquery: the rows to claim, at most `limit`.
unfoldable pub chosen : String → String → Backoff → ℕ → ℕ → Queue → List Row
chosen operation namespace backoff limit now queue =
    take limit (in_order (filter (is_eligible operation namespace backoff now) queue.rows))

-- The rows that the statement returns come in the table's order: SQLite promises none, and no
-- theorem depends on it.
unfoldable pub claim : ℕ → List Row → Queue → Queue × List ClaimedRow
claim now picked queue =
    let is_picked : Row → Bool = λ row. has_id row.id picked in
    (
      update is_picked (start now) queue,
      map (λ row. returning (start now row)) (filter is_picked queue.rows),
    )

unfoldable pub dequeue_batch_pending :
    String → String → Backoff → ℕ → ℕ → Queue → Queue × List ClaimedRow
dequeue_batch_pending operation namespace backoff limit now queue =
    if limit == 0
    then (queue, [])
    else claim now (chosen operation namespace backoff limit now queue) queue

pub data DequeueOutcome : Type 0 where
  claimed : ClaimedRow → DequeueOutcome
  empty : DequeueOutcome

-- `query_row` takes the first row that the statement returns.
abbrev pub first_row : List ClaimedRow → DequeueOutcome
first_row [] = empty
first_row (row ∷ rows) = claimed row

unfoldable pub dequeue_next_pending : String → String → Backoff → ℕ → Queue → Queue × DequeueOutcome
dequeue_next_pending operation namespace backoff now queue =
    let (queue', rows) = claim now (chosen operation namespace backoff 1 now queue) queue in
    (queue', first_row rows)

unfoldable pub count_eligible_pending : String → String → Backoff → ℕ → Queue → ℕ
count_eligible_pending operation namespace backoff now queue =
    count (is_eligible operation namespace backoff now) queue

-- queue.rs
unfoldable pub count_priority_pending : String → String → ℕ → Queue → ℕ
count_priority_pending operation namespace min_priority queue =
    count
      (λ row.
        is_pending row.status && is_scoped operation namespace row && leb min_priority row.priority)
      queue

unfoldable pub is_non_memory_key_shape : String → Bool
is_non_memory_key_shape item_key =
    starts_with item_key "pair:" || starts_with item_key "entity:" || starts_with item_key "chunk:"

pub data ClaimCheck : Type 0 where
  accepted requeue_wrong_op : ClaimCheck
  skip_wrong_type : String → ClaimCheck

unfoldable pub wrong_key_shape : String → String → ClaimCheck
wrong_key_shape current_op item_key = skip_wrong_type (
    text_append "wrong_key_shape_for_operation:" (
      text_append current_op
        (text_append ": key looks like " (slice item_key 0 (find item_key ":")))))

unfoldable pub wrong_item_type : String → String → ClaimCheck
wrong_item_type current_op item_type = skip_wrong_type (
    text_append "wrong_item_type_for_operation:"
      (text_append current_op (text_append ": got item_type=" item_type)))

unfoldable pub validate_claim : ClaimedRow → String → String → ClaimCheck
validate_claim row current_op expected_item_type =
    if not (str_eq row.operation current_op)
    then requeue_wrong_op
    else if str_eq current_op "ReEmbed"
    then accepted
    else if str_eq expected_item_type "memory" && is_non_memory_key_shape row.item_key
    then wrong_key_shape current_op row.item_key
    else if str_eq expected_item_type "memory" && not (str_eq row.item_type "memory")
    then wrong_item_type current_op row.item_type
    else if str_eq expected_item_type "entity"
        && not (str_eq row.item_type "entity")
        && not (starts_with row.item_key "entity:")
        && (str_eq row.item_type "entity_pair" || is_non_memory_key_shape row.item_key)
    then wrong_item_type current_op row.item_type
    else if str_eq expected_item_type "entity_pair"
        && not (str_eq row.item_type "entity_pair")
        && not (starts_with row.item_key "pair:")
    then wrong_item_type current_op row.item_type
    else accepted
