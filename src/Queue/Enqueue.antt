-- ===== src/Queue/Enqueue.antt =====
-- src/commands/enrich/queue.rs: candidates enter the queue. `parse` is `str::parse::<i64>`, and
-- `now` the clock.
use Prim.Native.String.{slice, len}
use sqlite_graphrag.Base.{
  ℕ, zero, suc, max, String, Bool, true, false, ◌&&◌, ◌||◌, Option, none, some, List, [], ◌∷◌, ◌++◌,
  map, str_eq, starts_with, ltb, ◌==◌, filter, if◌then◌else◌, take, drop, length,
}
use sqlite_graphrag.Queue.{
  Status, pending, done, skipped, dead, Row, Queue, MainDb, ℤ, update, delete, insert_or_ignore,
  is_operation_or_null, is_skipped,
}

pub data EnrichOperation : Type 0 where
  memory_bindings augment_bindings entity_descriptions body_enrich re_embed : EnrichOperation
  weight_calibrate relation_reclassify entity_connect entity_type_validate : EnrichOperation
  description_enrich cross_domain_bridges domain_classify graph_audit : EnrichOperation
  deep_research_synth body_extract : EnrichOperation

unfoldable pub item_type_for : EnrichOperation → String
item_type_for entity_descriptions = "entity"
item_type_for entity_type_validate = "entity"
item_type_for entity_connect = "entity_pair"
item_type_for cross_domain_bridges = "entity_pair"
item_type_for _ = "memory"

unfoldable pub item_type_for_key : String → String → String
item_type_for_key key default =
    if starts_with key "pair:"
    then "entity_pair"
    else if starts_with key "entity:"
    then "entity"
    else if starts_with key "chunk:"
    then "chunk"
    else default

-- `str::strip_prefix`, and with `unwrap_or` of the whole text
unfoldable pub strip_prefix : String → String → Option String
strip_prefix key prefix =
    if starts_with key prefix then some (slice key (len prefix) (len key)) else none

unfoldable pub bare : String → String → String
bare key prefix = elim (strip_prefix key prefix) [ none ↦ key | some rest ↦ rest ]

-- The columns' defaults.
unfoldable pub new_row : ℕ → String → String → String → String → Option ℕ → ℕ → Row
new_row now namespace key item_type operation memory_id priority = record {
  id = 0;
  namespace = namespace;
  item_key = key;
  item_type = item_type;
  status = pending;
  memory_id = memory_id;
  entity_id = none;
  entities = 0;
  rels = 0;
  error = none;
  cost_usd = 0;
  attempt = 0;
  elapsed_ms = none;
  created_at = now;
  done_at = none;
  error_class = none;
  next_retry_at = none;
  operation = some operation;
  finish_reason = none;
  input_tokens = none;
  output_tokens = none;
  claimed_at = none;
  priority = priority;
}

module _ (parse : String → Option ℤ) (now : ℕ) (main : MainDb) where
  -- The row's `memory_id`, or `none` where the candidate is refused.
  unfoldable pub resolve : String → String → String → Option (Option ℕ)
  resolve namespace key item_type =
      if str_eq item_type "memory"
      then elim (main.memory_id namespace key) [ none ↦ none | some id ↦ some (some id) ]
      else if str_eq item_type "entity"
      then elim (main.entity_id namespace (bare key "entity:")) [ none ↦ none | some _ ↦ some none ]
      else if str_eq item_type "chunk"
      then elim (parse (bare key "chunk:")) [
        | none ↦ none
        | some chunk_id ↦ if main.has_chunk chunk_id namespace then some none else none
      ]
      else some none

  unfoldable pub enqueue_candidate : String → String → String → String → Queue → Queue
  enqueue_candidate namespace key item_type operation queue =
      elim (resolve namespace key item_type) [
        | none ↦ queue
        | some memory_id ↦
            insert_or_ignore (new_row now namespace key item_type operation memory_id 0) queue
      ]

  -- queue_prep.rs
  unfoldable pub enqueue_batch : String → List String → String → String → Queue → Queue
  enqueue_batch namespace [] item_type operation queue = queue
  enqueue_batch namespace (key ∷ keys) item_type operation queue =
      enqueue_batch namespace keys item_type operation
        (enqueue_candidate namespace key (item_type_for_key key item_type) operation queue)

abbrev pub priority_hot : ℕ
priority_hot = 100

-- `CASE WHEN status IN ('done','skipped','dead') THEN status ELSE 'pending' END`
unfoldable pub reopen : Status → Status
reopen done = done
reopen skipped = skipped
reopen dead = dead
reopen _ = pending

unfoldable pub enqueue_candidate_with_priority : ℕ → String → String → String → ℕ → Queue → Queue
enqueue_candidate_with_priority now key item_type operation priority queue =
    update (λ row. str_eq row.item_key key && ltb row.priority priority)
      (λ row. record row { priority = max row.priority priority; status = reopen row.status })
      (insert_or_ignore (new_row now "" key item_type operation none priority) queue)

-- A set of keys, read from the rows.
unfoldable pub contains : String → List String → Bool
contains key [] = false
contains key (k ∷ ks) = let rest = contains key ks in str_eq key k || rest

unfoldable pub skipped_item_keys : String → Queue → List String
skipped_item_keys operation queue =
    map (λ row. row.item_key)
      (filter (λ row. is_skipped row.status && is_operation_or_null operation row) queue.rows)

abbrev pub default_enrich_scan_page_size : ℕ
default_enrich_scan_page_size = 512

-- The keys of one page that are vetoed.
unfoldable pub vetoed_page : String → List String → Queue → List String
vetoed_page operation page queue =
    map (λ row. row.item_key)
      (filter
        (λ row.
          is_skipped row.status && is_operation_or_null operation row && contains row.item_key page)
        queue.rows)

-- The loop over `keys.chunks(512)`, on fuel: the number of keys is enough.
unfoldable pub vetoed_pages : ℕ → String → List String → Queue → List String
vetoed_pages zero operation keys queue = []
vetoed_pages (suc fuel) operation [] queue = []
vetoed_pages (suc fuel) operation (k ∷ ks) queue =
    let keys = k ∷ ks in
    vetoed_page operation (take default_enrich_scan_page_size keys) queue
    ++ vetoed_pages fuel operation (drop default_enrich_scan_page_size keys) queue

unfoldable pub retain_unskipped : String → List String → Queue → List String
retain_unskipped operation [] queue = []
retain_unskipped operation (k ∷ ks) queue =
    let keys = k ∷ ks in
    let vetoed = vetoed_pages (length keys) operation keys queue in
    filter (λ key. if contains key vetoed then false else true) keys

-- `cleanup_queue_entry`, where the queue file exists
unfoldable pub cleanup_queue_entry : ℕ → String → Queue → Queue
cleanup_queue_entry memory_id name queue =
    delete
      (λ row.
        elim row.memory_id [ none ↦ false | some id ↦ id == memory_id ] || str_eq row.item_key name)
      queue
