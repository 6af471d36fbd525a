-- ===== src/Lib.antt =====
-- sqlite-graphrag keeps memories, entities and relations in SQLite and enriches them through language
-- models. These files model the parts of it on which its correctness turns, and prove them.
--
-- The parts, and where they are modelled:
--
-- Queue (src/commands/enrich/queue.rs, queue_ops.rs, run/queue_prep.rs, status.rs): the durable work
-- queue of `enrich`. The table `queue` is a list of rows with AUTOINCREMENT's counter; an SQL statement
-- is a function of that state, built from update, delete, count and insert_or_ignore. Queue.Enqueue has
-- the ways in (enqueue_candidate, enqueue_candidate_with_priority, the veto of skipped keys),
-- Queue.Claim the claims (dequeue_next_pending, dequeue_batch_pending, validate_claim), Queue.Finish the
-- ends of a claim (record_item_failure_typed, mark_done, mark_skipped, the requeues, heartbeat) and
-- Queue.Sweep what a run does to many rows (resets, requeues, pruning, reconciliation, prepare_queue).
-- Queue.Actions makes data of these operations, so that a history of the queue is a list of them, each
-- with its time and the main database then; Queue.Runs has the histories of runs for one operation and
-- namespace: the preparation of the queue, and the statements that name the two. The invariant is in Queue.WellFormed. Each statement is atomic, as SQLite makes it, and succeeds; the
-- main database is a record of the answers to the queries that the queue asks, the clock and the
-- random generator are parameters, and so is str::parse.
--
-- Retry (src/retry.rs): delays and the circuit breaker. The failures of the queue wait by compute_delay.
--
-- Errors (src/errors.rs, is_sqlite_busy of src/storage/utils.rs, classify_enrich_outcome of
-- queue_ops.rs): the error type, its exit codes and retry classes, and the queue's own classifier.
--
-- Storage (src/storage/utils.rs): with_busy_retry_policy, which makes a database call again while the
-- database is busy. The call is a parameter, the sequence of its answers.
--
-- Graph (src/graph/walk.rs): the breadth-first driver run_observed over any source of neighbours, and
-- in Graph.Memory the source that holds its edges in memory. The driver's loop runs on fuel: a turn for
-- each entity and one for each seed is enough.
--
-- Chunking (src/chunking.rs): the splits of a body, over its bytes. A slice off the boundaries of
-- characters panics, which is a result of its own in hard_slice_to_budget and the section split. The
-- loops run on fuel: the body's length, or the number of tokens, is enough, except for
-- split_into_chunks, which need not end.
--
-- Labels (src/parsers/mod.rs, src/entity_type.rs, validate_entity_name of
-- src/storage/entities/mod.rs): how names of entities, their types and relations are normalised and
-- refused. A label is the list of its code points; the tables of Unicode (the crate
-- unicode-normalization, to_lowercase, is_whitespace) are a record of functions.
--
-- Knowledge (migrations/V001__init.sql, src/storage/entities/mod.rs, src/storage/entities/merge.rs): the
-- knowledge graph, the tables of entities, of relationships and of their bindings to memories, with the
-- columns that these operations read; deletions cascade as the foreign keys say. Knowledge.Entities has
-- the storage operations; Knowledge.Link, Unlink, DeleteEntity, Prune, Merge, MergeCommand and Cleanup
-- have the transactions of src/commands/link.rs, unlink.rs, delete_entity.rs, prune_relations.rs,
-- merge_entities/ and cleanup_orphans.rs (with --namespace), which return an error, and then change
-- nothing, or their result and the new graph.
-- Messages are the names of the functions that write them. Knowledge.Integrity has the tables'
-- invariant, Knowledge.Degrees that of the column degree, Knowledge.Good both.
--
-- Memories (migrations/V009__expand_memory_types.sql, src/storage/memories/rows.rs, crud.rs and
-- soft_delete.rs, src/memory_source.rs, src/commands/forget.rs): the table of memories, with its unique
-- names and the trigger that stamps every updated row; insertion, the update that expects a time, the
-- reads, and soft deletion. forget is modelled on this table alone, without the vector that it removes
-- and the cleanup of the queue after it.
--
-- Base has the helpers that all of them share. Examples modules apply the results to concrete inputs.
--
-- Not modelled: opening and migrating the queue file, errors of SQLite itself, SqlNeighbors (SQL over
-- the main database), the splits by the text_splitter crate, floating point (weights are carried, and
-- compared by a parameter), the versions, chunks and vectors of memories, the repair by
-- PRAGMA foreign_key_check in cleanup-orphans without --namespace, the calls of providers, the command line and the output.
pub mod Base
pub mod Retry
pub mod Errors
pub mod Graph
pub mod Chunking
pub mod Queue
pub mod Storage
pub mod Labels
pub mod Knowledge
pub mod Memories
