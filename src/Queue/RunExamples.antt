-- ===== src/Queue/RunExamples.antt =====
-- Runs of src/commands/enrich/ and the check of a claim, on the queue of the other examples.
use sqlite_graphrag.Base.{
  starts_with, there, ℕ, ◌≡◌, refl, ◌≢◌, ◌↔◌, ◌⊎◌, false, List, [], ◌∷◌, filter, In, here, All,
}
use sqlite_graphrag.Queue.{Row, MainDb, insert_or_ignore, conflicts, same_key}
use sqlite_graphrag.Queue.Enqueue.{new_row}
use sqlite_graphrag.Queue.Claim.{
  requeue_wrong_op, claim, has_id, chosen, in_order, is_ready, place, precedes, accepted,
  validate_claim, respected, is_eligible, ClaimedRow, returning, start, dequeue_batch_pending,
}
use sqlite_graphrag.Queue.Claim.Check.{claimed_row_check}
use sqlite_graphrag.Queue.Isolation.{claim_one, resume, prune_memory_orphans}
use sqlite_graphrag.Queue.Runs.{
  RunStep, prepare, execute, IsLabelled, run_history, run_history_foreign,
}
use sqlite_graphrag.Queue.Sweep.{PrepareArgs}
use sqlite_graphrag.Queue.Enqueue.{memory_bindings}
use sqlite_graphrag.Queue.Examples.{
  two_rows, two_rows-IsWf, reembed_row, reembed_queue, reembed_queue-IsWf, no_number, last_draw,
  main_db, empty_db,
}

abbrev fresh_run : PrepareArgs
fresh_run = record {
  stale_claim_secs = 60;
  resume = false;
  retry_failed = false;
  until_empty = false;
  force_redescribe = false;
  operation = memory_bindings;
}

abbrev own_events : List (ℕ × MainDb × RunStep)
own_events =
    (35, main_db, prepare fresh_run [])
    ∷ (40, main_db, execute (claim_one respected))
    ∷ (50, empty_db, execute resume)
    ∷ (60, empty_db, execute prune_memory_orphans)
    ∷ []

own_events-IsLabelled : All (λ e. IsLabelled "MemoryBindings" e.2) own_events
own_events-IsLabelled = (((λ e. cc), (λ e. cc)), (tt, (tt, (tt, tt))))

abbrev reembed_stored : Row
reembed_stored = record reembed_row { id = 3 }

reembed_is_there : In reembed_stored reembed_queue.rows
unfolding insert_or_ignore conflicts same_key new_row
reembed_is_there = there (there (here refl))

run_history_foreign_example :
    In reembed_stored
      (run_history "MemoryBindings" "global" no_number last_draw own_events reembed_queue).rows
unfolding new_row
run_history_foreign_example =
    run_history_foreign "MemoryBindings" "global" no_number last_draw own_events reembed_queue
      reembed_queue-IsWf own_events-IsLabelled reembed_stored reembed_is_there refl

abbrev urgent_claim : ClaimedRow
urgent_claim = record {
  id = 2;
  item_key = "urgent-memory";
  item_type = "memory";
  operation = "MemoryBindings";
  attempt = 1;
}

urgent_is_claimed :
    In urgent_claim (dequeue_batch_pending "MemoryBindings" "global" respected 1 20 two_rows).1
unfolding dequeue_batch_pending insert_or_ignore claim filter conflicts same_key new_row has_id
    chosen in_order is_eligible is_ready place precedes returning start
urgent_is_claimed = here refl

claimed_row_check_example :
    (validate_claim urgent_claim "MemoryBindings" "entity" ≢ requeue_wrong_op)
    × ((validate_claim urgent_claim "MemoryBindings" "memory" ≡ accepted) ↔ (
        (urgent_claim.operation ≡ "ReEmbed")
        ⊎ ((urgent_claim.item_type ≡ "memory")
            × (starts_with urgent_claim.item_key "pair:" ≡ false)
            × (starts_with urgent_claim.item_key "entity:" ≡ false)
            × (starts_with urgent_claim.item_key "chunk:" ≡ false))))
claimed_row_check_example =
    claimed_row_check "MemoryBindings" "global" respected 1 20 two_rows "entity" urgent_claim
      two_rows-IsWf urgent_is_claimed
