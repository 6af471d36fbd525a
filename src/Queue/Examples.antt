-- ===== src/Queue/Examples.antt =====
-- The queue of src/commands/enrich/ with two memories to bind, one of them urgent.
use sqlite_graphrag.Base.{
  length, ℕ, ◌+◌, ◌-◌, ◌≤◌, ◌<◌, ◌≡◌, refl, ◌≢◌, ◌⊎◌, String, true, false, Option, none, some, List,
  [], ◌∷◌, ◌==◌, str_eq, In-nil, filter, arith, In, here, All, if◌then◌else◌,
}
use sqlite_graphrag.Retry.{AttemptOutcome, transient, hard_failure}
use sqlite_graphrag.Retry.Delay.{Draws}
use sqlite_graphrag.Queue.{
  pending, processing, dead, update_row, Row, Queue, MainDb, ℤ, update, delete, count,
  insert_or_ignore, conflicts, same_key, is_scoped,
}
use sqlite_graphrag.Queue.Enqueue.{
  new_row, enqueue_candidate_with_priority, priority_hot, contains, skipped_item_keys,
  retain_unskipped,
}
use sqlite_graphrag.Queue.Claim.{
  count_eligible_pending, ignored, respected, is_eligible, ClaimedRow, returning, start,
  DequeueOutcome, claimed, empty, dequeue_next_pending, dequeue_batch_pending,
}
use sqlite_graphrag.Queue.Claim.Sorting.{ComesFirst}
use sqlite_graphrag.Queue.Claim.Next.{dequeue_next_pending_lem}
use sqlite_graphrag.Queue.Claim.Progress.{claims, claims_reach_all}
use sqlite_graphrag.Queue.Claim.Exclusive.{Request, drain, DistinctIds, drain_exclusive}
use sqlite_graphrag.Queue.Finish.{Diagnostics, record_item_failure_typed}
use sqlite_graphrag.Queue.Sweep.{
  prune_dead_orphans, reconcile_satisfied_reembed_pending, reconcile_row,
}
use sqlite_graphrag.Queue.WellFormed.{IsWf, KeepsKey, insert_or_ignore-IsWf, update-IsWf}
use sqlite_graphrag.Queue.Loops.{
  is_dead_orphan, prune_dead_orphans_lem, is_reconciled, reconcile_lem,
}
use sqlite_graphrag.Queue.Actions.{Event, enqueue, sweep_stale, claim_next, history, is_background}
use sqlite_graphrag.Queue.Statements.{DeadIn}
use sqlite_graphrag.Queue.Traces.{history-IsWf, dead_stays_dead, IsBackground}
use sqlite_graphrag.Queue.Backoff.{record_item_failure_typed_lem}
use sqlite_graphrag.Queue.Hot.{priority_enqueue_reopens, priority_enqueue_unclaimable}
use sqlite_graphrag.Queue.Veto.{retain_unskipped_lem}

abbrev pub no_rows : Queue
no_rows = record { rows = []; last_id = 0 }

abbrev pub plain_row : Row
plain_row = new_row 10 "global" "plain-memory" "memory" "MemoryBindings" (some 1) 0

abbrev pub urgent_row : Row
urgent_row = new_row 10 "global" "urgent-memory" "memory" "MemoryBindings" (some 2) 100

abbrev pub reembed_row : Row
reembed_row = new_row 10 "global" "urgent-memory" "memory" "ReEmbed" (some 2) 0

abbrev pub two_rows : Queue
two_rows = insert_or_ignore urgent_row (insert_or_ignore plain_row no_rows)

pub two_rows-IsWf : IsWf two_rows
two_rows-IsWf =
    insert_or_ignore-IsWf urgent_row (insert_or_ignore plain_row no_rows)
      (insert_or_ignore-IsWf plain_row no_rows (record { below = tt; differ = tt }))

-- Rows 1 and 2, the first dead.
abbrev kill : Row → Row
kill row = record row { status = dead }

abbrev one_dead : Queue
one_dead = update (λ row. row.id == 1) kill two_rows

one_dead-IsWf : IsWf one_dead
one_dead-IsWf =
    update-IsWf (λ row. row.id == 1) kill two_rows
      (λ r i e. record { id = refl; namespace = refl; item_key = refl; operation = refl })
      two_rows-IsWf

abbrev two_workers : List Request
two_workers =
    record {
      operation = "MemoryBindings";
      namespace = "global";
      backoff = respected;
      limit = 1;
      now = 20;
    }
    ∷ record {
      operation = "MemoryBindings";
      namespace = "global";
      backoff = ignored;
      limit = 4;
      now = 21;
    }
    ∷ []

drain_exclusive_example : DistinctIds (drain two_workers two_rows)
drain_exclusive_example = drain_exclusive two_workers two_rows two_rows-IsWf

claims_reach_all_example :
    let n = count_eligible_pending "MemoryBindings" "global" respected 20 two_rows in
    let (outcomes, later) = claims "MemoryBindings" "global" respected 20 n two_rows in
    (length outcomes ≡ n)
    × ((row : Row)
        → In row two_rows.rows
        → is_eligible "MemoryBindings" "global" respected 20 row ≡ true
        → In (claimed (returning (start 20 row))) outcomes × In (start 20 row) later.rows)
    × (dequeue_next_pending "MemoryBindings" "global" respected 20 later ≡ (later, empty))
claims_reach_all_example =
    claims_reach_all "MemoryBindings" "global" respected 20 two_rows two_rows-IsWf

abbrev next_of_two : Queue × DequeueOutcome
next_of_two = dequeue_next_pending "MemoryBindings" "global" respected 20 two_rows

dequeue_next_pending_example :
    (next_of_two ≡ (two_rows, empty))
      × ((s : Row)
          → In s two_rows.rows
          → is_eligible "MemoryBindings" "global" respected 20 s ≡ false)
    ⊎ (r : Row) × In r two_rows.rows
      × (is_eligible "MemoryBindings" "global" respected 20 r ≡ true)
      × (next_of_two
          ≡ (update (λ row. row.id == r.id) (start 20) two_rows, claimed (returning (start 20 r))))
      × ((s : Row)
          → In s two_rows.rows
          → is_eligible "MemoryBindings" "global" respected 20 s ≡ true
          → ComesFirst r s)
dequeue_next_pending_example =
    dequeue_next_pending_lem "MemoryBindings" "global" respected 20 two_rows two_rows-IsWf

abbrev batch_of_two : Queue × List ClaimedRow
batch_of_two = dequeue_batch_pending "MemoryBindings" "global" respected 1 20 two_rows

-- A main database that has lost the first memory, and has the second and its vector.
abbrev pub main_db : MainDb
main_db = record {
  memory_id = λ namespace name. if str_eq name "plain-memory" then none else some 2;
  entity_id = λ namespace name. none;
  has_chunk = λ id namespace. false;
  memory_has_live_embedding = λ id. true;
  entity_has_live_embedding = λ id. false;
  chunk_has_live_embedding = λ id. false;
}

abbrev pub no_number : String → Option ℤ
no_number text = none

abbrev pub last_draw : ℕ → ℕ
last_draw n = n - 1

last_draw-Draws : Draws last_draw
last_draw-Draws n h = omega (arith, h)

abbrev pub empty_db : MainDb
empty_db = record main_db { memory_id = λ namespace name. none }

abbrev events : List Event
events =
    (20, main_db, enqueue "global" "third-memory" "memory" "MemoryBindings")
    ∷ (21, main_db, claim_next "MemoryBindings" "global" respected)
    ∷ (9000, empty_db, sweep_stale 60)
    ∷ []

history-IsWf_example : IsWf (history no_number last_draw events two_rows)
history-IsWf_example = history-IsWf no_number last_draw events two_rows two_rows-IsWf

events-IsBackground : All IsBackground events
unfolding is_background
events-IsBackground = (refl, (refl, (refl, tt)))

row_one_dead : DeadIn 1 one_dead
unfolding update update_row insert_or_ignore conflicts same_key new_row
row_one_dead = (record plain_row { id = 1; status = dead }, here refl, refl, refl)

dead_stays_dead_example : DeadIn 1 (history no_number last_draw events one_dead)
dead_stays_dead_example =
    dead_stays_dead no_number last_draw events one_dead one_dead-IsWf events-IsBackground 1
      row_one_dead

abbrev timed_out : Diagnostics
timed_out = record {
  err_str = "timeout";
  finish_reason = none;
  input_tokens = none;
  output_tokens = none;
}

abbrev stored_row : Row
stored_row = record plain_row { id = 1 }

row_one : In stored_row two_rows.rows
unfolding insert_or_ignore conflicts same_key new_row
row_one = here refl

abbrev failed : Queue × AttemptOutcome
failed = record_item_failure_typed last_draw 50 1 2 8 transient timed_out two_rows

record_item_failure_typed_example :
    (failed.1 ≡ transient)
    × ((s : Row) × In s failed.0.rows
        × KeepsKey stored_row s
        × (s.attempt ≡ stored_row.attempt)
        × (((transient ≡ hard_failure) ⊎ (8 ≤ 2)) × (s.status ≡ dead)
            ⊎ (transient ≢ hard_failure)
              × (2 < 8)
              × (s.status ≡ pending)
              × ((operation namespace : String) (t : ℕ)
                  → t < 50 + 30
                  → is_eligible operation namespace respected t s ≡ false)
              × ((operation namespace : String) (t : ℕ)
                  → 50 + 900 ≤ t
                  → is_eligible operation namespace respected t s
                    ≡ is_scoped operation namespace stored_row)))
record_item_failure_typed_example =
    record_item_failure_typed_lem last_draw last_draw-Draws 50 2 8 transient timed_out two_rows
      stored_row row_one

retain_unskipped_example :
    retain_unskipped "BodyEnrich" ("plain-memory" ∷ "other" ∷ []) two_rows
    ≡ filter
        (λ key. if contains key (skipped_item_keys "BodyEnrich" two_rows) then false else true)
        ("plain-memory" ∷ "other" ∷ [])
retain_unskipped_example =
    retain_unskipped_lem "BodyEnrich" ("plain-memory" ∷ "other" ∷ []) two_rows

prune_dead_orphans_example : prune_dead_orphans main_db "MemoryBindings" "global" one_dead ≡ (
  delete (is_dead_orphan main_db "MemoryBindings" "global") one_dead,
  count (is_dead_orphan main_db "MemoryBindings" "global") one_dead,
)
prune_dead_orphans_example =
    prune_dead_orphans_lem main_db "MemoryBindings" "global" one_dead one_dead-IsWf

abbrev pub reembed_queue : Queue
reembed_queue = insert_or_ignore reembed_row two_rows

pub reembed_queue-IsWf : IsWf reembed_queue
reembed_queue-IsWf = insert_or_ignore-IsWf reembed_row two_rows two_rows-IsWf

reconcile_example :
    (reconcile_satisfied_reembed_pending no_number main_db 30 "global" reembed_queue).0
    ≡ update
        (is_reconciled no_number main_db "global")
        (reconcile_row no_number main_db 30)
        reembed_queue
reconcile_example = reconcile_lem no_number main_db 30 "global" reembed_queue reembed_queue-IsWf

abbrev begun : Row → Row
begun row = record row { status = processing }

abbrev one_begun : Queue
one_begun = update (λ row. row.id == 1) begun two_rows

row_one_begun : In (begun stored_row) one_begun.rows
unfolding update update_row insert_or_ignore conflicts same_key new_row
row_one_begun = here refl

low_priority : stored_row.priority < priority_hot
unfolding new_row
low_priority = omega arith

same_name : stored_row.item_key ≡ "plain-memory"
unfolding new_row
same_name = refl

priority_enqueue_reopens_example :
    (s : Row) × In s
      (enqueue_candidate_with_priority 60 "plain-memory" "entity" "EntityDescriptions" 100
        one_begun).rows
    × KeepsKey (begun stored_row) s
    × (s.status ≡ pending)
    × (s.priority ≡ 100)
priority_enqueue_reopens_example =
    priority_enqueue_reopens 60 "plain-memory" "entity" "EntityDescriptions" 100 one_begun
      (begun stored_row) row_one_begun same_name low_priority refl

nothing_there : (r : Row) → In r no_rows.rows → r.item_key ≢ "new-entity"
nothing_there r i = absurd (In-nil i)

abbrev global : String
global = "global"

global_is_named : global ≢ ""
global_is_named e = cc

priority_enqueue_unclaimable_example :
    filter
      (is_eligible "EntityDescriptions" "global" respected 70)
      (enqueue_candidate_with_priority 60 "new-entity" "entity" "EntityDescriptions" 100
        no_rows).rows
    ≡ filter (is_eligible "EntityDescriptions" "global" respected 70) no_rows.rows
priority_enqueue_unclaimable_example =
    priority_enqueue_unclaimable 60 "new-entity" "entity" "EntityDescriptions" 100 no_rows
      nothing_there "EntityDescriptions" "global" respected 70 global_is_named
