-- ===== src/Memories/Examples.antt =====
-- Runs of the operations on memories, and the witnesses.
use sqlite_graphrag.Base.{
  In, ◌≡◌, refl, true, false, none, some, [], ◌∷◌, ok, err, here, filter, arith,
}
use sqlite_graphrag.Errors.{validation, not_found}
use sqlite_graphrag.Knowledge.Good.{Holds}
use sqlite_graphrag.Memories.Rows.{IsWf}
use sqlite_graphrag.Memories.Update.{written, update-stale, update_same_second}
use sqlite_graphrag.Memories.Forget.{forget-clear_deleted_at}
use sqlite_graphrag.Memories.{
  NewMemory, MemoryRow, Memories, validate_source, insert, read_by_name, read_full, find_by_hash,
  find_by_name_any_state, update, clear_deleted_at, list_deleted_before, already_deleted,
  soft_deleted, forget,
}

abbrev plan : NewMemory
plan = record {
  namespace = "global";
  name = "plan";
  memory_type = "note";
  description = "the plan";
  body = "first";
  body_hash = "h1";
  session_id = none;
  source = "agent";
  metadata = "{}";
}

abbrev second_plan : NewMemory
second_plan = record plan { body = "second"; body_hash = "h2" }

abbrev plan_row : MemoryRow
plan_row = record {
  id = 1;
  namespace = "global";
  name = "plan";
  memory_type = "note";
  description = "the plan";
  body = "first";
  body_hash = "h1";
  session_id = none;
  source = "agent";
  metadata = "{}";
  created_at = 100;
  updated_at = 100;
  deleted_at = none;
}

abbrev gone_row : MemoryRow
gone_row = record plan_row { id = 2; name = "old"; deleted_at = some 90 }

abbrev two_rows : Memories
two_rows = record { rows = plan_row ∷ gone_row ∷ []; last_id = 2 }

inserted :
    insert 100 plan (record { rows = []; last_id = 0 })
    ≡ ok (1, record { rows = plan_row ∷ []; last_id = 1 })
unfolding insert validate_source
inserted = refl

not_a_source :
    insert 100 (record plan { source = "robot" }) two_rows
    ≡ err (validation "invalid_memory_source")
unfolding insert validate_source
not_a_source = refl

forget_twice : forget 120 "global" "old" two_rows ≡ ok (already_deleted (some 90), two_rows)
unfolding forget
forget_twice = refl

forget_missing : forget 120 "global" "absent" two_rows ≡ err (not_found "memory_not_found")
unfolding forget
forget_missing = refl

deleted_before : list_deleted_before "global" 91 two_rows ≡ 2 ∷ []
unfolding list_deleted_before filter
deleted_before = refl

not_read : (read_full 2 two_rows ≡ none) × (find_by_hash "global" "h1" two_rows ≡ some 1)
unfolding read_full find_by_hash
not_read = (refl, refl)

two_rows-IsWf : IsWf two_rows
two_rows-IsWf = ((((λ e. cc), (λ (a, b). cc)), tt), (tt, tt))

update-stale_example :
    Holds
      (λ x. update 105 1 second_plan (some 100) x.1 ≡ ok (false, x.1))
      (update 103 1 plan (some 100) two_rows)
unfolding validate_source
update-stale_example =
    update-stale 103 105 1 100 plan second_plan "agent" two_rows (λ e. absurd (omega arith)) refl

update_same_second_example :
    (table' table'' : Memories) × (update 100 1 plan (some 100) two_rows ≡ ok (true, table'))
    × In (written 100 plan "agent" plan_row) table'.rows
    × (update 100 1 second_plan (some 100) table' ≡ ok (true, table''))
    × In (written 100 second_plan "agent" plan_row) table''.rows
unfolding validate_source
update_same_second_example =
    update_same_second 1 100 plan second_plan "agent" "agent" two_rows plan_row two_rows-IsWf refl
      refl (here refl) refl

forget-clear_deleted_at_example :
    (table' : Memories) × (forget 120 "global" "plan" two_rows
      ≡ ok (soft_deleted (some 120), table'))
    × (read_by_name "global" "plan" table' ≡ none)
    × (find_by_name_any_state "global" "plan" table' ≡ some (1, true))
    × (read_by_name "global" "plan" (clear_deleted_at 130 1 table')
        ≡ some (record plan_row { updated_at = 130; deleted_at = none }))
unfolding read_by_name
forget-clear_deleted_at_example =
    forget-clear_deleted_at 120 130 "global" "plan" two_rows plan_row two_rows-IsWf refl
