-- ===== src/Queue/Backoff.antt =====
-- What a failure makes of its row, in src/commands/enrich/queue_ops.rs.
use sqlite_graphrag.Base.{
  ℕ, ◌+◌, ◌≤◌, ◌<◌, ◌≡◌, refl, ◌≢◌, ◌⊎◌, inl, inr, String, true, false, some, ◌==◌, arith, In,
  In-map_intro,
}
use sqlite_graphrag.Retry.{AttemptOutcome, transient, hard_failure, success}
use sqlite_graphrag.Retry.Delay.{Draws, llm_delay_bounds}
use sqlite_graphrag.Queue.{pending, dead, Row, Queue, is_scoped, update_row, update}
use sqlite_graphrag.Queue.Claim.{respected, is_ready, is_eligible}
use sqlite_graphrag.Queue.Finish.{
  Diagnostics, is_terminal, delay_secs, note_failure, update_id, record_item_failure_typed,
}
use sqlite_graphrag.Queue.WellFormed.{KeepsKey}

delay_secs_bounds :
    (draw : ℕ → ℕ)
    → Draws draw
    → (attempt : ℕ) → (30 ≤ delay_secs draw attempt) × (delay_secs draw attempt < 900)
unfolding delay_secs
delay_secs_bounds draw d attempt =
    let (lo, hi) = llm_delay_bounds draw d attempt in (omega (arith, lo), omega (arith, hi))

is_terminal_iff :
    (attempt max_attempts : ℕ) (outcome : AttemptOutcome)
    → (is_terminal attempt max_attempts outcome ≡ true)
        × ((outcome ≡ hard_failure) ⊎ (max_attempts ≤ attempt))
      ⊎ (is_terminal attempt max_attempts outcome ≡ false)
        × (outcome ≢ hard_failure)
        × (attempt < max_attempts)
unfolding is_terminal
is_terminal_iff attempt max_attempts transient = ground arith
is_terminal_iff attempt max_attempts hard_failure = inl (refl, inl refl)
is_terminal_iff attempt max_attempts success = ground arith

In-update_id :
    (change : Row → Row) (queue : Queue) (r : Row)
    → In r queue.rows
    → In (change r) (update_id r.id change queue).rows
unfolding update_id update update_row
In-update_id change queue r i =
    let hit : (r.id == r.id) ≡ true = ground arith in
    let to : update_row (λ row. row.id == r.id) change r ≡ change r = rw hit refl in
    rw to at (In-map_intro (update_row (λ row. row.id == r.id) change) queue.rows i)

-- With a generator that draws below its bound: a failure recorded on a row keeps its key and its
-- attempts and returns the outcome. The row is dead if the failure is hard or the attempts have
-- reached the maximum. Otherwise it is pending; no claim that respects backoff finds it eligible in
-- the next 30 seconds, and from 900 seconds on, every such claim of its operation and namespace
-- does.
pub record_item_failure_typed_lem :
    (draw : ℕ → ℕ)
    → Draws draw
    → (now attempt max_attempts : ℕ) (outcome : AttemptOutcome) (seen : Diagnostics) (queue : Queue)
      (r : Row)
    → In r queue.rows
    → let result =
        record_item_failure_typed draw now r.id attempt max_attempts outcome seen queue in
      (result.1 ≡ outcome)
      × ((s : Row) × In s result.0.rows
          × KeepsKey r s
          × (s.attempt ≡ r.attempt)
          × (((outcome ≡ hard_failure) ⊎ (max_attempts ≤ attempt)) × (s.status ≡ dead)
              ⊎ (outcome ≢ hard_failure)
                × (attempt < max_attempts)
                × (s.status ≡ pending)
                × ((operation namespace : String) (t : ℕ)
                    → t < now + 30
                    → is_eligible operation namespace respected t s ≡ false)
                × ((operation namespace : String) (t : ℕ)
                    → now + 900 ≤ t
                    → is_eligible operation namespace respected t s
                      ≡ is_scoped operation namespace r)))
unfolding record_item_failure_typed note_failure is_eligible is_ready
record_item_failure_typed_lem draw d now attempt max_attempts outcome seen queue r i =
    elim (is_terminal_iff attempt max_attempts outcome) [
      | inl (e, why) ↦
          let change : Row → Row =
            λ row. record (note_failure outcome seen row) { status = dead; done_at = some now } in
          rw e (
            refl,
            (
              change r,
              In-update_id change queue r i,
              record { id = refl; namespace = refl; item_key = refl; operation = refl },
              refl,
              inl (why, refl),
            ),
          )
      | inr (e, soft, room) ↦
          let (lo, hi) = delay_secs_bounds draw d attempt in
          let change : Row → Row = λ row. record (note_failure outcome seen row) {
            status = pending;
            next_retry_at = some (now + delay_secs draw attempt);
          } in
          rw e (
            refl,
            (
              change r,
              In-update_id change queue r i,
              record { id = refl; namespace = refl; item_key = refl; operation = refl },
              refl,
              inr (soft, room, refl, λ o n t h. ground arith, λ o n t h. ground arith),
            ),
          )
    ]
