-- ===== src/Queue/Traces.antt =====
-- What holds over every history of the queue of src/commands/enrich/.
use sqlite_graphrag.Base.{
  ℕ, ◌≡◌, refl, sym, ap, ◌∙◌, inl, inr, String, Bool, true, false, Option, none, List, [], ◌∷◌,
  str_eq, ltb, max, ◌&&◌, ◌==◌, arith, In, All, Bool-cases, Option-cases,
}
use sqlite_graphrag.Retry.{AttemptOutcome}
use sqlite_graphrag.Queue.{dead, Row, Queue, MainDb, ℤ, update, delete, insert_or_ignore}
use sqlite_graphrag.Queue.Enqueue.{
  resolve, new_row, reopen, enqueue_candidate, enqueue_candidate_with_priority, cleanup_queue_entry,
}
use sqlite_graphrag.Queue.Claim.{
  Backoff, is_eligible, has_id, start, chosen, claim, dequeue_next_pending,
}
use sqlite_graphrag.Queue.Claim.Order.{chosen-In, batch-claim}
use sqlite_graphrag.Queue.Finish.{
  Diagnostics, update_id, note_failure, is_terminal, record_item_failure_typed, requeue_wrong_op,
  skip_wrong_type, mark_done, mark_skipped, requeue_rate_limited, heartbeat,
}
use sqlite_graphrag.Queue.Sweep.{
  is_stale, unclaim, renew, is_reopened, reset_stale_processing_claims, reset_processing_for_op,
  reset_failed_for_op, requeue_dead, requeue_skipped, reopen_force_redescribe_candidates,
  prune_dead_entity_orphans, reconcile_satisfied_reembed_pending, clear, is_pending_reembed,
  reconcile_row, is_satisfied,
}
use sqlite_graphrag.Queue.WellFormed.{IsWf, KeepsKey, same_id}
use sqlite_graphrag.Queue.Loops.{has_id-true, prune_dead_orphans_lem, reconcile_lem}
use sqlite_graphrag.Queue.Actions.{
  Action, enqueue, enqueue_hot, sweep_stale, beat, claim_next, claim_batch, reset_processing,
  reset_failed, reopen_keys, reconcile, fail, wrong_op, wrong_type, skip, finish, rate_limited,
  requeue_all_dead, requeue_all_skipped, prune_memories, prune_entities, clean, clear_op,
  is_background, exec, Event, history,
}
use sqlite_graphrag.Queue.Statements.{
  Via, same, updated, deleted, inserted, Via-IsWf, Via-DeadIn, DeadIn,
}

abbrev KeysKept : (Row → Row) → Type 0
KeysKept change = (r : Row) → KeepsKey r (change r)

one :
    {kind : Bool} (cond : Row → Bool) (change : Row → Row) (q : Queue)
    → KeysKept change
    → (kind ≡ true
        → (r : Row) → In r q.rows
        → cond r ≡ true
        → r.status ≡ dead
        → (change r).status ≡ dead)
    → Via kind q (update cond change q)
one cond change q k d = updated cond change same refl k d

insert-Via : {kind : Bool} (row : Row) (q : Queue) → Via kind q (insert_or_ignore row q)
insert-Via row q = inserted row same refl

delete-Via : (cond : Row → Bool) (q : Queue) → Via false q (delete cond q)
delete-Via cond q = deleted cond same refl refl

-- An update of one row by its id.
by_id :
    (queue_id : ℕ) (change : Row → Row) (q : Queue)
    → KeysKept change
    → Via false q (update_id queue_id change q)
unfolding update_id
by_id queue_id change q k = one (λ row. row.id == queue_id) change q k (λ f. absurd (ground arith))

claim-Via :
    {kind : Bool} (operation namespace : String) (backoff : Backoff) (limit now : ℕ) (q : Queue)
    → IsWf q
    → Via kind q (claim now (chosen operation namespace backoff limit now q) q).0
unfolding claim start is_eligible
claim-Via operation namespace backoff limit now q wf =
    one (λ row. has_id row.id (chosen operation namespace backoff limit now q)) (start now) q
      (λ r. record { id = refl; namespace = refl; item_key = refl; operation = refl })
      (λ b r i t s.
        let (p, k, e) = has_id-true r.id (chosen operation namespace backoff limit now q) t in
        let (pass, j) = chosen-In operation namespace backoff limit now q k in
        let it : r ≡ p = same_id q.rows wf.differ i j e in
        let also : p.status ≡ dead = sym (ap (λ x. x.status) it) ∙ s in absurd (ground arith))

reopen-Via :
    (namespace : String) (keys : List String) (q q0 : Queue)
    → Via true q0 q
    → Via true q0 (reopen_force_redescribe_candidates namespace keys q).0
unfolding reopen_force_redescribe_candidates is_reopened renew
reopen-Via namespace [] q q0 v = v
reopen-Via namespace (key ∷ keys) q q0 v =
    reopen-Via namespace keys
      (update (is_reopened namespace key)
        (λ row. record (renew row) { claimed_at = none; done_at = none }) q)
      q0
      (updated (is_reopened namespace key)
        (λ row. record (renew row) { claimed_at = none; done_at = none }) v refl
        (λ r. record { id = refl; namespace = refl; item_key = refl; operation = refl })
        (λ b r i t s. absurd (ground arith)))

hot-Via :
    (now : ℕ) (key item_type operation : String) (priority : ℕ) (q : Queue)
    → Via true q (enqueue_candidate_with_priority now key item_type operation priority q)
unfolding enqueue_candidate_with_priority reopen
hot-Via now key item_type operation priority q =
    updated (λ row. str_eq row.item_key key && ltb row.priority priority)
      (λ row. record row { priority = max row.priority priority; status = reopen row.status })
      (insert-Via (new_row now "" key item_type operation none priority) q) refl
      (λ r. record { id = refl; namespace = refl; item_key = refl; operation = refl })
      (λ b r i t s. rw s refl)

module _ (parse : String → Option ℤ) (main : MainDb) (draw : ℕ → ℕ) where
  enqueue-Via :
      (now : ℕ) (namespace key item_type operation : String) (q : Queue)
      → Via true q (enqueue_candidate parse now main namespace key item_type operation q)
  unfolding enqueue_candidate
  enqueue-Via now namespace key item_type operation q =
      elim (Option-cases (resolve parse now main namespace key item_type)) [
        | inl e ↦ rw (e, enqueue_candidate) same
        | inr (m, e) ↦
            rw (e, enqueue_candidate)
              (insert-Via (new_row now namespace key item_type operation m 0) q)
      ]

  fail-Via :
      (now queue_id attempt max_attempts : ℕ) (outcome : AttemptOutcome) (seen : Diagnostics)
      (q : Queue)
      → Via false q
          (record_item_failure_typed draw now queue_id attempt max_attempts outcome seen q).0
  unfolding record_item_failure_typed note_failure
  fail-Via now queue_id attempt max_attempts outcome seen q =
      elim (Bool-cases (is_terminal attempt max_attempts outcome)) [
        | inl e ↦ rw e (
            by_id queue_id _ q
              (λ r. record { id = refl; namespace = refl; item_key = refl; operation = refl }))
        | inr e ↦ rw e (
            by_id queue_id _ q
              (λ r. record { id = refl; namespace = refl; item_key = refl; operation = refl }))
      ]

  reconcile-Via :
      {kind : Bool} (now : ℕ) (namespace : String) (q : Queue)
      → IsWf q
      → Via kind q (reconcile_satisfied_reembed_pending parse main now namespace q).0
  unfolding reconcile_row is_pending_reembed
  reconcile-Via now namespace q wf = rw (reconcile_lem parse main now namespace q wf) (
      one
        (λ row.
          is_pending_reembed parse main namespace row
          && is_satisfied parse main namespace row.item_key)
        (reconcile_row parse main now) q
        (λ r. record { id = refl; namespace = refl; item_key = refl; operation = refl })
        (λ b r i t s. absurd (ground arith)))

  pub exec-Via :
      (now : ℕ) (a : Action) (q : Queue)
      → IsWf q
      → Via (is_background a) q (exec parse main draw now a q)
  unfolding exec is_background reset_stale_processing_claims is_stale unclaim heartbeat update_id
      dequeue_next_pending reset_processing_for_op reset_failed_for_op renew requeue_wrong_op
      skip_wrong_type mark_done mark_skipped requeue_rate_limited requeue_dead requeue_skipped
      prune_dead_entity_orphans cleanup_queue_entry clear
  exec-Via now (enqueue namespace key item_type operation) q wf =
      enqueue-Via now namespace key item_type operation q
  exec-Via now (enqueue_hot key item_type operation priority) q wf =
      hot-Via now key item_type operation priority q
  exec-Via now (sweep_stale max_age_secs) q wf =
      one _ unclaim q
        (λ r. record { id = refl; namespace = refl; item_key = refl; operation = refl })
        (λ b r i t s. absurd (ground arith))
  exec-Via now (beat queue_id) q wf =
      one _ _ q (λ r. record { id = refl; namespace = refl; item_key = refl; operation = refl })
        (λ b r i t s. s)
  exec-Via now (claim_next operation namespace backoff) q wf =
      claim-Via operation namespace backoff 1 now q wf
  exec-Via now (claim_batch operation namespace backoff limit) q wf =
      rw (batch-claim operation namespace backoff limit now q, exec)
        (claim-Via operation namespace backoff limit now q wf)
  exec-Via now (reset_processing operation namespace) q wf =
      one _ unclaim q
        (λ r. record { id = refl; namespace = refl; item_key = refl; operation = refl })
        (λ b r i t s. absurd (ground arith))
  exec-Via now (reset_failed operation namespace) q wf =
      one _ _ q (λ r. record { id = refl; namespace = refl; item_key = refl; operation = refl })
        (λ b r i t s. absurd (ground arith))
  exec-Via now (reopen_keys namespace keys) q wf = reopen-Via namespace keys q q same
  exec-Via now (reconcile namespace) q wf = reconcile-Via now namespace q wf
  exec-Via now (fail queue_id attempt max_attempts outcome seen) q wf =
      fail-Via now queue_id attempt max_attempts outcome seen q
  exec-Via now (wrong_op queue_id) q wf =
      by_id queue_id _ q
        (λ r. record { id = refl; namespace = refl; item_key = refl; operation = refl })
  exec-Via now (wrong_type queue_id reason) q wf =
      by_id queue_id _ q
        (λ r. record { id = refl; namespace = refl; item_key = refl; operation = refl })
  exec-Via now (skip queue_id reason) q wf =
      by_id queue_id _ q
        (λ r. record { id = refl; namespace = refl; item_key = refl; operation = refl })
  exec-Via now (finish queue_id accounting) q wf =
      by_id queue_id _ q
        (λ r. record { id = refl; namespace = refl; item_key = refl; operation = refl })
  exec-Via now (rate_limited queue_id) q wf =
      by_id queue_id _ q
        (λ r. record { id = refl; namespace = refl; item_key = refl; operation = refl })
  exec-Via now (requeue_all_dead operation namespace) q wf =
      one _ renew q (λ r. record { id = refl; namespace = refl; item_key = refl; operation = refl })
        (λ f. absurd (ground arith))
  exec-Via now (requeue_all_skipped operation namespace) q wf =
      one _ renew q (λ r. record { id = refl; namespace = refl; item_key = refl; operation = refl })
        (λ f. absurd (ground arith))
  exec-Via now (prune_memories operation namespace) q wf =
      rw (prune_dead_orphans_lem main operation namespace q wf, exec) (delete-Via _ q)
  exec-Via now (prune_entities operation namespace) q wf = delete-Via _ q
  exec-Via now (clean memory_id name) q wf = delete-Via _ q
  exec-Via now (clear_op operation namespace) q wf = delete-Via _ q

abbrev pub IsBackground : Event → Type 0
IsBackground e = is_background e.2 ≡ true

module _ (parse : String → Option ℤ) (draw : ℕ → ℕ) where
  -- Whatever the queue's operations do to a well-formed queue, in any order and at any times, and
  -- whatever the main database holds at each, it stays well-formed: ids never pass the counter, no two
  -- rows share an id, and none share the namespace, operation and key.
  pub history-IsWf :
      (events : List Event) (queue : Queue) → IsWf queue → IsWf (history parse draw events queue)
  unfolding history
  history-IsWf [] queue wf = wf
  history-IsWf ((now, main, a) ∷ rest) queue wf =
      history-IsWf rest (exec parse main draw now a queue)
        (Via-IsWf (exec-Via parse main draw now a queue wf) wf)

  -- In a well-formed queue, no history of enqueues, priority enqueues, sweeps, heartbeats, claims,
  -- resets, re-openings and reconciliations revives or removes a dead-letter row.
  pub dead_stays_dead :
      (events : List Event) (queue : Queue)
      → IsWf queue
      → All IsBackground events
      → (id : ℕ) → DeadIn id queue
      → DeadIn id (history parse draw events queue)
  unfolding history
  dead_stays_dead [] queue wf b id d = d
  dead_stays_dead ((now, main, a) ∷ rest) queue wf b id d =
      let v = exec-Via parse main draw now a queue wf in
      let step : Via true queue (exec parse main draw now a queue) = rw b.0 at v in
      dead_stays_dead rest (exec parse main draw now a queue) (Via-IsWf v wf) b.1 id
        (Via-DeadIn step id d)
