-- ===== src/Queue/Isolation.antt =====
-- The statements of src/commands/enrich/ that name an operation and a namespace leave the rows of
-- all others alone.
use sqlite_graphrag.Base.{
  ℕ, suc, ◌≡◌, refl, ◌∙◌, inl, inr, String, Bool, true, false, not, ◌&&◌, Option, List, [], ◌∷◌,
  ◌++◌, map, str_eq, eq_iff, filter, filter_cong, if◌then◌else◌, arith, In, here, there, Bool-cases,
  Option-cases,
}
use sqlite_graphrag.Queue.{
  Row, Queue, MainDb, ℤ, is_operation_or_null, update_row, update, delete, conflicts,
  insert_or_ignore,
}
use sqlite_graphrag.Queue.Enqueue.{resolve, new_row, enqueue_candidate}
use sqlite_graphrag.Queue.Claim.{
  Backoff, is_eligible, has_id, start, chosen, claim, dequeue_next_pending,
}
use sqlite_graphrag.Queue.Claim.Order.{chosen-In, batch-claim}
use sqlite_graphrag.Queue.Sweep.{
  unclaim, renew, is_requeued, is_dead_memory, is_dead_entity, reset_processing_for_op,
  reset_failed_for_op, requeue_dead, requeue_skipped, prune_dead_entity_orphans,
}
use sqlite_graphrag.Queue.WellFormed.{IsWf, same_id}
use sqlite_graphrag.Queue.Loops.{has_id-true, filter-filter, prune_dead_orphans_lem}
use sqlite_graphrag.Queue.Actions.{
  Action, enqueue, claim_next, claim_batch, reset_processing, reset_failed, requeue_all_dead,
  requeue_all_skipped, prune_memories, prune_entities, exec,
}

-- The statements of a run that name its operation and its namespace.
pub data Local : Type 0 where
  enqueue_key : (key item_type : String) → Local
  claim_one : Backoff → Local
  claim_many : Backoff → (limit : ℕ) → Local
  resume retry_failed retry_dead retry_skipped prune_memory_orphans prune_entity_orphans : Local

unfoldable pub act : String → String → Local → Action
act operation namespace (enqueue_key key item_type) = enqueue namespace key item_type operation
act operation namespace (claim_one backoff) = claim_next operation namespace backoff
act operation namespace (claim_many backoff limit) = claim_batch operation namespace backoff limit
act operation namespace resume = reset_processing operation namespace
act operation namespace retry_failed = reset_failed operation namespace
act operation namespace retry_dead = requeue_all_dead operation namespace
act operation namespace retry_skipped = requeue_all_skipped operation namespace
act operation namespace prune_memory_orphans = prune_memories operation namespace
act operation namespace prune_entity_orphans = prune_entities operation namespace

-- A row of another namespace, or of another operation and not of none.
abbrev pub is_foreign : String → String → Row → Bool
is_foreign operation namespace row =
    not (is_operation_or_null operation row && str_eq row.namespace namespace)

module _ (p : Row → Bool) where
  map_kept :
      (cond : Row → Bool) (change : Row → Row) (rs : List Row)
      → ((r : Row) → In r rs → cond r ≡ true → (p r ≡ false) × (p (change r) ≡ false))
      → filter p (map (update_row cond change) rs) ≡ filter p rs
  unfolding filter update_row
  map_kept cond change [] h = refl
  map_kept cond change (r ∷ rs) h =
      let later = map_kept cond change rs (λ s i. h s (there i)) in
      elim (Bool-cases (cond r)) [
        | inl e ↦ let (out, out_too) = h r (here refl) e in rw (e, out, out_too) later
        | inr e ↦ rw (e, filter, later) refl
      ]

  append_kept : (rs : List Row) (x : Row) → p x ≡ false → filter p (rs ++ (x ∷ [])) ≡ filter p rs
  unfolding filter
  append_kept [] x e = rw e refl
  append_kept (r ∷ rs) x e = rw (append_kept rs x e) refl

  update_kept :
      (cond : Row → Bool) (change : Row → Row) (q : Queue)
      → ((r : Row) → In r q.rows → cond r ≡ true → (p r ≡ false) × (p (change r) ≡ false))
      → filter p (update cond change q).rows ≡ filter p q.rows
  unfolding update
  update_kept cond change q h = map_kept cond change q.rows h

  delete_kept :
      (cond : Row → Bool) (q : Queue)
      → ((r : Row) → cond r ≡ true → p r ≡ false)
      → filter p (delete cond q).rows ≡ filter p q.rows
  unfolding delete
  delete_kept cond q h =
      filter-filter (λ r. if cond r then false else true) p q.rows
      ∙ filter_cong (λ r. (if cond r then false else true) && p r) p q.rows
          (λ r i. elim (Bool-cases (cond r)) [
            | inl e ↦ let out = h r e in ground arith
            | inr e ↦ ground arith
          ])

  insert_kept :
      (row : Row) (q : Queue)
      → p (record row { id = suc q.last_id }) ≡ false
      → filter p (insert_or_ignore row q).rows ≡ filter p q.rows
  unfolding insert_or_ignore
  insert_kept row q e = elim (Bool-cases (conflicts row q.rows)) [
    | inl f ↦ rw f refl
    | inr f ↦ rw f (append_kept q.rows (record row { id = suc q.last_id }) e)
  ]

module _ (operation namespace : String) where
  abbrev foreign : Row → Bool
  foreign = is_foreign operation namespace

  claim_kept :
      (backoff : Backoff) (limit now : ℕ) (q : Queue)
      → IsWf q
      → filter foreign (claim now (chosen operation namespace backoff limit now q) q).0.rows
        ≡ filter foreign q.rows
  unfolding claim start is_eligible
  claim_kept backoff limit now q wf =
      update_kept foreign (λ row. has_id row.id (chosen operation namespace backoff limit now q))
        (start now) q
        (λ r i t.
          let (s, k, e) = has_id-true r.id (chosen operation namespace backoff limit now q) t in
          let (pass, j) = chosen-In operation namespace backoff limit now q k in
          let it = same_id q.rows wf.differ i j e in
          let mine : is_eligible operation namespace backoff now r ≡ true = rw it pass in
          (ground arith, ground arith))

  module _ (parse : String → Option ℤ) (main : MainDb) (draw : ℕ → ℕ) where
    enqueue_kept :
        (now : ℕ) (key item_type : String) (q : Queue)
        → filter foreign (enqueue_candidate parse now main namespace key item_type operation q).rows
          ≡ filter foreign q.rows
    unfolding enqueue_candidate new_row
    enqueue_kept now key item_type q =
        elim (Option-cases (resolve parse now main namespace key item_type)) [
          | inl e ↦ rw (e, enqueue_candidate) refl
          | inr (m, e) ↦
              let own_op = (eq_iff operation operation).1 refl in
              let own_ns = (eq_iff namespace namespace).1 refl in
              rw (e, enqueue_candidate)
                (insert_kept foreign (new_row now namespace key item_type operation m 0) q
                  (ground arith))
        ]

    pub exec_kept :
        (now : ℕ) (a : Local) (q : Queue)
        → IsWf q
        → filter foreign (exec parse main draw now (act operation namespace a) q).rows
          ≡ filter foreign q.rows
    unfolding act exec dequeue_next_pending reset_processing_for_op unclaim reset_failed_for_op
        renew requeue_dead requeue_skipped is_requeued prune_dead_entity_orphans is_dead_entity
        is_dead_memory
    exec_kept now (enqueue_key key item_type) q wf = enqueue_kept now key item_type q
    exec_kept now (claim_one backoff) q wf = claim_kept backoff 1 now q wf
    exec_kept now (claim_many backoff limit) q wf =
        rw (batch-claim operation namespace backoff limit now q, exec)
          (claim_kept backoff limit now q wf)
    exec_kept now resume q wf = update_kept foreign _ _ q (λ r i t. (ground arith, ground arith))
    exec_kept now retry_failed q wf =
        update_kept foreign _ _ q (λ r i t. (ground arith, ground arith))
    exec_kept now retry_dead q wf =
        update_kept foreign _ _ q (λ r i t. (ground arith, ground arith))
    exec_kept now retry_skipped q wf =
        update_kept foreign _ _ q (λ r i t. (ground arith, ground arith))
    exec_kept now prune_memory_orphans q wf =
        rw (prune_dead_orphans_lem main operation namespace q wf, exec)
          (delete_kept foreign _ q (λ r t. ground arith))
    exec_kept now prune_entity_orphans q wf = delete_kept foreign _ q (λ r t. ground arith)
