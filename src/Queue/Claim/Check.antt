-- ===== src/Queue/Claim/Check.antt =====
-- The rows that a claim of src/commands/enrich/queue_ops.rs returns, and the check they pass through.
use sqlite_graphrag.Base.{
  ◌≡◌, ◌≢◌, ◌↔◌, ◌⊎◌, ◌∙◌, ap, inl, inr, ℕ, String, true, false, str_eq, starts_with, eq_iff, arith,
  In, Option-cases, Bool-cases,
}
use sqlite_graphrag.Queue.{Row, Queue}
use sqlite_graphrag.Queue.Claim.{
  Backoff, is_eligible, ClaimedRow, returning, start, dequeue_batch_pending, accepted,
  requeue_wrong_op, is_non_memory_key_shape, wrong_key_shape, wrong_item_type, validate_claim,
}
use sqlite_graphrag.Queue.WellFormed.{IsWf}
use sqlite_graphrag.Queue.Claim.Order.{dequeue_batch_pending_rows}

-- A row that the statement takes is of the operation.
eligible-operation :
    (operation namespace : String) (backoff : Backoff) (now : ℕ) (r : Row)
    → is_eligible operation namespace backoff now r ≡ true
    → (returning (start now r)).operation ≡ operation
unfolding is_eligible returning start
eligible-operation operation namespace backoff now r e = elim (Option-cases r.operation) [
  | inl f ↦ absurd (ground arith)
  | inr (o, f) ↦
      let same : str_eq o operation ≡ true = ground arith in rw f ((eq_iff o operation).0 same)
]

kept_op :
    (c : ClaimedRow) (operation expected : String)
    → c.operation ≡ operation
    → validate_claim c operation expected ≢ requeue_wrong_op
unfolding validate_claim wrong_key_shape wrong_item_type
kept_op c operation expected same h = let e = (eq_iff c.operation operation).1 same in ground arith

accepted_iff :
    (c : ClaimedRow) (operation : String)
    → c.operation ≡ operation
    → (validate_claim c operation "memory" ≡ accepted) ↔ (
        (operation ≡ "ReEmbed")
        ⊎ ((c.item_type ≡ "memory")
            × (starts_with c.item_key "pair:" ≡ false)
            × (starts_with c.item_key "entity:" ≡ false)
            × (starts_with c.item_key "chunk:" ≡ false)))
unfolding validate_claim wrong_key_shape wrong_item_type is_non_memory_key_shape
accepted_iff c operation same =
    let e = (eq_iff c.operation operation).1 same in
    let (typed, typed_back) = eq_iff c.item_type "memory" in
    (
      λ h. elim (Bool-cases (str_eq operation "ReEmbed")) [
        | inl f ↦ inl ((eq_iff operation "ReEmbed").0 f)
        | inr f ↦ inr (typed (ground arith), ground arith, ground arith, ground arith)
      ],
      λ h. elim h [
        | inl q ↦ let f = (eq_iff operation "ReEmbed").1 q in ground arith
        | inr (t, p, n, k) ↦ let b = typed_back t in ground arith
      ],
    )

-- In a well-formed queue, a row that a batch claim for an operation returns is never sent back as of
-- the wrong operation, whatever item type is expected; and where memories are, it is accepted if and
-- only if the operation is re-embed, or its item type is memory and its key begins with none of
-- `pair:`, `entity:` and `chunk:`.
pub claimed_row_check :
    (operation namespace : String) (backoff : Backoff) (limit now : ℕ) (queue : Queue)
    (expected : String) (c : ClaimedRow)
    → IsWf queue
    → In c (dequeue_batch_pending operation namespace backoff limit now queue).1
    → (validate_claim c operation expected ≢ requeue_wrong_op)
      × ((validate_claim c operation "memory" ≡ accepted) ↔ (
          (operation ≡ "ReEmbed")
          ⊎ ((c.item_type ≡ "memory")
              × (starts_with c.item_key "pair:" ≡ false)
              × (starts_with c.item_key "entity:" ≡ false)
              × (starts_with c.item_key "chunk:" ≡ false))))
claimed_row_check operation namespace backoff limit now queue expected c wf i =
    let (claimed, left) =
      dequeue_batch_pending_rows operation namespace backoff limit now queue wf in
    let (r, j, pass, e, k) = claimed c i in
    let same : c.operation ≡ operation =
      ap (λ x. x.operation) e ∙ eligible-operation operation namespace backoff now r pass in
    (kept_op c operation expected same, accepted_iff c operation same)
