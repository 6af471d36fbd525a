-- ===== src/Queue/Claim/Order.antt =====
-- Which rows the claims of src/commands/enrich/queue_ops.rs take.
use sqlite_graphrag.Base.{
  ℕ, zero, suc, ◌≡◌, refl, ap, ◌⊎◌, inl, inr, String, Bool, true, false, List, [], ◌∷◌, map, ◌==◌,
  filter, arith, In, here, there, In-cons, In-nil, In-filter, In-filter_intro, In-take, In-map,
  In-map_intro, Bool-cases,
}
use sqlite_graphrag.Queue.{Row, Queue, update_row, update}
use sqlite_graphrag.Queue.Claim.{
  Backoff, is_eligible, in_order, has_id, ClaimedRow, returning, start, chosen, claim,
  dequeue_batch_pending,
}
use sqlite_graphrag.Queue.WellFormed.{IsWf, same_id}
use sqlite_graphrag.Queue.Loops.{has_id-true, has_id-In, update_none}
use sqlite_graphrag.Queue.Claim.Sorting.{
  ComesFirst, precedes-ComesFirst, Precedes, in_order-Sorted, In-in_order, In-in_order_intro,
  take-Sorted,
}

module _ (operation namespace : String) (backoff : Backoff) (limit now : ℕ) (queue : Queue) where
  abbrev eligible : Row → Bool
  eligible = is_eligible operation namespace backoff now

  abbrev picked : List Row
  picked = chosen operation namespace backoff limit now queue

  pub chosen-In : {r : Row} → In r picked → (eligible r ≡ true) × In r queue.rows
  unfolding chosen
  chosen-In i = In-filter eligible queue.rows (
      In-in_order (filter eligible queue.rows)
        (In-take limit (in_order (filter eligible queue.rows)) i))

  pub chosen-first :
      {r s : Row} → In r picked → In s queue.rows → eligible s ≡ true → In s picked ⊎ Precedes r s
  unfolding chosen
  chosen-first i j e =
      take-Sorted limit (in_order (filter eligible queue.rows))
        (in_order-Sorted (filter eligible queue.rows)) i
        (In-in_order_intro (filter eligible queue.rows) (In-filter_intro eligible queue.rows e j))

  -- With distinct ids the update touches the picked rows themselves.
  is_picked-In : IsWf queue → {r : Row} → In r queue.rows → has_id r.id picked ≡ true → In r picked
  is_picked-In wf {r} i h =
      let (p, j, e) = has_id-true r.id picked h in
      let same : r ≡ p = same_id queue.rows wf.differ i (chosen-In j).1 e in rw same j

In-map_cong :
    (p : Row → Bool) (f : Row → Row) (rs : List Row) {r : Row}
    → In r rs
    → p r ≡ true
    → In (f r) (map (update_row p f) rs)
unfolding update_row
In-map_cong p f [] i e = absurd (In-nil i)
In-map_cong p f (x ∷ rs) {r} i e = elim (In-cons i) [
  | inl q ↦ let t : p x ≡ true = rw (← q) e in rw t (here (ap f q))
  | inr j ↦ there (In-map_cong p f rs j e)
]

pub In-map_kept :
    (p : Row → Bool) (f : Row → Row) (rs : List Row) {r : Row}
    → In r rs
    → p r ≡ false
    → In r (map (update_row p f) rs)
unfolding update_row
In-map_kept p f [] i e = absurd (In-nil i)
In-map_kept p f (x ∷ rs) {r} i e = elim (In-cons i) [
  | inl q ↦ let t : p x ≡ false = rw (← q) e in rw t (here q)
  | inr j ↦ there (In-map_kept p f rs j e)
]

pub filter_none : (rs : List Row) → filter (λ r. false) rs ≡ []
unfolding filter
filter_none [] = refl
filter_none (r ∷ rs) = filter_none rs

pub batch-claim :
    (operation namespace : String) (backoff : Backoff) (limit now : ℕ) (queue : Queue)
    → dequeue_batch_pending operation namespace backoff limit now queue
      ≡ claim now (chosen operation namespace backoff limit now queue) queue
unfolding dequeue_batch_pending claim chosen has_id filter
batch-claim operation namespace backoff zero now queue =
    rw (update_none (start now) queue, filter_none queue.rows) refl
batch-claim operation namespace backoff (suc limit) now queue =
    let some_rows : (suc limit == 0) ≡ false = ground arith in rw some_rows refl

module _ (operation namespace : String) (backoff : Backoff) (limit now : ℕ) (queue : Queue)
    (wf : IsWf queue) where
  abbrev rows_picked : List Row
  rows_picked = chosen operation namespace backoff limit now queue

  abbrev result : Queue × List ClaimedRow
  result = claim now rows_picked queue

  claimed_picked :
      (c : ClaimedRow)
      → In c result.1
      → (r : Row) × In r rows_picked × In r queue.rows × (c ≡ returning (start now r))
  unfolding claim
  claimed_picked c i =
      let (r, j, e) =
        In-map (λ row. returning (start now row))
          (filter (λ row. has_id row.id rows_picked) queue.rows) i in
      let (t, k) = In-filter (λ row. has_id row.id rows_picked) queue.rows j in
      (r, is_picked-In operation namespace backoff limit now queue wf k t, k, e)

  claimed_rows :
      (c : ClaimedRow)
      → In c result.1
      → (r : Row) × In r queue.rows
        × (is_eligible operation namespace backoff now r ≡ true)
        × (c ≡ returning (start now r))
        × In (start now r) result.0.rows
  unfolding claim update
  claimed_rows c i =
      let (r, p, j, e) = claimed_picked c i in
      let (pass, _) = chosen-In operation namespace backoff limit now queue p in
      (
        r,
        j,
        pass,
        e,
        In-map_cong (λ row. has_id row.id rows_picked) (start now) queue.rows j
            (has_id-In rows_picked p),
      )

  unclaimed_rows :
      (s : Row)
      → In s queue.rows
      → is_eligible operation namespace backoff now s ≡ true
      → In (returning (start now s)) result.1
        ⊎ In s result.0.rows
          × ((c : ClaimedRow)
              → In c result.1
              → (r : Row) × (c ≡ returning (start now r)) × ComesFirst r s)
  unfolding claim update
  unclaimed_rows s i e = elim (Bool-cases (has_id s.id rows_picked)) [
    | inl t ↦ inl (
        In-map_intro (λ row. returning (start now row))
          (filter (λ row. has_id row.id rows_picked) queue.rows)
          (In-filter_intro (λ row. has_id row.id rows_picked) queue.rows t i))
    | inr f ↦ inr (
      In-map_kept (λ row. has_id row.id rows_picked) (start now) queue.rows i f,
      λ c j.
          let (r, p, k, q) = claimed_picked c j in
          elim (chosen-first operation namespace backoff limit now queue p i e) [
            | inl here_too ↦ let u = has_id-In rows_picked here_too in ground arith
            | inr before ↦ (r, q, precedes-ComesFirst r s before)
          ],
    )
  ]

-- In a well-formed queue, a batch claim returns rows of the queue that were eligible (pending, of
-- the operation and namespace, past their backoff unless it is ignored), each now processing,
-- claimed at this time and with one attempt more; and each row that was eligible is either claimed
-- or left as it was, and then every claimed row precedes it: a higher priority, or the same and an
-- id not above.
pub dequeue_batch_pending_rows :
    (operation namespace : String) (backoff : Backoff) (limit now : ℕ) (queue : Queue)
    → IsWf queue
    → let result = dequeue_batch_pending operation namespace backoff limit now queue in
      ((c : ClaimedRow)
        → In c result.1
        → (r : Row) × In r queue.rows
          × (is_eligible operation namespace backoff now r ≡ true)
          × (c ≡ returning (start now r))
          × In (start now r) result.0.rows)
      × ((s : Row)
          → In s queue.rows
          → is_eligible operation namespace backoff now s ≡ true
          → In (returning (start now s)) result.1
            ⊎ In s result.0.rows
              × ((c : ClaimedRow)
                  → In c result.1
                  → (r : Row) × (c ≡ returning (start now r)) × ComesFirst r s))
dequeue_batch_pending_rows operation namespace backoff limit now queue wf =
    rw (batch-claim operation namespace backoff limit now queue) (
      claimed_rows operation namespace backoff limit now queue wf,
      unclaimed_rows operation namespace backoff limit now queue wf,
    )
