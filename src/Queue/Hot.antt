-- ===== src/Queue/Hot.antt =====
-- The priority enqueue of src/commands/enrich/queue.rs against rows that are there already.
use sqlite_graphrag.Base.{
  str_ne, ℕ, suc, ◌<◌, max, ◌≡◌, refl, String, Bool, true, false, none, List, [], ◌∷◌, ◌&&◌, str_eq,
  eq_iff, ltb, arith, ◌++◌, ◌≢◌, sym, map, filter, In, here, there, In-map_intro, In-append_left,
  inl, inr, Bool-cases,
}
use sqlite_graphrag.Queue.{
  pending, processing, Row, Queue, update_row, update, conflicts, insert_or_ignore,
}
use sqlite_graphrag.Queue.Claim.{Backoff, is_eligible}
use sqlite_graphrag.Queue.Enqueue.{new_row, reopen, enqueue_candidate_with_priority}
use sqlite_graphrag.Queue.WellFormed.{KeepsKey}

In-insert_or_ignore :
    (row : Row) (queue : Queue) {r : Row} → In r queue.rows → In r (insert_or_ignore row queue).rows
unfolding insert_or_ignore
In-insert_or_ignore row queue i = elim (Bool-cases (conflicts row queue.rows)) [
  | inl e ↦ rw e i
  | inr e ↦ rw e (In-append_left (record row { id = suc queue.last_id } ∷ []) i)
]

-- A row that is being processed, of any namespace and operation, whose item key is the one enqueued
-- and whose priority is lower, is pending again after a priority enqueue, with the new priority.
pub priority_enqueue_reopens :
    (now : ℕ) (key item_type operation : String) (priority : ℕ) (queue : Queue) (r : Row)
    → In r queue.rows
    → r.item_key ≡ key
    → r.priority < priority
    → r.status ≡ processing
    → (s : Row) × In s
        (enqueue_candidate_with_priority now key item_type operation priority queue).rows
      × KeepsKey r s
      × (s.status ≡ pending)
      × (s.priority ≡ priority)
unfolding enqueue_candidate_with_priority update update_row reopen
priority_enqueue_reopens now key item_type operation priority queue r i same lower busy =
    let change : Row → Row =
      λ row. record row { priority = max row.priority priority; status = reopen row.status } in
    let cond : Row → Bool = λ row. str_eq row.item_key key && ltb row.priority priority in
    let named = (eq_iff r.item_key key).1 same in
    let hit : cond r ≡ true = ground arith in
    let to : update_row cond change r ≡ change r = rw hit refl in
    (
      change r,
      rw to at (
          In-map_intro (update_row cond change)
            (insert_or_ignore (new_row now "" key item_type operation none priority) queue).rows
            (In-insert_or_ignore (new_row now "" key item_type operation none priority) queue i)),
      record { id = refl; namespace = refl; item_key = refl; operation = refl },
      rw busy refl,
      omega (arith, lower),
    )

module _ (p : Row → Bool) (g : Row → Row) where
  filter-map_kept :
      (rs : List Row) → ((r : Row) → In r rs → g r ≡ r) → filter p (map g rs) ≡ filter p rs
  unfolding filter
  filter-map_kept [] h = refl
  filter-map_kept (r ∷ rs) h =
      rw (h r (here refl), filter, filter-map_kept rs (λ s i. h s (there i))) refl

  filter-map_append :
      (rs : List Row) (x : Row)
      → ((r : Row) → In r rs → g r ≡ r)
      → p (g x) ≡ false
      → filter p (map g (rs ++ (x ∷ []))) ≡ filter p rs
  unfolding filter
  filter-map_append [] x h f = rw f refl
  filter-map_append (r ∷ rs) x h f =
      rw (h r (here refl), filter, filter-map_append rs x (λ s i. h s (there i)) f) refl

unscoped :
    (drained namespace : String) (backoff : Backoff) (t : ℕ) (r : Row)
    → str_eq r.namespace namespace ≡ false
    → is_eligible drained namespace backoff t r ≡ false
unfolding is_eligible
unscoped drained namespace backoff t r e = ground arith

update_row-namespace :
    (cond : Row → Bool) (change : Row → Row) (r : Row)
    → (change r).namespace ≡ r.namespace
    → (update_row cond change r).namespace ≡ r.namespace
unfolding update_row
update_row-namespace cond change r h = elim (Bool-cases (cond r)) [
  | inl e ↦ rw e h
  | inr e ↦ rw e refl
]

-- A priority enqueue of a key that no row has adds nothing that a drain of a named namespace could
-- claim: for every operation, every namespace but the empty one, every backoff and time, the
-- eligible rows are the same as before.
pub priority_enqueue_unclaimable :
    (now : ℕ) (key item_type operation : String) (priority : ℕ) (queue : Queue)
    → ((r : Row) → In r queue.rows → r.item_key ≢ key)
    → (drained namespace : String) (backoff : Backoff) (t : ℕ) → namespace ≢ ""
    → filter
        (is_eligible drained namespace backoff t)
        (enqueue_candidate_with_priority now key item_type operation priority queue).rows
      ≡ filter (is_eligible drained namespace backoff t) queue.rows
unfolding enqueue_candidate_with_priority update update_row insert_or_ignore is_eligible new_row
priority_enqueue_unclaimable now key item_type operation priority queue fresh drained namespace
      backoff t named =
    let cond : Row → Bool = λ row. str_eq row.item_key key && ltb row.priority priority in
    let change : Row → Row =
      λ row. record row { priority = max row.priority priority; status = reopen row.status } in
    let new : Row = new_row now "" key item_type operation none priority in
    let kept : (r : Row) → In r queue.rows → update_row cond change r ≡ r = λ r i.
      let other = str_ne r.item_key key (fresh r i) in
      let miss : cond r ≡ false = ground arith in rw miss refl in
    let elsewhere = str_ne "" namespace (λ e. named (sym e)) in
    elim (Bool-cases (conflicts new queue.rows)) [
      | inl e ↦ rw e (
          filter-map_kept (is_eligible drained namespace backoff t) (update_row cond change)
            queue.rows kept)
      | inr e ↦ rw e (
          filter-map_append (is_eligible drained namespace backoff t) (update_row cond change)
            queue.rows (record new { id = suc queue.last_id }) kept
            (unscoped drained namespace backoff t
              (update_row cond change (record new { id = suc queue.last_id }))
              (rw (update_row-namespace cond change (record new { id = suc queue.last_id }) refl)
                elsewhere)))
    ]
