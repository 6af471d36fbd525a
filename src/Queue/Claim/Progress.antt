-- ===== src/Queue/Claim/Progress.antt =====
-- A worker that claims one row after the other from one queue of src/commands/enrich/queue_ops.rs.
use sqlite_graphrag.Base.{
  ℕ, suc, zero, ◌≡◌, refl, sym, ap, subst, inl, inr, String, Bool, true, false, List, [], ◌∷◌, map,
  filter, length, ◌==◌, ==_iff, List-cases, In-filter, arith, In, here, there, In-cons, In-nil,
  In-map_intro, In-filter_intro, All, All-In, Bool-cases,
}
use sqlite_graphrag.Queue.{Row, Queue, update_row, update, count}
use sqlite_graphrag.Queue.Claim.{
  Backoff, is_eligible, start, returning, DequeueOutcome, claimed, empty, dequeue_next_pending,
  count_eligible_pending,
}
use sqlite_graphrag.Queue.WellFormed.{IsWf, AllDiffer, Differ, update-IsWf, same_id}
use sqlite_graphrag.Queue.Claim.Next.{dequeue_next_pending_lem}

-- What a number of calls at one time return, and the queue after them.
unfoldable pub claims : String → String → Backoff → ℕ → ℕ → Queue → List DequeueOutcome × Queue
claims operation namespace backoff now zero queue = ([], queue)
claims operation namespace backoff now (suc n) queue =
    let (queue', outcome) = dequeue_next_pending operation namespace backoff now queue in
    let (outcomes, later) = claims operation namespace backoff now n queue' in
    (outcome ∷ outcomes, later)

module _ (operation namespace : String) (backoff : Backoff) (now : ℕ) where
  abbrev waits : Row → Bool
  waits = is_eligible operation namespace backoff now

  abbrev take_row : Row → Row → Row
  take_row r = update_row (λ row. row.id == r.id) (start now)

  started : (r : Row) → waits (start now r) ≡ false
  unfolding is_eligible start
  started r = refl

  others_stay : (r : Row) (rs : List Row) → All (Differ r) rs → map (take_row r) rs ≡ rs
  unfolding update_row
  others_stay r [] h = refl
  others_stay r (s ∷ rs) h =
      let apart = h.0.0 in
      let off : (s.id == r.id) ≡ false = ground arith in rw (off, others_stay r rs h.1) refl

  one_fewer :
      (r : Row) (rs : List Row)
      → AllDiffer rs
      → In r rs
      → waits r ≡ true
      → suc (length (filter waits (map (take_row r) rs))) ≡ length (filter waits rs)
  unfolding filter update_row
  one_fewer r [] h i e = absurd (In-nil i)
  one_fewer r (s ∷ rs) h i e = elim (In-cons i) [
    | inl q ↦
        let ids : r.id ≡ s.id = ap (λ t. t.id) q in
        let hit : (s.id == r.id) ≡ true = ground arith in
        let rest : map (take_row r) rs ≡ rs = others_stay r rs (rw q h.0) in
        let f : waits s ≡ true = rw (← q) e in rw (hit, rest, f, started s) refl
    | inr j ↦
        let apart = (All-In (Differ s) rs h.0 j).0 in
        let off : (s.id == r.id) ≡ false = ground arith in
        let fewer = one_fewer r rs h.1 j e in
        elim (Bool-cases (waits s)) [
          | inl f ↦ rw (off, f) (ap suc fewer)
          | inr f ↦ rw (off, f) fewer
        ]
  ]

  abbrev after : Row → Queue → Queue
  after r queue = update (λ row. row.id == r.id) (start now) queue

  after-IsWf : (r : Row) (queue : Queue) → IsWf queue → IsWf (after r queue)
  unfolding start
  after-IsWf r queue wf =
      update-IsWf (λ row. row.id == r.id) (start now) queue
        (λ s i e. record { id = refl; namespace = refl; item_key = refl; operation = refl }) wf

  abbrev eligible_count : Queue → ℕ
  eligible_count queue = count_eligible_pending operation namespace backoff now queue

  after-count :
      (r : Row) (queue : Queue)
      → IsWf queue
      → In r queue.rows
      → waits r ≡ true
      → suc (eligible_count (after r queue)) ≡ eligible_count queue
  unfolding count_eligible_pending count update
  after-count r queue wf i e = one_fewer r queue.rows wf.differ i e

  none_waits :
      (queue : Queue) → eligible_count queue ≡ 0 → (r : Row) → In r queue.rows → waits r ≡ false
  unfolding count_eligible_pending count
  none_waits queue e r i = elim (Bool-cases (waits r)) [
    | inr f ↦ f
    | inl f ↦ absurd (no_member (filter waits queue.rows) e (In-filter_intro waits queue.rows f i))
  ]
    where
      no_member : (rs : List Row) → length rs ≡ 0 → {r : Row} → ¬ In r rs
      no_member [] e i = In-nil i
      no_member (x ∷ rs) e i = absurd (omega arith)

  next_step :
      (queue : Queue) (n : ℕ)
      → IsWf queue
      → eligible_count queue ≡ suc n
      → (r : Row) × In r queue.rows
        × (waits r ≡ true)
        × (dequeue_next_pending operation namespace backoff now queue
            ≡ (after r queue, claimed (returning (start now r))))
  unfolding count_eligible_pending count
  next_step queue n wf e =
      elim (dequeue_next_pending_lem operation namespace backoff now queue wf) [
        | inr (r, i, w, result, first) ↦ (r, i, w, result)
        | inl (result, idle) ↦ elim (List-cases (filter waits queue.rows)) [
          | inl f ↦
              let g : length (filter waits queue.rows) ≡ 0 = rw f refl in absurd (ground arith)
          | inr (r, rest, f) ↦
              let (w, i) = In-filter waits queue.rows (rw f (here refl)) in
              let no_wait : waits r ≡ false = idle r i in absurd (ground arith)
        ]
      ]

  -- What the calls return of the rows that wait, and make of them and of the others.
  abbrev Served : Queue → List DequeueOutcome × Queue → Type 0
  Served queue (outcomes, later) =
      ((row : Row)
        → In row queue.rows
        → waits row ≡ true
        → In (claimed (returning (start now row))) outcomes × In (start now row) later.rows)
      × ((row : Row) → In row queue.rows → waits row ≡ false → In row later.rows)
      × (eligible_count later ≡ 0)
      × IsWf later

  Served-after :
      (queue : Queue) (r : Row) (outcomes : List DequeueOutcome) (later : Queue)
      → IsWf queue
      → In r queue.rows
      → waits r ≡ true
      → Served (after r queue) (outcomes, later)
      → Served queue (claimed (returning (start now r)) ∷ outcomes, later)
  unfolding update update_row
  Served-after queue r outcomes later wf i e (waiting, idle, none_left, sound) =
      let moved : (row : Row) → In row queue.rows → In (take_row r row) (after r queue).rows =
        λ row j. In-map_intro (take_row r) queue.rows j in
      let same_row : (row : Row) → In row queue.rows → (row.id == r.id) ≡ true → row ≡ r =
        λ row j f. same_id queue.rows wf.differ j i ((==_iff row.id r.id).0 f) in
      (
        λ row j w. elim (Bool-cases (row.id == r.id)) [
          | inl f ↦
              let k : In (start now row) (after r queue).rows = let m = moved row j in rw f at m in
              (
                here (ap (λ x. claimed (returning (start now x))) (same_row row j f)),
                idle (start now row) k (started row),
              )
          | inr f ↦
              let k : In row (after r queue).rows = let m = moved row j in rw f at m in
              let (out, done_with) = waiting row k w in (there out, done_with)
        ],
        λ row j w. elim (Bool-cases (row.id == r.id)) [
          | inl f ↦
              let no_wait : waits r ≡ false = rw (← same_row row j f) w in absurd (ground arith)
          | inr f ↦
              let k : In row (after r queue).rows = let m = moved row j in rw f at m in idle row k w
        ],
        none_left,
        sound,
      )

  claims-Served :
      (n : ℕ) (queue : Queue)
      → IsWf queue
      → eligible_count queue ≡ n
      → Served queue (claims operation namespace backoff now n queue)
  unfolding claims
  claims-Served zero queue wf e = (
    λ row i w. let no_wait = none_waits queue e row i in absurd (ground arith),
    λ row i w. i,
    e,
    wf,
  )
  claims-Served (suc n) queue wf e =
      let (r, i, w, q) = next_step queue n wf e in
      let fewer = after-count r queue wf i w in
      let rest = claims-Served n (after r queue) (after-IsWf r queue wf) (ground arith) in
      let (outcomes, later) = claims operation namespace backoff now n (after r queue) in
      let same : claims operation namespace backoff now (suc n) queue
          ≡ (claimed (returning (start now r)) ∷ outcomes, later) =
        ap
          (λ x. (
            x.1 ∷ (claims operation namespace backoff now n x.0).0,
            (claims operation namespace backoff now n x.0).1,
          ))
          q in
      subst (Served queue) (sym same) (Served-after queue r outcomes later wf i w rest)

claims-length :
    (operation namespace : String) (backoff : Backoff) (now n : ℕ) (queue : Queue)
    → length (claims operation namespace backoff now n queue).0 ≡ n
unfolding claims
claims-length operation namespace backoff now zero queue = refl
claims-length operation namespace backoff now (suc n) queue = ap suc (
    claims-length operation namespace backoff now n
      (dequeue_next_pending operation namespace backoff now queue).0)

-- A worker that claims one row after the other, at one time, from a well-formed queue: in as many
-- calls as there are eligible rows, some call returns each of these, started, and started it is in the
-- queue; and the next call returns nothing.
pub claims_reach_all :
    (operation namespace : String) (backoff : Backoff) (now : ℕ) (queue : Queue)
    → IsWf queue
    → let n = count_eligible_pending operation namespace backoff now queue in
      let (outcomes, later) = claims operation namespace backoff now n queue in
      (length outcomes ≡ n)
      × ((row : Row)
          → In row queue.rows
          → is_eligible operation namespace backoff now row ≡ true
          → In (claimed (returning (start now row))) outcomes × In (start now row) later.rows)
      × (dequeue_next_pending operation namespace backoff now later ≡ (later, empty))
claims_reach_all operation namespace backoff now queue wf =
    let n = count_eligible_pending operation namespace backoff now queue in
    let (waiting, idle, none_left, sound) =
      claims-Served operation namespace backoff now n queue wf refl in
    let later = (claims operation namespace backoff now n queue).1 in
    (
      claims-length operation namespace backoff now n queue,
      waiting,
      elim (dequeue_next_pending_lem operation namespace backoff now later sound) [
        | inl (result, no_more) ↦ result
        | inr (r, i, w, result, first) ↦
            let no_wait = none_waits operation namespace backoff now later none_left r i in
            absurd (ground arith)
      ],
    )
