-- ===== src/Queue/Claim/Next.antt =====
-- Which row the claim of a single one takes, in src/commands/enrich/queue_ops.rs.
use sqlite_graphrag.Base.{
  ℕ, ◌≡◌, refl, sym, ap, ◌∙◌, ◌⊎◌, inl, inr, String, Bool, true, false, List, [], ◌∷◌, ◌==◌, filter,
  filter_cong, take, arith, In, here, In-cons, In-nil, In-filter_intro, All-In, Bool-cases,
  List-cases,
}
use sqlite_graphrag.Queue.{Row, Queue, update}
use sqlite_graphrag.Queue.Claim.{
  Backoff, is_eligible, precedes, in_order, has_id, returning, start, chosen, claim, claimed, empty,
  dequeue_next_pending,
}
use sqlite_graphrag.Queue.WellFormed.{IsWf, AllDiffer, Differ}
use sqlite_graphrag.Queue.Loops.{update_cong, update_none}
use sqlite_graphrag.Queue.Claim.Order.{chosen-In, chosen-first, filter_none}
use sqlite_graphrag.Queue.Claim.Sorting.{ComesFirst, precedes-ComesFirst, In-in_order_intro}

take_one : (rs : List Row) → take 1 rs ≡ [] → rs ≡ []
take_one [] e = refl
take_one (r ∷ rs) e = ground arith

take_one_only : (rs : List Row) (r : Row) (rest : List Row) → take 1 rs ≡ r ∷ rest → rest ≡ []
take_one_only [] r rest e = ground arith
take_one_only (x ∷ xs) r rest e = ground arith

pub filter_one :
    (rs : List Row)
    → AllDiffer rs
    → {r : Row} → In r rs
    → filter (λ row. row.id == r.id) rs ≡ r ∷ []
unfolding filter
filter_one [] d i = absurd (In-nil i)
filter_one (x ∷ xs) d {r} i = elim (In-cons i) [
  | inl q ↦
      let ids : r.id ≡ x.id = ap (λ t. t.id) q in
      let others : filter (λ row. row.id == r.id) xs ≡ [] =
        filter_cong (λ row. row.id == r.id) (λ row. false) xs
          (λ s j. let apart = (All-In (Differ x) xs d.0 j).0 in ground arith)
        ∙ filter_none xs in
      let first : (x.id == r.id) ≡ true = ground arith in
      rw (first, others) (ap (λ t. t ∷ []) (sym q))
  | inr j ↦
      let apart = (All-In (Differ x) xs d.0 j).0 in
      let skip : (x.id == r.id) ≡ false = ground arith in rw (skip, filter_one xs d.1 j) refl
]

precedes_refl : (r : Row) → precedes r r ≡ true
unfolding precedes
precedes_refl r = ground arith

module _ (operation namespace : String) (backoff : Backoff) (now : ℕ) (queue : Queue) where
  abbrev next_eligible : Row → Bool
  next_eligible = is_eligible operation namespace backoff now

  next_empty :
      chosen operation namespace backoff 1 now queue ≡ []
      → (dequeue_next_pending operation namespace backoff now queue ≡ (queue, empty))
        × ((s : Row) → In s queue.rows → next_eligible s ≡ false)
  unfolding dequeue_next_pending claim has_id filter chosen
  next_empty e = (
    rw (e, update_none (start now) queue, filter_none queue.rows) refl,
    λ s i. elim (Bool-cases (next_eligible s)) [
      | inl t ↦
          let m : In s (in_order (filter next_eligible queue.rows)) =
            In-in_order_intro (filter next_eligible queue.rows)
              (In-filter_intro next_eligible queue.rows t i) in
          absurd (In-nil (rw (take_one (in_order (filter next_eligible queue.rows)) e) at m))
      | inr f ↦ f
    ],
  )

  next_claimed :
      IsWf queue
      → (r : Row) (rest : List Row) → chosen operation namespace backoff 1 now queue ≡ r ∷ rest
      → In r queue.rows
        × (next_eligible r ≡ true)
        × (dequeue_next_pending operation namespace backoff now queue
            ≡ (update (λ row. row.id == r.id) (start now) queue, claimed (returning (start now r))))
        × ((s : Row) → In s queue.rows → next_eligible s ≡ true → precedes r s ≡ true)
  unfolding dequeue_next_pending claim has_id chosen
  next_claimed wf r rest e =
      let alone : rest ≡ [] = take_one_only (in_order (filter next_eligible queue.rows)) r rest e in
      let one : chosen operation namespace backoff 1 now queue ≡ r ∷ [] = e ∙ rw alone refl in
      let mine : In r (chosen operation namespace backoff 1 now queue) = rw e (here refl) in
      let (pass, i) = chosen-In operation namespace backoff 1 now queue mine in
      let same : (row : Row) → In row queue.rows → has_id row.id (r ∷ []) ≡ (row.id == r.id) =
        λ row j. ground arith in
      (
        i,
        pass,
        rw
            (
              one,
              update_cong (λ row. has_id row.id (r ∷ [])) (λ row. row.id == r.id) (start now) queue
                  same,
              filter_cong (λ row. has_id row.id (r ∷ [])) (λ row. row.id == r.id) queue.rows same,
              filter_one queue.rows wf.differ i,
            )
            refl,
        λ s j t. elim (chosen-first operation namespace backoff 1 now queue mine j t) [
          | inr before ↦ before
          | inl k ↦ elim (In-cons (rw one at k)) [
            | inl q ↦ rw q (precedes_refl r)
            | inr l ↦ absurd (In-nil l)
          ]
        ],
      )

-- In a well-formed queue, claiming the next row returns nothing, and changes nothing, where no row
-- is eligible; otherwise it returns an eligible row that comes before every eligible one (a higher
-- priority, or the same and an id not above), and only
-- that row changes: it is processing, claimed at this time, with one attempt more.
pub dequeue_next_pending_lem :
    (operation namespace : String) (backoff : Backoff) (now : ℕ) (queue : Queue)
    → IsWf queue
    → let result = dequeue_next_pending operation namespace backoff now queue in
      (result ≡ (queue, empty))
        × ((s : Row) → In s queue.rows → is_eligible operation namespace backoff now s ≡ false)
      ⊎ (r : Row) × In r queue.rows
        × (is_eligible operation namespace backoff now r ≡ true)
        × (result
            ≡ (update (λ row. row.id == r.id) (start now) queue, claimed (returning (start now r))))
        × ((s : Row)
            → In s queue.rows
            → is_eligible operation namespace backoff now s ≡ true
            → ComesFirst r s)
dequeue_next_pending_lem operation namespace backoff now queue wf =
    elim (List-cases (chosen operation namespace backoff 1 now queue)) [
      | inl none_left ↦ inl (next_empty operation namespace backoff now queue none_left)
      | inr (r, rest, e) ↦
          let (i, pass, result, first) =
            next_claimed operation namespace backoff now queue wf r rest e in
          inr (r, i, pass, result, λ s j t. precedes-ComesFirst r s (first s j t))
    ]
