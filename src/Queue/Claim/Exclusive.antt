-- ===== src/Queue/Claim/Exclusive.antt =====
-- Several workers claim from one queue of src/commands/enrich/queue_ops.rs.
use sqlite_graphrag.Base.{
  ℕ, ◌≡◌, refl, sym, ap, ◌∙◌, ◌≢◌, inl, inr, String, Bool, true, List, [], ◌∷◌, ◌++◌, map, filter,
  arith, In, here, there, In-nil, In-append, In-filter, In-map, All-In, Bool-cases,
}
use sqlite_graphrag.Queue.{processing, Row, Queue, update_row, update}
use sqlite_graphrag.Queue.Claim.{
  Backoff, is_eligible, has_id, ClaimedRow, returning, start, chosen, claim, dequeue_batch_pending,
}
use sqlite_graphrag.Queue.WellFormed.{IsWf, AllDiffer, Differ, update-IsWf, filter-AllDiffer}
use sqlite_graphrag.Queue.Loops.{has_id-true}
use sqlite_graphrag.Queue.Claim.Order.{chosen-In, batch-claim}

-- One call of a worker.
pub record Request : Type 0 where
  pub operation : String
  pub namespace : String
  pub backoff : Backoff
  pub limit : ℕ
  pub now : ℕ

-- The calls in the order in which SQLite serialises them, and all the rows they return.
unfoldable pub drain : List Request → Queue → List ClaimedRow
drain [] queue = []
drain (q ∷ qs) queue =
    let (queue', rows) =
      dequeue_batch_pending q.operation q.namespace q.backoff q.limit q.now queue in
    rows ++ drain qs queue'

abbrev pub DistinctIds : List ClaimedRow → Type 0
DistinctIds [] = Unit
DistinctIds (c ∷ cs) = ((d : ClaimedRow) → In d cs → c.id ≢ d.id) × DistinctIds cs

DistinctIds-append :
    (cs ds : List ClaimedRow)
    → DistinctIds cs
    → DistinctIds ds
    → ((c d : ClaimedRow) → In c cs → In d ds → c.id ≢ d.id)
    → DistinctIds (cs ++ ds)
DistinctIds-append [] ds h k x = k
DistinctIds-append (c ∷ cs) ds h k x = (
  λ d i. elim (In-append cs ds i) [ inl j ↦ h.0 d j | inr j ↦ x c d (here refl) j ],
  DistinctIds-append cs ds h.1 k (λ e d i j. x e d (there i) j),
)

returned-DistinctIds :
    (now : ℕ) (rs : List Row) → AllDiffer rs → DistinctIds (map (λ r. returning (start now r)) rs)
unfolding returning start
returned-DistinctIds now [] h = tt
returned-DistinctIds now (r ∷ rs) h = (
  λ d i.
      let (s, j, e) = In-map (λ t. returning (start now t)) rs i in
      λ same. (All-In (Differ r) rs h.0 j).0 (same ∙ ap (λ t. t.id) e),
  returned-DistinctIds now rs h.1,
)

-- Every row of this id is being processed.
abbrev Busy : ℕ → Queue → Type 0
Busy id queue = (r : Row) → In r queue.rows → r.id ≡ id → r.status ≡ processing

module _ (q : Request) (queue : Queue) where
  abbrev picked : List Row
  picked = chosen q.operation q.namespace q.backoff q.limit q.now queue

  abbrev result : Queue × List ClaimedRow
  result = claim q.now picked queue

  is_picked : Row → Bool
  is_picked row = has_id row.id picked

  returned :
      {c : ClaimedRow}
      → In c result.1
      → (r : Row) × (has_id r.id picked ≡ true) × In r queue.rows × (c.id ≡ r.id)
  unfolding claim returning start
  returned {c} i =
      let (r, j, e) =
        In-map (λ t. returning (start q.now t)) (filter (λ row. has_id row.id picked) queue.rows)
          i in
      let (t, k) = In-filter (λ row. has_id row.id picked) queue.rows j in
      (r, t, k, ap (λ s. s.id) e)

  stays-Busy : (id : ℕ) → Busy id queue → Busy id result.0
  unfolding claim update update_row start
  stays-Busy id b s i e =
      let (r, j, p) =
        In-map (update_row (λ row. has_id row.id picked) (start q.now)) queue.rows i in
      elim (Bool-cases (has_id r.id picked)) [
        | inl t ↦ rw (p, t) refl
        | inr f ↦
            let same : s ≡ r = p ∙ rw f refl in rw same (b r j (sym (ap (λ t. t.id) same) ∙ e))
      ]

  becomes-Busy : {c : ClaimedRow} → In c result.1 → Busy c.id result.0
  unfolding claim update update_row start
  becomes-Busy {c} h s i e =
      let (r0, t0, _, e0) = returned h in
      let (r, j, p) =
        In-map (update_row (λ row. has_id row.id picked) (start q.now)) queue.rows i in
      elim (Bool-cases (has_id r.id picked)) [
        | inl t ↦ rw (p, t) refl
        | inr f ↦
            let same : s ≡ r = p ∙ rw f refl in
            let ids : r.id ≡ r0.id = sym (ap (λ t. t.id) same) ∙ e ∙ e0 in
            let u : has_id r.id picked ≡ true = rw ids t0 in ground arith
      ]

  Busy-not_returned : (id : ℕ) → Busy id queue → {c : ClaimedRow} → In c result.1 → id ≢ c.id
  unfolding is_eligible
  Busy-not_returned id b {c} h same =
      let (r, t, _, e) = returned h in
      let (p, k, d) = has_id-true r.id picked t in
      let (pass, j) = chosen-In q.operation q.namespace q.backoff q.limit q.now queue k in
      let busy : p.status ≡ processing = b p j (sym d ∙ sym e ∙ sym same) in ground arith

  claim-DistinctIds : IsWf queue → DistinctIds result.1
  unfolding claim
  claim-DistinctIds wf =
      returned-DistinctIds q.now (filter (λ row. has_id row.id picked) queue.rows)
        (filter-AllDiffer (λ row. has_id row.id picked) queue.rows wf.differ)

  claim-IsWf : IsWf queue → IsWf result.0
  unfolding claim start
  claim-IsWf wf =
      update-IsWf (λ row. has_id row.id picked) (start q.now) queue
        (λ r i e. record { id = refl; namespace = refl; item_key = refl; operation = refl }) wf

drain_cons :
    (q : Request) (qs : List Request) (queue : Queue)
    → drain (q ∷ qs) queue ≡ (result q queue).1 ++ drain qs (result q queue).0
unfolding drain
drain_cons q qs queue = rw (batch-claim q.operation q.namespace q.backoff q.limit q.now queue) refl

drain_nil : (queue : Queue) → drain [] queue ≡ []
unfolding drain
drain_nil queue = refl

drain-not-Busy :
    (qs : List Request) (queue : Queue) (id : ℕ)
    → Busy id queue
    → {c : ClaimedRow} → In c (drain qs queue)
    → id ≢ c.id
drain-not-Busy [] queue id b i = absurd (In-nil (rw (drain_nil queue) at i))
drain-not-Busy (q ∷ qs) queue id b i =
    elim (In-append (result q queue).1 (drain qs (result q queue).0)
      (rw (drain_cons q qs queue) at i)) [
        | inl j ↦ Busy-not_returned q queue id b j
        | inr j ↦ drain-not-Busy qs (result q queue).0 id (stays-Busy q queue id b) j
      ]

-- However many workers claim from a well-formed queue, of whatever operations, namespaces, batch
-- sizes and times, and in whatever order their calls come: as long as nothing but claims happens,
-- no row is handed out twice.
pub drain_exclusive :
    (qs : List Request) (queue : Queue) → IsWf queue → DistinctIds (drain qs queue)
unfolding drain
drain_exclusive [] queue wf = tt
drain_exclusive (q ∷ qs) queue wf = rw (drain_cons q qs queue) (
    DistinctIds-append (result q queue).1 (drain qs (result q queue).0)
      (claim-DistinctIds q queue wf) (drain_exclusive qs (result q queue).0 (claim-IsWf q queue wf))
      (λ c d i j. drain-not-Busy qs (result q queue).0 c.id (becomes-Busy q queue i) j))
