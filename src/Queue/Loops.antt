-- ===== src/Queue/Loops.antt =====
-- The row-by-row loops of src/commands/enrich/queue.rs and queue_ops.rs as single statements.
use sqlite_graphrag.Base.{
  ℕ, ◌≡◌, refl, sym, ap, ◌∙◌, inl, inr, String, Bool, true, false, not, ◌&&◌, ◌||◌, Option, List,
  [], ◌∷◌, map, ◌==◌, ==_iff, filter, filter_cong, length, if◌then◌else◌, arith, In, here, there,
  In-cons, In-nil, In-filter, In-filter_intro, Bool-cases,
}
use sqlite_graphrag.Queue.{Row, Queue, MainDb, ℤ, is_pending, update_row, update, delete, count}
use sqlite_graphrag.Queue.Claim.{has_id}
use sqlite_graphrag.Queue.Sweep.{
  is_dead_memory, memory_exists, prune_each, prune_dead_orphans, is_satisfied, is_pending_reembed,
  reconcile_row, reconcile_each, reconcile_satisfied_reembed_pending,
}
use sqlite_graphrag.Queue.WellFormed.{IsWf, AllDiffer, same_id}

pub filter-filter :
    (p q : Row → Bool) (rs : List Row) → filter q (filter p rs) ≡ filter (λ r. p r && q r) rs
unfolding filter
filter-filter p q [] = refl
filter-filter p q (r ∷ rs) = elim (Bool-cases (p r)) [
  | inl e ↦ rw (e, filter, filter-filter p q rs) refl
  | inr e ↦ rw (e, filter-filter p q rs) refl
]

filter_all : (rs : List Row) → filter (λ r. true) rs ≡ rs
unfolding filter
filter_all [] = refl
filter_all (r ∷ rs) = ap (◌∷◌ r) (filter_all rs)

pub map_cong :
    (f g : Row → Row) (rs : List Row) → ((r : Row) → In r rs → f r ≡ g r) → map f rs ≡ map g rs
map_cong f g [] h = refl
map_cong f g (r ∷ rs) h = rw (h r (here refl), map_cong f g rs (λ s i. h s (there i))) refl

map-map : (f g : Row → Row) (rs : List Row) → map g (map f rs) ≡ map (λ r. g (f r)) rs
map-map f g [] = refl
map-map f g (r ∷ rs) = ap (◌∷◌ (g (f r))) (map-map f g rs)

map_id : (rs : List Row) → map (λ r. r) rs ≡ rs
map_id [] = refl
map_id (r ∷ rs) = ap (◌∷◌ r) (map_id rs)

pub has_id-true : (id : ℕ) (rs : List Row) → has_id id rs ≡ true → (r : Row) × In r rs × (id ≡ r.id)
unfolding has_id
has_id-true id [] h = ground arith
has_id-true id (r ∷ rs) h = elim (Bool-cases (id == r.id)) [
  | inl e ↦ (r, here refl, (==_iff id r.id).0 e)
  | inr e ↦ let (s, i, p) = has_id-true id rs (ground arith) in (s, there i, p)
]

pub has_id-In : (rs : List Row) {r : Row} → In r rs → has_id r.id rs ≡ true
unfolding has_id
has_id-In [] i = absurd (In-nil i)
has_id-In (s ∷ rs) {r} i = elim (In-cons i) [
  | inl e ↦ let same : r.id ≡ s.id = ap (λ t. t.id) e in ground arith
  | inr j ↦ let found = has_id-In rs j in ground arith
]

-- Among rows with distinct ids, an id is that of a selected row when its row is selected.
pub has_id-filter :
    (p : Row → Bool) (rs : List Row)
    → AllDiffer rs
    → (r : Row) → In r rs
    → has_id r.id (filter p rs) ≡ p r
has_id-filter p rs d r i = elim (Bool-cases (p r)) [
  | inl e ↦ has_id-In (filter p rs) (In-filter_intro p rs e i) ∙ sym e
  | inr e ↦ elim (Bool-cases (has_id r.id (filter p rs))) [
    | inl f ↦
        let (s, j, q) = has_id-true r.id (filter p rs) f in
        let (pass, k) = In-filter p rs j in
        let same : r ≡ s = same_id rs d i k q in let pr : p r ≡ true = rw same pass in ground arith
    | inr f ↦ f ∙ sym e
  ]
]

abbrev pub is_lost : MainDb → String → Row → Bool
is_lost main namespace row = not (memory_exists main namespace row.item_key)

delete-delete :
    (p q : Row → Bool) (queue : Queue) → delete q (delete p queue) ≡ delete (λ r. p r || q r) queue
unfolding delete
delete-delete p q queue =
    let step : filter (λ r. if q r then false else true)
          (filter (λ r. if p r then false else true) queue.rows)
        ≡ filter (λ r. if p r || q r then false else true) queue.rows =
      filter-filter (λ r. if p r then false else true) (λ r. if q r then false else true) queue.rows
      ∙ filter_cong (λ r. (if p r then false else true) && (if q r then false else true))
          (λ r. if p r || q r then false else true) queue.rows (λ r i. ground arith) in
    rw step refl

delete_cong :
    (p q : Row → Bool) (queue : Queue)
    → ((r : Row) → In r queue.rows → p r ≡ q r)
    → delete p queue ≡ delete q queue
unfolding delete
delete_cong p q queue h =
    let step : filter (λ r. if p r then false else true) queue.rows
        ≡ filter (λ r. if q r then false else true) queue.rows =
      filter_cong (λ r. if p r then false else true) (λ r. if q r then false else true) queue.rows
        (λ r i. rw (h r i) refl) in
    rw step refl

delete_none : (queue : Queue) → delete (λ r. false) queue ≡ queue
unfolding delete
delete_none queue = rw (filter_all queue.rows) refl

prune_each_lem :
    (main : MainDb) (namespace : String) (rs : List Row) (queue : Queue)
    → prune_each main namespace rs queue ≡ (
      delete (λ row. has_id row.id (filter (is_lost main namespace) rs)) queue,
      length (filter (is_lost main namespace) rs),
    )
unfolding prune_each has_id filter
prune_each_lem main namespace [] queue = rw (delete_none queue) refl
prune_each_lem main namespace (r ∷ rs) queue =
    elim (Bool-cases (memory_exists main namespace r.item_key)) [
      | inl e ↦ rw (e, prune_each_lem main namespace rs queue) refl
      | inr e ↦
          rw
            (
              e,
              prune_each_lem main namespace rs (delete (λ row. row.id == r.id) queue),
              delete-delete (λ row. row.id == r.id)
                  (λ row. has_id row.id (filter (is_lost main namespace) rs)) queue,
            )
            refl
    ]

abbrev pub is_dead_orphan : MainDb → String → String → Row → Bool
is_dead_orphan main operation namespace row =
    is_dead_memory operation namespace row && is_lost main namespace row

-- In a well-formed queue, pruning removes exactly the dead memory rows of the operation (or of
-- none) and namespace whose memory the main database no longer has, keeps all others in order, and
-- returns their number.
pub prune_dead_orphans_lem :
    (main : MainDb) (operation namespace : String) (queue : Queue)
    → IsWf queue
    → prune_dead_orphans main operation namespace queue ≡ (
      delete (is_dead_orphan main operation namespace) queue,
      count (is_dead_orphan main operation namespace) queue,
    )
unfolding prune_dead_orphans count
prune_dead_orphans_lem main operation namespace queue wf =
    let dead : Row → Bool = is_dead_memory operation namespace in
    let lost : Row → Bool = is_lost main namespace in
    let both = filter-filter dead lost queue.rows in
    prune_each_lem main namespace (filter dead queue.rows) queue
    ∙ rw
        (
          both,
          delete_cong (λ row. has_id row.id (filter (λ r. dead r && lost r) queue.rows))
              (is_dead_orphan main operation namespace) queue
              (has_id-filter (λ r. dead r && lost r) queue.rows wf.differ),
        )
        refl

update-update :
    (p q : Row → Bool) (f : Row → Row) (queue : Queue)
    → ((r : Row) → q (f r) ≡ false)
    → update q f (update p f queue) ≡ update (λ r. p r || q r) f queue
unfolding update update_row
update-update p q f queue h =
    let step =
      map-map (update_row p f) (update_row q f) queue.rows
      ∙ map_cong (λ r. update_row q f (update_row p f r)) (update_row (λ r. p r || q r) f)
          queue.rows
          (λ r i. elim (Bool-cases (p r)) [ inl e ↦ rw (e, h r) refl | inr e ↦ rw e refl ]) in
    rw step refl

pub update_cong :
    (p q : Row → Bool) (f : Row → Row) (queue : Queue)
    → ((r : Row) → In r queue.rows → p r ≡ q r)
    → update p f queue ≡ update q f queue
unfolding update update_row
update_cong p q f queue h =
    let step = map_cong (update_row p f) (update_row q f) queue.rows (λ r i. rw (h r i) refl) in
    rw step refl

pub update_none : (f : Row → Row) (queue : Queue) → update (λ r. false) f queue ≡ queue
unfolding update update_row
update_none f queue = rw (map_id queue.rows) refl

module _ (parse : String → Option ℤ) (main : MainDb) where
  abbrev satisfied : String → Row → Bool
  satisfied namespace row = is_satisfied parse main namespace row.item_key

  reconcile_each_lem :
      (now : ℕ) (namespace : String) (rs : List Row) (queue : Queue)
      → (reconcile_each parse main now namespace rs queue).0
        ≡ update
            (λ row. has_id row.id (filter (satisfied namespace) rs) && is_pending row.status)
            (reconcile_row parse main now)
            queue
  unfolding reconcile_each has_id filter reconcile_row
  reconcile_each_lem now namespace [] queue = sym (update_none (reconcile_row parse main now) queue)
  reconcile_each_lem now namespace (r ∷ rs) queue =
      let f : Row → Row = reconcile_row parse main now in
      let here : Row → Bool = λ row. row.id == r.id && is_pending row.status in
      let later : Row → Bool =
        λ row. has_id row.id (filter (satisfied namespace) rs) && is_pending row.status in
      elim (Bool-cases (is_satisfied parse main namespace r.item_key)) [
        | inl e ↦
            rw
              (
                e,
                reconcile_each_lem now namespace rs (update here f queue),
                update-update here later f queue (λ s. ground arith),
              )
              (update_cong (λ row. here row || later row)
                (λ row.
                  (row.id == r.id || has_id row.id (filter (satisfied namespace) rs))
                  && is_pending row.status)
                f queue (λ s i. ground arith))
        | inr e ↦ rw (e, reconcile_each_lem now namespace rs queue) refl
      ]

  abbrev pub is_reconciled : String → Row → Bool
  is_reconciled namespace row =
      is_pending_reembed parse main namespace row && is_satisfied parse main namespace row.item_key

  -- In a well-formed queue, reconciling marks done exactly the pending re-embed rows of the
  -- namespace whose vector the main database already has, and leaves all others as they are.
  pub reconcile_lem :
      (now : ℕ) (namespace : String) (queue : Queue)
      → IsWf queue
      → (reconcile_satisfied_reembed_pending parse main now namespace queue).0
        ≡ update (is_reconciled namespace) (reconcile_row parse main now) queue
  unfolding reconcile_satisfied_reembed_pending is_pending_reembed
  reconcile_lem now namespace queue wf =
      let wanted : Row → Bool = is_pending_reembed parse main namespace in
      let good : Row → Bool = satisfied namespace in
      reconcile_each_lem now namespace (filter wanted queue.rows) queue
      ∙ rw (filter-filter wanted good queue.rows) (
          update_cong
            (λ row.
              has_id row.id (filter (λ r. wanted r && good r) queue.rows) && is_pending row.status)
            (is_reconciled namespace) (reconcile_row parse main now) queue
            (λ r i.
              let e = has_id-filter (λ r. wanted r && good r) queue.rows wf.differ r i in
              rw e (ground arith)))
