-- ===== src/Queue/WellFormed.antt =====
-- The queue's invariant, the table's keys of src/commands/enrich/queue.rs, and what the statements
-- do to it.
use sqlite_graphrag.Base.{
  ℕ, suc, ◌≤◌, ◌≡◌, refl, sym, ap, ◌∙◌, ◌≢◌, ◌↔◌, inl, inr, String, Bool, true, false, some, List,
  [], ◌∷◌, ◌++◌, map, eq_iff, filter, if◌then◌else◌, arith, In, here, there, In-cons, In-nil, All,
  All-In, Bool-cases, Option-cases, All-append,
}
use sqlite_graphrag.Queue.{
  Row, Queue, update_row, update, delete, same_key, conflicts, insert_or_ignore,
}

-- The three columns of the key are equal, and the operation is not NULL.
pub record SameKey (r s : Row) : Type 0 where
  pub namespace : r.namespace ≡ s.namespace
  pub item_key : r.item_key ≡ s.item_key
  pub operation : (o : String) × (r.operation ≡ some o) × (s.operation ≡ some o)

abbrev pub Differ : Row → Row → Type 0
Differ r s = (r.id ≢ s.id) × ¬ SameKey r s

abbrev pub AllDiffer : List Row → Type 0
AllDiffer [] = Unit
AllDiffer (r ∷ rs) = All (Differ r) rs × AllDiffer rs

-- No id is above the counter; no two rows have the same id or the same key.
pub record IsWf (queue : Queue) : Type 0 where
  pub below : All (λ r. r.id ≤ queue.last_id) queue.rows
  pub differ : AllDiffer queue.rows

-- What an update keeps of a row.
pub record KeepsKey (r s : Row) : Type 0 where
  pub id : r.id ≡ s.id
  pub namespace : r.namespace ≡ s.namespace
  pub item_key : r.item_key ≡ s.item_key
  pub operation : r.operation ≡ s.operation

pub same_key_iff : (r s : Row) → (same_key r s ≡ true) ↔ SameKey r s
unfolding same_key
same_key_iff r s = (
  λ h. elim (Option-cases r.operation) [
    | inl p ↦ ground arith
    | inr (o, p) ↦ elim (Option-cases s.operation) [
      | inl q ↦ ground arith
      | inr (o', q) ↦ record {
        namespace = (eq_iff r.namespace s.namespace).0 (ground arith);
        item_key = (eq_iff r.item_key s.item_key).0 (ground arith);
        operation = (o, p, q ∙ ap some ((eq_iff o' o).0 (ground arith)));
      }
    ]
  ],
  λ k.
      let (o, p, q) = k.operation in
      let e = (eq_iff r.namespace s.namespace).1 k.namespace in
      let f = (eq_iff r.item_key s.item_key).1 k.item_key in
      let g = (eq_iff o o).1 refl in rw (p, q, e, f, g) refl,
)

pub SameKey-sym : {r s : Row} → SameKey r s → SameKey s r
SameKey-sym k = record {
  namespace = sym k.namespace;
  item_key = sym k.item_key;
  operation = let (o, p, q) = k.operation in (o, q, p);
}

pub KeepsKey-refl : (r : Row) → KeepsKey r r
KeepsKey-refl r = record { id = refl; namespace = refl; item_key = refl; operation = refl }

Differ-KeepsKey : {r r' s s' : Row} → KeepsKey r r' → KeepsKey s s' → Differ r s → Differ r' s'
Differ-KeepsKey k l (i, d) = (
  λ e. i (k.id ∙ e ∙ sym l.id),
  λ same. d (record {
    namespace = k.namespace ∙ same.namespace ∙ sym l.namespace;
    item_key = k.item_key ∙ same.item_key ∙ sym l.item_key;
    operation = let (o, p, q) = same.operation in (o, k.operation ∙ p, l.operation ∙ q);
  }),
)

-- A map over the rows that keeps every key.
module _ (g : Row → Row) where
  abbrev Keeps : List Row → Type 0
  Keeps rs = (r : Row) → In r rs → KeepsKey r (g r)

  map-Differ :
      {r r' : Row}
      → KeepsKey r r'
      → (rs : List Row) → Keeps rs
      → All (Differ r) rs
      → All (Differ r') (map g rs)
  map-Differ k [] h d = tt
  map-Differ k (s ∷ rs) h d =
      (Differ-KeepsKey k (h s (here refl)) d.0, map-Differ k rs (λ t i. h t (there i)) d.1)

  map-AllDiffer : (rs : List Row) → Keeps rs → AllDiffer rs → AllDiffer (map g rs)
  map-AllDiffer [] h d = tt
  map-AllDiffer (r ∷ rs) h d =
      let later : Keeps rs = λ t i. h t (there i) in
      (map-Differ (h r (here refl)) rs later d.0, map-AllDiffer rs later d.1)

  map-below :
      (n : ℕ) (rs : List Row) → Keeps rs → All (λ r. r.id ≤ n) rs → All (λ r. r.id ≤ n) (map g rs)
  map-below n [] h b = tt
  map-below n (r ∷ rs) h b =
      (omega (arith, b.0, (h r (here refl)).id), map-below n rs (λ t i. h t (there i)) b.1)

update_row-KeepsKey :
    (cond : Row → Bool) (change : Row → Row) (r : Row)
    → (cond r ≡ true → KeepsKey r (change r))
    → KeepsKey r (update_row cond change r)
unfolding update_row
update_row-KeepsKey cond change r h = elim (Bool-cases (cond r)) [
  | inl e ↦ rw e (h e)
  | inr e ↦ rw e (KeepsKey-refl r)
]

pub update-IsWf :
    (cond : Row → Bool) (change : Row → Row) (queue : Queue)
    → ((r : Row) → In r queue.rows → cond r ≡ true → KeepsKey r (change r))
    → IsWf queue
    → IsWf (update cond change queue)
unfolding update
update-IsWf cond change queue h wf =
    let keeps : Keeps (update_row cond change) queue.rows =
      λ r i. update_row-KeepsKey cond change r (h r i) in
    record {
      below = map-below (update_row cond change) queue.last_id queue.rows keeps wf.below;
      differ = map-AllDiffer (update_row cond change) queue.rows keeps wf.differ;
    }

filter-All : (P : Row → Type 0) (p : Row → Bool) (rs : List Row) → All P rs → All P (filter p rs)
unfolding filter
filter-All P p [] h = tt
filter-All P p (r ∷ rs) h = elim (Bool-cases (p r)) [
  | inl e ↦ rw e (h.0, filter-All P p rs h.1)
  | inr e ↦ rw e (filter-All P p rs h.1)
]

pub filter-AllDiffer : (p : Row → Bool) (rs : List Row) → AllDiffer rs → AllDiffer (filter p rs)
unfolding filter
filter-AllDiffer p [] h = tt
filter-AllDiffer p (r ∷ rs) h = elim (Bool-cases (p r)) [
  | inl e ↦ rw e (filter-All (Differ r) p rs h.0, filter-AllDiffer p rs h.1)
  | inr e ↦ rw e (filter-AllDiffer p rs h.1)
]

pub delete-IsWf : (cond : Row → Bool) (queue : Queue) → IsWf queue → IsWf (delete cond queue)
unfolding delete
delete-IsWf cond queue wf =
    let keep : Row → Bool = λ row. if cond row then false else true in
    record {
      below = filter-All (λ r. r.id ≤ queue.last_id) keep queue.rows wf.below;
      differ = filter-AllDiffer keep queue.rows wf.differ;
    }

pub conflicts-SameKey :
    (row : Row) (rs : List Row) → conflicts row rs ≡ false → {r : Row} → In r rs → ¬ SameKey row r
unfolding conflicts
conflicts-SameKey row [] h i = absurd (In-nil i)
conflicts-SameKey row (s ∷ rs) h {r} i = elim (In-cons i) [
  | inl e ↦ λ k. let t = (same_key_iff row s).1 (rw (← e) k) in ground arith
  | inr j ↦ elim (Bool-cases (same_key row s)) [
    | inl t ↦ ground arith
    | inr f ↦ conflicts-SameKey row rs (ground arith) j
  ]
]

append-AllDiffer :
    (rs : List Row) (row : Row)
    → ((r : Row) → In r rs → Differ r row)
    → AllDiffer rs
    → AllDiffer (rs ++ (row ∷ []))
append-AllDiffer [] row h d = (tt, tt)
append-AllDiffer (r ∷ rs) row h d = (
  All-append (Differ r) rs (row ∷ []) d.0 (h r (here refl), tt),
  append-AllDiffer rs row (λ s i. h s (there i)) d.1,
)

below_suc : (n : ℕ) (rs : List Row) → All (λ r. r.id ≤ n) rs → All (λ r. r.id ≤ suc n) rs
below_suc n [] h = tt
below_suc n (r ∷ rs) h = (omega (arith, h.0), below_suc n rs h.1)

pub insert_or_ignore-IsWf :
    (row : Row) (queue : Queue) → IsWf queue → IsWf (insert_or_ignore row queue)
unfolding insert_or_ignore
insert_or_ignore-IsWf row queue wf = elim (Bool-cases (conflicts row queue.rows)) [
  | inl e ↦
      rw e (record { below = below_suc queue.last_id queue.rows wf.below; differ = wf.differ })
  | inr e ↦ rw e (record {
    below =
        All-append (λ r. r.id ≤ suc queue.last_id) queue.rows (new ∷ [])
          (below_suc queue.last_id queue.rows wf.below) (omega arith, tt);
    differ = append-AllDiffer queue.rows new (λ r i. fresh r i e) wf.differ;
  })
]
  where
    new : Row
    new = record row { id = suc queue.last_id }

    fresh : (r : Row) → In r queue.rows → conflicts row queue.rows ≡ false → Differ r new
    fresh r i e = (
      λ same. absurd (omega (arith, All-In (λ s. s.id ≤ queue.last_id) queue.rows wf.below i)),
      λ k.
          let back = SameKey-sym k in
          conflicts-SameKey row queue.rows e i (record {
            namespace = back.namespace;
            item_key = back.item_key;
            operation = back.operation;
          }),
    )

-- In a well-formed queue the id names the row.
pub same_id : (rs : List Row) → AllDiffer rs → {r s : Row} → In r rs → In s rs → r.id ≡ s.id → r ≡ s
same_id [] d i j e = absurd (In-nil i)
same_id (x ∷ rs) d {r} {s} i j e = elim (In-cons i) [
  | inl p ↦ elim (In-cons j) [
    | inl q ↦ p ∙ sym q
    | inr q ↦ absurd ((All-In (Differ x) rs d.0 q).0 (ap (λ t. t.id) (sym p) ∙ e))
  ]
  | inr p ↦ elim (In-cons j) [
    | inl q ↦ absurd ((All-In (Differ x) rs d.0 p).0 (ap (λ t. t.id) (sym q) ∙ sym e))
    | inr q ↦ same_id rs d.1 p q e
  ]
]
