-- ===== src/Queue/Statements.antt =====
-- What the statements on the queue of src/commands/enrich/ keep, one after the other.
use sqlite_graphrag.Base.{
  ℕ, suc, ◌≡◌, refl, sym, ◌∙◌, inl, inr, Bool, true, false, [], ◌∷◌, map, arith, In, In-append_left,
  In-map_intro, Bool-cases,
}
use sqlite_graphrag.Queue.{
  dead, Row, Queue, update_row, update, delete, conflicts, insert_or_ignore,
}
use sqlite_graphrag.Queue.WellFormed.{
  IsWf, KeepsKey, update-IsWf, delete-IsWf, insert_or_ignore-IsWf,
}

-- The statements that lead from one queue to another; where `kind` is true, none changes the
-- status of a dead row or deletes one.
pub data Via (kind : Bool) (q : Queue) : Queue → Type 0 where
  same : Via kind q q
  updated :
      {a b : Queue} (cond : Row → Bool) (change : Row → Row)
      → Via kind q a
      → b ≡ update cond change a
      → ((r : Row) → KeepsKey r (change r))
      → (kind ≡ true
          → (r : Row) → In r a.rows
          → cond r ≡ true
          → r.status ≡ dead
          → (change r).status ≡ dead)
      → Via kind q b
  deleted :
      {a b : Queue} (cond : Row → Bool)
      → Via kind q a
      → b ≡ delete cond a
      → kind ≡ false
      → Via kind q b
  inserted : {a b : Queue} (row : Row) → Via kind q a → b ≡ insert_or_ignore row a → Via kind q b

pub Via-IsWf : {kind : Bool} {q q' : Queue} → Via kind q q' → IsWf q → IsWf q'
Via-IsWf same wf = wf
Via-IsWf (updated {a} {b} cond change v e k d) wf =
    rw e (update-IsWf cond change a (λ r i t. k r) (Via-IsWf v wf))
Via-IsWf (deleted {a} {b} cond v e f) wf = rw e (delete-IsWf cond a (Via-IsWf v wf))
Via-IsWf (inserted {a} {b} row v e) wf = rw e (insert_or_ignore-IsWf row a (Via-IsWf v wf))

-- The row of this id is there, and dead.
abbrev pub DeadIn : ℕ → Queue → Type 0
DeadIn id q = (r : Row) × In r q.rows × (r.id ≡ id) × (r.status ≡ dead)

pub Via-DeadIn : {q q' : Queue} → Via true q q' → (id : ℕ) → DeadIn id q → DeadIn id q'
unfolding update update_row insert_or_ignore
Via-DeadIn same id h = h
Via-DeadIn (updated {a} {b} cond change v e k d) id h =
    let (r, i, p, s) = Via-DeadIn v id h in
    let g : Row → Row = update_row cond change in
    let there_too : In (g r) (map g a.rows) = In-map_intro g a.rows i in
    elim (Bool-cases (cond r)) [
      | inl t ↦ rw e (
        change r,
        (let to : g r ≡ change r = rw t refl in rw (← to) there_too),
        sym (k r).id ∙ p,
        d refl r i t s,
      )
      | inr f ↦ rw e (r, (let to : g r ≡ r = rw f refl in rw to at there_too), p, s)
    ]
Via-DeadIn (deleted {a} {b} cond v e f) id h = ground arith
Via-DeadIn (inserted {a} {b} row v e) id h =
    let (r, i, p, s) = Via-DeadIn v id h in
    elim (Bool-cases (conflicts row a.rows)) [
      | inl t ↦ rw (e, t) (r, i, p, s)
      | inr f ↦ rw (e, f) (r, In-append_left (record row { id = suc a.last_id } ∷ []) i, p, s)
    ]
