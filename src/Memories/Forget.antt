-- ===== src/Memories/Forget.antt =====
-- Soft deletion: src/commands/forget.rs and src/storage/memories/soft_delete.rs.
use sqlite_graphrag.Base.{
  ℕ, ◌≡◌, refl, sym, ap, ◌∙◌, inl, inr, String, Bool, true, false, none, some, ◌==◌, ==_iff, arith,
  In, In-map, In-map_intro, Bool-cases, Option-cases, ok,
}
use sqlite_graphrag.Knowledge.{first}
use sqlite_graphrag.Knowledge.Tables.{first-some}
use sqlite_graphrag.Memories.Rows.{
  DifferRow, IsWf, is_named-name, filter_one, first_one, named_same, id_same, stamped, KeepsName,
  stamped-KeepsName, update_rows-IsWf,
}
use sqlite_graphrag.Memories.{
  MemoryRow, Memories, is_live, is_named, is_live_named, update_rows, affected, read_by_name,
  find_by_name_any_state, clear_deleted_at, soft_delete, deleted_at_of, soft_deleted, forget,
}

module _ (namespace name : String) (table : Memories) (row : MemoryRow) (wf : IsWf table) where
  -- The row of the name, in a table whose rows are stamped by a statement.
  named_after :
      (now : ℕ) (cond : MemoryRow → Bool) (change : MemoryRow → MemoryRow)
      → ((r : MemoryRow) → KeepsName r (change r))
      → In row table.rows
      → is_named namespace name row ≡ true
      → (s : MemoryRow) → In s (update_rows now cond change table).rows
      → is_named namespace name s ≡ true
      → s ≡ stamped now cond change row
  unfolding update_rows
  named_after now cond change keeps i e s j f =
      let (r, k, q) = In-map (stamped now cond change) table.rows j in
      let (a, b, c) = stamped-KeepsName now cond change keeps r in
      let ns : s.namespace ≡ r.namespace = ap (λ x. x.namespace) q ∙ sym b in
      let nm : s.name ≡ r.name = ap (λ x. x.name) q ∙ sym c in
      let g : is_named namespace name r ≡ true = rw (← ns, ← nm) f in
      q ∙ ap (stamped now cond change) (named_same namespace name table wf k i g e)

  only_one :
      In row table.rows
      → is_live_named namespace name row ≡ true
      → affected (is_live_named namespace name) table ≡ 1
  only_one i e =
      filter_one DifferRow (is_live_named namespace name) table.rows wf
        (λ x y d f. elim (Bool-cases (is_live_named namespace name y)) [
          | inr g ↦ g
          | inl g ↦ absurd (apart x y d (ground arith) (ground arith))
        ])
        i e
    where
      apart :
          (x y : MemoryRow)
          → DifferRow x y
          → is_named namespace name x ≡ true
          → is_named namespace name y ≡ true
          → ⊥
      apart x y d f g =
          let (xn, xm) = is_named-name namespace name x f in
          let (yn, ym) = is_named-name namespace name y g in d.1 (xn ∙ sym yn, xm ∙ sym ym)

In-map_rows :
    (now : ℕ) (cond : MemoryRow → Bool) (change : MemoryRow → MemoryRow) (table : Memories)
    {row : MemoryRow}
    → In row table.rows
    → In (stamped now cond change row) (update_rows now cond change table).rows
unfolding update_rows
In-map_rows now cond change table i = In-map_intro (stamped now cond change) table.rows i

live_none : (row : MemoryRow) → is_live row ≡ true → row.deleted_at ≡ none
live_none row e = elim (Option-cases row.deleted_at) [ inl f ↦ f | inr (t, f) ↦ ground arith ]

deleted_at_of-some :
    (id : ℕ) (table : Memories) (row : MemoryRow)
    → IsWf table
    → In row table.rows
    → row.id ≡ id
    → deleted_at_of id table ≡ row.deleted_at
unfolding deleted_at_of
deleted_at_of-some id table row wf i q =
    let is_it : MemoryRow → Bool = λ r. r.id == id in
    let f : first is_it table.rows ≡ some row =
      first_one is_it table.rows (λ y j f. id_same table wf j i ((==_iff y.id id).0 f ∙ sym q)) i
        ((==_iff row.id id).1 q) in
    rw (f, deleted_at_of) refl

abbrev mark_deleted : ℕ → MemoryRow → MemoryRow
mark_deleted now r = record r { deleted_at = some now }

forget_live :
    (now : ℕ) (namespace name : String) (table : Memories) (row : MemoryRow)
    → first (is_named namespace name) table.rows ≡ some row
    → row.deleted_at ≡ none
    → affected (is_live_named namespace name) table ≡ 1
    → deleted_at_of row.id (update_rows now (is_live_named namespace name) (mark_deleted now) table)
      ≡ some now
    → forget now namespace name table
      ≡ ok (
        soft_deleted (some now),
        update_rows now (is_live_named namespace name) (mark_deleted now) table,
      )
unfolding forget soft_delete
forget_live now namespace name table row it live one stamp = rw (it, live, one, stamp, forget) refl

-- A memory that can be read by name: forgetting it reports its deletion at that time, after which
-- it cannot be read by name but is still there, marked deleted; and clearing the mark makes it
-- readable again, unchanged but for the time of its update. The table's keys are unique.
pub forget-clear_deleted_at :
    (now later : ℕ) (namespace name : String) (table : Memories) (row : MemoryRow)
    → IsWf table
    → read_by_name namespace name table ≡ some row
    → (table' : Memories) × (forget now namespace name table ≡ ok (soft_deleted (some now), table'))
      × (read_by_name namespace name table' ≡ none)
      × (find_by_name_any_state namespace name table' ≡ some (row.id, true))
      × (read_by_name namespace name (clear_deleted_at later row.id table')
          ≡ some (record row { updated_at = later; deleted_at = none }))
unfolding read_by_name find_by_name_any_state clear_deleted_at
forget-clear_deleted_at now later namespace name table row wf found =
    let (i, e) = first-some (is_live_named namespace name) table.rows found in
    let live = live_none row (ground arith) in
    let named : is_named namespace name row ≡ true = ground arith in
    let cond = is_live_named namespace name in
    let mark = mark_deleted now in
    let gone = record row { deleted_at = some now; updated_at = now } in
    let table' = update_rows now cond mark table in
    let wf' = update_rows-IsWf now cond mark table (λ r. (refl, refl, refl)) wf in
    let becomes : stamped now cond mark row ≡ gone = rw e refl in
    let there_it_is : In gone table'.rows = rw (← becomes) (In-map_rows now cond mark table i) in
    let unmark : MemoryRow → MemoryRow = λ r. record r { deleted_at = none } in
    let is_it : MemoryRow → Bool = λ r. r.id == row.id in
    let back = record row { updated_at = later; deleted_at = none } in
    let table'' = update_rows later is_it unmark table' in
    let returns : stamped later is_it unmark gone ≡ back =
      rw ((==_iff row.id row.id).1 refl) refl in
    let one = only_one namespace name table row wf i e in
    let it : first (is_named namespace name) table.rows ≡ some row =
      first_one (is_named namespace name) table.rows
        (λ y j f. named_same namespace name table wf j i f named) i named in
    let stamp : deleted_at_of row.id table' ≡ some now =
      deleted_at_of-some row.id table' gone wf' there_it_is refl in
    let after =
      named_after namespace name table row wf now cond mark (λ r. (refl, refl, refl)) i named in
    let only : (s : MemoryRow) → In s table'.rows → is_named namespace name s ≡ true → s ≡ gone =
      λ s j f. after s j f ∙ becomes in
    let reported : forget now namespace name table ≡ ok (soft_deleted (some now), table') =
      forget_live now namespace name table row it live one stamp in
    let unread : read_by_name namespace name table' ≡ none =
      elim (Option-cases (first cond table'.rows)) [
        | inl f ↦ f
        | inr (s, f) ↦
            let (j, g) = first-some cond table'.rows f in
            let dead : is_live s ≡ false = rw (only s j (ground arith)) refl in
            absurd (ground arith)
      ] in
    let any : find_by_name_any_state namespace name table' ≡ some (row.id, true) =
      let f : first (is_named namespace name) table'.rows ≡ some gone =
        first_one (is_named namespace name) table'.rows only there_it_is named in
      rw (f, find_by_name_any_state) refl in
    let returned : In back table''.rows =
      rw (← returns) (In-map_rows later is_it unmark table' there_it_is) in
    let read : first cond table''.rows ≡ some back =
      first_one cond table''.rows
        (λ s j f.
          named_after namespace name table' gone wf' later is_it unmark (λ r. (refl, refl, refl))
            there_it_is named s j (ground arith)
          ∙ returns)
        returned (ground arith) in
    (table', reported, unread, any, read)
