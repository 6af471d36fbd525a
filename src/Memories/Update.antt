-- ===== src/Memories/Update.antt =====
-- The optimistic update of src/storage/memories/crud.rs.
use sqlite_graphrag.Base.{
  ℕ, ◌≡◌, ◌≢◌, refl, sym, ap, ◌∙◌, inl, inr, String, Bool, true, false, some, List, [], ◌∷◌, ◌==◌,
  ==_iff, filter, arith, In, here, there, In-map_intro, Bool-cases, ok, Result-cases,
}
use sqlite_graphrag.Knowledge.{set_where}
use sqlite_graphrag.Knowledge.Tables.{In-set_where}
use sqlite_graphrag.Knowledge.Good.{Holds}
use sqlite_graphrag.Memories.Rows.{
  DifferRow, IsWf, KeepsName, filter_one, stamped, update_rows-IsWf,
}
use sqlite_graphrag.Memories.{
  NewMemory, MemoryRow, Memories, is_current, overwrite, update_rows, affected, update,
  validate_source,
}

-- A statement that no row passes.
set_where-none :
    {A : Type 0} (p : A → Bool) (change : A → A) (xs : List A)
    → ((x : A) → In x xs → p x ≡ false)
    → (set_where p change xs ≡ xs) × (filter p xs ≡ [])
unfolding filter
set_where-none p change [] h = (refl, refl)
set_where-none p change (x ∷ xs) h =
    let (a, b) = set_where-none p change xs (λ y i. h y (there i)) in
    let e = h x (here refl) in (rw (e, a) refl, rw (e, b) refl)

-- After a statement that stamps its rows with another time, none has the time expected.
restamped :
    (now id ts : ℕ) (change : MemoryRow → MemoryRow) (rows : List MemoryRow)
    → now ≢ ts
    → (r : MemoryRow)
    → In r
        (set_where (is_current id (some ts)) (λ row. record (change row) { updated_at = now }) rows)
    → is_current id (some ts) r ≡ false
restamped now id ts change rows other r i =
    let (y, j, c) =
      In-set_where (is_current id (some ts)) (λ row. record (change row) { updated_at = now }) rows
        i in
    elim c [
      | inr (f, q) ↦ rw q f
      | inl (f, q) ↦
          let stamp : r.updated_at ≡ now = ap (λ x. x.updated_at) q in
          let late : (r.updated_at == ts) ≡ false = elim (Bool-cases (r.updated_at == ts)) [
            | inl e ↦ absurd (other (sym stamp ∙ (==_iff r.updated_at ts).0 e))
            | inr e ↦ e
          ] in
          ground arith
    ]

update-none :
    (later id ts : ℕ) (n : NewMemory) (source : String) (table : Memories)
    → validate_source n.source ≡ ok source
    → ((r : MemoryRow) → In r table.rows → is_current id (some ts) r ≡ false)
    → update later id n (some ts) table ≡ ok (false, table)
unfolding update update_rows
update-none later id ts n source table valid h =
    let (a, b) =
      set_where-none (is_current id (some ts))
        (λ row. record (overwrite n source row) { updated_at = later }) table.rows h in
    rw (valid, update, b, a) refl

-- An update that expects the time `ts`, at another time `now`, makes any later valid update that
-- expects `ts` of the same memory fail: it reports false and changes nothing.
pub update-stale :
    (now later id ts : ℕ) (m n : NewMemory) (source : String) (table : Memories)
    → now ≢ ts
    → validate_source n.source ≡ ok source
    → Holds
        (λ x. update later id n (some ts) x.1 ≡ ok (false, x.1))
        (update now id m (some ts) table)
unfolding update_rows update
update-stale now later id ts m n source table other valid =
    elim (Result-cases (validate_source m.source)) [
      | inr (e, bad) ↦ rw (bad, update) tt
      | inl (s, fine) ↦
          let table' = update_rows now (is_current id (some ts)) (overwrite m s) table in
          let refused : update later id n (some ts) table' ≡ ok (false, table') =
            update-none later id ts n source table' valid
              (restamped now id ts (overwrite m s) table.rows other) in
          rw (fine, update) refused
    ]

-- The row with its id, found at the time it was last updated.
update_one :
    (now id ts : ℕ) (m : NewMemory) (source : String) (table : Memories) (row : MemoryRow)
    → IsWf table
    → validate_source m.source ≡ ok source
    → In row table.rows
    → is_current id (some ts) row ≡ true
    → update now id m (some ts) table
      ≡ ok (true, update_rows now (is_current id (some ts)) (overwrite m source) table)
unfolding update
update_one now id ts m source table row wf valid i current =
    let one : affected (is_current id (some ts)) table ≡ 1 =
      filter_one DifferRow (is_current id (some ts)) table.rows wf
        (λ x y d e. elim (Bool-cases (y.id == id)) [
          | inr f ↦ ground arith
          | inl f ↦
              let a : x.id ≡ id = (==_iff x.id id).0 (ground arith) in
              let b : y.id ≡ id = (==_iff y.id id).0 f in absurd (d.0 (a ∙ sym b))
        ])
        i current in
    rw (valid, update, one) refl

-- A row, in the fields that an update writes.
abbrev pub written : ℕ → NewMemory → String → MemoryRow → MemoryRow
written now m source row = record row {
  memory_type = m.memory_type;
  description = m.description;
  body = m.body;
  body_hash = m.body_hash;
  session_id = m.session_id;
  source = source;
  metadata = m.metadata;
  updated_at = now;
}

stamped-written :
    (now id ts : ℕ) (m : NewMemory) (source : String) (row : MemoryRow)
    → is_current id (some ts) row ≡ true
    → stamped now (is_current id (some ts)) (overwrite m source) row ≡ written now m source row
unfolding overwrite
stamped-written now id ts m source row current = rw current refl

overwrite-KeepsName : (m : NewMemory) (s : String) (r : MemoryRow) → KeepsName r (overwrite m s r)
unfolding overwrite
overwrite-KeepsName m s r = (refl, refl, refl)

-- Within the second in which a live memory was last updated, two valid updates that expect that
-- time both report success, and the second overwrites what the first wrote: after the first the
-- memory has the first's contents, and after the second the second's.
pub update_same_second :
    (id now : ℕ) (m n : NewMemory) (s t : String) (table : Memories) (row : MemoryRow)
    → IsWf table
    → validate_source m.source ≡ ok s
    → validate_source n.source ≡ ok t
    → In row table.rows
    → is_current id (some now) row ≡ true
    → (table' table'' : Memories) × (update now id m (some now) table ≡ ok (true, table'))
      × In (written now m s row) table'.rows
      × (update now id n (some now) table' ≡ ok (true, table''))
      × In (written now n t row) table''.rows
unfolding update_rows
update_same_second id now m n s t table row wf fine valid i current =
    let cond = is_current id (some now) in
    let table' = update_rows now cond (overwrite m s) table in
    let new = written now m s row in
    let first : In new table'.rows =
      rw (← stamped-written now id now m s row current)
        (In-map_intro (stamped now cond (overwrite m s)) table.rows i) in
    let still : cond new ≡ true = let same = (==_iff now now).1 refl in ground arith in
    (
      table',
      update_rows now cond (overwrite n t) table',
      update_one now id now m s table row wf fine i current,
      first,
      update_one now id now n t table' new
          (update_rows-IsWf now cond (overwrite m s) table (overwrite-KeepsName m s) wf) valid first
          still,
      rw (← stamped-written now id now n t new still)
          (In-map_intro (stamped now cond (overwrite n t)) table'.rows first),
    )
