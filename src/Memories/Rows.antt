-- ===== src/Memories/Rows.antt =====
-- The table `memories`: its unique keys, and statements that touch one row of it.
use sqlite_graphrag.Base.{
  ℕ, ◌≡◌, ◌≢◌, refl, sym, ap, ◌∙◌, inl, inr, String, Bool, true, false, some, List, [], ◌∷◌, eq_iff,
  filter, length, arith, In, here, there, In-cons, In-nil, All, Bool-cases, if◌then◌else◌,
}
use sqlite_graphrag.Knowledge.{first}
use sqlite_graphrag.Knowledge.Tables.{AllPairs, AllPairs-In, map-AllPairs}
use sqlite_graphrag.Memories.{MemoryRow, Memories, is_named, update_rows}

abbrev pub DifferRow : MemoryRow → MemoryRow → Type 0
DifferRow r s = (r.id ≢ s.id) × ¬ ((r.namespace ≡ s.namespace) × (r.name ≡ s.name))

-- Ids are unique, and so are names within a namespace.
abbrev pub IsWf : Memories → Type 0
IsWf table = AllPairs DifferRow table.rows

module _ {A : Type 0} (R : A → A → Type 0) (p : A → Bool) where
  -- The test holds of no two rows.
  abbrev pub IsSingle : Type 0
  IsSingle = (x y : A) → R x y → p x ≡ true → p y ≡ false

  filter_none : (x : A) (xs : List A) → All (R x) xs → IsSingle → p x ≡ true → filter p xs ≡ []
  unfolding filter
  filter_none x [] h one e = refl
  filter_none x (y ∷ xs) h one e = let f = one x y h.0 e in rw (f, filter_none x xs h.1 one e) refl

  pub filter_one :
      (xs : List A) {x : A}
      → AllPairs R xs
      → IsSingle
      → In x xs
      → p x ≡ true
      → length (filter p xs) ≡ 1
  unfolding filter
  filter_one [] h one i e = absurd (In-nil i)
  filter_one (y ∷ xs) {x} h one i e = elim (Bool-cases (p y)) [
    | inl f ↦ rw (f, filter_none y xs h.0 one f) refl
    | inr f ↦ elim (In-cons i) [
      | inl q ↦ let g : p x ≡ false = ap p q ∙ f in absurd (ground arith)
      | inr j ↦ rw f (filter_one xs h.1 one j e)
    ]
  ]

pub first_one :
    {A : Type 0} (p : A → Bool) (xs : List A) {x : A}
    → ((y : A) → In y xs → p y ≡ true → y ≡ x)
    → In x xs
    → p x ≡ true
    → first p xs ≡ some x
first_one p [] same i e = absurd (In-nil i)
first_one p (y ∷ xs) {x} same i e = elim (Bool-cases (p y)) [
  | inl f ↦ let q = same y (here refl) f in rw (f, q) refl
  | inr f ↦ elim (In-cons i) [
    | inl q ↦ let g : p x ≡ false = ap p q ∙ f in absurd (ground arith)
    | inr j ↦ let rest = first_one p xs (λ z k. same z (there k)) j e in rw (f, rest) refl
  ]
]

pub is_named-name :
    (namespace name : String) (r : MemoryRow)
    → is_named namespace name r ≡ true
    → (r.namespace ≡ namespace) × (r.name ≡ name)
is_named-name namespace name r e =
    ((eq_iff r.namespace namespace).0 (ground arith), (eq_iff r.name name).0 (ground arith))

pub named_same :
    (namespace name : String) (table : Memories) {r s : MemoryRow}
    → IsWf table
    → In r table.rows
    → In s table.rows
    → is_named namespace name r ≡ true
    → is_named namespace name s ≡ true
    → r ≡ s
named_same namespace name table {r} {s} wf i j e f =
    let (rn, rm) = is_named-name namespace name r e in
    let (sn, sm) = is_named-name namespace name s f in
    elim (AllPairs-In DifferRow table.rows wf i j) [
      | inl same ↦ same
      | inr (inl d) ↦ absurd (d.1 (rn ∙ sym sn, rm ∙ sym sm))
      | inr (inr d) ↦ absurd (d.1 (sn ∙ sym rn, sm ∙ sym rm))
    ]

pub id_same :
    (table : Memories) {r s : MemoryRow}
    → IsWf table
    → In r table.rows
    → In s table.rows
    → r.id ≡ s.id
    → r ≡ s
id_same table wf i j e = elim (AllPairs-In DifferRow table.rows wf i j) [
  | inl same ↦ same
  | inr (inl d) ↦ absurd (d.0 e)
  | inr (inr d) ↦ absurd (d.0 (sym e))
]

-- What a statement does to one row.
abbrev pub stamped : ℕ → (MemoryRow → Bool) → (MemoryRow → MemoryRow) → MemoryRow → MemoryRow
stamped now cond change row = if cond row then record (change row) { updated_at = now } else row

abbrev pub KeepsName : MemoryRow → MemoryRow → Type 0
KeepsName r s = (r.id ≡ s.id) × (r.namespace ≡ s.namespace) × (r.name ≡ s.name)

pub stamped-KeepsName :
    (now : ℕ) (cond : MemoryRow → Bool) (change : MemoryRow → MemoryRow)
    → ((r : MemoryRow) → KeepsName r (change r))
    → (r : MemoryRow) → KeepsName r (stamped now cond change r)
stamped-KeepsName now cond change keeps r = elim (Bool-cases (cond r)) [
  | inl e ↦ rw e (keeps r)
  | inr e ↦ rw e (refl, refl, refl)
]

-- Updates of other columns keep the table sound.
pub update_rows-IsWf :
    (now : ℕ) (cond : MemoryRow → Bool) (change : MemoryRow → MemoryRow) (table : Memories)
    → ((r : MemoryRow) → KeepsName r (change r))
    → IsWf table
    → IsWf (update_rows now cond change table)
unfolding update_rows
update_rows-IsWf now cond change table keeps wf =
    let k = stamped-KeepsName now cond change keeps in
    map-AllPairs DifferRow (stamped now cond change) table.rows
      (λ x y (ids, names). (
        λ e. ids ((k x).0 ∙ e ∙ sym (k y).0),
        λ (ns, nm). names ((k x).1 ∙ ns ∙ sym (k y).1, (k x).2 ∙ nm ∙ sym (k y).2),
      ))
      wf
