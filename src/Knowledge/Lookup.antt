-- ===== src/Knowledge/Lookup.antt =====
-- What the upserts of src/storage/entities/mod.rs write, and that it is found again by name.
use sqlite_graphrag.Base.{
  ℕ, suc, ◌≤◌, ◌≡◌, refl, ap, ◌∙◌, inl, inr, String, Bool, true, false, eq_iff, Option, none, some,
  List, [], ◌∷◌, ◌++◌, ltb, length, In, arith, Bool-cases, Option-cases, if◌then◌else◌, Result, ok,
}
use sqlite_graphrag.Errors.{AppError}
use sqlite_graphrag.Labels.{
  Label, codes, label_eq, IsUnicode, normalize_entity_name, validate_entity_name,
  normalize_entity_type,
}
use sqlite_graphrag.Labels.Trim.{label_eq_iff}
use sqlite_graphrag.Labels.Names.{normalize_entity_name_idem}
use sqlite_graphrag.Knowledge.{Entity, Db, Platform, first, set_where, is_named}
use sqlite_graphrag.Knowledge.Tables.{exists_intro, first-some, first-none}
use sqlite_graphrag.Knowledge.Entities.{
  NewEntity, coalesce, entity_named, write_entity, query_row, upsert_entity_with, upsert_entity,
  upsert_entity_preserving_type, find_entity_id,
}

-- The row that an upsert is to leave, given the row that it finds: a new one under the next id, or
-- the old one with the type chosen, and the description given, if there is one.
abbrev pub row_after :
    (Label → Label → Label) → String → Label → Label → Option String → Db → Option Entity → Entity
row_after choose namespace name kind description db none = record {
  id = suc db.last_entity_id;
  namespace = namespace;
  name = name;
  kind = kind;
  description = description;
  degree = 0;
}
row_after choose namespace name kind description db (some old) = record old {
  kind = choose kind old.kind;
  description = coalesce description old.description;
}

first-set_where :
    {A : Type 0} (p : A → Bool) (f : A → A) (xs : List A) {x : A}
    → ((y : A) → p y ≡ true → p (f y) ≡ true)
    → first p xs ≡ some x
    → first p (set_where p f xs) ≡ some (f x)
first-set_where p f [] keeps h = cc
first-set_where p f (y ∷ xs) {x} keeps h = elim (Bool-cases (p y)) [
  | inl e ↦
      let same : y ≡ x = ground arith in let g = keeps y e in rw (e, g) (ap (λ z. some (f z)) same)
  | inr e ↦ let rest = first-set_where p f xs keeps (ground arith) in rw (e, e, rest) refl
]

first-append :
    {A : Type 0} (p : A → Bool) (xs : List A) (y : A)
    → first p xs ≡ none
    → p y ≡ true
    → first p (xs ++ (y ∷ [])) ≡ some y
first-append p [] y h e = rw e refl
first-append p (x ∷ xs) y h e = elim (Bool-cases (p x)) [
  | inl f ↦ ground arith
  | inr f ↦ let rest = first-append p xs y (ground arith) e in rw (f, rest) refl
]

write_entity-first :
    (choose : Label → Label → Label) (namespace : String) (name kind : Label)
    (description : Option String) (db : Db)
    → let old = first (is_named namespace name) db.entities in
      first
        (is_named namespace name)
        (write_entity choose namespace name kind description db).entities
      ≡ some (row_after choose namespace name kind description db old)
unfolding write_entity
write_entity-first choose namespace name kind description db =
    let p = is_named namespace name in
    elim (Option-cases (first p db.entities)) [
      | inl f ↦
          let fresh = first-none p db.entities f in
          let named : p (row_after choose namespace name kind description db none) ≡ true =
            let a = (eq_iff namespace namespace).1 refl in
            let b = (label_eq_iff name name).1 refl in ground arith in
          rw (f, fresh)
            (first-append p db.entities (row_after choose namespace name kind description db none) f
              named)
      | inr (old, f) ↦
          let (i, e) = first-some p db.entities f in
          let there_is = exists_intro p db.entities i e in
          rw (f, there_is)
            (first-set_where p (λ x. row_after choose namespace name kind description db (some x))
              db.entities (λ y h. h) f)
    ]

-- What an upsert with this choice of the type returns and leaves.
abbrev pub IsStored :
    (Label → Label → Label)
    → Platform
    → String
    → NewEntity
    → Label
    → Db
    → Result AppError (ℕ × Db)
    → Type 0
IsStored choose platform namespace e kind db result =
    let name = normalize_entity_name platform.unicode e.name in
    let old = first (is_named namespace name) db.entities in
    let row = row_after choose namespace name kind e.description db old in
    (db' : Db) × (result ≡ ok (row.id, db'))
    × In row db'.entities
    × (find_entity_id platform namespace e.name db' ≡ some row.id)
    × (find_entity_id platform namespace name db' ≡ some row.id)

module _ (platform : Platform) (namespace : String) (e : NewEntity) (kind : Label) (db : Db)
    (is : IsUnicode platform.unicode) (valid : validate_entity_name e.name ≡ ok tt)
    (long : 2 ≤ length (normalize_entity_name platform.unicode e.name))
    (typed : normalize_entity_type platform.unicode e.entity_type ≡ ok kind) where
  upsert_entity_with-IsStored :
      (choose : Label → Label → Label)
      → IsStored choose platform namespace e kind db
          (upsert_entity_with choose platform namespace e db)
  unfolding upsert_entity_with query_row entity_named find_entity_id
  upsert_entity_with-IsStored choose =
      let name = normalize_entity_name platform.unicode e.name in
      let old = first (is_named namespace name) db.entities in
      let row = row_after choose namespace name kind e.description db old in
      let db' = write_entity choose namespace name kind e.description db in
      let enough : ltb (length name) 2 ≡ false = ground arith in
      let it = write_entity-first choose namespace name kind e.description db in
      let found : entity_named namespace name db' ≡ some row.id = rw it refl in
      (
        db',
        rw (valid, enough, typed, found, upsert_entity_with) refl,
        (first-some (is_named namespace name) db'.entities it).0,
        found,
        ap (λ n. entity_named namespace n db')
              (normalize_entity_name_idem platform.unicode is e.name)
            ∙ found,
      )

  -- An entity whose name and type are valid: each of the two upserts succeeds and leaves the row that
  -- it should, a new one or the old one with the new description (if one is given), and with the new
  -- type, which `upsert_entity_preserving_type` takes only over a concept; it returns the row's id,
  -- under which `find_entity_id` finds it by the name given and by the name's normal form.
  pub upsert_entity-find :
      IsStored (λ new old. new) platform namespace e kind db (upsert_entity platform namespace e db)
      × IsStored
          (λ new old. if label_eq old (codes "concept") then new else old)
          platform
          namespace
          e
          kind
          db
          (upsert_entity_preserving_type platform namespace e db)
  unfolding upsert_entity upsert_entity_preserving_type
  upsert_entity-find = (upsert_entity_with-IsStored _, upsert_entity_with-IsStored _)
