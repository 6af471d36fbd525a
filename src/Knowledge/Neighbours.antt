-- ===== src/Knowledge/Neighbours.antt =====
-- `unlink --entity --all` (src/commands/unlink.rs) and the degrees of the entity's neighbours.
use sqlite_graphrag.Base.{
  ℕ, ◌≤◌, ◌<◌, ◌≡◌, ◌≢◌, refl, sym, ap, ◌∙◌, inl, inr, String, Bool, true, false, ◌||◌, some, List,
  [], ◌∷◌, filter, ◌==◌, ==_iff, arith, In, In-cons, In-nil, In-filter_intro, In-map_intro,
  Bool-cases, if◌then◌else◌,
}
use sqlite_graphrag.Labels.{Label}
use sqlite_graphrag.Knowledge.{
  Entity, Relationship, Db, Platform, touches, exists, drop_where, set_where, delete_relationships,
  delete_memory_relationships,
}
use sqlite_graphrag.Knowledge.Entities.{
  find_entity_id, incident, recalculate_degree, delete_relationship_by_id, delete_each_relationship,
}
use sqlite_graphrag.Knowledge.Unlink.{ids_where, delete_all_entity_relationships, unlink_entity}
use sqlite_graphrag.Knowledge.Tables.{exists_intro}
use sqlite_graphrag.Knowledge.Good.{IsGood, Holds}

drop_twice :
    (p q : Relationship → Bool) (rs : List Relationship)
    → drop_where q (drop_where p rs) ≡ drop_where (λ r. p r || q r) rs
unfolding filter
drop_twice p q [] = refl
drop_twice p q (r ∷ rs) = elim (Bool-cases (p r)) [
  | inl e ↦ rw e (drop_twice p q rs)
  | inr e ↦ elim (Bool-cases (q r)) [
    | inl f ↦ rw (e, f) (drop_twice p q rs)
    | inr f ↦ rw (e, f, drop_twice p q rs) refl
  ]
]

drop_none : (rs : List Relationship) → drop_where (λ r. false) rs ≡ rs
unfolding filter
drop_none [] = refl
drop_none (r ∷ rs) = ap (◌∷◌ r) (drop_none rs)

abbrev has_id_of : List ℕ → Relationship → Bool
has_id_of ids r = exists (λ i. r.id == i) ids

-- The deletions one by one are one selection, and leave the entities alone.
delete_each_relationship-rows :
    (ids : List ℕ) (db : Db)
    → ((delete_each_relationship ids db).relationships
        ≡ drop_where (has_id_of ids) db.relationships)
      × ((delete_each_relationship ids db).entities ≡ db.entities)
unfolding delete_each_relationship delete_relationship_by_id delete_memory_relationships
    delete_relationships
delete_each_relationship-rows [] db = (sym (drop_none db.relationships), refl)
delete_each_relationship-rows (id ∷ ids) db =
    let (rows, same) = delete_each_relationship-rows ids (delete_relationship_by_id id db) in
    (rows ∙ drop_twice (λ r. r.id == id) (has_id_of ids) db.relationships, same)

incident-drop-le :
    (p : Relationship → Bool) (i : ℕ) (rs : List Relationship)
    → incident i (drop_where p rs) ≤ incident i rs
unfolding incident filter
incident-drop-le p i [] = omega arith
incident-drop-le p i (r ∷ rs) =
    let rest = incident-drop-le p i rs in
    elim (Bool-cases (p r)) [
      | inl e ↦ elim (Bool-cases (touches i r)) [
        | inl f ↦ rw (e, f) (omega (arith, rest))
        | inr f ↦ rw (e, f) rest
      ]
      | inr e ↦ elim (Bool-cases (touches i r)) [
        | inl f ↦ rw (e, f) (omega (arith, rest))
        | inr f ↦ rw (e, f) rest
      ]
    ]

-- An edge of the entity that goes is one edge less.
incident-drop-lt :
    (p : Relationship → Bool) (i : ℕ) (rs : List Relationship) {r : Relationship}
    → In r rs
    → p r ≡ true
    → touches i r ≡ true
    → incident i (drop_where p rs) < incident i rs
unfolding incident filter
incident-drop-lt p i [] m e t = absurd (In-nil m)
incident-drop-lt p i (s ∷ rs) {r} m e t = elim (In-cons m) [
  | inl q ↦
      let ps : p s ≡ true = ap p (sym q) ∙ e in
      let ts : touches i s ≡ true = ap (touches i) (sym q) ∙ t in
      rw (ps, ts) (omega (arith, incident-drop-le p i rs))
  | inr j ↦
      let rest = incident-drop-lt p i rs j e t in
      elim (Bool-cases (p s)) [
        | inl c ↦ elim (Bool-cases (touches i s)) [
          | inl f ↦ rw (c, f) (omega (arith, rest))
          | inr f ↦ rw (c, f) rest
        ]
        | inr c ↦ elim (Bool-cases (touches i s)) [
          | inl f ↦ rw (c, f) (omega (arith, rest))
          | inr f ↦ rw (c, f) rest
        ]
      ]
]

-- `unlink --entity --all` in a graph whose degrees are exact: a neighbour of the entity keeps its
-- row, and so a degree greater than the number of its edges.
pub unlink_entity_stale :
    (platform : Platform) (namespace : String) (entity : Label) (db : Db) (id : ℕ) (e : Entity)
    (r : Relationship)
    → IsGood db
    → find_entity_id platform namespace entity db ≡ some id
    → In r db.relationships
    → touches id r ≡ true
    → In e db.entities
    → touches e.id r ≡ true
    → e.id ≢ id
    → Holds
        (λ x. In e x.1.entities × (incident e.id x.1.relationships < e.degree))
        (unlink_entity platform namespace (some entity) db)
unfolding unlink_entity delete_all_entity_relationships recalculate_degree
unlink_entity_stale platform namespace entity db id e r good found i t j u other =
    let ids = ids_where (touches id) db in
    let (rows, same) = delete_each_relationship-rows ids db in
    let gone : has_id_of ids r ≡ true =
      exists_intro (λ k. r.id == k) ids
        (In-map_intro (λ x. x.id) (filter (touches id) db.relationships)
          (In-filter_intro (touches id) db.relationships t i))
        ((==_iff r.id r.id).1 refl) in
    let less = incident-drop-lt (has_id_of ids) e.id db.relationships i gone u in
    let exact = good.exact e j in
    let change : Entity → Entity =
      λ x. record x { degree = incident x.id (delete_each_relationship ids db).relationships } in
    let apart : (e.id == id) ≡ false = elim (Bool-cases (e.id == id)) [
      | inl q ↦ absurd (other ((==_iff e.id id).0 q))
      | inr q ↦ q
    ] in
    let kept : (if e.id == id then change e else e) ≡ e = rw apart refl in
    let stays : In e (set_where (λ x. x.id == id) change db.entities) =
      rw (← kept) (In-map_intro (λ x. if x.id == id then change x else x) db.entities j) in
    rw (found, unlink_entity) (rw same stays, rw rows (omega (arith, less, exact)))
