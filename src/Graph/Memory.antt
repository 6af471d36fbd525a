-- ===== src/Graph/Memory.antt =====
-- The neighbour sources of src/graph/walk.rs: rows of `relationships`, and edges held in memory.
-- `f64` comparison is the processor's: `less` is `<` and `at_least` is SQLite's `>=`.
use sqlite_graphrag.Base.{
  ℕ, ◌≡◌, refl, ◌↔◌, ◌⊎◌, inl, inr, Bool, true, false, not, ◌&&◌, Option, none, some, List, [], ◌∷◌,
  arith, In, here, there, In-cons, In-nil, String, str_eq, Option-cases, Bool-cases, ◌==◌, ok,
  if◌then◌else◌,
}
use sqlite_graphrag.Graph.{
  EdgeArrival, GraphWalk, Hop, WalkDirection, directed_only, bidirectional_too, Float, Source,
}

pub record MemoryEdge : Type 0 where
  pub source_id : ℕ
  pub target_id : ℕ
  pub relation : String
  pub weight : Float

pub is_bidirectional : WalkDirection → Bool
is_bidirectional directed_only = false
is_bidirectional bidirectional_too = true

pub passes_relation : Option String → String → Bool
passes_relation none relation = true
passes_relation (some wanted) relation = str_eq relation wanted

module _ (less : Float → Float → Bool) (neg_infinity : Float) where
  pub unwrap_floor : Option Float → Float
  unwrap_floor none = neg_infinity
  unwrap_floor (some floor) = floor

  arrival_at : (ℕ → Option String) → ℕ → MemoryEdge → ℕ → Bool → String → EdgeArrival
  arrival_at id_to_name entity_id edge neighbor_id inbound neighbor_name = record {
    from_id = entity_id;
    neighbor_id = neighbor_id;
    source_name = if inbound then some neighbor_name else id_to_name entity_id;
    target_name = if inbound then id_to_name entity_id else some neighbor_name;
    relation = edge.relation;
    weight = edge.weight;
    inbound = inbound;
  }

  -- The end of the edge that is reached, and whether backwards.
  reached_end : GraphWalk → ℕ → MemoryEdge → Option (ℕ × Bool)
  unfolding is_bidirectional
  reached_end walk entity_id edge =
      if edge.source_id == entity_id
      then some (edge.target_id, false)
      else if (edge.target_id == entity_id) && is_bidirectional walk.direction
      then some (edge.source_id, true)
      else none

  -- One turn of the loop: the arrival that it pushes, if it does not `continue`.
  arrival_of : (ℕ → Option String) → GraphWalk → ℕ → MemoryEdge → Option EdgeArrival
  unfolding arrival_at
  arrival_of id_to_name walk entity_id edge =
      if less edge.weight (unwrap_floor walk.weight_floor)
      then none
      else if not (passes_relation walk.relation_filter edge.relation)
      then none
      else elim (reached_end walk entity_id edge) [
        | none ↦ none
        | some (neighbor_id, inbound) ↦ elim (id_to_name neighbor_id) [
          | none ↦ none
          | some name ↦ some (arrival_at id_to_name entity_id edge neighbor_id inbound name)
        ]
      ]

  collect : (ℕ → Option String) → GraphWalk → ℕ → List MemoryEdge → List EdgeArrival
  collect id_to_name walk entity_id [] = []
  collect id_to_name walk entity_id (edge ∷ edges) =
      let rest = collect id_to_name walk entity_id edges in
      elim (arrival_of id_to_name walk entity_id edge) [ none ↦ rest | some e ↦ e ∷ rest ]

  -- `InMemoryNeighbors::neighbors`
  pub memory_neighbors : (ℕ → Option String) → GraphWalk → List MemoryEdge → Source
  memory_neighbors id_to_name walk edges entity_id = ok (collect id_to_name walk entity_id edges)

  -- The edge `m` leads from `u` to `v` under the walk's floor, relation and direction.
  pub record Connects (walk : GraphWalk) (u v : ℕ) (m : MemoryEdge) : Type 0 where
    pub heavy : less m.weight (unwrap_floor walk.weight_floor) ≡ false
    pub related : passes_relation walk.relation_filter m.relation ≡ true
    pub ends :
        (m.source_id ≡ u) × (m.target_id ≡ v)
        ⊎ (m.target_id ≡ u) × (m.source_id ≡ v) × (walk.direction ≡ bidirectional_too)

  abbrev pub IsNamed : (ℕ → Option String) → ℕ → Type 0
  IsNamed id_to_name v = (name : String) × (id_to_name v ≡ some name)

  reached_end_lem :
      (walk : GraphWalk) (u : ℕ) (m : MemoryEdge) (v : ℕ) (b : Bool)
      → reached_end walk u m ≡ some (v, b)
      → (m.source_id ≡ u) × (m.target_id ≡ v)
        ⊎ (m.target_id ≡ u) × (m.source_id ≡ v) × (walk.direction ≡ bidirectional_too)
  unfolding reached_end
  reached_end_lem walk u m v b h = ground arith

  reached_end_found :
      (walk : GraphWalk) (u : ℕ) (m : MemoryEdge) (v : ℕ)
      → (m.source_id ≡ u) × (m.target_id ≡ v)
        ⊎ (m.target_id ≡ u) × (m.source_id ≡ v) × (walk.direction ≡ bidirectional_too)
      → (b : Bool) × (reached_end walk u m ≡ some (v, b))
  unfolding reached_end
  reached_end_found walk u m v h = elim (Bool-cases (m.source_id == u)) [
    | inl same ↦ (false, ground arith)
    | inr other ↦ (true, ground arith)
  ]

  arrival_of-Connects :
      (id_to_name : ℕ → Option String) (walk : GraphWalk) (u : ℕ) (m : MemoryEdge) (e : EdgeArrival)
      → arrival_of id_to_name walk u m ≡ some e
      → IsNamed id_to_name e.neighbor_id × Connects walk u e.neighbor_id m
  unfolding arrival_of
  arrival_of-Connects id_to_name walk u m e h = elim (Option-cases (reached_end walk u m)) [
    | inl p ↦ ground arith
    | inr ((v, b), p) ↦ elim (Option-cases (id_to_name v)) [
      | inl q ↦ ground arith
      | inr (name, q) ↦
          let to : e.neighbor_id ≡ v = ground arith in
          rw to (
            (name, q),
            record {
              heavy = ground arith;
              related = ground arith;
              ends = reached_end_lem walk u m v b p;
            },
          )
    ]
  ]

  Connects-arrival_of :
      (id_to_name : ℕ → Option String) (walk : GraphWalk) (u v : ℕ) (m : MemoryEdge)
      → IsNamed id_to_name v
      → Connects walk u v m
      → (e : EdgeArrival) × (arrival_of id_to_name walk u m ≡ some e) × (v ≡ e.neighbor_id)
  unfolding arrival_of
  Connects-arrival_of id_to_name walk u v m (name, q) c =
      let (b, p) = reached_end_found walk u m v c.ends in
      (arrival_at id_to_name u m v b name, ground arith, refl)

  collect-In :
      (id_to_name : ℕ → Option String) (walk : GraphWalk) (u : ℕ) (ms : List MemoryEdge)
      (e : EdgeArrival)
      → In e (collect id_to_name walk u ms)
      → (m : MemoryEdge) × In m ms × (arrival_of id_to_name walk u m ≡ some e)
  unfolding collect
  collect-In id_to_name walk u [] e i = absurd (In-nil i)
  collect-In id_to_name walk u (m ∷ ms) e i = elim (Option-cases (arrival_of id_to_name walk u m)) [
    | inl p ↦
        let (m', j, q) = collect-In id_to_name walk u ms e (rw (p, collect) at i) in
        (m', there j, q)
    | inr (f, p) ↦ elim (In-cons (rw (p, collect) at i)) [
      | inl same ↦ (m, here refl, rw same p)
      | inr k ↦ let (m', j, q) = collect-In id_to_name walk u ms e k in (m', there j, q)
    ]
  ]

  In-collect :
      (id_to_name : ℕ → Option String) (walk : GraphWalk) (u : ℕ) (ms : List MemoryEdge)
      (m : MemoryEdge) (e : EdgeArrival)
      → In m ms
      → arrival_of id_to_name walk u m ≡ some e
      → In e (collect id_to_name walk u ms)
  unfolding collect
  In-collect id_to_name walk u [] m e i h = absurd (In-nil i)
  In-collect id_to_name walk u (x ∷ ms) m e i h = elim (In-cons i) [
    | inl same ↦
        let p : arrival_of id_to_name walk u x ≡ some e = rw (← same) h in
        rw (p, collect) (here refl)
    | inr j ↦
        let k = In-collect id_to_name walk u ms m e j h in
        elim (Option-cases (arrival_of id_to_name walk u x)) [
          | inl p ↦ rw (p, collect) k
          | inr (f, p) ↦ rw (p, collect) (there k)
        ]
  ]

  -- The in-memory source offers a hop from `u` to `v` if and only if `v` has a name in the index
  -- and some loaded edge, not below the weight floor and of the wanted relation, leads from `u` to
  -- `v`, or from `v` to `u` in a bidirectional walk.
  pub memory_neighbors_iff :
      (id_to_name : ℕ → Option String) (walk : GraphWalk) (edges : List MemoryEdge) (u v : ℕ)
      → Hop (memory_neighbors id_to_name walk edges) u v
        ↔ (IsNamed id_to_name v × ((m : MemoryEdge) × In m edges × Connects walk u v m))
  unfolding memory_neighbors
  memory_neighbors_iff id_to_name walk edges u v = (
    λ (es, o, (e, i, to)).
        let same : collect id_to_name walk u edges ≡ es = cc o in
        let (m, j, p) = collect-In id_to_name walk u edges e (rw same i) in
        let (n, c) = arrival_of-Connects id_to_name walk u m e p in (rw to n, (m, j, rw to c)),
    λ (n, (m, j, c)).
        let (e, p, to) = Connects-arrival_of id_to_name walk u v m n c in
        (
          collect id_to_name walk u edges,
          refl,
          (e, In-collect id_to_name walk u edges m e j p, to),
        ),
  )
