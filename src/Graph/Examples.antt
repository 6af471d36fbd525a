-- ===== src/Graph/Examples.antt =====
-- The walk of src/graph/walk.rs on a small graph: from 0 to 1 and 2, and from each other entity
-- back to 0.
use sqlite_graphrag.Base.{
  ℕ, suc, ◌≤◌, ◌≡◌, refl, ap, ◌↔◌, ◌⊎◌, inl, inr, Bool, false, Option, none, some, List, [], ◌∷◌,
  arith, In, here, there, In-cons, In-nil, Bool-cases, Result, ok, err, ◌==◌, if◌then◌else◌,
}
use sqlite_graphrag.Errors.{AppError}
use sqlite_graphrag.Graph.{
  EdgeArrival, GraphWalk, Search, Source, Hop, Reaches, bidirectional, insert, contains, start,
  is_full, admit, consider, scan, unwrap_or_zero, visit, loop, run_observed,
}
use sqlite_graphrag.Graph.Sound.{run_observed_sound}
use sqlite_graphrag.Graph.Distance.{run_observed_distance}
use sqlite_graphrag.Graph.Ends.{run_observed_ends}
use sqlite_graphrag.Graph.Memory.{
  MemoryEdge, memory_neighbors, memory_neighbors_iff, IsNamed, Connects,
}

abbrev edge_to : ℕ → ℕ → EdgeArrival
edge_to u v = record {
  from_id = u;
  neighbor_id = v;
  source_name = none;
  target_name = none;
  relation = "uses";
  weight = 1;
  inbound = false;
}

abbrev edges_of : ℕ → List EdgeArrival
edges_of u = if u == 0 then edge_to 0 1 ∷ edge_to 0 2 ∷ [] else edge_to u 0 ∷ []

abbrev small_graph : Source
small_graph u = ok (edges_of u)

abbrev two_hops : GraphWalk
two_hops = bidirectional 0 2

abbrev maps : Option (Result AppError Search) → Search
maps (some (ok t)) = t
maps (some (err e)) = start []
maps none = start []

abbrev walked : Search
walked = maps (run_observed small_graph two_hops 8 (0 ∷ []))

walk_ends_well : run_observed small_graph two_hops 8 (0 ∷ []) ≡ some (ok walked)
unfolding run_observed loop visit unwrap_or_zero scan consider is_full admit insert start contains
    bidirectional
walk_ends_well = refl

no_cap : two_hops.max_neighbors_per_hop ≡ none
unfolding bidirectional
no_cap = refl

depth_of_two : walked.depth 2 ≡ some 1
unfolding run_observed loop visit unwrap_or_zero scan consider is_full admit insert start contains
    bidirectional
depth_of_two = refl

run_observed_distance_example : (walked.depth 2 ≡ some 1) ↔ (
    (1 ≤ two_hops.max_hops)
    × Reaches small_graph (0 ∷ []) 2 1
    × ((n : ℕ) → Reaches small_graph (0 ∷ []) 2 n → 1 ≤ n))
run_observed_distance_example =
    run_observed_distance small_graph two_hops (0 ∷ []) 8 walked no_cap walk_ends_well 2 1

run_observed_sound_example :
    ((v d : ℕ)
      → walked.depth v ≡ some d
      → Reaches small_graph (0 ∷ []) v d × (d ≤ two_hops.max_hops))
    × ((v : ℕ) (e : EdgeArrival)
        → walked.arrival v ≡ some e
        → (v ≡ e.neighbor_id)
          × ((u d : ℕ) × (edges : List EdgeArrival) × (small_graph u ≡ ok edges)
              × In e edges
              × (walked.depth u ≡ some d)
              × (walked.depth v ≡ some (suc d))))
run_observed_sound_example =
    run_observed_sound small_graph two_hops (0 ∷ []) 8 walked walk_ends_well

abbrev offered : List EdgeArrival → Result AppError (List EdgeArrival)
offered edges = ok edges

ok_inj : {xs ys : List EdgeArrival} → offered xs ≡ offered ys → xs ≡ ys
ok_inj e = cc e

stays_inside :
    (u : ℕ) (edges : List EdgeArrival)
    → small_graph u ≡ ok edges
    → (e : EdgeArrival) → In e edges
    → In e.neighbor_id (0 ∷ 1 ∷ 2 ∷ [])
stays_inside u edges s e i =
    let known : In e (edges_of u) = rw (ok_inj s) i in
    elim (Bool-cases (u == 0)) [
      | inl z ↦ elim (In-cons (rw z at known)) [
        | inl q ↦ there (here (ap (λ t. t.neighbor_id) q))
        | inr j ↦ elim (In-cons j) [
          | inl q ↦ there (there (here (ap (λ t. t.neighbor_id) q)))
          | inr k ↦ absurd (In-nil k)
        ]
      ]
      | inr z ↦ elim (In-cons (rw z at known)) [
        | inl q ↦ here (ap (λ t. t.neighbor_id) q)
        | inr j ↦ absurd (In-nil j)
      ]
    ]

run_observed_ends_example :
    ((t : Search) × (run_observed small_graph two_hops 4 (0 ∷ []) ≡ some (ok t)))
    ⊎ ((u : ℕ) × (e : AppError) × (small_graph u ≡ err e)
        × (run_observed small_graph two_hops 4 (0 ∷ []) ≡ some (err e)))
run_observed_ends_example =
    run_observed_ends (0 ∷ 1 ∷ 2 ∷ []) small_graph two_hops stays_inside 4 (0 ∷ []) (omega arith)

abbrev stored : List MemoryEdge
stored = record { source_id = 1; target_id = 2; relation = "uses"; weight = 5 } ∷ []

abbrev below : ℕ → ℕ → Bool
below a b = if a == b then false else if b == 0 then false else a == 0

memory_neighbors_iff_example :
    Hop (memory_neighbors below 0 (λ v. some "name") two_hops stored) 2 1 ↔ (
      IsNamed below 0 (λ v. some "name") 1
      × ((m : MemoryEdge) × In m stored × Connects below 0 two_hops 2 1 m))
memory_neighbors_iff_example = memory_neighbors_iff below 0 (λ v. some "name") two_hops stored 2 1
