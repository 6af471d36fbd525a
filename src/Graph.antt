-- ===== src/Graph.antt =====
-- src/graph/walk.rs: the breadth-first engine behind every traversal. Entity ids (`i64` row ids)
-- are natural numbers. An `f64` weight is its bit pattern, which the driver only carries.
pub mod Scan
pub mod Sound
pub mod Distance
pub mod Ends
pub mod Memory
pub mod Examples
use sqlite_graphrag.Base.{
  ℕ, zero, suc, ◌+◌, ◌≡◌, Bool, true, false, not, ◌||◌, Option, none, some, List, [], ◌∷◌, ◌++◌,
  String, Result, ok, err, leb, ◌==◌, if◌then◌else◌, In,
}
use sqlite_graphrag.Errors.{AppError}

pub data WalkDirection : Type 0 where
  directed_only bidirectional_too : WalkDirection

abbrev pub Float : Type 0
Float = ℕ

pub record EdgeArrival : Type 0 where
  pub from_id : ℕ
  pub neighbor_id : ℕ
  pub source_name : Option String
  pub target_name : Option String
  pub relation : String
  pub weight : Float
  pub inbound : Bool

pub record GraphWalk : Type 0 where
  pub direction : WalkDirection
  pub weight_floor : Option Float
  pub max_hops : ℕ
  pub max_neighbors_per_hop : Option ℕ
  pub relation_filter : Option String

unfoldable pub directed : Float → ℕ → GraphWalk
directed min_weight max_hops = record {
  direction = directed_only;
  weight_floor = some min_weight;
  max_hops = max_hops;
  max_neighbors_per_hop = none;
  relation_filter = none;
}

unfoldable pub bidirectional : Float → ℕ → GraphWalk
bidirectional min_weight max_hops = record {
  direction = bidirectional_too;
  weight_floor = some min_weight;
  max_hops = max_hops;
  max_neighbors_per_hop = none;
  relation_filter = none;
}

unfoldable pub with_neighbor_cap : GraphWalk → Option ℕ → GraphWalk
with_neighbor_cap walk cap = record walk { max_neighbors_per_hop = cap }

unfoldable pub with_relation_filter : GraphWalk → Option String → GraphWalk
with_relation_filter walk relation = record walk { relation_filter = relation }

-- `HashMap::insert`
unfoldable pub insert {ℓ} : {V : Type ℓ} → (ℕ → Option V) → ℕ → V → ℕ → Option V
insert m k v j = if k == j then some v else m j

-- The variables of `run_observed`; `observed` holds the calls of `on_edge`, oldest first.
pub record Search : Type 0 where
  pub depth : ℕ → Option ℕ
  pub arrival : ℕ → Option EdgeArrival
  pub expanded : ℕ → Bool
  pub queue : List ℕ
  pub observed : List (EdgeArrival × ℕ)

contains : ℕ → List ℕ → Bool
contains v [] = false
contains v (x ∷ xs) = x == v || contains v xs

unfoldable pub start : List ℕ → Search
unfolding contains
start seeds = record {
  depth = λ v. if contains v seeds then some 0 else none;
  arrival = λ v. none;
  expanded = λ v. false;
  queue = seeds;
  observed = [];
}

is_full : Option ℕ → ℕ → Bool
is_full none admitted = false
is_full (some cap) admitted = leb cap admitted

admit : ℕ → EdgeArrival → Search → Search
unfolding insert
admit next edge s = record s {
  depth = insert s.depth edge.neighbor_id next;
  arrival = insert s.arrival edge.neighbor_id edge;
  queue = s.queue ++ edge.neighbor_id ∷ [];
}

-- One turn of the loop over the neighbours; the counter is `admitted`.
consider : Option ℕ → ℕ → EdgeArrival → ℕ → Search → ℕ × Search
unfolding is_full admit
consider cap next edge admitted s =
    let seen = record s { observed = s.observed ++ (edge, next) ∷ [] } in
    elim (s.depth edge.neighbor_id) [
      | some _ ↦ (admitted, seen)
      | none ↦
          if is_full cap admitted then (admitted, seen) else (admitted + 1, admit next edge seen)
    ]

pub scan : Option ℕ → ℕ → ℕ → List EdgeArrival → Search → Search
scan cap next admitted [] s = s
scan cap next admitted (edge ∷ edges) s =
    let (admitted', s') = consider cap next edge admitted s in scan cap next admitted' edges s'

unwrap_or_zero : Option ℕ → ℕ
unwrap_or_zero none = 0
unwrap_or_zero (some d) = d

-- A `NeighborSource` at a fixed walk.
abbrev pub Source : Type 0
Source = ℕ → Result AppError (List EdgeArrival)

-- The body of the `while` loop, after `current` left the front of the queue.
pub visit : Source → GraphWalk → ℕ → Search → Result AppError Search
unfolding unwrap_or_zero
visit source walk current s =
    let current_depth = unwrap_or_zero (s.depth current) in
    if leb walk.max_hops current_depth || s.expanded current then ok s else elim (source current) [
      | err e ↦ err e
      | ok neighbors ↦ ok (
          scan walk.max_neighbors_per_hop (current_depth + 1) 0 neighbors
            (record s { expanded = λ v. current == v || s.expanded v }))
    ]

-- `none` means that the fuel ran out.
pub loop : Source → GraphWalk → ℕ → Search → Option (Result AppError Search)
loop source walk zero s = elim s.queue [ [] ↦ some (ok s) | _ ∷ _ ↦ none ]
loop source walk (suc fuel) s = elim s.queue [
  | [] ↦ some (ok s)
  | current ∷ rest ↦ elim (visit source walk current (record s { queue = rest })) [
    | err e ↦ some (err e)
    | ok s' ↦ loop source walk fuel s'
  ]
]

pub run_observed : Source → GraphWalk → ℕ → List ℕ → Option (Result AppError Search)
run_observed source walk fuel seeds = loop source walk fuel (start seeds)

-- One hop that the source offers.
abbrev pub Hop : Source → ℕ → ℕ → Type 0
Hop source u v =
    (edges : List EdgeArrival) × (source u ≡ ok edges)
    × ((e : EdgeArrival) × In e edges × (v ≡ e.neighbor_id))

-- The walks of `n` hops from a seed.
pub data Reaches (source : Source) (seeds : List ℕ) : ℕ → ℕ → Type 0 where
  seed : {v : ℕ} → In v seeds → Reaches source seeds v 0
  hop : {u v n : ℕ} → Reaches source seeds u n → Hop source u v → Reaches source seeds v (suc n)
