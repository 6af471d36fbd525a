-- ===== src/Graph/Sound.antt =====
-- What every walk reports is real: depths are lengths of walks, and arrivals are edges of a tree.
use sqlite_graphrag.Base.{
  ℕ, zero, suc, ◌+◌, ◌≤◌, ◌<◌, ◌≡◌, refl, sym, ◌⊎◌, inl, inr, true, ◌||◌, some, List, [], ◌∷◌,
  arith, In, here, there, In-cons, In-append, All-In, Bool-cases, Result-cases, List-cases, leb,
  ◌==◌, ok, ==_iff,
}
use sqlite_graphrag.Graph.{
  EdgeArrival, Search, GraphWalk, Source, start, contains, scan, visit, loop, run_observed, Reaches,
  seed, hop,
}
use sqlite_graphrag.Graph.Scan.{Grows, scan-Grows}

abbrev pub mark : ℕ → Search → Search
mark current s = record s { expanded = λ v. current == v || s.expanded v }

-- The two ways in which a turn of the outer loop succeeds.
pub visit-cases :
    (source : Source) (walk : GraphWalk) (current d : ℕ) (s t : Search)
    → s.depth current ≡ some d
    → visit source walk current s ≡ ok t
    → (s ≡ t) × ((walk.max_hops ≤ d) ⊎ (s.expanded current ≡ true))
      ⊎ (d < walk.max_hops)
        × ((edges : List EdgeArrival) × (source current ≡ ok edges)
            × (scan walk.max_neighbors_per_hop (d + 1) 0 edges (mark current s) ≡ t))
unfolding visit
visit-cases source walk current d s t p h = elim (Result-cases (source current)) [
  | inr (e, failed) ↦ ground arith
  | inl (edges, offered) ↦ elim (Bool-cases (leb walk.max_hops d || s.expanded current)) [
    | inl skip ↦ inl (ground arith, ground arith)
    | inr go ↦ inr (ground arith, (edges, offered, ground arith))
  ]
]

module _ {ℓ} (source : Source) (walk : GraphWalk) (P : Search → Type ℓ) where
  -- An invariant that each successful turn keeps holds at the end, where the queue is empty.
  pub loop_rule :
      ((current : ℕ) (rest : List ℕ) (s t : Search)
        → s.queue ≡ current ∷ rest
        → P s
        → visit source walk current (record s { queue = rest }) ≡ ok t
        → P t)
      → (fuel : ℕ) (s t : Search) → P s
      → loop source walk fuel s ≡ some (ok t)
      → P t × (t.queue ≡ [])
  unfolding loop
  loop_rule keep zero s t p h = ground arith
  loop_rule keep (suc fuel) s t p h = elim (List-cases s.queue) [
    | inl empty ↦ ground arith
    | inr (current, rest, e) ↦
        elim (Result-cases (visit source walk current (record s { queue = rest }))) [
          | inr (x, failed) ↦ ground arith
          | inl (s', done) ↦
              loop_rule keep fuel s' t (keep current rest s s' e p done) (ground arith)
        ]
  ]

-- The walks and the tree edges that the maps report.
pub record IsReal (source : Source) (max_hops : ℕ) (seeds : List ℕ) (s : Search) : Type 0 where
  pub depths : (v d : ℕ) → s.depth v ≡ some d → Reaches source seeds v d × (d ≤ max_hops)
  pub queued : (v : ℕ) → In v s.queue → (d : ℕ) × (s.depth v ≡ some d)
  pub arrivals :
      (v : ℕ) (e : EdgeArrival)
      → s.arrival v ≡ some e
      → (v ≡ e.neighbor_id)
        × ((u d : ℕ) × (edges : List EdgeArrival) × (source u ≡ ok edges)
            × In e edges
            × (s.depth u ≡ some d)
            × (s.depth v ≡ some (suc d)))

contains→In : (v : ℕ) (xs : List ℕ) → contains v xs ≡ true → In v xs
unfolding contains
contains→In v [] h = cc
contains→In v (x ∷ xs) h = elim (Bool-cases (x == v)) [
  | inl e ↦ here (sym ((==_iff x v).0 e))
  | inr n ↦ there (contains→In v xs (rw n at h))
]

In→contains : (v : ℕ) (xs : List ℕ) → In v xs → contains v xs ≡ true
unfolding contains
In→contains v [] h = elim h [ ]
In→contains v (x ∷ xs) h = elim (In-cons h) [
  | inl e ↦ rw ((==_iff x v).1 (sym e)) refl
  | inr i ↦ ground (arith, In→contains v xs i)
]

pub start-depth : (seeds : List ℕ) (v d : ℕ) → (start seeds).depth v ≡ some d → (d ≡ 0) × In v seeds
unfolding start
start-depth seeds v d h = elim (Bool-cases (contains v seeds)) [
  | inl m ↦ (ground arith, contains→In v seeds m)
  | inr n ↦ ground arith
]

pub start-depth_seed : (seeds : List ℕ) (v : ℕ) → In v seeds → (start seeds).depth v ≡ some 0
unfolding start
start-depth_seed seeds v i = rw (In→contains v seeds i) refl

module _ (source : Source) (walk : GraphWalk) (seeds : List ℕ) where
  start-IsReal : IsReal source walk.max_hops seeds (start seeds)
  unfolding start
  start-IsReal = record {
    depths = λ v d h. let (z, i) = start-depth seeds v d h in (rw z (seed i), omega arith);
    queued = λ v i. (0, start-depth_seed seeds v i);
    arrivals = λ v e h. cc;
  }

  popped-IsReal :
      (current : ℕ) (rest : List ℕ) (s : Search)
      → s.queue ≡ current ∷ rest
      → IsReal source walk.max_hops seeds s
      → IsReal source walk.max_hops seeds (record s { queue = rest })
  popped-IsReal current rest s e r = record {
    depths = r.depths;
    queued = λ v i. r.queued v (rw e (there i));
    arrivals = r.arrivals;
  }

  grown-IsReal :
      (current d : ℕ) (edges : List EdgeArrival) (s t : Search)
      → IsReal source walk.max_hops seeds s
      → s.depth current ≡ some d
      → d < walk.max_hops
      → source current ≡ ok edges
      → Grows (d + 1) edges s t
      → IsReal source walk.max_hops seeds t
  grown-IsReal current d edges s t r at_d below offered g =
      let next : d + 1 ≡ suc d = omega arith in
      record {
        depths = λ v k h. elim (g.fresh v k h) [
          | inl old ↦ r.depths v k old
          | inr (new, _, (e, i, to)) ↦ (
            rw (new, next) (hop (r.depths current d at_d).0 (edges, offered, (e, i, to))),
            omega arith,
          )
        ];
        queued = λ v i. elim (In-append s.queue g.extra (rw g.queue at i)) [
          | inl old ↦ let (k, p) = r.queued v old in (k, g.kept v k p)
          | inr new ↦ (d + 1, All-In (λ v. t.depth v ≡ some (d + 1)) g.extra g.extra_depth new)
        ];
        arrivals = λ v e h. elim (g.arrived v e h) [
          | inl old ↦
              let (to, (u, k, es, o, i, at_u, at_v)) = r.arrivals v e old in
              (to, (u, k, es, o, i, g.kept u k at_u, g.kept v (suc k) at_v))
          | inr (i, to, at_v, _) ↦
              (to, (current, d, edges, offered, i, g.kept current d at_d, rw next at at_v))
        ];
      }

  visit-IsReal :
      (current : ℕ) (rest : List ℕ) (s t : Search)
      → s.queue ≡ current ∷ rest
      → IsReal source walk.max_hops seeds s
      → visit source walk current (record s { queue = rest }) ≡ ok t
      → IsReal source walk.max_hops seeds t
  visit-IsReal current rest s t e r h =
      let (d, at_d) = r.queued current (rw e (here refl)) in
      let p = popped-IsReal current rest s e r in
      elim (visit-cases source walk current d (record s { queue = rest }) t at_d h) [
        | inl (same, _) ↦ rw (← same) p
        | inr (below, (edges, offered, scanned)) ↦ rw (← scanned) (
            grown-IsReal current d edges _ _
              (record { depths = p.depths; queued = p.queued; arrivals = p.arrivals }) at_d below
              offered
              (scan-Grows walk.max_neighbors_per_hop (d + 1) 0 edges
                (mark current (record s { queue = rest }))))
      ]

  -- Whatever the cap and the fuel, a walk that ends well reports only real things: a depth is the
  -- number of hops of some walk from a seed and at most `max_hops`, and the arrival of an entity is
  -- an edge that the source offers, to that entity, from one whose depth is smaller by one.
  pub run_observed_sound :
      (fuel : ℕ) (t : Search)
      → run_observed source walk fuel seeds ≡ some (ok t)
      → ((v d : ℕ) → t.depth v ≡ some d → Reaches source seeds v d × (d ≤ walk.max_hops))
        × ((v : ℕ) (e : EdgeArrival)
            → t.arrival v ≡ some e
            → (v ≡ e.neighbor_id)
              × ((u d : ℕ) × (edges : List EdgeArrival) × (source u ≡ ok edges)
                  × In e edges
                  × (t.depth u ≡ some d)
                  × (t.depth v ≡ some (suc d))))
  unfolding run_observed
  run_observed_sound fuel t h =
      let (real, _) =
        loop_rule source walk (IsReal source walk.max_hops seeds) visit-IsReal fuel (start seeds) t
          start-IsReal h in
      (real.depths, real.arrivals)
