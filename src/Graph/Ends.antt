-- ===== src/Graph/Ends.antt =====
-- The walk ends: every turn takes an entity off the queue, and an entity is queued once.
use sqlite_graphrag.Base.{
  ℕ, zero, suc, ◌+◌, ◌≤◌, ◌≡◌, refl, ap, ◌⊎◌, inl, inr, ◌||◌, Option, none, some, List, [], ◌∷◌,
  arith, In, here, there, In-cons, In-nil, length, length-append, Option-cases, Bool-cases,
  List-cases, Result-cases, leb, ◌==◌, ok, err,
}
use sqlite_graphrag.Errors.{AppError}
use sqlite_graphrag.Graph.{
  EdgeArrival, Search, GraphWalk, Source, insert, is_full, admit, start, consider, scan, visit,
  loop, run_observed, unwrap_or_zero,
}

-- The entities that have no depth yet.
abbrev unseen : List ℕ → (ℕ → Option ℕ) → ℕ
unseen [] depth = 0
unseen (v ∷ vs) depth =
    let rest = unseen vs depth in elim (depth v) [ none ↦ suc rest | some _ ↦ rest ]

unseen-insert-le :
    (nodes : List ℕ) (m : ℕ → Option ℕ) (k d : ℕ) → unseen nodes (insert m k d) ≤ unseen nodes m
unfolding insert
unseen-insert-le [] m k d = omega arith
unseen-insert-le (v ∷ vs) m k d = ground (arith, unseen-insert-le vs m k d)

unseen-insert :
    (nodes : List ℕ) (m : ℕ → Option ℕ) (k d : ℕ)
    → In k nodes
    → m k ≡ none
    → unseen nodes (insert m k d) + 1 ≤ unseen nodes m
unfolding insert
unseen-insert [] m k d i new = absurd (In-nil i)
unseen-insert (v ∷ vs) m k d i new = elim (In-cons i) [
  | inl e ↦ rw (← e) (ground (arith, unseen-insert-le vs m k d))
  | inr j ↦ ground (arith, unseen-insert vs m k d j new)
]

module _ (nodes : List ℕ) where
  abbrev work : Search → ℕ
  work s = unseen nodes s.depth + length s.queue

  abbrev Inside : List EdgeArrival → Type 0
  Inside edges = (e : EdgeArrival) → In e edges → In e.neighbor_id nodes

  work-consider :
      (cap : Option ℕ) (next : ℕ) (e : EdgeArrival) (admitted : ℕ) (s : Search)
      → In e.neighbor_id nodes
      → work (consider cap next e admitted s).1 ≤ work s
  unfolding consider admit
  work-consider cap next e admitted s i = elim (Option-cases (s.depth e.neighbor_id)) [
    | inr (d, p) ↦ rw (p, consider) (omega arith)
    | inl p ↦ elim (Bool-cases (is_full cap admitted)) [
      | inl full ↦ rw (p, consider, full) (omega arith)
      | inr room ↦
          rw (p, consider, room)
            (omega (
              arith,
              unseen-insert nodes s.depth e.neighbor_id next i p,
              length-append s.queue (e.neighbor_id ∷ []),
            ))
    ]
  ]

  work-scan :
      (cap : Option ℕ) (next admitted : ℕ) (edges : List EdgeArrival) (s : Search)
      → Inside edges
      → work (scan cap next admitted edges s) ≤ work s
  unfolding scan
  work-scan cap next admitted [] s inside = omega arith
  work-scan cap next admitted (e ∷ edges) s inside =
      let (admitted', s') = consider cap next e admitted s in
      omega (
        arith,
        work-consider cap next e admitted s (inside e (here refl)),
        work-scan cap next admitted' edges s' (λ f i. inside f (there i)),
      )

  module _ (source : Source) (walk : GraphWalk)
      (inside : (u : ℕ) (edges : List EdgeArrival) → source u ≡ ok edges → Inside edges) where
    -- A turn that fails does so because the source did.
    work-visit :
        (current : ℕ) (s : Search)
        → ((t : Search) × (visit source walk current s ≡ ok t) × (work t ≤ work s))
          ⊎ ((e : AppError) × (visit source walk current s ≡ err e) × (source current ≡ err e))
    unfolding visit
    work-visit current s =
        elim (Bool-cases
          (leb walk.max_hops (unwrap_or_zero (s.depth current)) || s.expanded current)) [
            | inl skip ↦ inl (s, rw (skip, visit) refl, omega arith)
            | inr go ↦ elim (Result-cases (source current)) [
              | inr (e, failed) ↦ inr (e, rw (go, visit, failed) refl, failed)
              | inl (edges, offered) ↦ inl (
                scan walk.max_neighbors_per_hop (unwrap_or_zero (s.depth current) + 1) 0 edges
                    (record s { expanded = λ v. current == v || s.expanded v }),
                rw (go, visit, offered) refl,
                work-scan walk.max_neighbors_per_hop (unwrap_or_zero (s.depth current) + 1) 0 edges
                    (record s { expanded = λ v. current == v || s.expanded v })
                    (inside current edges offered),
              )
            ]
          ]

    loop_ends :
        (fuel : ℕ) (s : Search)
        → work s ≤ fuel
        → ((t : Search) × (loop source walk fuel s ≡ some (ok t)))
          ⊎ ((u : ℕ) × (e : AppError) × (source u ≡ err e)
              × (loop source walk fuel s ≡ some (err e)))
    unfolding loop
    loop_ends zero s n = elim (List-cases s.queue) [
      | inl empty ↦ inl (s, ground arith)
      | inr (u, rest, e) ↦ absurd (omega (arith, ap length e))
    ]
    loop_ends (suc fuel) s n = elim (List-cases s.queue) [
      | inl empty ↦ inl (s, ground arith)
      | inr (u, rest, e) ↦ elim (work-visit u (record s { queue = rest })) [
        | inr (x, failed, why) ↦ inr (u, x, why, ground arith)
        | inl (t, done, less) ↦ elim (loop_ends fuel t (omega (arith, ap length e))) [
          | inl (r, p) ↦ inl (r, ground arith)
          | inr (v, x, why, p) ↦ inr (v, x, why, ground arith)
        ]
      ]
    ]

    unseen-le : (vs : List ℕ) (m : ℕ → Option ℕ) → unseen vs m ≤ length vs
    unseen-le [] m = omega arith
    unseen-le (v ∷ vs) m = ground (arith, unseen-le vs m)

    -- Where every edge of the source leads into a finite set of entities, fuel for that many turns
    -- and one for each seed is enough: the walk ends, with its maps, or with an error that the
    -- source gave.
    pub run_observed_ends :
        (fuel : ℕ) (seeds : List ℕ)
        → length nodes + length seeds ≤ fuel
        → ((t : Search) × (run_observed source walk fuel seeds ≡ some (ok t)))
          ⊎ ((u : ℕ) × (e : AppError) × (source u ≡ err e)
              × (run_observed source walk fuel seeds ≡ some (err e)))
    unfolding run_observed start
    run_observed_ends fuel seeds n =
        loop_ends fuel (start seeds) (omega (arith, unseen-le nodes (start seeds).depth))
