-- ===== src/Graph/Distance.antt =====
-- Without a neighbour cap the walk computes distances: it reaches all that is near enough.
use sqlite_graphrag.Base.{
  ℕ, suc, ◌+◌, ◌≤◌, ◌≡◌, refl, sym, ap, ◌∙◌, ◌↔◌, ◌⊎◌, inl, inr, true, none, some, List, [], ◌∷◌,
  ◌++◌, append_assoc, append-nil, arith, In, here, there, In-cons, In-nil, In-append_left, All,
  All-imp, All-append, Bool-cases, ==_iff, ◌==◌, ok,
}
use native.Mathlib.Decide.{dec_le}
use sqlite_graphrag.Graph.{
  EdgeArrival, Search, GraphWalk, Source, start, scan, visit, loop, run_observed, Hop, Reaches,
  seed, hop,
}
use sqlite_graphrag.Graph.Scan.{Grows, scan-Grows, scan_covers}
use sqlite_graphrag.Graph.Sound.{
  mark, visit-cases, loop_rule, run_observed_sound, start-depth, start-depth_seed,
}

abbrev HasDepth : Search → ℕ → ℕ → Type 0
HasDepth s d v = s.depth v ≡ some d

-- The queue is a layer at `level` and then one at `level + 1`, and nothing deeper was found; what
-- left the queue was expanded or lies at the limit; the neighbours of what was expanded have been
-- found, one level further at most.
record IsLayered (source : Source) (max_hops level : ℕ) (now later : List ℕ) (s : Search)
    : Type 0 where
  layers : s.queue ≡ now ++ later
  now_depth : All (HasDepth s level) now
  later_depth : All (HasDepth s (suc level)) later
  bounded : (v d : ℕ) → s.depth v ≡ some d → d ≤ suc level
  settled : (v d : ℕ) → s.depth v ≡ some d → In v s.queue ⊎ (s.expanded v ≡ true) ⊎ (max_hops ≤ d)
  closed :
      (u v : ℕ)
      → s.expanded u ≡ true
      → Hop source u v
      → (a b : ℕ) × (s.depth u ≡ some a) × (s.depth v ≡ some b) × (b ≤ suc a)

-- `IsLayered` with some choice of the layers.
abbrev IsBreadthFirst : Source → ℕ → Search → Type 0
IsBreadthFirst source max_hops s =
    (level : ℕ) × (now : List ℕ) × (later : List ℕ) × IsLayered source max_hops level now later s

-- With an empty first layer the second one takes its place.
shift :
    {source : Source} {max_hops level : ℕ} {later : List ℕ} {s : Search}
    → IsLayered source max_hops level [] later s
    → IsLayered source max_hops (suc level) later [] s
shift {later = later} h = record {
  layers = h.layers ∙ sym (append-nil later);
  now_depth = h.later_depth;
  later_depth = tt;
  bounded = λ v d p. omega (arith, h.bounded v d p);
  settled = h.settled;
  closed = h.closed;
}

-- A turn that only pops.
pop :
    {source : Source} {max_hops level current : ℕ} {now later rest : List ℕ} {s : Search}
    → s.queue ≡ current ∷ rest
    → IsLayered source max_hops level (current ∷ now) later s
    → (max_hops ≤ level) ⊎ (s.expanded current ≡ true)
    → IsLayered source max_hops level now later (record s { queue = rest })
pop {source} {max_hops} {level} {current} {now} {later} {rest} {s} e h why = record {
  layers = cc (e, h.layers);
  now_depth = h.now_depth.1;
  later_depth = h.later_depth;
  bounded = h.bounded;
  settled = λ v d p. elim (h.settled v d p) [
    | inr other ↦ inr other
    | inl i ↦ elim (In-cons (rw e at i)) [
      | inr j ↦ inl j
      | inl q ↦ elim why [
        | inr was ↦ inr (inl (rw q was))
        | inl far ↦ let same : d ≡ level = cc (h.now_depth.0, p, q) in inr (inr (omega arith))
      ]
    ]
  ];
  closed = h.closed;
}

-- A turn that expands the front entity, below the limit.
expand :
    {source : Source} {max_hops level current : ℕ} {now later rest : List ℕ} {s : Search}
    (edges : List EdgeArrival) (t : Search)
    → s.queue ≡ current ∷ rest
    → IsLayered source max_hops level (current ∷ now) later s
    → source current ≡ ok edges
    → Grows (suc level) edges (mark current (record s { queue = rest })) t
    → ((e : EdgeArrival) → In e edges → (d : ℕ) × (t.depth e.neighbor_id ≡ some d))
    → (extra : List ℕ) × IsLayered source max_hops level now (later ++ extra) t
expand {source} {max_hops} {level} {current} {now} {later} {rest} {s} edges t e h offered g covers =
    (
      g.extra,
      record {
        layers = g.queue ∙ ap (λ q. q ++ g.extra) rest_layers ∙ append_assoc now later g.extra;
        now_depth =
            All-imp (HasDepth s level) (HasDepth t level) (λ v p. g.kept v level p) now
              h.now_depth.1;
        later_depth =
            All-append (HasDepth t (suc level)) later g.extra
              (All-imp (HasDepth s (suc level)) (HasDepth t (suc level))
                (λ v p. g.kept v (suc level) p) later h.later_depth)
              g.extra_depth;
        bounded = bounded';
        settled = settled';
        closed = closed';
      },
    )
  where
    rest_layers : rest ≡ now ++ later
    rest_layers = cc (e, h.layers)

    bounded' : (v d : ℕ) → t.depth v ≡ some d → d ≤ suc level
    bounded' v d p = elim (g.fresh v d p) [
      | inl old ↦ h.bounded v d old
      | inr (new, _, _) ↦ omega arith
    ]

    settled' :
        (v d : ℕ) → t.depth v ≡ some d → In v t.queue ⊎ (t.expanded v ≡ true) ⊎ (max_hops ≤ d)
    settled' v d p = elim (g.fresh v d p) [
      | inr (_, i, _) ↦ inl i
      | inl old ↦ elim (h.settled v d old) [
        | inr (inr far) ↦ inr (inr far)
        | inr (inl was) ↦ inr (inl (ground (arith, g.expanded v)))
        | inl i ↦ elim (In-cons (rw e at i)) [
          | inl same ↦ inr (inl (ground (arith, g.expanded v)))
          | inr j ↦ inl (rw g.queue (In-append_left g.extra j))
        ]
      ]
    ]

    closed' :
        (u v : ℕ)
        → t.expanded u ≡ true
        → Hop source u v
        → (a b : ℕ) × (t.depth u ≡ some a) × (t.depth v ≡ some b) × (b ≤ suc a)
    closed' u v x (es, o, (f, i, to)) = elim (Bool-cases (current == u)) [
      | inl same ↦
          let es_edges : es ≡ edges = cc (o, offered, (==_iff current u).0 same) in
          let (b, q) = covers f (rw es_edges at i) in
          let at_v : t.depth v ≡ some b = rw to q in
          (
            level,
            b,
            rw (← ((==_iff current u).0 same)) (g.kept current level h.now_depth.0),
            at_v,
            bounded' v b at_v,
          )
      | inr other ↦
          let (a, b, p, q, n) = h.closed u v (ground (arith, g.expanded u)) (es, o, (f, i, to)) in
          (a, b, g.kept u a p, g.kept v b q, n)
    ]

module _ (source : Source) (walk : GraphWalk) (seeds : List ℕ) where
  start-IsBreadthFirst : IsBreadthFirst source walk.max_hops (start seeds)
  unfolding start
  start-IsBreadthFirst = (
    0,
    seeds,
    [],
    record {
      layers = sym (append-nil seeds);
      now_depth = seeds_depth seeds (λ v i. i);
      later_depth = tt;
      bounded = λ v d p. omega (arith, (start-depth seeds v d p).0);
      settled = λ v d p. inl (start-depth seeds v d p).1;
      closed = λ u v x. cc;
    },
  )
    where
      seeds_depth :
          (vs : List ℕ) → ((v : ℕ) → In v vs → In v seeds) → All (HasDepth (start seeds) 0) vs
      seeds_depth [] sub = tt
      seeds_depth (v ∷ vs) sub =
          (start-depth_seed seeds v (sub v (here refl)), seeds_depth vs (λ w i. sub w (there i)))

  abbrev IsRooted : Search → Type 0
  IsRooted s = (v : ℕ) → In v seeds → s.depth v ≡ some 0

  -- The front of a nonempty queue lies in the first layer, after a shift if need be.
  front :
      (current : ℕ) (rest : List ℕ) (s : Search)
      → s.queue ≡ current ∷ rest
      → IsBreadthFirst source walk.max_hops s
      → (level : ℕ) × (now : List ℕ) × (later : List ℕ) × IsLayered source walk.max_hops level
          (current ∷ now)
          later
          s
  front current rest s e (level, [], later, h) =
      let p : later ≡ current ∷ rest = cc (e, h.layers) in (suc level, rest, [], rw p at (shift h))
  front current rest s e (level, x ∷ now, later, h) =
      let p : x ≡ current = cc (e, h.layers) in (level, now, later, rw p at h)

  visit-IsBreadthFirst :
      walk.max_neighbors_per_hop ≡ none
      → (current : ℕ) (rest : List ℕ) (s t : Search) → s.queue ≡ current ∷ rest
      → IsBreadthFirst source walk.max_hops s × IsRooted s
      → visit source walk current (record s { queue = rest }) ≡ ok t
      → IsBreadthFirst source walk.max_hops t × IsRooted t
  visit-IsBreadthFirst no_cap current rest s t e (b, rooted) v =
      let (level, now, later, h) = front current rest s e b in
      elim (visit-cases source walk current level (record s { queue = rest }) t h.now_depth.0 v) [
        | inl (same, why) ↦ rw (← same) ((level, now, later, pop e h why), rooted)
        | inr (below, (edges, offered, scanned)) ↦
            let next : level + 1 ≡ suc level = omega arith in
            let marked = mark current (record s { queue = rest }) in
            let to_t : scan none (suc level) 0 edges marked ≡ t = rw (← no_cap, ← next) scanned in
            let g : Grows (suc level) edges marked t =
              rw to_t at (scan-Grows none (suc level) 0 edges marked) in
            let (extra, l) =
              expand edges t e h offered g
                (λ f i. rw to_t at (scan_covers (suc level) 0 edges marked i)) in
            ((level, now, later ++ extra, l), λ w i. g.kept w 0 (rooted w i))
      ]

  complete :
      (t : Search)
      → IsBreadthFirst source walk.max_hops t
      → IsRooted t
      → t.queue ≡ []
      → {v n : ℕ} → Reaches source seeds v n
      → n ≤ walk.max_hops
      → (d : ℕ) × (t.depth v ≡ some d) × (d ≤ n)
  complete t b rooted empty (seed {v} i) near = (0, rooted v i, omega arith)
  complete t (level, now, later, h) rooted empty (hop {u} {v} {n} r step) near =
      let (a, at_u, below) = complete t (level, now, later, h) rooted empty r (omega arith) in
      elim (h.settled u a at_u) [
        | inl i ↦ absurd (In-nil (rw empty at i))
        | inr (inr far) ↦ absurd (omega arith)
        | inr (inl x) ↦
            let (a', d, p, q, m) = h.closed u v x step in
            let same : a' ≡ a = cc (p, at_u) in (d, q, omega arith)
      ]

  -- Without a neighbour cap, a walk that ends well computes distances: an entity has depth `d` if
  -- and only if `d` is at most `max_hops`, some walk of `d` hops leads to it from a seed, and no
  -- walk to it is shorter.
  pub run_observed_distance :
      (fuel : ℕ) (t : Search)
      → walk.max_neighbors_per_hop ≡ none
      → run_observed source walk fuel seeds ≡ some (ok t)
      → (v d : ℕ)
      → (t.depth v ≡ some d) ↔ (
          (d ≤ walk.max_hops)
          × Reaches source seeds v d
          × ((n : ℕ) → Reaches source seeds v n → d ≤ n))
  unfolding loop run_observed
  run_observed_distance fuel t no_cap h v d = (
    λ p.
        let (r, below) = (run_observed_sound source walk seeds fuel t h).0 v d p in
        (below, r, λ n q. shortest n q p below),
    λ (below, r, least).
        let (k, p, le) = found d r below in
        let k_d : k ≡ d =
          let q = least k ((run_observed_sound source walk seeds fuel t h).0 v k p).0 in
          omega arith in
        rw (← k_d) p,
  )
    where
      found :
          (n : ℕ)
          → Reaches source seeds v n
          → n ≤ walk.max_hops
          → (k : ℕ) × (t.depth v ≡ some k) × (k ≤ n)
      found n r near =
          let ((b, rooted), empty) =
            loop_rule source walk (λ s. IsBreadthFirst source walk.max_hops s × IsRooted s)
              (visit-IsBreadthFirst no_cap) fuel (start seeds) t
              (start-IsBreadthFirst, start-depth_seed seeds) h in
          complete t b rooted empty r near

      shortest : (n : ℕ) → Reaches source seeds v n → t.depth v ≡ some d → d ≤ walk.max_hops → d ≤ n
      shortest n q p below = elim (dec_le n walk.max_hops) [
        | no far ↦ omega arith
        | yes near ↦ let (k, r, le) = found n q near in let k_d : k ≡ d = cc (r, p) in omega arith
      ]
