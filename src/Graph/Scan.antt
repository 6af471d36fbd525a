-- ===== src/Graph/Scan.antt =====
-- What the loop over the neighbours of one entity adds to the search.
use sqlite_graphrag.Base.{
  ℕ, ◌≡◌, refl, sym, ap, ◌∙◌, ◌⊎◌, inl, inr, Option, none, some, List, [], ◌∷◌, ◌++◌, append_assoc,
  append-nil, arith, In, here, there, In-cons, In-nil, In-append_left, In-append_right, All,
  All-imp, All-append, Option-cases, Bool-cases,
}
use sqlite_graphrag.Graph.{EdgeArrival, Search, insert, consider, scan, is_full, admit}

-- `t` is `s` after the edges `es` were considered at depth `next`.
pub record Grows (next : ℕ) (es : List EdgeArrival) (s t : Search) : Type 0 where
  pub kept : (v d : ℕ) → s.depth v ≡ some d → t.depth v ≡ some d
  pub fresh :
      (v d : ℕ)
      → t.depth v ≡ some d
      → (s.depth v ≡ some d)
        ⊎ (d ≡ next) × In v t.queue × ((e : EdgeArrival) × In e es × (v ≡ e.neighbor_id))
  pub extra : List ℕ
  pub queue : t.queue ≡ s.queue ++ extra
  pub extra_depth : All (λ v. t.depth v ≡ some next) extra
  pub expanded : (v : ℕ) → t.expanded v ≡ s.expanded v
  pub arrived :
      (v : ℕ) (e : EdgeArrival)
      → t.arrival v ≡ some e
      → (s.arrival v ≡ some e)
        ⊎ In e es × (v ≡ e.neighbor_id) × (t.depth v ≡ some next) × (s.depth v ≡ none)

insert_self {ℓ} : {V : Type ℓ} (m : ℕ → Option V) (k : ℕ) (v : V) → insert m k v k ≡ some v
unfolding insert
insert_self m k v = ground arith

insert-cases {ℓ} :
    {V : Type ℓ} (m : ℕ → Option V) (k j : ℕ) (v : V)
    → (j ≡ k) × (insert m k v j ≡ some v) ⊎ (insert m k v j ≡ m j)
unfolding insert
insert-cases m k j v = ground arith

-- An edge that is only observed.
Grows-observe :
    (next : ℕ) (es : List EdgeArrival) (s : Search) (seen : List (EdgeArrival × ℕ))
    → Grows next es s (record s { observed = seen })
Grows-observe next es s seen = record {
  kept = λ v d h. h;
  fresh = λ v d h. inl h;
  extra = [];
  queue = sym (append-nil s.queue);
  extra_depth = tt;
  expanded = λ v. refl;
  arrived = λ v e h. inl h;
}

admit-Grows :
    (next : ℕ) (e : EdgeArrival) (s : Search) (seen : List (EdgeArrival × ℕ))
    → s.depth e.neighbor_id ≡ none
    → Grows next (e ∷ []) s (admit next e (record s { observed = seen }))
unfolding admit
admit-Grows next e s seen new = record {
  kept = λ v d h. elim (insert-cases s.depth e.neighbor_id v next) [
    | inl (p, _) ↦ cc (h, new, p)
    | inr q ↦ q ∙ h
  ];
  fresh = λ v d h. elim (insert-cases s.depth e.neighbor_id v next) [
    | inl (p, q) ↦ inr (cc (h, q), In-append_right s.queue (here p), (e, here refl, p))
    | inr q ↦ inl (sym q ∙ h)
  ];
  extra = e.neighbor_id ∷ [];
  queue = refl;
  extra_depth = (insert_self s.depth e.neighbor_id next, tt);
  expanded = λ v. refl;
  arrived = λ v f h. elim (insert-cases s.arrival e.neighbor_id v e) [
    | inl (p, q) ↦
        let same : f ≡ e = cc (h, q) in
        inr (here same, cc (p, same), rw p (insert_self s.depth e.neighbor_id next), rw p new)
    | inr q ↦ inl (sym q ∙ h)
  ];
}

Grows-cons :
    {next : ℕ} {e : EdgeArrival} {es : List EdgeArrival} {s t u : Search}
    → Grows next (e ∷ []) s t
    → Grows next es t u
    → Grows next (e ∷ es) s u
Grows-cons {next} {e} {es} {s} {t} {u} g h = record {
  kept = λ v d p. h.kept v d (g.kept v d p);
  fresh = λ v d p. elim (h.fresh v d p) [
    | inr (q, m, (f, i, w)) ↦ inr (q, m, (f, there i, w))
    | inl q ↦ elim (g.fresh v d q) [
      | inl r ↦ inl r
      | inr (r, m, (f, i, w)) ↦ inr (r, rw h.queue (In-append_left h.extra m), (f, first f i, w))
    ]
  ];
  extra = g.extra ++ h.extra;
  queue = h.queue ∙ ap (λ q. q ++ h.extra) g.queue ∙ append_assoc s.queue g.extra h.extra;
  extra_depth =
      All-append (λ v. u.depth v ≡ some next) g.extra h.extra
        (All-imp _ _ (λ v p. h.kept v next p) g.extra g.extra_depth) h.extra_depth;
  expanded = λ v. h.expanded v ∙ g.expanded v;
  arrived = λ v f p. elim (h.arrived v f p) [
    | inr (i, w, q, m) ↦ inr (there i, w, q, none_before v m)
    | inl q ↦ elim (g.arrived v f q) [
      | inl r ↦ inl r
      | inr (i, w, r, m) ↦ inr (first f i, w, h.kept v next r, m)
    ]
  ];
}
  where
    first : (f : EdgeArrival) → In f (e ∷ []) → In f (e ∷ es)
    first f i = elim (In-cons i) [ inl p ↦ here p | inr n ↦ absurd (In-nil n) ]

    none_before : (v : ℕ) → t.depth v ≡ none → s.depth v ≡ none
    none_before v m = elim (Option-cases (s.depth v)) [ inl p ↦ p | inr (d, p) ↦ cc (g.kept v d p) ]

consider-Grows :
    (cap : Option ℕ) (next : ℕ) (e : EdgeArrival) (admitted : ℕ) (s : Search)
    → Grows next (e ∷ []) s (consider cap next e admitted s).1
unfolding consider
consider-Grows cap next e admitted s = elim (Option-cases (s.depth e.neighbor_id)) [
  | inr (d, p) ↦ rw (p, consider) (Grows-observe next (e ∷ []) s _)
  | inl p ↦ elim (Bool-cases (is_full cap admitted)) [
    | inl full ↦ rw (p, consider, full) (Grows-observe next (e ∷ []) s _)
    | inr room ↦ rw (p, consider, room) (admit-Grows next e s _ p)
  ]
]

pub scan-Grows :
    (cap : Option ℕ) (next admitted : ℕ) (es : List EdgeArrival) (s : Search)
    → Grows next es s (scan cap next admitted es s)
unfolding scan
scan-Grows cap next admitted [] s = Grows-observe next [] s s.observed
scan-Grows cap next admitted (e ∷ es) s =
    let (admitted', s') = consider cap next e admitted s in
    Grows-cons (consider-Grows cap next e admitted s) (scan-Grows cap next admitted' es s')

-- Without a cap every neighbour has a depth afterwards.
consider_covers :
    (next : ℕ) (e : EdgeArrival) (admitted : ℕ) (s : Search)
    → (d : ℕ) × ((consider none next e admitted s).1.depth e.neighbor_id ≡ some d)
unfolding consider is_full admit
consider_covers next e admitted s = elim (Option-cases (s.depth e.neighbor_id)) [
  | inr (d, p) ↦ (d, rw (p, consider) p)
  | inl p ↦ (next, rw (p, consider) (insert_self s.depth e.neighbor_id next))
]

pub scan_covers :
    (next admitted : ℕ) (es : List EdgeArrival) (s : Search) {e : EdgeArrival}
    → In e es
    → (d : ℕ) × ((scan none next admitted es s).depth e.neighbor_id ≡ some d)
unfolding scan
scan_covers next admitted [] s i = absurd (In-nil i)
scan_covers next admitted (f ∷ es) s {e} i =
    let (admitted', s') = consider none next f admitted s in
    elim (In-cons i) [
      | inl p ↦
          let (d, q) = consider_covers next f admitted s in
          (d, (scan-Grows none next admitted' es s').kept e.neighbor_id d (rw p q))
      | inr j ↦ scan_covers next admitted' es s' j
    ]
