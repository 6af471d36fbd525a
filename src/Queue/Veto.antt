-- ===== src/Queue/Veto.antt =====
-- The two forms of the veto of src/commands/enrich/queue.rs agree.
use sqlite_graphrag.Base.{
  ℕ, zero, suc, ◌≤◌, ◌≡◌, refl, sym, ◌∙◌, inl, inr, String, Bool, true, false, ◌&&◌, List, [], ◌∷◌,
  ◌++◌, str_eq, eq_iff, filter, filter_cong, length, take, drop, take-append-drop, length-drop,
  if◌then◌else◌, arith, In, here, there, In-cons, In-nil, In-append, In-append_left,
  In-append_right, In-filter, In-filter_intro, In-map, In-map_intro, Bool-cases,
}
use sqlite_graphrag.Queue.{Row, Queue, is_skipped, is_operation_or_null}
use sqlite_graphrag.Queue.Enqueue.{
  contains, skipped_item_keys, vetoed_page, vetoed_pages, retain_unskipped,
  default_enrich_scan_page_size,
}

contains-true : (key : String) (ks : List String) → contains key ks ≡ true → In key ks
unfolding contains
contains-true key [] h = ground arith
contains-true key (k ∷ ks) h = elim (Bool-cases (str_eq key k)) [
  | inl e ↦ here ((eq_iff key k).0 e)
  | inr e ↦ there (contains-true key ks (ground arith))
]

contains-In : (key : String) (ks : List String) → In key ks → contains key ks ≡ true
unfolding contains
contains-In key [] i = absurd (In-nil i)
contains-In key (k ∷ ks) i = elim (In-cons i) [
  | inl q ↦ let e = (eq_iff key k).1 q in ground arith
  | inr j ↦ let e = contains-In key ks j in ground arith
]

module _ (operation : String) (queue : Queue) where
  abbrev vetoes : Row → Bool
  vetoes row = is_skipped row.status && is_operation_or_null operation row

  page-In :
      (page : List String) {key : String}
      → In key (vetoed_page operation page queue)
      → In key (skipped_item_keys operation queue)
  unfolding vetoed_page skipped_item_keys
  page-In page i =
      let (r, j, e) =
        In-map (λ row. row.item_key)
          (filter
            (λ row.
              is_skipped row.status
              && is_operation_or_null operation row
              && contains row.item_key page)
            queue.rows)
          i in
      let (t, k) =
        In-filter
          (λ row.
            is_skipped row.status
            && is_operation_or_null operation row
            && contains row.item_key page)
          queue.rows j in
      rw e (
        In-map_intro (λ row. row.item_key) (filter vetoes queue.rows)
          (In-filter_intro vetoes queue.rows (ground arith) k))

  page_In :
      (page : List String) {key : String}
      → In key page
      → In key (skipped_item_keys operation queue)
      → In key (vetoed_page operation page queue)
  unfolding vetoed_page skipped_item_keys
  page_In page p i =
      let (r, j, e) = In-map (λ row. row.item_key) (filter vetoes queue.rows) i in
      let (t, k) = In-filter vetoes queue.rows j in
      let listed = contains-In r.item_key page (rw e at p) in
      rw e (
        In-map_intro (λ row. row.item_key)
          (filter
            (λ row.
              is_skipped row.status
              && is_operation_or_null operation row
              && contains row.item_key page)
            queue.rows)
          (In-filter_intro
            (λ row.
              is_skipped row.status
              && is_operation_or_null operation row
              && contains row.item_key page)
            queue.rows (ground arith) k))

  pages-In :
      (fuel : ℕ) (keys : List String) {key : String}
      → In key (vetoed_pages fuel operation keys queue)
      → In key (skipped_item_keys operation queue)
  unfolding vetoed_pages
  pages-In zero keys i = absurd (In-nil i)
  pages-In (suc fuel) [] i = absurd (In-nil i)
  pages-In (suc fuel) (k ∷ ks) i =
      let page = take default_enrich_scan_page_size (k ∷ ks) in
      elim (In-append (vetoed_page operation page queue)
        (vetoed_pages fuel operation (drop default_enrich_scan_page_size (k ∷ ks)) queue) i) [
          | inl j ↦ page-In page j
          | inr j ↦ pages-In fuel (drop default_enrich_scan_page_size (k ∷ ks)) j
        ]

  pages_In :
      (fuel : ℕ) (keys : List String) {key : String}
      → length keys ≤ fuel
      → In key keys
      → In key (skipped_item_keys operation queue)
      → In key (vetoed_pages fuel operation keys queue)
  unfolding vetoed_pages
  pages_In zero [] n p i = absurd (In-nil p)
  pages_In zero (k ∷ ks) n p i = absurd (ground arith)
  pages_In (suc fuel) [] n p i = absurd (In-nil p)
  pages_In (suc fuel) (k ∷ ks) {key} n p i =
      let page = take default_enrich_scan_page_size (k ∷ ks) in
      let left = drop default_enrich_scan_page_size (k ∷ ks) in
      let shorter = length-drop default_enrich_scan_page_size (k ∷ ks) in
      let split : In key (page ++ left) =
        rw (take-append-drop default_enrich_scan_page_size (k ∷ ks)) p in
      elim (In-append page left split) [
        | inl j ↦ In-append_left (vetoed_pages fuel operation left queue) (page_In page j i)
        | inr j ↦
            In-append_right (vetoed_page operation page queue)
              (pages_In fuel left (omega (arith, n, shorter)) j i)
      ]

  agree :
      (keys : List String) (key : String)
      → In key keys
      → contains key (vetoed_pages (length keys) operation keys queue)
        ≡ contains key (skipped_item_keys operation queue)
  agree keys key p = elim (Bool-cases (contains key (skipped_item_keys operation queue))) [
    | inl e ↦
        contains-In key (vetoed_pages (length keys) operation keys queue) (
          pages_In (length keys) keys (omega arith) p
            (contains-true key (skipped_item_keys operation queue) e))
        ∙ sym e
    | inr e ↦ elim (Bool-cases (contains key (vetoed_pages (length keys) operation keys queue))) [
      | inl f ↦
          let t = contains-In key (skipped_item_keys operation queue) (
            pages-In (length keys) keys
              (contains-true key (vetoed_pages (length keys) operation keys queue) f)) in
          ground arith
      | inr f ↦ f ∙ sym e
    ]
  ]

-- Asking page by page keeps exactly the candidates, in order and with repetitions, that are not in
-- the whole veto set of the operation.
pub retain_unskipped_lem :
    (operation : String) (keys : List String) (queue : Queue)
    → retain_unskipped operation keys queue
      ≡ filter
          (λ key. if contains key (skipped_item_keys operation queue) then false else true)
          keys
unfolding retain_unskipped filter
retain_unskipped_lem operation [] queue = refl
retain_unskipped_lem operation (k ∷ ks) queue =
    filter_cong
      (λ key.
        if contains key (vetoed_pages (length (k ∷ ks)) operation (k ∷ ks) queue)
        then false
        else true)
      (λ key. if contains key (skipped_item_keys operation queue) then false else true) (k ∷ ks)
      (λ key i. rw (agree operation queue (k ∷ ks) key i) refl)
