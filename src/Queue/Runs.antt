-- ===== src/Queue/Runs.antt =====
-- Whole runs of src/commands/enrich/ for one operation and namespace, among them the preparation of
-- run/queue_prep.rs, and the rows of the other operations and namespaces.
use sqlite_graphrag.Base.{
  ℕ, ◌≡◌, refl, String, Bool, true, false, not, ◌&&◌, Option, none, List, [], ◌∷◌, str_eq, filter,
  In, In-filter, In-filter_intro, All, if◌then◌else◌, arith,
}
use sqlite_graphrag.Queue.{Row, Queue, MainDb, ℤ, is_processing, update, delete}
use sqlite_graphrag.Queue.Sweep.{
  PrepareArgs, is_entity_descriptions, is_re_embed, prepare_queue, is_stale, unclaim, renew,
  is_reopened, reset_stale_processing_claims, reset_processing_for_op, reset_failed_for_op,
  reopen_force_redescribe_candidates, reconcile_satisfied_reembed_pending, clear,
  is_pending_reembed, reconcile_row,
}
use sqlite_graphrag.Queue.WellFormed.{IsWf}
use sqlite_graphrag.Queue.Claim.Order.{In-map_kept}
use sqlite_graphrag.Queue.Loops.{is_reconciled, reconcile_lem}
use sqlite_graphrag.Queue.Actions.{
  Action, sweep_stale, reset_processing, reset_failed, clear_op, reopen_keys, reconcile, exec,
}
use sqlite_graphrag.Queue.Statements.{Via-IsWf}
use sqlite_graphrag.Queue.Traces.{exec-Via}
use sqlite_graphrag.Queue.Isolation.{Local, act, is_foreign, exec_kept}

-- A run prepares the queue, and executes statements that name its operation and namespace. The ends
-- of its claims, which name a row by its id, are not among these steps.
pub data RunStep : Type 0 where
  prepare : PrepareArgs → (scan_keys : List String) → RunStep
  execute : Local → RunStep

-- The flags name the operation whose label the run uses.
abbrev pub IsLabelled : String → RunStep → Type 0
IsLabelled operation (prepare args keys) =
    ((is_entity_descriptions args.operation ≡ true) → operation ≡ "EntityDescriptions")
    × ((is_re_embed args.operation ≡ true) → operation ≡ "ReEmbed")
IsLabelled operation _ = Unit

-- A row of another run that no sweep may take: of another namespace, or of another operation, in a
-- namespace that is not the empty one, and not being processed.
abbrev pub is_safe : String → String → Row → Bool
is_safe operation namespace row =
    is_foreign operation namespace row
    && not (str_eq row.namespace "")
    && not (is_processing row.status)

module _ (operation namespace : String) where
  abbrev Keeps : Queue → Queue → Type 0
  Keeps q q' =
      IsWf q' × ((r : Row) → In r q.rows → is_safe operation namespace r ≡ true → In r q'.rows)

  Keeps-trans : (a b c : Queue) → Keeps a b → Keeps b c → Keeps a c
  Keeps-trans a b c (wf, f) (wf', g) = (wf', λ r i s. g r (f r i s) s)

  Keeps-if :
      (b : Bool) (q q' : Queue) → IsWf q → (b ≡ true → Keeps q q') → Keeps q (if b then q' else q)
  Keeps-if true q q' wf h = h refl
  Keeps-if false q q' wf h = (wf, λ r i s. i)

  update-In :
      (cond : Row → Bool) (change : Row → Row) (q : Queue)
      → ((r : Row) → is_safe operation namespace r ≡ true → cond r ≡ false)
      → (r : Row) → In r q.rows
      → is_safe operation namespace r ≡ true
      → In r (update cond change q).rows
  unfolding update
  update-In cond change q apart r i s = In-map_kept cond change q.rows i (apart r s)

  delete-In :
      (cond : Row → Bool) (q : Queue)
      → ((r : Row) → is_safe operation namespace r ≡ true → cond r ≡ false)
      → (r : Row) → In r q.rows
      → is_safe operation namespace r ≡ true
      → In r (delete cond q).rows
  unfolding delete
  delete-In cond q apart r i s =
      let out = apart r s in
      In-filter_intro (λ row. if cond row then false else true) q.rows (rw out refl) i

  reopened_apart :
      (key : String)
      → operation ≡ "EntityDescriptions"
      → (r : Row) → is_safe operation namespace r ≡ true
      → is_reopened namespace key r ≡ false
  unfolding is_reopened
  reopened_apart key e r s =
      let t : is_safe "EntityDescriptions" namespace r ≡ true = rw (← e) s in ground arith

  reopen-In :
      (keys : List String) (q : Queue)
      → operation ≡ "EntityDescriptions"
      → (r : Row) → In r q.rows
      → is_safe operation namespace r ≡ true
      → In r (reopen_force_redescribe_candidates namespace keys q).0.rows
  unfolding reopen_force_redescribe_candidates
  reopen-In [] q e r i s = i
  reopen-In (key ∷ keys) q e r i s =
      let change : Row → Row = λ row. record (renew row) { claimed_at = none; done_at = none } in
      reopen-In keys (update (is_reopened namespace key) change q) e r
        (update-In (is_reopened namespace key) change q (reopened_apart key e) r i s) s

  module _ (parse : String → Option ℤ) (main : MainDb) (draw : ℕ → ℕ) (now : ℕ) where
    exec-IsWf : (a : Action) (q : Queue) → IsWf q → IsWf (exec parse main draw now a q)
    exec-IsWf a q wf = Via-IsWf (exec-Via parse main draw now a q wf) wf

    stale-Keeps :
        (secs : ℕ) (q : Queue) → IsWf q → Keeps q (reset_stale_processing_claims now secs q).0
    unfolding exec reset_stale_processing_claims is_stale
    stale-Keeps secs q wf = (
      exec-IsWf (sweep_stale secs) q wf,
      update-In (is_stale now secs) unclaim q (λ r s. ground arith),
    )

    resume-Keeps : (q : Queue) → IsWf q → Keeps q (reset_processing_for_op operation namespace q).0
    unfolding exec reset_processing_for_op
    resume-Keeps q wf = (
      exec-IsWf (reset_processing operation namespace) q wf,
      update-In _ unclaim q (λ r s. ground arith),
    )

    retry-Keeps : (q : Queue) → IsWf q → Keeps q (reset_failed_for_op operation namespace q).0
    unfolding exec reset_failed_for_op
    retry-Keeps q wf =
        (exec-IsWf (reset_failed operation namespace) q wf, update-In _ _ q (λ r s. ground arith))

    clear-Keeps : (q : Queue) → IsWf q → Keeps q (clear parse main operation namespace q)
    unfolding exec clear
    clear-Keeps q wf =
        (exec-IsWf (clear_op operation namespace) q wf, delete-In _ q (λ r s. ground arith))

    reopen-Keeps :
        (keys : List String) (q : Queue)
        → IsWf q
        → operation ≡ "EntityDescriptions"
        → Keeps q (reopen_force_redescribe_candidates namespace keys q).0
    unfolding exec
    reopen-Keeps keys q wf e = (exec-IsWf (reopen_keys namespace keys) q wf, reopen-In keys q e)

    reconcile-Keeps :
        (q : Queue)
        → IsWf q
        → operation ≡ "ReEmbed"
        → Keeps q (reconcile_satisfied_reembed_pending parse main now namespace q).0
    unfolding exec is_pending_reembed
    reconcile-Keeps q wf e = (
      exec-IsWf (reconcile namespace) q wf,
      rw (reconcile_lem parse main now namespace q wf) (
          update-In (is_reconciled parse main namespace) (reconcile_row parse main now) q
            (λ r s. let t : is_safe "ReEmbed" namespace r ≡ true = rw (← e) s in ground arith)),
    )

    prepare-Keeps :
        (args : PrepareArgs) (keys : List String) (q : Queue)
        → IsWf q
        → IsLabelled operation (prepare args keys)
        → Keeps q (prepare_queue parse main now args namespace operation keys q)
    unfolding prepare_queue
    prepare-Keeps args keys q wf (described, embedded) =
        let q1 = (reset_stale_processing_claims now args.stale_claim_secs q).0 in
        let k1 : Keeps q q1 = stale-Keeps args.stale_claim_secs q wf in
        let resumed = (reset_processing_for_op operation namespace q1).0 in
        let q2 = if args.resume then resumed else q1 in
        let k2 : Keeps q1 q2 = Keeps-if args.resume q1 resumed k1.0 (λ e. resume-Keeps q1 k1.0) in
        let retried = (reset_failed_for_op operation namespace q2).0 in
        let q3 = if args.retry_failed then retried else q2 in
        let k3 : Keeps q2 q3 =
          Keeps-if args.retry_failed q2 retried k2.0 (λ e. retry-Keeps q2 k2.0) in
        let anew = not args.resume && not args.retry_failed && not args.until_empty in
        let cleared = clear parse main operation namespace q3 in
        let q4 = if anew then cleared else q3 in
        let k4 : Keeps q3 q4 = Keeps-if anew q3 cleared k3.0 (λ e. clear-Keeps q3 k3.0) in
        let again = args.force_redescribe && is_entity_descriptions args.operation in
        let reopened = (reopen_force_redescribe_candidates namespace keys q4).0 in
        let q5 = if again then reopened else q4 in
        let k5 : Keeps q4 q5 =
          Keeps-if again q4 reopened k4.0
            (λ e. reopen-Keeps keys q4 k4.0 (described (ground arith))) in
        let reconciled = (reconcile_satisfied_reembed_pending parse main now namespace q5).0 in
        let k6 =
          Keeps-if (is_re_embed args.operation) q5 reconciled k5.0
            (λ e. reconcile-Keeps q5 k5.0 (embedded e)) in
        let q6 = if is_re_embed args.operation then reconciled else q5 in
        Keeps-trans q q1 q6 k1 (
          Keeps-trans q1 q2 q6 k2
            (Keeps-trans q2 q3 q6 k3 (Keeps-trans q3 q4 q6 k4 (Keeps-trans q4 q5 q6 k5 k6))))

    unfoldable pub run_step : RunStep → Queue → Queue
    run_step (prepare args keys) q = prepare_queue parse main now args namespace operation keys q
    run_step (execute a) q = exec parse main draw now (act operation namespace a) q

    run_step-Keeps :
        (step : RunStep) (q : Queue)
        → IsWf q
        → IsLabelled operation step
        → Keeps q (run_step step q)
    unfolding run_step
    run_step-Keeps (prepare args keys) q wf labelled = prepare-Keeps args keys q wf labelled
    run_step-Keeps (execute a) q wf labelled = (
      exec-IsWf (act operation namespace a) q wf,
      λ r i s.
          let foreign = is_foreign operation namespace in
          let kept = exec_kept operation namespace parse main draw now a q wf in
          let mine : In r (filter foreign q.rows) =
            In-filter_intro foreign q.rows (ground arith) i in
          (In-filter foreign (exec parse main draw now (act operation namespace a) q).rows
            (rw kept mine)).1,
    )

  module _ (parse : String → Option ℤ) (draw : ℕ → ℕ) where
    unfoldable pub run_history : List (ℕ × MainDb × RunStep) → Queue → Queue
    run_history [] q = q
    run_history ((now, main, step) ∷ rest) q =
        run_history rest (run_step parse main draw now step q)

    -- In a well-formed queue, whatever runs for one operation and namespace do in their preparations
    -- of the queue (their flags name the operation) and by their enqueues, claims, resets, requeues and
    -- prunings, in any order, at any times and whatever the main database holds at each: a row of
    -- another namespace, or of another operation (one without an operation counts as the run's own), is
    -- left exactly as it is, if it is not being processed and its namespace is not the empty one.
    pub run_history_foreign :
        (events : List (ℕ × MainDb × RunStep)) (queue : Queue)
        → IsWf queue
        → All (λ e. IsLabelled operation e.2) events
        → (row : Row) → In row queue.rows
        → is_safe operation namespace row ≡ true
        → In row (run_history events queue).rows
    unfolding run_history
    run_history_foreign [] q wf labelled row i s = i
    run_history_foreign ((now, main, step) ∷ rest) q wf labelled row i s =
        let (wf', kept) = run_step-Keeps parse main draw now step q wf labelled.0 in
        run_history_foreign rest (run_step parse main draw now step q) wf' labelled.1 row
          (kept row i s) s
