-- ===== src/Retry/Breaker.antt =====
-- The circuit breaker of src/retry.rs over a whole job.
use sqlite_graphrag.Base.{
  ℕ, ◌+◌, ◌≤◌, ◌<◌, max, ◌≡◌, refl, sym, ap, ◌∙◌, ◌↔◌, ◌⊎◌, inl, inr, true, false, List, [], ◌∷◌,
  ◌++◌, length, All, arith,
}
use sqlite_graphrag.Retry.{
  AttemptOutcome, transient, hard_failure, success, CircuitBreaker, new, record_outcome, run,
  u32_max,
}

abbrev IsHard : ℕ × AttemptOutcome → Type 0
IsHard e = e.1 ≡ hard_failure

abbrev pub Attempts : Type 0
Attempts = List (ℕ × AttemptOutcome)

-- `n` hard failures in a row, somewhere in the attempts.
abbrev pub HasStreak : ℕ → Attempts → Type 0
HasStreak n es =
    (before : Attempts) × (streak : Attempts) × (after : Attempts) × (es
      ≡ before ++ (streak ++ after))
    × (length streak ≡ n)
    × All IsHard streak

-- With `count` failures seen, what `limit` still lacks stands at the front.
abbrev Completes : ℕ → ℕ → Attempts → Type 0
Completes limit count es =
    (streak : Attempts) × (after : Attempts) × (es ≡ streak ++ after)
    × (length streak + count ≡ limit)
    × All IsHard streak

module _ (limit : ℕ) (bounded : limit ≤ u32_max) (positive : 1 ≤ limit) where
  record Closed (cb : CircuitBreaker) : Type 0 where
    threshold : max cb.threshold 1 ≡ limit
    count : cb.consecutive_failures < limit

  step_soft :
      (cb : CircuitBreaker) (now : ℕ) (o : AttemptOutcome)
      → (o ≡ hard_failure)
        ⊎ (record_outcome cb now o ≡ (record cb { consecutive_failures = 0 }, false))
  unfolding record_outcome
  step_soft cb now transient = inr refl
  step_soft cb now success = inr refl
  step_soft cb now hard_failure = inl refl

  step_hard :
      (cb : CircuitBreaker) (now : ℕ)
      → Closed cb
      → (cb.consecutive_failures + 1 ≡ limit) × ((record_outcome cb now hard_failure).1 ≡ true)
        ⊎ (cb.consecutive_failures + 1 < limit)
          × (record_outcome cb now hard_failure
              ≡ (record cb { consecutive_failures = cb.consecutive_failures + 1 }, false))
  unfolding record_outcome
  step_hard cb now c = ground arith

  cons_HasStreak :
      (e : ℕ × AttemptOutcome) (es : Attempts) → HasStreak limit es → HasStreak limit (e ∷ es)
  cons_HasStreak e es (before, streak, after, p, n, h) =
      (e ∷ before, streak, after, ap (◌∷◌ e) p, n, h)

  abbrev cleared : CircuitBreaker → CircuitBreaker
  cleared cb = record cb { consecutive_failures = 0 }

  abbrev counted : CircuitBreaker → CircuitBreaker
  counted cb = record cb { consecutive_failures = cb.consecutive_failures + 1 }

  at_front :
      (e : ℕ × AttemptOutcome) (es : Attempts) → Completes limit 0 es → HasStreak limit (e ∷ es)
  at_front e es (streak, after, p, n, h) = (e ∷ [], streak, after, ap (◌∷◌ e) p, omega arith, h)

  one_more :
      (now count : ℕ) (es : Attempts)
      → Completes limit (count + 1) es
      → Completes limit count ((now, hard_failure) ∷ es)
  one_more now count es (streak, after, p, n, h) =
      ((now, hard_failure) ∷ streak, after, ap (◌∷◌ (now, hard_failure)) p, omega arith, (refl, h))

  run_go_on :
      (cb cb' : CircuitBreaker) (now : ℕ) (o : AttemptOutcome) (es : Attempts)
      → record_outcome cb now o ≡ (cb', false)
      → (run cb ((now, o) ∷ es)).1 ≡ (run cb' es).1
  unfolding run
  run_go_on cb cb' now o es e = rw e refl

  run_abort :
      (cb : CircuitBreaker) (now : ℕ) (o : AttemptOutcome) (es : Attempts)
      → (record_outcome cb now o).1 ≡ true
      → (run cb ((now, o) ∷ es)).1 ≡ true
  unfolding run
  run_abort cb now o es e = rw e refl

  sound :
      (cb : CircuitBreaker) (es : Attempts)
      → Closed cb
      → (run cb es).1 ≡ true
      → Completes limit cb.consecutive_failures es ⊎ HasStreak limit es
  unfolding run
  sound cb [] c r = cc
  sound cb ((now, o) ∷ es) c r = elim (step_soft cb now o) [
    | inr soft ↦
        let ih =
          sound (cleared cb) es (omega arith) (sym (run_go_on cb (cleared cb) now o es soft) ∙ r) in
        elim ih [
          | inl front ↦ inr (at_front (now, o) es front)
          | inr later ↦ inr (cons_HasStreak (now, o) es later)
        ]
    | inl hard ↦ elim (step_hard cb now c) [
      | inl (last, _) ↦ inl ((now, o) ∷ [], es, refl, omega arith, (hard, tt))
      | inr (room, more) ↦
          let go : record_outcome cb now o ≡ (counted cb, false) = rw hard more in
          let ih =
            sound (counted cb) es (omega arith) (sym (run_go_on cb (counted cb) now o es go) ∙ r) in
          elim ih [
            | inl front ↦ inl (rw hard (one_more now cb.consecutive_failures es front))
            | inr later ↦ inr (cons_HasStreak (now, o) es later)
          ]
    ]
  ]

  -- The streak trips the breaker, from whatever count.
  trips :
      (cb : CircuitBreaker) (streak after : Attempts)
      → Closed cb
      → All IsHard streak
      → limit ≤ length streak + cb.consecutive_failures
      → (run cb (streak ++ after)).1 ≡ true
  trips cb [] after c h n = absurd (omega (arith, c.count))
  trips cb ((now, o) ∷ streak) after c h n = elim (step_hard cb now c) [
    | inl (_, stop) ↦ run_abort cb now o (streak ++ after) (rw (h.0) stop)
    | inr (room, more) ↦
        let go : record_outcome cb now o ≡ (counted cb, false) = rw (h.0) more in
        run_go_on cb (counted cb) now o (streak ++ after) go
        ∙ trips (counted cb) streak after (omega arith) h.1 (omega arith)
  ]

  complete :
      (cb : CircuitBreaker) (before streak after : Attempts)
      → Closed cb
      → All IsHard streak
      → length streak ≡ limit
      → (run cb (before ++ (streak ++ after))).1 ≡ true
  complete cb [] streak after c h n = trips cb streak after c h (omega arith)
  complete cb ((now, o) ∷ before) streak after c h n =
      let es = before ++ (streak ++ after) in
      elim (step_soft cb now o) [
        | inr soft ↦
            run_go_on cb (cleared cb) now o es soft
            ∙ complete (cleared cb) before streak after (omega arith) h n
        | inl hard ↦ elim (step_hard cb now c) [
          | inl (_, stop) ↦ run_abort cb now o es (rw hard stop)
          | inr (room, more) ↦
              let go : record_outcome cb now o ≡ (counted cb, false) = rw hard more in
              run_go_on cb (counted cb) now o es go
              ∙ complete (counted cb) before streak after (omega arith) h n
        ]
      ]

max_threshold_pos : (threshold : ℕ) → 1 ≤ max threshold 1
max_threshold_pos threshold = omega arith

new-Closed :
    (threshold cooldown : ℕ) (b : max threshold 1 ≤ u32_max)
    → Closed (max threshold 1) b (max_threshold_pos threshold) (new threshold cooldown)
unfolding new
new-Closed threshold cooldown b = record { threshold = refl; count = max_threshold_pos threshold }

-- For a threshold within u32: a job that starts with a fresh breaker is aborted exactly when its
-- attempts hold that many hard failures in a row (one, for a threshold of 0).
pub run_aborts_iff :
    (threshold cooldown : ℕ) (es : Attempts)
    → max threshold 1 ≤ u32_max
    → ((run (new threshold cooldown) es).1 ≡ true) ↔ HasStreak (max threshold 1) es
unfolding new
run_aborts_iff threshold cooldown es b = (
  λ r. elim (sound limit b pos start es closed r) [
    | inl (streak, after, p, n, h) ↦ ([], streak, after, p, omega arith, h)
    | inr later ↦ later
  ],
  λ (before, streak, after, p, n, h).
      rw p (complete limit b pos start before streak after closed h n),
)
  where
    limit : ℕ
    limit = max threshold 1

    pos : 1 ≤ limit
    pos = max_threshold_pos threshold

    start : CircuitBreaker
    start = new threshold cooldown

    closed : Closed limit b pos start
    closed = new-Closed threshold cooldown b
