-- ===== src/Storage/Busy.antt =====
-- What a call under the busy-retry budget of src/storage/utils.rs returns, and how long it sleeps.
use sqlite_graphrag.Base.{
  ℕ, zero, suc, ◌+◌, ◌/◌, ◌≤◌, ◌<◌, max, ◌≡◌, refl, ◌⊎◌, inl, inr, true, false, List, [], ◌∷◌,
  String, Result, err, arith, length, All, Bool-cases, Result-cases, ◌==◌,
}
use native.Mathlib.Decide.{ℕ_discrete}
use sqlite_graphrag.Retry.Delay.{Draws}
use sqlite_graphrag.Errors.{AppError, is_sqlite_busy}
use sqlite_graphrag.Storage.{
  busy_base_ms, busy_delay, busy_rounds, with_busy_retry_policy, sqlite_busy_max_delay_ms,
}

busy_delay_bound :
    (draw : ℕ → ℕ)
    → Draws draw
    → (base attempt : ℕ) → busy_delay draw base attempt < sqlite_busy_max_delay_ms
unfolding busy_delay busy_base_ms
busy_delay_bound draw d base attempt =
    let half = busy_base_ms base attempt / 2 in
    elim (Bool-cases (half == 0)) [
      | inl e ↦ rw (e, busy_delay) (ground arith)
      | inr e ↦ let below = d half (ground arith) in rw (e, busy_delay) (omega (arith, below))
    ]

module _ {A : Type 0} (draw : ℕ → ℕ) (message : ℕ → String) (answers : ℕ → Result AppError A) where
  -- The n-th call finds the database busy.
  abbrev pub IsBusy : ℕ → Type 0
  IsBusy n = (e : AppError) × (answers n ≡ err e) × (is_sqlite_busy e ≡ true)

  -- The outcome of the rounds from `from` to `to`.
  record Outcome (retries base from to : ℕ) (result : Result AppError A × List ℕ) : Type 0 where
    stop : ℕ
    after_from : from ≤ stop
    busy_before : (i : ℕ) → from ≤ i → i < stop → IsBusy i
    sleeps : length result.1 + from ≡ stop
    ends :
        (stop < to) × ¬ IsBusy stop × (result.0 ≡ answers stop)
        ⊎ (stop ≡ to) × (result.0 ≡ err (AppError.db_busy (message retries)))

  round_cases :
      (retries base left attempt : ℕ)
      → let rest = busy_rounds draw false message answers retries base left (suc attempt) in
        IsBusy attempt
          × (busy_rounds draw false message answers retries base (suc left) attempt
              ≡ (rest.0, busy_delay draw base attempt ∷ rest.1))
        ⊎ ¬ IsBusy attempt
          × (busy_rounds draw false message answers retries base (suc left) attempt
              ≡ (answers attempt, []))
  unfolding busy_rounds
  round_cases retries base left attempt = elim (Result-cases (answers attempt)) [
    | inl (v, p) ↦ inr (λ (e, q, b). ground arith, rw (p, busy_rounds) refl)
    | inr (e, p) ↦ elim (Bool-cases (is_sqlite_busy e)) [
      | inl b ↦ inl ((e, p, b), rw (p, b, busy_rounds) refl)
      | inr b ↦ inr (λ (f, q, c). ground (arith, p, q, b, c), rw (p, b, busy_rounds) refl)
    ]
  ]

  rounds-Outcome :
      (retries base left attempt : ℕ)
      → Outcome retries base attempt
          (left + attempt)
          (busy_rounds draw false message answers retries base left attempt)
  unfolding busy_rounds
  rounds-Outcome retries base zero attempt = record {
    stop = attempt;
    after_from = omega arith;
    busy_before = λ i h k. absurd (omega (arith, h, k));
    sleeps = omega arith;
    ends = inr (omega arith, refl);
  }
  rounds-Outcome retries base (suc left) attempt = elim (round_cases retries base left attempt) [
    | inr (calm, e) ↦ rw e (record {
      stop = attempt;
      after_from = omega arith;
      busy_before = λ i h k. absurd (omega (arith, h, k));
      sleeps = omega arith;
      ends = inl (omega arith, calm, refl);
    })
    | inl (busy, e) ↦
        let later = rounds-Outcome retries base left (suc attempt) in
        let same_end : left + suc attempt ≡ suc left + attempt = omega arith in
        rw e (record {
          stop = later.stop;
          after_from = omega (arith, later.after_from);
          busy_before = λ i h k. elim (ℕ_discrete i attempt) [
            | yes q ↦ rw q busy
            | no n ↦ later.busy_before i (ground arith) k
          ];
          sleeps = omega (arith, later.sleeps);
          ends = rw same_end at later.ends;
        })
  ]

  rounds_sleeps :
      Draws draw
      → (retries base left attempt : ℕ)
      → All
          (λ t. t < sqlite_busy_max_delay_ms)
          (busy_rounds draw false message answers retries base left attempt).1
  unfolding busy_rounds
  rounds_sleeps d retries base zero attempt = tt
  rounds_sleeps d retries base (suc left) attempt = elim (round_cases retries base left attempt) [
    | inr (calm, e) ↦ rw e tt
    | inl (busy, e) ↦
        rw e (busy_delay_bound draw d base attempt, rounds_sleeps d retries base left (suc attempt))
  ]

  -- With a generator that draws below its bound and the kill switch off: the call is made until it
  -- finds the database free, at most as often as the budget says (once, for a budget of 0). It
  -- returns that answer, whether success or another error, after one sleep for each busy answer; or,
  -- if all were busy, the DbBusy error. Every sleep is shorter than 5000 ms.
  pub with_busy_retry_policy_lem :
      Draws draw
      → (max_retries base_delay_ms : ℕ)
      → let result = with_busy_retry_policy draw false message answers max_retries base_delay_ms in
        ((stop : ℕ) × ((i : ℕ) → i < stop → IsBusy i)
          × (length result.1 ≡ stop)
          × ((stop < max max_retries 1) × ¬ IsBusy stop × (result.0 ≡ answers stop)
              ⊎ (stop ≡ max max_retries 1)
                × (result.0 ≡ err (AppError.db_busy (message (max max_retries 1))))))
        × All (λ t. t < sqlite_busy_max_delay_ms) result.1
  unfolding with_busy_retry_policy
  with_busy_retry_policy_lem d max_retries base_delay_ms =
      let rounds = max max_retries 1 in
      let base = max base_delay_ms 1 in
      let o = rounds-Outcome rounds base rounds 0 in
      let all : rounds + 0 ≡ rounds = omega arith in
      (
        (o.stop, λ i k. o.busy_before i (omega arith) k, omega (arith, o.sleeps), rw all at o.ends),
        rounds_sleeps d rounds base rounds 0,
      )
