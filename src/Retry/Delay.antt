-- ===== src/Retry/Delay.antt =====
-- The delays of src/retry.rs.
use native.Mathlib.Nat.{pow-suc}
use sqlite_graphrag.Base.{ℕ, zero, suc, ◌/◌, ◌^◌, ◌≤◌, ◌<◌, ◌≡◌, refl, ◌≢◌, arith}
use sqlite_graphrag.Retry.{
  JitterKind, no_jitter, half, full, RetryConfig, llm_rate_limit, base_delay, apply_jitter,
  compute_delay, saturating_mul, saturating_pow,
}

-- What `fastrand::u64(0..n)` promises: a number below `n`, when there is one.
abbrev pub Draws : (ℕ → ℕ) → Type 0
Draws draw = (n : ℕ) → 0 < n → draw n < n

apply_jitter_bounds :
    (draw : ℕ → ℕ)
    → Draws draw
    → (j : JitterKind) (base : ℕ)
    → (apply_jitter draw j base ≤ base)
      × (j ≢ full → base / 2 ≤ apply_jitter draw j base)
      × (j ≡ half → 2 ≤ base → apply_jitter draw j base < base)
unfolding apply_jitter
apply_jitter_bounds draw d no_jitter base = ground arith
apply_jitter_bounds draw d half base = ground (arith, d (base / 2))
apply_jitter_bounds draw d full base = ground (arith, d base)

pow_pos : (n : ℕ) → 1 ≤ 2 ^ n
pow_pos zero = omega arith
pow_pos (suc n) = omega (arith, pow_pos n, pow-suc 2 n)

base_delay-le_cap : (config : RetryConfig) (n : ℕ) → base_delay config n ≤ config.max_delay_ms
unfolding base_delay
base_delay-le_cap config n = omega arith

-- The cap is never passed, and under the LLM policy the wait is at least a minute.
base_delay-llm_bounds :
    (attempt : ℕ)
    → (60000 ≤ base_delay llm_rate_limit attempt) × (base_delay llm_rate_limit attempt ≤ 900000)
unfolding base_delay saturating_mul saturating_pow
base_delay-llm_bounds attempt = omega (arith, pow_pos attempt)

-- With a generator that draws below its bound, every delay is at most the configured cap; without
-- full jitter it is at least half the base, the lesser of the cap and the saturated exponential;
-- and under half jitter it stays strictly below the base wherever the base is 2 or more.
pub compute_delay_bounds :
    (draw : ℕ → ℕ)
    → Draws draw
    → (config : RetryConfig) (attempt : ℕ)
    → (compute_delay draw config attempt ≤ config.max_delay_ms)
      × (config.jitter ≢ full → base_delay config attempt / 2 ≤ compute_delay draw config attempt)
      × (config.jitter ≡ half
          → 2 ≤ base_delay config attempt
          → compute_delay draw config attempt < base_delay config attempt)
unfolding compute_delay
compute_delay_bounds draw d config attempt =
    let (upper, lower, strict) =
      apply_jitter_bounds draw d config.jitter (base_delay config attempt) in
    (omega (arith, upper, base_delay-le_cap config attempt), lower, strict)

-- Under the LLM policy every delay lies in [30 s, 900 s), whatever the attempt.
pub llm_delay_bounds :
    (draw : ℕ → ℕ)
    → Draws draw
    → (attempt : ℕ)
    → (30000 ≤ compute_delay draw llm_rate_limit attempt)
      × (compute_delay draw llm_rate_limit attempt < 900000)
llm_delay_bounds draw d attempt =
    let (upper, lower, strict) = compute_delay_bounds draw d llm_rate_limit attempt in
    let (lo, hi) = base_delay-llm_bounds attempt in
    (omega (arith, lower (λ e. cc)), omega (arith, strict refl (omega arith)))
