-- ===== src/Retry.antt =====
-- src/retry.rs: delays between attempts, and the circuit breaker. u64 and u32 values are natural
-- numbers with the saturation written out; a delay is in milliseconds.
pub mod Delay
pub mod Breaker
pub mod Examples
use sqlite_graphrag.Base.{
  ℕ, zero, suc, ◌+◌, ◌*◌, ◌/◌, ◌-◌, ◌^◌, min, max, Bool, true, false, Option, none, some, List, [],
  ◌∷◌, ltb, leb, ◌==◌, if◌then◌else◌,
}

pub data JitterKind : Type 0 where
  no_jitter half full : JitterKind

pub record RetryConfig : Type 0 where
  pub initial_delay_ms : ℕ
  pub max_delay_ms : ℕ
  pub multiplier : ℕ
  pub max_attempts : ℕ
  pub max_elapsed_secs : ℕ
  pub jitter : JitterKind

abbrev pub sqlite_busy : RetryConfig
sqlite_busy = record {
  initial_delay_ms = 300;
  max_delay_ms = 4800;
  multiplier = 2;
  max_attempts = 5;
  max_elapsed_secs = 30;
  jitter = half;
}

abbrev pub llm_rate_limit : RetryConfig
llm_rate_limit = record {
  initial_delay_ms = 60000;
  max_delay_ms = 900000;
  multiplier = 2;
  max_attempts = 20;
  max_elapsed_secs = 3600;
  jitter = half;
}

abbrev pub cold_start : RetryConfig
cold_start = record {
  initial_delay_ms = 2000;
  max_delay_ms = 4000;
  multiplier = 2;
  max_attempts = 2;
  max_elapsed_secs = 30;
  jitter = no_jitter;
}

abbrev pub u64_max : ℕ
u64_max = 2 ^ 64 - 1

abbrev pub u32_max : ℕ
u32_max = 2 ^ 32 - 1

-- `saturating_mul` and `saturating_pow` of u64
pub saturating_mul : ℕ → ℕ → ℕ
saturating_mul a b = min (a * b) u64_max

pub saturating_pow : ℕ → ℕ → ℕ
saturating_pow m n = min (m ^ n) u64_max

-- The cap on one delay, before the jitter is drawn.
unfoldable pub base_delay : RetryConfig → ℕ → ℕ
base_delay config attempt =
    min (saturating_mul config.initial_delay_ms (saturating_pow config.multiplier attempt))
      config.max_delay_ms

-- `draw n` is `fastrand::u64(0..n)`, which the program takes from a library.
unfoldable pub apply_jitter : (ℕ → ℕ) → JitterKind → ℕ → ℕ
apply_jitter draw no_jitter base = base
apply_jitter draw half base = if base / 2 == 0 then base else base / 2 + draw (base / 2)
apply_jitter draw full base = if base == 0 then 0 else draw base

unfoldable pub compute_delay : (ℕ → ℕ) → RetryConfig → ℕ → ℕ
compute_delay draw config attempt = apply_jitter draw config.jitter (base_delay config attempt)

pub data AttemptOutcome : Type 0 where
  transient hard_failure success : AttemptOutcome

-- An `Instant` is a number of milliseconds on the monotonic clock.
pub record CircuitBreaker : Type 0 where
  pub threshold : ℕ
  pub cooldown : ℕ
  pub consecutive_failures : ℕ
  pub open_until : Option ℕ

unfoldable pub new : ℕ → ℕ → CircuitBreaker
new threshold cooldown = record {
  threshold = threshold;
  cooldown = cooldown;
  consecutive_failures = 0;
  open_until = none;
}

-- `now` is the instant at which the outcome is recorded.
unfoldable pub record_outcome : CircuitBreaker → ℕ → AttemptOutcome → CircuitBreaker × Bool
record_outcome cb now success = (record cb { consecutive_failures = 0 }, false)
record_outcome cb now transient = (record cb { consecutive_failures = 0 }, false)
record_outcome cb now hard_failure =
    let failures = min (cb.consecutive_failures + 1) u32_max in
    if leb (max cb.threshold 1) failures
    then (
      record cb { consecutive_failures = failures; open_until = some (now + cb.cooldown) },
      true,
    )
    else (record cb { consecutive_failures = failures }, false)

unfoldable pub is_open : CircuitBreaker → ℕ → Bool
is_open cb now = elim cb.open_until [ none ↦ false | some deadline ↦ ltb now deadline ]

unfoldable pub reset : CircuitBreaker → CircuitBreaker
reset cb = record cb { consecutive_failures = 0; open_until = none }

-- A job records its attempts in turn, and goes on until `record` says to abort.
unfoldable pub run : CircuitBreaker → List (ℕ × AttemptOutcome) → CircuitBreaker × Bool
run cb [] = (cb, false)
run cb ((now, outcome) ∷ rest) =
    let (cb', abort) = record_outcome cb now outcome in
    let later = run cb' rest in if abort then (cb', true) else later
