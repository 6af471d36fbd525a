-- ===== src/Retry/Examples.antt =====
-- src/retry.rs at concrete inputs.
use sqlite_graphrag.Base.{ℕ, ◌-◌, ◌/◌, ◌≤◌, ◌<◌, max, ◌≡◌, ◌≢◌, ◌↔◌, true, [], ◌∷◌, arith}
use sqlite_graphrag.Retry.{
  half, full, sqlite_busy, llm_rate_limit, base_delay, compute_delay, hard_failure, success, new,
  run, u32_max,
}
use sqlite_graphrag.Retry.Delay.{Draws, compute_delay_bounds, llm_delay_bounds}
use sqlite_graphrag.Retry.Breaker.{Attempts, HasStreak, run_aborts_iff}

-- The greatest number below the bound.
abbrev last_draw : ℕ → ℕ
last_draw n = n - 1

last_draw-Draws : Draws last_draw
last_draw-Draws n h = omega (arith, h)

compute_delay_bounds_example :
    (compute_delay last_draw sqlite_busy 3 ≤ sqlite_busy.max_delay_ms)
    × (sqlite_busy.jitter ≢ full
        → base_delay sqlite_busy 3 / 2 ≤ compute_delay last_draw sqlite_busy 3)
    × (sqlite_busy.jitter ≡ half
        → 2 ≤ base_delay sqlite_busy 3
        → compute_delay last_draw sqlite_busy 3 < base_delay sqlite_busy 3)
compute_delay_bounds_example = compute_delay_bounds last_draw last_draw-Draws sqlite_busy 3

llm_delay_bounds_example :
    (30000 ≤ compute_delay last_draw llm_rate_limit 7)
    × (compute_delay last_draw llm_rate_limit 7 < 900000)
llm_delay_bounds_example = llm_delay_bounds last_draw last_draw-Draws 7

abbrev attempts : Attempts
attempts = (1, hard_failure) ∷ (2, success) ∷ (3, hard_failure) ∷ (4, hard_failure) ∷ []

within_u32 : max 2 1 ≤ u32_max
within_u32 = omega arith

run_aborts_iff_example : ((run (new 2 1000) attempts).1 ≡ true) ↔ HasStreak (max 2 1) attempts
run_aborts_iff_example = run_aborts_iff 2 1000 attempts within_u32
